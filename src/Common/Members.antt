-- ===== src/Common/Members.antt =====
-- Members of lists, and the tests that find one.
use mathlib.Core.Path.{◌≡◌, refl, sym, ap, ◌∙◌}
use mathlib.Core.Logic.{◌↔◌, inl, inr}
use mathlib.Core.Bool.{Bool, true, ◌||◌, ◌&&◌}
use mathlib.Core.List.{List, [], ◌∷◌, ◌++◌}
use native.Mathlib.Omega.{arith}
use connor_agent_core.Common.Tests.{Bool-cases}
use connor_agent_core.Common.Lists.{any, keep}

pub data Member {ℓ} {A : Type ℓ} (a : A) : List A → Type ℓ where
  here : {x : A} {xs : List A} → a ≡ x → Member a (x ∷ xs)
  there : {x : A} {xs : List A} → Member a xs → Member a (x ∷ xs)

module _ {ℓ} {A : Type ℓ} where
  -- a member that passes the test
  abbrev pub Found : (A → Bool) → List A → Type ℓ
  Found p xs = (a : A) × Member a xs × (p a ≡ true)

  any-Found : (p : A → Bool) (xs : List A) → any p xs ≡ true → Found p xs
  any-Found p [] e = cc
  any-Found p (x ∷ xs) e = elim (Bool-cases (p x)) [
    | inl hit ↦ (x, here refl, hit)
    | inr miss ↦ let (a, m, h) = any-Found p xs (ground (arith, e, miss)) in (a, there m, h)
  ]

  Found-any : (p : A → Bool) (xs : List A) (a : A) → Member a xs → p a ≡ true → any p xs ≡ true
  Found-any p [] a m h = elim m [ ]
  Found-any p (x ∷ xs) a (here e) h = ground (arith, sym (ap p e) ∙ h)
  Found-any p (x ∷ xs) a (there m) h = ground (arith, Found-any p xs a m h)

  pub any_iff : (p : A → Bool) (xs : List A) → any p xs ≡ true ↔ Found p xs
  any_iff p xs = (any-Found p xs, λ f. Found-any p xs f.0 f.1 f.2)

  pub any-append : (p : A → Bool) (xs ys : List A) → any p (xs ++ ys) ≡ (any p xs || any p ys)
  any-append p [] ys = refl
  any-append p (x ∷ xs) ys = ground (arith, any-append p xs ys)

  pub any-keep : (p q : A → Bool) (xs : List A) → any p (keep q xs) ≡ any (λ x. q x && p x) xs
  any-keep p q [] = refl
  any-keep p q (x ∷ xs) = ground (arith, any-keep p q xs)
