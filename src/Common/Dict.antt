-- ===== src/Common/Dict.antt =====
-- `BTreeMap` and `HashMap` with text keys, as an association list. `insert` keeps it in the order of
-- the keys, which is that of a `BTreeMap`'s iteration. A `HashMap`'s is not specified: a model that
-- lists one takes the order of the list, one of those that the source may take.
use Prim.Native.String.{String}
use mathlib.Core.Path.{◌≡◌, refl, subst, subst₂}
use mathlib.Core.Logic.{inl, inr}
use mathlib.Core.Bool.{Bool, true, false}
use mathlib.Core.Option.{Option, none, some, some-injective}
use mathlib.Core.List.{List, [], ◌∷◌}
use native.Mathlib.Omega.{arith}
use text.Mathlib.TextEquality.{eq_iff}
use connor_agent_core.Common.Lists.{All}
use connor_agent_core.Common.Tests.{◌==◌, text_lt, if◌then◌else◌, Bool-cases, eq_self}

abbrev pub Dict {ℓ} : Type ℓ → Type ℓ
Dict V = List (String × V)

abbrev pub map_value {ℓ κ} : {V : Type ℓ} {W : Type κ} → (V → W) → Option V → Option W
map_value f none = none
map_value f (some v) = some (f v)

abbrev pub is_some {ℓ} : {V : Type ℓ} → Option V → Bool
is_some none = false
is_some (some v) = true

none-ne-some {ℓ} : {V : Type ℓ} {v : V} → none ≡ some v → ⊥
none-ne-some e = cc

module _ {ℓ} {V : Type ℓ} where
  -- m.get(k)
  unfoldable pub get : String → Dict V → Option V
  get k [] = none
  get k ((j, v) ∷ m) = if j == k then some v else get k m

  -- m.contains_key(k)
  unfoldable pub contains : String → Dict V → Bool
  unfolding get
  contains k m = is_some (get k m)

  -- if let Some(v) = m.get_mut(k) { *v = f(v) }
  unfoldable pub update : String → (V → V) → Dict V → Dict V
  update k f [] = []
  update k f ((j, w) ∷ m) = if j == k then (j, f w) ∷ m else (j, w) ∷ update k f m

  -- a new key, at its place in the order
  unfoldable pub place : String → V → Dict V → Dict V
  place k v [] = (k, v) ∷ []
  place k v ((j, w) ∷ m) =
      let rest = (j, w) ∷ place k v m in if text_lt k j then (k, v) ∷ (j, w) ∷ m else rest

  -- m.insert(k, v)
  unfoldable pub insert : String → V → Dict V → Dict V
  unfolding place contains update
  insert k v m = if contains k m then update k (λ w. v) m else place k v m

  -- m.remove(k)
  unfoldable pub remove : String → Dict V → Dict V
  remove k [] = []
  remove k ((j, w) ∷ m) = let rest = remove k m in if j == k then rest else (j, w) ∷ rest

  -- m.values()
  unfoldable pub values : Dict V → List V
  values [] = []
  values ((j, w) ∷ m) = w ∷ values m

  pub get-remove :
      (k j : String) (m : Dict V) → get j (remove k m) ≡ (if k == j then none else get j m)
  unfolding get remove
  get-remove k j [] = ground arith
  get-remove k j ((i, w) ∷ m) = ground (arith, eq_iff k j, eq_iff i k, eq_iff i j, get-remove k j m)

  pub get-update :
      (k j : String) (f : V → V) (m : Dict V)
      → get j (update k f m) ≡ (if k == j then map_value f (get j m) else get j m)
  unfolding get update
  get-update k j f [] = ground arith
  get-update k j f ((i, w) ∷ m) =
      ground (arith, eq_iff k j, eq_iff i k, eq_iff i j, get-update k j f m)

  pub contains_lem : (k : String) (m : Dict V) → contains k m ≡ is_some (get k m)
  unfolding contains
  contains_lem k m = refl

  get-place :
      (k j : String) (v : V) (m : Dict V)
      → get k m ≡ none
      → get j (place k v m) ≡ (if k == j then some v else get j m)
  unfolding get place
  get-place k j v [] h = refl
  get-place k j v ((i, w) ∷ m) h =
      grind (arith, eq_iff k j, eq_iff i k, eq_iff i j, get-place k j v m)

  pub get-insert :
      (k j : String) (v : V) (m : Dict V)
      → get j (insert k v m) ≡ (if k == j then some v else get j m)
  unfolding insert
  get-insert k j v m =
      ground (arith, contains_lem k m, get-place k j v m, get-update k j (λ w. v) m, eq_iff k j)

  -- No key stands twice.
  abbrev pub IsUnique : Dict V → Type ℓ
  IsUnique [] = Unit
  IsUnique ((k, v) ∷ m) = (get k m ≡ none) × IsUnique m

  pub update-IsUnique : (k : String) (f : V → V) (m : Dict V) → IsUnique m → IsUnique (update k f m)
  unfolding update
  update-IsUnique k f [] h = tt
  update-IsUnique k f ((i, w) ∷ m) h =
      ground (arith, h.0, h.1, update-IsUnique k f m h.1, get-update k i f m)

  place-IsUnique :
      (k : String) (v : V) (m : Dict V) → get k m ≡ none → IsUnique m → IsUnique (place k v m)
  unfolding place get
  place-IsUnique k v [] e h = (refl, tt)
  place-IsUnique k v ((i, w) ∷ m) e h =
      grind (arith, h.0, h.1, place-IsUnique k v m, get-place k i v m, eq_iff k i, eq_iff i k)

  pub insert-IsUnique : (k : String) (v : V) (m : Dict V) → IsUnique m → IsUnique (insert k v m)
  unfolding insert
  insert-IsUnique k v m h =
      grind (arith, contains_lem k m, update-IsUnique k (λ w. v) m h, place-IsUnique k v m)

  pub get-cons :
      (i k : String) (w v : V) (m : Dict V)
      → get i m ≡ none
      → get k m ≡ some v
      → get k ((i, w) ∷ m) ≡ some v
  unfolding get
  get-cons i k w v m u e = grind (arith, eq_iff i k)

  -- What holds of the values holds of what `get` finds.
  pub values-get {κ} :
      (P : V → Type κ) (k : String) (v : V) (m : Dict V) → All P (values m) → get k m ≡ some v → P v
  unfolding values get
  values-get P k v [] a e = absurd (none-ne-some e)
  values-get P k v ((i, w) ∷ m) a e = elim (Bool-cases (i == k)) [
    | inl same ↦ subst P (some-injective _ _ (rw same at e)) a.0
    | inr other ↦ values-get P k v m a.1 (rw other at e)
  ]

  -- What holds of all that `get` finds holds of the values.
  pub All-values {κ} :
      (P : V → Type κ) (m : Dict V)
      → IsUnique m
      → ((k : String) (v : V) → get k m ≡ some v → P v)
      → All P (values m)
  unfolding values get
  All-values P [] u h = tt
  All-values P ((i, w) ∷ m) u h =
      let rest =
        (λ (k : String) (v : V) (e : get k m ≡ some v). h k v (get-cons i k w v m u.0 e)) in
      (h i w (ground (arith, eq_self i)), All-values P m u.1 rest)

pub get_nil {ℓ} : {V : Type ℓ} (k : String) → get {V = V} k [] ≡ none
unfolding get
get_nil k = refl

pub ruleset dict_laws = (get-insert, get-remove, get-update, contains_lem)

-- Every entry satisfies `P`.
abbrev pub Entries {ℓ κ} : {V : Type ℓ} → (String → V → Type κ) → Dict V → Type (ℓ ⊔ κ)
Entries {V} P m = (k : String) (v : V) → get k m ≡ some v → P k v

module _ {ℓ κ} {V : Type ℓ} {P : String → V → Type κ} where
  pub insert-Entries :
      (k : String) (v : V) (m : Dict V) → P k v → Entries P m → Entries P (insert k v m)
  insert-Entries k v m p h j w e = elim (Bool-cases (k == j)) [
    | inl same ↦ subst₂ P ((eq_iff k j).0 same) (some-injective _ _ (rw (get-insert, same) at e)) p
    | inr other ↦ h j w (rw (get-insert, other) at e)
  ]

  pub remove-Entries : (k : String) (m : Dict V) → Entries P m → Entries P (remove k m)
  remove-Entries k m h j w e = elim (Bool-cases (k == j)) [
    | inl same ↦ absurd (none-ne-some (rw (get-remove, same) at e))
    | inr other ↦ h j w (rw (get-remove, other) at e)
  ]

map_value-some {ℓ κ} :
    {V : Type ℓ} {W : Type κ} (f : V → W) (o : Option V) {w : W}
    → map_value f o ≡ some w
    → (v : V) × (o ≡ some v) × (f v ≡ w)
map_value-some f none e = cc
map_value-some f (some v) e = (v, refl, some-injective _ _ e)

module _ {ℓ κ} {V : Type ℓ} {P Q : String → V → Type κ} where
  -- One entry changes, and what the others satisfy may change too.
  pub update-Entries_both :
      (k : String) (f : V → V) (m : Dict V)
      → ((v : V) → P k v → Q k (f v))
      → ((j : String) (v : V) → (k == j) ≡ false → P j v → Q j v)
      → Entries P m
      → Entries Q (update k f m)
  update-Entries_both k f m hit miss h j w e = elim (Bool-cases (k == j)) [
    | inl same ↦
        let (v, found, changed) = map_value-some f (get j m) (rw (get-update, same) at e) in
        let keys = (eq_iff k j).0 same in subst₂ Q keys changed (hit v (h k v (rw keys found)))
    | inr other ↦ miss j w other (h j w (rw (get-update, other) at e))
  ]

module _ {ℓ κ} {V : Type ℓ} {P : String → V → Type κ} where
  pub update-Entries :
      (k : String) (f : V → V) (m : Dict V)
      → ((v : V) → P k v → P k (f v))
      → Entries P m
      → Entries P (update k f m)
  update-Entries k f m hit = update-Entries_both k f m hit (λ j v ne p. p)
