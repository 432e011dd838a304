-- ===== src/Policy/Capability/InForce.antt =====
-- That the rules of an accepted policy file are in force, and which are not:
-- crates/capability-policy/src/lib.rs.
use connor_agent_core.Common.{
  ℕ, String, Bool, true, false, ◌≡◌, refl, ap, subst, subst⁻¹, some, List, [], ◌∷◌, ◌++◌, arith,
  any, find, Bool-cases, inl, inr,
}
use connor_agent_core.Common.Members.{Member, here, there, any-append}
use connor_agent_core.Common.Format.{format}
use connor_agent_core.Domain.Action.{ActionRequest}
use connor_agent_core.Policy.Capability.{
  SideEffectKind, PolicyRule, CapabilityPolicy, same_effect, debug_effect,
}
use connor_agent_core.Policy.Capability.Evaluate.{
  evaluate, evaluate_with_explanation, user_facing_reason, decision_of,
}
use connor_agent_core.Policy.Capability.PolicyFile.{
  PolicyDiagnostic, PolicyFileDocument, PolicyLoadResult, PolicyValidationReport, loaded,
  validation_failed, is_valid, is_error, when, check_version, check_side_effects, error_diagnostic,
  PolicyDiagnosticCode, duplicate_side_effect_rule, validate, into_capability_policy,
}

abbrev rules_of : PolicyLoadResult → List PolicyRule
rules_of (loaded p) = p.rules
rules_of (validation_failed report) = []

same_effect_self : (e : SideEffectKind) → same_effect e e ≡ true
same_effect_self e = ground arith

is_valid-append :
    (front back : PolicyValidationReport)
    → is_valid (front ++ back) ≡ true
    → (is_valid front ≡ true) × (is_valid back ≡ true)
is_valid-append front back h =
    let apart = any-append (λ (d : PolicyDiagnostic). is_error d.severity) front back in
    (ground (arith, h, apart), ground (arith, h, apart))

when-is_valid :
    (b : Bool) (code : PolicyDiagnosticCode) (path message : String) (rest : PolicyValidationReport)
    → is_valid (when b (error_diagnostic code path message) ++ rest) ≡ true
    → (b ≡ false) × (is_valid rest ≡ true)
when-is_valid true code path message rest h = cc
when-is_valid false code path message rest h = (refl, h)

-- the test of the first rule, and of those after it
check_side_effects-cons :
    (seen : List SideEffectKind) (x : PolicyRule) (xs : List PolicyRule)
    → is_valid (check_side_effects seen (x ∷ xs)) ≡ true
    → (any (λ e. same_effect e x.side_effect) seen ≡ false)
      × (is_valid (check_side_effects (x.side_effect ∷ seen) xs) ≡ true)
check_side_effects-cons seen x xs h =
    when-is_valid (any (λ e. same_effect e x.side_effect) seen) duplicate_side_effect_rule
      "side_effect_rules"
      (format ("duplicate side effect rule: " ∷ debug_effect x.side_effect ∷ []))
      (check_side_effects (x.side_effect ∷ seen) xs) h

-- No rule of a list that passes repeats a side effect seen before.
check_side_effects-unseen :
    (seen : List SideEffectKind) (rs : List PolicyRule) (r : PolicyRule)
    → is_valid (check_side_effects seen rs) ≡ true
    → Member r rs
    → any (λ e. same_effect e r.side_effect) seen ≡ false
check_side_effects-unseen seen [] r h m = elim m [ ]
check_side_effects-unseen seen (x ∷ xs) r h (here e) =
    subst⁻¹ (λ (y : PolicyRule). any (λ e. same_effect e y.side_effect) seen ≡ false) e
      (check_side_effects-cons seen x xs h).0
check_side_effects-unseen seen (x ∷ xs) r h (there m) =
    let later =
      check_side_effects-unseen (x.side_effect ∷ seen) xs r (check_side_effects-cons seen x xs h).1
        m in
    ground (arith, later)

check_side_effects-find :
    (seen : List SideEffectKind) (rs : List PolicyRule) (r : PolicyRule)
    → is_valid (check_side_effects seen rs) ≡ true
    → Member r rs
    → find (λ (x : PolicyRule). same_effect x.side_effect r.side_effect) rs ≡ some r
check_side_effects-find seen [] r h m = elim m [ ]
check_side_effects-find seen (x ∷ xs) r h (here e) =
    subst⁻¹
      (λ (y : PolicyRule).
        find (λ (z : PolicyRule). same_effect z.side_effect y.side_effect) (x ∷ xs) ≡ some y)
      e (rw (same_effect_self x.side_effect) refl)
check_side_effects-find seen (x ∷ xs) r h (there m) =
    let unseen =
      check_side_effects-unseen (x.side_effect ∷ seen) xs r (check_side_effects-cons seen x xs h).1
        m in
    let later =
      check_side_effects-find (x.side_effect ∷ seen) xs r (check_side_effects-cons seen x xs h).1
        m in
    ground (arith, unseen, later)

-- what an accepted file becomes, and that it has passed
into_capability_policy-loaded :
    (is_blank : String → Bool) (display : ℕ → String) (d : PolicyFileDocument)
    (p : CapabilityPolicy)
    → into_capability_policy is_blank display d ≡ loaded p
    → (d.side_effect_rules ≡ p.rules) × (is_valid (validate is_blank display d) ≡ true)
unfolding into_capability_policy
into_capability_policy-loaded is_blank display d p e =
    elim (Bool-cases (is_valid (validate is_blank display d))) [
      | inl good ↦ (ap rules_of (rw good at e), good)
      | inr bad ↦ cc
    ]

evaluate-find :
    (p : CapabilityPolicy) (request : ActionRequest) (r : PolicyRule)
    → find (λ (x : PolicyRule). same_effect x.side_effect r.side_effect) p.rules ≡ some r
    → evaluate p request r.side_effect
      ≡ decision_of r.decision (user_facing_reason r.decision r.side_effect)
unfolding evaluate evaluate_with_explanation
evaluate-find p request r e = rw e refl

-- Every rule by side effect of a file that is accepted is in force, at whatever place it stands: an
-- action with its side effect gets its decision.
pub into_capability_policy-InForce :
    (is_blank : String → Bool) (display : ℕ → String) (d : PolicyFileDocument)
    (p : CapabilityPolicy) (r : PolicyRule) (request : ActionRequest)
    → into_capability_policy is_blank display d ≡ loaded p
    → Member r d.side_effect_rules
    → evaluate p request r.side_effect
      ≡ decision_of r.decision (user_facing_reason r.decision r.side_effect)
unfolding validate
into_capability_policy-InForce is_blank display d p r request e m =
    let (same, good) = into_capability_policy-loaded is_blank display d p e in
    let checked =
      (is_valid-append (check_side_effects [] d.side_effect_rules) _
        (is_valid-append (check_version is_blank display d.version) _ good).1).0 in
    evaluate-find p request r (
      subst
        (λ (rs : List PolicyRule).
          find (λ (x : PolicyRule). same_effect x.side_effect r.side_effect) rs ≡ some r)
        same (check_side_effects-find [] d.side_effect_rules r checked m))
