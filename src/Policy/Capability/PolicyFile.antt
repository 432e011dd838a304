-- ===== src/Policy/Capability/PolicyFile.antt =====
-- The policy file, its validation and its conversion: `PolicyFileDocument` of
-- crates/capability-policy/src/lib.rs. Reading the file and its TOML is not in this repository.
-- `is_blank` is `trim().is_empty()` and `display` writes a number, both of the standard library.
use connor_agent_core.Common.{
  ℕ, String, Bool, true, false, not, ◌&&◌, Option, none, some, List, [], ◌∷◌, ◌++◌, if◌then◌else◌,
  ◌==◌, ltb, any,
}
use connor_agent_core.Common.Format.{format}
use connor_agent_core.Policy.Capability.{
  SideEffectKind, PolicyRuleDecision, PolicyRule, CapabilityPolicy, same_effect, debug_effect,
  deny_rule,
}

abbrev pub current_policy_file_version : ℕ
current_policy_file_version = 1

pub record ActionKindPolicyRule : Type 0 where
  pub action_kind : String
  pub decision : PolicyRuleDecision

pub record ProviderDomainPolicyRule : Type 0 where
  pub provider : String
  pub domain : String
  pub decision : PolicyRuleDecision

pub record PolicyFileDocument : Type 0 where
  pub version : Option ℕ
  pub default_decision : PolicyRuleDecision
  pub side_effect_rules : List PolicyRule
  pub action_kind_rules : List ActionKindPolicyRule
  pub provider_domain_rules : List ProviderDomainPolicyRule

-- `PolicyFileDocument::default`
abbrev pub default_document : PolicyFileDocument
default_document = record {
  version = none;
  default_decision = deny_rule;
  side_effect_rules = [];
  action_kind_rules = [];
  provider_domain_rules = [];
}

pub data PolicyDiagnosticSeverity : Type 0 where
  error warning : PolicyDiagnosticSeverity

abbrev pub is_error : PolicyDiagnosticSeverity → Bool
is_error error = true
is_error warning = false

pub data PolicyDiagnosticCode : Type 0 where
  unsupported_policy_version duplicate_side_effect_rule : PolicyDiagnosticCode
  duplicate_action_kind_rule duplicate_provider_domain_rule : PolicyDiagnosticCode
  empty_action_kind empty_provider empty_domain : PolicyDiagnosticCode

pub record PolicyDiagnostic : Type 0 where
  pub severity : PolicyDiagnosticSeverity
  pub code : PolicyDiagnosticCode
  pub path : String
  pub message : String

-- `PolicyDiagnostic::error`
abbrev pub error_diagnostic : PolicyDiagnosticCode → String → String → PolicyDiagnostic
error_diagnostic code path message = record {
  severity = error;
  code = code;
  path = path;
  message = message;
}

abbrev pub PolicyValidationReport : Type 0
PolicyValidationReport = List PolicyDiagnostic

-- `PolicyValidationReport::is_valid`
abbrev pub is_valid : PolicyValidationReport → Bool
is_valid report = not (any (λ (d : PolicyDiagnostic). is_error d.severity) report)

abbrev pub when : Bool → PolicyDiagnostic → List PolicyDiagnostic
when true d = d ∷ []
when false d = []

-- the loop over `side_effect_rules`, with the set of those seen
abbrev pub check_side_effects : List SideEffectKind → List PolicyRule → List PolicyDiagnostic
check_side_effects seen [] = []
check_side_effects seen (r ∷ rs) =
    when (any (λ e. same_effect e r.side_effect) seen) (
      error_diagnostic duplicate_side_effect_rule "side_effect_rules"
        (format ("duplicate side effect rule: " ∷ debug_effect r.side_effect ∷ [])))
    ++ check_side_effects (r.side_effect ∷ seen) rs

-- `==` of the pairs in the set
abbrev pub same_pair : String × String → String × String → Bool
same_pair (p, d) (q, e) = (p == q) && (d == e)

module _ (is_blank : String → Bool) (display : ℕ → String) where
  abbrev pub check_version : Option ℕ → List PolicyDiagnostic
  check_version none = []
  check_version (some version) = when (ltb current_policy_file_version version) (
      error_diagnostic unsupported_policy_version "version" (
        format (
          "policy file version "
          ∷ display version
          ∷ " is newer than supported version "
          ∷ display current_policy_file_version
          ∷ [])))

  -- the loop over `action_kind_rules`
  abbrev pub check_action_kinds : List String → List ActionKindPolicyRule → List PolicyDiagnostic
  check_action_kinds seen [] = []
  check_action_kinds seen (r ∷ rs) =
      let unchanged = check_action_kinds seen rs in
      let extended = check_action_kinds (r.action_kind ∷ seen) rs in
      if is_blank r.action_kind
      then error_diagnostic empty_action_kind "action_kind_rules.action_kind"
          "action_kind must not be empty"
        ∷ unchanged
      else when (any (λ k. k == r.action_kind) seen) (
          error_diagnostic duplicate_action_kind_rule "action_kind_rules.action_kind"
            (format ("duplicate action kind rule: " ∷ r.action_kind ∷ [])))
        ++ extended

  -- the loop over `provider_domain_rules`
  abbrev pub check_provider_domains :
      List (String × String) → List ProviderDomainPolicyRule → List PolicyDiagnostic
  check_provider_domains seen [] = []
  check_provider_domains seen (r ∷ rs) =
      let unchanged = check_provider_domains seen rs in
      let extended = check_provider_domains ((r.provider, r.domain) ∷ seen) rs in
      when (is_blank r.provider) (
        error_diagnostic empty_provider "provider_domain_rules.provider"
          "provider must not be empty")
      ++ (when (is_blank r.domain) (
            error_diagnostic empty_domain "provider_domain_rules.domain" "domain must not be empty")
          ++ (if not (is_blank r.provider) && not (is_blank r.domain)
              then when (any (λ p. same_pair p (r.provider, r.domain)) seen) (
                  error_diagnostic duplicate_provider_domain_rule "provider_domain_rules" (
                    format ("duplicate provider/domain rule: " ∷ r.provider ∷ "/" ∷ r.domain ∷ [])))
                ++ extended
              else unchanged))

  -- `PolicyFileDocument::validate`
  unfoldable pub validate : PolicyFileDocument → PolicyValidationReport
  validate d =
      check_version d.version
      ++ (check_side_effects [] d.side_effect_rules
          ++ (check_action_kinds [] d.action_kind_rules
              ++ check_provider_domains [] d.provider_domain_rules))

pub data PolicyLoadResult : Type 0 where
  loaded : CapabilityPolicy → PolicyLoadResult
  validation_failed : PolicyValidationReport → PolicyLoadResult

module _ (is_blank : String → Bool) (display : ℕ → String) where
  -- `into_capability_policy`, which passes on the rules by side effect and no others
  unfoldable pub into_capability_policy : PolicyFileDocument → PolicyLoadResult
  unfolding validate
  into_capability_policy d =
      let report = validate is_blank display d in
      if is_valid report
      then loaded (record { rules = d.side_effect_rules; default_decision = d.default_decision })
      else validation_failed report
