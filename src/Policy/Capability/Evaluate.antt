-- ===== src/Policy/Capability/Evaluate.antt =====
-- The evaluation of an action: `CapabilityPolicy` of crates/capability-policy/src/lib.rs.
use connor_agent_core.Common.{String, Option, none, some, [], ◌∷◌, if◌then◌else◌, find}
use connor_agent_core.Common.Dict.{get}
use connor_agent_core.Common.Format.{format}
use connor_agent_core.Domain.Descriptors.{Time}
use connor_agent_core.Domain.Action.{ActionRequest}
use connor_agent_core.Policy.Permission.{
  EnterpriseRole, PermissionDecision, user, display_action, display_resource_type,
  allow as permission_allow, deny as permission_deny,
}
use connor_agent_core.Policy.Permission.Store.{PermissionStore, check_with_role}
use connor_agent_core.Policy.Capability.{
  SideEffectKind, ActionSchema, ActionRegistry, PolicyDecision, PolicyRuleDecision, PolicyRule,
  PolicyMatchedRule, PolicyEvaluation, PolicyActorContext, PolicyResourceContext,
  PolicyEvaluationContext, CapabilityPolicy, allow, ask, deny, allow_rule, ask_rule, deny_rule,
  rule, default, enterprise_permission, is_denied, same_effect, debug_effect, no_side_effects,
  read_only, runtime_state_mutation, file_system_mutation, network_access, external_system_mutation,
  ui_side_effect, device_control, sensitive_profile_mutation,
}

abbrev side_effect_rule : SideEffectKind → PolicyRuleDecision → PolicyRule
side_effect_rule effect decision = record { side_effect = effect; decision = decision }

-- `default_safe`
abbrev pub default_safe : CapabilityPolicy
default_safe = record {
  rules =
      side_effect_rule no_side_effects allow_rule
      ∷ side_effect_rule read_only allow_rule
      ∷ side_effect_rule runtime_state_mutation ask_rule
      ∷ side_effect_rule network_access ask_rule
      ∷ side_effect_rule ui_side_effect ask_rule
      ∷ side_effect_rule file_system_mutation deny_rule
      ∷ side_effect_rule external_system_mutation deny_rule
      ∷ side_effect_rule device_control deny_rule
      ∷ side_effect_rule sensitive_profile_mutation deny_rule
      ∷ [];
  default_decision = deny_rule;
}

abbrev pub user_facing_reason : PolicyRuleDecision → SideEffectKind → String
user_facing_reason allow_rule effect =
    format ("Action is allowed by policy: side_effect=" ∷ debug_effect effect ∷ [])
user_facing_reason ask_rule effect =
    format ("Action requires approval: side_effect=" ∷ debug_effect effect ∷ [])
user_facing_reason deny_rule effect =
    format ("Action denied by policy: side_effect=" ∷ debug_effect effect ∷ [])

abbrev pub risk_summary : SideEffectKind → String
risk_summary no_side_effects = "Low risk: action has no external side effects."
risk_summary read_only = "Low risk: action reads data without mutating external state."
risk_summary runtime_state_mutation = "approval recommended: action mutates runtime state."
risk_summary network_access = "approval recommended: action may access the network."
risk_summary ui_side_effect = "approval recommended: action may change user-visible UI state."
risk_summary file_system_mutation = "High risk: action may modify local filesystem data."
risk_summary external_system_mutation = "High risk: action may mutate an external system."
risk_summary device_control = "High risk: action may control local device hardware."
risk_summary sensitive_profile_mutation =
    "High risk: action may modify sensitive user profile data."

-- the `match` on the decision of the rule
abbrev pub decision_of : PolicyRuleDecision → String → PolicyDecision
decision_of allow_rule reason = allow
decision_of ask_rule reason = ask reason
decision_of deny_rule reason = deny reason

-- the decision that applies, and the rule that it comes from
abbrev pub applied : CapabilityPolicy → Option PolicyRule → PolicyRuleDecision × PolicyMatchedRule
applied p none = (p.default_decision, default)
applied p (some r) = (r.decision, rule r.side_effect)

abbrev pub explained :
    ActionRequest → SideEffectKind → PolicyRuleDecision × PolicyMatchedRule → PolicyEvaluation
explained request effect (decision, matched) = record {
  decision = decision_of decision (user_facing_reason decision effect);
  explanation = record {
    action_kind = request.action_kind;
    side_effect = effect;
    decision = decision;
    matched_rule = matched;
    risk_summary = risk_summary effect;
    user_facing_reason = user_facing_reason decision effect;
  };
}

unfoldable pub evaluate_with_explanation :
    CapabilityPolicy → ActionRequest → SideEffectKind → PolicyEvaluation
evaluate_with_explanation p request effect =
    explained request effect
      (applied p (find (λ (r : PolicyRule). same_effect r.side_effect effect) p.rules))

unfoldable pub evaluate : CapabilityPolicy → ActionRequest → SideEffectKind → PolicyDecision
unfolding evaluate_with_explanation
evaluate p request effect = (evaluate_with_explanation p request effect).decision

-- `registry.side_effect(…).cloned().unwrap_or(SideEffectKind::NetworkAccess)`
abbrev pub effect_or_network : Option ActionSchema → SideEffectKind
effect_or_network none = network_access
effect_or_network (some schema) = schema.side_effect

unfoldable pub evaluate_with_registry_explanation :
    CapabilityPolicy → ActionRequest → ActionRegistry → PolicyEvaluation
unfolding evaluate_with_explanation
evaluate_with_registry_explanation p request registry =
    evaluate_with_explanation p request (effect_or_network (get request.action_kind registry))

unfoldable pub evaluate_with_registry :
    CapabilityPolicy → ActionRequest → ActionRegistry → PolicyDecision
unfolding evaluate_with_registry_explanation
evaluate_with_registry p request registry =
    (evaluate_with_registry_explanation p request registry).decision

abbrev pub denial_reason : PolicyResourceContext → String
denial_reason resource = format (
    "Action denied by enterprise permission: resource="
    ∷ display_resource_type resource.resource_type
    ∷ ":"
    ∷ resource.resource_id
    ∷ " action="
    ∷ display_action resource.permission_action
    ∷ [])

abbrev pub enterprise_permission_denied :
    PolicyEvaluation → PolicyResourceContext → PolicyEvaluation
enterprise_permission_denied base resource = record {
  decision = deny (denial_reason resource);
  explanation = record base.explanation {
    decision = deny_rule;
    matched_rule =
        enterprise_permission resource.resource_type resource.resource_id resource.permission_action
          permission_deny;
    risk_summary = "High risk: enterprise resource access denied by permission policy.";
    user_facing_reason = denial_reason resource;
  };
}

-- `context.actor.as_ref().and_then(|actor| actor.enterprise_user_id.as_ref())`
abbrev pub user_of : Option PolicyActorContext → Option String
user_of none = none
user_of (some actor) = actor.enterprise_user_id

abbrev role_or_user : Option EnterpriseRole → EnterpriseRole
role_or_user none = user
role_or_user (some role) = role

-- `….and_then(|actor| actor.enterprise_role).unwrap_or(EnterpriseRole::User)`
abbrev pub role_of : Option PolicyActorContext → EnterpriseRole
role_of none = user
role_of (some actor) = role_or_user actor.enterprise_role

-- the `match` on the user and the store
abbrev pub permission_for :
    Option String
    → Option PermissionStore
    → EnterpriseRole
    → PolicyResourceContext
    → Time
    → PermissionDecision
permission_for (some user_id) (some store) role resource now =
    check_with_role user_id role resource.resource_type resource.resource_id
      resource.permission_action now store
permission_for _ _ role resource now = permission_deny

abbrev pub confirmed :
    PermissionDecision → PolicyEvaluation → PolicyResourceContext → PolicyEvaluation
confirmed permission_allow base resource = base
confirmed permission_deny base resource = enterprise_permission_denied base resource

abbrev pub for_resource :
    Option PolicyResourceContext
    → PolicyEvaluation
    → PolicyEvaluationContext
    → Option PermissionStore
    → Time
    → PolicyEvaluation
for_resource none base context store now = base
for_resource (some resource) base context store now =
    confirmed (permission_for (user_of context.actor) store (role_of context.actor) resource now)
      base resource

unfoldable pub apply_context :
    PolicyEvaluation → PolicyEvaluationContext → Option PermissionStore → Time → PolicyEvaluation
unfolding check_with_role
apply_context base context store now =
    if is_denied base.decision then base else for_resource context.resource base context store now

unfoldable pub evaluate_with_context :
    CapabilityPolicy
    → ActionRequest
    → SideEffectKind
    → PolicyEvaluationContext
    → Option PermissionStore
    → Time
    → PolicyEvaluation
unfolding evaluate_with_explanation apply_context
evaluate_with_context p request effect context store now =
    apply_context (evaluate_with_explanation p request effect) context store now

unfoldable pub evaluate_with_registry_and_context :
    CapabilityPolicy
    → ActionRequest
    → ActionRegistry
    → PolicyEvaluationContext
    → Option PermissionStore
    → Time
    → PolicyEvaluation
unfolding evaluate_with_context
evaluate_with_registry_and_context p request registry context store now =
    evaluate_with_context p request (effect_or_network (get request.action_kind registry)) context
      store now
