-- ===== src/Policy/Capability.antt =====
-- The capability policy: crates/capability-policy/src/lib.rs, with the side effects and the
-- registry of crates/action-core/src/lib.rs.
pub mod Evaluate
pub mod Restriction
pub mod PolicyFile
pub mod InForce
pub mod Receipt
use connor_agent_core.Common.{
  ℕ, String, Bool, true, false, Option, none, some, List, [], ◌∷◌, if◌then◌else◌, find, nat_eq,
}
use connor_agent_core.Common.Dict.{Dict, get, contains, insert}
use connor_agent_core.Common.Format.{format}
use connor_agent_core.Domain.Descriptors.{Time, Json}
use connor_agent_core.Domain.Action.{ActionRequest}
use connor_agent_core.Policy.Permission.{
  EnterpriseRole, PermissionAction, PermissionDecision, ResourceType, user, display_action,
  display_resource_type, allow as permission_allow, deny as permission_deny,
}
use connor_agent_core.Policy.Permission.Store.{PermissionStore, check_with_role}

pub data SideEffectKind : Type 0 where
  no_side_effects read_only runtime_state_mutation file_system_mutation network_access :
      SideEffectKind
  external_system_mutation ui_side_effect device_control : SideEffectKind
  sensitive_profile_mutation : SideEffectKind

abbrev pub effect_variant : SideEffectKind → ℕ
effect_variant no_side_effects = 0
effect_variant read_only = 1
effect_variant runtime_state_mutation = 2
effect_variant file_system_mutation = 3
effect_variant network_access = 4
effect_variant external_system_mutation = 5
effect_variant ui_side_effect = 6
effect_variant device_control = 7
effect_variant sensitive_profile_mutation = 8

-- `==` of `SideEffectKind`
abbrev pub same_effect : SideEffectKind → SideEffectKind → Bool
same_effect a b = nat_eq (effect_variant a) (effect_variant b)

-- `{:?}` of `SideEffectKind`
abbrev pub debug_effect : SideEffectKind → String
debug_effect no_side_effects = "None"
debug_effect read_only = "ReadOnly"
debug_effect runtime_state_mutation = "RuntimeStateMutation"
debug_effect file_system_mutation = "FileSystemMutation"
debug_effect network_access = "NetworkAccess"
debug_effect external_system_mutation = "ExternalSystemMutation"
debug_effect ui_side_effect = "UiSideEffect"
debug_effect device_control = "DeviceControl"
debug_effect sensitive_profile_mutation = "SensitiveProfileMutation"

pub record ActionSchema : Type 0 where
  pub kind : String
  pub display_name : String
  pub description : String
  pub side_effect : SideEffectKind
  pub input_schema : Option Json
  pub output_schema : Option Json

abbrev pub ActionRegistry : Type 0
ActionRegistry = Dict ActionSchema

pub data RegisterResult : Type 0 where
  registered : RegisterResult
  duplicate_action_kind : String → RegisterResult

-- `ActionRegistry::register`
unfoldable pub register : ActionSchema → ActionRegistry → RegisterResult × ActionRegistry
register schema r =
    if contains schema.kind r
    then (duplicate_action_kind schema.kind, r)
    else (registered, insert schema.kind schema r)

pub data PolicyDecision : Type 0 where
  allow : PolicyDecision
  ask deny : String → PolicyDecision

-- `PolicyDecision::is_allowed`
abbrev pub is_allowed : PolicyDecision → Bool
is_allowed allow = true
is_allowed _ = false

-- `PolicyDecision::is_denied`
abbrev pub is_denied : PolicyDecision → Bool
is_denied (deny reason) = true
is_denied _ = false

pub data PolicyRuleDecision : Type 0 where
  allow_rule ask_rule deny_rule : PolicyRuleDecision

pub record PolicyRule : Type 0 where
  pub side_effect : SideEffectKind
  pub decision : PolicyRuleDecision

pub data PolicyMatchedRule : Type 0 where
  rule : SideEffectKind → PolicyMatchedRule
  default : PolicyMatchedRule
  enterprise_permission :
      ResourceType → String → PermissionAction → PermissionDecision → PolicyMatchedRule

pub record PolicyExplanation : Type 0 where
  pub action_kind : String
  pub side_effect : SideEffectKind
  pub decision : PolicyRuleDecision
  pub matched_rule : PolicyMatchedRule
  pub risk_summary : String
  pub user_facing_reason : String

pub record PolicyEvaluation : Type 0 where
  pub decision : PolicyDecision
  pub explanation : PolicyExplanation

pub record PolicyActorContext : Type 0 where
  pub actor_id : String
  pub enterprise_user_id : Option String
  pub enterprise_role : Option EnterpriseRole

pub record PolicySessionContext : Type 0 where
  pub conversation_id : Option String
  pub session_id : Option String

pub record PolicyServerContext : Type 0 where
  pub server_id : Option String
  pub provider : Option String
  pub domain : Option String

pub record PolicyResourceContext : Type 0 where
  pub resource_type : ResourceType
  pub resource_id : String
  pub permission_action : PermissionAction

pub record PolicyEvaluationContext : Type 0 where
  pub actor : Option PolicyActorContext
  pub session : Option PolicySessionContext
  pub server : Option PolicyServerContext
  pub resource : Option PolicyResourceContext

pub record CapabilityPolicy : Type 0 where
  pub rules : List PolicyRule
  pub default_decision : PolicyRuleDecision
