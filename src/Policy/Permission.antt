-- ===== src/Policy/Permission.antt =====
-- Users, roles, resources and grants: crates/enterprise-permission-core/src/lib.rs.
pub mod Store
pub mod Organization
pub mod Inherited
pub mod Routes
pub mod Offboarding
pub mod Freshness
pub mod Server
use connor_agent_core.Common.{
  ℕ, suc, ◌+◌, String, Bool, true, false, not, ◌&&◌, ◌||◌, Option, none, some, List, [], ◌∷◌, ◌++◌,
  if◌then◌else◌, ◌==◌, nat_eq, ltb, any, keep,
}
use connor_agent_core.Common.Dict.{Dict, get, insert}
use connor_agent_core.Domain.Descriptors.{Time}

pub data EnterpriseUserLifecycle : Type 0 where
  active suspended disabled offboarded : EnterpriseUserLifecycle

-- `EnterpriseUserLifecycle::is_active`
abbrev pub lifecycle_is_active : EnterpriseUserLifecycle → Bool
lifecycle_is_active active = true
lifecycle_is_active _ = false

-- `matches!(…, Offboarded)`
abbrev pub is_offboarded : EnterpriseUserLifecycle → Bool
is_offboarded offboarded = true
is_offboarded _ = false

pub record EnterpriseUserStatus : Type 0 where
  pub user_id : String
  pub lifecycle : EnterpriseUserLifecycle
  pub changed_at : Time
  pub reason : Option String

-- `EnterpriseUserStatus::active`
abbrev pub active_status : String → Time → EnterpriseUserStatus
active_status user_id changed_at = record {
  user_id = user_id;
  lifecycle = active;
  changed_at = changed_at;
  reason = none;
}

-- `EnterpriseUserStatus::can_transition_to`
abbrev pub can_transition_to : EnterpriseUserStatus → EnterpriseUserLifecycle → Bool
can_transition_to status next = not (is_offboarded status.lifecycle) || is_offboarded next

pub data EnterpriseRole : Type 0 where
  user admin super_admin : EnterpriseRole

abbrev pub is_super_admin : EnterpriseRole → Bool
is_super_admin super_admin = true
is_super_admin _ = false

abbrev pub is_admin : EnterpriseRole → Bool
is_admin admin = true
is_admin _ = false

pub data ResourceType : Type 0 where
  conversation_resource action_resource knowledge_base file_area file asset search_result :
      ResourceType
  answer_cache_evidence : ResourceType

-- the place of a variant in its type, by which the derived `==` compares
abbrev resource_variant : ResourceType → ℕ
resource_variant conversation_resource = 0
resource_variant action_resource = 1
resource_variant knowledge_base = 2
resource_variant file_area = 3
resource_variant file = 4
resource_variant asset = 5
resource_variant search_result = 6
resource_variant answer_cache_evidence = 7

-- `==` of `ResourceType`
abbrev pub same_resource_type : ResourceType → ResourceType → Bool
same_resource_type a b = nat_eq (resource_variant a) (resource_variant b)

-- `Display` of `ResourceType`
abbrev pub display_resource_type : ResourceType → String
display_resource_type conversation_resource = "conversation"
display_resource_type action_resource = "action"
display_resource_type knowledge_base = "knowledge_base"
display_resource_type file_area = "file_area"
display_resource_type file = "file"
display_resource_type asset = "asset"
display_resource_type search_result = "search_result"
display_resource_type answer_cache_evidence = "answer_cache_evidence"

pub data PermissionAction : Type 0 where
  read_action write_action delete_action admin_action : PermissionAction

abbrev action_variant : PermissionAction → ℕ
action_variant read_action = 0
action_variant write_action = 1
action_variant delete_action = 2
action_variant admin_action = 3

-- `==` of `PermissionAction`
abbrev pub same_action : PermissionAction → PermissionAction → Bool
same_action a b = nat_eq (action_variant a) (action_variant b)

-- `Display` of `PermissionAction`
abbrev pub display_action : PermissionAction → String
display_action read_action = "read"
display_action write_action = "write"
display_action delete_action = "delete"
display_action admin_action = "admin"

pub record PermissionGrant : Type 0 where
  pub grant_id : String
  pub user_id : String
  pub role : EnterpriseRole
  pub resource_type : ResourceType
  pub resource_id : String
  pub actions : List PermissionAction
  pub granted_at : Time
  pub expires_at : Option Time
  pub revoked : Bool

abbrev pub is_before_expiry : Option Time → Time → Bool
is_before_expiry none now = true
is_before_expiry (some expires) now = ltb now expires

-- `PermissionGrant::is_active`
abbrev pub grant_is_active : PermissionGrant → Time → Bool
grant_is_active g now = if g.revoked then false else is_before_expiry g.expires_at now

-- `PermissionGrant::allows`
abbrev pub allows : PermissionGrant → PermissionAction → Bool
allows g action = any (λ a. same_action a action) g.actions

-- the resource and the action that a check asks for
abbrev pub is_for : ResourceType → String → PermissionAction → PermissionGrant → Bool
is_for resource_type resource_id action g =
    same_resource_type g.resource_type resource_type
    && ((g.resource_id == resource_id) && allows g action)

pub data PermissionDecision : Type 0 where
  allow deny : PermissionDecision

abbrev pub is_allowed : PermissionDecision → Bool
is_allowed allow = true
is_allowed deny = false
