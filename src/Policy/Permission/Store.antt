-- ===== src/Policy/Permission/Store.antt =====
-- `PermissionStore`: crates/enterprise-permission-core/src/lib.rs.
use connor_agent_core.Common.{
  ℕ, suc, String, Bool, true, false, not, ◌&&◌, Option, none, some, List, [], ◌∷◌, ◌++◌,
  if◌then◌else◌, ◌==◌, any, keep,
}
use connor_agent_core.Common.Dict.{Dict, get, insert}
use connor_agent_core.Domain.Descriptors.{Time}
use connor_agent_core.Policy.Permission.{
  EnterpriseUserLifecycle, EnterpriseUserStatus, EnterpriseRole, ResourceType, PermissionAction,
  PermissionGrant, PermissionDecision, active, allow, deny, read_action, lifecycle_is_active,
  can_transition_to, is_super_admin, is_admin, same_action, grant_is_active, is_for,
}

pub record PermissionStore : Type 0 where
  pub grants : List PermissionGrant
  pub user_lifecycles : Dict EnterpriseUserStatus

-- `PermissionStore::new`
abbrev pub new_store : PermissionStore
new_store = record { grants = []; user_lifecycles = [] }

unfoldable pub add_grant : PermissionGrant → PermissionStore → PermissionStore
add_grant g s = record s { grants = s.grants ++ g ∷ [] }

-- `grants.iter_mut().find(…)` and the write
abbrev pub revoke_first : String → List PermissionGrant → Bool × List PermissionGrant
revoke_first grant_id [] = (false, [])
revoke_first grant_id (g ∷ gs) =
    let (found, rest) = revoke_first grant_id gs in
    if g.grant_id == grant_id then (true, record g { revoked = true } ∷ gs) else (found, g ∷ rest)

unfoldable pub revoke_grant : String → PermissionStore → Bool × PermissionStore
revoke_grant grant_id s =
    let (found, grants) = revoke_first grant_id s.grants in (found, record s { grants = grants })

-- the loop of `revoke_all_grants_for_user`
abbrev pub revoke_all : String → List PermissionGrant → ℕ × List PermissionGrant
revoke_all user_id [] = (0, [])
revoke_all user_id (g ∷ gs) =
    let (revoked, rest) = revoke_all user_id gs in
    if (g.user_id == user_id) && not g.revoked
    then (suc revoked, record g { revoked = true } ∷ rest)
    else (revoked, g ∷ rest)

unfoldable pub revoke_all_grants_for_user : String → PermissionStore → ℕ × PermissionStore
revoke_all_grants_for_user user_id s =
    let (revoked, grants) = revoke_all user_id s.grants in (revoked, record s { grants = grants })

-- `existing.can_transition_to(…)`, where there is one
abbrev pub may_become : Option EnterpriseUserStatus → EnterpriseUserLifecycle → Bool
may_become none next = true
may_become (some existing) next = can_transition_to existing next

unfoldable pub set_user_lifecycle : EnterpriseUserStatus → PermissionStore → Bool × PermissionStore
set_user_lifecycle status s =
    if may_become (get status.user_id s.user_lifecycles) status.lifecycle
    then (true, record s { user_lifecycles = insert status.user_id status s.user_lifecycles })
    else (false, s)

abbrev pub lifecycle_or_active : Option EnterpriseUserStatus → EnterpriseUserLifecycle
lifecycle_or_active none = active
lifecycle_or_active (some status) = status.lifecycle

abbrev pub get_user_lifecycle : String → PermissionStore → EnterpriseUserLifecycle
get_user_lifecycle user_id s = lifecycle_or_active (get user_id s.user_lifecycles)

abbrev pub is_user_active : String → PermissionStore → Bool
is_user_active user_id s = lifecycle_is_active (get_user_lifecycle user_id s)

abbrev pub decide_by : Bool → PermissionDecision
decide_by true = allow
decide_by false = deny

-- `check`: the filter finds a grant
unfoldable pub check :
    String → ResourceType → String → PermissionAction → Time → PermissionStore → PermissionDecision
check user_id resource_type resource_id action now s =
    if is_user_active user_id s
    then decide_by (
        any
          (λ (g : PermissionGrant).
            (g.user_id == user_id)
            && (grant_is_active g now && is_for resource_type resource_id action g))
          s.grants)
    else deny

unfoldable pub check_with_role :
    String
    → EnterpriseRole
    → ResourceType
    → String
    → PermissionAction
    → Time
    → PermissionStore
    → PermissionDecision
unfolding check
check_with_role user_id role resource_type resource_id action now s =
    if is_user_active user_id s
    then if is_super_admin role
      then allow
      else if is_admin role && same_action action read_action
      then allow
      else check user_id resource_type resource_id action now s
    else deny

abbrev pub get_grants_for_user : String → PermissionStore → List PermissionGrant
get_grants_for_user user_id s = keep (λ (g : PermissionGrant). g.user_id == user_id) s.grants
