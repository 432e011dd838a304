-- ===== src/Policy/Permission/Organization.antt =====
-- Grants inherited from organizations, teams and groups: `OrganizationalPermissionStore` of
-- crates/enterprise-permission-core/src/lib.rs.
use connor_agent_core.Common.{
  ℕ, ◌-◌, String, Bool, not, ◌&&◌, Option, none, some, List, [], ◌∷◌, ◌++◌, if◌then◌else◌, ◌==◌,
  any, keep, length, nat_eq,
}
use connor_agent_core.Domain.Descriptors.{Time}
use connor_agent_core.Policy.Permission.{
  EnterpriseRole, EnterpriseUserLifecycle, EnterpriseUserStatus, PermissionAction,
  PermissionDecision, PermissionGrant, ResourceType, deny, grant_is_active, is_before_expiry,
  is_for,
}
use connor_agent_core.Policy.Permission.Store.{
  PermissionStore, decide_by, new_store, add_grant, set_user_lifecycle, get_user_lifecycle,
  is_user_active, revoke_all_grants_for_user, get_grants_for_user,
}

pub data MembershipType : Type 0 where
  organization team group : MembershipType

abbrev membership_variant : MembershipType → ℕ
membership_variant organization = 0
membership_variant team = 1
membership_variant group = 2

-- `==` of `MembershipType`
abbrev pub same_membership_type : MembershipType → MembershipType → Bool
same_membership_type a b = nat_eq (membership_variant a) (membership_variant b)

pub record Membership : Type 0 where
  pub membership_id : String
  pub user_id : String
  pub membership_type : MembershipType
  pub org_id : Option String
  pub team_id : Option String
  pub group_id : Option String
  pub role : EnterpriseRole
  pub joined_at : Time
  pub expires_at : Option Time

-- `Membership::is_active`
abbrev pub membership_is_active : Membership → Time → Bool
membership_is_active m now = is_before_expiry m.expires_at now

pub data InheritanceSource : Type 0 where
  direct : InheritanceSource
  from_organization from_team from_group : String → InheritanceSource

pub record InheritedGrant : Type 0 where
  pub grant : PermissionGrant
  pub inherited_from : InheritanceSource

pub record OrganizationalPermissionStore : Type 0 where
  pub inner : PermissionStore
  pub memberships : List Membership
  pub org_grants : List (String × PermissionGrant)
  pub team_grants : List (String × PermissionGrant)
  pub group_grants : List (String × PermissionGrant)

-- `OrganizationalPermissionStore::new`
abbrev pub new_organization : OrganizationalPermissionStore
new_organization = record {
  inner = new_store;
  memberships = [];
  org_grants = [];
  team_grants = [];
  group_grants = [];
}

unfoldable pub add_membership :
    Membership → OrganizationalPermissionStore → OrganizationalPermissionStore
add_membership m s = record s { memberships = s.memberships ++ m ∷ [] }

unfoldable pub add_org_grant :
    String → PermissionGrant → OrganizationalPermissionStore → OrganizationalPermissionStore
add_org_grant org_id g s = record s { org_grants = s.org_grants ++ (org_id, g) ∷ [] }

unfoldable pub add_team_grant :
    String → PermissionGrant → OrganizationalPermissionStore → OrganizationalPermissionStore
add_team_grant team_id g s = record s { team_grants = s.team_grants ++ (team_id, g) ∷ [] }

unfoldable pub add_group_grant :
    String → PermissionGrant → OrganizationalPermissionStore → OrganizationalPermissionStore
add_group_grant group_id g s = record s { group_grants = s.group_grants ++ (group_id, g) ∷ [] }

unfoldable pub add_direct_grant :
    PermissionGrant → OrganizationalPermissionStore → OrganizationalPermissionStore
unfolding add_grant
add_direct_grant g s = record s { inner = add_grant g s.inner }

unfoldable pub org_set_user_lifecycle :
    EnterpriseUserStatus → OrganizationalPermissionStore → Bool × OrganizationalPermissionStore
unfolding set_user_lifecycle
org_set_user_lifecycle status s =
    let (changed, inner) = set_user_lifecycle status s.inner in
    (changed, record s { inner = inner })

abbrev pub org_get_user_lifecycle : String → OrganizationalPermissionStore → EnterpriseUserLifecycle
org_get_user_lifecycle user_id s = get_user_lifecycle user_id s.inner

unfoldable pub org_revoke_all_grants_for_user :
    String → OrganizationalPermissionStore → ℕ × OrganizationalPermissionStore
unfolding revoke_all_grants_for_user
org_revoke_all_grants_for_user user_id s =
    let (revoked, inner) = revoke_all_grants_for_user user_id s.inner in
    (revoked, record s { inner = inner })

unfoldable pub remove_all_memberships_for_user :
    String → OrganizationalPermissionStore → ℕ × OrganizationalPermissionStore
remove_all_memberships_for_user user_id s =
    let left = keep (λ (m : Membership). not (m.user_id == user_id)) s.memberships in
    (length s.memberships - length left, record s { memberships = left })

-- the loop over the grants of one organization, team or group
abbrev pub grants_of :
    String → InheritanceSource → Time → List (String × PermissionGrant) → List InheritedGrant
grants_of id source now [] = []
grants_of id source now ((owner, g) ∷ gs) =
    let rest = grants_of id source now gs in
    if (owner == id) && grant_is_active g now
    then record { grant = g; inherited_from = source } ∷ rest
    else rest

-- `if let Some(id) = …` in the loop over the memberships
abbrev pub grants_through :
    Bool
    → Option String
    → (String → InheritanceSource)
    → Time
    → List (String × PermissionGrant)
    → List InheritedGrant
grants_through applies none source now gs = []
grants_through applies (some id) source now gs =
    let found = grants_of id (source id) now gs in if applies then found else []

-- one of the three loops over the memberships
abbrev pub membership_grants :
    String
    → MembershipType
    → (Membership → Option String)
    → (String → InheritanceSource)
    → Time
    → List (String × PermissionGrant)
    → List Membership
    → List InheritedGrant
membership_grants user_id kind id_of source now gs [] = []
membership_grants user_id kind id_of source now gs (m ∷ ms) =
    grants_through
      ((m.user_id == user_id)
        && (same_membership_type m.membership_type kind && membership_is_active m now))
      (id_of m) source now gs
    ++ membership_grants user_id kind id_of source now gs ms

-- the loop over the direct grants
abbrev pub direct_grants : Time → List PermissionGrant → List InheritedGrant
direct_grants now [] = []
direct_grants now (g ∷ gs) =
    let rest = direct_grants now gs in
    if grant_is_active g now then record { grant = g; inherited_from = direct } ∷ rest else rest

unfoldable pub get_inherited_grants :
    String → Time → OrganizationalPermissionStore → List InheritedGrant
get_inherited_grants user_id now s =
    if is_user_active user_id s.inner
    then direct_grants now (get_grants_for_user user_id s.inner)
      ++ (membership_grants user_id organization (λ (m : Membership). m.org_id) from_organization
            now s.org_grants s.memberships
          ++ (membership_grants user_id team (λ (m : Membership). m.team_id) from_team now
                s.team_grants s.memberships
              ++ membership_grants user_id group (λ (m : Membership). m.group_id) from_group now
                  s.group_grants s.memberships))
    else []

-- `OrganizationalPermissionStore::check_with_inheritance`
unfoldable pub check_with_inheritance :
    String
    → ResourceType
    → String
    → PermissionAction
    → Time
    → OrganizationalPermissionStore
    → PermissionDecision
unfolding get_inherited_grants
check_with_inheritance user_id resource_type resource_id action now s =
    if is_user_active user_id s.inner
    then decide_by (
        any (λ (i : InheritedGrant). is_for resource_type resource_id action i.grant)
          (get_inherited_grants user_id now s))
    else deny
