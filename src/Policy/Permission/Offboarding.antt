-- ===== src/Policy/Permission/Offboarding.antt =====
-- What becomes of a user who has left: the lifecycles of
-- crates/enterprise-permission-core/src/lib.rs under every sequence of changes to the store.
use connor_agent_core.Common.{String, Bool, true, ◌≡◌, List, [], ◌∷◌, arith, eq_iff}
use connor_agent_core.Common.Dict.{get-insert}
use connor_agent_core.Domain.Descriptors.{Time}
use connor_agent_core.Policy.Permission.{
  EnterpriseRole, EnterpriseUserStatus, PermissionAction, PermissionGrant, ResourceType, deny,
  is_offboarded,
}
use connor_agent_core.Policy.Permission.Store.{
  check, check_with_role, get_user_lifecycle, set_user_lifecycle, add_grant,
  revoke_all_grants_for_user,
}
use connor_agent_core.Policy.Permission.Organization.{
  Membership, OrganizationalPermissionStore, add_membership, add_org_grant, add_team_grant,
  add_group_grant, add_direct_grant, org_set_user_lifecycle, org_revoke_all_grants_for_user,
  remove_all_memberships_for_user, check_with_inheritance,
}

-- the methods that change an `OrganizationalPermissionStore`
pub data StoreCall : Type 0 where
  membership_call : Membership → StoreCall
  org_grant_call team_grant_call group_grant_call : String → PermissionGrant → StoreCall
  direct_grant_call : PermissionGrant → StoreCall
  lifecycle_call : EnterpriseUserStatus → StoreCall
  revoke_all_call remove_memberships_call : String → StoreCall

unfoldable pub call : OrganizationalPermissionStore → StoreCall → OrganizationalPermissionStore
unfolding add_membership add_org_grant add_team_grant add_group_grant add_direct_grant
    org_set_user_lifecycle org_revoke_all_grants_for_user remove_all_memberships_for_user
call s (membership_call m) = add_membership m s
call s (org_grant_call id g) = add_org_grant id g s
call s (team_grant_call id g) = add_team_grant id g s
call s (group_grant_call id g) = add_group_grant id g s
call s (direct_grant_call g) = add_direct_grant g s
call s (lifecycle_call status) = (org_set_user_lifecycle status s).1
call s (revoke_all_call user_id) = (org_revoke_all_grants_for_user user_id s).1
call s (remove_memberships_call user_id) = (remove_all_memberships_for_user user_id s).1

abbrev pub calls : OrganizationalPermissionStore → List StoreCall → OrganizationalPermissionStore
calls s [] = s
calls s (c ∷ cs) = calls (call s c) cs

abbrev pub has_left : String → OrganizationalPermissionStore → Bool
has_left user_id s = is_offboarded (get_user_lifecycle user_id s.inner)

call-has_left :
    (c : StoreCall) (s : OrganizationalPermissionStore) (u : String)
    → has_left u s ≡ true
    → has_left u (call s c) ≡ true
unfolding call set_user_lifecycle add_grant revoke_all_grants_for_user
call-has_left (lifecycle_call status) s u h =
    ground (
      arith,
      h,
      eq_iff status.user_id u,
      get-insert status.user_id u status s.inner.user_lifecycles,
    )
call-has_left _ s u h = ground arith

calls-has_left :
    (cs : List StoreCall) (s : OrganizationalPermissionStore) (u : String)
    → has_left u s ≡ true
    → has_left u (calls s cs) ≡ true
calls-has_left [] s u h = h
calls-has_left (c ∷ cs) s u h = calls-has_left cs (call s c) u (call-has_left c s u h)

has_left-denied :
    (s : OrganizationalPermissionStore) (u : String) (role : EnterpriseRole) (kind : ResourceType)
    (id : String) (action : PermissionAction) (now : Time)
    → has_left u s ≡ true
    → (check_with_inheritance u kind id action now s ≡ deny)
      × (check u kind id action now s.inner ≡ deny)
      × (check_with_role u role kind id action now s.inner ≡ deny)
unfolding check_with_inheritance check check_with_role
has_left-denied s u role kind id action now h =
    (ground (arith, h), ground (arith, h), ground (arith, h))

-- Once a user's lifecycle is offboarded, whatever memberships and grants are then added and
-- lifecycles set or grants and memberships withdrawn, in any order, every check for the user
-- denies: the one with inheritance, the plain one, and the one by role, for a super admin too.
pub offboarded_final :
    (cs : List StoreCall) (s : OrganizationalPermissionStore) (u : String) (role : EnterpriseRole)
    (kind : ResourceType) (id : String) (action : PermissionAction) (now : Time)
    → has_left u s ≡ true
    → (check_with_inheritance u kind id action now (calls s cs) ≡ deny)
      × (check u kind id action now (calls s cs).inner ≡ deny)
      × (check_with_role u role kind id action now (calls s cs).inner ≡ deny)
offboarded_final cs s u role kind id action now h =
    has_left-denied (calls s cs) u role kind id action now (calls-has_left cs s u h)
