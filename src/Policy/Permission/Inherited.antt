-- ===== src/Policy/Permission/Inherited.antt =====
-- Whether the inherited grants of a user hold one that passes a test, loop by loop:
-- `get_inherited_grants` of crates/enterprise-permission-core/src/lib.rs.
use connor_agent_core.Common.{
  String, Bool, true, false, ◌&&◌, ◌≡◌, refl, subst, Option, none, some, List, [], ◌∷◌, ◌==◌, any,
  eq_iff, arith, ◌↔◌,
}
use connor_agent_core.Common.Members.{Member, any_iff, any-append}
use connor_agent_core.Domain.Descriptors.{Time}
use connor_agent_core.Policy.Permission.{PermissionGrant, grant_is_active}
use connor_agent_core.Policy.Permission.Organization.{
  InheritanceSource, InheritedGrant, Membership, MembershipType, OrganizationalPermissionStore,
  organization, team, group, same_membership_type, membership_is_active, grants_of, grants_through,
  membership_grants, direct_grants,
}

-- what a membership of each type names
abbrev pub id_in : MembershipType → Membership → Option String
id_in organization m = m.org_id
id_in team m = m.team_id
id_in group m = m.group_id

-- the grants of what it names
abbrev pub shared_grants :
    MembershipType → OrganizationalPermissionStore → List (String × PermissionGrant)
shared_grants organization s = s.org_grants
shared_grants team s = s.team_grants
shared_grants group s = s.group_grants

pub same_membership_type_iff : (a b : MembershipType) → same_membership_type a b ≡ true ↔ (a ≡ b)
same_membership_type_iff organization organization = ground arith
same_membership_type_iff organization team = ground arith
same_membership_type_iff organization group = ground arith
same_membership_type_iff team organization = ground arith
same_membership_type_iff team team = ground arith
same_membership_type_iff team group = ground arith
same_membership_type_iff group organization = ground arith
same_membership_type_iff group team = ground arith
same_membership_type_iff group group = ground arith

module _ (q : PermissionGrant → Bool) (now : Time) where
  abbrev pub asks : InheritedGrant → Bool
  asks i = q i.grant

  abbrev pub counts : PermissionGrant → Bool
  counts g = grant_is_active g now && q g

  pub any-direct_grants :
      (gs : List PermissionGrant) → any asks (direct_grants now gs) ≡ any counts gs
  any-direct_grants [] = refl
  any-direct_grants (g ∷ gs) = ground (arith, any-direct_grants gs)

  abbrev pub held_by : String → String × PermissionGrant → Bool
  held_by id p = (p.0 == id) && counts p.1

  any-grants_of :
      (id : String) (source : InheritanceSource) (gs : List (String × PermissionGrant))
      → any asks (grants_of id source now gs) ≡ any (held_by id) gs
  any-grants_of id source [] = refl
  any-grants_of id source ((owner, g) ∷ gs) = ground (arith, any-grants_of id source gs)

  -- the organization, team or group, where there is one, holds a grant that counts
  abbrev pub holds : Option String → List (String × PermissionGrant) → Bool
  holds none gs = false
  holds (some id) gs = any (held_by id) gs

  any-grants_through :
      (applies : Bool) (id : Option String) (source : String → InheritanceSource)
      (gs : List (String × PermissionGrant))
      → any asks (grants_through applies id source now gs) ≡ (applies && holds id gs)
  any-grants_through applies none source gs = ground arith
  any-grants_through applies (some id) source gs = ground (arith, any-grants_of id (source id) gs)

  abbrev pub member_counts :
      String
      → MembershipType
      → (Membership → Option String)
      → List (String × PermissionGrant)
      → Membership
      → Bool
  member_counts u kind id_of gs m =
      ((m.user_id == u)
        && (same_membership_type m.membership_type kind && membership_is_active m now))
      && holds (id_of m) gs

  pub any-membership_grants :
      (u : String) (kind : MembershipType) (id_of : Membership → Option String)
      (source : String → InheritanceSource) (gs : List (String × PermissionGrant))
      (ms : List Membership)
      → any asks (membership_grants u kind id_of source now gs ms)
        ≡ any (member_counts u kind id_of gs) ms
  any-membership_grants u kind id_of source gs [] = refl
  any-membership_grants u kind id_of source gs (m ∷ ms) = ground (
    arith,
    any-append asks
        (grants_through
          ((m.user_id == u)
            && (same_membership_type m.membership_type kind && membership_is_active m now))
          (id_of m) source now gs)
        (membership_grants u kind id_of source now gs ms),
    any-grants_through
        ((m.user_id == u)
          && (same_membership_type m.membership_type kind && membership_is_active m now))
        (id_of m) source gs,
    any-membership_grants u kind id_of source gs ms,
  )

  pub holds_iff :
      (o : Option String) (gs : List (String × PermissionGrant))
      → holds o gs ≡ true
      → (id : String) × (o ≡ some id)
        × ((g : PermissionGrant) × Member (id, g) gs × (counts g ≡ true))
  holds_iff none gs e = cc
  holds_iff (some id) gs e =
      let ((owner, g), m, h) = (any_iff (held_by id) gs).0 e in
      (
        id,
        refl,
        (
          g,
          subst (λ (o : String). Member (o, g) gs) ((eq_iff owner id).0 (ground (arith, h))) m,
          ground (arith, h),
        ),
      )
