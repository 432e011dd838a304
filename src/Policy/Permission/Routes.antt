-- ===== src/Policy/Permission/Routes.antt =====
-- By which routes a grant reaches a user, and that the check with inheritance of
-- crates/enterprise-permission-core/src/lib.rs allows exactly what has such a route.
use connor_agent_core.Common.{
  String, Bool, true, false, ◌&&◌, ◌||◌, ◌≡◌, refl, sym, ◌∙◌, ap, Option, some, ◌==◌, any, eq_iff,
  eq_self, arith, ◌↔◌, Bool-cases, inl, inr,
}
use connor_agent_core.Common.Members.{Member, any_iff, any-append, any-keep}
use connor_agent_core.Domain.Descriptors.{Time}
use connor_agent_core.Policy.Permission.{
  PermissionAction, PermissionGrant, ResourceType, allow, deny, grant_is_active, is_for,
}
use connor_agent_core.Policy.Permission.Store.{is_user_active, decide_by}
use connor_agent_core.Policy.Permission.Organization.{
  Membership, MembershipType, OrganizationalPermissionStore, organization, team, group,
  membership_is_active, get_inherited_grants, check_with_inheritance,
}
use connor_agent_core.Policy.Permission.Inherited.{
  id_in, shared_grants, same_membership_type_iff, asks, counts, held_by, holds, member_counts,
  holds_iff, any-direct_grants, any-membership_grants,
}

-- A grant reaches a user directly, or through an active membership of some type in the
-- organization, team or group that holds it.
pub data Reaches (s : OrganizationalPermissionStore) (user_id : String) (now : Time)
    (g : PermissionGrant) : Type 0 where
  directly : Member g s.inner.grants → g.user_id ≡ user_id → Reaches s user_id now g
  through :
      (kind : MembershipType) (m : Membership) (id : String)
      → Member m s.memberships
      → m.user_id ≡ user_id
      → m.membership_type ≡ kind
      → id_in kind m ≡ some id
      → membership_is_active m now ≡ true
      → Member (id, g) (shared_grants kind s)
      → Reaches s user_id now g

module _ (q : PermissionGrant → Bool) (now : Time) where
  module _ (s : OrganizationalPermissionStore) (u : String) where
    -- a grant that counts q now and reaches the user
    abbrev Route : Type 0
    Route = (g : PermissionGrant) × Reaches s u now g × (counts q now g ≡ true)

    abbrev by_membership : MembershipType → Bool
    by_membership kind =
        any (member_counts q now u kind (id_in kind) (shared_grants kind s)) s.memberships

    by_membership-Route : (kind : MembershipType) → by_membership kind ≡ true → Route
    by_membership-Route kind e =
        let (m, member, h) =
          (any_iff (member_counts q now u kind (id_in kind) (shared_grants kind s)) s.memberships).0
            e in
        let (id, named, (g, held, c)) =
          holds_iff q now (id_in kind m) (shared_grants kind s) (ground (arith, h)) in
        (
          g,
          through kind m id member ((eq_iff m.user_id u).0 (ground (arith, h)))
              ((same_membership_type_iff m.membership_type kind).0 (ground (arith, h))) named
              (ground (arith, h)) held,
          c,
        )

    through-by_membership :
        (kind : MembershipType) (m : Membership) (id : String) (g : PermissionGrant)
        → Member m s.memberships
        → m.user_id ≡ u
        → m.membership_type ≡ kind
        → id_in kind m ≡ some id
        → membership_is_active m now ≡ true
        → Member (id, g) (shared_grants kind s)
        → counts q now g ≡ true
        → by_membership kind ≡ true
    through-by_membership kind m id g member own typed named live held c =
        (any_iff (member_counts q now u kind (id_in kind) (shared_grants kind s)) s.memberships).1 (
          m,
          member,
          ground (
            arith,
            (eq_iff m.user_id u).1 own,
            (same_membership_type_iff m.membership_type kind).1 typed,
            live,
            named,
            ap (λ (o : Option String). holds q now o (shared_grants kind s)) named,
            (any_iff (held_by q now id) (shared_grants kind s)).1
                ((id, g), held, ground (arith, c, eq_self id)),
          ),
        )

    inherited : Bool
    inherited =
        any (λ (g : PermissionGrant). (g.user_id == u) && counts q now g) s.inner.grants
        || (by_membership organization || (by_membership team || by_membership group))

    inherited_lem :
        is_user_active u s.inner ≡ true
        → any (asks q now) (get_inherited_grants u now s) ≡ inherited
    unfolding get_inherited_grants inherited
    inherited_lem live =
        rw
          (
            live, any-append, any-append, any-append, any-direct_grants, any-keep,
            any-membership_grants, any-membership_grants, any-membership_grants,
          )
          refl

    inherited-Route : inherited ≡ true → Route
    unfolding inherited
    inherited-Route e =
        elim (Bool-cases
          (any (λ (g : PermissionGrant). (g.user_id == u) && counts q now g) s.inner.grants)) [
            | inl own ↦
                let (g, m, h) =
                  (any_iff (λ (g : PermissionGrant). (g.user_id == u) && counts q now g)
                      s.inner.grants).0
                    own in
                (g, directly m ((eq_iff g.user_id u).0 (ground (arith, h))), ground (arith, h))
            | inr none_own ↦ elim (Bool-cases (by_membership organization)) [
              | inl found ↦ by_membership-Route organization found
              | inr none_org ↦ elim (Bool-cases (by_membership team)) [
                | inl found ↦ by_membership-Route team found
                | inr none_team ↦
                    by_membership-Route group (ground (arith, e, none_own, none_org, none_team))
              ]
            ]
          ]

    by_membership-inherited : (kind : MembershipType) → by_membership kind ≡ true → inherited ≡ true
    unfolding inherited
    by_membership-inherited organization e = ground (arith, e)
    by_membership-inherited team e = ground (arith, e)
    by_membership-inherited group e = ground (arith, e)

    Route-inherited :
        (g : PermissionGrant) → Reaches s u now g → counts q now g ≡ true → inherited ≡ true
    unfolding inherited
    Route-inherited g (directly m own) c =
        let hit =
          (any_iff (λ (g : PermissionGrant). (g.user_id == u) && counts q now g) s.inner.grants).1
            (g, m, ground (arith, c, (eq_iff g.user_id u).1 own)) in
        ground (arith, hit)
    Route-inherited g (through kind m id member own typed named live held) c =
        by_membership-inherited kind
          (through-by_membership kind m id g member own typed named live held c)

allow-ne-deny : allow ≡ deny → ⊥
allow-ne-deny e = cc

decide_by_iff : (b : Bool) → decide_by b ≡ allow ↔ (b ≡ true)
decide_by_iff true = (λ e. refl, λ e. refl)
decide_by_iff false = (λ e. cc, λ e. cc)

check_with_inheritance_lem :
    (s : OrganizationalPermissionStore) (u : String) (kind : ResourceType) (id : String)
    (action : PermissionAction) (now : Time)
    → is_user_active u s.inner ≡ true
    → check_with_inheritance u kind id action now s
      ≡ decide_by (inherited (is_for kind id action) now s u)
unfolding check_with_inheritance get_inherited_grants
check_with_inheritance_lem s u kind id action now live =
    rw live (rw live at (ap decide_by (inherited_lem (is_for kind id action) now s u live)))

check_with_inheritance-inactive :
    (s : OrganizationalPermissionStore) (u : String) (kind : ResourceType) (id : String)
    (action : PermissionAction) (now : Time)
    → is_user_active u s.inner ≡ false
    → check_with_inheritance u kind id action now s ≡ deny
unfolding check_with_inheritance
check_with_inheritance-inactive s u kind id action now gone = rw gone refl

-- The check with inheritance allows an action on a resource exactly where the user is active and
-- some grant that is active and is for this resource and action reaches the user: directly, or
-- through an active membership in the organization, team or group that holds it.
pub check_with_inheritance_iff :
    (s : OrganizationalPermissionStore) (u : String) (kind : ResourceType) (id : String)
    (action : PermissionAction) (now : Time)
    → check_with_inheritance u kind id action now s ≡ allow
      ↔ (is_user_active u s.inner ≡ true)
        × ((g : PermissionGrant) × Reaches s u now g
            × (grant_is_active g now ≡ true)
            × (is_for kind id action g ≡ true))
check_with_inheritance_iff s u kind id action now = (
  λ e. elim (Bool-cases (is_user_active u s.inner)) [
    | inl live ↦
        let sure =
          (decide_by_iff (inherited (is_for kind id action) now s u)).0
            (sym (check_with_inheritance_lem s u kind id action now live) ∙ e) in
        let (g, reached, c) = inherited-Route (is_for kind id action) now s u sure in
        (live, (g, reached, ground (arith, c), ground (arith, c)))
    | inr gone ↦
        absurd (allow-ne-deny (sym e ∙ check_with_inheritance-inactive s u kind id action now gone))
  ],
  λ (live, (g, reached, fresh, fits)).
      check_with_inheritance_lem s u kind id action now live
      ∙ (decide_by_iff (inherited (is_for kind id action) now s u)).1
          (Route-inherited (is_for kind id action) now s u g reached (ground (arith, fresh, fits))),
)
