-- ===== src/Policy/Permission/Freshness.antt =====
-- What the store over a permission server allows, and what a refresh of it keeps:
-- crates/enterprise-permission-core/src/lib.rs.
use connor_agent_core.Common.{
  ◌+◌, ◌≤◌, String, ◌≡◌, refl, ◌∙◌, some, List, [], ◌∷◌, arith, Option-cases, inl, inr,
}
use connor_agent_core.Common.Dict.{get}
use connor_agent_core.Domain.Descriptors.{Time}
use connor_agent_core.Policy.Permission.{PermissionAction, ResourceType, allow, active}
use connor_agent_core.Policy.Permission.Store.{add_grant}
use connor_agent_core.Policy.Permission.Organization.{
  OrganizationalPermissionStore, check_with_inheritance, add_direct_grant, add_membership,
  add_org_grant, add_team_grant, add_group_grant, new_organization,
}
use connor_agent_core.Policy.Permission.Server.{
  ServerBackedPermissionStore, ServerPermissionSnapshot, ok, for_each, into_store, refresh,
  server_check, server_get_user_lifecycle, cache_status_at,
}

abbrev Same : OrganizationalPermissionStore → OrganizationalPermissionStore → Type 0
Same s t = s.inner.user_lifecycles ≡ t.inner.user_lifecycles

for_each-Same {ℓ} :
    {A : Type ℓ} (f : A → OrganizationalPermissionStore → OrganizationalPermissionStore)
    → ((x : A) (s : OrganizationalPermissionStore) → Same (f x s) s)
    → (xs : List A) (s : OrganizationalPermissionStore) → Same (for_each f xs s) s
for_each-Same f same [] s = refl
for_each-Same f same (x ∷ xs) s = for_each-Same f same xs (f x s) ∙ same x s

into_store_lem : (snapshot : ServerPermissionSnapshot) → Same (into_store snapshot) new_organization
unfolding into_store add_direct_grant add_membership add_org_grant add_team_grant add_group_grant
    add_grant
into_store_lem snapshot =
    for_each-Same _ (λ p s. refl) snapshot.group_grants _
    ∙ for_each-Same _ (λ p s. refl) snapshot.team_grants _
    ∙ for_each-Same _ (λ p s. refl) snapshot.org_grants _
    ∙ for_each-Same _ (λ m s. refl) snapshot.memberships _
    ∙ for_each-Same _ (λ g s. refl) snapshot.direct_grants new_organization

-- A refresh that the provider answers with a snapshot forgets every lifecycle that was set: each
-- user, one who was suspended, disabled or offboarded too, counts as active after it.
pub refresh_forgets_lifecycles :
    (s : ServerBackedPermissionStore) (now : Time) (snapshot : ServerPermissionSnapshot)
    (u : String)
    → s.provider now ≡ ok snapshot
    → server_get_user_lifecycle u (refresh now s).1 ≡ active
unfolding refresh server_get_user_lifecycle get
refresh_forgets_lifecycles s now snapshot u e = rw (e, into_store_lem) refl

-- Where the store allows, a snapshot was fetched at most the fresh and the stale time before, and
-- the store that was built from what has been cached allows with inheritance.
pub server_check-allow :
    (s : ServerBackedPermissionStore) (u : String) (kind : ResourceType) (id : String)
    (action : PermissionAction) (now : Time)
    → (server_check u kind id action now s).decision ≡ allow
    → (fetched_at : Time) × (s.cached_fetched_at ≡ some fetched_at)
      × (now ≤ fetched_at + (s.policy.fresh_for + s.policy.stale_for))
      × ((store : OrganizationalPermissionStore) × (s.cached_store ≡ some store)
          × (check_with_inheritance u kind id action now store ≡ allow))
unfolding server_check cache_status_at
server_check-allow s u kind id action now e = elim (Option-cases s.cached_fetched_at) [
  | inl never ↦ absurd (ground (arith, e, never))
  | inr (t, fetched) ↦ elim (Option-cases s.cached_store) [
    | inl empty ↦ absurd (ground (arith, e, fetched, empty))
    | inr (store, filled) ↦ (
      t,
      fetched,
      ground (arith, e, fetched),
      (store, filled, ground (arith, e, fetched, filled)),
    )
  ]
]
