-- ===== src/Policy/Permission/Server.antt =====
-- The store that a permission server fills: `ServerBackedPermissionStore` of
-- crates/enterprise-permission-core/src/lib.rs. The provider is a parameter: what it answers at a
-- time. `fetched_at` may lie after `now`, and the signed duration between them is then negative.
use connor_agent_core.Common.{
  ◌+◌, String, Bool, true, false, ◌||◌, Option, none, some, List, [], ◌∷◌, if◌then◌else◌, leb, ltb,
  ◌-◌,
}
use connor_agent_core.Common.Format.{format}
use connor_agent_core.Domain.Descriptors.{Time}
use connor_agent_core.Policy.Permission.{
  EnterpriseUserLifecycle, EnterpriseUserStatus, PermissionAction, PermissionDecision,
  PermissionGrant, ResourceType, deny, active,
}
use connor_agent_core.Policy.Permission.Organization.{
  Membership, OrganizationalPermissionStore, new_organization, add_membership, add_org_grant,
  add_team_grant, add_group_grant, add_direct_grant, org_set_user_lifecycle, org_get_user_lifecycle,
  org_revoke_all_grants_for_user, remove_all_memberships_for_user, check_with_inheritance,
}

pub record ServerPermissionSnapshot : Type 0 where
  pub snapshot_id : String
  pub fetched_at : Time
  pub direct_grants : List PermissionGrant
  pub memberships : List Membership
  pub org_grants : List (String × PermissionGrant)
  pub team_grants : List (String × PermissionGrant)
  pub group_grants : List (String × PermissionGrant)

-- a `for` loop that changes the store by each member in turn
abbrev pub for_each {ℓ} :
    {A : Type ℓ}
    → (A → OrganizationalPermissionStore → OrganizationalPermissionStore)
    → List A
    → OrganizationalPermissionStore
    → OrganizationalPermissionStore
for_each f [] s = s
for_each f (x ∷ xs) s = for_each f xs (f x s)

-- `ServerPermissionSnapshot::into_store`
unfoldable pub into_store : ServerPermissionSnapshot → OrganizationalPermissionStore
unfolding add_direct_grant add_membership add_org_grant add_team_grant add_group_grant
into_store snapshot =
    for_each (λ (p : String × PermissionGrant). add_group_grant p.0 p.1) snapshot.group_grants
      (for_each (λ (p : String × PermissionGrant). add_team_grant p.0 p.1) snapshot.team_grants
        (for_each (λ (p : String × PermissionGrant). add_org_grant p.0 p.1) snapshot.org_grants
          (for_each add_membership snapshot.memberships
            (for_each add_direct_grant snapshot.direct_grants new_organization))))

pub data CacheStatus : Type 0 where
  fresh stale expired : CacheStatus

-- `Display` of `CacheStatus`
abbrev pub display_status : CacheStatus → String
display_status fresh = "fresh"
display_status stale = "stale"
display_status expired = "expired"

pub record CachePolicy : Type 0 where
  pub fresh_for : Time
  pub stale_for : Time

pub record CacheRefreshReport : Type 0 where
  pub status : CacheStatus
  pub snapshot_id : Option String
  pub explanation : String

pub record CachedPermissionDecision : Type 0 where
  pub decision : PermissionDecision
  pub cache_status : CacheStatus
  pub explanation : String

pub data PermissionProviderError : Type 0 where
  unavailable invalid_snapshot : String → PermissionProviderError

-- `Display` of `PermissionProviderError`
abbrev pub display_error : PermissionProviderError → String
display_error (unavailable reason) = format ("provider unavailable: " ∷ reason ∷ [])
display_error (invalid_snapshot reason) =
    format ("provider returned invalid snapshot: " ∷ reason ∷ [])

pub data Fetched : Type 0 where
  ok : ServerPermissionSnapshot → Fetched
  err : PermissionProviderError → Fetched

-- `RemotePermissionProvider`: what `fetch_snapshot` answers at a time
abbrev pub RemotePermissionProvider : Type 0
RemotePermissionProvider = Time → Fetched

-- `MemoryRemotePermissionProvider`
pub record MemoryRemotePermissionProvider : Type 0 where
  pub snapshot : ServerPermissionSnapshot
  pub available : Bool

-- `fetch_snapshot` of `MemoryRemotePermissionProvider`
abbrev pub memory_provider : MemoryRemotePermissionProvider → RemotePermissionProvider
memory_provider p now =
    if p.available then ok p.snapshot else err (unavailable "provider unavailable")

pub record ServerBackedPermissionStore : Type 0 where
  pub provider : RemotePermissionProvider
  pub policy : CachePolicy
  pub cached_snapshot_id : Option String
  pub cached_fetched_at : Option Time
  pub cached_store : Option OrganizationalPermissionStore
  pub last_status : CacheStatus
  pub last_explanation : String

-- `ServerBackedPermissionStore::new`
abbrev pub new_server_store : RemotePermissionProvider → CachePolicy → ServerBackedPermissionStore
new_server_store provider policy = record {
  provider = provider;
  policy = policy;
  cached_snapshot_id = none;
  cached_fetched_at = none;
  cached_store = none;
  last_status = expired;
  last_explanation = "cache not populated";
}

-- `set_provider`
abbrev pub set_provider :
    RemotePermissionProvider → ServerBackedPermissionStore → ServerBackedPermissionStore
set_provider provider s = record s { provider = provider }

-- `get_or_insert_with(OrganizationalPermissionStore::new)`
abbrev pub store_or_new : Option OrganizationalPermissionStore → OrganizationalPermissionStore
store_or_new none = new_organization
store_or_new (some store) = store

-- `ServerBackedPermissionStore::set_user_lifecycle`
unfoldable pub server_set_user_lifecycle :
    EnterpriseUserStatus → ServerBackedPermissionStore → Bool × ServerBackedPermissionStore
unfolding org_set_user_lifecycle
server_set_user_lifecycle status s =
    let (changed, store) = org_set_user_lifecycle status (store_or_new s.cached_store) in
    (changed, record s { cached_store = some store })

abbrev lifecycle_in : String → Option OrganizationalPermissionStore → EnterpriseUserLifecycle
lifecycle_in user_id none = active
lifecycle_in user_id (some store) = org_get_user_lifecycle user_id store

-- `ServerBackedPermissionStore::get_user_lifecycle`
unfoldable pub server_get_user_lifecycle :
    String → ServerBackedPermissionStore → EnterpriseUserLifecycle
server_get_user_lifecycle user_id s = lifecycle_in user_id s.cached_store

abbrev invalidate_in :
    String → Option OrganizationalPermissionStore → Bool × Option OrganizationalPermissionStore
invalidate_in user_id none = (false, none)
invalidate_in user_id (some store) =
    let (revoked, after_grants) = org_revoke_all_grants_for_user user_id store in
    let (removed, after_members) = remove_all_memberships_for_user user_id after_grants in
    (ltb 0 revoked || ltb 0 removed, some after_members)

-- `invalidate_user`
unfoldable pub invalidate_user :
    String → ServerBackedPermissionStore → Bool × ServerBackedPermissionStore
unfolding org_revoke_all_grants_for_user remove_all_memberships_for_user
invalidate_user user_id s =
    let (changed, store) = invalidate_in user_id s.cached_store in
    (changed, record s { cached_store = store })

abbrev status_by_age : CachePolicy → Time → CacheStatus
status_by_age policy age =
    if leb age policy.fresh_for
    then fresh
    else if leb age (policy.fresh_for + policy.stale_for)
    then stale
    else expired

abbrev status_since : CachePolicy → Time → Option Time → CacheStatus
status_since policy now none = expired
status_since policy now (some fetched_at) = status_by_age policy (now - fetched_at)

-- `cache_status_at`; an age below zero is at most `fresh_for`, and so is the 0 that stands for it
unfoldable pub cache_status_at : ServerBackedPermissionStore → Time → CacheStatus
cache_status_at s now = status_since s.policy now s.cached_fetched_at

abbrev unavailable_explanation : CacheStatus → PermissionProviderError → String
unavailable_explanation expired e =
    format ("provider unavailable; permission cache expired: " ∷ display_error e ∷ [])
unavailable_explanation status e = format (
    "provider unavailable; using "
    ∷ display_status status
    ∷ " permission cache: "
    ∷ display_error e
    ∷ [])

abbrev report_of : ServerBackedPermissionStore → CacheRefreshReport
report_of s = record {
  status = s.last_status;
  snapshot_id = s.cached_snapshot_id;
  explanation = s.last_explanation;
}

abbrev finish_refresh :
    ServerBackedPermissionStore → CacheRefreshReport × ServerBackedPermissionStore
finish_refresh s = (report_of s, s)

abbrev refreshed : Time → ServerBackedPermissionStore → Fetched → ServerBackedPermissionStore
refreshed now s (ok snapshot) =
    let filled = record s {
      cached_store = some (into_store snapshot);
      cached_snapshot_id = some snapshot.snapshot_id;
      cached_fetched_at = some snapshot.fetched_at;
    } in
    record filled {
      last_status = cache_status_at filled now;
      last_explanation =
          format ("permission snapshot " ∷ snapshot.snapshot_id ∷ " refreshed from provider" ∷ []);
    }
refreshed now s (err e) = record s {
  last_status = cache_status_at s now;
  last_explanation = unavailable_explanation (cache_status_at s now) e;
}

-- `refresh`
unfoldable pub refresh :
    Time → ServerBackedPermissionStore → CacheRefreshReport × ServerBackedPermissionStore
unfolding into_store cache_status_at
refresh now s = finish_refresh (refreshed now s (s.provider now))

abbrev decision_in :
    String
    → ResourceType
    → String
    → PermissionAction
    → Time
    → Option OrganizationalPermissionStore
    → PermissionDecision
decision_in user_id resource_type resource_id action now none = deny
decision_in user_id resource_type resource_id action now (some store) =
    check_with_inheritance user_id resource_type resource_id action now store

abbrev is_expired : CacheStatus → Bool
is_expired expired = true
is_expired _ = false

-- `ServerBackedPermissionStore::check_with_inheritance`
unfoldable pub server_check :
    String
    → ResourceType
    → String
    → PermissionAction
    → Time
    → ServerBackedPermissionStore
    → CachedPermissionDecision
unfolding cache_status_at check_with_inheritance
server_check user_id resource_type resource_id action now s =
    let status = cache_status_at s now in
    if is_expired status
    then record {
      decision = deny;
      cache_status = status;
      explanation = "permission cache expired; deny by default";
    }
    else record {
      decision = decision_in user_id resource_type resource_id action now s.cached_store;
      cache_status = status;
      explanation = s.last_explanation;
    }
