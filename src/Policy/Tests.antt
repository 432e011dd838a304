-- ===== src/Policy/Tests.antt =====
-- Concrete stores, policies and receipts on which the theorems about crates/capability-policy and
-- crates/enterprise-permission-core apply.
use connor_agent_core.Common.{
  ℕ, ◌≡◌, ◌↔◌, refl, none, some, true, false, [], ◌∷◌, String, ◌≤◌, ◌+◌, ◌==◌,
}
use connor_agent_core.Common.Dict.{get}
use connor_agent_core.Common.Members.{here}
use connor_agent_core.Domain.Action.{ActionRequest}
use connor_agent_core.Policy.Permission.{
  PermissionGrant, EnterpriseUserStatus, user, super_admin, knowledge_base, read_action, allow,
  deny, offboarded, active, grant_is_active, is_for,
}
use connor_agent_core.Policy.Permission.Store.{is_user_active, check, check_with_role, new_store}
use connor_agent_core.Policy.Permission.Organization.{
  Membership, OrganizationalPermissionStore, check_with_inheritance, new_organization, team,
}
use connor_agent_core.Policy.Permission.Routes.{Reaches, check_with_inheritance_iff}
use connor_agent_core.Policy.Permission.Offboarding.{
  direct_grant_call, lifecycle_call, calls, offboarded_final,
}
use connor_agent_core.Policy.Permission.Server.{
  ServerBackedPermissionStore, ServerPermissionSnapshot, new_server_store, ok, refresh,
  server_check, server_get_user_lifecycle, cache_status_at,
}
use connor_agent_core.Policy.Permission.Freshness.{refresh_forgets_lifecycles, server_check-allow}
use connor_agent_core.Policy.Capability.{
  PolicyEvaluationContext, PolicyResourceContext, PolicyRule, CapabilityPolicy, ask_rule, deny_rule,
  network_access, read_only, ask,
}
use connor_agent_core.Policy.Capability.Evaluate.{
  default_safe, evaluate, evaluate_with_context, evaluate_with_explanation, apply_context,
}
use connor_agent_core.Policy.Capability.Restriction.{Permits, evaluate_with_context-restricts}
use connor_agent_core.Policy.Capability.PolicyFile.{
  PolicyFileDocument, into_capability_policy, validate,
}
use connor_agent_core.Policy.Capability.InForce.{into_capability_policy-InForce}
use connor_agent_core.Policy.Capability.Receipt.{
  ApprovalReceipt, HashedPayload, approved, one_time, valid, validate_approval_receipt, IsValidFor,
  validate_approval_receipt_iff,
}

abbrev reading : PermissionGrant
reading = record {
  grant_id = "g1";
  user_id = "team";
  role = user;
  resource_type = knowledge_base;
  resource_id = "kb";
  actions = read_action ∷ [];
  granted_at = 1;
  expires_at = some 90;
  revoked = false;
}

abbrev in_team : Membership
in_team = record {
  membership_id = "m1";
  user_id = "alice";
  membership_type = team;
  org_id = none;
  team_id = some "t1";
  group_id = none;
  role = user;
  joined_at = 1;
  expires_at = none;
}

abbrev team_store : OrganizationalPermissionStore
team_store = record new_organization {
  memberships = in_team ∷ [];
  team_grants = ("t1", reading) ∷ [];
}

check_with_inheritance_iff_example :
    check_with_inheritance "alice" knowledge_base "kb" read_action 5 team_store ≡ allow
    ↔ (is_user_active "alice" team_store.inner ≡ true)
      × ((g : PermissionGrant) × Reaches team_store "alice" 5 g
          × (grant_is_active g 5 ≡ true)
          × (is_for knowledge_base "kb" read_action g ≡ true))
check_with_inheritance_iff_example =
    check_with_inheritance_iff team_store "alice" knowledge_base "kb" read_action 5

abbrev gone : EnterpriseUserStatus
gone = record { user_id = "alice"; lifecycle = offboarded; changed_at = 4; reason = none }

abbrev left_store : OrganizationalPermissionStore
left_store = record team_store {
  inner = record { grants = []; user_lifecycles = ("alice", gone) ∷ [] };
}

abbrev returns : EnterpriseUserStatus
returns = record gone { lifecycle = active }

offboarded_final_example :
    (check_with_inheritance "alice" knowledge_base "kb" read_action 5
        (calls left_store (direct_grant_call reading ∷ lifecycle_call returns ∷ []))
      ≡ deny)
    × (check "alice" knowledge_base "kb" read_action 5
          (calls left_store (direct_grant_call reading ∷ lifecycle_call returns ∷ [])).inner
        ≡ deny)
    × (check_with_role "alice" super_admin knowledge_base "kb" read_action 5
          (calls left_store (direct_grant_call reading ∷ lifecycle_call returns ∷ [])).inner
        ≡ deny)
unfolding get
offboarded_final_example =
    offboarded_final (direct_grant_call reading ∷ lifecycle_call returns ∷ []) left_store "alice"
      super_admin knowledge_base "kb" read_action 5 refl

abbrev snapshot : ServerPermissionSnapshot
snapshot = record {
  snapshot_id = "s1";
  fetched_at = 4;
  direct_grants = [];
  memberships = in_team ∷ [];
  org_grants = [];
  team_grants = ("t1", reading) ∷ [];
  group_grants = [];
}

abbrev served : ServerBackedPermissionStore
served = record (new_server_store (λ now. ok snapshot) (record { fresh_for = 5; stale_for = 30 })) {
  cached_fetched_at = some 4;
  cached_store = some team_store;
}

abbrev served_left : ServerBackedPermissionStore
served_left = record served { cached_store = some left_store }

refresh_forgets_lifecycles_example :
    server_get_user_lifecycle "alice" (refresh 6 served_left).1 ≡ active
refresh_forgets_lifecycles_example = refresh_forgets_lifecycles served_left 6 snapshot "alice" refl

server_check-allow_example :
    (fetched_at : ℕ) × (served.cached_fetched_at ≡ some fetched_at)
    × (6 ≤ fetched_at + (5 + 30))
    × ((store : OrganizationalPermissionStore) × (served.cached_store ≡ some store)
        × (check_with_inheritance "alice" knowledge_base "kb" read_action 6 store ≡ allow))
unfolding server_check cache_status_at check_with_inheritance get
server_check-allow_example =
    server_check-allow served "alice" knowledge_base "kb" read_action 6 refl

abbrev search : ActionRequest
search = record {
  action_id = "act";
  action_kind = "knowledge.search";
  input = "{}";
  requested_by = "alice";
  conversation_id = none;
  message_id = none;
  requested_at = 3;
}

abbrev on_base : PolicyResourceContext
on_base = record {
  resource_type = knowledge_base;
  resource_id = "kb";
  permission_action = read_action;
}

abbrev by_admin : PolicyEvaluationContext
by_admin = record {
  actor = some (record {
    actor_id = "alice";
    enterprise_user_id = some "alice";
    enterprise_role = some super_admin;
  });
  session = none;
  server = none;
  resource = some on_base;
}

evaluate_with_context-restricts_example :
    (evaluate_with_context default_safe search read_only by_admin (some new_store) 5
      ≡ evaluate_with_explanation default_safe search read_only)
    × Permits (some "alice") (some new_store) super_admin on_base 5
unfolding evaluate_with_context apply_context evaluate_with_explanation check_with_role get
evaluate_with_context-restricts_example =
    evaluate_with_context-restricts default_safe search read_only by_admin (some new_store) 5
      on_base refl refl

abbrev network_rule : PolicyRule
network_rule = record { side_effect = network_access; decision = ask_rule }

abbrev document : PolicyFileDocument
document = record {
  version = some 1;
  default_decision = deny_rule;
  side_effect_rules = network_rule ∷ [];
  action_kind_rules = [];
  provider_domain_rules = [];
}

abbrev from_file : CapabilityPolicy
from_file = record { rules = network_rule ∷ []; default_decision = deny_rule }

into_capability_policy-InForce_example :
    evaluate from_file search network_access
    ≡ ask "Action requires approval: side_effect=NetworkAccess"
unfolding into_capability_policy validate
into_capability_policy-InForce_example =
    into_capability_policy-InForce (λ s. s == "") (λ n. "1") document from_file network_rule search
      refl (here refl)

abbrev receipt : ApprovalReceipt
receipt = record {
  approval_request_id = "r1";
  action_id = "act";
  action_payload_hash = "{}";
  decision = record { kind = approved; decided_by = "bob"; reason = "fine"; decided_at = 4 };
  issued_at = 4;
  expires_at = some 9;
  reuse_policy = one_time;
  consumed_at = none;
}

abbrev hash_input : HashedPayload → String
hash_input p = p.input

validate_approval_receipt_iff_example :
    validate_approval_receipt hash_input receipt search 5 ≡ valid
    ↔ IsValidFor hash_input receipt search 5
validate_approval_receipt_iff_example = validate_approval_receipt_iff hash_input receipt search 5
