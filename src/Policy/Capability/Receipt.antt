-- ===== src/Policy/Capability/Receipt.antt =====
-- Approval receipts: crates/capability-policy/src/approval_receipt.rs. `hash` is
-- `ActionPayloadHash::for_request` as a function of what it hashes, the standard library's
-- `DefaultHasher` being no part of this repository.
use connor_agent_core.Common.{
  ◌≤◌, ◌≡◌, ◌↔◌, arith, eq_iff, String, Bool, true, false, not, ◌&&◌, Option, none, some, List, [],
  if◌then◌else◌, ◌==◌, ltb,
}
use connor_agent_core.Common.Dict.{is_some}
use connor_agent_core.Domain.Descriptors.{Time, Json}
use connor_agent_core.Domain.Action.{ActionRequest}
use connor_agent_core.Policy.Capability.{
  SideEffectKind, no_side_effects, read_only, runtime_state_mutation, ui_side_effect,
}

pub data ApprovalReusePolicy : Type 0 where
  one_time reusable_until_expiry : ApprovalReusePolicy

abbrev pub is_one_time : ApprovalReusePolicy → Bool
is_one_time one_time = true
is_one_time reusable_until_expiry = false

pub record ApprovalSideEffectSummary : Type 0 where
  pub side_effect : SideEffectKind
  pub risk_level : String
  pub affected_resources : List String
  pub external_destinations : List String
  pub data_exposure : List String
  pub reversible : Bool
  pub user_visible_description : String

abbrev risk_level_of : SideEffectKind → String
risk_level_of no_side_effects = "none"
risk_level_of read_only = "low"
risk_level_of runtime_state_mutation = "medium"
risk_level_of ui_side_effect = "medium"
risk_level_of _ = "high"

-- `ApprovalSideEffectSummary::for_side_effect`
abbrev pub for_side_effect : SideEffectKind → String → ApprovalSideEffectSummary
for_side_effect effect description = record {
  side_effect = effect;
  risk_level = risk_level_of effect;
  affected_resources = [];
  external_destinations = [];
  data_exposure = [];
  reversible = false;
  user_visible_description = description;
}

-- what `for_request` hashes of a request: all of it but the time
pub record HashedPayload : Type 0 where
  pub action_id : String
  pub action_kind : String
  pub input : Json
  pub requested_by : String
  pub conversation_id : Option String
  pub message_id : Option String

abbrev pub hashed_payload : ActionRequest → HashedPayload
hashed_payload r = record {
  action_id = r.action_id;
  action_kind = r.action_kind;
  input = r.input;
  requested_by = r.requested_by;
  conversation_id = r.conversation_id;
  message_id = r.message_id;
}

pub record KernelApprovalRequest : Type 0 where
  pub approval_request_id : String
  pub action_id : String
  pub action_kind : String
  pub action_payload_hash : String
  pub requested_by : String
  pub requested_at : Time
  pub expires_at : Option Time
  pub reuse_policy : ApprovalReusePolicy
  pub side_effect_summary : ApprovalSideEffectSummary

pub data KernelApprovalDecisionKind : Type 0 where
  approved denied : KernelApprovalDecisionKind

abbrev pub is_denied : KernelApprovalDecisionKind → Bool
is_denied denied = true
is_denied approved = false

pub record KernelApprovalDecision : Type 0 where
  pub kind : KernelApprovalDecisionKind
  pub decided_by : String
  pub reason : String
  pub decided_at : Time

pub record ApprovalReceipt : Type 0 where
  pub approval_request_id : String
  pub action_id : String
  pub action_payload_hash : String
  pub decision : KernelApprovalDecision
  pub issued_at : Time
  pub expires_at : Option Time
  pub reuse_policy : ApprovalReusePolicy
  pub consumed_at : Option Time

-- `ApprovalReceipt::issue`
abbrev pub issue : KernelApprovalRequest → KernelApprovalDecision → Time → ApprovalReceipt
issue request decision now = record {
  approval_request_id = request.approval_request_id;
  action_id = request.action_id;
  action_payload_hash = request.action_payload_hash;
  decision = decision;
  issued_at = now;
  expires_at = request.expires_at;
  reuse_policy = request.reuse_policy;
  consumed_at = none;
}

-- `ApprovalReceipt::consume`
abbrev pub consume : ApprovalReceipt → Time → ApprovalReceipt
consume receipt now = record receipt { consumed_at = some now }

pub data ApprovalValidationError : Type 0 where
  denied_receipt : String → ApprovalValidationError
  expired : Time → ApprovalValidationError
  already_consumed action_id_mismatch payload_hash_mismatch : ApprovalValidationError

pub data ApprovalValidation : Type 0 where
  valid : ApprovalValidation
  invalid : ApprovalValidationError → ApprovalValidation

-- `if let Some(expires_at) = receipt.expires_at && now > expires_at`
abbrev pub unless_expired : Option Time → Time → ApprovalValidation → ApprovalValidation
unless_expired none now rest = rest
unless_expired (some expires_at) now rest =
    if ltb expires_at now then invalid (expired expires_at) else rest

module _ (hash : HashedPayload → String) where
  -- `KernelApprovalRequest::from_action_request`
  abbrev pub from_action_request :
      String → ActionRequest → ApprovalSideEffectSummary → Time → KernelApprovalRequest
  from_action_request id request summary now = record {
    approval_request_id = id;
    action_id = request.action_id;
    action_kind = request.action_kind;
    action_payload_hash = hash (hashed_payload request);
    requested_by = request.requested_by;
    requested_at = now;
    expires_at = none;
    reuse_policy = one_time;
    side_effect_summary = summary;
  }

  unfoldable pub validate_approval_receipt :
      ApprovalReceipt → ActionRequest → Time → ApprovalValidation
  validate_approval_receipt receipt request now =
      if is_denied receipt.decision.kind
      then invalid (denied_receipt receipt.decision.reason)
      else unless_expired receipt.expires_at now (
          if is_some receipt.consumed_at && is_one_time receipt.reuse_policy
          then invalid already_consumed
          else if not (receipt.action_id == request.action_id)
          then invalid action_id_mismatch
          else if not (receipt.action_payload_hash == hash (hashed_payload request))
          then invalid payload_hash_mismatch
          else valid)

  abbrev pub NotExpired : Option Time → Time → Type 0
  NotExpired none now = Unit
  NotExpired (some expires_at) now = now ≤ expires_at

  module _ (receipt : ApprovalReceipt) (request : ActionRequest) (now : Time) where
    -- what makes a receipt valid
    abbrev pub IsValidFor : Type 0
    IsValidFor =
        (receipt.decision.kind ≡ approved)
        × NotExpired receipt.expires_at now
        × ((is_some receipt.consumed_at && is_one_time receipt.reuse_policy) ≡ false)
        × (receipt.action_id ≡ request.action_id)
        × (receipt.action_payload_hash ≡ hash (hashed_payload request))

    -- A receipt is valid for a request at a time exactly where it approves, it has not expired by
    -- then, it is not a one-time receipt that was consumed, and its action and its payload hash are
    -- those of the request.
    pub validate_approval_receipt_iff :
        validate_approval_receipt receipt request now ≡ valid ↔ IsValidFor
    unfolding validate_approval_receipt
    validate_approval_receipt_iff = (
      λ e. (
        ground (arith, e),
        ground (arith, e),
        ground (arith, e),
        (eq_iff receipt.action_id request.action_id).0 (ground (arith, e)),
        (eq_iff receipt.action_payload_hash (hash (hashed_payload request))).0 (ground (arith, e)),
      ),
      λ (k, t, c, a, h). ground (
        arith,
        k,
        t,
        c,
        (eq_iff receipt.action_id request.action_id).1 a,
        (eq_iff receipt.action_payload_hash (hash (hashed_payload request))).1 h,
      ),
    )
