-- ===== src/Policy/DeviceTrust.antt =====
-- The devices that a device trusts, and its pairing sessions: crates/device-pairing-core/src/lib.rs.
-- An id and a pairing code are their text.
pub mod Revoked
use connor_agent_core.Common.{
  String, Bool, true, false, not, ◌||◌, ◌≡◌, refl, Option, none, some, List, [], ◌∷◌, if◌then◌else◌,
  text_lt, ◌==◌, arith, eq_iff, All,
}
use connor_agent_core.Common.Format.{format}
use connor_agent_core.Common.Dict.{
  Dict, get, insert, update, contains, values, map_value, get-insert, get-update,
}
use connor_agent_core.Domain.Descriptors.{Time}

-- `PairingCode::from_devices`
unfoldable pub from_devices : String → String → String
from_devices a b =
    if not (text_lt b a)
    then format ("pair-" ∷ a ∷ "-" ∷ b ∷ [])
    else format ("pair-" ∷ b ∷ "-" ∷ a ∷ [])

pub data PairingStatus : Type 0 where
  pending handshake_in_progress completed : PairingStatus
  failed : (reason : String) → PairingStatus
  cancelled : PairingStatus

pub record PairingSession : Type 0 where
  pub session_id : String
  pub code : String
  pub initiator : String
  pub peer : Option String
  pub status : PairingStatus
  pub created_at : Time
  pub updated_at : Time

pub data TrustLevel : Type 0 where
  basic full temporary revoked : TrustLevel

pub record DeviceTrustRecord : Type 0 where
  pub device_id : String
  pub peer_device_id : String
  pub trust_level : TrustLevel
  pub paired_at : Time
  pub last_verified_at : Option Time
  pub pairing_session_id : String

pub data PairingError : Type 0 where
  session_not_found device_not_trusted : String → PairingError
  invalid_state : (expected actual : String) → PairingError
  nonce_mismatch : PairingError

pub data PairingResult : Type 0 where
  ok : PairingResult
  err : PairingError → PairingResult

pub record DeviceTrustStore : Type 0 where
  pub trust_records : Dict DeviceTrustRecord
  pub pairing_sessions : Dict PairingSession

-- `DeviceTrustStore::new`
abbrev pub new_trust_store : DeviceTrustStore
new_trust_store = record { trust_records = []; pairing_sessions = [] }

unfoldable pub upsert_trust :
    DeviceTrustRecord → DeviceTrustStore → PairingResult × DeviceTrustStore
upsert_trust r s = (ok, record s { trust_records = insert r.device_id r s.trust_records })

unfoldable pub get_trust : String → DeviceTrustStore → Option DeviceTrustRecord
get_trust device_id s = get device_id s.trust_records

abbrev pub is_revoked : TrustLevel → Bool
is_revoked basic = false
is_revoked full = false
is_revoked temporary = false
is_revoked revoked = true

abbrev pub trusts : Option DeviceTrustRecord → Bool
trusts none = false
trusts (some r) = not (is_revoked r.trust_level)

unfoldable pub is_trusted : String → DeviceTrustStore → Bool
is_trusted device_id s = trusts (get device_id s.trust_records)

abbrev pub with_revoked : DeviceTrustRecord → DeviceTrustRecord
with_revoked r = record r { trust_level = revoked }

abbrev pub revoke_found :
    String → DeviceTrustStore → Option DeviceTrustRecord → PairingResult × DeviceTrustStore
revoke_found device_id s none = (err (device_not_trusted device_id), s)
revoke_found device_id s (some r) =
    (ok, record s { trust_records = update device_id with_revoked s.trust_records })

unfoldable pub revoke_trust : String → DeviceTrustStore → PairingResult × DeviceTrustStore
revoke_trust device_id s = revoke_found device_id s (get device_id s.trust_records)

unfoldable pub store_session : PairingSession → DeviceTrustStore → DeviceTrustStore
store_session p s = record s { pairing_sessions = insert p.session_id p s.pairing_sessions }

unfoldable pub get_session : String → DeviceTrustStore → Option PairingSession
get_session session_id s = get session_id s.pairing_sessions

unfoldable pub update_session : PairingSession → DeviceTrustStore → PairingResult × DeviceTrustStore
unfolding store_session
update_session p s =
    if contains p.session_id s.pairing_sessions
    then (ok, store_session p s)
    else (err (session_not_found p.session_id), s)

unfoldable pub list_trusted_devices : DeviceTrustStore → List DeviceTrustRecord
list_trusted_devices s = values s.trust_records
