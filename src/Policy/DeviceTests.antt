-- ===== src/Policy/DeviceTests.antt =====
-- A concrete store of crates/device-pairing-core/src/lib.rs.
use connor_agent_core.Common.{◌≡◌, refl, none, some, false, [], ◌∷◌}
use connor_agent_core.Common.Dict.{get, insert, update, place, contains, values}
use connor_agent_core.Policy.DeviceTrust.{
  DeviceTrustRecord, DeviceTrustStore, PairingSession, PairingStatus, TrustLevel, err, ok,
  session_not_found, device_not_trusted, from_devices, new_trust_store, upsert_trust, get_trust,
  is_trusted, revoke_trust, store_session, get_session, update_session, list_trusted_devices,
}

abbrev phone : DeviceTrustRecord
phone = record {
  device_id = "phone";
  peer_device_id = "desk";
  trust_level = TrustLevel.full;
  paired_at = 1;
  last_verified_at = none;
  pairing_session_id = "s1";
}

abbrev session : PairingSession
session = record {
  session_id = "s1";
  code = "pair-desk-phone";
  initiator = "desk";
  peer = some "phone";
  status = PairingStatus.pending;
  created_at = 1;
  updated_at = 1;
}

same_code_test : from_devices "phone" "desk" ≡ from_devices "desk" "phone"
unfolding from_devices
same_code_test = refl

abbrev paired : DeviceTrustStore
unfolding upsert_trust
paired = (upsert_trust phone new_trust_store).1

revoked_test : is_trusted "phone" (revoke_trust "phone" paired).1 ≡ false
unfolding is_trusted revoke_trust paired get insert update place contains
revoked_test = refl

still_listed_test :
    list_trusted_devices (revoke_trust "phone" paired).1
    ≡ record phone { trust_level = TrustLevel.revoked } ∷ []
unfolding list_trusted_devices revoke_trust paired get insert update place contains values
still_listed_test = refl

unknown_test : (revoke_trust "tablet" paired).0 ≡ err (device_not_trusted "tablet")
unfolding revoke_trust paired get insert place contains
unknown_test = refl

get_trust_test : get_trust "phone" paired ≡ some phone
unfolding get_trust paired get insert place contains
get_trust_test = refl

update_first_test : (update_session session paired).0 ≡ err (session_not_found "s1")
unfolding update_session paired get insert place contains
update_first_test = refl

abbrev stored : DeviceTrustStore
unfolding store_session
stored = store_session session paired

update_stored_test : (update_session session stored).0 ≡ ok
unfolding update_session stored paired get insert place contains
update_stored_test = refl

get_session_test : get_session "s1" stored ≡ some session
unfolding get_session stored paired get insert place contains
get_session_test = refl
