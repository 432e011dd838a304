-- ===== src/Policy/DeviceTrust/Revoked.antt =====
-- That a revoked device stays untrusted: crates/device-pairing-core/src/lib.rs.
use connor_agent_core.Common.{
  String, Bool, true, false, ◌≡◌, refl, ap, Option, none, some, List, [], ◌∷◌, ◌==◌, if◌then◌else◌,
  arith, eq_self, All,
}
use connor_agent_core.Common.Dict.{get, map_value, get-insert, get-update}
use connor_agent_core.Policy.DeviceTrust.{
  DeviceTrustRecord, DeviceTrustStore, PairingSession, upsert_trust, revoke_trust, revoke_found,
  with_revoked, trusts, is_trusted, store_session, update_session,
}

-- A call that changes the store.
data TrustCall : Type 0 where
  upsert_call : DeviceTrustRecord → TrustCall
  revoke_call : String → TrustCall
  store_call update_call : PairingSession → TrustCall

trust_after : TrustCall → DeviceTrustStore → DeviceTrustStore
unfolding upsert_trust revoke_trust store_session update_session
trust_after (upsert_call r) s = (upsert_trust r s).1
trust_after (revoke_call device_id) s = (revoke_trust device_id s).1
trust_after (store_call p) s = store_session p s
trust_after (update_call p) s = (update_session p s).1

trust_calls : List TrustCall → DeviceTrustStore → DeviceTrustStore
trust_calls [] s = s
trust_calls (c ∷ cs) s = trust_calls cs (trust_after c s)

abbrev DoesNotUpsert : String → TrustCall → Type 0
DoesNotUpsert device_id (upsert_call r) = (r.device_id == device_id) ≡ false
DoesNotUpsert device_id (revoke_call k) = Unit
DoesNotUpsert device_id (store_call p) = Unit
DoesNotUpsert device_id (update_call p) = Unit

trusts-with_revoked :
    (b : Bool) (o : Option DeviceTrustRecord)
    → trusts o ≡ false
    → trusts (if b then map_value with_revoked o else o) ≡ false
trusts-with_revoked true none h = refl
trusts-with_revoked true (some r) h = refl
trusts-with_revoked false o h = h

-- Revoking a device makes no device trusted.
revoke_found-keeps :
    (device_id k : String) (s : DeviceTrustStore) (o : Option DeviceTrustRecord)
    → is_trusted device_id s ≡ false
    → is_trusted device_id (revoke_found k s o).1 ≡ false
unfolding is_trusted
revoke_found-keeps device_id k s none h = h
revoke_found-keeps device_id k s (some r) h =
    rw (get-update k device_id with_revoked s.trust_records)
      (trusts-with_revoked (k == device_id) (get device_id s.trust_records) h)

after-keeps :
    (device_id : String) (c : TrustCall) (s : DeviceTrustStore)
    → DoesNotUpsert device_id c
    → is_trusted device_id s ≡ false
    → is_trusted device_id (trust_after c s) ≡ false
unfolding trust_after is_trusted upsert_trust revoke_trust store_session update_session
after-keeps device_id (upsert_call r) s n h =
    rw (get-insert r.device_id device_id r s.trust_records, n) h
after-keeps device_id (revoke_call k) s n h =
    revoke_found-keeps device_id k s (get k s.trust_records) h
after-keeps device_id (store_call p) s n h = h
after-keeps device_id (update_call p) s n h = ground (arith, h)

calls-keep :
    (device_id : String) (cs : List TrustCall) (s : DeviceTrustStore)
    → All (DoesNotUpsert device_id) cs
    → is_trusted device_id s ≡ false
    → is_trusted device_id (trust_calls cs s) ≡ false
unfolding trust_calls
calls-keep device_id [] s n h = h
calls-keep device_id (c ∷ cs) s n h =
    calls-keep device_id cs (trust_after c s) n.1 (after-keeps device_id c s n.0 h)

revoke_found-untrusted :
    (device_id : String) (s : DeviceTrustStore) (o : Option DeviceTrustRecord)
    → get device_id s.trust_records ≡ o
    → is_trusted device_id (revoke_found device_id s o).1 ≡ false
unfolding is_trusted
revoke_found-untrusted device_id s none e = ap trusts e
revoke_found-untrusted device_id s (some r) e =
    rw (get-update device_id device_id with_revoked s.trust_records, eq_self device_id, e) refl

-- Once a device is revoked, it is not trusted after any calls that do not upsert its record.
revoked_final :
    (device_id : String) (cs : List TrustCall) (s : DeviceTrustStore)
    → All (DoesNotUpsert device_id) cs
    → is_trusted device_id (trust_calls cs (revoke_trust device_id s).1) ≡ false
unfolding revoke_trust
revoked_final device_id cs s n =
    calls-keep device_id cs (revoke_trust device_id s).1 n
      (revoke_found-untrusted device_id s (get device_id s.trust_records) refl)
