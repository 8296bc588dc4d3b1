-- ===== src/Storage/RpcCorrelation.antt =====
-- up-transport-vsomeip/src/storage/rpc_correlation.rs: which request a response belongs to, and the
-- session ids of the clients. A lock is held over the whole of each function.
pub mod Refinement
pub mod Overflow
use up_transport_vsomeip_rus.Prelude.{
  ℕ, ◌+◌, ◌%◌, ◌^◌, Bool, true, false, ◌&&◌, Option, none, some, ◌==◌, nat_eq, if◌then◌else◌,
}
use up_transport_vsomeip_rus.Collections.HashMap
use up_transport_vsomeip_rus.Collections.HashMap.{HashMap}
use up_transport_vsomeip_rus.Action.{Action}
use up_transport_vsomeip_rus.UProtocol.{Uuid, UUri}
use up_transport_vsomeip_rus.UProtocol.Status.{ok, panicked, fail, already_exists, not_found}

-- `InMemoryRpcCorrelationRegistry`. A panic while the session ids are locked poisons their lock.
pub record RpcCorrelation : Type 0 where
  pub ue_request_correlation : HashMap ℕ (Uuid × UUri)
  pub me_request_correlation : HashMap Uuid ℕ
  pub client_id_session_id_tracking : HashMap ℕ ℕ
  pub session_ids_poisoned : Bool

unfoldable pub new : RpcCorrelation
new = record {
  ue_request_correlation = HashMap.empty;
  me_request_correlation = HashMap.empty;
  client_id_session_id_tracking = HashMap.empty;
  session_ids_poisoned = false;
}

-- `*map.entry(client_id).or_insert(1)`
abbrev pub session_or_1 : Option ℕ → ℕ
session_or_1 none = 1
session_or_1 (some session) = session

-- The counter is a `u16`: `+= 1` at its end panics where overflows are checked (a debug build), and
-- wraps to 0 where they are not.
unfoldable pub retrieve_session_id : Bool → ℕ → Action RpcCorrelation ℕ
retrieve_session_id overflow_checks client_id r =
    let returned = session_or_1 (HashMap.get r.client_id_session_id_tracking client_id) in
    if r.session_ids_poisoned
    then (panicked, r)
    else if overflow_checks && returned + 1 == 2 ^ 16
    then (
      panicked,
      record r {
        client_id_session_id_tracking =
            HashMap.insert r.client_id_session_id_tracking client_id returned;
        session_ids_poisoned = true;
      },
    )
    else (
      ok returned,
      record r {
        client_id_session_id_tracking =
            HashMap.insert r.client_id_session_id_tracking client_id ((returned + 1) % 2 ^ 16);
      },
    )

unfoldable pub insert_ue_request_correlation : ℕ → Uuid → UUri → Action RpcCorrelation Unit
insert_ue_request_correlation someip_request_id uprotocol_req_id source_uri r =
    elim (HashMap.get r.ue_request_correlation someip_request_id) [
      | some _ ↦ (fail already_exists, r)
      | none ↦ (
        ok tt,
        record r {
          ue_request_correlation =
              HashMap.insert r.ue_request_correlation someip_request_id
                (uprotocol_req_id, source_uri);
        },
      )
    ]

unfoldable pub remove_ue_request_correlation : ℕ → Action RpcCorrelation (Uuid × UUri)
remove_ue_request_correlation someip_request_id r =
    let r' = record r {
      ue_request_correlation = HashMap.remove r.ue_request_correlation someip_request_id;
    } in
    elim (HashMap.get r.ue_request_correlation someip_request_id) [
      | some found ↦ (ok found, r')
      | none ↦ (fail not_found, r')
    ]

unfoldable pub insert_me_request_correlation : Uuid → ℕ → Action RpcCorrelation Unit
insert_me_request_correlation uprotocol_req_id someip_request_id r =
    elim (HashMap.get r.me_request_correlation uprotocol_req_id) [
      | some _ ↦ (fail already_exists, r)
      | none ↦ (
        ok tt,
        record r {
          me_request_correlation =
              HashMap.insert r.me_request_correlation uprotocol_req_id someip_request_id;
        },
      )
    ]

unfoldable pub remove_me_request_correlation : Uuid → Action RpcCorrelation ℕ
remove_me_request_correlation uprotocol_req_id r =
    let r' = record r {
      me_request_correlation = HashMap.remove r.me_request_correlation uprotocol_req_id;
    } in
    elim (HashMap.get r.me_request_correlation uprotocol_req_id) [
      | some found ↦ (ok found, r')
      | none ↦ (fail not_found, r')
    ]
