-- ===== src/Storage.antt =====
-- up-transport-vsomeip/src/storage.rs: what a transport keeps, and the functions by which the
-- engine and the conversions reach it. They act on a `Host`: the storage of one transport, and the
-- calls that were made of its vsomeip application.
pub mod RpcCorrelation
pub mod OfferedRequested
pub mod MessageHandlers
pub mod StateHandlers
use up_transport_vsomeip_rus.Prelude.{ℕ, nat_eq, String, Bool, List, ◌∷◌, Option}
use up_transport_vsomeip_rus.Collections.HashSet.{IterOrder}
use up_transport_vsomeip_rus.Action.{Action}
use up_transport_vsomeip_rus.UProtocol.{Uuid, UUri}
use up_transport_vsomeip_rus.UProtocol.Status.{Result, ok}
use up_transport_vsomeip_rus.Vsomeip.{AppCall}

-- `VsomeipApplicationConfig`
pub record ApplicationConfig : Type 0 where
  pub name : String
  pub id : ℕ

-- `UPTransportVsomeipStorage`, without the handle of the runtime; the message handlers are shared
-- between the transports of a process, and stand in `Storage.MessageHandlers`.
pub record Storage : Type 0 where
  pub vsomeip_application_config : ApplicationConfig
  pub uri : UUri
  pub remote_authority : String
  pub rpc_correlation : RpcCorrelation.RpcCorrelation
  pub vsomeip_offered_requested : OfferedRequested.OfferedRequested

-- `UPTransportVsomeipStorage::new`
unfoldable pub new : ApplicationConfig → UUri → String → Storage
new config uri remote_authority = record {
  vsomeip_application_config = config;
  uri = uri;
  remote_authority = remote_authority;
  rpc_correlation = RpcCorrelation.new;
  vsomeip_offered_requested = OfferedRequested.new;
}

abbrev pub get_local_authority : Storage → String
get_local_authority s = s.uri.authority_name

abbrev pub get_ue_id : Storage → ℕ
get_ue_id s = s.uri.ue_id

pub record Host : Type 0 where
  -- whether the build checks arithmetic overflows
  pub overflow_checks : Bool
  pub storage : Storage
  -- the handlers of application states, which the transports of a process share
  pub state_handlers : StateHandlers.StateHandlers
  -- newest first
  pub calls : List AppCall

-- A call of the vsomeip application.
abbrev pub app : AppCall → Action Host (Unit {0})
app c h = (ok tt, record h { calls = c ∷ h.calls })

-- The storage passes the calls of `RpcCorrelationRegistry` on.
abbrev pub rpc : {A : Type 0} → Action RpcCorrelation.RpcCorrelation A → Action Host A
rpc m h =
    let (a, r) = m h.storage.rpc_correlation in
    (a, record h { storage = record h.storage { rpc_correlation = r } })

unfoldable pub retrieve_session_id : ℕ → Action Host ℕ
unfolding RpcCorrelation.retrieve_session_id
retrieve_session_id client_id h =
    rpc (RpcCorrelation.retrieve_session_id h.overflow_checks client_id) h

unfoldable pub insert_ue_request_correlation : ℕ → Uuid → UUri → Action Host (Unit {0})
unfolding RpcCorrelation.insert_ue_request_correlation
insert_ue_request_correlation someip_request_id uprotocol_req_id source_uri =
    rpc (RpcCorrelation.insert_ue_request_correlation someip_request_id uprotocol_req_id source_uri)

unfoldable pub remove_ue_request_correlation : ℕ → Action Host (Uuid × UUri)
unfolding RpcCorrelation.remove_ue_request_correlation
remove_ue_request_correlation someip_request_id =
    rpc (RpcCorrelation.remove_ue_request_correlation someip_request_id)

unfoldable pub insert_me_request_correlation : Uuid → ℕ → Action Host (Unit {0})
unfolding RpcCorrelation.insert_me_request_correlation
insert_me_request_correlation uprotocol_req_id someip_request_id =
    rpc (RpcCorrelation.insert_me_request_correlation uprotocol_req_id someip_request_id)

unfoldable pub remove_me_request_correlation : Uuid → Action Host ℕ
unfolding RpcCorrelation.remove_me_request_correlation
remove_me_request_correlation uprotocol_req_id =
    rpc (RpcCorrelation.remove_me_request_correlation uprotocol_req_id)

-- It passes those of `ApplicationStateAvailabilityHandlerRegistry` on.
abbrev pub states : {A : Type 0} → Action StateHandlers.StateHandlers A → Action Host A
states m h = let (a, s) = m h.state_handlers in (a, record h { state_handlers = s })

unfoldable pub find_application_state_availability_handler_id : IterOrder ℕ → Action Host ℕ
unfolding StateHandlers.find_available_state_handler_id
find_application_state_availability_handler_id order =
    states (StateHandlers.find_available_state_handler_id order)

unfoldable pub free_application_state_availability_handler_id : ℕ → Action Host (Unit {0})
unfolding StateHandlers.free_state_handler_id
free_application_state_availability_handler_id id = states (StateHandlers.free_state_handler_id id)

unfoldable pub get_application_state_availability_handler : ℕ → Action Host ℕ
unfolding StateHandlers.get_state_handler
get_application_state_availability_handler id h = (StateHandlers.get_state_handler id, h)

-- The storage passes the calls of `VsomeipOfferedRequestedRegistry` on. A result of an insertion
-- that no caller reads is dropped.
abbrev queried : (OfferedRequested.OfferedRequested → Bool) → Action Host Bool
queried q h = (ok (q h.storage.vsomeip_offered_requested), h)

abbrev inserted :
    (OfferedRequested.OfferedRequested → OfferedRequested.OfferedRequested × Bool)
    → Action Host Bool
inserted f h =
    let (r, b) = f h.storage.vsomeip_offered_requested in
    (ok b, record h { storage = record h.storage { vsomeip_offered_requested = r } })

module _ (service instance_id : ℕ) where
  unfoldable pub is_service_offered : ℕ → Action Host Bool
  is_service_offered method =
      queried (λ r. OfferedRequested.is_service_offered r service instance_id method)

  unfoldable pub insert_service_offered : ℕ → Action Host Bool
  unfolding OfferedRequested.insert_service_offered
  insert_service_offered method =
      inserted (λ r. OfferedRequested.insert_service_offered r service instance_id method)

  unfoldable pub is_service_requested : ℕ → Action Host Bool
  is_service_requested method =
      queried (λ r. OfferedRequested.is_service_requested r service instance_id method)

  unfoldable pub insert_service_requested : ℕ → Action Host Bool
  unfolding OfferedRequested.insert_service_requested
  insert_service_requested method =
      inserted (λ r. OfferedRequested.insert_service_requested r service instance_id method)

  unfoldable pub is_event_offered : ℕ → Action Host Bool
  is_event_offered event =
      queried (λ r. OfferedRequested.is_event_offered r service instance_id event)

  unfoldable pub insert_event_offered : ℕ → Action Host Bool
  unfolding OfferedRequested.insert_event_offered
  insert_event_offered event =
      inserted (λ r. OfferedRequested.insert_event_offered r service instance_id event)

  unfoldable pub is_event_requested : ℕ → Action Host Bool
  is_event_requested event =
      queried (λ r. OfferedRequested.is_event_requested r service instance_id event)

  unfoldable pub insert_event_requested : ℕ → Action Host Bool
  unfolding OfferedRequested.insert_event_requested
  insert_event_requested event =
      inserted (λ r. OfferedRequested.insert_event_requested r service instance_id event)
