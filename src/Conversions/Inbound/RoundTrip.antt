-- ===== src/Conversions/Inbound/RoundTrip.antt =====
-- A request and its response find each other, in both directions.
use up_transport_vsomeip_rus.Prelude.{
  ℕ, ◌<◌, ◌≡◌, ◌⊎◌, String, false, Option, none, some, List, arith, nat_eq,
}
use up_transport_vsomeip_rus.Collections.HashMap
use up_transport_vsomeip_rus.Collections.HashMap.{get-insert, get-remove}
use up_transport_vsomeip_rus.UProtocol.{Uuid, UUri, UMessage, attributes_of, UpRust}
use up_transport_vsomeip_rus.UProtocol.Status.{
  UCode, Result, ok, fail, ok_code, internal, not_found,
}
use up_transport_vsomeip_rus.Vsomeip.{VsomeipMessage, VsomeipApi, mt_response, mt_error, e_ok}
use up_transport_vsomeip_rus.Utils.{split_u32_to_u16, split_u32_to_u8, create_request_id}
use up_transport_vsomeip_rus.Storage.RpcCorrelation.Overflow.{next_session}
use up_transport_vsomeip_rus.Storage.{Host}
use up_transport_vsomeip_rus.Conversions.Codes.{vsomeip_err_code_to_ucode}
use up_transport_vsomeip_rus.Conversions.Outbound.{umsg_request_to_vsomeip_message}
use up_transport_vsomeip_rus.Conversions.Inbound.{
  convert_vsomeip_msg_to_umsg, convert_vsomeip_mt_response_to_umsg,
  convert_vsomeip_mt_error_to_umsg,
}

abbrev pub pending_ue : Host → ℕ → Option (Uuid × UUri)
pending_ue h k = HashMap.get h.storage.rpc_correlation.ue_request_correlation k

-- What a request must bring to be sent, and the state in which it is.
pub record IsSendable (client : ℕ) (umsg : UMessage) (source sink : UUri) (id : Uuid) (h : Host)
    : Type 0 where
  pub source_is : (attributes_of umsg).source ≡ some source
  pub sink_is : (attributes_of umsg).sink ≡ some sink
  pub id_is : (attributes_of umsg).id ≡ some id
  pub unpoisoned : h.storage.rpc_correlation.session_ids_poisoned ≡ false
  pub sessions_left : next_session client h.storage.rpc_correlation < 65535
  pub unused :
      pending_ue h (create_request_id client (next_session client h.storage.rpc_correlation)) ≡ none

-- the SOME/IP request to a sink
abbrev pub request_message : VsomeipApi → UUri → VsomeipMessage
request_message vs sink = record vs.create_request {
  service = (split_u32_to_u16 sink.ue_id).1;
  instance_id = 1;
  method = (split_u32_to_u16 sink.resource_id).1;
  interface_version = (split_u32_to_u8 sink.ue_version_major).3;
  return_code = e_ok;
}

module _ (vs : VsomeipApi) (client : ℕ) (umsg : UMessage) (source sink : UUri) (id : Uuid)
    {h : Host} (s : IsSendable client umsg source sink id h) where
  abbrev pub request_id : ℕ
  request_id = create_request_id client (next_session client h.storage.rpc_correlation)

  pub request_lem :
      let (r, h') = umsg_request_to_vsomeip_message vs client umsg h in
      (r ≡ ok (request_message vs sink))
      × (pending_ue h' request_id ≡ some (id, source))
      × (h'.calls ≡ h.calls)
  unfolding umsg_request_to_vsomeip_message
  request_lem = (
    ground arith,
    ground (
      arith,
      get-insert h.storage.rpc_correlation.ue_request_correlation request_id request_id
          (id, source),
    ),
    ground arith,
  )

-- `Ok(umsg)`, or an internal error where the builder refuses
abbrev pub built : Option UMessage → Result UMessage
built none = fail internal
built (some umsg) = ok umsg

-- What the message of a response holds: the request that it answers, and the uProtocol source.
pub record Responds (up : UpRust) (vs : VsomeipApi) (remote : String) (k : ℕ) (m : VsomeipMessage)
    (source : UUri) (payload : List ℕ) : Type 0 where
  pub request_is : vs.get_request m ≡ k
  pub payload_is : m.payload ≡ some payload
  pub source_is : up.try_from_parts remote m.service m.interface_version m.method ≡ some source

-- the status of a response, by the type of its message
abbrev pub StatusIs : VsomeipMessage → UCode → Type 0
StatusIs m c =
    ((m.message_type ≡ mt_response) × (c ≡ ok_code))
    ⊎ ((m.message_type ≡ mt_error) × (c ≡ vsomeip_err_code_to_ucode m.return_code))

module _ (up : UpRust) (vs : VsomeipApi) (fresh : Uuid) (local remote : String) (self : UUri)
    (k : ℕ) (m : VsomeipMessage) (source : UUri) (payload : List ℕ) (c : UCode) (h : Host)
    (r : Responds up vs remote k m source payload) (status : StatusIs m c) where
  pub response_found :
      (id : Uuid) (sink : UUri)
      → pending_ue h k ≡ some (id, sink)
      → let (a, h') = convert_vsomeip_msg_to_umsg up vs fresh local self remote m h in
        (a ≡ built (up.build_response fresh sink id source c payload)) × (pending_ue h' k ≡ none)
  unfolding convert_vsomeip_msg_to_umsg convert_vsomeip_mt_response_to_umsg
      convert_vsomeip_mt_error_to_umsg
  response_found id sink e = (
    ground (arith, r.request_is, r.payload_is, r.source_is),
    ground (
      arith,
      r.request_is,
      r.payload_is,
      r.source_is,
      get-remove h.storage.rpc_correlation.ue_request_correlation k k,
    ),
  )

  pub response_unknown :
      pending_ue h k ≡ none
      → (convert_vsomeip_msg_to_umsg up vs fresh local self remote m h).0 ≡ fail not_found
  unfolding convert_vsomeip_msg_to_umsg convert_vsomeip_mt_response_to_umsg
      convert_vsomeip_mt_error_to_umsg
  response_unknown e = ground (arith, r.request_is, r.payload_is, r.source_is)

-- A request that has been sent is answered once. Let a message with a source, a sink and an id be
-- sent by a client whose session ids are not used up, under a request id that is not in use: the
-- request for the sink is built. The response or error message that carries its request id becomes a response
-- message to the request's source, with the request's id and the status of the message, as far as
-- the builder accepts it; and a second response to the same request is refused as not found.
pub response-request :
    (up : UpRust) (vs : VsomeipApi) (client : ℕ) (umsg : UMessage) (source sink : UUri) (id : Uuid)
    {h : Host} (s : IsSendable client umsg source sink id h) (fresh later : Uuid)
    (local remote : String) (self : UUri) (m : VsomeipMessage) (from : UUri) (payload : List ℕ)
    (c : UCode)
    → Responds up vs remote (request_id vs client umsg source sink id s) m from payload
    → StatusIs m c
    → let (sent, h1) = umsg_request_to_vsomeip_message vs client umsg h in
      let (answer, h2) = convert_vsomeip_msg_to_umsg up vs fresh local self remote m h1 in
      (sent ≡ ok (request_message vs sink))
      × (answer ≡ built (up.build_response fresh source id from c payload))
      × ((convert_vsomeip_msg_to_umsg up vs later local self remote m h2).0 ≡ fail not_found)
response-request up vs client umsg source sink id {h} s fresh later local remote self m from payload
      c r status =
    let k = request_id vs client umsg source sink id s in
    let (sent, waiting, quiet) = request_lem vs client umsg source sink id s in
    let h1 = (umsg_request_to_vsomeip_message vs client umsg h).1 in
    let (answer, gone) =
      response_found up vs fresh local remote self k m from payload c h1 r status id source
        waiting in
    let h2 = (convert_vsomeip_msg_to_umsg up vs fresh local self remote m h1).1 in
    (
      sent,
      answer,
      response_unknown up vs later local remote self k m from payload c h2 r status gone,
    )
