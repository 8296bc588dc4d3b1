-- ===== src/Conversions/Inbound/Answering.antt =====
-- A request from SOME/IP and the uProtocol response to it find each other.
use up_transport_vsomeip_rus.Prelude.{
  ℕ, ◌^◌, ◌<◌, ◌≡◌, refl, String, Option, none, some, List, arith, nat_eq,
}
use up_transport_vsomeip_rus.Collections.HashMap
use up_transport_vsomeip_rus.Collections.HashMap.{get-insert, get-remove}
use up_transport_vsomeip_rus.UProtocol.{Uuid, UUri, UMessage, attributes_of, UpRust}
use up_transport_vsomeip_rus.UProtocol.Status.{ok, fail, not_found}
use up_transport_vsomeip_rus.Vsomeip.{VsomeipMessage, VsomeipApi, mt_request}
use up_transport_vsomeip_rus.Utils.{split_u32_to_u16, split_u32_to_u8, create_request_id}
use up_transport_vsomeip_rus.Utils.Parts.{create_request_id-split}
use up_transport_vsomeip_rus.Storage.{Host}
use up_transport_vsomeip_rus.Conversions.Codes.{ucode_to_vsomeip_err_code}
use up_transport_vsomeip_rus.Conversions.Outbound.{
  umsg_response_to_vsomeip_message, response_status,
}
use up_transport_vsomeip_rus.Conversions.Inbound.{
  convert_vsomeip_msg_to_umsg, convert_vsomeip_mt_request_to_umsg,
}

abbrev pub pending_me : Host → Uuid → Option ℕ
pending_me h id = HashMap.get h.storage.rpc_correlation.me_request_correlation id

-- What an incoming request must bring to become a message, and the state in which it is.
pub record IsAcceptable (up : UpRust) (vs : VsomeipApi) (fresh : Uuid) (local remote : String)
    (self : UUri) (m : VsomeipMessage) (h : Host) (umsg : UMessage) (id : Uuid) : Type 0 where
  pub type_is : m.message_type ≡ mt_request
  pub payload : List ℕ
  pub payload_is : m.payload ≡ some payload
  pub sink : UUri
  pub sink_is : up.try_from_parts local m.service m.interface_version m.method ≡ some sink
  pub version_fits : self.ue_version_major < 2 ^ 8
  pub source : UUri
  pub source_is :
      up.try_from_parts remote (split_u32_to_u16 (vs.get_request m)).0 self.ue_version_major 0
      ≡ some source
  pub built_is : up.build_request fresh sink source 1000 payload ≡ some umsg
  pub id_is : (attributes_of umsg).id ≡ some id
  pub unused : HashMap.get h.storage.rpc_correlation.me_request_correlation id ≡ none

pub request_accepted :
    (up : UpRust) (vs : VsomeipApi) (fresh : Uuid) (local remote : String) (self : UUri)
    (m : VsomeipMessage) {h : Host} (umsg : UMessage) (id : Uuid)
    → IsAcceptable up vs fresh local remote self m h umsg id
    → let (r, h1) = convert_vsomeip_msg_to_umsg up vs fresh local self remote m h in
      (r ≡ ok umsg) × (pending_me h1 id ≡ some (vs.get_request m))
unfolding convert_vsomeip_msg_to_umsg convert_vsomeip_mt_request_to_umsg
request_accepted up vs fresh local remote self m {h} umsg id q = (
  ground (arith, q.type_is, q.payload_is, q.sink_is, q.source_is, q.built_is, q.id_is, q.unused),
  ground (
    arith,
    q.type_is,
    q.payload_is,
    q.sink_is,
    q.source_is,
    q.built_is,
    q.id_is,
    q.unused,
    get-insert h.storage.rpc_correlation.me_request_correlation id id (vs.get_request m),
  ),
)

-- the SOME/IP message of a response to the request with an id
abbrev pub answer_message : VsomeipApi → UMessage → UUri → ℕ → VsomeipMessage
answer_message vs response from k = record vs.create_message {
  service = (split_u32_to_u16 from.ue_id).1;
  instance_id = 1;
  method = (split_u32_to_u16 from.resource_id).1;
  interface_version = (split_u32_to_u8 from.ue_version_major).3;
  client = (split_u32_to_u16 k).0;
  session = (split_u32_to_u16 k).1;
  return_code = ucode_to_vsomeip_err_code (response_status (attributes_of response).commstatus).0;
  message_type = (response_status (attributes_of response).commstatus).1;
}

module _ (vs : VsomeipApi) (response : UMessage) (from : UUri) (id : Uuid)
    (source_is : (attributes_of response).source ≡ some from)
    (reqid_is : (attributes_of response).reqid ≡ some id) (h : Host) where
  pub response_sent :
      (k : ℕ)
      → pending_me h id ≡ some k
      → let (a, h2) = umsg_response_to_vsomeip_message vs response h in
        (a ≡ ok (answer_message vs response from k)) × (pending_me h2 id ≡ none)
  unfolding umsg_response_to_vsomeip_message
  response_sent k e = (
    ground arith,
    ground (arith, get-remove h.storage.rpc_correlation.me_request_correlation id id),
  )

  response_refused :
      pending_me h id ≡ none → (umsg_response_to_vsomeip_message vs response h).0 ≡ fail not_found
  unfolding umsg_response_to_vsomeip_message
  response_refused e = ground arith

-- An incoming request is answered once, and to its caller. Let a SOME/IP request whose parts fit
-- become a message whose id is not in use: it does, and the response message with that id becomes a
-- SOME/IP message that has the client and the session of the request, whose return code and type
-- are those of the response's status; a second response with that id is refused as not found.
pub request-response :
    (up : UpRust) (vs : VsomeipApi) (fresh : Uuid) (local remote : String) (self : UUri)
    (m : VsomeipMessage) {h : Host} (umsg : UMessage) (id : Uuid)
    → IsAcceptable up vs fresh local remote self m h umsg id
    → vs.get_request m < 2 ^ 32
    → (response : UMessage) (from : UUri) → (attributes_of response).source ≡ some from
    → (attributes_of response).reqid ≡ some id
    → let (r, h1) = convert_vsomeip_msg_to_umsg up vs fresh local self remote m h in
      let (a, h2) = umsg_response_to_vsomeip_message vs response h1 in
      let (status, type) = response_status (attributes_of response).commstatus in
      (r ≡ ok umsg)
      × ((answer : VsomeipMessage) × (a ≡ ok answer)
          × (create_request_id answer.client answer.session ≡ vs.get_request m)
          × (answer.return_code ≡ ucode_to_vsomeip_err_code status)
          × (answer.message_type ≡ type))
      × ((umsg_response_to_vsomeip_message vs response h2).0 ≡ fail not_found)
request-response up vs fresh local remote self m {h} umsg id q fits response from e1 e2 =
    let (accepted, waiting) = request_accepted up vs fresh local remote self m umsg id q in
    let h1 = (convert_vsomeip_msg_to_umsg up vs fresh local self remote m h).1 in
    let (sent, gone) = response_sent vs response from id e1 e2 h1 (vs.get_request m) waiting in
    let h2 = (umsg_response_to_vsomeip_message vs response h1).1 in
    (
      accepted,
      (
        answer_message vs response from (vs.get_request m),
        sent,
        create_request_id-split (vs.get_request m) fits,
        refl,
        refl,
      ),
      response_refused vs response from id e1 e2 h2 gone,
    )
