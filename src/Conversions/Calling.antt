-- ===== src/Conversions/Calling.antt =====
-- A remote call from one transport to another: each converts what goes out and what comes in, with
-- its own correlation registry, and vsomeip carries the messages between them.
use up_transport_vsomeip_rus.Prelude.{
  ℕ, ◌^◌, ◌<◌, ◌≡◌, ◌∙◌, refl, sym, ap, String, Option, none, some, List, inl, inr, arith, nat_eq,
}
use up_transport_vsomeip_rus.UProtocol.{Uuid, UUri, UMessage, attributes_of, UpRust}
use up_transport_vsomeip_rus.UProtocol.Status.{UCode, ok, fail, ok_code, not_found}
use up_transport_vsomeip_rus.Vsomeip.{VsomeipMessage, VsomeipApi}
use up_transport_vsomeip_rus.Utils.{split_u32_to_u16, create_request_id}
use up_transport_vsomeip_rus.Utils.Parts.{split-create_request_id, create_request_id-split}
use up_transport_vsomeip_rus.Storage.RpcCorrelation.Overflow.{next_session}
use up_transport_vsomeip_rus.Storage.{Host}
use up_transport_vsomeip_rus.Conversions.Codes.{
  ucode_to_vsomeip_err_code, vsomeip_err_code_to_ucode, there_and_back,
}
use up_transport_vsomeip_rus.Conversions.Outbound.{
  umsg_request_to_vsomeip_message, umsg_response_to_vsomeip_message, response_status,
}
use up_transport_vsomeip_rus.Conversions.Inbound.{convert_vsomeip_msg_to_umsg}
use up_transport_vsomeip_rus.Conversions.Inbound.RoundTrip.{
  IsSendable, Responds, StatusIs, request_message, request_id, request_lem, response_found,
  response_unknown, built,
}
use up_transport_vsomeip_rus.Conversions.Inbound.Answering.{
  IsAcceptable, answer_message, request_accepted, response_sent,
}

-- What vsomeip makes of a message on its way: the parts stay, and the request id is `k`.
pub record Travels (vs : VsomeipApi) (k : ℕ) (sent received : VsomeipMessage) : Type 0 where
  pub request_is : vs.get_request received ≡ k
  pub service_is : received.service ≡ sent.service
  pub method_is : received.method ≡ sent.method
  pub version_is : received.interface_version ≡ sent.interface_version
  pub return_code_is : received.return_code ≡ sent.return_code
  pub type_is : received.message_type ≡ sent.message_type

-- the status that a response has
abbrev pub status_of : UMessage → UCode
status_of response = (response_status (attributes_of response).commstatus).0

status_travels :
    (commstatus : Option (Option UCode)) (m : VsomeipMessage)
    → m.message_type ≡ (response_status commstatus).1
    → m.return_code ≡ ucode_to_vsomeip_err_code (response_status commstatus).0
    → StatusIs m (there_and_back (response_status commstatus).0)
unfolding response_status ucode_to_vsomeip_err_code vsomeip_err_code_to_ucode
status_travels none m t r = inl (t, refl)
status_travels (some none) m t r = inr (t, ap vsomeip_err_code_to_ucode (sym r))
status_travels (some (some ok_code)) m t r = inl (t, refl)
status_travels (some (some c)) m t r = inr (t, ap vsomeip_err_code_to_ucode (sym r))

request_id_fits :
    (vs : VsomeipApi) (client : ℕ) (umsg : UMessage) (source sink : UUri) (id : Uuid) {h : Host}
    (s : IsSendable client umsg source sink id h)
    → client < 2 ^ 16
    → request_id vs client umsg source sink id s < 2 ^ 32
request_id_fits vs client umsg source sink id {h} s fits =
    (split-create_request_id client (next_session client h.storage.rpc_correlation) fits
      (omega (arith, s.sessions_left))).0

-- A client calls a service on another device. The client can send the request, under a request id
-- that vsomeip gives the message too; the request arrives, and the service accepts it under an id
-- of its own; the response to this id arrives with the request id of the message that it became.
-- Then the client's conversion of the response comes to what up_rust makes of the source and the id
-- of its request, the payload of the response, and the response's status as far as the return codes
-- of SOME/IP carry it, or to INTERNAL where up_rust refuses to build that; and the conversion of a
-- second arrival of the response is refused as not found.
pub remote_call :
    (up : UpRust) (vs : VsomeipApi) (client : ℕ) (umsg : UMessage) (source sink : UUri) (id : Uuid)
    {h : Host} (s : IsSendable client umsg source sink id h)
    → client < 2 ^ 16
    → (m : VsomeipMessage)
    → Travels vs (request_id vs client umsg source sink id s) (request_message vs sink) m
    → (fresh : Uuid) (there elsewhere : String) (service : UUri) {g : Host} (request : UMessage)
      (number : Uuid)
    → IsAcceptable up vs fresh there elsewhere service m g request number
    → (response : UMessage) (from : UUri) → (attributes_of response).source ≡ some from
    → (attributes_of response).reqid ≡ some number
    → (back : VsomeipMessage)
    → (let sent = answer_message vs response from (vs.get_request m) in
        Travels vs (create_request_id sent.client sent.session) sent back)
    → (new later : Uuid) (local remote : String) (self seen : UUri) (payload : List ℕ)
    → back.payload ≡ some payload
    → up.try_from_parts remote back.service back.interface_version back.method ≡ some seen
    → let (asked, h1) = umsg_request_to_vsomeip_message vs client umsg h in
      let (received, g1) = convert_vsomeip_msg_to_umsg up vs fresh there service elsewhere m g in
      let (replied, g2) = umsg_response_to_vsomeip_message vs response g1 in
      let (answer, h2) = convert_vsomeip_msg_to_umsg up vs new local self remote back h1 in
      (asked ≡ ok (request_message vs sink))
      × (received ≡ ok request)
      × (replied ≡ ok (answer_message vs response from (vs.get_request m)))
      × (answer
          ≡ built
              (up.build_response new source id seen (there_and_back (status_of response)) payload))
      × ((convert_vsomeip_msg_to_umsg up vs later local self remote back h2).0 ≡ fail not_found)
remote_call up vs client umsg source sink id {h} s fits m out fresh there elsewhere service {g}
      request number accept response from source_is reqid_is back home new later local remote self
      seen payload payload_is seen_is =
    let k = request_id vs client umsg source sink id s in
    let (asked, waiting, quiet) = request_lem vs client umsg source sink id s in
    let h1 = (umsg_request_to_vsomeip_message vs client umsg h).1 in
    let (received, pending) =
      request_accepted up vs fresh there elsewhere service m request number accept in
    let g1 = (convert_vsomeip_msg_to_umsg up vs fresh there service elsewhere m g).1 in
    let (replied, done) =
      response_sent vs response from number source_is reqid_is g1 (vs.get_request m) pending in
    let whole = create_request_id-split k (request_id_fits vs client umsg source sink id s fits) in
    let carried : vs.get_request back ≡ k =
      home.request_is
      ∙ ap (λ x. create_request_id (split_u32_to_u16 x).0 (split_u32_to_u16 x).1) out.request_is
      ∙ whole in
    let responds : Responds up vs remote k back seen payload = record {
      request_is = carried;
      payload_is = payload_is;
      source_is = seen_is;
    } in
    let c = there_and_back (status_of response) in
    let status =
      status_travels (attributes_of response).commstatus back home.type_is home.return_code_is in
    let (answer, gone) =
      response_found up vs new local remote self k back seen payload c h1 responds status id source
        waiting in
    let h2 = (convert_vsomeip_msg_to_umsg up vs new local self remote back h1).1 in
    (
      asked,
      received,
      replied,
      answer,
      response_unknown up vs later local remote self k back seen payload c h2 responds status gone,
    )
