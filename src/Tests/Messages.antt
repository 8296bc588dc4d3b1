-- ===== src/Tests/Messages.antt =====
-- Messages that go out and come in, on concrete ones.
use up_transport_vsomeip_rus.Prelude.{
  ◌≡◌, ◌↔◌, refl, true, [], ◌∷◌, inl, arith, nat_eq, ◌<◌, if◌then◌else◌,
}
use up_transport_vsomeip_rus.Collections.HashMap
use up_transport_vsomeip_rus.Collections.HashMap.{get-empty}
use up_transport_vsomeip_rus.UProtocol.{attributes_of}
use up_transport_vsomeip_rus.UProtocol.Status.{ok, fail, ok_code, cancelled, not_found}
use up_transport_vsomeip_rus.Vsomeip.{
  VsomeipMessage, mt_request, mt_response, e_ok, e_not_ready, offer_single_event, offer_service,
}
use up_transport_vsomeip_rus.Utils.{create_request_id}
use up_transport_vsomeip_rus.Utils.Parts.{split-create_request_id}
use up_transport_vsomeip_rus.Storage.RpcCorrelation
use up_transport_vsomeip_rus.Storage.OfferedRequested
use up_transport_vsomeip_rus.Storage.{new}
use up_transport_vsomeip_rus.Conversions.Codes.{
  ucode_to_vsomeip_err_code, vsomeip_err_code_to_ucode, there_and_back, IsCarried,
  there_and_back_iff,
}
use up_transport_vsomeip_rus.Conversions.Outbound.{
  umsg_publish_to_vsomeip_notification, umsg_request_to_vsomeip_message,
  umsg_response_to_vsomeip_message, response_status,
}
use up_transport_vsomeip_rus.Conversions.Outbound.Events.{event_of, publish_lem}
use up_transport_vsomeip_rus.Conversions.Inbound.{convert_vsomeip_msg_to_umsg}
use up_transport_vsomeip_rus.Conversions.Inbound.RoundTrip.{
  IsSendable, Responds, request_message, request_id, built, response-request,
}
use up_transport_vsomeip_rus.Conversions.Inbound.Answering.{IsAcceptable, request-response}
use up_transport_vsomeip_rus.Tests.Data.{
  up, vs, host, client_uri, service_uri, topic_uri, request_of, response_to, event, message_of,
}

there_and_back_iff_example :
    ((there_and_back cancelled ≡ cancelled) ↔ IsCarried cancelled)
    × (there_and_back (there_and_back cancelled) ≡ there_and_back cancelled)
    × ((ucode_to_vsomeip_err_code cancelled ≡ e_ok) ↔ (cancelled ≡ ok_code))
    × ((vsomeip_err_code_to_ucode e_not_ready ≡ ok_code) ↔ (e_not_ready ≡ e_ok))
there_and_back_iff_example = there_and_back_iff cancelled e_not_ready

publish_lem_example :
    let (r, h') = umsg_publish_to_vsomeip_notification vs event host in
    let (s, i, e) = event_of topic_uri in
    (r ≡ ok (s, i, e))
    × (h'.calls ≡ (
        if OfferedRequested.is_event_offered host.storage.vsomeip_offered_requested s i e
        then host.calls
        else offer_single_event s i e e ∷ offer_service s i vs.any_major vs.any_minor ∷ host.calls))
    × (OfferedRequested.is_event_offered h'.storage.vsomeip_offered_requested s i e ≡ true)
    × (umsg_publish_to_vsomeip_notification vs event h' ≡ (r, h'))
publish_lem_example = publish_lem vs event topic_uri host refl

pub sendable : IsSendable 258 (request_of 77) client_uri service_uri 77 host
unfolding new RpcCorrelation.new HashMap.get
sendable = record {
  source_is = refl;
  sink_is = refl;
  id_is = refl;
  unpoisoned = refl;
  sessions_left = omega arith;
  unused = refl;
}

-- the response from SOME/IP to the first request of the client
abbrev pub answered : VsomeipMessage
answered = message_of mt_response 258 1

responds :
    Responds up vs "device"
      (request_id vs 258 (request_of 77) client_uri service_uri 77 sendable)
      answered
      (record service_uri { authority_name = "device" })
      (3 ∷ [])
unfolding new RpcCorrelation.new HashMap.get
responds = record { request_is = refl; payload_is = refl; source_is = refl }

response-request_example :
    let (sent, h1) = umsg_request_to_vsomeip_message vs 258 (request_of 77) host in
    let (answer, h2) =
      convert_vsomeip_msg_to_umsg up vs 500 "linux" client_uri "device" answered h1 in
    (sent ≡ ok (request_message vs service_uri))
    × (answer
        ≡ built (
            up.build_response 500 client_uri 77
              (record service_uri { authority_name = "device" })
              ok_code
              (3 ∷ [])))
    × ((convert_vsomeip_msg_to_umsg up vs 501 "linux" client_uri "device" answered h2).0
        ≡ fail not_found)
response-request_example =
    response-request up vs 258 (request_of 77) client_uri service_uri 77 sendable 500 501 "linux"
      "device" client_uri answered (record service_uri { authority_name = "device" }) (3 ∷ [])
      ok_code responds (inl (refl, refl))

-- a request from SOME/IP
abbrev incoming : VsomeipMessage
incoming = message_of mt_request 772 9

acceptable : IsAcceptable up vs 500 "linux" "device" client_uri incoming host (request_of 500) 500
unfolding new RpcCorrelation.new HashMap.get
acceptable = record {
  type_is = refl;
  payload = 3 ∷ [];
  payload_is = refl;
  sink = _;
  sink_is = refl;
  version_fits = omega arith;
  source = _;
  source_is = refl;
  built_is = refl;
  id_is = refl;
  unused = refl;
}

request-response_example :
    let (r, h1) = convert_vsomeip_msg_to_umsg up vs 500 "linux" client_uri "device" incoming host in
    let (a, h2) = umsg_response_to_vsomeip_message vs (response_to 500) h1 in
    let (status, type) = response_status (attributes_of (response_to 500)).commstatus in
    (r ≡ ok (request_of 500))
    × ((answer : VsomeipMessage) × (a ≡ ok answer)
        × (create_request_id answer.client answer.session ≡ vs.get_request incoming)
        × (answer.return_code ≡ ucode_to_vsomeip_err_code status)
        × (answer.message_type ≡ type))
    × ((umsg_response_to_vsomeip_message vs (response_to 500) h2).0 ≡ fail not_found)
request-response_example =
    request-response up vs 500 "linux" "device" client_uri incoming (request_of 500) 500 acceptable
      fits (response_to 500) service_uri refl refl
  where
    fits : create_request_id 772 9 < 4294967296
    fits = (split-create_request_id 772 9 (omega arith) (omega arith)).0
