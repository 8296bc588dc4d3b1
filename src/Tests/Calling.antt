-- ===== src/Tests/Calling.antt =====
-- A remote call from one device to another.
use up_transport_vsomeip_rus.Prelude.{◌≡◌, refl, [], ◌∷◌, arith, nat_eq}
use up_transport_vsomeip_rus.Collections.HashMap
use up_transport_vsomeip_rus.Collections.HashMap.{get-empty}
use up_transport_vsomeip_rus.UProtocol.Status.{ok, fail, not_found}
use up_transport_vsomeip_rus.Vsomeip.{VsomeipMessage, mt_request}
use up_transport_vsomeip_rus.Utils.{create_request_id, split_u32_to_u16, split_u32_to_u8}
use up_transport_vsomeip_rus.Storage.RpcCorrelation
use up_transport_vsomeip_rus.Storage.{Host, new}
use up_transport_vsomeip_rus.Conversions.Codes.{ucode_to_vsomeip_err_code, there_and_back}
use up_transport_vsomeip_rus.Conversions.Outbound.{
  umsg_request_to_vsomeip_message, umsg_response_to_vsomeip_message, response_status,
}
use up_transport_vsomeip_rus.Conversions.Inbound.{convert_vsomeip_msg_to_umsg}
use up_transport_vsomeip_rus.Conversions.Inbound.RoundTrip.{request_message, request_id, built}
use up_transport_vsomeip_rus.Conversions.Inbound.Answering.{IsAcceptable, answer_message}
use up_transport_vsomeip_rus.Conversions.Calling.{Travels, status_of, remote_call}
use up_transport_vsomeip_rus.Tests.Data.{
  up, vs, host, client_uri, service_uri, request_of, response_to, message_of,
}
use up_transport_vsomeip_rus.Tests.Messages.{sendable, answered}

-- the device on which the service runs
abbrev device : Host
device = record host { storage = new (record { name = "service"; id = 772 }) service_uri "linux" }

-- the client's request on arrival, and the response on its return
abbrev arrived : VsomeipMessage
arrived = message_of mt_request 258 1

travels :
    Travels vs
      (request_id vs 258 (request_of 77) client_uri service_uri 77 sendable)
      (request_message vs service_uri)
      arrived
unfolding new RpcCorrelation.new HashMap.get split_u32_to_u16 split_u32_to_u8
travels = record {
  request_is = refl;
  service_is = refl;
  method_is = refl;
  version_is = refl;
  return_code_is = refl;
  type_is = refl;
}

accepted : IsAcceptable up vs 500 "device" "linux" service_uri arrived device (request_of 500) 500
unfolding new RpcCorrelation.new HashMap.get
accepted = record {
  type_is = refl;
  payload = 3 ∷ [];
  payload_is = refl;
  sink = _;
  sink_is = refl;
  version_fits = omega arith;
  source = _;
  source_is = refl;
  built_is = refl;
  id_is = refl;
  unused = refl;
}

abbrev reply : VsomeipMessage
reply = answer_message vs (response_to 500) service_uri (vs.get_request arrived)

returns : Travels vs (create_request_id reply.client reply.session) reply answered
unfolding split_u32_to_u16 split_u32_to_u8 create_request_id response_status
    ucode_to_vsomeip_err_code
returns = record {
  request_is = refl;
  service_is = refl;
  method_is = refl;
  version_is = refl;
  return_code_is = refl;
  type_is = refl;
}

remote_call_example :
    let (asked, h1) = umsg_request_to_vsomeip_message vs 258 (request_of 77) host in
    let (received, g1) =
      convert_vsomeip_msg_to_umsg up vs 500 "device" service_uri "linux" arrived device in
    let (replied, g2) = umsg_response_to_vsomeip_message vs (response_to 500) g1 in
    let (answer, h2) =
      convert_vsomeip_msg_to_umsg up vs 501 "linux" client_uri "device" answered h1 in
    (asked ≡ ok (request_message vs service_uri))
    × (received ≡ ok (request_of 500))
    × (replied ≡ ok reply)
    × (answer
        ≡ built (
            up.build_response 501 client_uri 77
              (record service_uri { authority_name = "device" })
              (there_and_back (status_of (response_to 500)))
              (3 ∷ [])))
    × ((convert_vsomeip_msg_to_umsg up vs 502 "linux" client_uri "device" answered h2).0
        ≡ fail not_found)
remote_call_example =
    remote_call up vs 258 (request_of 77) client_uri service_uri 77 sendable (omega arith) arrived
      travels 500 "device" "linux" service_uri (request_of 500) 500 accepted (response_to 500)
      service_uri refl refl answered returns 501 502 "linux" "device" client_uri
      (record service_uri { authority_name = "device" }) (3 ∷ []) refl refl
