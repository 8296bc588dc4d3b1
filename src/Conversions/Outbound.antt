-- ===== src/Conversions/Outbound.antt =====
-- `UMessageToVsomeipMessage`: from uProtocol to SOME/IP.
pub mod Events
use up_transport_vsomeip_rus.Prelude.{ℕ, Option, none, some, if◌then◌else◌}
use up_transport_vsomeip_rus.Action.{Action, return, ok_or, continue, ◌>>=◌, ◌>>◌}
use up_transport_vsomeip_rus.UProtocol.{UMessage, attributes_of, enum_value_or}
use up_transport_vsomeip_rus.UProtocol.Status.{UCode, ok_code, invalid_argument, unimplemented}
use up_transport_vsomeip_rus.Vsomeip.{
  VsomeipMessage, VsomeipApi, MessageType, mt_response, mt_error, e_ok, offer_service,
  offer_single_event,
}
use up_transport_vsomeip_rus.Utils.{split_u32_to_u16, split_u32_to_u8, create_request_id}
use up_transport_vsomeip_rus.Storage.{
  Host, app, is_event_offered, insert_event_offered, retrieve_session_id,
  insert_ue_request_correlation, remove_me_request_correlation,
}
use up_transport_vsomeip_rus.Conversions.Codes.{ucode_to_vsomeip_err_code}

-- the status of a response, and the type of message that it calls for
unfoldable pub response_status : Option (Option UCode) → UCode × MessageType
response_status none = (ok_code, mt_response)
response_status (some commstatus) = elim (enum_value_or commstatus unimplemented) [
  | ok_code ↦ (ok_code, mt_response)
  | status_val ↦ (status_val, mt_error)
]

module _ (vs : VsomeipApi) where
  -- The event's service and the event are offered the first time. The pause before the event is
  -- noted as offered has no effect on the state.
  unfoldable pub umsg_publish_to_vsomeip_notification : UMessage → Action Host (ℕ × ℕ × ℕ)
  unfolding is_event_offered insert_event_offered
  umsg_publish_to_vsomeip_notification umsg = do
    source ← ok_or (attributes_of umsg).source invalid_argument
    let service_id = (split_u32_to_u16 source.ue_id).1
    let instance_id : ℕ = 1
    let event_id = (split_u32_to_u16 source.resource_id).1
    offered ← is_event_offered service_id instance_id event_id
    if offered then return (service_id, instance_id, event_id) else do
      app (offer_service service_id instance_id vs.any_major vs.any_minor)
      app (offer_single_event service_id instance_id event_id event_id)
      insert_event_offered service_id instance_id event_id
      return (service_id, instance_id, event_id)

  -- The session id is taken, and the request stored, only when all parts of the message are there.
  unfoldable pub umsg_request_to_vsomeip_message : ℕ → UMessage → Action Host VsomeipMessage
  unfolding retrieve_session_id insert_ue_request_correlation
  umsg_request_to_vsomeip_message app_client_id umsg = do
    source ← ok_or (attributes_of umsg).source invalid_argument
    sink ← ok_or (attributes_of umsg).sink invalid_argument
    let vsomeip_msg = record vs.create_request {
      service = (split_u32_to_u16 sink.ue_id).1;
      instance_id = 1;
      method = (split_u32_to_u16 sink.resource_id).1;
      interface_version = (split_u32_to_u8 sink.ue_version_major).3;
    }
    req_id ← ok_or (attributes_of umsg).id invalid_argument
    app_session_id ← retrieve_session_id app_client_id
    insert_ue_request_correlation (create_request_id app_client_id app_session_id) req_id source
    return (record vsomeip_msg { return_code = e_ok })

  unfoldable pub umsg_response_to_vsomeip_message : UMessage → Action Host VsomeipMessage
  unfolding remove_me_request_correlation response_status
  umsg_response_to_vsomeip_message umsg = do
    source ← ok_or (attributes_of umsg).source invalid_argument
    let vsomeip_msg = record vs.create_message {
      service = (split_u32_to_u16 source.ue_id).1;
      instance_id = 1;
      method = (split_u32_to_u16 source.resource_id).1;
      interface_version = (split_u32_to_u8 source.ue_version_major).3;
    }
    req_id ← ok_or (attributes_of umsg).reqid invalid_argument
    request_id ← remove_me_request_correlation req_id
    let (client_id, session_id) = split_u32_to_u16 request_id
    let (commstatus, vsomeip_msg_type) = response_status (attributes_of umsg).commstatus
    return (record vsomeip_msg {
      client = client_id;
      session = session_id;
      return_code = ucode_to_vsomeip_err_code commstatus;
      message_type = vsomeip_msg_type;
    })
