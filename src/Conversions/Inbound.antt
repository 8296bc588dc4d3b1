-- ===== src/Conversions/Inbound.antt =====
-- `VsomeipMessageToUMessage`: from SOME/IP to uProtocol. `fresh` is the identifier that the builder
-- draws for the new message.
pub mod RoundTrip
pub mod Answering
use up_transport_vsomeip_rus.Prelude.{ℕ, String, List, Option, none, some, ltb, if◌then◌else◌, ◌^◌}
use up_transport_vsomeip_rus.Action.{Action, return, raise, lift, ok_or, continue, ◌>>=◌, ◌>>◌}
use up_transport_vsomeip_rus.UProtocol.{Uuid, UUri, UMessage, attributes_of, UpRust}
use up_transport_vsomeip_rus.UProtocol.Status.{
  Result, ok, panicked, ok_code, invalid_argument, internal, out_of_range,
}
use up_transport_vsomeip_rus.Vsomeip.{
  VsomeipMessage, VsomeipApi, mt_request, mt_notification, mt_response, mt_error, other_type,
}
use up_transport_vsomeip_rus.Utils.{split_u32_to_u16}
use up_transport_vsomeip_rus.Storage.{
  Host, remove_ue_request_correlation, insert_me_request_correlation,
}
use up_transport_vsomeip_rus.Conversions.Codes.{vsomeip_err_code_to_ucode}

-- `value.try_into::<u8>().unwrap()`
unfoldable pub to_u8 : ℕ → Result ℕ
to_u8 value = if ltb value (2 ^ 8) then ok value else panicked

module _ (up : UpRust) (vs : VsomeipApi) (fresh : Uuid) where
  unfoldable pub convert_vsomeip_mt_request_to_umsg :
      String → UUri → String → VsomeipMessage → List ℕ → Action Host UMessage
  unfolding to_u8 insert_me_request_correlation
  convert_vsomeip_mt_request_to_umsg authority_name self_uuri mechatronics_authority_name msg
        payload_bytes =
      do
        let request_id = vs.get_request msg
        sink ←
            ok_or (up.try_from_parts authority_name msg.service msg.interface_version msg.method)
              invalid_argument
        let client_id = (split_u32_to_u16 request_id).0
        version ← lift (to_u8 self_uuri.ue_version_major)
        source ←
            ok_or (up.try_from_parts mechatronics_authority_name client_id version 0)
              invalid_argument
        umsg ← ok_or (up.build_request fresh sink source 1000 payload_bytes) internal
        req_id ← ok_or (attributes_of umsg).id invalid_argument
        insert_me_request_correlation req_id request_id
        return umsg

  unfoldable pub convert_vsomeip_mt_response_to_umsg :
      String → VsomeipMessage → List ℕ → Action Host UMessage
  unfolding remove_ue_request_correlation
  convert_vsomeip_mt_response_to_umsg mechatronics_authority_name msg payload_bytes = do
    let request_id = vs.get_request msg
    source ←
        ok_or
          (up.try_from_parts mechatronics_authority_name msg.service msg.interface_version
            msg.method)
          invalid_argument
    found ← remove_ue_request_correlation request_id
    ok_or (up.build_response fresh found.1 found.0 source ok_code payload_bytes) internal

  unfoldable pub convert_vsomeip_mt_error_to_umsg :
      String → VsomeipMessage → List ℕ → Action Host UMessage
  unfolding remove_ue_request_correlation
  convert_vsomeip_mt_error_to_umsg mechatronics_authority_name msg payload_bytes = do
    let request_id = vs.get_request msg
    source ←
        ok_or
          (up.try_from_parts mechatronics_authority_name msg.service msg.interface_version
            msg.method)
          invalid_argument
    found ← remove_ue_request_correlation request_id
    let comm_status = vsomeip_err_code_to_ucode msg.return_code
    ok_or (up.build_response fresh found.1 found.0 source comm_status payload_bytes) internal

  -- the interface version is 1, since a SOME/IP notification cannot set it
  unfoldable pub convert_vsomeip_mt_notification_to_umsg :
      String → VsomeipMessage → List ℕ → Action Host UMessage
  convert_vsomeip_mt_notification_to_umsg mechatronics_authority_name msg payload_bytes = do
    source ←
        ok_or (up.try_from_parts mechatronics_authority_name msg.service 1 msg.method)
          invalid_argument
    ok_or (up.build_publish fresh source payload_bytes) internal

  unfoldable pub convert_vsomeip_msg_to_umsg :
      String → UUri → String → VsomeipMessage → Action Host UMessage
  convert_vsomeip_msg_to_umsg authority_name self_uuri mechatronics_authority_name msg = do
    payload_bytes ← ok_or msg.payload internal
    elim msg.message_type [
      | mt_request ↦
          convert_vsomeip_mt_request_to_umsg authority_name self_uuri mechatronics_authority_name
            msg payload_bytes
      | mt_notification ↦
          convert_vsomeip_mt_notification_to_umsg mechatronics_authority_name msg payload_bytes
      | mt_response ↦
          convert_vsomeip_mt_response_to_umsg mechatronics_authority_name msg payload_bytes
      | mt_error ↦ convert_vsomeip_mt_error_to_umsg mechatronics_authority_name msg payload_bytes
      | other_type n ↦ raise out_of_range
    ]
