-- ===== src/Engine/Send/Once.antt =====
-- A message goes out once, or not at all.
use up_transport_vsomeip_rus.Prelude.{ℕ, suc, ◌+◌, ◌≡◌, List, [], ◌∷◌, arith, triple_eq, nat_eq}
use up_transport_vsomeip_rus.UProtocol.{
  UMessage, UMessageType, publish, request, response, notification, unspecified, attributes_of,
  enum_value_or,
}
use up_transport_vsomeip_rus.UProtocol.Status.{Result, ok}
use up_transport_vsomeip_rus.Vsomeip.{VsomeipApi, AppCall, notify, send}
use up_transport_vsomeip_rus.Storage.{Host}
use up_transport_vsomeip_rus.Conversions.Outbound.{
  umsg_publish_to_vsomeip_notification, umsg_request_to_vsomeip_message,
  umsg_response_to_vsomeip_message,
}
use up_transport_vsomeip_rus.Engine.Send.{send_as, send_internal}

-- The messages that a log of calls hands to vsomeip.
unfoldable pub messages : List AppCall → ℕ
messages [] = 0
messages (send m ∷ calls) = suc (messages calls)
messages (notify s i e p f ∷ calls) = suc (messages calls)
messages (_ ∷ calls) = messages calls

abbrev pub one_if_ok {ℓ} : {A : Type ℓ} → Result A → ℕ
one_if_ok (ok a) = 1
one_if_ok _ = 0

module _ (vs : VsomeipApi) (client : ℕ) (umsg : UMessage) (h : Host) where
  messages-publish :
      messages (umsg_publish_to_vsomeip_notification vs umsg h).1.calls ≡ messages h.calls
  unfolding umsg_publish_to_vsomeip_notification messages
  messages-publish = ground arith

  messages-request :
      messages (umsg_request_to_vsomeip_message vs client umsg h).1.calls ≡ messages h.calls
  unfolding umsg_request_to_vsomeip_message messages
  messages-request = ground arith

  messages-response :
      messages (umsg_response_to_vsomeip_message vs umsg h).1.calls ≡ messages h.calls
  unfolding umsg_response_to_vsomeip_message messages
  messages-response = ground arith

  messages-send_as :
      (t : UMessageType)
      → let (r, h') = send_as vs client umsg t h in
        messages h'.calls ≡ one_if_ok r + messages h.calls
  unfolding send_as messages
  messages-send_as unspecified = omega arith
  messages-send_as notification = omega arith
  messages-send_as publish = ground (arith, messages-publish)
  messages-send_as request = ground (arith, messages-request)
  messages-send_as response = ground (arith, messages-response)

  -- When the engine's send succeeds, one message more has been handed to vsomeip than before; when
  -- it fails or panics, none.
  pub messages-send_internal :
      let (r, h') = send_internal vs client umsg h in
      messages h'.calls ≡ one_if_ok r + messages h.calls
  unfolding send_internal
  messages-send_internal = messages-send_as (enum_value_or (attributes_of umsg).type_ unspecified)
