-- ===== src/Engine/Send.antt =====
-- `send_internal`
pub mod Once
use up_transport_vsomeip_rus.Prelude.{ℕ, Bool, true, Option, none, some, List, [], if◌then◌else◌}
use up_transport_vsomeip_rus.Action.{Action, return, raise, ok_or, continue, ◌>>=◌, ◌>>◌}
use up_transport_vsomeip_rus.UProtocol.{
  UMessage, UMessageType, publish, request, response, notification, unspecified, attributes_of,
  enum_value_or,
}
use up_transport_vsomeip_rus.UProtocol.Status.{invalid_argument}
use up_transport_vsomeip_rus.Vsomeip.{VsomeipApi, VsomeipMessage, notify, send}
use up_transport_vsomeip_rus.Storage.{Host, app}
use up_transport_vsomeip_rus.Conversions.Outbound.{
  umsg_publish_to_vsomeip_notification, umsg_request_to_vsomeip_message,
  umsg_response_to_vsomeip_message,
}

-- the bytes of the payload, none for a message without one
abbrev pub payload_of : UMessage → List ℕ
payload_of umsg = elim umsg.payload [ none ↦ [] | some bytes ↦ bytes ]

module _ (vs : VsomeipApi) (app_client_id : ℕ) (umsg : UMessage) where
  send_as : UMessageType → Action Host (Unit {0})
  send_as unspecified = raise invalid_argument
  send_as notification = raise invalid_argument
  send_as publish = do
    ids ← umsg_publish_to_vsomeip_notification vs umsg
    app (notify ids.0 ids.1 ids.2 (payload_of umsg) true)
  send_as request = do
    msg ← umsg_request_to_vsomeip_message vs app_client_id umsg
    app (send (record msg { payload = some (payload_of umsg) }))
  send_as response = do
    msg ← umsg_response_to_vsomeip_message vs umsg
    app (send (record msg { payload = some (payload_of umsg) }))

  unfoldable pub send_internal : Action Host (Unit {0})
  unfolding send_as
  send_internal = send_as (enum_value_or (attributes_of umsg).type_ unspecified)
