-- ===== src/Transport/Api.antt =====
-- `impl UTransport for UPTransportVsomeip` (up-transport-vsomeip/src/transport.rs), and
-- `unregister_listener` of lib.rs.
use up_transport_vsomeip_rus.Prelude.{
  ℕ, Bool, true, false, Option, none, some, inl, inr, if◌then◌else◌,
}
use up_transport_vsomeip_rus.Action.{Action, return, raise, lift, ok_or, ◌>>=◌, ◌>>◌}
use up_transport_vsomeip_rus.UProtocol.{UUri, UMessage}
use up_transport_vsomeip_rus.UProtocol.Status.{invalid_argument, internal, unimplemented}
use up_transport_vsomeip_rus.DetermineType.{RegistrationType, all_point_to_point, determine_type}
use up_transport_vsomeip_rus.Engine
use up_transport_vsomeip_rus.Transport.{
  Transport, World, command, application_name, get_message_handler, release_message_handler, warned,
  with_code,
}
use up_transport_vsomeip_rus.Transport.PointToPoint.{
  register_for_returning_response, register_point_to_point_listener,
  unregister_point_to_point_listener,
}

-- `registration_type == RegistrationType::AllPointToPoint`
abbrev pub is_point_to_point : RegistrationType → Bool
is_point_to_point all_point_to_point = true
is_point_to_point _ = false

module _ {Json M : Type 0} (world : World Json M) where
  unfoldable pub send : UMessage → Action (Transport M) (Unit {0})
  send message = do
    attributes ← ok_or message.attributes invalid_argument
    if world.up.validate attributes then return tt else raise invalid_argument
    source_filter ← ok_or attributes.source invalid_argument
    message_type ← lift (determine_type world.up source_filter attributes.sink)
    app_name ← application_name world
    register_for_returning_response world source_filter attributes.sink message_type
    command world (Engine.send message message_type app_name)

  -- a listener that is not for all point-to-point messages
  unfoldable pub register_one :
      UUri → Option UUri → RegistrationType → ℕ → Action (Transport M) (Unit {0})
  register_one source_filter sink_filter registration_type listener = do
    app_name ← application_name world
    got ←
        get_message_handler world
          (record { source_filter = source_filter; sink_filter = sink_filter; listener = listener })
    msg_handler ← ok_or (elim got [ inl e ↦ none | inr f ↦ some f ]) internal
    command world
        (Engine.register_listener source_filter sink_filter registration_type msg_handler app_name)

  unfoldable pub register_listener : UUri → Option UUri → ℕ → Action (Transport M) (Unit {0})
  unfolding register_one
  register_listener source_filter sink_filter listener = do
    registration_type ← lift (determine_type world.up source_filter sink_filter)
    if is_point_to_point registration_type
        then register_point_to_point_listener world listener
        else register_one source_filter sink_filter registration_type listener

  unfoldable pub unregister_one :
      UUri → Option UUri → RegistrationType → ℕ → Action (Transport M) (Unit {0})
  unregister_one source_filter sink_filter registration_type listener = do
    app_name ← application_name world
    warned (
        command world
          (Engine.unregister_listener source_filter sink_filter registration_type app_name))
    warned (
        release_message_handler world (record {
          source_filter = source_filter;
          sink_filter = sink_filter;
          listener = listener;
        }))

  unfoldable pub unregister_listener : UUri → Option UUri → ℕ → Action (Transport M) (Unit {0})
  unfolding unregister_one
  unregister_listener source_filter sink_filter listener = do
    registration_type ←
        with_code invalid_argument (lift (determine_type world.up source_filter sink_filter))
    if is_point_to_point registration_type
        then unregister_point_to_point_listener world
        else unregister_one source_filter sink_filter registration_type listener

  unfoldable pub receive : UUri → Option UUri → Action (Transport M) UMessage
  receive source_filter sink_filter = raise unimplemented
