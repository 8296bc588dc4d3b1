-- ===== src/Engine/Listeners.antt =====
-- `register_listener_internal` and `unregister_listener_internal`.
pub mod Keys
use up_transport_vsomeip_rus.Prelude.{ℕ, Option, none, some, if◌then◌else◌}
use up_transport_vsomeip_rus.Action.{Action, return, raise, ok_or, continue, ◌>>=◌, ◌>>◌}
use up_transport_vsomeip_rus.UProtocol.{UUri}
use up_transport_vsomeip_rus.UProtocol.Status.{invalid_argument, internal}
use up_transport_vsomeip_rus.Vsomeip.{
  VsomeipApi, offer_service, request_service, request_single_event, subscribe,
  register_message_handler, unregister_message_handler,
}
use up_transport_vsomeip_rus.Utils.{split_u32_to_u16, split_u32_to_u8}
use up_transport_vsomeip_rus.DetermineType.{
  RegistrationType, publish, request, response, all_point_to_point,
}
use up_transport_vsomeip_rus.Storage.{
  Host, app, is_event_requested, insert_event_requested, is_service_offered, insert_service_offered,
  is_service_requested, insert_service_requested,
}

module _ (vs : VsomeipApi) where
  unfoldable pub register_publish : UUri → ℕ → Action Host (Unit {0})
  unfolding is_event_requested insert_event_requested
  register_publish source_filter msg_handler = do
    let service_id = (split_u32_to_u16 source_filter.ue_id).1
    let instance_id : ℕ = 1
    let event_id = (split_u32_to_u16 source_filter.resource_id).1
    requested ← is_event_requested service_id instance_id event_id
    if requested then return tt else do
      app (request_service service_id instance_id vs.any_major vs.any_minor)
      app (request_single_event service_id instance_id event_id event_id)
      app (subscribe service_id instance_id event_id vs.any_major event_id)
      insert_event_requested service_id instance_id event_id
      return tt
    app (register_message_handler service_id instance_id event_id msg_handler)

  unfoldable pub register_request : UUri → ℕ → Action Host (Unit {0})
  unfolding is_service_offered insert_service_offered
  register_request sink_filter msg_handler = do
    let service_id = (split_u32_to_u16 sink_filter.ue_id).1
    let instance_id : ℕ = 1
    let method_id = (split_u32_to_u16 sink_filter.resource_id).1
    let major_version = (split_u32_to_u8 sink_filter.ue_version_major).3
    offered ← is_service_offered service_id instance_id method_id
    if offered then return tt else do
      app (offer_service service_id instance_id major_version vs.default_minor)
      insert_service_offered service_id instance_id method_id
      return tt
    app (register_message_handler service_id vs.any_instance method_id msg_handler)

  unfoldable pub register_response : UUri → ℕ → Action Host (Unit {0})
  unfolding is_service_requested insert_service_requested
  register_response source_filter msg_handler = do
    let service_id = (split_u32_to_u16 source_filter.ue_id).1
    let instance_id = vs.any_instance
    let method_id = (split_u32_to_u16 source_filter.resource_id).1
    requested ← is_service_requested service_id instance_id method_id
    if requested then return tt else do
      app (request_service service_id instance_id vs.any_major vs.any_minor)
      insert_service_requested service_id instance_id method_id
      return tt
    app (register_message_handler service_id instance_id method_id msg_handler)

  unfoldable pub register_listener_internal :
      UUri → Option UUri → RegistrationType → ℕ → Action Host (Unit {0})
  unfolding register_publish register_request register_response
  register_listener_internal source_filter sink_filter publish msg_handler =
      register_publish source_filter msg_handler
  register_listener_internal source_filter sink_filter request msg_handler = do
    sink ← ok_or sink_filter invalid_argument
    register_request sink msg_handler
  register_listener_internal source_filter sink_filter response msg_handler =
      register_response source_filter msg_handler
  register_listener_internal source_filter sink_filter all_point_to_point msg_handler =
      raise internal

  -- the handler of the filter's entity and resource, for any instance
  unfoldable pub unregister_filter : UUri → Action Host (Unit {0})
  unregister_filter filter = app (
      unregister_message_handler (split_u32_to_u16 filter.ue_id).1 vs.any_instance
        (split_u32_to_u16 filter.resource_id).1)

  unfoldable pub unregister_listener_internal :
      UUri → Option UUri → RegistrationType → Action Host (Unit {0})
  unfolding unregister_filter
  unregister_listener_internal source_filter sink_filter publish = unregister_filter source_filter
  unregister_listener_internal source_filter sink_filter request = do
    sink ← ok_or sink_filter invalid_argument
    unregister_filter sink
  unregister_listener_internal source_filter sink_filter response = do
    sink ← ok_or sink_filter invalid_argument
    unregister_filter sink
  unregister_listener_internal source_filter sink_filter all_point_to_point = raise internal
