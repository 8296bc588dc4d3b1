-- ===== src/Transport/PointToPoint.antt =====
-- The listener for all point-to-point messages, which the uStreamer uses.
use up_transport_vsomeip_rus.Prelude.{
  ℕ, ◌+◌, ◌*◌, ◌^◌, Bool, true, false, String, Option, none, some, List, [], ◌∷◌, ◌⊎◌, inl, inr,
  if◌then◌else◌,
}
use up_transport_vsomeip_rus.Action.{Action, return, raise, lift, ok_or, ◌>>=◌, ◌>>◌}
use up_transport_vsomeip_rus.UProtocol.{UUri}
use up_transport_vsomeip_rus.UProtocol.Status.{
  ok, invalid_argument, internal, not_found, already_exists,
}
use up_transport_vsomeip_rus.Utils.{any_uuri_fixed_authority_id}
use up_transport_vsomeip_rus.DetermineType.{RegistrationType, request, response, determine_type}
use up_transport_vsomeip_rus.Config.{ServiceConfig, extract_services}
use up_transport_vsomeip_rus.Storage.{get_local_authority}
use up_transport_vsomeip_rus.Storage.MessageHandlers.{
  GetMessageHandlerError, listener_id_already_exists, listener_config_already_exists, other_error,
}
use up_transport_vsomeip_rus.Storage.MessageHandlers.Config.{ListenerConfig}
use up_transport_vsomeip_rus.Engine.{register_listener, unregister_listener}
use up_transport_vsomeip_rus.Transport.{
  Transport, World, command, application_name, get_message_handler, release_message_handler, warned,
  with_code, or_panic,
}

-- `message_type != RegistrationType::Request`
abbrev pub is_request : RegistrationType → Bool
is_request request = true
is_request _ = false

module _ {Json M : Type 0} (world : World Json M) where
  -- The filter of all messages to a service: `(instance << 16) | service`, of two `u16`s.
  unfoldable pub service_filter : ServiceConfig → Action (Transport M) UUri
  service_filter config t =
      let ue_id = config.instance_id * 2 ^ 16 + config.service in
      (ok (any_uuri_fixed_authority_id (get_local_authority t.host.storage) ue_id), t)

  -- what becomes of the handler for the response to a request that is sent
  unfoldable pub register_returning :
      ListenerConfig → GetMessageHandlerError ⊎ ℕ → Action (Transport M) Bool
  register_returning config (inl (listener_config_already_exists handler)) = return true
  register_returning config (inl (listener_id_already_exists id)) = raise internal
  register_returning config (inl other_error) = raise internal
  register_returning config (inr msg_handler) = do
    app_name ← application_name world
    or_panic (
        command world
          (register_listener config.source_filter config.sink_filter response msg_handler app_name))
    return true

  unfoldable pub get_listener : Action (Transport M) (Option ℕ)
  get_listener t = (ok t.point_to_point_listener, t)

  unfoldable pub returning_for :
      UUri → Option UUri → RegistrationType → Option ℕ → Action (Transport M) Bool
  unfolding register_returning
  returning_for msg_src msg_sink message_type none = return false
  returning_for msg_src msg_sink message_type (some listener) =
      if is_request message_type
      then (do
        sink ← ok_or msg_sink invalid_argument
        let config : ListenerConfig = record {
          source_filter = sink;
          sink_filter = some msg_src;
          listener = listener;
        }
        got ← get_message_handler world config
        register_returning config got)
      else return true

  -- `register_for_returning_response_if_point_to_point_listener_and_sending_request`
  unfoldable pub register_for_returning_response :
      UUri → Option UUri → RegistrationType → Action (Transport M) Bool
  unfolding get_listener returning_for
  register_for_returning_response msg_src msg_sink message_type = do
    listener ← get_listener
    returning_for msg_src msg_sink message_type listener

  unfoldable pub get_config_path : Action (Transport M) (Option String)
  get_config_path t = (ok t.config_path, t)

  unfoldable pub service_configs : Action (Transport M) (List ServiceConfig)
  unfolding get_config_path extract_services
  service_configs = do
    found ← get_config_path
    config_path ← ok_or found not_found
    lift (extract_services world.files config_path)

  unfoldable pub set_listener : ℕ → Action (Transport M) (Unit {0})
  set_listener listener t = elim t.point_to_point_listener [
    | some other ↦ raise already_exists t
    | none ↦ (ok tt, record t { point_to_point_listener = some listener })
  ]

  unfoldable pub register_sink : ℕ → UUri → Action (Transport M) (Unit {0})
  register_sink listener sink_filter = do
    got ← get_message_handler world (record {
      source_filter = world.up.any;
      sink_filter = some sink_filter;
      listener = listener;
    })
    msg_handler ← ok_or (elim got [ inl e ↦ none | inr f ↦ some f ]) internal
    app_name ← application_name world
    with_code internal (
        command world
          (register_listener world.up.any (some sink_filter) request msg_handler app_name))

  unfoldable pub register_service : ℕ → ServiceConfig → Action (Transport M) (Unit {0})
  unfolding service_filter register_sink
  register_service listener config = service_filter config >>= register_sink listener

  unfoldable pub register_services : ℕ → List ServiceConfig → Action (Transport M) (Unit {0})
  unfolding register_service
  register_services listener [] = return tt
  register_services listener (config ∷ configs) = do
    register_service listener config
    register_services listener configs

  unfoldable pub register_point_to_point_listener : ℕ → Action (Transport M) (Unit {0})
  unfolding service_configs set_listener register_services
  register_point_to_point_listener listener = do
    configs ← service_configs
    set_listener listener
    register_services listener configs

  -- The message handler is released only when the engine has unregistered it.
  unfoldable pub unregister_sink : ℕ → UUri → Action (Transport M) (Unit {0})
  unregister_sink listener sink_filter = do
    registration_type ← lift (determine_type world.up world.up.any (some sink_filter))
    app_name ← application_name world
    command world (unregister_listener world.up.any (some sink_filter) registration_type app_name)
    release_message_handler world (record {
      source_filter = world.up.any;
      sink_filter = some sink_filter;
      listener = listener;
    })

  unfoldable pub unregister_service : ℕ → ServiceConfig → Action (Transport M) (Unit {0})
  unfolding service_filter unregister_sink
  unregister_service listener config =
      service_filter config >>= λ sink. warned (unregister_sink listener sink)

  unfoldable pub unregister_services : ℕ → List ServiceConfig → Action (Transport M) (Unit {0})
  unfolding unregister_service
  unregister_services listener [] = return tt
  unregister_services listener (config ∷ configs) = do
    unregister_service listener config
    unregister_services listener configs

  -- The listener itself stays where it is.
  unfoldable pub unregister_point_to_point_listener : Action (Transport M) (Unit {0})
  unfolding get_listener service_configs unregister_services
  unregister_point_to_point_listener = do
    found ← get_listener
    listener ← ok_or found already_exists
    configs ← service_configs
    unregister_services listener configs
