-- ===== src/Transport/Running.antt =====
-- The engine runs on after every command that registers or unregisters a listener.
use up_transport_vsomeip_rus.Prelude.{
  ℕ, ◌≡◌, refl, true, false, Option, String, arith, nat_eq, ◌⊎◌, inl, inr,
}
use up_transport_vsomeip_rus.UProtocol.{UUri}
use up_transport_vsomeip_rus.UProtocol.Status.{Result, ok, err, panicked}
use up_transport_vsomeip_rus.DetermineType.{RegistrationType, determine_type}
use up_transport_vsomeip_rus.Storage.{Host}
use up_transport_vsomeip_rus.Storage.MessageHandlers
use up_transport_vsomeip_rus.Storage.MessageHandlers.{GetMessageHandlerError, Handlers}
use up_transport_vsomeip_rus.Storage.MessageHandlers.Config.{config_eq}
use up_transport_vsomeip_rus.Engine
use up_transport_vsomeip_rus.Engine.{Environment, TransportCommand, handle_command}
use up_transport_vsomeip_rus.Engine.Listeners.{
  register_listener_internal, unregister_listener_internal, unregister_filter, register_publish,
  register_request, register_response,
}
use up_transport_vsomeip_rus.Transport.{
  Transport, World, command, application_name, get_message_handler, release_message_handler, warned,
  survives,
}
use up_transport_vsomeip_rus.Transport.Api.{
  register_one, register_listener, unregister_one, unregister_listener, is_point_to_point,
}
use up_transport_vsomeip_rus.Transport.Undo.{register_with, register_is, unregister_is}

module _ {Json M : Type 0} (world : World Json M) where
  registering_survives :
      (env : Environment) (src : UUri) (sink : Option UUri) (type : RegistrationType) (f : ℕ)
      (name : String) (h : Host)
      → survives
          (handle_command world.vs world.order env
            (Engine.register_listener src sink type f name)
            h).0
        ≡ true
  unfolding handle_command register_listener_internal register_publish register_request
      register_response survives
  registering_survives env src sink type f name h = ground arith

  unregistering_survives :
      (env : Environment) (src : UUri) (sink : Option UUri) (type : RegistrationType)
      (name : String) (h : Host)
      → survives
          (handle_command world.vs world.order env
            (Engine.unregister_listener src sink type name)
            h).0
        ≡ true
  unfolding handle_command unregister_listener_internal unregister_filter survives
  unregistering_survives env src sink type name h = ground arith

  runs_on :
      (cmd : TransportCommand) (t : Transport M)
      → survives
          (handle_command world.vs world.order (world.turn t.commands).environment cmd t.host).0
        ≡ true
      → t.engine_running ≡ true
      → (command world cmd t).1.engine_running ≡ true
  unfolding command
  runs_on cmd t e running = ground arith

  module _ (src : UUri) (sink : Option UUri) (type : RegistrationType) (listener : ℕ)
      (t : Transport M) (running : t.engine_running ≡ true)
      (kind : determine_type world.up src sink ≡ ok type)
      (one : is_point_to_point type ≡ false) where
    abbrev got : Result (GetMessageHandlerError ⊎ ℕ) × Handlers M
    got =
        MessageHandlers.get_message_handler world.bimap world.order world.self world.self
          (record { source_filter = src; sink_filter = sink; listener = listener }) t.handlers

    given :
        (r : Result (GetMessageHandlerError ⊎ ℕ))
        → got.0 ≡ r
        → (register_one world src sink type listener t).1.engine_running ≡ true
    unfolding register_one application_name get_message_handler
    given (ok (inl x)) e = rw (e) running
    given (ok (inr f)) e =
        let name = t.host.storage.vsomeip_application_config.name in
        rw (register_with world src sink type listener t f e) (
          runs_on (Engine.register_listener src sink type f name) (record t { handlers = got.1 })
            (registering_survives (world.turn t.commands).environment src sink type f name t.host)
            running)
    given (err x) e = rw (e) running
    given panicked e = rw (e) running

    pub register_listener_runs_on :
        (register_listener world src sink listener t).1.engine_running ≡ true
    register_listener_runs_on =
        rw (register_is world src sink type listener t kind one) (given got.0 refl)

    unregister_one_runs_on : (unregister_one world src sink type listener t).1.engine_running ≡ true
    unfolding unregister_one application_name release_message_handler warned command
    unregister_one_runs_on =
        let env = (world.turn t.commands).environment in
        let name = t.host.storage.vsomeip_application_config.name in
        ground (arith, unregistering_survives env src sink type name t.host)

    pub unregister_listener_runs_on :
        (unregister_listener world src sink listener t).1.engine_running ≡ true
    unregister_listener_runs_on =
        rw (unregister_is world src sink type listener t t kind one) unregister_one_runs_on

    runtime-unregister_one : (unregister_one world src sink type listener t).1.runtime ≡ t.runtime
    unfolding unregister_one application_name release_message_handler warned command
    runtime-unregister_one = ground arith

    pub runtime-unregister_listener :
        (unregister_listener world src sink listener t).1.runtime ≡ t.runtime
    runtime-unregister_listener =
        rw (unregister_is world src sink type listener t t kind one) runtime-unregister_one
