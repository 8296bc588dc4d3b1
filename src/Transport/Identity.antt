-- ===== src/Transport/Identity.antt =====
-- What a transport is, under the functions that are called of it: its URI, its vsomeip application
-- and configuration, and its listener for all point-to-point messages.
use up_transport_vsomeip_rus.Prelude.{ℕ, ◌≡◌, refl, Bool, Option, none, some, String, arith, nat_eq}
use up_transport_vsomeip_rus.Collections.HashSet.{IterOrder}
use up_transport_vsomeip_rus.Action.{ok_or, ◌>>=◌}
use up_transport_vsomeip_rus.UProtocol.{UUri, UMessage}
use up_transport_vsomeip_rus.UProtocol.Status.{internal}
use up_transport_vsomeip_rus.Vsomeip.{VsomeipApi}
use up_transport_vsomeip_rus.DetermineType.{RegistrationType}
use up_transport_vsomeip_rus.Storage.{Host}
use up_transport_vsomeip_rus.Storage.MessageHandlers.Config.{ListenerConfig, config_eq}
use up_transport_vsomeip_rus.Conversions.Outbound.{
  umsg_publish_to_vsomeip_notification, umsg_request_to_vsomeip_message,
  umsg_response_to_vsomeip_message,
}
use up_transport_vsomeip_rus.Engine.{
  TransportCommand, Environment, handle_command, register_listener, unregister_listener, send,
  start_vsomeip_app, stop_vsomeip_app,
}
use up_transport_vsomeip_rus.Engine.Listeners.{
  register_listener_internal, unregister_listener_internal, unregister_filter,
}
use up_transport_vsomeip_rus.Engine.Send.{send_internal}
use up_transport_vsomeip_rus.Engine.App.{
  Runtime, create_app, start_vsomeip_app_internal, stop_vsomeip_app_internal,
}
use up_transport_vsomeip_rus.Transport.{
  Transport, World, command, get_message_handler, release_message_handler,
}
use up_transport_vsomeip_rus.Transport.PointToPoint.{set_listener}
use up_transport_vsomeip_rus.Transport.Life.{shutdown_runtime}
use up_transport_vsomeip_rus.Transport.Invariants.{Invariant}

-- The URI and the application that a host has are those of another.
abbrev pub Alike : Host → Host → Type 0
Alike g h =
    (g.storage.uri ≡ h.storage.uri)
    × (g.storage.vsomeip_application_config ≡ h.storage.vsomeip_application_config)

module _ (vs : VsomeipApi) (order : IterOrder ℕ) where
  register_listener_internal-Alike :
      (source : UUri) (sink : Option UUri) (t : RegistrationType) (handler : ℕ) (h : Host)
      → Alike (register_listener_internal vs source sink t handler h).1 h
  unfolding register_listener_internal
  register_listener_internal-Alike source sink t handler h = (ground arith, ground arith)

  unregister_listener_internal-Alike :
      (source : UUri) (sink : Option UUri) (t : RegistrationType) (h : Host)
      → Alike (unregister_listener_internal vs source sink t h).1 h
  unfolding unregister_listener_internal unregister_filter
  unregister_listener_internal-Alike source sink t h = (ground arith, ground arith)

  send_internal-Alike :
      (client : ℕ) (umsg : UMessage) (h : Host) → Alike (send_internal vs client umsg h).1 h
  unfolding send_internal umsg_publish_to_vsomeip_notification umsg_request_to_vsomeip_message
      umsg_response_to_vsomeip_message
  send_internal-Alike client umsg h = (ground arith, ground arith)

  send-Alike :
      (found : Option ℕ) (umsg : UMessage) (h : Host)
      → Alike ((ok_or found internal >>= λ client. send_internal vs client umsg) h).1 h
  send-Alike none umsg h = (refl, refl)
  send-Alike (some client) umsg h = send_internal-Alike client umsg h

  start_vsomeip_app_internal-Alike :
      (env : Runtime) (exists : Bool) (name : String) (h : Host)
      → Alike (start_vsomeip_app_internal order env exists name h).1 h
  unfolding start_vsomeip_app_internal create_app
  start_vsomeip_app_internal-Alike env exists name h = (ground arith, ground arith)

  stop_vsomeip_app_internal-Alike :
      (exists : Bool) (h : Host) → Alike (stop_vsomeip_app_internal exists h).1 h
  unfolding stop_vsomeip_app_internal
  stop_vsomeip_app_internal-Alike exists h = (ground arith, ground arith)

  handle_command-Alike :
      (env : Environment) (cmd : TransportCommand) (h : Host)
      → Alike (handle_command vs order env cmd h).1 h
  unfolding handle_command
  handle_command-Alike env (register_listener src sink t handler app_name) h =
      let a = register_listener_internal-Alike src sink t handler h in (ground arith, ground arith)
  handle_command-Alike env (unregister_listener src sink t app_name) h =
      let a = unregister_listener_internal-Alike src sink t h in (ground arith, ground arith)
  handle_command-Alike env (send umsg type app_name) h = send-Alike _ umsg h
  handle_command-Alike env (start_vsomeip_app client_id app_name) h =
      start_vsomeip_app_internal-Alike _ _ _ h
  handle_command-Alike env (stop_vsomeip_app app_name) h = stop_vsomeip_app_internal-Alike _ h

-- A transport that is what another was, with this listener for all point-to-point messages.
abbrev pub SameTransport :
    {M : Type 0} → (start : Transport M) (listener : ℕ) → Transport M → Type 0
SameTransport start listener t =
    Alike t.host start.host
    × (t.config_path ≡ start.config_path)
    × (t.point_to_point_listener ≡ some listener)

module _ {Json M : Type 0} (world : World Json M) (start : Transport M) (listener : ℕ) where
  pub command-SameTransport :
      (cmd : TransportCommand) (t : Transport M)
      → SameTransport start listener t
      → SameTransport start listener (command world cmd t).1
  unfolding command
  command-SameTransport cmd t (a, p, l) =
      let h =
        handle_command-Alike world.vs world.order (world.turn t.commands).environment cmd t.host in
      ((ground arith, ground arith), ground arith, ground arith)

  pub get-SameTransport :
      (config : ListenerConfig) (t : Transport M)
      → SameTransport start listener t
      → SameTransport start listener (get_message_handler world config t).1
  unfolding get_message_handler
  get-SameTransport config t s = s

  pub release-SameTransport :
      (config : ListenerConfig) (t : Transport M)
      → SameTransport start listener t
      → SameTransport start listener (release_message_handler world config t).1
  unfolding release_message_handler
  release-SameTransport config t s = s

  pub set_listener-SameTransport :
      (l : ℕ) (t : Transport M)
      → SameTransport start listener t
      → SameTransport start listener (set_listener world l t).1
  unfolding set_listener
  set_listener-SameTransport l t ((u, c), p, e) =
      ((ground arith, ground arith), ground arith, ground arith)

  pub shutdown_runtime-SameTransport :
      (t : Transport M)
      → SameTransport start listener t
      → SameTransport start listener (shutdown_runtime world t).1
  unfolding shutdown_runtime
  shutdown_runtime-SameTransport t ((u, c), p, e) =
      ((ground arith, ground arith), ground arith, ground arith)

  -- the transport is what it was
  abbrev pub same : Invariant world
  same = record {
    holds = SameTransport start listener;
    holds-command = command-SameTransport;
    holds-get_message_handler = get-SameTransport;
    holds-release_message_handler = release-SameTransport;
    holds-set_listener = set_listener-SameTransport;
    holds-shutdown_runtime = shutdown_runtime-SameTransport;
  }
