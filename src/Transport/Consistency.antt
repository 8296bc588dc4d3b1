-- ===== src/Transport/Consistency.antt =====
-- The message handlers of the process under the functions of a transport.
use up_transport_vsomeip_rus.Prelude.{ℕ, ◌≡◌, arith, nat_eq}
use up_transport_vsomeip_rus.Storage.MessageHandlers.Config.{ListenerConfig, config_eq}
use up_transport_vsomeip_rus.Storage.MessageHandlers.Consistency.{IsConsistent}
use up_transport_vsomeip_rus.Storage.MessageHandlers.Preservation.{
  get_message_handler-IsConsistent, release_message_handler-IsConsistent,
}
use up_transport_vsomeip_rus.Engine.{TransportCommand}
use up_transport_vsomeip_rus.Transport.{
  Transport, World, command, get_message_handler, release_message_handler,
}
use up_transport_vsomeip_rus.Transport.PointToPoint.{set_listener}
use up_transport_vsomeip_rus.Transport.Life.{shutdown_runtime}
use up_transport_vsomeip_rus.Transport.Invariants.{Invariant}

module _ {Json M : Type 0} (world : World Json M) where
  pub handlers-command :
      (cmd : TransportCommand) (t : Transport M) → (command world cmd t).1.handlers ≡ t.handlers
  unfolding command
  handlers-command cmd t = ground arith

  pub handlers-set_listener :
      (listener : ℕ) (t : Transport M) → (set_listener world listener t).1.handlers ≡ t.handlers
  unfolding set_listener
  handlers-set_listener listener t = ground arith

  pub handlers-shutdown_runtime :
      (t : Transport M) → (shutdown_runtime world t).1.handlers ≡ t.handlers
  unfolding shutdown_runtime
  handlers-shutdown_runtime t = ground arith

  pub get-IsConsistent :
      (config : ListenerConfig) (t : Transport M)
      → IsConsistent world.bimap t.handlers
      → IsConsistent world.bimap (get_message_handler world config t).1.handlers
  unfolding get_message_handler
  get-IsConsistent config t c =
      get_message_handler-IsConsistent world.bimap world.order world.self config c

  pub release-IsConsistent :
      (config : ListenerConfig) (t : Transport M)
      → IsConsistent world.bimap t.handlers
      → IsConsistent world.bimap (release_message_handler world config t).1.handlers
  unfolding release_message_handler
  release-IsConsistent config t c =
      release_message_handler-IsConsistent world.bimap world.self config c

  -- the message handlers of the process are consistent
  abbrev pub consistent : Invariant world
  consistent = record {
    holds = λ t. IsConsistent world.bimap t.handlers;
    holds-command = λ cmd t c. rw (handlers-command cmd t) c;
    holds-get_message_handler = get-IsConsistent;
    holds-release_message_handler = release-IsConsistent;
    holds-set_listener = λ listener t c. rw (handlers-set_listener listener t) c;
    holds-shutdown_runtime = λ t c. rw (handlers-shutdown_runtime t) c;
  }
