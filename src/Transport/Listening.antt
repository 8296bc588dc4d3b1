-- ===== src/Transport/Listening.antt =====
-- The listeners of a transport, as a set, under the calls that register and unregister one.
pub mod Sets
use up_transport_vsomeip_rus.Prelude.{
  ℕ, ◌≡◌, ◌∙◌, refl, sym, ap, Bool, true, false, not, ◌&&◌, Option, none, some, List, [], ◌∷◌, ◌⊎◌,
  inl, inr, arith, nat_eq, ◌==◌, if◌then◌else◌, ==_refl,
}
use up_transport_vsomeip_rus.Collections.BiMap.{is_some}
use up_transport_vsomeip_rus.UProtocol.{UUri}
use up_transport_vsomeip_rus.UProtocol.Status.{Result, ok, err, panicked, fail, internal}
use up_transport_vsomeip_rus.DetermineType.{RegistrationType, determine_type}
use up_transport_vsomeip_rus.Storage.MessageHandlers
use up_transport_vsomeip_rus.Storage.MessageHandlers.{GetMessageHandlerError, Handlers}
use up_transport_vsomeip_rus.Storage.MessageHandlers.Config.{ListenerConfig, config_eq}
use up_transport_vsomeip_rus.Storage.MessageHandlers.Consistency.{IsConsistent}
use up_transport_vsomeip_rus.Storage.MessageHandlers.Registered.{
  holds, same_pair, is_function, holds-get, holds-release, get_message_handler_gives,
}
use up_transport_vsomeip_rus.Engine
use up_transport_vsomeip_rus.Engine.{handle_command}
use up_transport_vsomeip_rus.Transport.{
  Transport, World, command, application_name, get_message_handler,
}
use up_transport_vsomeip_rus.Transport.Api.{
  register_one, register_listener, unregister_listener, is_point_to_point,
}
use up_transport_vsomeip_rus.Transport.Consistency.{consistent}
use up_transport_vsomeip_rus.Transport.Invariants.Calls.{Keeps-register_listener}
use up_transport_vsomeip_rus.Transport.Undo.{
  command_handlers, register_with, register_without, register_is, unregister_is, unregister_with,
}

module _ {Json M : Type 0} (world : World Json M) where
  -- whether a function of the process is the configuration's, for this transport
  abbrev pub listening : Transport M → ListenerConfig → Bool
  listening t config = holds world.bimap t.handlers world.self config

  -- whether the process has a function to give
  abbrev pub has_function : Transport M → Bool
  has_function t = is_some (world.order.next t.handlers.free_ids)

  abbrev pub config_of : UUri → Option UUri → ℕ → ListenerConfig
  config_of src sink listener = record {
    source_filter = src;
    sink_filter = sink;
    listener = listener;
  }

  module _ (src : UUri) (sink : Option UUri) (type : RegistrationType) (listener : ℕ)
      (t : Transport M) where
    abbrev got : Result (GetMessageHandlerError ⊎ ℕ) × Handlers M
    got =
        MessageHandlers.get_message_handler world.bimap world.order world.self world.self
          (config_of src sink listener) t.handlers

    taken :
        (a : GetMessageHandlerError ⊎ ℕ)
        → got.0 ≡ ok a
        → (register_one world src sink type listener t).1.handlers ≡ got.1
    unfolding register_one application_name get_message_handler
    taken (inl e) found = rw (found) refl
    taken (inr id) found = rw (register_with world src sink type listener t id found) (
        command_handlers world
          (Engine.register_listener src sink type id t.host.storage.vsomeip_application_config.name)
          (record t { handlers = got.1 }))

    refused_by :
        (a : GetMessageHandlerError ⊎ ℕ)
        → got.0 ≡ ok a
        → is_function a ≡ false
        → (register_one world src sink type listener t).0 ≡ fail internal
    refused_by (inl e) found none_left = register_without world src sink type listener t e found
    refused_by (inr id) found none_left = absurd (ground arith)

  module _ (src : UUri) (sink : Option UUri) (type : RegistrationType) (listener : ℕ)
      (t : Transport M) (c : IsConsistent world.bimap t.handlers)
      (kind : determine_type world.up src sink ≡ ok type)
      (one : is_point_to_point type ≡ false) where
    handlers_taken :
        (register_listener world src sink listener t).1.handlers
        ≡ (MessageHandlers.get_message_handler world.bimap world.order world.self world.self
            (config_of src sink listener)
            t.handlers).1
    handlers_taken =
        let (a, found, gives) =
          get_message_handler_gives world.bimap world.self (config_of src sink listener) c
            world.order in
        rw (register_is world src sink type listener t kind one)
          (taken src sink type listener t a found)

    refused :
        has_function t && not (listening t (config_of src sink listener)) ≡ false
        → (register_listener world src sink listener t).0 ≡ fail internal
    refused none_left =
        let (a, found, gives) =
          get_message_handler_gives world.bimap world.self (config_of src sink listener) c
            world.order in
        rw (register_is world src sink type listener t kind one)
          (refused_by src sink type listener t a found (gives ∙ none_left))

  -- Where the functions of the process are consistent and the filters are not for all
  -- point-to-point messages: whatever registering a listener returns and the engine replies, the
  -- transport then has a function for the listener's configuration if the process had one to give or
  -- the transport had one already, and for every other configuration as before.
  pub register_listener_lem :
      (src : UUri) (sink : Option UUri) (type : RegistrationType) (listener : ℕ) (t : Transport M)
      (other : ListenerConfig)
      → IsConsistent world.bimap t.handlers
      → determine_type world.up src sink ≡ ok type
      → is_point_to_point type ≡ false
      → listening (register_listener world src sink listener t).1 other ≡ (
          if has_function t && config_of src sink listener == other
          then true
          else listening t other)
  register_listener_lem src sink type listener t other c kind one =
      let config = config_of src sink listener in
      rw (handlers_taken src sink type listener t c kind one)
        (ground (arith, holds-get world.bimap world.self config c world.order world.self other))

  -- Where the functions of the process are consistent, the engine runs and the filters are not for
  -- all point-to-point messages: unregistering a listener succeeds, whether the transport has it or
  -- not and whatever the engine replies. The transport then has no function for the configuration,
  -- and for every other configuration as before.
  pub unregister_listener_lem :
      (src : UUri) (sink : Option UUri) (type : RegistrationType) (listener : ℕ) (t : Transport M)
      (other : ListenerConfig)
      → IsConsistent world.bimap t.handlers
      → t.engine_running ≡ true
      → determine_type world.up src sink ≡ ok type
      → is_point_to_point type ≡ false
      → let config = config_of src sink listener in
        let (r, t1) = unregister_listener world src sink listener t in
        (r ≡ ok tt) × (listening t1 other ≡ (if config == other then false else listening t other))
  unregister_listener_lem src sink type listener t other c running kind one =
      let config = config_of src sink listener in
      let (success, left) = unregister_with world src sink type listener t t running in
      rw (unregister_is world src sink type listener t t kind one) (
        success,
        rw (left) (ground (arith, holds-release world.bimap world.self config c world.self other)),
      )

  -- Where the functions of the process are consistent, the process has one to give and the filters
  -- are not for all point-to-point messages: registering a listener for the second time fails with
  -- the code INTERNAL, whatever the first call returned, an error of the engine included.
  pub register_listener_again :
      (src : UUri) (sink : Option UUri) (type : RegistrationType) (listener : ℕ) (t : Transport M)
      → IsConsistent world.bimap t.handlers
      → has_function t ≡ true
      → determine_type world.up src sink ≡ ok type
      → is_point_to_point type ≡ false
      → (register_listener world src sink listener
          (register_listener world src sink listener t).1).0
        ≡ fail internal
  register_listener_again src sink type listener t c has kind one =
      let config = config_of src sink listener in
      let t1 = (register_listener world src sink listener t).1 in
      let c1 = (Keeps-register_listener (consistent world) src sink listener).keeps t c in
      let first = register_listener_lem src sink type listener t config c kind one in
      refused src sink type listener t1 c1 kind one (ground (arith, first, ==_refl config))
