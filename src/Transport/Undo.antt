-- ===== src/Transport/Undo.antt =====
-- What unregistering a listener takes back.
use up_transport_vsomeip_rus.Prelude.{
  ℕ, ◌≡◌, ◌∙◌, refl, sym, ap, true, false, Option, ◌⊎◌, inl, inr, arith, nat_eq,
}
use up_transport_vsomeip_rus.UProtocol.{UUri}
use up_transport_vsomeip_rus.UProtocol.Status.{Result, ok, fail, internal}
use up_transport_vsomeip_rus.DetermineType.{RegistrationType, determine_type}
use up_transport_vsomeip_rus.Storage.MessageHandlers
use up_transport_vsomeip_rus.Storage.MessageHandlers.{GetMessageHandlerError, Handlers}
use up_transport_vsomeip_rus.Storage.MessageHandlers.Config.{ListenerConfig, config_eq}
use up_transport_vsomeip_rus.Storage.MessageHandlers.Consistency.{IsConsistent}
use up_transport_vsomeip_rus.Storage.MessageHandlers.Outcomes.{
  Same, get_message_handler-Answers, release-get_message_handler,
}
use up_transport_vsomeip_rus.Engine
use up_transport_vsomeip_rus.Engine.{TransportCommand, handle_command}
use up_transport_vsomeip_rus.Transport.{
  Transport, World, command, application_name, get_message_handler, release_message_handler, warned,
  with_code,
}
use up_transport_vsomeip_rus.Transport.Api.{
  register_one, register_listener, unregister_one, unregister_listener, is_point_to_point,
}

module _ {Json M : Type 0} (world : World Json M) where
  -- a command that succeeds finds the engine running, and leaves it so
  command_ok :
      (cmd : TransportCommand) (t : Transport M)
      → (command world cmd t).0 ≡ ok tt
      → (command world cmd t).1.engine_running ≡ true
  unfolding command
  command_ok cmd t e = ground arith

  pub command_handlers :
      (cmd : TransportCommand) (t : Transport M) → (command world cmd t).1.handlers ≡ t.handlers
  unfolding command
  command_handlers cmd t = ground arith

  warned-command :
      (cmd : TransportCommand) (t : Transport M)
      → t.engine_running ≡ true
      → (warned (command world cmd) t).0 ≡ ok tt
  unfolding command warned
  warned-command cmd t e = ground arith

  warned_handlers :
      (cmd : TransportCommand) (t : Transport M)
      → (warned (command world cmd) t).1.handlers ≡ t.handlers
  unfolding command warned
  warned_handlers cmd t = ground arith

  module _ (src : UUri) (sink : Option UUri) (type : RegistrationType) (listener : ℕ)
      (t : Transport M) where
    abbrev config : ListenerConfig
    config = record { source_filter = src; sink_filter = sink; listener = listener }

    abbrev got : Result (GetMessageHandlerError ⊎ ℕ) × Handlers M
    got =
        MessageHandlers.get_message_handler world.bimap world.order world.self world.self config
          t.handlers

    -- the command that registers a function
    abbrev registering : ℕ → TransportCommand
    registering id =
        Engine.register_listener src sink type id t.host.storage.vsomeip_application_config.name

    pub register_with :
        (id : ℕ)
        → got.0 ≡ ok (inr id)
        → register_one world src sink type listener t
          ≡ command world (registering id) (record t { handlers = got.1 })
    unfolding register_one application_name get_message_handler
    register_with id e = rw (e) refl

    pub register_without :
        (x : GetMessageHandlerError)
        → got.0 ≡ ok (inl x)
        → (register_one world src sink type listener t).0 ≡ fail internal
    unfolding register_one application_name get_message_handler
    register_without x e = rw (e) refl

    registered_as :
        (a : GetMessageHandlerError ⊎ ℕ)
        → got.0 ≡ ok a
        → (register_one world src sink type listener t).0 ≡ ok tt
        → (id : ℕ) × (got.0 ≡ ok (inr id))
          × ((register_one world src sink type listener t).1.handlers ≡ got.1)
          × ((register_one world src sink type listener t).1.engine_running ≡ true)
    registered_as (inl x) e success = let refused = register_without x e in absurd (ground arith)
    registered_as (inr id) e success =
        let as_command = register_with id e in
        let taken = record t { handlers = got.1 } in
        (
          id,
          e,
          rw (as_command) (command_handlers (registering id) (record t { handlers = got.1 })),
          rw (as_command) (
              command_ok (registering id) (record t { handlers = got.1 })
                (sym (ap (λ x. x.0) as_command) ∙ success)),
        )

    released :
        (t1 : Transport M)
        → ((warned (release_message_handler world config) t1).0 ≡ ok tt)
          × ((warned (release_message_handler world config) t1).1.handlers
              ≡ (MessageHandlers.release_message_handler world.bimap world.self config
                  t1.handlers).1)
    unfolding warned release_message_handler MessageHandlers.release_message_handler
    released t1 = (ground arith, ground arith)

    pub register_is :
        determine_type world.up src sink ≡ ok type
        → is_point_to_point type ≡ false
        → register_listener world src sink listener t ≡ register_one world src sink type listener t
    unfolding register_listener
    register_is kind one = rw (kind) (rw (one) refl)

    pub unregister_is :
        (t1 : Transport M)
        → determine_type world.up src sink ≡ ok type
        → is_point_to_point type ≡ false
        → unregister_listener world src sink listener t1
          ≡ unregister_one world src sink type listener t1
    unfolding unregister_listener with_code
    unregister_is t1 kind one = rw (kind) (rw (one) refl)

    -- what unregistering comes to, once the engine has had its turn
    pub unregister_with :
        (t1 : Transport M)
        → t1.engine_running ≡ true
        → let (u, t2) = unregister_one world src sink type listener t1 in
          (u ≡ ok tt)
          × (t2.handlers
              ≡ (MessageHandlers.release_message_handler world.bimap world.self config
                  t1.handlers).1)
    unfolding unregister_one application_name
    unregister_with t1 running =
        let cmd =
          Engine.unregister_listener src sink type
            t1.host.storage.vsomeip_application_config.name in
        let (r, h) = released (warned (command world cmd) t1).1 in
        (
          rw (warned-command cmd t1 running) r,
          rw (warned-command cmd t1 running) (
              h
              ∙ ap
                  (λ w. (MessageHandlers.release_message_handler world.bimap world.self config w).1)
                  (warned_handlers cmd t1)),
        )

    register-unregister_one :
        IsConsistent world.bimap t.handlers
        → (register_one world src sink type listener t).0 ≡ ok tt
        → let (u, t2) =
            unregister_one world src sink type listener
              (register_one world src sink type listener t).1 in
          (u ≡ ok tt) × Same world.bimap t.handlers t2.handlers
    register-unregister_one c success =
        let (a, found, as_answered) =
          get_message_handler-Answers world.bimap world.self config c world.order (λ s. true) in
        let (id, fresh, took, running) = registered_as a found success in
        let (u, left) = unregister_with (register_one world src sink type listener t).1 running in
        let (r, same) =
          release-get_message_handler world.bimap world.self config c world.order id fresh in
        (u, rw (left) (rw (took) same))

  -- Where the functions of the process are consistent and the filters are not for all
  -- point-to-point messages: after a listener has been registered with success, unregistering it
  -- succeeds whatever the engine replies, and every query of the extern functions has the answer
  -- that it had before the two calls.
  pub register-unregister_listener :
      (src : UUri) (sink : Option UUri) (type : RegistrationType) (listener : ℕ) (t : Transport M)
      → IsConsistent world.bimap t.handlers
      → determine_type world.up src sink ≡ ok type
      → is_point_to_point type ≡ false
      → (register_listener world src sink listener t).0 ≡ ok tt
      → let (r, t1) = register_listener world src sink listener t in
        let (u, t2) = unregister_listener world src sink listener t1 in
        (u ≡ ok tt) × Same world.bimap t.handlers t2.handlers
  register-unregister_listener src sink type listener t c kind one success =
      let registering = register_is src sink type listener t kind one in
      let succeeded = sym (ap (λ x. x.0) registering) ∙ success in
      let (u, same) = register-unregister_one src sink type listener t c succeeded in
      let t1 = (register_one world src sink type listener t).1 in
      rw (registering) (
        rw
          (unregister_is src sink type listener t (register_one world src sink type listener t).1
            kind one)
          (u, same))
