-- ===== src/Transport/Dropping.antt =====
-- What a transport that is dropped leaves behind in the process.
use up_transport_vsomeip_rus.Prelude.{
  ℕ, ◌≡◌, ◌∙◌, refl, sym, true, false, List, [], ◌∷◌, arith, nat_eq, ==_refl, if◌then◌else◌,
}
use up_transport_vsomeip_rus.Action.{Action, ◌>>◌}
use up_transport_vsomeip_rus.Collections.HashMap
use up_transport_vsomeip_rus.Collections.HashSet.{member}
use up_transport_vsomeip_rus.UProtocol.{UpRust}
use up_transport_vsomeip_rus.UProtocol.Status.{ok}
use up_transport_vsomeip_rus.DetermineType.{RegistrationType, determine_type}
use up_transport_vsomeip_rus.Storage.MessageHandlers.{get_all_listener_configs}
use up_transport_vsomeip_rus.Storage.MessageHandlers.Config.{ListenerConfig, config_eq}
use up_transport_vsomeip_rus.Storage.MessageHandlers.Consistency.{IsConsistent}
use up_transport_vsomeip_rus.Storage.MessageHandlers.Listed.{
  others, others-release, get-others, member-get_all_listener_configs,
}
use up_transport_vsomeip_rus.Transport.{
  Transport, World, serving, finished, command, warned, application_name,
}
use up_transport_vsomeip_rus.Transport.Api.{unregister_listener, is_point_to_point}
use up_transport_vsomeip_rus.Transport.Life.{
  unregister_all, shutdown_vsomeip_app, shutdown_runtime, drop,
}
use up_transport_vsomeip_rus.Transport.Consistency.{consistent}
use up_transport_vsomeip_rus.Transport.Invariants.Calls.{Keeps-unregister_listener}
use up_transport_vsomeip_rus.Transport.Undo.{unregister_is, unregister_with}
use up_transport_vsomeip_rus.Transport.Running.{
  unregister_listener_runs_on, runtime-unregister_listener,
}
use up_transport_vsomeip_rus.Transport.Listening.{listening, unregister_listener_lem}

-- filters that are in the specification, and not for all point-to-point messages
abbrev pub IsOrdinary : UpRust → ListenerConfig → Type 0
IsOrdinary up config =
    (type : RegistrationType) × (determine_type up config.source_filter config.sink_filter
      ≡ ok type)
    × (is_point_to_point type ≡ false)

module _ {Json M : Type 0} (world : World Json M) where
  unregister : ListenerConfig → Action (Transport M) (Unit {0})
  unregister config =
      unregister_listener world config.source_filter config.sink_filter config.listener

  -- What is known after some configurations have been unregistered.
  record IsWithout (configs : List ListenerConfig) (t t1 : Transport M) : Type 0 where
    consistent : IsConsistent world.bimap t1.handlers
    running : t1.engine_running ≡ true
    thread : t1.runtime ≡ t.runtime
    left :
        (other : ListenerConfig)
        → listening world t1 other
          ≡ (if member other configs then false else listening world t other)
    untouched : (id : ℕ) → others world.self t1.handlers id ≡ others world.self t.handlers id

  one_less :
      (config : ListenerConfig) (t : Transport M)
      → IsConsistent world.bimap t.handlers
      → t.engine_running ≡ true
      → IsOrdinary world.up config
      → ((unregister config t).0 ≡ ok tt) × IsWithout (config ∷ []) t (unregister config t).1
  unfolding unregister
  one_less config t c running (type, kind, one) =
      let src = config.source_filter in
      let sink = config.sink_filter in
      let listener = config.listener in
      let lem = λ (other : ListenerConfig).
        unregister_listener_lem world src sink type listener t other c running kind one in
      let (u, left) = unregister_with world src sink type listener t t running in
      (
        (lem config).0,
        record {
          consistent = (Keeps-unregister_listener (consistent world) src sink listener).keeps t c;
          running = unregister_listener_runs_on world src sink type listener t running kind one;
          thread = runtime-unregister_listener world src sink type listener t running kind one;
          left = λ other. ground (arith, (lem other).1);
          untouched = λ id.
              rw (unregister_is world src sink type listener t t kind one)
                (rw (left) (others-release world.bimap world.self config c id));
        },
      )

  unregister_first :
      (config : ListenerConfig) (configs : List ListenerConfig) (t : Transport M)
      → (unregister config t).0 ≡ ok tt
      → unregister_all world (config ∷ configs) t
        ≡ unregister_all world configs (unregister config t).1
  unfolding unregister_all warned unregister
  unregister_first config configs t e = ground arith

  all_less :
      (configs : List ListenerConfig) (t : Transport M)
      → IsConsistent world.bimap t.handlers
      → t.engine_running ≡ true
      → ((config : ListenerConfig) → member config configs ≡ true → IsOrdinary world.up config)
      → ((unregister_all world configs t).0 ≡ ok tt)
        × IsWithout configs t (unregister_all world configs t).1
  unfolding unregister_all
  all_less [] t c running ordinary = (
    refl,
    record {
      consistent = c;
      running = running;
      thread = refl;
      left = λ other. refl;
      untouched = λ id. refl;
    },
  )
  all_less (config ∷ configs) t c running ordinary =
      let (u, first) =
        one_less config t c running (ordinary config (ground (arith, ==_refl config))) in
      let (r, rest) =
        all_less configs (unregister config t).1 first.consistent first.running
          (λ other there. ordinary other (ground arith)) in
      rw (unregister_first config configs t u) (
        r,
        record {
          consistent = rest.consistent;
          running = rest.running;
          thread = rest.thread ∙ first.thread;
          left = λ other. ground (arith, first.left other, rest.left other);
          untouched = λ id. rest.untouched id ∙ first.untouched id;
        },
      )

  shut_down :
      (t : Transport M) (n : ℕ)
      → t.engine_running ≡ true
      → t.runtime ≡ serving n
      → let (r, t1) = (warned (shutdown_vsomeip_app world) >> shutdown_runtime world) t in
        (r ≡ ok tt) × (t1.handlers ≡ t.handlers) × (t1.runtime ≡ finished)
  unfolding shutdown_vsomeip_app application_name warned command shutdown_runtime
  shut_down t n running e = (ground arith, ground arith, ground arith)

  -- Where the functions of the process are consistent, the engine runs, the thread of the runtime
  -- serves and the transport listens under no filters for all point-to-point messages: dropping the
  -- transport ends without a panic, whatever vsomeip and the engine reply, and the thread has
  -- finished. No function is then mapped to the transport, and every function of another transport
  -- is mapped as before.
  pub drop_lem :
      (t : Transport M) (n : ℕ)
      → IsConsistent world.bimap t.handlers
      → t.engine_running ≡ true
      → t.runtime ≡ serving n
      → ((config : ListenerConfig) → listening world t config ≡ true → IsOrdinary world.up config)
      → ((drop world t).0 ≡ ok tt)
        × ((drop world t).1.runtime ≡ finished)
        × ((id : ℕ)
            → HashMap.get (drop world t).1.handlers.transport_storage id
              ≡ others world.self t.handlers id)
  unfolding drop
  drop_lem t n c running serves ordinary =
      let configs = get_all_listener_configs world.bimap t.handlers world.self in
      let listed = λ (x : ListenerConfig).
        member-get_all_listener_configs world.bimap t.handlers world.self x in
      let (r, less) =
        all_less configs t c running (λ x there. ordinary x (sym (listed x) ∙ there)) in
      let t1 = (unregister_all world configs t).1 in
      let (s, kept, ended) = shut_down t1 n less.running (less.thread ∙ serves) in
      let silent : (x : ListenerConfig) → listening world t1 x ≡ false =
        λ x. ground (arith, less.left x, listed x) in
      rw (r) (
        s,
        ended,
        λ id.
            rw (kept)
              (get-others world.bimap world.self less.consistent silent id ∙ less.untouched id),
      )
