-- ===== src/Transport/Listening/Sets.antt =====
-- What a transport promises of its listeners: a set, to which a call adds one or takes one away.
use up_transport_vsomeip_rus.Prelude.{
  ◌≡◌, ◌∙◌, refl, Bool, true, false, List, [], ◌∷◌, ◌&&◌, nat_eq, ◌==◌, if◌then◌else◌, arith,
}
use up_transport_vsomeip_rus.Action.{Action}
use up_transport_vsomeip_rus.UProtocol.{UpRust}
use up_transport_vsomeip_rus.UProtocol.Status.{ok}
use up_transport_vsomeip_rus.DetermineType.{RegistrationType, determine_type}
use up_transport_vsomeip_rus.Storage.MessageHandlers.Config.{ListenerConfig, config_eq}
use up_transport_vsomeip_rus.Storage.MessageHandlers.Consistency.{IsConsistent}
use up_transport_vsomeip_rus.Transport.{Transport, World}
use up_transport_vsomeip_rus.Transport.Api.{
  register_listener, unregister_listener, is_point_to_point,
}
use up_transport_vsomeip_rus.Transport.Consistency.{consistent}
use up_transport_vsomeip_rus.Transport.Invariants.Calls.{
  Keeps-register_listener, Keeps-unregister_listener,
}
use up_transport_vsomeip_rus.Transport.Running.{
  register_listener_runs_on, unregister_listener_runs_on,
}
use up_transport_vsomeip_rus.Transport.Listening.{
  listening, has_function, register_listener_lem, unregister_listener_lem,
}

-- A call that registers or unregisters a listener.
pub data Subscription : Type 0 where
  subscribes unsubscribes : ListenerConfig → Subscription

abbrev pub config_of : Subscription → ListenerConfig
config_of (subscribes config) = config
config_of (unsubscribes config) = config

-- The set after a call. The process may have no function to give to a new listener.
abbrev pub step : Subscription → Bool → (ListenerConfig → Bool) → ListenerConfig → Bool
step (subscribes config) has now other = if has && config == other then true else now other
step (unsubscribes config) has now other = if config == other then false else now other

-- The set after all calls, by whether there was a function at each.
abbrev pub step_all :
    List Subscription → List Bool → (ListenerConfig → Bool) → ListenerConfig → Bool
step_all (s ∷ ss) (has ∷ rest) now other = step_all ss rest (step s has now) other
step_all _ _ now other = now other

pub step_all_ext :
    (ss : List Subscription) (hs : List Bool) (f g : ListenerConfig → Bool)
    → ((c : ListenerConfig) → f c ≡ g c)
    → (other : ListenerConfig) → step_all ss hs f other ≡ step_all ss hs g other
step_all_ext [] hs f g e other = e other
step_all_ext (s ∷ ss) [] f g e other = e other
step_all_ext (subscribes c ∷ ss) (h ∷ hs) f g e other =
    step_all_ext ss hs (step (subscribes c) h f) (step (subscribes c) h g)
      (λ c'. ground (arith, e c')) other
step_all_ext (unsubscribes c ∷ ss) (h ∷ hs) f g e other =
    step_all_ext ss hs (step (unsubscribes c) h f) (step (unsubscribes c) h g)
      (λ c'. ground (arith, e c')) other

-- filters that are in the specification, and not for all point-to-point messages
abbrev pub IsOrdinary : UpRust → Subscription → Type 0
IsOrdinary up s =
    (type : RegistrationType) × (determine_type up (config_of s).source_filter
        (config_of s).sink_filter
      ≡ ok type)
    × (is_point_to_point type ≡ false)

abbrev pub AllOrdinary : UpRust → List Subscription → Type 0
AllOrdinary up [] = Unit {0}
AllOrdinary up (s ∷ ss) = IsOrdinary up s × AllOrdinary up ss

module _ {Json M : Type 0} (world : World Json M) where
  abbrev pub carry_out : Subscription → Action (Transport M) (Unit {0})
  carry_out (subscribes c) = register_listener world c.source_filter c.sink_filter c.listener
  carry_out (unsubscribes c) = unregister_listener world c.source_filter c.sink_filter c.listener

  abbrev pub carry_out_all : List Subscription → Transport M → Transport M
  carry_out_all [] t = t
  carry_out_all (s ∷ ss) t = carry_out_all ss (carry_out s t).1

  -- whether there was a function to give, at each call
  abbrev pub functions_seen : List Subscription → Transport M → List Bool
  functions_seen [] t = []
  functions_seen (s ∷ ss) t = has_function world t ∷ functions_seen ss (carry_out s t).1

  after_one :
      (s : Subscription) (t : Transport M)
      → IsConsistent world.bimap t.handlers
      → t.engine_running ≡ true
      → IsOrdinary world.up s
      → IsConsistent world.bimap (carry_out s t).1.handlers
        × ((carry_out s t).1.engine_running ≡ true)
        × ((other : ListenerConfig)
            → listening world (carry_out s t).1 other
              ≡ step s (has_function world t) (listening world t) other)
  after_one (subscribes x) t c running (type, kind, one) = (
    (Keeps-register_listener (consistent world) x.source_filter x.sink_filter x.listener).keeps t c,
    register_listener_runs_on world x.source_filter x.sink_filter type x.listener t running kind
        one,
    λ other.
        (register_listener_lem world x.source_filter x.sink_filter type x.listener t other c kind
          one),
  )
  after_one (unsubscribes x) t c running (type, kind, one) = (
    (Keeps-unregister_listener (consistent world) x.source_filter x.sink_filter x.listener).keeps t
        c,
    unregister_listener_runs_on world x.source_filter x.sink_filter type x.listener t running kind
        one,
    λ other.
        (unregister_listener_lem world x.source_filter x.sink_filter type x.listener t other c
          running kind one).1,
  )

  -- Where the functions of the process are consistent, the engine runs and no filters are for all
  -- point-to-point messages: after any sequence of calls that register and unregister listeners,
  -- whatever vsomeip and the engine reply to them, the transport has a function for a configuration
  -- exactly when the configuration is in the set that the calls make, call by call, of the set
  -- before them, where the process had a function for a new listener.
  pub carry_out_all-step_all :
      (ss : List Subscription) (t : Transport M) (config : ListenerConfig)
      → IsConsistent world.bimap t.handlers
      → t.engine_running ≡ true
      → AllOrdinary world.up ss
      → listening world (carry_out_all ss t) config
        ≡ step_all ss (functions_seen ss t) (listening world t) config
  carry_out_all-step_all [] t config c running ordinary = refl
  carry_out_all-step_all (s ∷ ss) t config c running (one, others) =
      let (c1, running1, now) = after_one s t c running one in
      carry_out_all-step_all ss (carry_out s t).1 config c1 running1 others
      ∙ step_all_ext ss (functions_seen ss (carry_out s t).1) (listening world (carry_out s t).1)
          (step s (has_function world t) (listening world t)) now config
