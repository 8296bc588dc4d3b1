-- ===== src/Tests/Listeners.antt =====
-- The set of listeners of a transport, on concrete calls.
use up_transport_vsomeip_rus.Prelude.{
  ◌≡◌, refl, true, ◌&&◌, some, List, [], ◌∷◌, nat_eq, ◌==◌, if◌then◌else◌,
}
use up_transport_vsomeip_rus.UProtocol.Status.{ok, fail, internal}
use up_transport_vsomeip_rus.DetermineType.{request}
use up_transport_vsomeip_rus.Storage.MessageHandlers.{new}
use up_transport_vsomeip_rus.Storage.MessageHandlers.Config.{ListenerConfig, config_eq}
use up_transport_vsomeip_rus.Storage.MessageHandlers.Histories.{new-IsConsistent}
use up_transport_vsomeip_rus.Transport.Api.{register_one, register_listener}
use up_transport_vsomeip_rus.Transport.Listening.{
  listening, has_function, register_listener_lem, register_listener_again,
}
use up_transport_vsomeip_rus.Transport.Listening.Sets.{
  Subscription, subscribes, unsubscribes, step_all, functions_seen, carry_out_all,
  carry_out_all-step_all,
}
use up_transport_vsomeip_rus.Tests.Data.{config_map, config, client_uri, service_uri}
use up_transport_vsomeip_rus.Tests.Registries.{first_handler, newest-ids_below}
use up_transport_vsomeip_rus.Tests.Transports.{world, transport, requests}
use up_transport_vsomeip_rus.Prelude.{ℕ, ==_iff, arith}
use up_transport_vsomeip_rus.Collections.HashMap
use up_transport_vsomeip_rus.Collections.BiMap.Right.{get_by_right-new}
use up_transport_vsomeip_rus.Collections.BiMap.Pairs.{Pairs}
use up_transport_vsomeip_rus.Storage.MessageHandlers.Listed.{others}
use up_transport_vsomeip_rus.Transport.{
  Transport, serving, finished, command, application_name, get_message_handler,
}
use up_transport_vsomeip_rus.Transport.Life.{drop}
use up_transport_vsomeip_rus.Transport.Running.{register_listener_runs_on}
use up_transport_vsomeip_rus.Transport.Consistency.{consistent}
use up_transport_vsomeip_rus.Transport.Invariants.Calls.{Keeps-register_listener}
use up_transport_vsomeip_rus.Transport.Dropping.{IsOrdinary, drop_lem}
use up_transport_vsomeip_rus.Tests.Data.{up}

abbrev other : ListenerConfig
other = record { source_filter = client_uri; sink_filter = some service_uri; listener = 4 }

register_listener_lem_example :
    listening world (register_listener world client_uri (some service_uri) 3 transport).1 other ≡ (
      if has_function world transport && config == other
      then true
      else listening world transport other)
register_listener_lem_example =
    register_listener_lem world client_uri (some service_uri) request 3 transport other
      (new-IsConsistent config_map) requests refl

given_first : has_function world transport ≡ true
unfolding new
given_first = rw (newest-ids_below 9999) refl

register_listener_again_example :
    (register_listener world client_uri
      (some service_uri)
      3
      (register_listener world client_uri (some service_uri) 3 transport).1).0
    ≡ fail internal
register_listener_again_example =
    register_listener_again world client_uri (some service_uri) request 3 transport
      (new-IsConsistent config_map) given_first requests refl

abbrev subscriptions : List Subscription
subscriptions = subscribes config ∷ subscribes other ∷ unsubscribes config ∷ []

carry_out_all-step_all_example :
    listening world (carry_out_all world subscriptions transport) config
    ≡ step_all subscriptions
        (functions_seen world subscriptions transport)
        (listening world transport)
        config
carry_out_all-step_all_example =
    carry_out_all-step_all world subscriptions transport config (new-IsConsistent config_map) refl
      ((request, requests, refl), ((request, requests, refl), ((request, requests, refl), tt)))

abbrev with_listener : Transport (Pairs ℕ ListenerConfig)
with_listener = (register_listener world client_uri (some service_uri) 3 transport).1

ordinary : (x : ListenerConfig) → listening world with_listener x ≡ true → IsOrdinary up x
unfolding new
ordinary x there =
    let lem =
      register_listener_lem world client_uri (some service_uri) request 3 transport x
        (new-IsConsistent config_map) requests refl in
    let same : x ≡ config =
      ground (arith, lem, get_by_right-new config_map config_map.new x, ==_iff config x) in
    rw (same) (request, requests, refl)

serves : with_listener.runtime ≡ serving 10
unfolding register_listener register_one application_name get_message_handler command
serves = ground (arith, requests, first_handler)

drop_lem_example :
    ((drop world with_listener).0 ≡ ok tt)
    × ((drop world with_listener).1.runtime ≡ finished)
    × ((id : ℕ)
        → HashMap.get (drop world with_listener).1.handlers.transport_storage id
          ≡ others 1 with_listener.handlers id)
drop_lem_example =
    drop_lem world with_listener 10
      ((Keeps-register_listener (consistent world) client_uri (some service_uri) 3).keeps transport
        (new-IsConsistent config_map))
      (register_listener_runs_on world client_uri (some service_uri) request 3 transport refl
        requests refl)
      serves ordinary
