-- ===== src/Tests/Commands.antt =====
-- The engine's commands on a concrete host.
use up_transport_vsomeip_rus.Prelude.{
  ℕ, ◌+◌, ◌≡◌, ◌≢◌, ◌↔◌, ◌⊎◌, refl, true, false, none, some, List, [], ◌∷◌, arith, nat_eq, ◌==◌,
  if◌then◌else◌, triple_beq, length, string_eq, ◌&&◌,
}
use up_transport_vsomeip_rus.Collections.HashSet.{newest_first, next-insert}
use up_transport_vsomeip_rus.UProtocol.Status.{ok, fail, internal}
use up_transport_vsomeip_rus.Utils.Parts.{split_u32_to_u16_parts}
use up_transport_vsomeip_rus.DetermineType.{determine_type, request, response}
use up_transport_vsomeip_rus.DetermineType.Cases.{Determines, determine_type_iff}
use up_transport_vsomeip_rus.Storage.RpcCorrelation
use up_transport_vsomeip_rus.Storage.{Host, new}
use up_transport_vsomeip_rus.Storage.StateHandlers
use up_transport_vsomeip_rus.Storage.StateHandlers.{num_state_handlers}
use up_transport_vsomeip_rus.Storage.MessageHandlers.{ids_below}
use up_transport_vsomeip_rus.Storage.MessageHandlers.Histories.{contains-ids_below}
use up_transport_vsomeip_rus.Engine.{
  TransportCommand, Environment, event_loop, register_listener, send, start_vsomeip_app,
  stop_vsomeip_app,
}
use up_transport_vsomeip_rus.Engine.App.{Runtime, create_app, wait}
use up_transport_vsomeip_rus.Engine.App.StaleStates.{silent, reporting, after_two, create_app_stale}
use up_transport_vsomeip_rus.Collections.HashSet
use up_transport_vsomeip_rus.Collections.HashSet.{contains-empty, contains-remove}
use up_transport_vsomeip_rus.Storage.StateHandlers.{recv, call_state_handler}
use up_transport_vsomeip_rus.Engine.App.Ids.{is_free, comes, create_app_ids}
use up_transport_vsomeip_rus.Engine.Listeners.{
  register_listener_internal, unregister_listener_internal,
}
use up_transport_vsomeip_rus.Engine.Listeners.Keys.{active, key_of, listener_keys, key_differs}
use up_transport_vsomeip_rus.Engine.Loop.{IsHealthy, event_loop_replies}
use up_transport_vsomeip_rus.Engine.Send.{send_internal}
use up_transport_vsomeip_rus.Engine.Send.Once.{messages, one_if_ok, messages-send_internal}
use up_transport_vsomeip_rus.Tests.Data.{
  up, vs, host, client_uri, service_uri, request_of, response_to,
}

determine_type_iff_example :
    (determine_type up client_uri (some service_uri) ≡ ok request)
    ↔ Determines up client_uri (some service_uri) request
determine_type_iff_example = determine_type_iff up client_uri (some service_uri) request

listener_keys_example :
    let key = key_of service_uri vs.any_instance in
    let (r, after) = register_listener_internal vs client_uri (some service_uri) request 7 host in
    let (u, end) = unregister_listener_internal vs client_uri (some service_uri) request host in
    (r ≡ ok tt)
    × (u ≡ ok tt)
    × (active key after.calls ≡ (if triple_beq key key then some 7 else active key host.calls))
    × (active key end.calls ≡ (if triple_beq key key then none else active key host.calls))
listener_keys_example =
    listener_keys vs request client_uri service_uri (λ e. ground arith) 7 host host
      (key_of service_uri vs.any_instance)

keys_differ : key_of client_uri 65535 ≢ key_of service_uri 65535
keys_differ e = ground (arith, split_u32_to_u16_parts 65541, split_u32_to_u16_parts 4660)

key_differs_example :
    let mine = key_of service_uri vs.any_instance in
    let (r, after) = register_listener_internal vs service_uri (some client_uri) response 7 host in
    let (u, end) = unregister_listener_internal vs service_uri (some client_uri) response after in
    (r ≡ ok tt)
    × (u ≡ ok tt)
    × (active mine after.calls ≡ some 7)
    × (active mine end.calls ≡ some 7)
key_differs_example =
    key_differs vs response service_uri client_uri (λ e. ground arith) 7 host keys_differ

messages-send_internal_example :
    let (r, h') = send_internal vs 258 (request_of 77) host in
    messages h'.calls ≡ one_if_ok r + messages host.calls
messages-send_internal_example = messages-send_internal vs 258 (request_of 77) host

-- the application reports its state in time
abbrev starts : Runtime
starts = record { creates = true; early = []; in_time = some 0; late = [] }

first_state_handler : newest_first.next host.state_handlers.free_ids ≡ some 999
unfolding StateHandlers.new ids_below
first_state_handler = next-insert (ids_below 999) 999 (ground (arith, contains-ids_below 999 999))

create_app_ids_example :
    let (r, h') = create_app newest_first starts false "app" host in
    let starts = starts.creates && comes starts (host.state_handlers.received 999) in
    ((starts ≡ true) × (r ≡ ok tt) × ((j : ℕ) → is_free h' j ≡ is_free host j))
    ⊎ ((starts ≡ false)
        × (r ≡ fail internal)
        × (is_free host 999 ≡ true)
        × ((j : ℕ) → is_free h' j ≡ (if 999 == j then false else is_free host j)))
create_app_ids_example =
    create_app_ids newest_first starts "app" host 999 first_state_handler (omega arith)

-- a host with one function in the pool
abbrev pool : HashSet.HashSet ℕ
pool = (HashSet.insert HashSet.empty 7).0

abbrev small : Host
small = record host { state_handlers = record { free_ids = pool; received = λ id. [] } }

only_one : newest_first.next pool ≡ some 7
only_one = next-insert HashSet.empty 7 (contains-empty {A = ℕ} 7)

again :
    newest_first.next (after_two newest_first "first" 0 1 small).state_handlers.free_ids ≡ some 7
unfolding create_app wait recv call_state_handler
again = ground (
  arith,
  only_one,
  next-insert (HashSet.remove pool 7) 7 (ground (arith, contains-remove pool 7 7)),
)

create_app_stale_example :
    ((create_app newest_first silent false "second" small).0 ≡ fail internal)
    × ((create_app newest_first (reporting (some 0) (1 ∷ [])) false "first" small).0 ≡ ok tt)
    × ((create_app newest_first silent false "second" (after_two newest_first "first" 0 1 small)).0
        ≡ ok tt)
create_app_stale_example =
    create_app_stale newest_first 7 (omega arith) small only_one refl "first" "second" 0 1 again

pub healthy : IsHealthy host
unfolding new RpcCorrelation.new StateHandlers.new
healthy = record {
  unchecked = refl;
  sound = refl;
  ids = λ id free. ground (arith, contains-ids_below num_state_handlers id);
}

-- the application is there
abbrev pub running : Environment
running = record { get_application = λ name. some 258; runtime = starts }

-- it is not there
abbrev missing : Environment
missing = record { get_application = λ name. none; runtime = starts }

abbrev commands : List (Environment × TransportCommand)
commands =
    (missing, start_vsomeip_app 258 "app")
    ∷ (running, register_listener client_uri (some service_uri) request 7 "app")
    ∷ (running, send (response_to 5) response "app")
    ∷ (running, stop_vsomeip_app "app")
    ∷ []

event_loop_replies_example :
    let (replies, end) = event_loop vs newest_first commands host in
    (length replies ≡ length commands) × IsHealthy end
event_loop_replies_example = event_loop_replies vs newest_first commands host healthy
