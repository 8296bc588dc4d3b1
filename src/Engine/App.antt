-- ===== src/Engine/App.antt =====
-- `create_app`, `start_vsomeip_app_internal`, `stop_vsomeip_app_internal`
pub mod Ids
pub mod StaleStates
use up_transport_vsomeip_rus.Prelude.{
  ℕ, nat_eq, String, Bool, Option, none, some, List, [], ◌∷◌, if◌then◌else◌,
}
use up_transport_vsomeip_rus.Collections.HashSet.{IterOrder}
use up_transport_vsomeip_rus.Action.{Action, return, raise, ok_or, continue, ◌>>=◌, ◌>>◌}
use up_transport_vsomeip_rus.UProtocol.Status.{ok, already_exists, internal}
use up_transport_vsomeip_rus.Vsomeip.{
  init, register_state_handler, unregister_state_handler, start, stop,
}
use up_transport_vsomeip_rus.Storage.StateHandlers
use up_transport_vsomeip_rus.Storage.StateHandlers.{call_state_handler, recv}
use up_transport_vsomeip_rus.Storage.{
  Host, app, find_application_state_availability_handler_id,
  free_application_state_availability_handler_id, get_application_state_availability_handler,
}

-- What the vsomeip runtime answers while an application is created.
pub record Runtime : Type 0 where
  -- whether `create_application` returns an application
  pub creates : Bool
  -- the states that the application reports before the engine waits for one
  pub early : List ℕ
  -- the first that it reports within the 50 ms of the wait, which is over when there is one
  pub in_time : Option ℕ
  -- those that it reports from the end of the wait until its handler is unregistered
  pub late : List ℕ

-- vsomeip calls the handler for each state.
abbrev pub deliver : ℕ → List ℕ → StateHandlers.StateHandlers → StateHandlers.StateHandlers
deliver id [] s = s
deliver id (state ∷ states) s = deliver id states (call_state_handler id state s)

-- The oldest state in the channel ends the wait, or the first that comes while there is none.
unfoldable pub wait :
    Option ℕ → ℕ → StateHandlers.StateHandlers → Option ℕ × StateHandlers.StateHandlers
unfolding recv call_state_handler
wait in_time id s = elim (s.received id) [
  | _ ∷ _ ↦ recv id s
  | [] ↦ elim in_time [ none ↦ (none, s) | some state ↦ recv id (call_state_handler id state s) ]
]

-- `receiver.recv_timeout(Duration::from_millis(50))`
abbrev recv_timeout : Runtime → ℕ → Action Host (Option ℕ)
recv_timeout env id h =
    let (state, s) = wait env.in_time id (deliver id env.early h.state_handlers) in
    (ok state, record h { state_handlers = s })

abbrev reports : List ℕ → ℕ → Action Host (Unit {0})
reports states id h = (ok tt, record h { state_handlers = deliver id states h.state_handlers })

-- When the wait ends without a state, the handler stays registered, with a function that no other
-- application gets.
-- `exists` is whether the runtime knows an application of the name.
unfoldable pub create_app :
    IterOrder ℕ → Runtime → (exists : Bool) → String → Action Host (Unit {0})
unfolding wait find_application_state_availability_handler_id
    free_application_state_availability_handler_id get_application_state_availability_handler
create_app order env exists app_name = if exists then raise already_exists else do
  state_handler_id ← find_application_state_availability_handler_id order
  handler ← get_application_state_availability_handler state_handler_id
  if env.creates
      then (do
        app init
        app (register_state_handler handler)
        app (start app_name)
        state ← recv_timeout env state_handler_id
        ok_or state internal
        reports env.late state_handler_id
        app unregister_state_handler
        free_application_state_availability_handler_id state_handler_id)
      else raise internal

unfoldable pub start_vsomeip_app_internal :
    IterOrder ℕ → Runtime → (exists : Bool) → String → Action Host (Unit {0})
unfolding create_app
start_vsomeip_app_internal order env exists app_name = do
  create_app order env exists app_name
  return tt

unfoldable pub stop_vsomeip_app_internal : (exists : Bool) → Action Host (Unit {0})
stop_vsomeip_app_internal exists = if exists then app stop else raise internal
