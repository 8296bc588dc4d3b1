-- ===== src/Engine/Loop.antt =====
-- The replies of the engine's loop, in a build that does not check arithmetic overflows.
use up_transport_vsomeip_rus.Prelude.{
  ℕ, suc, length, ◌∙◌, ◌≡◌, refl, Bool, true, false, Option, none, some, String, List, [], ◌∷◌,
  arith, nat_eq, ltb, inl, inr, Option-cases, ◌<◌, sym, ap,
}
use up_transport_vsomeip_rus.Collections.HashSet
use up_transport_vsomeip_rus.Collections.HashSet.{IterOrder}
use up_transport_vsomeip_rus.Collections.BiMap.{is_some}
use up_transport_vsomeip_rus.Action.{Action, continue, ok_or, ◌>>=◌}
use up_transport_vsomeip_rus.UProtocol.{UUri, UMessage}
use up_transport_vsomeip_rus.UProtocol.Status.{Result, ok, err, panicked, internal}
use up_transport_vsomeip_rus.Vsomeip.{VsomeipApi}
use up_transport_vsomeip_rus.DetermineType.{RegistrationType}
use up_transport_vsomeip_rus.Storage.{Host}
use up_transport_vsomeip_rus.Storage.StateHandlers.{num_state_handlers}
use up_transport_vsomeip_rus.Conversions.Outbound.{
  umsg_publish_to_vsomeip_notification, umsg_request_to_vsomeip_message,
  umsg_response_to_vsomeip_message,
}
use up_transport_vsomeip_rus.Engine.{
  TransportCommand, Environment, handle_command, event_loop, answer, register_listener,
  unregister_listener, send, start_vsomeip_app, stop_vsomeip_app,
}
use up_transport_vsomeip_rus.Engine.Listeners.{
  register_listener_internal, unregister_listener_internal, unregister_filter,
}
use up_transport_vsomeip_rus.Engine.Send.{send_internal}
use up_transport_vsomeip_rus.Engine.App.{
  Runtime, create_app, start_vsomeip_app_internal, stop_vsomeip_app_internal,
}
use up_transport_vsomeip_rus.Engine.App.Ids.{is_free, create_app_ids}

-- the poisoning of the lock of the session ids
abbrev poisoned : Host → Bool
poisoned h = h.storage.rpc_correlation.session_ids_poisoned

-- No overflow panics, no lock is poisoned, and every free state handler exists.
pub record IsHealthy (h : Host) : Type 0 where
  pub unchecked : h.overflow_checks ≡ false
  pub sound : poisoned h ≡ false
  pub ids : (id : ℕ) → is_free h id ≡ true → id < num_state_handlers

abbrev replied {ℓ} : {A : Type ℓ} → Result A → Bool
replied (ok a) = true
replied (err e) = true
replied panicked = false

-- A function replies, and leaves a healthy host healthy.
abbrev Serves : {A : Type 0} → Action Host A → Host → Type 0
Serves m h = (replied (m h).0 ≡ true) × IsHealthy (m h).1

-- the part of the host that most functions leave alone
abbrev Keeps : {A : Type 0} → Action Host A → Host → Type 0
Keeps m h =
    (replied (m h).0 ≡ true)
    × ((m h).1.overflow_checks ≡ h.overflow_checks)
    × (poisoned (m h).1 ≡ poisoned h)
    × ((m h).1.state_handlers ≡ h.state_handlers)

module _ {h : Host} (healthy : IsHealthy h) where
  Serves-Keeps : {A : Type 0} (m : Action Host A) → Keeps m h → Serves m h
  Serves-Keeps m (r, o, p, s) = (
    r,
    record {
      unchecked = o ∙ healthy.unchecked;
      sound = p ∙ healthy.sound;
      ids = λ id free. healthy.ids id (sym (ap (λ x. HashSet.contains x.free_ids id) s) ∙ free);
    },
  )

  register-Keeps :
      (vs : VsomeipApi) (source : UUri) (sink : Option UUri) (t : RegistrationType) (handler : ℕ)
      → Keeps (register_listener_internal vs source sink t handler) h
  unfolding register_listener_internal
  register-Keeps vs source sink t handler = (ground arith, ground arith, ground arith, ground arith)

  unregister-Keeps :
      (vs : VsomeipApi) (source : UUri) (sink : Option UUri) (t : RegistrationType)
      → Keeps (unregister_listener_internal vs source sink t) h
  unfolding unregister_listener_internal unregister_filter
  unregister-Keeps vs source sink t = (ground arith, ground arith, ground arith, ground arith)

  send-Keeps :
      (vs : VsomeipApi) (client : ℕ) (umsg : UMessage) → Keeps (send_internal vs client umsg) h
  unfolding send_internal umsg_publish_to_vsomeip_notification umsg_request_to_vsomeip_message
      umsg_response_to_vsomeip_message
  send-Keeps vs client umsg =
      let unchecked = healthy.unchecked in
      let sound = healthy.sound in (ground arith, ground arith, ground arith, ground arith)

  module _ (order : IterOrder ℕ) (env : Runtime) (name : String) where
    exists_free :
        (id : ℕ) → order.next h.state_handlers.free_ids ≡ some id → ltb id num_state_handlers ≡ true
    exists_free id e =
        let below = healthy.ids id (order.next-some h.state_handlers.free_ids id e) in ground arith

    create-Keeps_except :
        (exists : Bool)
        → (replied (create_app order env exists name h).0 ≡ true)
          × ((create_app order env exists name h).1.overflow_checks ≡ h.overflow_checks)
          × (poisoned (create_app order env exists name h).1 ≡ poisoned h)
    unfolding create_app
    create-Keeps_except exists = elim (Option-cases (order.next h.state_handlers.free_ids)) [
      | inl e ↦ (ground arith, ground arith, ground arith)
      | inr (id, e) ↦
          let known = exists_free id e in
          (ground (arith, known), ground (arith, known), ground (arith, known))
    ]

    create-free :
        (j : ℕ) → is_free (create_app order env false name h).1 j ≡ true → is_free h j ≡ true
    unfolding create_app
    create-free j free = elim (Option-cases (order.next h.state_handlers.free_ids)) [
      | inl e ↦ ground arith
      | inr (id, e) ↦
          elim (create_app_ids order env name h id e
            (healthy.ids id (order.next-some h.state_handlers.free_ids id e))) [
              | inl (_, r, same) ↦ sym (same j) ∙ free
              | inr (_, r, was, now) ↦ ground (arith, now j)
            ]
    ]

    create-ids :
        (exists : Bool) (id : ℕ)
        → is_free (create_app order env exists name h).1 id ≡ true
        → id < num_state_handlers
    unfolding create_app
    create-ids true id free = healthy.ids id free
    create-ids false id free = healthy.ids id (create-free id free)

    create-Serves : (exists : Bool) → Serves (create_app order env exists name) h
    create-Serves exists =
        let (r, o, p) = create-Keeps_except exists in
        (
          r,
          record {
            unchecked = o ∙ healthy.unchecked;
            sound = p ∙ healthy.sound;
            ids = create-ids exists;
          },
        )

Serves-continue :
    {A B : Type 0} (r : Result A) (h : Host) (f : A → Action Host B)
    → replied r ≡ true
    → IsHealthy h
    → ((a : A) → Serves (f a) h)
    → Serves (continue r f) h
Serves-continue (ok a) h f e healthy serves = serves a
Serves-continue (err s) h f e healthy serves = (refl, healthy)
Serves-continue panicked h f e healthy serves = (e, healthy)

replied-ok_or :
    (o : Option ℕ) (h : Host)
    → (replied (ok_or o internal h).0 ≡ true) × ((ok_or o internal h).1 ≡ h)
replied-ok_or none h = (refl, refl)
replied-ok_or (some a) h = (refl, refl)

with_application :
    (o : Option ℕ) {h : Host}
    → IsHealthy h
    → (f : ℕ → Action Host (Unit {0})) → ((a : ℕ) → Serves (f a) h)
    → Serves (ok_or o internal >>= f) h
with_application none healthy f serves = (refl, healthy)
with_application (some a) healthy f serves = serves a

pub answer-Serves :
    {n : ℕ} (r : Result (Unit {0})) (h : Host) (rest : List (Result (Unit {0})) × Host)
    → replied r ≡ true
    → (length rest.0 ≡ n) × IsHealthy rest.1
    → (length (answer r h rest).0 ≡ suc n) × IsHealthy (answer r h rest).1
answer-Serves (ok a) h rest e (l, g) = (ap suc l, g)
answer-Serves (err s) h rest e (l, g) = (ap suc l, g)
answer-Serves panicked h rest e (l, g) = ground arith

module _ (vs : VsomeipApi) (order : IterOrder ℕ) where
  pub handle_command-Serves :
      (env : Environment) (cmd : TransportCommand) {h : Host}
      → IsHealthy h
      → Serves (handle_command vs order env cmd) h
  unfolding handle_command start_vsomeip_app_internal stop_vsomeip_app_internal
  handle_command-Serves env (register_listener src sink t handler name) {h} healthy =
      with_application (env.get_application name) healthy _ (λ a.
        Serves-Keeps healthy (register_listener_internal vs src sink t handler)
          (register-Keeps healthy vs src sink t handler))
  handle_command-Serves env (unregister_listener src sink t name) {h} healthy =
      with_application (env.get_application name) healthy _ (λ a.
        Serves-Keeps healthy (unregister_listener_internal vs src sink t)
          (unregister-Keeps healthy vs src sink t))
  handle_command-Serves env (send umsg t name) {h} healthy =
      with_application (env.get_application name) healthy _
        (λ a. Serves-Keeps healthy (send_internal vs a umsg) (send-Keeps healthy vs a umsg))
  handle_command-Serves env (start_vsomeip_app id name) {h} healthy =
      let (e, healthy') =
        create-Serves healthy order env.runtime name (is_some (env.get_application name)) in
      Serves-continue (create_app order env.runtime (is_some (env.get_application name)) name h).0 _
        _ e healthy' (λ a. (refl, healthy'))
  handle_command-Serves env (stop_vsomeip_app name) {h} healthy =
      Serves-Keeps healthy (stop_vsomeip_app_internal (is_some (env.get_application name)))
        (ground arith, ground arith, ground arith, ground arith)

  -- Where overflows are not checked, and the host starts with no poisoned lock and no free state
  -- handler that does not exist, the engine's loop replies to every command it is sent, whatever
  -- vsomeip answers, and the host stays like that.
  pub event_loop_replies :
      (cmds : List (Environment × TransportCommand)) (h : Host)
      → IsHealthy h
      → let (replies, end) = event_loop vs order cmds h in
        (length replies ≡ length cmds) × IsHealthy end
  unfolding event_loop
  event_loop_replies [] h healthy = (refl, healthy)
  event_loop_replies ((env, cmd) ∷ cmds) h healthy =
      let (e, healthy') = handle_command-Serves env cmd healthy in
      let rest = event_loop_replies cmds (handle_command vs order env cmd h).1 healthy' in
      answer-Serves (handle_command vs order env cmd h).0 _ _ e rest
