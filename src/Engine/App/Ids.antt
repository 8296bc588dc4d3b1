-- ===== src/Engine/App/Ids.antt =====
-- What becomes of the extern function that waits for an application to start.
use up_transport_vsomeip_rus.Prelude.{
  ℕ, ◌∙◌, Bool-cases, ◌≡◌, refl, Bool, true, false, Option, none, some, String, List, [], ◌∷◌,
  arith, nat_eq, ◌==◌, if◌then◌else◌, inl, inr, Option-cases, ◌<◌, ◌⊎◌, ◌&&◌, not, ◌++◌, length,
  ltb,
}
use up_transport_vsomeip_rus.Collections.HashSet
use up_transport_vsomeip_rus.Collections.HashSet.{IterOrder, contains-insert, contains-remove}
use up_transport_vsomeip_rus.Collections.BiMap.{is_some}
use up_transport_vsomeip_rus.UProtocol.Status.{ok, fail, internal}
use up_transport_vsomeip_rus.Storage.{Host}
use up_transport_vsomeip_rus.Storage.StateHandlers.{
  num_state_handlers, call_state_handler, recv, StateHandlers,
}
use up_transport_vsomeip_rus.Engine.App.{Runtime, create_app, deliver, wait}

-- the functions that are free for the next application
abbrev pub is_free : Host → ℕ → Bool
is_free h id = HashSet.contains h.state_handlers.free_ids id

free-deliver :
    (id : ℕ) (states : List ℕ) (s : StateHandlers) → (deliver id states s).free_ids ≡ s.free_ids
unfolding call_state_handler
free-deliver id [] s = refl
free-deliver id (state ∷ states) s = free-deliver id states (call_state_handler id state s)

-- whether no state stands in a channel, or was reported
abbrev pub none_of : List ℕ → Bool
none_of [] = true
none_of (x ∷ xs) = false

none_of-put :
    (received : List ℕ) (state : ℕ)
    → none_of (if ltb (length received) 1000 then received ++ state ∷ [] else received) ≡ false
none_of-put [] state = refl
none_of-put (x ∷ xs) state = ground arith

none_of-call_state_handler :
    (id state : ℕ) (s : StateHandlers)
    → none_of ((call_state_handler id state s).received id) ≡ false
unfolding call_state_handler
none_of-call_state_handler id state s = ground (arith, none_of-put (s.received id) state)

none_of-deliver :
    (id : ℕ) (states : List ℕ) (s : StateHandlers)
    → none_of ((deliver id states s).received id) ≡ (none_of (s.received id) && none_of states)
none_of-deliver id [] s = ground arith
none_of-deliver id (state ∷ states) s =
    let there = none_of-call_state_handler id state s in
    let rest = none_of-deliver id states (call_state_handler id state s) in
    ground (arith, there, rest)

-- whether a state ends the wait for one: in the channel already, or reported before the wait, or in
-- time
abbrev pub comes : Runtime → List ℕ → Bool
comes env received = not (none_of received && none_of env.early && not (is_some env.in_time))

is_some-wait :
    (in_time : Option ℕ) (id : ℕ) (s : StateHandlers)
    → is_some (wait in_time id s).0 ≡ not (none_of (s.received id) && not (is_some in_time))
unfolding wait recv call_state_handler
is_some-wait in_time id s = ground arith

free-wait :
    (in_time : Option ℕ) (id : ℕ) (s : StateHandlers) → (wait in_time id s).1.free_ids ≡ s.free_ids
unfolding wait recv call_state_handler
free-wait in_time id s = ground arith

module _ (order : IterOrder ℕ) (env : Runtime) (name : String) (h : Host) (id : ℕ)
    (chosen : order.next h.state_handlers.free_ids ≡ some id)
    (exists : id < num_state_handlers) where
  -- the handlers without the chosen function, and what the wait for a state comes to
  abbrev begun : StateHandlers
  begun = record h.state_handlers { free_ids = HashSet.remove h.state_handlers.free_ids id }

  abbrev waited : Option ℕ × StateHandlers
  waited = wait env.in_time id (deliver id env.early begun)

  free-waited : waited.1.free_ids ≡ HashSet.remove h.state_handlers.free_ids id
  free-waited =
      free-wait env.in_time id (deliver id env.early begun) ∙ free-deliver id env.early begun

  comes-waited : is_some waited.0 ≡ comes env (h.state_handlers.received id)
  comes-waited = ground (
    arith,
    is_some-wait env.in_time id (deliver id env.early begun),
    none_of-deliver id env.early begun,
  )

  create_app_started :
      (state : ℕ)
      → env.creates ≡ true
      → waited.0 ≡ some state
      → let (r, h') = create_app order env false name h in
        (r ≡ ok tt)
        × (h'.state_handlers.free_ids
            ≡ (HashSet.insert (HashSet.remove h.state_handlers.free_ids id) id).0)
  unfolding create_app
  create_app_started state e w =
      (ground arith, ground (arith, free-deliver id env.late waited.1, free-waited))

  create_app_silent :
      env.creates ≡ true
      → waited.0 ≡ none
      → let (r, h') = create_app order env false name h in
        (r ≡ fail internal)
        × (h'.state_handlers.free_ids ≡ HashSet.remove h.state_handlers.free_ids id)
  unfolding create_app
  create_app_silent e w = (ground arith, ground (arith, free-waited))

  create_app_missing :
      env.creates ≡ false
      → let (r, h') = create_app order env false name h in
        (r ≡ fail internal)
        × (h'.state_handlers.free_ids ≡ HashSet.remove h.state_handlers.free_ids id)
  unfolding create_app
  create_app_missing e = (ground arith, ground arith)

  kept :
      (j : ℕ)
      → HashSet.contains (HashSet.insert (HashSet.remove h.state_handlers.free_ids id) id).0 j
        ≡ is_free h j
  kept j = ground (
    arith,
    order.next-some h.state_handlers.free_ids id chosen,
    contains-insert (HashSet.remove h.state_handlers.free_ids id) id j,
    contains-remove h.state_handlers.free_ids id j,
  )

  abbrev Lost : Host → Type 0
  Lost h' =
      (is_free h id ≡ true) × ((j : ℕ) → is_free h' j ≡ (if id == j then false else is_free h j))

  loses :
      (h' : Host)
      → h'.state_handlers.free_ids ≡ HashSet.remove h.state_handlers.free_ids id
      → Lost h'
  loses h' e = (
    order.next-some h.state_handlers.free_ids id chosen,
    λ j. rw e (contains-remove h.state_handlers.free_ids id j),
  )

  -- Where a function is free, an application is created that does not exist yet. If the runtime
  -- creates one, and a state ends the wait, because it stands in the channel of the function, was
  -- reported before the wait or is reported in time: this succeeds, and the same functions are free
  -- as before. If it creates none, or there is no such state: this fails with INTERNAL, and the
  -- chosen function is free no more.
  pub create_app_ids :
      let (r, h') = create_app order env false name h in
      let starts = env.creates && comes env (h.state_handlers.received id) in
      ((starts ≡ true) × (r ≡ ok tt) × ((j : ℕ) → is_free h' j ≡ is_free h j))
      ⊎ ((starts ≡ false)
          × (r ≡ fail internal)
          × (is_free h id ≡ true)
          × ((j : ℕ) → is_free h' j ≡ (if id == j then false else is_free h j)))
  create_app_ids = elim (Bool-cases env.creates) [
    | inl e ↦ elim (Option-cases waited.0) [
      | inl w ↦
          let (r, free) = create_app_silent e w in
          let (was, now) = loses (create_app order env false name h).1 free in
          inr (ground (arith, comes-waited, w), r, was, now)
      | inr (state, w) ↦
          let (r, free) = create_app_started state e w in
          inl (ground (arith, comes-waited, w), r, λ j. rw free (kept j))
    ]
    | inr e ↦
        let (r, free) = create_app_missing e in
        let (was, now) = loses (create_app order env false name h).1 free in
        inr (ground arith, r, was, now)
  ]
