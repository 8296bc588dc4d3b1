-- ===== src/Engine/App/StaleStates.antt =====
-- A state that an application has reported, and that nobody has read, is read by the next one.
use up_transport_vsomeip_rus.Prelude.{
  ℕ, ◌≡◌, ◌<◌, true, false, Option, none, some, String, List, [], ◌∷◌, arith, nat_eq,
}
use up_transport_vsomeip_rus.Collections.HashSet.{IterOrder}
use up_transport_vsomeip_rus.UProtocol.Status.{ok, fail, internal}
use up_transport_vsomeip_rus.Storage.{Host}
use up_transport_vsomeip_rus.Storage.StateHandlers.{num_state_handlers, call_state_handler, recv}
use up_transport_vsomeip_rus.Engine.App.{Runtime, create_app, wait}

-- a runtime that creates the application, which reports these states while the engine waits for
-- one, and after that
abbrev pub reporting : Option ℕ → List ℕ → Runtime
reporting in_time late = record { creates = true; early = []; in_time = in_time; late = late }

-- one that reports nothing
abbrev pub silent : Runtime
silent = reporting none []

-- the host after an application that has reported one state in time and another after it
abbrev pub after_two : IterOrder ℕ → String → (first second : ℕ) → Host → Host
after_two order name first second h =
    (create_app order (reporting (some first) (second ∷ [])) false name h).1

module _ (order : IterOrder ℕ) (id : ℕ) (exists : id < num_state_handlers) where
  -- a state in the channel of the chosen function is enough
  create_app_waiting :
      (h : Host) (name : String) (state : ℕ)
      → order.next h.state_handlers.free_ids ≡ some id
      → h.state_handlers.received id ≡ state ∷ []
      → (create_app order silent false name h).0 ≡ ok tt
  unfolding create_app wait recv
  create_app_waiting h name state chosen waiting = ground arith

  module _ (h : Host) (chosen : order.next h.state_handlers.free_ids ≡ some id)
      (empty : h.state_handlers.received id ≡ []) where
    create_app_twice :
        (name : String) (first second : ℕ)
        → let (r, after) = create_app order (reporting (some first) (second ∷ [])) false name h in
          (r ≡ ok tt) × (after.state_handlers.received id ≡ second ∷ [])
    unfolding create_app wait recv call_state_handler
    create_app_twice name first second = (ground arith, ground arith)

    create_app_unreported :
        (name : String) → (create_app order silent false name h).0 ≡ fail internal
    unfolding create_app wait recv
    create_app_unreported name = ground arith

    -- Where the channel of the chosen function is empty, creating an application that reports no
    -- state before the wait is over fails. But after another that has reported a state in time and
    -- a second one between the end of the wait and the unregistration of its handler, whichever
    -- they are, and while the same function is chosen again, it succeeds: the second state is taken
    -- for its own.
    pub create_app_stale :
        (name other : String) (first second : ℕ)
        → order.next (after_two order name first second h).state_handlers.free_ids ≡ some id
        → ((create_app order silent false other h).0 ≡ fail internal)
          × ((create_app order (reporting (some first) (second ∷ [])) false name h).0 ≡ ok tt)
          × ((create_app order silent false other (after_two order name first second h)).0 ≡ ok tt)
    create_app_stale name other first second again =
        let (r, left) = create_app_twice name first second in
        (
          create_app_unreported other,
          r,
          create_app_waiting (after_two order name first second h) other second again left,
        )
