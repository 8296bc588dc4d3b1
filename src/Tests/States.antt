-- ===== src/Tests/States.antt =====
-- The channels of the functions for the states of applications.
use up_transport_vsomeip_rus.Prelude.{◌≡◌, none, some, List, [], ◌∷◌}
use up_transport_vsomeip_rus.Storage.StateHandlers
use up_transport_vsomeip_rus.Storage.StateHandlers.{get_state_handler, call_state_handler}
use up_transport_vsomeip_rus.Storage.StateHandlers.Generated
use up_transport_vsomeip_rus.Storage.StateHandlers.Generated.{new_trait_obj}
use up_transport_vsomeip_rus.Storage.StateHandlers.Wiring.{
  Event, makes, calls, waits, Reply, nothing, waited, crash, happens_all, ideally, ideally_all,
  happens_all-ideally_all,
}

-- two states for one function, a registry between them; waits for it, for another function, and
-- for one that is not there
abbrev events : List Event
events =
    calls 3 1 ∷ makes ∷ calls 3 0 ∷ calls 1000 1 ∷ waits 3 ∷ waits 4 ∷ waits 3 ∷ waits 1000 ∷ []

abbrev replies : List Reply
replies =
    nothing
    ∷ nothing
    ∷ nothing
    ∷ nothing
    ∷ waited 3 (some 1)
    ∷ waited 4 none
    ∷ waited 3 (some 0)
    ∷ crash
    ∷ []

happens_all-ideally_all_example : happens_all events (new_trait_obj Generated.new) ≡ replies
unfolding ideally_all ideally get_state_handler call_state_handler StateHandlers.recv
    StateHandlers.new
happens_all-ideally_all_example = happens_all-ideally_all events
