-- ===== src/Storage/MessageHandlers/Histories.antt =====
-- What holds after any history of calls, from the start of the process on.
use up_transport_vsomeip_rus.Prelude.{ℕ, zero, suc, ◌≡◌, List, [], ◌∷◌, arith, ltb, nat_eq}
use up_transport_vsomeip_rus.Collections.HashMap.{get-empty}
use up_transport_vsomeip_rus.Collections.HashSet
use up_transport_vsomeip_rus.Collections.HashSet.{IterOrder, contains-insert, contains-empty}
use up_transport_vsomeip_rus.Collections.BiMap.{BiMap}
use up_transport_vsomeip_rus.Storage.MessageHandlers.Config.{ListenerConfig, config_eq}
use up_transport_vsomeip_rus.Storage.MessageHandlers.Consistency.{IsConsistent}
use up_transport_vsomeip_rus.Storage.MessageHandlers.Preservation.{
  get_message_handler-IsConsistent, release_message_handler-IsConsistent,
}
use up_transport_vsomeip_rus.Storage.MessageHandlers.{
  Handlers, new, num_message_handlers, ids_below, get_message_handler, release_message_handler,
}

pub contains-ids_below : (n j : ℕ) → HashSet.contains (ids_below n) j ≡ ltb j n
unfolding ids_below
contains-ids_below zero j = ground (arith, contains-empty {A = ℕ} j)
contains-ids_below (suc n) j =
    ground (arith, contains-insert (ids_below n) n j, contains-ids_below n j)

-- A call by the transport whose storage has the number.
pub data Call : Type 0 where
  get release : ℕ → ListenerConfig → Call

module _ {M : Type 0} (bimap : BiMap ℕ ListenerConfig M) where
  pub new-IsConsistent : IsConsistent bimap (new bimap)
  unfolding new
  new-IsConsistent = record {
    free =
        λ j. ground (arith, contains-ids_below num_message_handlers j, get-empty {K = ℕ} {V = ℕ} j);
    held = λ j s h. ground (arith, get-empty {K = ℕ} {V = ℕ} j);
    owned = λ j s h. ground (arith, bimap.get_by_left-new j);
  }

  module _ (order : IterOrder ℕ) where
    unfoldable pub step : Handlers M → Call → Handlers M
    step w (get self config) = (get_message_handler bimap order self self config w).1
    step w (release self config) = (release_message_handler bimap self config w).1

    unfoldable pub run : Handlers M → List Call → Handlers M
    unfolding step
    run w [] = w
    run w (call ∷ calls) = run (step w call) calls

    run-IsConsistent_from :
        (calls : List Call) (w : Handlers M)
        → IsConsistent bimap w
        → IsConsistent bimap (run w calls)
    unfolding run
    run-IsConsistent_from [] w c = c
    run-IsConsistent_from (get self config ∷ calls) w c =
        run-IsConsistent_from calls _ (get_message_handler-IsConsistent bimap order self config c)
    run-IsConsistent_from (release self config ∷ calls) w c =
        run-IsConsistent_from calls _ (release_message_handler-IsConsistent bimap self config c)

    -- After any calls by any transports, successful or not, each of the 10000 functions is either
    -- free or mapped to one transport, that transport has a listener for it, and no transport has
    -- a listener for a function that is not mapped to it.
    pub run-IsConsistent : (calls : List Call) → IsConsistent bimap (run (new bimap) calls)
    run-IsConsistent calls = run-IsConsistent_from calls (new bimap) new-IsConsistent
