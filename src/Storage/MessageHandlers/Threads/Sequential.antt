-- ===== src/Storage/MessageHandlers/Threads/Sequential.antt =====
-- The same calls, one after the other.
use up_transport_vsomeip_rus.Prelude.{
  Bool, ℕ, suc, ◌≡◌, refl, ap, List, [], ◌∷◌, ◌++◌, length, nat_eq,
}
use up_transport_vsomeip_rus.Collections.HashSet.{IterOrder}
use up_transport_vsomeip_rus.Collections.BiMap.{BiMap}
use up_transport_vsomeip_rus.Storage.MessageHandlers.Config.{ListenerConfig, config_eq}
use up_transport_vsomeip_rus.Storage.MessageHandlers.{Handlers}
use up_transport_vsomeip_rus.Storage.MessageHandlers.Threads.{Request, Reply, perform}

module _ {M : Type 0} (bimap : BiMap ℕ ListenerConfig M) (order : IterOrder ℕ)
    (alive : ℕ → Bool) where
  -- the replies to a sequence of calls, and what it leaves
  unfoldable pub replay : List Request → Handlers M → List Reply × Handlers M
  replay [] w = ([], w)
  replay (q ∷ qs) w =
      let (r, v) = perform bimap order alive q w in let (rs, u) = replay qs v in (r ∷ rs, u)

  pub replay-snoc :
      (qs : List Request) (q : Request) (w : Handlers M)
      → let (rs, v) = replay qs w in
        let (r, u) = perform bimap order alive q v in replay (qs ++ q ∷ []) w ≡ (rs ++ r ∷ [], u)
  unfolding replay
  replay-snoc [] q w = refl
  replay-snoc (p ∷ qs) q w =
      let (r, v) = perform bimap order alive p w in ap (λ x. (r ∷ x.0, x.1)) (replay-snoc qs q v)

  pub length-replay : (qs : List Request) (w : Handlers M) → length (replay qs w).0 ≡ length qs
  unfolding replay
  length-replay [] w = refl
  length-replay (q ∷ qs) w = ap suc (length-replay qs (perform bimap order alive q w).1)
