-- ===== src/Storage/MessageHandlers/Threads/Outcomes.antt =====
-- What a thread is left with, and what all threads leave.
use up_transport_vsomeip_rus.Prelude.{
  nth, ℕ, zero, suc, ◌≡◌, refl, sym, Bool, true, false, some, List, [], ◌∷◌, nat_eq, arith,
}
use up_transport_vsomeip_rus.Collections.HashSet.{IterOrder}
use up_transport_vsomeip_rus.Collections.BiMap.{BiMap}
use up_transport_vsomeip_rus.UProtocol.Status.{panicked}
use up_transport_vsomeip_rus.Storage.MessageHandlers.Config.{ListenerConfig, config_eq}
use up_transport_vsomeip_rus.Storage.MessageHandlers.{Handlers, release_message_handler}
use up_transport_vsomeip_rus.Storage.MessageHandlers.Consistency.{IsConsistent}
use up_transport_vsomeip_rus.Storage.MessageHandlers.Preservation.{
  get_message_handler-IsConsistent, release_message_handler-IsConsistent,
}
use up_transport_vsomeip_rus.Storage.MessageHandlers.Outcomes.{get_message_handler-Answers}
use up_transport_vsomeip_rus.Storage.MessageHandlers.Threads.{
  gets, releases, transport_of, ids_of, config_of, listener_of, Request, write, read, Reply, got,
  released, answer, perform, perform_write,
}
use up_transport_vsomeip_rus.Storage.MessageHandlers.Threads.System.{
  Pc, idle, wants_transports, wants_free_ids, wants_configs, inside, wants_read, may_read, has_read,
  leaves, returned, System, Reach,
}
use up_transport_vsomeip_rus.Storage.MessageHandlers.Threads.Sequential.{replay}
use up_transport_vsomeip_rus.Storage.MessageHandlers.Threads.Linking.{
  is_inside, call_of, reply_of, quiet, busy,
}
use up_transport_vsomeip_rus.Storage.MessageHandlers.Threads.Linearisation.{Reach-Linked}

-- A function that panics poisons its locks.
abbrev pub panics : Reply → Bool
panics (got panicked) = true
panics (released panicked) = true
panics _ = false

-- who has a reply has a call that took effect
call_of_reply :
    (p : Pc) (k : ℕ) (r : Reply)
    → reply_of p ≡ some (k, r)
    → (q : Request) × (call_of p ≡ some (k, q))
call_of_reply idle k r e = absurd (ground arith)
call_of_reply (wants_transports c) k r e = absurd (ground arith)
call_of_reply (wants_free_ids c) k r e = absurd (ground arith)
call_of_reply (wants_configs c) k r e = absurd (ground arith)
call_of_reply (inside j c stage) k r e = absurd (ground arith)
call_of_reply (wants_read c) k r e = absurd (ground arith)
call_of_reply (may_read c) k r e = absurd (ground arith)
call_of_reply (has_read j c a) k r e = (read c, ground arith)
call_of_reply (leaves j q guards a) k r e = (q, ground arith)
call_of_reply (returned j q a) k r e = (q, ground arith)

module _ {M : Type 0} (bimap : BiMap ℕ ListenerConfig M) (order : IterOrder ℕ)
    (alive : ℕ → Bool) where
  panics-released :
      (self : ℕ) (c : ListenerConfig) (w : Handlers M)
      → panics (released (release_message_handler bimap self c w).0) ≡ false
  unfolding release_message_handler
  panics-released self c w = ground arith

  perform-IsConsistent :
      (q : Request) (w : Handlers M)
      → IsConsistent bimap w
      → IsConsistent bimap (perform bimap order alive q w).1
        × (panics (perform bimap order alive q w).0 ≡ false)
  unfolding perform perform_write answer
  perform-IsConsistent (write (gets self c)) w h =
      let (a, e, _) = get_message_handler-Answers bimap self c h order alive in
      (get_message_handler-IsConsistent bimap order self c h, rw e (ground arith))
  perform-IsConsistent (write (releases self c)) w h =
      (release_message_handler-IsConsistent bimap self c h, panics-released self c w)
  perform-IsConsistent (read (transport_of id)) w h = (h, refl)
  perform-IsConsistent (read (ids_of self)) w h = (h, refl)
  perform-IsConsistent (read (config_of self id)) w h = (h, refl)
  perform-IsConsistent (read (listener_of self id)) w h = (h, refl)

  replay-IsConsistent :
      (qs : List Request) (w : Handlers M)
      → IsConsistent bimap w
      → IsConsistent bimap (replay bimap order alive qs w).1
  unfolding replay
  replay-IsConsistent [] w h = h
  replay-IsConsistent (q ∷ qs) w h = replay-IsConsistent qs _ (perform-IsConsistent q w h).0

  panics-replay :
      (qs : List Request) (w : Handlers M) (k : ℕ) (r : Reply)
      → IsConsistent bimap w
      → nth (replay bimap order alive qs w).0 k ≡ some r
      → panics r ≡ false
  unfolding replay
  panics-replay [] w k r h e = absurd (ground arith)
  panics-replay (q ∷ qs) w zero r h e = let calm = (perform-IsConsistent q w h).1 in ground arith
  panics-replay (q ∷ qs) w (suc k) r h e = panics-replay qs _ k r (perform-IsConsistent q w h).0 e

  module _ {w : Handlers M} (consistent : IsConsistent bimap w) {s : System M}
      (reach : Reach bimap order alive w s) where
    -- However the threads take their steps: a thread that has a reply has that of its own call,
    -- where the calls that have taken effect are made one after the other, in this order; and it
    -- is not a panic, so that no lock is poisoned.
    pub reply_of-replay :
        (n k : ℕ) (r : Reply)
        → reply_of (s.pcs n) ≡ some (k, r)
        → (q : Request) × (call_of (s.pcs n) ≡ some (k, q))
          × (nth s.entered k ≡ some q)
          × (nth (replay bimap order alive s.entered w).0 k ≡ some r)
          × (panics r ≡ false)
    reply_of-replay n k r e =
        let l = Reach-Linked bimap order alive w reach in
        let (q, called) = call_of_reply (s.pcs n) k r e in
        let replied = l.answered n k r e in
        (q, called, l.asked n k q called, replied, panics-replay s.entered w k r consistent replied)

    -- Whenever no thread is between its last lock and the end of its work, the handlers are those
    -- of the calls one after the other, and consistent.
    pub handlers-replay :
        ((m : ℕ) → is_inside (s.pcs m) ≡ false)
        → (s.handlers ≡ (replay bimap order alive s.entered w).1) × IsConsistent bimap s.handlers
    handlers-replay nobody = elim (Reach-Linked bimap order alive w reach).settled [
      | quiet none_in e ↦ (sym e, rw (sym e) (replay-IsConsistent s.entered w consistent))
      | busy n k c stage at alone r e ↦ absurd (let o = nobody n in ground arith)
    ]
