-- ===== src/Storage/MessageHandlers/Threads/Linking.antt =====
-- What the threads have come to is what their calls come to one after the other.
use up_transport_vsomeip_rus.Prelude.{
  nth, nth-append, nth-last, ℕ, ◌≡◌, Bool, true, false, Option, none, some, List, [], ◌∷◌, ◌++◌,
  length, nat_beq, nat_eq, arith, Bool-cases, inl, inr,
}
use up_transport_vsomeip_rus.Collections.HashSet.{IterOrder}
use up_transport_vsomeip_rus.Collections.BiMap.{BiMap}
use up_transport_vsomeip_rus.Storage.MessageHandlers.Config.{ListenerConfig, config_eq}
use up_transport_vsomeip_rus.Storage.MessageHandlers.{Handlers}
use up_transport_vsomeip_rus.Storage.MessageHandlers.Threads.{
  WriteCall, self_of, Request, write, read, Reply, Stage, goes_on, perform,
}
use up_transport_vsomeip_rus.Storage.MessageHandlers.Threads.System.{
  Pc, inside, has_read, leaves, returned, System, moves, enters_with,
}
use up_transport_vsomeip_rus.Storage.MessageHandlers.Threads.Body.{finish}
use up_transport_vsomeip_rus.Storage.MessageHandlers.Threads.Sequential.{
  replay, replay-snoc, length-replay,
}

abbrev pub is_inside : Pc → Bool
is_inside (inside k c stage) = true
is_inside _ = false

-- the call of a thread that has taken effect, and the reply that is known
abbrev pub call_of : Pc → Option (ℕ × Request)
call_of (inside k c stage) = some (k, write c)
call_of (has_read k c r) = some (k, read c)
call_of (leaves k q guards r) = some (k, q)
call_of (returned k q r) = some (k, q)
call_of _ = none

abbrev pub reply_of : Pc → Option (ℕ × Reply)
reply_of (has_read k c r) = some (k, r)
reply_of (leaves k q guards r) = some (k, r)
reply_of (returned k q r) = some (k, r)
reply_of _ = none

module _ {M : Type 0} (bimap : BiMap ℕ ListenerConfig M) (order : IterOrder ℕ) (alive : ℕ → Bool)
    (w : Handlers M) where
  abbrev pub replayed : System M → List Reply × Handlers M
  replayed s = replay bimap order alive s.entered w

  -- Nobody is at work, and the handlers are those of the calls one after the other; or one thread
  -- is, and when it is done they will be.
  pub data Settled (s : System M) : Type 0 where
    quiet : ((m : ℕ) → is_inside (s.pcs m) ≡ false) → (replayed s).1 ≡ s.handlers → Settled s
    busy :
        (n k : ℕ) (c : WriteCall) (stage : Stage)
        → s.pcs n ≡ inside k c stage
        → ((m : ℕ) → nat_beq n m ≡ false → is_inside (s.pcs m) ≡ false)
        → nth (replayed s).0 k ≡ some (finish bimap order (self_of c) (goes_on stage, s.handlers)).0
        → (replayed s).1 ≡ (finish bimap order (self_of c) (goes_on stage, s.handlers)).1
        → Settled s

  pub record Linked (s : System M) : Type 0 where
    pub settled : Settled s
    -- a thread that has a reply has that of its call one after the other
    pub answered :
        (n k : ℕ) (r : Reply) → reply_of (s.pcs n) ≡ some (k, r) → nth (replayed s).0 k ≡ some r
    pub asked : (n k : ℕ) (q : Request) → call_of (s.pcs n) ≡ some (k, q) → nth s.entered k ≡ some q

  -- A thread that is not at work moves on, and has no reply that it had not before.
  pub moves-Linked :
      (s : System M) (n : ℕ) (p : Pc)
      → is_inside (s.pcs n) ≡ false
      → is_inside p ≡ false
      → ((k : ℕ) (r : Reply) → reply_of p ≡ some (k, r) → reply_of (s.pcs n) ≡ some (k, r))
      → ((k : ℕ) (q : Request) → call_of p ≡ some (k, q) → call_of (s.pcs n) ≡ some (k, q))
      → Linked s
      → Linked (moves n p s)
  moves-Linked s n p out out' kept kept_call l = record {
    settled = elim l.settled [
      | quiet none_in e ↦ quiet (λ m. let h = none_in m in ground arith) e
      | busy m k c stage at alone r e ↦
          busy m k c stage (ground arith) (λ j d. let h = alone j d in ground arith) r e
    ];
    answered = λ m k r h. elim (Bool-cases (nat_beq n m)) [
      | inl e ↦ l.answered n k r (kept k r (ground arith))
      | inr e ↦ l.answered m k r (ground arith)
    ];
    asked = λ m k q h. elim (Bool-cases (nat_beq n m)) [
      | inl e ↦ l.asked n k q (kept_call k q (ground arith))
      | inr e ↦ l.asked m k q (ground arith)
    ];
  }

  -- A thread moves on to where it has no reply and no call that has taken effect.
  pub waits-Linked :
      (s : System M) (n : ℕ) (p : Pc)
      → is_inside (s.pcs n) ≡ false
      → is_inside p ≡ false
      → reply_of p ≡ none
      → call_of p ≡ none
      → Linked s
      → Linked (moves n p s)
  waits-Linked s n p out out' no_reply no_call =
      moves-Linked s n p out out' (λ k r h. absurd (ground arith)) (λ k q h. absurd (ground arith))

  pub replayed-enters :
      (s : System M) (n : ℕ) (p : Pc) (q : Request)
      → replayed (enters_with n p q s) ≡ (
        (replayed s).0 ++ (perform bimap order alive q (replayed s).1).0 ∷ [],
        (perform bimap order alive q (replayed s).1).1,
      )
  replayed-enters s n p q = replay-snoc bimap order alive s.entered q w

  pub last_reply :
      (s : System M) (n : ℕ) (p : Pc) (q : Request)
      → nth (replayed (enters_with n p q s)).0 (length s.entered)
        ≡ some (perform bimap order alive q (replayed s).1).0
  last_reply s n p q =
      rw (replayed-enters s n p q, ← length-replay bimap order alive s.entered w)
        (nth-last (replayed s).0 (perform bimap order alive q (replayed s).1).0)

  pub reply_stays :
      (s : System M) (n : ℕ) (p : Pc) (q : Request) (k : ℕ) (r : Reply)
      → nth (replayed s).0 k ≡ some r
      → nth (replayed (enters_with n p q s)).0 k ≡ some r
  reply_stays s n p q k r e = rw (replayed-enters s n p q) (nth-append (replayed s).0 _ k r e)

  -- A call takes effect.
  pub enters-Linked :
      (s : System M) (n : ℕ) (p : Pc) (q : Request)
      → ((k : ℕ) (r : Reply)
          → reply_of p ≡ some (k, r)
          → nth (replayed (enters_with n p q s)).0 k ≡ some r)
      → call_of p ≡ some (length s.entered, q)
      → Settled (enters_with n p q s)
      → Linked s
      → Linked (enters_with n p q s)
  enters-Linked s n p q mine called settled l = record {
    settled = settled;
    answered = λ m k r h. elim (Bool-cases (nat_beq n m)) [
      | inl e ↦ mine k r (ground arith)
      | inr e ↦ reply_stays s n p q k r (l.answered m k r (ground arith))
    ];
    asked = λ m k q' h. elim (Bool-cases (nat_beq n m)) [
      | inl e ↦ let last = nth-last s.entered q in ground arith
      | inr e ↦ nth-append s.entered _ k q' (l.asked m k q' (ground arith))
    ];
  }
