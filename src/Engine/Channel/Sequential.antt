-- ===== src/Engine/Channel/Sequential.antt =====
-- However callers, engine and arriving messages interleave, what comes of it is what comes of one
-- after the other.
use up_transport_vsomeip_rus.Prelude.{
  nth, nth-append, ℕ, ◌≤◌, ◌≡◌, ◌⊎◌, ◌∙◌, refl, sym, ap, true, false, some, List, [], ◌∷◌, ◌++◌,
  length, nat_eq, inl, inr, arith, nat_beq, Bool-cases,
}
use up_transport_vsomeip_rus.Collections.HashSet.{IterOrder}
use up_transport_vsomeip_rus.UProtocol.Status.{
  Result, ok, err, panicked, fail, internal, deadline_exceeded,
}
use up_transport_vsomeip_rus.UProtocol.{UpRust}
use up_transport_vsomeip_rus.Vsomeip.{VsomeipApi}
use up_transport_vsomeip_rus.Storage.{Host}
use up_transport_vsomeip_rus.Engine.{TransportCommand, Environment, handle_command, event_loop}
use up_transport_vsomeip_rus.Engine.Channel.{
  System, send_command, leave, round, take, arrive, Step, sends, arrives, takes, receives,
  finds_closed, times_out, Step, Reach, start, later,
}
use up_transport_vsomeip_rus.Engine.Channel.Happenings.{
  commands, replay, all_took, replay-event_loop,
}
use up_transport_vsomeip_rus.Engine.Channel.Rounds.{
  IsSequential, IsSequential-send_command, IsSequential-take, IsSequential-arrive,
}

module _ (up : UpRust) (vs : VsomeipApi) (order : IterOrder ℕ) where
  -- What a caller is left with: its reply, or an error that says that there was none.
  pub Explained : System → ℕ → Result (Unit {0}) → Type 0
  Explained s n r =
      (nth s.replies n ≡ some r)
      ⊎ ((r ≡ fail internal) × (s.running ≡ false))
      ⊎ (r ≡ fail deadline_exceeded)

  module _ (s : System) (env : Environment) (cmd : TransportCommand) (rest : List TransportCommand)
      (running : s.running ≡ true) where
    Explained-round :
        (n : ℕ) (r : Result (Unit {0})) (x : Result (Unit {0}) × Host)
        → Explained s n r
        → Explained (round env cmd rest s x) n r
    unfolding Explained
    Explained-round n r (ok a, h2) (inl e) = inl (nth-append s.replies (ok a ∷ []) n r e)
    Explained-round n r (err x, h2) (inl e) = inl (nth-append s.replies (err x ∷ []) n r e)
    Explained-round n r (panicked, h2) (inl e) = inl e
    Explained-round n r x (inr (inl (e, off))) = absurd (ground arith)
    Explained-round n r x (inr (inr e)) = inr (inr e)

    outcomes-round : (x : Result (Unit {0}) × Host) → (round env cmd rest s x).outcomes ≡ s.outcomes
    outcomes-round (ok a, h2) = refl
    outcomes-round (err y, h2) = refl
    outcomes-round (panicked, h2) = refl

    Explained-take :
        ((n : ℕ) (r : Result (Unit {0})) → s.outcomes n ≡ some r → Explained s n r)
        → (n : ℕ) (r : Result (Unit {0})) → (take up vs order env cmd rest s).outcomes n ≡ some r
        → Explained (take up vs order env cmd rest s) n r
    unfolding take
    Explained-take known n r e =
        let x = handle_command vs order env cmd s.host in
        Explained-round n r x (known n r (sym (ap (λ o. o n) (outcomes-round x)) ∙ e))

  Explained-leave :
      (s : System) (n m : ℕ) (r x : Result (Unit {0}))
      → ((k : ℕ) (y : Result (Unit {0})) → s.outcomes k ≡ some y → Explained s k y)
      → Explained s m x
      → (leave m x s).outcomes n ≡ some r
      → Explained (leave m x s) n r
  unfolding leave Explained
  Explained-leave s n m r x known why e = elim (Bool-cases (nat_beq m n)) [
    | inl same ↦
        let here : m ≡ n = ground arith in
        let left : x ≡ r = ground arith in rw (← left) (rw (← here) why)
    | inr other ↦ known n r (ground arith)
  ]

  -- what is known of a system that has come from its beginning
  pub record IsKnown (h : Host) (s : System) : Type 0 where
    pub sequential : IsSequential up vs order h s
    pub explained : (n : ℕ) (r : Result (Unit {0})) → s.outcomes n ≡ some r → Explained s n r

  left_behind :
      {h : Host} {s : System} (n : ℕ) (r : Result (Unit {0}))
      → IsKnown h s
      → Explained s n r
      → IsKnown h (leave n r s)
  unfolding leave
  left_behind {h} {s} n r k why =
      let q = k.sequential in
      record {
        sequential = record {
          computed = q.computed;
          in_order = q.in_order;
          complete = q.complete;
          stopped = q.stopped;
          bounded = q.bounded;
        };
        explained = λ m x e. Explained-leave s m n x r k.explained why e;
      }

  IsKnown-Step : {h : Host} {s t : System} → Step up vs order s t → IsKnown h s → IsKnown h t
  unfolding Explained send_command arrive
  IsKnown-Step {h} {s} (sends cmd running room) k = record {
    sequential = IsSequential-send_command up vs order h s cmd k.sequential running room;
    explained = k.explained;
  }
  IsKnown-Step {h} {s} (takes env cmd rest running first) k = record {
    sequential = IsSequential-take up vs order h s env cmd rest k.sequential running first;
    explained = Explained-take s env cmd rest running k.explained;
  }
  IsKnown-Step {h} {s} (arrives fresh msg) k = record {
    sequential = IsSequential-arrive up vs order h s fresh msg k.sequential;
    explained = k.explained;
  }
  IsKnown-Step (receives n r waits there) k = left_behind n r k (inl there)
  IsKnown-Step (finds_closed n waits known missing off) k =
      left_behind n (fail internal) k (inr (inl (refl, off)))
  IsKnown-Step (times_out n waits known missing) k =
      left_behind n (fail deadline_exceeded) k (inr (inr refl))

  pub reached : {h : Host} {s : System} → Reach up vs order h s → IsKnown h s
  unfolding replay
  reached start = record {
    sequential = record {
      computed = refl;
      in_order = refl;
      complete = λ on. (refl, refl);
      stopped = λ off. absurd (ground arith);
      bounded = omega arith;
    };
    explained = λ n r e. absurd (ground arith);
  }
  reached (later p step) = IsKnown-Step step (reached p)

  -- However any number of callers send their commands and stop waiting, whenever the engine takes
  -- one, and whenever a message arrives and is converted between two rounds of the engine: the host
  -- and the replies are those of a replay, from the beginning on, of the commands that were taken
  -- and the messages that arrived, one after the other; without messages a replay is a run of the
  -- engine's loop. The commands that were taken, those in the channel and those lost when the
  -- engine stopped are the commands that were sent, in the order in which they were sent. There are
  -- never more than 10000 in the channel.
  pub reach-replay :
      (h : Host) (s : System)
      → Reach up vs order h s
      → (replay up vs order s.happened h ≡ (s.replies, s.host))
        × ((cmds : List (Environment × TransportCommand))
            → replay up vs order (all_took up vs order cmds) h ≡ event_loop vs order cmds h)
        × (commands s.happened ++ (s.queue ++ s.lost) ≡ s.sent)
        × (length s.queue ≤ 10000)
  reach-replay h s p =
      let k = reached p in
      (
        k.sequential.computed,
        λ cmds. replay-event_loop up vs order cmds h,
        k.sequential.in_order,
        k.sequential.bounded,
      )

  -- However the callers interleave, and whichever messages arrive between the rounds of the engine:
  -- what a caller is left with is the reply that a replay of the commands that were taken and the
  -- messages that arrived, one after the other, has at the place of the caller's command; or the
  -- error INTERNAL, and the engine has stopped; or the error DEADLINE_EXCEEDED.
  pub outcomes-replay :
      (h : Host) (s : System) (n : ℕ) (r : Result (Unit {0}))
      → Reach up vs order h s
      → s.outcomes n ≡ some r
      → (nth (replay up vs order s.happened h).0 n ≡ some r)
        ⊎ ((r ≡ fail internal) × (s.running ≡ false))
        ⊎ (r ≡ fail deadline_exceeded)
  unfolding Explained
  outcomes-replay h s n r p e = let k = reached p in rw (k.sequential.computed) (k.explained n r e)
