-- ===== src/Engine/Channel/Draining.antt =====
-- The engine serves every caller.
use up_transport_vsomeip_rus.Prelude.{
  nth, ℕ, zero, suc, ◌<◌, ◌≡◌, ◌∙◌, refl, sym, ap, true, some, List, [], ◌∷◌, ◌++◌, length, nat_eq,
  inl, inr, arith, Bool-cases,
}
use mathlib.Core.List.{append-nil}
use up_transport_vsomeip_rus.Collections.HashSet.{IterOrder}
use up_transport_vsomeip_rus.UProtocol.Status.{Result}
use up_transport_vsomeip_rus.UProtocol.{UpRust}
use up_transport_vsomeip_rus.Vsomeip.{VsomeipApi}
use up_transport_vsomeip_rus.Storage.{Host}
use up_transport_vsomeip_rus.Engine.{TransportCommand, Environment}
use up_transport_vsomeip_rus.Engine.Loop.{IsHealthy}
use up_transport_vsomeip_rus.Engine.Channel.{System, take, takes, Reach, later}
use up_transport_vsomeip_rus.Engine.Channel.Happenings.{commands}
use up_transport_vsomeip_rus.Engine.Channel.Arrivals.{replay_replies}
use up_transport_vsomeip_rus.Engine.Channel.Sequential.{reached}

nth_there : {A : Type 0} (xs : List A) (n : ℕ) → n < length xs → (x : A) × (nth xs n ≡ some x)
nth_there [] n h = absurd (omega arith)
nth_there (x ∷ xs) zero h = (x, refl)
nth_there (x ∷ xs) (suc n) h = nth_there xs n (omega arith)

module _ (up : UpRust) (vs : VsomeipApi) (order : IterOrder ℕ) where
  -- The engine takes what stands in the channel, one command after the other.
  abbrev pub drain : Environment → List TransportCommand → System → System
  drain env [] s = s
  drain env (cmd ∷ rest) s = drain env rest (take up vs order env cmd rest s)

  -- what a round leaves alone
  kept-take :
      (env : Environment) (cmd : TransportCommand) (rest : List TransportCommand) (s : System)
      → let t = take up vs order env cmd rest s in
        (t.sent ≡ s.sent) × (t.running ≡ true → t.queue ≡ rest)
  unfolding take
  kept-take env cmd rest s = (ground arith, λ on. ground arith)

  -- The engine of a healthy host runs on.
  runs :
      {h : Host} {s : System}
      → IsHealthy h
      → Reach up vs order h s
      → (s.running ≡ true) × (length s.replies ≡ length (commands s.happened)) × (s.lost ≡ [])
  runs {h} {s} healthy p =
      let q = (reached up vs order p).sequential in
      let (all_replied, after) = replay_replies up vs order s.happened h healthy in
      let replied : length s.replies ≡ length (commands s.happened) =
        ap (λ x. length x.0) (sym q.computed) ∙ all_replied in
      elim (Bool-cases s.running) [
        | inl on ↦ (on, (q.complete on).0, (q.complete on).1)
        | inr off ↦ let short = q.stopped off in absurd (omega (arith, short, replied))
      ]

  drained :
      (env : Environment) (queue : List TransportCommand) (h : Host) (s : System)
      → IsHealthy h
      → Reach up vs order h s
      → s.queue ≡ queue
      → let t = drain env queue s in
        Reach up vs order h t × (t.sent ≡ s.sent) × (length t.replies ≡ length t.sent)
  drained env [] h s healthy p e =
      let (on, replied, none_lost) = runs healthy p in
      let q = (reached up vs order p).sequential in
      let before = commands s.happened in
      let empty : s.queue ++ s.lost ≡ [] = rw (e) none_lost in
      (
        p,
        refl,
        replied
            ∙ ap length (sym (append-nil before))
            ∙ ap (λ l. length (before ++ l)) (sym empty)
            ∙ ap length q.in_order,
      )
  drained env (cmd ∷ rest) h s healthy p e =
      let t = take up vs order env cmd rest s in
      let p1 = later p (takes env cmd rest (runs healthy p).0 e) in
      let (same, shorter) = kept-take env cmd rest s in
      let (p2, sent, replied) = drained env rest h t healthy p1 (shorter (runs healthy p1).0) in
      (p2, sent ∙ same, replied)

  -- Where overflows are not checked, and the host starts with no poisoned lock and no free state
  -- handler that does not exist: in every state that callers, engine and arriving messages reach,
  -- however they interleave and whatever vsomeip answers, the engine runs; and when it then takes the commands
  -- that stand in the channel, every command that was sent has its reply in its return channel.
  pub drain_lem :
      (env : Environment) (h : Host) (s : System) (n : ℕ)
      → IsHealthy h
      → Reach up vs order h s
      → n < length s.sent
      → let t = drain env s.queue s in
        (s.running ≡ true)
        × Reach up vs order h t
        × ((r : Result (Unit {0})) × (nth t.replies n ≡ some r))
  drain_lem env h s n healthy p known =
      let (p1, sent, replied) = drained env s.queue h s healthy p refl in
      let t = drain env s.queue s in
      let many : n < length t.replies = rw (replied) (rw (sent) known) in
      ((runs healthy p).0, p1, nth_there t.replies n many)
