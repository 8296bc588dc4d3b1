-- ===== src/Engine/Channel/Rounds.antt =====
-- A message that arrives, a command that is sent, and one that is taken leave what has been done
-- what comes of all that has happened.
use up_transport_vsomeip_rus.Prelude.{
  length-snoc, ℕ, suc, ◌≤◌, ◌<◌, ◌≡◌, ◌∙◌, sym, ap, true, false, List, [], ◌∷◌, ◌++◌, length,
  nat_eq, arith,
}
use mathlib.Core.List.{append_assoc, append-nil}
use up_transport_vsomeip_rus.Collections.HashSet.{IterOrder}
use up_transport_vsomeip_rus.UProtocol.Status.{Result, ok, err, panicked}
use up_transport_vsomeip_rus.UProtocol.{Uuid, UpRust}
use up_transport_vsomeip_rus.Vsomeip.{VsomeipMessage, VsomeipApi}
use up_transport_vsomeip_rus.Storage.{Host}
use up_transport_vsomeip_rus.Engine.{TransportCommand, Environment, handle_command}
use up_transport_vsomeip_rus.Engine.Channel.{capacity, System, send_command, round, take, arrive}
use up_transport_vsomeip_rus.Engine.Channel.Happenings.{Happening, took, commands, receive, replay}
use up_transport_vsomeip_rus.Engine.Channel.Snoc.{
  put, commands-took, commands-arrived, replay-took, replay-arrived,
}

module _ (up : UpRust) (vs : VsomeipApi) (order : IterOrder ℕ) where
  -- What the engine has done is what comes of all that has happened, one after the other.
  pub record IsSequential (h : Host) (s : System) : Type 0 where
    pub computed : replay up vs order s.happened h ≡ (s.replies, s.host)
    pub in_order : commands s.happened ++ (s.queue ++ s.lost) ≡ s.sent
    pub complete :
        s.running ≡ true → (length s.replies ≡ length (commands s.happened)) × (s.lost ≡ [])
    -- the last command that was taken has no reply
    pub stopped : s.running ≡ false → suc (length s.replies) ≡ length (commands s.happened)
    pub bounded : length s.queue ≤ capacity

  pub IsSequential-send_command :
      (h : Host) (s : System) (cmd : TransportCommand)
      → IsSequential h s
      → s.running ≡ true
      → length s.queue < capacity
      → IsSequential h (send_command cmd s)
  unfolding send_command
  IsSequential-send_command h s cmd q running room = record {
    computed = q.computed;
    in_order =
        let (_, none_lost) = q.complete running in
        let before = commands s.happened in
        ap (λ l. before ++ ((s.queue ++ cmd ∷ []) ++ l)) none_lost
        ∙ ap (λ l. before ++ l) (append-nil (s.queue ++ cmd ∷ []))
        ∙ sym (append_assoc before s.queue (cmd ∷ []))
        ∙ ap (λ l. l ++ cmd ∷ [])
            (sym (ap (λ l. before ++ l) (ap (λ l. s.queue ++ l) none_lost ∙ append-nil s.queue))
              ∙ q.in_order);
    complete = q.complete;
    stopped = q.stopped;
    bounded = let longer = length-snoc s.queue cmd in ground (arith, longer);
  }

  -- the command at hand comes after those that were taken
  taken_next :
      (es : List Happening) (env : Environment) (cmd : TransportCommand)
      (rest : List TransportCommand)
      → commands (es ++ took env cmd ∷ []) ++ rest ≡ commands es ++ cmd ∷ rest
  taken_next es env cmd rest =
      ap (λ l. l ++ rest) (commands-took es env cmd) ∙ append_assoc (commands es) (cmd ∷ []) rest

  module _ (h : Host) (s : System) (env : Environment) (cmd : TransportCommand)
      (rest : List TransportCommand) (q : IsSequential h s) (running : s.running ≡ true)
      (first : s.queue ≡ cmd ∷ rest) where
    many : length (commands (s.happened ++ took env cmd ∷ [])) ≡ suc (length (commands s.happened))
    many = ap length (commands-took s.happened env cmd) ∙ length-snoc (commands s.happened) cmd

    order_kept : commands (s.happened ++ took env cmd ∷ []) ++ (rest ++ s.lost) ≡ s.sent
    order_kept =
        taken_next s.happened env cmd (rest ++ s.lost)
        ∙ ap (λ l. commands s.happened ++ (l ++ s.lost)) (sym first)
        ∙ q.in_order

    shorter : length rest ≤ capacity
    shorter =
        let all : length s.queue ≡ suc (length rest) = ap length first in
        let room = q.bounded in omega (arith, all, room)

    one_more :
        (r : Result (Unit {0}))
        → length (s.replies ++ r ∷ []) ≡ length (commands (s.happened ++ took env cmd ∷ []))
    one_more r = length-snoc s.replies r ∙ ap suc (q.complete running).0 ∙ sym many

    IsSequential-round :
        (x : Result (Unit {0}) × Host)
        → replay up vs order (s.happened ++ took env cmd ∷ []) h ≡ (put x.0 s.replies, x.1)
        → IsSequential h (round env cmd rest s x)
    IsSequential-round (ok a, h2) e = record {
      computed = e;
      in_order = order_kept;
      complete = λ on. (one_more (ok a), (q.complete on).1);
      stopped = λ off. absurd (ground arith);
      bounded = shorter;
    }
    IsSequential-round (err x, h2) e = record {
      computed = e;
      in_order = order_kept;
      complete = λ on. (one_more (err x), (q.complete on).1);
      stopped = λ off. absurd (ground arith);
      bounded = shorter;
    }
    IsSequential-round (panicked, h2) e = record {
      computed = e;
      in_order =
          ap (λ l. commands (s.happened ++ took env cmd ∷ []) ++ l)
            (sym (ap (λ l. rest ++ l) (q.complete running).1 ∙ append-nil rest))
          ∙ order_kept;
      complete = λ on. absurd (ground arith);
      stopped = λ off. ap suc (q.complete running).0 ∙ sym many;
      bounded = omega arith;
    }

    pub IsSequential-take : IsSequential h (take up vs order env cmd rest s)
    unfolding take
    IsSequential-take =
        let all_replied = ap (λ x. length x.0) q.computed ∙ (q.complete running).0 in
        IsSequential-round (handle_command vs order env cmd s.host) (
          replay-took up vs order s.happened env cmd h all_replied
          ∙ ap
              (λ x. (
                put (handle_command vs order env cmd x.1).0 x.0,
                (handle_command vs order env cmd x.1).1,
              ))
              q.computed)

  pub IsSequential-arrive :
      (h : Host) (s : System) (fresh : Uuid) (msg : VsomeipMessage)
      → IsSequential h s
      → IsSequential h (arrive up vs fresh msg s)
  unfolding arrive
  IsSequential-arrive h s fresh msg q =
      let same = commands-arrived s.happened fresh msg in
      record {
        computed =
            replay-arrived up vs order s.happened fresh msg h
            ∙ ap (λ x. (x.0, receive up vs fresh msg x.1)) q.computed;
        in_order = ap (λ l. l ++ (s.queue ++ s.lost)) same ∙ q.in_order;
        complete = λ on. ((q.complete on).0 ∙ ap length (sym same), (q.complete on).1);
        stopped = λ off. q.stopped off ∙ ap length (sym same);
        bounded = q.bounded;
      }
