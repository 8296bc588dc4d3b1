-- ===== src/Storage/MessageHandlers/Threads/Writing.antt =====
-- A writer that takes its last lock, and its steps until its work is done.
use up_transport_vsomeip_rus.Prelude.{
  nth, ℕ, ◌≡◌, ◌∙◌, refl, sym, ap, Bool, true, false, some, length, nat_beq, nat_eq, arith,
  Bool-cases, inl, inr,
}
use up_transport_vsomeip_rus.Collections.HashSet.{IterOrder}
use up_transport_vsomeip_rus.Collections.BiMap.{BiMap}
use up_transport_vsomeip_rus.Storage.MessageHandlers.Config.{ListenerConfig, config_eq}
use up_transport_vsomeip_rus.Storage.MessageHandlers.{Handlers}
use up_transport_vsomeip_rus.Storage.MessageHandlers.Threads.{
  transports, configs, WriteCall, self_of, write, Stage, first, finding, mapping, adding, undoing,
  freeing, unmapping, looking, giving_back, forgetting, removing, Next, goes_on, done, body,
  perform, perform_write,
}
use up_transport_vsomeip_rus.Storage.MessageHandlers.Threads.System.{
  Pc, wants_configs, inside, writes, next_pc, System, enters_with, set, work,
}
use up_transport_vsomeip_rus.Storage.MessageHandlers.Threads.Body.{
  finish, finish-body, finish-first,
}
use up_transport_vsomeip_rus.Storage.MessageHandlers.Threads.Exclusion.{has, IsExclusive}
use up_transport_vsomeip_rus.Storage.MessageHandlers.Threads.Linking.{
  is_inside, quiet, busy, Linked, enters-Linked, replayed, replayed-enters, last_reply,
}

-- who is at work may write under the first lock, and under that of its registry
pub inside_writes :
    (p : Pc) (k : ℕ) (c : WriteCall) (stage : Stage)
    → p ≡ inside k c stage
    → (writes p transports ≡ true) × (writes p (configs (self_of c)) ≡ true)
inside_writes p k c (unmapping f id) e = (ground arith, ground arith)
inside_writes p k c (finding g) e = (ground arith, ground arith)
inside_writes p k c (mapping g id) e = (ground arith, ground arith)
inside_writes p k c (adding g id) e = (ground arith, ground arith)
inside_writes p k c (undoing id) e = (ground arith, ground arith)
inside_writes p k c (freeing f id) e = (ground arith, ground arith)
inside_writes p k c (looking g) e = (ground arith, ground arith)
inside_writes p k c (giving_back id) e = (ground arith, ground arith)
inside_writes p k c (forgetting id) e = (ground arith, ground arith)
inside_writes p k c (removing id) e = (ground arith, ground arith)

module _ {M : Type 0} (bimap : BiMap ℕ ListenerConfig M) (order : IterOrder ℕ) (alive : ℕ → Bool)
    (w : Handlers M) where
  abbrev Links : System M → Type 0
  Links = Linked bimap order alive w

  -- Whoever has the first lock and is not at work knows that nobody is.
  nobody_inside :
      (s : System M) (n : ℕ)
      → IsExclusive s.pcs
      → has (s.pcs n) transports ≡ true
      → is_inside (s.pcs n) ≡ false
      → Links s
      → ((m : ℕ) → is_inside (s.pcs m) ≡ false) × ((replayed bimap order alive w s).1 ≡ s.handlers)
  nobody_inside s n x h out l = elim l.settled [
    | quiet none_in e ↦ (none_in, e)
    | busy m k c stage at alone r e ↦
        let (t, _) = inside_writes (s.pcs m) k c stage at in
        let same = x transports m n t h in absurd (ground arith)
  ]

  pub locks_configs-Linked :
      (s : System M) (n : ℕ) (c : WriteCall)
      → IsExclusive s.pcs
      → s.pcs n ≡ wants_configs c
      → Links s
      → Links (enters_with n (inside (length s.entered) c (first c)) (write c) s)
  unfolding perform
  locks_configs-Linked s n c x at l =
      let p = inside (length s.entered) c (first c) in
      let (none_in, v) = nobody_inside s n x (ground arith) (ground arith) l in
      enters-Linked bimap order alive w s n p (write c) (λ k r h. absurd (ground arith)) refl
        (busy n (length s.entered) c (first c) (ground arith)
          (λ m d. let o = none_in m in ground arith)
          (last_reply bimap order alive w s n p (write c)
            ∙ ap (λ u. some (perform_write bimap order c u).0) v
            ∙ sym (ap (λ y. some y.0) (finish-first bimap order c s.handlers)))
          (ap (λ y. y.1) (replayed-enters bimap order alive w s n p (write c))
            ∙ ap (λ u. (perform_write bimap order c u).1) v
            ∙ sym (ap (λ y. y.1) (finish-first bimap order c s.handlers))))
        l

  -- Who is at work is alone in this, and what becomes of it is known.
  at_work :
      (s : System M) (n k : ℕ) (c : WriteCall) (stage : Stage)
      → s.pcs n ≡ inside k c stage
      → Links s
      → ((m : ℕ) → nat_beq n m ≡ false → is_inside (s.pcs m) ≡ false)
        × (nth (replayed bimap order alive w s).0 k
            ≡ some (finish bimap order (self_of c) (goes_on stage, s.handlers)).0)
        × ((replayed bimap order alive w s).1
            ≡ (finish bimap order (self_of c) (goes_on stage, s.handlers)).1)
  at_work s n k c stage at l = elim l.settled [
    | quiet none_in e ↦ absurd (let o = none_in n in ground arith)
    | busy m j d other there alone r e ↦ elim (Bool-cases (nat_beq m n)) [
      | inl same ↦
          let first_is : k ≡ j = ground arith in
          let call_is : c ≡ d = ground arith in
          let stage_is : stage ≡ other = ground arith in
          (
            λ i away. alone i (ground arith),
            rw (first_is, call_is, stage_is) r,
            rw (call_is, stage_is) e,
          )
      | inr differs ↦ absurd (let o = alone n differs in ground arith)
    ]
  ]

  -- The step of a writer leads to `x`, of which it comes to the same.
  worked :
      (s : System M) (n k : ℕ) (c : WriteCall) (stage : Stage) (x : Next × Handlers M)
      → s.pcs n ≡ inside k c stage
      → finish bimap order (self_of c) x
        ≡ finish bimap order (self_of c) (goes_on stage, s.handlers)
      → Links s
      → Links (record s { handlers = x.1; pcs = set n (next_pc k c x.0) s.pcs })
  unfolding finish
  worked s n k c stage (goes_on next, v) at same l =
      let (alone, r, e) = at_work s n k c stage at l in
      record {
        settled =
            busy n k c next (ground arith) (λ m d. let o = alone m d in ground arith)
              (r ∙ ap (λ y. some y.0) (sym same)) (e ∙ ap (λ y. y.1) (sym same));
        answered = λ m j a h. elim (Bool-cases (nat_beq n m)) [
          | inl here ↦ absurd (ground arith)
          | inr there ↦ l.answered m j a (ground arith)
        ];
        asked = λ m j q h. elim (Bool-cases (nat_beq n m)) [
          | inl here ↦ l.asked n j q (ground arith)
          | inr there ↦ l.asked m j q (ground arith)
        ];
      }
  worked s n k c stage (done guards reply, v) at same l =
      let (alone, r, e) = at_work s n k c stage at l in
      let mine = r ∙ ap (λ y. some y.0) (sym same) in
      record {
        settled =
            quiet
              (λ m. elim (Bool-cases (nat_beq n m)) [
                | inl here ↦ ground arith
                | inr there ↦ let o = alone m there in ground arith
              ])
              (e ∙ ap (λ y. y.1) (sym same));
        answered = λ m j a h. elim (Bool-cases (nat_beq n m)) [
          | inl here ↦ ground (arith, mine)
          | inr there ↦ l.answered m j a (ground arith)
        ];
        asked = λ m j q h. elim (Bool-cases (nat_beq n m)) [
          | inl here ↦ l.asked n j q (ground arith)
          | inr there ↦ l.asked m j q (ground arith)
        ];
      }

  pub works-Linked :
      (s : System M) (n k : ℕ) (c : WriteCall) (stage : Stage)
      → s.pcs n ≡ inside k c stage
      → Links s
      → Links (work bimap order alive n k c stage s)
  unfolding work
  works-Linked s n k c stage at l =
      worked s n k c stage (body bimap order (self_of c) stage s.handlers) at
        (finish-body bimap order (self_of c) stage s.handlers) l
