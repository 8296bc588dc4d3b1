-- ===== src/Storage/MessageHandlers/Threads/Reading.antt =====
-- A reader that has its lock, and looks.
use up_transport_vsomeip_rus.Prelude.{
  ℕ, ◌≡◌, ◌∙◌, refl, ap, Bool, true, false, length, nat_beq, nat_eq, arith, Bool-cases, inl, inr,
}
use up_transport_vsomeip_rus.Collections.HashSet.{IterOrder}
use up_transport_vsomeip_rus.Collections.BiMap.{BiMap}
use up_transport_vsomeip_rus.Storage.MessageHandlers.Config.{ListenerConfig, config_eq}
use up_transport_vsomeip_rus.Storage.MessageHandlers.{
  Handlers, get_message_handler_ids, get_listener_config_for_message_handler_id,
  get_listener_for_message_handler_id,
}
use up_transport_vsomeip_rus.Storage.MessageHandlers.Threads.{
  transports, configs, WriteCall, self_of, ReadCall, transport_of, ids_of, config_of, listener_of,
  lock_of, read, Stage, answer, perform,
}
use up_transport_vsomeip_rus.Storage.MessageHandlers.Threads.System.{
  inside, may_read, has_read, writes, System, look,
}
use up_transport_vsomeip_rus.Storage.MessageHandlers.Threads.Body.{finish-others}
use up_transport_vsomeip_rus.Storage.MessageHandlers.Threads.Exclusion.{IsExclusive}
use up_transport_vsomeip_rus.Storage.MessageHandlers.Threads.Linking.{
  quiet, busy, Linked, enters-Linked, replayed, replayed-enters, last_reply, reply_stays,
}
use up_transport_vsomeip_rus.Storage.MessageHandlers.Threads.Writing.{inside_writes}

module _ {M : Type 0} (bimap : BiMap ℕ ListenerConfig M) (order : IterOrder ℕ) (alive : ℕ → Bool)
    (w : Handlers M) where
  abbrev Links : System M → Type 0
  Links = Linked bimap order alive w

  -- A reader has another lock than who is at work writes under.
  apart :
      (s : System M) (n m k : ℕ) (d : WriteCall) (stage : Stage) (c : ReadCall) (l : ℕ)
      → IsExclusive s.pcs
      → s.pcs n ≡ may_read c
      → s.pcs m ≡ inside k d stage
      → writes (s.pcs m) l ≡ true
      → nat_beq l (lock_of c) ≡ false
  apart s n m k d stage c l x at there own = elim (Bool-cases (nat_beq l (lock_of c))) [
    | inl same ↦ absurd (let meets = x l m n own (ground arith) in ground arith)
    | inr differs ↦ differs
  ]

  -- A reader's answer hangs on what its lock guards alone.
  same_answer :
      (c : ReadCall) (self : ℕ) (v u : Handlers M)
      → nat_beq transports (lock_of c) ≡ false
      → nat_beq (configs self) (lock_of c) ≡ false
      → ((other : ℕ)
          → nat_beq self other ≡ false
          → v.listener_configs other ≡ u.listener_configs other)
      → answer bimap order alive c v ≡ answer bimap order alive c u
  unfolding answer get_message_handler_ids get_listener_config_for_message_handler_id
      get_listener_for_message_handler_id
  same_answer (transport_of id) self v u not_first own others = absurd (ground arith)
  same_answer (ids_of other) self v u not_first own others =
      let same = others other (ground arith) in ground arith
  same_answer (config_of other id) self v u not_first own others =
      let same = others other (ground arith) in ground arith
  same_answer (listener_of other id) self v u not_first own others =
      let same = others other (ground arith) in ground arith

  -- A reader sees what it would see of the calls one after the other.
  answer_settled :
      (s : System M) (n : ℕ) (c : ReadCall)
      → IsExclusive s.pcs
      → s.pcs n ≡ may_read c
      → Links s
      → answer bimap order alive c (replayed bimap order alive w s).1
        ≡ answer bimap order alive c s.handlers
  answer_settled s n c x at l = elim l.settled [
    | quiet none_in e ↦ ap (answer bimap order alive c) e
    | busy m k d stage there alone r e ↦
        let (t, own) = inside_writes (s.pcs m) k d stage there in
        let others = finish-others bimap order (self_of d) stage s.handlers in
        rw (e) (
          same_answer c (self_of d) _ s.handlers (apart s n m k d stage c transports x at there t)
            (apart s n m k d stage c (configs (self_of d)) x at there own) others)
  ]

  pub looks-Linked :
      (s : System M) (n : ℕ) (c : ReadCall)
      → IsExclusive s.pcs
      → s.pcs n ≡ may_read c
      → Links s
      → Links (look bimap order alive n c s)
  unfolding look perform
  looks-Linked s n c x at l =
      let seen = answer_settled s n c x at l in
      let p = has_read (length s.entered) c (answer bimap order alive c s.handlers) in
      let last = last_reply bimap order alive w s n p (read c) in
      enters-Linked bimap order alive w s n p (read c) (λ k r h. ground arith) refl
        (elim l.settled [
          | quiet none_in e ↦
              quiet (λ m. let o = none_in m in ground arith)
                (ap (λ y. y.1) (replayed-enters bimap order alive w s n p (read c)) ∙ e)
          | busy m k d stage there alone r e ↦
              busy m k d stage (ground arith) (λ i away. let o = alone i away in ground arith)
                (reply_stays bimap order alive w s n p (read c) k _ r)
                (ap (λ y. y.1) (replayed-enters bimap order alive w s n p (read c)) ∙ e)
        ])
        l
