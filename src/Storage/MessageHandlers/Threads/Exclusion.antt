-- ===== src/Storage/MessageHandlers/Threads/Exclusion.antt =====
-- Two threads never have a lock at a time, when one of them writes.
use up_transport_vsomeip_rus.Prelude.{
  ℕ, ◌≡◌, Bool, true, false, ◌||◌, length, ◌⊎◌, inl, inr, nat_beq, nat_beq_iff, nat_eq, arith,
  Bool-cases,
}
use up_transport_vsomeip_rus.Collections.HashSet.{IterOrder, member}
use up_transport_vsomeip_rus.Collections.BiMap.{BiMap}
use up_transport_vsomeip_rus.Storage.MessageHandlers.Config.{ListenerConfig, config_eq}
use up_transport_vsomeip_rus.Storage.MessageHandlers.{
  Handlers, find_available_message_handler_id, insert_message_handler_id_transport,
  insert_message_handler_id_and_listener_config,
}
use up_transport_vsomeip_rus.Storage.MessageHandlers.Threads.{
  transports, free_ids, configs, WriteCall, gets, releases, self_of, lock_of, write, read, Stage,
  first, finding, mapping, adding, undoing, freeing, unmapping, looking, giving_back, forgetting,
  removing, held, body,
}
use up_transport_vsomeip_rus.Storage.MessageHandlers.Threads.System.{
  Pc, wants_configs, inside, writes, reads, next_pc, System, set, Step, calls, locks_transports,
  locks_free_ids, locks_configs, works, drops, returns, locks_read, looks, returns_read, work, look,
  Reach, start, later,
}

abbrev pub has : Pc → ℕ → Bool
has p l = writes p l || reads p l

abbrev pub IsExclusive : (ℕ → Pc) → Type 0
IsExclusive pcs = (l n m : ℕ) → writes (pcs n) l ≡ true → has (pcs m) l ≡ true → n ≡ m

-- A thread moves on: a lock that it has then it had before, or none of the others is in its way.
set-IsExclusive :
    (pcs : ℕ → Pc) (n : ℕ) (p : Pc)
    → ((l : ℕ) → writes p l ≡ true → (writes (pcs n) l ≡ true) ⊎ ((m : ℕ) → has (pcs m) l ≡ false))
    → ((l : ℕ) → has p l ≡ true → (has (pcs n) l ≡ true) ⊎ ((m : ℕ) → writes (pcs m) l ≡ false))
    → IsExclusive pcs
    → IsExclusive (set n p pcs)
set-IsExclusive pcs n p gains gains_read exclusive l a b w h = elim (Bool-cases (nat_beq n a)) [
  | inl e ↦ elim (Bool-cases (nat_beq n b)) [
    | inl f ↦ ground arith
    | inr f ↦ elim (gains l (ground arith)) [
      | inl had ↦ let x = exclusive l n b had (ground arith) in ground arith
      | inr nobody ↦ let x = nobody b in ground arith
    ]
  ]
  | inr e ↦ elim (Bool-cases (nat_beq n b)) [
    | inl f ↦ elim (gains_read l (ground arith)) [
      | inl had ↦ let x = exclusive l a n (ground arith) had in ground arith
      | inr nobody ↦ let x = nobody a in ground arith
    ]
    | inr f ↦ exclusive l a b (ground arith) (ground arith)
  ]
]

-- A thread that takes no lock.
drop-IsExclusive :
    (pcs : ℕ → Pc) (n : ℕ) (p : Pc)
    → ((l : ℕ) → writes p l ≡ true → writes (pcs n) l ≡ true)
    → ((l : ℕ) → has p l ≡ true → has (pcs n) l ≡ true)
    → IsExclusive pcs
    → IsExclusive (set n p pcs)
drop-IsExclusive pcs n p kept kept_read =
    set-IsExclusive pcs n p (λ l h. inl (kept l h)) (λ l h. inl (kept_read l h))

-- A thread that takes a lock which is free.
take-IsExclusive :
    (pcs : ℕ → Pc) (n taken : ℕ) (p : Pc)
    → ((m : ℕ) → (writes (pcs m) taken ≡ false) × (reads (pcs m) taken ≡ false))
    → ((l : ℕ) → writes p l ≡ true → (writes (pcs n) l ≡ true) ⊎ (l ≡ taken))
    → ((l : ℕ) → has p l ≡ true → (has (pcs n) l ≡ true) ⊎ (l ≡ taken))
    → IsExclusive pcs
    → IsExclusive (set n p pcs)
take-IsExclusive pcs n taken p free gains gains_read =
    set-IsExclusive pcs n p
      (λ l h. elim (gains l h) [
        | inl had ↦ inl had
        | inr e ↦ inr (λ m. let f = free m in rw e (ground arith))
      ])
      (λ l h. elim (gains_read l h) [ inl had ↦ inl had | inr e ↦ inr (λ m. rw e (free m).0) ])

-- A writer that enters has the lock of its registry, and the two before.
entering :
    (c : WriteCall) (p : Pc) (k l : ℕ)
    → p ≡ wants_configs c
    → writes (inside k c (first c)) l ≡ true
    → (writes p l ≡ true) ⊎ (l ≡ configs (self_of c))
entering (gets self c) p k l e h = ground arith
entering (releases self c) p k l e h = ground arith

module _ {M : Type 0} (bimap : BiMap ℕ ListenerConfig M) (order : IterOrder ℕ)
    (alive : ℕ → Bool) where
  -- the guards after a step of a writer are among those before
  held-body :
      (k : ℕ) (c : WriteCall) (stage : Stage) (w : Handlers M) (l : ℕ)
      → has (next_pc k c (body bimap order (self_of c) stage w).0) l ≡ true
      → member l (held (self_of c) stage) ≡ true
  unfolding body find_available_message_handler_id insert_message_handler_id_transport
      insert_message_handler_id_and_listener_config
  held-body k call (finding c) w l h = ground arith
  held-body k call (mapping c id) w l h = ground arith
  held-body k call (adding c id) w l h = ground arith
  held-body k call (undoing id) w l h = ground arith
  held-body k call (freeing e id) w l h = ground arith
  held-body k call (unmapping e id) w l h = ground arith
  held-body k call (looking c) w l h = ground arith
  held-body k call (giving_back id) w l h = ground arith
  held-body k call (forgetting id) w l h = ground arith
  held-body k call (removing id) w l h = ground arith

  Step-IsExclusive :
      {s t : System M} → Step bimap order alive s t → IsExclusive s.pcs → IsExclusive t.pcs
  unfolding work look
  Step-IsExclusive {s} (calls n (write c) rested) x =
      drop-IsExclusive s.pcs n _ (λ l h. ground arith) (λ l h. ground arith) x
  Step-IsExclusive {s} (calls n (read c) rested) x =
      drop-IsExclusive s.pcs n _ (λ l h. ground arith) (λ l h. ground arith) x
  Step-IsExclusive {s} (locks_transports n c e f) x =
      take-IsExclusive s.pcs n transports _ f (λ l h. ground arith) (λ l h. ground arith) x
  Step-IsExclusive {s} (locks_free_ids n c e f) x =
      take-IsExclusive s.pcs n free_ids _ f (λ l h. ground arith) (λ l h. ground arith) x
  Step-IsExclusive {s} (locks_configs n c e f) x =
      take-IsExclusive s.pcs n (configs (self_of c)) _ f
        (λ l h. entering c (s.pcs n) (length s.entered) l e h)
        (λ l h. let g = entering c (s.pcs n) (length s.entered) l e (ground arith) in ground arith)
        x
  Step-IsExclusive {s} (works n k c stage e) x =
      let kept = held-body k c stage s.handlers in
      drop-IsExclusive s.pcs n _ (λ l h. let g = kept l (ground arith) in ground arith)
        (λ l h. let g = kept l h in ground arith) x
  Step-IsExclusive {s} (drops n k l guards q r e) x =
      drop-IsExclusive s.pcs n _ (λ l h. ground arith) (λ l h. ground arith) x
  Step-IsExclusive {s} (returns n k q r e) x =
      drop-IsExclusive s.pcs n _ (λ l h. ground arith) (λ l h. ground arith) x
  Step-IsExclusive {s} (locks_read n c e f) x =
      set-IsExclusive s.pcs n _ (λ l h. ground arith)
        (λ l h. elim (Bool-cases (nat_beq l (lock_of c))) [
          | inl same ↦ inr (λ m. rw ((nat_beq_iff l (lock_of c)).0 same) (f m))
          | inr other ↦ inl (ground arith)
        ])
        x
  Step-IsExclusive {s} (looks n c e) x =
      drop-IsExclusive s.pcs n _ (λ l h. ground arith) (λ l h. ground arith) x
  Step-IsExclusive {s} (returns_read n k c r e) x =
      drop-IsExclusive s.pcs n _ (λ l h. ground arith) (λ l h. ground arith) x

  pub Reach-IsExclusive :
      {w : Handlers M} {s : System M} → Reach bimap order alive w s → IsExclusive s.pcs
  Reach-IsExclusive start = λ l n m w h. absurd (ground arith)
  Reach-IsExclusive (later r step) = Step-IsExclusive step (Reach-IsExclusive r)
