-- ===== src/Storage/MessageHandlers/Threads/Waiting.antt =====
-- Nobody waits for ever for a lock: who has it goes on, or waits for one that is had after it.
use up_transport_vsomeip_rus.Prelude.{
  ℕ, ◌≡◌, refl, Bool, true, false, ◌&&◌, Option, none, some, List, [], ◌∷◌, ◌⊎◌, inl, inr, nat_beq,
  nat_eq, arith, Bool-cases, if◌then◌else◌,
}
use up_transport_vsomeip_rus.Collections.HashSet.{IterOrder, member}
use up_transport_vsomeip_rus.Collections.BiMap.{BiMap, is_some}
use up_transport_vsomeip_rus.Storage.MessageHandlers.Config.{ListenerConfig, config_eq}
use up_transport_vsomeip_rus.Storage.MessageHandlers.{
  Handlers, find_available_message_handler_id, insert_message_handler_id_transport,
  insert_message_handler_id_and_listener_config,
}
use up_transport_vsomeip_rus.Storage.MessageHandlers.Threads.{
  transports, free_ids, configs, WriteCall, self_of, ReadCall, transport_of, ids_of, config_of,
  listener_of, lock_of, Stage, finding, mapping, adding, undoing, freeing, unmapping, looking,
  giving_back, forgetting, removing, held, body, write, read,
}
use up_transport_vsomeip_rus.Storage.MessageHandlers.Threads.System.{
  Pc, idle, wants_transports, wants_free_ids, wants_configs, inside, wants_read, may_read, has_read,
  leaves, returned, writes, reads, next_pc, System, IsFree, Step, calls, locks_transports,
  locks_free_ids, locks_configs, works, drops, returns, locks_read, looks, returns_read, work, look,
  Reach, start, later,
}
use up_transport_vsomeip_rus.Storage.MessageHandlers.Threads.Exclusion.{has, Reach-IsExclusive}

-- the lock that a thread waits for
abbrev pub wanted : Pc → Option ℕ
wanted (wants_transports c) = some transports
wanted (wants_free_ids c) = some free_ids
wanted (wants_configs c) = some (configs (self_of c))
wanted (wants_read c) = some (lock_of c)
wanted _ = none

-- Guards of which that of the free functions is never dropped after that of the transports.
abbrev nested : List ℕ → Bool
nested [] = true
nested (l ∷ guards) =
    (if member free_ids (l ∷ guards) then member transports guards else true) && nested guards

abbrev is_nested : Pc → Bool
is_nested (leaves k q guards r) = nested guards
is_nested _ = true

-- A registry's lock is the last that is taken.
last_lock : (p : Pc) (self : ℕ) → has p (configs self) && is_some (wanted p) ≡ false
last_lock idle self = ground arith
last_lock (wants_transports c) self = ground arith
last_lock (wants_free_ids c) self = ground arith
last_lock (wants_configs c) self = ground arith
last_lock (inside j c stage) self = ground arith
last_lock (wants_read c) self = ground arith
last_lock (may_read c) self = ground arith
last_lock (has_read j c a) self = ground arith
last_lock (leaves j q guards a) self = ground arith
last_lock (returned j q a) self = ground arith

other_lock : (c : ReadCall) → nat_beq free_ids (lock_of c) ≡ false
other_lock (transport_of id) = refl
other_lock (ids_of self) = ground arith
other_lock (config_of self id) = ground arith
other_lock (listener_of self id) = ground arith

reads-free_ids : (p : Pc) → reads p free_ids ≡ false
reads-free_ids idle = refl
reads-free_ids (wants_transports c) = refl
reads-free_ids (wants_free_ids c) = refl
reads-free_ids (wants_configs c) = refl
reads-free_ids (inside j c stage) = refl
reads-free_ids (wants_read c) = refl
reads-free_ids (may_read c) = other_lock c
reads-free_ids (has_read j c a) = other_lock c
reads-free_ids (leaves j q guards a) = refl
reads-free_ids (returned j q a) = refl

guards-transports :
    (guards : List ℕ)
    → nested guards ≡ true
    → member free_ids guards ≡ true
    → member transports guards ≡ true
guards-transports [] nest h = absurd (ground arith)
guards-transports (l ∷ guards) nest h = ground arith

held-transports : (self : ℕ) (stage : Stage) → member transports (held self stage) ≡ true
held-transports self (finding c) = refl
held-transports self (mapping c id) = refl
held-transports self (adding c id) = refl
held-transports self (undoing id) = refl
held-transports self (freeing e id) = refl
held-transports self (unmapping e id) = refl
held-transports self (looking c) = refl
held-transports self (giving_back id) = refl
held-transports self (forgetting id) = refl
held-transports self (removing id) = refl

writes-transports :
    (p : Pc) → is_nested p ≡ true → writes p free_ids ≡ true → writes p transports ≡ true
writes-transports idle nest h = absurd (ground arith)
writes-transports (wants_transports c) nest h = absurd (ground arith)
writes-transports (wants_free_ids c) nest h = refl
writes-transports (wants_configs c) nest h = refl
writes-transports (inside j c stage) nest h = held-transports (self_of c) stage
writes-transports (wants_read c) nest h = absurd (ground arith)
writes-transports (may_read c) nest h = absurd (ground arith)
writes-transports (has_read j c a) nest h = absurd (ground arith)
writes-transports (leaves j q guards a) nest h = guards-transports guards nest h
writes-transports (returned j q a) nest h = absurd (ground arith)

module _ {M : Type 0} (bimap : BiMap ℕ ListenerConfig M) (order : IterOrder ℕ)
    (alive : ℕ → Bool) where
  nested-body :
      (k : ℕ) (c : WriteCall) (stage : Stage) (w : Handlers M)
      → is_nested (next_pc k c (body bimap order (self_of c) stage w).0) ≡ true
  unfolding body find_available_message_handler_id insert_message_handler_id_transport
      insert_message_handler_id_and_listener_config
  nested-body k call (finding c) w = ground arith
  nested-body k call (mapping c id) w = ground arith
  nested-body k call (adding c id) w = ground arith
  nested-body k call (undoing id) w = ground arith
  nested-body k call (freeing e id) w = ground arith
  nested-body k call (unmapping e id) w = ground arith
  nested-body k call (looking c) w = ground arith
  nested-body k call (giving_back id) w = ground arith
  nested-body k call (forgetting id) w = ground arith
  nested-body k call (removing id) w = ground arith

  Step-nested :
      {s t : System M}
      → Step bimap order alive s t
      → ((m : ℕ) → is_nested (s.pcs m) ≡ true)
      → (m : ℕ) → is_nested (t.pcs m) ≡ true
  unfolding work look
  Step-nested {s} (calls n (write c) rested) h m = let g = h m in ground arith
  Step-nested {s} (calls n (read c) rested) h m = let g = h m in ground arith
  Step-nested {s} (locks_transports n c e f) h m = let g = h m in ground arith
  Step-nested {s} (locks_free_ids n c e f) h m = let g = h m in ground arith
  Step-nested {s} (locks_configs n c e f) h m = let g = h m in ground arith
  Step-nested {s} (works n k c stage e) h m =
      let g = h m in let b = nested-body k c stage s.handlers in ground arith
  Step-nested {s} (drops n k l guards q r e) h m = let g = h m in let own = h n in ground arith
  Step-nested {s} (returns n k q r e) h m = let g = h m in ground arith
  Step-nested {s} (locks_read n c e f) h m = let g = h m in ground arith
  Step-nested {s} (looks n c e) h m = let g = h m in ground arith
  Step-nested {s} (returns_read n k c r e) h m = let g = h m in ground arith

  Reach-nested :
      {w : Handlers M} {s : System M}
      → Reach bimap order alive w s
      → (m : ℕ) → is_nested (s.pcs m) ≡ true
  Reach-nested start = λ m. refl
  Reach-nested (later r step) = Step-nested step (Reach-nested r)

  -- While a thread waits for the lock of the free functions, nobody has it.
  wants_free_ids-IsFree :
      {w : Handlers M} {s : System M} (c : WriteCall) (k : ℕ)
      → Reach bimap order alive w s
      → s.pcs k ≡ wants_free_ids c
      → IsFree s free_ids
  wants_free_ids-IsFree {w} {s} c k reach at m = elim (Bool-cases (writes (s.pcs m) free_ids)) [
    | inl h ↦
        let first = writes-transports (s.pcs m) (Reach-nested reach m) h in
        let same = Reach-IsExclusive bimap order alive reach transports m k first (ground arith) in
        absurd (ground arith)
    | inr h ↦ (h, reads-free_ids (s.pcs m))
  ]

  -- Where a thread has a lock that another waits for: it waits for none itself; or it waits for
  -- that of the free functions, which nobody has; or for that of a registry, and nobody who has
  -- this one waits.
  pub no_deadlock :
      {w : Handlers M} {s : System M}
      → Reach bimap order alive w s
      → (n k l : ℕ) → wanted (s.pcs n) ≡ some l
      → has (s.pcs k) l ≡ true
      → (wanted (s.pcs k) ≡ none)
        ⊎ ((wanted (s.pcs k) ≡ some free_ids) × IsFree s free_ids)
        ⊎ ((self : ℕ) × (wanted (s.pcs k) ≡ some (configs self))
            × ((m : ℕ) → has (s.pcs m) (configs self) && is_some (wanted (s.pcs m)) ≡ false))
  no_deadlock {w} {s} reach n k l want h = holder (s.pcs k) refl
    where
      holder :
          (p : Pc)
          → s.pcs k ≡ p
          → (wanted (s.pcs k) ≡ none)
            ⊎ ((wanted (s.pcs k) ≡ some free_ids) × IsFree s free_ids)
            ⊎ ((self : ℕ) × (wanted (s.pcs k) ≡ some (configs self))
                × ((m : ℕ) → has (s.pcs m) (configs self) && is_some (wanted (s.pcs m)) ≡ false))
      holder idle at = inl (ground arith)
      holder (wants_transports c) at = absurd (ground arith)
      holder (wants_free_ids c) at = inr (inl (ground arith, wants_free_ids-IsFree c k reach at))
      holder (wants_configs c) at =
          inr (inr (self_of c, ground arith, λ m. last_lock (s.pcs m) (self_of c)))
      holder (inside j c stage) at = inl (ground arith)
      holder (wants_read c) at = absurd (ground arith)
      holder (may_read c) at = inl (ground arith)
      holder (has_read j c a) at = inl (ground arith)
      holder (leaves j q guards a) at = inl (ground arith)
      holder (returned j q a) at = inl (ground arith)
