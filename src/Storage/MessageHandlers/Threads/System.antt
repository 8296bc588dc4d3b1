-- ===== src/Storage/MessageHandlers/Threads/System.antt =====
-- The threads with their locks, and the steps that they take in any order.
use up_transport_vsomeip_rus.Prelude.{
  ℕ, ◌≡◌, Bool, true, false, List, [], ◌∷◌, ◌++◌, ◌||◌, length, nat_beq, nat_eq, if◌then◌else◌,
}
use up_transport_vsomeip_rus.Collections.HashSet.{IterOrder, member}
use up_transport_vsomeip_rus.Collections.BiMap.{BiMap}
use up_transport_vsomeip_rus.Storage.MessageHandlers.Config.{ListenerConfig, config_eq}
use up_transport_vsomeip_rus.Storage.MessageHandlers.{Handlers}
use up_transport_vsomeip_rus.Storage.MessageHandlers.Threads.{
  transports, free_ids, configs, WriteCall, self_of, ReadCall, lock_of, Request, write, read, Reply,
  Stage, first, held, Next, goes_on, done, body, answer,
}

-- Where a thread stands: the number `k` is that of its call among those that have taken effect.
pub data Pc : Type 0 where
  idle : Pc
  -- it waits for a lock, and holds those before it
  wants_transports wants_free_ids wants_configs : WriteCall → Pc
  inside : (k : ℕ) → WriteCall → Stage → Pc
  wants_read may_read : ReadCall → Pc
  has_read : (k : ℕ) → ReadCall → Reply → Pc
  -- it has its reply, and these guards to drop
  leaves : (k : ℕ) → Request → List ℕ → Reply → Pc
  returned : (k : ℕ) → Request → Reply → Pc

-- whether a thread has a lock for writing
abbrev pub writes : Pc → ℕ → Bool
writes (wants_free_ids c) l = nat_beq l transports
writes (wants_configs c) l = nat_beq l transports || nat_beq l free_ids
writes (inside k c stage) l = member l (held (self_of c) stage)
writes (leaves k q guards r) l = member l guards
writes _ l = false

-- whether a thread has a lock for reading
abbrev pub reads : Pc → ℕ → Bool
reads (may_read c) l = nat_beq l (lock_of c)
reads (has_read k c r) l = nat_beq l (lock_of c)
reads _ l = false

abbrev pub rests : Pc → Bool
rests idle = true
rests (returned k q r) = true
rests _ = false

abbrev pub asks : Request → Pc
asks (write c) = wants_transports c
asks (read c) = wants_read c

abbrev pub next_pc : ℕ → WriteCall → Next → Pc
next_pc k c (goes_on stage) = inside k c stage
next_pc k c (done guards r) = leaves k (write c) guards r

pub record System (M : Type 0) : Type 0 where
  pub handlers : Handlers M
  pub pcs : ℕ → Pc
  -- the calls that have taken effect, in order: a writer's when it has its last lock
  pub entered : List Request

abbrev pub begin : {M : Type 0} → Handlers M → System M
begin w = record { handlers = w; pcs = λ n. idle; entered = [] }

abbrev pub set : ℕ → Pc → (ℕ → Pc) → ℕ → Pc
set n p pcs m = if nat_beq n m then p else pcs m

abbrev pub moves : {M : Type 0} → ℕ → Pc → System M → System M
moves n p s = record s { pcs = set n p s.pcs }

abbrev pub enters_with : {M : Type 0} → ℕ → Pc → Request → System M → System M
enters_with n p r s = record s { pcs = set n p s.pcs; entered = s.entered ++ r ∷ [] }

-- A lock is free for reading when nobody writes, and for writing when nobody reads either.
abbrev pub IsReadable : {M : Type 0} → System M → ℕ → Type 0
IsReadable s l = (m : ℕ) → writes (s.pcs m) l ≡ false

abbrev pub IsFree : {M : Type 0} → System M → ℕ → Type 0
IsFree s l = (m : ℕ) → (writes (s.pcs m) l ≡ false) × (reads (s.pcs m) l ≡ false)

module _ {M : Type 0} (bimap : BiMap ℕ ListenerConfig M) (order : IterOrder ℕ)
    (alive : ℕ → Bool) where
  unfoldable pub work : ℕ → ℕ → WriteCall → Stage → System M → System M
  work n k c stage s =
      let (next, w) = body bimap order (self_of c) stage s.handlers in
      record s { handlers = w; pcs = set n (next_pc k c next) s.pcs }

  unfoldable pub look : ℕ → ReadCall → System M → System M
  look n c s =
      enters_with n (has_read (length s.entered) c (answer bimap order alive c s.handlers)) (read c)
        s

  pub data Step (s : System M) : System M → Type 0 where
    calls : (n : ℕ) (request : Request) → rests (s.pcs n) ≡ true → Step s (moves n (asks request) s)
    locks_transports :
        (n : ℕ) (c : WriteCall)
        → s.pcs n ≡ wants_transports c
        → IsFree s transports
        → Step s (moves n (wants_free_ids c) s)
    locks_free_ids :
        (n : ℕ) (c : WriteCall)
        → s.pcs n ≡ wants_free_ids c
        → IsFree s free_ids
        → Step s (moves n (wants_configs c) s)
    locks_configs :
        (n : ℕ) (c : WriteCall)
        → s.pcs n ≡ wants_configs c
        → IsFree s (configs (self_of c))
        → Step s (enters_with n (inside (length s.entered) c (first c)) (write c) s)
    works :
        (n k : ℕ) (c : WriteCall) (stage : Stage)
        → s.pcs n ≡ inside k c stage
        → Step s (work n k c stage s)
    drops :
        (n k l : ℕ) (guards : List ℕ) (q : Request) (r : Reply)
        → s.pcs n ≡ leaves k q (l ∷ guards) r
        → Step s (moves n (leaves k q guards r) s)
    returns :
        (n k : ℕ) (q : Request) (r : Reply)
        → s.pcs n ≡ leaves k q [] r
        → Step s (moves n (returned k q r) s)
    locks_read :
        (n : ℕ) (c : ReadCall)
        → s.pcs n ≡ wants_read c
        → IsReadable s (lock_of c)
        → Step s (moves n (may_read c) s)
    looks : (n : ℕ) (c : ReadCall) → s.pcs n ≡ may_read c → Step s (look n c s)
    returns_read :
        (n k : ℕ) (c : ReadCall) (r : Reply)
        → s.pcs n ≡ has_read k c r
        → Step s (moves n (returned k (read c) r) s)

  pub data Reach (w : Handlers M) : System M → Type 0 where
    start : Reach w (begin w)
    later : {s t : System M} → Reach w s → Step s t → Reach w t
