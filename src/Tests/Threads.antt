-- ===== src/Tests/Threads.antt =====
-- Three threads that call the registry of message handlers.
use up_transport_vsomeip_rus.Prelude.{
  ℕ, ◌≡◌, refl, Bool, true, false, ◌&&◌, none, some, ◌⊎◌, nth, nat_eq, arith,
}
use up_transport_vsomeip_rus.Collections.BiMap.{is_some}
use up_transport_vsomeip_rus.Collections.BiMap.Right.{get_by_right-new}
use up_transport_vsomeip_rus.Collections.BiMap.Pairs.{Pairs}
use up_transport_vsomeip_rus.Collections.HashSet.{newest_first}
use up_transport_vsomeip_rus.UProtocol.Status.{fail, not_found}
use up_transport_vsomeip_rus.Storage.MessageHandlers.{Handlers, new}
use up_transport_vsomeip_rus.Storage.MessageHandlers.Config.{ListenerConfig, config_eq}
use up_transport_vsomeip_rus.Storage.MessageHandlers.Consistency.{IsConsistent}
use up_transport_vsomeip_rus.Storage.MessageHandlers.Histories.{new-IsConsistent}
use up_transport_vsomeip_rus.Storage.MessageHandlers.Threads.{
  configs, free_ids, WriteCall, releases, ids_of, Request, write, read, Reply, released, looking,
  body, answer,
}
use up_transport_vsomeip_rus.Storage.MessageHandlers.Threads.System.{
  System, begin, moves, enters_with, wants_read, may_read, wants_transports, wants_free_ids,
  wants_configs, inside, returned, Reach, start, later, calls, locks_transports, locks_free_ids,
  locks_configs, works, locks_read, looks, returns_read, work, look, IsFree,
}
use up_transport_vsomeip_rus.Storage.MessageHandlers.Threads.Linking.{call_of, reply_of, is_inside}
use up_transport_vsomeip_rus.Storage.MessageHandlers.Threads.Sequential.{replay}
use up_transport_vsomeip_rus.Storage.MessageHandlers.Threads.Exclusion.{has}
use up_transport_vsomeip_rus.Storage.MessageHandlers.Threads.Outcomes.{
  panics, reply_of-replay, handlers-replay,
}
use up_transport_vsomeip_rus.Storage.MessageHandlers.Threads.Waiting.{wanted, no_deadlock}
use up_transport_vsomeip_rus.Tests.Data.{config_map, config}

abbrev alive : ℕ → Bool
alive s = true

abbrev handlers : Handlers (Pairs ℕ ListenerConfig)
handlers = new config_map

abbrev Reaches : System (Pairs ℕ ListenerConfig) → Type 0
Reaches = Reach config_map newest_first alive handlers

abbrev release_call : WriteCall
release_call = releases 1 config

abbrev reading : System (Pairs ℕ ListenerConfig)
reading = moves 0 (may_read (ids_of 1)) (moves 0 (wants_read (ids_of 1)) (begin handlers))

-- Thread 0 may look into registry 1; thread 1 has the first two locks, and wants that of registry 1.
abbrev waiting : System (Pairs ℕ ListenerConfig)
waiting =
    moves 1 (wants_configs release_call)
      (moves 1 (wants_free_ids release_call) (moves 1 (wants_transports release_call) reading))

reading-Reaches : Reaches reading
reading-Reaches =
    later (later start (calls 0 (read (ids_of 1)) refl))
      (locks_read 0 (ids_of 1) refl (λ m. ground arith))

waiting-Reaches : Reaches waiting
waiting-Reaches =
    later
      (later (later reading-Reaches (calls 1 (write release_call) refl))
        (locks_transports 1 release_call refl (λ m. (ground arith, ground arith))))
      (locks_free_ids 1 release_call refl (λ m. (ground arith, ground arith)))

no_deadlock_example :
    (wanted (waiting.pcs 0) ≡ none)
    ⊎ ((wanted (waiting.pcs 0) ≡ some free_ids) × IsFree waiting free_ids)
    ⊎ ((self : ℕ) × (wanted (waiting.pcs 0) ≡ some (configs self))
        × ((m : ℕ)
            → has (waiting.pcs m) (configs self) && is_some (wanted (waiting.pcs m)) ≡ false))
no_deadlock_example =
    no_deadlock config_map newest_first alive waiting-Reaches 1 0 (configs 1) refl refl

-- Thread 0 has looked and is done, and thread 1 has found that there is nothing to release.
abbrev looked : System (Pairs ℕ ListenerConfig)
looked = look config_map newest_first alive 0 (ids_of 1) waiting

abbrev seen : Reply
seen = answer config_map newest_first alive (ids_of 1) handlers

abbrev entered : System (Pairs ℕ ListenerConfig)
entered =
    enters_with 1 (inside 1 release_call (looking config)) (write release_call)
      (moves 0 (returned 0 (read (ids_of 1)) seen) looked)

abbrev worked : System (Pairs ℕ ListenerConfig)
worked = work config_map newest_first alive 1 1 release_call (looking config) entered

worked-Reaches : Reaches worked
unfolding look
worked-Reaches =
    later
      (later
        (later (later waiting-Reaches (looks 0 (ids_of 1) refl))
          (returns_read 0 0 (ids_of 1) seen refl))
        (locks_configs 1 release_call refl (λ m. (ground arith, ground arith))))
      (works 1 1 release_call (looking config) refl)

unmapped : config_map.get_by_right config_map.new config ≡ none
unmapped = get_by_right-new config_map config_map.new config

answered : reply_of (worked.pcs 1) ≡ some (1, released (fail not_found))
unfolding work body new look
answered = ground (arith, unmapped)

reply_of-replay_example :
    (q : Request) × (call_of (worked.pcs 1) ≡ some (1, q))
    × (nth worked.entered 1 ≡ some q)
    × (nth (replay config_map newest_first alive worked.entered handlers).0 1
        ≡ some (released (fail not_found)))
    × (panics (released (fail not_found)) ≡ false)
reply_of-replay_example =
    reply_of-replay config_map newest_first alive (new-IsConsistent config_map) worked-Reaches 1 1
      (released (fail not_found)) answered

resting : (m : ℕ) → is_inside (worked.pcs m) ≡ false
unfolding work body new look
resting m = ground (arith, unmapped)

handlers-replay_example :
    (worked.handlers ≡ (replay config_map newest_first alive worked.entered handlers).1)
    × IsConsistent config_map worked.handlers
handlers-replay_example =
    handlers-replay config_map newest_first alive (new-IsConsistent config_map) worked-Reaches
      resting
