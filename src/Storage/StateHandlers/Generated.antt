-- ===== src/Storage/StateHandlers/Generated.antt =====
-- The statics that `generate_available_state_handler_extern_c_fns` generates
-- (vsomeip-proc-macro/src/lib.rs): two maps from the functions to the ends of channels, which
-- `InMemoryApplicationStateAvailabilityHandlerRegistry::new_trait_obj` fills once in a process.
use up_transport_vsomeip_rus.Prelude.{
  ℕ, zero, suc, Bool, true, false, Option, none, some, List, [], ◌∷◌, ◌++◌, length, ltb, nat_beq,
  nat_eq, if◌then◌else◌,
}
use up_transport_vsomeip_rus.Collections.HashMap
use up_transport_vsomeip_rus.Collections.HashMap.{HashMap}
use up_transport_vsomeip_rus.UProtocol.Status.{Result, ok, panicked}
use up_transport_vsomeip_rus.Storage.StateHandlers.{num_state_handlers}

-- A channel has the number of those that were made before it.
pub record Statics : Type 0 where
  -- whether the closure of `INIT.call_once` has run
  pub initialized : Bool
  -- `AVAILABLE_STATE_SENDERS`, `AVAILABLE_STATE_RECEIVERS`
  pub senders : HashMap ℕ (Option ℕ)
  pub receivers : HashMap ℕ (Option ℕ)
  -- how many channels there are, and the states in each, oldest first
  pub made : ℕ
  pub channels : ℕ → List ℕ

unfoldable pub new : Statics
new = record {
  initialized = false;
  senders = HashMap.empty;
  receivers = HashMap.empty;
  made = 0;
  channels = λ c. [];
}

-- the states of one channel replaced
abbrev pub set : ℕ → List ℕ → (ℕ → List ℕ) → ℕ → List ℕ
set c states channels j = if nat_beq c j then states else channels j

-- `let (sender, receiver) = crossbeam_channel::bounded(1000)`, put in the maps for a function
unfoldable pub connect : ℕ → Statics → Statics
connect id s = record s {
  senders = HashMap.insert s.senders id (some s.made);
  receivers = HashMap.insert s.receivers id (some s.made);
  made = suc s.made;
  channels = set s.made [] s.channels;
}

-- the functions below a number, in order
unfoldable pub connect_below : ℕ → Statics → Statics
connect_below zero s = s
connect_below (suc n) s = connect n (connect_below n s)

-- `initialize_sender_receiver`
unfoldable pub initialize_sender_receiver : Statics → Statics
initialize_sender_receiver = connect_below num_state_handlers

unfoldable pub new_trait_obj : Statics → Statics
new_trait_obj s =
    let s' = initialize_sender_receiver s in
    if s.initialized then s else record s' { initialized = true }

-- `call_shared_extern_fn`: without a sender there is an error in the log. A channel holds 1000
-- states; what is sent beyond that waits with its sender, and is not followed further.
unfoldable pub call_shared_extern_fn : ℕ → ℕ → Statics → Statics
call_shared_extern_fn id state s = elim (HashMap.get s.senders id) [
  | none ↦ s
  | some end ↦ elim end [
    | none ↦ s
    | some c ↦ record s {
      channels =
          if ltb (length (s.channels c)) 1000
          then set c (s.channels c ++ state ∷ []) s.channels
          else s.channels;
    }
  ]
]

-- `get_extern_fn`: the function of a number, and the receiver of its channel
unfoldable pub get_extern_fn : ℕ → Statics → Result (ℕ × ℕ)
get_extern_fn id s =
    if ltb id num_state_handlers
    then elim (HashMap.get s.receivers id) [
      | none ↦ panicked
      | some end ↦ elim end [ none ↦ panicked | some c ↦ ok (id, c) ]
    ]
    else panicked

-- `receiver.recv_timeout(…)`
unfoldable pub recv : ℕ → Statics → Option ℕ × Statics
recv c s = elim (s.channels c) [
  | [] ↦ (none, s)
  | state ∷ states ↦ (some state, record s { channels = set c states s.channels })
]
