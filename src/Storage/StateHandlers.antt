-- ===== src/Storage/StateHandlers.antt =====
-- up-transport-vsomeip/src/storage/application_state_availability_handler_registry.rs, and what
-- vsomeip-proc-macro/src/lib.rs generates for it: the extern functions that vsomeip calls when the
-- state of an application changes, each with a channel. A state is a number. Here a channel is named by
-- its function; Storage.StateHandlers.Generated has the maps to the ends of the channels.
pub mod Generated
pub mod Wiring
use up_transport_vsomeip_rus.Prelude.{
  ℕ, length, Option, none, some, List, [], ◌∷◌, ◌++◌, ltb, nat_eq, nat_beq, if◌then◌else◌,
}
use up_transport_vsomeip_rus.Collections.HashSet
use up_transport_vsomeip_rus.Collections.HashSet.{HashSet, IterOrder}
use up_transport_vsomeip_rus.Action.{Action}
use up_transport_vsomeip_rus.UProtocol.Status.{Result, ok, panicked, fail, resource_exhausted}
use up_transport_vsomeip_rus.Storage.MessageHandlers.{ids_below}

-- `generate_available_state_handler_extern_c_fns!(1000)`
abbrev pub num_state_handlers : ℕ
num_state_handlers = 1000

-- `FREE_AVAILABLE_STATE_HANDLER_EXTERN_FN_IDS`, and the states in each channel, oldest first.
pub record StateHandlers : Type 0 where
  pub free_ids : HashSet ℕ
  pub received : ℕ → List ℕ

unfoldable pub new : StateHandlers
new = record { free_ids = ids_below num_state_handlers; received = λ id. [] }

unfoldable pub find_available_state_handler_id : IterOrder ℕ → Action StateHandlers ℕ
find_available_state_handler_id order s = elim (order.next s.free_ids) [
  | none ↦ (fail resource_exhausted, s)
  | some id ↦ (ok id, record s { free_ids = HashSet.remove s.free_ids id })
]

unfoldable pub free_state_handler_id : ℕ → Action StateHandlers (Unit {0})
free_state_handler_id id s = (ok tt, record s { free_ids = (HashSet.insert s.free_ids id).0 })

-- `get_state_handler`: the function of a number; its receiver is the channel of the number.
unfoldable pub get_state_handler : ℕ → Result ℕ
get_state_handler id = if ltb id num_state_handlers then ok id else panicked

-- `call_shared_extern_fn`: vsomeip calls the function of a number with a state. A channel holds
-- 1000 states; what is sent beyond that waits with its sender, and is not followed further.
unfoldable pub call_state_handler : ℕ → ℕ → StateHandlers → StateHandlers
call_state_handler id state s = record s {
  received = λ j.
      if nat_beq id j
      then (if ltb (length (s.received j)) 1000 then s.received j ++ state ∷ [] else s.received j)
      else s.received j;
}

-- `receiver.recv_timeout(…)`: the oldest state in the channel, or none by the end of the time
unfoldable pub recv : ℕ → StateHandlers → Option ℕ × StateHandlers
recv id s = elim (s.received id) [
  | [] ↦ (none, s)
  | state ∷ states ↦
      (some state, record s { received = λ j. if nat_beq id j then states else s.received j })
]
