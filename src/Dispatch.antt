-- ===== src/Dispatch.antt =====
-- What vsomeip-proc-macro/src/lib.rs generates for messages: each of the extern functions that
-- vsomeip calls with a message hands its number on.
pub mod Delivery
use up_transport_vsomeip_rus.Prelude.{ℕ, Bool, Option, none, some, nat_beq, nat_eq, if◌then◌else◌}
use up_transport_vsomeip_rus.Collections.BiMap.{BiMap}
use up_transport_vsomeip_rus.UProtocol.{Uuid, UMessage, UpRust}
use up_transport_vsomeip_rus.UProtocol.Status.{ok, err, panicked}
use up_transport_vsomeip_rus.Vsomeip.{VsomeipMessage, VsomeipApi}
use up_transport_vsomeip_rus.Storage.{Host, get_local_authority}
use up_transport_vsomeip_rus.Storage.MessageHandlers.{
  Handlers, get_message_handler_id_transport, get_listener_for_message_handler_id,
}
use up_transport_vsomeip_rus.Storage.MessageHandlers.Config.{ListenerConfig, config_eq}
use up_transport_vsomeip_rus.Conversions.Inbound.{convert_vsomeip_msg_to_umsg}

module _ {M : Type 0} (bimap : BiMap ℕ ListenerConfig M) (up : UpRust) (vs : VsomeipApi)
    (alive : ℕ → Bool) where
  -- The listener that is called, and its message, if one is; and the hosts of the transports, by
  -- the number of their storage. `fresh` is the identifier that a builder draws.
  unfoldable pub call_shared_extern_fn :
      (message_handler_id : ℕ) (fresh : Uuid)
      → VsomeipMessage
      → Handlers M
      → (ℕ → Host)
      → Option (ℕ × UMessage) × (ℕ → Host)
  unfolding get_message_handler_id_transport get_listener_for_message_handler_id
  call_shared_extern_fn message_handler_id fresh vsomeip_msg w hosts =
      elim (get_message_handler_id_transport bimap alive w message_handler_id) [
        | none ↦ (none, hosts)
        | some s ↦
            let storage = (hosts s).storage in
            let (res, host) =
              convert_vsomeip_msg_to_umsg up vs fresh (get_local_authority storage) storage.uri
                storage.remote_authority vsomeip_msg (hosts s) in
            let after : ℕ → Host = λ j. if nat_beq s j then host else hosts j in
            elim res [
              | ok umsg ↦ elim (get_listener_for_message_handler_id bimap w s message_handler_id) [
                | none ↦ (none, after)
                | some listener ↦ (some (listener, umsg), after)
              ]
              | err e ↦ (none, after)
              | panicked ↦ (none, after)
            ]
      ]
