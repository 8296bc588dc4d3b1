-- ===== src/Dispatch/Delivery.antt =====
-- Whom a message reaches.
use up_transport_vsomeip_rus.Prelude.{
  ℕ, ap, if◌then◌else◌, ◌≡◌, ◌∙◌, inr, Bool, true, none, some, arith, nat_eq,
}
use up_transport_vsomeip_rus.Collections.HashMap
use up_transport_vsomeip_rus.Collections.HashSet
use up_transport_vsomeip_rus.Collections.HashSet.{IterOrder}
use up_transport_vsomeip_rus.Collections.BiMap.{BiMap}
use up_transport_vsomeip_rus.UProtocol.{Uuid, UMessage, UpRust}
use up_transport_vsomeip_rus.UProtocol.Status.{Result, ok}
use up_transport_vsomeip_rus.Vsomeip.{VsomeipMessage, VsomeipApi}
use up_transport_vsomeip_rus.Storage.{Host, get_local_authority}
use up_transport_vsomeip_rus.Storage.MessageHandlers.{
  Handlers, get_message_handler, release_message_handler, get_message_handler_id_transport,
  get_listener_for_message_handler_id,
}
use up_transport_vsomeip_rus.Storage.MessageHandlers.Config.{ListenerConfig, config_eq}
use up_transport_vsomeip_rus.Storage.MessageHandlers.Consistency.{IsConsistent}
use up_transport_vsomeip_rus.Storage.MessageHandlers.Outcomes.{
  Answers, fresh, get_message_handler-Answers, release-get_message_handler,
}
use up_transport_vsomeip_rus.Conversions.Inbound.{convert_vsomeip_msg_to_umsg}
use up_transport_vsomeip_rus.Dispatch.{call_shared_extern_fn}

-- what a message becomes in a transport
abbrev pub converted : UpRust → VsomeipApi → Uuid → VsomeipMessage → Host → Result UMessage
converted up vs drawn m h =
    (convert_vsomeip_msg_to_umsg up vs drawn (get_local_authority h.storage) h.storage.uri
      h.storage.remote_authority m h).0

module _ {M : Type 0} (bimap : BiMap ℕ ListenerConfig M) (up : UpRust) (vs : VsomeipApi)
    (alive : ℕ → Bool) where
  module _ (id : ℕ) (drawn : Uuid) (m : VsomeipMessage) (w : Handlers M) (hosts : ℕ → Host) where
    delivered_to :
        (self listener : ℕ) (umsg : UMessage)
        → get_message_handler_id_transport bimap alive w id ≡ some self
        → get_listener_for_message_handler_id bimap w self id ≡ some listener
        → converted up vs drawn m (hosts self) ≡ ok umsg
        → (call_shared_extern_fn bimap up vs alive id drawn m w hosts).0 ≡ some (listener, umsg)
    unfolding call_shared_extern_fn
    delivered_to self listener umsg mapped listens e = ground arith

    dropped :
        HashMap.get w.transport_storage id ≡ none
        → (call_shared_extern_fn bimap up vs alive id drawn m w hosts).0 ≡ none
    unfolding call_shared_extern_fn get_message_handler_id_transport
    dropped unmapped = ground arith

  module _ (self : ℕ) (config : ListenerConfig) {w : Handlers M} (c : IsConsistent bimap w) where
    free_is_unmapped :
        (id : ℕ) → HashSet.contains w.free_ids id ≡ true → HashMap.get w.transport_storage id ≡ none
    free_is_unmapped id free = ground (arith, c.free id)

    got-delivered :
        (id : ℕ) (drawn : Uuid) (m : VsomeipMessage) (hosts : ℕ → Host) (umsg : UMessage)
        {v : Handlers M}
        → Answers bimap alive self config w v (inr id)
        → alive self ≡ true
        → converted up vs drawn m (hosts self) ≡ ok umsg
        → (HashMap.get w.transport_storage id ≡ none)
          × ((call_shared_extern_fn bimap up vs alive id drawn m v hosts).0
              ≡ some (config.listener, umsg))
    got-delivered id drawn m hosts umsg {v} (fresh _ below was now listens mapped) living e = (
      free_is_unmapped id was,
      delivered_to id drawn m v hosts self config.listener umsg
          (mapped ∙ ap (λ b. if b then some self else none) living) listens e,
    )

    -- An extern function that a living transport has got for a listener, where the functions of the
    -- process are consistent: a message that vsomeip gives it, and that the transport converts,
    -- reaches this listener. After the transport has released it, no message given to it reaches
    -- anyone.
    pub call_shared_extern_fn_lem :
        (order : IterOrder ℕ) (id : ℕ) (drawn : Uuid) (m : VsomeipMessage) (hosts : ℕ → Host)
        (umsg : UMessage)
        → (get_message_handler bimap order self self config w).0 ≡ ok (inr id)
        → alive self ≡ true
        → converted up vs drawn m (hosts self) ≡ ok umsg
        → let v = (get_message_handler bimap order self self config w).1 in
          let end = (release_message_handler bimap self config v).1 in
          ((call_shared_extern_fn bimap up vs alive id drawn m v hosts).0
            ≡ some (config.listener, umsg))
          × ((call_shared_extern_fn bimap up vs alive id drawn m end hosts).0 ≡ none)
    call_shared_extern_fn_lem order id drawn m hosts umsg got living e =
        let (a, found, answers) = get_message_handler-Answers bimap self config c order alive in
        let same_answer : a ≡ inr id = ground (arith, found, got) in
        let (was, delivered) =
          got-delivered id drawn m hosts umsg (rw⁻¹ (same_answer) answers) living e in
        let (r, same) = release-get_message_handler bimap self config c order id got in
        (delivered, dropped id drawn m _ hosts (same.transports id ∙ was))
