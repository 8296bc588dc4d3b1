-- ===== src/Storage/MessageHandlers/Registered.antt =====
-- The configurations that have a function, whichever function that is.
use up_transport_vsomeip_rus.Prelude.{
  ℕ, ◌≡◌, Bool, true, false, ◌&&◌, ◌⊎◌, not, arith, inl, inr, Option-cases, nat_eq, nat_beq, ◌==◌,
  ==_iff, if◌then◌else◌,
}
use up_transport_vsomeip_rus.Collections.HashSet.{IterOrder}
use up_transport_vsomeip_rus.Collections.BiMap.{BiMap, is_some}
use up_transport_vsomeip_rus.Collections.BiMap.Right.{get_by_right-remove, get_by_right-insert}
use up_transport_vsomeip_rus.UProtocol.Status.{ok}
use up_transport_vsomeip_rus.Storage.MessageHandlers.Config.{ListenerConfig, config_eq}
use up_transport_vsomeip_rus.Storage.MessageHandlers.{
  Handlers, GetMessageHandlerError, other_error, listener_config_already_exists,
  get_message_handler, release_message_handler, set_configs,
}
use up_transport_vsomeip_rus.Storage.MessageHandlers.Consistency.{
  IsConsistent, free_facts, no_function_left, config_is_new, config_is_known, config_is_released,
  config_is_missing,
}

abbrev pub is_function : GetMessageHandlerError ⊎ ℕ → Bool
is_function (inl e) = false
is_function (inr id) = true

module _ {M : Type 0} (bimap : BiMap ℕ ListenerConfig M) where
  -- whether a transport has a function for a configuration
  abbrev pub holds : Handlers M → ℕ → ListenerConfig → Bool
  holds w s config = is_some (bimap.get_by_right (w.listener_configs s) config)

  abbrev pub same_pair : ℕ → ListenerConfig → ℕ → ListenerConfig → Bool
  same_pair self config s c = nat_beq self s && config == c

  module _ (self : ℕ) (config : ListenerConfig) {w : Handlers M} (c : IsConsistent bimap w) where
    pub holds-release :
        (s : ℕ) (other : ListenerConfig)
        → holds (release_message_handler bimap self config w).1 s other
          ≡ (if same_pair self config s other then false else holds w s other)
    unfolding set_configs
    holds-release s other =
        elim (Option-cases (bimap.get_by_right (w.listener_configs self) config)) [
          | inl absent ↦
              rw (config_is_missing bimap self config c absent)
                (ground (arith, ==_iff config other))
          | inr (id, present) ↦ rw (config_is_released bimap self config c id present) (
              ground (
                arith,
                get_by_right-remove bimap (w.listener_configs self) id config other present,
              ))
        ]

    module _ (order : IterOrder ℕ) where
      pub holds-get :
          (s : ℕ) (other : ListenerConfig)
          → holds (get_message_handler bimap order self self config w).1 s other ≡ (
              if is_some (order.next w.free_ids) && same_pair self config s other
              then true
              else holds w s other)
      unfolding set_configs
      holds-get s other = elim (Option-cases (order.next w.free_ids)) [
        | inl e ↦ rw (no_function_left bimap order self config c e) (ground arith)
        | inr (id, e) ↦
            let (none_has, exists, unowned) = free_facts bimap order self config c id e in
            let after = get_by_right-insert bimap (w.listener_configs self) id config other in
            elim (Option-cases (bimap.get_by_right (w.listener_configs self) config)) [
              | inl absent ↦
                  rw (config_is_new bimap order self config c id e absent)
                    (ground (arith, after, unowned self, ==_iff config other))
              | inr (j, present) ↦
                  rw (config_is_known bimap order self config c id j e present)
                    (ground (arith, after, unowned self, ==_iff config other))
            ]
      ]

      -- a function is given out exactly when there is one and the configuration has none yet
      pub get_message_handler_gives :
          (a : GetMessageHandlerError ⊎ ℕ) × ((get_message_handler bimap order self self config w).0
            ≡ ok a)
          × (is_function a ≡ (is_some (order.next w.free_ids) && not (holds w self config)))
      get_message_handler_gives = elim (Option-cases (order.next w.free_ids)) [
        | inl e ↦ (inl other_error, rw (no_function_left bimap order self config c e), ground arith)
        | inr (id, e) ↦ elim (Option-cases (bimap.get_by_right (w.listener_configs self) config)) [
          | inl absent ↦
              (inr id, rw (config_is_new bimap order self config c id e absent), ground arith)
          | inr (j, present) ↦ (
            inl (listener_config_already_exists id),
            rw (config_is_known bimap order self config c id j e present),
            ground arith,
          )
        ]
      ]
