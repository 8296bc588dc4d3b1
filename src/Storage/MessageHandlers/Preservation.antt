-- ===== src/Storage/MessageHandlers/Preservation.antt =====
-- Getting and releasing a function keep the state consistent.
use up_transport_vsomeip_rus.Prelude.{
  ℕ, ◌≡◌, true, false, none, some, inl, inr, arith, nat_eq, Option-cases,
}
use up_transport_vsomeip_rus.Collections.HashMap
use up_transport_vsomeip_rus.Collections.HashMap.{get-insert, get-remove, get-empty}
use up_transport_vsomeip_rus.Collections.HashSet
use up_transport_vsomeip_rus.Collections.HashSet.{IterOrder, contains-insert, contains-remove}
use up_transport_vsomeip_rus.Collections.BiMap.{BiMap}
use up_transport_vsomeip_rus.Storage.MessageHandlers.Config.{ListenerConfig, config_eq}
use up_transport_vsomeip_rus.Storage.MessageHandlers.Consistency.{
  IsConsistent, free_facts, taken, restored, no_function_left, config_is_new, config_is_known,
  released, known_facts, config_is_released, config_is_missing,
}
use up_transport_vsomeip_rus.Storage.MessageHandlers.{
  Handlers, get_message_handler, release_message_handler, set_configs,
}

module _ {M : Type 0} (bimap : BiMap ℕ ListenerConfig M) where
  module _ (order : IterOrder ℕ) (self : ℕ) (config : ListenerConfig) {w : Handlers M}
      (c : IsConsistent bimap w) where
    pub taken-IsConsistent :
        (id : ℕ)
        → order.next w.free_ids ≡ some id
        → bimap.get_by_right (w.listener_configs self) config ≡ none
        → IsConsistent bimap (taken bimap self config w id)
    unfolding set_configs
    taken-IsConsistent id e absent =
        let (none_has, exists, unowned) = free_facts bimap order self config c id e in
        let m = w.listener_configs self in
        let fresh : (bimap.insert_no_overwrite m id config).1 ≡ true =
          ground (arith, unowned self, bimap.insert_inserted m id config) in
        record {
          free = λ j. ground (
            arith,
            c.free j,
            contains-remove w.free_ids id j,
            get-insert w.transport_storage id j self,
          );
          held = λ j s h. ground (
            arith,
            c.held j s,
            get-insert w.transport_storage id j self,
            bimap.get_by_left-insert m id j config,
          );
          owned = λ j s h. ground (
            arith,
            c.owned j s,
            unowned s,
            get-insert w.transport_storage id j self,
            bimap.get_by_left-insert m id j config,
          );
        }

    restored-IsConsistent :
        (id j : ℕ)
        → order.next w.free_ids ≡ some id
        → bimap.get_by_right (w.listener_configs self) config ≡ some j
        → IsConsistent bimap (restored bimap self config w id)
    unfolding set_configs
    restored-IsConsistent id k e present =
        let (none_has, exists, unowned) = free_facts bimap order self config c id e in
        let m = w.listener_configs self in
        let kept : (bimap.insert_no_overwrite m id config).1 ≡ false =
          ground (arith, bimap.insert_inserted m id config) in
        record {
          free = λ j. ground (
            arith,
            c.free j,
            contains-insert (HashSet.remove w.free_ids id) id j,
            contains-remove w.free_ids id j,
            get-remove (HashMap.insert w.transport_storage id self) id j,
            get-insert w.transport_storage id j self,
          );
          held = λ j s h. ground (
            arith,
            c.held j s,
            get-remove (HashMap.insert w.transport_storage id self) id j,
            get-insert w.transport_storage id j self,
            bimap.get_by_left-insert m id j config,
          );
          owned = λ j s h. ground (
            arith,
            c.owned j s,
            unowned s,
            get-remove (HashMap.insert w.transport_storage id self) id j,
            get-insert w.transport_storage id j self,
            bimap.get_by_left-insert m id j config,
          );
        }

    -- Whatever `get_message_handler` answers, a consistent state stays consistent.
    pub get_message_handler-IsConsistent :
        IsConsistent bimap (get_message_handler bimap order self self config w).1
    get_message_handler-IsConsistent = elim (Option-cases (order.next w.free_ids)) [
      | inl e ↦ rw (no_function_left bimap order self config c e) c
      | inr (id, e) ↦ elim (Option-cases (bimap.get_by_right (w.listener_configs self) config)) [
        | inl absent ↦
            rw (config_is_new bimap order self config c id e absent)
              (taken-IsConsistent id e absent)
        | inr (j, present) ↦
            rw (config_is_known bimap order self config c id j e present)
              (restored-IsConsistent id j e present)
      ]
    ]

  module _ (self : ℕ) (config : ListenerConfig) {w : Handlers M} (c : IsConsistent bimap w) where
    released-IsConsistent :
        (id : ℕ)
        → bimap.get_by_right (w.listener_configs self) config ≡ some id
        → IsConsistent bimap (released bimap self config w id)
    unfolding set_configs
    released-IsConsistent id present =
        let (held_by, mapped, exists) = known_facts bimap self config c id present in
        let m = w.listener_configs self in
        record {
          free = λ j. ground (
            arith,
            c.free j,
            contains-insert w.free_ids id j,
            get-remove w.transport_storage id j,
          );
          held = λ j s h. ground (
            arith,
            c.held j s,
            get-remove w.transport_storage id j,
            bimap.get_by_left-remove m id j,
          );
          owned = λ j s h. ground (
            arith,
            c.owned j s,
            get-remove w.transport_storage id j,
            bimap.get_by_left-remove m id j,
          );
        }

    -- Releasing keeps a consistent state consistent, whether the configuration is known or not.
    pub release_message_handler-IsConsistent :
        IsConsistent bimap (release_message_handler bimap self config w).1
    release_message_handler-IsConsistent =
        elim (Option-cases (bimap.get_by_right (w.listener_configs self) config)) [
          | inl absent ↦ rw (config_is_missing bimap self config c absent) c
          | inr (id, present) ↦
              rw (config_is_released bimap self config c id present)
                (released-IsConsistent id present)
        ]
