-- ===== src/Storage/MessageHandlers/Consistency.antt =====
-- The free functions, the map to transports and the maps of the transports fit together.
use up_transport_vsomeip_rus.Prelude.{
  ℕ, ◌<◌, ◌≡◌, true, false, not, none, some, inl, inr, arith, ltb, nat_eq, if◌then◌else◌,
}
use up_transport_vsomeip_rus.Collections.HashMap
use up_transport_vsomeip_rus.Collections.HashMap.{HashMap, get-insert, get-remove}
use up_transport_vsomeip_rus.Collections.HashSet
use up_transport_vsomeip_rus.Collections.HashSet.{
  HashSet, IterOrder, contains-insert, contains-remove,
}
use up_transport_vsomeip_rus.Collections.BiMap.{BiMap, is_some}
use up_transport_vsomeip_rus.UProtocol.Status.{ok, fail, not_found}
use up_transport_vsomeip_rus.Storage.MessageHandlers.Config.{ListenerConfig, config_eq}
use up_transport_vsomeip_rus.Storage.MessageHandlers.{
  Handlers, num_message_handlers, get_message_handler, release_message_handler, other_error,
  listener_config_already_exists, set_configs,
}

module _ {M : Type 0} (bimap : BiMap ℕ ListenerConfig M) where
  pub record IsConsistent (w : Handlers M) : Type 0 where
    -- a function is free exactly if it exists and no transport has it
    pub free :
        (id : ℕ)
        → HashSet.contains w.free_ids id ≡ (
            if ltb id num_message_handlers
            then not (is_some (HashMap.get w.transport_storage id))
            else false)
    -- a transport that has a function has a listener for it, and the function exists
    pub held :
        (id s : ℕ)
        → HashMap.get w.transport_storage id ≡ some s
        → (is_some (bimap.get_by_left (w.listener_configs s) id) ≡ true)
          × (id < num_message_handlers)
    -- a listener's function is its transport's
    pub owned :
        (id s : ℕ)
        → is_some (bimap.get_by_left (w.listener_configs s) id) ≡ true
        → HashMap.get w.transport_storage id ≡ some s

  module _ (self : ℕ) (config : ListenerConfig) (w : Handlers M) where
    abbrev pub registered : ℕ → M
    registered id = (bimap.insert_no_overwrite (w.listener_configs self) id config).0

    -- the state in which the function is the configuration's
    abbrev pub taken : ℕ → Handlers M
    taken id =
        set_configs bimap
          (record w {
            free_ids = HashSet.remove w.free_ids id;
            transport_storage = HashMap.insert w.transport_storage id self;
          })
          self (registered id)

    -- the state after the rollback
    abbrev pub restored : ℕ → Handlers M
    restored id =
        set_configs bimap
          (record w {
            free_ids = (HashSet.insert (HashSet.remove w.free_ids id) id).0;
            transport_storage = HashMap.remove (HashMap.insert w.transport_storage id self) id;
          })
          self (registered id)

    -- the state in which the function of a configuration is free again
    abbrev pub released : ℕ → Handlers M
    released id =
        set_configs bimap
          (record w {
            free_ids = (HashSet.insert w.free_ids id).0;
            transport_storage = HashMap.remove w.transport_storage id;
          })
          self (bimap.remove_by_left (w.listener_configs self) id)

  module _ (order : IterOrder ℕ) (self : ℕ) (config : ListenerConfig) {w : Handlers M}
      (c : IsConsistent w) where
    -- the facts about a function that is free
    pub free_facts :
        (id : ℕ)
        → order.next w.free_ids ≡ some id
        → (HashMap.get w.transport_storage id ≡ none)
          × (id < num_message_handlers)
          × ((s : ℕ) → is_some (bimap.get_by_left (w.listener_configs s) id) ≡ false)
    free_facts id e =
        let there = order.next-some w.free_ids id e in
        let none_has : HashMap.get w.transport_storage id ≡ none = ground (arith, c.free id) in
        (none_has, ground (arith, c.free id), λ s. ground (arith, c.owned id s))

    pub no_function_left :
        order.next w.free_ids ≡ none
        → get_message_handler bimap order self self config w ≡ (ok (inl other_error), w)
    unfolding get_message_handler
    no_function_left e = ground arith

    pub config_is_new :
        (id : ℕ)
        → order.next w.free_ids ≡ some id
        → bimap.get_by_right (w.listener_configs self) config ≡ none
        → get_message_handler bimap order self self config w ≡ (ok (inr id), taken self config w id)
    unfolding get_message_handler set_configs
    config_is_new id e absent =
        let (none_has, exists, unowned) = free_facts id e in
        ground (arith, unowned self, bimap.insert_inserted (w.listener_configs self) id config)

    pub config_is_known :
        (id j : ℕ)
        → order.next w.free_ids ≡ some id
        → bimap.get_by_right (w.listener_configs self) config ≡ some j
        → get_message_handler bimap order self self config w
          ≡ (ok (inl (listener_config_already_exists id)), restored self config w id)
    unfolding get_message_handler set_configs HashMap.contains_key
    config_is_known id j e present =
        let (none_has, exists, unowned) = free_facts id e in
        let m = w.listener_configs self in
        let kept : (bimap.insert_no_overwrite m id config).1 ≡ false =
          ground (arith, bimap.insert_inserted m id config) in
        let still : bimap.get_by_right (registered self config w id) config ≡ some j =
          (bimap.inverse (registered self config w id) j config).0 (
            ground (
              arith,
              bimap.get_by_left-insert m id j config,
              (bimap.inverse m j config).1 present,
            )) in
        ground (
          arith,
          unowned self,
          bimap.get_by_left-insert m id id config,
          get-insert w.transport_storage id id self,
        )

  module _ (self : ℕ) (config : ListenerConfig) {w : Handlers M} (c : IsConsistent w) where
    -- A configuration with a function is its transport's, and the function exists.
    pub known_facts :
        (id : ℕ)
        → bimap.get_by_right (w.listener_configs self) config ≡ some id
        → (bimap.get_by_left (w.listener_configs self) id ≡ some config)
          × (HashMap.get w.transport_storage id ≡ some self)
          × (id < num_message_handlers)
    known_facts id present =
        let held_by = (bimap.inverse (w.listener_configs self) id config).1 present in
        let mapped : HashMap.get w.transport_storage id ≡ some self =
          c.owned id self (rw held_by) in
        (held_by, mapped, (c.held id self mapped).1)

    pub config_is_released :
        (id : ℕ)
        → bimap.get_by_right (w.listener_configs self) config ≡ some id
        → release_message_handler bimap self config w ≡ (ok tt, released self config w id)
    unfolding release_message_handler set_configs HashMap.contains_key
    config_is_released id present =
        let (held_by, mapped, exists) = known_facts id present in ground arith

    pub config_is_missing :
        bimap.get_by_right (w.listener_configs self) config ≡ none
        → release_message_handler bimap self config w ≡ (fail not_found, w)
    unfolding release_message_handler
    config_is_missing absent = ground arith
