-- ===== src/Storage/MessageHandlers/Outcomes.antt =====
-- What a caller sees of getting and releasing a function.
use up_transport_vsomeip_rus.Prelude.{
  ℕ, ◌≡◌, ◌<◌, ◌⊎◌, refl, ap, Bool, true, false, none, some, inl, inr, arith, nat_eq, Option-cases,
  if◌then◌else◌,
}
use up_transport_vsomeip_rus.Collections.HashMap
use up_transport_vsomeip_rus.Collections.HashMap.{get-insert, get-remove}
use up_transport_vsomeip_rus.Collections.HashSet
use up_transport_vsomeip_rus.Collections.HashSet.{IterOrder, contains-insert, contains-remove}
use up_transport_vsomeip_rus.Collections.BiMap.{BiMap}
use up_transport_vsomeip_rus.UProtocol.Status.{ok}
use up_transport_vsomeip_rus.Storage.MessageHandlers.Config.{ListenerConfig, config_eq}
use up_transport_vsomeip_rus.Storage.MessageHandlers.Consistency.{
  IsConsistent, free_facts, taken, restored, no_function_left, config_is_new, config_is_known,
  released, known_facts, config_is_released, registered,
}
use up_transport_vsomeip_rus.Storage.MessageHandlers.Preservation.{taken-IsConsistent}
use up_transport_vsomeip_rus.Storage.MessageHandlers.{
  Handlers, num_message_handlers, GetMessageHandlerError, other_error,
  listener_config_already_exists, get_message_handler, release_message_handler, set_configs,
  get_listener_for_message_handler_id, get_message_handler_id_transport,
}

module _ {M : Type 0} (bimap : BiMap ℕ ListenerConfig M) where
  -- Two states in which every query has the same answer.
  pub record Same (w v : Handlers M) : Type 0 where
    pub free : (id : ℕ) → HashSet.contains v.free_ids id ≡ HashSet.contains w.free_ids id
    pub transports :
        (id : ℕ) → HashMap.get v.transport_storage id ≡ HashMap.get w.transport_storage id
    pub configs :
        (s id : ℕ)
        → bimap.get_by_left (v.listener_configs s) id ≡ bimap.get_by_left (w.listener_configs s) id

  -- The three answers of `get_message_handler`: a function that was free, and is now the
  -- configuration's; or an error, and nothing has changed.
  pub data Answers (alive : ℕ → Bool) (self : ℕ) (config : ListenerConfig) (w v : Handlers M)
      : GetMessageHandlerError ⊎ ℕ → Type 0 where
    exhausted :
        ((id : ℕ) → HashSet.contains w.free_ids id ≡ false)
        → Same w v
        → Answers alive self config w v (inl other_error)
    known :
        (id j : ℕ)
        → bimap.get_by_left (w.listener_configs self) j ≡ some config
        → Same w v
        → Answers alive self config w v (inl (listener_config_already_exists id))
    fresh :
        (id : ℕ)
        → id < num_message_handlers
        → HashSet.contains w.free_ids id ≡ true
        → HashSet.contains v.free_ids id ≡ false
        → get_listener_for_message_handler_id bimap v self id ≡ some config.listener
        → get_message_handler_id_transport bimap alive v id
          ≡ (if alive self then some self else none)
        → Answers alive self config w v (inr id)

  Same-refl : (w : Handlers M) → Same w w
  Same-refl w = record { free = λ id. refl; transports = λ id. refl; configs = λ s id. refl }

  module _ (self : ℕ) (config : ListenerConfig) {w : Handlers M} (c : IsConsistent bimap w) where
    -- the rollback undoes everything
    restored-Same :
        (order : IterOrder ℕ) (id j : ℕ)
        → order.next w.free_ids ≡ some id
        → bimap.get_by_right (w.listener_configs self) config ≡ some j
        → Same w (restored bimap self config w id)
    unfolding set_configs
    restored-Same order id k e present =
        let (none_has, exists, unowned) = free_facts bimap order self config c id e in
        let m = w.listener_configs self in
        let kept : (bimap.insert_no_overwrite m id config).1 ≡ false =
          ground (arith, bimap.insert_inserted m id config) in
        record {
          free = λ j. ground (
            arith,
            order.next-some w.free_ids id e,
            contains-insert (HashSet.remove w.free_ids id) id j,
            contains-remove w.free_ids id j,
          );
          transports = λ j. ground (
            arith,
            get-remove (HashMap.insert w.transport_storage id self) id j,
            get-insert w.transport_storage id j self,
          );
          configs = λ s j. ground (arith, bimap.get_by_left-insert m id j config);
        }

    taken-fresh :
        (order : IterOrder ℕ) (alive : ℕ → Bool) (id : ℕ)
        → order.next w.free_ids ≡ some id
        → bimap.get_by_right (w.listener_configs self) config ≡ none
        → Answers alive self config w (taken bimap self config w id) (inr id)
    unfolding set_configs get_listener_for_message_handler_id get_message_handler_id_transport
    taken-fresh order alive id e absent =
        let (none_has, exists, unowned) = free_facts bimap order self config c id e in
        let m = w.listener_configs self in
        let added : (bimap.insert_no_overwrite m id config).1 ≡ true =
          ground (arith, unowned self, bimap.insert_inserted m id config) in
        fresh id exists (order.next-some w.free_ids id e)
          (ground (arith, contains-remove w.free_ids id id))
          (ground (arith, bimap.get_by_left-insert m id id config))
          (ground (arith, get-insert w.transport_storage id id self))

    -- In a consistent state `get_message_handler` never panics and never finds its function taken.
    -- It fails for want of a free function, or because the transport has the configuration
    -- already, and then has changed nothing; or it answers a function below 10000 that was free
    -- and is not any more, for which the transport's listener is found, and the transport's
    -- storage while it is alive.
    pub get_message_handler-Answers :
        (order : IterOrder ℕ) (alive : ℕ → Bool)
        → (a : GetMessageHandlerError ⊎ ℕ) × ((get_message_handler bimap order self self config w).0
            ≡ ok a)
          × Answers alive self config w (get_message_handler bimap order self self config w).1 a
    get_message_handler-Answers order alive = elim (Option-cases (order.next w.free_ids)) [
      | inl e ↦ (
        inl other_error,
        ap (λ r. r.0) (no_function_left bimap order self config c e),
        rw (no_function_left bimap order self config c e)
            (exhausted (order.next-none w.free_ids e) (Same-refl w)),
      )
      | inr (id, e) ↦ elim (Option-cases (bimap.get_by_right (w.listener_configs self) config)) [
        | inl absent ↦ (
          inr id,
          ap (λ r. r.0) (config_is_new bimap order self config c id e absent),
          rw (config_is_new bimap order self config c id e absent)
              (taken-fresh order alive id e absent),
        )
        | inr (j, present) ↦ (
          inl (listener_config_already_exists id),
          ap (λ r. r.0) (config_is_known bimap order self config c id j e present),
          rw (config_is_known bimap order self config c id j e present) (
              known id j (known_facts bimap self config c j present).0
                (restored-Same order id j e present)),
        )
      ]
    ]

    taken_right :
        (id : ℕ)
        → (bimap.insert_no_overwrite (w.listener_configs self) id config).1 ≡ true
        → bimap.get_by_right ((taken bimap self config w id).listener_configs self) config ≡ some id
    unfolding set_configs
    taken_right id added =
        let m = w.listener_configs self in
        let right : bimap.get_by_right (registered bimap self config w id) config ≡ some id =
          (bimap.inverse (registered bimap self config w id) id config).0
            (ground (arith, bimap.get_by_left-insert m id id config)) in
        ground arith

    released-taken-Same :
        (order : IterOrder ℕ) (id : ℕ)
        → order.next w.free_ids ≡ some id
        → (bimap.insert_no_overwrite (w.listener_configs self) id config).1 ≡ true
        → Same w (released bimap self config (taken bimap self config w id) id)
    unfolding set_configs
    released-taken-Same order id e added =
        let (none_has, exists, unowned) = free_facts bimap order self config c id e in
        let m = w.listener_configs self in
        record {
          free = λ j. ground (
            arith,
            order.next-some w.free_ids id e,
            contains-insert (HashSet.remove w.free_ids id) id j,
            contains-remove w.free_ids id j,
          );
          transports = λ j. ground (
            arith,
            get-remove (HashMap.insert w.transport_storage id self) id j,
            get-insert w.transport_storage id j self,
          );
          configs = λ s j. ground (
            arith,
            unowned self,
            bimap.get_by_left-remove ((taken bimap self config w id).listener_configs self) id j,
            bimap.get_by_left-insert m id j config,
          );
        }

    -- Released at once, a function that has been got leaves every query as it was before.
    pub release-get_message_handler :
        (order : IterOrder ℕ) (id : ℕ)
        → (get_message_handler bimap order self self config w).0 ≡ ok (inr id)
        → let v = (get_message_handler bimap order self self config w).1 in
          ((release_message_handler bimap self config v).0 ≡ ok tt)
          × Same w (release_message_handler bimap self config v).1
    release-get_message_handler order id got = elim (Option-cases (order.next w.free_ids)) [
      | inl e ↦ absurd (cc (got, ap (λ r. r.0) (no_function_left bimap order self config c e)))
      | inr (new_id, e) ↦
          elim (Option-cases (bimap.get_by_right (w.listener_configs self) config)) [
            | inl absent ↦
                let (none_has, exists, unowned) = free_facts bimap order self config c new_id e in
                let added : (bimap.insert_no_overwrite (w.listener_configs self) new_id config).1
                    ≡ true =
                  ground (
                    arith,
                    unowned self,
                    bimap.insert_inserted (w.listener_configs self) new_id config,
                  ) in
                let right = taken_right new_id added in
                let done =
                  config_is_released bimap self config
                    (taken-IsConsistent bimap order self config c new_id e absent) new_id right in
                rw (config_is_new bimap order self config c new_id e absent, done)
                  (refl, released-taken-Same order new_id e added)
            | inr (j, present) ↦ absurd (
                cc (
                  got,
                  ap (λ r. r.0) (config_is_known bimap order self config c new_id j e present),
                ))
          ]
    ]
