-- ===== src/Storage/MessageHandlers/Listed.antt =====
-- The configurations that a transport lists are those that have a function; and whose functions a
-- release leaves alone.
use up_transport_vsomeip_rus.Prelude.{
  ℕ, ◌≡◌, refl, true, false, Option, none, some, List, [], ◌∷◌, arith, nat_eq, nat_beq, inl, inr,
  Option-cases, ==_iff, ==_refl, if◌then◌else◌,
}
use up_transport_vsomeip_rus.Collections.HashMap
use up_transport_vsomeip_rus.Collections.HashMap.{get-remove}
use up_transport_vsomeip_rus.Collections.HashSet.{member}
use up_transport_vsomeip_rus.Collections.BiMap.{BiMap}
use up_transport_vsomeip_rus.Storage.MessageHandlers.Config.{ListenerConfig, config_eq}
use up_transport_vsomeip_rus.Storage.MessageHandlers.{
  Handlers, get_listener_config_for_message_handler_id, get_message_handler_ids, configs_of,
  get_all_listener_configs, release_message_handler, set_configs,
}
use up_transport_vsomeip_rus.Storage.MessageHandlers.Consistency.{
  IsConsistent, config_is_released, config_is_missing, known_facts,
}
use up_transport_vsomeip_rus.Storage.MessageHandlers.Registered.{holds}

-- the mapping of a function to any transport but this
abbrev pub others : {M : Type 0} → ℕ → Handlers M → ℕ → Option ℕ
others self w id = elim (HashMap.get w.transport_storage id) [
  | none ↦ none
  | some s ↦ (if nat_beq s self then none else some s)
]

module _ {M : Type 0} (bimap : BiMap ℕ ListenerConfig M) where
  module _ (w : Handlers M) (self : ℕ) (config : ListenerConfig) where
    listed_holds :
        (ids : List ℕ)
        → member config (configs_of bimap w self ids) ≡ true
        → holds bimap w self config ≡ true
    unfolding configs_of get_listener_config_for_message_handler_id
    listed_holds [] there = absurd (ground arith)
    listed_holds (id ∷ ids) there =
        let rest = listed_holds ids in
        elim (Option-cases (bimap.get_by_left (w.listener_configs self) id)) [
          | inl e ↦ ground arith
          | inr (x, e) ↦
              ground (arith, ==_iff x config, bimap.inverse (w.listener_configs self) id config)
        ]

    held_listed :
        (ids : List ℕ) (id : ℕ)
        → bimap.get_by_left (w.listener_configs self) id ≡ some config
        → member id ids ≡ true
        → member config (configs_of bimap w self ids) ≡ true
    unfolding configs_of get_listener_config_for_message_handler_id
    held_listed [] id e there = absurd (ground arith)
    held_listed (x ∷ ids) id e there =
        ground (arith, held_listed ids id e, ==_iff x id, ==_refl config)

    -- the list is complete, and has nothing else
    pub member-get_all_listener_configs :
        member config (get_all_listener_configs bimap w self) ≡ holds bimap w self config
    unfolding get_all_listener_configs get_message_handler_ids
    member-get_all_listener_configs =
        let m = w.listener_configs self in
        let ids = bimap.left_values m in
        elim (Option-cases (bimap.get_by_right m config)) [
          | inl e ↦ ground (arith, listed_holds ids)
          | inr (id, e) ↦
              let found = (bimap.inverse m id config).1 e in
              ground (arith, held_listed ids id found, bimap.member-left_values m id)
        ]

  pub others-release :
      (self : ℕ) (config : ListenerConfig) {w : Handlers M} (c : IsConsistent bimap w) (id : ℕ)
      → others self (release_message_handler bimap self config w).1 id ≡ others self w id
  unfolding set_configs
  others-release self config {w} c id =
      elim (Option-cases (bimap.get_by_right (w.listener_configs self) config)) [
        | inl absent ↦ rw (config_is_missing bimap self config c absent) refl
        | inr (j, present) ↦
            let (held_by, mapped, exists) = known_facts bimap self config c j present in
            rw (config_is_released bimap self config c j present)
              (ground (arith, get-remove w.transport_storage j id))
      ]

  -- a transport without a configuration has no function
  pub get-others :
      (self : ℕ) {w : Handlers M} (c : IsConsistent bimap w)
      → ((config : ListenerConfig) → holds bimap w self config ≡ false)
      → (id : ℕ) → HashMap.get w.transport_storage id ≡ others self w id
  get-others self {w} c silent id =
      let m = w.listener_configs self in
      elim (Option-cases (bimap.get_by_left m id)) [
        | inl e ↦ ground (arith, c.held id self)
        | inr (config, e) ↦ absurd (ground (arith, silent config, bimap.inverse m id config))
      ]
