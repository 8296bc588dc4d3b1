-- ===== src/Storage/MessageHandlers.antt =====
-- up-transport-vsomeip/src/storage/message_handler_registry.rs: which extern function calls which
-- listener. The set of free functions and the map from functions to transports belong to the
-- process; each transport has a map between functions and listener configurations of its own. A
-- function is named by its number, a transport's storage by a number too.
pub mod Config
pub mod Consistency
pub mod Preservation
pub mod Histories
pub mod Outcomes
pub mod Registered
pub mod Listed
pub mod Threads
use up_transport_vsomeip_rus.Prelude.{
  ℕ, zero, suc, Bool, true, false, Option, none, some, List, [], ◌∷◌, ◌⊎◌, inl, inr, ltb, nat_beq,
  nat_eq, if◌then◌else◌,
}
use up_transport_vsomeip_rus.Collections.HashMap
use up_transport_vsomeip_rus.Collections.HashMap.{HashMap}
use up_transport_vsomeip_rus.Collections.HashSet
use up_transport_vsomeip_rus.Collections.HashSet.{HashSet, IterOrder}
use up_transport_vsomeip_rus.Collections.BiMap.{BiMap, is_some}
use up_transport_vsomeip_rus.Action.{Action, return, raise, lift, ok_or, ◌>>=◌, ◌>>◌}
use up_transport_vsomeip_rus.UProtocol.Status.{
  UCode, Result, ok, err, panicked, fail, already_exists, not_found, resource_exhausted,
}
use Config.{ListenerConfig, config_eq}

-- `generate_message_handler_extern_c_fns!(10000)`
abbrev pub num_message_handlers : ℕ
num_message_handlers = 10000

-- the numbers below `n`, as the generated code inserts them
unfoldable pub ids_below : ℕ → HashSet ℕ
ids_below zero = HashSet.empty
ids_below (suc n) = (HashSet.insert (ids_below n) n).0

pub data GetMessageHandlerError : Type 0 where
  listener_id_already_exists : ℕ → GetMessageHandlerError
  listener_config_already_exists : ℕ → GetMessageHandlerError
  other_error : GetMessageHandlerError

pub data ConfigError : Type 0 where
  message_handler_id_already_exists : ℕ → ConfigError
  config_already_exists : ConfigError

-- `FREE_MESSAGE_HANDLER_IDS`, `MESSAGE_HANDLER_ID_TO_TRANSPORT_STORAGE`, and for each transport
-- its `message_handler_id_and_listener_config`.
pub record Handlers (M : Type 0) : Type 0 where
  pub free_ids : HashSet ℕ
  pub transport_storage : HashMap ℕ ℕ
  pub listener_configs : ℕ → M

-- `get_extern_fn`: the function of a number.
unfoldable pub get_extern_fn : ℕ → Result ℕ
get_extern_fn id = if ltb id num_message_handlers then ok id else panicked

unfoldable pub find_available_message_handler_id : IterOrder ℕ → HashSet ℕ → HashSet ℕ × Result ℕ
find_available_message_handler_id order free = elim (order.next free) [
  | none ↦ (free, fail resource_exhausted)
  | some id ↦ (HashSet.remove free id, ok id)
]

unfoldable pub free_message_handler_id : HashSet ℕ → ℕ → HashSet ℕ
free_message_handler_id free id = (HashSet.insert free id).0

unfoldable pub insert_message_handler_id_transport :
    HashMap ℕ ℕ → ℕ → ℕ → HashMap ℕ ℕ × Result (Unit {0})
insert_message_handler_id_transport m id transport = elim (HashMap.get m id) [
  | none ↦ (HashMap.insert m id transport, ok tt)
  | some _ ↦ (m, fail already_exists)
]

unfoldable pub remove_message_handler_id_transport :
    HashMap ℕ ℕ → ℕ → HashMap ℕ ℕ × Result (Unit {0})
remove_message_handler_id_transport m id =
    if HashMap.contains_key m id then (HashMap.remove m id, ok tt) else (m, fail not_found)

module _ {M : Type 0} (bimap : BiMap ℕ ListenerConfig M) where
  -- `new()` of every transport, and the numbers of all functions free
  unfoldable pub new : Handlers M
  new = record {
    free_ids = ids_below num_message_handlers;
    transport_storage = HashMap.empty;
    listener_configs = λ s. bimap.new;
  }

  unfoldable pub insert_message_handler_id_and_listener_config :
      M → ℕ → ListenerConfig → M × (ConfigError ⊎ Unit {0})
  insert_message_handler_id_and_listener_config m id config =
      let (m', inserted) = bimap.insert_no_overwrite m id config in
      (
        m',
        (if inserted
            then inr tt
            else if is_some (bimap.get_by_left m' id)
            then inl (message_handler_id_already_exists id)
            else if is_some (bimap.get_by_right m' config)
            then inl config_already_exists
            else inr tt),
      )

  unfoldable pub remove_by_message_handler_id : M → ℕ → M × Result (Unit {0})
  remove_by_message_handler_id m id = (
    bimap.remove_by_left m id,
    (if is_some (bimap.get_by_left m id) then ok tt else fail not_found),
  )

  -- the map of one transport replaced
  unfoldable pub set_configs : Handlers M → ℕ → M → Handlers M
  set_configs w self m = record w {
    listener_configs = λ s. if nat_beq self s then m else w.listener_configs s;
  }

  -- what the error of the third insertion becomes
  unfoldable pub config_error : ConfigError → ℕ → Result (GetMessageHandlerError ⊎ ℕ)
  unfolding get_extern_fn
  config_error (message_handler_id_already_exists listener_id) id =
      ok (inl (listener_id_already_exists listener_id))
  config_error config_already_exists id = elim (get_extern_fn id) [
    | ok f ↦ ok (inl (listener_config_already_exists f))
    | err e ↦ err e
    | panicked ↦ panicked
  ]

  -- `Ok(MessageHandlerFnPtr(get_extern_fn(id)))`
  unfoldable pub handler_of : ℕ → Result (GetMessageHandlerError ⊎ ℕ)
  unfolding get_extern_fn
  handler_of id = elim (get_extern_fn id) [
    | ok f ↦ ok (inr f)
    | err e ↦ err e
    | panicked ↦ panicked
  ]

  -- The rollback steps run in the order in which they were pushed.
  unfoldable pub get_message_handler :
      IterOrder ℕ → ℕ → ℕ → ListenerConfig → Action (Handlers M) (GetMessageHandlerError ⊎ ℕ)
  unfolding find_available_message_handler_id free_message_handler_id
      insert_message_handler_id_transport remove_message_handler_id_transport
      insert_message_handler_id_and_listener_config config_error handler_of set_configs
  get_message_handler order self transport config w =
      let (free, available) = find_available_message_handler_id order w.free_ids in
      elim available [
        | err e ↦ (ok (inl other_error), record w { free_ids = free })
        | panicked ↦ (panicked, record w { free_ids = free })
        | ok id ↦
            let (transports, mapped) =
              insert_message_handler_id_transport w.transport_storage id transport in
            let (configs, added) =
              insert_message_handler_id_and_listener_config (w.listener_configs self) id config in
            elim mapped [
              | err e ↦ (
                ok (inl other_error),
                record w {
                  free_ids = free_message_handler_id free id;
                  transport_storage = transports;
                },
              )
              | panicked ↦ (panicked, w)
              | ok _ ↦ elim added [
                | inl e ↦ (
                  config_error e id,
                  set_configs
                      (record w {
                        free_ids = free_message_handler_id free id;
                        transport_storage = (remove_message_handler_id_transport transports id).0;
                      })
                      self configs,
                )
                | inr _ ↦ (
                  handler_of id,
                  set_configs (record w { free_ids = free; transport_storage = transports }) self
                      configs,
                )
              ]
            ]
      ]

  -- Every step but the lookup goes on after an error, with a warning.
  unfoldable pub release_message_handler : ℕ → ListenerConfig → Action (Handlers M) Unit
  unfolding free_message_handler_id remove_message_handler_id_transport remove_by_message_handler_id
      set_configs
  release_message_handler self config w =
      elim (bimap.get_by_right (w.listener_configs self) config) [
        | none ↦ (fail not_found, w)
        | some id ↦ (
          ok tt,
          set_configs
              (record w {
                free_ids = free_message_handler_id w.free_ids id;
                transport_storage = (remove_message_handler_id_transport w.transport_storage id).0;
              })
              self (remove_by_message_handler_id (w.listener_configs self) id).0,
        )
      ]

  unfoldable pub get_listener_config_for_message_handler_id :
      Handlers M → ℕ → ℕ → Option ListenerConfig
  get_listener_config_for_message_handler_id w self id =
      bimap.get_by_left (w.listener_configs self) id

  unfoldable pub get_listener_for_message_handler_id : Handlers M → ℕ → ℕ → Option ℕ
  get_listener_for_message_handler_id w self id =
      elim (bimap.get_by_left (w.listener_configs self) id) [
        | none ↦ none
        | some config ↦ some config.listener
      ]

  unfoldable pub get_message_handler_ids : Handlers M → ℕ → List ℕ
  get_message_handler_ids w self = bimap.left_values (w.listener_configs self)

  -- the loop of `get_all_listener_configs`: an id with no configuration is passed over
  unfoldable pub configs_of : Handlers M → ℕ → List ℕ → List ListenerConfig
  configs_of w self [] = []
  configs_of w self (id ∷ ids) =
      let rest = configs_of w self ids in
      elim (get_listener_config_for_message_handler_id w self id) [
        | none ↦ rest
        | some config ↦ config ∷ rest
      ]

  unfoldable pub get_all_listener_configs : Handlers M → ℕ → List ListenerConfig
  unfolding configs_of get_listener_config_for_message_handler_id get_message_handler_ids
  get_all_listener_configs w self = configs_of w self (get_message_handler_ids w self)

  -- `get_message_handler_id_transport`: the storage of a function's transport, if it is still
  -- alive (the map holds weak references).
  unfoldable pub get_message_handler_id_transport : (ℕ → Bool) → Handlers M → ℕ → Option ℕ
  get_message_handler_id_transport alive w id = elim (HashMap.get w.transport_storage id) [
    | none ↦ none
    | some transport ↦ (if alive transport then some transport else none)
  ]
