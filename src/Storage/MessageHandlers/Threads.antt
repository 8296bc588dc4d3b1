-- ===== src/Storage/MessageHandlers/Threads.antt =====
-- Threads that call up-transport-vsomeip/src/storage/message_handler_registry.rs: each function
-- takes its locks one by one, works on what they guard in several steps, and drops them one by one,
-- while other threads do the same (Threads.System). The locks are `MESSAGE_HANDLER_ID_TO_TRANSPORT_STORAGE`,
-- `FREE_MESSAGE_HANDLER_IDS` and the `message_handler_id_and_listener_config` of each registry.
pub mod System
pub mod Body
pub mod Exclusion
pub mod Sequential
pub mod Linking
pub mod Writing
pub mod Reading
pub mod Linearisation
pub mod Outcomes
pub mod Waiting
use up_transport_vsomeip_rus.Prelude.{
  ℕ, ◌+◌, ◌≡◌, Bool, true, false, Option, none, some, List, [], ◌∷◌, ◌++◌, ◌⊎◌, inl, inr, ◌||◌,
  length, nat_beq, nat_eq, if◌then◌else◌,
}
use up_transport_vsomeip_rus.Collections.HashSet.{IterOrder, member}
use up_transport_vsomeip_rus.Collections.BiMap.{BiMap}
use up_transport_vsomeip_rus.UProtocol.Status.{Result, ok, err, panicked, fail, not_found}
use up_transport_vsomeip_rus.Storage.MessageHandlers.Config.{ListenerConfig, config_eq}
use up_transport_vsomeip_rus.Storage.MessageHandlers.{
  Handlers, ConfigError, GetMessageHandlerError, other_error, find_available_message_handler_id,
  free_message_handler_id, insert_message_handler_id_transport, remove_message_handler_id_transport,
  insert_message_handler_id_and_listener_config, remove_by_message_handler_id, set_configs,
  config_error, handler_of, get_message_handler, release_message_handler, get_message_handler_ids,
  get_listener_config_for_message_handler_id, get_listener_for_message_handler_id,
  get_message_handler_id_transport,
}

-- The locks by number, in the order in which a function takes them.
abbrev pub transports : ℕ
transports = 0

abbrev pub free_ids : ℕ
free_ids = 1

-- the lock of the registry in a transport's storage
abbrev pub configs : ℕ → ℕ
configs self = 2 + self

-- `get_message_handler` and `release_message_handler`, by the transport of the number
pub data WriteCall : Type 0 where
  gets releases : ℕ → ListenerConfig → WriteCall

abbrev pub self_of : WriteCall → ℕ
self_of (gets self config) = self
self_of (releases self config) = self

-- `get_message_handler_id_transport`, `get_message_handler_ids`,
-- `get_listener_config_for_message_handler_id` and `get_listener_for_message_handler_id`
pub data ReadCall : Type 0 where
  transport_of ids_of : ℕ → ReadCall
  config_of listener_of : ℕ → ℕ → ReadCall

abbrev pub lock_of : ReadCall → ℕ
lock_of (transport_of id) = transports
lock_of (ids_of self) = configs self
lock_of (config_of self id) = configs self
lock_of (listener_of self id) = configs self

pub data Request : Type 0 where
  write : WriteCall → Request
  read : ReadCall → Request

pub data Reply : Type 0 where
  got : Result (GetMessageHandlerError ⊎ ℕ) → Reply
  released : Result (Unit {0}) → Reply
  transport_is : Option ℕ → Reply
  ids_are : List ℕ → Reply
  config_is : Option ListenerConfig → Reply
  listener_is : Option ℕ → Reply

-- What a writer with all its locks is about to do.
pub data Stage : Type 0 where
  -- `get_message_handler`: find a function, map it, add the configuration;
  finding : ListenerConfig → Stage
  mapping adding : ListenerConfig → ℕ → Stage
  -- roll back where the function was mapped already, or the configuration was there
  undoing : ℕ → Stage
  freeing unmapping : ConfigError → ℕ → Stage
  -- `release_message_handler`
  looking : ListenerConfig → Stage
  giving_back forgetting removing : ℕ → Stage

abbrev pub first : WriteCall → Stage
first (gets self config) = finding config
first (releases self config) = looking config

-- The locks that a writer holds. The first rollback step owns the guard of the free functions, and
-- drops it.
abbrev pub held : ℕ → Stage → List ℕ
held self (unmapping e id) = transports ∷ configs self ∷ []
held self _ = transports ∷ free_ids ∷ configs self ∷ []

-- After a step there is another, or the reply is known and the guards are dropped in some order.
pub data Next : Type 0 where
  goes_on : Stage → Next
  done : (guards : List ℕ) → Reply → Next

-- guards that are dropped at the end of a function: the last that was taken first
abbrev pub backwards : ℕ → List ℕ
backwards self = configs self ∷ free_ids ∷ transports ∷ []

module _ {M : Type 0} (bimap : BiMap ℕ ListenerConfig M) (order : IterOrder ℕ) where
  -- Rollback steps own the guards, and on success are dropped in the order of their pushes.
  unfoldable pub body : ℕ → Stage → Handlers M → Next × Handlers M
  unfolding find_available_message_handler_id free_message_handler_id
      insert_message_handler_id_transport remove_message_handler_id_transport
      insert_message_handler_id_and_listener_config remove_by_message_handler_id config_error
      handler_of set_configs
  body self (finding c) w =
      let (free, available) = find_available_message_handler_id order w.free_ids in
      let v : Handlers M = record w { free_ids = free } in
      elim available [
        | ok id ↦ (goes_on (mapping c id), v)
        | err e ↦ (done (backwards self) (got (ok (inl other_error))), v)
        | panicked ↦ (done (backwards self) (got panicked), v)
      ]
  body self (mapping c id) w =
      let (mapped, added) = insert_message_handler_id_transport w.transport_storage id self in
      let v : Handlers M = record w { transport_storage = mapped } in
      elim added [
        | ok a ↦ (goes_on (adding c id), v)
        | err e ↦ (goes_on (undoing id), v)
        | panicked ↦ (done (backwards self) (got panicked), v)
      ]
  body self (adding c id) w =
      let (m, added) =
        insert_message_handler_id_and_listener_config bimap (w.listener_configs self) id c in
      let v = set_configs bimap w self m in
      elim added [
        | inl e ↦ (goes_on (freeing e id), v)
        | inr a ↦ (done (free_ids ∷ transports ∷ configs self ∷ []) (got (handler_of bimap id)), v)
      ]
  body self (undoing id) w = (
    done (configs self ∷ transports ∷ []) (got (ok (inl other_error))),
    record w { free_ids = free_message_handler_id w.free_ids id },
  )
  body self (freeing e id) w =
      (goes_on (unmapping e id), record w { free_ids = free_message_handler_id w.free_ids id })
  body self (unmapping e id) w = (
    done (configs self ∷ []) (got (config_error bimap e id)),
    record w { transport_storage = (remove_message_handler_id_transport w.transport_storage id).0 },
  )
  body self (looking c) w = elim (bimap.get_by_right (w.listener_configs self) c) [
    | none ↦ (done (backwards self) (released (fail not_found)), w)
    | some id ↦ (goes_on (giving_back id), w)
  ]
  body self (giving_back id) w =
      (goes_on (forgetting id), record w { free_ids = free_message_handler_id w.free_ids id })
  body self (forgetting id) w = (
    goes_on (removing id),
    record w { transport_storage = (remove_message_handler_id_transport w.transport_storage id).0 },
  )
  body self (removing id) w = (
    done (backwards self) (released (ok tt)),
    set_configs bimap w self (remove_by_message_handler_id bimap (w.listener_configs self) id).0,
  )

  -- The same calls, each in one step.
  unfoldable pub perform_write : WriteCall → Handlers M → Reply × Handlers M
  perform_write (gets self c) w =
      let (r, v) = get_message_handler bimap order self self c w in (got r, v)
  perform_write (releases self c) w =
      let (r, v) = release_message_handler bimap self c w in (released r, v)

  unfoldable pub answer : (ℕ → Bool) → ReadCall → Handlers M → Reply
  answer alive (transport_of id) w =
      transport_is (get_message_handler_id_transport bimap alive w id)
  answer alive (ids_of self) w = ids_are (get_message_handler_ids bimap w self)
  answer alive (config_of self id) w =
      config_is (get_listener_config_for_message_handler_id bimap w self id)
  answer alive (listener_of self id) w =
      listener_is (get_listener_for_message_handler_id bimap w self id)

  unfoldable pub perform : (ℕ → Bool) → Request → Handlers M → Reply × Handlers M
  unfolding perform_write answer
  perform alive (write c) w = perform_write c w
  perform alive (read c) w = (answer alive c w, w)
