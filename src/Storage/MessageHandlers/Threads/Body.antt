-- ===== src/Storage/MessageHandlers/Threads/Body.antt =====
-- The steps of a writer come to what the function does at once.
use up_transport_vsomeip_rus.Prelude.{ℕ, zero, suc, ◌≡◌, refl, false, arith, nat_eq, nat_beq}
use up_transport_vsomeip_rus.Collections.HashSet.{IterOrder}
use up_transport_vsomeip_rus.Collections.BiMap.{BiMap}
use up_transport_vsomeip_rus.UProtocol.Status.{panicked}
use up_transport_vsomeip_rus.Storage.MessageHandlers.Config.{ListenerConfig, config_eq}
use up_transport_vsomeip_rus.Storage.MessageHandlers.{
  Handlers, find_available_message_handler_id, insert_message_handler_id_transport,
  insert_message_handler_id_and_listener_config, set_configs, get_message_handler,
  release_message_handler,
}
use up_transport_vsomeip_rus.Storage.MessageHandlers.Threads.{
  WriteCall, gets, releases, self_of, Reply, got, Stage, first, finding, mapping, adding, undoing,
  freeing, unmapping, looking, giving_back, forgetting, removing, Next, goes_on, done, body,
  perform_write,
}

-- how many steps there are at most from a stage on, with the one that has none left
abbrev rank : Stage → ℕ
rank (finding c) = 5
rank (mapping c id) = 4
rank (adding c id) = 3
rank (undoing id) = 3
rank (freeing e id) = 2
rank (unmapping e id) = 1
rank (looking c) = 4
rank (giving_back id) = 3
rank (forgetting id) = 2
rank (removing id) = 1

module _ {M : Type 0} (bimap : BiMap ℕ ListenerConfig M) (order : IterOrder ℕ) (self : ℕ) where
  abbrev run : ℕ → Next × Handlers M → Reply × Handlers M
  run n (done guards r, w) = (r, w)
  run zero (goes_on stage, w) = (got panicked, w)
  run (suc n) (goes_on stage, w) = run n (body bimap order self stage w)

  -- what becomes of a writer that is left alone
  unfoldable pub finish : Next × Handlers M → Reply × Handlers M
  finish (done guards r, w) = (r, w)
  finish (goes_on stage, w) = run (rank stage) (goes_on stage, w)

  -- A step of the writer changes nothing of it.
  pub finish-body :
      (stage : Stage) (w : Handlers M)
      → finish (body bimap order self stage w) ≡ finish (goes_on stage, w)
  unfolding finish body find_available_message_handler_id insert_message_handler_id_transport
      insert_message_handler_id_and_listener_config
  finish-body (finding c) w = ground arith
  finish-body (mapping c id) w = ground arith
  finish-body (adding c id) w = ground arith
  finish-body (undoing id) w = refl
  finish-body (freeing e id) w = refl
  finish-body (unmapping e id) w = refl
  finish-body (looking c) w = ground arith
  finish-body (giving_back id) w = refl
  finish-body (forgetting id) w = refl
  finish-body (removing id) w = refl

  -- The registries of other transports are left alone.
  pub finish-others :
      (stage : Stage) (w : Handlers M) (other : ℕ)
      → nat_beq self other ≡ false
      → (finish (goes_on stage, w)).1.listener_configs other ≡ w.listener_configs other
  unfolding finish body find_available_message_handler_id insert_message_handler_id_transport
      insert_message_handler_id_and_listener_config set_configs
  finish-others (finding c) w other d = ground arith
  finish-others (mapping c id) w other d = ground arith
  finish-others (adding c id) w other d = ground arith
  finish-others (undoing id) w other d = ground arith
  finish-others (freeing e id) w other d = ground arith
  finish-others (unmapping e id) w other d = ground arith
  finish-others (looking c) w other d = ground arith
  finish-others (giving_back id) w other d = ground arith
  finish-others (forgetting id) w other d = ground arith
  finish-others (removing id) w other d = ground arith

module _ {M : Type 0} (bimap : BiMap ℕ ListenerConfig M) (order : IterOrder ℕ) where
  -- A writer that is left alone does what the function does at once.
  pub finish-first :
      (c : WriteCall) (w : Handlers M)
      → finish bimap order (self_of c) (goes_on (first c), w) ≡ perform_write bimap order c w
  unfolding finish body perform_write find_available_message_handler_id
      insert_message_handler_id_transport insert_message_handler_id_and_listener_config
      get_message_handler release_message_handler
  finish-first (gets self c) w = ground arith
  finish-first (releases self c) w = ground arith
