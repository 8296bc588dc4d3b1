-- ===== src/Tests/Registries.antt =====
-- The registries of a transport's storage on concrete calls.
use up_transport_vsomeip_rus.Prelude.{
  ℕ, suc, ◌≡◌, refl, true, false, not, none, some, List, [], ◌∷◌, ◌⊎◌, inr, arith, nat_eq,
}
use up_transport_vsomeip_rus.Collections.BiMap.Right.{get_by_right-new}
use up_transport_vsomeip_rus.Collections.HashMap
use up_transport_vsomeip_rus.Collections.HashSet.{newest_first, next-insert}
use up_transport_vsomeip_rus.Collections.HashMap.{get-empty}
use up_transport_vsomeip_rus.UProtocol.Status.{ok, panicked}
use up_transport_vsomeip_rus.Storage.RpcCorrelation
use up_transport_vsomeip_rus.Storage.RpcCorrelation.{retrieve_session_id}
use up_transport_vsomeip_rus.Storage.RpcCorrelation.Overflow.{after_all, retrieve_session_id_end}
use up_transport_vsomeip_rus.Storage.RpcCorrelation.Refinement.{
  Call, retrieve, insert_ue, remove_ue, insert_me, remove_me, serve_all, ideal_all, start,
  serve_all-ideal_all,
}
use up_transport_vsomeip_rus.Storage.OfferedRequested
use up_transport_vsomeip_rus.Storage.OfferedRequested.Marks.{
  Mark, event_offered, service_offered, is_marked, mark, mark_all, was_marked, mark_all_lem,
}
use up_transport_vsomeip_rus.Storage.MessageHandlers.{
  GetMessageHandlerError, new, get_message_handler, ids_below, insert_message_handler_id_transport,
  insert_message_handler_id_and_listener_config, get_extern_fn,
}
use up_transport_vsomeip_rus.Storage.MessageHandlers.Config.{config_eq}
use up_transport_vsomeip_rus.Storage.MessageHandlers.Histories.{
  new-IsConsistent, contains-ids_below,
}
use up_transport_vsomeip_rus.Storage.MessageHandlers.Outcomes.{Answers, get_message_handler-Answers}
use up_transport_vsomeip_rus.Tests.Data.{config_map, config}

abbrev rpc_calls : List Call
rpc_calls =
    retrieve 5
    ∷ insert_ue 327681 77
        (record { authority_name = "a"; ue_id = 1; ue_version_major = 1; resource_id = 0 })
    ∷ retrieve 5
    ∷ remove_ue 327681
    ∷ remove_ue 327681
    ∷ insert_me 8 9
    ∷ insert_me 8 10
    ∷ remove_me 8
    ∷ []

serve_all-ideal_all_example : serve_all rpc_calls RpcCorrelation.new ≡ ideal_all rpc_calls start
serve_all-ideal_all_example = serve_all-ideal_all rpc_calls

-- a registry in which client 5 has the last session id left
abbrev last_session : RpcCorrelation.RpcCorrelation
last_session = record RpcCorrelation.new {
  client_id_session_id_tracking = HashMap.insert HashMap.empty 5 65535;
}

-- what others call after the panic
abbrev later_calls : List Call
later_calls = retrieve 5 ∷ remove_ue 9 ∷ retrieve 6 ∷ []

retrieve_session_id_end_example :
    ((retrieve_session_id true 5 last_session).0 ≡ panicked)
    × ((retrieve_session_id true 6
          (after_all true later_calls (retrieve_session_id true 5 last_session).1)).0
        ≡ panicked)
    × ((retrieve_session_id false 5 last_session).0 ≡ ok 65535)
    × ((retrieve_session_id false 5 (retrieve_session_id false 5 last_session).1).0 ≡ ok 0)
unfolding RpcCorrelation.new HashMap.get HashMap.insert
retrieve_session_id_end_example = retrieve_session_id_end last_session 5 6 later_calls refl refl

abbrev marks : List (Mark × (ℕ × ℕ × ℕ))
marks = (event_offered, (1, 1, 7)) ∷ (service_offered, (1, 1, 8)) ∷ []

mark_all_lem_example :
    (is_marked event_offered (mark_all OfferedRequested.new marks) (1, 1, 7)
      ≡ was_marked event_offered (1, 1, 7) marks)
    × ((mark event_offered (mark_all OfferedRequested.new marks) (1, 1, 7)).1
        ≡ not (was_marked event_offered (1, 1, 7) marks))
mark_all_lem_example = mark_all_lem marks event_offered (1, 1, 7)

get_message_handler-Answers_example :
    (a : GetMessageHandlerError ⊎ ℕ) × ((get_message_handler config_map newest_first 1 1 config
        (new config_map)).0
      ≡ ok a)
    × Answers config_map
        (λ s. true)
        1
        config
        (new config_map)
        (get_message_handler config_map newest_first 1 1 config (new config_map)).1
        a
get_message_handler-Answers_example =
    get_message_handler-Answers config_map 1 config (new-IsConsistent config_map) newest_first
      (λ s. true)

pub newest-ids_below : (n : ℕ) → newest_first.next (ids_below (suc n)) ≡ some n
unfolding ids_below
newest-ids_below n = next-insert (ids_below n) n (ground (arith, contains-ids_below n n))

unmapped : config_map.get_by_right config_map.new config ≡ none
unmapped = get_by_right-new config_map config_map.new config

inserted : (config_map.insert_no_overwrite config_map.new 9999 config).1 ≡ true
inserted = ground (
  arith,
  unmapped,
  config_map.get_by_left-new 9999,
  config_map.insert_inserted config_map.new 9999 config,
)

pub first_handler :
    (get_message_handler config_map newest_first 1 1 config (new config_map)).0 ≡ ok (inr 9999)
unfolding get_message_handler new insert_message_handler_id_transport
    insert_message_handler_id_and_listener_config get_extern_fn
first_handler = ground (arith, newest-ids_below 9999, inserted, get-empty {K = ℕ} {V = ℕ} 9999)
