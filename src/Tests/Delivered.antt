-- ===== src/Tests/Delivered.antt =====
-- A message that comes in, on concrete ones.
use up_transport_vsomeip_rus.Prelude.{◌≡◌, refl, true, none, some, nat_eq, string_eq}
use up_transport_vsomeip_rus.Collections.HashMap
use up_transport_vsomeip_rus.Collections.HashSet.{newest_first}
use up_transport_vsomeip_rus.UProtocol.Status.{ok}
use up_transport_vsomeip_rus.Vsomeip.{VsomeipMessage, mt_request}
use up_transport_vsomeip_rus.Storage.RpcCorrelation
use up_transport_vsomeip_rus.Storage.{new as new_storage, insert_me_request_correlation}
use up_transport_vsomeip_rus.Storage.MessageHandlers.{
  new, get_message_handler, release_message_handler,
}
use up_transport_vsomeip_rus.Storage.MessageHandlers.Config.{config_eq}
use up_transport_vsomeip_rus.Storage.MessageHandlers.Histories.{new-IsConsistent}
use up_transport_vsomeip_rus.Conversions.Inbound.{
  convert_vsomeip_msg_to_umsg, convert_vsomeip_mt_request_to_umsg,
}
use up_transport_vsomeip_rus.Dispatch.{call_shared_extern_fn}
use up_transport_vsomeip_rus.Dispatch.Delivery.{converted, call_shared_extern_fn_lem}
use up_transport_vsomeip_rus.Tests.Data.{config_map, config, up, vs, host, request_of, message_of}
use up_transport_vsomeip_rus.Tests.Registries.{first_handler}

abbrev incoming : VsomeipMessage
incoming = message_of mt_request 772 9

converts : converted up vs 500 incoming host ≡ ok (request_of 500)
unfolding convert_vsomeip_msg_to_umsg convert_vsomeip_mt_request_to_umsg new_storage
    RpcCorrelation.new insert_me_request_correlation HashMap.get
converts = refl

call_shared_extern_fn_lem_example :
    let v = (get_message_handler config_map newest_first 1 1 config (new config_map)).1 in
    let end = (release_message_handler config_map 1 config v).1 in
    ((call_shared_extern_fn config_map up vs (λ s. true) 9999 500 incoming v (λ s. host)).0
      ≡ some (3, request_of 500))
    × ((call_shared_extern_fn config_map up vs (λ s. true) 9999 500 incoming end (λ s. host)).0
        ≡ none)
call_shared_extern_fn_lem_example =
    call_shared_extern_fn_lem config_map up vs (λ s. true) 1 config (new-IsConsistent config_map)
      newest_first 9999 500 incoming (λ s. host) (request_of 500) first_handler refl converts
