-- ===== src/Tests/Configs.antt =====
-- Configuration files, and the creation of a transport from one.
use up_transport_vsomeip_rus.Prelude.{
  ℕ, ◌≡◌, refl, true, false, none, some, ◌&&◌, List, [], ◌∷◌, Every, arith, nat_eq,
}
use up_transport_vsomeip_rus.Config.Hex.{from_codes, to_digit}
use up_transport_vsomeip_rus.Config.Hex.Value.{prefixed, number, unsigned, from_codes-prefixed}
use up_transport_vsomeip_rus.Config.Hex.Print.{printed, from_codes-printed}
use up_transport_vsomeip_rus.Transport.Services.{IsFilterOf, extract_services-service_filter}
use up_transport_vsomeip_rus.Tests.Transports.{world, transport, services, served}
use up_transport_vsomeip_rus.Storage.{
  find_application_state_availability_handler_id, get_application_state_availability_handler,
  free_application_state_availability_handler_id,
}
use up_transport_vsomeip_rus.Collections.HashSet
use up_transport_vsomeip_rus.Collections.HashSet.{newest_first, next-insert, contains-empty}
use up_transport_vsomeip_rus.Collections.BiMap.Pairs.{Pairs}
use up_transport_vsomeip_rus.Collections.BiMap.Right.{get_by_right-new}
use up_transport_vsomeip_rus.UProtocol.Status.{Result, ok, fail, invalid_argument}
use up_transport_vsomeip_rus.Config.{
  extract_application, application_from_value, deserialize_hex_u16,
}
use up_transport_vsomeip_rus.Config.Hex.{hex_u16}
use up_transport_vsomeip_rus.Storage.MessageHandlers
use up_transport_vsomeip_rus.Storage.StateHandlers
use up_transport_vsomeip_rus.Storage.MessageHandlers.Config.{ListenerConfig, config_eq}
use up_transport_vsomeip_rus.Storage.MessageHandlers.Registered.{holds}
use up_transport_vsomeip_rus.Engine.{handle_command}
use up_transport_vsomeip_rus.Engine.App.{start_vsomeip_app_internal, create_app}
use up_transport_vsomeip_rus.Transport.{Transport, World, command, with_code, await_engine}
use up_transport_vsomeip_rus.Transport.LocalUri.{get_source_uri}
use up_transport_vsomeip_rus.Transport.{serving}
use up_transport_vsomeip_rus.Transport.Life.{
  get_callback_runtime_handle, begin, Process, me, initialize_vsomeip_app, new_internal,
  new_with_config,
}
use up_transport_vsomeip_rus.Transport.Starting.{
  is_accepted, handlers-new_with_config, new_with_config_made, new_with_config_refused,
}
use up_transport_vsomeip_rus.Tests.Data.{config_map, client_uri, service_uri}
use up_transport_vsomeip_rus.Tests.Transports.{files}

abbrev text : List ℕ
text = b'1' ∷ b'a' ∷ b'F' ∷ []

from_codes-prefixed_example : from_codes (prefixed 1 text) ≡ number (unsigned text)
from_codes-prefixed_example = from_codes-prefixed 1 text refl

text_read : number (unsigned text) ≡ some 431
unfolding to_digit
text_read = refl

from_codes-printed_example : from_codes (prefixed 1 (printed true 4660)) ≡ some 4660
from_codes-printed_example = from_codes-printed true 1 4660 (omega arith)

extract_services-service_filter_example : Every (IsFilterOf world transport) services
extract_services-service_filter_example =
    extract_services-service_filter world transport "vsomeip.json" services served

-- the application is not there before the transport is created, and reports its state in time
abbrev starting : World ℕ (Pairs ℕ ListenerConfig)
starting = record world {
  turn = λ n. record {
    environment = record {
      get_application = λ name. none;
      runtime = record { creates = true; early = []; in_time = some 0; late = [] };
    };
    in_time = true;
  };
}

abbrev process : Process (Pairs ℕ ListenerConfig)
process = record {
  overflow_checks = false;
  handlers = MessageHandlers.new config_map;
  state_handlers = record { free_ids = (HashSet.insert HashSet.empty 7).0; received = λ id. [] };
}

fresh : (x : ListenerConfig) → holds config_map process.handlers 1 x ≡ false
unfolding MessageHandlers.new
fresh x = rw (get_by_right-new config_map config_map.new x) refl

handlers-new_with_config_example :
    (new_with_config starting client_uri "device" "vsomeip.json" none process).1.handlers
    ≡ process.handlers
handlers-new_with_config_example =
    handlers-new_with_config starting client_uri "device" "vsomeip.json" none process fresh

new_with_config_refused_example :
    new_with_config starting service_uri "device" "vsomeip.json" none process
    ≡ (fail invalid_argument, process)
new_with_config_refused_example =
    new_with_config_refused starting service_uri "device" "vsomeip.json" none process refl

read : extract_application files "vsomeip.json" ≡ ok (record { name = "app"; id = 258 })
unfolding extract_application application_from_value deserialize_hex_u16 hex_u16 to_digit
read = refl

abbrev begun : Result (Unit {0}) × Transport (Pairs ℕ ListenerConfig)
begun = initialize_vsomeip_app starting (
    me starting (record { name = "app"; id = 258 }) client_uri "device" (some "vsomeip.json")
      (serving 10) process)

next_free : newest_first.next process.state_handlers.free_ids ≡ some 7
next_free = next-insert HashSet.empty 7 (contains-empty {A = ℕ} 7)

initialized : begun.0 ≡ ok tt
unfolding initialize_vsomeip_app me command with_code handle_command start_vsomeip_app_internal
    create_app find_application_state_availability_handler_id
    get_application_state_availability_handler free_application_state_availability_handler_id
    StateHandlers.find_available_state_handler_id StateHandlers.get_state_handler StateHandlers.recv
    StateHandlers.call_state_handler StateHandlers.free_state_handler_id await_engine
initialized = ground (arith, next_free)

made : (new_with_config starting client_uri "device" "vsomeip.json" none process).0 ≡ ok begun.1
unfolding new_with_config new_internal get_callback_runtime_handle begin
made = rw (read) (ground (arith, initialized))

new_with_config_made_example :
    (starting.files.exists "vsomeip.json" && is_accepted starting client_uri ≡ true)
    × (begun.1.engine_running ≡ true)
    × (begun.1.handlers ≡ process.handlers)
    × (begun.1.point_to_point_listener ≡ none)
    × (begun.1.config_path ≡ some "vsomeip.json")
    × (get_source_uri begun.1 ≡ client_uri)
    × (begun.1.runtime ≡ serving 10)
new_with_config_made_example =
    new_with_config_made starting client_uri "device" "vsomeip.json" none process begun.1 made
