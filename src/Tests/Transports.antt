-- ===== src/Tests/Transports.antt =====
-- A transport on concrete calls.
use up_transport_vsomeip_rus.Prelude.{
  String, leb, nat_beq, string_eq, ◌==◌, if◌then◌else◌, ℕ, ◌≡◌, refl, true, none, some, List, [],
  ◌∷◌, arith, nat_eq,
}
use up_transport_vsomeip_rus.Collections.BiMap.Pairs.{Pairs}
use up_transport_vsomeip_rus.Collections.HashSet.{newest_first}
use up_transport_vsomeip_rus.UProtocol.Status.{ok, fail, already_exists}
use up_transport_vsomeip_rus.DetermineType.{request, determine_type, streamer_use_case}
use up_transport_vsomeip_rus.Config.{
  ServiceConfig, Files, extract_services, services_from_value, service_from_value,
  deserialize_hex_u16,
}
use up_transport_vsomeip_rus.Config.Hex.{hex_u16, to_digit}
use up_transport_vsomeip_rus.Storage.MessageHandlers.{new}
use up_transport_vsomeip_rus.Storage.MessageHandlers.Config.{ListenerConfig, config_eq}
use up_transport_vsomeip_rus.Storage.MessageHandlers.Consistency.{IsConsistent}
use up_transport_vsomeip_rus.Storage.MessageHandlers.Histories.{new-IsConsistent}
use up_transport_vsomeip_rus.Storage.MessageHandlers.Outcomes.{Same}
use up_transport_vsomeip_rus.Engine.{handle_command}
use up_transport_vsomeip_rus.Engine.Listeners.{register_listener_internal}
use up_transport_vsomeip_rus.Transport.{
  Transport, World, serving, command, application_name, get_message_handler, await_engine,
}
use up_transport_vsomeip_rus.Transport.Api.{register_listener, register_one, unregister_listener}
use up_transport_vsomeip_rus.Transport.Histories.{
  Call, sends, registers, unregisters, drops, perform_all, perform_all-IsConsistent,
  perform_all-SameTransport,
}
use up_transport_vsomeip_rus.Transport.Identity.{SameTransport}
use up_transport_vsomeip_rus.Transport.PointToPoint.{
  register_point_to_point_listener, unregister_point_to_point_listener,
}
use up_transport_vsomeip_rus.Transport.Stale.{register-unregister_point_to_point_listener}
use up_transport_vsomeip_rus.Transport.Undo.{register-unregister_listener}
use up_transport_vsomeip_rus.Tests.Data.{
  config_map, up, vs, host, client_uri, service_uri, request_of,
}
use up_transport_vsomeip_rus.Tests.Registries.{first_handler}

abbrev pub services : List ServiceConfig
services = record { service = 4660; instance_id = 1 } ∷ []

-- Values that are numbers: an array (0), a record (1), and fields with texts.
abbrev texts : ℕ → String
texts n =
    if nat_beq n 2
    then "0x1234"
    else if nat_beq n 3
    then "0x0001"
    else if nat_beq n 4
    then "0x0102"
    else "app"

abbrev fields : String → ℕ
fields key =
    if key == "service" then 2 else if key == "instance" then 3 else if key == "id" then 4 else 5

abbrev pub files : Files ℕ
files = record {
  exists = λ path. true;
  read_json_file = λ path. some 0;
  get_array = λ json key. some (1 ∷ []);
  get_field = λ json key. some (fields key);
  as_string = λ json. some (texts json);
}

abbrev pub world : World ℕ (Pairs ℕ ListenerConfig)
world = record {
  up = up;
  vs = vs;
  order = newest_first;
  files = files;
  bimap = config_map;
  turn = λ n. record {
    environment = record {
      get_application = λ name. some 258;
      runtime = record { creates = true; early = []; in_time = none; late = [] };
    };
    in_time = true;
  };
  builds_runtime = λ n. leb 1 n;
  self = 1;
}

abbrev pub transport : Transport (Pairs ℕ ListenerConfig)
transport = record {
  host = host;
  handlers = new config_map;
  point_to_point_listener = none;
  config_path = some "vsomeip.json";
  engine_running = true;
  runtime = serving 10;
  commands = 0;
}

abbrev calls : List Call
calls =
    registers client_uri (some service_uri) 3
    ∷ sends (request_of 5)
    ∷ unregisters client_uri (some service_uri) 4
    ∷ drops
    ∷ []

perform_all-IsConsistent_example :
    IsConsistent config_map (perform_all world calls transport).handlers
perform_all-IsConsistent_example =
    perform_all-IsConsistent world calls transport (new-IsConsistent config_map)

perform_all-SameTransport_example :
    SameTransport
      (record transport { point_to_point_listener = some 9 })
      9
      (perform_all world calls (record transport { point_to_point_listener = some 9 }))
perform_all-SameTransport_example =
    perform_all-SameTransport world calls (record transport { point_to_point_listener = some 9 }) 9
      refl

pub requests : determine_type up client_uri (some service_uri) ≡ ok request
unfolding determine_type streamer_use_case
requests = refl

accepted : (register_listener world client_uri (some service_uri) 3 transport).0 ≡ ok tt
unfolding register_listener register_one application_name get_message_handler command handle_command
    register_listener_internal await_engine
accepted = rw (requests) (rw (first_handler) (ground arith))

register-unregister_listener_example :
    let (r, t1) = register_listener world client_uri (some service_uri) 3 transport in
    let (u, t2) = unregister_listener world client_uri (some service_uri) 3 t1 in
    (u ≡ ok tt) × Same config_map (new config_map) t2.handlers
register-unregister_listener_example =
    register-unregister_listener world client_uri (some service_uri) request 3 transport
      (new-IsConsistent config_map) requests refl accepted

pub served : extract_services files "vsomeip.json" ≡ ok services
unfolding extract_services services_from_value service_from_value deserialize_hex_u16 hex_u16
    to_digit
served = refl

-- what is called afterwards
abbrev afterwards : List Call
afterwards = sends (request_of 77) ∷ registers client_uri (some service_uri) 8 ∷ drops ∷ []

register-unregister_point_to_point_listener_example :
    let t = record transport { point_to_point_listener = some 6 } in
    let t1 = (unregister_point_to_point_listener world t).1 in
    let t2 = perform_all world afterwards t1 in
    (t1.point_to_point_listener ≡ some 6)
    × (t2.point_to_point_listener ≡ some 6)
    × ((register_point_to_point_listener world 7 t2).0 ≡ fail already_exists)
register-unregister_point_to_point_listener_example =
    register-unregister_point_to_point_listener world
      (record transport { point_to_point_listener = some 6 }) 6 7 "vsomeip.json" services afterwards
      refl refl served
