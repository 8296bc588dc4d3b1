-- ===== src/Tests/Data.antt =====
-- A transport, its messages, and simple versions of what it calls, to run the model on.
use up_transport_vsomeip_rus.Prelude.{
  ℕ, ◌/◌, ◌%◌, true, false, none, some, [], ◌∷◌, ◌==◌, nat_eq, string_eq,
}
use up_transport_vsomeip_rus.Collections.BiMap.{BiMap}
use up_transport_vsomeip_rus.Collections.BiMap.Pairs.{Pairs, pairs}
use up_transport_vsomeip_rus.UProtocol.{UUri, UMessage, request, response, publish, UpRust}
use up_transport_vsomeip_rus.UProtocol.Status.{ok_code}
use up_transport_vsomeip_rus.Vsomeip.{
  VsomeipApi, VsomeipMessage, MessageType, mt_request, mt_response, e_ok,
}
use up_transport_vsomeip_rus.Utils.{create_request_id}
use up_transport_vsomeip_rus.Storage.{Host, new}
use up_transport_vsomeip_rus.Storage.StateHandlers
use up_transport_vsomeip_rus.Storage.MessageHandlers.Config.{ListenerConfig, config_eq}

abbrev pub config_map : BiMap ℕ ListenerConfig (Pairs ℕ ListenerConfig)
config_map = pairs

abbrev pub client_uri : UUri
client_uri = record {
  authority_name = "linux";
  ue_id = 65541;
  ue_version_major = 1;
  resource_id = 0;
}

abbrev pub service_uri : UUri
service_uri = record {
  authority_name = "device";
  ue_id = 4660;
  ue_version_major = 1;
  resource_id = 1111;
}

abbrev pub topic_uri : UUri
topic_uri = record {
  authority_name = "linux";
  ue_id = 65541;
  ue_version_major = 1;
  resource_id = 32769;
}

abbrev pub any_uri : UUri
any_uri = record {
  authority_name = "*";
  ue_id = 4294967295;
  ue_version_major = 255;
  resource_id = 65535;
}

abbrev pub config : ListenerConfig
config = record { source_filter = client_uri; sink_filter = some service_uri; listener = 3 }

abbrev pub request_of : ℕ → UMessage
request_of id = record {
  attributes = some (record {
    type_ = some request;
    id = some id;
    reqid = none;
    source = some client_uri;
    sink = some service_uri;
    commstatus = none;
  });
  payload = some (1 ∷ 2 ∷ []);
}

abbrev pub response_to : ℕ → UMessage
response_to id = record {
  attributes = some (record {
    type_ = some response;
    id = some 900;
    reqid = some id;
    source = some service_uri;
    sink = some client_uri;
    commstatus = some (some ok_code);
  });
  payload = some (3 ∷ []);
}

abbrev pub event : UMessage
event = record {
  attributes = some (record {
    type_ = some publish;
    id = some 901;
    reqid = none;
    source = some topic_uri;
    sink = none;
    commstatus = none;
  });
  payload = some [];
}

abbrev pub up : UpRust
up = record {
  has_wildcard_authority = λ u. u.authority_name == "*";
  has_wildcard_entity_type = λ u. u.ue_id % 65536 == 65535;
  has_wildcard_entity_instance = λ u. u.ue_id / 65536 == 65535;
  has_wildcard_version = λ u. u.ue_version_major == 255;
  has_wildcard_resource_id = λ u. u.resource_id == 65535;
  any = any_uri;
  try_from_parts = λ authority entity version resource. some (record {
    authority_name = authority;
    ue_id = entity;
    ue_version_major = version;
    resource_id = resource;
  });
  verify_rpc_response = λ u. u.resource_id == 0;
  validate = λ a. true;
  build_publish = λ id topic payload. some event;
  build_request = λ id sink source ttl payload. some (request_of id);
  build_response = λ id sink reqid source code payload. some (response_to reqid);
}

-- a message of a client's session
abbrev pub message_of : MessageType → ℕ → ℕ → VsomeipMessage
message_of type client session = record {
  service = 4660;
  instance_id = 1;
  method = 1111;
  client = client;
  session = session;
  interface_version = 1;
  return_code = e_ok;
  message_type = type;
  payload = some (3 ∷ []);
}

abbrev pub vs : VsomeipApi
vs = record {
  any_instance = 65535;
  any_major = 255;
  any_minor = 4294967295;
  default_minor = 0;
  create_request = message_of mt_request 0 0;
  create_message = message_of mt_response 0 0;
  get_request = λ m. create_request_id m.client m.session;
}

abbrev pub host : Host
host = record {
  overflow_checks = false;
  storage = new (record { name = "app"; id = 258 }) client_uri "device";
  state_handlers = StateHandlers.new;
  calls = [];
}
