-- ===== src/Vsomeip.antt =====
-- The data of vsomeip and of its bindings in vsomeip-sys that the transport reads and builds, the
-- calls that it makes of a vsomeip application, and what vsomeip itself decides.
use up_transport_vsomeip_rus.Prelude.{ℕ, String, Bool, Option, List}

-- `return_code_e`: the values that the conversions name, and the others by number.
pub data ReturnCode : Type 0 where
  e_ok e_not_ok e_unknown_service e_unknown_method e_not_ready e_not_reachable : ReturnCode
  e_timeout e_wrong_protocol_version e_wrong_interface_version e_malformed_message : ReturnCode
  e_wrong_message_type : ReturnCode
  other_code : ℕ → ReturnCode

-- `message_type_e`, in the same way.
pub data MessageType : Type 0 where
  mt_request mt_notification mt_response mt_error : MessageType
  other_type : ℕ → MessageType

pub record VsomeipMessage : Type 0 where
  pub service : ℕ
  pub instance_id : ℕ
  pub method : ℕ
  pub client : ℕ
  pub session : ℕ
  pub interface_version : ℕ
  pub return_code : ReturnCode
  pub message_type : MessageType
  pub payload : Option (List ℕ)

-- A call of a vsomeip application, with its arguments in order. A message handler is named by the
-- number of its extern function.
pub data AppCall : Type 0 where
  offer_service request_service : ℕ → ℕ → ℕ → ℕ → AppCall
  offer_single_event request_single_event : ℕ → ℕ → ℕ → ℕ → AppCall
  subscribe : ℕ → ℕ → ℕ → ℕ → ℕ → AppCall
  register_message_handler : ℕ → ℕ → ℕ → ℕ → AppCall
  unregister_message_handler : ℕ → ℕ → ℕ → AppCall
  notify : ℕ → ℕ → ℕ → List ℕ → Bool → AppCall
  send : VsomeipMessage → AppCall
  init unregister_state_handler stop : AppCall
  register_state_handler : ℕ → AppCall
  -- on a thread of its own
  start : String → AppCall

-- What vsomeip fixes: its wildcards and defaults, the messages that it creates, and the request id
-- of a message.
pub record VsomeipApi : Type 0 where
  pub any_instance : ℕ
  pub any_major : ℕ
  pub any_minor : ℕ
  pub default_minor : ℕ
  -- `runtime.create_request(true)` and `runtime.create_message(true)`
  pub create_request : VsomeipMessage
  pub create_message : VsomeipMessage
  -- `message_base.get_request()`
  pub get_request : VsomeipMessage → ℕ
