-- ===== src/Engine.antt =====
-- up-transport-vsomeip/src/transport_engine.rs: the one thread on which all calls of the vsomeip
-- application are made, command by command.
pub mod Listeners
pub mod Send
pub mod App
pub mod Loop
pub mod Channel
use up_transport_vsomeip_rus.Prelude.{
  ℕ, nat_eq, String, Bool, true, false, Option, none, some, List, [], ◌∷◌,
}
use up_transport_vsomeip_rus.Collections.HashSet.{IterOrder}
use up_transport_vsomeip_rus.Collections.BiMap.{is_some}
use up_transport_vsomeip_rus.Action.{Action, ok_or, continue, ◌>>=◌, ◌>>◌}
use up_transport_vsomeip_rus.UProtocol.{UUri, UMessage}
use up_transport_vsomeip_rus.UProtocol.Status.{Result, ok, err, panicked, internal}
use up_transport_vsomeip_rus.Vsomeip.{VsomeipApi}
use up_transport_vsomeip_rus.DetermineType.{RegistrationType}
use up_transport_vsomeip_rus.Storage.{Host}
use Listeners.{register_listener_internal, unregister_listener_internal}
use Send.{send_internal}
use App.{Runtime, start_vsomeip_app_internal, stop_vsomeip_app_internal}

-- A command, without its return channel and without the registries, which are the host's.
pub data TransportCommand : Type 0 where
  register_listener : UUri → Option UUri → RegistrationType → ℕ → String → TransportCommand
  unregister_listener : UUri → Option UUri → RegistrationType → String → TransportCommand
  send : UMessage → RegistrationType → String → TransportCommand
  start_vsomeip_app : ℕ → String → TransportCommand
  stop_vsomeip_app : String → TransportCommand

-- What the vsomeip runtime answers while a command is handled: the application of a name, by its
-- client id, if there is one; and how it creates an application.
pub record Environment : Type 0 where
  pub get_application : String → Option ℕ
  pub runtime : Runtime

-- A reply goes out before the next command is taken. A panic ends the thread: the command at hand
-- and those that follow get no reply.
abbrev pub answer :
    Result (Unit {0}) → Host → List (Result (Unit {0})) × Host → List (Result (Unit {0})) × Host
answer panicked h rest = ([], h)
answer (ok a) h rest = (ok a ∷ rest.0, rest.1)
answer (err e) h rest = (err e ∷ rest.0, rest.1)

module _ (vs : VsomeipApi) (order : IterOrder ℕ) where
  -- one round of the loop: the result that goes into the return channel
  unfoldable pub handle_command : Environment → TransportCommand → Action Host (Unit {0})
  handle_command env (register_listener src sink registration_type msg_handler app_name) = do
    ok_or (env.get_application app_name) internal
    register_listener_internal vs src sink registration_type msg_handler
  handle_command env (unregister_listener src sink registration_type app_name) = do
    ok_or (env.get_application app_name) internal
    unregister_listener_internal vs src sink registration_type
  handle_command env (send umsg message_type app_name) = do
    client ← ok_or (env.get_application app_name) internal
    send_internal vs client umsg
  handle_command env (start_vsomeip_app client_id app_name) =
      start_vsomeip_app_internal order env.runtime (is_some (env.get_application app_name)) app_name
  handle_command env (stop_vsomeip_app app_name) =
      stop_vsomeip_app_internal (is_some (env.get_application app_name))

  -- The replies to the commands that were sent, in order.
  unfoldable pub event_loop :
      List (Environment × TransportCommand) → Host → List (Result (Unit {0})) × Host
  unfolding handle_command
  event_loop [] h = ([], h)
  event_loop ((env, cmd) ∷ cmds) h =
      let (reply, h') = handle_command env cmd h in answer reply h' (event_loop cmds h')
