-- ===== src/Engine/Channel/Happenings.antt =====
-- What happens to the storage of a transport, in order: its engine takes a command, or a message
-- arrives and is converted (vsomeip-proc-macro/src/lib.rs, message_conversions.rs).
use up_transport_vsomeip_rus.Prelude.{ℕ, ◌≡◌, ◌∙◌, refl, ap, List, [], ◌∷◌, nat_eq, map}
use up_transport_vsomeip_rus.Collections.HashSet.{IterOrder}
use up_transport_vsomeip_rus.UProtocol.{Uuid, UpRust}
use up_transport_vsomeip_rus.UProtocol.Status.{Result}
use up_transport_vsomeip_rus.Vsomeip.{VsomeipMessage, VsomeipApi}
use up_transport_vsomeip_rus.Storage.{Host, get_local_authority}
use up_transport_vsomeip_rus.Conversions.Inbound.{convert_vsomeip_msg_to_umsg}
use up_transport_vsomeip_rus.Engine.{
  TransportCommand, Environment, handle_command, event_loop, answer,
}

-- `fresh` is the identifier that a builder draws.
pub data Happening : Type 0 where
  took : Environment → TransportCommand → Happening
  arrived : (fresh : Uuid) → VsomeipMessage → Happening

-- the commands that were taken
abbrev pub commands : List Happening → List TransportCommand
commands [] = []
commands (took env cmd ∷ es) = cmd ∷ commands es
commands (arrived fresh msg ∷ es) = commands es

-- What `call_shared_extern_fn` does to the host of its transport, whatever comes of it.
unfoldable pub receive : UpRust → VsomeipApi → Uuid → VsomeipMessage → Host → Host
receive up vs fresh msg h =
    (convert_vsomeip_msg_to_umsg up vs fresh (get_local_authority h.storage) h.storage.uri
      h.storage.remote_authority msg h).1

module _ (up : UpRust) (vs : VsomeipApi) (order : IterOrder ℕ) where
  -- what the messages alone do
  unfoldable pub receive_all : List Happening → Host → Host
  receive_all [] h = h
  receive_all (took env cmd ∷ es) h = receive_all es h
  receive_all (arrived fresh msg ∷ es) h = receive_all es (receive up vs fresh msg h)

  -- All of it, one after the other: the replies of the engine, and the host at the end. A panic ends
  -- the engine, not the messages.
  unfoldable pub replay : List Happening → Host → List (Result (Unit {0})) × Host
  replay [] h = ([], h)
  replay (took env cmd ∷ es) h =
      let (reply, h') = handle_command vs order env cmd h in
      answer reply (receive_all es h') (replay es h')
  replay (arrived fresh msg ∷ es) h = replay es (receive up vs fresh msg h)

  -- only commands
  abbrev pub all_took : List (Environment × TransportCommand) → List Happening
  all_took = map (λ x. took x.0 x.1)

  receive_all-all_took :
      (cmds : List (Environment × TransportCommand)) (h : Host) → receive_all (all_took cmds) h ≡ h
  unfolding receive_all
  receive_all-all_took [] h = refl
  receive_all-all_took ((env, cmd) ∷ cmds) h = receive_all-all_took cmds h

  answer_same :
      (r : Result (Unit {0})) (g h : Host) (x y : List (Result (Unit {0})) × Host)
      → g ≡ h
      → x ≡ y
      → answer r g x ≡ answer r h y
  answer_same r g h x y e f = ap (λ k. answer r k x) e ∙ ap (answer r h) f

  -- Without messages it is the engine's loop.
  pub replay-event_loop :
      (cmds : List (Environment × TransportCommand)) (h : Host)
      → replay (all_took cmds) h ≡ event_loop vs order cmds h
  unfolding replay event_loop
  replay-event_loop [] h = refl
  replay-event_loop ((env, cmd) ∷ cmds) h =
      let (r, h') = handle_command vs order env cmd h in
      answer_same r _ h' _ _ (receive_all-all_took cmds h') (replay-event_loop cmds h')
