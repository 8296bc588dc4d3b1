-- ===== src/Transport.antt =====
-- up-transport-vsomeip/src/lib.rs, transport.rs: the transport, and how it has its engine carry out
-- a command. The handlers of the process stand in the transport that runs.
pub mod PointToPoint
pub mod Api
pub mod Life
pub mod Invariants
pub mod Consistency
pub mod Identity
pub mod Histories
pub mod Undo
pub mod Stale
pub mod Running
pub mod Listening
pub mod LocalUri
pub mod Services
pub mod Dropping
pub mod Starting
use up_transport_vsomeip_rus.Prelude.{
  nat_eq, ◌⊎◌, ℕ, suc, ◌/◌, String, Bool, true, false, Option, none, some, if◌then◌else◌,
}
use up_transport_vsomeip_rus.Collections.HashSet.{IterOrder}
use up_transport_vsomeip_rus.Collections.BiMap.{BiMap}
use up_transport_vsomeip_rus.Action.{Action}
use up_transport_vsomeip_rus.UProtocol.{UpRust}
use up_transport_vsomeip_rus.UProtocol.Status.{
  UCode, Result, ok, err, panicked, fail, internal, deadline_exceeded,
}
use up_transport_vsomeip_rus.Vsomeip.{VsomeipApi}
use up_transport_vsomeip_rus.Config.{Files}
use up_transport_vsomeip_rus.Storage.{Host}
use up_transport_vsomeip_rus.Storage.MessageHandlers
use up_transport_vsomeip_rus.Storage.MessageHandlers.{Handlers, GetMessageHandlerError}
use up_transport_vsomeip_rus.Storage.MessageHandlers.Config.{ListenerConfig, config_eq}
use up_transport_vsomeip_rus.Engine.{TransportCommand, Environment, handle_command}

-- The thread of the dedicated runtime, by the channel that tells it to shut down: it serves with so
-- many workers, or has finished.
pub data RuntimeThread : Type 0 where
  serving : ℕ → RuntimeThread
  finished : RuntimeThread

-- `UPTransportVsomeip`
pub record Transport (M : Type 0) : Type 0 where
  pub host : Host
  pub handlers : Handlers M
  pub point_to_point_listener : Option ℕ
  pub config_path : Option String
  -- whether the thread of the engine is there to receive a command
  pub engine_running : Bool
  pub runtime : RuntimeThread
  -- how many commands it has received
  pub commands : ℕ

-- What one command meets: the answers of vsomeip, and whether the reply is back, or its sender
-- dropped, in three seconds.
pub record Turn : Type 0 where
  pub environment : Environment
  pub in_time : Bool

-- What a transport stands on: the libraries, the files, and the turn of each command.
pub record World (Json M : Type 0) : Type 0 where
  pub up : UpRust
  pub vs : VsomeipApi
  pub order : IterOrder ℕ
  pub files : Files Json
  pub bimap : BiMap ℕ ListenerConfig M
  pub turn : ℕ → Turn
  -- whether tokio builds a runtime with so many workers
  pub builds_runtime : ℕ → Bool
  -- the number of the transport's storage
  pub self : ℕ

-- `await_engine`: the reply, if it is back in time. The engine that panics drops the sender; that is
-- an error of its own if it happens in time.
unfoldable pub await_engine : Bool → Result (Unit {0}) → Result (Unit {0})
await_engine in_time (ok a) = if in_time then ok a else fail deadline_exceeded
await_engine in_time (err e) = if in_time then err e else fail deadline_exceeded
await_engine in_time panicked = if in_time then fail internal else fail deadline_exceeded

-- whether the engine goes on after a reply
unfoldable pub survives : Result (Unit {0}) → Bool
survives panicked = false
survives _ = true

module _ {Json M : Type 0} (world : World Json M) where
  -- `send_to_engine_with_status`, after which a transport whose engine has stopped panics, and
  -- `await_engine`
  unfoldable pub command : TransportCommand → Action (Transport M) (Unit {0})
  unfolding await_engine survives
  command cmd t =
      let now = world.turn t.commands in
      let (reply, h) = handle_command world.vs world.order now.environment cmd t.host in
      if t.engine_running
      then (
        await_engine now.in_time reply,
        record t { host = h; engine_running = survives reply; commands = suc t.commands },
      )
      else (panicked, t)

  -- `self.storage.get_vsomeip_application_config().name`
  unfoldable pub application_name : Action (Transport M) String
  application_name t = (ok t.host.storage.vsomeip_application_config.name, t)

  unfoldable pub get_message_handler :
      ListenerConfig → Action (Transport M) (GetMessageHandlerError ⊎ ℕ)
  get_message_handler config t =
      let (r, w) =
        MessageHandlers.get_message_handler world.bimap world.order world.self world.self config
          t.handlers in
      (r, record t { handlers = w })

  unfoldable pub release_message_handler : ListenerConfig → Action (Transport M) (Unit {0})
  release_message_handler config t =
      let (r, w) =
        MessageHandlers.release_message_handler world.bimap world.self config t.handlers in
      (r, record t { handlers = w })

-- An error is only logged.
unfoldable pub warned : {S A : Type 0} → Action S A → Action S (Unit {0})
warned m s = elim (m s).0 [
  | ok a ↦ (ok tt, (m s).1)
  | err e ↦ (ok tt, (m s).1)
  | panicked ↦ (panicked, (m s).1)
]

-- An error becomes an error of another code.
unfoldable pub with_code : {S A : Type 0} → UCode → Action S A → Action S A
with_code c m s = elim (m s).0 [
  | ok a ↦ (ok a, (m s).1)
  | err e ↦ (fail c, (m s).1)
  | panicked ↦ (panicked, (m s).1)
]

-- An error becomes a panic.
unfoldable pub or_panic : {S A : Type 0} → Action S A → Action S A
or_panic m s = elim (m s).0 [
  | ok a ↦ (ok a, (m s).1)
  | err e ↦ (panicked, (m s).1)
  | panicked ↦ (panicked, (m s).1)
]
