-- ===== src/Engine/Channel.antt =====
-- The channel to the engine (up-transport-vsomeip/src/transport_engine.rs, lib.rs): any number of
-- callers send commands and wait, each for its own reply, while the engine's thread takes the
-- commands one by one; and the messages that arrive meanwhile, whose conversion reads and changes the
-- same storage (vsomeip-proc-macro/src/lib.rs, message_conversions.rs).
pub mod Happenings
pub mod Snoc
pub mod Rounds
pub mod Arrivals
pub mod Sequential
pub mod Draining
use up_transport_vsomeip_rus.Prelude.{
  nth, ℕ, zero, suc, ◌<◌, ◌≡◌, Bool, true, false, Option, none, some, List, [], ◌∷◌, ◌++◌, length,
  nat_beq, nat_eq, if◌then◌else◌,
}
use up_transport_vsomeip_rus.Collections.HashSet.{IterOrder}
use up_transport_vsomeip_rus.UProtocol.Status.{
  Result, ok, err, panicked, fail, internal, deadline_exceeded,
}
use up_transport_vsomeip_rus.UProtocol.{Uuid, UpRust}
use up_transport_vsomeip_rus.Vsomeip.{VsomeipMessage, VsomeipApi}
use up_transport_vsomeip_rus.Storage.{Host}
use up_transport_vsomeip_rus.Engine.{TransportCommand, Environment, handle_command}
use Happenings.{Happening, took, arrived, receive}

-- `channel(10000)`
abbrev pub capacity : ℕ
capacity = 10000

-- A command has the number of those sent before it, and its return channel has the same number.
pub record System : Type 0 where
  pub host : Host
  -- whether the engine's thread is in its loop
  pub running : Bool
  -- all commands that were sent, in order
  pub sent : List TransportCommand
  -- the commands that the engine has taken, and the messages that have arrived, in order
  pub happened : List Happening
  -- those that stand in the channel, and those that were in it when the engine stopped
  pub queue : List TransportCommand
  pub lost : List TransportCommand
  -- what went into the return channels, by number
  pub replies : List (Result (Unit {0}))
  -- what each caller was left with, if it no longer waits
  pub outcomes : ℕ → Option (Result (Unit {0}))

abbrev pub begin : Host → System
begin h = record {
  host = h;
  running = true;
  sent = [];
  happened = [];
  queue = [];
  lost = [];
  replies = [];
  outcomes = λ n. none;
}

-- `tx.send(transport_command)`
unfoldable pub send_command : TransportCommand → System → System
send_command cmd s = record s { sent = s.sent ++ cmd ∷ []; queue = s.queue ++ cmd ∷ [] }

-- A caller stops waiting.
unfoldable pub leave : ℕ → Result (Unit {0}) → System → System
leave n r s = record s { outcomes = λ m. if nat_beq n m then some r else s.outcomes m }

-- What a round of the loop leaves: the reply goes into the return channel. A panic ends the thread,
-- with which the channel goes.
abbrev pub round :
    Environment
    → TransportCommand
    → List TransportCommand
    → System
    → Result (Unit {0}) × Host
    → System
round env cmd rest s x =
    let happened = s.happened ++ took env cmd ∷ [] in
    elim x.0 [
      | ok a ↦ record s {
        host = x.1;
        happened = happened;
        queue = rest;
        replies = s.replies ++ ok a ∷ [];
      }
      | err e ↦ record s {
        host = x.1;
        happened = happened;
        queue = rest;
        replies = s.replies ++ err e ∷ [];
      }
      | panicked ↦ record s {
        host = x.1;
        running = false;
        happened = happened;
        queue = [];
        lost = rest;
      }
    ]

-- A message arrives: an extern function converts it, whatever comes of that.
unfoldable pub arrive : UpRust → VsomeipApi → Uuid → VsomeipMessage → System → System
arrive up vs fresh msg s = record s {
  host = receive up vs fresh msg s.host;
  happened = s.happened ++ arrived fresh msg ∷ [];
}

module _ (up : UpRust) (vs : VsomeipApi) (order : IterOrder ℕ) where
  unfoldable pub take : Environment → TransportCommand → List TransportCommand → System → System
  take env cmd rest s = round env cmd rest s (handle_command vs order env cmd s.host)

  pub data Step (s : System) : System → Type 0 where
    -- A full channel lets its senders wait; who sends to an engine that has stopped panics.
    sends :
        (cmd : TransportCommand)
        → s.running ≡ true
        → length s.queue < capacity
        → Step s (send_command cmd s)
    takes :
        (env : Environment) (cmd : TransportCommand) (rest : List TransportCommand)
        → s.running ≡ true
        → s.queue ≡ cmd ∷ rest
        → Step s (take env cmd rest s)
    -- It does so between two rounds, and also when the engine has stopped.
    arrives : (fresh : Uuid) (msg : VsomeipMessage) → Step s (arrive up vs fresh msg s)
    -- A caller that still waits: the reply is there,
    receives :
        (n : ℕ) (r : Result (Unit {0}))
        → s.outcomes n ≡ none
        → nth s.replies n ≡ some r
        → Step s (leave n r s)
    -- or there is none, and the other end of the return channel is gone,
    finds_closed :
        (n : ℕ)
        → s.outcomes n ≡ none
        → n < length s.sent
        → nth s.replies n ≡ none
        → s.running ≡ false
        → Step s (leave n (fail internal) s)
    -- or the time is over.
    times_out :
        (n : ℕ)
        → s.outcomes n ≡ none
        → n < length s.sent
        → nth s.replies n ≡ none
        → Step s (leave n (fail deadline_exceeded) s)

  pub data Reach (h : Host) : System → Type 0 where
    start : Reach h (begin h)
    later : {s t : System} → Reach h s → Step s t → Reach h t
