-- ===== src/Lib.antt =====
-- up-transport-vsomeip: a uProtocol transport over vsomeip (SOME/IP), written in Rust.
--
-- The program. A transport (up-transport-vsomeip/src/lib.rs, transport.rs) keeps a storage and an
-- engine. The engine is one thread that owns the vsomeip application: it receives commands
-- (register or unregister a listener, send a message, start or stop the application), makes the
-- calls of vsomeip and replies to each. The storage holds what both sides of the transport share:
-- which requests wait for a response, which services and events were offered or requested, which
-- extern function belongs to which listener. vsomeip calls back through these extern functions,
-- which vsomeip-proc-macro/src/lib.rs generates: 10000 for messages, 1000 for the states of
-- applications. A message that goes out or comes in is converted between the two protocols.
--
-- The files, by the code that they model.
--   Utils: up-transport-vsomeip/src/utils.rs, the parts of URIs and of request ids.
--   DetermineType: determine_message_type.rs, the kind of message that two filters speak of.
--   Storage: storage.rs. A `Host` is the storage of one transport, the state handlers of the
--     process, and the log of the calls made of vsomeip; `Action Host A` is a function on it.
--   Storage.RpcCorrelation, Storage.OfferedRequested, Storage.MessageHandlers,
--     Storage.StateHandlers: the registries in storage/rpc_correlation.rs,
--     vsomeip_offered_requested.rs, message_handler_registry.rs and
--     application_state_availability_handler_registry.rs, with what the macros of
--     vsomeip-proc-macro/src/lib.rs generate for the last two. Storage.StateHandlers.Generated: the
--     maps to the ends of the channels in the second of them. Storage.MessageHandlers.Threads: the
--     functions of message_handler_registry.rs with their locks, step by step, by any number of
--     threads at a time.
--   Conversions.Codes, Conversions.Outbound, Conversions.Inbound: message_conversions.rs.
--     Conversions.Calling: two transports that call each other over vsomeip.
--   Engine, Engine.Listeners, Engine.Send, Engine.App: transport_engine.rs; `handle_command` is a
--     round of `event_loop`, on the environment that vsomeip presents at that time.
--     Engine.Channel: the channel of commands between the callers (`send_to_engine_with_status`,
--     `await_engine` of lib.rs) and the thread of the loop, with the messages that arrive, as a
--     step relation; Engine.Channel.Happenings: what happens to their storage, in order.
--   Dispatch: the extern functions for messages of vsomeip-proc-macro/src/lib.rs.
--   Config: vsomeip_config.rs, what is read of a configuration file; Config.Hex: its
--     `deserialize_hex_u16`, over code points.
--   Glue, Glue.Application, Glue.Payload: vsomeip-sys/src/glue_additions.rs and the C++ functions
--     in vsomeip-sys/src/glue on which it stands.
--   Transport: lib.rs, the transport and how it has its engine carry out a command;
--     Transport.PointToPoint and Transport.Life: the listener for all point-to-point messages, the
--     creation and the end of a transport and of the thread of its runtime, from lib.rs;
--     Transport.Api, Transport.LocalUri: transport.rs. Transport.Listening.Sets is the abstract
--     view of a transport: a set of listeners. Transport.Invariants goes once through the functions
--     of a transport for any invariant that its parts keep.
--   Prelude, Action: Boolean tests, equality, and functions with a state and an error.
--   Collections: the maps and sets of Rust's standard library, and the interface of the two-way
--     map of the crate bimap.
--   UProtocol, Vsomeip: the data of up_rust and vsomeip, and their functions as parameters.
--   Tests: concrete runs.
--
-- How the source is read. A function keeps its name, and its early returns are errors of a `Result`
-- whose third value is a panic; what was changed before stays changed. A status is its code: texts
-- are dropped. Numbers are natural numbers; where the source narrows or wraps, the modulus is
-- written out: a session id counts modulo 2 ^ 16 where the build does not check overflows, and
-- panics and poisons its lock where it does. A function of a registry is one step, but in Threads.
-- The pools of extern functions have the sizes 10000 and 1000 of the source; the choice of a free
-- one, the order of iteration of a hash set, is the parameter `IterOrder`. No function needs fuel:
-- each loop runs over a list.
--
-- Parameters. `UpRust`: the wildcard tests, builders and validators of the crate up_rust.
-- `VsomeipApi`: the constants of vsomeip, its new messages and the request id of a message.
-- `Files`: the configuration files and what serde_json reads of them. `World` puts these together
-- for a transport, with whether tokio builds a runtime, and a `Turn` for each command: what
-- vsomeip answers, and whether the reply is in time. `PayloadApi`: the byte buffers of vsomeip.
-- `BiMap`: the operations of bimap with their documented laws. `Environment` and `Runtime`: what
-- vsomeip answers when it is asked for an application, and which states an application reports, before
-- the engine waits for one, while it does, and after that until the handler is unregistered.
--
-- Views of concurrency. In Engine.Channel callers, engine and arriving messages interleave step by
-- step; the channel holds 10000 commands, a caller may stop waiting at any time after it has sent,
-- and a round of the engine is one step, as is the conversion of a message, on the storage that
-- they share. In Storage.MessageHandlers.Threads threads take the locks of the registries, work and
-- drop them, in any interleaving; a lock may be had for reading by many, for writing by one, and a
-- guard of Rust is dropped where its owner is. In Transport a call has its commands carried out before it returns.
--
-- Not modelled: logging; the tasks of the tokio runtime and the length of the three seconds after
-- which a reply is given up; the pauses; what becomes of a state that is sent on a full channel;
-- a message that is converted while the engine is within a round;
-- the bindings of vsomeip-sys, of which only the calls appear; build scripts, examples and tests;
-- calls of one transport from several threads at a time, but for the commands that they send.
pub mod Prelude
pub mod Collections
pub mod UProtocol
pub mod Action
pub mod Vsomeip
pub mod Utils
pub mod DetermineType
pub mod Storage
pub mod Conversions
pub mod Config
pub mod Glue
pub mod Dispatch
pub mod Engine
pub mod Transport
pub mod Tests
