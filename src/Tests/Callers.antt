-- ===== src/Tests/Callers.antt =====
-- Two callers of one engine.
use up_transport_vsomeip_rus.Prelude.{
  List, none, nth, ◌<◌, ◌≤◌, ◌≡◌, ◌⊎◌, refl, true, false, some, [], ◌∷◌, ◌++◌, length, nat_eq,
  arith,
}
use up_transport_vsomeip_rus.Collections.HashSet.{newest_first}
use up_transport_vsomeip_rus.UProtocol.Status.{Result, ok, fail, internal, deadline_exceeded}
use up_transport_vsomeip_rus.Collections.HashMap
use up_transport_vsomeip_rus.Utils.{split_u32_to_u16}
use up_transport_vsomeip_rus.Vsomeip.{VsomeipMessage, mt_request}
use up_transport_vsomeip_rus.DetermineType.{response}
use up_transport_vsomeip_rus.Storage.RpcCorrelation
use up_transport_vsomeip_rus.Storage.{new}
use up_transport_vsomeip_rus.Conversions.Outbound.{umsg_response_to_vsomeip_message}
use up_transport_vsomeip_rus.Conversions.Inbound.{
  to_u8, convert_vsomeip_msg_to_umsg, convert_vsomeip_mt_request_to_umsg,
}
use up_transport_vsomeip_rus.Engine.Send.{send_internal}
use up_transport_vsomeip_rus.Engine.{
  TransportCommand, Environment, send, stop_vsomeip_app, event_loop, handle_command,
}
use up_transport_vsomeip_rus.Engine.Channel.{
  System, begin, send_command, leave, take, arrive, arrives, sends, takes, receives, times_out,
  Reach, start, later,
}
use up_transport_vsomeip_rus.Engine.Channel.Happenings.{receive, replay, commands, all_took}
use up_transport_vsomeip_rus.Engine.Channel.Sequential.{reach-replay, outcomes-replay}
use up_transport_vsomeip_rus.Engine.Channel.Draining.{drain, drain_lem}
use up_transport_vsomeip_rus.Tests.Commands.{running, healthy}
use up_transport_vsomeip_rus.Tests.Data.{up, vs, host, response_to, message_of}

abbrev stop : TransportCommand
stop = stop_vsomeip_app "app"

-- the response to a request that has not arrived yet
abbrev reply : TransportCommand
reply = send (response_to 5) response "app"

abbrev incoming : VsomeipMessage
incoming = message_of mt_request 258 1

-- Both have sent, the first a response; the request that it answers arrives before the engine takes
-- the command, the first caller has its reply taken up, and the second has waited for too long.
abbrev both_sent : System
both_sent = send_command stop (send_command reply (begin host))

abbrev request_here : System
request_here = arrive up vs 5 incoming both_sent

abbrev one_taken : System
one_taken = take up vs newest_first running reply (stop ∷ []) request_here

abbrev first_served : System
first_served = leave 0 (ok tt) one_taken

abbrev second_gone : System
second_gone = leave 1 (fail deadline_exceeded) first_served

replied : nth one_taken.replies 0 ≡ some (ok tt)
unfolding send_command arrive leave take receive handle_command send_internal new RpcCorrelation.new
    convert_vsomeip_msg_to_umsg convert_vsomeip_mt_request_to_umsg umsg_response_to_vsomeip_message
    to_u8 split_u32_to_u16 HashMap.get HashMap.insert HashMap.remove
replied = refl

waiting :
    (first_served.outcomes 1 ≡ none)
    × (one_taken.outcomes 0 ≡ none)
    × (1 < length first_served.sent)
    × (nth first_served.replies 1 ≡ none)
unfolding send_command arrive leave take receive handle_command send_internal new RpcCorrelation.new
    convert_vsomeip_msg_to_umsg convert_vsomeip_mt_request_to_umsg umsg_response_to_vsomeip_message
    to_u8 split_u32_to_u16 HashMap.get HashMap.insert HashMap.remove
waiting = (refl, refl, omega arith, refl)

reachable : Reach up vs newest_first host second_gone
unfolding send_command arrive leave take
reachable =
    let sent : Reach up vs newest_first host both_sent =
      later (later start (sends reply refl (omega arith))) (sends stop refl (omega arith)) in
    let here : Reach up vs newest_first host request_here = later sent (arrives 5 incoming) in
    let taken : Reach up vs newest_first host one_taken =
      later here (takes running reply (stop ∷ []) refl refl) in
    let (empty, none_yet, known, missing) = waiting in
    let served : Reach up vs newest_first host first_served =
      later taken (receives 0 (ok tt) none_yet replied) in
    later served (times_out 1 empty known missing)

left_with : second_gone.outcomes 0 ≡ some (ok tt)
unfolding leave
left_with = refl

two_sent : 1 < length second_gone.sent
unfolding leave
two_sent = waiting.2

reach-replay_example :
    (replay up vs newest_first second_gone.happened host ≡ (second_gone.replies, second_gone.host))
    × ((cmds : List (Environment × TransportCommand))
        → replay up vs newest_first (all_took up vs newest_first cmds) host
          ≡ event_loop vs newest_first cmds host)
    × (commands second_gone.happened ++ (second_gone.queue ++ second_gone.lost) ≡ second_gone.sent)
    × (length second_gone.queue ≤ 10000)
reach-replay_example = reach-replay up vs newest_first host second_gone reachable

abbrev done : Result (Unit {0})
done = ok tt

outcomes-replay_example :
    (nth (replay up vs newest_first second_gone.happened host).0 0 ≡ some done)
    ⊎ ((done ≡ fail internal) × (second_gone.running ≡ false))
    ⊎ (done ≡ fail deadline_exceeded)
outcomes-replay_example =
    outcomes-replay up vs newest_first host second_gone 0 done reachable left_with

drain_lem_example :
    let t = drain up vs newest_first running second_gone.queue second_gone in
    (second_gone.running ≡ true)
    × Reach up vs newest_first host t
    × ((r : Result (Unit {0})) × (nth t.replies 1 ≡ some r))
drain_lem_example =
    drain_lem up vs newest_first running host second_gone 1 healthy reachable two_sent
