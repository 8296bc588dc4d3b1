-- ===== src/Storage/RpcCorrelation/Overflow.antt =====
-- The end of the session ids of a client.
use up_transport_vsomeip_rus.Prelude.{ℕ, ◌≡◌, true, false, arith, Bool, List, [], ◌∷◌, nat_eq}
use up_transport_vsomeip_rus.Collections.HashMap
use up_transport_vsomeip_rus.Collections.HashMap.{get-insert}
use up_transport_vsomeip_rus.UProtocol.Status.{ok, panicked}
use up_transport_vsomeip_rus.Storage.RpcCorrelation.{
  RpcCorrelation, session_or_1, retrieve_session_id, insert_ue_request_correlation,
  remove_ue_request_correlation, insert_me_request_correlation, remove_me_request_correlation,
}
use up_transport_vsomeip_rus.Storage.RpcCorrelation.Refinement.{
  Call, retrieve, insert_ue, remove_ue, insert_me, remove_me,
}

-- The session id that a client would be given next.
abbrev pub next_session : ℕ → RpcCorrelation → ℕ
next_session c r = session_or_1 (HashMap.get r.client_id_session_id_tracking c)

-- the registry after a call of it, with whether overflows are checked
unfoldable pub after : Bool → Call → RpcCorrelation → RpcCorrelation
after checks (retrieve c) r = (retrieve_session_id checks c r).1
after checks (insert_ue k id source) r = (insert_ue_request_correlation k id source r).1
after checks (remove_ue k) r = (remove_ue_request_correlation k r).1
after checks (insert_me id k) r = (insert_me_request_correlation id k r).1
after checks (remove_me id) r = (remove_me_request_correlation id r).1

unfoldable pub after_all : Bool → List Call → RpcCorrelation → RpcCorrelation
after_all checks [] r = r
after_all checks (call ∷ calls) r = after_all checks calls (after checks call r)

-- No call heals a poisoned lock.
poisoned-after :
    (checks : Bool) (call : Call) (r : RpcCorrelation)
    → r.session_ids_poisoned ≡ true
    → (after checks call r).session_ids_poisoned ≡ true
unfolding after retrieve_session_id insert_ue_request_correlation remove_ue_request_correlation
    insert_me_request_correlation remove_me_request_correlation
poisoned-after checks (retrieve c) r e = ground (arith, e)
poisoned-after checks (insert_ue k id source) r e = ground (arith, e)
poisoned-after checks (remove_ue k) r e = ground (arith, e)
poisoned-after checks (insert_me id k) r e = ground (arith, e)
poisoned-after checks (remove_me id) r e = ground (arith, e)

poisoned-after_all :
    (checks : Bool) (calls : List Call) (r : RpcCorrelation)
    → r.session_ids_poisoned ≡ true
    → (after_all checks calls r).session_ids_poisoned ≡ true
unfolding after_all
poisoned-after_all checks [] r e = e
poisoned-after_all checks (call ∷ calls) r e =
    poisoned-after_all checks calls (after checks call r) (poisoned-after checks call r e)

poisoned_panics :
    (checks : Bool) (d : ℕ) (r : RpcCorrelation)
    → r.session_ids_poisoned ≡ true
    → (retrieve_session_id checks d r).0 ≡ panicked
unfolding retrieve_session_id
poisoned_panics checks d r e = ground (arith, e)

end_poisons :
    (r : RpcCorrelation) (c : ℕ)
    → r.session_ids_poisoned ≡ false
    → next_session c r ≡ 65535
    → ((retrieve_session_id true c r).0 ≡ panicked)
      × ((retrieve_session_id true c r).1.session_ids_poisoned ≡ true)
unfolding retrieve_session_id
end_poisons r c healthy last = (ground arith, ground arith)

-- At the last session id of a client, 65535, a build that checks overflows panics; and whatever is
-- called of the registry after that, any number of times and with whatever outcome, a call for a
-- session id of any client then panics too. A build that does not check them hands 65535 out, and
-- then 0.
pub retrieve_session_id_end :
    (r : RpcCorrelation) (c d : ℕ) (calls : List Call)
    → r.session_ids_poisoned ≡ false
    → next_session c r ≡ 65535
    → ((retrieve_session_id true c r).0 ≡ panicked)
      × ((retrieve_session_id true d (after_all true calls (retrieve_session_id true c r).1)).0
          ≡ panicked)
      × ((retrieve_session_id false c r).0 ≡ ok 65535)
      × ((retrieve_session_id false c (retrieve_session_id false c r).1).0 ≡ ok 0)
unfolding retrieve_session_id
retrieve_session_id_end r c d calls healthy last =
    let (crashed, poisoned) = end_poisons r c healthy last in
    (
      crashed,
      poisoned_panics true d _ (poisoned-after_all true calls _ poisoned),
      ground arith,
      ground (arith, get-insert r.client_id_session_id_tracking c c 0),
    )
