-- ===== src/Storage/OfferedRequested/Marks.antt =====
-- The four sets of offered and requested services and events, seen as one.
use up_transport_vsomeip_rus.Prelude.{
  ℕ, ◌≡◌, refl, Bool, true, false, not, ◌&&◌, List, [], ◌∷◌, arith, triple_eq, triple_beq,
  if◌then◌else◌,
}
use up_transport_vsomeip_rus.Collections.HashSet.{contains-insert, insert_new, contains-empty}
use up_transport_vsomeip_rus.Storage.OfferedRequested.{
  OfferedRequested, new, is_service_offered, insert_service_offered, is_service_requested,
  insert_service_requested, is_event_offered, insert_event_offered, is_event_requested,
  insert_event_requested,
}

pub data Mark : Type 0 where
  service_offered service_requested event_offered event_requested : Mark

-- The query and the insertion that belong to each kind of mark.
unfoldable pub is_marked : Mark → OfferedRequested → ℕ × ℕ × ℕ → Bool
is_marked service_offered r (s, i, m) = is_service_offered r s i m
is_marked service_requested r (s, i, m) = is_service_requested r s i m
is_marked event_offered r (s, i, m) = is_event_offered r s i m
is_marked event_requested r (s, i, m) = is_event_requested r s i m

unfoldable pub mark : Mark → OfferedRequested → ℕ × ℕ × ℕ → OfferedRequested × Bool
mark service_offered r (s, i, m) = insert_service_offered r s i m
mark service_requested r (s, i, m) = insert_service_requested r s i m
mark event_offered r (s, i, m) = insert_event_offered r s i m
mark event_requested r (s, i, m) = insert_event_requested r s i m

abbrev pub mark_beq : Mark → Mark → Bool
mark_beq service_offered service_offered = true
mark_beq service_requested service_requested = true
mark_beq event_offered event_offered = true
mark_beq event_requested event_requested = true
mark_beq _ _ = false

is_marked-mark :
    (a b : Mark) (r : OfferedRequested) (s t : ℕ × ℕ × ℕ)
    → is_marked b (mark a r s).0 t
      ≡ (if mark_beq a b && triple_beq s t then true else is_marked b r t)
unfolding is_marked mark is_service_offered insert_service_offered is_service_requested
    insert_service_requested is_event_offered insert_event_offered is_event_requested
    insert_event_requested
is_marked-mark service_offered service_offered r s t = contains-insert r.offered_services s t
is_marked-mark service_requested service_requested r s t = contains-insert r.requested_services s t
is_marked-mark event_offered event_offered r s t = contains-insert r.offered_events s t
is_marked-mark event_requested event_requested r s t = contains-insert r.requested_events s t
is_marked-mark _ _ r s t = refl

mark_new :
    (a : Mark) (r : OfferedRequested) (s : ℕ × ℕ × ℕ) → (mark a r s).1 ≡ not (is_marked a r s)
unfolding is_marked mark is_service_offered insert_service_offered is_service_requested
    insert_service_requested is_event_offered insert_event_offered is_event_requested
    insert_event_requested
mark_new service_offered r s = insert_new r.offered_services s
mark_new service_requested r s = insert_new r.requested_services s
mark_new event_offered r s = insert_new r.offered_events s
mark_new event_requested r s = insert_new r.requested_events s

unfoldable pub mark_all : OfferedRequested → List (Mark × (ℕ × ℕ × ℕ)) → OfferedRequested
mark_all r [] = r
mark_all r ((a, s) ∷ rest) = mark_all (mark a r s).0 rest

-- whether a list of insertions holds one
unfoldable pub was_marked : Mark → ℕ × ℕ × ℕ → List (Mark × (ℕ × ℕ × ℕ)) → Bool
was_marked b t [] = false
was_marked b t ((a, s) ∷ rest) =
    if mark_beq a b && triple_beq s t then true else was_marked b t rest

is_marked-mark_all :
    (calls : List (Mark × (ℕ × ℕ × ℕ))) (r : OfferedRequested) (b : Mark) (t : ℕ × ℕ × ℕ)
    → is_marked b (mark_all r calls) t ≡ (if was_marked b t calls then true else is_marked b r t)
unfolding mark_all was_marked
is_marked-mark_all [] r b t = refl
is_marked-mark_all ((a, s) ∷ rest) r b t =
    ground (arith, is_marked-mark_all rest (mark a r s).0 b t, is_marked-mark a b r s t)

is_marked-new : (b : Mark) (t : ℕ × ℕ × ℕ) → is_marked b new t ≡ false
unfolding is_marked new is_service_offered is_service_requested is_event_offered is_event_requested
is_marked-new service_offered t = contains-empty t
is_marked-new service_requested t = contains-empty t
is_marked-new event_offered t = contains-empty t
is_marked-new event_requested t = contains-empty t

-- After any insertions into a new registry, a service or event counts as offered or requested
-- exactly if it was inserted as that, and the next insertion says whether it was there.
pub mark_all_lem :
    (calls : List (Mark × (ℕ × ℕ × ℕ))) (b : Mark) (t : ℕ × ℕ × ℕ)
    → (is_marked b (mark_all new calls) t ≡ was_marked b t calls)
      × ((mark b (mark_all new calls) t).1 ≡ not (was_marked b t calls))
mark_all_lem calls b t =
    let seen = is_marked-mark_all calls new b t in
    let fresh = is_marked-new b t in
    let reported = mark_new b (mark_all new calls) t in
    (ground (arith, seen, fresh), ground (arith, seen, fresh, reported))
