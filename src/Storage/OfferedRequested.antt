-- ===== src/Storage/OfferedRequested.antt =====
-- up-transport-vsomeip/src/storage/vsomeip_offered_requested.rs: the services and events that have
-- been offered and requested, each as (service, instance, method or event).
pub mod Marks
use up_transport_vsomeip_rus.Prelude.{ℕ, Bool, triple_eq}
use up_transport_vsomeip_rus.Collections.HashSet
use up_transport_vsomeip_rus.Collections.HashSet.{HashSet}

-- `InMemoryVsomeipOfferedRequestedRegistry`
pub record OfferedRequested : Type 0 where
  pub offered_services : HashSet (ℕ × ℕ × ℕ)
  pub requested_services : HashSet (ℕ × ℕ × ℕ)
  pub offered_events : HashSet (ℕ × ℕ × ℕ)
  pub requested_events : HashSet (ℕ × ℕ × ℕ)

unfoldable pub new : OfferedRequested
new = record {
  offered_services = HashSet.empty;
  requested_services = HashSet.empty;
  offered_events = HashSet.empty;
  requested_events = HashSet.empty;
}

module _ (r : OfferedRequested) (service instance_id : ℕ) where
  unfoldable pub is_service_offered : ℕ → Bool
  is_service_offered method = HashSet.contains r.offered_services (service, instance_id, method)

  unfoldable pub insert_service_offered : ℕ → OfferedRequested × Bool
  insert_service_offered method =
      let (s, inserted) = HashSet.insert r.offered_services (service, instance_id, method) in
      (record r { offered_services = s }, inserted)

  unfoldable pub is_service_requested : ℕ → Bool
  is_service_requested method = HashSet.contains r.requested_services (service, instance_id, method)

  unfoldable pub insert_service_requested : ℕ → OfferedRequested × Bool
  insert_service_requested method =
      let (s, inserted) = HashSet.insert r.requested_services (service, instance_id, method) in
      (record r { requested_services = s }, inserted)

  unfoldable pub is_event_offered : ℕ → Bool
  is_event_offered event = HashSet.contains r.offered_events (service, instance_id, event)

  unfoldable pub insert_event_offered : ℕ → OfferedRequested × Bool
  insert_event_offered event =
      let (s, inserted) = HashSet.insert r.offered_events (service, instance_id, event) in
      (record r { offered_events = s }, inserted)

  unfoldable pub is_event_requested : ℕ → Bool
  is_event_requested event = HashSet.contains r.requested_events (service, instance_id, event)

  unfoldable pub insert_event_requested : ℕ → OfferedRequested × Bool
  insert_event_requested event =
      let (s, inserted) = HashSet.insert r.requested_events (service, instance_id, event) in
      (record r { requested_events = s }, inserted)
