-- ===== src/Conversions/Outbound/Events.antt =====
-- Publishing: the identifiers of an event, and when it is offered.
use up_transport_vsomeip_rus.Prelude.{
  ℕ, ◌%◌, ◌^◌, ◌≡◌, refl, Bool, true, some, ◌∷◌, ◌∙◌, inl, inr, arith, Bool-cases, triple_eq,
  if◌then◌else◌,
}
use up_transport_vsomeip_rus.UProtocol.{UUri, UMessage, attributes_of}
use up_transport_vsomeip_rus.UProtocol.Status.{ok}
use up_transport_vsomeip_rus.Vsomeip.{VsomeipApi, offer_service, offer_single_event}
use up_transport_vsomeip_rus.Utils.{split_u32_to_u16}
use up_transport_vsomeip_rus.Collections.HashSet.{contains-insert}
use up_transport_vsomeip_rus.Storage.OfferedRequested
use up_transport_vsomeip_rus.Storage.{Host}
use up_transport_vsomeip_rus.Conversions.Outbound.{umsg_publish_to_vsomeip_notification}

-- service, instance and event of a source
abbrev pub event_of : UUri → ℕ × ℕ × ℕ
event_of source = (source.ue_id % 2 ^ 16, 1, source.resource_id % 2 ^ 16)

module _ (vs : VsomeipApi) (umsg : UMessage) (source : UUri) (h : Host) where
  abbrev event : ℕ × ℕ × ℕ
  event = event_of source

  abbrev was_offered : OfferedRequested.OfferedRequested → Bool
  was_offered r = OfferedRequested.is_event_offered r event.0 event.1 event.2

  -- the state after a first publication
  abbrev offered : Host
  offered = record h {
    calls =
        offer_single_event event.0 event.1 event.2 event.2
        ∷ offer_service event.0 event.1 vs.any_major vs.any_minor
        ∷ h.calls;
    storage = record h.storage {
      vsomeip_offered_requested =
          (OfferedRequested.insert_event_offered h.storage.vsomeip_offered_requested event.0 event.1
            event.2).0;
    };
  }

  publish_cases :
      (attributes_of umsg).source ≡ some source
      → umsg_publish_to_vsomeip_notification vs umsg h
        ≡ (ok event, (if was_offered h.storage.vsomeip_offered_requested then h else offered))
  unfolding umsg_publish_to_vsomeip_notification split_u32_to_u16
  publish_cases e = ground arith

was_offered-insert :
    (r : OfferedRequested.OfferedRequested) (s i m : ℕ)
    → OfferedRequested.is_event_offered (OfferedRequested.insert_event_offered r s i m).0 s i m
      ≡ true
unfolding OfferedRequested.is_event_offered OfferedRequested.insert_event_offered
was_offered-insert r s i m = ground (arith, contains-insert r.offered_events (s, i, m) (s, i, m))

-- A message with a source is published under the low halves of the source's entity and resource.
-- Its service and its event are offered, in this order, if the event was not offered before; it
-- is offered afterwards, so that publishing it again changes nothing.
pub publish_lem :
    (vs : VsomeipApi) (umsg : UMessage) (source : UUri) (h : Host)
    → (attributes_of umsg).source ≡ some source
    → let (r, h') = umsg_publish_to_vsomeip_notification vs umsg h in
      let (s, i, e) = event_of source in
      (r ≡ ok (s, i, e))
      × (h'.calls ≡ (
          if OfferedRequested.is_event_offered h.storage.vsomeip_offered_requested s i e
          then h.calls
          else offer_single_event s i e e ∷ offer_service s i vs.any_major vs.any_minor ∷ h.calls))
      × (OfferedRequested.is_event_offered h'.storage.vsomeip_offered_requested s i e ≡ true)
      × (umsg_publish_to_vsomeip_notification vs umsg h' ≡ (r, h'))
publish_lem vs umsg source h e =
    let (s, i, m) = event_of source in
    let stays = was_offered-insert h.storage.vsomeip_offered_requested s i m in
    elim (Bool-cases
      (OfferedRequested.is_event_offered h.storage.vsomeip_offered_requested s i m)) [
        | inl old ↦
            let same : umsg_publish_to_vsomeip_notification vs umsg h ≡ (ok (s, i, m), h) =
              publish_cases vs umsg source h e ∙ rw old in
            rw same (refl, rw old, old, same)
        | inr new ↦
            let first : umsg_publish_to_vsomeip_notification vs umsg h
                ≡ (ok (s, i, m), offered vs umsg source h) =
              publish_cases vs umsg source h e ∙ rw new in
            let again : umsg_publish_to_vsomeip_notification vs umsg (offered vs umsg source h)
                ≡ (ok (s, i, m), offered vs umsg source h) =
              publish_cases vs umsg source (offered vs umsg source h) e ∙ rw stays in
            rw first (refl, rw new, stays, again)
      ]
