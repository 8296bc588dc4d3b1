-- ===== src/DetermineType/Cases.antt =====
-- When each kind of message is determined.
use up_transport_vsomeip_rus.Prelude.{
  ◌≡◌, ◌≢◌, ◌↔◌, true, false, Option, none, some, arith, Bool-cases, refl, inl, inr, nat_eq,
}
use up_transport_vsomeip_rus.UProtocol.{UUri, UpRust}
use up_transport_vsomeip_rus.UProtocol.Status.{ok}
use up_transport_vsomeip_rus.DetermineType.{
  RegistrationType, publish, request, response, all_point_to_point, streamer_use_case,
  determine_type,
}

-- The source names an authority and is a wildcard in every other part, and so is the sink.
abbrev pub CapturesAll : UpRust → UUri → UUri → Type 0
CapturesAll up source sink =
    (up.has_wildcard_authority source ≡ false)
    × (up.has_wildcard_entity_type source ≡ true)
    × (up.has_wildcard_entity_instance source ≡ true)
    × (up.has_wildcard_version source ≡ true)
    × (up.has_wildcard_resource_id source ≡ true)
    × (up.has_wildcard_authority sink ≡ false)
    × (up.has_wildcard_entity_type sink ≡ true)
    × (up.has_wildcard_entity_instance sink ≡ true)
    × (up.has_wildcard_version sink ≡ true)
    × (up.has_wildcard_resource_id sink ≡ true)

module _ (up : UpRust) (source : UUri) where
  streamer_use_case_iff :
      (sink : UUri) → (streamer_use_case up source sink ≡ true) ↔ CapturesAll up source sink
  unfolding streamer_use_case
  streamer_use_case_iff sink = (λ h. ground arith, λ h. ground arith)

  -- What a kind of message says of the sink filter.
  abbrev pub Determines : Option UUri → RegistrationType → Type 0
  Determines none publish = Unit
  Determines none _ = ⊥
  Determines (some sink) publish = ⊥
  Determines (some sink) request = (¬ CapturesAll up source sink) × (sink.resource_id ≢ 0)
  Determines (some sink) response = (¬ CapturesAll up source sink) × (sink.resource_id ≡ 0)
  Determines (some sink) all_point_to_point = CapturesAll up source sink

  -- `determine_type` never fails, and answers each kind exactly when the filters are of that kind:
  -- publish without a sink; all point-to-point messages when both filters name an authority and
  -- are wildcards elsewhere; otherwise response or request, as the sink's resource is 0 or not.
  pub determine_type_iff :
      (sink : Option UUri) (t : RegistrationType)
      → (determine_type up source sink ≡ ok t) ↔ Determines sink t
  unfolding determine_type
  determine_type_iff none publish = (λ h. tt, λ h. refl)
  determine_type_iff none _ = (λ h. cc, λ h. absurd h)
  determine_type_iff (some s) publish = (λ h. ground arith, λ h. absurd h)
  determine_type_iff (some s) request =
      let (sound, complete) = streamer_use_case_iff s in
      (
        λ h. (λ c. ground (arith, complete c), ground arith),
        λ h. elim (Bool-cases (streamer_use_case up source s)) [
          | inl e ↦ absurd (h.0 (sound e))
          | inr e ↦ ground arith
        ],
      )
  determine_type_iff (some s) response =
      let (sound, complete) = streamer_use_case_iff s in
      (
        λ h. (λ c. ground (arith, complete c), ground arith),
        λ h. elim (Bool-cases (streamer_use_case up source s)) [
          | inl e ↦ absurd (h.0 (sound e))
          | inr e ↦ ground arith
        ],
      )
  determine_type_iff (some s) all_point_to_point =
      let (sound, complete) = streamer_use_case_iff s in
      (λ h. sound (ground arith), λ h. ground (arith, complete h))
