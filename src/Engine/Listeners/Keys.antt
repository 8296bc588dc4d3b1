-- ===== src/Engine/Listeners/Keys.antt =====
-- The keys under which vsomeip is told of a handler, and those under which it is told to forget it.
use up_transport_vsomeip_rus.Prelude.{
  ℕ, ◌≡◌, ◌≢◌, refl, false, Option, none, some, List, [], ◌∷◌, arith, triple_beq, triple_beq_iff,
  Bool-cases, inl, inr, if◌then◌else◌,
}
use up_transport_vsomeip_rus.UProtocol.{UUri}
use up_transport_vsomeip_rus.UProtocol.Status.{ok}
use up_transport_vsomeip_rus.Vsomeip.{
  VsomeipApi, AppCall, register_message_handler, unregister_message_handler,
}
use up_transport_vsomeip_rus.Utils.{split_u32_to_u16}
use up_transport_vsomeip_rus.DetermineType.{
  RegistrationType, publish, request, response, all_point_to_point,
}
use up_transport_vsomeip_rus.Storage.{Host}
use up_transport_vsomeip_rus.Engine.Listeners.{
  register_listener_internal, unregister_listener_internal,
}

-- The handler that a log of calls, newest first, leaves under a key (service, instance, method):
-- that of the last registration under just this key, unless it was unregistered since.
unfoldable pub active : ℕ × ℕ × ℕ → List AppCall → Option ℕ
active key [] = none
active key (register_message_handler s i m f ∷ calls) =
    if triple_beq (s, i, m) key then some f else active key calls
active key (unregister_message_handler s i m ∷ calls) =
    if triple_beq (s, i, m) key then none else active key calls
active key (_ ∷ calls) = active key calls

-- The key of a filter's entity and resource, for an instance.
abbrev pub key_of : UUri → ℕ → ℕ × ℕ × ℕ
key_of filter instance_id =
    ((split_u32_to_u16 filter.ue_id).1, instance_id, (split_u32_to_u16 filter.resource_id).1)

-- the sink filter of a listener: one for events has none
abbrev pub sink_filter_of : RegistrationType → UUri → Option UUri
sink_filter_of publish sink = none
sink_filter_of _ sink = some sink

-- The key under which a listener of a type is registered, and that which unregistering asks for.
abbrev pub registered_key : VsomeipApi → RegistrationType → UUri → UUri → ℕ × ℕ × ℕ
registered_key vs publish source sink = key_of source 1
registered_key vs request source sink = key_of sink vs.any_instance
registered_key vs _ source sink = key_of source vs.any_instance

abbrev pub unregistered_key : VsomeipApi → RegistrationType → UUri → UUri → ℕ × ℕ × ℕ
unregistered_key vs publish source sink = key_of source vs.any_instance
unregistered_key vs _ source sink = key_of sink vs.any_instance

triple_ne : (s t : ℕ × ℕ × ℕ) → s ≢ t → triple_beq s t ≡ false
triple_ne s t differ = elim (Bool-cases (triple_beq s t)) [
  | inl e ↦ absurd (differ ((triple_beq_iff s t).0 e))
  | inr e ↦ e
]

keys_of :
    (vs : VsomeipApi) (type : RegistrationType) (source sink : UUri) (handler : ℕ) (h h' : Host)
    (key : ℕ × ℕ × ℕ)
    → type ≢ all_point_to_point
    → let filter = sink_filter_of type sink in
      let (r, after) = register_listener_internal vs source filter type handler h in
      let (u, end) = unregister_listener_internal vs source filter type h' in
      (r ≡ ok tt)
      × (u ≡ ok tt)
      × (active key after.calls ≡ (
          if triple_beq (registered_key vs type source sink) key
          then some handler
          else active key h.calls))
      × (active key end.calls ≡ (
          if triple_beq (unregistered_key vs type source sink) key
          then none
          else active key h'.calls))
unfolding register_listener_internal unregister_listener_internal active
keys_of vs publish source sink handler h h' key single = ground arith
keys_of vs request source sink handler h h' key single = ground arith
keys_of vs response source sink handler h h' key single = ground arith
keys_of vs all_point_to_point source sink handler h h' key single = absurd (single refl)

module _ (vs : VsomeipApi) (type : RegistrationType) (source sink : UUri)
    (single : type ≢ all_point_to_point) (handler : ℕ) (h : Host) where
  -- Where the filters are not for all point-to-point messages, registering a listener succeeds and
  -- leaves its handler under its key: that of the source, for instance 1 (events) or any instance
  -- (responses), or that of the sink for any instance (requests). Unregistering, at any time,
  -- succeeds and takes away what stands under the source's key (events) or the sink's key
  -- (requests, responses) for any instance. Neither touches another key.
  pub listener_keys :
      (h' : Host) (key : ℕ × ℕ × ℕ)
      → let filter = sink_filter_of type sink in
        let (r, after) = register_listener_internal vs source filter type handler h in
        let (u, end) = unregister_listener_internal vs source filter type h' in
        (r ≡ ok tt)
        × (u ≡ ok tt)
        × (active key after.calls ≡ (
            if triple_beq (registered_key vs type source sink) key
            then some handler
            else active key h.calls))
        × (active key end.calls ≡ (
            if triple_beq (unregistered_key vs type source sink) key
            then none
            else active key h'.calls))
  listener_keys h' key = keys_of vs type source sink handler h h' key single

  -- So where the two keys differ, both calls succeed, and the handler is registered after the one
  -- and after the other.
  pub key_differs :
      unregistered_key vs type source sink ≢ registered_key vs type source sink
      → let mine = registered_key vs type source sink in
        let filter = sink_filter_of type sink in
        let (r, after) = register_listener_internal vs source filter type handler h in
        let (u, end) = unregister_listener_internal vs source filter type after in
        (r ≡ ok tt)
        × (u ≡ ok tt)
        × (active mine after.calls ≡ some handler)
        × (active mine end.calls ≡ some handler)
  key_differs differ =
      let mine = registered_key vs type source sink in
      let other = triple_ne (unregistered_key vs type source sink) mine differ in
      let same = (triple_beq_iff mine mine).1 refl in
      let after =
        (register_listener_internal vs source (sink_filter_of type sink) type handler h).1 in
      let (r, u, there, still) = listener_keys after mine in (r, u, ground arith, ground arith)
