-- ===== src/Engine/Channel/Arrivals.antt =====
-- Messages that arrive at a healthy host, and the extern functions that convert them.
use up_transport_vsomeip_rus.Prelude.{
  ℕ, ◌≡◌, ◌⊎◌, ◌∙◌, refl, sym, ap, inl, inr, Bool, String, List, [], ◌∷◌, length, nat_eq, nat_beq,
  arith, Option-cases, Bool-cases,
}
use up_transport_vsomeip_rus.Collections.HashSet
use up_transport_vsomeip_rus.Collections.HashSet.{IterOrder}
use up_transport_vsomeip_rus.Collections.BiMap.{BiMap}
use up_transport_vsomeip_rus.UProtocol.{Uuid, UUri, UpRust}
use up_transport_vsomeip_rus.Vsomeip.{VsomeipMessage, VsomeipApi}
use up_transport_vsomeip_rus.Storage.{Host, get_local_authority}
use up_transport_vsomeip_rus.Storage.MessageHandlers.{Handlers, get_message_handler_id_transport}
use up_transport_vsomeip_rus.Storage.MessageHandlers.Config.{ListenerConfig, config_eq}
use up_transport_vsomeip_rus.Conversions.Inbound.{
  convert_vsomeip_mt_request_to_umsg, convert_vsomeip_mt_response_to_umsg,
  convert_vsomeip_mt_error_to_umsg, convert_vsomeip_mt_notification_to_umsg,
  convert_vsomeip_msg_to_umsg,
}
use up_transport_vsomeip_rus.Dispatch.{call_shared_extern_fn}
use up_transport_vsomeip_rus.Engine.{handle_command}
use up_transport_vsomeip_rus.Engine.Loop.{IsHealthy, answer-Serves, handle_command-Serves}
use up_transport_vsomeip_rus.Engine.Channel.Happenings.{
  Happening, took, arrived, commands, receive, replay,
}

-- what makes a host healthy is as it was
abbrev Alike : Host → Host → Type 0
Alike g h =
    (g.overflow_checks ≡ h.overflow_checks)
    × (g.storage.rpc_correlation.session_ids_poisoned
        ≡ h.storage.rpc_correlation.session_ids_poisoned)
    × (g.state_handlers ≡ h.state_handlers)

Alike-IsHealthy : (g h : Host) → Alike g h → IsHealthy h → IsHealthy g
Alike-IsHealthy g h (o, p, s) healthy = record {
  unchecked = o ∙ healthy.unchecked;
  sound = p ∙ healthy.sound;
  ids = λ id free. healthy.ids id (sym (ap (λ x. HashSet.contains x.free_ids id) s) ∙ free);
}

module _ (up : UpRust) (vs : VsomeipApi) (fresh : Uuid) where
  request-Alike :
      (there : String) (self : UUri) (elsewhere : String) (msg : VsomeipMessage) (bytes : List ℕ)
      (h : Host)
      → Alike (convert_vsomeip_mt_request_to_umsg up vs fresh there self elsewhere msg bytes h).1 h
  unfolding convert_vsomeip_mt_request_to_umsg
  request-Alike there self elsewhere msg bytes h = (ground arith, ground arith, ground arith)

  response-Alike :
      (elsewhere : String) (msg : VsomeipMessage) (bytes : List ℕ) (h : Host)
      → Alike (convert_vsomeip_mt_response_to_umsg up vs fresh elsewhere msg bytes h).1 h
  unfolding convert_vsomeip_mt_response_to_umsg
  response-Alike elsewhere msg bytes h = (ground arith, ground arith, ground arith)

  error-Alike :
      (elsewhere : String) (msg : VsomeipMessage) (bytes : List ℕ) (h : Host)
      → Alike (convert_vsomeip_mt_error_to_umsg up vs fresh elsewhere msg bytes h).1 h
  unfolding convert_vsomeip_mt_error_to_umsg
  error-Alike elsewhere msg bytes h = (ground arith, ground arith, ground arith)

  notification-Alike :
      (elsewhere : String) (msg : VsomeipMessage) (bytes : List ℕ) (h : Host)
      → Alike (convert_vsomeip_mt_notification_to_umsg up vs fresh elsewhere msg bytes h).1 h
  unfolding convert_vsomeip_mt_notification_to_umsg
  notification-Alike elsewhere msg bytes h = (ground arith, ground arith, ground arith)

  receive-Alike : (msg : VsomeipMessage) (h : Host) → Alike (receive up vs fresh msg h) h
  unfolding receive convert_vsomeip_msg_to_umsg
  receive-Alike msg h =
      let st = h.storage in
      let there = get_local_authority st in
      let elsewhere = st.remote_authority in
      elim (Option-cases msg.payload) [
        | inl e ↦ (ground arith, ground arith, ground arith)
        | inr (bytes, e) ↦
            let (o1, p1, s1) = request-Alike there st.uri elsewhere msg bytes h in
            let (o2, p2, s2) = response-Alike elsewhere msg bytes h in
            let (o3, p3, s3) = error-Alike elsewhere msg bytes h in
            let (o4, p4, s4) = notification-Alike elsewhere msg bytes h in
            (
              ground (arith, o1, o2, o3, o4),
              ground (arith, p1, p2, p3, p4),
              ground (arith, s1, s2, s3, s4),
            )
      ]

module _ (up : UpRust) (vs : VsomeipApi) (order : IterOrder ℕ) where
  -- The engine of a healthy host replies to every command, whichever messages arrive.
  pub replay_replies :
      (es : List Happening) (h : Host)
      → IsHealthy h
      → let (replies, end) = replay up vs order es h in
        (length replies ≡ length (commands es)) × IsHealthy end
  unfolding replay
  replay_replies [] h healthy = (refl, healthy)
  replay_replies (took env cmd ∷ es) h healthy =
      let (e, healthy') = handle_command-Serves vs order env cmd healthy in
      let rest = replay_replies es (handle_command vs order env cmd h).1 healthy' in
      answer-Serves (handle_command vs order env cmd h).0 _ _ e rest
  replay_replies (arrived fresh msg ∷ es) h healthy =
      let g = receive up vs fresh msg h in
      replay_replies es g (Alike-IsHealthy g h (receive-Alike up vs fresh msg h) healthy)

-- What an extern function does to the hosts: one receives the message, or none does.
pub call_shared_extern_fn-receive :
    {M : Type 0} (bimap : BiMap ℕ ListenerConfig M) (up : UpRust) (vs : VsomeipApi)
    (alive : ℕ → Bool) (id : ℕ) (fresh : Uuid) (msg : VsomeipMessage) (w : Handlers M)
    (hosts : ℕ → Host) (j : ℕ)
    → let after = (call_shared_extern_fn bimap up vs alive id fresh msg w hosts).1 in
      (after j ≡ hosts j) ⊎ (after j ≡ receive up vs fresh msg (hosts j))
unfolding call_shared_extern_fn receive
call_shared_extern_fn-receive bimap up vs alive id fresh msg w hosts j =
    elim (Option-cases (get_message_handler_id_transport bimap alive w id)) [
      | inl e ↦ inl (ground (arith, e))
      | inr (s, e) ↦ elim (Bool-cases (nat_beq s j)) [
        | inl same ↦ let here : s ≡ j = ground arith in inr (rw (← here) (ground (arith, e)))
        | inr other ↦ inl (ground (arith, e, other))
      ]
    ]
