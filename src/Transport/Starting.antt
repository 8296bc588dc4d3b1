-- ===== src/Transport/Starting.antt =====
-- What the creation of a transport does to the process.
use up_transport_vsomeip_rus.Prelude.{
  ℕ, ◌^◌, ◌≡◌, ◌⊎◌, ◌∙◌, refl, sym, ap, Bool, true, false, String, Option, none, some, List, [],
  ◌∷◌, ltb, ◌&&◌, arith, nat_eq, inl, inr, Bool-cases, ==_refl, if◌then◌else◌,
}
use up_transport_vsomeip_rus.Collections.HashSet.{member}
use up_transport_vsomeip_rus.UProtocol.{UUri}
use up_transport_vsomeip_rus.UProtocol.Status.{Result, ok, fail, invalid_argument, not_found}
use up_transport_vsomeip_rus.Config.Bounds.{extracted}
use up_transport_vsomeip_rus.Storage.{ApplicationConfig, new}
use up_transport_vsomeip_rus.Storage.MessageHandlers.{get_all_listener_configs}
use up_transport_vsomeip_rus.Storage.MessageHandlers.Config.{ListenerConfig, config_eq}
use up_transport_vsomeip_rus.Storage.MessageHandlers.Listed.{member-get_all_listener_configs}
use up_transport_vsomeip_rus.Storage.MessageHandlers.Registered.{holds}
use up_transport_vsomeip_rus.Transport.{
  serving, Transport, World, command, warned, with_code, application_name,
}
use up_transport_vsomeip_rus.Engine.{handle_command, start_vsomeip_app}
use up_transport_vsomeip_rus.Engine.App.{start_vsomeip_app_internal, create_app}
use up_transport_vsomeip_rus.Transport.LocalUri.{get_source_uri}
use up_transport_vsomeip_rus.Transport.Life.{
  shutdown_runtime, get_callback_runtime_handle, begin, workers, Process, me, left_by,
  initialize_vsomeip_app, shutdown_vsomeip_app, unregister_all, drop, new_internal, new_with_config,
}

no_member : (xs : List ListenerConfig) → ((x : ListenerConfig) → member x xs ≡ false) → xs ≡ []
no_member [] none_there = refl
no_member (x ∷ xs) none_there = absurd (ground (arith, none_there x, ==_refl x))

module _ {Json M : Type 0} (world : World Json M) where
  -- a transport that has no listener is dropped
  handlers-drop :
      (t : Transport M)
      → ((x : ListenerConfig) → holds world.bimap t.handlers world.self x ≡ false)
      → (drop world t).1.handlers ≡ t.handlers
  unfolding drop unregister_all shutdown_runtime shutdown_vsomeip_app application_name warned
      command
  handlers-drop t silent =
      let listed = λ (x : ListenerConfig).
        member-get_all_listener_configs world.bimap t.handlers world.self x in
      rw
        (no_member (get_all_listener_configs world.bimap t.handlers world.self)
          (λ x. listed x ∙ silent x))
        (ground arith)

  -- the limits that a URI is checked for
  abbrev pub is_accepted : UUri → Bool
  is_accepted uri = ltb uri.ue_version_major (2 ^ 8) && world.up.verify_rpc_response uri

  uri-command :
      (id : ℕ) (name : String) (t : Transport M)
      → get_source_uri (command world (start_vsomeip_app id name) t).1 ≡ get_source_uri t
  unfolding command get_source_uri handle_command start_vsomeip_app_internal create_app
  uri-command id name t = ground arith

  module _ (config : ApplicationConfig) (uri : UUri) (remote : String) (path : Option String)
      (rc : Option ℕ) (p : Process M) where
    started : Result (Unit {0}) × Transport M
    started =
        initialize_vsomeip_app world
          (me world config uri remote path (serving (workers world rc)) p)

    handlers-started : started.1.handlers ≡ p.handlers
    unfolding started initialize_vsomeip_app me command with_code
    handlers-started = ground arith

    handlers-new_internal :
        ((x : ListenerConfig) → holds world.bimap p.handlers world.self x ≡ false)
        → (new_internal world config uri remote path rc p).1.handlers ≡ p.handlers
    unfolding new_internal get_callback_runtime_handle begin started left_by
    handlers-new_internal fresh =
        let kept = handlers-drop started.1 (λ x. rw (handlers-started) (fresh x)) in
        ground (arith, handlers-started)

    uri-started : get_source_uri started.1 ≡ uri
    unfolding started initialize_vsomeip_app me with_code new get_source_uri
    uri-started = ground (
      arith,
      uri-command config.id config.name
          (me world config uri remote path (serving (workers world rc)) p),
    )

    made_is_started :
        (t : Transport M)
        → (new_internal world config uri remote path rc p).0 ≡ ok t
        → t ≡ started.1
    unfolding new_internal get_callback_runtime_handle begin started
    made_is_started t made = ground arith

    new_internal_outcome :
        (t : Transport M)
        → (new_internal world config uri remote path rc p).0 ≡ ok t
        → (is_accepted uri ≡ true)
          × (t.engine_running ≡ true)
          × (t.handlers ≡ p.handlers)
          × (t.point_to_point_listener ≡ none)
          × (t.config_path ≡ path)
          × (get_source_uri t ≡ uri)
          × (t.runtime ≡ serving (workers world rc))
    unfolding new_internal get_callback_runtime_handle begin initialize_vsomeip_app me left_by
        command with_code
    new_internal_outcome t made = (
      ground arith,
      ground arith,
      ground arith,
      ground arith,
      ground arith,
      rw (made_is_started t made) uri-started,
      ground arith,
    )

    not_accepted :
        is_accepted uri ≡ false
        → new_internal world config uri remote path rc p ≡ (fail invalid_argument, p)
    unfolding new_internal
    not_accepted refused = ground arith

  -- the three ways that creating a transport goes
  ways :
      (uri : UUri) (remote path : String) (rc : Option ℕ) (p : Process M)
      → ((world.files.exists path ≡ false)
          × (new_with_config world uri remote path rc p ≡ (fail not_found, p)))
        ⊎ ((world.files.exists path ≡ true)
            × ((new_with_config world uri remote path rc p ≡ (fail invalid_argument, p))
                ⊎ ((config : ApplicationConfig) × (new_with_config world uri remote path rc p
                      ≡ new_internal world config uri remote (some path) rc p))))
  unfolding new_with_config
  ways uri remote path rc p = elim (Bool-cases (world.files.exists path)) [
    | inl e ↦ inr (
      e,
      elim (extracted world.files path) [
        | inl f ↦ inl (rw (e) (rw (f) refl))
        | inr (config, f) ↦ inr (config, rw (e) (rw (f) refl))
      ],
    )
    | inr e ↦ inl (e, rw (e) refl)
  ]

  -- Where the number of the new transport's storage has no listener: creating a transport leaves the
  -- message handlers of the process as they are, whether it succeeds or fails.
  pub handlers-new_with_config :
      (uri : UUri) (remote path : String) (rc : Option ℕ) (p : Process M)
      → ((x : ListenerConfig) → holds world.bimap p.handlers world.self x ≡ false)
      → (new_with_config world uri remote path rc p).1.handlers ≡ p.handlers
  handlers-new_with_config uri remote path rc p fresh = elim (ways uri remote path rc p) [
    | inl (missing, e) ↦ rw (e) refl
    | inr (there, inl e) ↦ rw (e) refl
    | inr (there, inr (config, e)) ↦
        rw (e) (handlers-new_internal config uri remote (some path) rc p fresh)
  ]

  -- A transport that is created with success has a running engine, the message handlers of the
  -- process, no point-to-point listener, the path of its file, the URI as its source, and a runtime
  -- that serves with as many workers as the configuration says, or ten; the file is there, and the
  -- URI has a version of 8 bits and is one for responses.
  pub new_with_config_made :
      (uri : UUri) (remote path : String) (rc : Option ℕ) (p : Process M) (t : Transport M)
      → (new_with_config world uri remote path rc p).0 ≡ ok t
      → (world.files.exists path && is_accepted uri ≡ true)
        × (t.engine_running ≡ true)
        × (t.handlers ≡ p.handlers)
        × (t.point_to_point_listener ≡ none)
        × (t.config_path ≡ some path)
        × (get_source_uri t ≡ uri)
        × (t.runtime ≡ serving (workers world rc))
  new_with_config_made uri remote path rc p t made = elim (ways uri remote path rc p) [
    | inl (missing, e) ↦ absurd (ground arith)
    | inr (there, inl e) ↦ absurd (ground arith)
    | inr (there, inr (config, e)) ↦
        let (accepted, running, handlers, listener, found, source, thread) =
          new_internal_outcome config uri remote (some path) rc p t
            (sym (ap (λ x. x.0) e) ∙ made) in
        (ground arith, running, handlers, listener, found, source, thread)
  ]

  -- Where the URI has a version of more than 8 bits or is not one for responses, no transport is
  -- created and the process is as before: the error is NOT_FOUND where the file is not there, and
  -- INVALID_ARGUMENT otherwise, whether the file can be read or not.
  pub new_with_config_refused :
      (uri : UUri) (remote path : String) (rc : Option ℕ) (p : Process M)
      → is_accepted uri ≡ false
      → new_with_config world uri remote path rc p
        ≡ ((if world.files.exists path then fail invalid_argument else fail not_found), p)
  new_with_config_refused uri remote path rc p refused = elim (ways uri remote path rc p) [
    | inl (missing, e) ↦ rw (missing) e
    | inr (there, inl e) ↦ rw (there) e
    | inr (there, inr (config, e)) ↦
        rw (there) (e ∙ not_accepted config uri remote (some path) rc p refused)
  ]
