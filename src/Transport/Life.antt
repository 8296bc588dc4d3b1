-- ===== src/Transport/Life.antt =====
-- How a transport begins and ends: `new_with_config`, `new_internal` and `Drop`
-- (up-transport-vsomeip/src/lib.rs).
use up_transport_vsomeip_rus.Prelude.{
  ℕ, ◌^◌, String, Bool, true, Option, none, some, List, [], ◌∷◌, ltb, if◌then◌else◌,
}
use up_transport_vsomeip_rus.Action.{Action, return, ◌>>=◌, ◌>>◌}
use up_transport_vsomeip_rus.UProtocol.{UUri}
use up_transport_vsomeip_rus.UProtocol.Status.{
  Result, ok, err, panicked, fail, invalid_argument, internal, not_found,
}
use up_transport_vsomeip_rus.Config.{extract_application}
use up_transport_vsomeip_rus.Storage.{ApplicationConfig, new as new_storage}
use up_transport_vsomeip_rus.Storage.StateHandlers
use up_transport_vsomeip_rus.Storage.MessageHandlers.{Handlers, get_all_listener_configs}
use up_transport_vsomeip_rus.Storage.MessageHandlers.Config.{ListenerConfig}
use up_transport_vsomeip_rus.Engine.{start_vsomeip_app, stop_vsomeip_app}
use up_transport_vsomeip_rus.Transport.{
  Transport, World, RuntimeThread, serving, finished, command, application_name, warned, with_code,
}
use up_transport_vsomeip_rus.Transport.Api.{unregister_listener}

-- What the transports of a process share.
pub record Process (M : Type 0) : Type 0 where
  pub overflow_checks : Bool
  pub handlers : Handlers M
  pub state_handlers : StateHandlers.StateHandlers

module _ {Json M : Type 0} (world : World Json M) where
  unfoldable pub initialize_vsomeip_app : Action (Transport M) (Unit {0})
  initialize_vsomeip_app t =
      let config = t.host.storage.vsomeip_application_config in
      with_code internal (command world (start_vsomeip_app config.id config.name)) t

  unfoldable pub shutdown_vsomeip_app : Action (Transport M) (Unit {0})
  shutdown_vsomeip_app = do
    app_name ← application_name world
    command world (stop_vsomeip_app app_name)

  unfoldable pub unregister_all : List ListenerConfig → Action (Transport M) (Unit {0})
  unregister_all [] = return tt
  unregister_all (config ∷ configs) = do
    warned (unregister_listener world config.source_filter config.sink_filter config.listener)
    unregister_all configs

  -- The thread is told to shut down, and joined. There is nobody to tell when it has finished.
  unfoldable pub shutdown_runtime : Action (Transport M) (Unit {0})
  shutdown_runtime t = elim t.runtime [
    | serving n ↦ (ok tt, record t { runtime = finished })
    | finished ↦ (panicked, t)
  ]

  -- `drop`
  unfoldable pub drop : Action (Transport M) (Unit {0})
  unfolding unregister_all shutdown_vsomeip_app shutdown_runtime
  drop t =
      (unregister_all (get_all_listener_configs world.bimap t.handlers world.self)
          >> warned shutdown_vsomeip_app
          >> shutdown_runtime)
        t

  -- The number of workers of the runtime: that of the configuration, or ten.
  abbrev pub workers : Option ℕ → ℕ
  workers none = 10
  workers (some num_threads) = num_threads

  -- Where the runtime is not built, its thread panics before it sends its handle.
  unfoldable pub get_callback_runtime_handle : Option ℕ → Result RuntimeThread
  get_callback_runtime_handle runtime_config =
      if world.builds_runtime (workers runtime_config)
      then ok (serving (workers runtime_config))
      else panicked

  -- the transport before its application is started
  unfoldable pub me :
      ApplicationConfig → UUri → String → Option String → RuntimeThread → Process M → Transport M
  me config uri remote_authority_name config_path runtime p = record {
    host = record {
      overflow_checks = p.overflow_checks;
      storage = new_storage config uri remote_authority_name;
      state_handlers = p.state_handlers;
      calls = [];
    };
    handlers = p.handlers;
    point_to_point_listener = none;
    config_path = config_path;
    engine_running = true;
    runtime = runtime;
    commands = 0;
  }

  -- the parts of a process that a transport leaves behind
  unfoldable pub left_by : Transport M → Process M
  left_by t = record {
    overflow_checks = t.host.overflow_checks;
    handlers = t.handlers;
    state_handlers = t.host.state_handlers;
  }

  -- The application of a new transport is started; a transport that fails in this is dropped.
  unfoldable pub begin : Transport M → Result (Transport M) × Process M
  unfolding initialize_vsomeip_app drop left_by
  begin fresh =
      let (r, t) = initialize_vsomeip_app fresh in
      elim r [
        | ok a ↦ (ok t, left_by t)
        | err e ↦ (
          elim (drop t).0 [ ok a ↦ err e | err e' ↦ err e | panicked ↦ panicked ],
          left_by (drop t).1,
        )
        | panicked ↦ (panicked, left_by (drop t).1)
      ]

  unfoldable pub new_internal :
      ApplicationConfig
      → UUri
      → String
      → Option String
      → Option ℕ
      → Process M
      → Result (Transport M) × Process M
  unfolding begin me get_callback_runtime_handle
  new_internal config uri remote_authority_name config_path runtime_config p =
      if ltb uri.ue_version_major (2 ^ 8)
      then if world.up.verify_rpc_response uri
        then elim (get_callback_runtime_handle runtime_config) [
          | ok runtime ↦ begin (me config uri remote_authority_name config_path runtime p)
          | err e ↦ (err e, p)
          | panicked ↦ (panicked, p)
        ]
        else (fail invalid_argument, p)
      else (fail invalid_argument, p)

  unfoldable pub new_with_config :
      UUri → String → String → Option ℕ → Process M → Result (Transport M) × Process M
  unfolding new_internal extract_application
  new_with_config uri remote_authority_name config_path runtime_config p =
      if world.files.exists config_path
      then elim (extract_application world.files config_path) [
        | ok config ↦
            new_internal config uri remote_authority_name (some config_path) runtime_config p
        | err e ↦ (err e, p)
        | panicked ↦ (panicked, p)
      ]
      else (fail not_found, p)

  -- `UPTransportVsomeip::new`: without a file
  unfoldable pub new :
      ApplicationConfig → UUri → String → Option ℕ → Process M → Result (Transport M) × Process M
  unfolding new_internal
  new config uri remote_authority_name runtime_config p =
      new_internal config uri remote_authority_name none runtime_config p
