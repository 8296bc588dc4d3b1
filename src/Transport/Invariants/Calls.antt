-- ===== src/Transport/Invariants/Calls.antt =====
-- The functions of the transport, one by one.
use up_transport_vsomeip_rus.Prelude.{
  ℕ, ◌≡◌, Option, none, some, List, [], ◌∷◌, ◌⊎◌, inl, inr, arith, nat_eq, if◌then◌else◌,
}
use up_transport_vsomeip_rus.Action.{return, raise, lift, ok_or, ◌>>◌}
use up_transport_vsomeip_rus.UProtocol.{UUri, UMessage}
use up_transport_vsomeip_rus.UProtocol.Status.{ok, fail, invalid_argument, internal}
use up_transport_vsomeip_rus.DetermineType.{RegistrationType}
use up_transport_vsomeip_rus.Config.{ServiceConfig}
use up_transport_vsomeip_rus.Storage.MessageHandlers.{
  GetMessageHandlerError, listener_id_already_exists, listener_config_already_exists, other_error,
  get_all_listener_configs,
}
use up_transport_vsomeip_rus.Storage.MessageHandlers.Config.{ListenerConfig, config_eq}
use up_transport_vsomeip_rus.Transport.{
  Transport, World, command, application_name, get_message_handler, warned, with_code, or_panic,
}
use up_transport_vsomeip_rus.Transport.PointToPoint.{
  register_for_returning_response, register_returning, returning_for, get_config_path,
  register_point_to_point_listener, unregister_point_to_point_listener, service_filter,
  service_configs, set_listener, get_listener, register_service, register_services,
  unregister_service, unregister_services, is_request, register_sink, unregister_sink,
}
use up_transport_vsomeip_rus.Transport.Api.{
  send, register_one, register_listener, unregister_one, unregister_listener, is_point_to_point,
}
use up_transport_vsomeip_rus.Transport.Life.{
  shutdown_vsomeip_app, shutdown_runtime, unregister_all, drop,
}
use up_transport_vsomeip_rus.Transport.Invariants.{
  Invariant, Keeps, Keeps-bind, Keeps-ok_or, Keeps-warned, Keeps-with_code, Keeps-or_panic,
  Keeps-command, Keeps-name, Keeps-get, Keeps-release, Keeps-still, Keeps-if,
}

module _ {Json M : Type 0} {world : World Json M} (inv : Invariant world) where
  Keeps-returning :
      (config : ListenerConfig) (got : GetMessageHandlerError ⊎ ℕ)
      → Keeps inv (register_returning world config got)
  unfolding register_returning
  Keeps-returning config (inl (listener_config_already_exists handler)) = Keeps-still inv _
  Keeps-returning config (inl (listener_id_already_exists id)) = Keeps-still inv _
  Keeps-returning config (inl other_error) = Keeps-still inv _
  Keeps-returning config (inr f) = Keeps-bind inv (application_name world) (Keeps-name inv) λ name.
      Keeps-bind inv (or_panic (command world _)) (Keeps-or_panic inv _ (Keeps-command inv _))
        λ a. Keeps-still inv _

  Keeps-register_one :
      (src : UUri) (sink : Option UUri) (type : RegistrationType) (listener : ℕ)
      → Keeps inv (register_one world src sink type listener)
  unfolding register_one
  Keeps-register_one src sink type listener =
      Keeps-bind inv (application_name world) (Keeps-name inv) λ name.
        Keeps-bind inv (get_message_handler world _) (Keeps-get inv _) λ got.
          Keeps-bind inv (ok_or _ internal) (Keeps-ok_or inv _ internal) λ f. Keeps-command inv _

  Keeps-unregister_one :
      (src : UUri) (sink : Option UUri) (type : RegistrationType) (listener : ℕ)
      → Keeps inv (unregister_one world src sink type listener)
  unfolding unregister_one
  Keeps-unregister_one src sink type listener =
      Keeps-bind inv (application_name world) (Keeps-name inv) λ name.
        Keeps-bind inv (warned (command world _)) (Keeps-warned inv _ (Keeps-command inv _))
          λ a. Keeps-warned inv _ (Keeps-release inv _)

  Keeps-listener : Keeps inv (get_listener world)
  unfolding get_listener
  Keeps-listener = record { keeps = λ t c. c }

  Keeps-returning_for :
      (src : UUri) (sink : Option UUri) (type : RegistrationType) (listener : Option ℕ)
      → Keeps inv (returning_for world src sink type listener)
  unfolding returning_for
  Keeps-returning_for src sink type none = Keeps-still inv _
  Keeps-returning_for src sink type (some listener) =
      Keeps-if inv (is_request type)
        (Keeps-bind inv (ok_or sink invalid_argument) (Keeps-ok_or inv sink _) λ s.
          let config : ListenerConfig = record {
            source_filter = s;
            sink_filter = some src;
            listener = listener;
          } in
          Keeps-bind inv (get_message_handler world config) (Keeps-get inv config)
            (Keeps-returning config))
        (Keeps-still inv _)

  Keeps-for_returning :
      (src : UUri) (sink : Option UUri) (type : RegistrationType)
      → Keeps inv (register_for_returning_response world src sink type)
  unfolding register_for_returning_response
  Keeps-for_returning src sink type =
      Keeps-bind inv (get_listener world) Keeps-listener (Keeps-returning_for src sink type)

  pub Keeps-send : (message : UMessage) → Keeps inv (send world message)
  unfolding send
  Keeps-send message =
      Keeps-bind inv (ok_or message.attributes _) (Keeps-ok_or inv _ _) λ attributes.
        Keeps-bind inv (if world.up.validate attributes then return tt else raise invalid_argument)
          (Keeps-if inv (world.up.validate attributes) (Keeps-still inv (ok tt))
            (Keeps-still inv (fail invalid_argument)))
          λ valid. Keeps-bind inv (ok_or attributes.source _) (Keeps-ok_or inv _ _) λ source.
            Keeps-bind inv (lift _) (Keeps-still inv _) λ type.
              Keeps-bind inv (application_name world) (Keeps-name inv) λ name.
                Keeps-bind inv (register_for_returning_response world source _ type)
                  (Keeps-for_returning source _ type) λ b. Keeps-command inv _

  state-configs : (t : Transport M) → (service_configs world t).1 ≡ t
  unfolding service_configs get_config_path
  state-configs t = ground arith

  Keeps-configs : Keeps inv (service_configs world)
  Keeps-configs = record { keeps = λ t c. rw (state-configs t) c }

  Keeps-set_listener : (listener : ℕ) → Keeps inv (set_listener world listener)
  Keeps-set_listener listener = record { keeps = inv.holds-set_listener listener }

  Keeps-filter : (config : ServiceConfig) → Keeps inv (service_filter world config)
  unfolding service_filter
  Keeps-filter config = record { keeps = λ t c. c }

  Keeps-register_sink : (listener : ℕ) (sink : UUri) → Keeps inv (register_sink world listener sink)
  unfolding register_sink
  Keeps-register_sink listener sink =
      Keeps-bind inv (get_message_handler world _) (Keeps-get inv _) λ got.
        Keeps-bind inv (ok_or _ internal) (Keeps-ok_or inv _ _) λ f.
          Keeps-bind inv (application_name world) (Keeps-name inv)
            λ name. Keeps-with_code inv _ _ (Keeps-command inv _)

  Keeps-register_service :
      (listener : ℕ) (config : ServiceConfig) → Keeps inv (register_service world listener config)
  unfolding register_service
  Keeps-register_service listener config =
      Keeps-bind inv (service_filter world config) (Keeps-filter config)
        (Keeps-register_sink listener)

  Keeps-register_services :
      (listener : ℕ) (configs : List ServiceConfig)
      → Keeps inv (register_services world listener configs)
  unfolding register_services
  Keeps-register_services listener [] = Keeps-still inv _
  Keeps-register_services listener (config ∷ configs) =
      Keeps-bind inv (register_service world listener config)
        (Keeps-register_service listener config) λ a. Keeps-register_services listener configs

  Keeps-unregister_sink :
      (listener : ℕ) (sink : UUri) → Keeps inv (unregister_sink world listener sink)
  unfolding unregister_sink
  Keeps-unregister_sink listener sink = Keeps-bind inv (lift _) (Keeps-still inv _) λ type.
      Keeps-bind inv (application_name world) (Keeps-name inv)
        λ name. Keeps-bind inv (command world _) (Keeps-command inv _) λ a. Keeps-release inv _

  Keeps-unregister_service :
      (listener : ℕ) (config : ServiceConfig) → Keeps inv (unregister_service world listener config)
  unfolding unregister_service
  Keeps-unregister_service listener config =
      Keeps-bind inv (service_filter world config) (Keeps-filter config) λ sink.
        Keeps-warned inv (unregister_sink world listener sink) (Keeps-unregister_sink listener sink)

  Keeps-unregister_services :
      (listener : ℕ) (configs : List ServiceConfig)
      → Keeps inv (unregister_services world listener configs)
  unfolding unregister_services
  Keeps-unregister_services listener [] = Keeps-still inv _
  Keeps-unregister_services listener (config ∷ configs) =
      Keeps-bind inv (unregister_service world listener config)
        (Keeps-unregister_service listener config) λ a. Keeps-unregister_services listener configs

  pub Keeps-register_listener :
      (src : UUri) (sink : Option UUri) (listener : ℕ)
      → Keeps inv (register_listener world src sink listener)
  unfolding register_listener register_point_to_point_listener
  Keeps-register_listener src sink listener = Keeps-bind inv (lift _) (Keeps-still inv _) λ type.
      Keeps-if inv (is_point_to_point type)
        (Keeps-bind inv (service_configs world) Keeps-configs λ configs.
          Keeps-bind inv (set_listener world listener) (Keeps-set_listener listener)
            λ a. Keeps-register_services listener configs)
        (Keeps-register_one src sink type listener)

  pub Keeps-unregister_listener :
      (src : UUri) (sink : Option UUri) (listener : ℕ)
      → Keeps inv (unregister_listener world src sink listener)
  unfolding unregister_listener unregister_point_to_point_listener
  Keeps-unregister_listener src sink listener =
      Keeps-bind inv (with_code invalid_argument (lift _))
        (Keeps-with_code inv _ _ (Keeps-still inv _))
        λ type.
          Keeps-if inv (is_point_to_point type)
            (Keeps-bind inv (get_listener world) Keeps-listener λ found.
              Keeps-bind inv (ok_or found _) (Keeps-ok_or inv _ _) λ l.
                Keeps-bind inv (service_configs world) Keeps-configs
                  λ configs. Keeps-unregister_services l configs)
            (Keeps-unregister_one src sink type listener)

  Keeps-unregister_all : (configs : List ListenerConfig) → Keeps inv (unregister_all world configs)
  unfolding unregister_all
  Keeps-unregister_all [] = Keeps-still inv _
  Keeps-unregister_all (config ∷ configs) =
      Keeps-bind inv
        (warned (unregister_listener world config.source_filter config.sink_filter config.listener))
        (Keeps-warned inv _
          (Keeps-unregister_listener config.source_filter config.sink_filter config.listener))
        λ a. Keeps-unregister_all configs

  Keeps-shutdown : Keeps inv (shutdown_vsomeip_app world)
  unfolding shutdown_vsomeip_app
  Keeps-shutdown =
      Keeps-bind inv (application_name world) (Keeps-name inv) λ name. Keeps-command inv _

  Keeps-shutdown_runtime : Keeps inv (shutdown_runtime world)
  Keeps-shutdown_runtime = record { keeps = inv.holds-shutdown_runtime }

  pub Keeps-drop : Keeps inv (drop world)
  unfolding drop
  Keeps-drop = record {
    keeps = λ t c.
        (Keeps-bind inv
            (unregister_all world (get_all_listener_configs world.bimap t.handlers world.self)
              >> warned (shutdown_vsomeip_app world))
            (Keeps-bind inv
              (unregister_all world (get_all_listener_configs world.bimap t.handlers world.self))
              (Keeps-unregister_all _) λ a. Keeps-warned inv _ Keeps-shutdown)
            λ a. Keeps-shutdown_runtime).keeps
          t c;
  }
