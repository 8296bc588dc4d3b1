-- ===== src/Transport/Stale.antt =====
-- The listener for all point-to-point messages after it has been unregistered.
use up_transport_vsomeip_rus.Prelude.{
  ℕ, ◌≡◌, ◌∙◌, refl, ap, Option, some, List, [], ◌∷◌, arith, nat_eq, String,
}
use up_transport_vsomeip_rus.Action.{Action, continue}
use up_transport_vsomeip_rus.UProtocol.Status.{Result, ok, err, panicked, fail, already_exists}
use up_transport_vsomeip_rus.Config.{ServiceConfig, extract_services}
use up_transport_vsomeip_rus.Storage.MessageHandlers.Config.{config_eq}
use up_transport_vsomeip_rus.Transport.{
  Transport, World, command, application_name, release_message_handler, warned,
}
use up_transport_vsomeip_rus.Transport.PointToPoint.{
  register_point_to_point_listener, unregister_point_to_point_listener, service_filter,
  service_configs, set_listener, get_listener, get_config_path, unregister_service,
  unregister_services, unregister_sink,
}
use up_transport_vsomeip_rus.Transport.Histories.{Call, perform_all, perform_all-SameTransport}

module _ {Json M : Type 0} (world : World Json M) where
  -- the listener, and where the configuration is read
  abbrev settings : Transport M → Option ℕ × Option String
  settings t = (t.point_to_point_listener, t.config_path)

  settings-unregister_service :
      (listener : ℕ) (config : ServiceConfig) (t : Transport M)
      → settings (unregister_service world listener config t).1 ≡ settings t
  unfolding unregister_service service_filter unregister_sink warned command application_name
      release_message_handler
  settings-unregister_service listener config t = ground arith

  settings-continue :
      (r : Result (Unit {0})) (f : Unit {0} → Action (Transport M) (Unit {0})) (t t1 : Transport M)
      → settings t1 ≡ settings t
      → ((s : Transport M) → settings (f tt s).1 ≡ settings s)
      → settings (continue r f t1).1 ≡ settings t
  settings-continue (ok a) f t t1 e k = k t1 ∙ e
  settings-continue (err x) f t t1 e k = e
  settings-continue panicked f t t1 e k = e

  settings-unregister_services :
      (listener : ℕ) (configs : List ServiceConfig) (t : Transport M)
      → settings (unregister_services world listener configs t).1 ≡ settings t
  unfolding unregister_services
  settings-unregister_services listener [] t = refl
  settings-unregister_services listener (config ∷ configs) t =
      settings-continue (unregister_service world listener config t).0
        (λ a. unregister_services world listener configs) t
        (unregister_service world listener config t).1
        (settings-unregister_service listener config t)
        (settings-unregister_services listener configs)

  unregister_is :
      (t : Transport M) (listener : ℕ) (path : String) (configs : List ServiceConfig)
      → t.point_to_point_listener ≡ some listener
      → t.config_path ≡ some path
      → extract_services world.files path ≡ ok configs
      → unregister_point_to_point_listener world t ≡ unregister_services world listener configs t
  unfolding unregister_point_to_point_listener get_listener service_configs get_config_path
  unregister_is t listener path configs l p e = ground arith

  refused :
      (t : Transport M) (listener other : ℕ) (path : String) (configs : List ServiceConfig)
      → t.point_to_point_listener ≡ some listener
      → t.config_path ≡ some path
      → extract_services world.files path ≡ ok configs
      → (register_point_to_point_listener world other t).0 ≡ fail already_exists
  unfolding register_point_to_point_listener service_configs get_config_path set_listener
  refused t listener other path configs l p e = ground arith

  -- A transport whose configuration file names its services, and that has a listener for all
  -- point-to-point messages, has it still after it was unregistered, however that ended; and
  -- whatever is called of the transport after that, any number of times and with whatever outcome,
  -- it has that listener, and registering any such listener is refused, since there is one already.
  pub register-unregister_point_to_point_listener :
      (t : Transport M) (listener other : ℕ) (path : String) (configs : List ServiceConfig)
      (calls : List Call)
      → t.point_to_point_listener ≡ some listener
      → t.config_path ≡ some path
      → extract_services world.files path ≡ ok configs
      → let t1 = (unregister_point_to_point_listener world t).1 in
        let t2 = perform_all world calls t1 in
        (t1.point_to_point_listener ≡ some listener)
        × (t2.point_to_point_listener ≡ some listener)
        × ((register_point_to_point_listener world other t2).0 ≡ fail already_exists)
  register-unregister_point_to_point_listener t listener other path configs calls l p e =
      let kept =
        ap (λ x. settings x.1) (unregister_is t listener path configs l p e)
        ∙ settings-unregister_services listener configs t in
      let l1 = ap (λ x. x.0) kept ∙ l in
      let p1 = ap (λ x. x.1) kept ∙ p in
      let t1 = (unregister_point_to_point_listener world t).1 in
      let same = perform_all-SameTransport world calls t1 listener l1 in
      let (alike, path_same, l2) = same in
      (
        l1,
        l2,
        refused (perform_all world calls t1) listener other path configs l2 (path_same ∙ p1) e,
      )
