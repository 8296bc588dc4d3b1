-- ===== src/Transport/Invariants.antt =====
-- What holds of a transport, and is kept by the functions that are called of it.
pub mod Calls
use up_transport_vsomeip_rus.Prelude.{
  ℕ, ◌≡◌, refl, Bool, true, false, Option, none, some, List, [], ◌∷◌, ◌⊎◌, inl, inr, arith, nat_eq,
  if◌then◌else◌,
}
use up_transport_vsomeip_rus.Action.{Action, return, raise, lift, ok_or, continue, ◌>>=◌, ◌>>◌}
use up_transport_vsomeip_rus.UProtocol.{UUri, UMessage}
use up_transport_vsomeip_rus.UProtocol.Status.{
  UCode, Result, ok, err, panicked, invalid_argument, internal,
}
use up_transport_vsomeip_rus.DetermineType.{RegistrationType, determine_type}
use up_transport_vsomeip_rus.Config.{ServiceConfig}
use up_transport_vsomeip_rus.Storage.MessageHandlers.{
  GetMessageHandlerError, listener_id_already_exists, listener_config_already_exists, other_error,
  get_all_listener_configs,
}
use up_transport_vsomeip_rus.Storage.MessageHandlers.Config.{ListenerConfig, config_eq}
use up_transport_vsomeip_rus.Storage.MessageHandlers.Consistency.{IsConsistent}
use up_transport_vsomeip_rus.Storage.MessageHandlers.Preservation.{
  get_message_handler-IsConsistent, release_message_handler-IsConsistent,
}
use up_transport_vsomeip_rus.Engine.{TransportCommand}
use up_transport_vsomeip_rus.Transport.{
  Transport, World, command, application_name, get_message_handler, release_message_handler, warned,
  with_code, or_panic,
}
use up_transport_vsomeip_rus.Transport.PointToPoint.{
  register_for_returning_response, register_returning, register_point_to_point_listener,
  unregister_point_to_point_listener, service_filter, service_configs, set_listener, get_listener,
  register_service, register_services, unregister_service, unregister_services, is_request,
}
use up_transport_vsomeip_rus.Transport.Api.{
  send, register_one, register_listener, unregister_one, unregister_listener, is_point_to_point,
}
use up_transport_vsomeip_rus.Transport.Life.{shutdown_runtime}

-- What holds of a transport, and is kept by all that changes one: a command to the engine, the
-- message handlers, the listener for point-to-point messages and the end of the runtime.
pub record Invariant {Json M : Type 0} (world : World Json M) : Type 1 where
  pub holds : Transport M → Type 0
  pub holds-command :
      (cmd : TransportCommand) (t : Transport M) → holds t → holds (command world cmd t).1
  pub holds-get_message_handler :
      (config : ListenerConfig) (t : Transport M)
      → holds t
      → holds (get_message_handler world config t).1
  pub holds-release_message_handler :
      (config : ListenerConfig) (t : Transport M)
      → holds t
      → holds (release_message_handler world config t).1
  pub holds-set_listener :
      (listener : ℕ) (t : Transport M) → holds t → holds (set_listener world listener t).1
  pub holds-shutdown_runtime : (t : Transport M) → holds t → holds (shutdown_runtime world t).1

module _ {Json M : Type 0} {world : World Json M} (inv : Invariant world) where
  -- An action after which the invariant holds if it did before.
  pub record Keeps {A : Type 0} (m : Action (Transport M) A) : Type 0 where
    pub keeps : (t : Transport M) → inv.holds t → inv.holds (m t).1

  pub Keeps-still : {A : Type 0} (r : Result A) → Keeps (lift r)
  Keeps-still r = record { keeps = λ t c. c }

  Keeps-continue :
      {A B : Type 0} (r : Result A) (f : A → Action (Transport M) B)
      → ((a : A) → Keeps (f a))
      → Keeps (continue r f)
  Keeps-continue (ok a) f k = k a
  Keeps-continue (err e) f k = record { keeps = λ t c. c }
  Keeps-continue panicked f k = record { keeps = λ t c. c }

  pub Keeps-bind :
      {A B : Type 0} (m : Action (Transport M) A) {f : A → Action (Transport M) B}
      → Keeps m
      → ((a : A) → Keeps (f a))
      → Keeps (m >>= f)
  Keeps-bind m {f} k l = record {
    keeps = λ t c. (Keeps-continue (m t).0 f l).keeps (m t).1 (k.keeps t c);
  }

  pub Keeps-ok_or : {A : Type 0} (o : Option A) (c : UCode) → Keeps (ok_or o c)
  Keeps-ok_or none c = record { keeps = λ t h. h }
  Keeps-ok_or (some a) c = record { keeps = λ t h. h }

  state-warned :
      {A : Type 0} (m : Action (Transport M) A) (t : Transport M) → (warned m t).1 ≡ (m t).1
  unfolding warned
  state-warned m t = ground arith

  state-with_code :
      {A : Type 0} (c : UCode) (m : Action (Transport M) A) (t : Transport M)
      → (with_code c m t).1 ≡ (m t).1
  unfolding with_code
  state-with_code c m t = ground arith

  state-or_panic :
      {A : Type 0} (m : Action (Transport M) A) (t : Transport M) → (or_panic m t).1 ≡ (m t).1
  unfolding or_panic
  state-or_panic m t = ground arith

  pub Keeps-warned : {A : Type 0} (m : Action (Transport M) A) → Keeps m → Keeps (warned m)
  Keeps-warned m k = record { keeps = λ t c. rw (state-warned m t) (k.keeps t c) }

  pub Keeps-with_code :
      {A : Type 0} (e : UCode) (m : Action (Transport M) A) → Keeps m → Keeps (with_code e m)
  Keeps-with_code e m k = record { keeps = λ t c. rw (state-with_code e m t) (k.keeps t c) }

  pub Keeps-or_panic : {A : Type 0} (m : Action (Transport M) A) → Keeps m → Keeps (or_panic m)
  Keeps-or_panic m k = record { keeps = λ t c. rw (state-or_panic m t) (k.keeps t c) }

  pub Keeps-command : (cmd : TransportCommand) → Keeps (command world cmd)
  Keeps-command cmd = record { keeps = inv.holds-command cmd }

  pub Keeps-name : Keeps (application_name world)
  unfolding application_name
  Keeps-name = record { keeps = λ t c. c }

  pub Keeps-get : (config : ListenerConfig) → Keeps (get_message_handler world config)
  Keeps-get config = record { keeps = inv.holds-get_message_handler config }

  pub Keeps-release : (config : ListenerConfig) → Keeps (release_message_handler world config)
  Keeps-release config = record { keeps = inv.holds-release_message_handler config }

  pub Keeps-if :
      {A : Type 0} (b : Bool) {m n : Action (Transport M) A}
      → Keeps m
      → Keeps n
      → Keeps (if b then m else n)
  Keeps-if true k l = k
  Keeps-if false k l = l
