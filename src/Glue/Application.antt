-- ===== src/Glue/Application.antt =====
-- `ApplicationWrapper`: the calls of an application that the bindings cannot make, with the glue
-- functions of vsomeip-sys/src/glue/application_registrations.cpp that they are passed to.
use up_transport_vsomeip_rus.Prelude.{
  ℕ, ◌≡◌, ◌↔◌, refl, Bool, true, not, nat_beq, Option, none, some, List, [], ◌∷◌, arith,
}
use up_transport_vsomeip_rus.Glue.{Outcome, returns, panics, undefined, Pointer, get_pinned, follow}

pub record ApplicationWrapper : Type 0 where
  pub get_mut : Pointer

-- A wrapper is made only for an application that is there.
unfoldable pub make_application_wrapper : Pointer → Option ApplicationWrapper
make_application_wrapper none = none
make_application_wrapper (some a) = some (record { get_mut = some a })

-- What is called of the application; a set of event groups is a list.
pub data RawCall : Type 0 where
  request_event offer_event : (service instance_id event : ℕ) → List ℕ → RawCall
  register_message_handler : (service instance_id method handler : ℕ) → RawCall
  register_availability_handler : (service instance_id handler major minor : ℕ) → RawCall
  register_subscription_status_handler :
      (service instance_id eventgroup event handler : ℕ) → Bool → RawCall
  register_state_handler : (handler : ℕ) → RawCall

-- The safe functions, with their arguments.
pub data SafeCall : Type 0 where
  request_single_event_safe offer_single_event_safe :
      (service instance_id notifier eventgroup : ℕ) → SafeCall
  register_message_handler_fn_ptr_safe : (service instance_id method handler : ℕ) → SafeCall
  register_availability_handler_fn_ptr_safe :
      (service instance_id handler major minor : ℕ) → SafeCall
  register_subscription_status_handler_fn_ptr_safe :
      (service instance_id eventgroup event handler : ℕ) → Bool → SafeCall
  register_state_handler_fn_ptr_safe : (handler : ℕ) → SafeCall

-- what the glue function of a safe function calls
unfoldable pub raw_call : SafeCall → RawCall
raw_call (request_single_event_safe s i n g) = request_event s i n (g ∷ [])
raw_call (offer_single_event_safe s i n g) = offer_event s i n (g ∷ [])
raw_call (register_message_handler_fn_ptr_safe s i m f) = register_message_handler s i m f
raw_call (register_availability_handler_fn_ptr_safe s i f major minor) =
    register_availability_handler s i f major minor
raw_call (register_subscription_status_handler_fn_ptr_safe s i g e f selective) =
    register_subscription_status_handler s i g e f selective
raw_call (register_state_handler_fn_ptr_safe f) = register_state_handler f

-- The calls that the application at an address gets, newest first.
abbrev pub Log : Type 0
Log = List (ℕ × RawCall)

-- `application_wrapper->get_shared_ptr()->…`
unfoldable pub call : ApplicationWrapper → SafeCall → Log → Outcome Log
unfolding raw_call
call w c log = elim (follow w.get_mut) [
  | returns a ↦ returns ((a, raw_call c) ∷ log)
  | panics ↦ undefined
  | undefined ↦ undefined
]

-- The handler that `register_availability_handler_fn_ptr` gives to the application: a function gets
-- a Boolean for the state of a service. The states are numbers, and which one of them is
-- `AS_UNAVAILABLE` is a parameter.
unfoldable pub availability_handler {ℓ} :
    {A : Type ℓ} → (as_unavailable : ℕ) → (ℕ → ℕ → Bool → A) → (service instance_id state : ℕ) → A
availability_handler as_unavailable fn_ptr_handler service instance_id state =
    fn_ptr_handler service instance_id (not (nat_beq state as_unavailable))

-- The function gets `true` in every state but the one of a service that is not available.
availability_handler_iff :
    (as_unavailable service instance_id state : ℕ)
    → (availability_handler as_unavailable (λ s i available. available) service instance_id state
        ≡ true)
      ↔ (¬ (state ≡ as_unavailable))
unfolding availability_handler
availability_handler_iff as_unavailable service instance_id state = ground arith

-- A wrapper that was made of a pointer is one of an application that is there: it is pinned without
-- a panic, and every safe function of it calls that application once, with the event group that it
-- is given as the only one.
make_application_wrapper-call :
    (p : Pointer) (w : ApplicationWrapper) (c : SafeCall) (log : Log)
    → make_application_wrapper p ≡ some w
    → (a : ℕ) × (p ≡ some a)
      × (get_pinned w.get_mut ≡ returns a)
      × (call w c log ≡ returns ((a, raw_call c) ∷ log))
unfolding make_application_wrapper call
make_application_wrapper-call none w c log e = absurd (ground arith)
make_application_wrapper-call (some a) w c log e = (a, refl, ground arith, ground arith)
