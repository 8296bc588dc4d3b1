-- ===== src/Tests/Glued.antt =====
-- Wrappers on a concrete memory.
use up_transport_vsomeip_rus.Prelude.{
  ℕ, ◌%◌, ◌^◌, ◌≡◌, refl, true, false, nat_beq, if◌then◌else◌, arith, none, some, inl, List, [],
  ◌∷◌, length,
}
use up_transport_vsomeip_rus.Glue.{returns, undefined}
use up_transport_vsomeip_rus.Glue.Application.{
  make_application_wrapper, call, raw_call, offer_single_event_safe, ApplicationWrapper,
}
use up_transport_vsomeip_rus.Glue.Payload.{
  take, PayloadApi, SharedPtr, Memory, drop_pointer, get_message_payload, get_data_safe,
  fill_message,
}
use up_transport_vsomeip_rus.Glue.Payload.Lifetimes.{
  Owns, get_data_safe-fill_message, drop_pointer-fill_message,
}

-- a payload that is its bytes
abbrev api : PayloadApi (List ℕ)
api = record {
  set_data = λ p bytes. bytes;
  get_length = λ p. length p;
  get_data = λ p. some p;
  get_length-set_data = λ p bytes. refl;
  get_data-set_data = λ p bytes. inl refl;
}

-- the message 2, whose payload stands at 48
abbrev memory : Memory (List ℕ)
memory = record {
  payloads = λ a. if nat_beq 48 a then some [] else none;
  owners = λ a. if nat_beq 48 a then 1 else 0;
  message_payload = λ n.
      if nat_beq 2 n
      then record { get = some 48; counted = true }
      else record { get = none; counted = false };
}

its_own : Owns memory 2 48
its_own = record { points = refl; alone = refl }

abbrev three : List ℕ
three = 7 ∷ 8 ∷ 9 ∷ []

get_data_safe-fill_message_example :
    (both : SharedPtr × SharedPtr) × (found : SharedPtr) × (m : Memory (List ℕ)) × (fill_message api
        64 [] 2 three memory
      ≡ returns (both, m))
    × (get_message_payload 2 m ≡ some found)
    × (get_data_safe api found m ≡ returns (take (length three % 2 ^ 32) three))
    × (m.payloads 48 ≡ none)
get_data_safe-fill_message_example =
    get_data_safe-fill_message api 64 2 48 [] three memory its_own (λ e. absurd (omega (arith, e)))

drop_pointer-fill_message_example :
    (w : SharedPtr) × (attachable : SharedPtr) × (found : SharedPtr) × (m : Memory (List ℕ))
    × (fill_message api 64 [] 2 three memory ≡ returns ((w, attachable), m))
    × (get_message_payload 2 (drop_pointer attachable (drop_pointer w m)) ≡ some found)
    × (get_data_safe api found (drop_pointer attachable (drop_pointer w m)) ≡ undefined)
    × ((drop_pointer attachable (drop_pointer w m)).payloads 48 ≡ none)
drop_pointer-fill_message_example =
    drop_pointer-fill_message api 64 2 48 [] three memory its_own (λ e. absurd (omega (arith, e)))

abbrev wrapper : ApplicationWrapper
wrapper = record { get_mut = some 32 }

made : make_application_wrapper (some 32) ≡ some wrapper
unfolding make_application_wrapper
made = refl

called :
    call wrapper (offer_single_event_safe 4660 1 5 5) []
    ≡ returns ((32, raw_call (offer_single_event_safe 4660 1 5 5)) ∷ [])
unfolding call
called = refl
