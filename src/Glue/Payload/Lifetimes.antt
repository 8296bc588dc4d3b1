-- ===== src/Glue/Payload/Lifetimes.antt =====
-- Whether the payload of a message can be read, and what is read.
use up_transport_vsomeip_rus.Prelude.{
  ℕ, ◌%◌, ◌^◌, ◌≡◌, ◌≢◌, ◌∙◌, refl, sym, ap, inl, inr, true, false, none, some, List, [], ◌∷◌,
  length, nat_beq, if◌then◌else◌, arith,
}
use up_transport_vsomeip_rus.Glue.{returns, undefined}
use up_transport_vsomeip_rus.Glue.Payload.{
  take, PayloadApi, SharedPtr, Memory, create_payload, drop_pointer, set_message_payload,
  get_message_payload, set_data_safe, get_data_safe, get_shared_ptr, fill_message,
}

take-length : {A : Type 0} (xs : List A) → take (length xs) xs ≡ xs
take-length [] = refl
take-length (x ∷ xs) = ap (λ l. x ∷ l) (take-length xs)

-- A message has a payload of its own, as vsomeip makes it: it has the only counted pointer to that.
pub record Owns {P : Type 0} (m : Memory P) (n b : ℕ) : Type 0 where
  pub points : m.message_payload n ≡ record { get = some b; counted = true }
  pub alone : m.owners b ≡ 1

module _ {P : Type 0} (api : PayloadApi P) where
  -- what is read of a buffer that was set
  read_back :
      (p : P) (bytes : List ℕ)
      → (elim (api.get_data (api.set_data p bytes)) [
        | none ↦ returns []
        | some there ↦ returns (take (api.get_length (api.set_data p bytes)) there)
      ])
        ≡ returns bytes
  read_back p bytes = elim (api.get_data-set_data p bytes) [
    | inl e ↦
        rw (e) (
          ap returns (ap (λ n. take n bytes) (api.get_length-set_data p bytes) ∙ take-length bytes))
    | inr (empty, e) ↦ rw (e) (ap returns (sym empty))
  ]

  module _ (a n b : ℕ) (p : P) (bytes : List ℕ) (m : Memory P) (own : Owns m n b)
      (fresh : a ≢ b) where
    old : m.message_payload n ≡ record { get = some b; counted = true }
    old = own.points

    alone : m.owners b ≡ 1
    alone = own.alone

    -- the wrapper of a new payload
    abbrev pub wrapper : SharedPtr
    wrapper = record { get = some a; counted = true }

    -- the wrapper that the message gives
    abbrev pub found : SharedPtr
    found = record { get = some a; counted = false }

    abbrev filled : Memory P
    filled = record (create_payload a p m).1 {
      payloads = λ b.
          if nat_beq a b
          then some (api.set_data p (take (length bytes % 2 ^ 32) bytes))
          else (create_payload a p m).1.payloads b;
    }

    set_data_fills : set_data_safe api wrapper bytes (create_payload a p m).1 ≡ returns filled
    unfolding set_data_safe create_payload
    set_data_fills = ground arith

    abbrev shared : Memory P
    shared = (get_shared_ptr wrapper filled).1

    given : Memory P
    given = set_message_payload n wrapper shared

    message_filled : fill_message api a p n bytes m ≡ returns ((wrapper, wrapper), given)
    unfolding fill_message given create_payload get_shared_ptr
    message_filled = ground (arith, set_data_fills)

    found_after : get_message_payload n given ≡ some found
    unfolding given get_message_payload set_message_payload drop_pointer create_payload
        get_shared_ptr
    found_after = ground (arith, old, alone, fresh)

    freed_after : given.payloads b ≡ none
    unfolding given set_message_payload drop_pointer create_payload get_shared_ptr
    freed_after = ground (arith, old, alone, fresh)

    read_after : get_data_safe api found given ≡ returns (take (length bytes % 2 ^ 32) bytes)
    unfolding given get_data_safe set_message_payload drop_pointer create_payload get_shared_ptr
    read_after = ground (arith, old, alone, fresh, read_back p (take (length bytes % 2 ^ 32) bytes))

    -- both pointers are gone
    dropped : Memory P
    unfolding drop_pointer
    dropped = drop_pointer wrapper (drop_pointer wrapper given)

    found_at_end : get_message_payload n dropped ≡ some found
    unfolding dropped given get_message_payload set_message_payload create_payload get_shared_ptr
    found_at_end = ground (arith, old, alone, fresh)

    read_at_end : get_data_safe api found dropped ≡ undefined
    unfolding dropped given get_data_safe set_message_payload create_payload get_shared_ptr
    read_at_end = ground (arith, old, alone, fresh)

    freed_at_end : dropped.payloads b ≡ none
    unfolding dropped given set_message_payload create_payload get_shared_ptr
    freed_at_end = ground (arith, old, alone, fresh)

  -- A message that has a payload of its own is filled with bytes, by way of a new payload: it then
  -- gives a wrapper of the new one, from which as many of the bytes are read as their number is
  -- modulo 2 ^ 32, from the first on; and the payload that it had is freed.
  pub get_data_safe-fill_message :
      (a n b : ℕ) (p : P) (bytes : List ℕ) (m : Memory P)
      → Owns m n b
      → a ≢ b
      → (both : SharedPtr × SharedPtr) × (found : SharedPtr) × (m' : Memory P) × (fill_message api a
            p n bytes m
          ≡ returns (both, m'))
        × (get_message_payload n m' ≡ some found)
        × (get_data_safe api found m' ≡ returns (take (length bytes % 2 ^ 32) bytes))
        × (m'.payloads b ≡ none)
  get_data_safe-fill_message a n b p bytes m own fresh = (
    _,
    _,
    _,
    message_filled a n b p bytes m own fresh,
    found_after a n b p bytes m own fresh,
    read_after a n b p bytes m own fresh,
    freed_after a n b p bytes m own fresh,
  )

  -- A message that had a payload of its own was filled by way of a new payload. When the wrapper of
  -- that and the second pointer are gone, so is the new payload: the message still gives a wrapper,
  -- and to read from that is undefined. The payload that it had is gone too.
  pub drop_pointer-fill_message :
      (a n b : ℕ) (p : P) (bytes : List ℕ) (m : Memory P)
      → Owns m n b
      → a ≢ b
      → (w : SharedPtr) × (attachable : SharedPtr) × (found : SharedPtr) × (m' : Memory P)
        × (fill_message api a p n bytes m ≡ returns ((w, attachable), m'))
        × (get_message_payload n (drop_pointer attachable (drop_pointer w m')) ≡ some found)
        × (get_data_safe api found (drop_pointer attachable (drop_pointer w m')) ≡ undefined)
        × ((drop_pointer attachable (drop_pointer w m')).payloads b ≡ none)
  unfolding dropped
  drop_pointer-fill_message a n b p bytes m own fresh = (
    _,
    _,
    _,
    _,
    message_filled a n b p bytes m own fresh,
    found_at_end a n b p bytes m own fresh,
    read_at_end a n b p bytes m own fresh,
    freed_at_end a n b p bytes m own fresh,
  )
