-- ===== src/Glue/Payload.antt =====
-- `MessageWrapper` and `PayloadWrapper`: the payload of a message, as a byte buffer of C++ that is
-- owned by shared pointers, with the glue functions of vsomeip-sys/src/glue/include/payload_wrapper.h.
pub mod Lifetimes
use up_transport_vsomeip_rus.Prelude.{
  ℕ, zero, suc, ◌-◌, ◌%◌, ◌^◌, ◌≡◌, ◌⊎◌, Bool, true, false, Option, none, some, List, [], ◌∷◌,
  length, nat_beq, if◌then◌else◌,
}
use up_transport_vsomeip_rus.Glue.{Outcome, returns, panics, undefined, Pointer, get_pinned, follow}

abbrev pub take {ℓ} : {A : Type ℓ} → ℕ → List A → List A
take zero xs = []
take (suc n) [] = []
take (suc n) (x ∷ xs) = x ∷ take n xs

-- The class `payload` of vsomeip. `get_data` is what stands where its pointer points, `none` for
-- null.
pub record PayloadApi (P : Type 0) : Type 0 where
  -- `set_data(pointer, length)`, on the bytes that stand there
  pub set_data : P → List ℕ → P
  pub get_length : P → ℕ
  pub get_data : P → Option (List ℕ)
  -- the buffer is a copy of the bytes; an empty one may have no address
  pub get_length-set_data : (p : P) (bytes : List ℕ) → get_length (set_data p bytes) ≡ length bytes
  pub get_data-set_data :
      (p : P) (bytes : List ℕ)
      → (get_data (set_data p bytes) ≡ some bytes)
        ⊎ ((bytes ≡ []) × (get_data (set_data p bytes) ≡ none))

-- `std::shared_ptr<payload>`: it is counted, or has a deleter that does nothing.
pub record SharedPtr : Type 0 where
  pub get : Pointer
  pub counted : Bool

-- The payloads that live, by address, and how many counted pointers each has; the payload that each
-- message points to.
pub record Memory (P : Type 0) : Type 0 where
  pub payloads : ℕ → Option P
  pub owners : ℕ → ℕ
  pub message_payload : ℕ → SharedPtr

module _ {P : Type 0} where
  -- a counted pointer to a new payload, as `runtime::create_payload` returns one
  unfoldable pub create_payload : ℕ → P → Memory P → SharedPtr × Memory P
  create_payload a p m = (
    record { get = some a; counted = true },
    record m {
      payloads = λ b. if nat_beq a b then some p else m.payloads b;
      owners = λ b. if nat_beq a b then 1 else m.owners b;
    },
  )

  -- The destructor of `std::shared_ptr`: the payload goes with its last counted one.
  unfoldable pub drop_pointer : SharedPtr → Memory P → Memory P
  drop_pointer w m =
      if w.counted
      then elim w.get [
        | none ↦ m
        | some a ↦ record m {
          owners = λ b. if nat_beq a b then m.owners b - 1 else m.owners b;
          payloads = λ b.
              if nat_beq a b
              then elim (m.owners b - 1) [ zero ↦ none | suc n ↦ m.payloads b ]
              else m.payloads b;
        }
      ]
      else m

  -- one more shared pointer, which is counted if the first is
  unfoldable pub get_shared_ptr : SharedPtr → Memory P → SharedPtr × Memory P
  get_shared_ptr w m = (
    w,
    (if w.counted
        then elim w.get [
          | none ↦ m
          | some a ↦ record m { owners = λ b. if nat_beq a b then suc (m.owners b) else m.owners b }
        ]
        else m),
  )

  -- `set_payload_raw`: the message gets a pointer that is not counted, and loses the one it had
  unfoldable pub set_message_payload : (message : ℕ) → SharedPtr → Memory P → Memory P
  set_message_payload message w m =
      let freed = drop_pointer (m.message_payload message) m in
      record freed {
        message_payload = λ n.
            if nat_beq message n
            then record { get = w.get; counted = false }
            else freed.message_payload n;
      }

  -- `get_payload_raw` and `create_payload_wrapper`: a wrapper whose pointer is not counted
  unfoldable pub get_message_payload : (message : ℕ) → Memory P → Option SharedPtr
  get_message_payload message m = elim (m.message_payload message).get [
    | none ↦ none
    | some a ↦ some (record { get = some a; counted = false })
  ]

  module _ (api : PayloadApi P) where
    -- The length is narrowed to a `u32`.
    unfoldable pub set_data_safe : SharedPtr → List ℕ → Memory P → Outcome (Memory P)
    set_data_safe w bytes m = elim (get_pinned w.get) [
      | returns a ↦ elim (m.payloads a) [
        | none ↦ undefined
        | some p ↦
            let narrowed = take (length bytes % 2 ^ 32) bytes in
            returns (record m {
              payloads = λ b. if nat_beq a b then some (api.set_data p narrowed) else m.payloads b;
            })
      ]
      | panics ↦ panics
      | undefined ↦ undefined
    ]

    unfoldable pub get_data_safe : SharedPtr → Memory P → Outcome (List ℕ)
    get_data_safe w m = elim (get_pinned w.get) [
      | returns a ↦ elim (m.payloads a) [
        | none ↦ undefined
        | some p ↦ elim (api.get_data p) [
          | none ↦ returns []
          | some bytes ↦ returns (take (api.get_length p) bytes)
        ]
      ]
      | panics ↦ panics
      | undefined ↦ undefined
    ]

    -- What `send_internal` of transport_engine.rs does with the payload of a request or a response,
    -- about the conversion of the message: `runtime::create_payload` returns a pointer to `p`, at
    -- `a`. The wrapper and the second pointer live on to the end of the function.
    unfoldable pub fill_message :
        (a : ℕ) (p : P) (message : ℕ)
        → List ℕ
        → Memory P
        → Outcome ((SharedPtr × SharedPtr) × Memory P)
    fill_message a p message bytes m =
        let (w, m1) = create_payload a p m in
        elim (set_data_safe w bytes m1) [
          | returns m2 ↦
              let (attachable, m3) = get_shared_ptr w m2 in
              returns ((w, attachable), set_message_payload message w m3)
          | panics ↦ panics
          | undefined ↦ undefined
        ]
