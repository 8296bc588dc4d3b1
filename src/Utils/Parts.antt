-- ===== src/Utils/Parts.antt =====
-- The parts of a number make it up, and a request id is made of its two parts.
use up_transport_vsomeip_rus.Prelude.{ℕ, ◌+◌, ◌*◌, ◌%◌, ◌^◌, ◌<◌, ◌≡◌, ◌↔◌, ◌∙◌, sym, ap, arith}
use up_transport_vsomeip_rus.Utils.{split_u32_to_u16, split_u32_to_u8, create_request_id}
use up_transport_vsomeip_rus.Utils.Bits.{bit_or_shifted}

-- The halves are `u16`s and make up the number.
pub split_u32_to_u16_parts :
    (value : ℕ)
    → value < 2 ^ 32
    → let (high, low) = split_u32_to_u16 value in
      (high < 2 ^ 16) × (low < 2 ^ 16) × (high * 2 ^ 16 + low ≡ value)
unfolding split_u32_to_u16
split_u32_to_u16_parts value h = omega arith

-- The bytes are `u8`s, most significant first, and make up the number.
pub split_u32_to_u8_parts :
    (value : ℕ)
    → value < 2 ^ 32
    → let (a, b, c, d) = split_u32_to_u8 value in
      (a < 2 ^ 8)
      × (b < 2 ^ 8)
      × (c < 2 ^ 8)
      × (d < 2 ^ 8)
      × (a * 2 ^ 24 + b * 2 ^ 16 + c * 2 ^ 8 + d ≡ value)
unfolding split_u32_to_u8
split_u32_to_u8_parts value h = omega arith

pub create_request_id_sum :
    (client session : ℕ)
    → client < 2 ^ 16
    → session < 2 ^ 16
    → create_request_id client session ≡ client * 2 ^ 16 + session
unfolding create_request_id
create_request_id_sum client session hc hs =
    let whole : client * 2 ^ 16 % 2 ^ 32 ≡ client * 2 ^ 16 = omega arith in
    rw whole (bit_or_shifted 16 client session hs)

-- the request id of two `u16`s is a `u32` that splits into them
pub split-create_request_id :
    (client session : ℕ)
    → client < 2 ^ 16
    → session < 2 ^ 16
    → (create_request_id client session < 2 ^ 32)
      × (split_u32_to_u16 (create_request_id client session) ≡ (client, session))
unfolding split_u32_to_u16
split-create_request_id client session hc hs =
    rw (create_request_id_sum client session hc hs) (omega arith, ground arith)

-- the request id of the halves of a `u32` is the number again
pub create_request_id-split :
    (value : ℕ)
    → value < 2 ^ 32
    → create_request_id (split_u32_to_u16 value).0 (split_u32_to_u16 value).1 ≡ value
create_request_id-split value h =
    let (high_fits, low_fits, whole) = split_u32_to_u16_parts value h in
    create_request_id_sum _ _ high_fits low_fits ∙ whole

-- For a `u16` client and a `u16` session: their request id is a `u32`, and it is just that `u32`
-- which splits into the two.
pub create_request_id_iff :
    (client session id : ℕ)
    → client < 2 ^ 16
    → session < 2 ^ 16
    → id < 2 ^ 32
    → (create_request_id client session < 2 ^ 32)
      × ((create_request_id client session ≡ id) ↔ (split_u32_to_u16 id ≡ (client, session)))
create_request_id_iff client session id hc hs h =
    let (fits, splits) = split-create_request_id client session hc hs in
    let whole = create_request_id-split id h in
    (fits, (λ e. rw (sym e) splits, λ e. ap (λ x. create_request_id x.0 x.1) (sym e) ∙ whole))
