-- ===== src/Config/Hex/Print.antt =====
-- Reading back a number that was printed with four hexadecimal digits.
use up_transport_vsomeip_rus.Prelude.{
  ℕ, ◌+◌, ◌-◌, ◌/◌, ◌%◌, ◌^◌, ◌<◌, ◌≡◌, ◌∙◌, Bool, false, some, List, [], ◌∷◌, ltb, nat_beq, arith,
  if◌then◌else◌,
}
use up_transport_vsomeip_rus.Config.Hex.{to_digit, from_codes}
use up_transport_vsomeip_rus.Config.Hex.Value.{prefixed, from_codes-prefixed}

-- `{:X}` or `{:x}` of one digit
unfoldable pub digit : Bool → ℕ → ℕ
digit upper d = if ltb d 10 then b'0' + d else (if upper then b'A' else b'a') + (d - 10)

-- `{:04X}` or `{:04x}`
unfoldable pub printed : Bool → ℕ → List ℕ
printed upper n =
    digit upper (n / 4096 % 16)
    ∷ digit upper (n / 256 % 16)
    ∷ digit upper (n / 16 % 16)
    ∷ digit upper (n % 16)
    ∷ []

to_digit-digit :
    (upper : Bool) (d : ℕ)
    → d < 16
    → (to_digit (digit upper d) ≡ some d)
      × (nat_beq (digit upper d) b'+' ≡ false)
      × (nat_beq (digit upper d) b'x' ≡ false)
unfolding to_digit digit
to_digit-digit upper d h = (ground arith, ground arith, ground arith)

-- A number of 16 bits that is printed with four digits, in upper or lower case, and put behind any
-- number of prefixes "0x", is read back.
pub from_codes-printed :
    (upper : Bool) (k n : ℕ) → n < 2 ^ 16 → from_codes (prefixed k (printed upper n)) ≡ some n
unfolding printed
from_codes-printed upper k n h =
    let (a, no_plus, _) = to_digit-digit upper (n / 4096 % 16) (omega arith) in
    let (b, _, no_x) = to_digit-digit upper (n / 256 % 16) (omega arith) in
    let (c, _, _) = to_digit-digit upper (n / 16 % 16) (omega arith) in
    let (d, _, _) = to_digit-digit upper (n % 16) (omega arith) in
    from_codes-prefixed k (printed upper n) (ground arith) ∙ ground (arith)
