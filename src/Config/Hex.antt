-- ===== src/Config/Hex.antt =====
-- `deserialize_hex_u16` of up-transport-vsomeip/src/vsomeip_config.rs, over the code points of the
-- text.
pub mod Value
pub mod Print
use up_transport_vsomeip_rus.Prelude.{
  ℕ, ◌+◌, ◌-◌, ◌*◌, ◌≡◌, refl, Bool, true, false, ◌&&◌, Option, none, some, String, List, [], ◌∷◌,
  leb, nat_beq, if◌then◌else◌,
}
use Prim.Native.Char.{code}

abbrev pub codes : String → List ℕ
codes String.[] = []
codes (String.◌∷◌ c s) = code c ∷ codes s

abbrev pub max_u16 : ℕ
max_u16 = 65535

-- `s.trim_start_matches("0x")`: as often as it stands there
unfoldable pub trim_start : List ℕ → List ℕ
trim_start (c ∷ d ∷ s) =
    let rest = trim_start s in if nat_beq c b'0' && nat_beq d b'x' then rest else c ∷ d ∷ s
trim_start s = s

-- `char::to_digit(16)`
unfoldable pub to_digit : ℕ → Option ℕ
to_digit c =
    if leb b'0' c && leb c b'9'
    then some (c - b'0')
    else if leb b'a' c && leb c b'f'
    then some (c - b'a' + 10)
    else if leb b'A' c && leb c b'F'
    then some (c - b'A' + 10)
    else none

-- the loop of `u16::from_str_radix`, which stops where the number does not fit
unfoldable pub scan : List ℕ → ℕ → Option ℕ
scan [] n = some n
scan (c ∷ s) n = elim (to_digit c) [
  | none ↦ none
  | some d ↦ let rest = scan s (n * 16 + d) in if leb (n * 16 + d) max_u16 then rest else none
]

-- `u16::from_str_radix(s, 16)`: no text without a digit, and a plus sign before the digits
unfoldable pub from_str_radix : List ℕ → Option ℕ
unfolding scan
from_str_radix [] = none
from_str_radix (c ∷ []) = scan (c ∷ []) 0
from_str_radix (c ∷ d ∷ s) = if nat_beq c b'+' then scan (d ∷ s) 0 else scan (c ∷ d ∷ s) 0

-- what is done with the code points of the text
unfoldable pub from_codes : List ℕ → Option ℕ
unfolding from_str_radix trim_start
from_codes s = from_str_radix (trim_start s)

unfoldable pub hex_u16 : String → Option ℕ
unfolding from_codes
hex_u16 s = from_codes (codes s)

mixed_case : hex_u16 "0x1A3f" ≡ some 6719
unfolding hex_u16 to_digit
mixed_case = refl

prefix_twice : hex_u16 "0x0x12" ≡ some 18
unfolding hex_u16 to_digit
prefix_twice = refl

too_large : hex_u16 "0x10000" ≡ none
unfolding hex_u16 to_digit
too_large = refl

no_digit :
    (hex_u16 "0x" ≡ none) × (hex_u16 "" ≡ none) × (hex_u16 "+" ≡ none) × (hex_u16 "-1" ≡ none)
unfolding hex_u16 to_digit
no_digit = (refl, refl, refl, refl)
