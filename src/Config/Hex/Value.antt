-- ===== src/Config/Hex/Value.antt =====
-- What number a hexadecimal text stands for: every digit counts by its place.
use up_transport_vsomeip_rus.Prelude.{
  ℕ, zero, suc, ◌+◌, ◌*◌, ◌^◌, ◌≤◌, ◌<◌, ◌≡◌, ◌∙◌, sym, refl, Bool, true, false, ◌&&◌, Option, none,
  some, List, [], ◌∷◌, inl, inr, Option-cases, Bool-cases, length, leb, nat_beq, arith,
  if◌then◌else◌,
}
use native.Mathlib.Nat.{pow-suc}
use up_transport_vsomeip_rus.Config.Hex.{
  max_u16, to_digit, scan, from_str_radix, trim_start, from_codes,
}

-- the sum of the digits, each by the power of 16 of its place; `none` with any other character
abbrev pub place_value : List ℕ → Option ℕ
place_value [] = some 0
place_value (c ∷ s) = elim (to_digit c) [
  | none ↦ none
  | some d ↦ elim (place_value s) [ none ↦ none | some v ↦ some (d * 16 ^ length s + v) ]
]

-- a number of 16 bits, or none
abbrev pub fits : Option ℕ → Option ℕ
fits none = none
fits (some v) = if leb v max_u16 then some v else none

-- the number with digits before it
abbrev after : ℕ → List ℕ → Option ℕ → Option ℕ
after n s none = none
after n s (some v) = some (n * 16 ^ length s + v)

pow_pos : (k : ℕ) → 1 ≤ 16 ^ k
pow_pos zero = omega arith
pow_pos (suc k) = let rest = pow_pos k in omega arith

le_mul : (n p : ℕ) → 1 ≤ p → n ≤ n * p
le_mul zero p h = omega arith
le_mul (suc n) p h = let rest = le_mul n p h in omega arith

shifts : (n d v p q : ℕ) → q ≡ p * 16 → n * q + (d * p + v) ≡ (n * 16 + d) * p + v
shifts n d v p q e = rw (e) (omega arith)

place_shifts : (n d v k : ℕ) → n * 16 ^ suc k + (d * 16 ^ k + v) ≡ (n * 16 + d) * 16 ^ k + v
place_shifts n d v k = shifts n d v (16 ^ k) (16 ^ suc k) (pow-suc 16 k)

scan_value : (s : List ℕ) (n : ℕ) → n ≤ max_u16 → scan s n ≡ fits (after n s (place_value s))
unfolding scan
scan_value [] n h = ground arith
scan_value (c ∷ s) n h = elim (Option-cases (to_digit c)) [
  | inl e ↦ ground arith
  | inr (d, e) ↦
      let next = n * 16 + d in
      let grows = le_mul next (16 ^ length s) (pow_pos (length s)) in
      let rest = scan_value s next in
      elim (Option-cases (place_value s)) [
        | inl f ↦ ground arith
        | inr (v, f) ↦ ground (arith, place_shifts n d v (length s))
      ]
]

-- a leading plus sign taken away
abbrev pub unsigned : List ℕ → List ℕ
unsigned [] = []
unsigned (c ∷ s) = if nat_beq c b'+' then s else c ∷ s

-- the number that a text without prefix stands for, if it is one of 16 bits
abbrev pub number : List ℕ → Option ℕ
number [] = none
number (c ∷ s) = fits (place_value (c ∷ s))

scan_all : (c : ℕ) (s : List ℕ) → scan (c ∷ s) 0 ≡ number (c ∷ s)
scan_all c s = elim (Option-cases (place_value (c ∷ s))) [
  | inl e ↦ ground (arith, scan_value (c ∷ s) 0)
  | inr (v, e) ↦ ground (arith, scan_value (c ∷ s) 0)
]

plus_is_no_digit : (c : ℕ) → nat_beq c b'+' ≡ true → to_digit c ≡ none
unfolding to_digit
plus_is_no_digit c e = ground arith

from_str_radix_lem : (s : List ℕ) → from_str_radix s ≡ number (unsigned s)
unfolding from_str_radix
from_str_radix_lem [] = refl
from_str_radix_lem (c ∷ []) = elim (Bool-cases (nat_beq c b'+')) [
  | inl e ↦ ground (arith, plus_is_no_digit c e)
  | inr e ↦ rw (e) (scan_all c [])
]
from_str_radix_lem (c ∷ d ∷ s) = ground (arith, scan_all d s, scan_all c (d ∷ s))

-- a text behind so many prefixes
abbrev pub prefixed : ℕ → List ℕ → List ℕ
prefixed zero s = s
prefixed (suc k) s = b'0' ∷ b'x' ∷ prefixed k s

abbrev pub has_prefix : List ℕ → Bool
has_prefix (c ∷ d ∷ s) = nat_beq c b'0' && nat_beq d b'x'
has_prefix s = false

trim_start-prefixed : (k : ℕ) (s : List ℕ) → has_prefix s ≡ false → trim_start (prefixed k s) ≡ s
unfolding trim_start
trim_start-prefixed zero [] h = refl
trim_start-prefixed zero (c ∷ []) h = refl
trim_start-prefixed zero (c ∷ d ∷ s) h = ground arith
trim_start-prefixed (suc k) s h = trim_start-prefixed k s h

-- A text behind any number of prefixes "0x", which has no prefix itself: it is read as the sum of its
-- digits, each by the power of 16 of its place, where there is a digit, every character but a first
-- plus sign is one, and the sum is a number of 16 bits; otherwise it is refused.
pub from_codes-prefixed :
    (k : ℕ) (s : List ℕ) → has_prefix s ≡ false → from_codes (prefixed k s) ≡ number (unsigned s)
unfolding from_codes
from_codes-prefixed k s h = rw (trim_start-prefixed k s h) (from_str_radix_lem s)

number_bound : (s : List ℕ) (n : ℕ) → number s ≡ some n → n < 2 ^ 16
number_bound [] n e = absurd (ground arith)
number_bound (c ∷ s) n e = bound (place_value (c ∷ s)) e
  where
    bound : (v : Option ℕ) → fits v ≡ some n → n < 2 ^ 16
    bound v e = ground arith

-- A number that is read has 16 bits.
pub from_codes_bound : (s : List ℕ) (n : ℕ) → from_codes s ≡ some n → n < 2 ^ 16
unfolding from_codes
from_codes_bound s n e =
    number_bound (unsigned (trim_start s)) n (sym (from_str_radix_lem (trim_start s)) ∙ e)
