-- ===== src/Prelude/Length.antt =====
-- The length of a list, a native number, and its elements by number.
use Prim.Native.Nat.{ℕ, zero, suc}
use mathlib.Core.Path.{◌≡◌, refl, ap}
use mathlib.Core.Option.{Option, none, some}
use mathlib.Core.List.{List, [], ◌∷◌, ◌++◌}
use native.Mathlib.Omega.{arith}

abbrev pub length {ℓ} : {A : Type ℓ} → List A → ℕ
length [] = 0
length (x ∷ xs) = suc (length xs)

abbrev pub nth {ℓ} : {A : Type ℓ} → List A → ℕ → Option A
nth [] n = none
nth (x ∷ xs) zero = some x
nth (x ∷ xs) (suc n) = nth xs n

pub length-snoc : {A : Type 0} (xs : List A) (x : A) → length (xs ++ x ∷ []) ≡ suc (length xs)
length-snoc [] x = refl
length-snoc (y ∷ xs) x = ap suc (length-snoc xs x)

pub nth-append :
    {A : Type 0} (xs ys : List A) (n : ℕ) (x : A) → nth xs n ≡ some x → nth (xs ++ ys) n ≡ some x
nth-append [] ys n x e = absurd (ground arith)
nth-append (y ∷ xs) ys zero x e = e
nth-append (y ∷ xs) ys (suc n) x e = nth-append xs ys n x e

pub nth-last : {A : Type 0} (xs : List A) (x : A) → nth (xs ++ x ∷ []) (length xs) ≡ some x
nth-last [] x = refl
nth-last (y ∷ xs) x = nth-last xs x
