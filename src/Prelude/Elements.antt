-- ===== src/Prelude/Elements.antt =====
-- A property of every element of a list.
use mathlib.Core.List.{List, [], ◌∷◌}

abbrev pub Every {ℓ κ} : {A : Type ℓ} → (A → Type κ) → List A → Type κ
Every P [] = Unit
Every P (x ∷ xs) = P x × Every P xs
