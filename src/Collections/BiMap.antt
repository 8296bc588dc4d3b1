-- ===== src/Collections/BiMap.antt =====
-- The crate `bimap`, which the repository takes from outside: an interface of the operations that
-- the registry of message handlers calls, with what the crate documents of them.
pub mod Pairs
pub mod Right
use up_transport_vsomeip_rus.Prelude.{
  ◌≡◌, ◌↔◌, Bool, true, false, ◌||◌, Option, none, some, List, Eq, ◌==◌, if◌then◌else◌,
}
use up_transport_vsomeip_rus.Collections.HashSet.{member}

abbrev pub is_some {ℓ} : {A : Type ℓ} → Option A → Bool
is_some none = false
is_some (some _) = true

-- `M` is the type of the maps between `L` and `R`.
pub record BiMap {ℓ} (L R M : Type ℓ) ⦃l : Eq L⦄ ⦃r : Eq R⦄ : Type ℓ where
  pub new : M
  pub get_by_left : M → L → Option R
  pub get_by_right : M → R → Option L
  -- the map after the call, and whether the pair went in
  pub insert_no_overwrite : M → L → R → M × Bool
  pub remove_by_left : M → L → M
  pub left_values : M → List L
  -- every pair is seen from both sides
  pub inverse : (m : M) (a : L) (b : R) → (get_by_left m a ≡ some b) ↔ (get_by_right m b ≡ some a)
  pub get_by_left-new : (a : L) → get_by_left new a ≡ none
  -- neither side is overwritten
  pub insert_inserted :
      (m : M) (a : L) (b : R)
      → (insert_no_overwrite m a b).1
        ≡ (if is_some (get_by_left m a) || is_some (get_by_right m b) then false else true)
  pub get_by_left-insert :
      (m : M) (a j : L) (b : R)
      → get_by_left (insert_no_overwrite m a b).0 j ≡ (
          if (insert_no_overwrite m a b).1
          then (if a == j then some b else get_by_left m j)
          else get_by_left m j)
  pub get_by_left-remove :
      (m : M) (a j : L)
      → get_by_left (remove_by_left m a) j ≡ (if a == j then none else get_by_left m j)
  pub member-left_values : (m : M) (a : L) → member a (left_values m) ≡ is_some (get_by_left m a)
