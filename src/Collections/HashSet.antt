-- ===== src/Collections/HashSet.antt =====
-- `std::collections::HashSet`: no element twice. The order in which a set iterates is not
-- specified, so a caller that takes `set.iter().next()` is given an order as an argument.
use up_transport_vsomeip_rus.Prelude.{
  ◌≡◌, refl, Bool, true, false, not, ◌||◌, Option, none, some, List, [], ◌∷◌, arith, Eq, ◌==◌,
  ==_iff, if◌then◌else◌,
}

pub record HashSet {ℓ} (A : Type ℓ) : Type ℓ where
  pub elements : List A

module _ {ℓ} {A : Type ℓ} where
  -- `HashSet::new()`
  abbrev pub empty : HashSet A
  empty = record { elements = [] }

module _ {ℓ} {A : Type ℓ} ⦃e : Eq A⦄ where
  abbrev pub member : A → List A → Bool
  member a [] = false
  member a (x ∷ xs) = x == a || member a xs

  abbrev without : A → List A → List A
  without a [] = []
  without a (x ∷ xs) = let rest = without a xs in if x == a then rest else x ∷ rest

  -- `set.contains(&a)`
  unfoldable pub contains : HashSet A → A → Bool
  contains s a = member a s.elements

  -- `set.insert(a)`: the set after it, and whether the element was new
  unfoldable pub insert : HashSet A → A → HashSet A × Bool
  unfolding contains
  insert s a = if contains s a then (s, false) else (record { elements = a ∷ s.elements }, true)

  -- `set.remove(&a)`
  unfoldable pub remove : HashSet A → A → HashSet A
  remove s a = record { elements = without a s.elements }

  pub contains-insert :
      (s : HashSet A) (a b : A)
      → contains (insert s a).0 b ≡ (if a == b then true else contains s b)
  unfolding contains insert
  contains-insert s a b = ground (arith, ==_iff a b)

  pub insert_new : (s : HashSet A) (a : A) → (insert s a).1 ≡ not (contains s a)
  unfolding insert
  insert_new s a = ground arith

  member-without :
      (a b : A) (xs : List A) → member b (without a xs) ≡ (if a == b then false else member b xs)
  member-without a b [] = ground arith
  member-without a b (x ∷ xs) =
      ground (arith, member-without a b xs, ==_iff x a, ==_iff x b, ==_iff a b)

  pub contains-remove :
      (s : HashSet A) (a b : A) → contains (remove s a) b ≡ (if a == b then false else contains s b)
  unfolding contains remove
  contains-remove s a b = member-without a b s.elements

pub contains-empty {ℓ} : {A : Type ℓ} ⦃e : Eq A⦄ (a : A) → contains (empty {A = A}) a ≡ false
unfolding contains
contains-empty a = refl

pub ruleset set_laws = (contains-empty, contains-insert, contains-remove, insert_new)

-- The order of iteration, as an argument: `set.iter().next()` is an element of the set, and is
-- missing for an empty set only. Rust leaves the choice open.
pub record IterOrder {ℓ} (A : Type ℓ) ⦃e : Eq A⦄ : Type ℓ where
  pub next : HashSet A → Option A
  pub next-none : (s : HashSet A) → next s ≡ none → (a : A) → contains s a ≡ false
  pub next-some : (s : HashSet A) (a : A) → next s ≡ some a → contains s a ≡ true

-- One such order: the newest element first.
newest : {A : Type 0} → HashSet A → Option A
newest s = elim s.elements [ [] ↦ none | x ∷ xs ↦ some x ]

module _ {A : Type 0} ⦃e : Eq A⦄ where
  newest-none : (s : HashSet A) → newest s ≡ none → (a : A) → contains s a ≡ false
  unfolding newest contains
  newest-none s h a = ground arith

  newest-some : (s : HashSet A) (a : A) → newest s ≡ some a → contains s a ≡ true
  unfolding newest contains
  newest-some s a h = ground (arith, ==_iff a a)

  pub newest_first : IterOrder A
  newest_first = record { next = newest; next-none = newest-none; next-some = newest-some }

  pub next-insert :
      (s : HashSet A) (a : A) → contains s a ≡ false → newest_first.next (insert s a).0 ≡ some a
  unfolding newest_first newest insert contains
  next-insert s a h = ground arith
