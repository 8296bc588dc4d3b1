-- ===== src/Collections/BiMap/Pairs.antt =====
-- A list of pairs, no left and no right value twice, has what `bimap` promises.
use up_transport_vsomeip_rus.Prelude.{
  ◌≡◌, ◌↔◌, refl, Bool, true, false, ◌||◌, Option, none, some, List, [], ◌∷◌, map, arith, Eq, ◌==◌,
  ==_iff, if◌then◌else◌,
}
use up_transport_vsomeip_rus.Collections.HashSet.{member}
use up_transport_vsomeip_rus.Collections.BiMap.{BiMap, is_some}

module _ {L R : Type 0} ⦃l : Eq L⦄ ⦃r : Eq R⦄ where
  abbrev left : List (L × R) → L → Option R
  left [] a = none
  left ((x, y) ∷ m) a = if x == a then some y else left m a

  abbrev right : List (L × R) → R → Option L
  right [] b = none
  right ((x, y) ∷ m) b = if y == b then some x else right m b

  abbrev Distinct : List (L × R) → Type 0
  Distinct [] = Unit {0}
  Distinct ((x, y) ∷ m) = (left m x ≡ none) × (right m y ≡ none) × Distinct m

  abbrev without : List (L × R) → L → List (L × R)
  without [] a = []
  without ((x, y) ∷ m) a = let rest = without m a in if x == a then rest else (x, y) ∷ rest

  left-right :
      (m : List (L × R)) → Distinct m → (a : L) (b : R) → (left m a ≡ some b) ↔ (right m b ≡ some a)
  left-right [] d a b = (λ h. cc, λ h. cc)
  left-right ((x, y) ∷ m) d a b =
      let (to, from) = left-right m d.2 a b in
      (
        λ h. ground (arith, ==_iff x a, ==_iff y b, d.1, to),
        λ h. ground (arith, ==_iff x a, ==_iff y b, d.0, from),
      )

  left-without :
      (m : List (L × R)) (a j : L) → left (without m a) j ≡ (if a == j then none else left m j)
  left-without [] a j = ground arith
  left-without ((x, y) ∷ m) a j =
      ground (arith, left-without m a j, ==_iff x a, ==_iff x j, ==_iff a j)

  right-without :
      (m : List (L × R)) (a : L) (b : R) → right m b ≡ none → right (without m a) b ≡ none
  right-without [] a b h = refl
  right-without ((x, y) ∷ m) a b h = ground (arith, right-without m a b)

  without-Distinct : (m : List (L × R)) (a : L) → Distinct m → Distinct (without m a)
  without-Distinct [] a d = tt
  without-Distinct ((x, y) ∷ m) a d =
      ground (arith, without-Distinct m a d.2, right-without m a y d.1, left-without m a x)

-- The lists with no value twice.
abbrev pub Pairs : (L R : Type 0) ⦃l : Eq L⦄ ⦃r : Eq R⦄ → Type 0
Pairs L R = (m : List (L × R)) × Distinct m

module _ {L R : Type 0} ⦃l : Eq L⦄ ⦃r : Eq R⦄ where
  insert_if :
      (m : List (L × R)) (d : Distinct m) (a : L) (b : R) (x : Option R) (y : Option L)
      → left m a ≡ x
      → right m b ≡ y
      → Pairs L R × Bool
  insert_if m d a b none none p q = (((a, b) ∷ m, (p, q, d)), true)
  insert_if m d a b _ _ p q = ((m, d), false)

  insert : Pairs L R → L → R → Pairs L R × Bool
  unfolding insert_if
  insert (m, d) a b = insert_if m d a b (left m a) (right m b) refl refl

  insert_if_inserted :
      (m : List (L × R)) (d : Distinct m) (a : L) (b : R) (x : Option R) (y : Option L)
      (p : left m a ≡ x) (q : right m b ≡ y)
      → (insert_if m d a b x y p q).1 ≡ (if is_some x || is_some y then false else true)
  unfolding insert_if
  insert_if_inserted m d a b none none p q = refl
  insert_if_inserted m d a b none (some y) p q = refl
  insert_if_inserted m d a b (some x) y p q = refl

  left-insert_if :
      (m : List (L × R)) (d : Distinct m) (a j : L) (b : R) (x : Option R) (y : Option L)
      (p : left m a ≡ x) (q : right m b ≡ y)
      → let (k, inserted) = insert_if m d a b x y p q in
        left k.0 j ≡ (if inserted then (if a == j then some b else left m j) else left m j)
  unfolding insert_if
  left-insert_if m d a j b none none p q = refl
  left-insert_if m d a j b none (some y) p q = refl
  left-insert_if m d a j b (some x) y p q = refl

  member-left_values : (m : List (L × R)) (a : L) → member a (map (λ e. e.0) m) ≡ is_some (left m a)
  member-left_values [] a = refl
  member-left_values ((x, y) ∷ m) a = ground (arith, member-left_values m a)

  pub pairs : BiMap L R (Pairs L R)
  unfolding insert
  pairs = record {
    new = ([], tt);
    get_by_left = λ m a. left m.0 a;
    get_by_right = λ m b. right m.0 b;
    insert_no_overwrite = insert;
    remove_by_left = λ m a. (without m.0 a, without-Distinct m.0 a m.1);
    left_values = λ m. map (λ e. e.0) m.0;
    inverse = λ m a b. left-right m.0 m.1 a b;
    get_by_left-new = λ a. refl;
    insert_inserted = λ m a b. insert_if_inserted m.0 m.1 a b (left m.0 a) (right m.0 b) refl refl;
    get_by_left-insert =
        λ m a j b. left-insert_if m.0 m.1 a j b (left m.0 a) (right m.0 b) refl refl;
    get_by_left-remove = λ m a j. left-without m.0 a j;
    member-left_values = λ m a. member-left_values m.0 a;
  }
