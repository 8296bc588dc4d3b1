-- ===== src/Collections/HashMap.antt =====
-- `std::collections::HashMap`: one value to a key. The transport never iterates over a map, so the
-- order of the entries means nothing.
use up_transport_vsomeip_rus.Prelude.{
  ◌≡◌, refl, Bool, true, false, Option, none, some, List, [], ◌∷◌, arith, Eq, ◌==◌, ==_iff,
  if◌then◌else◌,
}

pub record HashMap {ℓ} (K V : Type ℓ) : Type ℓ where
  pub entries : List (K × V)

module _ {ℓ} {K V : Type ℓ} where
  -- `HashMap::new()`
  abbrev pub empty : HashMap K V
  empty = record { entries = [] }

module _ {ℓ} {K V : Type ℓ} ⦃e : Eq K⦄ where
  abbrev lookup : K → List (K × V) → Option V
  lookup k [] = none
  lookup k ((j, v) ∷ m) = if j == k then some v else lookup k m

  abbrev without : K → List (K × V) → List (K × V)
  without k [] = []
  without k ((j, v) ∷ m) = let rest = without k m in if j == k then rest else (j, v) ∷ rest

  -- `map.get(&k)`
  unfoldable pub get : HashMap K V → K → Option V
  get m k = lookup k m.entries

  -- `map.contains_key(&k)`
  unfoldable pub contains_key : HashMap K V → K → Bool
  unfolding get
  contains_key m k = elim (get m k) [ none ↦ false | some _ ↦ true ]

  -- `map.remove(&k)`, whose result is `get m k`
  unfoldable pub remove : HashMap K V → K → HashMap K V
  remove m k = record { entries = without k m.entries }

  -- `map.insert(k, v)`, and the insertion through a vacant entry
  unfoldable pub insert : HashMap K V → K → V → HashMap K V
  insert m k v = record { entries = (k, v) ∷ without k m.entries }

  lookup-without :
      (k j : K) (m : List (K × V)) → lookup j (without k m) ≡ (if k == j then none else lookup j m)
  lookup-without k j [] = ground arith
  lookup-without k j ((i, v) ∷ m) =
      ground (arith, lookup-without k j m, ==_iff i k, ==_iff i j, ==_iff k j)

  pub get-remove :
      (m : HashMap K V) (k j : K) → get (remove m k) j ≡ (if k == j then none else get m j)
  unfolding get remove
  get-remove m k j = lookup-without k j m.entries

  pub get-insert :
      (m : HashMap K V) (k j : K) (v : V)
      → get (insert m k v) j ≡ (if k == j then some v else get m j)
  unfolding get insert
  get-insert m k j v = ground (arith, lookup-without k j m.entries)

pub get-empty {ℓ} : {K V : Type ℓ} ⦃e : Eq K⦄ (k : K) → get (empty {K = K} {V = V}) k ≡ none
unfolding get
get-empty k = refl

pub ruleset map_laws = (get-empty, get-remove, get-insert)
