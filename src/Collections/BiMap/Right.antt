-- ===== src/Collections/BiMap/Right.antt =====
-- The interface seen from the right: what its laws, which speak of the left, say there.
use up_transport_vsomeip_rus.Prelude.{
  ◌≡◌, ◌↔◌, sym, refl, Option, none, some, arith, inl, inr, Option-cases, Eq, ◌==◌, ==_iff, ==_refl,
  if◌then◌else◌,
}
use up_transport_vsomeip_rus.Collections.BiMap.{BiMap, is_some}

-- Two options are equal when they hold the same.
pub option_ext {ℓ} : {A : Type ℓ} (x y : Option A) → ((a : A) → (x ≡ some a) ↔ (y ≡ some a)) → x ≡ y
option_ext none none h = refl
option_ext none (some b) h = (h b).1 refl
option_ext (some a) y h = sym ((h a).0 refl)

module _ {L R M : Type 0} ⦃l : Eq L⦄ ⦃r : Eq R⦄ (bimap : BiMap L R M) (m : M) where
  open bimap use {
    get_by_left, get_by_right, inverse, insert_no_overwrite, remove_by_left, get_by_left-insert,
    get_by_left-remove,
  }

  pub get_by_right-new : (b : R) → get_by_right bimap.new b ≡ none
  get_by_right-new b = elim (Option-cases (get_by_right bimap.new b)) [
    | inl e ↦ e
    | inr (a, e) ↦
        let found = (inverse bimap.new a b).1 e in ground (arith, bimap.get_by_left-new a)
  ]

  pub get_by_right-remove :
      (a : L) (b j : R)
      → get_by_right m b ≡ some a
      → get_by_right (remove_by_left m a) j ≡ (if b == j then none else get_by_right m j)
  get_by_right-remove a b j e = option_ext _ _ (λ x.
      let first = inverse (remove_by_left m a) x j in
      let second = inverse m x j in
      let third = inverse m a b in
      (
        λ h.
            ground (
              arith,
              first.1 h,
              second,
              get_by_left-remove m a x,
              ==_iff b j,
              ==_iff a x,
              ==_refl a,
            ),
        λ h.
            first.0 (
              ground
                (arith, second.1, get_by_left-remove m a x, ==_iff a x, ==_iff b j, third.1 e)),
      ))

  pub get_by_right-insert :
      (a : L) (b j : R)
      → get_by_left m a ≡ none
      → get_by_right (insert_no_overwrite m a b).0 j ≡ (
          if b == j
          then (if is_some (get_by_right m b) then get_by_right m b else some a)
          else get_by_right m j)
  get_by_right-insert a b j free = option_ext _ _ (λ x.
      let first = inverse (insert_no_overwrite m a b).0 x j in
      let second = inverse m x j in
      (
        λ h. ground (
          arith,
          first.1 h,
          second.0,
          get_by_left-insert m a x b,
          bimap.insert_inserted m a b,
          ==_iff b j,
          ==_iff a x,
        ),
        λ h. first.0 (
            ground (
              arith,
              second.1,
              get_by_left-insert m a x b,
              bimap.insert_inserted m a b,
              ==_iff b j,
              ==_iff a x,
              ==_refl a,
              ==_refl b,
            )),
      ))
