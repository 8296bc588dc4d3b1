-- ===== src/Action.antt =====
-- Functions with effects: the state that a function can reach goes in and comes out, and what was
-- changed before an error or a panic stays changed.
use up_transport_vsomeip_rus.Prelude.{Option, none, some}
use up_transport_vsomeip_rus.UProtocol.Status.{UCode, Result, ok, err, panicked, fail}

abbrev pub Action {ℓ} : Type ℓ → Type ℓ → Type ℓ
Action S A = S → Result A × S

module _ {ℓ} {S A : Type ℓ} where
  abbrev pub return : A → Action S A
  return a s = (ok a, s)

  -- `return Err(UStatus::fail_with_code(code, …))`
  abbrev pub raise : UCode → Action S A
  raise c s = (fail c, s)

  -- a value that has been computed, and `?` on it
  abbrev pub lift : Result A → Action S A
  lift r s = (r, s)

  -- `o.ok_or(UStatus::fail_with_code(code, …))?`, `let Some(a) = o else { return Err(…) }`
  abbrev pub ok_or : Option A → UCode → Action S A
  ok_or none c s = (fail c, s)
  ok_or (some a) c s = (ok a, s)

module _ {ℓ} {S A B : Type ℓ} where
  abbrev pub continue : Result A → (A → Action S B) → Action S B
  continue (ok a) f s = f a s
  continue (err e) f s = (err e, s)
  continue panicked f s = (panicked, s)

  infixl 10 ◌>>=◌ ◌>>◌
  abbrev pub ◌>>=◌ : Action S A → (A → Action S B) → Action S B
  ◌>>=◌ m f s = continue (m s).0 f (m s).1

  abbrev pub ◌>>◌ : Action S A → Action S B → Action S B
  m >> n = m >>= λ _. n
