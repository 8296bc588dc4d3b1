-- ===== src/UProtocol/Status.antt =====
-- `UCode`, `UStatus` and the results of the transport's functions.
pub data UCode : Type 0 where
  ok_code cancelled unknown invalid_argument deadline_exceeded not_found already_exists : UCode
  permission_denied unauthenticated resource_exhausted failed_precondition aborted : UCode
  out_of_range unimplemented internal unavailable data_loss : UCode

-- A status is its code: the text of its message is not modelled.
pub record UStatus : Type 0 where
  pub code : UCode

-- `Result<A, UStatus>`, and the third way to leave a function: a panic.
pub data Result {ℓ} (A : Type ℓ) : Type ℓ where
  ok : A → Result A
  err : UStatus → Result A
  panicked : Result A

-- `UStatus::fail_with_code(code, …)`
abbrev pub fail_with_code : UCode → UStatus
fail_with_code c = record { code = c }

abbrev pub fail {ℓ} : {A : Type ℓ} → UCode → Result A
fail c = err (fail_with_code c)
