-- ===== src/Status.antt =====
-- The status codes of src/status.h. A function that returns a negated code is modelled by a result.
pub data Errno : Type 0 where
  eio einvarg enomem ebadpath efsnotus erdonly eunimp eistkn einformat : Errno

pub data Result {ℓ} (A : Type ℓ) : Type ℓ where
  ok : A → Result A
  err : Errno → Result A
