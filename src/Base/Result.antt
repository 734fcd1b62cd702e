-- ===== src/Base/Result.antt =====
-- The status of a routine that returns a count or a negative error number.
-- The numbers are those of libraries/support/cosmos-errno.h, by name.
use mathlib.Core.Path.{◌≡◌, refl}
use native.Mathlib.Omega.{arith}

pub data Error : Type 0 where
  slip_error_crc slip_error_packing slip_error_buffer : Error
  data_error_size_mismatch data_error_crc : Error
  json_error_nojmap json_error_noentry json_error_eos json_error_scan : Error
  transfer_error_match transfer_error_queuefull transfer_error_index transfer_error_node : Error
  -- `-errno` of an `open`
  open_failed : Error

-- `fault` is no value of the program: it read or wrote outside an array.
pub data Result {ℓ} (A : Type ℓ) : Type ℓ where
  ok : A → Result A
  err : Error → Result A
  fault : Result A

infixl 5 ◌>>=◌
abbrev pub ◌>>=◌ {ℓ κ} : {A : Type ℓ} {B : Type κ} → Result A → (A → Result B) → Result B
ok a >>= f = f a
err e >>= f = err e
fault >>= f = fault

-- How a call that returns has gone: at the result of each of its steps.
pub bind-ok :
    {A B : Type 0} (r : Result A) (f : A → Result B) (y : B)
    → (r >>= f) ≡ ok y
    → (x : A) × (r ≡ ok x) × (f x ≡ ok y)
bind-ok (ok x) f y e = (x, refl, e)
bind-ok (err z) f y e = absurd (ground (arith, e))
bind-ok fault f y e = absurd (ground (arith, e))
