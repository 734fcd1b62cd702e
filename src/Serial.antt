-- ===== src/Serial.antt =====
-- libraries/device/serial/serialclass.cpp, the class `Serial`, on the systems that are not Windows.
-- What `read` and `write` do is a list of outcomes that the port meets in order. The settings of the
-- port are left out, except for whether it is open. An error is named by its number without the sign.
pub mod Sending
pub mod Receiving
pub mod Attempts
pub mod Wire
pub mod Slip
pub mod Phase
pub mod Nmea
pub mod Xmodem
pub mod Amount
pub mod Runs
use Prim.Native.Nat.{bit_xor, min}
use core_cleanup_test.Base.{
  ℕ, zero, suc, ◌+◌, ◌-◌, ◌/◌, ◌%◌, List, [], ◌∷◌, ◌++◌, Bool, true, false, not, ◌&&◌, ◌==◌, ltb,
  if◌then◌else◌, length, take,
}

-- What a routine returns: a number, or minus a number.
pub data Answer : Type 0 where
  got : ℕ → Answer
  failed : ℕ → Answer

abbrev pub eagain : ℕ
eagain = 11

abbrev pub serial_error_checksum : ℕ
serial_error_checksum = 381

abbrev pub serial_error_read : ℕ
serial_error_read = 382

abbrev pub serial_error_timeout : ℕ
serial_error_timeout = 383

abbrev pub serial_error_eot : ℕ
serial_error_eot = 384

abbrev pub serial_error_slipin : ℕ
serial_error_slipin = 385

abbrev pub serial_error_slipout : ℕ
serial_error_slipout = 386

abbrev pub serial_error_open : ℕ
serial_error_open = 389

-- What a `write` does: it takes so many bytes, or fails with an `errno`.
pub data Writing : Type 0 where
  accepted : ℕ → Writing
  refused : ℕ → Writing

-- The writes to come, and the bytes that went to the line. Behind the list all bytes are taken.
pub record Port : Type 0 where
  pub is_open : Bool
  pub error : Answer
  pub writes : List Writing
  pub sent : List ℕ

-- What a `read` of one byte does: a byte, nothing, or an `errno`; and whether the time is over
-- when the loop of `get_char` looks at its clock.
pub data Reading : Type 0 where
  arrived : ℕ → Reading
  nothing : Bool → Reading
  broken : ℕ → Bool → Reading

-- `Serial::get_char()`: what it returns, and the readings behind. Behind the list nothing comes.
unfoldable pub get_char : List Reading → Answer × List Reading
get_char [] = (failed eagain, [])
get_char (arrived c ∷ later) = (got c, later)
get_char (nothing late ∷ later) =
    let again = get_char later in if late then (failed eagain, later) else again
get_char (broken errno late ∷ later) =
    let again = get_char later in
    if (errno == eagain) && not late then again else (failed errno, later)

-- `write`: what it returns, and the port.
unfoldable pub write : List ℕ → Port → Answer × Port
write bytes p = elim p.writes [
  | [] ↦ (got (length bytes), record p { sent = p.sent ++ bytes })
  | accepted n ∷ ws ↦
      (got (min n (length bytes)), record p { writes = ws; sent = p.sent ++ take n bytes })
  | refused errno ∷ ws ↦ (failed errno, record p { writes = ws })
]

-- `return error = ...`
abbrev pub set_error : Answer → Port → Answer × Port
set_error a p = (a, record p { error = a })

-- `Serial::put_char`: a failed write leaves `error` as it was.
put_written : Answer × Port → Answer × Port
put_written (got n, p) = set_error (got 0) p
put_written (failed errno, p) = (failed errno, p)

unfoldable pub put_char : ℕ → Port → Answer × Port
unfolding write put_written
put_char c p =
    if p.is_open then put_written (write (c ∷ []) p) else set_error (failed serial_error_open) p

-- `Serial::put_string` and the overloads of `Serial::put_data`.
put_counted : Answer × Port → Answer × Port
put_counted (got n, p) = (got n, record p { error = got 0 })
put_counted (failed errno, p) = set_error (failed errno) p

unfoldable pub put_data : List ℕ → Port → Answer × Port
unfolding write put_counted
put_data bytes p =
    if p.is_open then put_counted (write bytes p) else set_error (failed serial_error_open) p

-- `error = put_char(c);`
abbrev pub put : ℕ → Port → Answer × Port
put c p = let (a, q) = put_char c p in set_error a q

-- `if (error < 0) return error;` and then the rest.
infixl 5 ◌&>◌
abbrev pub ◌&>◌ : Answer × Port → (Port → Answer × Port) → Answer × Port
(got n, p) &> f = f p
(failed errno, p) &> f = (failed errno, p)
