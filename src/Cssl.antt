-- ===== src/Cssl.antt =====
-- libraries/device/general/cssl_lib.cpp: bytes and frames over a serial line, on the systems that are
-- not Windows. The lines are those of Serial: what each `write` does, and what the calls of
-- `cssl_getchar` return; behind that list a call returns CSSL_ERROR_TIMEOUT. A buffer is the list of
-- its bytes. Errors are named by their numbers without the sign.
pub mod Reading
pub mod Frames
pub mod Bounds
pub mod Runs
use Prim.Native.Nat.{bit_xor, min}
use core_cleanup_test.Base.{
  ℕ, ◌+◌, ◌/◌, ◌%◌, List, [], ◌∷◌, ◌++◌, Bool, true, false, ◌==◌, ltb, if◌then◌else◌, length, take,
}
use core_cleanup_test.Slip.{fend, fesc, tfend, tfesc}
use core_cleanup_test.Serial.{Answer, got, failed, Writing, accepted, refused}
use core_cleanup_test.Serial.Sending.{hex}

abbrev pub cssl_error_notstarted : ℕ
cssl_error_notstarted = 379

abbrev pub cssl_error_nullpointer : ℕ
cssl_error_nullpointer = 378

abbrev pub cssl_error_timeout : ℕ
cssl_error_timeout = 383

-- Whether `cssl_start` was called, whether the handle is no null pointer, the variable
-- `cssl_error`, the writes to come, and the bytes sent.
pub record Cssl : Type 0 where
  pub started : Bool
  pub opened : Bool
  pub error : Answer
  pub writes : List Writing
  pub sent : List ℕ

-- `write(serial->fd,&c,1)`, and zero where it does not fail.
unfoldable pub write_char : ℕ → Cssl → Answer × Cssl
write_char c s = elim s.writes [
  | [] ↦ (got 0, record s { sent = s.sent ++ (c ∷ []) })
  | accepted n ∷ ws ↦ (got 0, record s { writes = ws; sent = s.sent ++ take n (c ∷ []) })
  | refused errno ∷ ws ↦ (failed errno, record s { writes = ws })
]

abbrev pub fail : ℕ → Cssl → Answer × Cssl
fail reason s = (failed reason, record s { error = failed reason })

unfoldable pub putchar : ℕ → Cssl → Answer × Cssl
unfolding write_char
putchar c s =
    if s.started
    then (if s.opened then write_char c s else fail cssl_error_nullpointer s)
    else fail cssl_error_notstarted s

-- `cssl_putchar(serial, c);`, whatever it returns.
abbrev pub put_any : ℕ → Cssl → Cssl
put_any c s = (putchar c s).1

-- `write` of many bytes: what it returns.
unfoldable pub write_many : List ℕ → Cssl → Answer × Cssl
write_many bytes s = elim s.writes [
  | [] ↦ (got (length bytes), record s { sent = s.sent ++ bytes })
  | accepted n ∷ ws ↦
      (got (min n (length bytes)), record s { writes = ws; sent = s.sent ++ take n bytes })
  | refused errno ∷ ws ↦ (failed errno, record s { writes = ws })
]

-- `cssl_putstring(serial, str)`: a failed `write` returns minus one.
string_written : Answer × Cssl → Answer × Cssl
string_written (got n, s) = (got n, s)
string_written (failed errno, s) = (failed 1, s)

unfoldable pub putstring : List ℕ → Cssl → Answer × Cssl
unfolding write_many string_written
putstring text s =
    if s.started
    then (if s.opened then string_written (write_many text s) else fail cssl_error_nullpointer s)
    else fail cssl_error_notstarted s

-- `cssl_putdata(serial, data, datalen)`
data_written : Answer × Cssl → Answer × Cssl
data_written (got n, s) = (got 0, s)
data_written (failed errno, s) = (failed errno, s)

unfoldable pub putdata : List ℕ → Cssl → Answer × Cssl
unfolding write_many data_written
putdata bytes s =
    if s.started
    then (if s.opened then data_written (write_many bytes s) else fail cssl_error_nullpointer s)
    else fail cssl_error_notstarted s

-- `cssl_putslip(serial, buf, size)` for the bytes `buf[0 .. size)`.
unfoldable pub putslip_loop : List ℕ → ℕ → Cssl → ℕ × Cssl
unfolding putchar
putslip_loop [] i s = (i, s)
putslip_loop (b ∷ more) i s =
    let after_fend = putslip_loop more (i + 2) (put_any tfend (put_any fesc s)) in
    let after_fesc = putslip_loop more (i + 2) (put_any tfesc (put_any fesc s)) in
    let after_plain = putslip_loop more (i + 1) (put_any b s) in
    if b == fend then after_fend else if b == fesc then after_fesc else after_plain

unfoldable pub putslip : List ℕ → Cssl → Answer × Cssl
unfolding putslip_loop putchar
putslip bytes s = let (i, s') = putslip_loop bytes 0 (put_any fend s) in (got i, put_any fend s')

-- The loop of `cssl_putnmea`, with the checksum.
unfoldable pub putnmea_loop : List ℕ → ℕ → Cssl → ℕ × Cssl
unfolding putchar
putnmea_loop [] cs s = (cs, s)
putnmea_loop (b ∷ more) cs s = putnmea_loop more (bit_xor cs b) (put_any b s)

-- `cssl_putnmea(serial, buf, size)` for the bytes `buf[0 .. size)`.
unfoldable pub putnmea : List ℕ → Cssl → Answer × Cssl
unfolding putnmea_loop putchar
putnmea bytes s =
    let (cs, s1) = putnmea_loop bytes 0 (put_any b'$' s) in
    let s2 = put_any b'*' s1 in
    let s3 = if ltb 16 cs then put_any (hex (cs / 16)) s2 else put_any b'0' s2 in
    let s4 = put_any (hex (cs % 16)) s3 in (got (length bytes + 5), put_any 10 s4)
