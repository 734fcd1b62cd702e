-- ===== src/Serial/Sending.antt =====
-- `Serial::put_slip` and `Serial::put_nmea` of libraries/device/serial/serialclass.cpp.
use Prim.Native.Nat.{bit_xor}
use core_cleanup_test.Base.{ℕ, ◌+◌, ◌-◌, ◌/◌, ◌%◌, List, [], ◌∷◌, ◌==◌, ltb, if◌then◌else◌, length}
use core_cleanup_test.Slip.{fend, fesc, tfend, tfesc}
use core_cleanup_test.Serial.{
  Answer, got, failed, serial_error_open, Port, put_char, put, set_error, ◌&>◌,
}

-- The loop over the bytes, and the FEND behind it.
unfoldable pub put_slip_loop : List ℕ → ℕ → Port → Answer × Port
unfolding put_char
put_slip_loop [] i p = put fend p &> λ q. (got i, q)
put_slip_loop (b ∷ more) i p =
    if b == fend
    then put fesc p &> put tfend &> put_slip_loop more (i + 2)
    else if b == fesc
    then put fesc p &> put tfesc &> put_slip_loop more (i + 2)
    else put b p &> put_slip_loop more (i + 1)

unfoldable pub put_slip : List ℕ → Port → Answer × Port
unfolding put_slip_loop put_char
put_slip bytes p =
    if p.is_open
    then put fend p &> put_slip_loop bytes 0
    else set_error (failed serial_error_open) p

-- The checksum of a sentence.
unfoldable pub sum_loop : ℕ → List ℕ → ℕ
sum_loop cs [] = cs
sum_loop cs (b ∷ more) = sum_loop (bit_xor cs b) more

-- The loop over the bytes of a sentence sends them whatever becomes of each.
unfoldable pub put_nmea_loop : List ℕ → Port → Port
unfolding put_char
put_nmea_loop [] p = p
put_nmea_loop (b ∷ more) p = put_nmea_loop more (put b p).1

-- `'0' + digit` or `'A' + digit - 10`
abbrev pub hex : ℕ → ℕ
hex d = if ltb d 10 then b'0' + d else b'A' + d - 10

-- The two digits of the checksum.
unfoldable pub first_digit : ℕ → ℕ
first_digit cs = if ltb 16 cs then hex (cs / 16) else b'0'

unfoldable pub second_digit : ℕ → ℕ
second_digit cs = hex (cs % 16)

unfoldable pub put_nmea : List ℕ → Port → Answer × Port
unfolding put_nmea_loop put_char first_digit second_digit sum_loop
put_nmea bytes p =
    if p.is_open
    then (let cs = sum_loop 0 bytes in
        put b'*' (put_nmea_loop bytes (put b'$' p).1)
        &> put (first_digit cs)
        &> put (second_digit cs)
        &> put 10
        &> λ q. (got (length bytes + 5), q))
    else set_error (failed serial_error_open) p
