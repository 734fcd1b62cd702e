-- ===== src/Slip.antt =====
-- libraries/support/sliplib.cpp and sliplib.h: SLIP framing with a 16 bit CCITT checksum.
-- A byte is a number below 256 and a buffer is a list of bytes. An overload over a raw array takes
-- the array and its declared size, and returns the array that it wrote. An overload over `slip_t`
-- (a vector) ends in `_vec`, and returns the new vector beside the status.
-- An access outside a buffer is `fault`. What a failed call has already written is not kept.
pub mod Framing
pub mod Decoding
pub mod Bounds
pub mod Encoding
pub mod Checksum
pub mod Packing
pub mod Runs
use Prim.Native.Nat.{bit_xor}
use core_cleanup_test.Base.{
  ℕ, zero, suc, ◌+◌, ◌-◌, ◌*◌, ◌/◌, ◌%◌, List, [], ◌∷◌, ◌++◌, ltb, ◌==◌, if◌then◌else◌, length,
  take, drop, set, overwrite, Option, none, some,
}
use core_cleanup_test.Base.Result.{
  Result, ok, err, fault, slip_error_crc, slip_error_packing, slip_error_buffer, ◌>>=◌,
}

abbrev pub fend : ℕ
fend = 0xC0

abbrev pub fesc : ℕ
fesc = 0xDB

abbrev pub tfend : ℕ
tfend = 0xDC

abbrev pub tfesc : ℕ
tfesc = 0xDD

-- One round of the inner loop: a shift of the register, and the polynomial where the bits differ.
unfoldable pub crc_bit : ℕ → ℕ → ℕ
crc_bit crc ch = bit_xor (crc / 2) (if bit_xor ch crc % 2 == 1 then 0x8408 else 0)

-- The inner loop over the bits of `ch`, with the number of rounds left.
unfoldable pub crc_bits : ℕ → ℕ → ℕ → ℕ
crc_bits zero crc ch = crc
crc_bits (suc n) crc ch = crc_bits n (crc_bit crc ch) (ch / 2)

-- The outer loop.
unfoldable pub crc_bytes : ℕ → List ℕ → ℕ
crc_bytes crc [] = crc
crc_bytes crc (ch ∷ buf) = crc_bytes (crc_bits 8 crc ch) buf

-- `slip_calc_crc(buf, size)`
unfoldable pub calc_crc : List ℕ → ℕ → Result ℕ
unfolding crc_bytes crc_bits crc_bit
calc_crc buf size = if ltb (length buf) size then fault else ok (crc_bytes 0xffff (take size buf))

-- `slip_calc_crc(buf)` runs over all but the last two bytes. On fewer than two, `size() - 2` wraps
-- and the loop leaves the buffer.
unfoldable pub calc_crc_vec : List ℕ → Result ℕ
unfolding calc_crc
calc_crc_vec buf = if ltb (length buf) 2 then fault else calc_crc buf (length buf - 2)

-- `memcpy` of a `uint16_t` on a little endian machine, out of a buffer and into one.
read_u16 : List ℕ → Option ℕ
read_u16 (lo ∷ hi ∷ _) = some (lo + 256 * hi)
read_u16 _ = none

unfoldable pub u16_bytes : ℕ → List ℕ
u16_bytes w = (w % 256) ∷ (w / 256) ∷ []

or_fault : Option ℕ → Result ℕ
or_fault none = fault
or_fault (some w) = ok w

-- `slip_get_crc(buf, index)`
unfoldable pub get_crc : List ℕ → ℕ → Result ℕ
unfolding or_fault read_u16
get_crc buf index = or_fault (read_u16 (drop index buf))

-- `slip_get_crc(buf)`
unfoldable pub get_crc_vec : List ℕ → Result ℕ
unfolding get_crc
get_crc_vec buf = if ltb (length buf) 2 then fault else get_crc buf (length buf - 2)

store_u16 : List ℕ → ℕ → ℕ → Result (ℕ × List ℕ)
store_u16 buf index w =
    if ltb (length buf) (index + 2) then fault else ok (w, overwrite buf index (u16_bytes w))

-- `slip_set_crc(buf, index)`
unfoldable pub set_crc : List ℕ → ℕ → Result (ℕ × List ℕ)
unfolding calc_crc store_u16 u16_bytes
set_crc buf index = do crc ← calc_crc buf index; store_u16 buf index crc

-- `slip_set_crc(buf)`
unfoldable pub set_crc_vec : List ℕ → Result (ℕ × List ℕ)
unfolding calc_crc_vec store_u16 u16_bytes
set_crc_vec buf = do crc ← calc_crc_vec buf; store_u16 buf (length buf - 2) crc

agree : ℕ → ℕ → Result ℕ
agree crc crc2 = if crc == crc2 then ok 0 else err slip_error_crc

-- `slip_check_crc(sbuf, ssize)`; below two bytes `ssize - 2` is negative.
unfoldable pub check_crc : List ℕ → ℕ → Result ℕ
unfolding get_crc calc_crc agree
check_crc sbuf ssize =
    if ltb ssize 2
    then fault
    else do crc ← get_crc sbuf (ssize - 2); crc2 ← calc_crc sbuf (ssize - 2); agree crc crc2

-- `slip_check_crc(sbuf)`
unfoldable pub check_crc_vec : List ℕ → Result ℕ
unfolding get_crc_vec calc_crc_vec agree
check_crc_vec sbuf = do crc ← get_crc_vec sbuf; crc2 ← calc_crc_vec sbuf; agree crc crc2

-- What an escaped byte stands for. Another byte behind FESC writes nothing.
unescape : ℕ → Option ℕ
unescape ch = if ch == tfend then some fend else if ch == tfesc then some fesc else none

put : List ℕ → ℕ → Option ℕ → List ℕ
put rbuf i none = rbuf
put rbuf i (some ch) = set rbuf i ch

-- The loop of `slip_decode(sbuf, ssize, rbuf, rsize)`. The list is `sbuf` from `j` on, up to the last
-- index that the guard `j > ssize-3` lets pass, and `room` is `rsize - i`.
-- An unknown escape leaves `rbuf[i]` as it was and still moves `i`. The byte behind an FESC is tested
-- by the loop as well, so that an FEND there ends it.
pub decode_loop : List ℕ → List ℕ → ℕ → ℕ → Result (ℕ × List ℕ)
decode_loop [] rbuf i room = err slip_error_packing
decode_loop (ch ∷ rest) rbuf i zero = err slip_error_buffer
decode_loop (ch ∷ []) rbuf i (suc room) =
    if ch == fesc
    then err slip_error_packing
    else if ch == fend
    then ok (i, rbuf)
    else err slip_error_packing
decode_loop (ch ∷ ch2 ∷ rest) rbuf i (suc room) =
    let escaped = decode_loop rest (put rbuf i (unescape ch2)) (i + 1) room in
    let plain = decode_loop (ch2 ∷ rest) (set rbuf i ch) (i + 1) room in
    if ch == fesc
    then (if ch2 == fend then ok (i + 1, rbuf) else escaped)
    else if ch == fend
    then ok (i, rbuf)
    else plain

-- `slip_decode(sbuf, ssize, rbuf, rsize)`. A declared size beyond its array counts as a fault.
unfoldable pub decode : List ℕ → ℕ → List ℕ → ℕ → Result (ℕ × List ℕ)
unfolding decode_loop put unescape
decode sbuf ssize rbuf rsize =
    if ltb (length sbuf) (ssize - 2)
    then fault
    else if ltb (length rbuf) rsize
    then fault
    else decode_loop (take (ssize - 2) sbuf) rbuf 0 rsize

push : List ℕ → Option ℕ → List ℕ
push rbuf none = rbuf
push rbuf (some ch) = rbuf ++ (ch ∷ [])

-- The loop of `slip_decode(sbuf, rbuf)`, with what happens where the list ends.
-- An unknown escape is dropped, and an FEND behind an FESC ends the loop.
decode_loop_vec : Result (List ℕ) → List ℕ → List ℕ → Result (List ℕ)
decode_loop_vec end [] rbuf = end
decode_loop_vec end (ch ∷ []) rbuf = if ch == fesc then end else if ch == fend then ok rbuf else end
decode_loop_vec end (ch ∷ ch2 ∷ rest) rbuf =
    let escaped = decode_loop_vec end rest (push rbuf (unescape ch2)) in
    let plain = decode_loop_vec end (ch2 ∷ rest) (rbuf ++ (ch ∷ [])) in
    if ch == fesc
    then (if ch2 == fend then ok rbuf else escaped)
    else if ch == fend
    then ok rbuf
    else plain

counted : List ℕ → Result (ℕ × List ℕ)
counted buf = ok (length buf, buf)

-- `slip_decode(sbuf, rbuf)`. Below three bytes `size() - 3` wraps, so that the guard never fires and
-- the loop leaves the vector.
unfoldable pub decode_vec : List ℕ → Result (ℕ × List ℕ)
unfolding decode_loop_vec push unescape counted
decode_vec sbuf =
    if ltb (length sbuf) 3 then (do rbuf ← decode_loop_vec fault sbuf []; counted rbuf) else (do
      rbuf ← decode_loop_vec (err slip_error_packing) (take (length sbuf - 2) sbuf) []
      counted rbuf)

-- The loop of `slip_encode(rbuf, rsize, sbuf, ssize)`. It ends with the index `i`.
encode_loop : List ℕ → List ℕ → ℕ → ℕ → Result (ℕ × List ℕ)
encode_loop [] sbuf i ssize = ok (i, sbuf)
encode_loop (ch ∷ rest) sbuf i ssize =
    let end_escaped = encode_loop rest (set (set sbuf i fesc) (i + 1) tfend) (i + 2) ssize in
    let esc_escaped = encode_loop rest (set (set sbuf i fesc) (i + 1) tfesc) (i + 2) ssize in
    let plain = encode_loop rest (set sbuf i ch) (i + 1) ssize in
    if ch == fend
    then (if ltb ssize (i + 4) then err slip_error_buffer else end_escaped)
    else if ch == fesc
    then (if ltb ssize (i + 4) then err slip_error_buffer else esc_escaped)
    else (if ltb ssize (i + 3) then err slip_error_buffer else plain)

close_frame : ℕ → ℕ × List ℕ → Result (ℕ × List ℕ)
close_frame ssize (i, sbuf) =
    if ltb ssize (i + 1) then err slip_error_buffer else ok (i + 1, set sbuf i fend)

-- `slip_encode(rbuf, rsize, sbuf, ssize)`
unfoldable pub encode : List ℕ → ℕ → List ℕ → ℕ → Result (ℕ × List ℕ)
unfolding encode_loop close_frame
encode rbuf rsize sbuf ssize =
    if ltb ssize 3
    then err slip_error_buffer
    else if ltb (length rbuf) rsize
    then fault
    else if ltb (length sbuf) ssize
    then fault
    else do state ← encode_loop (take rsize rbuf) (set sbuf 0 fend) 1 ssize; close_frame ssize state

encode_loop_vec : List ℕ → List ℕ → List ℕ
encode_loop_vec [] sbuf = sbuf
encode_loop_vec (ch ∷ rest) sbuf = encode_loop_vec rest (
    if ch == fend
    then sbuf ++ (fesc ∷ tfend ∷ [])
    else if ch == fesc
    then sbuf ++ (fesc ∷ tfesc ∷ [])
    else sbuf ++ (ch ∷ []))

-- `slip_encode(rbuf, sbuf)`: the frame, and two bytes for the checksum.
unfoldable pub encode_vec : List ℕ → List ℕ
unfolding encode_loop_vec
encode_vec rbuf = encode_loop_vec rbuf (fend ∷ []) ++ (fend ∷ 0 ∷ 0 ∷ [])

append_crc : ℕ → Result (ℕ × List ℕ) → Result (ℕ × List ℕ)
append_crc ssize (err e) = err slip_error_buffer
append_crc ssize fault = fault
append_crc ssize (ok (i, sbuf)) =
    if ltb ssize (i + 3)
    then err slip_error_buffer
    else do (crc, sbuf') ← set_crc sbuf i; ok (i + 2, sbuf')

-- `slip_pack(rbuf, rsize, sbuf, ssize)`
unfoldable pub pack : List ℕ → ℕ → List ℕ → ℕ → Result (ℕ × List ℕ)
unfolding append_crc
pack rbuf rsize sbuf ssize = append_crc ssize (encode rbuf rsize sbuf ssize)

-- `slip_pack(rbuf, sbuf)`
unfoldable pub pack_vec : List ℕ → Result (ℕ × List ℕ)
unfolding counted
pack_vec rbuf = do (crc, sbuf) ← set_crc_vec (encode_vec rbuf); counted sbuf

-- `if (slip_check_crc(..)) return (SLIP_ERROR_CRC);`
checked : Result ℕ → Result (ℕ × List ℕ) → Result (ℕ × List ℕ)
checked (ok status) decoded = decoded
checked (err e) decoded = err slip_error_crc
checked fault decoded = fault

-- `slip_unpack(sbuf, ssize, rbuf, rsize)`
unfoldable pub unpack : List ℕ → ℕ → List ℕ → ℕ → Result (ℕ × List ℕ)
unfolding checked
unpack sbuf ssize rbuf rsize = checked (check_crc sbuf ssize) (decode sbuf (ssize - 2) rbuf rsize)

-- `slip_unpack(sbuf, rbuf)`
unfoldable pub unpack_vec : List ℕ → Result (ℕ × List ℕ)
unfolding checked
unpack_vec sbuf = checked (check_crc_vec sbuf) (decode_vec sbuf)
