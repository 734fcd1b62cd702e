-- ===== src/Cssl/Reading.antt =====
-- The routines of libraries/device/general/cssl_lib.cpp that read from the line.
use Prim.Native.Nat.{bit_xor}
use core_cleanup_test.Base.{
  ℕ, zero, suc, ◌+◌, ◌-◌, ◌*◌, ◌%◌, List, [], ◌∷◌, ◌==◌, ltb, if◌then◌else◌, Bool, true, false,
  Option, none, some, drop, set,
}
use core_cleanup_test.Slip.{fend, fesc, tfend, tfesc}
use core_cleanup_test.Serial.{Answer, got, failed}
use core_cleanup_test.Serial.Receiving.{Received, byte_of, is_got, digit}
use core_cleanup_test.Cssl.{cssl_error_timeout}

abbrev pub cssl_error_checksum : ℕ
cssl_error_checksum = 381

abbrev pub cssl_error_read : ℕ
cssl_error_read = 382

abbrev pub cssl_error_eot : ℕ
cssl_error_eot = 384

abbrev pub cssl_error_slipin : ℕ
cssl_error_slipin = 385

abbrev pub cssl_error_slipout : ℕ
cssl_error_slipout = 386

-- `cssl_getdata` from `i` on; the counter has 16 bits.
unfoldable pub getdata : ℕ → ℕ → List ℕ → List Answer → Received
getdata size i buf [] = (if ltb i size then got i else got size, buf, [])
getdata size i buf (failed errno ∷ line) =
    if ltb i size
    then (if errno == cssl_error_timeout then got i else failed errno, buf, line)
    else (got size, buf, failed errno ∷ line)
getdata size i buf (got c ∷ line) =
    let later = getdata size ((i + 1) % 65536) (set buf i c) line in
    if ltb i size then later else (got size, buf, got c ∷ line)

-- An error inside of a frame, or where one is looked for.
abbrev pub slip_failure : ℕ → ℕ → Answer
slip_failure reason errno = if errno == cssl_error_timeout then failed reason else failed errno

-- The first loop of `cssl_getslip` and of `cssl_getnmea`: the error, if any, and the calls behind.
unfoldable pub look_for : ℕ → List Answer → Option ℕ × List Answer
look_for start [] = (some cssl_error_timeout, [])
look_for start (failed errno ∷ line) = (some errno, line)
look_for start (got c ∷ line) =
    let later = look_for start line in if c == start then (none, line) else later

-- The second loop of `cssl_getslip`, `escaped` in the call of the inner `switch`. A byte behind an
-- FESC that is neither TFEND nor TFESC leaves the old byte of the buffer, and so does an error.
unfoldable pub getslip_loop : Bool → ℕ → ℕ → List ℕ → List Answer → Received
getslip_loop escaped size i buf [] = (failed cssl_error_slipout, buf, [])
getslip_loop false size i buf (failed errno ∷ line) =
    (slip_failure cssl_error_slipout errno, buf, line)
getslip_loop true size i buf (failed errno ∷ line) = getslip_loop false size (i + 1) buf line
getslip_loop false size i buf (got c ∷ line) =
    let escaping = getslip_loop true size i buf line in
    let kept = getslip_loop false size (i + 1) (set buf i c) line in
    let skipped = getslip_loop false size i buf line in
    if ltb i size
    then (if c == fesc then escaping else if c == fend then (got i, buf, line) else kept)
    else (if c == fend then (got i, buf, line) else skipped)
getslip_loop true size i buf (got c ∷ line) =
    let buf' = if c == tfend then set buf i fend else if c == tfesc then set buf i fesc else buf in
    let later = getslip_loop false size (i + 1) buf' line in
    if c == fend then (got (i + 1), buf', line) else later

unfoldable pub getslip_begun : ℕ → List ℕ → Option ℕ × List Answer → Received
unfolding getslip_loop
getslip_begun size buf (some errno, line) = (slip_failure cssl_error_slipin errno, buf, line)
getslip_begun size buf (none, line) = getslip_loop false size 0 buf line

-- `cssl_getslip(serial, buf, size)` for a size below 2^16: the counter does not wrap.
unfoldable pub getslip : ℕ → List ℕ → List Answer → Received
unfolding look_for getslip_begun
getslip size buf line = getslip_begun size buf (look_for fend line)

-- `ch = cssl_getchar(serial); if (ch < 0) return (ch);`
abbrev pub getchar_or : List ℕ → List Answer → (ℕ → List Answer → Received) → Received
getchar_or buf [] f = (failed cssl_error_timeout, buf, [])
getchar_or buf (failed errno ∷ line) f = (failed errno, buf, line)
getchar_or buf (got c ∷ line) f = f c line

-- `cssl_getnmea` from behind the `*`.
unfoldable pub nmea_end : ℕ → ℕ → List ℕ → List Answer → Received
unfolding digit
nmea_end cs i buf line = getchar_or buf line λ c line1. getchar_or buf line1 λ d line2.
    if cs == (digit c * 16 + digit d) % 256
    then (got i, buf, drop 1 line2)
    else (failed cssl_error_checksum, buf, line2)

unfoldable pub getnmea_loop : ℕ → ℕ → ℕ → List ℕ → List Answer → Received
unfolding nmea_end
getnmea_loop size i cs buf [] = (failed cssl_error_timeout, buf, [])
getnmea_loop size i cs buf (failed errno ∷ line) = (failed errno, buf, line)
getnmea_loop size i cs buf (got c ∷ line) =
    let kept = getnmea_loop size (i + 1) (bit_xor cs c) (set buf i c) line in
    let skipped = getnmea_loop size i cs buf line in
    if c == b'*' then nmea_end cs i buf line else if ltb i size then kept else skipped

unfoldable pub getnmea_begun : ℕ → List ℕ → Option ℕ × List Answer → Received
unfolding getnmea_loop
getnmea_begun size buf (some errno, line) = (failed errno, buf, line)
getnmea_begun size buf (none, line) = getnmea_loop size 0 0 buf line

-- `cssl_getnmea(serial, buf, size)`
unfoldable pub getnmea : ℕ → List ℕ → List Answer → Received
unfolding look_for getnmea_begun
getnmea size buf line = getnmea_begun size buf (look_for b'$' line)

-- `cssl_getchar(serial)`
abbrev pub getchar : List Answer → Answer × List Answer
getchar [] = (failed cssl_error_timeout, [])
getchar (a ∷ line) = (a, line)

-- The loop of `cssl_getxmodem` from byte `i` on, with the number of bytes left, and its end.
unfoldable pub xmodem_loop : ℕ → ℕ → ℕ → ℕ → List ℕ → List Answer → Received
xmodem_loop zero i blocknum csum buf line =
    let (a, line') = getchar line in
    if is_got csum a then (got blocknum, buf, line') else (failed cssl_error_checksum, buf, line')
xmodem_loop (suc n) i blocknum csum buf [] = (failed cssl_error_timeout, buf, [])
xmodem_loop (suc n) i blocknum csum buf (failed errno ∷ line) = (failed errno, buf, line)
xmodem_loop (suc n) i blocknum csum buf (got c ∷ line) =
    xmodem_loop n (i + 1) blocknum ((csum + c) % 256) (set buf i c) line

unfoldable pub xmodem_numbered : Answer → Answer → List ℕ → List Answer → Received
unfolding xmodem_loop
xmodem_numbered b c buf line =
    if is_got (255 - byte_of b) c
    then xmodem_loop 128 0 (byte_of b) 0 buf line
    else (failed cssl_error_read, buf, line)

-- `cssl_getxmodem(serial, buf)`
unfoldable pub getxmodem : List ℕ → List Answer → Received
unfolding xmodem_numbered
getxmodem buf line =
    let (a, line1) = getchar line in
    if is_got 0x01 a
    then (let (b, line2) = getchar line1 in
        let (c, line3) = getchar line2 in xmodem_numbered b c buf line3)
    else if is_got 0x04 a
    then (failed cssl_error_eot, buf, line1)
    else (failed cssl_error_read, buf, line1)
