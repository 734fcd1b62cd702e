-- ===== src/Serial/Receiving.antt =====
-- The routines of libraries/device/serial/serialclass.cpp that read from the line. They run over the
-- list of what the calls of `get_char` return; behind the list a call returns `failed quiet`.
use Prim.Native.Nat.{bit_xor}
use core_cleanup_test.Base.{
  ℕ, zero, suc, ◌+◌, ◌-◌, ◌*◌, ◌%◌, List, [], ◌∷◌, ◌++◌, ◌==◌, ltb, if◌then◌else◌, Bool, true,
  false, Option, none, some, drop,
}
use core_cleanup_test.Slip.{fend, fesc, tfend, tfesc}
use core_cleanup_test.Serial.{
  Answer, got, failed, eagain, serial_error_checksum, serial_error_read, serial_error_timeout,
  serial_error_eot, serial_error_slipin, serial_error_slipout,
}

-- What is returned, the vector, and the calls to come.
abbrev pub Received : Type 0
Received = Answer × List ℕ × List Answer

-- Where `get_char` fails while a frame is looked for, and inside of it.
abbrev pub translated : ℕ → ℕ → Answer
translated reason errno = if errno == serial_error_timeout then failed reason else failed errno

-- `Serial::get_data` and `Serial::get_string`, from `i` on; the counter has 16 bits.
unfoldable pub get_data : ℕ → ℕ → List ℕ → List Answer → Received
get_data size i bytes [] = (if ltb i size then failed eagain else got size, bytes, [])
get_data size i bytes (failed errno ∷ line) =
    if ltb i size
    then (if errno == serial_error_timeout then got i else failed errno, bytes, line)
    else (got size, bytes, failed errno ∷ line)
get_data size i bytes (got c ∷ line) =
    let later = get_data size ((i + 1) % 65536) (bytes ++ (c ∷ [])) line in
    if ltb i size then later else (got size, bytes, got c ∷ line)

-- `while (ch != SLIP_FEND)`: whether a frame begins, the error, and the calls behind.
unfoldable pub wait_for : ℕ → List Answer → Option ℕ × List Answer
wait_for start [] = (some eagain, [])
wait_for start (failed errno ∷ line) = (some errno, line)
wait_for start (got c ∷ line) =
    let later = wait_for start line in if c == start then (none, line) else later

-- The second loop of `Serial::get_slip`. Behind an FESC, in the call of the inner `switch`, a byte
-- that is neither TFEND nor TFESC is dropped and counted, and so is an error.
unfoldable pub get_slip_loop : Bool → ℕ → ℕ → List ℕ → List Answer → Received
get_slip_loop escaped size i bytes [] = (translated serial_error_slipout eagain, bytes, [])
get_slip_loop false size i bytes (failed errno ∷ line) =
    (translated serial_error_slipout errno, bytes, line)
get_slip_loop true size i bytes (failed errno ∷ line) =
    get_slip_loop false size ((i + 1) % 65536) bytes line
get_slip_loop false size i bytes (got c ∷ line) =
    let escaping = get_slip_loop true size i bytes line in
    let kept = get_slip_loop false size ((i + 1) % 65536) (bytes ++ (c ∷ [])) line in
    let skipped = get_slip_loop false size i bytes line in
    if ltb i size
    then (if c == fesc then escaping else if c == fend then (got i, bytes, line) else kept)
    else (if c == fend then (got i, bytes, line) else skipped)
get_slip_loop true size i bytes (got c ∷ line) =
    let bytes' =
      if c == tfend
      then bytes ++ (fend ∷ [])
      else if c == tfesc
      then bytes ++ (fesc ∷ [])
      else bytes in
    let later = get_slip_loop false size ((i + 1) % 65536) bytes' line in
    if c == fend then (got ((i + 1) % 65536), bytes', line) else later

-- `Serial::get_slip(data, size)` of an open port.
unfoldable pub slip_begun : ℕ → List ℕ → Option ℕ × List Answer → Received
unfolding get_slip_loop
slip_begun size bytes (some errno, line) = (translated serial_error_slipin errno, bytes, line)
slip_begun size bytes (none, line) = get_slip_loop false size 0 bytes line

unfoldable pub get_slip : ℕ → List ℕ → List Answer → Received
unfolding wait_for slip_begun
get_slip size bytes line = slip_begun size bytes (wait_for fend line)

-- `ch = get_char(); if (ch < 0) return (ch);`
abbrev pub next_char : List ℕ → List Answer → (ℕ → List Answer → Received) → Received
next_char bytes [] f = (failed eagain, bytes, [])
next_char bytes (failed errno ∷ line) f = (failed errno, bytes, line)
next_char bytes (got c ∷ line) f = f c line

-- The value of a hexadecimal digit, in 8 bits; other bytes get a value too.
unfoldable pub digit : ℕ → ℕ
digit c =
    (if ltb b'9' c
      then (if ltb b'F' c then c + 256 + 10 - b'a' else c + 256 + 10 - b'A')
      else c + 256 - b'0')
    % 256

-- `Serial::get_nmea` from behind the `*`.
unfoldable pub check_nmea : ℕ → ℕ → List ℕ → List Answer → Received
unfolding digit
check_nmea cs i bytes line = next_char bytes line λ c line1. next_char bytes line1 λ d line2.
    if cs == (digit c * 16 + digit d) % 256
    then (got i, bytes, drop 1 line2)
    else (failed serial_error_checksum, bytes, line2)

-- The second loop of `Serial::get_nmea`.
unfoldable pub get_nmea_loop : ℕ → ℕ → ℕ → List ℕ → List Answer → Received
unfolding check_nmea
get_nmea_loop size i cs bytes [] = (failed eagain, bytes, [])
get_nmea_loop size i cs bytes (failed errno ∷ line) = (failed errno, bytes, line)
get_nmea_loop size i cs bytes (got c ∷ line) =
    let kept = get_nmea_loop size ((i + 1) % 65536) (bit_xor cs c) (bytes ++ (c ∷ [])) line in
    let skipped = get_nmea_loop size i cs bytes line in
    if c == b'*' then check_nmea cs i bytes line else if ltb i size then kept else skipped

-- `Serial::get_nmea(data, size)`
unfoldable pub nmea_begun : ℕ → List ℕ → Option ℕ × List Answer → Received
unfolding get_nmea_loop
nmea_begun size bytes (some errno, line) = (failed errno, bytes, line)
nmea_begun size bytes (none, line) = get_nmea_loop size 0 0 bytes line

unfoldable pub get_nmea : ℕ → List ℕ → List Answer → Received
unfolding wait_for nmea_begun
get_nmea size bytes line = nmea_begun size bytes (wait_for b'$' line)

-- `get_char()`, its value in 8 bits, and the test of `ch` against a byte.
abbrev pub taken : List Answer → Answer × List Answer
taken [] = (failed eagain, [])
taken (a ∷ line) = (a, line)

abbrev pub byte_of : Answer → ℕ
byte_of (got c) = c
byte_of (failed errno) = (256 - errno % 256) % 256

abbrev pub is_got : ℕ → Answer → Bool
is_got c (got d) = c == d
is_got c (failed errno) = false

-- The loop over the 128 bytes of a block, with the number of bytes left, and the test behind it.
unfoldable pub get_block : ℕ → ℕ → ℕ → List ℕ → List Answer → Received
get_block zero blocknum csum bytes line =
    let (a, line') = taken line in
    if is_got csum a
    then (got blocknum, bytes, line')
    else (failed serial_error_checksum, bytes, line')
get_block (suc n) blocknum csum bytes [] = (failed eagain, bytes, [])
get_block (suc n) blocknum csum bytes (failed errno ∷ line) = (failed errno, bytes, line)
get_block (suc n) blocknum csum bytes (got c ∷ line) =
    get_block n blocknum ((csum + c) % 256) (bytes ++ (c ∷ [])) line

-- Behind the first byte of a block: its number, and that number again as 255 less.
unfoldable pub numbered : Answer → Answer → List ℕ → List Answer → Received
unfolding get_block
numbered b c bytes line =
    if is_got (255 - byte_of b) c
    then get_block 128 (byte_of b) 0 bytes line
    else (failed serial_error_read, bytes, line)

-- `Serial::get_xmodem(data, size)`: the size is not read.
unfoldable pub get_xmodem : List ℕ → List Answer → Received
unfolding numbered
get_xmodem bytes line =
    let (a, line1) = taken line in
    if is_got 0x01 a
    then (let (b, line2) = taken line1 in let (c, line3) = taken line2 in numbered b c bytes line3)
    else if is_got 0x04 a
    then (failed serial_error_eot, bytes, line1)
    else (failed serial_error_read, bytes, line1)
