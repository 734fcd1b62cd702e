-- ===== src/Serial/Nmea.antt =====
-- Sentences received by `Serial::get_nmea` of libraries/device/serial/serialclass.cpp.
use Prim.Native.Nat.{bit_xor}
use mathlib.Core.List.{append_assoc, append-nil}
use core_cleanup_test.Base.{
  ℕ, ◌+◌, ◌*◌, ◌%◌, ◌<◌, ◌≤◌, ◌≡◌, ◌≢◌, refl, ◌∙◌, arith, List, [], ◌∷◌, ◌++◌, ◌==◌, if◌then◌else◌,
  length, All,
}
use core_cleanup_test.Base.Bits.{bit_xor-lt}
use core_cleanup_test.Serial.{Answer, got, failed, serial_error_checksum}
use core_cleanup_test.Serial.Sending.{sum_loop, first_digit, second_digit, put_nmea}
use core_cleanup_test.Serial.Wire.{port, sentence, put_nmea-sentence}
use core_cleanup_test.Serial.Receiving.{
  Received, digit, check_nmea, get_nmea_loop, nmea_begun, get_nmea,
}
use core_cleanup_test.Serial.Slip.{arriving, arriving-append, wait_for-arriving}

-- The two digits stand for the checksum, except for 16.
digits_value :
    (cs : ℕ)
    → cs < 256
    → (digit (first_digit cs) * 16 + digit (second_digit cs)) % 256 ≡ (if cs == 16 then 0 else cs)
unfolding digit first_digit second_digit
digits_value cs h = ground (arith, h)

pub sum_loop-lt :
    (bytes : List ℕ) (cs : ℕ) → cs < 256 → All (λ b. b < 256) bytes → sum_loop cs bytes < 256
unfolding sum_loop
sum_loop-lt [] cs h k = h
sum_loop-lt (b ∷ more) cs h k = sum_loop-lt more (bit_xor cs b) (bit_xor-lt 8 cs b h k.0) k.1

-- What `get_nmea` returns for a payload with this checksum, and what it leaves of the line.
abbrev pub verdict : ℕ → List ℕ → ℕ → List Answer → Received
verdict cs bytes n line =
    if cs == 16 then (failed serial_error_checksum, bytes, got 10 ∷ line) else (got n, bytes, line)

check_nmea-digits :
    (cs i : ℕ) (bytes : List ℕ) (line : List Answer)
    → cs < 256
    → check_nmea cs i bytes (got (first_digit cs) ∷ got (second_digit cs) ∷ got 10 ∷ line)
      ≡ verdict cs bytes i line
unfolding check_nmea
check_nmea-digits cs i bytes line h = rw (digits_value cs h) (ground arith)

get_nmea_loop-arriving :
    (bytes old : List ℕ) (line : List Answer) (size i cs n : ℕ)
    → i + length bytes ≤ size
    → size < 65536
    → n ≡ i + length bytes
    → All (λ b. b ≢ b'*') bytes
    → get_nmea_loop size i cs old (arriving bytes ++ (got b'*' ∷ line))
      ≡ check_nmea (sum_loop cs bytes) n (old ++ bytes) line
unfolding get_nmea_loop sum_loop
get_nmea_loop-arriving [] old line size i cs n h k e q =
    let e' : n ≡ i = omega (arith, e) in rw (e', append-nil) refl
get_nmea_loop-arriving (b ∷ more) old line size i cs n h k e q =
    let w : (i + 1) % 65536 ≡ i + 1 = omega (arith, h, k) in
    let later =
      get_nmea_loop-arriving more (old ++ (b ∷ [])) line size (i + 1) (bit_xor cs b) n
        (omega (arith, h)) k (omega (arith, e)) q.1 in
    rw w (ground (arith, h, q.0, later, append_assoc old (b ∷ []) more))

pub get_nmea-sentence :
    (noise bytes old : List ℕ) (line : List Answer) (size : ℕ)
    → All (λ c. c ≢ b'$') noise
    → All (λ b. b ≢ b'*') bytes
    → All (λ b. b < 256) bytes
    → length bytes ≤ size
    → size < 65536
    → get_nmea size old (arriving (noise ++ sentence bytes) ++ line) ≡ (
        if sum_loop 0 bytes == 16
        then (failed serial_error_checksum, old ++ bytes, got 10 ∷ line)
        else (got (length bytes), old ++ bytes, line))
unfolding get_nmea nmea_begun sentence
get_nmea-sentence noise bytes old line size quiet plain small fits h =
    let cs = sum_loop 0 bytes in
    let end = got (first_digit cs) ∷ got (second_digit cs) ∷ got 10 ∷ line in
    let tail = arriving bytes ++ (got b'*' ∷ end) in
    let e : arriving
            (noise ++ (b'$' ∷ (bytes ++ (b'*' ∷ first_digit cs ∷ second_digit cs ∷ 10 ∷ []))))
          ++ line
        ≡ arriving noise ++ (got b'$' ∷ tail) =
      simp (arriving-append, append_assoc) in
    rw (e, wait_for-arriving b'$' noise tail quiet)
      (get_nmea_loop-arriving bytes old end size 0 0 (length bytes) (omega (arith, fits)) h
          (omega arith) plain
        ∙ check_nmea-digits cs (length bytes) (old ++ bytes) line
            (sum_loop-lt bytes 0 (omega arith) small))

-- A payload of bytes without an asterisk, no longer than the size of the caller, which is below
-- 2^16, is sent by `Serial::put_nmea` on an open port whose writes all succeed, behind bytes that
-- are no dollar sign. `Serial::get_nmea` returns its length and its bytes and stops right behind
-- the sentence, unless the checksum is 16: then it fails with the checksum error in front of the
-- newline.
pub get_nmea-put_nmea :
    (noise bytes old : List ℕ) (e : Answer) (line : List Answer) (size : ℕ)
    → All (λ c. c ≢ b'$') noise
    → All (λ b. b ≢ b'*') bytes
    → All (λ b. b < 256) bytes
    → length bytes ≤ size
    → size < 65536
    → let wire = (put_nmea bytes (port e [] noise)).1.sent in
      get_nmea size old (arriving wire ++ line) ≡ (
        if sum_loop 0 bytes == 16
        then (failed serial_error_checksum, old ++ bytes, got 10 ∷ line)
        else (got (length bytes), old ++ bytes, line))
get_nmea-put_nmea noise bytes old e line size quiet plain small fits h =
    rw (put_nmea-sentence bytes noise e)
      (get_nmea-sentence noise bytes old line size quiet plain small fits h)
