-- ===== src/Slip/Checksum.antt =====
-- Lemmas on the checksum of libraries/support/sliplib.cpp.
use Prim.Native.Nat.{bit_xor}
use core_cleanup_test.Base.{
  ℕ, zero, suc, ◌+◌, ◌-◌, ◌/◌, ◌%◌, ◌^◌, ◌<◌, ◌≤◌, ◌≡◌, refl, sym, ap, ◌∙◌, arith, List, [], ◌∷◌,
  ◌++◌, ◌==◌, if◌then◌else◌, length, take, length-append, Bool-cases, inl, inr, overwrite_middle,
  split_two, take-append, drop-append,
}
use core_cleanup_test.Base.Bits.{bit_xor-lt}
use core_cleanup_test.Base.Result.{ok, err, slip_error_crc}
use core_cleanup_test.Slip.{
  crc_bit, crc_bits, crc_bytes, calc_crc, get_crc, set_crc, set_crc_vec, check_crc, check_crc_vec,
  u16_bytes,
}

-- The register never leaves its 16 bits.
crc_bit-lt : (crc ch : ℕ) → crc < 2 ^ 16 → crc_bit crc ch < 2 ^ 16
unfolding crc_bit
crc_bit-lt crc ch h = elim (Bool-cases (bit_xor ch crc % 2 == 1)) [
  | inl e ↦ rw e (bit_xor-lt 16 (crc / 2) 0x8408 (omega arith) (omega arith))
  | inr e ↦ rw e (bit_xor-lt 16 (crc / 2) 0 (omega arith) (omega arith))
]

crc_bits-lt : (n crc ch : ℕ) → crc < 2 ^ 16 → crc_bits n crc ch < 2 ^ 16
unfolding crc_bits
crc_bits-lt zero crc ch h = h
crc_bits-lt (suc n) crc ch h = crc_bits-lt n (crc_bit crc ch) (ch / 2) (crc_bit-lt crc ch h)

pub crc_bytes-lt : (buf : List ℕ) (crc : ℕ) → crc < 2 ^ 16 → crc_bytes crc buf < 2 ^ 16
unfolding crc_bytes
crc_bytes-lt [] crc h = h
crc_bytes-lt (ch ∷ buf) crc h = crc_bytes-lt buf (crc_bits 8 crc ch) (crc_bits-lt 8 crc ch h)

-- The checksum of a byte sequence, as a number.
abbrev pub crc_of : List ℕ → ℕ
crc_of bytes = crc_bytes 0xffff bytes

pub crc_of-lt : (bytes : List ℕ) → crc_of bytes < 2 ^ 16
crc_of-lt bytes = crc_bytes-lt bytes 0xffff (omega arith)

-- What stands in a buffer that begins with `body`, behind it, and that `body` is what was summed.
pub calc_crc-append :
    (body more : List ℕ) (n : ℕ) → n ≡ length body → calc_crc (body ++ more) n ≡ ok (crc_of body)
unfolding calc_crc
calc_crc-append body more n e = rw (e, take-append) (ground (arith, length-append body more))

pub get_crc-append :
    (body more : List ℕ) (w n : ℕ)
    → n ≡ length body
    → w < 2 ^ 16
    → get_crc (body ++ (u16_bytes w ++ more)) n ≡ ok w
unfolding get_crc u16_bytes
get_crc-append body more w n e h = rw (e, drop-append) (ground arith)

-- A buffer whose checksum field holds a word of 16 bits passes if that word is the checksum of the
-- bytes before it, and otherwise fails with the checksum error.
pub check_crc-append :
    (body more : List ℕ) (w n : ℕ)
    → n ≡ length body + 2
    → w < 2 ^ 16
    → check_crc (body ++ (u16_bytes w ++ more)) n
      ≡ (if w == crc_of body then ok 0 else err slip_error_crc)
unfolding check_crc
check_crc-append body more w n e h =
    let m : n - 2 ≡ length body = omega arith in
    ground (
      arith,
      get_crc-append body more w (n - 2) m h,
      calc_crc-append body (u16_bytes w ++ more) (n - 2) m,
    )

-- The vector overloads work on the whole vector, whose last two bytes are the checksum.
pub check_crc_vec-append :
    (body : List ℕ) (w : ℕ)
    → w < 2 ^ 16
    → check_crc_vec (body ++ u16_bytes w) ≡ (if w == crc_of body then ok 0 else err slip_error_crc)
unfolding check_crc_vec u16_bytes
check_crc_vec-append body w h =
    let n : length (body ++ u16_bytes w) - 2 ≡ length body =
      omega (arith, length-append body (u16_bytes w)) in
    ground (
      arith,
      n,
      length-append body (u16_bytes w),
      get_crc-append body [] w (length (body ++ u16_bytes w) - 2) n h,
      calc_crc-append body (u16_bytes w) (length (body ++ u16_bytes w) - 2) n,
    )

-- `slip_set_crc` writes the checksum of the first `index` bytes over the two bytes behind them and
-- returns it.
pub set_crc-append :
    (body : List ℕ) (x y : ℕ) (more : List ℕ) (n : ℕ)
    → n ≡ length body
    → set_crc (body ++ (x ∷ y ∷ more)) n
      ≡ ok (crc_of body, body ++ (u16_bytes (crc_of body) ++ more))
unfolding set_crc
set_crc-append body x y more n e =
    let two = u16_bytes (crc_of body) in
    ground (
      arith,
      calc_crc-append body (x ∷ y ∷ more) n e,
      overwrite_middle body (x ∷ y ∷ []) two more n e refl,
      length-append body (x ∷ y ∷ more),
    )

pub set_crc_vec-append :
    (body : List ℕ) (x y : ℕ)
    → set_crc_vec (body ++ (x ∷ y ∷ [])) ≡ ok (crc_of body, body ++ u16_bytes (crc_of body))
unfolding set_crc_vec
set_crc_vec-append body x y =
    let n : length (body ++ (x ∷ y ∷ [])) - 2 ≡ length body =
      omega (arith, length-append body (x ∷ y ∷ [])) in
    let two = u16_bytes (crc_of body) in
    ground (
      arith,
      n,
      calc_crc-append body (x ∷ y ∷ []) (length (body ++ (x ∷ y ∷ [])) - 2) n,
      overwrite_middle body (x ∷ y ∷ []) two [] (length (body ++ (x ∷ y ∷ [])) - 2) n refl,
      length-append body (x ∷ y ∷ []),
    )

set_crc_room :
    (buf : List ℕ) (index w : ℕ) (out : List ℕ)
    → set_crc buf index ≡ ok (w, out)
    → index + 2 ≤ length buf
unfolding set_crc
set_crc_room buf index w out e = ground arith

-- Where `slip_set_crc` stays inside its buffer, what it leaves passes `slip_check_crc` with two
-- bytes more.
pub check_crc-set_crc :
    (buf : List ℕ) (index : ℕ) (w : ℕ) (out : List ℕ)
    → set_crc buf index ≡ ok (w, out)
    → check_crc out (index + 2) ≡ ok 0
check_crc-set_crc buf index w out e =
    let room = set_crc_room buf index w out e in
    let (x, y, more, parts, len) = split_two index buf room in
    let body = take index buf in
    let written = set_crc-append body x y more index (sym len) in
    let passed =
      check_crc-append body more (crc_of body) (index + 2) (omega arith) (crc_of-lt body) in
    let same : ok (w, out) ≡ ok (crc_of body, body ++ (u16_bytes (crc_of body) ++ more)) =
      sym e ∙ ap (λ (b : List ℕ). set_crc b index) parts ∙ written in
    ground (arith, same, passed)
