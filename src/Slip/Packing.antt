-- ===== src/Slip/Packing.antt =====
-- Lemmas on `slip_pack` and `slip_unpack` of libraries/support/sliplib.cpp.
use mathlib.Core.List.{append_assoc}
use core_cleanup_test.Base.{
  ℕ, zero, suc, ◌+◌, ◌-◌, ◌/◌, ◌%◌, ◌<◌, ◌≤◌, ◌≡◌, refl, ◌∙◌, ◌≢◌, arith, List, [], ◌∷◌, ◌++◌, ◌==◌,
  ltb, if◌then◌else◌, length, take, drop, set, overwrite, length-append, Bool-cases, inl, inr,
  overwrite-eq_parts, drop_two, All, All-take, take-append_le,
}
use core_cleanup_test.Base.Result.{Result, ok, err, fault, slip_error_buffer, slip_error_crc, ◌>>=◌}
use core_cleanup_test.Slip.{
  fend, pack, pack_vec, unpack, unpack_vec, append_crc, checked, u16_bytes, decode, decode_vec,
  decode_loop, put, unescape, check_crc,
}
use core_cleanup_test.Slip.Framing.{escape, frame, escape-ne-fend}
use core_cleanup_test.Slip.Encoding.{encode-frame, encode_vec-frame}
use core_cleanup_test.Slip.Decoding.{decode_vec-escape}
use core_cleanup_test.Slip.Checksum.{
  crc_of, crc_of-lt, set_crc-append, set_crc_vec-append, check_crc_vec-append,
}

-- `slip_pack` on vectors always succeeds, with the whole frame and the checksum of all of it.
pub pack_vec-frame :
    (bytes : List ℕ)
    → pack_vec bytes
      ≡ ok (length (frame bytes) + 2, frame bytes ++ u16_bytes (crc_of (frame bytes)))
unfolding pack_vec u16_bytes
pack_vec-frame bytes =
    let sum = u16_bytes (crc_of (frame bytes)) in
    rw (encode_vec-frame, set_crc_vec-append) (ground (arith, length-append (frame bytes) sum))

-- What stands behind the bytes that the call writes is kept.
set_crc_step :
    (bytes sbuf : List ℕ) (ssize : ℕ)
    → ssize ≤ length sbuf
    → length (frame bytes) < ssize
    → append_crc ssize (ok (length (frame bytes), overwrite sbuf 0 (frame bytes))) ≡ (
        if ltb (length (frame bytes) + 2) ssize
        then ok (
          length (frame bytes) + 2,
          frame bytes ++ (u16_bytes (crc_of (frame bytes)) ++ drop (length (frame bytes) + 2) sbuf),
        )
        else err slip_error_buffer)
unfolding append_crc
set_crc_step bytes sbuf ssize h k = elim (Bool-cases (ltb ssize (length (frame bytes) + 3))) [
  | inl p ↦ rw p (ground arith)
  | inr p ↦
      let n = length (frame bytes) in
      let (x, y, e) = drop_two n sbuf (ground arith) in
      let z : 0 + n ≡ n = omega arith in
      let q : overwrite sbuf 0 (frame bytes) ≡ frame bytes ++ (x ∷ y ∷ drop (n + 2) sbuf) =
        overwrite-eq_parts sbuf 0 (frame bytes) (omega arith) ∙ rw (z, e) refl in
      ground (arith, q, set_crc-append (frame bytes) x y (drop (n + 2) sbuf) n refl)
]

-- For sizes inside the two buffers, `slip_pack` on arrays writes the frame and behind it the
-- checksum of the whole frame, if one byte more would still fit, and otherwise fails.
pub pack-frame :
    (rbuf : List ℕ) (rsize : ℕ) (sbuf : List ℕ) (ssize : ℕ)
    → rsize ≤ length rbuf
    → ssize ≤ length sbuf
    → pack rbuf rsize sbuf ssize ≡ (
        if ltb (length (frame (take rsize rbuf)) + 2) ssize
        then ok (
          length (frame (take rsize rbuf)) + 2,
          frame (take rsize rbuf)
              ++ (u16_bytes (crc_of (frame (take rsize rbuf)))
                  ++ drop (length (frame (take rsize rbuf)) + 2) sbuf),
        )
        else err slip_error_buffer)
unfolding pack
pack-frame rbuf rsize sbuf ssize h k =
    let n = length (frame (take rsize rbuf)) in
    elim (Bool-cases (ltb n ssize)) [
      | inl p ↦
          rw (encode-frame rbuf rsize sbuf ssize h k, p)
            (set_crc_step (take rsize rbuf) sbuf ssize k (ground arith))
      | inr p ↦ rw (encode-frame rbuf rsize sbuf ssize h k, p) (unfold append_crc in ground arith)
    ]

-- A frame without its opening FEND under its own checksum unpacks to what it carries; under any
-- other word of 16 bits it is refused.
pub unpack_vec-escape :
    (bytes : List ℕ) (w : ℕ)
    → w < 65536
    → unpack_vec ((escape bytes ++ (fend ∷ [])) ++ u16_bytes w) ≡ (
        if w == crc_of (escape bytes ++ (fend ∷ []))
        then ok (length bytes, bytes)
        else err slip_error_crc)
unfolding unpack_vec u16_bytes
unpack_vec-escape bytes w h = ground (
  arith,
  check_crc_vec-append (escape bytes ++ (fend ∷ [])) w h,
  append_assoc (escape bytes) (fend ∷ []) (u16_bytes w),
  decode_vec-escape bytes (w % 256) (w / 256),
)

-- A leading FEND ends the decoding at once.
decode_vec-fend : (rest : List ℕ) → 2 ≤ length rest → decode_vec (fend ∷ rest) ≡ ok (0, [])
unfolding decode_vec
decode_vec-fend [] h = absurd (omega arith)
decode_vec-fend (x ∷ []) h = absurd (omega arith)
decode_vec-fend (x ∷ y ∷ []) h = refl
decode_vec-fend (x ∷ y ∷ z ∷ rest) h =
    let n : suc (suc (suc (suc (length rest)))) - 2 ≡ suc (suc (length rest)) = omega arith in
    rw n (ground arith)

decode_frame :
    (bytes more : List ℕ) → 2 ≤ length more → decode_vec (frame bytes ++ more) ≡ ok (0, [])
unfolding frame
decode_frame bytes more h =
    decode_vec-fend ((escape bytes ++ (fend ∷ [])) ++ more)
      (omega (arith, length-append (escape bytes ++ (fend ∷ [])) more))

-- What `slip_pack` makes of a vector, `slip_unpack` accepts, and decodes to no bytes at all,
-- whatever was packed: the frame opens with the FEND at which the decoder stops.
pub unpack_vec-pack_vec : (bytes : List ℕ) → (pack_vec bytes >>= λ p. unpack_vec p.1) ≡ ok (0, [])
unfolding unpack_vec u16_bytes
unpack_vec-pack_vec bytes =
    let sum = u16_bytes (crc_of (frame bytes)) in
    rw pack_vec-frame (
      ground (
        arith,
        check_crc_vec-append (frame bytes) (crc_of (frame bytes)) (crc_of-lt (frame bytes)),
        decode_frame bytes sum,
      ))

-- Bytes without a FEND never make a decoded frame.
decode_loop-ne-ok :
    (src rbuf : List ℕ) (i room : ℕ) (p : ℕ × List ℕ)
    → All (λ ch. ch ≢ fend) src
    → decode_loop src rbuf i room ≢ ok p
unfolding decode_loop
decode_loop-ne-ok [] rbuf i room p h = λ e. cc
decode_loop-ne-ok (ch ∷ rest) rbuf i zero p h = λ e. cc
decode_loop-ne-ok (ch ∷ []) rbuf i (suc room) p h = λ e. ground arith
decode_loop-ne-ok (ch ∷ ch2 ∷ rest) rbuf i (suc room) p (h, hs) = λ e. ground (
  arith,
  decode_loop-ne-ok rest (put rbuf i (unescape ch2)) (i + 1) room p hs.1,
  decode_loop-ne-ok (ch2 ∷ rest) (set rbuf i ch) (i + 1) room p hs,
)

decode-ne-ok :
    (src : List ℕ) (ssize : ℕ) (rbuf : List ℕ) (rsize : ℕ) (p : ℕ × List ℕ)
    → All (λ ch. ch ≢ fend) (take (ssize - 2) src)
    → decode src ssize rbuf rsize ≢ ok p
unfolding decode
decode-ne-ok src ssize rbuf rsize p h =
    λ e. ground (arith, decode_loop-ne-ok (take (ssize - 2) src) rbuf 0 rsize p h)

checked-ne-ok :
    (status : Result ℕ) (decoded : Result (ℕ × List ℕ)) (p : ℕ × List ℕ)
    → decoded ≢ ok p
    → checked status decoded ≢ ok p
unfolding checked
checked-ne-ok (ok n) decoded p h = h
checked-ne-ok (err x) decoded p h = λ e. cc
checked-ne-ok fault decoded p h = λ e. cc

-- `slip_unpack` on an array takes the two checksum bytes off twice, so it never gets as far as the
-- closing FEND: no frame without its opening FEND is unpacked, whatever its checksum.
pub unpack-escape-ne-ok :
    (bytes more : List ℕ) (w : ℕ) (rbuf : List ℕ) (rsize : ℕ) (p : ℕ × List ℕ)
    → unpack
        ((escape bytes ++ (fend ∷ [])) ++ (u16_bytes w ++ more))
        (length (escape bytes) + 3)
        rbuf
        rsize
      ≢ ok p
unfolding unpack
unpack-escape-ne-ok bytes more w rbuf rsize p =
    let buf = (escape bytes ++ (fend ∷ [])) ++ (u16_bytes w ++ more) in
    let e : length (escape bytes) + 3 - 2 - 2 ≡ length (escape bytes) - 1 = omega arith in
    let shorter : length (escape bytes) - 1 ≤ length (escape bytes) = omega arith in
    let read : take (length (escape bytes) + 3 - 2 - 2) buf
        ≡ take (length (escape bytes) - 1) (escape bytes) =
      rw (e, append_assoc) (take-append_le _ (escape bytes) _ shorter) in
    checked-ne-ok (check_crc buf (length (escape bytes) + 3)) _ p (
      decode-ne-ok buf (length (escape bytes) + 3 - 2) rbuf rsize p
        (rw read (All-take _ _ (escape bytes) (escape-ne-fend bytes))))
