-- ===== src/Slip/Runs.antt =====
-- Runs of the model of libraries/support/sliplib.cpp on concrete buffers.
use core_cleanup_test.Base.{
  ℕ, ◌+◌, ◌≡◌, ◌≢◌, refl, arith, List, [], ◌∷◌, ◌++◌, length, replicate, overwrite, if◌then◌else◌,
  ltb,
}
use core_cleanup_test.Base.Result.{ok, err, slip_error_buffer}
use core_cleanup_test.Slip.{unpack, u16_bytes, fend, decode, decode_vec, encode, encode_vec}
use core_cleanup_test.Slip.Framing.{escape, frame}
use core_cleanup_test.Slip.Decoding.{decode-escape, decode_vec-escape}
use core_cleanup_test.Slip.Bounds.{decode-IsDecoded, IsDecoded}
use core_cleanup_test.Slip.Packing.{unpack-escape-ne-ok}
use core_cleanup_test.Slip.Encoding.{encode-frame, encode_vec-frame}

-- Three bytes, two of them special.
abbrev bytes : List ℕ
bytes = 0xC0 ∷ 7 ∷ 0xDB ∷ []

encode_run :
    encode bytes 3 (replicate 8 0) 8 ≡ ok (7, 0xC0 ∷ 0xDB ∷ 0xDC ∷ 7 ∷ 0xDB ∷ 0xDD ∷ 0xC0 ∷ 0 ∷ [])
unfolding encode
encode_run = refl

decode_run : decode_vec (7 ∷ 0xDB ∷ 0xDC ∷ 0xC0 ∷ 1 ∷ 2 ∷ []) ≡ ok (2, 7 ∷ 0xC0 ∷ [])
unfolding decode_vec
decode_run = refl

-- An FEND behind an FESC ends the loop and counts as a byte, so that the count may be `rsize`.
decode_escaped_end : decode (0xDB ∷ 0xC0 ∷ 7 ∷ 8 ∷ []) 4 (9 ∷ []) 1 ≡ ok (1, 9 ∷ [])
unfolding decode
decode_escaped_end = refl

decode-escape_example :
    decode (escape bytes ++ (fend ∷ 1 ∷ 2 ∷ [])) (length (escape bytes) + 3) (replicate 6 0) 6
    ≡ ok (3, overwrite (replicate 6 0) 0 bytes)
decode-escape_example = decode-escape bytes 1 2 (replicate 6 0) 6 (omega arith) (omega arith)

decode_vec-escape_example : decode_vec (escape bytes ++ (fend ∷ 1 ∷ 2 ∷ [])) ≡ ok (3, bytes)
decode_vec-escape_example = decode_vec-escape bytes 1 2

decode-IsDecoded_example :
    IsDecoded (replicate 2 0) 2 (decode (7 ∷ 0xDB ∷ 9 ∷ 0xC0 ∷ 0 ∷ 0 ∷ []) 6 (replicate 2 0) 2)
decode-IsDecoded_example =
    decode-IsDecoded (7 ∷ 0xDB ∷ 9 ∷ 0xC0 ∷ 0 ∷ 0 ∷ []) 6 (replicate 2 0) 2 (omega arith)
      (omega arith)

encode-frame_example : encode bytes 3 (replicate 8 0) 8 ≡ (
    if ltb (length (frame bytes)) 8
    then ok (length (frame bytes), overwrite (replicate 8 0) 0 (frame bytes))
    else err slip_error_buffer)
encode-frame_example = encode-frame bytes 3 (replicate 8 0) 8 (omega arith) (omega arith)

encode_vec-frame_example : encode_vec bytes ≡ frame bytes ++ (0 ∷ 0 ∷ [])
encode_vec-frame_example = encode_vec-frame bytes

unpack-escape-ne-ok_example :
    unpack
      ((escape bytes ++ (fend ∷ [])) ++ (u16_bytes 7 ++ (1 ∷ [])))
      (length (escape bytes) + 3)
      (replicate 6 0)
      6
    ≢ ok (3, bytes)
unpack-escape-ne-ok_example = unpack-escape-ne-ok bytes (1 ∷ []) 7 (replicate 6 0) 6 (3, bytes)
