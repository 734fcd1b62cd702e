-- ===== src/Slip/Decoding.antt =====
-- Lemmas on `slip_decode` of libraries/support/sliplib.cpp.
use core_cleanup_test.Base.{
  ℕ, zero, suc, ◌+◌, ◌-◌, ◌<◌, ◌≤◌, ◌≡◌, refl, ap, ◌≢◌, arith, List, [], ◌∷◌, ◌++◌, length, take,
  set, overwrite, length-append,
}
use core_cleanup_test.Base.Result.{Result, ok, err, slip_error_packing}
use mathlib.Core.List.{append_assoc, append-nil}
use core_cleanup_test.Slip.{
  fend, fesc, tfend, tfesc, decode, decode_loop, put, unescape, decode_vec, decode_loop_vec, push,
}
use core_cleanup_test.Slip.Framing.{escape}

-- One round of the loop on each kind of byte.
plain_round :
    (ch : ℕ) (rest rbuf : List ℕ) (i room : ℕ)
    → ch ≢ fesc
    → ch ≢ fend
    → decode_loop (ch ∷ rest) rbuf i (suc room) ≡ decode_loop rest (set rbuf i ch) (i + 1) room
unfolding decode_loop
plain_round ch [] rbuf i room h k = ground arith
plain_round ch (x ∷ rest) rbuf i room h k = ground arith

end_round :
    (rest rbuf : List ℕ) (i room : ℕ) → decode_loop (fend ∷ rest) rbuf i (suc room) ≡ ok (i, rbuf)
unfolding decode_loop
end_round [] rbuf i room = refl
end_round (x ∷ rest) rbuf i room = refl

fend_round :
    (rest rbuf : List ℕ) (i room : ℕ)
    → decode_loop (fesc ∷ tfend ∷ rest) rbuf i (suc room)
      ≡ decode_loop rest (set rbuf i fend) (i + 1) room
unfolding decode_loop put unescape
fend_round rest rbuf i room = refl

fesc_round :
    (rest rbuf : List ℕ) (i room : ℕ)
    → decode_loop (fesc ∷ tfesc ∷ rest) rbuf i (suc room)
      ≡ decode_loop rest (set rbuf i fesc) (i + 1) room
unfolding decode_loop put unescape
fesc_round rest rbuf i room = refl

-- The loop writes the bytes that were escaped, from index `i` on, and stops at the FEND.
decode_loop-escape :
    (bytes more : List ℕ) (rbuf : List ℕ) (i room : ℕ)
    → length bytes < room
    → decode_loop (escape bytes ++ (fend ∷ more)) rbuf i room
      ≡ ok (i + length bytes, overwrite rbuf i bytes)
unfolding escape
decode_loop-escape [] more rbuf i zero h = absurd (omega arith)
decode_loop-escape [] more rbuf i (suc room) h =
    let e : i + 0 ≡ i = omega arith in rw e (end_round more rbuf i room)
decode_loop-escape (ch ∷ rest) more rbuf i zero h = absurd (omega arith)
decode_loop-escape (ch ∷ rest) more rbuf i (suc room) h = ground (
  arith,
  decode_loop-escape rest more (set rbuf i ch) (i + 1) room,
  plain_round ch (escape rest ++ (fend ∷ more)) rbuf i room,
  fend_round (escape rest ++ (fend ∷ more)) rbuf i room,
  fesc_round (escape rest ++ (fend ∷ more)) rbuf i room,
)

-- The same for a vector: the bytes are appended.
vec_plain_round :
    (end : Result (List ℕ)) (ch : ℕ) (rest rbuf : List ℕ)
    → ch ≢ fesc
    → ch ≢ fend
    → decode_loop_vec end (ch ∷ rest) rbuf ≡ decode_loop_vec end rest (rbuf ++ (ch ∷ []))
unfolding decode_loop_vec
vec_plain_round end ch [] rbuf h k = ground arith
vec_plain_round end ch (x ∷ rest) rbuf h k = ground arith

vec_fend_round :
    (end : Result (List ℕ)) (rest rbuf : List ℕ)
    → decode_loop_vec end (fesc ∷ tfend ∷ rest) rbuf
      ≡ decode_loop_vec end rest (rbuf ++ (fend ∷ []))
unfolding decode_loop_vec push unescape
vec_fend_round end rest rbuf = refl

vec_fesc_round :
    (end : Result (List ℕ)) (rest rbuf : List ℕ)
    → decode_loop_vec end (fesc ∷ tfesc ∷ rest) rbuf
      ≡ decode_loop_vec end rest (rbuf ++ (fesc ∷ []))
unfolding decode_loop_vec push unescape
vec_fesc_round end rest rbuf = refl

vec_end_round :
    (end : Result (List ℕ)) (rest rbuf : List ℕ) → decode_loop_vec end (fend ∷ rest) rbuf ≡ ok rbuf
unfolding decode_loop_vec
vec_end_round end [] rbuf = refl
vec_end_round end (x ∷ rest) rbuf = refl

decode_loop_vec-escape :
    (end : Result (List ℕ)) (bytes more rbuf : List ℕ)
    → decode_loop_vec end (escape bytes ++ (fend ∷ more)) rbuf ≡ ok (rbuf ++ bytes)
unfolding escape
decode_loop_vec-escape end [] more rbuf = rw append-nil (vec_end_round end more rbuf)
decode_loop_vec-escape end (ch ∷ rest) more rbuf = ground (
  arith,
  decode_loop_vec-escape end rest more (rbuf ++ (ch ∷ [])),
  append_assoc rbuf (ch ∷ []) rest,
  vec_plain_round end ch (escape rest ++ (fend ∷ more)) rbuf,
  vec_fend_round end (escape rest ++ (fend ∷ more)) rbuf,
  vec_fesc_round end (escape rest ++ (fend ∷ more)) rbuf,
)

-- The part of a received buffer that the guard lets the loop read, behind the escaped bytes.
readable :
    (body : List ℕ) (x : ℕ) (more : List ℕ)
    → take (length body + 1) (body ++ (x ∷ more)) ≡ body ++ (x ∷ [])
readable [] x more = refl
readable (b ∷ body) x more =
    let e : suc (length body) + 1 ≡ suc (length body + 1) = omega arith in
    rw e (ap (λ l. b ∷ l) (readable body x more))

-- A received frame without its opening FEND, with any two bytes behind it, decodes to the bytes
-- that it carries, where `rsize` is more than their number and fits the buffer.
pub decode-escape :
    (bytes : List ℕ) (lo hi : ℕ) (rbuf : List ℕ) (rsize : ℕ)
    → length bytes < rsize
    → rsize ≤ length rbuf
    → decode (escape bytes ++ (fend ∷ lo ∷ hi ∷ [])) (length (escape bytes) + 3) rbuf rsize
      ≡ ok (length bytes, overwrite rbuf 0 bytes)
unfolding decode
decode-escape bytes lo hi rbuf rsize room fits =
    let e : length (escape bytes) + 3 - 2 ≡ length (escape bytes) + 1 = omega arith in
    rw (e, readable)
      (ground (
        arith,
        decode_loop-escape bytes [] rbuf 0 rsize,
        length-append (escape bytes) (fend ∷ lo ∷ hi ∷ []),
      ))

-- The same for a vector, which grows as needed.
pub decode_vec-escape :
    (bytes : List ℕ) (lo hi : ℕ)
    → decode_vec (escape bytes ++ (fend ∷ lo ∷ hi ∷ [])) ≡ ok (length bytes, bytes)
unfolding decode_vec
decode_vec-escape bytes lo hi =
    let all = length (escape bytes ++ (fend ∷ lo ∷ hi ∷ [])) in
    let e : all ≡ length (escape bytes) + 3 = length-append (escape bytes) (fend ∷ lo ∷ hi ∷ []) in
    let e' : all - 2 ≡ length (escape bytes) + 1 = omega arith in
    rw (e', readable) (ground (arith, decode_loop_vec-escape (err slip_error_packing) bytes [] []))
