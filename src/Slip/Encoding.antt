-- ===== src/Slip/Encoding.antt =====
-- Lemmas on `slip_encode` of libraries/support/sliplib.cpp.
use mathlib.Core.List.{append_assoc, append-nil}
use core_cleanup_test.Base.{
  ℕ, ◌+◌, ◌≤◌, ◌≡◌, refl, sym, ◌∙◌, arith, List, [], ◌∷◌, ◌++◌, ◌==◌, ltb, if◌then◌else◌, length,
  take, set, overwrite, length-append, overwrite-append, Bool, true, false, Bool-cases, inl, inr,
}
use core_cleanup_test.Base.Result.{Result, ok, err, slip_error_buffer, ◌>>=◌}
use core_cleanup_test.Slip.{
  fend, fesc, tfend, tfesc, encode, encode_loop, close_frame, encode_vec, encode_loop_vec,
}
use core_cleanup_test.Slip.Framing.{escape, frame}

-- Written from index `i` on, if two bytes are left behind it.
outcome : List ℕ → ℕ → ℕ → List ℕ → Result (ℕ × List ℕ)
outcome sbuf i ssize esc =
    if ltb ssize (i + length esc + 2)
    then err slip_error_buffer
    else ok (i + length esc, overwrite sbuf i esc)

outcome-cons :
    (sbuf : List ℕ) (i ssize a : ℕ) (esc : List ℕ)
    → (if ltb ssize (i + 3)
        then err slip_error_buffer
        else outcome (set sbuf i a) (i + 1) ssize esc)
      ≡ outcome sbuf i ssize (a ∷ esc)
unfolding outcome
outcome-cons sbuf i ssize a esc = ground arith

outcome-cons_two :
    (sbuf : List ℕ) (i ssize a b : ℕ) (esc : List ℕ)
    → (if ltb ssize (i + 4)
        then err slip_error_buffer
        else outcome (set (set sbuf i a) (i + 1) b) (i + 2) ssize esc)
      ≡ outcome sbuf i ssize (a ∷ b ∷ esc)
unfolding outcome
outcome-cons_two sbuf i ssize a b esc =
    let e : i + 1 + 1 ≡ i + 2 = omega arith in rw e (ground arith)

outcome-nil : (sbuf : List ℕ) (i ssize : ℕ) → i + 2 ≤ ssize → ok (i, sbuf) ≡ outcome sbuf i ssize []
unfolding outcome
outcome-nil sbuf i ssize h = let e : i + 0 ≡ i = omega arith in rw e (ground arith)

-- A guarded call may be replaced where its guard lets it through.
guarded :
    (b : Bool) {x y : Result (ℕ × List ℕ)}
    → (b ≡ false → x ≡ y)
    → (if b then err slip_error_buffer else x) ≡ (if b then err slip_error_buffer else y)
guarded true h = refl
guarded false h = h refl

-- From index `i` on the loop writes the escaped bytes, if two bytes are left behind them.
encode_loop-escape :
    (bytes sbuf : List ℕ) (i ssize : ℕ)
    → i + 2 ≤ ssize
    → encode_loop bytes sbuf i ssize ≡ outcome sbuf i ssize (escape bytes)
unfolding encode_loop escape
encode_loop-escape [] sbuf i ssize h = outcome-nil sbuf i ssize h
encode_loop-escape (ch ∷ rest) sbuf i ssize h =
    let after_fend = encode_loop-escape rest (set (set sbuf i fesc) (i + 1) tfend) (i + 2) ssize in
    let after_fesc = encode_loop-escape rest (set (set sbuf i fesc) (i + 1) tfesc) (i + 2) ssize in
    let after_plain = encode_loop-escape rest (set sbuf i ch) (i + 1) ssize in
    elim (Bool-cases (ch == fend)) [
      | inl p ↦ rw p (
          guarded (ltb ssize (i + 4)) (λ q. after_fend (ground arith))
          ∙ outcome-cons_two sbuf i ssize fesc tfend (escape rest))
      | inr p ↦ elim (Bool-cases (ch == fesc)) [
        | inl q ↦
            rw (p, q)
              (guarded (ltb ssize (i + 4)) (λ r. after_fesc (ground arith))
                ∙ outcome-cons_two sbuf i ssize fesc tfesc (escape rest))
        | inr q ↦
            rw (p, q)
              (guarded (ltb ssize (i + 3)) (λ r. after_plain (ground arith))
                ∙ outcome-cons sbuf i ssize ch (escape rest))
      ]
    ]

-- What `close_frame` adds to the loop.
close_outcome :
    (sbuf : List ℕ) (ssize : ℕ) (esc : List ℕ)
    → (outcome (set sbuf 0 fend) 1 ssize esc >>= close_frame ssize) ≡ (
        if ltb (length esc + 2) ssize
        then ok (length esc + 2, overwrite sbuf 0 (fend ∷ (esc ++ (fend ∷ []))))
        else err slip_error_buffer)
unfolding outcome close_frame
close_outcome sbuf ssize esc =
    rw (overwrite-append (set sbuf 0 fend) 1 esc (fend ∷ [])) (ground arith)

-- For sizes inside the two buffers, `slip_encode` writes the bytes `rbuf[0 .. rsize)` as a frame
-- and returns its length if the frame is shorter than `ssize`, and otherwise fails: the guards
-- keep one byte more than the frame needs.
pub encode-frame :
    (rbuf : List ℕ) (rsize : ℕ) (sbuf : List ℕ) (ssize : ℕ)
    → rsize ≤ length rbuf
    → ssize ≤ length sbuf
    → encode rbuf rsize sbuf ssize ≡ (
        if ltb (length (frame (take rsize rbuf))) ssize
        then ok (length (frame (take rsize rbuf)), overwrite sbuf 0 (frame (take rsize rbuf)))
        else err slip_error_buffer)
unfolding encode frame
encode-frame rbuf rsize sbuf ssize h k =
    let bytes = take rsize rbuf in
    let n : length (escape bytes ++ (fend ∷ [])) ≡ length (escape bytes) + 1 =
      length-append (escape bytes) (fend ∷ []) in
    ground (
      arith,
      n,
      encode_loop-escape bytes (set sbuf 0 fend) 1 ssize,
      close_outcome sbuf ssize (escape bytes),
    )

encode_loop_vec-escape : (bytes sbuf : List ℕ) → encode_loop_vec bytes sbuf ≡ sbuf ++ escape bytes
unfolding encode_loop_vec escape
encode_loop_vec-escape [] sbuf = sym (append-nil sbuf)
encode_loop_vec-escape (ch ∷ rest) sbuf = ground (
  arith,
  encode_loop_vec-escape rest (sbuf ++ (fesc ∷ tfend ∷ [])),
  encode_loop_vec-escape rest (sbuf ++ (fesc ∷ tfesc ∷ [])),
  encode_loop_vec-escape rest (sbuf ++ (ch ∷ [])),
  append_assoc sbuf (fesc ∷ tfend ∷ []) (escape rest),
  append_assoc sbuf (fesc ∷ tfesc ∷ []) (escape rest),
  append_assoc sbuf (ch ∷ []) (escape rest),
)

-- The overload for vectors appends two zero bytes, the room for a checksum.
pub encode_vec-frame : (bytes : List ℕ) → encode_vec bytes ≡ frame bytes ++ (0 ∷ 0 ∷ [])
unfolding encode_vec frame
encode_vec-frame bytes = simp (encode_loop_vec-escape, append_assoc)
