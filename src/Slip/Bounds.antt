-- ===== src/Slip/Bounds.antt =====
-- What `slip_decode` of libraries/support/sliplib.cpp can answer, whatever bytes arrive.
use core_cleanup_test.Base.{
  ℕ, zero, suc, ◌+◌, ◌-◌, ◌<◌, ◌≤◌, ◌≡◌, refl, ◌∙◌, arith, List, [], ◌∷◌, ◌==◌, length-set,
  Bool-cases, Option, none, some, inl, inr, ◌⊎◌, length, take, drop, set,
}
use core_cleanup_test.Base.Result.{Result, ok, err, fault, slip_error_packing, slip_error_buffer}
use core_cleanup_test.Slip.{fend, fesc, decode, decode_loop, put, unescape}

-- What a call on well sized buffers can answer: the bytes behind the count are as they were.
abbrev pub IsDecoded : List ℕ → ℕ → Result (ℕ × List ℕ) → Type 0
IsDecoded rbuf rsize (ok (n, out)) =
    (n ≤ rsize) × (length out ≡ length rbuf) × (drop n out ≡ drop n rbuf)
IsDecoded rbuf rsize (err e) = (e ≡ slip_error_packing) ⊎ (e ≡ slip_error_buffer)
IsDecoded rbuf rsize fault = ⊥

length-put : (rbuf : List ℕ) (i : ℕ) (o : Option ℕ) → length (put rbuf i o) ≡ length rbuf
unfolding put
length-put rbuf i none = refl
length-put rbuf i (some ch) = length-set rbuf i ch

drop-set : (rbuf : List ℕ) (i n ch : ℕ) → i < n → drop n (set rbuf i ch) ≡ drop n rbuf
drop-set rbuf i zero ch h = absurd (omega (arith, h))
drop-set [] i (suc n) ch h = refl
drop-set (c ∷ rbuf) zero (suc n) ch h = refl
drop-set (c ∷ rbuf) (suc i) (suc n) ch h = drop-set rbuf i n ch (omega (arith, h))

drop-put : (rbuf : List ℕ) (i n : ℕ) (o : Option ℕ) → i < n → drop n (put rbuf i o) ≡ drop n rbuf
unfolding put
drop-put rbuf i n none h = refl
drop-put rbuf i n (some ch) h = drop-set rbuf i n ch h

-- The same for the loop, from index `i` on.
IsGoing : List ℕ → ℕ → ℕ → Result (ℕ × List ℕ) → Type 0
IsGoing rbuf i rsize (ok (n, out)) =
    (i ≤ n) × (n ≤ rsize) × (length out ≡ length rbuf) × (drop n out ≡ drop n rbuf)
IsGoing rbuf i rsize (err e) = (e ≡ slip_error_packing) ⊎ (e ≡ slip_error_buffer)
IsGoing rbuf i rsize fault = ⊥

-- One byte written, or none, before the rest of the loop.
put-IsGoing :
    (rbuf : List ℕ) (i rsize : ℕ) (o : Option ℕ) (r : Result (ℕ × List ℕ))
    → IsGoing (put rbuf i o) (i + 1) rsize r
    → IsGoing rbuf i rsize r
unfolding IsGoing
put-IsGoing rbuf i rsize o (ok (n, out)) (l, h, len, kept) =
    (omega (arith, l), h, len ∙ length-put rbuf i o, kept ∙ drop-put rbuf i n o (omega (arith, l)))
put-IsGoing rbuf i rsize o (err e) h = h
put-IsGoing rbuf i rsize o fault h = h

decode_loop-IsGoing :
    (src rbuf : List ℕ) (i room rsize : ℕ)
    → i + room ≡ rsize
    → IsGoing rbuf i rsize (decode_loop src rbuf i room)
unfolding decode_loop IsGoing put
decode_loop-IsGoing [] rbuf i room rsize h = inl refl
decode_loop-IsGoing (ch ∷ rest) rbuf i zero rsize h = inr refl
decode_loop-IsGoing (ch ∷ []) rbuf i (suc room) rsize h = elim (Bool-cases (ch == fesc)) [
  | inl p ↦ rw p (inl refl)
  | inr p ↦ elim (Bool-cases (ch == fend)) [
    | inl q ↦ rw (p, q) (omega arith, omega arith, refl, refl)
    | inr q ↦ rw (p, q) (inl refl)
  ]
]
decode_loop-IsGoing (ch ∷ ch2 ∷ rest) rbuf i (suc room) rsize h =
    let escaped =
      put-IsGoing rbuf i rsize (unescape ch2)
        (decode_loop rest (put rbuf i (unescape ch2)) (i + 1) room)
        (decode_loop-IsGoing rest (put rbuf i (unescape ch2)) (i + 1) room rsize (omega arith)) in
    let plain =
      put-IsGoing rbuf i rsize (some ch) (decode_loop (ch2 ∷ rest) (set rbuf i ch) (i + 1) room)
        (decode_loop-IsGoing (ch2 ∷ rest) (set rbuf i ch) (i + 1) room rsize (omega arith)) in
    elim (Bool-cases (ch == fesc)) [
      | inl p ↦ elim (Bool-cases (ch2 == fend)) [
        | inl s ↦ rw (p, s) (omega arith, omega arith, refl, refl)
        | inr s ↦ rw (p, s) escaped
      ]
      | inr p ↦ elim (Bool-cases (ch == fend)) [
        | inl q ↦ rw (p, q) (omega arith, omega arith, refl, refl)
        | inr q ↦ rw (p, q) plain
      ]
    ]

IsGoing-IsDecoded :
    (rbuf : List ℕ) (rsize : ℕ) (r : Result (ℕ × List ℕ))
    → IsGoing rbuf 0 rsize r
    → IsDecoded rbuf rsize r
unfolding IsGoing
IsGoing-IsDecoded rbuf rsize (ok (n, out)) h = (h.1, h.2, h.3)
IsGoing-IsDecoded rbuf rsize (err e) h = h
IsGoing-IsDecoded rbuf rsize fault h = h

pub decode_sized :
    (sbuf : List ℕ) (ssize : ℕ) (rbuf : List ℕ) (rsize : ℕ)
    → ssize ≤ length sbuf
    → rsize ≤ length rbuf
    → decode sbuf ssize rbuf rsize ≡ decode_loop (take (ssize - 2) sbuf) rbuf 0 rsize
unfolding decode
decode_sized sbuf ssize rbuf rsize h k = ground arith

-- Whatever bytes arrive, a call on buffers of the declared sizes stays inside them, and either
-- returns a count of at most `rsize`, with the length of the output buffer and its bytes from the
-- count on kept, or one of two errors.
pub decode-IsDecoded :
    (sbuf : List ℕ) (ssize : ℕ) (rbuf : List ℕ) (rsize : ℕ)
    → ssize ≤ length sbuf
    → rsize ≤ length rbuf
    → IsDecoded rbuf rsize (decode sbuf ssize rbuf rsize)
decode-IsDecoded sbuf ssize rbuf rsize h k = rw (decode_sized sbuf ssize rbuf rsize h k) (
    IsGoing-IsDecoded rbuf rsize (decode_loop (take (ssize - 2) sbuf) rbuf 0 rsize)
      (decode_loop-IsGoing (take (ssize - 2) sbuf) rbuf 0 rsize rsize (omega arith)))
