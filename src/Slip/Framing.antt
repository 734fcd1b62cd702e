-- ===== src/Slip/Framing.antt =====
-- What a frame of sliplib.cpp is, apart from the routines that write and read it.
use core_cleanup_test.Base.{
  ℕ, ◌*◌, ◌≤◌, ◌≢◌, arith, List, [], ◌∷◌, ◌++◌, ◌==◌, if◌then◌else◌, length, All,
}
use core_cleanup_test.Slip.{fend, fesc, tfend, tfesc}

-- The bytes with FEND and FESC replaced by their two-byte escapes.
unfoldable pub escape : List ℕ → List ℕ
escape [] = []
escape (ch ∷ rest) =
    let rest' = escape rest in
    if ch == fend
    then fesc ∷ tfend ∷ rest'
    else if ch == fesc
    then fesc ∷ tfesc ∷ rest'
    else ch ∷ rest'

-- A whole frame: the escaped bytes between two FENDs.
unfoldable pub frame : List ℕ → List ℕ
unfolding escape
frame bytes = fend ∷ (escape bytes ++ (fend ∷ []))

-- Escaping at most doubles the length.
pub length-escape :
    (bytes : List ℕ)
    → (length bytes ≤ length (escape bytes)) × (length (escape bytes) ≤ 2 * length bytes)
unfolding escape
length-escape [] = omega arith
length-escape (ch ∷ rest) = ground (arith, length-escape rest)

-- No byte of an escaped text ends a frame.
pub escape-ne-fend : (bytes : List ℕ) → All (λ ch. ch ≢ fend) (escape bytes)
unfolding escape
escape-ne-fend [] = tt
escape-ne-fend (ch ∷ rest) = ground (arith, escape-ne-fend rest)
