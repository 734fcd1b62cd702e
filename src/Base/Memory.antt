-- ===== src/Base/Memory.antt =====
-- Buffers of bytes: `resize`, `memmove` of machine words in little endian order, and what a read
-- finds after a write.
use Prim.Native.Nat.{ℕ, zero, suc, ◌+◌, ◌-◌, ◌*◌, ◌/◌, ◌%◌, ◌<◌, ◌≤◌}
use mathlib.Core.Path.{◌≡◌, refl, ap, ◌∙◌}
use mathlib.Core.Logic.{◌⊎◌}
use mathlib.Core.List.{List, [], ◌∷◌, ◌++◌}
use native.Mathlib.Omega.{arith}
use core_cleanup_test.Base.Lists.{
  length, All, set, take, drop, replicate, overwrite, length-append, length-take, length-replicate,
  overwrite-eq_parts, take-append, drop-append, length-overwrite,
}

-- `resize(n)` of a vector of bytes.
unfoldable pub resize : ℕ → List ℕ → List ℕ
resize n buf = take n buf ++ replicate (n - length buf) 0

pub length-resize : (n : ℕ) (buf : List ℕ) → length (resize n buf) ≡ n
unfolding resize
length-resize n buf = omega (
  arith,
  length-append (take n buf) (replicate (n - length buf) 0),
  length-take n buf,
  length-replicate {A = ℕ} (n - length buf) 0,
)

-- The `n` bytes from index `i` on.
abbrev pub slice : List ℕ → ℕ → ℕ → List ℕ
slice buf i n = take n (drop i buf)

-- A word of two and of four bytes.
abbrev pub bytes2 : ℕ → List ℕ
bytes2 w = w % 256 ∷ w / 256 ∷ []

abbrev pub bytes4 : ℕ → List ℕ
bytes4 w = w % 256 ∷ w / 256 % 256 ∷ w / 256 / 256 % 256 ∷ w / 256 / 256 / 256 ∷ []

unfoldable pub word_of : List ℕ → ℕ
word_of [] = 0
word_of (b ∷ bs) = b + 256 * word_of bs

pub word_of-bytes1 : (w : ℕ) → word_of (w ∷ []) ≡ w
unfolding word_of
word_of-bytes1 w = omega arith

pub word_of-bytes2 : (w : ℕ) → word_of (bytes2 w) ≡ w
unfolding word_of
word_of-bytes2 w = omega arith

pub word_of-bytes4 : (w : ℕ) → word_of (bytes4 w) ≡ w
unfolding word_of
word_of-bytes4 w = omega arith

take_drop-set :
    (buf : List ℕ) (i j n v : ℕ) → (j + n ≤ i) ⊎ (i < j) → slice (set buf i v) j n ≡ slice buf j n
take_drop-set [] i j n v h = refl
take_drop-set (x ∷ buf) zero zero zero v h = refl
take_drop-set (x ∷ buf) zero zero (suc n) v h = absurd (omega (arith, h))
take_drop-set (x ∷ buf) zero (suc j) n v h = refl
take_drop-set (x ∷ buf) (suc i) zero zero v h = refl
take_drop-set (x ∷ buf) (suc i) zero (suc n) v h =
    ap (λ l. x ∷ l) (take_drop-set buf i zero n v (omega (arith, h)))
take_drop-set (x ∷ buf) (suc i) (suc j) n v h = take_drop-set buf i j n v (omega (arith, h))

-- A read apart from the bytes that were written.
pub slice-overwrite_apart :
    (xs buf : List ℕ) (i j n : ℕ)
    → (j + n ≤ i) ⊎ (i + length xs ≤ j)
    → slice (overwrite buf i xs) j n ≡ slice buf j n
slice-overwrite_apart [] buf i j n h = refl
slice-overwrite_apart (x ∷ xs) buf i j n h =
    slice-overwrite_apart xs (set buf i x) (i + 1) j n (omega (arith, h))
    ∙ take_drop-set buf i j n x (omega (arith, h))

pub slice_middle :
    (front xs more : List ℕ) (i n : ℕ)
    → i ≡ length front
    → n ≡ length xs
    → slice (front ++ (xs ++ more)) i n ≡ xs
slice_middle front xs more i n p e = rw (p, e, drop-append front (xs ++ more)) (take-append xs more)

-- A read of the bytes that were written.
pub slice-overwrite :
    (xs buf : List ℕ) (i n : ℕ)
    → n ≡ length xs
    → i + length xs ≤ length buf
    → slice (overwrite buf i xs) i n ≡ xs
slice-overwrite xs buf i n e h = rw (overwrite-eq_parts buf i xs h) (
    slice_middle (take i buf) xs (drop (i + length xs) buf) i n (omega (arith, length-take i buf))
      e)

-- Writes one after the other, each at its index.
unfoldable pub writes : List (ℕ × List ℕ) → List ℕ → List ℕ
writes [] buf = buf
writes ((i, xs) ∷ ws) buf = writes ws (overwrite buf i xs)

pub length-writes : (ws : List (ℕ × List ℕ)) (buf : List ℕ) → length (writes ws buf) ≡ length buf
unfolding writes
length-writes [] buf = refl
length-writes ((i, xs) ∷ ws) buf = length-writes ws (overwrite buf i xs) ∙ length-overwrite buf i xs

-- No write touches the `n` bytes from `i` on.
abbrev pub Apart : ℕ → ℕ → List (ℕ × List ℕ) → Type 0
Apart i n ws = All (λ w. (i + n ≤ w.0) ⊎ (w.0 + length w.1 ≤ i)) ws

slice-writes-Apart :
    (ws : List (ℕ × List ℕ)) (buf : List ℕ) (i n : ℕ)
    → Apart i n ws
    → slice (writes ws buf) i n ≡ slice buf i n
unfolding writes
slice-writes-Apart [] buf i n h = refl
slice-writes-Apart ((j, xs) ∷ ws) buf i n h =
    slice-writes-Apart ws (overwrite buf j xs) i n h.1 ∙ slice-overwrite_apart xs buf j i n h.0

-- One of the writes puts `xs` at `i`, and no later one touches it.
pub data Stored (i : ℕ) (xs : List ℕ) : List (ℕ × List ℕ) → Type 0 where
  here : {ws : List (ℕ × List ℕ)} → Apart i (length xs) ws → Stored i xs ((i, xs) ∷ ws)
  there : {w : ℕ × List ℕ} {ws : List (ℕ × List ℕ)} → Stored i xs ws → Stored i xs (w ∷ ws)

pub slice-writes :
    (ws : List (ℕ × List ℕ)) (buf : List ℕ) (i : ℕ) (xs : List ℕ) (n : ℕ)
    → Stored i xs ws
    → n ≡ length xs
    → i + length xs ≤ length buf
    → slice (writes ws buf) i n ≡ xs
unfolding writes
slice-writes [] buf i xs n s e h = elim s [ ]
slice-writes ((_, _) ∷ ws) buf i xs n (here apart) e h = rw e (
    slice-writes-Apart ws (overwrite buf i xs) i (length xs) apart
    ∙ slice-overwrite xs buf i (length xs) refl h)
slice-writes ((j, ys) ∷ ws) buf i xs n (there s) e h =
    slice-writes ws (overwrite buf j ys) i xs n s e (omega (arith, h, length-overwrite buf j ys))
