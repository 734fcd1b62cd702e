-- ===== src/FileAgent/Chunks/Coverage.antt =====
-- Which bytes of a file a chunk list covers, and how many: the specification of the chunk lists of
-- programs/agents/agent_file.cpp.
use core_cleanup_test.Base.{
  ℕ, zero, suc, ◌+◌, ◌-◌, ◌<◌, ◌≤◌, ◌≡◌, refl, ◌^◌, List, [], ◌∷◌, ◌++◌, Bool, false, ◌&&◌, ◌||◌,
  leb, if◌then◌else◌, arith, All,
}
use core_cleanup_test.Base.Counting.{count_below, count_below-disjoint, count_below-nothing}
use core_cleanup_test.Transfer.{FileProgress}

abbrev pub in_chunk : FileProgress → ℕ → Bool
in_chunk c x = leb c.chunk_start x && leb x c.chunk_end

abbrev pub covered : List FileProgress → ℕ → Bool
covered [] x = false
covered (c ∷ cs) x = in_chunk c x || covered cs x

-- A chunk that is not empty, and that does not end at the last number of 32 bits.
pub record IsChunk (c : FileProgress) : Type 0 where
  pub ordered : c.chunk_start ≤ c.chunk_end
  pub small : c.chunk_end + 1 < 2 ^ 32

-- Chunks in order, none before `lo`.
abbrev pub SortedFrom : ℕ → List FileProgress → Type 0
SortedFrom lo [] = Unit
SortedFrom lo (c ∷ cs) = (lo ≤ c.chunk_start) × SortedFrom c.chunk_start cs

-- Chunks in order, none before `lo`, with at least one byte between any two.
abbrev pub Separated : ℕ → List FileProgress → Type 0
Separated lo [] = Unit
Separated lo (c ∷ cs) = (lo ≤ c.chunk_start) × IsChunk c × Separated (c.chunk_end + 2) cs

-- Chunks in order that share no byte, none before `lo`; they may touch.
abbrev pub Ordered : ℕ → List FileProgress → Type 0
Ordered lo [] = Unit
Ordered lo (c ∷ cs) = (lo ≤ c.chunk_start) × IsChunk c × Ordered (c.chunk_end + 1) cs

pub covered-append :
    (cs ds : List FileProgress) (x : ℕ) → covered (cs ++ ds) x ≡ (covered cs x || covered ds x)
covered-append [] ds x = refl
covered-append (c ∷ cs) ds x = ground (arith, covered-append cs ds x)

pub Separated-weaken :
    (lo lo' : ℕ) (cs : List FileProgress) → lo ≤ lo' → Separated lo' cs → Separated lo cs
Separated-weaken lo lo' [] h s = tt
Separated-weaken lo lo' (c ∷ cs) h s = (omega arith, s.1, s.2)

pub SortedFrom-weaken :
    (lo lo' : ℕ) (cs : List FileProgress) → lo ≤ lo' → SortedFrom lo' cs → SortedFrom lo cs
SortedFrom-weaken lo lo' [] h s = tt
SortedFrom-weaken lo lo' (c ∷ cs) h s = (omega arith, s.1)

-- What is separated from `lo` on covers nothing below `lo`.
pub Separated-covered :
    (lo : ℕ) (cs : List FileProgress) (x : ℕ) → Separated lo cs → x < lo → covered cs x ≡ false
Separated-covered lo [] x s h = refl
Separated-covered lo (c ∷ cs) x s h =
    let later = Separated-covered (c.chunk_end + 2) cs x s.2 in
    let o = s.1.ordered in ground (arith, later (omega arith))

-- The bytes of one chunk, below a bound that it keeps.
count_below-in_chunk :
    (n : ℕ) (c : FileProgress)
    → c.chunk_start ≤ c.chunk_end
    → count_below n (in_chunk c) ≡ (
        if leb n c.chunk_start
        then 0
        else if leb n c.chunk_end
        then n - c.chunk_start
        else c.chunk_end - c.chunk_start + 1)
unfolding count_below
count_below-in_chunk zero c h = ground arith
count_below-in_chunk (suc n) c h = ground (arith, count_below-in_chunk n c h)

-- The sizes of separated chunks add up to the number of bytes that they cover.
abbrev pub sizes : List FileProgress → ℕ
sizes [] = 0
sizes (c ∷ cs) = c.chunk_end - c.chunk_start + 1 + sizes cs

-- What is in order from `lo` on covers nothing below `lo`.
pub Ordered-covered :
    (lo : ℕ) (cs : List FileProgress) (x : ℕ) → Ordered lo cs → x < lo → covered cs x ≡ false
Ordered-covered lo [] x s h = refl
Ordered-covered lo (c ∷ cs) x s h =
    let later = Ordered-covered (c.chunk_end + 1) cs x s.2 in
    let o = s.1.ordered in ground (arith, later (omega arith))

pub Ordered-weaken :
    (lo lo' : ℕ) (cs : List FileProgress) → lo ≤ lo' → Ordered lo' cs → Ordered lo cs
Ordered-weaken lo lo' [] h s = tt
Ordered-weaken lo lo' (c ∷ cs) h s = (omega arith, s.1, s.2)

pub Separated-Ordered : (lo : ℕ) (cs : List FileProgress) → Separated lo cs → Ordered lo cs
Separated-Ordered lo [] s = tt
Separated-Ordered lo (c ∷ cs) s =
    let rest = Separated-Ordered (c.chunk_end + 2) cs s.2 in
    (s.0, s.1, Ordered-weaken (c.chunk_end + 1) (c.chunk_end + 2) cs (omega arith) rest)

pub sizes-eq-count :
    (lo n : ℕ) (cs : List FileProgress)
    → Ordered lo cs
    → All (λ c. c.chunk_end < n) cs
    → sizes cs ≡ count_below n (covered cs)
sizes-eq-count lo n [] s h = omega (arith, count_below-nothing n)
sizes-eq-count lo n (c ∷ cs) s h =
    let rest = sizes-eq-count (c.chunk_end + 1) n cs s.2 h.1 in
    let own = count_below-in_chunk n c s.1.ordered in
    let apart =
      count_below-disjoint n (in_chunk c) (covered cs)
        (λ x e. Ordered-covered (c.chunk_end + 1) cs x s.2 (ground arith)) in
    ground (arith, rest, own, apart)

-- Separated chunks have room for their sizes.
sizes_bound :
    (lo : ℕ) (cs : List FileProgress) → Separated lo cs → lo ≤ 2 ^ 32 → lo + sizes cs ≤ 2 ^ 32
sizes_bound lo [] s h = omega arith
sizes_bound lo (c ∷ cs) s h =
    let o = s.1.ordered in
    let w = s.1.small in omega (arith, sizes_bound (c.chunk_end + 2) cs s.2 (omega arith))

pub sizes-lt : (lo : ℕ) (cs : List FileProgress) → Separated lo cs → sizes cs < 2 ^ 32
sizes-lt lo [] s = omega arith
sizes-lt lo (c ∷ cs) s =
    let o = s.1.ordered in
    let w = s.1.small in omega (arith, sizes_bound (c.chunk_end + 2) cs s.2 (omega arith))

pub Ordered-All : (lo : ℕ) (cs : List FileProgress) → Ordered lo cs → All IsChunk cs
Ordered-All lo [] s = tt
Ordered-All lo (c ∷ cs) s = (s.1, Ordered-All (c.chunk_end + 1) cs s.2)
