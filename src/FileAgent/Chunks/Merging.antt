-- ===== src/FileAgent/Chunks/Merging.antt =====
-- Lemmas on `merge_chunks_overlap` of programs/agents/agent_file.cpp.
use mathlib.Core.Path.{fun_ext}
use core_cleanup_test.Base.{
  ℕ, zero, suc, ◌+◌, ◌-◌, ◌%◌, ◌<◌, ◌≤◌, ◌≡◌, refl, ap, ◌∙◌, ◌^◌, List, [], ◌∷◌, false, ◌||◌, leb,
  ltb, arith, All, Bool-cases, inl, inr, length, add32,
}
use core_cleanup_test.Transfer.{FileProgress}
use core_cleanup_test.FileAgent.Chunks.{
  lower_chunk, insert_chunk, sort_chunks, chunk_size, extend, absorb, merge_loop,
  merge_chunks_overlap,
}
use core_cleanup_test.FileAgent.Chunks.Coverage.{
  in_chunk, covered, IsChunk, SortedFrom, Separated, Ordered, sizes, sizes-eq-count,
  Separated-Ordered, sizes-lt, SortedFrom-weaken,
}
use core_cleanup_test.Base.Counting.{count_below}

-- Sorting.
covered-insert_chunk :
    (c : FileProgress) (cs : List FileProgress) (x : ℕ)
    → covered (insert_chunk c cs) x ≡ covered (c ∷ cs) x
unfolding insert_chunk
covered-insert_chunk c [] x = refl
covered-insert_chunk c (d ∷ ds) x = ground (arith, covered-insert_chunk c ds x)

pub covered-sort_chunks :
    (cs : List FileProgress) (x : ℕ) → covered (sort_chunks cs) x ≡ covered cs x
unfolding sort_chunks
covered-sort_chunks [] x = refl
covered-sort_chunks (c ∷ cs) x =
    covered-insert_chunk c (sort_chunks cs) x
    ∙ ap (λ b. in_chunk c x || b) (covered-sort_chunks cs x)

insert_chunk-SortedFrom :
    (lo : ℕ) (c : FileProgress) (cs : List FileProgress)
    → lo ≤ c.chunk_start
    → SortedFrom lo cs
    → SortedFrom lo (insert_chunk c cs)
unfolding insert_chunk lower_chunk
insert_chunk-SortedFrom lo c [] h s = (h, tt)
insert_chunk-SortedFrom lo c (d ∷ ds) h s = elim (Bool-cases (ltb d.chunk_start c.chunk_start)) [
  | inl p ↦ rw p (s.0, insert_chunk-SortedFrom d.chunk_start c ds (ground arith) s.1)
  | inr p ↦ rw p (h, (ground arith, s.1))
]

sort_chunks-SortedFrom : (cs : List FileProgress) → SortedFrom 0 (sort_chunks cs)
unfolding sort_chunks
sort_chunks-SortedFrom [] = tt
sort_chunks-SortedFrom (c ∷ cs) =
    insert_chunk-SortedFrom 0 c (sort_chunks cs) (omega arith) (sort_chunks-SortedFrom cs)

module _ {ℓ} (P : FileProgress → Type ℓ) where
  insert_chunk-All :
      (c : FileProgress) (cs : List FileProgress) → P c → All P cs → All P (insert_chunk c cs)
  unfolding insert_chunk
  insert_chunk-All c [] h hs = (h, tt)
  insert_chunk-All c (d ∷ ds) h hs = elim (Bool-cases (lower_chunk d c)) [
    | inl p ↦ rw p (hs.0, insert_chunk-All c ds h hs.1)
    | inr p ↦ rw p (h, hs)
  ]

  pub sort_chunks-All : (cs : List FileProgress) → All P cs → All P (sort_chunks cs)
  unfolding sort_chunks
  sort_chunks-All [] h = tt
  sort_chunks-All (c ∷ cs) h = insert_chunk-All c (sort_chunks cs) h.0 (sort_chunks-All cs h.1)

length-insert_chunk :
    (c : FileProgress) (cs : List FileProgress) → length (insert_chunk c cs) ≡ suc (length cs)
unfolding insert_chunk
length-insert_chunk c [] = refl
length-insert_chunk c (d ∷ ds) = ground (arith, length-insert_chunk c ds)

length-sort_chunks : (cs : List FileProgress) → length (sort_chunks cs) ≡ length cs
unfolding sort_chunks
length-sort_chunks [] = refl
length-sort_chunks (c ∷ cs) =
    length-insert_chunk c (sort_chunks cs) ∙ ap suc (length-sort_chunks cs)

-- A chunk that is not separated from the chunks behind it.
extend-IsChunk : (c d : FileProgress) → IsChunk c → IsChunk d → IsChunk (extend c d)
unfolding extend
extend-IsChunk c d h k = ground arith

-- Two chunks that touch cover together what the extended chunk covers.
in_chunk-extend :
    (c d : FileProgress) (x : ℕ)
    → c.chunk_start ≤ d.chunk_start
    → d.chunk_start ≤ c.chunk_end + 1
    → d.chunk_start ≤ d.chunk_end
    → in_chunk (extend c d) x ≡ (in_chunk c x || in_chunk d x)
unfolding extend
in_chunk-extend c d x h k o = ground arith

-- What starts further behind is left alone.
absorb_none :
    (c : FileProgress) (ds : List FileProgress)
    → IsChunk c
    → SortedFrom (c.chunk_end + 2) ds
    → absorb c ds ≡ (c, ds)
unfolding absorb
absorb_none c [] h s = refl
absorb_none c (d ∷ ds) h s =
    let w = h.small in
    let rest = absorb_none c ds h (SortedFrom-weaken (c.chunk_end + 2) d.chunk_start ds s.0 s.1) in
    ground (arith, rest)

-- What `absorb` makes of a chunk and the sorted chunks behind it.
record Absorbed (c : FileProgress) (ds : List FileProgress) (r : FileProgress × List FileProgress)
    : Type 0 where
  start : r.0.chunk_start ≡ c.chunk_start
  chunk : IsChunk r.0
  apart : SortedFrom (r.0.chunk_end + 2) r.1
  chunks : All IsChunk r.1
  shorter : length r.1 ≤ length ds
  same : (x : ℕ) → covered (r.0 ∷ r.1) x ≡ covered (c ∷ ds) x

Absorbed-extend :
    (c d : FileProgress) (ds : List FileProgress) {r : FileProgress × List FileProgress}
    → c.chunk_start ≤ d.chunk_start
    → d.chunk_start ≤ c.chunk_end + 1
    → d.chunk_start ≤ d.chunk_end
    → Absorbed (extend c d) ds r
    → Absorbed c (d ∷ ds) r
Absorbed-extend c d ds h k o a = record {
  start = a.start ∙ (unfold extend in ground arith);
  chunk = a.chunk;
  apart = a.apart;
  chunks = a.chunks;
  shorter = omega (arith, a.shorter);
  same = λ x. ground (arith, a.same x, in_chunk-extend c d x h k o);
}

absorb-Absorbed :
    (c : FileProgress) (ds : List FileProgress)
    → IsChunk c
    → SortedFrom c.chunk_start ds
    → All IsChunk ds
    → Absorbed c ds (absorb c ds)
unfolding absorb
absorb-Absorbed c [] h s hs = record {
  start = refl;
  chunk = h;
  apart = tt;
  chunks = tt;
  shorter = omega arith;
  same = λ x. refl;
}
absorb-Absorbed c (d ∷ ds) h s hs =
    let w = h.small in
    let further =
      absorb-Absorbed (extend c d) ds (extend-IsChunk c d h hs.0)
        (SortedFrom-weaken (extend c d).chunk_start d.chunk_start ds (unfold extend in ground arith)
          s.1)
        hs.1 in
    elim (Bool-cases (leb d.chunk_start (add32 c.chunk_end 1))) [
      | inl p ↦ rw p (Absorbed-extend c d ds s.0 (ground arith) hs.0.ordered further)
      | inr p ↦
          let behind : c.chunk_end + 2 ≤ d.chunk_start = ground arith in
          rw
            (
              p,
              absorb_none c ds h (SortedFrom-weaken (c.chunk_end + 2) d.chunk_start ds behind s.1),
            )
            (record {
              start = refl;
              chunk = h;
              apart = (behind, s.1);
              chunks = hs;
              shorter = omega arith;
              same = λ x. refl;
            })
    ]

pub chunk_size-IsChunk :
    (c : FileProgress) → IsChunk c → chunk_size c ≡ c.chunk_end - c.chunk_start + 1
unfolding chunk_size
chunk_size-IsChunk c h = let w = h.small in let o = h.ordered in omega arith

-- What the outer loop makes of sorted chunks.
record Merged (lo total : ℕ) (cs : List FileProgress) (r : List FileProgress × ℕ) : Type 0 where
  separated : Separated lo r.0
  same : (x : ℕ) → covered r.0 x ≡ covered cs x
  counted : r.1 ≡ (total + sizes r.0) % 2 ^ 32

merge_loop-Merged :
    (fuel lo total : ℕ) (cs : List FileProgress)
    → length cs ≤ fuel
    → SortedFrom lo cs
    → All IsChunk cs
    → total < 2 ^ 32
    → Merged lo total cs (merge_loop fuel cs total)
unfolding merge_loop
merge_loop-Merged zero lo total [] h s hs t = record {
  separated = tt;
  same = λ x. refl;
  counted = omega arith;
}
merge_loop-Merged zero lo total (c ∷ cs) h s hs t = absurd (omega arith)
merge_loop-Merged (suc fuel) lo total [] h s hs t = record {
  separated = tt;
  same = λ x. refl;
  counted = omega arith;
}
merge_loop-Merged (suc fuel) lo total (c ∷ cs) h s hs t =
    let a = absorb-Absorbed c cs hs.0 s.1 hs.1 in
    let (c', rest) = absorb c cs in
    let m =
      merge_loop-Merged fuel (c'.chunk_end + 2) (add32 total (chunk_size c')) rest
        (omega (arith, a.shorter)) a.apart a.chunks (omega arith) in
    record {
      separated = (omega (arith, a.start), a.chunk, m.separated);
      same = λ x. ground (arith, m.same x, a.same x);
      counted = omega (arith, m.counted, chunk_size-IsChunk c' a.chunk);
    }

-- The calls on at most one chunk take a shortcut, with the same answer.
merge_chunks_overlap-Merged :
    (cs : List FileProgress) → All IsChunk cs → Merged 0 0 cs (merge_chunks_overlap cs)
unfolding merge_chunks_overlap
merge_chunks_overlap-Merged [] h = record {
  separated = tt;
  same = λ x. refl;
  counted = omega arith;
}
merge_chunks_overlap-Merged (c ∷ []) h =
    let w = h.0.small in
    record {
      separated = (omega arith, h.0, tt);
      same = λ x. refl;
      counted = omega (arith, chunk_size-IsChunk c h.0);
    }
merge_chunks_overlap-Merged (c ∷ d ∷ cs) h =
    let all = c ∷ d ∷ cs in
    let m =
      merge_loop-Merged (length all) 0 0 (sort_chunks all) (omega (arith, length-sort_chunks all))
        (sort_chunks-SortedFrom all) (sort_chunks-All IsChunk all h) (omega arith) in
    record {
      separated = m.separated;
      same = λ x. m.same x ∙ covered-sort_chunks all x;
      counted = m.counted;
    }

pub covered-beyond :
    (n x : ℕ) (cs : List FileProgress)
    → All (λ c. c.chunk_end < n) cs
    → n ≤ x
    → covered cs x ≡ false
covered-beyond n x [] h k = refl
covered-beyond n x (c ∷ cs) h k = ground (arith, covered-beyond n x cs h.1 k)

-- Where nothing from `n` on is covered, no chunk ends there.
pub ends_below :
    (lo n : ℕ) (cs : List FileProgress)
    → Ordered lo cs
    → ((x : ℕ) → n ≤ x → covered cs x ≡ false)
    → All (λ c. c.chunk_end < n) cs
ends_below lo n [] s h = tt
ends_below lo n (c ∷ cs) s h =
    let o = s.1.ordered in
    (below (h c.chunk_end), ends_below (c.chunk_end + 1) n cs s.2 (λ x k. later x (h x k)))
  where
    below :
        (n ≤ c.chunk_end → (in_chunk c c.chunk_end || covered cs c.chunk_end) ≡ false)
        → c.chunk_end < n
    below k = let o = s.1.ordered in ground arith

    later : (x : ℕ) → (in_chunk c x || covered cs x) ≡ false → covered cs x ≡ false
    later x e = ground arith

-- For chunks that each end before `n` and below 2^32 - 1, merging leaves chunks in order with a
-- byte or more between any two, covers just the bytes that were covered, and counts each covered
-- byte once.
pub merge_chunks_overlap_exact :
    (cs : List FileProgress) (n : ℕ)
    → All IsChunk cs
    → All (λ c. c.chunk_end < n) cs
    → Separated 0 (merge_chunks_overlap cs).0
      × ((x : ℕ) → covered (merge_chunks_overlap cs).0 x ≡ covered cs x)
      × ((merge_chunks_overlap cs).1 ≡ count_below n (covered cs))
merge_chunks_overlap_exact cs n h k =
    let m = merge_chunks_overlap-Merged cs h in
    let info = (merge_chunks_overlap cs).0 in
    let ends =
      ends_below 0 n info (Separated-Ordered 0 info m.separated)
        (λ x q. m.same x ∙ covered-beyond n x cs k q) in
    let distinct : sizes info ≡ count_below n (covered cs) =
      sizes-eq-count 0 n info (Separated-Ordered 0 info m.separated) ends
      ∙ ap (count_below n) (fun_ext m.same) in
    (m.separated, m.same, omega (arith, m.counted, sizes-lt 0 info m.separated, distinct))
