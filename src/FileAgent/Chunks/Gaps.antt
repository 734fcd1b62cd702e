-- ===== src/FileAgent/Chunks/Gaps.antt =====
-- Lemmas on `find_chunks_missing` of programs/agents/agent_file.cpp.
use mathlib.Core.Path.{fun_ext}
use core_cleanup_test.Base.{
  ℕ, ◌+◌, ◌%◌, ◌<◌, ◌≤◌, ◌≡◌, refl, ap, ◌∙◌, ◌^◌, List, [], ◌∷◌, ◌&&◌, not, ltb, arith, All, add32,
}
use core_cleanup_test.Transfer.{FileProgress}
use core_cleanup_test.FileAgent.Chunks.{
  lower_chunk, insert_chunk, sort_chunks, chunk_size, merge_chunks_overlap, find_chunks_missing,
  gaps_after, Missing, missing_of, total_size,
}
use core_cleanup_test.FileAgent.Chunks.Coverage.{
  covered, IsChunk, Separated, Separated-covered, sizes, sizes-eq-count, Separated-Ordered,
  sizes-lt,
}
use core_cleanup_test.Base.Counting.{count_below}
use core_cleanup_test.FileAgent.Chunks.Merging.{
  merge_chunks_overlap_exact, chunk_size-IsChunk, ends_below, covered-beyond,
}

-- Separated chunks are in order, so that sorting them again changes nothing.
insert_chunk_first :
    (lo : ℕ) (c : FileProgress) (cs : List FileProgress)
    → c.chunk_start ≤ lo
    → Separated lo cs
    → insert_chunk c cs ≡ c ∷ cs
unfolding insert_chunk lower_chunk
insert_chunk_first lo c [] h s = refl
insert_chunk_first lo c (d ∷ ds) h s = let p = s.0 in ground arith

sort_chunks-Separated : (lo : ℕ) (cs : List FileProgress) → Separated lo cs → sort_chunks cs ≡ cs
unfolding sort_chunks
sort_chunks-Separated lo [] s = refl
sort_chunks-Separated lo (c ∷ cs) s =
    let o = s.1.ordered in
    rw (sort_chunks-Separated (c.chunk_end + 2) cs s.2)
      (insert_chunk_first (c.chunk_end + 2) c cs (omega arith) s.2)

-- From the chunk `c` on.
covered-gaps_after :
    (c : FileProgress) (ds : List FileProgress) (n x : ℕ)
    → IsChunk c
    → c.chunk_end < n
    → n < 2 ^ 32
    → Separated (c.chunk_end + 2) ds
    → All (λ d. d.chunk_end < n) ds
    → covered (gaps_after c ds n) x ≡ (ltb c.chunk_end x && (ltb x n && not (covered ds x)))
unfolding gaps_after
covered-gaps_after c [] n x h k w s a = ground arith
covered-gaps_after c (d ∷ ds) n x h k w s a =
    let ih = covered-gaps_after d ds n x s.1 a.0 w s.2 a.1 in
    let o = s.1.ordered in
    let l = s.0 in
    let e = a.0 in
    let before = Separated-covered (d.chunk_end + 2) ds x s.2 in ground (arith, ih, before)

covered-missing_of :
    (cs : List FileProgress) (n x : ℕ)
    → 0 < n
    → n < 2 ^ 32
    → Separated 0 cs
    → All (λ d. d.chunk_end < n) cs
    → covered (missing_of cs n) x ≡ (ltb x n && not (covered cs x))
unfolding missing_of
covered-missing_of [] n x h w s a = ground arith
covered-missing_of (c ∷ cs) n x h w s a =
    let o = s.1.ordered in
    let e = a.0 in
    let before = Separated-covered (c.chunk_end + 2) cs x s.2 in
    ground (arith, covered-gaps_after c cs n x s.1 a.0 w s.2 a.1, before)

total_size-sizes :
    (lo total : ℕ) (cs : List FileProgress)
    → Separated lo cs
    → total < 2 ^ 32
    → total_size cs total ≡ (total + sizes cs) % 2 ^ 32
unfolding total_size
total_size-sizes lo total [] s t = omega arith
total_size-sizes lo total (c ∷ cs) s t = omega (
  arith,
  chunk_size-IsChunk c s.1,
  total_size-sizes (c.chunk_end + 2) (add32 total (chunk_size c)) cs s.2 (omega arith),
)

-- What `find_chunks_missing` computes from the merged list.
answer : List FileProgress → ℕ → Missing
answer info file_size = record {
  missing = missing_of info file_size;
  file_info = info;
  total_bytes = total_size info 0;
}

find_chunks_missing-answer :
    (cs : List FileProgress) (n : ℕ)
    → Separated 0 (merge_chunks_overlap cs).0
    → find_chunks_missing cs n ≡ answer (merge_chunks_overlap cs).0 n
unfolding find_chunks_missing answer
find_chunks_missing-answer [] n s = unfold merge_chunks_overlap in refl
find_chunks_missing-answer (c ∷ cs) n s = rw (sort_chunks-Separated 0 _ s)

module _ (cs : List FileProgress) (n : ℕ) (chunks : All IsChunk cs)
    (below : All (λ c. c.chunk_end < n) cs) where
  -- For chunks inside a file of `n` bytes, where 0 < n < 2^32, the answer covers just the bytes of
  -- the file that are not covered yet; the list keeps the bytes that it covered, and `total_bytes`
  -- becomes their number.
  pub find_chunks_missing_exact :
      0 < n
      → n < 2 ^ 32
      → ((x : ℕ) → covered (find_chunks_missing cs n).missing x ≡ (ltb x n && not (covered cs x)))
        × ((x : ℕ) → covered (find_chunks_missing cs n).file_info x ≡ covered cs x)
        × ((find_chunks_missing cs n).total_bytes ≡ count_below n (covered cs))
  find_chunks_missing_exact pos small =
      let (s, same, total) = merge_chunks_overlap_exact cs n chunks below in
      let info = (merge_chunks_overlap cs).0 in
      let ends =
        ends_below 0 n info (Separated-Ordered 0 info s)
          (λ x q. same x ∙ covered-beyond n x cs below q) in
      let distinct : sizes info ≡ count_below n (covered cs) =
        sizes-eq-count 0 n info (Separated-Ordered 0 info s) ends
        ∙ ap (count_below n) (fun_ext same) in
      rw (find_chunks_missing-answer cs n s) (
        unfold answer in
        (
          (λ x. covered-missing_of info n x pos small s ends ∙ ap (λ b. ltb x n && not b) (same x)),
          same,
          omega (arith, total_size-sizes 0 0 info s (omega arith), sizes-lt 0 info s, distinct),
        ))
