-- ===== src/FileAgent/Chunks.antt =====
-- The chunk lists of programs/agents/agent_file.cpp: `lower_chunk`, `merge_chunks_overlap` and
-- `find_chunks_missing`. Sizes and offsets are `uint32_t`, with their wrap-around.
pub mod Coverage
pub mod Merging
pub mod Gaps
use core_cleanup_test.Base.{
  ℕ, zero, suc, List, [], ◌∷◌, ◌++◌, ◌==◌, Bool, ltb, leb, if◌then◌else◌, length, add32, sub32,
}
use core_cleanup_test.Transfer.{FileProgress}

pub lower_chunk : FileProgress → FileProgress → Bool
lower_chunk i j = ltb i.chunk_start j.chunk_start

-- `sort(file_info.begin(), file_info.end(), lower_chunk)`, in one of the orders that it may leave.
pub insert_chunk : FileProgress → List FileProgress → List FileProgress
insert_chunk c [] = c ∷ []
insert_chunk c (d ∷ ds) = if lower_chunk d c then d ∷ insert_chunk c ds else c ∷ d ∷ ds

pub sort_chunks : List FileProgress → List FileProgress
unfolding insert_chunk lower_chunk
sort_chunks [] = []
sort_chunks (c ∷ cs) = insert_chunk c (sort_chunks cs)

-- `(chunk_end - chunk_start) + 1`
unfoldable pub chunk_size : FileProgress → ℕ
chunk_size c = add32 (sub32 c.chunk_end c.chunk_start) 1

-- The body of the inner `while`: the chunk at `i` after it has taken up the one at `j`.
pub extend : FileProgress → FileProgress → FileProgress
extend c d = if ltb c.chunk_end d.chunk_end then record c { chunk_end = d.chunk_end } else c

-- The loops over `j`, from the chunk `c` at `i`: what starts no later than the byte behind `c` is
-- taken up and erased, the rest stays. The second part is what is left behind `i`.
pub absorb : FileProgress → List FileProgress → FileProgress × List FileProgress
absorb c [] = (c, [])
absorb c (d ∷ ds) =
    let taken = absorb (extend c d) ds in
    let kept = absorb c ds in
    if leb d.chunk_start (add32 c.chunk_end 1) then taken else (kept.0, d ∷ kept.1)

-- The loop over `i`. Each round takes one chunk off at least, so the length is enough fuel.
pub merge_loop : ℕ → List FileProgress → ℕ → List FileProgress × ℕ
merge_loop zero cs total = ([], total)
merge_loop (suc fuel) [] total = ([], total)
merge_loop (suc fuel) (c ∷ cs) total =
    let (c', rest) = absorb c cs in
    let (merged, total') = merge_loop fuel rest (add32 total (chunk_size c')) in
    (c' ∷ merged, total')

-- `merge_chunks_overlap(tx)` on `tx.file_info`: the new list, and the new `tx.total_bytes`.
unfoldable pub merge_chunks_overlap : List FileProgress → List FileProgress × ℕ
unfolding merge_loop absorb extend chunk_size sort_chunks
merge_chunks_overlap [] = ([], 0)
merge_chunks_overlap (c ∷ []) = (c ∷ [], chunk_size c)
merge_chunks_overlap (c ∷ d ∷ cs) = merge_loop (length (c ∷ d ∷ cs)) (sort_chunks (c ∷ d ∷ cs)) 0

-- The gaps between the chunks and behind the last one, from the chunk `c` on.
pub gaps_after : FileProgress → List FileProgress → ℕ → List FileProgress
gaps_after c [] file_size =
    if add32 c.chunk_end 1 == file_size
    then []
    else record { chunk_start = add32 c.chunk_end 1; chunk_end = sub32 file_size 1 } ∷ []
gaps_after c (d ∷ ds) file_size =
    (if add32 c.chunk_end 1 == d.chunk_start
      then []
      else record { chunk_start = add32 c.chunk_end 1; chunk_end = sub32 d.chunk_start 1 } ∷ [])
    ++ gaps_after d ds file_size

pub missing_of : List FileProgress → ℕ → List FileProgress
missing_of [] file_size = record { chunk_start = 0; chunk_end = sub32 file_size 1 } ∷ []
missing_of (c ∷ cs) file_size =
    (if c.chunk_start == 0
      then []
      else record { chunk_start = 0; chunk_end = sub32 c.chunk_start 1 } ∷ [])
    ++ gaps_after c cs file_size

-- `for (prog : file_info) total_bytes += (prog.chunk_end - prog.chunk_start) + 1`
pub total_size : List FileProgress → ℕ → ℕ
total_size [] total = total
total_size (c ∷ cs) total = total_size cs (add32 total (chunk_size c))

pub record Missing : Type 0 where
  pub missing : List FileProgress
  pub file_info : List FileProgress
  pub total_bytes : ℕ

-- `find_chunks_missing(tx)`: the answer, and what it leaves in `tx`. An empty list is not merged.
unfoldable pub find_chunks_missing : List FileProgress → ℕ → Missing
unfolding missing_of gaps_after total_size chunk_size sort_chunks
find_chunks_missing [] file_size = record {
  missing = missing_of [] file_size;
  file_info = [];
  total_bytes = 0;
}
find_chunks_missing (c ∷ cs) file_size =
    let info = sort_chunks (merge_chunks_overlap (c ∷ cs)).0 in
    record {
      missing = missing_of info file_size;
      file_info = info;
      total_bytes = total_size info 0;
    }
