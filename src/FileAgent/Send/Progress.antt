-- ===== src/FileAgent/Send/Progress.antt =====
-- Lemmas on a chunk that `send_loop` of programs/agents/agent_file.cpp sends.
use core_cleanup_test.Base.{ℕ, ◌+◌, ◌≤◌, ◌<◌, ◌≡◌, ap, arith, List, ◌∷◌, not, leb, ltb, ◌&&◌}
use core_cleanup_test.Transfer.{FileProgress, TxProgress}
use core_cleanup_test.FileAgent.Chunks.Coverage.{covered, IsChunk, Ordered, Ordered-covered}
use core_cleanup_test.FileAgent.Send.{chunk_count, sent_from, pop_done, send_chunk}

-- What a packet holds: some of the chunk, no more than the channel takes.
chunk_count-bounds :
    (use_channel : ℕ) (c : FileProgress)
    → IsChunk c
    → (0 < chunk_count use_channel c)
      × (c.chunk_start + chunk_count use_channel c ≤ c.chunk_end + 1)
unfolding chunk_count
chunk_count-bounds use_channel c h = ground (arith, h.ordered, h.small)

-- The chunk without its first `n` bytes.
sent_from-start :
    (c : FileProgress) (n : ℕ)
    → IsChunk c
    → 0 < n
    → c.chunk_start + n ≤ c.chunk_end + 1
    → sent_from c n ≡ record c { chunk_start = c.chunk_start + n }
unfolding sent_from
sent_from-start c n h p l =
    let e : (sent_from c n).chunk_start ≡ c.chunk_start + n =
      ground (arith, h.ordered, h.small, p, l) in
    ap (λ s. record c { chunk_start = s }) e

-- With the entry removed when it is done.
covered-pop_done :
    (tx : TxProgress) (c : FileProgress) (cs : List FileProgress) (n x : ℕ)
    → Ordered 0 (c ∷ cs)
    → 0 < n
    → c.chunk_start + n ≤ c.chunk_end + 1
    → covered
        (pop_done
          (record tx { file_info = record c { chunk_start = c.chunk_start + n } ∷ cs })).file_info
        x
      ≡ (covered (c ∷ cs) x && not (leb c.chunk_start x && ltb x (c.chunk_start + n)))
unfolding pop_done
covered-pop_done tx c cs n x o p l =
    let behind = Ordered-covered (c.chunk_end + 1) cs x o.2 in ground (arith, behind, p, l)

module _ (use_channel : ℕ) (fread : ℕ → ℕ → List ℕ) (remote : ℕ) (tx : TxProgress) where
  -- For a list in order without a shared byte, a chunk that is sent is not empty and no longer
  -- than the first entry, and the list that is left, with an entry that is done removed, covers
  -- just what it covered without the bytes that were sent.
  pub send_chunk-rest :
      (c : FileProgress) (cs : List FileProgress) (x : ℕ)
      → Ordered 0 (c ∷ cs)
      → (0 < chunk_count use_channel c)
        × (c.chunk_start + chunk_count use_channel c ≤ c.chunk_end + 1)
        × (covered (pop_done (send_chunk use_channel fread remote tx c cs).0).file_info x ≡ (
            covered (c ∷ cs) x
            && not (leb c.chunk_start x && ltb x (c.chunk_start + chunk_count use_channel c))))
  unfolding send_chunk
  send_chunk-rest c cs x o =
      let n = chunk_count use_channel c in
      let (p, l) = chunk_count-bounds use_channel c o.1 in
      (p, l, rw (sent_from-start c n o.1 p l) (covered-pop_done tx c cs n x o p l))
