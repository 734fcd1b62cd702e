-- ===== src/FileAgent/Receive/Faults.antt =====
-- Lemmas on packets that overlap, and on files opened again, in the PACKET_DATA case of `recv_loop`.
use core_cleanup_test.Base.{
  ℕ, ◌+◌, ◌-◌, ◌^◌, ◌<◌, ◌≤◌, ◌≡◌, List, ◌∷◌, Bool, true, none, arith, get_elem?, ◌&&◌, ◌||◌, ◌∙◌,
  ap, All, add32, false,
}
use core_cleanup_test.Transfer.{FileProgress, TxProgress}
use core_cleanup_test.FileAgent.Chunks.Coverage.{IsChunk, in_chunk, covered}
use core_cleanup_test.FileAgent.Receive.{place, DataChunk, chunk_of, receive_data}
use core_cleanup_test.FileAgent.Receive.Placing.{Carries, place-IsPlaced}
use core_cleanup_test.FileAgent.Receive.Writing.{
  write_chunk_partial, write_chunk_frame, receive_data_updated,
}

-- A packet that begins inside the first chunk of the list and ends behind it.
pub record Overlaps (c : FileProgress) (d : DataChunk) : Type 0 where
  pub chunk : IsChunk c
  pub small : d.byte_count < 2 ^ 16
  pub fits : d.chunk_start + d.byte_count < 2 ^ 32
  pub after : c.chunk_start ≤ d.chunk_start
  pub within : d.chunk_start ≤ c.chunk_end
  pub longer : c.chunk_end + 1 < d.chunk_start + d.byte_count

place_overlap :
    (c : FileProgress) (cs : List FileProgress) (d : DataChunk)
    → Overlaps c d
    → ((place (chunk_of d) d.byte_count (c ∷ cs)).updated ≡ true)
      × ((place (chunk_of d) d.byte_count (c ∷ cs)).chunk.chunk_start ≡ c.chunk_end + 1)
      × ((place (chunk_of d) d.byte_count (c ∷ cs)).byte_count
          ≡ d.chunk_start + d.byte_count - (c.chunk_end + 1))
unfolding place chunk_of
place_overlap c cs d o =
    let w = o.chunk.small in
    let p = o.chunk.ordered in
    let s = o.small in
    let f = o.fits in
    let a = o.after in
    let i = o.within in let l = o.longer in (ground arith, ground arith, ground arith)

-- Where the stream is open and a packet of fewer than 2^16 bytes, below 2^32, begins inside the
-- first chunk of the list and ends behind it, a new byte of the file at `x` becomes the packet's
-- byte for an offset that lies before `x`.
pub receive_data_misplaced :
    (d : DataChunk) (tx : TxProgress) (c : FileProgress) (cs : List FileProgress) (x : ℕ)
    → tx.file_info ≡ c ∷ cs
    → Overlaps c d
    → tx.fp ≡ true
    → c.chunk_end < x
    → x < d.chunk_start + d.byte_count
    → ((receive_data true d tx).partial x ≡ get_elem? d.chunk (x - (c.chunk_end + 1)))
      × (d.chunk_start + (x - (c.chunk_end + 1)) < x)
receive_data_misplaced d tx c cs x e o f lo hi =
    let p = place (chunk_of d) d.byte_count tx.file_info in
    let at = λ (l : List FileProgress). place (chunk_of d) d.byte_count l in
    let (u, s, n) = place_overlap c cs d o in
    let u' : p.updated ≡ true = ap (λ l. (at l).updated) e ∙ u in
    let s' : p.chunk.chunk_start ≡ c.chunk_end + 1 = ap (λ l. (at l).chunk.chunk_start) e ∙ s in
    let n' : p.byte_count ≡ d.chunk_start + d.byte_count - (c.chunk_end + 1) =
      ap (λ l. (at l).byte_count) e ∙ n in
    let i = o.within in
    (
      rw (receive_data_updated true d tx u') (write_chunk_partial d.chunk p _ x ∙ ground arith),
      omega arith,
    )

or_nothing : (a b : Bool) → (a || (b && false)) ≡ a
or_nothing a b = ground arith

-- Where the stream is not open but can be opened, and the packet and the chunks listed are not
-- empty and end below 2^32 - 1, a packet of fewer than 2^16 bytes that brings new ones empties the
-- partial file: a byte outside the chunk written is gone, though the list covers it as before.
pub receive_data_reopened :
    (d : DataChunk) (tx : TxProgress) (x : ℕ)
    → Carries (chunk_of d) d.byte_count
    → All IsChunk tx.file_info
    → tx.fp ≡ false
    → (place (chunk_of d) d.byte_count tx.file_info).updated ≡ true
    → in_chunk (place (chunk_of d) d.byte_count tx.file_info).chunk x ≡ false
    → ((receive_data true d tx).partial x ≡ none)
      × (covered (receive_data true d tx).file_info x ≡ covered tx.file_info x)
receive_data_reopened d tx x k a f u out =
    let p = place (chunk_of d) d.byte_count tx.file_info in
    let pl = place-IsPlaced (chunk_of d) d.byte_count tx.file_info k a in
    let tx' = record tx { file_info = p.info; total_bytes = add32 tx.total_bytes p.byte_count } in
    let o = pl.kept.chunk.ordered in
    let c = pl.kept.counted in
    rw (receive_data_updated true d tx u) (
      write_chunk_partial d.chunk p _ x ∙ ground arith,
      ap (λ l. covered l x) (write_chunk_frame true d.chunk p tx').0 ∙ pl.same x ∙ kept out,
    )
  where
    kept :
        in_chunk (place (chunk_of d) d.byte_count tx.file_info).chunk x ≡ false
        → (covered tx.file_info x
            || ((place (chunk_of d) d.byte_count tx.file_info).updated
                && in_chunk (place (chunk_of d) d.byte_count tx.file_info).chunk x))
          ≡ covered tx.file_info x
    kept e =
        rw e (
          or_nothing (covered tx.file_info x)
            (place (chunk_of d) d.byte_count tx.file_info).updated)
