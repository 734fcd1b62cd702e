-- ===== src/FileAgent/Receive/Writing.antt =====
-- What the PACKET_DATA case of `recv_loop` leaves in the partial file of a transaction.
use core_cleanup_test.Base.{
  ℕ, ◌+◌, ◌-◌, ◌^◌, ◌<◌, ◌≤◌, ◌≡◌, refl, sym, ap, ◌∙◌, List, [], Bool, true, false, ◌&&◌, ◌||◌, ltb,
  leb, if◌then◌else◌, add32, arith, All, ◌⊎◌, inl, inr, none, some, get_elem?,
}
use core_cleanup_test.Transfer.{TxProgress}
use core_cleanup_test.FileAgent.Chunks.Coverage.{
  in_chunk, covered, Ordered, Ordered-All, sizes, sizes-eq-count,
}
use core_cleanup_test.Base.Counting.{count_below-full, count_below-le}
use core_cleanup_test.FileAgent.Chunks.Merging.{ends_below, covered-beyond}
use core_cleanup_test.FileAgent.Receive.{
  Placed, place, write_chunk, DataChunk, chunk_of, receive_data,
}
use core_cleanup_test.FileAgent.Receive.Placing.{
  Carries, IsPlaced, place-IsPlaced, IsStored, place-IsStored,
}

-- A transaction that receives a file of `size` bytes, whose contents are `source`: the chunks are in
-- order and inside the file, the count is that of their bytes, and the partial file holds them.
pub record IsReceiving (source : ℕ → ℕ) (size : ℕ) (tx : TxProgress) : Type 0 where
  pub ordered : Ordered 0 tx.file_info
  pub inside : All (λ c. c.chunk_end < size) tx.file_info
  pub counted : tx.total_bytes ≡ sizes tx.file_info
  pub stored : (x : ℕ) → covered tx.file_info x ≡ true → tx.partial x ≡ some (source x)
  pub stream : (tx.fp ≡ true) ⊎ (tx.file_info ≡ [])

-- A packet that carries bytes of the file at their offset, none of which has been received.
pub record IsNew (source : ℕ → ℕ) (size : ℕ) (tx : TxProgress) (d : DataChunk) : Type 0 where
  pub some_bytes : 0 < d.byte_count
  pub small : d.byte_count < 2 ^ 16
  pub fits : d.chunk_start + d.byte_count ≤ size
  pub bytes : (k : ℕ) → k < d.byte_count → get_elem? d.chunk k ≡ some (source (d.chunk_start + k))
  pub unseen :
      (x : ℕ)
      → d.chunk_start ≤ x
      → x < d.chunk_start + d.byte_count
      → covered tx.file_info x ≡ false

chunk_of-Carries :
    (d : DataChunk)
    → 0 < d.byte_count
    → d.byte_count < 2 ^ 16
    → d.chunk_start + d.byte_count < 2 ^ 32
    → Carries (chunk_of d) d.byte_count
      × ((chunk_of d).chunk_start ≡ d.chunk_start)
      × ((chunk_of d).chunk_end + 1 ≡ d.chunk_start + d.byte_count)
unfolding chunk_of
chunk_of-Carries d p s f = (
  record {
    chunk = record { ordered = omega arith; small = omega arith };
    counted = omega arith;
    small = s;
  },
  refl,
  omega arith,
)

-- A write changes the stream and the file alone.
pub write_chunk_frame :
    (ok : Bool) (chunk : List ℕ) (p : Placed) (tx : TxProgress)
    → ((write_chunk ok chunk p tx).file_info ≡ tx.file_info)
      × ((write_chunk ok chunk p tx).total_bytes ≡ tx.total_bytes)
unfolding write_chunk
write_chunk_frame ok chunk p tx = ground arith

write_chunk_stream :
    (chunk : List ℕ) (p : Placed) (tx : TxProgress) → (write_chunk true chunk p tx).fp ≡ true
unfolding write_chunk
write_chunk_stream chunk p tx = ground arith

-- Behind the write a byte is the packet's or, if the stream was open, the one that it was.
pub write_chunk_partial :
    (chunk : List ℕ) (p : Placed) (tx : TxProgress) (x : ℕ)
    → (write_chunk true chunk p tx).partial x ≡ (
        if leb p.chunk.chunk_start x && ltb x (p.chunk.chunk_start + p.byte_count)
        then get_elem? chunk (x - p.chunk.chunk_start)
        else if tx.fp
        then tx.partial x
        else none)
unfolding write_chunk
write_chunk_partial chunk p tx x = ground arith

-- One chunk that has been placed is written.
write_chunk-IsReceiving :
    (source : ℕ → ℕ) (size : ℕ) (tx : TxProgress) (d : DataChunk) (p : Placed)
    → IsReceiving source size tx
    → IsNew source size tx d
    → size < 2 ^ 32
    → IsStored 0 (chunk_of d) d.byte_count p
    → IsPlaced (chunk_of d) d.byte_count tx.file_info p
    → IsReceiving source size (
        write_chunk true d.chunk p
          (record tx { file_info = p.info; total_bytes = add32 tx.total_bytes p.byte_count }))
write_chunk-IsReceiving source size tx d p r h w st pl =
    let (car, a, b) = chunk_of-Carries d h.some_bytes h.small (omega (arith, h.fits)) in
    let first : p.chunk.chunk_start ≡ d.chunk_start = ap (λ c. c.chunk_start) st.whole ∙ a in
    let last : p.chunk.chunk_end + 1 ≡ d.chunk_start + d.byte_count =
      ap (λ c. c.chunk_end + 1) st.whole ∙ b in
    let tx' = record tx { file_info = p.info; total_bytes = add32 tx.total_bytes p.byte_count } in
    let (info, total) = write_chunk_frame true d.chunk p tx' in
    let ends =
      ends_below 0 size p.info st.ordered (λ x q.
        pl.same x ∙ beyond x q first last (covered-beyond size x tx.file_info r.inside q)) in
    record {
      ordered = rw info st.ordered;
      inside = rw info ends;
      counted =
          rw (info, total)
            (ground (
              arith,
              pl.counted,
              st.updated,
              r.counted,
              sizes-eq-count 0 size p.info st.ordered ends,
              count_below-le size (covered p.info),
            ));
      stored = λ x. rw info (λ e.
          write_chunk_partial d.chunk p tx' x
          ∙ ground (
            arith,
            e,
            pl.same x,
            st.updated,
            st.counted,
            first,
            last,
            h.bytes (x - d.chunk_start),
            r.stored x,
            no_stream x r.stream,
          ));
      stream = inl (write_chunk_stream d.chunk p tx');
    }
  where
    beyond :
        (x : ℕ)
        → size ≤ x
        → p.chunk.chunk_start ≡ d.chunk_start
        → p.chunk.chunk_end + 1 ≡ d.chunk_start + d.byte_count
        → covered tx.file_info x ≡ false
        → (covered tx.file_info x || (p.updated && in_chunk p.chunk x)) ≡ false
    beyond x q first last e = let f = h.fits in ground arith

    no_stream :
        (x : ℕ)
        → (tx.fp ≡ true) ⊎ (tx.file_info ≡ [])
        → (tx.fp ≡ true) ⊎ (covered tx.file_info x ≡ false)
    no_stream x (inl e) = inl e
    no_stream x (inr e) = inr (ap (λ cs. covered cs x) e)

pub receive_data_updated :
    (ok : Bool) (d : DataChunk) (tx : TxProgress)
    → (place (chunk_of d) d.byte_count tx.file_info).updated ≡ true
    → receive_data ok d tx
      ≡ write_chunk ok d.chunk (place (chunk_of d) d.byte_count tx.file_info) (record tx {
        file_info = (place (chunk_of d) d.byte_count tx.file_info).info;
        total_bytes =
            add32 tx.total_bytes (place (chunk_of d) d.byte_count tx.file_info).byte_count;
      })
unfolding receive_data
receive_data_updated ok d tx u = rw u

-- For a file below 2^32 bytes and a stream that can be opened, a DATA packet with bytes of the
-- file at their offset, at least one, fewer than 2^16 and none received before, keeps the
-- invariant of the transaction (chunks in order without a shared byte, inside the file, counted by
-- `total_bytes`, the partial file holding every byte that they cover, the stream open or the list
-- empty), and just the packet's bytes become covered.
pub receive_data-IsReceiving :
    (source : ℕ → ℕ) (size : ℕ) (tx : TxProgress) (d : DataChunk)
    → IsReceiving source size tx
    → IsNew source size tx d
    → size < 2 ^ 32
    → IsReceiving source size (receive_data true d tx)
      × ((x : ℕ)
          → covered (receive_data true d tx).file_info x
            ≡ (covered tx.file_info x || in_chunk (chunk_of d) x))
receive_data-IsReceiving source size tx d r h w =
    let (car, a, b) = chunk_of-Carries d h.some_bytes h.small (omega (arith, h.fits)) in
    let st =
      place-IsStored 0 (chunk_of d) d.byte_count tx.file_info car r.ordered (omega arith)
        (λ x e. h.unseen x (ground arith) (ground arith)) in
    let pl =
      place-IsPlaced (chunk_of d) d.byte_count tx.file_info car
        (Ordered-All 0 tx.file_info r.ordered) in
    let p = place (chunk_of d) d.byte_count tx.file_info in
    let tx' = record tx { file_info = p.info; total_bytes = add32 tx.total_bytes p.byte_count } in
    rw (receive_data_updated true d tx st.updated) (
      write_chunk-IsReceiving source size tx d p r h w st pl,
      λ x.
          ap (λ cs. covered cs x) (write_chunk_frame true d.chunk p tx').0
          ∙ pl.same x
          ∙ seen x st.updated st.whole,
    )
  where
    seen :
        (x : ℕ)
        → (place (chunk_of d) d.byte_count tx.file_info).updated ≡ true
        → (place (chunk_of d) d.byte_count tx.file_info).chunk ≡ chunk_of d
        → (covered tx.file_info x
            || ((place (chunk_of d) d.byte_count tx.file_info).updated
                && in_chunk (place (chunk_of d) d.byte_count tx.file_info).chunk x))
          ≡ (covered tx.file_info x || in_chunk (chunk_of d) x)
    seen x u e = rw (u, e) refl

-- Where the invariant holds and the count of a transaction has reached the size of the file, the
-- partial file holds the byte of the file at every offset below that size.
pub IsReceiving-whole :
    (source : ℕ → ℕ) (tx : TxProgress)
    → IsReceiving source tx.file_size tx
    → tx.total_bytes ≡ tx.file_size
    → (x : ℕ) → x < tx.file_size
    → tx.partial x ≡ some (source x)
IsReceiving-whole source tx r e x h = r.stored x (
    count_below-full tx.file_size (covered tx.file_info) x
      (sym (sizes-eq-count 0 tx.file_size tx.file_info r.ordered r.inside) ∙ sym r.counted ∙ e) h)
