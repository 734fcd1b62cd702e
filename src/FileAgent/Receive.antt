-- ===== src/FileAgent/Receive.antt =====
-- The PACKET_DATA case of `recv_loop` in programs/agents/agent_file.cpp: where a chunk goes in the
-- list of a transaction, and what is written to the partial file.
pub mod Placing
pub mod Writing
pub mod Faults
use core_cleanup_test.Base.{
  ℕ, zero, suc, ◌+◌, ◌-◌, ◌%◌, ◌^◌, List, [], ◌∷◌, Bool, true, false, ◌&&◌, ltb, leb, if◌then◌else◌,
  Option, none, some, get_elem?, add32, sub32,
}
use core_cleanup_test.Transfer.{FileProgress, TxProgress}

-- What the loop over `file_info` leaves: the list, the local variables `tp`, `data.byte_count` and
-- `updated`.
pub record Placed : Type 0 where
  pub info : List FileProgress
  pub chunk : FileProgress
  pub byte_count : ℕ
  pub updated : Bool

-- The list from `j` on. At its end the chunk is appended, as it is to an empty list.
-- `data.byte_count` is a `uint16_t`.
unfoldable pub place : FileProgress → ℕ → List FileProgress → Placed
place tp count [] = record { info = tp ∷ []; chunk = tp; byte_count = count; updated = true }
place tp count (c ∷ cs) =
    let rest = place tp count cs in
    -- duplicate
    if leb c.chunk_start tp.chunk_start && leb tp.chunk_end c.chunk_end
    then record { info = c ∷ cs; chunk = tp; byte_count = count; updated = false }
    else if ltb tp.chunk_start c.chunk_start
    then
        -- ends before this entry: insert; otherwise extend the near end
        (if ltb (add32 tp.chunk_end 1) c.chunk_start
        then record { info = tp ∷ c ∷ cs; chunk = tp; byte_count = count; updated = true }
        else record {
          info = record c { chunk_start = tp.chunk_start } ∷ cs;
          chunk = record tp { chunk_end = sub32 c.chunk_start 1 };
          byte_count = add32 (sub32 (sub32 c.chunk_start 1) tp.chunk_start) 1 % 2 ^ 16;
          updated = true;
        })
    else if leb tp.chunk_start (add32 c.chunk_end 1) && ltb c.chunk_end tp.chunk_end
    -- extend the far end
    then record {
      info = record c { chunk_end = tp.chunk_end } ∷ cs;
      chunk = record tp { chunk_start = add32 c.chunk_end 1 };
      byte_count = sub32 tp.chunk_end c.chunk_end % 2 ^ 16;
      updated = true;
    }
    else record rest { info = c ∷ rest.info }

-- `fseek(fp, start, SEEK_SET); fwrite(chunk, count, 1, fp)` on the bytes of a file.
pub write_at : ℕ → ℕ → List ℕ → (ℕ → Option ℕ) → ℕ → Option ℕ
write_at start count chunk old x =
    if leb start x && ltb x (start + count) then get_elem? chunk (x - start) else old x

-- `fopen(partial_filepath, "w")`, if the stream is not open: the file is emptied. `fopen_ok` is the
-- answer of the file system. Without a stream nothing is written.
unfoldable pub write_chunk : Bool → List ℕ → Placed → TxProgress → TxProgress
unfolding write_at
write_chunk fopen_ok chunk p tx =
    if tx.fp
    then record tx { partial = write_at p.chunk.chunk_start p.byte_count chunk tx.partial }
    else if fopen_ok
    then record tx {
      fp = true;
      partial = write_at p.chunk.chunk_start p.byte_count chunk (λ x. none);
    }
    else tx

-- The fields of `packet_struct_data` that the case uses once the transaction is known.
pub record DataChunk : Type 0 where
  pub byte_count : ℕ
  pub chunk_start : ℕ
  pub chunk : List ℕ

-- `tp`, as the packet gives it.
unfoldable pub chunk_of : DataChunk → FileProgress
chunk_of d = record {
  chunk_start = d.chunk_start;
  chunk_end = sub32 (add32 d.chunk_start d.byte_count) 1;
}

-- The update of the transaction that the packet belongs to.
unfoldable pub receive_data : Bool → DataChunk → TxProgress → TxProgress
unfolding chunk_of
receive_data fopen_ok d tx =
    let p = place (chunk_of d) d.byte_count tx.file_info in
    if p.updated
    then write_chunk fopen_ok d.chunk p
        (record tx { file_info = p.info; total_bytes = add32 tx.total_bytes p.byte_count })
    else record tx { file_info = p.info }
