-- ===== src/FileAgent/Meta.antt =====
-- `write_meta` and `read_meta` of programs/agents/agent_file.cpp: the `.meta` file beside a partial
-- file. The file is a list of bytes. The time that spaces out the writing is left out.
pub mod Arrays
pub mod Restart
use core_cleanup_test.Base.{
  ℕ, zero, suc, ◌+◌, ◌-◌, List, [], ◌∷◌, ◌++◌, ltb, ◌==◌, if◌then◌else◌, length, take, drop, map,
}
use core_cleanup_test.Base.Memory.{bytes2, bytes4, word_of}
use core_cleanup_test.Base.Result.{
  Result, ok, err, fault, ◌>>=◌, data_error_size_mismatch, data_error_crc,
}
use core_cleanup_test.Slip.{calc_crc}
use core_cleanup_test.Transfer.{FileProgress}
use core_cleanup_test.Transfer.Packets.{MetaLong, make_metalong_packet, extract_metalong}
use core_cleanup_test.FileAgent.Chunks.{merge_chunks_overlap}

-- PACKET_METALONG_SIZE
abbrev pub metalong_size : ℕ
metalong_size = 214

-- The bytes of a `file_progress`.
abbrev pub chunk_bytes : FileProgress → List ℕ
chunk_bytes c = bytes4 c.chunk_start ++ bytes4 c.chunk_end

-- What a transaction says about its file: the names are strings.
pub record TxMeta : Type 0 where
  pub node_name : List ℕ
  pub tx_id : ℕ
  pub agent_name : List ℕ
  pub file_name : List ℕ
  pub file_size : ℕ

-- What is read at `c_str()` of a string: the string, its closing zero, and what stands behind in memory.
abbrev pub c_str : (List ℕ → List ℕ) → List ℕ → List ℕ
c_str behind s = s ++ (0 ∷ behind s)

-- The string that an array holds. An array without a zero is read past its end.
unfoldable pub c_string : List ℕ → Result (List ℕ)
c_string [] = fault
c_string (c ∷ more) =
    let rest = c_string more in if c == 0 then ok [] else (rest >>= λ t. ok (c ∷ t))

-- One entry of the loop: the chunk and its checksum.
write_chunks : List FileProgress → Result (List ℕ)
write_chunks [] = ok []
write_chunks (c ∷ cs) = do
  crc ← calc_crc (chunk_bytes c) 8
  rest ← write_chunks cs
  ok (chunk_bytes c ++ (bytes2 crc ++ rest))

-- `write_meta(tx)`: the bytes of the file. `behind` gives what stands behind a string in memory.
unfoldable pub write_meta : ℕ → (List ℕ → List ℕ) → TxMeta → List FileProgress → Result (List ℕ)
unfolding write_chunks
write_meta time_salt behind tx info = do
  packet ← make_metalong_packet time_salt [] (record {
    node_name = c_str behind tx.node_name;
    tx_id = tx.tx_id;
    agent_name = c_str behind tx.agent_name;
    file_name = c_str behind tx.file_name;
    file_size = tx.file_size;
  })
  crc ← calc_crc packet metalong_size
  rest ← write_chunks info
  ok (packet ++ (bytes2 crc ++ rest))

-- A checksum that was read, against the one of the bytes.
check : ℕ → Result ℕ → Result ℕ
check crc sum = do s ← sum; if crc == s then ok s else err data_error_crc

-- The `do` loop. A rest of less than a chunk ends it; a chunk without its checksum is an error.
read_chunks : List ℕ → Result (List FileProgress)
unfolding check
read_chunks (a0 ∷ a1 ∷ a2 ∷ a3 ∷ b0 ∷ b1 ∷ b2 ∷ b3 ∷ c0 ∷ c1 ∷ rest) = do
  s ← check (word_of (c0 ∷ c1 ∷ [])) (calc_crc (a0 ∷ a1 ∷ a2 ∷ a3 ∷ b0 ∷ b1 ∷ b2 ∷ b3 ∷ []) 8)
  cs ← read_chunks rest
  ok (
      record {
        chunk_start = word_of (a0 ∷ a1 ∷ a2 ∷ a3 ∷ []);
        chunk_end = word_of (b0 ∷ b1 ∷ b2 ∷ b3 ∷ []);
      }
      ∷ cs)
read_chunks (a0 ∷ a1 ∷ a2 ∷ a3 ∷ b0 ∷ b1 ∷ b2 ∷ b3 ∷ c0 ∷ []) = err data_error_size_mismatch
read_chunks (a0 ∷ a1 ∷ a2 ∷ a3 ∷ b0 ∷ b1 ∷ b2 ∷ b3 ∷ []) = err data_error_size_mismatch
read_chunks _ = ok []

-- What `read_meta` sets in the transaction.
pub record Meta : Type 0 where
  pub meta : TxMeta
  pub file_info : List FileProgress
  pub total_bytes : ℕ

-- The names go from their arrays into strings. Of an array only the bytes that the packet has are set.
unfoldable pub named_meta : MetaLong → Result TxMeta
unfolding c_string
named_meta m = do
  node ← c_string m.node_name
  agent ← c_string m.agent_name
  file ← c_string m.file_name
  ok (record {
    node_name = node;
    tx_id = m.tx_id;
    agent_name = agent;
    file_name = file;
    file_size = m.file_size;
  })

-- `read_meta(tx)` on the bytes of the file; `old` is the list that the transaction has.
unfoldable pub read_meta : List FileProgress → List ℕ → Result Meta
unfolding check read_chunks named_meta
read_meta old file =
    if ltb (length file) (metalong_size + 2) then err data_error_size_mismatch else do
      let packet = take metalong_size file
      s ← check (word_of (take 2 (drop metalong_size file))) (calc_crc packet metalong_size)
      arrays ← extract_metalong packet
      meta ← named_meta arrays
      cs ← read_chunks (drop (metalong_size + 2) file)
      let merged = merge_chunks_overlap (old ++ cs)
      ok (record { meta = meta; file_info = merged.0; total_bytes = merged.1 })
