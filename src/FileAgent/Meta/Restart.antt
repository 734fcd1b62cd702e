-- ===== src/FileAgent/Meta/Restart.antt =====
-- Lemmas on `write_meta` and `read_meta` of programs/agents/agent_file.cpp.
use mathlib.Core.List.{append_assoc}
use core_cleanup_test.Base.{
  ℕ, ◌+◌, ◌%◌, ◌/◌, ◌≤◌, ◌≡◌, refl, sym, ap, ◌∙◌, arith, List, [], ◌∷◌, ◌++◌, length, take, drop,
  take_all, take-append, drop-append, length-append,
}
use core_cleanup_test.Base.Memory.{bytes2, word_of-bytes2, word_of-bytes4}
use core_cleanup_test.Base.Result.{ok, ◌>>=◌}
use core_cleanup_test.Slip.{calc_crc}
use core_cleanup_test.Slip.Checksum.{crc_of}
use core_cleanup_test.Transfer.{FileProgress}
use core_cleanup_test.Transfer.Packets.{
  MetaLong, max_name, max_filename, make_metalong_packet, extract_metalong,
}
use core_cleanup_test.FileAgent.Chunks.{merge_chunks_overlap}
use core_cleanup_test.FileAgent.Meta.{
  metalong_size, TxMeta, c_str, named_meta, chunk_bytes, write_chunks, write_meta, check,
  read_chunks, read_meta,
}
use core_cleanup_test.FileAgent.Meta.Arrays.{
  ltb-le, arrays_of, cut, metalong_cut, wide, IsNamed, named_meta-cut,
}

calc_crc-whole : (xs : List ℕ) (n : ℕ) → n ≡ length xs → calc_crc xs n ≡ ok (crc_of xs)
unfolding calc_crc
calc_crc-whole xs n e = rw (take_all n xs (omega (arith, e))) (ground (arith, e))

check-same : (s w : ℕ) → w ≡ s → check w (ok s) ≡ ok s
unfolding check
check-same s w e = ground (arith, e)

-- The entries of a list of chunks, each with its checksum.
entries : List FileProgress → List ℕ
entries [] = []
entries (c ∷ cs) = chunk_bytes c ++ (bytes2 (crc_of (chunk_bytes c)) ++ entries cs)

write_chunks-entries : (cs : List FileProgress) → write_chunks cs ≡ ok (entries cs)
unfolding write_chunks entries
write_chunks-entries [] = refl
write_chunks-entries (c ∷ cs) =
    rw (calc_crc-whole (chunk_bytes c) 8 refl, write_chunks-entries cs) refl

read_chunks-entries : (cs : List FileProgress) → read_chunks (entries cs) ≡ ok cs
unfolding read_chunks entries
read_chunks-entries [] = refl
read_chunks-entries (c ∷ cs) =
    rw
      (
        calc_crc-whole (chunk_bytes c) 8 refl,
        word_of-bytes2 (crc_of (chunk_bytes c)),
        word_of-bytes4 c.chunk_start,
        word_of-bytes4 c.chunk_end,
        check-same (crc_of (chunk_bytes c)) (crc_of (chunk_bytes c)) refl,
        read_chunks-entries cs,
      )
      refl

-- The file that a packet of the right length makes.
abbrev meta_file : List ℕ → List FileProgress → List ℕ
meta_file p cs = p ++ (bytes2 (crc_of p) ++ entries cs)

write_meta-file :
    (salt : ℕ) (behind : List ℕ → List ℕ) (tx : TxMeta) (cs : List FileProgress) (p : List ℕ)
    → make_metalong_packet salt [] (arrays_of (c_str behind) tx) ≡ ok p
    → length p ≡ metalong_size
    → write_meta salt behind tx cs ≡ ok (meta_file p cs)
unfolding write_meta
write_meta-file salt behind tx cs p e l =
    rw (e, calc_crc-whole p metalong_size (sym l), write_chunks-entries cs) refl

-- The parts of such a file.
drop_at : (p more : List ℕ) (n : ℕ) → length p ≡ n → drop n (p ++ more) ≡ more
drop_at p more n l = rw (sym l) (drop-append p more)

take_at : (p more : List ℕ) (n : ℕ) → length p ≡ n → take n (p ++ more) ≡ p
take_at p more n l = rw (sym l) (take-append p more)

drop_behind :
    (p more : List ℕ) (x y : ℕ) (n : ℕ) → length p ≡ n → drop (n + 2) (p ++ (x ∷ y ∷ more)) ≡ more
drop_behind p more x y n l =
    ap (λ q. drop (n + 2) q) (sym (append_assoc p (x ∷ y ∷ []) more))
    ∙ drop_at (p ++ (x ∷ y ∷ [])) more (n + 2) (omega (arith, l, length-append p (x ∷ y ∷ [])))

read_meta-file :
    (old cs : List FileProgress) (arrays : MetaLong) (meta : TxMeta) (p : List ℕ)
    → length p ≡ metalong_size
    → extract_metalong p ≡ ok arrays
    → named_meta arrays ≡ ok meta
    → read_meta old (meta_file p cs)
      ≡ ok (record {
        meta = meta;
        file_info = (merge_chunks_overlap (old ++ cs)).0;
        total_bytes = (merge_chunks_overlap (old ++ cs)).1;
      })
unfolding read_meta
read_meta-file old cs arrays meta p l e named =
    let more = bytes2 (crc_of p) ++ entries cs in
    let long =
      ltb-le (length (p ++ more)) (metalong_size + 2) (omega (arith, length-append p more, l)) in
    rw
      (
        long,
        take_at p more metalong_size l,
        drop_at p more metalong_size l,
        calc_crc-whole p metalong_size (sym l),
        word_of-bytes2 (crc_of p),
        check-same (crc_of p) (crc_of p) refl,
        e,
        named,
        drop_behind p (entries cs) (crc_of p % 256) (crc_of p / 256) metalong_size l,
        read_chunks-entries cs,
      )
      refl

-- For names without a zero byte that leave room in their arrays for a closing zero, with 128 bytes
-- or more behind each in memory, `read_meta` of what `write_meta` wrote finds the names, the id
-- and the size again, whatever these bytes are, with the chunks behind those that the transaction
-- has, merged, and with their count.
pub read_meta-write_meta :
    (salt : ℕ) (behind : List ℕ → List ℕ) (old cs : List FileProgress) (tx : TxMeta)
    → IsNamed max_name tx.node_name
    → IsNamed max_name tx.agent_name
    → IsNamed max_filename tx.file_name
    → ((s : List ℕ) → max_filename ≤ length (behind s))
    → (write_meta salt behind tx cs >>= read_meta old)
      ≡ ok (record {
        meta = tx;
        file_info = (merge_chunks_overlap (old ++ cs)).0;
        total_bytes = (merge_chunks_overlap (old ++ cs)).1;
      })
read_meta-write_meta salt behind old cs tx k a f room =
    let arrays = arrays_of (c_str behind) tx in
    let (p, made, len, read) =
      metalong_cut salt arrays
        (wide behind tx.node_name max_name (omega (arith, room tx.node_name)))
        (wide behind tx.agent_name max_name (omega (arith, room tx.agent_name)))
        (wide behind tx.file_name max_filename (room tx.file_name)) in
    ap (λ r. r >>= read_meta old) (write_meta-file salt behind tx cs p made len)
    ∙ read_meta-file old cs (cut arrays) tx p len read (named_meta-cut behind tx k a f)
