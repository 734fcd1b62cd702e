-- ===== src/Transfer/RoundTrip.antt =====
-- Round trips of the packets of libraries/support/transferlib.cpp.
pub mod Metadata
pub mod Queues
use Prim.Native.Nat.{ℕ, zero, suc, ◌+◌, ◌-◌, ◌≤◌}
use native.Mathlib.Numerals.{unary_clauses}
use core_cleanup_test.Base.{
  take_all, ◌≡◌, refl, ap, sym, ◌∙◌, arith, inl, inr, List, [], ◌∷◌, ltb, ◌||◌, if◌then◌else◌,
  length, take, length-take, length-replicate, replicate, overwrite, overwrite_middle, ◌++◌,
}
use core_cleanup_test.Base.Memory.{
  resize, length-resize, slice, bytes2, bytes4, word_of, word_of-bytes1, word_of-bytes2,
  word_of-bytes4, writes, length-writes, Stored, here, there, slice-writes, slice-overwrite_apart,
}
use core_cleanup_test.Base.Result.{ok, fault, ◌>>=◌}
use core_cleanup_test.Transfer.Packets.{
  make_ids, extract_complete, make_reqdata_packet, extract_reqdata, make_data_packet, extract_data,
  salt_type, Complete, ReqData, Data, MetaShort, MetaLong, QueueIds, make_metashort_packet,
  extract_metashort, make_metalong_packet, extract_metalong, packet_reqdata, packet_data,
  packet_metadata, make_queue_ids, extract_queue, max_name, max_filename, queue_ids,
}

-- A word that one of the writes stored.
written_word :
    (ws : List (ℕ × List ℕ)) (buf : List ℕ) (i : ℕ) (xs : List ℕ) (n : ℕ) (w : ℕ)
    → Stored i xs ws
    → n ≡ length xs
    → i + length xs ≤ length buf
    → word_of xs ≡ w
    → word_of (slice (writes ws buf) i n) ≡ w
written_word ws buf i xs n w s e h v = rw (slice-writes ws buf i xs n s e h) v

module _ (salt : ℕ) (packet : List ℕ) where
  -- A packet of any type with a node and a transaction, as COMPLETE and CANCEL are, is read as it
  -- was made, whatever the salt and the old bytes of the packet.
  pub extract_complete-make_ids :
      (type : ℕ) (c : Complete) → extract_complete (make_ids salt type packet c) ≡ ok c
  unfolding extract_complete make_ids
  extract_complete-make_ids type c =
      let ws : List (ℕ × List ℕ) =
        (0, salt_type salt type ∷ []) ∷ (1, c.node_id ∷ []) ∷ (2, c.tx_id ∷ []) ∷ [] in
      let buf = resize 3 packet in
      let len = length-resize 3 packet in
      let node =
        written_word ws buf 1 (c.node_id ∷ []) 1 c.node_id (there (here (inl (omega arith), tt)))
          refl (omega arith) (word_of-bytes1 c.node_id) in
      let tx =
        written_word ws buf 2 (c.tx_id ∷ []) 1 c.tx_id (there (there (here tt))) refl (omega arith)
          (word_of-bytes1 c.tx_id) in
      ground (arith, len, length-writes ws buf, node, tx)

  -- A REQDATA packet is read as it was made, whatever the salt and the old bytes of the packet.
  pub extract_reqdata-make_reqdata :
      (r : ReqData) → extract_reqdata (make_reqdata_packet salt packet r) ≡ ok r
  unfolding extract_reqdata make_reqdata_packet
  extract_reqdata-make_reqdata r =
      let ws : List (ℕ × List ℕ) =
        (0, salt_type salt packet_reqdata ∷ [])
        ∷ (1, r.node_id ∷ [])
        ∷ (2, r.tx_id ∷ [])
        ∷ (3, bytes4 r.hole_start)
        ∷ (7, bytes4 r.hole_end)
        ∷ [] in
      let buf = resize 11 packet in
      let len_buf = length-resize 11 packet in
      let node =
        written_word ws buf 1 (r.node_id ∷ []) (1) (r.node_id)
          (there (here (inl (omega arith), (inl (omega arith), (inl (omega arith), tt)))))
          (omega arith) (omega arith) (word_of-bytes1 r.node_id) in
      let tx =
        written_word ws buf 2 (r.tx_id ∷ []) (1) (r.tx_id)
          (there (there (here (inl (omega arith), (inl (omega arith), tt))))) (omega arith)
          (omega arith) (word_of-bytes1 r.tx_id) in
      let start =
        written_word ws buf 3 (bytes4 r.hole_start) (4) (r.hole_start)
          (there (there (there (here (inl (omega arith), tt))))) (omega arith) (omega arith)
          (word_of-bytes4 r.hole_start) in
      let end =
        written_word ws buf 7 (bytes4 r.hole_end) (4) (r.hole_end)
          (there (there (there (there (here tt))))) (omega arith) (omega arith)
          (word_of-bytes4 r.hole_end) in
      ground (arith, length-resize 11 packet, length-writes ws buf, node, tx, start, end)

  -- A DATA packet whose chunk has `byte_count` bytes is read as it was made, whatever the salt and
  -- the old bytes of the packet.
  pub extract_data-make_data :
      (d : Data)
      → length d.chunk ≡ d.byte_count
      → (make_data_packet salt packet d >>= extract_data) ≡ ok d
  unfolding extract_data make_data_packet
  extract_data-make_data d e =
      let ws : List (ℕ × List ℕ) =
        (0, salt_type salt packet_data ∷ [])
        ∷ (1, d.node_id ∷ [])
        ∷ (2, d.tx_id ∷ [])
        ∷ (3, bytes2 d.byte_count)
        ∷ (5, bytes4 d.chunk_start)
        ∷ (9, take d.byte_count d.chunk)
        ∷ [] in
      let buf = resize (9 + d.byte_count) packet in
      let len_buf = length-resize (9 + d.byte_count) packet in
      let len0 = length-take d.byte_count d.chunk in
      let node =
        written_word ws buf 1 (d.node_id ∷ []) (1) (d.node_id)
          (there (
            here (
              inl (omega arith),
              (inl (omega arith), (inl (omega arith), (inl (omega arith), tt))),
            )))
          (omega
            (arith, length-resize (9 + d.byte_count) packet, length-take d.byte_count d.chunk, e))
          (omega
            (arith, length-resize (9 + d.byte_count) packet, length-take d.byte_count d.chunk, e))
          (word_of-bytes1 d.node_id) in
      let tx =
        written_word ws buf 2 (d.tx_id ∷ []) (1) (d.tx_id)
          (there (there (here (inl (omega arith), (inl (omega arith), (inl (omega arith), tt))))))
          (omega
            (arith, length-resize (9 + d.byte_count) packet, length-take d.byte_count d.chunk, e))
          (omega
            (arith, length-resize (9 + d.byte_count) packet, length-take d.byte_count d.chunk, e))
          (word_of-bytes1 d.tx_id) in
      let count =
        written_word ws buf 3 (bytes2 d.byte_count) (2) (d.byte_count)
          (there (there (there (here (inl (omega arith), (inl (omega arith), tt))))))
          (omega
            (arith, length-resize (9 + d.byte_count) packet, length-take d.byte_count d.chunk, e))
          (omega
            (arith, length-resize (9 + d.byte_count) packet, length-take d.byte_count d.chunk, e))
          (word_of-bytes2 d.byte_count) in
      let start =
        written_word ws buf 5 (bytes4 d.chunk_start) (4) (d.chunk_start)
          (there (there (there (there (here (inl (omega arith), tt))))))
          (omega
            (arith, length-resize (9 + d.byte_count) packet, length-take d.byte_count d.chunk, e))
          (omega
            (arith, length-resize (9 + d.byte_count) packet, length-take d.byte_count d.chunk, e))
          (word_of-bytes4 d.chunk_start) in
      let chunk =
        slice-writes ws buf 9 (take d.byte_count d.chunk) (d.byte_count)
          (there (there (there (there (there (here tt))))))
          (omega
            (arith, length-resize (9 + d.byte_count) packet, length-take d.byte_count d.chunk, e))
          (omega arith) in
      ground (
        arith,
        length-resize (9 + d.byte_count) packet,
        length-take d.byte_count d.chunk,
        e,
        length-writes ws buf,
        node,
        tx,
        count,
        start,
        chunk,
        take_all d.byte_count d.chunk (omega arith),
      )
