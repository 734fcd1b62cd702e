-- ===== src/Transfer/RoundTrip/Metadata.antt =====
-- Round trips of the METADATA packets of libraries/support/transferlib.cpp.
use Prim.Native.Nat.{ℕ}
use core_cleanup_test.Base.{
  take_all, ◌≡◌, ap, sym, ◌∙◌, arith, inl, inr, List, [], ◌∷◌, length, take, length-take,
}
use core_cleanup_test.Base.Memory.{
  resize, length-resize, bytes4, word_of-bytes1, word_of-bytes4, writes, length-writes, here, there,
  slice-writes,
}
use core_cleanup_test.Base.Result.{ok, ◌>>=◌}
use core_cleanup_test.Transfer.Packets.{
  salt_type, MetaShort, MetaLong, make_metashort_packet, extract_metashort, make_metalong_packet,
  extract_metalong, packet_metadata, max_name, max_filename,
}
use core_cleanup_test.Transfer.RoundTrip.{written_word}

module _ (salt : ℕ) (packet : List ℕ) where
  -- A short METADATA packet with names of full width is read as it was made, whatever the salt and
  -- the old bytes of the packet.
  pub extract_metashort-make_metashort :
      (m : MetaShort)
      → length m.agent_name ≡ max_name
      → length m.file_name ≡ max_filename
      → (make_metashort_packet salt packet m >>= extract_metashort) ≡ ok m
  unfolding extract_metashort make_metashort_packet
  extract_metashort-make_metashort m a f =
      let ws : List (ℕ × List ℕ) =
        (0, salt_type salt packet_metadata ∷ [])
        ∷ (1, m.node_id ∷ [])
        ∷ (2, m.tx_id ∷ [])
        ∷ (43, take max_filename m.file_name)
        ∷ (171, bytes4 m.file_size)
        ∷ (3, take max_name m.agent_name)
        ∷ [] in
      let buf = resize 175 packet in
      let len_buf = length-resize 175 packet in
      let len0 = length-take max_filename m.file_name in
      let len1 = length-take max_name m.agent_name in
      let node =
        written_word ws buf 1 (m.node_id ∷ []) (1) (m.node_id)
          (there (
            here (
              inl (omega arith),
              (inl (omega arith), (inl (omega arith), (inl (omega arith), tt))),
            )))
          (omega arith) (omega arith) (word_of-bytes1 m.node_id) in
      let tx =
        written_word ws buf 2 (m.tx_id ∷ []) (1) (m.tx_id)
          (there (there (here (inl (omega arith), (inl (omega arith), (inl (omega arith), tt))))))
          (omega arith) (omega arith) (word_of-bytes1 m.tx_id) in
      let file =
        slice-writes ws buf 43 (take max_filename m.file_name) (128)
          (there (there (there (here (inl (omega arith), (inr (omega arith), tt)))))) (omega arith)
          (omega arith) in
      let size =
        written_word ws buf 171 (bytes4 m.file_size) (4) (m.file_size)
          (there (there (there (there (here (inr (omega arith), tt)))))) (omega arith) (omega arith)
          (word_of-bytes4 m.file_size) in
      let agent =
        slice-writes ws buf 3 (take max_name m.agent_name) (40)
          (there (there (there (there (there (here tt)))))) (omega arith) (omega arith) in
      ground (
        arith,
        length-resize 175 packet,
        length-take max_filename m.file_name,
        length-take max_name m.agent_name,
        a,
        f,
        length-writes ws buf,
        node,
        tx,
        file,
        size,
        agent,
        take_all max_name m.agent_name (omega arith),
        take_all max_filename m.file_name (omega arith),
      )

  -- A long METADATA packet with names of full width is read as it was made, whatever the salt and
  -- the old bytes of the packet.
  pub extract_metalong-make_metalong :
      (m : MetaLong)
      → length m.node_name ≡ max_name
      → length m.agent_name ≡ max_name
      → length m.file_name ≡ max_filename
      → (make_metalong_packet salt packet m >>= extract_metalong) ≡ ok m
  unfolding extract_metalong make_metalong_packet
  extract_metalong-make_metalong m k a f =
      let ws : List (ℕ × List ℕ) =
        (0, salt_type salt packet_metadata ∷ [])
        ∷ (41, m.tx_id ∷ [])
        ∷ (82, take max_filename m.file_name)
        ∷ (210, bytes4 m.file_size)
        ∷ (1, take max_name m.node_name)
        ∷ (42, take max_name m.agent_name)
        ∷ [] in
      let buf = resize 214 packet in
      let len_buf = length-resize 214 packet in
      let len0 = length-take max_filename m.file_name in
      let len1 = length-take max_name m.agent_name in
      let len2 = length-take max_name m.node_name in
      let tx =
        written_word ws buf 41 (m.tx_id ∷ []) (1) (m.tx_id)
          (there (
            here (
              inl (omega arith),
              (inl (omega arith), (inr (omega arith), (inl (omega arith), tt))),
            )))
          (omega arith) (omega arith) (word_of-bytes1 m.tx_id) in
      let file =
        slice-writes ws buf 82 (take max_filename m.file_name) (128)
          (there (there (here (inl (omega arith), (inr (omega arith), (inr (omega arith), tt))))))
          (omega arith) (omega arith) in
      let size =
        written_word ws buf 210 (bytes4 m.file_size) (4) (m.file_size)
          (there (there (there (here (inr (omega arith), (inr (omega arith), tt)))))) (omega arith)
          (omega arith) (word_of-bytes4 m.file_size) in
      let node =
        slice-writes ws buf 1 (take max_name m.node_name) (40)
          (there (there (there (there (here (inl (omega arith), tt)))))) (omega arith)
          (omega arith) in
      let agent =
        slice-writes ws buf 42 (take max_name m.agent_name) (40)
          (there (there (there (there (there (here tt)))))) (omega arith) (omega arith) in
      ground (
        arith,
        length-resize 214 packet,
        length-take max_filename m.file_name,
        length-take max_name m.agent_name,
        length-take max_name m.node_name,
        a,
        f,
        k,
        length-writes ws buf,
        tx,
        file,
        size,
        node,
        agent,
        take_all max_name m.node_name (omega arith),
        take_all max_name m.agent_name (omega arith),
        take_all max_filename m.file_name (omega arith),
      )

  -- The packet that is made, with its length.
  pub metalong_made :
      (m : MetaLong)
      → length m.node_name ≡ max_name
      → length m.agent_name ≡ max_name
      → length m.file_name ≡ max_filename
      → (p : List ℕ) × (make_metalong_packet salt packet m ≡ ok p)
        × (length p ≡ 214)
        × (extract_metalong p ≡ ok m)
  unfolding make_metalong_packet
  metalong_made m k a f =
      let ws : List (ℕ × List ℕ) =
        (0, salt_type salt packet_metadata ∷ [])
        ∷ (41, m.tx_id ∷ [])
        ∷ (82, take max_filename m.file_name)
        ∷ (210, bytes4 m.file_size)
        ∷ (1, take max_name m.node_name)
        ∷ (42, take max_name m.agent_name)
        ∷ [] in
      let p = writes ws (resize 214 packet) in
      let made : make_metalong_packet salt packet m ≡ ok p = ground (arith, k, a, f) in
      (
        p,
        made,
        omega (arith, length-writes ws (resize 214 packet), length-resize 214 packet),
        sym (ap (λ r. r >>= extract_metalong) made) ∙ extract_metalong-make_metalong m k a f,
      )
