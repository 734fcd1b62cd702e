-- ===== src/Transfer/RoundTrip/Queues.antt =====
-- Round trips of the QUEUE and REQMETA packets of libraries/support/transferlib.cpp.
use Prim.Native.Nat.{ℕ, zero, suc, ◌+◌, ◌-◌, ◌≤◌}
use native.Mathlib.Numerals.{unary_clauses}
use core_cleanup_test.Base.{
  take_all, ◌≡◌, refl, ap, ◌∙◌, arith, inl, List, [], ◌∷◌, ltb, ◌||◌, if◌then◌else◌, length, take,
  length-take, length-replicate, replicate, overwrite, overwrite_middle, ◌++◌,
}
use core_cleanup_test.Base.Memory.{
  slice, word_of, word_of-bytes1, writes, length-writes, here, there, slice-writes,
  slice-overwrite_apart,
}
use core_cleanup_test.Base.Result.{ok, fault, ◌>>=◌}
use core_cleanup_test.Transfer.Packets.{
  salt_type, QueueIds, make_queue_ids, extract_queue, max_name, queue_ids,
}
use core_cleanup_test.Transfer.RoundTrip.{written_word}

replicate-add : (n m : ℕ) (a : ℕ) → replicate (n + m) a ≡ replicate n a ++ replicate m a
replicate-add zero m a = let e : 0 + m ≡ m = omega arith in ap (λ k. replicate k a) e
replicate-add (suc n) m a =
    let e : suc n + m ≡ suc (n + m) = omega arith in
    ap (λ k. replicate k a) e ∙ ap (λ l. a ∷ l) (replicate-add n m a)

take-replicate : (n m a : ℕ) → n ≤ m → take n (replicate m a) ≡ replicate n a
take-replicate zero m a h = refl
take-replicate (suc n) zero a h = absurd (omega (arith, h))
take-replicate (suc n) (suc m) a h = ap (λ l. a ∷ l) (take-replicate n m a (omega (arith, h)))

-- A name with the zeros behind it, cut to a width.
take_padded :
    (name : List ℕ) (n m : ℕ)
    → length name ≤ n
    → n ≤ length name + m
    → take n (name ++ replicate m 0) ≡ name ++ replicate (n - length name) 0
take_padded [] n m h k = simp unary_clauses (take-replicate n m 0 (omega (arith, k)))
take_padded (x ∷ name) zero m h k = absurd (omega (arith, h))
take_padded (x ∷ name) (suc n) m h k =
    simp unary_clauses
      (ap (λ l. x ∷ l) (take_padded name n m (omega (arith, h)) (omega (arith, k))))

-- A name written into zeros, and read with its width.
name_written :
    (t node : ℕ) (name : List ℕ)
    → length name ≤ max_name
    → slice (overwrite (t ∷ node ∷ replicate 222 0) 2 name) 2 max_name
      ≡ name ++ replicate (max_name - length name) 0
name_written t node name h =
    let rest = 222 - length name in
    let zeros : List ℕ = replicate (length name) 0 in
    let e : 222 ≡ length name + rest = omega (arith, h) in
    let split : replicate 222 0 ≡ zeros ++ replicate rest 0 =
      ap (λ n. replicate n 0) e ∙ replicate-add (length name) rest 0 in
    ap (λ l. slice (overwrite (t ∷ node ∷ l) 2 name) 2 max_name) split
    ∙ ap (λ l. slice l 2 max_name)
        (overwrite_middle (t ∷ node ∷ []) zeros name (replicate rest 0) 2 refl
          (length-replicate (length name) 0))
    ∙ take_padded name max_name rest h (omega (arith, h))

extract_queue-fields :
    (p : List ℕ) (q : QueueIds)
    → length p ≡ 224
    → word_of (slice p 1 1) ≡ q.node_id
    → slice p 2 max_name ≡ q.node_name
    → slice p 42 queue_ids ≡ q.tx_id
    → extract_queue p ≡ ok q
unfolding extract_queue
extract_queue-fields p q e node name ids = ground (arith, e, node, name, ids)

-- The guard of `make_queue_packet` on names and lists of the right size.
queue_guard :
    (p : List ℕ) (n m : ℕ)
    → n ≡ queue_ids
    → m ≤ max_name
    → (if ltb n queue_ids || ltb 222 m then fault else ok p) ≡ ok p
queue_guard p n m e h = ground (arith, e, h)

module _ (salt : ℕ) (packet : List ℕ) where
  queue_name :
      (type : ℕ) (q : QueueIds)
      → length q.node_name ≤ max_name
      → slice
          (writes
            ((0, salt_type salt type ∷ [])
              ∷ (1, q.node_id ∷ [])
              ∷ (2, q.node_name)
              ∷ (42, take queue_ids q.tx_id)
              ∷ [])
            (replicate 224 0))
          2
          max_name
        ≡ q.node_name ++ replicate (max_name - length q.node_name) 0
  unfolding writes
  queue_name type q h =
      slice-overwrite_apart (take queue_ids q.tx_id)
        (overwrite (salt_type salt type ∷ q.node_id ∷ replicate 222 0) 2 q.node_name) 42 2 max_name
        (inl (omega arith))
      ∙ name_written (salt_type salt type) q.node_id q.node_name h

  -- A QUEUE or REQMETA packet with 182 ids and a name of at most 40 bytes is read as it was made,
  -- with zeros behind the name.
  pub extract_queue-make_queue_ids :
      (type : ℕ) (q : QueueIds)
      → length q.node_name ≤ max_name
      → length q.tx_id ≡ queue_ids
      → (make_queue_ids salt type packet q >>= extract_queue)
        ≡ ok (record q { node_name = q.node_name ++ replicate (max_name - length q.node_name) 0 })
  unfolding make_queue_ids
  extract_queue-make_queue_ids type q h k =
      let ws : List (ℕ × List ℕ) =
        (0, salt_type salt type ∷ [])
        ∷ (1, q.node_id ∷ [])
        ∷ (2, q.node_name)
        ∷ (42, take queue_ids q.tx_id)
        ∷ [] in
      let buf = replicate {A = ℕ} 224 0 in
      let size = length-replicate {A = ℕ} 224 0 in
      let len0 = length-take queue_ids q.tx_id in
      let node =
        written_word ws buf 1 (q.node_id ∷ []) (1) (q.node_id)
          (there (
            here (
              inl (
                  omega
                    (arith, length-replicate {A = ℕ} 224 0, length-take queue_ids q.tx_id, h, k)),
              (
                inl (
                    omega
                      (arith, length-replicate {A = ℕ} 224 0, length-take queue_ids q.tx_id, h, k)),
                tt,
              ),
            )))
          (omega arith) (omega arith) (word_of-bytes1 q.node_id) in
      let tx =
        slice-writes ws buf 42 (take queue_ids q.tx_id) (182) (there (there (there (here tt))))
          (omega arith) (omega arith) in
      ap (λ r. r >>= extract_queue)
        (queue_guard (writes ws buf) (length q.tx_id) (length q.node_name) k h)
      ∙ extract_queue-fields (writes ws buf)
          (record q { node_name = q.node_name ++ replicate (max_name - length q.node_name) 0 })
          (omega (arith, length-writes ws buf, length-replicate {A = ℕ} 224 0)) node
          (queue_name type q h) (tx ∙ take_all queue_ids q.tx_id (omega arith))
