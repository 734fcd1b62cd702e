-- ===== src/FileAgent/Meta/Arrays.antt =====
-- The names of the `.meta` file of programs/agents/agent_file.cpp: strings, and the arrays of the packet.
use core_cleanup_test.Base.{
  ◌<◌, ◌≢◌, ◌==◌, zero, suc, All, length-take, ℕ, ◌≤◌, ◌≡◌, refl, sym, ap, ◌∙◌, arith, List, [],
  ◌∷◌, ◌++◌, ltb, length, take, take_all, length-append, false,
}
use core_cleanup_test.Base.Memory.{bytes4, writes, resize}
use core_cleanup_test.Base.Result.{ok}
use core_cleanup_test.Transfer.Packets.{
  salt_type, packet_metadata, MetaLong, max_name, max_filename, make_metalong_packet,
  extract_metalong,
}
use core_cleanup_test.Transfer.RoundTrip.Metadata.{metalong_made}
use core_cleanup_test.FileAgent.Meta.{metalong_size, TxMeta, c_str, c_string, named_meta}

pub ltb-le : (n m : ℕ) → m ≤ n → ltb n m ≡ false
ltb-le n m h = ground (arith, h)

-- The arrays of the names of a transaction.
abbrev pub arrays_of : (List ℕ → List ℕ) → TxMeta → MetaLong
arrays_of f tx = record {
  node_name = f tx.node_name;
  tx_id = tx.tx_id;
  agent_name = f tx.agent_name;
  file_name = f tx.file_name;
  file_size = tx.file_size;
}

-- The arrays with as many bytes as the packet has of them.
abbrev pub cut : MetaLong → MetaLong
cut m = record {
  node_name = take max_name m.node_name;
  tx_id = m.tx_id;
  agent_name = take max_name m.agent_name;
  file_name = take max_filename m.file_name;
  file_size = m.file_size;
}

take-take : (n : ℕ) (s : List ℕ) → take n (take n s) ≡ take n s
take-take n s = take_all n (take n s) (omega (arith, length-take n s))

-- What the packet is written from.
abbrev metalong_writes : ℕ → MetaLong → List (ℕ × List ℕ)
metalong_writes salt m =
    (0, salt_type salt packet_metadata ∷ [])
    ∷ (41, m.tx_id ∷ [])
    ∷ (82, take max_filename m.file_name)
    ∷ (210, bytes4 m.file_size)
    ∷ (1, take max_name m.node_name)
    ∷ (42, take max_name m.agent_name)
    ∷ []

make_metalong_packet-wide :
    (salt : ℕ) (m : MetaLong)
    → max_name ≤ length m.node_name
    → max_name ≤ length m.agent_name
    → max_filename ≤ length m.file_name
    → make_metalong_packet salt [] m ≡ ok (writes (metalong_writes salt m) (resize 214 []))
unfolding make_metalong_packet
make_metalong_packet-wide salt m k a f =
    rw
      (
        ltb-le (length m.node_name) max_name k,
        ltb-le (length m.agent_name) max_name a,
        ltb-le (length m.file_name) max_filename f,
      )
      refl

make_metalong_packet-cut :
    (salt : ℕ) (m : MetaLong)
    → max_name ≤ length m.node_name
    → max_name ≤ length m.agent_name
    → max_filename ≤ length m.file_name
    → make_metalong_packet salt [] m ≡ make_metalong_packet salt [] (cut m)
make_metalong_packet-cut salt m k a f =
    let same : metalong_writes salt (cut m) ≡ metalong_writes salt m =
      rw
        (
          take-take max_name m.node_name,
          take-take max_name m.agent_name,
          take-take max_filename m.file_name,
        )
        refl in
    make_metalong_packet-wide salt m k a f
    ∙ ap (λ ws. ok (writes ws (resize 214 []))) (sym same)
    ∙ sym (
        make_metalong_packet-wide salt (cut m) (omega (arith, k, length-take max_name m.node_name))
          (omega (arith, a, length-take max_name m.agent_name))
          (omega (arith, f, length-take max_filename m.file_name)))

pub metalong_cut :
    (salt : ℕ) (m : MetaLong)
    → max_name ≤ length m.node_name
    → max_name ≤ length m.agent_name
    → max_filename ≤ length m.file_name
    → (p : List ℕ) × (make_metalong_packet salt [] m ≡ ok p)
      × (length p ≡ metalong_size)
      × (extract_metalong p ≡ ok (cut m))
metalong_cut salt m k a f =
    let (p, made, len, read) =
      metalong_made salt [] (cut m) (omega (arith, k, length-take max_name m.node_name))
        (omega (arith, a, length-take max_name m.agent_name))
        (omega (arith, f, length-take max_filename m.file_name)) in
    (p, make_metalong_packet-cut salt m k a f ∙ made, len, read)

pub wide :
    (behind : List ℕ → List ℕ) (s : List ℕ) (n : ℕ)
    → n ≤ length (behind s)
    → n ≤ length (c_str behind s)
wide behind s n h = omega (arith, h, length-append s (0 ∷ behind s))

-- A name that fits an array of `n` bytes with its closing zero.
abbrev pub IsNamed : ℕ → List ℕ → Type 0
IsNamed n s = All (λ c. c ≢ 0) s × (length s < n)

-- A string without a zero is found again in an array that has room for its closing zero.
c_string-c_str :
    (s more : List ℕ) (n : ℕ)
    → All (λ c. c ≢ 0) s
    → length s < n
    → c_string (take n (s ++ (0 ∷ more))) ≡ ok s
unfolding c_string
c_string-c_str [] more zero h l = absurd (omega (arith, l))
c_string-c_str [] more (suc n) h l = refl
c_string-c_str (c ∷ s) more zero h l = absurd (omega (arith, l))
c_string-c_str (c ∷ s) more (suc n) (h, hs) l =
    let e : (c == 0) ≡ false = ground (arith, h) in
    rw (e, c_string-c_str s more n hs (omega (arith, l))) refl

pub named_meta-cut :
    (behind : List ℕ → List ℕ) (tx : TxMeta)
    → IsNamed max_name tx.node_name
    → IsNamed max_name tx.agent_name
    → IsNamed max_filename tx.file_name
    → named_meta (record {
      node_name = take max_name (c_str behind tx.node_name);
      tx_id = tx.tx_id;
      agent_name = take max_name (c_str behind tx.agent_name);
      file_name = take max_filename (c_str behind tx.file_name);
      file_size = tx.file_size;
    })
      ≡ ok tx
unfolding named_meta
named_meta-cut behind tx k a f =
    rw
      (
        c_string-c_str tx.node_name (behind tx.node_name) max_name k.0 k.1,
        c_string-c_str tx.agent_name (behind tx.agent_name) max_name a.0 a.1,
        c_string-c_str tx.file_name (behind tx.file_name) max_filename f.0 f.1,
      )
      refl
