-- ===== src/Transfer/Packets.antt =====
-- The packets of libraries/support/transferlib.cpp: `make_..._packet` and `extract_...`.
-- A packet is a list of bytes, and a machine word is stored in little endian order. A `make` function
-- takes the old bytes of its packet and the value of `time_salt`. The overloads over a structure are
-- the ones modelled. A read outside the packet or a name is `fault`.
use Prim.Native.Nat.{ℕ, ◌+◌, ◌*◌, ◌^◌, bit_and, bit_or}
use core_cleanup_test.Base.{
  List, [], ◌∷◌, Bool, ◌||◌, not, ltb, ◌==◌, if◌then◌else◌, length, take, replicate,
}
use core_cleanup_test.Base.Memory.{resize, slice, writes, bytes2, bytes4, word_of}
use core_cleanup_test.Base.Result.{Result, ok, fault}

abbrev pub packet_metadata : ℕ
packet_metadata = 0xF

abbrev pub packet_data : ℕ
packet_data = 0xE

abbrev pub packet_reqdata : ℕ
packet_reqdata = 0xD

abbrev pub packet_reqmeta : ℕ
packet_reqmeta = 0xC

abbrev pub packet_complete : ℕ
packet_complete = 0xB

abbrev pub packet_cancel : ℕ
packet_cancel = 0xA

abbrev pub packet_queue : ℕ
packet_queue = 0x9

-- `salt_type(type)`: the low nibble is the type, the high one is the salt.
unfoldable pub salt_type : ℕ → ℕ → ℕ
salt_type time_salt type = bit_or (bit_and type 0xF) (time_salt * 2 ^ 4)

-- What the handler switches on.
unfoldable pub type_of : List ℕ → ℕ
type_of [] = 0
type_of (b ∷ bs) = bit_and b 0xF

-- `IS_METADATA(P_TYPE)` and the others, by the type that each tests for.
unfoldable pub is_type : ℕ → ℕ → Bool
is_type packet_type p_type = not (bit_and (bit_and p_type 0xF) packet_type == 0)

-- COSMOS_MAX_NAME, TRANSFER_MAX_FILENAME, TRANSFER_QUEUE_LIMIT
abbrev pub max_name : ℕ
max_name = 40

abbrev pub max_filename : ℕ
max_filename = 128

abbrev pub queue_ids : ℕ
queue_ids = 182

-- Both `packet_struct_complete` and `packet_struct_cancel`.
pub record Complete : Type 0 where
  pub node_id : ℕ
  pub tx_id : ℕ

pub record ReqData : Type 0 where
  pub node_id : ℕ
  pub tx_id : ℕ
  pub hole_start : ℕ
  pub hole_end : ℕ

pub record Data : Type 0 where
  pub node_id : ℕ
  pub tx_id : ℕ
  pub byte_count : ℕ
  pub chunk_start : ℕ
  pub chunk : List ℕ

-- `packet_struct_metashort`, with the names as bytes.
pub record MetaShort : Type 0 where
  pub node_id : ℕ
  pub tx_id : ℕ
  pub agent_name : List ℕ
  pub file_name : List ℕ
  pub file_size : ℕ

-- `packet_struct_metalong`
pub record MetaLong : Type 0 where
  pub node_name : List ℕ
  pub tx_id : ℕ
  pub agent_name : List ℕ
  pub file_name : List ℕ
  pub file_size : ℕ

-- Both `packet_struct_queue` and `packet_struct_reqmeta`.
pub record QueueIds : Type 0 where
  pub node_id : ℕ
  pub node_name : List ℕ
  pub tx_id : List ℕ

module _ (time_salt : ℕ) where
  unfoldable pub make_ids : ℕ → List ℕ → Complete → List ℕ
  unfolding salt_type resize writes
  make_ids type packet c =
      writes ((0, salt_type time_salt type ∷ []) ∷ (1, c.node_id ∷ []) ∷ (2, c.tx_id ∷ []) ∷ [])
        (resize 3 packet)

  unfoldable pub make_complete_packet : List ℕ → Complete → List ℕ
  unfolding make_ids
  make_complete_packet packet complete = make_ids packet_complete packet complete

  unfoldable pub make_cancel_packet : List ℕ → Complete → List ℕ
  unfolding make_ids
  make_cancel_packet packet cancel = make_ids packet_cancel packet cancel

  unfoldable pub make_reqdata_packet : List ℕ → ReqData → List ℕ
  unfolding salt_type resize writes
  make_reqdata_packet packet r =
      writes
        ((0, salt_type time_salt packet_reqdata ∷ [])
          ∷ (1, r.node_id ∷ [])
          ∷ (2, r.tx_id ∷ [])
          ∷ (3, bytes4 r.hole_start)
          ∷ (7, bytes4 r.hole_end)
          ∷ [])
        (resize 11 packet)

  -- The chunk is read for `byte_count` bytes.
  unfoldable pub make_data_packet : List ℕ → Data → Result (List ℕ)
  unfolding salt_type resize writes
  make_data_packet packet d =
      if ltb (length d.chunk) d.byte_count
      then fault
      else ok (
          writes
            ((0, salt_type time_salt packet_data ∷ [])
              ∷ (1, d.node_id ∷ [])
              ∷ (2, d.tx_id ∷ [])
              ∷ (3, bytes2 d.byte_count)
              ∷ (5, bytes4 d.chunk_start)
              ∷ (9, take d.byte_count d.chunk)
              ∷ [])
            (resize (9 + d.byte_count) packet))

  -- The names are read for their whole width.
  unfoldable pub make_metashort_packet : List ℕ → MetaShort → Result (List ℕ)
  unfolding salt_type resize writes
  make_metashort_packet packet m =
      if ltb (length m.file_name) max_filename || ltb (length m.agent_name) max_name
      then fault
      else ok (
          writes
            ((0, salt_type time_salt packet_metadata ∷ [])
              ∷ (1, m.node_id ∷ [])
              ∷ (2, m.tx_id ∷ [])
              ∷ (43, take max_filename m.file_name)
              ∷ (171, bytes4 m.file_size)
              ∷ (3, take max_name m.agent_name)
              ∷ [])
            (resize 175 packet))

  unfoldable pub make_metalong_packet : List ℕ → MetaLong → Result (List ℕ)
  unfolding salt_type resize writes
  make_metalong_packet packet m =
      if ltb (length m.file_name) max_filename
        || (ltb (length m.node_name) max_name || ltb (length m.agent_name) max_name)
      then fault
      else ok (
          writes
            ((0, salt_type time_salt packet_metadata ∷ [])
              ∷ (41, m.tx_id ∷ [])
              ∷ (82, take max_filename m.file_name)
              ∷ (210, bytes4 m.file_size)
              ∷ (1, take max_name m.node_name)
              ∷ (42, take max_name m.agent_name)
              ∷ [])
            (resize 214 packet))

  -- `memset` clears the packet; the name is copied without its end, and all ids.
  unfoldable pub make_queue_ids : ℕ → List ℕ → QueueIds → Result (List ℕ)
  unfolding salt_type writes
  make_queue_ids type packet q =
      if ltb (length q.tx_id) queue_ids || ltb 222 (length q.node_name)
      then fault
      else ok (
          writes
            ((0, salt_type time_salt type ∷ [])
              ∷ (1, q.node_id ∷ [])
              ∷ (2, q.node_name)
              ∷ (42, take queue_ids q.tx_id)
              ∷ [])
            (replicate 224 0))

  unfoldable pub make_reqmeta_packet : List ℕ → QueueIds → Result (List ℕ)
  unfolding make_queue_ids
  make_reqmeta_packet packet reqmeta = make_queue_ids packet_reqmeta packet reqmeta

  unfoldable pub make_queue_packet : List ℕ → QueueIds → Result (List ℕ)
  unfolding make_queue_ids
  make_queue_packet packet queue = make_queue_ids packet_queue packet queue

-- The word of `n` bytes at index `i`.
abbrev word_at : List ℕ → ℕ → ℕ → ℕ
word_at packet i n = word_of (slice packet i n)

-- A read that stays inside the packet, up to the end of its last field.
abbrev pub within {ℓ} : {A : Type ℓ} → ℕ → List ℕ → A → Result A
within n packet a = if ltb (length packet) n then fault else ok a

unfoldable pub extract_complete : List ℕ → Result Complete
unfolding word_of
extract_complete packet =
    within 3 packet (record { node_id = word_at packet 1 1; tx_id = word_at packet 2 1 })

unfoldable pub extract_cancel : List ℕ → Result Complete
unfolding extract_complete
extract_cancel packet = extract_complete packet

unfoldable pub extract_reqdata : List ℕ → Result ReqData
unfolding word_of
extract_reqdata packet = within 11 packet (record {
  node_id = word_at packet 1 1;
  tx_id = word_at packet 2 1;
  hole_start = word_at packet 3 4;
  hole_end = word_at packet 7 4;
})

-- The chunk has the length that the packet says.
unfoldable pub extract_data : List ℕ → Result Data
unfolding word_of
extract_data packet =
    let byte_count = word_at packet 3 2 in
    if ltb (length packet) 9
    then fault
    else within (9 + byte_count) packet (record {
      node_id = word_at packet 1 1;
      tx_id = word_at packet 2 1;
      byte_count = byte_count;
      chunk_start = word_at packet 5 4;
      chunk = slice packet 9 byte_count;
    })

-- The copy of COSMOS_MAX_NAME bytes to `node_id` runs on over `tx_id` and the start of `agent_name`,
-- which hold the same bytes of the packet before and after it.
unfoldable pub extract_metashort : List ℕ → Result MetaShort
unfolding word_of
extract_metashort packet = within 175 packet (record {
  node_id = word_at packet 1 1;
  tx_id = word_at packet 2 1;
  agent_name = slice packet 3 max_name;
  file_name = slice packet 43 max_filename;
  file_size = word_at packet 171 4;
})

unfoldable pub extract_metalong : List ℕ → Result MetaLong
unfolding word_of
extract_metalong packet = within 214 packet (record {
  node_name = slice packet 1 max_name;
  tx_id = word_at packet 41 1;
  agent_name = slice packet 42 max_name;
  file_name = slice packet 82 max_filename;
  file_size = word_at packet 210 4;
})

unfoldable pub extract_queue : List ℕ → Result QueueIds
extract_queue packet = within 224 packet (record {
  node_id = word_of (slice packet 1 1);
  node_name = slice packet 2 max_name;
  tx_id = slice packet 42 queue_ids;
})

unfoldable pub extract_reqmeta : List ℕ → Result QueueIds
unfolding extract_queue
extract_reqmeta packet = extract_queue packet
