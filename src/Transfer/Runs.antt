-- ===== src/Transfer/Runs.antt =====
-- Runs of the packets of libraries/support/transferlib.cpp on concrete values.
use core_cleanup_test.Base.{◌≡◌, refl, [], ◌∷◌, replicate}
use core_cleanup_test.Base.Result.{ok, ◌>>=◌}
use core_cleanup_test.Transfer.Packets.{
  Complete, ReqData, Data, MetaShort, MetaLong, QueueIds, make_ids, make_data_packet, extract_data,
  packet_cancel, salt_type,
}
use core_cleanup_test.Base.Memory.{resize, writes}
use core_cleanup_test.Transfer.RoundTrip.{extract_data-make_data}

abbrev some_ids : Complete
some_ids = record { node_id = 3; tx_id = 17 }

cancel_run : make_ids 5 packet_cancel [] some_ids ≡ 0x5A ∷ 3 ∷ 17 ∷ []
unfolding make_ids salt_type resize writes
cancel_run = refl

abbrev hole : ReqData
hole = record { node_id = 3; tx_id = 17; hole_start = 70000; hole_end = 70010 }

abbrev two_bytes : Data
two_bytes = record {
  node_id = 3;
  tx_id = 17;
  byte_count = 2;
  chunk_start = 70000;
  chunk = 8 ∷ 9 ∷ [];
}

extract_data-make_data_example : (make_data_packet 5 [] two_bytes >>= extract_data) ≡ ok two_bytes
extract_data-make_data_example = extract_data-make_data 5 [] two_bytes refl

abbrev meta_short : MetaShort
meta_short = record {
  node_id = 3;
  tx_id = 17;
  agent_name = replicate 40 65;
  file_name = replicate 128 66;
  file_size = 70010;
}

abbrev meta_long : MetaLong
meta_long = record {
  node_name = replicate 40 67;
  tx_id = 17;
  agent_name = replicate 40 65;
  file_name = replicate 128 66;
  file_size = 70010;
}

abbrev ids_message : QueueIds
ids_message = record { node_id = 3; node_name = 67 ∷ 68 ∷ []; tx_id = replicate 182 4 }
