-- ===== src/Transfer.antt =====
-- libraries/support/transferlib.cpp and transferlib.h: the data of the file transfer protocol.
pub mod Packets
pub mod RoundTrip
pub mod Runs
use core_cleanup_test.Base.{ℕ, Bool, List, Option}
use Prim.Native.String.{String}

-- `file_progress`: the bytes `chunk_start .. chunk_end` of a file, both ends included.
pub record FileProgress : Type 0 where
  pub chunk_start : ℕ
  pub chunk_end : ℕ

-- `tx_progress`. `fp` says whether the stream is open. `partial` is what the file behind it,
-- `temppath + ".file"`, holds at each offset. The paths follow from the names and the id, and
-- `savetime` only spaces out the writing of the `.meta` file; they are left out.
pub record TxProgress : Type 0 where
  pub tx_id : ℕ
  pub havemeta : Bool
  pub complete : Bool
  pub node_name : String
  pub agent_name : String
  pub file_name : String
  pub file_size : ℕ
  pub total_bytes : ℕ
  pub file_info : List FileProgress
  pub fp : Bool
  pub partial : ℕ → Option ℕ
