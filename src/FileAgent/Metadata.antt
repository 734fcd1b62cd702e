-- ===== src/FileAgent/Metadata.antt =====
-- The cases PACKET_METADATA and PACKET_REQMETA of `recv_loop` in programs/agents/agent_file.cpp.
use Prim.Native.String.{String}
use core_cleanup_test.Base.{ℕ, List, [], ◌∷◌, ltb, if◌then◌else◌, Option, none, some, get_elem?}
use core_cleanup_test.Base.Result.{Result, ok, err, fault}
use core_cleanup_test.Transfer.{TxProgress}
use core_cleanup_test.FileAgent.Queue.{
  TxQueue, check_tx_id, lookup_remote_node_id, set_remote_node_id,
}
use core_cleanup_test.FileAgent.Transactions.{MetaShort, incoming_tx_update}

-- The tables after a call whose status is not used.
updated : List TxQueue → Result (ℕ × List TxQueue) → List TxQueue
updated txq (ok (id, txq')) = txq'
updated txq (err e) = txq
updated txq fault = txq

-- The case PACKET_METADATA.
unfoldable pub receive_metadata : MetaShort → List TxQueue → List TxQueue
unfolding updated incoming_tx_update
receive_metadata meta txq = updated txq (incoming_tx_update meta txq)

-- A METADATA packet that is queued.
pub record Announced : Type 0 where
  pub node_id : ℕ
  pub tx_id : ℕ
  pub file_name : String
  pub file_size : ℕ
  pub agent_name : String

-- One packet for each id of a transaction that is there.
pub announce : ℕ → (ℕ → TxProgress) → List ℕ → List Announced
unfolding check_tx_id
announce remote progress [] = []
announce remote progress (id ∷ ids) =
    let found = check_tx_id progress id in
    let tx = progress found in
    let rest = announce remote progress ids in
    if ltb 0 found
    then record {
      node_id = remote;
      tx_id = tx.tx_id;
      file_name = tx.file_name;
      file_size = tx.file_size;
      agent_name = tx.agent_name;
    }
      ∷ rest
    else rest

announce_at : Option ℕ → Option TxQueue → List ℕ → List Announced
unfolding announce
announce_at (some remote) (some q) ids = announce remote q.outgoing.progress ids
announce_at _ _ ids = []

-- The node that `set_remote_node_id` answers, if there is one.
answer : List ℕ → List TxQueue → Option ℕ → List Announced
unfolding announce_at lookup_remote_node_id
answer ids txq none = []
answer ids txq (some node) = announce_at (lookup_remote_node_id node txq) (get_elem? txq node) ids

-- The case PACKET_REQMETA: the node's number at the other end is taken over, and the packets go out.
unfoldable pub receive_reqmeta : ℕ → String → List ℕ → List TxQueue → List TxQueue × List Announced
unfolding answer set_remote_node_id
receive_reqmeta node_id node_name ids txq =
    let (txq', node) = set_remote_node_id node_id node_name txq in (txq', answer ids txq' node)
