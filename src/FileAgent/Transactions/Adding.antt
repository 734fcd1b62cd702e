-- ===== src/FileAgent/Transactions/Adding.antt =====
-- Lemmas on `outgoing_tx_add` of programs/agents/agent_file.cpp.
use Prim.Native.Nat.{ℕ, zero, suc, ◌+◌, ◌<◌}
use Prim.Native.String.{String}
use core_cleanup_test.Base.{
  ◌≡◌, refl, arith, true, false, List, [], ◌∷◌, get_elem?, set, some, none, get_elem?-set, set-set,
}
use core_cleanup_test.Base.Result.{ok}
use core_cleanup_test.Transfer.{TxProgress}
use core_cleanup_test.FileAgent.Queue.{TxQueue, queue_size, queue_limit, check_node_name, find_node}
use core_cleanup_test.FileAgent.Transactions.{
  up8, add_progress, outgoing_tx_add, outgoing_tx_add_file, find_id, add_file_id, keep, can_open,
  node_or_error, node_at, add_file, add_file_at,
}
use core_cleanup_test.FileAgent.Transactions.Tables.{IsTable, add_progress-IsTable}
use core_cleanup_test.FileAgent.Transactions.Slots.{IsFree, free_slot, find_id-free}

-- A record that keeps its name is found where it was.
find_node-set :
    (name : String) (txq : List TxQueue) (i node : ℕ) (q q' : TxQueue)
    → get_elem? txq node ≡ some q
    → q'.node_name ≡ q.node_name
    → find_node name (set txq node q') i ≡ find_node name txq i
unfolding find_node
find_node-set name [] i node q q' g e = refl
find_node-set name (x ∷ xs) i zero q q' g e = ground (arith, g, e)
find_node-set name (x ∷ xs) i (suc node) q q' g e =
    ground (arith, find_node-set name xs (i + 1) node q q' g e)

check_node_name-set :
    (name : String) (txq : List TxQueue) (node : ℕ) (q q' : TxQueue)
    → get_elem? txq node ≡ some q
    → q'.node_name ≡ q.node_name
    → check_node_name name (set txq node q') ≡ check_node_name name txq
unfolding check_node_name
check_node_name-set name txq node q q' g e = find_node-set name txq 0 node q q' g e

-- The transaction that is put into the slot `id`.
abbrev pub outgoing_tx : ℕ → String → String → String → ℕ → TxProgress
outgoing_tx size name agent file id = record {
  tx_id = id;
  havemeta = true;
  complete = false;
  node_name = name;
  agent_name = agent;
  file_name = file;
  file_size = size;
  total_bytes = 0;
  file_info = [];
  fp = false;
  partial = λ x. none;
}

-- The outgoing table after it.
abbrev pub with_outgoing : TxQueue → TxProgress → TxQueue
with_outgoing q tx = record q {
  outgoing = add_progress (record q.outgoing { next_id = up8 tx.tx_id }) tx;
}

module _ (name agent file : String) (txq : List TxQueue) (node : ℕ) (q : TxQueue) where
  -- The call of the inner function, with `next_id` moved on.
  add_moved :
      (size id : ℕ)
      → check_node_name name txq ≡ some node
      → get_elem? txq node ≡ some q
      → q.outgoing.size < queue_limit
      → outgoing_tx_add size
          (outgoing_tx size name agent file id)
          (set txq node (record q { outgoing = record q.outgoing { next_id = up8 id } }))
        ≡ ok (set txq node (with_outgoing q (outgoing_tx size name agent file id)))
  unfolding outgoing_tx_add node_or_error node_at add_progress
  add_moved size id e g l =
      let q' = record q { outgoing = record q.outgoing { next_id = up8 id } } in
      let named = check_node_name-set name txq node q q' g refl in
      let there = get_elem?-set txq node q' q g in
      ground (
        arith,
        named,
        there,
        e,
        l,
        set-set txq node q' (with_outgoing q (outgoing_tx size name agent file id)),
      )

  -- With the slot that the search found.
  added :
      (size id : ℕ)
      → check_node_name name txq ≡ some node
      → get_elem? txq node ≡ some q
      → q.outgoing.size < queue_limit
      → 0 < size
      → find_id queue_size q.outgoing.progress q.outgoing.next_id q.outgoing.next_id ≡ ok id
      → outgoing_tx_add_file size true name agent file txq
        ≡ (ok 0, set txq node (with_outgoing q (outgoing_tx size name agent file id)))
  unfolding outgoing_tx_add_file add_file add_file_at add_file_id node_at can_open keep
  added size id e g l p found = ground (arith, e, g, l, p, found, add_moved size id e g l)

  -- For a node that is known, a well-formed table below the limit, a `next_id` that is a byte and
  -- a file that opens and is not empty, a free slot from 1 to 255 is found, the call returns 0
  -- with the new transaction in that slot and `next_id` behind it, and the table is well formed.
  pub outgoing_tx_add_file-adds :
      (size : ℕ)
      → check_node_name name txq ≡ some node
      → get_elem? txq node ≡ some q
      → IsTable q.outgoing
      → q.outgoing.size < queue_limit
      → q.outgoing.next_id < queue_size
      → 0 < size
      → (id : ℕ) × IsFree q.outgoing.progress id
        × (outgoing_tx_add_file size true name agent file txq
            ≡ (ok 0, set txq node (with_outgoing q (outgoing_tx size name agent file id))))
        × IsTable (with_outgoing q (outgoing_tx size name agent file id)).outgoing
  outgoing_tx_add_file-adds size e g t l n p =
      let (j, free) = free_slot q.outgoing t (omega arith) in
      let (id, found, free_id) = find_id-free q.outgoing.progress q.outgoing.next_id j free n in
      (
        id,
        free_id,
        added size id e g l p found,
        add_progress-IsTable (record q.outgoing { next_id = up8 id })
            (outgoing_tx size name agent file id) (record { own = t.own; counted = t.counted })
            free_id.positive free_id.below (ground (arith, free_id.free)),
      )
