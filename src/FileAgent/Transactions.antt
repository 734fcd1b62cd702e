-- ===== src/FileAgent/Transactions.antt =====
-- The operations on the transaction tables of programs/agents/agent_file.cpp: the `outgoing_tx_`
-- and `incoming_tx_` functions. What the file system answers is an argument. Removing files, the
-- `.meta` files and messages are left out.
pub mod Tables
pub mod Slots
pub mod Adding
use Prim.Native.Nat.{ℕ, zero, suc, ◌+◌, ◌-◌, ◌%◌, ◌^◌}
use Prim.Native.String.{String}
use core_cleanup_test.Base.{
  List, [], ◌∷◌, Bool, true, false, ◌&&◌, not, ltb, leb, ◌==◌, if◌then◌else◌, Option, none, some,
  get_elem?, set, length,
}
use core_cleanup_test.Base.Result.{
  Result, ok, err, fault, ◌>>=◌, transfer_error_match, transfer_error_queuefull,
  transfer_error_index, transfer_error_node, data_error_size_mismatch, open_failed,
}
use core_cleanup_test.Transfer.{FileProgress, TxProgress}
use core_cleanup_test.FileAgent.Queue.{
  TxEntry, TxQueue, queue_limit, put_progress, check_node_name, check_node_id,
}

-- `check_node_id(..)`, and the error that all operations return for -1.
node_or_error : Option ℕ → Result ℕ
node_or_error none = err transfer_error_node
node_or_error (some node) = ok node

-- `txq[node]`
node_at : List TxQueue → ℕ → Result TxQueue
node_at txq node = elim (get_elem? txq node) [ none ↦ fault | some q ↦ ok q ]

-- A `uint8_t` counter up and down.
abbrev pub up8 : ℕ → ℕ
up8 n = (n + 1) % 2 ^ 8

abbrev pub down8 : ℕ → ℕ
down8 n = (n + 2 ^ 8 - 1) % 2 ^ 8

-- A new transaction in the table, at its own id.
unfoldable pub add_progress : TxEntry → TxProgress → TxEntry
add_progress e tx = record (put_progress e tx.tx_id tx) { size = up8 e.size }

-- `incoming_tx_add(tx_in)`
unfoldable pub incoming_tx_add : TxProgress → List TxQueue → Result (List TxQueue)
unfolding node_or_error node_at add_progress
incoming_tx_add tx_in txq = do
  node ← node_or_error (check_node_name tx_in.node_name txq)
  q ← node_at txq node
  ok (set txq node (record q { incoming = add_progress q.incoming (record tx_in { fp = false }) }))

-- `incoming_tx_add(node_name, tx_id)`
unfoldable pub incoming_tx_add_id : String → ℕ → List TxQueue → Result (List TxQueue)
unfolding incoming_tx_add
incoming_tx_add_id name tx_id txq =
    incoming_tx_add
      (record {
        tx_id = tx_id;
        havemeta = false;
        complete = false;
        node_name = name;
        agent_name = "";
        file_name = "";
        file_size = 0;
        total_bytes = 0;
        file_info = [];
        fp = false;
        partial = λ x. none;
      })
      txq

-- The fields of `packet_struct_metashort`.
pub record MetaShort : Type 0 where
  pub node_id : ℕ
  pub tx_id : ℕ
  pub agent_name : String
  pub file_name : String
  pub file_size : ℕ

-- What the metadata sets: the count and the stream begin anew, the chunk list stays.
unfoldable pub take_meta : String → MetaShort → TxProgress → TxProgress
take_meta name meta tx = if tx.havemeta then tx else record tx {
  node_name = name;
  agent_name = meta.agent_name;
  file_name = meta.file_name;
  file_size = meta.file_size;
  havemeta = true;
  total_bytes = 0;
  fp = false;
}

-- `incoming_tx_update(meta)`, with the id that it returns.
unfoldable pub incoming_tx_update : MetaShort → List TxQueue → Result (ℕ × List TxQueue)
unfolding node_or_error node_at take_meta
incoming_tx_update meta txq = do
  node ← node_or_error (check_node_id meta.node_id txq)
  q ← node_at txq node
  if (q.incoming.progress meta.tx_id).tx_id == meta.tx_id
      then ok (
        meta.tx_id,
        set txq node (record q {
          incoming =
              put_progress q.incoming meta.tx_id
                (take_meta q.node_name meta (q.incoming.progress meta.tx_id));
        }),
      )
      else err transfer_error_match

-- The entry that `incoming_tx_del` leaves: the slot is free, its stream and its metadata are gone.
-- The call copies the transaction first, so the stream in the slot itself is not reset.
unfoldable pub drop_incoming : TxEntry → ℕ → TxEntry
drop_incoming e tx_id =
    let tx = e.progress tx_id in
    record (put_progress e tx_id (record tx { tx_id = 0; havemeta = false })) {
      size = down8 e.size;
      id = if tx.tx_id == e.id then 0 else e.id;
    }

-- `incoming_tx_del(node, tx_id)`
unfoldable pub incoming_tx_del : ℕ → ℕ → List TxQueue → Result (List TxQueue)
unfolding node_or_error node_at drop_incoming
incoming_tx_del node_id tx_id txq = do
  node ← node_or_error (check_node_id node_id txq)
  q ← node_at txq node
  if (q.incoming.progress tx_id).tx_id == 0
      then err transfer_error_match
      else ok (set txq node (record q { incoming = drop_incoming q.incoming tx_id }))

unfoldable pub drop_outgoing : TxEntry → ℕ → TxEntry
drop_outgoing e tx_id = record (put_progress e tx_id (record (e.progress tx_id) { tx_id = 0 })) {
  size = down8 e.size;
  id = 0;
}

-- `outgoing_tx_del(node, tx_id)`, whose test lets `node` be the size of the table.
unfoldable pub outgoing_tx_del : ℕ → ℕ → List TxQueue → Result (List TxQueue)
unfolding node_at drop_outgoing
outgoing_tx_del node tx_id txq = if ltb (length txq) node then err transfer_error_index else do
  q ← node_at txq node
  if (q.outgoing.progress tx_id).tx_id == 0
      then err transfer_error_match
      else ok (set txq node (record q { outgoing = drop_outgoing q.outgoing tx_id }))

-- `outgoing_tx_add(tx_out)`; `size` is what `get_file_size` answers.
unfoldable pub outgoing_tx_add : ℕ → TxProgress → List TxQueue → Result (List TxQueue)
unfolding node_or_error node_at add_progress
outgoing_tx_add size tx_out txq = do
  node ← node_or_error (check_node_name tx_out.node_name txq)
  q ← node_at txq node
  if q.outgoing.size == queue_limit
      then err transfer_error_queuefull
      else ok (
          set txq node (record q {
            outgoing =
                add_progress q.outgoing (record tx_out {
                  fp = false;
                  total_bytes = 0;
                  file_size = size;
                  havemeta = true;
                });
          }))

-- The `do` loop that looks for a free slot, from `id` on and round once to `next_id`. An id is a
-- `uint8_t`, and 0 is passed over.
pub find_id : ℕ → (ℕ → TxProgress) → ℕ → ℕ → Result ℕ
find_id zero progress id next_id = fault
find_id (suc fuel) progress id next_id =
    let here = if id == 0 then 1 else id in
    let later = find_id fuel progress (up8 here) next_id in
    if (progress here).tx_id == 0
    then ok here
    else if up8 here == next_id
    then err transfer_error_match
    else later

-- The size of the file, and whether it could be opened.
can_open : ℕ → Bool → Result ℕ
can_open size opens =
    if size == 0 then err data_error_size_mismatch else if opens then ok size else err open_failed

-- The status of a call, and the tables that it leaves.
keep : List TxQueue → Result (List TxQueue) → Result ℕ × List TxQueue
keep old (ok txq) = (ok 0, txq)
keep old (err e) = (err e, old)
keep old fault = (fault, old)

module _ (size : ℕ) (opens : Bool) (name agent file : String) (txq : List TxQueue) where
  -- With the slot that was found: `next_id` moves on, also where the file is then refused.
  add_file_id : ℕ → TxQueue → Result ℕ → Result ℕ × List TxQueue
  unfolding can_open keep outgoing_tx_add
  add_file_id node q (ok id) =
      let txq' = set txq node (record q { outgoing = record q.outgoing { next_id = up8 id } }) in
      keep txq' (
        can_open size opens >>= λ opened.
        outgoing_tx_add size
          (record {
            tx_id = id;
            havemeta = false;
            complete = false;
            node_name = name;
            agent_name = agent;
            file_name = file;
            file_size = opened;
            total_bytes = 0;
            file_info = [];
            fp = false;
            partial = λ x. none;
          })
          txq')
  add_file_id node q (err e) = (err e, txq)
  add_file_id node q fault = (fault, txq)

  add_file_at : ℕ → Result TxQueue → Result ℕ × List TxQueue
  unfolding add_file_id find_id
  add_file_at node (ok q) =
      if q.outgoing.size == queue_limit
      then (err transfer_error_queuefull, txq)
      else add_file_id node q
          (find_id 256 q.outgoing.progress q.outgoing.next_id q.outgoing.next_id)
  add_file_at node (err e) = (err e, txq)
  add_file_at node fault = (fault, txq)

  add_file : Option ℕ → Result ℕ × List TxQueue
  unfolding add_file_at node_at
  add_file none = (err transfer_error_node, txq)
  add_file (some node) = add_file_at node (node_at txq node)

  -- `outgoing_tx_add(node_name, agent_name, file_name)`, where `size` and `opens` are what the file
  -- system answers for the file.
  unfoldable pub outgoing_tx_add_file : Result ℕ × List TxQueue
  unfolding add_file
  outgoing_tx_add_file = add_file (check_node_name name txq)
