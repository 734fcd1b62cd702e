-- ===== src/FileAgent/Queue.antt =====
-- The transaction tables of programs/agents/agent_file.cpp. `progress` has TRANSFER_QUEUE_SIZE (256)
-- entries, one for each `uint8_t`, and is a function of the index. An entry with `tx_id` 0 is free.
-- An index of -1 is `none`.
pub mod Choosing
use Prim.Native.Nat.{ℕ, zero, suc, ◌+◌, ◌-◌, ◌%◌, ◌^◌}
use Prim.Native.String.{String}
use text.Mathlib.Text.{◌==◌ as str_eq}
use core_cleanup_test.Base.{
  List, [], ◌∷◌, Bool, true, false, ◌&&◌, not, ltb, leb, ◌==◌, if◌then◌else◌, Option, none, some,
  get_elem?, set, length, add32, sub32,
}
use core_cleanup_test.Base.Result.{
  Result, ok, err, fault, ◌>>=◌, transfer_error_match, transfer_error_queuefull,
  transfer_error_index, transfer_error_node, data_error_size_mismatch,
}
use core_cleanup_test.Transfer.{FileProgress, TxProgress}
use core_cleanup_test.FileAgent.Chunks.{merge_chunks_overlap}

-- `tx_entry`; `size`, `id` and `next_id` are of type `uint8_t`.
pub record TxEntry : Type 0 where
  pub progress : ℕ → TxProgress
  pub size : ℕ
  pub id : ℕ
  pub next_id : ℕ

-- `tx_queue`; `node_id` is one more than the number that the remote node gives this one, or 0.
pub record TxQueue : Type 0 where
  pub node_name : String
  pub node_id : ℕ
  pub incoming : TxEntry
  pub outgoing : TxEntry

abbrev pub queue_size : ℕ
queue_size = 256

-- (225 - (1 + 1 + 1 + 40)) / 1
abbrev pub queue_limit : ℕ
queue_limit = 182

abbrev pub update : (ℕ → TxProgress) → ℕ → TxProgress → ℕ → TxProgress
update f i tx j = if j == i then tx else f j

abbrev pub put_progress : TxEntry → ℕ → TxProgress → TxEntry
put_progress e i tx = record e { progress = update e.progress i tx }

-- The first node of that name, from index `i` on.
unfoldable pub find_node : String → List TxQueue → ℕ → Option ℕ
find_node name [] i = none
find_node name (q ∷ qs) i = if str_eq q.node_name name then some i else find_node name qs (i + 1)

-- `check_node_id(node_name)`
unfoldable pub check_node_name : String → List TxQueue → Option ℕ
unfolding find_node
check_node_name name txq = find_node name txq 0

-- `check_node_id(node_id)`
unfoldable pub check_node_id : ℕ → List TxQueue → Option ℕ
check_node_id node_id txq = if ltb node_id (length txq) then some node_id else none

remote_of : Option TxQueue → Option ℕ
remote_of none = none
remote_of (some q) = if ltb 0 q.node_id then some (q.node_id - 1) else none

-- `lookup_remote_node_id(node_id)`
unfoldable pub lookup_remote_node_id : ℕ → List TxQueue → Option ℕ
unfolding remote_of
lookup_remote_node_id node_id txq = remote_of (get_elem? txq node_id)

-- The loop of `set_remote_node_id`. It does not stop at the first match.
set_remote : ℕ → String → List TxQueue → ℕ → Option ℕ → List TxQueue × Option ℕ
set_remote node_id name [] i id = ([], id)
set_remote node_id name (q ∷ qs) i id =
    let found = str_eq q.node_name name in
    let (qs', id') = set_remote node_id name qs (i + 1) (if found then some i else id) in
    ((if found then record q { node_id = (node_id + 1) % 2 ^ 8 } else q) ∷ qs', id')

-- `set_remote_node_id(node_id, node_name)`
unfoldable pub set_remote_node_id : ℕ → String → List TxQueue → List TxQueue × Option ℕ
unfolding set_remote
set_remote_node_id node_id name txq = set_remote node_id name txq 0 none

-- `check_tx_id(tx_entry, tx_id)`
unfoldable pub check_tx_id : (ℕ → TxProgress) → ℕ → ℕ
check_tx_id progress tx_id =
    if not (tx_id == 0) && (progress tx_id).tx_id == tx_id then tx_id else 0

-- The variables of the loop of `choose_incoming_tx_id`.
pub record Choice : Type 0 where
  pub entry : TxEntry
  pub nsize : ℕ
  pub tx_id : ℕ

unfoldable pub merge_progress : TxProgress → TxProgress
merge_progress tx =
    let (info, total) = merge_chunks_overlap tx.file_info in
    record tx { file_info = info; total_bytes = total }

-- One round. `file_size - total_bytes` is of type `uint32_t`.
unfoldable pub choose_round : ℕ → Choice → Choice
unfolding merge_progress
choose_round i c =
    let tx = merge_progress (c.entry.progress i) in
    let entry = put_progress c.entry i tx in
    let left = sub32 tx.file_size tx.total_bytes in
    if not (tx.tx_id == 0) && (tx.havemeta && ltb left c.nsize)
    then record { entry = entry; nsize = left; tx_id = tx.tx_id }
    else record c { entry = entry }

-- The rounds left, and the index.
unfoldable pub choose_loop : ℕ → ℕ → Choice → Choice
choose_loop zero i c = c
choose_loop (suc n) i c = choose_loop n (i + 1) (choose_round i c)

-- `choose_incoming_tx_id(node)` on the incoming table: `nsize` begins at ULONG_MAX, cut to 32 bits.
unfoldable pub choose_incoming_tx_id : TxEntry → Choice
unfolding choose_loop choose_round
choose_incoming_tx_id entry =
    choose_loop queue_size 0 (record { entry = entry; nsize = 2 ^ 32 - 1; tx_id = 0 })
