-- ===== src/FileAgent/Send.antt =====
-- One round of `send_loop` in programs/agents/agent_file.cpp on the outgoing table of the active
-- node, and the QUEUE packet that it sends when things are quiet. What the file system answers is an
-- argument; the waiting and the `.meta` file are left out.
pub mod Progress
use core_cleanup_test.Base.{
  ℕ, zero, suc, ◌+◌, ◌-◌, List, [], ◌∷◌, Bool, true, false, not, ltb, ◌==◌, if◌then◌else◌, Option,
  none, some, length, add32, sub32,
}
use core_cleanup_test.Transfer.{FileProgress, TxProgress}
use core_cleanup_test.FileAgent.Queue.{TxEntry, put_progress, check_tx_id}
use core_cleanup_test.FileAgent.Transactions.{drop_outgoing}

-- PACKET_SIZE_LO and PACKET_SIZE_HI, the bound of the two channels.
abbrev pub packet_size_lo : ℕ
packet_size_lo = 216

abbrev pub packet_size_hi : ℕ
packet_size_hi = 1435

-- The packets that the round queues.
pub data Sent : Type 0 where
  data_sent : (node_id tx_id byte_count chunk_start : ℕ) → List ℕ → Sent
  cancel_sent : (node_id tx_id : ℕ) → Sent

-- `byte_count`: the first entry, cut to what a packet of the channel holds.
unfoldable pub chunk_count : ℕ → FileProgress → ℕ
chunk_count use_channel tp =
    let byte_count = add32 (sub32 tp.chunk_end tp.chunk_start) 1 in
    if use_channel == 0
    then (if ltb packet_size_lo byte_count then packet_size_lo else byte_count)
    else if use_channel == 1
    then (if ltb packet_size_hi byte_count then packet_size_hi else byte_count)
    else byte_count

-- The first entry after `byte_count` bytes of it were sent, which go up to `tp.chunk_end`.
unfoldable pub sent_from : FileProgress → ℕ → FileProgress
sent_from c byte_count = record c {
  chunk_start = add32 (sub32 (add32 c.chunk_start byte_count) 1) 1;
}

-- An entry that is done is removed, and the file is closed.
unfoldable pub pop_done : TxProgress → TxProgress
pop_done tx = elim tx.file_info [
  | [] ↦ tx
  | c ∷ cs ↦ if ltb c.chunk_end c.chunk_start then record tx { fp = false; file_info = cs } else tx
]

-- The other end is asked to give the transaction up.
cancel : Option ℕ → ℕ → List Sent
cancel none tx_id = []
cancel (some remote) tx_id = cancel_sent remote tx_id ∷ []

-- A chunk that was read whole goes out, if the other end is known.
unfoldable pub send_chunk :
    ℕ
    → (ℕ → ℕ → List ℕ)
    → ℕ
    → TxProgress
    → FileProgress
    → List FileProgress
    → TxProgress × List Sent
unfolding chunk_count sent_from
send_chunk use_channel fread remote tx c cs =
    let byte_count = chunk_count use_channel c in
    (
      record tx { file_info = sent_from c byte_count ∷ cs },
      data_sent remote tx.tx_id byte_count c.chunk_start (fread c.chunk_start byte_count) ∷ [],
    )

send_known :
    ℕ
    → (ℕ → ℕ → List ℕ)
    → Option ℕ
    → TxProgress
    → FileProgress
    → List FileProgress
    → TxProgress × List Sent
unfolding send_chunk
send_known use_channel fread none tx c cs = (tx, [])
send_known use_channel fread (some remote) tx c cs = send_chunk use_channel fread remote tx c cs

-- With the file open: the bytes that `fread` brings decide.
send_open :
    ℕ
    → (ℕ → ℕ → List ℕ)
    → Option ℕ
    → TxEntry
    → ℕ
    → FileProgress
    → List FileProgress
    → TxEntry × List Sent
unfolding chunk_count send_known pop_done drop_outgoing cancel
send_open use_channel fread remote e tx_id c cs =
    let tx = e.progress tx_id in
    let byte_count = chunk_count use_channel c in
    let (tx', sent) = send_known use_channel fread remote tx c cs in
    let e' = drop_outgoing e tx_id in
    if length (fread c.chunk_start byte_count) == byte_count
    then (put_progress e tx_id (pop_done tx'), sent)
    else (put_progress e' tx_id (pop_done (e'.progress tx_id)), cancel remote tx_id)

-- The first entry of a transaction, if it has one. `opens` is the answer of `fopen`.
send_entry :
    ℕ → Bool → (ℕ → ℕ → List ℕ) → Option ℕ → TxEntry → ℕ → List FileProgress → TxEntry × List Sent
unfolding send_open drop_outgoing cancel
send_entry use_channel opens fread remote e tx_id [] = (e, [])
send_entry use_channel opens fread remote e tx_id (c ∷ cs) =
    let tx = e.progress tx_id in
    if tx.fp
    then send_open use_channel fread remote e tx_id c cs
    else if opens
    then send_open use_channel fread remote (put_progress e tx_id (record tx { fp = true })) tx_id c
        cs
    else (drop_outgoing e tx_id, cancel remote tx_id)

-- The round, for the outgoing table of the active node.
unfoldable pub send_round : ℕ → Bool → (ℕ → ℕ → List ℕ) → Option ℕ → TxEntry → TxEntry × List Sent
unfolding send_entry check_tx_id
send_round use_channel opens fread remote e =
    let tx_id = check_tx_id e.progress e.id in
    if ltb 0 tx_id
    then send_entry use_channel opens fread remote e tx_id (e.progress tx_id).file_info
    else (e, [])

-- The ids of a QUEUE packet: those of the slots from `i` on, as many as there is room for. The packet
-- has zeros behind them.
pub queue_ids_of : ℕ → ℕ → ℕ → (ℕ → TxProgress) → List ℕ
queue_ids_of zero room i progress = []
queue_ids_of (suc n) zero i progress = []
queue_ids_of (suc n) (suc room) i progress =
    if (progress i).tx_id == 0
    then queue_ids_of n (suc room) (i + 1) progress
    else (progress i).tx_id ∷ queue_ids_of n room (i + 1) progress
