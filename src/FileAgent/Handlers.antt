-- ===== src/FileAgent/Handlers.antt =====
-- The cases of `recv_loop` in programs/agents/agent_file.cpp, and `next_incoming_tx`. A handler takes
-- the fields of its packet and the tables of the nodes, and returns the tables and the packets that
-- it queues. `.meta` files are left out. Where the source looks a node up again that it has just
-- found, the model keeps the one that was found.
pub mod Queued
pub mod Requested
use Prim.Native.Nat.{ℕ, zero, suc, ◌+◌, ◌-◌, ◌%◌, ◌^◌}
use Prim.Native.String.{String}
use core_cleanup_test.Base.{
  List, [], ◌∷◌, ◌++◌, map, Bool, true, false, ◌&&◌, not, ltb, leb, ◌==◌, if◌then◌else◌, Option,
  none, some, get_elem?, set, add32, sub32,
}
use core_cleanup_test.Transfer.{FileProgress, TxProgress}
use core_cleanup_test.FileAgent.Chunks.{find_chunks_missing}
use core_cleanup_test.FileAgent.Receive.{DataChunk, receive_data}
use core_cleanup_test.FileAgent.Queue.{
  TxEntry, TxQueue, queue_size, put_progress, check_node_name, check_node_id, check_tx_id,
  lookup_remote_node_id, choose_incoming_tx_id,
}
use core_cleanup_test.FileAgent.Transactions.{
  MetaShort, add_progress, drop_incoming, drop_outgoing, take_meta,
}

-- The packets that the handlers queue, by the structures that they are made from.
pub data Message : Type 0 where
  complete_message cancel_message : (node_id tx_id : ℕ) → Message
  reqdata_message : (node_id tx_id hole_start hole_end : ℕ) → Message
  reqmeta_message : (node_id : ℕ) → String → List ℕ → Message

-- What a handler leaves.
abbrev pub Reply : Type 0
Reply = List TxQueue × List Message

-- A table and the packets.
abbrev pub EntryReply : Type 0
EntryReply = TxEntry × List Message

-- The file moves to its final place once; the stream is closed.
finish : TxProgress → TxProgress
finish tx = if tx.complete then tx else record tx { fp = false; complete = true }

-- A transaction of which all bytes are there.
pub is_received : TxProgress → Bool
is_received tx = tx.file_size == tx.total_bytes && tx.havemeta

-- One request for each chunk that is missing, and what `find_chunks_missing` leaves.
request : ℕ → TxEntry → ℕ → TxProgress → EntryReply
request remote e tx_id tx =
    let m = find_chunks_missing tx.file_info tx.file_size in
    (
      put_progress e tx_id (record tx { file_info = m.file_info; total_bytes = m.total_bytes }),
      map (λ c. reqdata_message remote tx.tx_id c.chunk_start c.chunk_end) m.missing,
    )

-- The transaction that was chosen, for a remote node that is known.
advance : ℕ → TxEntry → ℕ → EntryReply
unfolding finish is_received request
advance remote e tx_id =
    let tx = e.progress tx_id in
    if is_received tx
    then (put_progress e tx_id (finish tx), complete_message remote tx.tx_id ∷ [])
    else request remote e tx_id tx

with_remote : Option ℕ → TxEntry → ℕ → EntryReply
unfolding advance
with_remote none e tx_id = (e, [])
with_remote (some remote) e tx_id = if ltb 0 tx_id then advance remote e tx_id else (e, [])

-- `next_incoming_tx(node)` on the incoming table; `remote` is what `lookup_remote_node_id` answers.
unfoldable pub next_incoming_tx : Option ℕ → TxEntry → EntryReply
unfolding with_remote choose_incoming_tx_id check_tx_id
next_incoming_tx remote e =
    let c = choose_incoming_tx_id e in
    with_remote remote c.entry (check_tx_id c.entry.progress c.tx_id)

-- A call of `incoming_tx_del`, whose status is not used.
pub del_incoming : TxEntry → ℕ → TxEntry
unfolding drop_incoming
del_incoming e tx_id = if (e.progress tx_id).tx_id == 0 then e else drop_incoming e tx_id

-- The records that a handler changes, at a node that may not be there.
at_node : List TxQueue → Option ℕ → (ℕ → TxQueue → TxQueue × List Message) → Reply
at_node txq none f = (txq, [])
at_node txq (some node) f = elim (get_elem? txq node) [
  | none ↦ (txq, [])
  | some q ↦ let (q', sent) = f node q in (set txq node q', sent)
]

-- The case PACKET_DATA, once the transaction is known: what the placing leaves, and, when that makes
-- the file complete and the other end is known, the final move and the word that it is complete.
after_data : Option ℕ → TxEntry → ℕ → TxProgress → EntryReply
unfolding finish is_received
after_data none e tx_id tx = (put_progress e tx_id tx, [])
after_data (some remote) e tx_id tx =
    if is_received tx
    then (put_progress e tx_id (finish tx), complete_message remote tx.tx_id ∷ [])
    else (put_progress e tx_id tx, [])

stored : ℕ → DataChunk → Bool → List TxQueue → ℕ → TxQueue → TxQueue × List Message
unfolding after_data receive_data check_tx_id lookup_remote_node_id
stored tx_id d fopen_ok txq node q =
    let found = check_tx_id q.incoming.progress tx_id in
    let (e, sent) =
      after_data (lookup_remote_node_id node txq) q.incoming found
        (receive_data fopen_ok d (q.incoming.progress found)) in
    if ltb 0 found then (record q { incoming = e }, sent) else (q, [])

unfoldable pub receive_data_packet : ℕ → ℕ → DataChunk → Bool → List TxQueue → Reply
unfolding at_node stored check_node_id
receive_data_packet node_id tx_id d fopen_ok txq =
    at_node txq (check_node_id node_id txq) (stored tx_id d fopen_ok txq)

-- The case PACKET_CANCEL.
cancelled : ℕ → List TxQueue → ℕ → TxQueue → TxQueue × List Message
unfolding del_incoming next_incoming_tx check_tx_id lookup_remote_node_id
cancelled tx_id txq node q =
    let found = check_tx_id q.incoming.progress tx_id in
    let e = if ltb 0 found then del_incoming q.incoming found else q.incoming in
    let (e', sent) = next_incoming_tx (lookup_remote_node_id node txq) e in
    (record q { incoming = e' }, sent)

unfoldable pub receive_cancel : ℕ → ℕ → List TxQueue → Reply
unfolding at_node cancelled check_node_id
receive_cancel node_id tx_id txq = at_node txq (check_node_id node_id txq) (cancelled tx_id txq)

-- The case PACKET_COMPLETE: the transaction goes, and the other end is told, if it is known.
completed : ℕ → List TxQueue → ℕ → TxQueue → TxQueue × List Message
unfolding check_tx_id lookup_remote_node_id drop_outgoing
completed tx_id txq node q =
    let found = check_tx_id q.outgoing.progress tx_id in
    if ltb 0 found
    then elim (lookup_remote_node_id node txq) [
      | none ↦ (q, [])
      | some remote ↦
          (record q { outgoing = drop_outgoing q.outgoing found }, cancel_message remote tx_id ∷ [])
    ]
    else (q, [])

unfoldable pub receive_complete : ℕ → ℕ → List TxQueue → Reply
unfolding at_node completed check_node_id
receive_complete node_id tx_id txq = at_node txq (check_node_id node_id txq) (completed tx_id txq)

-- The case PACKET_REQDATA: the hole in the list from `j` on, with the size that is added.
unfoldable pub place_request : FileProgress → ℕ → List FileProgress → List FileProgress × ℕ
place_request tp count [] = (tp ∷ [], count)
place_request tp count (c ∷ cs) =
    let (rest, added) = place_request tp count cs in
    if tp.chunk_start == c.chunk_start && tp.chunk_end == c.chunk_end
    then (c ∷ cs, 0)
    else if ltb tp.chunk_start c.chunk_start
    then (if ltb (add32 tp.chunk_end 1) c.chunk_start then (tp ∷ c ∷ cs, count) else (
      record c { chunk_start = tp.chunk_start } ∷ cs,
      add32 (sub32 (sub32 c.chunk_start 1) tp.chunk_start) 1,
    ))
    else if leb tp.chunk_start (add32 c.chunk_end 1) && ltb c.chunk_end tp.chunk_end
    then (record c { chunk_end = tp.chunk_end } ∷ cs, sub32 tp.chunk_end c.chunk_end)
    else (c ∷ rest, added)

requested : ℕ → FileProgress → TxEntry → TxEntry
unfolding check_tx_id place_request
requested tx_id tp e =
    let found = check_tx_id e.progress tx_id in
    let tx = e.progress found in
    let count = add32 (sub32 tp.chunk_end tp.chunk_start) 1 in
    let (info, added) = place_request tp count tx.file_info in
    if ltb 0 found
    then record (put_progress e found
        (record tx { file_info = info; total_bytes = add32 tx.total_bytes added })) { id = tx_id }
    else e

unfoldable pub receive_reqdata : ℕ → ℕ → FileProgress → List TxQueue → Reply
unfolding at_node requested check_node_id
receive_reqdata node_id tx_id tp txq =
    if ltb tp.chunk_end tp.chunk_start
    then (txq, [])
    else at_node txq (check_node_id node_id txq)
        (λ node q. (record q { outgoing = requested tx_id tp q.outgoing }, []))

-- The case PACKET_QUEUE: whether an id is in the packet.
pub listed : ℕ → List ℕ → Bool
listed id [] = false
listed id (x ∷ xs) = if id == x then true else listed id xs

-- The first loop: the transactions that the other end does not offer go.
unfoldable pub prune : ℕ → ℕ → List ℕ → TxEntry → TxEntry
unfolding listed del_incoming
prune zero i ids e = e
prune (suc n) i ids e =
    prune n (i + 1) ids (if listed (e.progress i).tx_id ids then e else del_incoming e i)

-- `incoming_tx_add(node_name, tx_id)` on the table.
abbrev pub new_incoming : String → ℕ → TxProgress
new_incoming name tx_id = record {
  tx_id = tx_id;
  havemeta = false;
  complete = false;
  node_name = name;
  agent_name = "";
  file_name = "";
  file_size = 0;
  total_bytes = 0;
  file_info = [];
  fp = false;
  partial = λ x. none;
}

-- The second loop: what it offers and is not here is added.
unfoldable pub admit : String → List ℕ → TxEntry → TxEntry
unfolding add_progress check_tx_id
admit name [] e = e
admit name (id ∷ ids) e = admit name ids (
    if not (id == 0) && check_tx_id e.progress id == 0
    then add_progress e (new_incoming name id)
    else e)

-- Both loops, for the table of the node.
unfoldable pub take_queue : String → List ℕ → TxEntry → TxEntry
unfolding prune admit
take_queue name ids e = admit name ids (prune queue_size 0 ids e)

-- The ids whose metadata is missing, from `i` on, as many as a packet has room for.
missing_meta : ℕ → ℕ → ℕ → TxEntry → List ℕ
missing_meta zero room i e = []
missing_meta (suc n) zero i e = []
missing_meta (suc n) (suc room) i e =
    let tx = e.progress i in
    if not (tx.tx_id == 0) && not tx.havemeta
    then i ∷ missing_meta n room (i + 1) e
    else missing_meta n (suc room) (i + 1) e

request_meta : ℕ → String → List ℕ → List Message
request_meta node name [] = []
request_meta node name (id ∷ ids) = reqmeta_message node name (id ∷ ids) ∷ []

-- The packet is queued before those of `next_incoming_tx`. `due` says whether the time of the last
-- request has passed. The remote number is the one that the packet brings.
queued : ℕ → List ℕ → Bool → ℕ → TxQueue → TxQueue × List Message
unfolding take_queue missing_meta request_meta next_incoming_tx
queued remote ids due node q =
    let e = take_queue q.node_name ids q.incoming in
    let asked = if due then request_meta node q.node_name (missing_meta 255 182 1 e) else [] in
    let id = (remote + 1) % 2 ^ 8 in
    let (e', sent) = next_incoming_tx (if ltb 0 id then some (id - 1) else none) e in
    (record q { node_id = id; incoming = e' }, asked ++ sent)

-- The case PACKET_QUEUE, with the node that becomes active.
unfoldable pub receive_queue : ℕ → String → List ℕ → Bool → List TxQueue → Reply × Option ℕ
unfolding at_node queued check_node_name
receive_queue remote name ids due txq =
    let node = check_node_name name txq in (at_node txq node (queued remote ids due), node)
