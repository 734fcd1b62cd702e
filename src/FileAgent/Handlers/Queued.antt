-- ===== src/FileAgent/Handlers/Queued.antt =====
-- What the PACKET_QUEUE case of programs/agents/agent_file.cpp makes of the incoming table.
use Prim.Native.Nat.{ℕ, zero, suc, ◌+◌, ◌<◌, ◌≤◌}
use Prim.Native.String.{String}
use core_cleanup_test.Base.{
  ◌≡◌, ap, ◌∙◌, arith, Bool, not, ◌==◌, ◌&&◌, ◌||◌, ltb, leb, if◌then◌else◌, List, [], ◌∷◌,
  Bool-cases, inl, inr, All,
}
use core_cleanup_test.FileAgent.Queue.{TxEntry, queue_size, check_tx_id}
use core_cleanup_test.FileAgent.Transactions.{drop_incoming, add_progress}
use core_cleanup_test.FileAgent.Transactions.Tables.{
  taken, IsTable, drop_incoming-IsTable, add_progress-IsTable,
}
use core_cleanup_test.FileAgent.Handlers.{
  listed, prune, admit, take_queue, del_incoming, new_incoming,
}

-- One round of the first loop.
abbrev prune_round : ℕ → List ℕ → TxEntry → TxEntry
prune_round i ids e = if listed (e.progress i).tx_id ids then e else del_incoming e i

prune_round-IsTable :
    (i : ℕ) (ids : List ℕ) (e : TxEntry)
    → IsTable e
    → i < queue_size
    → IsTable (prune_round i ids e)
unfolding del_incoming
prune_round-IsTable i ids e t l = elim (Bool-cases (listed (e.progress i).tx_id ids)) [
  | inl p ↦ rw p t
  | inr p ↦ rw p (elim (Bool-cases ((e.progress i).tx_id == 0)) [
    | inl z ↦ rw z t
    | inr z ↦ rw z (drop_incoming-IsTable e i t l (ground (arith, z)))
  ])
]

taken-prune_round :
    (i j : ℕ) (ids : List ℕ) (e : TxEntry)
    → IsTable e
    → i < queue_size
    → taken (prune_round i ids e).progress j
      ≡ (if i == j then taken e.progress j && listed j ids else taken e.progress j)
unfolding del_incoming drop_incoming
taken-prune_round i j ids e t l = ground (arith, t.own i l)

prune-IsTable :
    (n i : ℕ) (ids : List ℕ) (e : TxEntry)
    → IsTable e
    → i + n ≤ queue_size
    → IsTable (prune n i ids e)
unfolding prune
prune-IsTable zero i ids e t l = t
prune-IsTable (suc n) i ids e t l =
    prune-IsTable n (i + 1) ids (prune_round i ids e)
      (prune_round-IsTable i ids e t (omega (arith, l))) (omega (arith, l))

taken-prune :
    (n i j : ℕ) (ids : List ℕ) (e : TxEntry)
    → IsTable e
    → i + n ≤ queue_size
    → taken (prune n i ids e).progress j ≡ (
        if leb i j && ltb j (i + n) then taken e.progress j && listed j ids else taken e.progress j)
unfolding prune
taken-prune zero i j ids e t l = ground arith
taken-prune (suc n) i j ids e t l = ground (
  arith,
  taken-prune n (i + 1) j ids (prune_round i ids e)
      (prune_round-IsTable i ids e t (omega (arith, l))) (omega (arith, l)),
  taken-prune_round i j ids e t (omega (arith, l)),
)

-- One round of the second loop.
abbrev admit_round : String → ℕ → TxEntry → TxEntry
admit_round name id e =
    if not (id == 0) && check_tx_id e.progress id == 0
    then add_progress e (new_incoming name id)
    else e

admit_round-IsTable :
    (name : String) (id : ℕ) (e : TxEntry)
    → IsTable e
    → id < queue_size
    → IsTable (admit_round name id e)
unfolding check_tx_id
admit_round-IsTable name id e t l =
    elim (Bool-cases (not (id == 0) && check_tx_id e.progress id == 0)) [
      | inl p ↦ rw p (
          add_progress-IsTable e (new_incoming name id) t (ground (arith, p)) l
            (ground (arith, p, t.own id l)))
      | inr p ↦ rw p t
    ]

taken-admit_round :
    (name : String) (id j : ℕ) (e : TxEntry)
    → IsTable e
    → id < queue_size
    → taken (admit_round name id e).progress j ≡ (taken e.progress j || (not (id == 0) && id == j))
unfolding check_tx_id add_progress
taken-admit_round name id j e t l = ground (arith, t.own id l)

admit-IsTable :
    (name : String) (ids : List ℕ) (e : TxEntry)
    → IsTable e
    → All (λ id. id < queue_size) ids
    → IsTable (admit name ids e)
unfolding admit
admit-IsTable name [] e t h = t
admit-IsTable name (id ∷ ids) e t h =
    admit-IsTable name ids (admit_round name id e) (admit_round-IsTable name id e t h.0) h.1

taken-admit :
    (name : String) (ids : List ℕ) (j : ℕ) (e : TxEntry)
    → IsTable e
    → All (λ id. id < queue_size) ids
    → 0 < j
    → taken (admit name ids e).progress j ≡ (taken e.progress j || listed j ids)
unfolding admit listed
taken-admit name [] j e t h p = ground arith
taken-admit name (id ∷ ids) j e t h p = ground (
  arith,
  p,
  taken-admit name ids j (admit_round name id e) (admit_round-IsTable name id e t h.0) h.1 p,
  taken-admit_round name id j e t h.0,
)

-- The two loops of the QUEUE case keep a table well formed, where the listed ids are bytes.
pub take_queue-IsTable :
    (name : String) (ids : List ℕ) (e : TxEntry)
    → IsTable e
    → All (λ id. id < queue_size) ids
    → IsTable (take_queue name ids e)
unfolding take_queue
take_queue-IsTable name ids e t h =
    admit-IsTable name ids (prune queue_size 0 ids e)
      (prune-IsTable queue_size 0 ids e t (omega arith)) h

-- The range of the first loop is the whole table.
whole :
    (t l : Bool) (j : ℕ)
    → j < queue_size
    → ((if leb 0 j && ltb j (0 + queue_size) then t && l else t) || l) ≡ l
whole t l j h = ground (arith, h)

-- After the two loops of the QUEUE case a slot from 1 to 255 of a well-formed table is taken
-- exactly if the packet lists its id, where the listed ids are bytes.
pub take_queue-taken :
    (name : String) (ids : List ℕ) (e : TxEntry) (j : ℕ)
    → IsTable e
    → All (λ id. id < queue_size) ids
    → 0 < j
    → j < queue_size
    → taken (take_queue name ids e).progress j ≡ listed j ids
unfolding take_queue
take_queue-taken name ids e j t h p l =
    taken-admit name ids j (prune queue_size 0 ids e)
      (prune-IsTable queue_size 0 ids e t (omega arith)) h p
    ∙ ap (λ b. b || listed j ids) (taken-prune queue_size 0 j ids e t (omega arith))
    ∙ whole (taken e.progress j) (listed j ids) j l
