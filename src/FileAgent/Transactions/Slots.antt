-- ===== src/FileAgent/Transactions/Slots.antt =====
-- The search for a free slot in `outgoing_tx_add` of programs/agents/agent_file.cpp.
use Prim.Native.Nat.{ℕ, zero, suc, ◌+◌, ◌<◌, ◌≤◌}
use native.Mathlib.Decide.{ℕ_discrete}
use core_cleanup_test.Base.{◌≡◌, ◌≢◌, arith, ◌⊎◌, inl, inr, ◌==◌, if◌then◌else◌, Bool-cases, ltb}
use core_cleanup_test.Base.Counting.{count_below-lt}
use core_cleanup_test.Base.Result.{ok}
use core_cleanup_test.Transfer.{TxProgress}
use core_cleanup_test.FileAgent.Queue.{TxEntry, queue_size}
use core_cleanup_test.FileAgent.Transactions.{find_id, up8}
use core_cleanup_test.FileAgent.Transactions.Tables.{used, IsTable, count_used}

-- A free slot that can be given out.
pub record IsFree (progress : ℕ → TxProgress) (i : ℕ) : Type 0 where
  pub positive : 0 < i
  pub below : i < queue_size
  pub free : (progress i).tx_id ≡ 0

-- The slot that is looked at: 0 is passed over.
abbrev pub first : ℕ → ℕ
first id = if id == 0 then 1 else id

-- The search ends with a free slot.
abbrev pub Found : (ℕ → TxProgress) → ℕ → ℕ → ℕ → Type 0
Found progress fuel id next = (i : ℕ) × (find_id fuel progress id next ≡ ok i) × IsFree progress i

find_id_here :
    (fuel : ℕ) (progress : ℕ → TxProgress) (id next : ℕ)
    → IsFree progress (first id)
    → Found progress (suc fuel) id next
unfolding find_id
find_id_here fuel progress id next f = (first id, ground (arith, f.free), f)

-- A round ends the search, or goes on with the next slot.
find_id_round :
    (fuel : ℕ) (progress : ℕ → TxProgress) (id next : ℕ)
    → first id < queue_size
    → up8 (first id) ≢ next
    → ((progress (first id)).tx_id ≢ 0 → Found progress fuel (up8 (first id)) next)
    → Found progress (suc fuel) id next
unfolding find_id
find_id_round fuel progress id next l n rest = elim (ℕ_discrete (progress (first id)).tx_id 0) [
  | yes e ↦
      find_id_here fuel progress id next (record { positive = ground arith; below = l; free = e })
  | no ne ↦ let (i, e, f) = rest ne in (i, ground (arith, e, n, ne), f)
]

-- The search is at `id`, not behind the free slot `j`, and the round does not end between them.
find_id-ahead :
    (fuel : ℕ) (progress : ℕ → TxProgress) (id next j : ℕ)
    → IsFree progress j
    → id ≤ j
    → (next ≤ id) ⊎ (j < next)
    → j < fuel + id
    → Found progress fuel id next
find_id-ahead zero progress id next j f l c h = absurd (omega arith)
find_id-ahead (suc fuel) progress id next j f l c h = elim (ℕ_discrete (first id) j) [
  | yes e ↦ find_id_here fuel progress id next (rw e f)
  | no n ↦
      find_id_round fuel progress id next (ground (arith, f.below, f.positive))
        (ground (arith, f.below, f.positive))
        (λ ne.
          find_id-ahead fuel progress (up8 (first id)) next j f
            (ground (arith, f.below, f.positive)) (ground (arith, f.below, f.positive))
            (ground (arith, f.below, f.positive)))
]

-- The search is at `id`, the end of the round is not ahead, and the free slot is before it.
find_id-behind :
    (fuel : ℕ) (progress : ℕ → TxProgress) (id next j : ℕ)
    → IsFree progress j
    → j < next
    → next ≤ id
    → id < queue_size
    → queue_size + j < fuel + id
    → Found progress fuel id next
find_id-behind zero progress id next j f l n k h = absurd (omega arith)
find_id-behind (suc fuel) progress id next j f l n k h =
    find_id_round fuel progress id next (ground (arith, f.positive)) (ground (arith, f.positive))
      (λ ne. elim (ℕ_discrete id 255) [
        | yes e ↦
            find_id-ahead fuel progress (up8 (first id)) next j f (ground (arith, e, f.positive))
              (inr l) (ground (arith, e, f.positive))
        | no m ↦
            find_id-behind fuel progress (up8 (first id)) next j f l (ground (arith, m, f.positive))
              (ground (arith, m, f.positive)) (ground (arith, m, f.positive))
      ])

-- 256 rounds find a free slot wherever the search begins.
pub find_id-free :
    (progress : ℕ → TxProgress) (next j : ℕ)
    → IsFree progress j
    → next < queue_size
    → Found progress queue_size next next
find_id-free progress next j f l = elim (Bool-cases (ltb j next)) [
  | inl before ↦
      find_id-behind queue_size progress next next j f (ground (arith, before)) (omega arith) l
        (ground (arith, before))
  | inr ahead ↦
      find_id-ahead queue_size progress next next j f (ground (arith, ahead)) (inl (omega arith))
        (omega (arith, f.below))
]

-- A table that is not full has a free slot.
pub free_slot : (e : TxEntry) → IsTable e → e.size < 255 → (j : ℕ) × IsFree e.progress j
unfolding used
free_slot e t l =
    let (j, below, unused) =
      count_below-lt queue_size (used e.progress) (omega (arith, count_used e t)) in
    (j, record { positive = ground (arith, unused); below = below; free = ground (arith, unused) })
