-- ===== src/FileAgent/Transactions/Tables.antt =====
-- The well-formedness of a transaction table of programs/agents/agent_file.cpp.
use Prim.Native.Nat.{ℕ, suc, ◌^◌, ◌<◌}
use core_cleanup_test.Base.{◌≡◌, refl, arith, ◌⊎◌, Bool, true, false, not, ◌==◌, ◌||◌}
use core_cleanup_test.Base.Counting.{count_below, count_below_insert, count_below-le}
use core_cleanup_test.Transfer.{TxProgress}
use core_cleanup_test.FileAgent.Queue.{TxEntry, queue_size, update}
use core_cleanup_test.FileAgent.Transactions.{add_progress, drop_incoming, drop_outgoing}

-- Whether a slot is taken.
abbrev pub taken : (ℕ → TxProgress) → ℕ → Bool
taken progress i = not ((progress i).tx_id == 0)

-- Each slot is free or holds the transaction of its own number, and `size` counts the taken ones.
pub record IsTable (e : TxEntry) : Type 0 where
  pub own : (i : ℕ) → i < queue_size → ((e.progress i).tx_id ≡ 0) ⊎ ((e.progress i).tx_id ≡ i)
  pub counted : e.size ≡ count_below queue_size (taken e.progress)

-- Whether a slot cannot be given out: slot 0 stands for a free one.
unfoldable pub used : (ℕ → TxProgress) → ℕ → Bool
used progress i = (i == 0) || taken progress i

-- `used` has slot 0 besides the taken ones.
used-suc :
    (progress : ℕ → TxProgress)
    → taken progress 0 ≡ false
    → count_below queue_size (used progress) ≡ suc (count_below queue_size (taken progress))
unfolding used
used-suc progress f =
    count_below_insert queue_size 0 (taken progress) (used progress) (omega arith) f refl
      (λ x h. ground arith)

pub count_used : (e : TxEntry) → IsTable e → count_below queue_size (used e.progress) ≡ suc e.size
count_used e t =
    let zero_free : taken e.progress 0 ≡ false = ground (arith, t.own 0 (omega arith)) in
    omega (arith, used-suc e.progress zero_free, t.counted)

-- Slot 0 is never taken, so a full table has 255 transactions.
pub IsTable-lt : (e : TxEntry) → IsTable e → e.size < 2 ^ 8
IsTable-lt e t = omega (arith, count_used e t, count_below-le queue_size (used e.progress))

-- The table with one slot taken more.
more_taken :
    (e : TxEntry) (tx : TxProgress)
    → IsTable e
    → 0 < tx.tx_id
    → tx.tx_id < queue_size
    → taken e.progress tx.tx_id ≡ false
    → count_below queue_size (taken (update e.progress tx.tx_id tx)) ≡ suc e.size
more_taken e tx t p l f =
    let more =
      count_below_insert queue_size tx.tx_id (taken e.progress)
        (taken (update e.progress tx.tx_id tx)) l f (ground arith) (λ x h. ground arith) in
    omega (arith, more, t.counted)

-- A new transaction in a free slot.
pub add_progress-IsTable :
    (e : TxEntry) (tx : TxProgress)
    → IsTable e
    → 0 < tx.tx_id
    → tx.tx_id < queue_size
    → taken e.progress tx.tx_id ≡ false
    → IsTable (add_progress e tx)
unfolding add_progress
add_progress-IsTable e tx t p l f =
    let more = more_taken e tx t p l f in
    let zero_free : taken (update e.progress tx.tx_id tx) 0 ≡ false =
      ground (arith, t.own 0 (omega arith)) in
    let all_used = used-suc (update e.progress tx.tx_id tx) zero_free in
    let free : suc e.size < 2 ^ 8 =
      omega
        (arith, more, all_used, count_below-le queue_size (used (update e.progress tx.tx_id tx))) in
    record { own = λ i h. ground (arith, t.own i h); counted = omega (arith, more, free) }

-- The table with one slot taken less.
less_taken :
    (e : TxEntry) (tx : TxProgress) (i : ℕ)
    → IsTable e
    → i < queue_size
    → taken e.progress i ≡ true
    → tx.tx_id ≡ 0
    → e.size ≡ suc (count_below queue_size (taken (update e.progress i tx)))
less_taken e tx i t l taken_i z =
    let more =
      count_below_insert queue_size i (taken (update e.progress i tx)) (taken e.progress) l
        (ground (arith, z)) taken_i (λ x h. ground arith) in
    omega (arith, more, t.counted)

-- Deleting a taken slot of the incoming table keeps it well formed.
pub drop_incoming-IsTable :
    (e : TxEntry) (i : ℕ)
    → IsTable e
    → i < queue_size
    → taken e.progress i ≡ true
    → IsTable (drop_incoming e i)
unfolding drop_incoming
drop_incoming-IsTable e i t l h = record {
  own = λ j k. ground (arith, t.own j k);
  counted = omega (
    arith,
    IsTable-lt e t,
    less_taken e (record (e.progress i) { tx_id = 0; havemeta = false }) i t l h refl,
  );
}

-- Deleting a taken slot of the outgoing table keeps it well formed.
pub drop_outgoing-IsTable :
    (e : TxEntry) (i : ℕ)
    → IsTable e
    → i < queue_size
    → taken e.progress i ≡ true
    → IsTable (drop_outgoing e i)
unfolding drop_outgoing
drop_outgoing-IsTable e i t l h = record {
  own = λ j k. ground (arith, t.own j k);
  counted =
      omega
        (arith, IsTable-lt e t, less_taken e (record (e.progress i) { tx_id = 0 }) i t l h refl);
}
