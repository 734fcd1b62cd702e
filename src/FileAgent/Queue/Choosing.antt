-- ===== src/FileAgent/Queue/Choosing.antt =====
-- Lemmas on `choose_incoming_tx_id` of programs/agents/agent_file.cpp.
use Prim.Native.Nat.{ℕ, zero, suc, ◌+◌, ◌-◌, ◌^◌, ◌<◌, ◌≤◌}
use native.Mathlib.Decide.{ℕ_discrete}
use core_cleanup_test.Base.{
  ◌≡◌, ◌≢◌, refl, arith, Bool, true, not, ◌==◌, ◌&&◌, ltb, leb, if◌then◌else◌, sub32, inl, inr, sym,
  ◌⊎◌, subst,
}
use core_cleanup_test.Transfer.{TxProgress}
use core_cleanup_test.FileAgent.Queue.{
  TxEntry, Choice, queue_size, merge_progress, choose_round, choose_loop, choose_incoming_tx_id,
}

-- What is left to receive of a transaction.
abbrev pub bytes_left : TxProgress → ℕ
bytes_left tx = sub32 tx.file_size tx.total_bytes

-- A transaction that can be chosen.
abbrev pub is_candidate : TxProgress → Bool
is_candidate tx = not (tx.tx_id == 0) && tx.havemeta

-- The rounds from `i` on merge the chunks of their transactions, and touch no other.
progress-choose_loop :
    (n i j : ℕ) (c : Choice)
    → (choose_loop n i c).entry.progress j ≡ (
        if leb i j && ltb j (i + n)
        then merge_progress (c.entry.progress j)
        else c.entry.progress j)
unfolding choose_loop choose_round
progress-choose_loop zero i j c = ground arith
progress-choose_loop (suc n) i j c =
    ground (arith, progress-choose_loop n (i + 1) j (choose_round i c))

-- A round does not raise what the best one has left.
choose_round-le : (i : ℕ) (c : Choice) → (choose_round i c).nsize ≤ c.nsize
unfolding choose_round
choose_round-le i c = ground arith

choose_loop-le : (n i : ℕ) (c : Choice) → (choose_loop n i c).nsize ≤ c.nsize
unfolding choose_loop
choose_loop-le zero i c = omega arith
choose_loop-le (suc n) i c =
    omega (arith, choose_loop-le n (i + 1) (choose_round i c), choose_round-le i c)

choose_round-least :
    (i : ℕ) (c : Choice)
    → is_candidate (merge_progress (c.entry.progress i)) ≡ true
    → (choose_round i c).nsize ≤ bytes_left (merge_progress (c.entry.progress i))
unfolding choose_round
choose_round-least i c h = ground (arith, h)

progress-choose_round :
    (i j : ℕ) (c : Choice) → i ≢ j → (choose_round i c).entry.progress j ≡ c.entry.progress j
unfolding choose_round
progress-choose_round i j c h = ground (arith, h)

choose_loop-least_here :
    (n i : ℕ) (c : Choice)
    → is_candidate (merge_progress (c.entry.progress i)) ≡ true
    → (choose_loop n (i + 1) (choose_round i c)).nsize
      ≤ bytes_left (merge_progress (c.entry.progress i))
choose_loop-least_here n i c h =
    omega (arith, choose_loop-le n (i + 1) (choose_round i c), choose_round-least i c h)

choose_loop-least :
    (n i j : ℕ) (c : Choice)
    → i ≤ j
    → j < i + n
    → is_candidate (merge_progress (c.entry.progress j)) ≡ true
    → (choose_loop n i c).nsize ≤ bytes_left (merge_progress (c.entry.progress j))
unfolding choose_loop
choose_loop-least zero i j c l k h = absurd (omega arith)
choose_loop-least (suc n) i j c l k h = elim (ℕ_discrete i j) [
  | yes e ↦ rw (sym e) (choose_loop-least_here n i c (rw e h))
  | no ne ↦
      let q = progress-choose_round i j c ne in
      subst
        (λ tx. (choose_loop n (i + 1) (choose_round i c)).nsize ≤ bytes_left (merge_progress tx)) q
        (choose_loop-least n (i + 1) j (choose_round i c) (omega arith) (omega arith) (rw q h))
]

-- Nothing is chosen so far, or a slot below `i`, whose rest is `nsize`.
abbrev IsChosen : ℕ → Choice → Type 0
IsChosen i c =
    ((c.tx_id ≡ 0) × (c.nsize ≡ 2 ^ 32 - 1))
    ⊎ ((c.tx_id < i)
        × (is_candidate (c.entry.progress c.tx_id) ≡ true)
        × (bytes_left (c.entry.progress c.tx_id) ≡ c.nsize))

-- Each slot holds its own number or none.
abbrev pub IsOwn : (ℕ → TxProgress) → Type 0
IsOwn progress = (i : ℕ) → i < queue_size → ((progress i).tx_id ≡ 0) ⊎ ((progress i).tx_id ≡ i)

choose_round-IsOwn :
    (i : ℕ) (c : Choice) → IsOwn c.entry.progress → IsOwn (choose_round i c).entry.progress
unfolding choose_round merge_progress
choose_round-IsOwn i c own j l = ground (arith, own j l)

choose_round-IsChosen :
    (i : ℕ) (c : Choice)
    → i < queue_size
    → IsOwn c.entry.progress
    → IsChosen i c
    → IsChosen (i + 1) (choose_round i c)
unfolding choose_round merge_progress
choose_round-IsChosen i c l own h = ground (arith, own i l, h)

choose_loop-IsChosen :
    (n i : ℕ) (c : Choice)
    → i + n ≤ queue_size
    → IsOwn c.entry.progress
    → IsChosen i c
    → IsChosen (i + n) (choose_loop n i c)
unfolding choose_loop
choose_loop-IsChosen zero i c l own h = ground (arith, h)
choose_loop-IsChosen (suc n) i c l own h =
    let e : i + 1 + n ≡ i + suc n = omega arith in
    rw (sym e) (
      choose_loop-IsChosen n (i + 1) (choose_round i c) (omega (arith, l))
        (choose_round-IsOwn i c own) (choose_round-IsChosen i c (omega (arith, l)) own h))

-- What the rounds up to `n` leave.
abbrev chosen : ℕ → TxEntry → Choice
chosen n e = choose_loop n 0 (record { entry = e; nsize = 2 ^ 32 - 1; tx_id = 0 })

chosen-least :
    (n : ℕ) (e : TxEntry) (j : ℕ)
    → n ≤ queue_size
    → IsOwn e.progress
    → j < n
    → is_candidate ((chosen n e).entry.progress j) ≡ true
    → bytes_left ((chosen n e).entry.progress j) < 2 ^ 32 - 1
    → (is_candidate ((chosen n e).entry.progress (chosen n e).tx_id) ≡ true)
      × (bytes_left ((chosen n e).entry.progress (chosen n e).tx_id)
          ≤ bytes_left ((chosen n e).entry.progress j))
chosen-least n e j k own l h b =
    let start : Choice = record { entry = e; nsize = 2 ^ 32 - 1; tx_id = 0 } in
    let inv = choose_loop-IsChosen n 0 start (omega (arith, k)) own (inl (refl, refl)) in
    let p = progress-choose_loop n 0 j start in
    let q : (chosen n e).entry.progress j ≡ merge_progress (e.progress j) = ground (arith, p, l) in
    let least =
      choose_loop-least n 0 j start (omega arith) (omega (arith, l))
        (subst (λ tx. is_candidate tx ≡ true) q h) in
    let least' = subst (λ tx. (chosen n e).nsize ≤ bytes_left tx) (sym q) least in
    elim inv [
      | inl none ↦ absurd (omega (arith, none.1, least', b))
      | inr some ↦ (some.1, omega (arith, some.2, least'))
    ]

-- Where each slot holds its own number or none and some transaction with metadata has less than
-- 2^32 - 1 bytes left, the transaction chosen has metadata and no more bytes left than that one,
-- both as the call leaves them.
pub choose_incoming_tx_id-least :
    (e : TxEntry) (j : ℕ)
    → IsOwn e.progress
    → j < queue_size
    → is_candidate ((choose_incoming_tx_id e).entry.progress j) ≡ true
    → bytes_left ((choose_incoming_tx_id e).entry.progress j) < 2 ^ 32 - 1
    → (is_candidate ((choose_incoming_tx_id e).entry.progress (choose_incoming_tx_id e).tx_id)
        ≡ true)
      × (bytes_left ((choose_incoming_tx_id e).entry.progress (choose_incoming_tx_id e).tx_id)
          ≤ bytes_left ((choose_incoming_tx_id e).entry.progress j))
unfolding choose_incoming_tx_id
choose_incoming_tx_id-least e j own l h b = chosen-least queue_size e j (omega arith) own l h b
