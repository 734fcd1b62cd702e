-- ===== src/Commands/Again.antt =====
-- Lemmas on `run_commands` of libraries/support/command_queue.cpp: a pass right after another.
use core_cleanup_test.Base.{
  ℕ, ◌+◌, ◌^◌, ◌≡◌, ◌⊎◌, inl, inr, refl, sym, ap, ◌∙◌, arith, List, [], ◌∷◌, Bool, true, false, leb,
  if◌then◌else◌, All, Option, none, some, Bool-cases,
}
use core_cleanup_test.Commands.{
  Event, has_bit, is_repeat, is_conditional, set_already_ran, CommandQueue, Pass, read_clock,
  run_command, serve, keep_event, run_loop, run_commands,
}
use core_cleanup_test.Commands.Passes.{IsApart, IsWithin, ready_at}

-- A pass at time `now` leaves the event alone.
record IsSettled (now : ℕ) (cinfo : Bool) (e : Event) : Type 0 where
  idle :
      (leb e.mjd now ≡ false)
      ⊎ (is_conditional e ≡ true) × (is_repeat e ≡ true) × (e.already_ran ≡ true) × (cinfo ≡ true)
      ⊎ (is_conditional e ≡ true) × (e.already_ran ≡ false) × (cinfo ≡ false)

flag_bits :
    (flag : ℕ)
    → let flag' = if has_bit flag 15 then flag else flag + 2 ^ 15 in
      (has_bit flag' 16 ≡ has_bit flag 16) × (has_bit flag' 17 ≡ has_bit flag 17)
flag_bits flag = ground arith

serve-IsSettled :
    (clock : ℕ → ℕ) (cinfo : Bool) (lo hi : ℕ) (e : Event) (p : Pass)
    → IsWithin clock lo hi
    → IsApart lo hi e
    → IsSettled lo cinfo e
    → serve clock cinfo e p ≡ (some e, read_clock p)
unfolding serve
serve-IsSettled clock cinfo lo hi e p within apart settled =
    let ready = ready_at clock lo hi p.readings e within apart in
    rw ready (elim (Bool-cases (leb e.mjd lo)) [
      | inr wait ↦ rw wait refl
      | inl due ↦ elim settled.idle [
        | inl wait ↦ rw wait refl
        | inr (inl (conditional, again, ran, met)) ↦ rw (due, conditional, met, again, ran) refl
        | inr (inr (conditional, fresh, unmet)) ↦
            rw (due, conditional, unmet)
              (ap (λ b. (some (set_already_ran b e), read_clock p)) (sym fresh))
      ]
    ])

IsKept : ℕ → ℕ → Bool → Event → Type 0
IsKept lo hi cinfo e = IsSettled lo cinfo e × IsApart lo hi e

serve-IsKept :
    (clock : ℕ → ℕ) (cinfo : Bool) (lo hi : ℕ) (e : Event) (p : Pass)
    → IsWithin clock lo hi
    → IsApart lo hi e
    → All (IsKept lo hi cinfo) (keep_event (serve clock cinfo e p).0 [])
unfolding serve run_command IsKept
serve-IsKept clock cinfo lo hi e p within apart =
    let ready = ready_at clock lo hi p.readings e within apart in
    let bits = flag_bits e.flag in
    rw ready (elim (Bool-cases (leb e.mjd lo)) [
      | inr wait ↦ rw wait ((record { idle = inl wait }, apart), tt)
      | inl due ↦ elim (Bool-cases (is_conditional e)) [
        | inr plain ↦ rw (due, plain) tt
        | inl conditional ↦ elim (Bool-cases cinfo) [
          | inr unmet ↦
              simp (due, conditional, unmet)
                ((record { idle = inr (inr (conditional, refl, refl)) }, apart), tt)
          | inl met ↦ elim (Bool-cases (is_repeat e)) [
            | inr once ↦ rw (due, conditional, met, once) tt
            | inl again ↦ elim (Bool-cases e.already_ran) [
              | inl ran ↦
                  simp (due, conditional, met, again, ran)
                    ((record { idle = inr (inl (conditional, again, ran, refl)) }, apart), tt)
              | inr fresh ↦
                  simp (due, conditional, met, again, fresh)
                    (
                      (
                        record {
                          idle = inr (inl (bits.0 ∙ conditional, bits.1 ∙ again, refl, refl));
                        },
                        apart,
                      ),
                      tt,
                    )
            ]
          ]
        ]
      ]
    ])

All-keep_event :
    (P : Event → Type 0) (kept : Option Event) (es : List Event)
    → All P (keep_event kept [])
    → All P es
    → All P (keep_event kept es)
All-keep_event P none es h k = k
All-keep_event P (some e) es h k = (h.0, k)

run_loop-IsKept :
    (clock : ℕ → ℕ) (cinfo : Bool) (lo hi : ℕ) (es : List Event) (p : Pass)
    → IsWithin clock lo hi
    → All (IsApart lo hi) es
    → All (IsKept lo hi cinfo) (run_loop clock cinfo es p).0
unfolding run_loop
run_loop-IsKept clock cinfo lo hi [] p within apart = tt
run_loop-IsKept clock cinfo lo hi (e ∷ es) p within apart =
    let (kept, p1) = serve clock cinfo e p in
    All-keep_event (IsKept lo hi cinfo) kept (run_loop clock cinfo es p1).0
      (serve-IsKept clock cinfo lo hi e p within apart.0)
      (run_loop-IsKept clock cinfo lo hi es p1 within apart.1)

-- The pass that finds every event settled.
run_loop-idle :
    (clock : ℕ → ℕ) (cinfo : Bool) (lo hi : ℕ) (es : List Event) (p : Pass)
    → IsWithin clock lo hi
    → All (IsKept lo hi cinfo) es
    → let (es', p') = run_loop clock cinfo es p in
      (es' ≡ es) × (p'.log ≡ p.log) × (p'.changed ≡ p.changed)
unfolding run_loop IsKept
run_loop-idle clock cinfo lo hi [] p within kept = (refl, refl, refl)
run_loop-idle clock cinfo lo hi (e ∷ es) p within kept =
    let (same, log, changed) = run_loop-idle clock cinfo lo hi es (read_clock p) within kept.1 in
    rw (serve-IsSettled clock cinfo lo hi e p within kept.0.1 kept.0.0)
      (ap (λ l. e ∷ l) same, log, changed)

-- Where the clock stays from `lo` to `hi` and no event falls due in between, a second pass right
-- after the first, with the condition as it was, runs no command and leaves the queue as it is.
pub run_commands-again :
    (clock : ℕ → ℕ) (cinfo : Bool) (lo hi : ℕ) (q : CommandQueue) (readings : ℕ) (log : List Event)
    → IsWithin clock lo hi
    → All (IsApart lo hi) q.commands
    → let (q', readings', log') = run_commands clock cinfo q readings log in
      let (q2, _, log2) = run_commands clock cinfo q' readings' log' in
      (q2.commands ≡ q'.commands) × (log2 ≡ log') × (q2.queue_changed ≡ q'.queue_changed)
unfolding run_commands
run_commands-again clock cinfo lo hi q readings log within apart =
    let start : Pass = record { readings = readings; log = log; changed = q.queue_changed } in
    let (es, p) = run_loop clock cinfo q.commands start in
    run_loop-idle clock cinfo lo hi es p within
      (run_loop-IsKept clock cinfo lo hi q.commands start within apart)
