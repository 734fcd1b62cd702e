-- ===== src/Commands/Passes.antt =====
-- Lemmas on `run_commands` of libraries/support/command_queue.cpp: what a pass does to the queue.
use mathlib.Core.List.{append_assoc, append-nil}
use core_cleanup_test.Base.{
  ℕ, ◌<◌, ◌≤◌, ◌≡◌, ◌⊎◌, inl, inr, refl, sym, ap, ◌∙◌, arith, List, [], ◌∷◌, ◌++◌, map, Bool, true,
  false, ◌&&◌, ◌||◌, leb, not, if◌then◌else◌, All, Option, none, some, Bool-cases,
}
use core_cleanup_test.Commands.{
  Event, is_repeat, is_conditional, set_executed, set_already_ran, CommandQueue, Pass, run_command,
  serve, keep_event, run_loop, run_commands,
}

-- An event apart from the time it was run at.
pub forget : Event → Event
forget e = record {
  mjd = e.mjd;
  utcexec = 0;
  name = e.name;
  type = e.type;
  flag = e.flag;
  payload = e.payload;
  condition = e.condition;
  already_ran = e.already_ran;
  event_string = e.event_string;
}

-- Whether an event is run by a pass at time `now`.
pub executes : ℕ → Bool → Event → Bool
executes now cinfo e =
    leb e.mjd now && (not (is_conditional e) || (cinfo && (not (is_repeat e) || not e.already_ran)))

-- What is left of it in the queue: nothing of an event that is run and does not repeat on a condition.
pub rest_of : ℕ → Bool → Event → List Event
rest_of now cinfo e =
    if executes now cinfo e
    then (if is_conditional e && is_repeat e
        then set_already_ran true (set_executed 0 e) ∷ []
        else [])
    else if leb e.mjd now && not cinfo
    then set_already_ran false e ∷ []
    else e ∷ []

pub flat_map : (Event → List Event) → List Event → List Event
flat_map f [] = []
flat_map f (e ∷ es) = f e ++ flat_map f es

pub run_of : ℕ → Bool → Event → List Event
run_of now cinfo e = if executes now cinfo e then set_executed 0 e ∷ [] else []

pub any : (Event → Bool) → List Event → Bool
any f [] = false
any f (e ∷ es) = f e || any f es

-- No event falls due while the pass goes on.
abbrev pub IsApart : ℕ → ℕ → Event → Type 0
IsApart lo hi e = (e.mjd ≤ lo) ⊎ (hi < e.mjd)

abbrev pub IsWithin : (ℕ → ℕ) → ℕ → ℕ → Type 0
IsWithin clock lo hi = (k : ℕ) → (lo ≤ clock k) × (clock k ≤ hi)

map-append : (f : Event → Event) (xs ys : List Event) → map f (xs ++ ys) ≡ map f xs ++ map f ys
map-append f [] ys = refl
map-append f (x ∷ xs) ys = ap (λ l. f x ∷ l) (map-append f xs ys)

or-false : (b : Bool) → (b || false) ≡ b
or-false true = refl
or-false false = refl

or-true : (b : Bool) → (b || true) ≡ true
or-true true = refl
or-true false = refl

pub ready_at :
    (clock : ℕ → ℕ) (lo hi k : ℕ) (e : Event)
    → IsWithin clock lo hi
    → IsApart lo hi e
    → leb e.mjd (clock k) ≡ leb e.mjd lo
ready_at clock lo hi k e within apart = ground (arith, within k, apart)

serve-eq :
    (clock : ℕ → ℕ) (cinfo : Bool) (lo hi : ℕ) (e : Event) (p : Pass)
    → IsWithin clock lo hi
    → IsApart lo hi e
    → let (kept, p') = serve clock cinfo e p in
      (map forget (keep_event kept []) ≡ map forget (rest_of lo cinfo e))
      × (map forget p'.log ≡ map forget p.log ++ map forget (run_of lo cinfo e))
      × (p'.changed ≡ (p.changed || executes lo cinfo e))
unfolding serve run_command rest_of run_of executes forget
serve-eq clock cinfo lo hi e p within apart =
    let ready = ready_at clock lo hi p.readings e within apart in
    let quiet = sym (append-nil (map forget p.log)) in
    let same = sym (or-false p.changed) in
    let now = sym (or-true p.changed) in
    rw ready (elim (Bool-cases (leb e.mjd lo)) [
      | inr wait ↦ rw wait (refl, quiet, same)
      | inl due ↦ elim (Bool-cases (is_conditional e)) [
        | inr plain ↦ rw (due, plain) (refl, map-append forget p.log _, now)
        | inl conditional ↦ elim (Bool-cases cinfo) [
          | inr unmet ↦ rw (due, conditional, unmet) (refl, quiet, same)
          | inl met ↦ elim (Bool-cases (is_repeat e)) [
            | inr once ↦ rw (due, conditional, met, once) (refl, map-append forget p.log _, now)
            | inl again ↦ elim (Bool-cases e.already_ran) [
              | inl ran ↦ rw (due, conditional, met, again, ran) (refl, quiet, same)
              | inr fresh ↦
                  rw (due, conditional, met, again, fresh) (refl, map-append forget p.log _, now)
            ]
          ]
        ]
      ]
    ])

or_assoc : (a b c : Bool) → ((a || b) || c) ≡ (a || (b || c))
or_assoc true b c = refl
or_assoc false b c = refl

map-keep_event :
    (kept : Option Event) (es rest more : List Event)
    → map forget (keep_event kept []) ≡ map forget rest
    → map forget es ≡ map forget more
    → map forget (keep_event kept es) ≡ map forget (rest ++ more)
map-keep_event none es rest more first others =
    others ∙ ap (λ l. l ++ map forget more) first ∙ sym (map-append forget rest more)
map-keep_event (some e) es rest more first others =
    ap (λ l. forget e ∷ l) others
    ∙ ap (λ l. l ++ map forget more) first
    ∙ sym (map-append forget rest more)

run_loop-eq :
    (clock : ℕ → ℕ) (cinfo : Bool) (lo hi : ℕ) (es : List Event) (p : Pass)
    → IsWithin clock lo hi
    → All (IsApart lo hi) es
    → let (es', p') = run_loop clock cinfo es p in
      (map forget es' ≡ map forget (flat_map (rest_of lo cinfo) es))
      × (map forget p'.log ≡ map forget p.log ++ map forget (flat_map (run_of lo cinfo) es))
      × (p'.changed ≡ (p.changed || any (executes lo cinfo) es))
unfolding run_loop flat_map any
run_loop-eq clock cinfo lo hi [] p within apart =
    (refl, sym (append-nil (map forget p.log)), sym (or-false p.changed))
run_loop-eq clock cinfo lo hi (e ∷ es) p within apart =
    let (kept, p1) = serve clock cinfo e p in
    let (es', p2) = run_loop clock cinfo es p1 in
    let (first, logged, changed) = serve-eq clock cinfo lo hi e p within apart.0 in
    let (others, logged', changed') = run_loop-eq clock cinfo lo hi es p1 within apart.1 in
    (
      map-keep_event kept es' (rest_of lo cinfo e) (flat_map (rest_of lo cinfo) es) first others,
      logged'
          ∙ ap (λ l. l ++ map forget (flat_map (run_of lo cinfo) es)) logged
          ∙ append_assoc (map forget p.log) (map forget (run_of lo cinfo e))
              (map forget (flat_map (run_of lo cinfo) es))
          ∙ ap (λ l. map forget p.log ++ l)
              (sym (map-append forget (run_of lo cinfo e) (flat_map (run_of lo cinfo) es))),
      changed'
          ∙ ap (λ b. b || any (executes lo cinfo) es) changed
          ∙ or_assoc p.changed (executes lo cinfo e) (any (executes lo cinfo) es),
    )

-- Where the clock stays from `lo` to `hi` and no event falls due in between, a pass over the queue
-- does, apart from the times of execution, what the description event by event says: it runs the
-- events that are due and unconditional, or whose condition holds and that do not repeat or have
-- not run yet; it takes those out that do not repeat on a condition; and it marks the queue as
-- changed if it runs any.
pub run_commands-eq :
    (clock : ℕ → ℕ) (cinfo : Bool) (lo hi : ℕ) (q : CommandQueue) (readings : ℕ) (log : List Event)
    → IsWithin clock lo hi
    → All (IsApart lo hi) q.commands
    → let (q', readings', log') = run_commands clock cinfo q readings log in
      (map forget q'.commands ≡ map forget (flat_map (rest_of lo cinfo) q.commands))
      × (map forget log' ≡ map forget log ++ map forget (flat_map (run_of lo cinfo) q.commands))
      × (q'.queue_changed ≡ (q.queue_changed || any (executes lo cinfo) q.commands))
unfolding run_commands
run_commands-eq clock cinfo lo hi q readings log within apart =
    run_loop-eq clock cinfo lo hi q.commands
      (record { readings = readings; log = log; changed = q.queue_changed }) within apart
