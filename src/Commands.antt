-- ===== src/Commands.antt =====
-- libraries/support/event.cpp, event.h, command_queue.cpp and command_queue.h: the queue of the
-- commands of `agent_exec`. A time is a number of ticks of a clock, in place of a `double`: it is
-- compared and copied, never computed with. `clock k` is what the call number `k` of
-- `currentmjd(0.)` returns. The JSON text of an event stands as the event itself, in the log and in
-- the file. The process that runs a command is outside of the model, and so are the files that
-- commands are loaded from, and `sort`.
-- `erase(ii--)` at the first element goes before the list, which C++ leaves undefined; in the model
-- `++ii` is then at the first element again, as with the ring of nodes of the usual libraries.
pub mod Passes
pub mod Again
pub mod Runs
use core_cleanup_test.Base.{
  ℕ, zero, suc, ◌+◌, ◌/◌, ◌%◌, ◌^◌, List, [], ◌∷◌, ◌++◌, Bool, true, false, ◌==◌, ◌&&◌, leb, not,
  if◌then◌else◌, length, Option, none, some, same_text,
}

pub record Event : Type 0 where
  pub mjd : ℕ
  pub utcexec : ℕ
  pub name : List ℕ
  pub type : ℕ
  pub flag : ℕ
  pub payload : List ℕ
  pub condition : List ℕ
  pub already_ran : Bool
  pub event_string : List ℕ

-- `flag & (1 << bit)`: `EVENT_FLAG_ACTUAL`, `EVENT_FLAG_CONDITIONAL` and `EVENT_FLAG_REPEAT` are the
-- bits 15, 16 and 17, `EVENT_TYPE_COMMAND` is the bit 13.
abbrev pub has_bit : ℕ → ℕ → Bool
has_bit flag bit = flag / 2 ^ bit % 2 == 1

abbrev pub is_repeat : Event → Bool
is_repeat e = has_bit e.flag 17

abbrev pub is_command : Event → Bool
is_command e = has_bit e.type 13

abbrev pub is_conditional : Event → Bool
is_conditional e = has_bit e.flag 16

-- `condition_true(cinfo)`, where `cinfo` is whether the pointer is not null.
abbrev pub condition_true : Bool → Event → Bool
condition_true cinfo e = cinfo

-- `set_utcexec()` and `set_actual()`
abbrev pub set_executed : ℕ → Event → Event
set_executed now e = record {
  mjd = e.mjd;
  utcexec = now;
  name = e.name;
  type = e.type;
  flag = if has_bit e.flag 15 then e.flag else e.flag + 2 ^ 15;
  payload = e.payload;
  condition = e.condition;
  already_ran = e.already_ran;
  event_string = e.event_string;
}

abbrev pub set_already_ran : Bool → Event → Event
set_already_ran b e = record {
  mjd = e.mjd;
  utcexec = e.utcexec;
  name = e.name;
  type = e.type;
  flag = e.flag;
  payload = e.payload;
  condition = e.condition;
  already_ran = b;
  event_string = e.event_string;
}

-- `operator==` of two events
unfoldable pub same_event : Event → Event → Bool
same_event e1 e2 =
    same_text e1.name e2.name
    && ((e1.mjd == e2.mjd)
        && ((e1.utcexec == e2.utcexec)
            && ((e1.type == e2.type)
                && ((e1.flag == e2.flag)
                    && (same_text e1.payload e2.payload && same_text e1.condition e2.condition)))))

pub record CommandQueue : Type 0 where
  pub commands : List Event
  pub queue_changed : Bool

-- What a pass over the queue acts on beside the events: the number of readings of the clock, the log of
-- the events that were run, and `queue_changed`.
pub record Pass : Type 0 where
  pub readings : ℕ
  pub log : List Event
  pub changed : Bool

-- `is_ready()`, which reads the clock.
abbrev pub is_ready : (ℕ → ℕ) → Event → Pass → Bool
is_ready clock e p = leb e.mjd (clock p.readings)

abbrev pub read_clock : Pass → Pass
read_clock p = record { readings = p.readings + 1; log = p.log; changed = p.changed }

-- `run_command(cmd, nodename, logdate_exec)`
unfoldable pub run_command : (ℕ → ℕ) → Event → Pass → Event × Pass
run_command clock cmd p =
    let cmd' = set_executed (clock p.readings) cmd in
    (cmd', record { readings = p.readings + 1; log = p.log ++ (cmd' ∷ []); changed = true })

-- The body of the loop of `run_commands`: the event, unless it is erased.
unfoldable pub serve : (ℕ → ℕ) → Bool → Event → Pass → Option Event × Pass
unfolding run_command
serve clock cinfo e p =
    let p1 = read_clock p in
    let (e', p2) = run_command clock e p1 in
    if is_ready clock e p
    then (if is_conditional e
        then (if condition_true cinfo e
            then (if is_repeat e
                then (if not e.already_ran
                    then (some (set_already_ran true e'), p2)
                    else (some e, p1))
                else (none, p2))
            else (some (set_already_ran false e), p1))
        else (none, p2))
    else (some e, p1)

abbrev pub keep_event : Option Event → List Event → List Event
keep_event none es = es
keep_event (some e) es = e ∷ es

unfoldable pub run_loop : (ℕ → ℕ) → Bool → List Event → Pass → List Event × Pass
unfolding serve
run_loop clock cinfo [] p = ([], p)
run_loop clock cinfo (e ∷ es) p =
    let (kept, p1) = serve clock cinfo e p in
    let (es', p2) = run_loop clock cinfo es p1 in (keep_event kept es', p2)

-- `run_commands(agent, nodename, logdate_exec)`, from the reading of the clock that is next and the
-- log so far: the queue, the next reading and the log.
unfoldable pub run_commands :
    (ℕ → ℕ) → Bool → CommandQueue → ℕ → List Event → CommandQueue × ℕ × List Event
unfolding run_loop
run_commands clock cinfo q readings log =
    let start : Pass = record { readings = readings; log = log; changed = q.queue_changed } in
    let (es, p) = run_loop clock cinfo q.commands start in
    (record { commands = es; queue_changed = p.changed }, p.readings, p.log)

-- `save_commands(temp_dir)`, where `opened` is whether the file can be opened: what is written to it.
unfoldable pub save_commands : Bool → CommandQueue → CommandQueue × Option (List Event)
save_commands opened q = if not q.queue_changed then (q, none) else (
  record { commands = q.commands; queue_changed = false },
  if opened then some q.commands else none,
)

-- `add_command(c)`
unfoldable pub add_command : Event → CommandQueue → CommandQueue
add_command c q = record { commands = q.commands ++ (c ∷ []); queue_changed = true }

-- The loop of `del_command`: the number of events that are erased, and the others.
unfoldable pub del_loop : Event → List Event → ℕ × List Event
unfolding same_event
del_loop c [] = (0, [])
del_loop c (e ∷ es) =
    let (n, es') = del_loop c es in if same_event c e then (n + 1, es') else (n, e ∷ es')

-- `del_command(c)`
unfoldable pub del_command : Event → CommandQueue → ℕ × CommandQueue
unfolding del_loop
del_command c q =
    let (n, es) = del_loop c q.commands in (n, record { commands = es; queue_changed = true })
