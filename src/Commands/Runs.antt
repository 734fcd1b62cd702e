-- ===== src/Commands/Runs.antt =====
-- Runs of the model of libraries/support/command_queue.cpp on a small queue.
use core_cleanup_test.Base.{
  ℕ, ◌≡◌, refl, arith, inl, inr, [], ◌∷◌, ◌++◌, map, true, false, ◌||◌, none, codes, length,
}
use core_cleanup_test.Commands.{
  Event, CommandQueue, run_commands, save_commands, add_command, del_command,
}
use core_cleanup_test.Commands.Passes.{
  forget, executes, rest_of, run_of, flat_map, any, run_commands-eq,
}
use core_cleanup_test.Commands.Again.{run_commands-again}

abbrev event_at : ℕ → ℕ → Event
event_at mjd flag = record {
  mjd = mjd;
  utcexec = 0;
  name = codes "beacon";
  type = 0x2000;
  flag = flag;
  payload = codes "agent_radio on";
  condition = [];
  already_ran = false;
  event_string = [];
}

-- One that is due, one that repeats on a condition, one on a condition, and one that is not due.
abbrev queue : CommandQueue
queue = record {
  commands = event_at 90 0 ∷ event_at 100 0x30000 ∷ event_at 80 0x10000 ∷ event_at 200 0 ∷ [];
  queue_changed = false;
}

abbrev clock : ℕ → ℕ
clock k = 101

run_commands-eq_example :
    let (q', readings', log') = run_commands clock true queue 0 [] in
    (map forget q'.commands ≡ map forget (flat_map (rest_of 101 true) queue.commands))
    × (map forget log' ≡ map forget [] ++ map forget (flat_map (run_of 101 true) queue.commands))
    × (q'.queue_changed ≡ (false || any (executes 101 true) queue.commands))
run_commands-eq_example =
    run_commands-eq clock true 101 101 queue 0 [] (λ k. (omega arith, omega arith))
      (inl (omega arith), (inl (omega arith), (inl (omega arith), (inr (omega arith), tt))))

run_commands-again_example :
    let (q', readings', log') = run_commands clock true queue 0 [] in
    let (q2, _, log2) = run_commands clock true q' readings' log' in
    (q2.commands ≡ q'.commands) × (log2 ≡ log') × (q2.queue_changed ≡ q'.queue_changed)
run_commands-again_example =
    run_commands-again clock true 101 101 queue 0 [] (λ k. (omega arith, omega arith))
      (inl (omega arith), (inl (omega arith), (inl (omega arith), (inr (omega arith), tt))))

run_commands_run :
    let (q', readings', log') = run_commands clock true queue 0 [] in
    (length q'.commands ≡ 2) × (length log' ≡ 3) × (readings' ≡ 7)
unfolding run_commands
run_commands_run = (refl, refl, refl)

del_command_run :
    let (n, q') = del_command (event_at 90 0) (add_command (event_at 90 0) queue) in
    (n ≡ 2) × (length q'.commands ≡ 3)
unfolding del_command add_command
del_command_run = (refl, refl)

-- Where the file does not open, nothing is written and the queue counts as saved.
save_commands_lost :
    save_commands false (add_command (event_at 90 0) queue)
    ≡ (record { commands = queue.commands ++ (event_at 90 0 ∷ []); queue_changed = false }, none)
unfolding save_commands add_command
save_commands_lost = refl
