-- ===== src/Services/Tests/Processes.antt =====
-- Concrete runs of the process service.
use bantu_os.Prelude.{Bool, length, List}
use bantu_os.Services.Process.{
  Os as ProcessOs, Command, Options, ProcessService, start_process, stop_process,
  get_managed_processes, stop,
}
use bantu_os.Services.Process.Limits.{operations-Bounded}
use bantu_os.Prelude.{ℕ, ◌+◌, ◌≤◌, true, false, none, [], ◌∷◌, arith, ok}
use bantu_os.Prelude.Text.{Text, codes}

-- Processes that end when they are told to; the world counts those that were started.
abbrev processes : ProcessOs ℕ
processes = record {
  popen = λ command shell options w. (ok w, w + 1);
  process_name = λ pid w. ok (codes "sleep");
  process_status = λ pid w. ok (codes "running");
  send_signal = λ pid force w. (ok tt, w);
  wait = λ pid seconds w. (ok tt, w);
  pid_exists = λ pid w. true;
}

abbrev two_processes : ProcessService
two_processes = record {
  max_concurrent = 2;
  managed = 7 ∷ 8 ∷ [];
  operation_log = [];
  running = true;
}

abbrev sleep_command : Command
sleep_command = Command.words (codes "sleep" ∷ codes "9" ∷ [])

abbrev no_options : Options
no_options = record { cwd = none; env = none; pipe = false }

operations-Bounded_example :
    let repr : List Text → Text = λ ws. codes "words" in
    let command : Command = sleep_command in
    let shell : Bool = false in
    let force : Bool = true in
    let options : Options = no_options in
    let pid : ℕ = 7 in
    let s : ProcessService = two_processes in
    let w : ℕ = 9 in
    (length (start_process processes repr command shell options s w).1.managed ≤ s.max_concurrent)
    × (length (stop_process processes force pid s w).1.managed ≤ s.max_concurrent)
    × (length (get_managed_processes processes s w).1.managed ≤ s.max_concurrent)
    × (length (stop processes s w).1.managed ≤ s.max_concurrent)
operations-Bounded_example =
    operations-Bounded processes (λ ws. codes "words") sleep_command false true no_options 7
      two_processes 9 (omega arith)
