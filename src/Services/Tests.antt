-- ===== src/Services/Tests.antt =====
-- Concrete runs of the supervisor and of the scheduler service.
mod Files
mod Processes
mod Payments
mod Things
use bantu_os.Prelude.{Bool, length, List, All, Option}
use bantu_os.Services.Sandbox.{
  FileSystem, is_inside, read, write, append, delete, copy, move, list_dir, stat, search,
  ensure_dir,
}
use bantu_os.Services.Sandbox.Inside.{IsConfined, operations-Safe}
use bantu_os.Services.Sandbox.Escape.{Refuses, operations-Refuses}
use bantu_os.Prelude.{filter}
use bantu_os.Prelude.Text.{starts_with}
use bantu_os.Prelude.Int.{ℤ}
use bantu_os.Services.Process.{
  Os as ProcessOs, stop_each, Command, Options, ProcessService, start_process, stop_process,
  get_managed_processes, stop,
}
use bantu_os.Services.Process.Limits.{operations-Bounded, stop-empties}
use bantu_os.Services.Mpesa.{
  Api, Code, FintechService, FintechError, poll, request_mpesa, is_positive, is_msisdn,
  normalize_msisdn, is_digit, tail,
}
use bantu_os.Services.Mpesa.Requests.{request_mpesa-refuses}
use bantu_os.Prelude.{Option, All, err}
use bantu_os.Services.Schedule.Table.{Reader}
use bantu_os.Services.Schedule.{
  init as no_tasks, SchedulerService, schedule, get_task, get_pending_tasks, record_run,
}
use bantu_os.Services.Schedule.Runs.{record_run-ends}
use bantu_os.Services.Schedule.Counts.{IsCounted, Reachable, Step, Reachable-IsCounted}
use bantu_os.Prelude.Int.{pos}
use bantu_os.Prelude.{ℕ, ◌+◌, ◌≡◌, ◌≢◌, true, false, ◌&&◌, none, some, [], ◌∷◌, arith, ok, is_some}
use bantu_os.Prelude.Text.{Text, codes}
use bantu_os.Services.Supervisor.{
  ServiceDefinition, Supervisor, Os, service_kernel, new_service, stop_service, has_crashed,
  check_service,
}
use bantu_os.Services.Supervisor.Limits.{stop_service-stops, check_service-Bounded}

-- Processes that all end with the code 1; the world counts those that were started.
abbrev os : Os ℕ
os = record {
  is_running = λ p w. true;
  spawn = λ command log_file w. (ok w, w + 1);
  terminate = λ p w. (true, w);
  wait_exit = λ p w. (false, w);
  kill = λ p w. w;
  returncode = λ p w. some 1;
  sleep = λ delay w. w;
}

abbrev kernel_service : ServiceDefinition
kernel_service =
    record (new_service 0 service_kernel (codes "python" ∷ []) (codes "kernel.log") none) {
      pid = some 7;
      proc = some 7;
      pid_file = some 7;
    }

abbrev supervisor : Supervisor
supervisor = record { services = (service_kernel, kernel_service) ∷ []; shutdown_requested = false }

-- Every delay is read as five, and no text is a time.
abbrev reader : Reader
reader = record { int = λ text. some (pos 5); fromisoformat = λ text. none }

-- A task for every five seconds.
abbrev scheduler : SchedulerService ℕ
scheduler =
    (schedule reader 10 11 (codes "u1") (codes "tick") (codes "beep") (codes "interval") (codes "5")
      [] (codes "{}") no_tasks).1

scheduler-Reachable : Reachable reader scheduler
scheduler-Reachable = Reachable.next Reachable.new (
    Step.scheduled 10 11 (codes "u1") (codes "tick") (codes "beep") (codes "interval") (codes "5")
      [] (codes "{}") _)

record_run-ends_example :
    let s : SchedulerService ℕ = scheduler in
    let io : Reader = reader in
    let now : ℕ = 20 in
    let later : ℕ = 21 in
    let id : Text = codes "u1" in
    let status : Text = codes "completed" in
    let result : Option Text = none in
    let error : Option Text = none in
    ((time : ℕ)
      → All
          (λ t. t.id ≢ id)
          (get_pending_tasks time (record_run io now later id status result error s)))
    × ((k : Text)
        → k ≢ id
        → get_task k (record_run io now later id status result error s) ≡ get_task k s)
record_run-ends_example =
    record_run-ends scheduler reader 20 21 (codes "u1") (codes "completed") none none (ground arith)

Reachable-IsCounted_example :
    let C : Type 0 = ℕ in let s : SchedulerService C = scheduler in IsCounted s
Reachable-IsCounted_example = Reachable-IsCounted reader scheduler scheduler-Reachable
