-- ===== src/Kernel/Tests.antt =====
-- Concrete runs of the tool calls, the agentic loop and the service orchestrator.
use bantu_os.Prelude.{
  ℕ, zero, suc, ◌+◌, ◌≤◌, ◌≡◌, refl, Bool, true, false, Option, none, some, List, [], ◌∷◌, Result,
  ok, err, arith,
}
use bantu_os.Prelude.Text
use bantu_os.Prelude.Text.{Text, codes, ◌==◌}
use bantu_os.Prelude.Dict.{Dict, lookup, keys}
use bantu_os.Kernel.Services
use bantu_os.Kernel.Services.{
  ManagedService, ServiceManager, Host, HealthResult, register, start_service, stop_service,
  is_healthy, is_stopped, fire, start_object, stop_object,
}
use bantu_os.Kernel.Services.Health.{health_check_service}
use bantu_os.Kernel.Services.Monitor.{run_health_monitor, monitor_round, monitor_each, monitor_one}
use bantu_os.Kernel.Services.Restarts.{budget, run_health_monitor-bounded}
use bantu_os.Kernel.Services.Lifecycle.{start_service-after_stop}
use bantu_os.Kernel.Services.Degraded.{IsUp, run_health_monitor-IsUp}
use bantu_os.Kernel.Parse.{Loaded, parse_tool_calls}
use bantu_os.Kernel.Parse.Fuel.{IsParsed, parse_tool_calls-total}
use bantu_os.Kernel.Tools.{Tool, Generate, opening, agentic_loop}
use bantu_os.Kernel.Tools.Rounds.{Finished, agentic_loop-Finished}

-- Arguments that are read as any text.
abbrev loads : Text → Loaded Text
loads raw = Loaded.object raw

-- A tool that counts its runs in the world.
abbrev tools : Dict (Tool Text ℕ)
tools = (codes "echo", λ a w. (ok a, w + 1)) ∷ []

abbrev request : Text
request = codes "Well: [TOOL_CALL] echo args: {\"a\": 1} [/TOOL_CALL]"

-- A model that always asks for the tool.
abbrev generate : Generate ℕ
generate messages w = (ok request, w)

parse_tool_calls-total_example :
    let loads : Text → Loaded Text = loads in
    let no_args : Text = [] in
    let text : Text = request in IsParsed loads no_args (parse_tool_calls loads no_args text)
parse_tool_calls-total_example = parse_tool_calls-total loads [] request

agentic_loop-Finished_example :
    let tools : Dict (Tool Text ℕ) = tools in
    let loads : Text → Loaded Text = loads in
    let no_args : Text = [] in
    let generate : Generate ℕ = generate in
    let text : Text = codes "hi" in
    let system_prompt : Option Text = some (codes "be brief") in
    let n : ℕ = 2 in
    let w : ℕ = 0 in
    ((agentic_loop tools loads no_args generate text system_prompt 0 w).0
      ≡ err (codes "max_iterations must be at least 1"))
    × Finished tools loads no_args generate
        (suc n)
        (opening tools loads no_args generate system_prompt text)
        (agentic_loop tools loads no_args generate text system_prompt (suc n) w)
agentic_loop-Finished_example =
    agentic_loop-Finished tools loads [] generate (codes "hi") (some (codes "be brief")) 2 0

-- Objects and checks are numbers: object 0 does not start, and every check raises. The world counts
-- the calls.
abbrev services_host : Host ℕ ℕ ℕ ℕ
services_host = record {
  start = λ i. some (λ timeout w. (elim i [ zero ↦ err (codes "refused") | suc j ↦ ok tt ], w + 1));
  stop = λ i. some (λ w. (ok tt, w + 1));
  health_check = λ i. some i;
  doc = λ i. none;
  check = λ h w. (err (codes "no answer"), w + 1);
  call = λ k args w. (ok tt, w + 1);
  now = λ w. w;
}

abbrev service : ℕ → Services.ServiceStatus → ManagedService ℕ ℕ
service i status = record {
  descriptor = record { name = codes "net"; description = none; version = codes "1" };
  instance_object = some i;
  status = status;
  health_check_fn = some i;
  restart_policy = codes "always";
  restart_count = 1;
  max_restarts = 3;
  last_health_check = none;
  last_error = none;
  started_at = none;
}

abbrev services_of : ManagedService ℕ ℕ → ServiceManager ℕ ℕ ℕ
services_of svc = record {
  services = (codes "net", svc) ∷ [];
  startup_timeout = 10000;
  health_task = true;
  running = true;
  on_started = [];
  on_stopped = [];
  on_failed = [];
}

-- A service that failed is started by each round, until its limit is reached.
four_rounds :
    (run_health_monitor services_host 4 (λ w. w) (services_of (service 0 Services.failed)) 0).2 ≡ 2
unfolding run_health_monitor monitor_round monitor_each monitor_one health_check_service
    start_service start_object fire lookup keys is_healthy Services.is_up Services.is_failed
    bantu_os.Kernel.Services.Monitor.is_restarted bantu_os.Prelude.Dict.insert
    bantu_os.Prelude.Text.◌==◌
four_rounds = refl

start_service-after_stop_example :
    let m : ServiceManager ℕ ℕ ℕ = services_of (service 7 Services.degraded) in
    let name : Text = codes "net" in
    let m' = (stop_service services_host name m 0).1 in
    ((start_service services_host name m' 9).0 ≡ ok true)
    × ((start_service services_host name m' 9).2 ≡ 9)
    × ((s : ManagedService ℕ ℕ) × (lookup name (start_service services_host name m' 9).1.services
          ≡ some s)
        × (is_healthy s.status ≡ true)
        × (s.instance_object ≡ none))
unfolding stop_service stop_object fire lookup is_stopped bantu_os.Prelude.Text.◌==◌
start_service-after_stop_example =
    start_service-after_stop services_host (codes "net") (service 7 Services.degraded)
      (services_of (service 7 Services.degraded)) 0 9 refl refl refl refl

run_health_monitor-IsUp_example :
    IsUp
      (codes "net")
      (some 7)
      1
      (run_health_monitor services_host 5 (λ w. w) (services_of (service 7 Services.healthy)) 0).1
unfolding lookup Services.is_up bantu_os.Prelude.Text.◌==◌
run_health_monitor-IsUp_example =
    run_health_monitor-IsUp services_host 5 (λ w. w) (codes "net") (some 7) 1
      (services_of (service 7 Services.healthy)) 0
      (record {
        service = service 7 Services.healthy;
        found = refl;
        up = refl;
        object = refl;
        counted = refl;
      })

abbrev starter : ℕ → ℕ → ℕ → Result Text (Unit {0}) × ℕ
starter i timeout w = (elim i [ zero ↦ err (codes "refused") | suc j ↦ ok tt ], w + 1)

-- Here the world counts the starts only.
abbrev counting_host : Host ℕ ℕ ℕ ℕ
counting_host = record services_host {
  start = λ i. some (starter i);
  check = λ h w. (err (codes "no answer"), w);
  call = λ k args w. (ok tt, w);
}

starter-counts :
    (i : ℕ) (f : ℕ → ℕ → Result Text (Unit {0}) × ℕ)
    → counting_host.start i ≡ some f
    → (timeout w : ℕ) → (f timeout w).1 ≤ w + 1
starter-counts i f e timeout w = let same : starter i ≡ f = cc in rw (← same) (omega arith)

run_health_monitor-bounded_example :
    let m : ServiceManager ℕ ℕ ℕ = services_of (service 0 Services.failed) in
    let r = run_health_monitor counting_host 4 (λ w. w) m 0 in
    r.2 + budget r.1.services ≤ 0 + budget m.services
run_health_monitor-bounded_example =
    run_health_monitor-bounded counting_host (λ w. w) starter-counts (λ h w. refl)
      (λ k args w. refl) 4 (λ w. w) (services_of (service 0 Services.failed)) 0 (λ v. refl)
