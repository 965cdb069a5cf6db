-- ===== src/Scheduler/Tests.antt =====
-- Concrete runs of the scheduler.
use bantu_os.Prelude.{ℕ, ◌+◌, ◌≡◌, Result, ok}
use bantu_os.Prelude.Text.{Text, codes}
use bantu_os.Prelude.Int.{pos}
use bantu_os.Scheduler.{Scheduler, init, add_process, wake, schedule, yield_cpu}
use bantu_os.Scheduler.Conserved.{
  in_slot, places, HasPriorities, schedule-places, add_process-places,
}
use bantu_os.Scheduler.Order.{Picked, schedule-Picked}

-- Two processes of one priority.
abbrev two_processes : Scheduler Text
two_processes =
    (add_process 2 (codes "q") (pos 2) (add_process 1 (codes "p") (pos 2) (init 10)).1).1

init-HasPriorities : HasPriorities (init {V = Text} 10)
init-HasPriorities = tt

two_processes-HasPriorities : HasPriorities two_processes
two_processes-HasPriorities =
    (add_process-places 1 2 (codes "q") (pos 2) _
      (add_process-places 1 1 (codes "p") (pos 2) (init 10) init-HasPriorities).1).1

-- The first of them runs.
abbrev one_runs : Scheduler Text
one_runs = (schedule 3 two_processes).1

one_runs-HasPriorities : HasPriorities one_runs
one_runs-HasPriorities = (schedule-places 1 3 two_processes two_processes-HasPriorities).1

abbrev returns : ℕ → Scheduler Text → Result Text Text × Scheduler Text
returns p s = (ok (codes "done"), s)

abbrev yields : ℕ → Scheduler Text → Result Text Text × Scheduler Text
yields p s = (ok (codes "done"), yield_cpu s)

schedule-Picked_example :
    let now : ℕ = 3 in
    let s : Scheduler Text = two_processes in Picked 4 (schedule now s).0 (wake now s)
schedule-Picked_example = schedule-Picked 3 two_processes

schedule-places_example :
    let p : ℕ = 2 in
    let now : ℕ = 4 in
    let s : Scheduler Text = one_runs in
    (places p (schedule now s).1 + in_slot p s.running ≡ places p s)
    × HasPriorities (schedule now s).1
    × ((schedule now s).1.running ≡ (schedule now s).0)
schedule-places_example = schedule-places 2 4 one_runs one_runs-HasPriorities
