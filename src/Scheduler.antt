-- ===== src/Scheduler.antt =====
-- bantu_os/core/scheduler.py: processes in four ready queues. A `Process` is a shared object, so
-- the queues hold process ids and `table` holds the objects. Times are milliseconds, and `now` is
-- what `time.time()` returns. `V` is the type of the results that processes return.
mod Tests
pub mod Conserved
pub mod Order
pub mod Running
use bantu_os.Prelude.{
  ℕ, zero, suc, ◌+◌, ◌≡◌, Bool, true, false, Option, none, some, List, [], ◌∷◌, ◌++◌, arith, ltb,
  leb, eqb, filter, length, Result, ok, err, if◌then◌else◌,
}
use bantu_os.Prelude.Text.{Text}
use bantu_os.Prelude.Int.{ℤ, clamp}
use bantu_os.Prelude.Tally.{count, hit}

pub data ProcessState : Type 0 where
  new ready running waiting terminated : ProcessState

-- `func` and `args` are never changed, so the process id stands for them; `cpu_time_used` is never
-- read or written and is left out.
pub record Process (V : Type 0) : Type 0 where
  pub pid : ℕ
  pub name : Text
  pub priority : ℕ
  pub state : ProcessState
  pub created_at : ℕ
  pub last_scheduled_at : ℕ
  pub result : Option V

-- `ready k` is `_ready_queues[k]`; no index but 0 to 3 is used, by `add_process-places`.
pub record Scheduler (V : Type 0) : Type 0 where
  pub quantum_ms : ℕ
  pub table : List (Process V)
  pub ready : ℕ → List ℕ
  pub waiting : List ℕ
  pub terminated : List ℕ
  pub next_pid : ℕ
  pub running : Option ℕ

unfoldable pub set_queue : ℕ → List ℕ → (ℕ → List ℕ) → ℕ → List ℕ
set_queue k xs queues j = if eqb j k then xs else queues j

-- `self._ready_queues[k].insert(0, p)`
unfoldable pub push_front : ℕ → ℕ → (ℕ → List ℕ) → ℕ → List ℕ
unfolding set_queue
push_front k p queues = set_queue k (p ∷ queues k) queues

-- `xs.pop()`: the last element, and the list without it.
unfoldable pub pop_last : List ℕ → Option (ℕ × List ℕ)
pop_last [] = none
pop_last (x ∷ xs) = elim (pop_last xs) [ none ↦ some (x, []) | some (y, ys) ↦ some (y, x ∷ ys) ]

module _ {V : Type 0} where
  abbrev pub init : ℕ → Scheduler V
  init quantum = record {
    quantum_ms = quantum;
    table = [];
    ready = λ k. [];
    waiting = [];
    terminated = [];
    next_pid = 1;
    running = none;
  }

  -- The object with a process id.
  unfoldable pub find : ℕ → List (Process V) → Option (Process V)
  find p [] = none
  find p (q ∷ qs) = if eqb q.pid p then some q else find p qs

  -- A write through a reference to the object.
  unfoldable pub update : ℕ → (Process V → Process V) → List (Process V) → List (Process V)
  update p f [] = []
  update p f (q ∷ qs) = if eqb q.pid p then f q ∷ qs else q ∷ update p f qs

  abbrev pub set_state : ProcessState → Process V → Process V
  set_state st q = record q { state = st }

  -- The priority and the last schedule of an object.
  unfoldable pub priority_of : ℕ → Scheduler V → ℕ
  priority_of p s = elim (find p s.table) [ none ↦ 0 | some q ↦ q.priority ]

  unfoldable pub scheduled_at : ℕ → Scheduler V → ℕ
  scheduled_at p s = elim (find p s.table) [ none ↦ 0 | some q ↦ q.last_scheduled_at ]

  unfoldable pub add_process : ℕ → Text → ℤ → Scheduler V → ℕ × Scheduler V
  add_process now name priority s =
      let p = clamp 3 priority in
      let proc : Process V = record {
        pid = s.next_pid;
        name = name;
        priority = p;
        state = ready;
        created_at = now;
        last_scheduled_at = 0;
        result = none;
      } in
      (
        s.next_pid,
        record s {
          table = s.table ++ proc ∷ [];
          ready = push_front p s.next_pid s.ready;
          next_pid = s.next_pid + 1;
        },
      )

  -- One round of the loop over `self._waiting`: the process goes back to its queue, or stays.
  pub wake_one : ℕ → ℕ → Scheduler V → Scheduler V
  wake_one now p s =
      if leb (scheduled_at p s + s.quantum_ms) now
      then record s {
        table = update p (set_state ready) s.table;
        ready = push_front (priority_of p s) p s.ready;
      }
      else record s { waiting = s.waiting ++ p ∷ [] }

  pub wake_each : ℕ → List ℕ → Scheduler V → Scheduler V
  wake_each now [] s = s
  wake_each now (p ∷ ps) s = wake_each now ps (wake_one now p s)

  -- The list `still_waiting` is built in the field `waiting`, which nothing else reads meanwhile.
  unfoldable pub wake : ℕ → Scheduler V → Scheduler V
  unfolding wake_each wake_one
  wake now s = wake_each now s.waiting (record s { waiting = [] })

  pub dispatch : ℕ → ℕ → ℕ × List ℕ → Scheduler V → Option ℕ × Scheduler V
  dispatch now k (p, rest) s = (
    some p,
    record s {
      table = update p (λ q. record q { state = running; last_scheduled_at = now }) s.table;
      ready = set_queue k rest s.ready;
      running = some p;
    },
  )

  -- `for prio in range(3, -1, -1)`, from the queue below `k` down.
  pub pick : ℕ → ℕ → Scheduler V → Option ℕ × Scheduler V
  pick now zero s = (none, record s { running = none })
  pick now (suc k) s =
      let below = pick now k s in
      elim (pop_last (s.ready k)) [ none ↦ below | some found ↦ dispatch now k found s ]

  unfoldable pub schedule : ℕ → Scheduler V → Option ℕ × Scheduler V
  schedule now s = pick now 4 (wake now s)

  unfoldable pub yield_cpu : Scheduler V → Scheduler V
  yield_cpu s = elim s.running [
    | none ↦ s
    | some p ↦ record s {
      table = update p (set_state ready) s.table;
      ready = push_front (priority_of p s) p s.ready;
      running = none;
    }
  ]

  -- `_running` is moved to `_terminated`.
  unfoldable pub finish : ℕ → (Process V → Process V) → Scheduler V → Scheduler V
  finish p f s = record s {
    table = update p f s.table;
    terminated = s.terminated ++ p ∷ [];
    running = none;
  }

  -- The loop of `wait` over a ready queue, up to the first hit.
  unfoldable pub wait_in : ℕ → List ℕ → Scheduler V → Scheduler V
  wait_in p [] s = s
  wait_in p (q ∷ qs) s =
      let rest = wait_in p qs s in
      if eqb q p
      then record s { table = update p (set_state waiting) s.table; waiting = s.waiting ++ p ∷ [] }
      else rest

  unfoldable pub wait : ℕ → Scheduler V → Scheduler V
  wait p s = elim s.running [ none ↦ s | some r ↦ wait_in p (s.ready (priority_of r s)) s ]

  -- The ids of the processes that `list_processes` returns.
  unfoldable pub list_processes : Scheduler V → List ℕ
  list_processes s =
      (s.ready 0 ++ (s.ready 1 ++ (s.ready 2 ++ s.ready 3)))
      ++ (s.waiting ++ (s.terminated ++ elim s.running [ none ↦ [] | some p ↦ p ∷ [] ]))

-- What the function of a process did: it returned or raised. It may call the scheduler, so it
-- returns the scheduler too. `lost_process` is the `AttributeError` of `None.result` in
-- `run_current`, when the function left no running process.
pub data RunError (E : Type 0) : Type 0 where
  raised : E → RunError E
  lost_process : RunError E

module _ {V E : Type 0} (call : ℕ → Scheduler V → Result E V × Scheduler V) where
  -- The `try` block of `run_current`, after the call.
  pub settle : Result E V → Scheduler V → Result (RunError E) (Option V) × Scheduler V
  settle r s = elim s.running [
    | none ↦ (err lost_process, s)
    | some p ↦ elim r [
      | ok v ↦ (ok (some v), finish p (λ q. record q { state = terminated; result = some v }) s)
      | err e ↦ (err (raised e), finish p (set_state terminated) s)
    ]
  ]

  unfoldable pub run_current : Scheduler V → Result (RunError E) (Option V) × Scheduler V
  unfolding settle
  run_current s = elim s.running [
    | none ↦ (ok none, s)
    | some p ↦ let (r, s') = call p s in settle r s'
  ]
