-- ===== src/Scheduler/Conserved.antt =====
-- Conservation: how often a process id stands in the scheduler, and which operations keep it.
use bantu_os.Prelude.{
  ℕ, zero, suc, ◌+◌, ◌≤◌, ◌≡◌, refl, sym, All-append, ap, ◌∙◌, Option, none, some, List, [], ◌∷◌,
  ◌++◌, arith, Option-cases, All, ◌⊎◌, inl, inr,
}
use bantu_os.Prelude.Text.{Text}
use bantu_os.Prelude.Int.{ℤ, clamp, clamp-le}
use bantu_os.Prelude.Tally.{count, hit, count-append}
use bantu_os.Scheduler.{
  Scheduler, set_queue, push_front, priority_of, add_process, wake_one, wake_each, wake, pop_last,
  pick, dispatch, schedule, yield_cpu, list_processes, find, update, Process, ProcessState, running,
  set_state,
}

-- How often `p` stands in the running slot.
abbrev pub in_slot : ℕ → Option ℕ → ℕ
in_slot p none = 0
in_slot p (some q) = hit p q

-- How often `p` stands in the four queues.
abbrev in_queues : ℕ → (ℕ → List ℕ) → ℕ
in_queues p queues =
    count p (queues 0) + count p (queues 1) + count p (queues 2) + count p (queues 3)

module _ {V : Type 0} where
  -- How often `p` stands in the scheduler.
  abbrev pub places : ℕ → Scheduler V → ℕ
  places p s = in_queues p s.ready + count p s.waiting + count p s.terminated + in_slot p s.running

  -- `places` counts what `list_processes` returns.
  pub count-list_processes : (p : ℕ) (s : Scheduler V) → count p (list_processes s) ≡ places p s
  unfolding list_processes count
  count-list_processes p s = elim (Option-cases s.running) [
    | inl e ↦ rw e (simp count-append (omega arith))
    | inr (r, e) ↦ rw e (simp count-append (omega arith))
  ]

in_queues-push_front :
    (p k q : ℕ) (queues : ℕ → List ℕ)
    → k ≤ 3
    → in_queues p (push_front k q queues) ≡ hit p q + in_queues p queues
unfolding push_front count
in_queues-push_front p k q queues h = ground arith

pub pop_last-cases :
    (xs : List ℕ)
    → ((pop_last xs ≡ none) × (xs ≡ []))
      ⊎ ((y : ℕ) × (ys : List ℕ) × (pop_last xs ≡ some (y, ys)) × (xs ≡ ys ++ y ∷ []))
unfolding pop_last
pop_last-cases [] = inl (refl, refl)
pop_last-cases (x ∷ xs) = elim (pop_last-cases xs) [
  | inl (e, nil) ↦ inr (x, [], ground arith, cc)
  | inr (y, ys, e, split) ↦ inr (y, x ∷ ys, ground arith, cc)
]

set_queue-places :
    (p k y : ℕ) (ys : List ℕ) (queues : ℕ → List ℕ)
    → k ≤ 3
    → count p (queues k) ≡ count p ys + hit p y
    → in_queues p (set_queue k ys queues) + hit p y ≡ in_queues p queues
unfolding set_queue
set_queue-places p k y ys queues h e = ground arith

module _ {V : Type 0} where
  -- Every process has one of the four priorities.
  abbrev pub HasPriorities : Scheduler V → Type 0
  HasPriorities s = All (λ q. q.priority ≤ 3) s.table

  find-priority :
      (p : ℕ) (t : List (Process V)) (q : Process V)
      → All (λ r. r.priority ≤ 3) t
      → find p t ≡ some q
      → q.priority ≤ 3
  unfolding find
  find-priority p [] q h e = cc
  find-priority p (r ∷ t) q h e = ground (arith, find-priority p t q h.1)

  priority_of-le : (p : ℕ) (s : Scheduler V) → HasPriorities s → priority_of p s ≤ 3
  unfolding priority_of
  priority_of-le p s h = elim (Option-cases (find p s.table)) [
    | inl e ↦ ground arith
    | inr (q, e) ↦ ground (arith, find-priority p s.table q h e)
  ]

  update-priorities :
      (p : ℕ) (f : Process V → Process V) (t : List (Process V))
      → ((q : Process V) → (f q).priority ≡ q.priority)
      → All (λ q. q.priority ≤ 3) t
      → All (λ q. q.priority ≤ 3) (update p f t)
  unfolding update
  update-priorities p f [] keep h = tt
  update-priorities p f (q ∷ t) keep h = ground (arith, keep q, update-priorities p f t keep h.1)

  wake_one-places :
      (p now q : ℕ) (s : Scheduler V)
      → HasPriorities s
      → places p (wake_one now q s) ≡ places p s + hit p q
  unfolding wake_one count
  wake_one-places p now q s h = ground (
    arith,
    in_queues-push_front p (priority_of q s) q s.ready (priority_of-le q s h),
    count-append p s.waiting (q ∷ []),
  )

  wake_one-priorities :
      (now q : ℕ) (s : Scheduler V) → HasPriorities s → HasPriorities (wake_one now q s)
  unfolding wake_one
  wake_one-priorities now q s h =
      ground (arith, update-priorities q (set_state ProcessState.ready) s.table (λ r. refl) h)

  wake_each-places :
      (p now : ℕ) (qs : List ℕ) (s : Scheduler V)
      → HasPriorities s
      → (places p (wake_each now qs s) ≡ places p s + count p qs)
        × HasPriorities (wake_each now qs s)
        × ((wake_each now qs s).running ≡ s.running)
  unfolding wake_each count
  wake_each-places p now [] s h = (omega arith, h, refl)
  wake_each-places p now (q ∷ qs) s h =
      let rest = wake_each-places p now qs (wake_one now q s) (wake_one-priorities now q s h) in
      (
        omega (arith, rest.0, wake_one-places p now q s h),
        rest.1,
        rest.2 ∙ unfold wake_one in ground arith,
      )

  -- Where no priority is above 3, waking moves processes from the waiting list to their queues,
  -- drops and copies none, and leaves the running process.
  pub wake-places :
      (p now : ℕ) (s : Scheduler V)
      → HasPriorities s
      → (places p (wake now s) ≡ places p s)
        × HasPriorities (wake now s)
        × ((wake now s).running ≡ s.running)
  unfolding wake count
  wake-places p now s h =
      let each = wake_each-places p now s.waiting (record s { waiting = [] }) h in
      (omega (arith, each.0), each.1, each.2)

  pick-places :
      (p now k : ℕ) (s : Scheduler V)
      → k ≤ 4
      → HasPriorities s
      → (places p (pick now k s).1 + in_slot p s.running ≡ places p s)
        × HasPriorities (pick now k s).1
        × ((pick now k s).1.running ≡ (pick now k s).0)
  unfolding pick dispatch count
  pick-places p now zero s k4 h = (omega arith, h, refl)
  pick-places p now (suc k) s k4 h = elim (pop_last-cases (s.ready k)) [
    | inl (e, nil) ↦ rw (e, pick) (pick-places p now k s (omega arith) h)
    | inr (y, ys, e, split) ↦ (
      ground (
        arith,
        set_queue-places p k y ys s.ready (omega arith)
            (ap (count p) split ∙ count-append p ys (y ∷ []) ∙ omega arith),
      ),
      ground (
        arith,
        update-priorities y (λ q. record q { state = running; last_scheduled_at = now }) s.table
            (λ r. refl) h,
      ),
      ground arith,
    )
  ]

  -- Where no priority is above 3, a schedule keeps every process in the scheduler, as often as it
  -- stands there, but for the one that was running: unless it yielded first it stands there once
  -- less than before, so nowhere if it stood nowhere else. No priority is above 3 afterwards, and
  -- the process that is returned is the one that runs.
  pub schedule-places :
      (p now : ℕ) (s : Scheduler V)
      → HasPriorities s
      → (places p (schedule now s).1 + in_slot p s.running ≡ places p s)
        × HasPriorities (schedule now s).1
        × ((schedule now s).1.running ≡ (schedule now s).0)
  unfolding schedule
  schedule-places p now s h =
      let awake = wake-places p now s h in
      let picked = pick-places p now 4 (wake now s) (omega arith) awake.1 in
      (
        ap (λ o. places p (pick now 4 (wake now s)).1 + in_slot p o) (sym awake.2)
            ∙ picked.0
            ∙ awake.0,
        picked.1,
        picked.2,
      )

  -- A new process gets a queue, and takes no other's place.
  pub add_process-places :
      (p now : ℕ) (name : Text) (priority : ℤ) (s : Scheduler V)
      → HasPriorities s
      → (places p (add_process now name priority s).1 ≡ places p s + hit p s.next_pid)
        × HasPriorities (add_process now name priority s).1
  unfolding add_process
  add_process-places p now name priority s h = (
    omega
        (arith, in_queues-push_front p (clamp 3 priority) s.next_pid s.ready (clamp-le 3 priority)),
    All-append (λ q. q.priority ≤ 3) s.table _ h (clamp-le 3 priority, tt),
  )

  -- A process that yields goes back to a queue, and nothing else moves.
  pub yield_cpu-places :
      (p : ℕ) (s : Scheduler V)
      → HasPriorities s
      → (places p (yield_cpu s) ≡ places p s)
        × HasPriorities (yield_cpu s)
        × ((yield_cpu s).running ≡ none)
  unfolding yield_cpu
  yield_cpu-places p s h = elim (Option-cases s.running) [
    | inl e ↦ (ground arith, ground arith, ground arith)
    | inr (r, e) ↦ (
      ground (arith, in_queues-push_front p (priority_of r s) r s.ready (priority_of-le r s h)),
      ground (arith, update-priorities r (set_state ProcessState.ready) s.table (λ q. refl) h),
      ground arith,
    )
  ]
