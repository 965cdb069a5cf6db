-- ===== src/Scheduler/Order.antt =====
-- Which process `schedule` takes: the oldest of the highest queue that is not empty.
use bantu_os.Prelude.{
  ℕ, zero, suc, ◌<◌, ◌≡◌, inl, inr, Option, none, some, List, [], ◌∷◌, ◌++◌, arith,
}
use bantu_os.Scheduler.{Scheduler, wake, pick, dispatch, schedule}
use bantu_os.Scheduler.Conserved.{pop_last-cases}

module _ {V : Type 0} where
  -- `p` is the last of queue `k`, and the queues above `k` and below `top` are empty.
  abbrev pub IsNext : ℕ → ℕ → Scheduler V → Type 0
  IsNext top p s =
      (k : ℕ) × (ys : List ℕ) × (k < top)
      × (s.ready k ≡ ys ++ p ∷ [])
      × ((j : ℕ) → k < j → j < top → s.ready j ≡ [])

  abbrev pub AllEmpty : ℕ → Scheduler V → Type 0
  AllEmpty top s = (j : ℕ) → j < top → s.ready j ≡ []

  -- What a pick over the queues below `top` says of them.
  abbrev pub Picked : ℕ → Option ℕ → Scheduler V → Type 0
  Picked top none s = AllEmpty top s
  Picked top (some p) s = IsNext top p s

  empty_step : (k : ℕ) (s : Scheduler V) → s.ready k ≡ [] → AllEmpty k s → AllEmpty (suc k) s
  empty_step k s nil h j lt = ground (arith, h j)

  Picked-step :
      (k : ℕ) (o : Option ℕ) (s : Scheduler V) → s.ready k ≡ [] → Picked k o s → Picked (suc k) o s
  Picked-step k none s nil h = empty_step k s nil h
  Picked-step k (some p) s nil (i, ys, lt, e, above) =
      (i, ys, omega arith, e, λ j ij jk. ground (arith, above j))

  pick-Picked : (now k : ℕ) (s : Scheduler V) → Picked k (pick now k s).0 s
  unfolding pick dispatch
  pick-Picked now zero s = λ j lt. absurd (omega arith)
  pick-Picked now (suc k) s = elim (pop_last-cases (s.ready k)) [
    | inl (e, nil) ↦ rw (e, pick) (Picked-step k (pick now k s).0 s nil (pick-Picked now k s))
    | inr (y, ys, e, split) ↦
        rw (e, pick) (k, ys, omega arith, split, λ j kj jk. absurd (omega arith))
  ]

  -- After the waiting processes whose time has come have woken, `schedule` returns the last
  -- process of the highest queue that is not empty, and none exactly if all four queues are empty.
  pub schedule-Picked : (now : ℕ) (s : Scheduler V) → Picked 4 (schedule now s).0 (wake now s)
  unfolding schedule
  schedule-Picked now s = pick-Picked now 4 (wake now s)
