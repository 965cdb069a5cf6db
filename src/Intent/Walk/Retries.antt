-- ===== src/Intent/Walk/Retries.antt =====
-- The attempts at a leaf: three are always enough, and each failure is on record.
use bantu_os.Prelude.{
  ℕ, zero, suc, ◌+◌, ◌≤◌, ◌≡◌, Bool, true, ◌&&◌, arith, leb, Result, ok, err, length, Bool-cases,
  Result-cases, inl, inr,
}
use bantu_os.Prelude.Text.{Text}
use bantu_os.Intent.Tree.{Goal, mark_done, mark_failed, decide, decide_lem}
use bantu_os.Intent.Leaf.{AgentManager, execute_leaf, message_of}
use bantu_os.Intent.Walk.{Stop, aborted, failed, out_of_fuel, State, max_attempts, attempts}

-- The outcome is not for want of fuel.
abbrev pub Ends : {A : Type 0} → Result Stop A → Type 0
Ends (ok a) = Unit
Ends (err (aborted i)) = Unit
Ends (err (failed e)) = Unit
Ends (err out_of_fuel) = ⊥

-- The retries on record are counted, and at most two.
abbrev pub IsRecorded : Goal → Type 0
IsRecorded g = (g.retry_count ≤ 2) × (length g.retry_history ≡ g.retry_count)

decide-IsRecorded : (g : Goal) (e : Text) → IsRecorded g → IsRecorded (decide g e).1
decide-IsRecorded g e h = ((decide_lem g e).3 h.0, (decide_lem g e).2 h.1)

both_true : (a b : Bool) → (a && b) ≡ true → a ≡ true
both_true a b h = ground arith

module _ {W : Type 0} (am : AgentManager W) (limit : Text) (max_retries : ℕ) where
  pub attempts-Ends :
      (fuel attempt : ℕ) (g : Goal) (s : State W)
      → 3 ≤ fuel + g.retry_count
      → 1 ≤ fuel
      → Ends (attempts am limit max_retries fuel attempt g s).0
  unfolding attempts
  attempts-Ends zero attempt g s h k = absurd (omega arith)
  attempts-Ends (suc fuel) attempt g s h k = elim (Result-cases (execute_leaf am g s.world).0) [
    | inl (result, e) ↦ rw (e, attempts) tt
    | inr (f, e) ↦
        let error = message_of limit g f in
        elim (Bool-cases ((decide g error).0 && leb attempt max_retries)) [
          | inr stop ↦ rw (e, attempts) (rw stop tt)
          | inl again ↦
              let grows = (decide_lem g error).0 (both_true _ _ again) in
              rw (e, attempts)
                (rw again (
                  attempts-Ends fuel (attempt + 1) (decide g error).1 _ (omega arith)
                    (omega arith)))
        ]
  ]

  attempts-IsRecorded :
      (fuel attempt : ℕ) (g : Goal) (s : State W)
      → IsRecorded g
      → IsRecorded (attempts am limit max_retries fuel attempt g s).1
  unfolding attempts mark_done mark_failed
  attempts-IsRecorded zero attempt g s h = h
  attempts-IsRecorded (suc fuel) attempt g s h = elim (Result-cases (execute_leaf am g s.world).0) [
    | inl (result, e) ↦ rw (e, attempts) h
    | inr (f, e) ↦
        let error = message_of limit g f in
        let kept = decide-IsRecorded g error h in
        elim (Bool-cases ((decide g error).0 && leb attempt max_retries)) [
          | inr stop ↦ rw (e, attempts) (rw stop kept)
          | inl again ↦
              rw (e, attempts)
                (rw again (attempts-IsRecorded fuel (attempt + 1) (decide g error).1 _ kept))
        ]
  ]

  -- For a leaf with at most two retries on record, each with its entry in the history, three
  -- attempts are always enough, whatever the number of retries that the kernel allows: the loop
  -- does not end for want of fuel, and afterwards the record is of that kind again.
  pub attempts-three :
      (attempt : ℕ) (g : Goal) (s : State W)
      → IsRecorded g
      → Ends (attempts am limit max_retries max_attempts attempt g s).0
        × IsRecorded (attempts am limit max_retries max_attempts attempt g s).1
  attempts-three attempt g s h =
      (attempts-Ends 3 attempt g s (omega arith) (omega arith), attempts-IsRecorded 3 attempt g s h)
