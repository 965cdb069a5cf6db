-- ===== src/Services/Process/Managed.antt =====
-- The processes that the service manages: never more than the limit, and none after a stop.
use bantu_os.Prelude.{
  ℕ, ◌+◌, ◌≤◌, ◌≡◌, inl, inr, refl, Bool, true, false, not, ◌&&◌, List, [], ◌∷◌, Result, ok, err,
  any, filter, length, length-append, length-filter, eqb, Result-cases, arith,
}
use bantu_os.Prelude.Text.{Text}
use bantu_os.Services.Process.{
  Os, PsError, ProcessError, ProcessService, add_pid, drop_pid, handle, stopped, waited,
  stop_process, caught, stop_each, log_operation,
}

pub length-add_pid : (pid : ℕ) (pids : List ℕ) → length (add_pid pid pids) ≤ length pids + 1
unfolding add_pid
length-add_pid pid pids = ground (arith, length-append pids (pid ∷ []))

length-drop_pid : (pid : ℕ) (pids : List ℕ) → length (drop_pid pid pids) ≤ length pids
unfolding drop_pid
length-drop_pid pid pids = length-filter (λ p. not (eqb pid p)) pids

any-drop_pid :
    (p pid : ℕ) (pids : List ℕ)
    → any (eqb p) (drop_pid pid pids) ≡ (any (eqb p) pids && not (eqb pid p))
unfolding drop_pid any filter
any-drop_pid p pid [] = refl
any-drop_pid p pid (q ∷ pids) = ground (arith, any-drop_pid p pid pids)

pub none_any :
    (pids : List ℕ) → ((p : ℕ) → any (eqb p) pids ≡ true → any (eqb p) pids ≡ false) → pids ≡ []
unfolding any
none_any [] h = refl
none_any (q ∷ pids) h = absurd (ground (arith, h q))

-- The managed processes are among those of before, and the limit is the same.
pub record Shrinks (s s' : ProcessService) : Type 0 where
  pub limit : s'.max_concurrent ≡ s.max_concurrent
  pub smaller : length s'.managed ≤ length s.managed
  pub among : (p : ℕ) → any (eqb p) s'.managed ≡ true → any (eqb p) s.managed ≡ true

pub same-Shrinks : (s : ProcessService) → Shrinks s s
same-Shrinks s = record { limit = refl; smaller = omega arith; among = λ p h. h }

pub trans-Shrinks : (s t u : ProcessService) → Shrinks s t → Shrinks t u → Shrinks s u
trans-Shrinks s t u h k = record {
  limit = ground (arith, h.limit, k.limit);
  smaller = omega (arith, h.smaller, k.smaller);
  among = λ p e. h.among p (k.among p e);
}

pub drop-Shrinks :
    (pid : ℕ) (s : ProcessService) → Shrinks s (record s { managed = drop_pid pid s.managed })
drop-Shrinks pid s = record {
  limit = refl;
  smaller = length-drop_pid pid s.managed;
  among = λ p e. ground (arith, any-drop_pid p pid s.managed);
}

module _ {W : Type 0} (os : Os W) where
  -- What `stop_process` leaves: fewer processes, and not this one if it returned.
  pub record Stops (pid : ℕ) (s : ProcessService)
      (r : Result ProcessError Text × ProcessService × W) : Type 0 where
    pub shrinks : Shrinks s r.1
    pub gone : (status : Text) → r.0 ≡ ok status → any (eqb pid) r.1.managed ≡ false

  handle-Stops :
      (pid : ℕ) (e : PsError) (s : ProcessService) (w : W) → Stops pid s (handle os pid e s w)
  unfolding handle
  handle-Stops pid PsError.no_such_process s w = record {
    shrinks = drop-Shrinks pid s;
    gone = λ status e. absurd (cc);
  }
  handle-Stops pid PsError.access_denied s w = record {
    shrinks = same-Shrinks s;
    gone = λ status e. absurd (cc);
  }
  handle-Stops pid PsError.timeout_expired s w = record {
    shrinks = same-Shrinks s;
    gone = λ status e. absurd (cc);
  }

  stopped-Stops :
      (force : Bool) (pid : ℕ) (name : Text) (s : ProcessService) (w : W)
      → Stops pid s (stopped os force pid name s w)
  unfolding stopped log_operation
  stopped-Stops force pid name s w = record {
    shrinks = record {
      limit = refl;
      smaller = length-drop_pid pid s.managed;
      among = λ p e. ground (arith, any-drop_pid p pid s.managed);
    };
    gone = λ status e. ground (arith, any-drop_pid pid pid s.managed);
  }

  waited-Stops :
      (force : Bool) (pid : ℕ) (name : Text) (r : Result PsError (Unit {0})) (s : ProcessService)
      (w : W)
      → Stops pid s (waited os force pid name r s w)
  unfolding waited
  waited-Stops force pid name (ok _) s w = stopped-Stops force pid name s w
  waited-Stops force pid name (err PsError.no_such_process) s w = stopped-Stops force pid name s w
  waited-Stops force pid name (err PsError.access_denied) s w =
      handle-Stops pid PsError.access_denied s w
  waited-Stops force pid name (err PsError.timeout_expired) s w =
      handle-Stops pid PsError.timeout_expired s w

  pub stop_process-Stops :
      (force : Bool) (pid : ℕ) (s : ProcessService) (w : W)
      → Stops pid s (stop_process os force pid s w)
  unfolding stop_process
  stop_process-Stops force pid s w = elim (Result-cases (os.process_name pid w)) [
    | inr (e, f) ↦ rw (f, stop_process) (handle-Stops pid e s w)
    | inl (name, f) ↦ elim (Result-cases (os.send_signal pid force w).0) [
      | inr (e, g) ↦ rw (f, stop_process, g) (handle-Stops pid e s _)
      | inl (u, g) ↦ rw (f, stop_process, g) (waited-Stops force pid name _ s _)
    ]
  ]

  -- What the loop of `stop` leaves.
  pub record Clears (pids : List ℕ) (s : ProcessService)
      (r : Result ProcessError (Unit {0}) × ProcessService × W) : Type 0 where
    pub shrinks : Shrinks s r.1
    pub gone : r.0 ≡ ok tt → (p : ℕ) → any (eqb p) pids ≡ true → any (eqb p) r.1.managed ≡ false

  caught-Shrinks :
      (pid : ℕ) (e : ProcessError) (s : ProcessService) → Shrinks s (caught os pid e s).1
  unfolding caught
  caught-Shrinks pid ProcessError.denied s = same-Shrinks s
  caught-Shrinks pid ProcessError.too_many s = drop-Shrinks pid s
  caught-Shrinks pid ProcessError.dangerous_command s = drop-Shrinks pid s
  caught-Shrinks pid ProcessError.not_found s = drop-Shrinks pid s
  caught-Shrinks pid ProcessError.timed_out s = drop-Shrinks pid s
  caught-Shrinks pid (ProcessError.failed e) s = drop-Shrinks pid s

  caught-gone :
      (pid : ℕ) (e : ProcessError) (s : ProcessService) (u : Unit {0})
      → (caught os pid e s).0 ≡ ok u
      → any (eqb pid) (caught os pid e s).1.managed ≡ false
  unfolding caught
  caught-gone pid ProcessError.denied s u h = absurd (cc)
  caught-gone pid ProcessError.too_many s u h = ground (arith, any-drop_pid pid pid s.managed)
  caught-gone pid ProcessError.dangerous_command s u h =
      ground (arith, any-drop_pid pid pid s.managed)
  caught-gone pid ProcessError.not_found s u h = ground (arith, any-drop_pid pid pid s.managed)
  caught-gone pid ProcessError.timed_out s u h = ground (arith, any-drop_pid pid pid s.managed)
  caught-gone pid (ProcessError.failed e) s u h = ground (arith, any-drop_pid pid pid s.managed)

  cons-Clears :
      (pid : ℕ) (pids : List ℕ) (s t : ProcessService)
      (r : Result ProcessError (Unit {0}) × ProcessService × W)
      → Shrinks s t
      → any (eqb pid) t.managed ≡ false
      → Clears pids t r
      → Clears (pid ∷ pids) s r
  unfolding any
  cons-Clears pid pids s t r h out c = record {
    shrinks = trans-Shrinks s t r.1 h c.shrinks;
    gone = λ e p at. ground (arith, c.gone e p, c.shrinks.among p, out);
  }

  pub stop_each-Clears :
      (pids : List ℕ) (s : ProcessService) (w : W) → Clears pids s (stop_each os pids s w)
  unfolding stop_each any
  stop_each-Clears [] s w = record { shrinks = same-Shrinks s; gone = λ e p at. absurd (cc) }
  stop_each-Clears (pid ∷ pids) s w =
      let one = stop_process os false pid s w in
      let h = stop_process-Stops false pid s w in
      elim (Result-cases one.0) [
        | inl (status, e) ↦
            rw (stop_each, e)
              (cons-Clears pid pids s one.1 _ h.shrinks (h.gone status e)
                (stop_each-Clears pids one.1 one.2))
        | inr (x, e) ↦
            let t = (caught os pid x one.1).1 in
            let fewer = trans-Shrinks s one.1 t h.shrinks (caught-Shrinks pid x one.1) in
            elim (Result-cases (caught os pid x one.1).0) [
              | inl (u, f) ↦
                  rw (stop_each, e, f)
                    (cons-Clears pid pids s t _ fewer (caught-gone pid x one.1 u f)
                      (stop_each-Clears pids t one.2))
              | inr (y, f) ↦
                  rw (stop_each, e, f) (record { shrinks = fewer; gone = λ k. absurd (cc) })
            ]
      ]
