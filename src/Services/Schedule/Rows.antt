-- ===== src/Services/Schedule/Rows.antt =====
-- Searching, changing and adding rows of the task table.
use bantu_os.Prelude.{
  ◌≡◌, ◌≢◌, inl, inr, refl, Bool, true, Option, none, some, List, [], ◌∷◌, ◌++◌, arith, filter, All,
  Bool-cases, if◌then◌else◌,
}
use bantu_os.Prelude.Text.{Text, ◌==◌, eq_iff}
use bantu_os.Services.Schedule.Table.{ScheduledTask, find, update}

-- No id stands twice.
abbrev pub IsKeyed : List ScheduledTask → Type 0
IsKeyed [] = Unit
IsKeyed (t ∷ rows) = (find t.id rows ≡ none) × IsKeyed rows

abbrev pub on_row : (ScheduledTask → ScheduledTask) → Option ScheduledTask → Option ScheduledTask
on_row f none = none
on_row f (some t) = some (f t)

module _ (id : Text) (f : ScheduledTask → ScheduledTask)
    (same_id : (t : ScheduledTask) → (f t).id ≡ t.id) where
  pub find-update :
      (k : Text) (rows : List ScheduledTask)
      → find k (update id f rows) ≡ (if id == k then on_row f (find k rows) else find k rows)
  unfolding find update
  find-update k [] = ground arith
  find-update k (t ∷ rows) =
      ground (arith, same_id t, eq_iff id k, eq_iff t.id k, eq_iff t.id id, find-update k rows)

  pub update-IsKeyed : (rows : List ScheduledTask) → IsKeyed rows → IsKeyed (update id f rows)
  unfolding find update
  update-IsKeyed [] h = tt
  update-IsKeyed (t ∷ rows) h = elim (Bool-cases (t.id == id)) [
    | inl e ↦ rw e (ground (arith, same_id t, find-update t.id rows), update-IsKeyed rows h.1)
    | inr e ↦ rw e (ground (arith, find-update t.id rows), update-IsKeyed rows h.1)
  ]

  -- Rows that the update reaches, and rows that it does not.
  pub update-All :
      (P : ScheduledTask → Type 0)
      → ((t : ScheduledTask) → P (f t))
      → ((t : ScheduledTask) → t.id ≢ id → P t)
      → (rows : List ScheduledTask) → All P (update id f rows)
  unfolding update
  update-All P hit miss [] = tt
  update-All P hit miss (t ∷ rows) = elim (Bool-cases (t.id == id)) [
    | inl e ↦ rw e (hit t, update-All P hit miss rows)
    | inr e ↦ rw e (miss t (ground (arith, eq_iff t.id id)), update-All P hit miss rows)
  ]

  -- What held of the rows before gives what holds after.
  pub update-maps :
      (P Q : ScheduledTask → Type 0)
      → ((t : ScheduledTask) → t.id ≡ id → P t → Q (f t))
      → ((t : ScheduledTask) → t.id ≢ id → P t → Q t)
      → (rows : List ScheduledTask) → All P rows
      → All Q (update id f rows)
  unfolding update
  update-maps P Q hit miss [] h = tt
  update-maps P Q hit miss (t ∷ rows) h = elim (Bool-cases (t.id == id)) [
    | inl e ↦ rw e (hit t ((eq_iff t.id id).0 e) h.0, update-maps P Q hit miss rows h.1)
    | inr e ↦ rw e (miss t (ground (arith, eq_iff t.id id)) h.0, update-maps P Q hit miss rows h.1)
  ]

pub find-append :
    (k : Text) (t : ScheduledTask) (rows : List ScheduledTask)
    → find k rows ≡ none
    → find k (rows ++ t ∷ []) ≡ (if t.id == k then some t else none)
unfolding find
find-append k t [] h = refl
find-append k t (u ∷ rows) h = ground (arith, find-append k t rows)

pub find-append_other :
    (id k : Text) (t : ScheduledTask) (rows : List ScheduledTask)
    → t.id ≡ id
    → k ≢ id
    → find k (rows ++ t ∷ []) ≡ find k rows
unfolding find
find-append_other id k t [] at ne = ground (arith, eq_iff t.id k)
find-append_other id k t (u ∷ rows) at ne = ground (arith, find-append_other id k t rows at ne)

pub find-append_found :
    (k : Text) (t u : ScheduledTask) (rows : List ScheduledTask)
    → find k rows ≡ some u
    → find k (rows ++ t ∷ []) ≡ some u
unfolding find
find-append_found k t u [] h = absurd (cc)
find-append_found k t u (v ∷ rows) h = ground (arith, find-append_found k t u rows)

pub append-IsKeyed :
    (t : ScheduledTask) (rows : List ScheduledTask)
    → find t.id rows ≡ none
    → IsKeyed rows
    → IsKeyed (rows ++ t ∷ [])
unfolding find
append-IsKeyed t [] none_t h = (refl, tt)
append-IsKeyed t (u ∷ rows) none_t h = (
  ground (arith, find-append u.id t rows h.0, eq_iff u.id t.id, eq_iff t.id u.id),
  append-IsKeyed t rows (ground arith) h.1,
)

pub filter-All :
    (p : ScheduledTask → Bool) (Q P : ScheduledTask → Type 0)
    → ((t : ScheduledTask) → p t ≡ true → Q t → P t)
    → (rows : List ScheduledTask) → All Q rows
    → All P (filter p rows)
unfolding filter
filter-All p Q P h [] q = tt
filter-All p Q P h (t ∷ rows) q = elim (Bool-cases (p t)) [
  | inl e ↦ rw e (h t e q.0, filter-All p Q P h rows q.1)
  | inr e ↦ rw e (filter-All p Q P h rows q.1)
]

-- Two updates under one id are one.
pub update-update :
    (id : Text) (f g : ScheduledTask → ScheduledTask)
    → ((t : ScheduledTask) → (f t).id ≡ t.id)
    → (rows : List ScheduledTask) → update id g (update id f rows) ≡ update id (λ t. g (f t)) rows
unfolding update
update-update id f g same [] = refl
update-update id f g same (t ∷ rows) = ground (arith, same t, update-update id f g same rows)
