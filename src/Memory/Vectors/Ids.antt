-- ===== src/Memory/Vectors/Ids.antt =====
-- The ids of the vector database: found again while records are only added, and given twice after
-- a record was deleted.
use bantu_os.Prelude.{
  ℕ, suc, ◌+◌, ◌≤◌, ◌<◌, ◌≡◌, ◌≢◌, inl, inr, refl, sym, ap, ◌∙◌, true, false, List, [], ◌∷◌, ◌++◌,
  none, some, ok, length, eqb, Bool-cases, Option-cases, arith,
}
use bantu_os.Prelude.Text.{Text, ◌==◌, eq_iff, eq_refl}
use bantu_os.Prelude.Decimal.{decimal, number_from, number-decimal}
use bantu_os.Memory.Vectors.{Vector, Metric, VectorDb, vec_id, add, find, get, pop, delete}

vec_id-inj : (m n : ℕ) → vec_id m ≡ vec_id n → m ≡ n
unfolding vec_id
vec_id-inj m n h =
    let same : decimal m ≡ decimal n = ground arith in
    sym (number-decimal m) ∙ ap (number_from 0) same ∙ number-decimal n

module _ {E M : Type 0} where
  -- The records are numbered from `k` on.
  abbrev pub IsNumbered : ℕ → List (Vector E M) → Type 0
  IsNumbered k [] = Unit
  IsNumbered k (v ∷ vs) = (v.id ≡ vec_id k) × IsNumbered (suc k) vs

  IsNumbered-append :
      (k : ℕ) (vs : List (Vector E M)) (v : Vector E M)
      → IsNumbered k vs
      → v.id ≡ vec_id (length vs + k)
      → IsNumbered k (vs ++ v ∷ [])
  IsNumbered-append k [] v h e = let same : 0 + k ≡ k = omega arith in (e ∙ ap vec_id same, tt)
  IsNumbered-append k (u ∷ vs) v h e =
      let up : suc (length vs) + k ≡ length vs + suc k = omega arith in
      (h.0, IsNumbered-append (suc k) vs v h.1 (e ∙ ap vec_id up))

module _ {E M S : Type 0} (metric : Metric E S) where
  find-append :
      (id : Text) (vs us : List (Vector E M))
      → find metric id (vs ++ us)
        ≡ (elim (find metric id vs) [ none ↦ find metric id us | some v ↦ some v ])
  unfolding find
  find-append id [] us = refl
  find-append id (v ∷ vs) us = elim (Bool-cases (v.id == id)) [
    | inl e ↦ rw e refl
    | inr e ↦ rw e (find-append id vs us)
  ]

  find-IsNumbered :
      (k n : ℕ) (vs : List (Vector E M))
      → IsNumbered k vs
      → length vs + k ≤ n
      → find metric (vec_id n) vs ≡ none
  unfolding find
  find-IsNumbered k n [] h le = refl
  find-IsNumbered k n (v ∷ vs) h le = elim (Bool-cases (v.id == vec_id n)) [
    | inl e ↦ absurd (omega (arith, vec_id-inj k n (sym h.0 ∙ (eq_iff v.id (vec_id n)).0 e)))
    | inr e ↦ rw e (find-IsNumbered (suc k) n vs h.1 (omega arith))
  ]

  find_numbered :
      (k n : ℕ) (vs : List (Vector E M))
      → IsNumbered k vs
      → k ≤ n
      → n < length vs + k
      → (v : Vector E M) × (find metric (vec_id n) vs ≡ some v)
  unfolding find
  find_numbered k n [] h le lt = absurd (omega arith)
  find_numbered k n (v ∷ vs) h le lt = elim (Bool-cases (v.id == vec_id n)) [
    | inl e ↦ (v, rw e refl)
    | inr e ↦
        let other : k ≢ n = λ p. ground (arith, eq_iff v.id (vec_id n), ap vec_id p, h.0) in
        let (u, f) = find_numbered (suc k) n vs h.1 (omega arith) (omega arith) in (u, rw e f)
  ]

  -- What a deletion leaves: one record less, and all other ids as they were.
  pop-others :
      (id other : Text) (vs us : List (Vector E M))
      → pop metric id vs ≡ some us
      → (length us + 1 ≡ length vs)
        × ((id == other) ≡ false → find metric other us ≡ find metric other vs)
  unfolding pop find
  pop-others id other [] us h = absurd (cc)
  pop-others id other (v ∷ vs) us h = elim (Bool-cases (v.id == id)) [
    | inl e ↦
        (ground arith, λ no. ground (arith, eq_iff v.id id, eq_iff v.id other, eq_iff id other))
    | inr e ↦ elim (Option-cases (pop metric id vs)) [
      | inl f ↦ absurd (ground arith)
      | inr (rest, f) ↦
          let ih = pop-others id other vs rest f in
          (ground (arith, ih.0), λ no. ground (arith, ih.1 no))
    ]
  ]

  -- In a store of records numbered from 1, an embedding of the right size is added under a new id:
  -- the record is found by it, the store is numbered as before, and whatever was found before is
  -- still found.
  pub add-found :
      (e : E) (text : Text) (metadata : M) (db : VectorDb E M)
      → IsNumbered 1 db.vectors
      → metric.size e ≡ db.dim
      → let id = vec_id (length db.vectors + 1) in
        ((add metric e text metadata db).0 ≡ ok id)
        × (get metric id (add metric e text metadata db).1
            ≡ some (record { id = id; embedding = e; text = text; metadata = metadata }))
        × IsNumbered 1 (add metric e text metadata db).1.vectors
        × ((other : Text) (v : Vector E M)
            → get metric other db ≡ some v
            → get metric other (add metric e text metadata db).1 ≡ some v)
  unfolding add get find
  add-found e text metadata db h size =
      let n = length db.vectors in
      let v : Vector E M = record {
        id = vec_id (n + 1);
        embedding = e;
        text = text;
        metadata = metadata;
      } in
      let fits : eqb (metric.size e) db.dim ≡ true = ground arith in
      rw
        (
          fits,
          find-append (vec_id (n + 1)) db.vectors (v ∷ []),
          find-IsNumbered 1 (n + 1) db.vectors h (omega arith),
          eq_refl (vec_id (n + 1)),
        )
        (
          refl,
          refl,
          IsNumbered-append 1 db.vectors v h refl,
          λ other u found. rw (find-append other db.vectors (v ∷ []), found) refl,
        )

  -- After the deletion of a record that is not the last of a numbered store, the next record gets
  -- the id of the last one: by this id the old record is found, and the new one never.
  pub add-after_delete :
      (id text : Text) (e : E) (metadata : M) (db : VectorDb E M)
      → IsNumbered 1 db.vectors
      → (id == vec_id (length db.vectors)) ≡ false
      → (delete metric id db).0 ≡ true
      → metric.size e ≡ db.dim
      → let last = vec_id (length db.vectors) in
        let db' = (delete metric id db).1 in
        (v : Vector E M) × (get metric last db ≡ some v)
        × ((add metric e text metadata db').0 ≡ ok last)
        × (get metric last (add metric e text metadata db').1 ≡ some v)
  unfolding add get delete
  add-after_delete id text e metadata db h other gone size =
      elim (Option-cases (pop metric id db.vectors)) [
        | inl f ↦ absurd (ground arith)
        | inr (us, f) ↦
            let n = length db.vectors in
            let left = pop-others id (vec_id n) db.vectors us f in
            let (v, found) = find_numbered 1 n db.vectors h (omega (arith, left.0)) (omega arith) in
            let fits : eqb (metric.size e) db.dim ≡ true = ground arith in
            let same = left.1 other ∙ found in
            (
              v,
              found,
              rw (delete, f, fits, left.0) refl,
              rw (delete, f, fits, find-append (vec_id n) us _, same) refl,
            )
      ]
