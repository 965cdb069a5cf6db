-- ===== src/Memory/Vectors/Ranking.antt =====
-- The answers of a query: the most similar records, the most similar first.
use mathlib.Core.List.{Perm}
use mathlib.Core.List.Perm
use Prim.Native.Nat.{min}
use bantu_os.Prelude.{
  ℕ, zero, suc, ◌+◌, ◌≡◌, inl, inr, refl, ap, ◌∙◌, true, false, List, [], ◌∷◌, ◌++◌, ok, All,
  All-map, length, eqb, Bool-cases, arith,
}
use bantu_os.Memory.Vectors.{Vector, Metric, VectorDb, take, place, sort_desc, scored, query}

module _ {ℓ} {A : Type ℓ} where
  -- What `take` leaves.
  unfoldable pub skip : ℕ → List A → List A
  skip zero xs = xs
  skip (suc k) [] = []
  skip (suc k) (x ∷ xs) = skip k xs

  length-take : (k : ℕ) (xs : List A) → length (take k xs) ≡ min k (length xs)
  unfolding take
  length-take zero xs = omega arith
  length-take (suc k) [] = omega arith
  length-take (suc k) (x ∷ xs) = omega (arith, length-take k xs)

  take-skip : (k : ℕ) (xs : List A) → take k xs ++ skip k xs ≡ xs
  unfolding take skip
  take-skip zero xs = refl
  take-skip (suc k) [] = refl
  take-skip (suc k) (x ∷ xs) = ap (λ ys. x ∷ ys) (take-skip k xs)

module _ {E M S : Type 0} (metric : Metric E S) where
  -- No later answer is more similar than an earlier one.
  abbrev pub IsRanked : List (Vector E M × S) → Type 0
  IsRanked [] = Unit
  IsRanked (x ∷ xs) = All (λ y. metric.lt x.1 y.1 ≡ false) xs × IsRanked xs

  place-perm : (x : Vector E M × S) (xs : List (Vector E M × S)) → Perm (place metric x xs) (x ∷ xs)
  unfolding place
  place-perm x [] = Perm.refl (x ∷ [])
  place-perm x (y ∷ ys) = elim (Bool-cases (metric.lt x.1 y.1)) [
    | inl e ↦ rw e (Perm.trans (Perm.cons y (place-perm x ys)) (Perm.swap x y ys))
    | inr e ↦ rw e (Perm.refl (x ∷ y ∷ ys))
  ]

  sort_desc-perm : (xs : List (Vector E M × S)) → Perm (sort_desc metric xs) xs
  unfolding sort_desc
  sort_desc-perm [] = Perm.refl []
  sort_desc-perm (x ∷ xs) =
      Perm.trans (place-perm x (sort_desc metric xs)) (Perm.cons x (sort_desc-perm xs))

  length-place :
      (x : Vector E M × S) (xs : List (Vector E M × S)) → length (place metric x xs) ≡ length xs + 1
  unfolding place
  length-place x [] = omega arith
  length-place x (y ∷ ys) = ground (arith, length-place x ys)

  length-sort_desc : (xs : List (Vector E M × S)) → length (sort_desc metric xs) ≡ length xs
  unfolding sort_desc
  length-sort_desc [] = refl
  length-sort_desc (x ∷ xs) =
      omega (arith, length-place x (sort_desc metric xs), length-sort_desc xs)

  length-scored : (q : E) (vs : List (Vector E M)) → length (scored metric q vs) ≡ length vs
  unfolding scored
  length-scored q [] = refl
  length-scored q (v ∷ vs) = ap suc (length-scored q vs)

  place-All :
      (P : Vector E M × S → Type 0) (x : Vector E M × S) (xs : List (Vector E M × S))
      → P x
      → All P xs
      → All P (place metric x xs)
  unfolding place
  place-All P x [] h k = (h, tt)
  place-All P x (y ∷ ys) h k = elim (Bool-cases (metric.lt x.1 y.1)) [
    | inl e ↦ rw e (k.0, place-All P x ys h k.1)
    | inr e ↦ rw e (h, k)
  ]

  module _ (asym : (a b : S) → metric.lt a b ≡ true → metric.lt b a ≡ false)
      (total : (a b c : S)
        → metric.lt a b ≡ false
        → metric.lt b c ≡ false
        → metric.lt a c ≡ false) where
    place-IsRanked :
        (x : Vector E M × S) (xs : List (Vector E M × S))
        → IsRanked xs
        → IsRanked (place metric x xs)
    unfolding place
    place-IsRanked x [] h = (tt, tt)
    place-IsRanked x (y ∷ ys) h = elim (Bool-cases (metric.lt x.1 y.1)) [
      | inl e ↦ rw e (place-All _ x ys (asym x.1 y.1 e) h.0, place-IsRanked x ys h.1)
      | inr e ↦ rw e ((e, All-map _ _ ys (λ z. total x.1 y.1 z.1 e) h.0), h)
    ]

    sort_desc-IsRanked : (xs : List (Vector E M × S)) → IsRanked (sort_desc metric xs)
    unfolding sort_desc
    sort_desc-IsRanked [] = tt
    sort_desc-IsRanked (x ∷ xs) = place-IsRanked x (sort_desc metric xs) (sort_desc-IsRanked xs)

    -- Where the order of the similarities is asymmetric and "not less" is transitive, a query with
    -- an embedding of the right size returns at most `top_k` records, and all of them
    -- if there are fewer. With the records that it leaves out, they are those of the store, each
    -- with its similarity, in an order in which none is more similar than one before it: so none
    -- that is left out is more similar than one that is returned.
    pub query-best :
        (q : E) (top_k : ℕ) (db : VectorDb E M)
        → metric.size q ≡ db.dim
        → (out : List (Vector E M × S)) × (rest : List (Vector E M × S)) × (query metric q top_k db
            ≡ ok out)
          × (length out ≡ min top_k (length db.vectors))
          × Perm (out ++ rest) (scored metric q db.vectors)
          × IsRanked (out ++ rest)
    unfolding query
    query-best q top_k db size =
        let xs = scored metric q db.vectors in
        let sorted = sort_desc metric xs in
        let fits : eqb (metric.size q) db.dim ≡ true = ground arith in
        (
          take top_k sorted,
          skip top_k sorted,
          rw fits refl,
          length-take top_k sorted
              ∙ ap (min top_k) (length-sort_desc xs ∙ length-scored q db.vectors),
          rw (take-skip top_k sorted) (sort_desc-perm xs),
          rw (take-skip top_k sorted) (sort_desc-IsRanked xs),
        )
