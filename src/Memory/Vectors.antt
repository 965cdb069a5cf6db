-- ===== src/Memory/Vectors.antt =====
-- bantu_os/memory/vector_db.py, the adapters of vector_store.py over it, and memory.py. Embeddings,
-- metadata and similarities are of any types; what numpy computes is the parameter `Metric`.
pub mod Ids
pub mod Ranking
use bantu_os.Prelude.{
  ℕ, zero, suc, ◌+◌, ◌≡◌, Bool, true, false, not, List, [], ◌∷◌, ◌++◌, map, Option, none, some,
  Result, ok, err, length, eqb, if◌then◌else◌,
}
use bantu_os.Prelude.Text.{Text, codes, ◌==◌}
use bantu_os.Prelude.Decimal.{decimal}

pub record Vector (E M : Type 0) : Type 0 where
  pub id : Text
  pub embedding : E
  pub text : Text
  pub metadata : M

-- `size` is the length, or the last dimension, of an embedding; `similarity` is the cosine, and
-- `lt` compares two of them.
pub record Metric (E S : Type 0) : Type 0 where
  pub size : E → ℕ
  pub similarity : E → E → S
  pub lt : S → S → Bool

pub record VectorDb (E M : Type 0) : Type 0 where
  pub dim : ℕ
  pub vectors : List (Vector E M)

pub data MemoryError : Type 0 where
  bad_dimension no_provider type_error : MemoryError
  failed : Text → MemoryError

-- `f"vec_{n}"`
unfoldable pub vec_id : ℕ → Text
vec_id n = codes "vec_" ++ decimal n

module _ {ℓ} {A : Type ℓ} where
  -- `xs[:k]` for a `k` that is not negative, and the rest.
  unfoldable pub take : ℕ → List A → List A
  take zero xs = []
  take (suc k) [] = []
  take (suc k) (x ∷ xs) = x ∷ take k xs

module _ {E M S : Type 0} (metric : Metric E S) where
  unfoldable pub add : E → Text → M → VectorDb E M → Result MemoryError Text × VectorDb E M
  add e text metadata db =
      let id = vec_id (length db.vectors + 1) in
      let v : Vector E M = record { id = id; embedding = e; text = text; metadata = metadata } in
      if not (eqb (metric.size e) db.dim)
      then (err bad_dimension, db)
      else (ok id, record db { vectors = db.vectors ++ v ∷ [] })

  -- A stable sort, the greatest similarity first.
  unfoldable pub place : Vector E M × S → List (Vector E M × S) → List (Vector E M × S)
  place x [] = x ∷ []
  place x (y ∷ ys) = if metric.lt x.1 y.1 then y ∷ place x ys else x ∷ y ∷ ys

  unfoldable pub sort_desc : List (Vector E M × S) → List (Vector E M × S)
  unfolding place
  sort_desc [] = []
  sort_desc (x ∷ xs) = place x (sort_desc xs)

  unfoldable pub scored : E → List (Vector E M) → List (Vector E M × S)
  scored q = map (λ r. (r, metric.similarity q r.embedding))

  unfoldable pub query : E → ℕ → VectorDb E M → Result MemoryError (List (Vector E M × S))
  query q top_k db =
      if not (eqb (metric.size q) db.dim)
      then err bad_dimension
      else ok (take top_k (sort_desc (scored q db.vectors)))

  unfoldable pub find : Text → List (Vector E M) → Option (Vector E M)
  find id [] = none
  find id (v ∷ vs) = if v.id == id then some v else find id vs

  unfoldable pub get : Text → VectorDb E M → Option (Vector E M)
  unfolding find
  get id db = find id db.vectors

  -- The list without the first record of this id, `none` if it has none.
  unfoldable pub pop : Text → List (Vector E M) → Option (List (Vector E M))
  pop id [] = none
  pop id (v ∷ vs) =
      let rest : Option (List (Vector E M)) = elim (pop id vs) [
        | none ↦ none
        | some us ↦ some (v ∷ us)
      ] in
      if v.id == id then some vs else rest

  unfoldable pub delete : Text → VectorDb E M → Bool × VectorDb E M
  unfolding pop
  delete id db = elim (pop id db.vectors) [
    | none ↦ (false, db)
    | some vs ↦ (true, record db { vectors = vs })
  ]
