-- ===== src/Memory/Graph/Levels.antt =====
-- Lists of nodes with their depths, and what the traversal appends to its queue.
use bantu_os.Prelude.{
  ℕ, ◌+◌, ◌≤◌, ◌≡◌, inl, inr, refl, Bool, true, false, ◌&&◌, ◌||◌, not, List, [], ◌∷◌, ◌++◌, some,
  All, All-append, All-map, leb, Bool-cases, Option-cases, arith,
}
use bantu_os.Prelude.Text.{Text, eq_iff, eq_refl, ◌==◌}
use bantu_os.Prelude.Dict.{Dict, lookup}
use bantu_os.Memory.Graph.{KgEdge, edges_of, listed}
use bantu_os.Memory.Graph.Traverse.{matches, follow}

-- Whether a node stands in a list at a depth of at most `j`.
abbrev pub within : Text → ℕ → List (Text × ℕ) → Bool
within n j [] = false
within n j ((m, k) ∷ q) = (m == n && leb k j) || within n j q

pub within-append :
    (n : Text) (j : ℕ) (q r : List (Text × ℕ))
    → within n j (q ++ r) ≡ (within n j q || within n j r)
within-append n j [] r = refl
within-append n j ((m, k) ∷ q) r = ground (arith, within-append n j q r)

pub within-raise :
    (n : Text) (i j : ℕ) (q : List (Text × ℕ)) → i ≤ j → within n i q ≡ true → within n j q ≡ true
within-raise n i j [] le h = absurd (ground arith)
within-raise n i j ((m, k) ∷ q) le h = elim (Bool-cases (within n i q)) [
  | inl there ↦ ground (arith, within-raise n i j q le there)
  | inr head ↦ ground (arith, head)
]

abbrev pub names : List (Text × ℕ) → List Text
names [] = []
names (p ∷ q) = p.0 ∷ names q

abbrev pub AreUpTo : ℕ → List (Text × ℕ) → Type 0
AreUpTo d = All (λ p. p.1 ≤ d)

-- A node that is listed is so at a depth up to that of all.
pub within-names :
    (n : Text) (d j : ℕ) (seen : List (Text × ℕ))
    → AreUpTo d seen
    → d ≤ j
    → listed n (names seen) ≡ true
    → within n j seen ≡ true
within-names n d j [] h le at = absurd (ground arith)
within-names n d j ((m, k) ∷ seen) h le at = elim (Bool-cases (m == n)) [
  | inl same ↦ ground (arith, h.0)
  | inr other ↦ ground (arith, within-names n d j seen h.1 le)
]

pub UpTo-raise : (d e : ℕ) (q : List (Text × ℕ)) → d ≤ e → AreUpTo d q → AreUpTo e q
UpTo-raise d e q le = All-map _ _ q (λ p h. omega (arith, h))

-- Depths that do not fall.
abbrev pub IsLevelled : List (Text × ℕ) → Type 0
IsLevelled [] = Unit
IsLevelled (p ∷ q) = All (λ r. p.1 ≤ r.1) q × IsLevelled q

-- A matching edge leads to a node that was visited, or that the queue gets.
follow_cons :
    (relation : Text) (visited : List Text) (k : ℕ) (e : KgEdge) (es : List KgEdge)
    → matches relation e ≡ true
    → (listed e.to_id visited || within e.to_id (k + 1) (follow relation visited k (e ∷ es))) ≡ true
unfolding follow
follow_cons relation visited k e es match = ground (arith, eq_refl e.to_id)

follow_mono :
    (relation : Text) (visited : List Text) (k : ℕ) (n : Text) (e : KgEdge) (es : List KgEdge)
    → (listed n visited || within n (k + 1) (follow relation visited k es)) ≡ true
    → (listed n visited || within n (k + 1) (follow relation visited k (e ∷ es))) ≡ true
unfolding follow
follow_mono relation visited k n e es h = ground arith

pub follow-within :
    (d : Dict KgEdge) (relation : Text) (visited : List Text) (k : ℕ) (is : List Text)
    (es : List KgEdge) (i : Text) (e : KgEdge)
    → edges_of d is ≡ some es
    → listed i is ≡ true
    → lookup i d ≡ some e
    → matches relation e ≡ true
    → (listed e.to_id visited || within e.to_id (k + 1) (follow relation visited k es)) ≡ true
unfolding edges_of
follow-within d relation visited k [] es i e made at there match = absurd (ground arith)
follow-within d relation visited k (j ∷ is) es i e made at there match =
    elim (Option-cases (lookup j d)) [
      | inl missing ↦ absurd (ground (arith, missing))
      | inr (f, found) ↦ elim (Option-cases (edges_of d is)) [
        | inl missing ↦ absurd (ground (arith, missing, found))
        | inr (fs, rest) ↦
            let es_is : f ∷ fs ≡ es = ground (arith, found, rest) in
            elim (Bool-cases (j == i)) [
              | inl same ↦
                  let f_is : f ≡ e = ground (arith, found, there, (eq_iff j i).0 same) in
                  rw (← es_is, f_is) (follow_cons relation visited k e fs match)
              | inr other ↦ rw (← es_is) (
                  follow_mono relation visited k e.to_id f fs
                    (follow-within d relation visited k is fs i e rest (ground arith) there match))
            ]
      ]
    ]

pub follow-level :
    (relation : Text) (visited : List Text) (k : ℕ) (es : List KgEdge)
    → All (λ p. p.1 ≡ k + 1) (follow relation visited k es)
unfolding follow
follow-level relation visited k [] = tt
follow-level relation visited k (e ∷ es) =
    let rest = follow-level relation visited k es in
    elim (Bool-cases (matches relation e && not (listed e.to_id visited))) [
      | inl goes ↦ rw goes (refl, rest)
      | inr stays ↦ rw stays rest
    ]

Levelled-same : (k : ℕ) (q : List (Text × ℕ)) → All (λ p. p.1 ≡ k) q → IsLevelled q
Levelled-same k [] h = tt
Levelled-same k (p ∷ q) h =
    (All-map _ _ q (λ r same. omega (arith, h.0, same)) h.1, Levelled-same k q h.1)

pub Levelled-append :
    (k : ℕ) (q r : List (Text × ℕ))
    → IsLevelled q
    → AreUpTo k q
    → All (λ p. p.1 ≡ k) r
    → IsLevelled (q ++ r)
Levelled-append k [] r h le same = Levelled-same k r same
Levelled-append k (p ∷ q) r h le same = (
  All-append _ q r h.0 (All-map _ _ r (λ x is_k. omega (arith, le.0, is_k)) same),
  Levelled-append k q r h.1 le.1 same,
)
