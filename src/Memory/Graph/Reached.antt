-- ===== src/Memory/Graph/Reached.antt =====
-- The traversal ends, without an error, and returns only nodes that are reached.
use bantu_os.Prelude.{
  ℕ, zero, suc, ◌+◌, ◌≤◌, ◌<◌, ◌≡◌, inl, inr, refl, sym, ◌∙◌, true, false, ◌||◌, List, [], ◌∷◌,
  ◌++◌, some, ok, All, All-append, length, length-append, ltb, Bool-cases, Option-cases, arith,
}
use bantu_os.Prelude.Text.{Text, eq_iff, eq_refl}
use bantu_os.Prelude.Dict.{Dict, lookup}
use bantu_os.Memory.Graph.{
  KgNode, KgEdge, KnowledgeGraph, ids_from, edges_of, get_edges_from, listed, starts_at, IsIndexed,
}
use bantu_os.Memory.Graph.Traverse.{matches, follow, with_node, traverse_from, pending, traverse}

listed-cons : (i j : Text) (is : List Text) → listed i is ≡ true → listed i (j ∷ is) ≡ true
listed-cons i j is h = ground arith

pending-cons :
    (id : Text) (visited : List Text) (d : Dict (List Text))
    → pending (id ∷ visited) d ≤ pending visited d
unfolding pending
pending-cons id visited [] = omega arith
pending-cons id visited ((k, ids) ∷ d) = ground (arith, pending-cons id visited d)

-- A visit uses up the entries at its node.
pending_visit :
    (id : Text) (visited : List Text) (d : Dict (List Text))
    → listed id visited ≡ false
    → pending (id ∷ visited) d + length (ids_from id d) ≤ pending visited d
unfolding pending ids_from lookup
pending_visit id visited [] h = omega arith
pending_visit id visited ((k, ids) ∷ d) h = ground (
  arith,
  eq_iff k id,
  eq_refl id,
  eq_iff id k,
  pending-cons id visited d,
  pending_visit id visited d,
)

length-follow :
    (relation : Text) (visited : List Text) (depth : ℕ) (es : List KgEdge)
    → length (follow relation visited depth es) ≤ length es
unfolding follow
length-follow relation visited depth [] = omega arith
length-follow relation visited depth (e ∷ es) =
    ground (arith, length-follow relation visited depth es)

-- An edge of the dict that starts at the node.
abbrev pub IsEdgeAt : Dict KgEdge → Text → KgEdge → Type 0
IsEdgeAt d n e = (e.from_id ≡ n) × ((i : Text) × (lookup i d ≡ some e))

-- The edges that the index lists at a node, where each of them starts there.
edges_of-some :
    (n : Text) (d : Dict KgEdge) (is : List Text)
    → All (λ i. starts_at n (lookup i d) ≡ true) is
    → (es : List KgEdge) × (edges_of d is ≡ some es)
      × (length es ≡ length is)
      × All (IsEdgeAt d n) es
unfolding edges_of
edges_of-some n d [] h = ([], refl, refl, tt)
edges_of-some n d (i ∷ is) h =
    let (es, e, l, from) = edges_of-some n d is h.1 in
    elim (Option-cases (lookup i d)) [
      | inl none_there ↦ absurd (ground (arith, h.0))
      | inr (edge, there) ↦ (
        edge ∷ es,
        rw (edges_of, there, e) refl,
        omega (arith, l),
        (((eq_iff edge.from_id n).0 (ground (arith, h.0)), (i, there)), from),
      )
    ]

listed-All :
    (n : Text) (g : KnowledgeGraph) (is : List Text)
    → ((i : Text) → listed i is ≡ true → starts_at n (lookup i g.edges) ≡ true)
    → All (λ i. starts_at n (lookup i g.edges) ≡ true) is
listed-All n g [] h = tt
listed-All n g (i ∷ is) h =
    (h i (ground (arith, eq_refl i)), listed-All n g is (λ j at. h j (listed-cons j i is at)))

pub get_edges_from-some :
    (n : Text) (g : KnowledgeGraph)
    → IsIndexed g
    → (es : List KgEdge) × (get_edges_from n g ≡ some es)
      × (length es ≡ length (ids_from n g.outgoing))
      × All (IsEdgeAt g.edges n) es
unfolding get_edges_from
get_edges_from-some n g h =
    edges_of-some n g.edges (ids_from n g.outgoing)
      (listed-All n g (ids_from n g.outgoing) (λ i at. sym (h n i) ∙ at))

-- A node at the end of a path of matching edges, with the number of the edges.
pub data Reaches (g : KnowledgeGraph) (relation start : Text) : ℕ → Text → Type 0 where
  here : Reaches g relation start 0 start
  along :
      {k : ℕ} {n : Text} (e : KgEdge)
      → Reaches g relation start k n
      → IsEdgeAt g.edges n e
      → matches relation e ≡ true
      → Reaches g relation start (k + 1) e.to_id

-- A node of the graph that is reached by at most `max_depth` edges.
pub record IsFound (g : KnowledgeGraph) (relation start : Text) (max_depth : ℕ) (n : KgNode)
    : Type 0 where
  pub at : Text
  pub steps : ℕ
  pub there : lookup at g.nodes ≡ some n
  pub near : steps ≤ max_depth
  pub path : Reaches g relation start steps at

module _ (g : KnowledgeGraph) (relation start : Text) (max_depth : ℕ) where
  abbrev AreReached : List (Text × ℕ) → Type 0
  AreReached = All (λ q. Reaches g relation start q.1 q.0)

  follow-AreReached :
      (visited : List Text) (k : ℕ) (n : Text) (es : List KgEdge)
      → Reaches g relation start k n
      → All (IsEdgeAt g.edges n) es
      → AreReached (follow relation visited k es)
  unfolding follow
  follow-AreReached visited k n [] r h = tt
  follow-AreReached visited k n (e ∷ es) r h =
      let rest = follow-AreReached visited k n es r h.1 in
      elim (Bool-cases (matches relation e)) [
        | inr no_match ↦ rw no_match rest
        | inl match ↦ elim (Bool-cases (listed e.to_id visited)) [
          | inl old ↦ rw (match, old) rest
          | inr new ↦ rw (match, new) (along e r h.0 match, rest)
        ]
      ]

  with_node-IsFound :
      (id : Text) (k : ℕ) (results : List KgNode)
      → k ≤ max_depth
      → Reaches g relation start k id
      → All (IsFound g relation start max_depth) results
      → All (IsFound g relation start max_depth) (with_node (lookup id g.nodes) results)
  unfolding with_node
  with_node-IsFound id k results le r h = elim (Option-cases (lookup id g.nodes)) [
    | inl e ↦ rw e h
    | inr (n, e) ↦ rw e (
        All-append _ results (n ∷ []) h
          (record { at = id; steps = k; there = e; near = le; path = r }, tt))
  ]

  traverse_from-some :
      (fuel : ℕ) (visited : List Text) (queue : List (Text × ℕ)) (results : List KgNode)
      → IsIndexed g
      → length queue + pending visited g.outgoing < fuel
      → AreReached queue
      → All (IsFound g relation start max_depth) results
      → (out : List KgNode) × (traverse_from g relation max_depth fuel visited queue results
          ≡ some (ok out))
        × All (IsFound g relation start max_depth) out
  unfolding traverse_from
  traverse_from-some zero visited queue results x lt q h = absurd (omega arith)
  traverse_from-some (suc fuel) visited [] results x lt q h = (results, refl, h)
  traverse_from-some (suc fuel) visited ((id, k) ∷ queue) results x lt q h =
      elim (Bool-cases (listed id visited || ltb max_depth k)) [
        | inl skip ↦
            rw (traverse_from, skip)
              (traverse_from-some fuel visited queue results x (omega arith) q.1 h)
        | inr go ↦
            let (es, e, l, from) = get_edges_from-some id g x in
            let new : listed id visited ≡ false = ground arith in
            let near : k ≤ max_depth = ground arith in
            let more = follow relation (id ∷ visited) k es in
            rw (traverse_from, go, e)
              (traverse_from-some fuel (id ∷ visited) (queue ++ more)
                (with_node (lookup id g.nodes) results) x
                (omega (
                  arith,
                  l,
                  length-append queue more,
                  length-follow relation (id ∷ visited) k es,
                  pending_visit id visited g.outgoing new,
                ))
                (All-append _ queue more q.1 (follow-AreReached (id ∷ visited) k id es q.0 from))
                (with_node-IsFound id k results near q.0 h))
      ]

-- On a graph whose index is right, the traversal ends with the fuel it is given, never meets a
-- missing edge, and returns only nodes of the graph that are reached from the start by at most
-- `max_depth` edges of the graph, each of the relation or any if the relation is `*`.
pub traverse-IsFound :
    (g : KnowledgeGraph) (start relation : Text) (max_depth : ℕ)
    → IsIndexed g
    → (out : List KgNode) × (traverse g start relation max_depth ≡ some (ok out))
      × All (IsFound g relation start max_depth) out
unfolding traverse
traverse-IsFound g start relation max_depth x =
    traverse_from-some g relation start max_depth (pending [] g.outgoing + 2) [] ((start, 0) ∷ [])
      [] x (omega arith) (here, tt) tt
