-- ===== src/Memory/Graph/Complete.antt =====
-- The traversal goes by levels, so that it finds every node within its depth.
use mathlib.Core.List.{Mem, mem-append_left, mem-append_right, mem-cons_self}
use bantu_os.Prelude.{
  ℕ, zero, suc, ◌+◌, ◌≤◌, ◌≡◌, inl, inr, refl, ◌∙◌, Bool, true, ◌&&◌, ◌||◌, List, [], ◌∷◌, ◌++◌,
  Option, none, some, ok, All, All-append, All-map, leb, ltb, Bool-cases, arith,
}
use bantu_os.Prelude.Text.{Text, eq_iff, eq_refl, ◌==◌}
use bantu_os.Prelude.Dict.{lookup}
use bantu_os.Memory.Graph.{
  KgNode, KgEdge, KnowledgeGraph, ids_from, get_edges_from, listed, IsIndexed,
}
use bantu_os.Memory.Graph.Traverse.{matches, follow, with_node, traverse_from, pending, traverse}
use bantu_os.Memory.Graph.Reached.{
  IsEdgeAt, get_edges_from-some, Reaches, here, along, IsFound, traverse-IsFound,
}
use bantu_os.Memory.Graph.Levels.{
  within, within-append, within-raise, names, AreUpTo, within-names, UpTo-raise, IsLevelled,
  follow-within, follow-level, Levelled-append,
}

module _ (g : KnowledgeGraph) (relation start : Text) (max_depth : ℕ) where
  -- A node was seen or waits, at a depth of at most `j`, or `j` is too deep.
  abbrev covers : Text → ℕ → List (Text × ℕ) → List (Text × ℕ) → Bool
  covers n j seen queue = within n j seen || (within n j queue || ltb max_depth j)

  covers_skip :
      (n id : Text) (j k d : ℕ) (seen queue : List (Text × ℕ))
      → AreUpTo d seen
      → d ≤ k
      → (listed id (names seen) || ltb max_depth k) ≡ true
      → covers n j seen ((id, k) ∷ queue) ≡ true
      → covers n j seen queue ≡ true
  covers_skip n id j k d seen queue up le skip h = elim (Bool-cases (id == n && leb k j)) [
    | inr other ↦ ground arith
    | inl hit ↦ elim (Bool-cases (ltb max_depth k)) [
      | inl deep ↦ ground arith
      | inr near ↦
          let same : id ≡ n = (eq_iff id n).0 (ground arith) in
          let old : listed n (names seen) ≡ true = rw (← same) (ground arith) in
          ground (arith, within-names n d j seen up (ground arith) old)
    ]
  ]

  covers_visit :
      (n id : Text) (j k : ℕ) (seen queue more : List (Text × ℕ))
      → covers n j seen ((id, k) ∷ queue) ≡ true
      → covers n j ((id, k) ∷ seen) (queue ++ more) ≡ true
  covers_visit n id j k seen queue more h = ground (arith, within-append n j queue more)

  -- What the edges of the nodes that were seen lead to is covered.
  abbrev IsClosed : List (Text × ℕ) → List (Text × ℕ) → List (Text × ℕ) → Type 0
  IsClosed seen queue = All (λ p.
      (e : KgEdge)
      → IsEdgeAt g.edges p.0 e
      → matches relation e ≡ true
      → covers e.to_id (p.1 + 1) seen queue ≡ true)

  -- How far a traversal has come: what it saw is at depths up to `d`, the queue goes by levels from
  -- `d` to the next, and every edge that was followed leads to what was seen or waits.
  record Explored (d : ℕ) (seen queue : List (Text × ℕ)) (results : List KgNode) : Type 0 where
    up : AreUpTo d seen
    later : All (λ p. d ≤ p.1) queue
    soon : AreUpTo (d + 1) queue
    level : IsLevelled queue
    began : covers start 0 seen queue ≡ true
    closed : IsClosed seen queue seen
    shown : All (λ p. (n : KgNode) → lookup p.0 g.nodes ≡ some n → Mem n results) seen

  Explored-skip :
      (d k : ℕ) (id : Text) (seen queue : List (Text × ℕ)) (results : List KgNode)
      → (listed id (names seen) || ltb max_depth k) ≡ true
      → Explored d seen ((id, k) ∷ queue) results
      → Explored d seen queue results
  Explored-skip d k id seen queue results skip x =
      let less = λ (n : Text) (j : ℕ). covers_skip n id j k d seen queue x.up x.later.0 skip in
      record {
        up = x.up;
        later = x.later.1;
        soon = x.soon.1;
        level = x.level.1;
        began = less start 0 x.began;
        closed =
            All-map _ _ seen (λ p h e at match. less e.to_id (p.1 + 1) (h e at match)) x.closed;
        shown = x.shown;
      }

  Mem-with_node :
      (n : KgNode) (o : Option KgNode) (results : List KgNode)
      → Mem n results
      → Mem n (with_node o results)
  unfolding with_node
  Mem-with_node n none results h = h
  Mem-with_node n (some m) results h = mem-append_left (m ∷ []) h

  -- The edges of a node that is visited.
  visited_closed :
      (k : ℕ) (id : Text) (seen queue : List (Text × ℕ)) (es : List KgEdge) (e : KgEdge)
      → IsIndexed g
      → get_edges_from id g ≡ some es
      → AreUpTo k seen
      → IsEdgeAt g.edges id e
      → matches relation e ≡ true
      → covers e.to_id (k + 1) ((id, k) ∷ seen) (queue ++ follow relation (id ∷ names seen) k es)
        ≡ true
  unfolding get_edges_from
  visited_closed k id seen queue es e indexed made up (from, (i, there)) match =
      let more = follow relation (id ∷ names seen) k es in
      let at : listed i (ids_from id g.outgoing) ≡ true =
        indexed id i ∙ rw there (rw from (eq_refl id)) in
      let led =
        follow-within g.edges relation (id ∷ names seen) k (ids_from id g.outgoing) es i e made at
          there match in
      elim (Bool-cases (listed e.to_id (id ∷ names seen))) [
        | inl old ↦
            let was =
              within-names e.to_id k (k + 1) ((id, k) ∷ seen) (omega arith, up) (omega arith) old in
            rw was refl
        | inr new ↦
            let waits : within e.to_id (k + 1) more ≡ true = ground (arith, led, new) in
            ground (arith, within-append e.to_id (k + 1) queue more, waits)
      ]

  Explored-visit :
      (d k : ℕ) (id : Text) (seen queue : List (Text × ℕ)) (results : List KgNode)
      (es : List KgEdge)
      → IsIndexed g
      → get_edges_from id g ≡ some es
      → Explored d seen ((id, k) ∷ queue) results
      → Explored k
          ((id, k) ∷ seen)
          (queue ++ follow relation (id ∷ names seen) k es)
          (with_node (lookup id g.nodes) results)
  unfolding with_node
  Explored-visit d k id seen queue results es indexed made x =
      let more = follow relation (id ∷ names seen) k es in
      let level = follow-level relation (id ∷ names seen) k es in
      let le = x.later.0 in
      let up = UpTo-raise d k seen le x.up in
      let soon = UpTo-raise (d + 1) (k + 1) queue (omega (arith, le)) x.soon.1 in
      record {
        up = (omega arith, up);
        later =
            All-append _ queue more x.level.0 (All-map _ _ more (λ p is. omega (arith, is)) level);
        soon = All-append _ queue more soon (All-map _ _ more (λ p is. omega (arith, is)) level);
        level = Levelled-append (k + 1) queue more x.level.1 soon level;
        began = covers_visit start id 0 k seen queue more x.began;
        closed = (
          λ e at match. visited_closed k id seen queue es e indexed made up at match,
          All-map _ _ seen
              (λ p h e at match. covers_visit e.to_id id (p.1 + 1) k seen queue more (h e at match))
              x.closed,
        );
        shown = (
          λ n there. rw there (mem-append_right results mem-cons_self),
          All-map _ _ seen (λ p h n there. Mem-with_node n (lookup id g.nodes) results (h n there))
              x.shown,
        );
      }

  seen_at :
      (P : Text × ℕ → Type 0) (n : Text) (j : ℕ) (seen : List (Text × ℕ))
      → All P seen
      → within n j seen ≡ true
      → (k : ℕ) × (k ≤ j) × P (n, k)
  seen_at P n j [] h at = absurd (ground arith)
  seen_at P n j ((m, k) ∷ seen) h at = elim (Bool-cases (m == n && leb k j)) [
    | inl hit ↦ (k, ground arith, rw (← (eq_iff m n).0 (ground arith)) h.0)
    | inr other ↦ seen_at P n j seen h.1 (ground arith)
  ]

  -- When nothing waits, all that is reached was seen, no deeper than it is reached.
  reached-within :
      (d : ℕ) (seen : List (Text × ℕ)) (results : List KgNode) (k : ℕ) (n : Text)
      → Explored d seen [] results
      → Reaches g relation start k n
      → k ≤ max_depth
      → within n k seen ≡ true
  reached-within d seen results k n x here le = ground (arith, x.began)
  reached-within d seen results j n x (along {k} {n = m} e r at match) le =
      let before = reached-within d seen results k m x r (omega (arith, le)) in
      let (i, least, out) = seen_at _ m k seen x.closed before in
      let led = out e at match in
      within-raise e.to_id (i + 1) (k + 1) seen (omega (arith, least))
        (ground (arith, led, least, le))

  traverse_from-shows :
      (fuel d : ℕ) (seen queue : List (Text × ℕ)) (results out : List KgNode)
      → IsIndexed g
      → Explored d seen queue results
      → traverse_from g relation max_depth fuel (names seen) queue results ≡ some (ok out)
      → (n : KgNode) → IsFound g relation start max_depth n
      → Mem n out
  unfolding traverse_from
  traverse_from-shows zero d seen queue results out indexed x = λ made. absurd (cc)
  traverse_from-shows (suc fuel) d seen [] results out indexed x = λ made n f.
      let same : results ≡ out = ground arith in
      let (k, le, shows) =
        seen_at _ f.at f.steps seen x.shown
          (reached-within d seen results f.steps f.at x f.path f.near) in
      rw (← same) (shows n f.there)
  traverse_from-shows (suc fuel) d seen ((id, k) ∷ queue) results out indexed x =
      elim (Bool-cases (listed id (names seen) || ltb max_depth k)) [
        | inl skip ↦
            rw (traverse_from, skip)
              (traverse_from-shows fuel d seen queue results out indexed
                (Explored-skip d k id seen queue results skip x))
        | inr go ↦
            let (es, e, l, from) = get_edges_from-some id g indexed in
            rw (traverse_from, go, e)
              (traverse_from-shows fuel k ((id, k) ∷ seen) _ _ out indexed
                (Explored-visit d k id seen queue results es indexed e x))
      ]

-- On a graph whose index is right, the traversal ends with the fuel it is given, never meets a
-- missing edge, and returns exactly the nodes of the graph that are reached from the start by at
-- most `max_depth` edges of the graph, each of the relation or any if the relation is `*`.
pub traverse-finds :
    (g : KnowledgeGraph) (start relation : Text) (max_depth : ℕ)
    → IsIndexed g
    → (out : List KgNode) × (traverse g start relation max_depth ≡ some (ok out))
      × All (IsFound g relation start max_depth) out
      × ((n : KgNode) → IsFound g relation start max_depth n → Mem n out)
unfolding traverse
traverse-finds g start relation max_depth indexed =
    let (out, made, found) = traverse-IsFound g start relation max_depth indexed in
    (
      out,
      made,
      found,
      traverse_from-shows g relation start max_depth (pending [] g.outgoing + 2) 0 []
          ((start, 0) ∷ []) [] out indexed
          (record {
            up = tt;
            later = (omega arith, tt);
            soon = (omega arith, tt);
            level = (tt, tt);
            began = ground (arith, eq_refl start);
            closed = tt;
            shown = tt;
          })
          made,
    )
