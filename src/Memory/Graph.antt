-- ===== src/Memory/Graph.antt =====
-- bantu_os/memory/knowledge_graph.py: nodes, edges and the index of outgoing edges. Properties are
-- JSON texts; embeddings, which nothing sets, are left out.
pub mod Traverse
pub mod Complete
pub mod Levels
pub mod Reached
use bantu_os.Prelude.{
  ℕ, ◌≡◌, refl, sym, ◌∙◌, Bool, true, false, not, ◌&&◌, ◌||◌, Option, none, some, List, [], ◌∷◌,
  ◌++◌, arith, Result, ok, err, length, All, filter, Option-cases, inl, inr, ◌⊎◌, if◌then◌else◌,
}
use mathlib.Core.Path.{subst}
use bantu_os.Prelude.Text.{Text, codes, ◌==◌, eq_iff, eq_refl}
use bantu_os.Prelude.Dict.{Dict, lookup, has_key, insert, values, lookup-insert}

pub record KgNode : Type 0 where
  pub id : Text
  pub label : Text
  pub properties : Text
  pub created_at : ℕ

-- The weight is a text that no operation reads.
pub record KgEdge : Type 0 where
  pub id : Text
  pub from_id : Text
  pub to_id : Text
  pub relation : Text
  pub properties : Text
  pub weight : Text

pub record KnowledgeGraph : Type 0 where
  pub nodes : Dict KgNode
  pub edges : Dict KgEdge
  pub outgoing : Dict (List Text)

-- `__init__`
abbrev pub init : KnowledgeGraph
init = record { nodes = []; edges = []; outgoing = [] }

-- `outgoing.get(node_id, [])`
unfoldable pub ids_from : Text → Dict (List Text) → List Text
ids_from node_id d = elim (lookup node_id d) [ none ↦ [] | some ids ↦ ids ]

-- `outgoing.setdefault(id, [])`
set_default : Text → Dict (List Text) → Dict (List Text)
set_default id d = if has_key id d then d else insert id [] d

unfoldable pub add_node : ℕ → Text → Text → Text → KnowledgeGraph → KgNode × KnowledgeGraph
unfolding set_default
add_node now id label properties g =
    let n : KgNode = record { id = id; label = label; properties = properties; created_at = now } in
    (n, record g { nodes = insert id n g.nodes; outgoing = set_default id g.outgoing })

-- The index without an edge that is put again.
unlink : Text → Option KgEdge → Dict (List Text) → Dict (List Text)
unlink id none d = d
unlink id (some previous) d =
    insert previous.from_id (filter (λ i. not (i == id)) (ids_from previous.from_id d)) d

link : Text → Text → Dict (List Text) → Dict (List Text)
link id from_id d = insert from_id (ids_from from_id d ++ id ∷ []) d

unfoldable pub put_edge : KgEdge → KnowledgeGraph → KnowledgeGraph
unfolding unlink link
put_edge e g = record g {
  edges = insert e.id e g.edges;
  outgoing = link e.id e.from_id (unlink e.id (lookup e.id g.edges) g.outgoing);
}

unfoldable pub add_edge : KgEdge → KnowledgeGraph → Result Text (KgEdge × KnowledgeGraph)
add_edge e g =
    if not (has_key e.from_id g.nodes) || not (has_key e.to_id g.nodes)
    then err (codes "Both nodes must exist: " ++ (e.from_id ++ (codes ", " ++ e.to_id)))
    else ok (e, put_edge e g)

unfoldable pub get_node : Text → KnowledgeGraph → Option KgNode
get_node id g = lookup id g.nodes

-- `[self._edges[eid] for eid in edge_ids]`, none for the KeyError.
unfoldable pub edges_of : Dict KgEdge → List Text → Option (List KgEdge)
edges_of d [] = some []
edges_of d (i ∷ is) =
    let rest = edges_of d is in
    elim (lookup i d) [ none ↦ none | some e ↦ elim rest [ none ↦ none | some es ↦ some (e ∷ es) ] ]

unfoldable pub get_edges_from : Text → KnowledgeGraph → Option (List KgEdge)
get_edges_from node_id g = edges_of g.edges (ids_from node_id g.outgoing)

unfoldable pub get_edges_to : Text → KnowledgeGraph → List KgEdge
get_edges_to node_id g = filter (λ e. e.to_id == node_id) (values g.edges)

unfoldable pub node_count : KnowledgeGraph → ℕ
node_count g = length g.nodes

unfoldable pub edge_count : KnowledgeGraph → ℕ
edge_count g = length g.edges

-- Whether an id is in a list, and whether an edge starts at a node.
abbrev pub listed : Text → List Text → Bool
listed i [] = false
listed i (j ∷ is) = j == i || listed i is

abbrev pub starts_at : Text → Option KgEdge → Bool
starts_at n none = false
starts_at n (some e) = e.from_id == n

-- The index lists at a node exactly the edges that start there, by their keys.
abbrev pub IsIndexed : KnowledgeGraph → Type 0
IsIndexed g = (n i : Text) → listed i (ids_from n g.outgoing) ≡ starts_at n (lookup i g.edges)

listed-append : (i j : Text) (is : List Text) → listed i (is ++ j ∷ []) ≡ (listed i is || j == i)
listed-append i j [] = ground arith
listed-append i j (k ∷ is) = ground (arith, listed-append i j is)

listed-filter :
    (i j : Text) (is : List Text)
    → listed i (filter (λ k. not (k == j)) is) ≡ (listed i is && not (i == j))
unfolding filter
listed-filter i j [] = refl
listed-filter i j (k ∷ is) =
    ground (arith, eq_iff k j, eq_iff k i, eq_iff i j, listed-filter i j is)

ids_from-insert :
    (m n : Text) (ids : List Text) (d : Dict (List Text))
    → ids_from n (insert m ids d) ≡ (if m == n then ids else ids_from n d)
unfolding ids_from
ids_from-insert m n ids d = ground (arith, lookup-insert m n ids d)

unlink-lists :
    (id n i : Text) (old : Option KgEdge) (d : Dict (List Text))
    → (listed i (ids_from n d) ≡ starts_at n old ⊎ (i == id) ≡ false)
    → listed i (ids_from n (unlink id old d)) ≡ (if i == id then false else listed i (ids_from n d))
unfolding unlink
unlink-lists id n i none d h = ground (arith, eq_iff i id)
unlink-lists id n i (some p) d h = ground (
  arith,
  ids_from-insert p.from_id n (filter (λ k. not (k == id)) (ids_from p.from_id d)) d,
  listed-filter i id (ids_from p.from_id d),
  eq_iff i id,
  eq_iff p.from_id n,
)

link-lists :
    (id from n i : Text) (d : Dict (List Text))
    → listed i (ids_from n (link id from d)) ≡ (listed i (ids_from n d) || (from == n && id == i))
unfolding link
link-lists id from n i d = ground (
  arith,
  ids_from-insert from n (ids_from from d ++ id ∷ []) d,
  listed-append i id (ids_from from d),
  eq_iff from n,
)

-- In an indexed graph the lookup of listed edges never fails, and finds those that start there.
edges_of-total :
    (n : Text) (d : Dict KgEdge) (ids : List Text)
    → ((i : Text) → listed i ids ≡ true → starts_at n (lookup i d) ≡ true)
    → (es : List KgEdge) × (edges_of d ids ≡ some es)
      × (length es ≡ length ids)
      × All (λ e. e.from_id ≡ n) es
unfolding edges_of
edges_of-total n d [] h = ([], refl, refl, tt)
edges_of-total n d (i ∷ is) h =
    let (es, found, long, starts) = edges_of-total n d is (λ j l. h j (ground (arith, l))) in
    elim (Option-cases (lookup i d)) [
      | inl none_i ↦ absurd (ground (arith, h i (ground (arith, eq_refl i)), none_i))
      | inr (e, some_i) ↦ (
        e ∷ es,
        rw (some_i, found, edges_of) refl,
        ground (arith, long),
        (ground (arith, h i (ground (arith, eq_refl i)), some_i, eq_iff e.from_id n), starts),
      )
    ]

put_edge-IsIndexed : (g : KnowledgeGraph) (e : KgEdge) → IsIndexed g → IsIndexed (put_edge e g)
unfolding put_edge
put_edge-IsIndexed g e h n i =
    let unlinked =
      unlink-lists e.id n i (lookup e.id g.edges) g.outgoing
        (ground (arith, eq_iff i e.id, h n i)) in
    link-lists e.id e.from_id n i (unlink e.id (lookup e.id g.edges) g.outgoing)
    ∙ ground (arith, unlinked, lookup-insert e.id i e g.edges, eq_iff e.id i, eq_iff i e.id, h n i)

-- Adding a node to an indexed graph keeps it indexed, and so does adding an edge, also where the
-- edge's id was in use and its edge started at another node.
pub add-IsIndexed :
    (g : KnowledgeGraph)
    → IsIndexed g
    → ((now : ℕ) (id label properties : Text) → IsIndexed (add_node now id label properties g).1)
      × ((e e' : KgEdge) (g' : KnowledgeGraph) → add_edge e g ≡ ok (e', g') → IsIndexed g')
unfolding add_node set_default add_edge ids_from
add-IsIndexed g h = (
  λ now id label properties n i.
      ground (arith, h n i, lookup-insert id n [] g.outgoing, eq_iff id n),
  λ e e' g' p.
      let made : put_edge e g ≡ g' = ground (arith, p) in
      subst IsIndexed made (put_edge-IsIndexed g e h),
)

-- In an indexed graph `get_edges_from` never raises, and returns edges that start at the node.
pub get_edges_from-total :
    (g : KnowledgeGraph) (n : Text)
    → IsIndexed g
    → (es : List KgEdge) × (get_edges_from n g ≡ some es) × All (λ e. e.from_id ≡ n) es
unfolding get_edges_from
get_edges_from-total g n h =
    let (es, found, long, starts) =
      edges_of-total n g.edges (ids_from n g.outgoing) (λ i l. sym (h n i) ∙ l) in
    (es, found, starts)
