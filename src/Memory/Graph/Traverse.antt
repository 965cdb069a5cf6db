-- ===== src/Memory/Graph/Traverse.antt =====
-- `traverse` of bantu_os/memory/knowledge_graph.py. The set of visited nodes is a list.
use bantu_os.Prelude.{
  ℕ, zero, suc, ◌+◌, Bool, not, ◌&&◌, ◌||◌, List, [], ◌∷◌, ◌++◌, Option, none, some, Result, ok,
  err, length, ltb, if◌then◌else◌,
}
use bantu_os.Prelude.Text.{Text, codes, ◌==◌}
use bantu_os.Prelude.Dict.{Dict, lookup}
use bantu_os.Memory.Graph.{KgNode, KgEdge, KnowledgeGraph, get_edges_from, listed}

-- `edge.relation == relation or relation == "*"`
unfoldable pub matches : Text → KgEdge → Bool
matches relation e = (e.relation == relation) || (relation == codes "*")

-- What the inner loop appends to the queue.
unfoldable pub follow : Text → List Text → ℕ → List KgEdge → List (Text × ℕ)
unfolding matches
follow relation visited depth [] = []
follow relation visited depth (e ∷ es) =
    let rest = follow relation visited depth es in
    if matches relation e && not (listed e.to_id visited) then (e.to_id, depth + 1) ∷ rest else rest

-- `if node: results.append(node)`
unfoldable pub with_node : Option KgNode → List KgNode → List KgNode
with_node none results = results
with_node (some n) results = results ++ n ∷ []

module _ (g : KnowledgeGraph) (relation : Text) (max_depth : ℕ) where
  -- `none` when the fuel runs out, `err` for the KeyError of an edge that is missing.
  unfoldable pub traverse_from :
      ℕ → List Text → List (Text × ℕ) → List KgNode → Option (Result Text (List KgNode))
  unfolding follow with_node
  traverse_from zero visited queue results = none
  traverse_from (suc fuel) visited [] results = some (ok results)
  traverse_from (suc fuel) visited ((id, depth) ∷ queue) results =
      let skipped = traverse_from fuel visited queue results in
      let visit : Option (Result Text (List KgNode)) = elim (get_edges_from id g) [
        | none ↦ some (err id)
        | some es ↦
            traverse_from fuel (id ∷ visited) (queue ++ follow relation (id ∷ visited) depth es)
              (with_node (lookup id g.nodes) results)
      ] in
      if listed id visited || ltb max_depth depth then skipped else visit

-- How many entries of the index stand at nodes that were not visited.
unfoldable pub pending : List Text → Dict (List Text) → ℕ
pending visited [] = 0
pending visited ((k, ids) ∷ d) = (if listed k visited then 0 else length ids) + pending visited d

-- Each round takes an entry of the queue, and each entry but the first comes from the index.
unfoldable pub traverse : KnowledgeGraph → Text → Text → ℕ → Option (Result Text (List KgNode))
unfolding traverse_from pending
traverse g start_id relation max_depth =
    traverse_from g relation max_depth (pending [] g.outgoing + 2) [] ((start_id, 0) ∷ []) []
