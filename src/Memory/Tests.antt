-- ===== src/Memory/Tests.antt =====
-- Concrete runs of the knowledge graph and of the vector database.
use Prim.Native.Nat.{min}
use mathlib.Core.List.{Mem, Perm}
use bantu_os.Prelude.{
  ℕ, ◌+◌, ◌*◌, ◌≡◌, refl, true, false, All, List, [], ◌∷◌, ◌++◌, some, ok, length, ltb, arith,
}
use bantu_os.Prelude.Text.{Text, codes, ◌==◌}
use bantu_os.Prelude.Decimal.{decimal}
use bantu_os.Memory.Graph.Traverse.{traverse}
use bantu_os.Memory.Graph.Reached.{IsFound}
use bantu_os.Memory.Graph.Complete.{traverse-finds}
use bantu_os.Memory.Vectors.{Vector, Metric, VectorDb, vec_id, add, get, pop, delete, query, scored}
use bantu_os.Memory.Vectors.Ids.{IsNumbered, add-found, add-after_delete}
use bantu_os.Memory.Vectors.Ranking.{IsRanked, query-best}
use bantu_os.Prelude.Dict.{lookup, insert}
use bantu_os.Memory.Graph.{
  KgNode, KgEdge, KnowledgeGraph, init, ids_from, add_node, put_edge, add_edge, IsIndexed,
  add-IsIndexed,
}

init-IsIndexed : IsIndexed init
unfolding ids_from lookup
init-IsIndexed n i = refl

abbrev one_node : KnowledgeGraph
one_node = (add_node 1 (codes "a") (codes "A") (codes "{}") init).1

one_node-IsIndexed : IsIndexed one_node
one_node-IsIndexed = (add-IsIndexed init init-IsIndexed).0 1 (codes "a") (codes "A") (codes "{}")

add-IsIndexed_example :
    let g : KnowledgeGraph = one_node in
    ((now : ℕ) (id label properties : Text) → IsIndexed (add_node now id label properties g).1)
    × ((e e' : KgEdge) (g' : KnowledgeGraph) → add_edge e g ≡ ok (e', g') → IsIndexed g')
add-IsIndexed_example = add-IsIndexed one_node one_node-IsIndexed

abbrev two_nodes : KnowledgeGraph
two_nodes = (add_node 2 (codes "b") (codes "B") (codes "{}") one_node).1

-- The two nodes in a circle: each edge leads to the other.
abbrev edge : Text → Text → Text → KgEdge
edge id from_id to_id = record {
  id = id;
  from_id = from_id;
  to_id = to_id;
  relation = codes "knows";
  properties = codes "{}";
  weight = codes "1";
}

abbrev half_circle : KnowledgeGraph
half_circle = put_edge (edge (codes "1") (codes "a") (codes "b")) two_nodes

abbrev circle : KnowledgeGraph
circle = put_edge (edge (codes "2") (codes "b") (codes "a")) half_circle

two_nodes-IsIndexed : IsIndexed two_nodes
two_nodes-IsIndexed =
    (add-IsIndexed one_node one_node-IsIndexed).0 2 (codes "b") (codes "B") (codes "{}")

half_circle-IsIndexed : IsIndexed half_circle
unfolding add_edge add_node lookup ◌==◌ insert
half_circle-IsIndexed =
    let e = edge (codes "1") (codes "a") (codes "b") in
    (add-IsIndexed two_nodes two_nodes-IsIndexed).1 e e half_circle refl

circle-IsIndexed : IsIndexed circle
unfolding add_edge put_edge add_node lookup ◌==◌ insert
circle-IsIndexed =
    let e = edge (codes "2") (codes "b") (codes "a") in
    (add-IsIndexed half_circle half_circle-IsIndexed).1 e e circle refl

traverse-finds_example :
    (out : List KgNode) × (traverse circle (codes "a") (codes "*") 3 ≡ some (ok out))
    × All (IsFound circle (codes "*") (codes "a") 3) out
    × ((n : KgNode) → IsFound circle (codes "*") (codes "a") 3 n → Mem n out)
traverse-finds_example = traverse-finds circle (codes "a") (codes "*") 3 circle-IsIndexed

-- Vectors and similarities are numbers; the similarity of two vectors is their product.
abbrev product : Metric ℕ ℕ
product = record { size = λ e. 1; similarity = λ q e. q * e; lt = ltb }

abbrev record_of : ℕ → ℕ → Vector ℕ ℕ
record_of n e = record { id = vec_id n; embedding = e; text = codes "a"; metadata = 0 }

abbrev three_vectors : VectorDb ℕ ℕ
three_vectors = record { dim = 1; vectors = record_of 1 5 ∷ record_of 2 9 ∷ record_of 3 7 ∷ [] }

add-found_example :
    let db : VectorDb ℕ ℕ = three_vectors in
    let id = vec_id (length db.vectors + 1) in
    ((add product 4 (codes "b") 0 db).0 ≡ ok id)
    × (get product id (add product 4 (codes "b") 0 db).1
        ≡ some (record { id = id; embedding = 4; text = codes "b"; metadata = 0 }))
    × IsNumbered 1 (add product 4 (codes "b") 0 db).1.vectors
    × ((other : Text) (v : Vector ℕ ℕ)
        → get product other db ≡ some v
        → get product other (add product 4 (codes "b") 0 db).1 ≡ some v)
add-found_example = add-found product 4 (codes "b") 0 three_vectors (refl, (refl, (refl, tt))) refl

add-after_delete_example :
    let db : VectorDb ℕ ℕ = three_vectors in
    let last = vec_id (length db.vectors) in
    let db' = (delete product (vec_id 1) db).1 in
    (v : Vector ℕ ℕ) × (get product last db ≡ some v)
    × ((add product 4 (codes "b") 0 db').0 ≡ ok last)
    × (get product last (add product 4 (codes "b") 0 db').1 ≡ some v)
unfolding delete pop vec_id decimal ◌==◌
add-after_delete_example =
    add-after_delete product (vec_id 1) (codes "b") 4 0 three_vectors (refl, (refl, (refl, tt)))
      refl refl refl

lt_asym : (a b : ℕ) → ltb a b ≡ true → ltb b a ≡ false
lt_asym a b h = ground arith

lt_total : (a b c : ℕ) → ltb a b ≡ false → ltb b c ≡ false → ltb a c ≡ false
lt_total a b c h k = ground arith

query-best_example :
    let db : VectorDb ℕ ℕ = three_vectors in
    (out : List (Vector ℕ ℕ × ℕ)) × (rest : List (Vector ℕ ℕ × ℕ)) × (query product 2 2 db ≡ ok out)
    × (length out ≡ min 2 (length db.vectors))
    × Perm (out ++ rest) (scored product 2 db.vectors)
    × IsRanked product (out ++ rest)
query-best_example = query-best product lt_asym lt_total 2 2 three_vectors refl
