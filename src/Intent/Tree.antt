-- ===== src/Intent/Tree.antt =====
-- bantu_os/core/intent/goal_tree.py and retry_engine.py. Ids are numbers that a counter draws, in
-- place of `uuid4`; times are left out, since no operation reads them.
use bantu_os.Prelude.{
  ℕ, ◌+◌, ◌≤◌, ◌<◌, ◌≡◌, Bool, true, false, Option, none, some, List, [], ◌∷◌, ◌++◌, arith, leb,
  length, length-append, if◌then◌else◌,
}
use bantu_os.Prelude.Text.{Text, codes}

pub data GoalStatus : Type 0 where
  pending running done failed blocked : GoalStatus

pub record RetryRecord : Type 0 where
  pub reason : Text
  pub attempted_plan : Text
  pub error : Text

-- The fields of `GoalNode` but its children; `tool_params` is a JSON text.
pub record Goal : Type 0 where
  pub id : ℕ
  pub text : Text
  pub level : ℕ
  pub status : GoalStatus
  pub tool : Option Text
  pub tool_params : Option Text
  pub result : Option Text
  pub error : Option Text
  pub retry_count : ℕ
  pub retry_history : List RetryRecord
  pub parent_id : Option ℕ
  pub requires : List Text
  pub destructive : Bool

mutual
  pub data GoalNode : Type 0 where
    node : Goal → GoalNodes → GoalNode

  -- `children`
  pub data GoalNodes : Type 0 where
    nil : GoalNodes
    cons : GoalNode → GoalNodes → GoalNodes

abbrev pub goal_of : GoalNode → Goal
goal_of (node g cs) = g

abbrev pub children_of : GoalNode → GoalNodes
children_of (node g cs) = cs

-- `GoalNode(text=…, level=…)`
abbrev pub new_goal : ℕ → Text → ℕ → Goal
new_goal id text level = record {
  id = id;
  text = text;
  level = level;
  status = pending;
  tool = none;
  tool_params = none;
  result = none;
  error = none;
  retry_count = 0;
  retry_history = [];
  parent_id = none;
  requires = [];
  destructive = false;
}

unfoldable pub append_node : GoalNodes → GoalNode → GoalNodes
append_node nil c = cons c nil
append_node (cons n ns) c = cons n (append_node ns c)

-- `parent.add_child(child)`, with the child's link and level set.
unfoldable pub add_child : GoalNode → GoalNode → GoalNode
add_child (node g cs) (node c ds) =
    node g (append_node cs (node (record c { parent_id = some g.id; level = g.level + 1 }) ds))

unfoldable pub mark_done : Option Text → Goal → Goal
mark_done result g = record g { status = done; result = result }

unfoldable pub mark_failed : Text → Goal → Goal
mark_failed error g = record g { status = failed; error = some error }

-- `iter_nodes`: a node before its children.
unfoldable mutual
  pub iter_nodes : GoalNode → List Goal
  iter_nodes (node g cs) = g ∷ iter_children cs

  pub iter_children : GoalNodes → List Goal
  iter_children nil = []
  iter_children (cons n ns) = iter_nodes n ++ iter_children ns

-- `leaf_nodes`
unfoldable mutual
  pub leaf_nodes : GoalNode → List Goal
  leaf_nodes (node g nil) = g ∷ []
  leaf_nodes (node g (cons n ns)) = leaf_nodes n ++ leaf_children ns

  pub leaf_children : GoalNodes → List Goal
  leaf_children nil = []
  leaf_children (cons n ns) = leaf_nodes n ++ leaf_children ns

-- `RetryEngine.decide`: whether to retry, and the node with the attempt on record.
unfoldable pub decide : Goal → Text → Bool × Goal
decide g error = if leb 2 g.retry_count then (false, g) else (
  true,
  record g {
    retry_history =
        g.retry_history
        ++ (record { reason = codes "retry"; attempted_plan = g.text; error = error } ∷ []);
    retry_count = g.retry_count + 1;
  },
)

retry_child : ℕ → Goal → GoalNodes → GoalNode
retry_child id g nil =
    node (record g { tool = none; tool_params = none })
      (cons
        (node
          (record (new_goal id (codes "Retry: " ++ g.text) (g.level + 1)) { parent_id = some g.id })
          nil)
        nil)
retry_child id g (cons n ns) = node g (cons n ns)

replan_with : ℕ → Bool × Goal → GoalNodes → Text → GoalNode
replan_with id (true, g) cs error = retry_child id g cs
replan_with id (false, g) cs error = node (mark_failed error g) cs

-- `RetryEngine.replan`: a leaf that may be retried gets a child to do so, with the id `id`.
unfoldable pub replan : ℕ → GoalNode → Text → GoalNode
unfolding retry_child replan_with
replan id (node g cs) error = replan_with id (decide g error) cs error

-- A node is decided for a retry exactly while fewer than two are on record, and is unchanged
-- otherwise. A retry adds one to the count, and the count stays the length of the history and at
-- most two where it was.
pub decide_lem :
    (g : Goal) (error : Text)
    → ((decide g error).0 ≡ true
        → (g.retry_count < 2) × ((decide g error).1.retry_count ≡ g.retry_count + 1))
      × ((decide g error).0 ≡ false → (2 ≤ g.retry_count) × ((decide g error).1 ≡ g))
      × (length g.retry_history ≡ g.retry_count
          → length (decide g error).1.retry_history ≡ (decide g error).1.retry_count)
      × (g.retry_count ≤ 2 → (decide g error).1.retry_count ≤ 2)
unfolding decide
decide_lem g error =
    let entry : RetryRecord = record {
      reason = codes "retry";
      attempted_plan = g.text;
      error = error;
    } in
    (
      λ h. ground arith,
      λ h. ground arith,
      λ h. ground (arith, length-append g.retry_history (entry ∷ [])),
      λ h. ground arith,
    )
