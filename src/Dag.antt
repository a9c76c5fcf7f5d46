-- ===== src/Dag.antt =====
-- The task graph of crates/orchestration/src/dag.rs: its nodes, and the operations on it.
-- A `HashMap` is the list of its entries in the order in which it iterates. That order is
-- arbitrary, so the theorems hold for every list; a new entry is put at the end.
pub mod Validate
pub mod Kahn
pub mod Acyclic
pub mod Complete
pub mod Verdict
pub mod Cascade
pub mod Downstream
pub mod Cancels
pub mod Failure
pub mod Ready
pub mod Reach
pub mod Tests
use vitna_code.Base.{
  String, ◌≡◌, Bool, true, false, ◌&&◌, ◌||◌, Option, none, some, List, [], ◌∷◌, ◌++◌, ◌==◌, Result,
  ok, err, if◌then◌else◌,
}

pub data TaskStatus : Type 0 where
  pending running succeeded failed cancelled : TaskStatus

pub record TaskNode : Type 0 where
  pub task_id : String
  pub role : String
  pub prompt : String
  pub dependencies : List String
  pub status : TaskStatus
  pub assigned_run_id : Option String
  pub output_summary : Option String

-- `TaskNode::new`
unfoldable pub new_node : String → String → String → TaskNode
new_node task_id role prompt = record {
  task_id = task_id;
  role = role;
  prompt = prompt;
  dependencies = [];
  status = pending;
  assigned_run_id = none;
  output_summary = none;
}

unfoldable pub with_dependency : TaskNode → String → TaskNode
with_dependency n dep_task_id = record n { dependencies = n.dependencies ++ dep_task_id ∷ [] }

abbrev pub Nodes : Type 0
Nodes = List (String × TaskNode)

pub record TaskGraph : Type 0 where
  pub nodes : Nodes

-- The messages that the operations return, each with what `format!` puts into it.
pub data GraphError : Type 0 where
  duplicate_task : String → GraphError
  missing_dependency : String → String → GraphError
  cycle_detected : GraphError
  task_not_found : String → GraphError

abbrev pub lookup : String → Nodes → Option TaskNode
lookup k [] = none
lookup k ((j, n) ∷ rest) = if j == k then some n else lookup k rest

abbrev pub contains_key : Nodes → String → Bool
contains_key [] k = false
contains_key ((j, n) ∷ rest) k = j == k || contains_key rest k

-- `get_mut` and a write through it
unfoldable pub update : String → (TaskNode → TaskNode) → Nodes → Nodes
update k f [] = []
update k f ((j, n) ∷ rest) = if j == k then (j, f n) ∷ rest else (j, n) ∷ update k f rest

-- `TaskGraph::new`
unfoldable pub new : TaskGraph
new = record { nodes = [] }

-- On an error the graph is left as it was.
unfoldable pub add_node : TaskGraph → TaskNode → Result GraphError TaskGraph
add_node g node =
    if contains_key g.nodes node.task_id
    then err (duplicate_task node.task_id)
    else ok (record { nodes = g.nodes ++ (node.task_id, node) ∷ [] })

-- `get_mut(task_id).ok_or_else(..)?` and the writes that follow it
unfoldable pub modify : TaskGraph → String → (TaskNode → TaskNode) → Result GraphError TaskGraph
unfolding update
modify g task_id f =
    if contains_key g.nodes task_id
    then ok (record { nodes = update task_id f g.nodes })
    else err (task_not_found task_id)

unfoldable pub mark_running : TaskGraph → String → String → Result GraphError TaskGraph
unfolding modify
mark_running g task_id run_id =
    modify g task_id λ n. record n { status = running; assigned_run_id = some run_id }

unfoldable pub mark_succeeded : TaskGraph → String → String → Result GraphError TaskGraph
unfolding modify
mark_succeeded g task_id output =
    modify g task_id λ n. record n { status = succeeded; output_summary = some output }

abbrev pub is_pending : TaskStatus → Bool
is_pending pending = true
is_pending _ = false

abbrev pub is_succeeded : TaskStatus → Bool
is_succeeded succeeded = true
is_succeeded _ = false

abbrev pub is_terminal : TaskStatus → Bool
is_terminal pending = false
is_terminal running = false
is_terminal _ = true

abbrev pub all_terminal : Nodes → Bool
all_terminal [] = true
all_terminal ((j, n) ∷ rest) = is_terminal n.status && all_terminal rest

unfoldable pub is_complete : TaskGraph → Bool
is_complete g = all_terminal g.nodes

-- No task id stands twice, as in every `HashMap`.
abbrev pub DistinctKeys : Nodes → Type 0
DistinctKeys [] = Unit
DistinctKeys ((k, n) ∷ rest) = (contains_key rest k ≡ false) × DistinctKeys rest
