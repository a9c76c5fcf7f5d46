-- ===== src/Dag/Cascade.antt =====
-- `TaskGraph::mark_failed` of crates/orchestration/src/dag.rs: the failed task, and the pending
-- tasks that the failure cancels.
use Prim.Native.String.{◌++◌ as str_append}
use vitna_code.Base.{
  ℕ, zero, suc, String, Bool, ◌&&◌, Option, none, some, List, [], ◌∷◌, ◌++◌, Result, ok, err,
  contains, length, if◌then◌else◌,
}
use vitna_code.Dag.{
  TaskNode, failed, cancelled, Nodes, TaskGraph, GraphError, task_not_found, contains_key, update,
  is_pending,
}

abbrev pub fail : String → TaskNode → TaskNode
fail error n = record n { status = failed; output_summary = some (str_append "Error: " error) }

-- The test of the inner loop.
abbrev pub is_hit : String → TaskNode → Bool
is_hit parent_id child = contains child.dependencies parent_id && is_pending child.status

unfoldable pub cancel : String → TaskNode → TaskNode
cancel parent_id child = record child {
  status = cancelled;
  output_summary =
      some (str_append "Cancelled: prerequisite task '" (str_append parent_id "' failed"));
}

-- The inner `for` loop, as what it leaves of the tasks and what it pushes on the queue.
unfoldable pub cancel_children : String → Nodes → Nodes
cancel_children parent_id [] = []
cancel_children parent_id ((id, child) ∷ rest) =
    (id, if is_hit parent_id child then cancel parent_id child else child)
    ∷ cancel_children parent_id rest

unfoldable pub newly_cancelled : String → Nodes → List String
newly_cancelled parent_id [] = []
newly_cancelled parent_id ((id, child) ∷ rest) =
    let more = newly_cancelled parent_id rest in if is_hit parent_id child then id ∷ more else more

-- The `while let` loop, on fuel; `none` means that the fuel ran out.
unfoldable pub cascade : ℕ → List String → Nodes → Option Nodes
cascade zero to_cancel nodes = none
cascade (suc fuel) [] nodes = some nodes
cascade (suc fuel) (parent_id ∷ to_cancel) nodes =
    cascade fuel (to_cancel ++ newly_cancelled parent_id nodes) (cancel_children parent_id nodes)

abbrev pub finish : Option Nodes → Option (Result GraphError TaskGraph)
finish none = none
finish (some nodes) = some (ok (record { nodes = nodes }))

-- A task is cancelled at most once, so two rounds more than there are tasks are enough fuel.
unfoldable pub mark_failed : TaskGraph → String → String → Option (Result GraphError TaskGraph)
unfolding update
mark_failed g task_id error =
    if contains_key g.nodes task_id
    then finish
        (cascade (suc (suc (length g.nodes))) (task_id ∷ []) (update task_id (fail error) g.nodes))
    else some (err (task_not_found task_id))
