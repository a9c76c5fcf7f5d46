-- ===== src/Dag/Tests.antt =====
-- Runs of the task graph of crates/orchestration/src/dag.rs on small graphs, and the theorems at
-- them.
use vitna_code.Base.{
  String, ◌≡◌, refl, true, none, some, List, [], ◌∷◌, ◌↔◌, ok, err, contains, eq_iff, arith,
}
use vitna_code.Base.Sort.{sort, insert, IsSorted}
use vitna_code.Dag.{
  TaskStatus, pending, failed, cancelled, TaskNode, TaskGraph, missing_dependency, cycle_detected,
  lookup, update, new, add_node,
}
use vitna_code.Dag.Validate.{
  first_missing_dep, first_missing, temp_deps, initial_queue, remove_all, freed, kahn, validate,
}
use vitna_code.Dag.Acyclic.{IsAcyclic}
use vitna_code.Dag.Complete.{IsClosed}
use vitna_code.Dag.Verdict.{validate_ok_iff}
use vitna_code.Dag.Cascade.{fail, cancel, cancel_children, newly_cancelled, cascade, mark_failed}
use vitna_code.Dag.Downstream.{Downstream, mark_failed_total}
use vitna_code.Dag.Failure.{mark_failed_exact}
use vitna_code.Dag.Ready.{
  IsReady, IsFresh, ready_from, get_ready_tasks, get_ready_tasks_exact, ready_progress,
}
use vitna_code.Dag.Reach.{IsWellFormed, start, next, add, Reach-IsWellFormed}

abbrev task : String → List String → TaskStatus → TaskNode
task id deps status = record {
  task_id = id;
  role = "role";
  prompt = "prompt";
  dependencies = deps;
  status = status;
  assigned_run_id = none;
  output_summary = none;
}

-- Three tasks in a row.
abbrev line : TaskGraph
line = record {
  nodes =
      ("test", task "test" ("backend" ∷ []) pending)
      ∷ ("backend", task "backend" ("research" ∷ []) pending)
      ∷ ("research", task "research" [] pending)
      ∷ [];
}

abbrev circle : TaskGraph
circle = record {
  nodes = ("a", task "a" ("b" ∷ []) pending) ∷ ("b", task "b" ("a" ∷ []) pending) ∷ [];
}

abbrev dangling : TaskGraph
dangling = record { nodes = ("a", task "a" ("gone" ∷ []) pending) ∷ [] }

line_valid : validate line ≡ some (ok tt)
unfolding validate first_missing first_missing_dep kahn initial_queue temp_deps freed remove_all
line_valid = refl

circle_invalid : validate circle ≡ some (err cycle_detected)
unfolding validate first_missing first_missing_dep kahn initial_queue temp_deps freed remove_all
circle_invalid = refl

dangling_invalid : validate dangling ≡ some (err (missing_dependency "a" "gone"))
unfolding validate first_missing first_missing_dep
dangling_invalid = refl

validate_ok_iff_example :
    (validate line ≡ some (ok tt)) ↔ (IsClosed line.nodes × IsAcyclic line.nodes)
validate_ok_iff_example = validate_ok_iff line (refl, (refl, (refl, tt)))

abbrev failed_line : TaskGraph
failed_line = record {
  nodes =
      (
        "test",
        record (task "test" ("backend" ∷ []) cancelled) {
          output_summary = some "Cancelled: prerequisite task 'backend' failed";
        },
      )
      ∷ (
        "backend",
        record (task "backend" ("research" ∷ []) failed) {
          output_summary = some "Error: no build";
        },
      )
      ∷ ("research", task "research" [] pending)
      ∷ [];
}

backend_fails : mark_failed line "backend" "no build" ≡ some (ok failed_line)
unfolding mark_failed cascade cancel_children newly_cancelled cancel
backend_fails = refl

mark_failed_total_example : (r : _) × (mark_failed circle "a" "e" ≡ some r)
mark_failed_total_example = mark_failed_total circle "a" "e"

mark_failed_exact_example :
    let ns = update "backend" (fail "no build") line.nodes in
    (Downstream ns "backend" "test"
      → (m : TaskNode) × (lookup "test" failed_line.nodes ≡ some m) × (m.status ≡ cancelled))
    × (¬ (Downstream ns "backend" "test") → lookup "test" failed_line.nodes ≡ lookup "test" ns)
mark_failed_exact_example =
    mark_failed_exact line failed_line "backend" "no build" (refl, (refl, (refl, tt))) backend_fails
      "test"

get_ready_tasks_exact_example :
    IsSorted (get_ready_tasks line)
    × ((x : String) → (contains (get_ready_tasks line) x ≡ true) ↔ IsReady line.nodes x)
get_ready_tasks_exact_example = get_ready_tasks_exact line (refl, (refl, (refl, tt)))

line-IsFresh : IsFresh line.nodes
line-IsFresh x n found = ground (arith, eq_iff "test" x, eq_iff "backend" x, eq_iff "research" x)

ready_progress_example : (y : String) × (contains (get_ready_tasks line) y ≡ true)
ready_progress_example =
    ready_progress line "test" (task "test" ("backend" ∷ []) pending) (refl, (refl, (refl, tt)))
      line_valid line-IsFresh refl refl

ready_line : get_ready_tasks line ≡ "research" ∷ []
unfolding get_ready_tasks ready_from sort insert
ready_line = refl

one_task : TaskGraph
one_task = record { nodes = ("a", task "a" [] pending) ∷ [] }

Reach-IsWellFormed_example : IsWellFormed one_task
unfolding add_node new one_task
Reach-IsWellFormed_example = Reach-IsWellFormed (next start (add (task "a" [] pending) refl))
