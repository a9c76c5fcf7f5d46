-- ===== src/Dag/Validate.antt =====
-- `TaskGraph::validate` of crates/orchestration/src/dag.rs: every dependency is a task, and Kahn's
-- algorithm visits every task. The `in_degrees` that the method also counts are read nowhere.
use vitna_code.Base.{
  ℕ, zero, suc, ◌+◌, String, Bool, true, false, ◌&&◌, Option, none, some, List, [], ◌∷◌, ◌++◌, ◌==◌,
  Result, ok, err, contains, length, nat_eq, if◌then◌else◌,
}
use vitna_code.Dag.{Nodes, TaskGraph, GraphError, missing_dependency, cycle_detected, contains_key}

unfoldable pub first_missing_dep : Nodes → List String → Option String
first_missing_dep nodes [] = none
first_missing_dep nodes (dep ∷ deps) =
    if contains_key nodes dep then first_missing_dep nodes deps else some dep

-- The two nested loops over tasks and their dependencies, up to the first missing one.
unfoldable pub first_missing : Nodes → Nodes → Option (String × String)
first_missing nodes [] = none
first_missing nodes ((id, node) ∷ rest) = elim (first_missing_dep nodes node.dependencies) [
  | none ↦ first_missing nodes rest
  | some dep ↦ some (id, dep)
]

-- A `HashSet` is a list that is read by membership alone, so `remove` drops every copy.
abbrev pub without : String → List String → List String
without current [] = []
without current (d ∷ deps) =
    let rest = without current deps in if d == current then rest else d ∷ rest

abbrev pub is_empty : List String → Bool
is_empty [] = true
is_empty (d ∷ deps) = false

-- `temp_deps`: what each task still waits for.
abbrev pub Waits : Type 0
Waits = List (String × List String)

unfoldable pub temp_deps : Nodes → Waits
temp_deps [] = []
temp_deps ((id, node) ∷ rest) = (id, node.dependencies) ∷ temp_deps rest

unfoldable pub initial_queue : Nodes → List String
initial_queue [] = []
initial_queue ((id, node) ∷ rest) =
    let more = initial_queue rest in if is_empty node.dependencies then id ∷ more else more

-- The inner `for` loop, as what it leaves in `temp_deps` and what it pushes on the queue.
unfoldable pub remove_all : String → Waits → Waits
remove_all current [] = []
remove_all current ((id, deps) ∷ rest) = (id, without current deps) ∷ remove_all current rest

unfoldable pub freed : String → Waits → List String
freed current [] = []
freed current ((id, deps) ∷ rest) =
    let more = freed current rest in
    if contains deps current && is_empty (without current deps) then id ∷ more else more

-- The `while let` loop, on fuel; `none` means that the fuel ran out.
unfoldable pub kahn : ℕ → ℕ → List String → Waits → Option ℕ
kahn zero visited queue waits = none
kahn (suc fuel) visited [] waits = some visited
kahn (suc fuel) visited (current ∷ queue) waits =
    kahn fuel (visited + 1) (queue ++ freed current waits) (remove_all current waits)

unfoldable pub verdict : ℕ → ℕ → Result GraphError (Unit {0})
verdict tasks visited = if nat_eq visited tasks then ok tt else err cycle_detected

-- A task is visited at most once, so one round more than there are tasks is enough fuel.
unfoldable pub validate : TaskGraph → Option (Result GraphError (Unit {0}))
unfolding verdict
validate g = elim (first_missing g.nodes g.nodes) [
  | some (id, dep) ↦ some (err (missing_dependency id dep))
  | none ↦ elim (kahn (suc (length g.nodes)) 0 (initial_queue g.nodes) (temp_deps g.nodes)) [
    | none ↦ none
    | some visited ↦ some (verdict (length g.nodes) visited)
  ]
]
