-- ===== src/Dag/Ready.antt =====
-- `TaskGraph::get_ready_tasks` of crates/orchestration/src/dag.rs: what it lists, and that an
-- unfinished graph that `validate` accepts always has a task to list.
use mathlib.Core.WellFounded.{Acc}
use vitna_code.Base.{
  String, ◌≡◌, refl, Bool, true, false, ◌&&◌, none, some, List, [], ◌∷◌, arith, ◌==◌, eq_iff,
  eq_refl, contains, if◌then◌else◌, Bool-cases, Option-cases, inl, inr, All, ◌↔◌, ok, ◌⊎◌,
}
use vitna_code.Base.Sort.{sort, contains-sort, IsSorted, IsSorted-sort}
use vitna_code.Dag.{
  pending, succeeded, TaskNode, Nodes, TaskGraph, lookup, is_pending, is_succeeded, DistinctKeys,
}
use vitna_code.Dag.Validate.{validate}
use vitna_code.Dag.Acyclic.{DependsOn, IsEntry, entries, some_inj}
use vitna_code.Dag.Complete.{IsClosed, lookup_of_contains_key}
use vitna_code.Dag.Verdict.{validate_ok_iff}

-- `.get(dep_id).map(|d| d.status == Succeeded).unwrap_or(false)`
abbrev pub dep_succeeded : Nodes → String → Bool
dep_succeeded nodes dep_id = elim (lookup dep_id nodes) [
  | none ↦ false
  | some d ↦ is_succeeded d.status
]

abbrev pub all_deps_succeeded : Nodes → List String → Bool
all_deps_succeeded nodes [] = true
all_deps_succeeded nodes (dep_id ∷ deps) =
    dep_succeeded nodes dep_id && all_deps_succeeded nodes deps

abbrev pub is_ready : Nodes → TaskNode → Bool
is_ready nodes n = is_pending n.status && all_deps_succeeded nodes n.dependencies

unfoldable pub ready_from : Nodes → Nodes → List String
ready_from nodes [] = []
ready_from nodes ((id, n) ∷ rest) =
    let more = ready_from nodes rest in if is_ready nodes n then id ∷ more else more

unfoldable pub get_ready_tasks : TaskGraph → List String
get_ready_tasks g = sort (ready_from g.nodes g.nodes)

-- A pending task whose dependencies are all tasks that have succeeded.
pub record IsReady (ns : Nodes) (x : String) : Type 0 where
  pub node : TaskNode
  pub found : lookup x ns ≡ some node
  pub waiting : node.status ≡ pending
  pub deps_done :
      (d : String)
      → contains node.dependencies d ≡ true
      → (m : TaskNode) × (lookup d ns ≡ some m) × (m.status ≡ succeeded)

dep_done :
    (ns : Nodes) (d : String)
    → dep_succeeded ns d ≡ true
    → (m : TaskNode) × (lookup d ns ≡ some m) × (m.status ≡ succeeded)
dep_done ns d h = elim (Option-cases (lookup d ns)) [
  | inl e ↦ absurd (ground arith)
  | inr (m, e) ↦ (m, e, ground arith)
]

deps_done_of :
    (ns : Nodes) (deps : List String) (d : String)
    → all_deps_succeeded ns deps ≡ true
    → contains deps d ≡ true
    → dep_succeeded ns d ≡ true
deps_done_of ns [] d h c = absurd (cc)
deps_done_of ns (x ∷ deps) d h c = elim (Bool-cases (x == d)) [
  | inl e ↦ rw (← (eq_iff x d).0 e) (ground arith)
  | inr e ↦ deps_done_of ns deps d (ground arith) (rw e at c)
]

all_of_deps_done :
    (ns : Nodes) (deps : List String)
    → ((d : String) → contains deps d ≡ true → dep_succeeded ns d ≡ true)
    → all_deps_succeeded ns deps ≡ true
all_of_deps_done ns [] h = refl
all_of_deps_done ns (x ∷ deps) h =
    rw (h x (ground (arith, eq_refl x))) (all_of_deps_done ns deps (λ d c. h d (ground arith)))

ready_from_sound :
    (ns es : Nodes) (x : String)
    → All (IsEntry ns) es
    → contains (ready_from ns es) x ≡ true
    → (n : TaskNode) × (lookup x ns ≡ some n) × (is_ready ns n ≡ true)
unfolding ready_from
ready_from_sound ns [] x a h = absurd (cc)
ready_from_sound ns ((k, n) ∷ es) x a h = elim (Bool-cases (is_ready ns n)) [
  | inr e ↦ ready_from_sound ns es x a.1 (rw e at h)
  | inl e ↦ elim (Bool-cases (k == x)) [
    | inl same ↦ (n, rw (← (eq_iff k x).0 same) a.0, e)
    | inr other ↦ ready_from_sound ns es x a.1 (rw (e, other) at h)
  ]
]

ready_from_complete :
    (ns es : Nodes) (x : String) (n : TaskNode)
    → lookup x es ≡ some n
    → is_ready ns n ≡ true
    → contains (ready_from ns es) x ≡ true
unfolding ready_from
ready_from_complete ns [] x n found h = absurd (cc)
ready_from_complete ns ((k, m) ∷ es) x n found h = elim (Bool-cases (k == x)) [
  | inl same ↦ rw (some_inj (rw same at found), h) (ground (arith, same))
  | inr other ↦ ground (arith, ready_from_complete ns es x n (rw other at found) h)
]

-- For a graph with distinct ids, `get_ready_tasks` lists in order exactly the pending tasks whose
-- dependencies are all tasks that have succeeded.
pub get_ready_tasks_exact :
    (g : TaskGraph)
    → DistinctKeys g.nodes
    → IsSorted (get_ready_tasks g)
      × ((x : String) → (contains (get_ready_tasks g) x ≡ true) ↔ IsReady g.nodes x)
unfolding get_ready_tasks
get_ready_tasks_exact g distinct =
    (IsSorted-sort (ready_from ns ns), λ x. (sound x, λ r. complete x r))
  where
    ns : Nodes
    ns = g.nodes

    sound : (x : String) → contains (sort (ready_from ns ns)) x ≡ true → IsReady ns x
    sound x h =
        let (n, found, ready) =
          ready_from_sound ns ns x (entries ns distinct) (rw contains-sort at h) in
        record {
          node = n;
          found = found;
          waiting = ground arith;
          deps_done = λ d c. dep_done ns d (deps_done_of ns n.dependencies d (ground arith) c);
        }

    complete : (x : String) → IsReady ns x → contains (sort (ready_from ns ns)) x ≡ true
    complete x r =
        let all : all_deps_succeeded ns r.node.dependencies ≡ true =
          all_of_deps_done ns r.node.dependencies
            (λ d c. let (m, f, e) = r.deps_done d c in ground arith) in
        rw contains-sort (ready_from_complete ns ns x r.node r.found (ground (arith, r.waiting)))

unfinished_dep :
    (ns : Nodes) (deps : List String)
    → all_deps_succeeded ns deps ≡ false
    → (d : String) × (contains deps d ≡ true) × (dep_succeeded ns d ≡ false)
unfinished_dep ns [] h = absurd (cc)
unfinished_dep ns (x ∷ deps) h = elim (Bool-cases (dep_succeeded ns x)) [
  | inl e ↦ let (d, c, u) = unfinished_dep ns deps (ground arith) in (d, ground arith, u)
  | inr e ↦ (x, ground (arith, eq_refl x), e)
]

-- No task runs, has failed or was cancelled.
abbrev pub IsFresh : Nodes → Type 0
IsFresh ns =
    (x : String) (n : TaskNode)
    → lookup x ns ≡ some n
    → (n.status ≡ pending) ⊎ (n.status ≡ succeeded)

module _ (ns : Nodes) (closed : IsClosed ns) (fresh : IsFresh ns) where
  some_ready :
      (x : String)
      → Acc (DependsOn ns) x
      → (n : TaskNode) → lookup x ns ≡ some n
      → n.status ≡ pending
      → (y : String) × (m : TaskNode) × (lookup y ns ≡ some m) × (is_ready ns m ≡ true)
  some_ready x (Acc.intro _ below) n found p =
      elim (Bool-cases (all_deps_succeeded ns n.dependencies)) [
        | inl e ↦ (x, n, found, ground arith)
        | inr e ↦
            let (d, c, u) = unfinished_dep ns n.dependencies e in
            let r : DependsOn ns d x = record { node = n; found = found; needs = c } in
            let (m, fm) = lookup_of_contains_key ns d (closed x d r) in
            elim (fresh d m fm) [
              | inl q ↦ some_ready d (below d r) m fm q
              | inr q ↦ absurd (ground arith)
            ]
      ]

-- In a graph with distinct ids that `validate` accepts, and in which every task is pending or has
-- succeeded, a pending task means that `get_ready_tasks` lists some task.
pub ready_progress :
    (g : TaskGraph) (x : String) (n : TaskNode)
    → DistinctKeys g.nodes
    → validate g ≡ some (ok tt)
    → IsFresh g.nodes
    → lookup x g.nodes ≡ some n
    → n.status ≡ pending
    → (y : String) × (contains (get_ready_tasks g) y ≡ true)
unfolding get_ready_tasks
ready_progress g x n distinct valid fresh found p =
    let (closed, acyclic) = (validate_ok_iff g distinct).0 valid in
    let (y, m, f, r) = some_ready g.nodes closed fresh x (acyclic x) n found p in
    (y, rw contains-sort (ready_from_complete g.nodes g.nodes y m f r))
