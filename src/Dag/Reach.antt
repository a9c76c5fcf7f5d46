-- ===== src/Dag/Reach.antt =====
-- The graphs that the operations of crates/orchestration/src/dag.rs can build: in each, ids are
-- distinct and a task stands under its own id.
use vitna_code.Base.{
  String, ◌≡◌, refl, subst, false, ◌||◌, some, List, [], ◌∷◌, ◌++◌, arith, ◌==◌, eq_iff, Bool-cases,
  inl, inr, All, All-append, ok, ℕ, zero, suc, length,
}
use vitna_code.Dag.{
  TaskNode, Nodes, TaskGraph, contains_key, update, new, add_node, modify, mark_running,
  mark_succeeded, DistinctKeys,
}
use vitna_code.Dag.Cascade.{fail, cancel, cancel_children, newly_cancelled, cascade, mark_failed}
use vitna_code.Dag.Failure.{DistinctKeys-update, mark_failed_parts}

abbrev Titled : String × TaskNode → Type 0
Titled e = e.1.task_id ≡ e.0

pub record IsWellFormed (g : TaskGraph) : Type 0 where
  pub distinct : DistinctKeys g.nodes
  pub titled : All (λ (e : String × TaskNode). e.1.task_id ≡ e.0) g.nodes

-- One call that returns `Ok`.
pub data Step (g h : TaskGraph) : Type 0 where
  add : (n : TaskNode) → add_node g n ≡ ok h → Step g h
  run : (id run_id : String) → mark_running g id run_id ≡ ok h → Step g h
  succeed : (id output : String) → mark_succeeded g id output ≡ ok h → Step g h
  fail_task : (id error : String) → mark_failed g id error ≡ some (ok h) → Step g h

pub data Reach : TaskGraph → Type 0 where
  start : Reach new
  next : {g h : TaskGraph} → Reach g → Step g h → Reach h

contains_key-append :
    (ns es : Nodes) (k : String)
    → contains_key (ns ++ es) k ≡ (contains_key ns k || contains_key es k)
contains_key-append [] es k = refl
contains_key-append ((j, n) ∷ ns) es k = ground (arith, contains_key-append ns es k)

DistinctKeys-push :
    (ns : Nodes) (k : String) (n : TaskNode)
    → contains_key ns k ≡ false
    → DistinctKeys ns
    → DistinctKeys (ns ++ (k, n) ∷ [])
DistinctKeys-push [] k n h d = (refl, tt)
DistinctKeys-push ((j, m) ∷ ns) k n h d = (
  ground (arith, contains_key-append ns ((k, n) ∷ []) j, eq_iff k j, eq_iff j k),
  DistinctKeys-push ns k n (ground arith) d.1,
)

Titled-update :
    (k : String) (h : TaskNode → TaskNode) (ns : Nodes)
    → ((n : TaskNode) → (h n).task_id ≡ n.task_id)
    → All Titled ns
    → All Titled (update k h ns)
unfolding update
Titled-update k h [] keep a = tt
Titled-update k h ((j, n) ∷ ns) keep a = elim (Bool-cases (j == k)) [
  | inl e ↦ rw e (ground (arith, keep n), a.1)
  | inr e ↦ rw e (a.0, Titled-update k h ns keep a.1)
]

modify-IsWellFormed :
    (g h : TaskGraph) (id : String) (f : TaskNode → TaskNode)
    → ((n : TaskNode) → (f n).task_id ≡ n.task_id)
    → modify g id f ≡ ok h
    → IsWellFormed g
    → IsWellFormed h
unfolding modify
modify-IsWellFormed g h id f keep e w =
    let same : update id f g.nodes ≡ h.nodes = ground arith in
    record {
      distinct = subst DistinctKeys same (DistinctKeys-update id f g.nodes w.distinct);
      titled = subst (All Titled) same (Titled-update id f g.nodes keep w.titled);
    }

contains_key-cancel_children :
    (p k : String) (ns : Nodes) → contains_key (cancel_children p ns) k ≡ contains_key ns k
unfolding cancel_children
contains_key-cancel_children p k [] = refl
contains_key-cancel_children p k ((j, n) ∷ ns) = ground (arith, contains_key-cancel_children p k ns)

DistinctKeys-cancel_children :
    (p : String) (ns : Nodes) → DistinctKeys ns → DistinctKeys (cancel_children p ns)
unfolding cancel_children
DistinctKeys-cancel_children p [] d = tt
DistinctKeys-cancel_children p ((k, n) ∷ ns) d =
    (rw (contains_key-cancel_children p k ns) d.0, DistinctKeys-cancel_children p ns d.1)

Titled-cancel_children :
    (p : String) (ns : Nodes) → All Titled ns → All Titled (cancel_children p ns)
unfolding cancel_children cancel
Titled-cancel_children p [] a = tt
Titled-cancel_children p ((k, n) ∷ ns) a = (ground arith, Titled-cancel_children p ns a.1)

cascade-keeps :
    (f : ℕ) (q : List String) (ns r : Nodes)
    → DistinctKeys ns
    → All Titled ns
    → cascade f q ns ≡ some r
    → DistinctKeys r × All Titled r
unfolding cascade
cascade-keeps zero q ns r d a h = absurd (cc)
cascade-keeps (suc f) [] ns r d a h =
    let same : ns ≡ r = ground arith in (subst DistinctKeys same d, subst (All Titled) same a)
cascade-keeps (suc f) (p ∷ q) ns r d a h =
    cascade-keeps f (q ++ newly_cancelled p ns) (cancel_children p ns) r
      (DistinctKeys-cancel_children p ns d) (Titled-cancel_children p ns a) h

add_node-IsWellFormed :
    (g h : TaskGraph) (n : TaskNode) → add_node g n ≡ ok h → IsWellFormed g → IsWellFormed h
unfolding add_node
add_node-IsWellFormed g h n e w = elim (Bool-cases (contains_key g.nodes n.task_id)) [
  | inl c ↦ absurd (ground arith)
  | inr c ↦
      let same : g.nodes ++ (n.task_id, n) ∷ [] ≡ h.nodes = ground arith in
      record {
        distinct = subst DistinctKeys same (DistinctKeys-push g.nodes n.task_id n c w.distinct);
        titled =
            subst (All Titled) same
              (All-append Titled g.nodes ((n.task_id, n) ∷ []) w.titled (refl, tt));
      }
]

mark_failed-IsWellFormed :
    (g h : TaskGraph) (id error : String)
    → mark_failed g id error ≡ some (ok h)
    → IsWellFormed g
    → IsWellFormed h
mark_failed-IsWellFormed g h id error e w =
    let (here, r) = mark_failed_parts g h id error e in
    let (d, a) =
      cascade-keeps (suc (suc (length g.nodes))) (id ∷ []) (update id (fail error) g.nodes) h.nodes
        (DistinctKeys-update id (fail error) g.nodes w.distinct)
        (Titled-update id (fail error) g.nodes (λ n. refl) w.titled) r in
    record { distinct = d; titled = a }

Step-IsWellFormed : {g h : TaskGraph} → Step g h → IsWellFormed g → IsWellFormed h
unfolding mark_running mark_succeeded
Step-IsWellFormed {g} {h} (add n e) w = add_node-IsWellFormed g h n e w
Step-IsWellFormed {g} {h} (run id run_id e) w = modify-IsWellFormed g h id _ (λ n. refl) e w
Step-IsWellFormed {g} {h} (succeed id output e) w = modify-IsWellFormed g h id _ (λ n. refl) e w
Step-IsWellFormed {g} {h} (fail_task id error e) w = mark_failed-IsWellFormed g h id error e w

-- In every graph that calls returning `Ok` build from the empty one, no id stands twice and each
-- task stands under its own id.
pub Reach-IsWellFormed : {g : TaskGraph} → Reach g → IsWellFormed g
unfolding new
Reach-IsWellFormed start = record { distinct = tt; titled = tt }
Reach-IsWellFormed (next r s) = Step-IsWellFormed s (Reach-IsWellFormed r)
