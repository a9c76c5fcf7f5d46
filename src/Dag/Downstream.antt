-- ===== src/Dag/Downstream.antt =====
-- What the cascade of `mark_failed` in crates/orchestration/src/dag.rs cancels.
use vitna_code.Base.{
  ℕ, zero, suc, ◌+◌, ◌≤◌, ◌<◌, String, ◌≡◌, refl, ap, Bool, true, false, ◌&&◌, ◌||◌, not, some,
  List, [], ◌∷◌, ◌++◌, arith, ◌==◌, contains, length, length-append, if◌then◌else◌, Bool-cases, inl,
  inr, Result, ok, err,
}
use vitna_code.Dag.{
  TaskNode, Nodes, TaskGraph, lookup, contains_key, update, is_pending, GraphError, task_not_found,
  cancelled,
}
use vitna_code.Dag.Acyclic.{some_inj}
use vitna_code.Dag.Cascade.{
  fail, is_hit, cancel, cancel_children, newly_cancelled, cascade, mark_failed,
}

-- The pending task `x` depends on the task `p`.
pub record Blocked (ns : Nodes) (p x : String) : Type 0 where
  pub node : TaskNode
  pub found : lookup x ns ≡ some node
  pub needs : contains node.dependencies p ≡ true
  pub waiting : is_pending node.status ≡ true

-- `x` waits for the task `failed`, through pending tasks only.
pub data Downstream (ns : Nodes) (failed : String) : String → Type 0 where
  direct : {x : String} → Blocked ns failed x → Downstream ns failed x
  through : {y x : String} → Downstream ns failed y → Blocked ns y x → Downstream ns failed x

abbrev pub overlaps : List String → List String → Bool
overlaps [] deps = false
overlaps (p ∷ done) deps = contains deps p || overlaps done deps

-- A task after the rounds of the tasks of `done`, the last one first.
abbrev pub after : List String → TaskNode → TaskNode
after [] n = n
after (p ∷ done) n = let m = after done n in if is_hit p m then cancel p m else m

abbrev pub cascaded : List String → Nodes → Nodes
cascaded done [] = []
cascaded done ((k, n) ∷ ns) = (k, after done n) ∷ cascaded done ns

pub cancel_children-cascaded :
    (p : String) (done : List String) (ns : Nodes)
    → cancel_children p (cascaded done ns) ≡ cascaded (p ∷ done) ns
unfolding cancel_children
cancel_children-cascaded p done [] = refl
cancel_children-cascaded p done ((k, n) ∷ ns) = rw (cancel_children-cascaded p done ns)

pub cascaded-nil : (ns : Nodes) → cascaded [] ns ≡ ns
cascaded-nil [] = refl
cascaded-nil ((k, n) ∷ ns) = rw (cascaded-nil ns)

pub dependencies-after :
    (done : List String) (n : TaskNode) → (after done n).dependencies ≡ n.dependencies
unfolding cancel
dependencies-after [] n = refl
dependencies-after (p ∷ done) n = ground (arith, dependencies-after done n)

pub pending-after :
    (done : List String) (n : TaskNode)
    → is_pending (after done n).status ≡ (is_pending n.status && not (overlaps done n.dependencies))
unfolding cancel
pending-after [] n = ground arith
pending-after (p ∷ done) n = ground (arith, pending-after done n, dependencies-after done n)

pub after_not_pending :
    (done : List String) (n : TaskNode) → is_pending n.status ≡ false → after done n ≡ n
after_not_pending [] n h = refl
after_not_pending (p ∷ done) n h = ground (arith, after_not_pending done n)

pub after_apart :
    (done : List String) (n : TaskNode) → overlaps done n.dependencies ≡ false → after done n ≡ n
after_apart [] n h = refl
after_apart (p ∷ done) n h = ground (arith, after_apart done n)

pub after_hit :
    (done : List String) (n : TaskNode)
    → is_pending n.status ≡ true
    → overlaps done n.dependencies ≡ true
    → (after done n).status ≡ cancelled
unfolding cancel
after_hit [] n h o = absurd (cc)
after_hit (p ∷ done) n h o =
    ground (arith, after_hit done n, pending-after done n, dependencies-after done n)

pub lookup-cascaded :
    (done : List String) (ns : Nodes) (x : String) (n : TaskNode)
    → lookup x ns ≡ some n
    → lookup x (cascaded done ns) ≡ some (after done n)
lookup-cascaded done [] x n h = absurd (cc)
lookup-cascaded done ((k, m) ∷ ns) x n h = elim (Bool-cases (k == x)) [
  | inl e ↦ rw e (ap (λ o. some (after done o)) (some_inj (rw e at h)))
  | inr e ↦ rw e (lookup-cascaded done ns x n (rw e at h))
]

count_pending : Nodes → ℕ
count_pending [] = 0
count_pending ((k, n) ∷ ns) =
    if is_pending n.status then suc (count_pending ns) else count_pending ns

count_pending-cancel_children :
    (p : String) (ns : Nodes)
    → count_pending (cancel_children p ns) + length (newly_cancelled p ns) ≡ count_pending ns
unfolding count_pending cancel_children newly_cancelled cancel
count_pending-cancel_children p [] = refl
count_pending-cancel_children p ((k, n) ∷ ns) = ground (arith, count_pending-cancel_children p ns)

cascade_total :
    (f : ℕ) (q : List String) (ns : Nodes)
    → length q + count_pending ns < f
    → (r : Nodes) × (cascade f q ns ≡ some r)
unfolding cascade
cascade_total zero q ns h = elim h [ ]
cascade_total (suc f) [] ns h = (ns, refl)
cascade_total (suc f) (p ∷ q) ns h =
    cascade_total f (q ++ newly_cancelled p ns) (cancel_children p ns)
      (omega (arith, length-append q (newly_cancelled p ns), count_pending-cancel_children p ns))

count_pending-le : (ns : Nodes) → count_pending ns ≤ length ns
unfolding count_pending
count_pending-le [] = omega arith
count_pending-le ((k, n) ∷ ns) = ground (arith, count_pending-le ns)

length-update :
    (k : String) (h : TaskNode → TaskNode) (ns : Nodes) → length (update k h ns) ≡ length ns
unfolding update
length-update k h [] = refl
length-update k h ((j, n) ∷ ns) = ground (arith, length-update k h ns)

-- `mark_failed` always returns: it never runs out of fuel, whatever the graph.
pub mark_failed_total :
    (g : TaskGraph) (id error : String)
    → (r : Result GraphError TaskGraph) × (mark_failed g id error ≡ some r)
unfolding mark_failed
mark_failed_total g id error = elim (Bool-cases (contains_key g.nodes id)) [
  | inl e ↦
      let ns = update id (fail error) g.nodes in
      let (r, p) =
        cascade_total (suc (suc (length g.nodes))) (id ∷ []) ns
          (omega (arith, count_pending-le ns, length-update id (fail error) g.nodes)) in
      (ok (record { nodes = r }), ground arith)
  | inr e ↦ (err (task_not_found id), ground arith)
]
