-- ===== src/Dag/Failure.antt =====
-- `mark_failed` of crates/orchestration/src/dag.rs cancels the tasks downstream, and no others.
use mathlib.Core.Option
use vitna_code.Base.{
  suc, String, ◌≡◌, refl, sym, subst, ap, ◌∙◌, true, false, ◌||◌, none, some, List, [], ◌∷◌, arith,
  ◌==◌, eq_iff, eq_refl, contains, length, if◌then◌else◌, Bool-cases, Option-cases, inl, inr, ok,
}
use vitna_code.Dag.{
  cancelled, TaskNode, Nodes, TaskGraph, lookup, contains_key, update, is_pending, DistinctKeys,
}
use vitna_code.Dag.Acyclic.{entries}
use vitna_code.Dag.Complete.{All-lookup}
use vitna_code.Dag.Cascade.{fail, cascade, mark_failed}
use vitna_code.Dag.Downstream.{
  Blocked, Downstream, direct, through, overlaps, after, cascaded, cascaded-nil, after_not_pending,
  after_apart, after_hit, lookup-cascaded,
}
use vitna_code.Dag.Cancels.{Settled, IsQueued-start, cascade_settles}

pub contains_key-update :
    (k x : String) (h : TaskNode → TaskNode) (ns : Nodes)
    → contains_key (update k h ns) x ≡ contains_key ns x
unfolding update
contains_key-update k x h [] = refl
contains_key-update k x h ((j, n) ∷ ns) = ground (arith, contains_key-update k x h ns)

pub DistinctKeys-update :
    (k : String) (h : TaskNode → TaskNode) (ns : Nodes)
    → DistinctKeys ns
    → DistinctKeys (update k h ns)
unfolding update
DistinctKeys-update k h [] d = tt
DistinctKeys-update k h ((j, n) ∷ ns) d = elim (Bool-cases (j == k)) [
  | inl e ↦ rw e d
  | inr e ↦ rw (e, contains_key-update k j h ns) (d.0, DistinctKeys-update k h ns d.1)
]

pub lookup-update :
    (k x : String) (h : TaskNode → TaskNode) (ns : Nodes)
    → lookup x (update k h ns) ≡ (if k == x then Option.map h (lookup x ns) else lookup x ns)
unfolding update
lookup-update k x h [] = ground arith
lookup-update k x h ((j, n) ∷ ns) =
    ground (arith, lookup-update k x h ns, eq_iff j k, eq_iff j x, eq_iff k x)

lookup-cascaded-none :
    (done : List String) (ns : Nodes) (x : String)
    → lookup x ns ≡ none
    → lookup x (cascaded done ns) ≡ none
lookup-cascaded-none done [] x h = refl
lookup-cascaded-none done ((k, m) ∷ ns) x h = ground (arith, lookup-cascaded-none done ns x)

overlaps_of :
    (done deps : List String) (p : String)
    → contains done p ≡ true
    → contains deps p ≡ true
    → overlaps done deps ≡ true
overlaps_of [] deps p c d = absurd (cc)
overlaps_of (q ∷ done) deps p c d = ground (arith, overlaps_of done deps p, eq_iff q p)

overlaps_split :
    (done deps : List String)
    → overlaps done deps ≡ true
    → (p : String) × (contains done p ≡ true) × (contains deps p ≡ true)
overlaps_split [] deps o = absurd (cc)
overlaps_split (q ∷ done) deps o = elim (Bool-cases (contains deps q)) [
  | inl e ↦ (q, ground (arith, eq_refl q), e)
  | inr e ↦ let (p, c, d) = overlaps_split done deps (ground arith) in (p, ground arith, d)
]

module _ (ns : Nodes) (id : String) (done : List String) (s : Settled ns id done) where
  overlaps_of_Downstream :
      (x : String)
      → Downstream ns id x
      → (b : (p : String) × Blocked ns p x) × (overlaps done b.1.node.dependencies ≡ true)
  overlaps_of_Downstream x (direct b) =
      ((id, b), overlaps_of done b.node.dependencies id s.origin b.needs)
  overlaps_of_Downstream x (through {y = y} d b) =
      let ((p, c), o) = overlaps_of_Downstream y d in
      let w =
        All-lookup
          (λ k n.
            is_pending n.status ≡ true
            → overlaps done n.dependencies ≡ true
            → (contains done k || false) ≡ true)
          ns y c.node s.closed c.found c.waiting o in
      ((y, b), overlaps_of done b.node.dependencies y (ground arith) b.needs)

  Downstream-of_overlaps :
      (x : String) (n : TaskNode)
      → lookup x ns ≡ some n
      → is_pending n.status ≡ true
      → overlaps done n.dependencies ≡ true
      → Downstream ns id x
  Downstream-of_overlaps x n found w o =
      let (p, c, d) = overlaps_split done n.dependencies o in
      let b : Blocked ns p x = record { node = n; found = found; needs = d; waiting = w } in
      elim (s.only p c) [
        | inl e ↦ direct (subst (λ (y : String). Blocked ns y x) e b)
        | inr t ↦ through t b
      ]

  cancels :
      (x : String)
      → Downstream ns id x
      → (m : TaskNode) × (lookup x (cascaded done ns) ≡ some m) × (m.status ≡ cancelled)
  cancels x d =
      let ((p, b), o) = overlaps_of_Downstream x d in
      (
        after done b.node,
        lookup-cascaded done ns x b.node b.found,
        after_hit done b.node b.waiting o,
      )

  spares : (x : String) → ¬ (Downstream ns id x) → lookup x (cascaded done ns) ≡ lookup x ns
  spares x not_below = elim (Option-cases (lookup x ns)) [
    | inl e ↦ lookup-cascaded-none done ns x e ∙ sym e
    | inr (n, e) ↦ lookup-cascaded done ns x n e ∙ ap some (unchanged n e) ∙ sym e
  ]
    where
      unchanged : (n : TaskNode) → lookup x ns ≡ some n → after done n ≡ n
      unchanged n e = elim (Bool-cases (is_pending n.status)) [
        | inr w ↦ after_not_pending done n w
        | inl w ↦ elim (Bool-cases (overlaps done n.dependencies)) [
          | inr o ↦ after_apart done n o
          | inl o ↦ absurd (not_below (Downstream-of_overlaps x n e w o))
        ]
      ]

pub mark_failed_parts :
    (g g' : TaskGraph) (id error : String)
    → mark_failed g id error ≡ some (ok g')
    → (contains_key g.nodes id ≡ true)
      × (cascade (suc (suc (length g.nodes))) (id ∷ []) (update id (fail error) g.nodes)
          ≡ some g'.nodes)
unfolding mark_failed
mark_failed_parts g g' id error h = ground arith

-- In a graph with distinct ids, `mark_failed` leaves as it was, but for the failed task, each task
-- that does not wait for the failed one through pending tasks, and each that does is cancelled.
pub mark_failed_exact :
    (g g' : TaskGraph) (id error : String)
    → DistinctKeys g.nodes
    → mark_failed g id error ≡ some (ok g')
    → (x : String)
    → let ns = update id (fail error) g.nodes in
      (Downstream ns id x → (m : TaskNode) × (lookup x g'.nodes ≡ some m) × (m.status ≡ cancelled))
      × (¬ (Downstream ns id x) → lookup x g'.nodes ≡ lookup x ns)
mark_failed_exact g g' id error distinct h x =
    let ns = update id (fail error) g.nodes in
    let (here, run) = mark_failed_parts g g' id error h in
    let a = entries ns (DistinctKeys-update id (fail error) g.nodes distinct) in
    let (done, same, s) =
      cascade_settles ns id (suc (suc (length g.nodes))) (id ∷ []) [] g'.nodes a
        (ground (arith, eq_refl id)) (λ p c. cc) (λ p c. inl (sym ((eq_iff id p).0 (ground arith))))
        (IsQueued-start (id ∷ []) ns) (rw cascaded-nil run) in
    rw same (cancels ns id done s x, spares ns id done s x)
