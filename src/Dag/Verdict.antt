-- ===== src/Dag/Verdict.antt =====
-- The verdicts of `validate` in crates/orchestration/src/dag.rs.
use vitna_code.Base.{
  ℕ, suc, ◌+◌, String, ◌≡◌, ap, ◌∙◌, true, false, Option, none, some, List, [], ◌∷◌, arith, eq_iff,
  eq_refl, contains, length, Result, ok, err, Bool-cases, Option-cases, inl, inr, All, ◌↔◌,
}
use vitna_code.Dag.{
  TaskNode, Nodes, TaskGraph, GraphError, missing_dependency, contains_key, DistinctKeys,
}
use vitna_code.Dag.Validate.{
  temp_deps, initial_queue, kahn, first_missing_dep, first_missing, validate, verdict,
}
use vitna_code.Dag.Kahn.{
  empties, kahn_total, length-temp_deps, length-initial_queue, remaining, temp_deps-remaining,
}
use vitna_code.Dag.Acyclic.{
  DependsOn, IsAcyclic, IsEntry, entries, initial_queue-Reachable, kahn_sound,
}
use vitna_code.Dag.Complete.{IsClosed, All-lookup, Seen-initial, kahn_complete}

missing_dep_none :
    (ns : Nodes) (deps : List String) (d : String)
    → first_missing_dep ns deps ≡ none
    → contains deps d ≡ true
    → contains_key ns d ≡ true
unfolding first_missing_dep
missing_dep_none ns [] d h c = absurd (cc)
missing_dep_none ns (x ∷ deps) d h c = elim (Bool-cases (contains_key ns x)) [
  | inl e ↦ ground (arith, missing_dep_none ns deps d, eq_iff x d)
  | inr e ↦ absurd (ground arith)
]

missing_dep_some :
    (ns : Nodes) (deps : List String) (d : String)
    → first_missing_dep ns deps ≡ some d
    → (contains deps d ≡ true) × (contains_key ns d ≡ false)
unfolding first_missing_dep
missing_dep_some ns [] d h = absurd (cc)
missing_dep_some ns (x ∷ deps) d h =
    ground (arith, missing_dep_some ns deps d, eq_refl d, eq_iff x d)

missing_none :
    (ns es : Nodes)
    → first_missing ns es ≡ none
    → All (λ (e : String × TaskNode). first_missing_dep ns e.1.dependencies ≡ none) es
unfolding first_missing
missing_none ns [] h = tt
missing_none ns ((k, n) ∷ es) h = (ground arith, missing_none ns es (ground arith))

missing_some :
    (ns es : Nodes) (k d : String)
    → All (IsEntry ns) es
    → first_missing ns es ≡ some (k, d)
    → DependsOn ns d k × (contains_key ns d ≡ false)
unfolding first_missing
missing_some ns [] k d a h = absurd (cc)
missing_some ns ((j, n) ∷ es) k d a h = elim (Option-cases (first_missing_dep ns n.dependencies)) [
  | inl e ↦ missing_some ns es k d a.1 (ground arith)
  | inr (x, e) ↦
      let same : (j ≡ k) × (x ≡ d) = ground arith in
      let (c, absent) = missing_dep_some ns n.dependencies x e in
      rw (← same.0, ← same.1) (record { node = n; found = a.0; needs = c }, absent)
]

missing_none_of_IsClosed :
    (ns : Nodes) → All (IsEntry ns) ns → IsClosed ns → first_missing ns ns ≡ none
missing_none_of_IsClosed ns a closed = elim (Option-cases (first_missing ns ns)) [
  | inl e ↦ e
  | inr ((k, d), e) ↦
      let (r, absent) = missing_some ns ns k d a e in absurd (ground (arith, closed k d r))
]

IsClosed-of_missing_none : (ns : Nodes) → first_missing ns ns ≡ none → IsClosed ns
IsClosed-of_missing_none ns h x d r =
    missing_dep_none ns r.node.dependencies d
      (All-lookup (λ _ n. first_missing_dep ns n.dependencies ≡ none) ns x r.node
        (missing_none ns ns h) r.found)
      r.needs

-- The run of Kahn's algorithm that `validate` makes.
abbrev visits : Nodes → Option ℕ
visits ns = kahn (suc (length ns)) 0 (initial_queue ns) (temp_deps ns)

visits_total : (ns : Nodes) → (r : ℕ) × (visits ns ≡ some r)
visits_total ns =
    kahn_total (suc (length ns)) 0 (initial_queue ns) (temp_deps ns)
      (omega (arith, length-initial_queue ns)) (omega (arith, length-temp_deps ns))

start_counted : (ns : Nodes) → 0 + length (initial_queue ns) ≡ empties (remaining [] ns)
start_counted ns = rw (← temp_deps-remaining ns) (omega (arith, length-initial_queue ns))

visits_sound : (ns : Nodes) → All (IsEntry ns) ns → visits ns ≡ some (length ns) → IsAcyclic ns
visits_sound ns a h =
    kahn_sound ns (suc (length ns)) 0 (initial_queue ns) [] a (λ x p. cc)
      (initial_queue-Reachable ns ns a) (start_counted ns) (rw temp_deps-remaining at h)

visits_complete :
    (ns : Nodes) (r : ℕ)
    → All (IsEntry ns) ns
    → IsClosed ns
    → IsAcyclic ns
    → visits ns ≡ some r
    → r ≡ length ns
visits_complete ns r a closed acyclic h =
    kahn_complete ns (suc (length ns)) 0 (initial_queue ns) [] r a closed acyclic
      (Seen-initial ns (initial_queue ns) (λ x p. p)) (start_counted ns)
      (rw temp_deps-remaining at h)

-- `validate` always returns: it never runs out of fuel, whatever the graph.
validate_total : (g : TaskGraph) → (r : Result GraphError (Unit {0})) × (validate g ≡ some r)
unfolding validate
validate_total g = elim (Option-cases (first_missing g.nodes g.nodes)) [
  | inl e ↦ let (r, p) = visits_total g.nodes in (verdict (length g.nodes) r, ground arith)
  | inr ((k, d), e) ↦ (err (missing_dependency k d), ground arith)
]

validate_parts :
    (g : TaskGraph) (r : ℕ)
    → first_missing g.nodes g.nodes ≡ none
    → visits g.nodes ≡ some r
    → validate g ≡ some (verdict (length g.nodes) r)
unfolding validate
validate_parts g r e p = ground arith

validate_missing :
    (g : TaskGraph) (k d : String)
    → first_missing g.nodes g.nodes ≡ some (k, d)
    → validate g ≡ some (err (missing_dependency k d))
unfolding validate
validate_missing g k d e = ground arith

-- For a graph whose ids are distinct, `validate` accepts exactly when every dependency is a task
-- and from every task the dependencies end after finitely many steps.
pub validate_ok_iff :
    (g : TaskGraph)
    → DistinctKeys g.nodes
    → (validate g ≡ some (ok tt)) ↔ (IsClosed g.nodes × IsAcyclic g.nodes)
unfolding verdict
validate_ok_iff g distinct = (
  λ h. elim (Option-cases (first_missing ns ns)) [
    | inl e ↦
        let (r, p) = visits_total ns in
        let counted : r ≡ length ns = ground (arith, validate_parts g r e p) in
        (IsClosed-of_missing_none ns e, visits_sound ns a (p ∙ ap some counted))
    | inr ((k, d), e) ↦ absurd (ground (arith, validate_missing g k d e))
  ],
  λ (closed, acyclic).
      let e = missing_none_of_IsClosed ns a closed in
      let (r, p) = visits_total ns in
      let counted = visits_complete ns r a closed acyclic p in
      ground (arith, validate_parts g r e p),
)
  where
    ns : Nodes
    ns = g.nodes

    a : All (IsEntry ns) ns
    a = entries g.nodes distinct
