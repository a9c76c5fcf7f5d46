-- ===== src/Dag/Complete.antt =====
-- The loop of `validate` in crates/orchestration/src/dag.rs visits every task of a graph without a
-- cycle whose dependencies are all tasks.
use mathlib.Core.WellFounded.{Acc}
use vitna_code.Base.{
  ℕ, zero, suc, ◌+◌, String, ◌≡◌, refl, subst, ap, true, false, ◌&&◌, ◌||◌, some, List, [], ◌∷◌,
  ◌++◌, arith, ◌==◌, eq_iff, eq_refl, contains, contains-append, length, length-append, Bool-cases,
  inl, inr, All,
}
use vitna_code.Dag.{TaskNode, Nodes, lookup, contains_key}
use vitna_code.Dag.Validate.{is_empty, initial_queue, freed, kahn}
use vitna_code.Dag.Kahn.{
  empties, left, remaining, remove_all-remaining, Covers, empty_of_Covers, empties-remove_all,
  without_of_absent,
}
use vitna_code.Dag.Acyclic.{DependsOn, IsAcyclic, IsEntry, some_inj}

-- Every dependency is a task of the graph.
abbrev pub IsClosed : Nodes → Type 0
IsClosed ns = (x d : String) → DependsOn ns d x → contains_key ns d ≡ true

pub All-lookup :
    (P : String → TaskNode → Type 0) (es : Nodes) (x : String) (n : TaskNode)
    → All (λ (e : String × TaskNode). P e.0 e.1) es
    → lookup x es ≡ some n
    → P x n
All-lookup P [] x n a p = absurd (cc)
All-lookup P ((k, m) ∷ es) x n a p = elim (Bool-cases (k == x)) [
  | inl same ↦
      subst (λ (o : TaskNode). P x o) (some_inj (rw same at p))
        (subst (λ (y : String). P y m) ((eq_iff k x).0 same) a.0)
  | inr other ↦ All-lookup P es x n a.1 (rw other at p)
]

pub lookup_of_contains_key :
    (ns : Nodes) (x : String) → contains_key ns x ≡ true → (n : TaskNode) × (lookup x ns ≡ some n)
lookup_of_contains_key [] x h = absurd (cc)
lookup_of_contains_key ((k, m) ∷ ns) x h = elim (Bool-cases (k == x)) [
  | inl same ↦ (m, rw same)
  | inr other ↦ rw other (lookup_of_contains_key ns x (rw other at h))
]

-- A task that waits for nothing more is visited or in the queue.
abbrev pub Seen : List String → List String → String → TaskNode → Type 0
Seen done q k n =
    is_empty (left done n.dependencies) ≡ true → (contains done k || contains q k) ≡ true

Seen-step :
    (c k : String) (n : TaskNode) (done q fr : List String)
    → ((contains (left done n.dependencies) c && is_empty (left (c ∷ done) n.dependencies)) ≡ true
        → contains fr k ≡ true)
    → Seen done (c ∷ q) k n
    → Seen (c ∷ done) (q ++ fr) k n
Seen-step c k n done q fr got s e =
    ground (arith, contains-append q fr k, without_of_absent c (left done n.dependencies))

Seen-All :
    (c : String) (done q fr : List String) (es : Nodes)
    → ((x : String) → contains (freed c (remaining done es)) x ≡ true → contains fr x ≡ true)
    → All (λ (e : String × TaskNode). Seen done (c ∷ q) e.0 e.1) es
    → All (λ (e : String × TaskNode). Seen (c ∷ done) (q ++ fr) e.0 e.1) es
unfolding freed
Seen-All c done q fr [] sub a = tt
Seen-All c done q fr ((k, n) ∷ es) sub a = (
  Seen-step c k n done q fr (λ e. sub k (rw e (ground (arith, eq_refl k)))) a.0,
  Seen-All c done q fr es (λ x p. sub x (ground arith)) a.1,
)

pub Seen-initial :
    (es : Nodes) (q : List String)
    → ((x : String) → contains (initial_queue es) x ≡ true → contains q x ≡ true)
    → All (λ (e : String × TaskNode). Seen [] q e.0 e.1) es
unfolding initial_queue
Seen-initial [] q sub = tt
Seen-initial ((k, n) ∷ es) q sub =
    (λ e. sub k (rw e (ground (arith, eq_refl k))), Seen-initial es q (λ x p. sub x (ground arith)))

module _ (ns : Nodes) (closed : IsClosed ns) (done : List String)
    (seen : All (λ (e : String × TaskNode). Seen done [] e.0 e.1) ns) where
  visited :
      (x : String)
      → Acc (DependsOn ns) x
      → (n : TaskNode) → lookup x ns ≡ some n
      → contains done x ≡ true
  visited x (Acc.intro _ below) n found =
      let covers : Covers n.dependencies done = λ d c.
        let r : DependsOn ns d x = record { node = n; found = found; needs = c } in
        let (m, fm) = lookup_of_contains_key ns d (closed x d r) in visited d (below d r) m fm in
      let s : (contains done x || false) ≡ true =
        All-lookup (Seen done []) ns x n seen found (empty_of_Covers done n.dependencies covers) in
      ground arith

  nothing_left :
      IsAcyclic ns → (es : Nodes) → All (IsEntry ns) es → empties (remaining done es) ≡ length es
  nothing_left acyclic [] a = refl
  nothing_left acyclic ((k, n) ∷ es) a =
      let covers : Covers n.dependencies done = λ d c.
        let r : DependsOn ns d k = record { node = n; found = a.0; needs = c } in
        let (m, fm) = lookup_of_contains_key ns d (closed k d r) in visited d (acyclic d) m fm in
      rw (empty_of_Covers done n.dependencies covers) (ap suc (nothing_left acyclic es a.1))

pub kahn_complete :
    (ns : Nodes) (f v : ℕ) (q done : List String) (r : ℕ)
    → All (IsEntry ns) ns
    → IsClosed ns
    → IsAcyclic ns
    → All (λ (e : String × TaskNode). Seen done q e.0 e.1) ns
    → v + length q ≡ empties (remaining done ns)
    → kahn f v q (remaining done ns) ≡ some r
    → r ≡ length ns
unfolding kahn
kahn_complete ns zero v q done r a closed acyclic seen e k = cc
kahn_complete ns (suc f) v [] done r a closed acyclic seen e k =
    omega (arith, nothing_left ns closed done seen acyclic ns a, some_inj k)
kahn_complete ns (suc f) v (c ∷ q) done r a closed acyclic seen e k =
    let fr = freed c (remaining done ns) in
    kahn_complete ns f (v + 1) (q ++ fr) (c ∷ done) r a closed acyclic
      (Seen-All c done q fr ns (λ x p. p) seen)
      (rw (← remove_all-remaining c done ns)
        (omega (arith, length-append q fr, empties-remove_all c (remaining done ns))))
      (rw (← remove_all-remaining c done ns) k)
