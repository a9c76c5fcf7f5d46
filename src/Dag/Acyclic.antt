-- ===== src/Dag/Acyclic.antt =====
-- What `validate` of crates/orchestration/src/dag.rs decides: that every dependency is a task and
-- that the dependencies are well founded.
use mathlib.Core.WellFounded.{Acc}
use vitna_code.Base.{
  ℕ, zero, suc, ◌+◌, String, ◌≡◌, refl, sym, subst, ap, ◌∙◌, true, false, ◌&&◌, some, List, [], ◌∷◌,
  ◌++◌, arith, ◌==◌, eq_iff, eq_refl, contains, contains-append, length, length-append, Bool-cases,
  Option-cases, inl, inr, All,
}
use vitna_code.Dag.{TaskNode, Nodes, lookup, contains_key, DistinctKeys}
use vitna_code.Dag.Validate.{is_empty, initial_queue, freed, kahn}
use vitna_code.Dag.Kahn.{
  empties, empties-le, left, remaining, remove_all-remaining, Covers, Covers-of_empty,
  empties-remove_all,
}

-- The task `d` is among the dependencies of the task `x`.
pub record DependsOn (ns : Nodes) (d x : String) : Type 0 where
  pub node : TaskNode
  pub found : lookup x ns ≡ some node
  pub needs : contains node.dependencies d ≡ true

-- From every task the dependencies end after finitely many steps: there is no cycle.
abbrev pub IsAcyclic : Nodes → Type 0
IsAcyclic ns = (x : String) → Acc (DependsOn ns) x

abbrev pub Reachable : Nodes → List String → Type 0
Reachable ns l = (x : String) → contains l x ≡ true → Acc (DependsOn ns) x

-- An entry of the map, as its lookup finds it.
abbrev pub IsEntry : Nodes → String × TaskNode → Type 0
IsEntry ns e = lookup e.0 ns ≡ some e.1

IsEntry-weaken :
    (k : String) (n : TaskNode) (ns es : Nodes)
    → contains_key es k ≡ false
    → All (IsEntry ns) es
    → All (IsEntry ((k, n) ∷ ns)) es
IsEntry-weaken k n ns [] h a = tt
IsEntry-weaken k n ns ((j, m) ∷ es) h a =
    (ground (arith, eq_iff k j, eq_iff j k), IsEntry-weaken k n ns es (ground arith) a.1)

pub entries : (ns : Nodes) → DistinctKeys ns → All (IsEntry ns) ns
entries [] h = tt
entries ((k, n) ∷ ns) h = (ground (arith, eq_refl k), IsEntry-weaken k n ns ns h.0 (entries ns h.1))

pub some_inj : {A : Type 0} {a b : A} → some a ≡ some b → a ≡ b
some_inj p = cc

Acc_of_entry :
    (ns : Nodes) (k : String) (n : TaskNode) (done : List String)
    → lookup k ns ≡ some n
    → Covers n.dependencies done
    → Reachable ns done
    → Acc (DependsOn ns) k
Acc_of_entry ns k n done found covers reach = Acc.intro k λ d r. reach d (
    covers d (
      subst (λ (m : TaskNode). contains m.dependencies d ≡ true) (some_inj (sym r.found ∙ found))
        r.needs))

Reachable-cons :
    (ns : Nodes) (c : String) (l : List String)
    → Acc (DependsOn ns) c
    → Reachable ns l
    → Reachable ns (c ∷ l)
Reachable-cons ns c l a h x p = elim (Bool-cases (c == x)) [
  | inl e ↦ subst (Acc (DependsOn ns)) ((eq_iff c x).0 e) a
  | inr e ↦ h x (ground arith)
]

Reachable-append :
    (ns : Nodes) (l m : List String) → Reachable ns l → Reachable ns m → Reachable ns (l ++ m)
Reachable-append ns l m hl hm x p = elim (Bool-cases (contains l x)) [
  | inl e ↦ hl x e
  | inr e ↦ hm x (ground (arith, contains-append l m x))
]

-- The head of a reachable queue, and its tail.
Reachable-tail : (ns : Nodes) (c : String) (l : List String) → Reachable ns (c ∷ l) → Reachable ns l
Reachable-tail ns c l h x p = h x (ground arith)

Reachable-head :
    (ns : Nodes) (c : String) (l : List String) → Reachable ns (c ∷ l) → Acc (DependsOn ns) c
Reachable-head ns c l h = h c (ground (arith, eq_refl c))

freed-Reachable :
    (ns : Nodes) (c : String) (done : List String) (es : Nodes)
    → Reachable ns (c ∷ done)
    → All (IsEntry ns) es
    → Reachable ns (freed c (remaining done es))
unfolding freed
freed-Reachable ns c done [] reach a = λ x p. cc
freed-Reachable ns c done ((k, n) ∷ es) reach a =
    elim (Bool-cases
      (contains (left done n.dependencies) c && is_empty (left (c ∷ done) n.dependencies))) [
        | inl e ↦ rw e (
            Reachable-cons ns k (freed c (remaining done es))
              (Acc_of_entry ns k n (c ∷ done) a.0
                (Covers-of_empty (c ∷ done) n.dependencies (ground arith)) reach)
              (freed-Reachable ns c done es reach a.1))
        | inr e ↦ rw e (freed-Reachable ns c done es reach a.1)
      ]

pub initial_queue-Reachable :
    (ns es : Nodes) → All (IsEntry ns) es → Reachable ns (initial_queue es)
unfolding initial_queue
initial_queue-Reachable ns [] a = λ x p. cc
initial_queue-Reachable ns ((k, n) ∷ es) a = elim (Bool-cases (is_empty n.dependencies)) [
  | inl e ↦ rw e (
      Reachable-cons ns k (initial_queue es)
        (Acc_of_entry ns k n [] a.0 (Covers-of_empty [] n.dependencies e) (λ x p. cc))
        (initial_queue-Reachable ns es a.1))
  | inr e ↦ rw e (initial_queue-Reachable ns es a.1)
]

length-remaining : (done : List String) (es : Nodes) → length (remaining done es) ≡ length es
length-remaining done [] = refl
length-remaining done (e ∷ es) = ap suc (length-remaining done es)

covered_lookup :
    (done : List String) (es : Nodes) (x : String) (n : TaskNode)
    → empties (remaining done es) ≡ length es
    → lookup x es ≡ some n
    → Covers n.dependencies done
covered_lookup done [] x n e p = absurd (cc)
covered_lookup done ((k, m) ∷ es) x n e p = elim (Bool-cases (k == x)) [
  | inl same ↦
      subst (λ (o : TaskNode). Covers o.dependencies done) (some_inj (rw same at p))
        (Covers-of_empty done m.dependencies
          (ground (arith, empties-le (remaining done es), length-remaining done es)))
  | inr other ↦
      covered_lookup done es x n
        (ground (arith, empties-le (remaining done es), length-remaining done es)) (rw other at p)
]

all_Acc :
    (ns : Nodes) (done : List String)
    → Reachable ns done
    → empties (remaining done ns) ≡ length ns
    → IsAcyclic ns
all_Acc ns done reach e x = elim (Option-cases (lookup x ns)) [
  | inl gone ↦ Acc.intro x (λ d r. cc (r.found, gone))
  | inr (n, found) ↦ Acc_of_entry ns x n done found (covered_lookup done ns x n e found) reach
]

pub kahn_sound :
    (ns : Nodes) (f v : ℕ) (q done : List String)
    → All (IsEntry ns) ns
    → Reachable ns done
    → Reachable ns q
    → v + length q ≡ empties (remaining done ns)
    → kahn f v q (remaining done ns) ≡ some (length ns)
    → IsAcyclic ns
unfolding kahn
kahn_sound ns zero v q done a hd hq e k = cc
kahn_sound ns (suc f) v [] done a hd hq e k = all_Acc ns done hd (omega (arith, some_inj k))
kahn_sound ns (suc f) v (c ∷ q) done a hd hq e k =
    let hc = Reachable-cons ns c done (Reachable-head ns c q hq) hd in
    kahn_sound ns f (v + 1) (q ++ freed c (remaining done ns)) (c ∷ done) a hc
      (Reachable-append ns q (freed c (remaining done ns)) (Reachable-tail ns c q hq)
        (freed-Reachable ns c done ns hc a))
      (rw (← remove_all-remaining c done ns) (
        omega (
          arith,
          length-append q (freed c (remaining done ns)),
          empties-remove_all c (remaining done ns),
        )))
      (rw (← remove_all-remaining c done ns) k)
