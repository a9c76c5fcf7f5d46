-- ===== src/Dag/Cancels.antt =====
-- The loop of `mark_failed` in crates/orchestration/src/dag.rs against the relation `Downstream`.
use vitna_code.Base.{
  ℕ, zero, suc, String, ◌≡◌, sym, subst, true, false, ◌||◌, some, List, [], ◌∷◌, ◌++◌, arith, ◌==◌,
  eq_iff, eq_refl, contains, contains-append, Bool-cases, inl, inr, All, ◌⊎◌,
}
use vitna_code.Dag.{TaskNode, Nodes, is_pending}
use vitna_code.Dag.Acyclic.{IsEntry, some_inj}
use vitna_code.Dag.Cascade.{is_hit, newly_cancelled, cascade}
use vitna_code.Dag.Downstream.{
  Blocked, Downstream, direct, through, overlaps, after, cascaded, cancel_children-cascaded,
  dependencies-after, pending-after,
}

-- The failed task itself, or one that waits for it.
abbrev pub Hit : Nodes → String → String → Type 0
Hit ns id p = (p ≡ id) ⊎ Downstream ns id p

abbrev pub Only : Nodes → String → List String → Type 0
Only ns id l = (p : String) → contains l p ≡ true → Hit ns id p

abbrev pub IsQueued : List String → List String → String → TaskNode → Type 0
IsQueued done q k n =
    is_pending n.status ≡ true
    → overlaps done n.dependencies ≡ true
    → (contains done k || contains q k) ≡ true

Hit-step : (ns : Nodes) (id p x : String) → Hit ns id p → Blocked ns p x → Downstream ns id x
Hit-step ns id p x (inl e) b = direct (subst (λ (y : String). Blocked ns y x) e b)
Hit-step ns id p x (inr d) b = through d b

Only-cons :
    (ns : Nodes) (id p : String) (l : List String) → Hit ns id p → Only ns id l → Only ns id (p ∷ l)
Only-cons ns id p l h o x c = elim (Bool-cases (p == x)) [
  | inl e ↦ subst (Hit ns id) ((eq_iff p x).0 e) h
  | inr e ↦ o x (ground arith)
]

Only-append :
    (ns : Nodes) (id : String) (l m : List String)
    → Only ns id l
    → Only ns id m
    → Only ns id (l ++ m)
Only-append ns id l m hl hm x c = elim (Bool-cases (contains l x)) [
  | inl e ↦ hl x e
  | inr e ↦ hm x (ground (arith, contains-append l m x))
]

Only-newly_cancelled :
    (ns : Nodes) (id p : String) (done : List String) (es : Nodes)
    → Hit ns id p
    → All (IsEntry ns) es
    → Only ns id (newly_cancelled p (cascaded done es))
unfolding newly_cancelled
Only-newly_cancelled ns id p done [] h a = λ x c. cc
Only-newly_cancelled ns id p done ((k, n) ∷ es) h a = elim (Bool-cases (is_hit p (after done n))) [
  | inl e ↦
      let b : Blocked ns p k = record {
        node = n;
        found = a.0;
        needs = ground (arith, dependencies-after done n);
        waiting = ground (arith, pending-after done n);
      } in
      rw e (
        Only-cons ns id k (newly_cancelled p (cascaded done es)) (inr (Hit-step ns id p k h b))
          (Only-newly_cancelled ns id p done es h a.1))
  | inr e ↦ rw e (Only-newly_cancelled ns id p done es h a.1)
]

IsQueued-step :
    (p k : String) (n : TaskNode) (done q fr : List String)
    → (is_hit p (after done n) ≡ true → contains fr k ≡ true)
    → IsQueued done (p ∷ q) k n
    → IsQueued (p ∷ done) (q ++ fr) k n
IsQueued-step p k n done q fr got old w o =
    ground (arith, contains-append q fr k, pending-after done n, dependencies-after done n)

IsQueued-All :
    (p : String) (done q fr : List String) (es : Nodes)
    → ((x : String)
        → contains (newly_cancelled p (cascaded done es)) x ≡ true
        → contains fr x ≡ true)
    → All (λ (e : String × TaskNode). IsQueued done (p ∷ q) e.0 e.1) es
    → All (λ (e : String × TaskNode). IsQueued (p ∷ done) (q ++ fr) e.0 e.1) es
unfolding newly_cancelled
IsQueued-All p done q fr [] sub a = tt
IsQueued-All p done q fr ((k, n) ∷ es) sub a = (
  IsQueued-step p k n done q fr (λ e. sub k (rw e (ground (arith, eq_refl k)))) a.0,
  IsQueued-All p done q fr es (λ x c. sub x (ground arith)) a.1,
)

-- What holds of the tasks whose rounds the cascade made.
pub record Settled (ns : Nodes) (id : String) (done : List String) : Type 0 where
  pub origin : contains done id ≡ true
  pub only : (p : String) → contains done p ≡ true → (p ≡ id) ⊎ Downstream ns id p
  pub closed :
      All
        (λ (e : String × TaskNode).
          is_pending e.1.status ≡ true
          → overlaps done e.1.dependencies ≡ true
          → (contains done e.0 || false) ≡ true)
        ns

pub cascade_settles :
    (ns : Nodes) (id : String) (f : ℕ) (q done : List String) (r : Nodes)
    → All (IsEntry ns) ns
    → (contains done id || contains q id) ≡ true
    → Only ns id done
    → Only ns id q
    → All (λ (e : String × TaskNode). IsQueued done q e.0 e.1) ns
    → cascade f q (cascaded done ns) ≡ some r
    → (done' : List String) × (r ≡ cascaded done' ns) × Settled ns id done'
unfolding cascade
cascade_settles ns id zero q done r a o od oq c h = absurd (cc)
cascade_settles ns id (suc f) [] done r a o od oq c h =
    (done, sym (some_inj h), record { origin = ground arith; only = od; closed = c })
cascade_settles ns id (suc f) (p ∷ q) done r a o od oq c h =
    let fr = newly_cancelled p (cascaded done ns) in
    let hit : Hit ns id p = oq p (ground (arith, eq_refl p)) in
    cascade_settles ns id f (q ++ fr) (p ∷ done) r a (ground (arith, contains-append q fr id))
      (Only-cons ns id p done hit od)
      (Only-append ns id q fr (λ x e. oq x (ground arith))
        (Only-newly_cancelled ns id p done ns hit a))
      (IsQueued-All p done q fr ns (λ x e. e) c) (rw (← cancel_children-cascaded p done ns) h)

pub IsQueued-start :
    (q : List String) (es : Nodes) → All (λ (e : String × TaskNode). IsQueued [] q e.0 e.1) es
IsQueued-start q [] = tt
IsQueued-start q (e ∷ es) = (λ w o. cc, IsQueued-start q es)
