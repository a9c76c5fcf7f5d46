-- ===== src/Dag/Kahn.antt =====
-- What the loop of `validate` in crates/orchestration/src/dag.rs keeps: how many tasks it has
-- visited, and what each task waits for once the tasks of a list `done` are visited.
use vitna_code.Base.{
  ℕ, zero, suc, ◌+◌, ◌≤◌, ◌<◌, String, ◌≡◌, refl, ap, ◌∙◌, true, false, ◌&&◌, not, some, List, [],
  ◌∷◌, ◌++◌, arith, ◌==◌, eq_iff, eq_refl, contains, length, length-append, if◌then◌else◌,
}
use vitna_code.Dag.{Nodes}
use vitna_code.Dag.Validate.{
  Waits, without, is_empty, temp_deps, initial_queue, remove_all, freed, kahn,
}

abbrev pub empties : Waits → ℕ
empties [] = 0
empties ((id, deps) ∷ rest) = if is_empty deps then suc (empties rest) else empties rest

pub contains-without :
    (c d : String) (deps : List String)
    → contains (without c deps) d ≡ (contains deps d && not (c == d))
contains-without c d [] = refl
contains-without c d (x ∷ deps) =
    ground (arith, contains-without c d deps, eq_iff x c, eq_iff x d, eq_iff c d)

pub without_of_absent :
    (c : String) (deps : List String) → contains deps c ≡ false → without c deps ≡ deps
without_of_absent c [] h = refl
without_of_absent c (x ∷ deps) h = ground (arith, without_of_absent c deps)

pub empties-remove_all :
    (c : String) (w : Waits) → empties (remove_all c w) ≡ empties w + length (freed c w)
unfolding remove_all freed
empties-remove_all c [] = refl
empties-remove_all c ((id, []) ∷ w) = ground (arith, empties-remove_all c w)
empties-remove_all c ((id, x ∷ deps) ∷ w) =
    ground (arith, empties-remove_all c w, without_of_absent c (x ∷ deps))

pub length-remove_all : (c : String) (w : Waits) → length (remove_all c w) ≡ length w
unfolding remove_all
length-remove_all c [] = refl
length-remove_all c ((id, deps) ∷ w) = ap suc (length-remove_all c w)

pub empties-le : (w : Waits) → empties w ≤ length w
empties-le [] = omega arith
empties-le ((id, deps) ∷ w) = ground (arith, empties-le w)

-- The loop ends within the fuel, as long as every task that waits for nothing is counted.
pub kahn_total :
    (f v : ℕ) (q : List String) (w : Waits)
    → v + length q ≡ empties w
    → length w < v + f
    → (r : ℕ) × (kahn f v q w ≡ some r)
unfolding kahn
kahn_total zero v q w e h = absurd (omega (arith, empties-le w))
kahn_total (suc f) v [] w e h = (v, refl)
kahn_total (suc f) v (c ∷ q) w e h =
    kahn_total f (v + 1) (q ++ freed c w) (remove_all c w)
      (omega (arith, length-append q (freed c w), empties-remove_all c w))
      (omega (arith, length-remove_all c w))

pub length-temp_deps : (ns : Nodes) → length (temp_deps ns) ≡ length ns
unfolding temp_deps
length-temp_deps [] = refl
length-temp_deps (e ∷ ns) = ap suc (length-temp_deps ns)

pub length-initial_queue : (ns : Nodes) → length (initial_queue ns) ≡ empties (temp_deps ns)
unfolding temp_deps initial_queue
length-initial_queue [] = refl
length-initial_queue ((id, n) ∷ ns) = ground (arith, length-initial_queue ns)

-- What is left of a set of dependencies when the tasks of `done` are visited.
abbrev pub left : List String → List String → List String
left [] deps = deps
left (c ∷ done) deps = without c (left done deps)

abbrev pub remaining : List String → Nodes → Waits
remaining done [] = []
remaining done ((id, n) ∷ ns) = (id, left done n.dependencies) ∷ remaining done ns

pub remove_all-remaining :
    (c : String) (done : List String) (ns : Nodes)
    → remove_all c (remaining done ns) ≡ remaining (c ∷ done) ns
unfolding remove_all
remove_all-remaining c done [] = refl
remove_all-remaining c done ((id, n) ∷ ns) = rw (remove_all-remaining c done ns)

pub temp_deps-remaining : (ns : Nodes) → temp_deps ns ≡ remaining [] ns
unfolding temp_deps
temp_deps-remaining [] = refl
temp_deps-remaining ((id, n) ∷ ns) = rw (temp_deps-remaining ns)

contains-left :
    (done deps : List String) (d : String)
    → contains (left done deps) d ≡ (contains deps d && not (contains done d))
contains-left [] deps d = ground arith
contains-left (c ∷ done) deps d =
    contains-without c d (left done deps) ∙ ground (arith, contains-left done deps d)

-- Every text of the first list is in the second.
abbrev pub Covers : List String → List String → Type 0
Covers deps done = (d : String) → contains deps d ≡ true → contains done d ≡ true

pub Covers-of_empty :
    (done deps : List String) → is_empty (left done deps) ≡ true → Covers deps done
Covers-of_empty done deps h d c = step (left done deps) h (contains-left done deps d)
  where
    step :
        (l : List String)
        → is_empty l ≡ true
        → contains l d ≡ (contains deps d && not (contains done d))
        → contains done d ≡ true
    step [] e p = ground arith
    step (x ∷ l) e p = cc

pub empty_of_Covers :
    (done deps : List String) → Covers deps done → is_empty (left done deps) ≡ true
empty_of_Covers done deps h = step (left done deps) (contains-left done deps)
  where
    step :
        (l : List String)
        → ((d : String) → contains l d ≡ (contains deps d && not (contains done d)))
        → is_empty l ≡ true
    step [] p = refl
    step (x ∷ l) p = ground (arith, p x, h x, eq_refl x)
