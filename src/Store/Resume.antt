-- ===== src/Store/Resume.antt =====
-- A subscriber that resumes after a sequence (`events_after` of crates/store/src/lib.rs) gets what
-- it does not hold, and no more.
use mathlib.Core.List.{append-nil}
use vitna_code.Base.{
  ℕ, ◌+◌, ◌≤◌, ◌<◌, String, ◌≡◌, refl, sym, ap, ◌∙◌, subst, ◌&&◌, List, [], ◌∷◌, ◌++◌, arith, ◌==◌,
  if◌then◌else◌, Bool-cases, inl, inr, All, All-imp, ok, leb, ltb,
}
use vitna_code.Store.{
  Crypto, EventRecord, EventStore, i64_max, matching, insert_by_sequence, order_by_sequence,
  get_events, events_after,
}
use vitna_code.Store.Table.{IsValid, IsAscending, IsAscending-order}

above : ℕ → List EventRecord → List EventRecord
above n [] = []
above n (r ∷ l) = let rest = above n l in if ltb n r.sequence then r ∷ rest else rest

upto : ℕ → List EventRecord → List EventRecord
upto n [] = []
upto n (r ∷ l) = let rest = upto n l in if ltb n r.sequence then rest else r ∷ rest

matching-above :
    (run_id : String) (n : ℕ) (l : List EventRecord)
    → matching run_id (n + 1) l ≡ above n (matching run_id 0 l)
unfolding matching above
matching-above run_id n [] = refl
matching-above run_id n (r ∷ l) = ground (arith, matching-above run_id n l)

above-insert :
    (n : ℕ) (e : EventRecord) (l : List EventRecord)
    → above n (insert_by_sequence e l)
      ≡ (if ltb n e.sequence then insert_by_sequence e (above n l) else above n l)
unfolding above insert_by_sequence
above-insert n e [] = refl
above-insert n e (r ∷ l) = ground (arith, above-insert n e l)

above-order :
    (n : ℕ) (l : List EventRecord) → above n (order_by_sequence l) ≡ order_by_sequence (above n l)
unfolding above order_by_sequence
above-order n [] = refl
above-order n (e ∷ l) = ground (arith, above-insert n e (order_by_sequence l), above-order n l)

module _ (P : EventRecord → Type 0) where
  All-insert :
      (e : EventRecord) (l : List EventRecord) → P e → All P l → All P (insert_by_sequence e l)
  unfolding insert_by_sequence
  All-insert e [] p a = (p, tt)
  All-insert e (r ∷ l) p a = elim (Bool-cases (leb e.sequence r.sequence)) [
    | inl le ↦ rw le (p, a)
    | inr gt ↦ rw gt (a.0, All-insert e l p a.1)
  ]

  All-order : (l : List EventRecord) → All P l → All P (order_by_sequence l)
  unfolding order_by_sequence
  All-order [] a = tt
  All-order (e ∷ l) a = All-insert e (order_by_sequence l) a.0 (All-order l a.1)

  All-matching :
      (run_id : String) (n : ℕ) (l : List EventRecord) → All P l → All P (matching run_id n l)
  unfolding matching
  All-matching run_id n [] a = tt
  All-matching run_id n (r ∷ l) a = elim (Bool-cases (r.run_id == run_id && leb n r.sequence)) [
    | inl e ↦ rw e (a.0, All-matching run_id n l a.1)
    | inr e ↦ rw e (All-matching run_id n l a.1)
  ]

abbrev Low : ℕ → EventRecord → Type 0
Low n e = e.sequence ≤ n

abbrev High : ℕ → EventRecord → Type 0
High n e = n < e.sequence

All-above : (n : ℕ) (l : List EventRecord) → All (High n) (above n l)
unfolding above
All-above n [] = tt
All-above n (r ∷ l) = elim (Bool-cases (ltb n r.sequence)) [
  | inl e ↦ rw e (ground arith, All-above n l)
  | inr e ↦ rw e (All-above n l)
]

All-upto : (n : ℕ) (l : List EventRecord) → All (Low n) (upto n l)
unfolding upto
All-upto n [] = tt
All-upto n (r ∷ l) = elim (Bool-cases (ltb n r.sequence)) [
  | inl e ↦ rw e (All-upto n l)
  | inr e ↦ rw e (ground arith, All-upto n l)
]

upto_high :
    (n : ℕ) (r : EventRecord) (l : List EventRecord)
    → IsAscending (r ∷ l)
    → n < r.sequence
    → upto n (r ∷ l) ≡ []
unfolding upto
upto_high n r [] a h = ground arith
upto_high n r (x ∷ l) a h = ground (arith, upto_high n x l a.1)

upto-append-above : (n : ℕ) (l : List EventRecord) → IsAscending l → l ≡ upto n l ++ above n l
unfolding upto above
upto-append-above n [] a = refl
upto-append-above n (r ∷ l) a = elim (Bool-cases (ltb n r.sequence)) [
  | inl e ↦
      let none_low : upto n l ≡ [] = rw e at (upto_high n r l a (ground arith)) in
      rw (e, none_low)
        (ap (λ t. r ∷ t) (upto-append-above n l a.1 ∙ ap (λ t. t ++ above n l) none_low))
  | inr e ↦ rw e (ap (λ t. r ∷ t) (upto-append-above n l a.1))
]

-- From a valid store `events_after` always returns, and what it returns is the rest of the run:
-- all the events of the run, in order, are some events up to the given sequence, followed by the
-- returned events, which all come after it.
pub events_after_exact :
    (c : Crypto) (s : EventStore) (run_id : String) (n : ℕ) (all : List EventRecord)
    → IsValid c s
    → get_events s run_id 0 ≡ ok all
    → (held later : List EventRecord) × (events_after s run_id n ≡ ok later)
      × (all ≡ held ++ later)
      × All (λ e. e.sequence ≤ n) held
      × All (λ e. n < e.sequence) later
unfolding events_after get_events
events_after_exact c s run_id n all v h = elim (Bool-cases (leb i64_max n)) [
  | inl high ↦ (
    all,
    [],
    ground arith,
    sym (append-nil all),
    subst (All (Low n)) same (
        All-order (Low n) (matching run_id 0 s.rows) (
          All-matching (Low n) run_id 0 s.rows
            (All-imp _ (Low n) s.rows (λ e fit. ground arith) v.fits))),
    tt,
  )
  | inr low ↦ (
    upto n all,
    above n all,
    ground (arith, shifted),
    upto-append-above n all (subst IsAscending same (IsAscending-order (matching run_id 0 s.rows))),
    All-upto n all,
    All-above n all,
  )
]
  where
    same : order_by_sequence (matching run_id 0 s.rows) ≡ all
    same = ground arith

    shifted : order_by_sequence (matching run_id (n + 1) s.rows) ≡ above n all
    shifted =
        rw (matching-above run_id n s.rows)
          (sym (above-order n (matching run_id 0 s.rows)) ∙ ap (above n) same)
