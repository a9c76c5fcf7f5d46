-- ===== src/Store/Sequence.antt =====
-- The number that `last_sequence` of crates/store/src/lib.rs gives to a run's next event is free.
use vitna_code.Base.{
  ℕ, ◌≤◌, ◌<◌, String, ◌≡◌, ◌≢◌, refl, sym, subst, true, false, Option, none, some, List, [], ◌∷◌,
  ◌++◌, arith, ◌==◌, eq_iff, Bool-cases, inl, inr, All, All-imp, ok,
}
use vitna_code.Store.{
  Crypto, EventRecord, EventStore, fits_i64, append_event, clashes, verify_integrity, max_sequence,
  last_sequence, larger,
}

abbrev Within : ℕ → Option ℕ → Type 0
Within n none = ⊥
Within n (some m) = n ≤ m

Within-larger : (n k : ℕ) (o : Option ℕ) → Within n o → n ≤ larger k o
Within-larger n k none h = absurd h
Within-larger n k (some m) h = omega arith

le-larger : (k : ℕ) (o : Option ℕ) → k ≤ larger k o
le-larger k none = omega arith
le-larger k (some m) = omega arith

max_sequence_bound :
    (run_id : String) (l : List EventRecord)
    → All (λ r. r.run_id ≡ run_id → Within r.sequence (max_sequence run_id l)) l
unfolding max_sequence
max_sequence_bound run_id [] = tt
max_sequence_bound run_id (r ∷ l) =
    let ih : Bound l rest = max_sequence_bound run_id l in
    elim (Bool-cases (r.run_id == run_id)) [
      | inl e ↦
          let now : max_sequence run_id (r ∷ l) ≡ some (larger r.sequence rest) =
            ground (arith, e) in
          subst (Bound (r ∷ l)) (sym now) (
            λ _. le-larger r.sequence rest,
            All-imp _ _ l (λ x w same. Within-larger x.sequence r.sequence rest (w same)) ih,
          )
      | inr e ↦
          let now : max_sequence run_id (r ∷ l) ≡ rest = ground (arith, e) in
          subst (Bound (r ∷ l)) (sym now)
            (λ same. absurd (ground (arith, eq_iff r.run_id run_id)), ih)
    ]
  where
    rest : Option ℕ
    rest = max_sequence run_id l

    Bound : List EventRecord → Option ℕ → Type 0
    Bound rows o = All (λ x. x.run_id ≡ run_id → Within x.sequence o) rows

-- `n` is beyond the last sequence.
abbrev pub IsBeyond : ℕ → Option ℕ → Type 0
IsBeyond n none = Unit
IsBeyond n (some m) = m < n

lt_of_Within : (n k : ℕ) (o : Option ℕ) → IsBeyond n o → Within k o → k < n
lt_of_Within n k none b w = absurd w
lt_of_Within n k (some m) b w = omega arith

no_clash :
    (l : List EventRecord) (e : EventRecord)
    → All (λ r. (r.event_id ≢ e.event_id) × (r.run_id ≡ e.run_id → r.sequence < e.sequence)) l
    → clashes l e ≡ false
no_clash [] e a = refl
no_clash (r ∷ l) e a =
    ground (arith, no_clash l e a.1, eq_iff r.event_id e.event_id, eq_iff r.run_id e.run_id, a.0.1)

clashes-beyond :
    (l : List EventRecord) (e : EventRecord)
    → IsBeyond e.sequence (max_sequence e.run_id l)
    → All (λ r. r.event_id ≢ e.event_id) l
    → clashes l e ≡ false
clashes-beyond l e beyond fresh = no_clash l e (both l fresh (max_sequence_bound e.run_id l))
  where
    both :
        (rows : List EventRecord)
        → All (λ r. r.event_id ≢ e.event_id) rows
        → All (λ r. r.run_id ≡ e.run_id → Within r.sequence (max_sequence e.run_id l)) rows
        → All
            (λ r. (r.event_id ≢ e.event_id) × (r.run_id ≡ e.run_id → r.sequence < e.sequence))
            rows
    both [] f w = tt
    both (r ∷ rows) f w = (
      (f.0, λ same. lt_of_Within e.sequence r.sequence (max_sequence e.run_id l) beyond (w.0 same)),
      both rows f.1 w.1,
    )

-- An event that has the hash of its contents, a number beyond `last_sequence` of its run and an
-- event id of its own is stored and published by a writable store.
append_event_beyond :
    (c : Crypto) (s : EventStore) (e : EventRecord)
    → verify_integrity c e ≡ true
    → fits_i64 e ≡ true
    → IsBeyond e.sequence (last_sequence s e.run_id)
    → All (λ r. r.event_id ≢ e.event_id) s.rows
    → append_event c true s e ≡ ok (record { rows = s.rows ++ e ∷ []; sent = s.sent ++ e ∷ [] })
unfolding append_event last_sequence
append_event_beyond c s e good fit beyond fresh =
    let free = clashes-beyond s.rows e beyond fresh in ground arith
