-- ===== src/Store/Table.antt =====
-- What `append_event` and `get_events` of crates/store/src/lib.rs keep of the table of events.
use mathlib.Core.List.{Perm}
use mathlib.Core.List.Perm
use vitna_code.Base.{
  ℕ, ◌≤◌, String, ◌≡◌, refl, Bool, true, false, ◌&&◌, ◌||◌, List, [], ◌∷◌, ◌++◌, arith, ◌==◌,
  eq_iff, Bool-cases, inl, inr, All, All-append, ok, nat_eq, leb,
}
use vitna_code.Store.{
  Crypto, EventRecord, EventStore, verify_integrity, clashes, fits_i64, append_event, matching,
  insert_by_sequence, order_by_sequence, get_events, open_in_memory,
}

-- No two rows share an event id, or a run and a sequence.
abbrev pub DistinctRows : List EventRecord → Type 0
DistinctRows [] = Unit
DistinctRows (r ∷ rows) = (clashes rows r ≡ false) × DistinctRows rows

pub record IsValid (c : Crypto) (s : EventStore) : Type 0 where
  pub hashed : All (λ e. verify_integrity c e ≡ true) s.rows
  pub fits : All (λ e. fits_i64 e ≡ true) s.rows
  pub distinct : DistinctRows s.rows
  pub published : s.sent ≡ s.rows

abbrev clash : EventRecord → EventRecord → Bool
clash r e = r.event_id == e.event_id || (r.run_id == e.run_id && nat_eq r.sequence e.sequence)

clash_comm : (r e : EventRecord) → clash r e ≡ clash e r
clash_comm r e = ground (
  arith,
  eq_iff r.event_id e.event_id,
  eq_iff e.event_id r.event_id,
  eq_iff r.run_id e.run_id,
  eq_iff e.run_id r.run_id,
)

clashes-push :
    (rows : List EventRecord) (e r : EventRecord)
    → clashes (rows ++ e ∷ []) r ≡ (clashes rows r || clash e r)
clashes-push [] e r = ground arith
clashes-push (x ∷ rows) e r = ground (arith, clashes-push rows e r)

DistinctRows-push :
    (rows : List EventRecord) (e : EventRecord)
    → clashes rows e ≡ false
    → DistinctRows rows
    → DistinctRows (rows ++ e ∷ [])
DistinctRows-push [] e h d = (refl, tt)
DistinctRows-push (r ∷ rows) e h d = (
  rw (clashes-push rows e r) (ground (arith, clash_comm r e)),
  DistinctRows-push rows e (ground arith) d.1,
)

pub append_event_parts :
    (c : Crypto) (writable : Bool) (s t : EventStore) (e : EventRecord)
    → append_event c writable s e ≡ ok t
    → (verify_integrity c e ≡ true)
      × (fits_i64 e ≡ true)
      × (clashes s.rows e ≡ false)
      × (writable ≡ true)
      × (t ≡ record { rows = s.rows ++ e ∷ []; sent = s.sent ++ e ∷ [] })
unfolding append_event
append_event_parts c writable s t e h = ground arith

-- An append that returns `Ok` keeps a store valid: every row has the hash of its contents and fits
-- SQLite's integers, no event id and no sequence of a run stands twice, and what was published is
-- what was stored, in that order.
pub append_event-IsValid :
    (c : Crypto) (writable : Bool) (s t : EventStore) (e : EventRecord)
    → IsValid c s
    → append_event c writable s e ≡ ok t
    → IsValid c t
append_event-IsValid c writable s t e v h =
    let (good, fit, new, w, same) = append_event_parts c writable s t e h in
    rw same (record {
      hashed = All-append _ s.rows (e ∷ []) v.hashed (good, tt);
      fits = All-append _ s.rows (e ∷ []) v.fits (fit, tt);
      distinct = DistinctRows-push s.rows e new v.distinct;
      published = rw v.published;
    })

-- Sequences do not fall.
abbrev HeadLe : ℕ → List EventRecord → Type 0
HeadLe n [] = Unit
HeadLe n (r ∷ rows) = n ≤ r.sequence

abbrev pub IsAscending : List EventRecord → Type 0
IsAscending [] = Unit
IsAscending (r ∷ rows) = HeadLe r.sequence rows × IsAscending rows

HeadLe-insert :
    (n : ℕ) (e : EventRecord) (l : List EventRecord)
    → n ≤ e.sequence
    → HeadLe n l
    → HeadLe n (insert_by_sequence e l)
unfolding insert_by_sequence
HeadLe-insert n e [] h k = h
HeadLe-insert n e (r ∷ l) h k = ground arith

IsAscending-insert :
    (e : EventRecord) (l : List EventRecord) → IsAscending l → IsAscending (insert_by_sequence e l)
unfolding insert_by_sequence
IsAscending-insert e [] a = (tt, tt)
IsAscending-insert e (r ∷ l) a = elim (Bool-cases (leb e.sequence r.sequence)) [
  | inl le ↦ rw le (ground arith, a)
  | inr gt ↦ rw gt (HeadLe-insert r.sequence e l (ground arith) a.0, IsAscending-insert e l a.1)
]

pub IsAscending-order : (l : List EventRecord) → IsAscending (order_by_sequence l)
unfolding order_by_sequence
IsAscending-order [] = tt
IsAscending-order (e ∷ l) = IsAscending-insert e (order_by_sequence l) (IsAscending-order l)

perm-insert : (e : EventRecord) (l : List EventRecord) → Perm (insert_by_sequence e l) (e ∷ l)
unfolding insert_by_sequence
perm-insert e [] = Perm.refl (e ∷ [])
perm-insert e (r ∷ l) = elim (Bool-cases (leb e.sequence r.sequence)) [
  | inl le ↦ rw le (Perm.refl (e ∷ r ∷ l))
  | inr gt ↦ rw gt (Perm.trans (Perm.cons r (perm-insert e l)) (Perm.swap e r l))
]

perm-order : (l : List EventRecord) → Perm (order_by_sequence l) l
unfolding order_by_sequence
perm-order [] = Perm.refl []
perm-order (e ∷ l) = Perm.trans (perm-insert e (order_by_sequence l)) (Perm.cons e (perm-order l))

-- The events that `get_events` returns are in the order of their sequences, and are exactly the
-- rows that it selects, each as often as it is stored.
get_events_exact :
    (s : EventStore) (run_id : String) (since : ℕ) (es : List EventRecord)
    → get_events s run_id since ≡ ok es
    → IsAscending es × Perm es (matching run_id since s.rows)
unfolding get_events
get_events_exact s run_id since es h =
    let same : order_by_sequence (matching run_id since s.rows) ≡ es = ground arith in
    rw (← same)
      (IsAscending-order (matching run_id since s.rows), perm-order (matching run_id since s.rows))

pub IsValid-open : (c : Crypto) → IsValid c open_in_memory
IsValid-open c = record { hashed = tt; fits = tt; distinct = tt; published = refl }
