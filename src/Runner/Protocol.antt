-- ===== src/Runner/Protocol.antt =====
-- The protocol of an action of crates/vitna-runner/src/lib.rs as a state machine, and what its
-- journal operations do to it.
use mathlib.Core.List.{append_assoc}
use vitna_code.Base.{
  ℕ, String, Bool, true, false, ◌≡◌, ap, ◌∙◌, subst, some, List, [], ◌∷◌, ◌++◌, Result, ok, err,
  arith, eq_refl,
}
use vitna_code.Base.Steps.{After}
use vitna_code.Bytes.{Bytes}
use vitna_code.Runner.Journal.{
  ActionState, prepared, started, finished, acknowledged, needs_reconciliation, refused,
  JournalEntry, Child, Teardown, complete, partial, failed, Event, recorded, spawned, exited,
  killed, Written, not_opened, cut, unsynced, whole, Serde, Entries, ActionJournal, lookup, insert,
  appended, update,
}
use vitna_code.Runner.{journal_error, System, teardown_name}

-- The moves of an action's state in the journal.
pub data Next : ActionState → ActionState → Type 0 where
  starts : Next prepared started
  confines : Next started started
  is_refused : Next prepared refused
  fails_to_start : Next started refused
  finishes : Next started finished
  is_interrupted : Next started needs_reconciliation
  is_acknowledged : Next finished acknowledged

-- Nothing yet; an entry in the journal and no child; a child under an entry; or what a teardown of it
-- achieved, where descendants of the child may live on unless it was complete.
pub data Phase : Type 0 where
  idle : Phase
  journal_holds : JournalEntry → Phase
  running : JournalEntry → Child → Phase
  torn_down : JournalEntry → Teardown → Phase

-- What a teardown may be reported as: complete only where the signal reached the group of a child in a
-- PID namespace of its own.
abbrev pub IsTornDown : Bool → Bool → Teardown → Type 0
IsTornDown namespaced reached complete = (reached ≡ true) × (namespaced ≡ true)
IsTornDown namespaced reached partial = (reached ≡ true) × (namespaced ≡ false)
IsTornDown namespaced reached failed = reached ≡ false

module _ (id digest : String) (MayRun : Child → Type 0) where
  -- One step of an action. A process is spawned only where the journal says that the action has
  -- started and under which isolation.
  pub data Move : Phase → Event → Phase → Type 0 where
    prepare :
        {e : JournalEntry}
        → e.action_id ≡ id
        → e.argument_digest ≡ digest
        → e.state ≡ prepared
        → Move idle (recorded e) (journal_holds e)
    advance :
        {e f : JournalEntry}
        → f.action_id ≡ id
        → f.argument_digest ≡ digest
        → Next e.state f.state
        → Move (journal_holds e) (recorded f) (journal_holds f)
    begin :
        {e : JournalEntry} {c : Child}
        → MayRun c
        → e.state ≡ started
        → e.sandbox_backend ≡ some c.backend
        → e.sandbox_enforcement ≡ some c.enforcement
        → Move (journal_holds e) (spawned c) (running e c)
    end : {e : JournalEntry} {c : Child} → Move (running e c) exited (journal_holds e)
    kill :
        {e : JournalEntry} {c : Child} {reached : Bool} {t : Teardown}
        → IsTornDown c.namespaced reached t
        → Move (running e c) (killed reached t) (torn_down e t)
    report :
        {e f : JournalEntry} {t : Teardown}
        → f.action_id ≡ id
        → f.argument_digest ≡ digest
        → Next e.state f.state
        → f.state ≡ needs_reconciliation
        → f.teardown ≡ some (teardown_name t)
        → Move (torn_down e t) (recorded f) (torn_down f t)

  pub data Follows : Phase → List Event → Phase → Type 0 where
    stay : {p : Phase} → Follows p [] p
    step :
        {p q r : Phase} {e : Event} {es : List Event}
        → Follows p es q
        → Move q e r
        → Follows p (es ++ e ∷ []) r

lookup-insert :
    (id : String) (e : JournalEntry) (es : Entries) → lookup id (insert id e es) ≡ some e
lookup-insert id e [] = ground (arith, eq_refl id)
lookup-insert id e ((k, old) ∷ es) = ground (arith, lookup-insert id e es, eq_refl id)

pub lookup_inserted :
    (id : String) (e : JournalEntry) (es : Entries)
    → e.action_id ≡ id
    → lookup id (insert e.action_id e es) ≡ some e
lookup_inserted id e es same =
    subst (λ x. lookup x (insert e.action_id e es) ≡ some e) same (lookup-insert e.action_id e es)

module _ (s : ActionJournal) (id digest : String) (MayRun : Child → Type 0) where
  -- The action has come to a phase since the journal was `s`, and its entry there is the latest.
  abbrev pub IsLatest : Phase → Entries → Type 0
  IsLatest idle entries = Unit {0}
  IsLatest (journal_holds e) entries =
      (lookup id entries ≡ some e) × (e.action_id ≡ id) × (e.argument_digest ≡ digest)
  IsLatest (running e c) entries =
      (lookup id entries ≡ some e) × (e.action_id ≡ id) × (e.argument_digest ≡ digest)
  IsLatest (torn_down e t) entries =
      (lookup id entries ≡ some e) × (e.action_id ≡ id) × (e.argument_digest ≡ digest)

  abbrev pub At : Phase → ActionJournal → Type 0
  At p j =
      (t : List Event) × ((j.trace ≡ s.trace ++ t)
        × (Follows id digest MayRun idle t p)
        × IsLatest p j.entries)

  -- A phase in which each child was waited for, or its teardown was tried.
  abbrev pub NotRunning : Phase → Type 0
  NotRunning idle = Unit {0}
  NotRunning (journal_holds e) = Unit {0}
  NotRunning (running e c) = ⊥
  NotRunning (torn_down e t) = Unit {0}

  abbrev pub AtRest : ActionJournal → Type 0
  AtRest j = (p : Phase) × (NotRunning p × At p j)

  module _ (serde : Serde) (writes : ℕ → Written) where
    pub append-At :
        (p q : Phase) (e : JournalEntry) (w : Written) (file : Bytes) (n : ℕ) (j : ActionJournal)
        → NotRunning p
        → At p j
        → Move id digest MayRun p (recorded e) q
        → ((entries : Entries) → IsLatest (journal_holds e) entries → IsLatest q entries)
        → e.action_id ≡ id
        → e.argument_digest ≡ digest
        → After
            (λ _ k. At q k)
            AtRest
            (appended serde writes w e (record j { file = file; appends = n }))
    append-At p q e (not_opened x) file n j rest at move fits same d = (p, (rest, at))
    append-At p q e (cut m x) file n j rest at move fits same d = (p, (rest, at))
    append-At p q e (unsynced x) file n j rest at move fits same d = (p, (rest, at))
    append-At p q e whole file n j rest (t, (traced, follows, latest)) move fits same d = (
      t ++ recorded e ∷ [],
      (
        ap (λ l. l ++ recorded e ∷ []) traced ∙ append_assoc s.trace t (recorded e ∷ []),
        step follows move,
        fits _ (lookup_inserted id e j.entries same, same, d),
      ),
    )

    -- An operation that appends a change of the action's entry.
    pub update-At :
        (e : JournalEntry) (f : JournalEntry → JournalEntry) (j : ActionJournal)
        → At (journal_holds e) j
        → Next e.state (f e).state
        → (f e).action_id ≡ e.action_id
        → (f e).argument_digest ≡ e.argument_digest
        → After (λ _ k. At (journal_holds (f e)) k) AtRest (update serde writes id f j)
    update-At e f j (t, (traced, follows, (latest, same, d))) moves kept kept_digest = rw latest (
        append-At (journal_holds e) (journal_holds (f e)) (f e) (writes j.appends) _ _ j tt
          (t, (traced, follows, (latest, same, d))) (advance (kept ∙ same) (kept_digest ∙ d) moves)
          (λ _ x. x) (kept ∙ same) (kept_digest ∙ d))

    -- The report of what a teardown achieved.
    pub report-At :
        (e : JournalEntry) (f : JournalEntry → JournalEntry) (teardown : Teardown)
        (j : ActionJournal)
        → At (torn_down e teardown) j
        → Next e.state (f e).state
        → (f e).state ≡ needs_reconciliation
        → (f e).teardown ≡ some (teardown_name teardown)
        → (f e).action_id ≡ e.action_id
        → (f e).argument_digest ≡ e.argument_digest
        → After (λ _ k. At (torn_down (f e) teardown) k) AtRest (update serde writes id f j)
    report-At e f teardown j (t, (traced, follows, (latest, same, d))) moves unsettled told kept
          kept_digest =
        rw latest (
          append-At (torn_down e teardown) (torn_down (f e) teardown) (f e) (writes j.appends) _ _ j
            tt (t, (traced, follows, (latest, same, d)))
            (report (kept ∙ same) (kept_digest ∙ d) moves unsettled told) (λ _ x. x) (kept ∙ same)
            (kept_digest ∙ d))

    pub journal_error-At :
        (system : System) (what : String) (Q : Unit {0} → ActionJournal → Type 0)
        (E : ActionJournal → Type 0) (r : ActionJournal × Result String (Unit {0}))
        → After Q E r
        → After Q E (journal_error system what r)
    journal_error-At system what Q E (j, ok u) h = h
    journal_error-At system what Q E (j, err e) h = h
