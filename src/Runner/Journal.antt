-- ===== src/Runner/Journal.antt =====
-- `ActionJournal` of crates/vitna-runner/src/journal.rs. Its file is the bytes of it, with what
-- each append achieves as an answer from outside; `trace` notes in order the entries that reached
-- the file whole, and what the runner did with processes.
use vitna_code.Base.{
  take, ℕ, suc, String, Bool, true, false, ◌||◌, ◌&&◌, Option, none, some, List, [], ◌∷◌, ◌++◌,
  ◌==◌, Result, ok, err, nat_eq, leb, if◌then◌else◌,
}
use vitna_code.Base.Steps.{Step, ◌>>=◌, ◌>>◌, done, fail, get, modify, lift}
use vitna_code.Bytes.{Bytes}
use vitna_code.Engine.Execute.{ℤ}

pub data ActionState : Type 0 where
  prepared : ActionState
  started : ActionState
  finished : ActionState
  acknowledged : ActionState
  needs_reconciliation : ActionState
  refused : ActionState

pub record JournalEntry : Type 0 where
  pub action_id : String
  pub argument_digest : String
  pub state : ActionState
  pub prepared_at_ms : ℕ
  pub started_at_ms : Option ℕ
  pub finished_at_ms : Option ℕ
  pub exit_code : Option ℤ
  pub stdout_digest : Option String
  pub stderr_digest : Option String
  pub sandbox_backend : Option String
  pub sandbox_enforcement : Option String
  pub termination : Option String
  pub teardown : Option String

-- A child process, as it is spawned.
pub record Child : Type 0 where
  pub program : String
  pub args : List String
  pub env : List (String × String)
  pub current_dir : String
  pub backend : String
  pub enforcement : String
  pub namespaced : Bool

-- `Teardown` of crates/vitna-runner/src/tree.rs.
pub data Teardown : Type 0 where
  complete : Teardown
  partial : Teardown
  failed : Teardown

-- `exited` is of the child itself. `killed` is with whether the signal reached the child's process
-- group, and what the teardown is reported to have achieved.
pub data Event : Type 0 where
  recorded : JournalEntry → Event
  spawned : Child → Event
  exited : Event
  killed : Bool → Teardown → Event

-- What an append achieves: nothing, some bytes, all of them but not on the disk for sure, or all.
pub data Written : Type 0 where
  not_opened : String → Written
  cut : ℕ → String → Written
  unsynced : String → Written
  whole : Written

-- serde_json on an entry, and the test that bytes are a text.
pub record Serde : Type 0 where
  pub to_string : JournalEntry → Bytes
  pub from_str : Bytes → Option JournalEntry
  pub is_utf8 : Bytes → Bool

abbrev pub Entries : Type 0
Entries = List (String × JournalEntry)

pub record ActionJournal : Type 0 where
  pub file : Bytes
  pub entries : Entries
  pub appends : ℕ
  pub trace : List Event

abbrev pub lookup : String → Entries → Option JournalEntry
lookup id [] = none
lookup id ((k, e) ∷ entries) = let rest = lookup id entries in if k == id then some e else rest

abbrev pub insert : String → JournalEntry → Entries → Entries
insert id e [] = (id, e) ∷ []
insert id e ((k, old) ∷ entries) =
    let rest = insert id e entries in if k == id then (id, e) ∷ entries else (k, old) ∷ rest

abbrev pub push_byte : ℕ → List Bytes → List Bytes
push_byte b [] = (b ∷ []) ∷ []
push_byte b (line ∷ lines) = (b ∷ line) ∷ lines

-- What the operations change in an action's entry.
abbrev pub as_confined : String → String → JournalEntry → JournalEntry
as_confined backend enforcement e = record e {
  sandbox_backend = some backend;
  sandbox_enforcement = some enforcement;
}

abbrev pub as_refused : String → ℕ → JournalEntry → JournalEntry
as_refused reason timestamp_ms e = record e {
  state = refused;
  finished_at_ms = some timestamp_ms;
  termination = some reason;
}

abbrev pub as_interrupted : String → String → ℕ → JournalEntry → JournalEntry
as_interrupted reason teardown timestamp_ms e = record e {
  state = needs_reconciliation;
  finished_at_ms = some timestamp_ms;
  termination = some reason;
  teardown = some teardown;
}

abbrev pub as_started : ℕ → JournalEntry → JournalEntry
as_started timestamp_ms e = record e { state = started; started_at_ms = some timestamp_ms }

abbrev pub as_finished : ℤ → String → String → ℕ → JournalEntry → JournalEntry
as_finished exit_code stdout_digest stderr_digest timestamp_ms e = record e {
  state = finished;
  finished_at_ms = some timestamp_ms;
  exit_code = some exit_code;
  stdout_digest = some stdout_digest;
  stderr_digest = some stderr_digest;
}

abbrev pub as_acknowledged : JournalEntry → JournalEntry
as_acknowledged e = record e { state = acknowledged }

-- `BufRead::lines`. A carriage return stays at the end of its line, where JSON reads over it.
unfoldable pub lines : Bytes → List Bytes
lines [] = []
lines (b ∷ bytes) = let rest = lines bytes in if nat_eq b 10 then [] ∷ rest else push_byte b rest

abbrev is_space : ℕ → Bool
is_space b = nat_eq b 32 || (leb 9 b && leb b 13)

abbrev pub is_blank : Bytes → Bool
is_blank [] = true
is_blank (b ∷ line) = is_space b && is_blank line

abbrev pub push_entry : Option JournalEntry → List JournalEntry → List JournalEntry
push_entry none rest = rest
push_entry (some e) rest = e ∷ rest

module _ (serde : Serde) where
  abbrev pub next_line :
      Bytes → Result String (List JournalEntry) → Result String (List JournalEntry)
  next_line line (err e) = err e
  next_line line (ok rest) =
      ok (if is_blank line then rest else push_entry (serde.from_str line) rest)

  -- The loop of `read_log` and of `open`: a line that is no entry is passed over.
  abbrev pub read_lines : List Bytes → Result String (List JournalEntry)
  read_lines [] = ok []
  read_lines (line ∷ more) =
      let rest = read_lines more in
      if serde.is_utf8 line then next_line line rest else err "stream did not contain valid UTF-8"

  unfoldable pub read_log : Bytes → Result String (List JournalEntry)
  read_log file = read_lines (lines file)

  abbrev pub insert_all : List JournalEntry → Entries → Entries
  insert_all [] entries = entries
  insert_all (e ∷ log) entries = insert_all log (insert e.action_id e entries)

  abbrev pub opened : Bytes → Result String (List JournalEntry) → Result String ActionJournal
  opened file (err e) = err e
  opened file (ok log) =
      ok (record { file = file; entries = insert_all log []; appends = 0; trace = [] })

  unfoldable pub open_journal : Bytes → Result String ActionJournal
  open_journal file = opened file (read_log file)

  module _ (writes : ℕ → Written) where
    abbrev pub line_of : JournalEntry → Bytes
    line_of e = serde.to_string e ++ 10 ∷ []

    -- The file behind an append, whatever it achieved.
    abbrev pub file_after : Written → JournalEntry → Bytes → Bytes
    file_after (not_opened e) entry file = file
    file_after (cut n e) entry file = file ++ take n (line_of entry)
    file_after (unsynced e) entry file = file ++ line_of entry
    file_after whole entry file = file ++ line_of entry

    abbrev pub appended : Written → JournalEntry → Step ActionJournal (Unit {0})
    appended (not_opened e) entry = fail e
    appended (cut n e) entry = fail e
    appended (unsynced e) entry = fail e
    appended whole entry = modify (λ j. record j {
      entries = insert entry.action_id entry j.entries;
      trace = j.trace ++ recorded entry ∷ [];
    })

    abbrev pub append_entry : JournalEntry → Step ActionJournal (Unit {0})
    append_entry entry j =
        appended (writes j.appends) entry
          (record j { file = file_after (writes j.appends) entry j.file; appends = suc j.appends })

    abbrev pub found : Option JournalEntry → Result String JournalEntry
    found none = err "action not found"
    found (some e) = ok e

    -- `entries.get(action_id).cloned()`, a change of the clone, and its append.
    abbrev pub update : String → (JournalEntry → JournalEntry) → Step ActionJournal (Unit {0})
    update action_id f = do
      j ← get
      e ← lift (found (lookup action_id j.entries))
      append_entry (f e)

    abbrev pub prepared_entry : String → String → ℕ → JournalEntry
    prepared_entry action_id argument_digest timestamp_ms = record {
      action_id = action_id;
      argument_digest = argument_digest;
      state = prepared;
      prepared_at_ms = timestamp_ms;
      started_at_ms = none;
      finished_at_ms = none;
      exit_code = none;
      stdout_digest = none;
      stderr_digest = none;
      sandbox_backend = none;
      sandbox_enforcement = none;
      termination = none;
      teardown = none;
    }

    abbrev pub record_prepared : String → String → ℕ → Step ActionJournal (Unit {0})
    record_prepared action_id argument_digest timestamp_ms =
        append_entry (prepared_entry action_id argument_digest timestamp_ms)

    abbrev pub record_sandbox : String → String → String → Step ActionJournal (Unit {0})
    record_sandbox action_id backend enforcement =
        update action_id (as_confined backend enforcement)

    abbrev pub record_refused : String → String → ℕ → Step ActionJournal (Unit {0})
    record_refused action_id reason timestamp_ms = update action_id (as_refused reason timestamp_ms)

    abbrev pub record_interrupted : String → String → String → ℕ → Step ActionJournal (Unit {0})
    record_interrupted action_id reason teardown timestamp_ms =
        update action_id (as_interrupted reason teardown timestamp_ms)

    abbrev pub record_started : String → ℕ → Step ActionJournal (Unit {0})
    record_started action_id timestamp_ms = update action_id (as_started timestamp_ms)

    abbrev pub record_finished : String → ℤ → String → String → ℕ → Step ActionJournal (Unit {0})
    record_finished action_id exit_code stdout_digest stderr_digest timestamp_ms =
        update action_id (as_finished exit_code stdout_digest stderr_digest timestamp_ms)

    abbrev pub record_acknowledged : String → Step ActionJournal (Unit {0})
    record_acknowledged action_id = update action_id as_acknowledged

    abbrev pub query_action : String → ActionJournal → Option JournalEntry
    query_action action_id j = lookup action_id j.entries

    abbrev pub is_open : ActionState → Bool
    is_open prepared = true
    is_open started = true
    is_open finished = false
    is_open acknowledged = false
    is_open needs_reconciliation = false
    is_open refused = false

    abbrev pub unacknowledged : Entries → List JournalEntry
    unacknowledged [] = []
    unacknowledged ((k, e) ∷ entries) =
        let rest = unacknowledged entries in if is_open e.state then e ∷ rest else rest

    -- The loop of `reconcile_crashed_actions`, with the ids it has reconciled.
    unfoldable pub reconcile_all :
        List JournalEntry → List String → Step ActionJournal (List String)
    reconcile_all [] reconciled = done reconciled
    reconcile_all (e ∷ more) reconciled = do
      append_entry (record e { state = needs_reconciliation })
      reconcile_all more (reconciled ++ e.action_id ∷ [])

    unfoldable pub reconcile_crashed_actions : Step ActionJournal (List String)
    reconcile_crashed_actions j = reconcile_all (unacknowledged j.entries) [] j
