-- ===== src/Ledger/Routines.antt =====
-- `one` and `read` of crates/app-server/src/routines.rs. The folder is a record: what stands at a
-- path, whether a lock is held, and what serde_json reads in a definition.
use vitna_code.Base.{
  ℕ, ◌-◌, String, Bool, Option, none, some, List, [], ◌∷◌, length, take, Result, ok, err,
  if◌then◌else◌,
}
use vitna_code.Bytes.{Bytes}
use vitna_code.Paths.{chars}
use vitna_code.Sandbox.{join_path}
use vitna_code.Ledger.{
  Unread, missing, not_a_file, too_large, reply_full, not_text, unreadable, Found, text, routine_id,
}

abbrev pub max_definitions : ℕ
max_definitions = 64

abbrev pub max_definition_bytes : ℕ
max_definition_bytes = 262144

abbrev pub max_receipt_bytes : ℕ
max_receipt_bytes = 12582912

abbrev pub max_reply_bytes : ℕ
max_reply_bytes = 50331648

-- A lock that was taken at a time, none, or one that cannot be told.
pub data Lock : Type 0 where
  taken_at : ℕ → Lock
  free : Lock
  unknown : Lock

-- The text members `id` and `stateDirectory` of a definition, where it has them.
pub record Named : Type 0 where
  pub id : Option String
  pub state_directory : Option String

pub record Folder : Type 0 where
  pub found : String → Found
  pub locked : String → Lock
  pub is_utf8 : Bytes → Bool
  pub parsed : Bytes → Option Named
  pub is_absolute : String → Bool

pub record Row : Type 0 where
  pub file : String
  pub definition : Option Bytes
  pub receipts : Option Bytes
  pub locked_at_ms : Option ℕ
  pub problem : Option (String × String)

abbrev pub empty_row : String → Row
empty_row name = record {
  file = name;
  definition = none;
  receipts = none;
  locked_at_ms = none;
  problem = none;
}

abbrev definition_problem : Unread → String × String
definition_problem too_large =
    ("too_large", "This definition is larger than 256 KiB, so it was not read.")
definition_problem reply_full =
    ("reply_full", "The routines before it filled the reply, so it was not read.")
definition_problem not_text = ("not_text", "This file is not UTF-8 text.")
definition_problem missing = ("unreadable", "vitna app could not read this file.")
definition_problem not_a_file = ("unreadable", "vitna app could not read this file.")
definition_problem unreadable = ("unreadable", "vitna app could not read this file.")

abbrev receipts_problem : Unread → String × String
receipts_problem too_large =
    ("receipts_too_large", "Its receipts are larger than 12 MiB, so they were not read.")
receipts_problem reply_full =
    ("reply_full", "The routines before it filled the reply, so its receipts were not read.")
receipts_problem not_text = ("receipts_not_text", "Its receipts are not UTF-8 text.")
receipts_problem missing = ("receipts_unreadable", "vitna app could not read its receipts.")
receipts_problem not_a_file = ("receipts_unreadable", "vitna app could not read its receipts.")
receipts_problem unreadable = ("receipts_unreadable", "vitna app could not read its receipts.")

abbrev pub with_lock : Lock → Row → Row
with_lock (taken_at ms) row = record row { locked_at_ms = some ms }
with_lock free row = row
with_lock unknown row = record row {
  receipts = none;
  problem = some ("lock_unreadable", "vitna app could not tell whether its lock is held.");
}

abbrev pub with_receipts : Lock → Row → ℕ → Result Unread (Bytes × ℕ) → Row × ℕ
with_receipts lock row budget (ok (bytes, left)) =
    (with_lock lock (record row { receipts = some bytes }), left)
with_receipts lock row budget (err missing) =
    (with_lock lock (record row { receipts = some [] }), budget)
with_receipts lock row budget (err not_a_file) =
    (record row { problem = some (receipts_problem not_a_file) }, budget)
with_receipts lock row budget (err too_large) =
    (record row { problem = some (receipts_problem too_large) }, budget)
with_receipts lock row budget (err reply_full) =
    (record row { problem = some (receipts_problem reply_full) }, budget)
with_receipts lock row budget (err not_text) =
    (record row { problem = some (receipts_problem not_text) }, budget)
with_receipts lock row budget (err unreadable) =
    (record row { problem = some (receipts_problem unreadable) }, budget)

abbrev pub no_state : Row → Row
no_state row = record row {
  problem = some (
    "no_state",
    "This definition names no routine id and absolute stateDirectory, so it has no receipts to read.",
  );
}

module _ (folder : Folder) where
  abbrev valid_id : Option String → Option String
  valid_id none = none
  valid_id (some id) = if routine_id (chars id) then some id else none

  abbrev valid_state : Option String → Option String
  valid_state none = none
  valid_state (some state) = if folder.is_absolute state then some state else none

  abbrev pub in_state : Row → ℕ → Option String → Option String → Row × ℕ
  in_state row budget none state = (no_state row, budget)
  in_state row budget (some id) none = (no_state row, budget)
  in_state row budget (some id) (some state) =
      let place = join_path state id in
      with_receipts (folder.locked (join_path place "lock")) row budget (
        text folder.is_utf8 (folder.found (join_path place "receipts.jsonl")) max_receipt_bytes
          budget)

  abbrev pub with_parsed : Row → ℕ → Option Named → Row × ℕ
  with_parsed row budget none =
      (record row { problem = some ("not_json", "This file is not JSON.") }, budget)
  with_parsed row budget (some named) =
      in_state row budget (valid_id named.id) (valid_state named.state_directory)

  abbrev pub with_definition : Row → ℕ → Result Unread (Bytes × ℕ) → Row × ℕ
  with_definition row budget (err unread) =
      (record row { problem = some (definition_problem unread) }, budget)
  with_definition row budget (ok (bytes, left)) =
      with_parsed (record row { definition = some bytes }) left (folder.parsed bytes)

  unfoldable pub one : String → String → ℕ → Row × ℕ
  one name path budget =
      with_definition (empty_row name) budget
        (text folder.is_utf8 (folder.found path) max_definition_bytes budget)

  -- The rows of the files in order, and what is left of the budget.
  unfoldable pub all_rows : List (String × String) → ℕ → List Row × ℕ
  all_rows [] budget = ([], budget)
  all_rows ((name, path) ∷ files) budget =
      let (row, left) = one name path budget in
      let (rows, rest) = all_rows files left in (row ∷ rows, rest)

  -- `read`, of the definitions that stand in the folder, by name.
  unfoldable pub read_routines : List (String × String) → List Row × ℕ
  read_routines files =
      ((all_rows (take max_definitions files) max_reply_bytes).0, length files - max_definitions)
