-- ===== src/Runner/Tests.antt =====
-- Runs of crates/vitna-runner on small systems, and the theorems there.
use vitna_code.Base.{
  ℕ, zero, suc, String, Bool, true, false, ◌≡◌, refl, Option, none, some, List, [], ◌∷◌, map, ok,
}
use vitna_code.Base.Print.{to_string}
use vitna_code.Bytes.{Bytes}
use vitna_code.Engine.Execute.{pos}
use vitna_code.Sandbox.{
  Machine, linux, windows, System, plan, protected_subpaths, generate_linux_bwrap_args,
}
use vitna_code.Runner.{
  teardown_name, System as Outside, CommandRequest, Waited, ended, timed_out, run_command,
  sandbox_status,
}
use vitna_code.Runner.Journal.{
  ActionState, prepared, started, refused, JournalEntry, Event, recorded, spawned, exited, killed,
  Written, whole, cut, Serde, ActionJournal, lines, read_log, open_journal, reconcile_all,
  reconcile_crashed_actions, append_entry,
}
use vitna_code.Runner.Reopens.{IsReadBack, Reopens, append_entry-Reopens, read_log_cut}

-- One entry, written as the byte 7.
abbrev entry : JournalEntry
entry = record {
  action_id = "act-5";
  argument_digest = "ls";
  state = prepared;
  prepared_at_ms = 1;
  started_at_ms = none;
  finished_at_ms = none;
  exit_code = none;
  stdout_digest = none;
  stderr_digest = none;
  sandbox_backend = none;
  sandbox_enforcement = none;
  termination = none;
  teardown = none;
}

abbrev read : Bytes → Option JournalEntry
read [] = none
read (b ∷ []) = some entry
read (b ∷ c ∷ bytes) = none

abbrev serde : Serde
serde = record { to_string = λ e. 7 ∷ []; from_str = read; is_utf8 = λ b. true }

abbrev machine : System → Machine
machine system = record {
  system = system;
  bwrap_probe = ok tt;
  seatbelt_probe = ok tt;
  exists = λ path. false;
  is_dir = λ path. false;
  canonicalize = λ path. path;
  hex_sha256 = λ text. text;
}

abbrev outside : System → Waited → Outside
outside system waited = record {
  serde = serde;
  writes = λ n. whole;
  machine = machine system;
  now_nanos = 5;
  now_ms = 1;
  hex_sha256 = λ text. text;
  path_variable = none;
  spawn = λ c. none;
  wait = λ c n. waited;
  group_killed = λ c. true;
  stdout = λ c. "out";
  stderr = λ c. "";
  duration_ms = 3;
}

abbrev request : Bool → CommandRequest
request allowed = record {
  command = "ls";
  working_dir = "/w";
  workspace_root = "/w";
  timeout_ms = 10;
  allow_unsandboxed = allowed;
  allow_network = false;
}

abbrev empty : ActionJournal
empty = record { file = []; entries = []; appends = 0; trace = [] }

-- What kind each event of a trace is.
abbrev kind : Event → String
kind (recorded e) = state_name e.state
  where
    state_name : ActionState → String
    state_name prepared = "prepared"
    state_name started = "started"
    state_name refused = "refused"
    state_name other = "other"
kind (spawned c) = c.backend
kind exited = "exited"
kind (killed reached t) = teardown_name t

abbrev kinds : Outside → CommandRequest → List String
kinds system r = map kind (run_command system r empty).0.trace

finished_run :
    kinds (outside linux (ended (some (pos 0)))) (request false)
    ≡ "prepared" ∷ "started" ∷ "started" ∷ "bubblewrap" ∷ "exited" ∷ "other" ∷ "other" ∷ []
unfolding to_string run_command plan protected_subpaths generate_linux_bwrap_args
finished_run = refl

timed_out_run :
    kinds (outside linux timed_out) (request false)
    ≡ "prepared" ∷ "started" ∷ "started" ∷ "bubblewrap" ∷ "process_tree_terminated" ∷ "other" ∷ []
unfolding to_string run_command plan protected_subpaths generate_linux_bwrap_args
timed_out_run = refl

refused_run : kinds (outside windows timed_out) (request false) ≡ "prepared" ∷ "refused" ∷ []
unfolding to_string run_command plan
refused_run = refl

allowed_run :
    kinds (outside windows (ended none)) (request true)
    ≡ "prepared" ∷ "started" ∷ "started" ∷ "none" ∷ "exited" ∷ "other" ∷ "other" ∷ []
unfolding to_string run_command plan
allowed_run = refl

status : sandbox_status (outside linux timed_out) "/w" false ≡ ok ("bubblewrap", "fallback")
unfolding sandbox_status plan
status = refl

-- A started action is reconciled.
reconciled :
    (reconcile_crashed_actions serde
      (λ n. whole)
      (record empty { entries = ("act-5", record entry { state = started }) ∷ [] })).1
    ≡ ok ("act-5" ∷ [])
unfolding reconcile_crashed_actions reconcile_all
reconciled = refl

reopened :
    open_journal serde (7 ∷ 10 ∷ 32 ∷ 10 ∷ 7 ∷ 7 ∷ 10 ∷ [])
    ≡ ok (record {
      file = 7 ∷ 10 ∷ 32 ∷ 10 ∷ 7 ∷ 7 ∷ 10 ∷ [];
      entries = ("act-5", entry) ∷ [];
      appends = 0;
      trace = [];
    })
unfolding open_journal read_log lines
reopened = refl

read_back : IsReadBack serde entry
read_back = record { read_back = refl; one_line = (refl, tt); not_blank = refl; text = refl }

-- The journal that holds the entry, and its file.
abbrev held : ActionJournal
held = record { file = 7 ∷ 10 ∷ []; entries = ("act-5", entry) ∷ []; appends = 0; trace = [] }

held-Reopens : Reopens serde held
unfolding open_journal read_log lines
held-Reopens = (refl, refl)

append_entry-Reopens_example : Reopens serde (append_entry serde (λ n. whole) entry held).0
append_entry-Reopens_example =
    append_entry-Reopens serde (λ n. whole) held entry read_back held-Reopens refl

-- The first append is cut after one byte.
abbrev cut_first : ℕ → Written
cut_first zero = cut 1 "no space left on device"
cut_first (suc n) = whole

held_log : read_log serde held.file ≡ ok (entry ∷ [])
unfolding read_log lines
held_log = refl

read_log_cut_example :
    read_log serde
      (append_entry serde cut_first entry (append_entry serde cut_first entry held).0).0.file
    ≡ ok (entry ∷ [])
read_log_cut_example =
    read_log_cut serde cut_first held entry entry 1 "no space left on device" (entry ∷ []) read_back
      refl held_log refl refl (refl, tt) refl refl
