-- ===== src/Runner.antt =====
-- `ProcessRunner::run_command` of crates/vitna-runner/src/lib.rs, on its journal. What the system
-- answers (the clock, the child, how its tree is torn down) is a record; the system has /bin/sh.
pub mod Journal
pub mod Protocol
pub mod Follows
pub mod Reopens
mod Tests
use Prim.Native.String.{◌++◌ as str_append}
use vitna_code.Base.{
  ℕ, zero, ◌+◌, String, Bool, true, false, not, Option, none, some, List, [], ◌∷◌, ◌++◌, ◌==◌,
  Result, ok, err, if◌then◌else◌,
}
use vitna_code.Base.Steps.{Step, next, ◌>>=◌, ◌>>◌, done, fail, get, modify, lift}
use vitna_code.Base.Print.{to_string}
use vitna_code.Engine.Execute.{ℤ, pos, negsuc}
use vitna_code.Sandbox.{
  SandboxBackend, bubblewrap, seatbelt, app_container, SandboxPlan, SandboxConfig, PlanError,
  Machine, guarded, new, plan, reason, backend_name, enforcement_name,
}
use vitna_code.Runner.Journal.{
  ActionJournal, Serde, Written, Child, Teardown, complete, partial, failed, Event, spawned, exited,
  killed, record_prepared, record_sandbox, record_refused, record_interrupted, record_started,
  record_finished, record_acknowledged,
}

abbrev pub sandbox_unavailable : String
sandbox_unavailable = "sandbox unavailable"

abbrev pub backend_none : String
backend_none = "none"

abbrev pub backend_no_process : String
backend_no_process = "no_process"

pub record ExecutionOutput : Type 0 where
  pub action_id : String
  pub exit_code : ℤ
  pub stdout : String
  pub stderr : String
  pub duration_ms : ℕ
  pub statement_digest : String
  pub sandbox_backend : String
  pub sandbox_enforcement : String

pub record CommandRequest : Type 0 where
  pub command : String
  pub working_dir : String
  pub workspace_root : String
  pub timeout_ms : ℕ
  pub allow_unsandboxed : Bool
  pub allow_network : Bool

abbrev pub teardown_name : Teardown → String
teardown_name complete = "process_tree_terminated"
teardown_name partial = "child_terminated_descendants_unknown"
teardown_name failed = "termination_failed"

-- How the wait for a child ends; a child that a signal ended has no code.
pub data Waited : Type 0 where
  ended : Option ℤ → Waited
  wait_failed : String → Waited
  timed_out : Waited

-- `group_killed` is whether the signal reached the child's process group.
pub record System : Type 0 where
  pub serde : Serde
  pub writes : ℕ → Written
  pub machine : Machine
  pub now_nanos : ℕ
  pub now_ms : ℕ
  pub hex_sha256 : String → String
  pub path_variable : Option String
  pub spawn : Child → Option String
  pub wait : Child → ℕ → Waited
  pub group_killed : Child → Bool
  pub stdout : Child → String
  pub stderr : Child → String
  pub duration_ms : ℕ

-- `kill_tree` on Unix.
abbrev pub kill_tree : Bool → Bool → Teardown
kill_tree group_killed namespaced =
    if not group_killed then failed else if namespaced then complete else partial

abbrev pub code_text : ℤ → String
code_text (pos n) = to_string n
code_text (negsuc n) = str_append "-" (to_string (n + 1))

module _ (system : System) where
  unfoldable pub compute_statement_digest :
      String → String → String → String → String → String → String → String
  compute_statement_digest action_id command exit_code stdout stderr backend enforcement =
      system.hex_sha256 (
        str_append "statement:" (
          str_append action_id (
            str_append ":" (
              str_append command (
                str_append ":" (
                  str_append exit_code (
                    str_append ":" (
                      str_append stdout (
                        str_append ":" (
                          str_append stderr (
                            str_append ":"
                              (str_append backend (str_append ":" enforcement)))))))))))))

  abbrev config_of : String → Bool → SandboxConfig
  config_of workspace_root allow_network = record (new workspace_root guarded) {
    allow_network = allow_network;
  }

  abbrev status_of : Result PlanError SandboxPlan → Result String (String × String)
  status_of (ok p) = ok (backend_name p.backend, enforcement_name p.enforcement)
  status_of (err e) = err (reason e)

  unfoldable pub sandbox_status : String → Bool → Result String (String × String)
  sandbox_status workspace_root allow_network =
      status_of (plan system.machine (config_of workspace_root allow_network) "true" workspace_root)

  -- `base_environment`, not on Windows.
  abbrev base_environment : Option String → List (String × String) → List (String × String)
  base_environment none extra = extra
  base_environment (some path) extra = ("PATH", path) ∷ extra

  abbrev claims : String → String → List (String × String)
  claims backend enforcement =
      if not (backend == backend_none)
      then ("VITNA_SANDBOX", backend) ∷ ("VITNA_SANDBOX_ENFORCEMENT", enforcement) ∷ []
      else []

  abbrev pub child_of :
      String → List String → List (String × String) → String → String → Bool → String → Child
  child_of program args env backend enforcement namespaced dir = record {
    program = program;
    args = args;
    env = base_environment system.path_variable env ++ claims backend enforcement;
    current_dir = dir;
    backend = backend;
    enforcement = enforcement;
    namespaced = namespaced;
  }

  abbrev is_namespaced : SandboxBackend → Bool
  is_namespaced bubblewrap = true
  is_namespaced seatbelt = false
  is_namespaced app_container = false

  abbrev pub confined : CommandRequest → SandboxPlan → Child
  confined request p =
      child_of p.program p.args p.env (backend_name p.backend) (enforcement_name p.enforcement)
        (is_namespaced p.backend) request.working_dir

  abbrev pub unconfined : CommandRequest → Child
  unconfined request =
      child_of "/bin/sh" ("-c" ∷ request.command ∷ []) [] backend_none backend_none false
        request.working_dir

  -- `.map_err(|e| format!("Journal error on ..: {}", e))`
  abbrev pub journal_error :
      String → ActionJournal × Result String (Unit {0}) → ActionJournal × Result String (Unit {0})
  journal_error what (j, ok u) = (j, ok u)
  journal_error what (j, err e) =
      (j, err (str_append "Journal error on " (str_append what (str_append ": " e))))

  abbrev pub journaled : String → Step ActionJournal (Unit {0}) → Step ActionJournal (Unit {0})
  journaled what m j = journal_error what (m j)

  abbrev pub note : Event → Step ActionJournal (Unit {0})
  note e = modify (λ j. record j { trace = j.trace ++ e ∷ [] })

  abbrev pub output_of : CommandRequest → String → Child → ℤ → String → ExecutionOutput
  output_of request action_id child exit_code shown_code = record {
    action_id = action_id;
    exit_code = exit_code;
    stdout = system.stdout child;
    stderr = system.stderr child;
    duration_ms = system.duration_ms;
    statement_digest =
        compute_statement_digest action_id request.command shown_code (system.stdout child)
          (system.stderr child) child.backend child.enforcement;
    sandbox_backend = child.backend;
    sandbox_enforcement = child.enforcement;
  }

  -- `status.code().unwrap_or(-1)`
  abbrev pub code_of : Option ℤ → ℤ
  code_of none = negsuc zero
  code_of (some code) = code

  -- The end of a command that finished.
  abbrev pub finish : CommandRequest → String → Child → ℤ → Step ActionJournal ExecutionOutput
  finish request action_id child exit_code = do
    journaled "finished" (
        record_finished system.serde system.writes action_id exit_code
          (system.hex_sha256 (system.stdout child)) (system.hex_sha256 (system.stderr child))
          (system.now_ms + system.duration_ms))
    journaled "acknowledged" (record_acknowledged system.serde system.writes action_id)
    done (output_of request action_id child exit_code (code_text exit_code))

  abbrev pub teardown_of : Child → String
  teardown_of child = teardown_name (kill_tree (system.group_killed child) child.namespaced)

  -- A command that is stopped: its tree is torn down before anything is reported.
  abbrev pub interrupt :
      String → Child → String → String → ℕ → String → Step ActionJournal ExecutionOutput
  interrupt action_id child what termination at message = do
    note (
        killed (system.group_killed child) (kill_tree (system.group_killed child) child.namespaced))
    journaled what
        (record_interrupted system.serde system.writes action_id termination (teardown_of child) at)
    fail message

  abbrev pub after_wait :
      CommandRequest → String → Child → Waited → Step ActionJournal ExecutionOutput
  after_wait request action_id child (ended code) = do
    note exited
    finish request action_id child (code_of code)
  after_wait request action_id child (wait_failed e) =
      interrupt action_id child "wait failure" "wait_failed" system.now_ms
        (str_append "Command wait failed: " e)
  after_wait request action_id child timed_out =
      interrupt action_id child "timeout" "timeout" (system.now_ms + system.duration_ms) (
        str_append "Command timed out after " (
          str_append (to_string request.timeout_ms)
            (str_append " ms (" (str_append (teardown_of child) ")"))))

  abbrev pub after_spawn :
      CommandRequest → String → Child → Option String → Step ActionJournal ExecutionOutput
  after_spawn request action_id child (some e) = do
    journaled "spawn failure"
        (record_refused system.serde system.writes action_id "spawn_failed" system.now_ms)
    fail (str_append "Command spawn failed: " e)
  after_spawn request action_id child none = do
    note (spawned child)
    after_wait request action_id child (system.wait child request.timeout_ms)

  -- A command whose isolation is decided.
  abbrev pub start : CommandRequest → String → Child → Step ActionJournal ExecutionOutput
  start request action_id child = do
    journaled "started" (record_started system.serde system.writes action_id system.now_ms)
    journaled "sandbox"
        (record_sandbox system.serde system.writes action_id child.backend child.enforcement)
    after_spawn request action_id child (system.spawn child)

  abbrev pub refuse : String → String → Step ActionJournal ExecutionOutput
  refuse action_id why = do
    journaled "refused"
        (record_refused system.serde system.writes action_id "sandbox_unavailable" system.now_ms)
    fail (
        str_append sandbox_unavailable (
          str_append ": " (
            str_append why
              ". Running this command without an OS sandbox needs explicit approval; a general auto-approve does not grant it.")))

  abbrev pub unless_allowed :
      Bool → CommandRequest → String → PlanError → Step ActionJournal ExecutionOutput
  unless_allowed true request action_id e = start request action_id (unconfined request)
  unless_allowed false request action_id e = refuse action_id (reason e)

  abbrev pub with_plan :
      CommandRequest → String → Result PlanError SandboxPlan → Step ActionJournal ExecutionOutput
  with_plan request action_id (ok p) = start request action_id (confined request p)
  with_plan request action_id (err e) = unless_allowed request.allow_unsandboxed request action_id e

  abbrev pub plan_of : CommandRequest → Result PlanError SandboxPlan
  plan_of request =
      plan system.machine (config_of request.workspace_root request.allow_network) request.command
        request.working_dir

  abbrev pub action_id_of : String
  action_id_of = str_append "act-" (to_string system.now_nanos)

  unfoldable pub run_command : CommandRequest → Step ActionJournal ExecutionOutput
  run_command request = do
    journaled "prepared" (
        record_prepared system.serde system.writes action_id_of (system.hex_sha256 request.command)
          system.now_ms)
    with_plan request action_id_of (plan_of request)
