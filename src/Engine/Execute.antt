-- ===== src/Engine/Execute.antt =====
-- `execute_task_step` of crates/orchestration/src/engine.rs. The tools, the context assembler and
-- the runner are interfaces of other crates; what a tool or the sandbox answers may change over
-- time, so it depends on `ticks`.
use Prim.Native.String.{◌++◌ as str_append}
use vitna_code.Base.{
  ℕ, ◌+◌, String, Bool, true, false, ◌&&◌, ◌||◌, Option, none, some, List, [], ◌∷◌, ◌++◌, ◌==◌,
  Result, ok, err, length, if◌then◌else◌,
}
use vitna_code.Base.Steps.{Step, ◌>>=◌, done, fail, get, modify, lift}
use vitna_code.Base.Print.{to_string, join}
use vitna_code.Bytes.{as_bytes}
use vitna_code.Receipts.{RunnerExecutionStatementRecord}
use vitna_code.Receipts.Merkle.{zeros}
use vitna_code.Engine.{
  Json, null, boolean, number, text, object, Members, end, member, ContextMessage, Engine, World,
  record_event,
}

pub data StepType : Type 0 where
  inspect_workspace : StepType
  propose_edit : String → String → StepType
  run_verification : String → StepType

-- An i32.
pub data ℤ : Type 0 where
  pos : ℕ → ℤ
  negsuc : ℕ → ℤ

pub record ToolResult : Type 0 where
  pub call_id : String
  pub tool_name : String
  pub success : Bool
  pub output : String
  pub preimage_hash : Option String
  pub postimage_hash : Option String
  pub diff : Option String
  pub exit_code : Option ℤ
  pub sandbox_backend : Option String
  pub sandbox_enforcement : Option String

pub record ToolContext : Type 0 where
  pub workspace_root : String
  pub allow_unsandboxed : Bool
  pub allow_network : Bool

pub record Tool : Type 0 where
  pub compute_action_digest : Json → String
  pub execute : ℕ → Json → ToolContext → Result String ToolResult

pub record AssembledContext : Type 0 where
  pub context_digest : String
  pub estimated_tokens : ℕ

-- What the engine holds besides its state: the registry, the assembler and the runner.
pub record Parts : Type 0 where
  pub world : World
  pub tool : String → Option Tool
  pub assemble : String → List ContextMessage → String → AssembledContext
  pub spawns_processes : Bool
  pub sandbox_status : ℕ → String → Bool → Result String (String × String)

-- Step 2: the name of the tool, its arguments, and whether it changes anything.
unfoldable pub dispatch : StepType → String × Json × Bool
dispatch inspect_workspace = ("list_dir", object (member "path" (text ".") end), false)
dispatch (propose_edit path content) =
    ("write_file", object (member "path" (text path) (member "content" (text content) end)), true)
dispatch (run_verification command) =
    ("run_command", object (member "command" (text command) end), true)

-- `args.get(key).and_then(|v| v.as_str())`
abbrev as_str : Json → Option String
as_str (text s) = some s
as_str null = none
as_str (boolean b) = none
as_str (number n) = none
as_str (object ms) = none

abbrev find_member : String → Members → Option String
find_member key end = none
find_member key (member k v more) =
    let rest = find_member key more in if k == key then as_str v else rest

abbrev pub text_at : String → Json → Option String
text_at key (object ms) = find_member key ms
text_at key (text s) = none
text_at key null = none
text_at key (boolean b) = none
text_at key (number n) = none

abbrev optional : Option String → Json
optional none = null
optional (some s) = text s

-- A change whose hashes and path are known.
abbrev pub push_modification : Option String → Option String → Option String → Engine → Engine
push_modification none post path e = e
push_modification (some pre) none path e = e
push_modification (some pre) (some post) none e = e
push_modification (some pre) (some post) (some path) e = record e {
  changeset_modifications =
      e.changeset_modifications
      ++ record { path = path; preimage_hash = pre; postimage_hash = post } ∷ [];
}

abbrev pub push_diff : Option String → Engine → Engine
push_diff none e = e
push_diff (some diff) e = record e { accumulated_diffs = e.accumulated_diffs ++ diff ∷ [] }

abbrev pub push_statement : Option ℤ → RunnerExecutionStatementRecord → Engine → Engine
push_statement none statement e = e
push_statement (some exit_code) statement e = record e {
  runner_statements = e.runner_statements ++ statement ∷ [];
}

-- `backend == Some(BACKEND_NONE)`
abbrev pub is_none_backend : Option String → Bool
is_none_backend none = false
is_none_backend (some b) = b == "none"

unfoldable pub ran_unsandboxed : List RunnerExecutionStatementRecord → Bool
ran_unsandboxed [] = false
ran_unsandboxed (s ∷ statements) = is_none_backend s.sandbox_backend || ran_unsandboxed statements

unfoldable pub observed_isolation_label : Engine → String
observed_isolation_label e =
    if ran_unsandboxed e.runner_statements then "full_access" else e.config.sandbox_guarantee

module _ (p : Parts) where
  -- `hex::encode(Sha256::digest(..))`
  abbrev pub digest : String → String
  digest s = p.world.crypto.hex_encode (p.world.crypto.sha256 (as_bytes s))

  abbrev pub statement_of : ToolResult → Engine → RunnerExecutionStatementRecord
  statement_of result e = record {
    action_id = str_append "act-" (to_string (length e.runner_statements + 1));
    statement_digest = digest result.output;
    signature = p.world.crypto.hex_encode (zeros 64);
    sandbox_backend = result.sandbox_backend;
    sandbox_enforcement = result.sandbox_enforcement;
  }

  abbrev record_turn : String → String → ToolResult → Engine → Engine
  record_turn name action_digest result e = record e {
    history =
        e.history
        ++ record {
          role = "assistant";
          content = str_append "Executed tool: " name;
          tool_call_id = some action_digest;
          name = some name;
        }
          ∷ record { role = "tool"; content = result.output; tool_call_id = none; name = some name }
          ∷ [];
  }

  -- Step 5: what a result leaves in the engine.
  unfoldable pub record_result : String → Json → String → ToolResult → Engine → Engine
  record_result name args action_digest result e =
      let e' =
        push_diff result.diff
          (push_modification result.preimage_hash result.postimage_hash (text_at "path" args) e) in
      record_turn name action_digest result
        (push_statement result.exit_code (statement_of result e') e')

  -- `if !flag { return Err(..) }`, and the event that the approval was granted.
  abbrev pub granted_if : Bool → String → Json → Step Engine (Unit {0})
  granted_if false refusal payload = fail refusal
  granted_if true refusal payload = do
    _ ← record_event p.world "vitna.v1.ApprovalGranted" payload
    done tt

  -- Step 3: the approval of a tool that changes something.
  unfoldable pub approve_action : String → Json → String → Step Engine (Unit {0})
  approve_action name args action_digest = do
    _ ← record_event p.world "vitna.v1.ApprovalRequested" (
        object (
          member "tool_name" (text name)
            (member "action_digest" (text action_digest) (member "arguments" args end))))
    e ← get
    granted_if e.config.auto_approve
        (str_append "Action requires human approval: "
          (str_append name (str_append " (digest: " (str_append action_digest ")"))))
        (object (member "tool_name" (text name) (member "action_digest" (text action_digest) end)))

  -- The inner block of step 3b.
  unfoldable pub approve_unsandboxed : String → String → String → Step Engine (Unit {0})
  approve_unsandboxed name action_digest reason = do
    _ ← record_event p.world "vitna.v1.ApprovalRequested" (
        object (
          member "tool_name" (text name) (
            member "action_digest" (text action_digest)
              (member "reason" (text "sandbox_unavailable") (member "detail" (text reason) end)))))
    e ← get
    granted_if e.config.allow_unsandboxed
        (str_append "No OS sandbox is available for this workspace (" (
          str_append reason (
            str_append "). Running '"
              (str_append name "' unsandboxed requires explicit approval."))))
        (object (
          member "tool_name" (text name) (
            member "action_digest" (text action_digest)
              (member "reason" (text "unsandboxed_execution_approved") end))))

  abbrev pub unless_confined :
      String → String → Result String (String × String) → Step Engine (Unit {0})
  unless_confined name action_digest (ok plan) = done tt
  unless_confined name action_digest (err reason) = approve_unsandboxed name action_digest reason

  -- Step 3b: a command that cannot be confined wants its own approval.
  unfoldable pub approve_isolation : String → String → Step Engine (Unit {0})
  approve_isolation name action_digest = do
    e ← get
    if name == "run_command" && p.spawns_processes
        then unless_confined name action_digest
            (p.sandbox_status e.ticks e.config.workspace_root false)
        else done tt

  -- From the end of the tool on.
  unfoldable pub finish_tool : String → Json → String → ToolResult → Step Engine ToolResult
  finish_tool name args action_digest result = do
    _ ← record_event p.world "vitna.v1.ToolFinished" (
        object (
          member "tool_name" (text name) (
            member "success" (boolean result.success) (
              member "preimage_hash" (optional result.preimage_hash)
                (member "postimage_hash" (optional result.postimage_hash) end)))))
    _ ← modify (record_result name args action_digest result)
    done result

  -- Steps 4 and 5.
  unfoldable pub run_tool : Tool → String → Json → String → Step Engine ToolResult
  run_tool tool name args action_digest = do
    _ ←
        record_event p.world "vitna.v1.ToolStarted" (
          object (member "tool_name" (text name) (member "action_digest" (text action_digest) end)))
    e ← get
    result ← lift (
        tool.execute e.ticks args (record {
          workspace_root = e.config.workspace_root;
          allow_unsandboxed = e.config.allow_unsandboxed;
          allow_network = false;
        }))
    finish_tool name args action_digest result

  -- `.ok_or_else(..)?`
  abbrev pub found : String → Option Tool → Step Engine Tool
  found name none = fail (str_append "Tool not found: " name)
  found name (some tool) = done tool

  unfoldable pub execute_task_step : StepType → Step Engine ToolResult
  execute_task_step step = do
    e ← get
    let assembled = p.assemble e.config.workspace_root e.history (join "\n" e.accumulated_diffs)
    _ ← record_event p.world "vitna.v1.ContextAssembled" (
        object (
          member "context_digest" (text assembled.context_digest)
            (member "estimated_tokens" (number assembled.estimated_tokens) end)))
    let (name, args, is_mutating) = dispatch step
    tool ← found name (p.tool name)
    let action_digest = tool.compute_action_digest args
    _ ← if is_mutating then approve_action name args action_digest else done tt
    _ ← approve_isolation name action_digest
    run_tool tool name args action_digest
