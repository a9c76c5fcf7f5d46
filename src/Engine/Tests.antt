-- ===== src/Engine/Tests.antt =====
-- Runs of the engine of crates/orchestration/src/engine.rs, and the theorems at concrete steps.
use mathlib.Core.List.{foldl}
use vitna_code.Base.{
  ◌+◌, String, ◌≡◌, ◌≢◌, refl, Bool, true, false, none, some, List, [], ◌∷◌, ◌++◌, length, contains,
  ok, err, arith,
}
use vitna_code.Base.Print.{to_string}
use vitna_code.Bytes.{as_bytes, decimal}
use vitna_code.Store.{
  Crypto, EventRecord, open_in_memory, append_event, new_event, calculate_hash, preimage,
  verify_integrity, get_events,
}
use vitna_code.Store.Chain.{last_seq}
use vitna_code.Store.Replay.{queued, transition, replay_run}
use vitna_code.Engine.{OrchestrationConfig, Engine, World, new, continuing_at, record_event}
use vitna_code.Engine.Record.{IsLog, IsLog-new}
use vitna_code.Engine.Execute.{
  Parts, StepType, Tool, ToolResult, ℤ, propose_edit, dispatch, execute_task_step, approve_action,
  approve_isolation, run_tool, finish_tool, record_result,
}
use vitna_code.Engine.Gates.{started, opening, IsApproved}
use vitna_code.Engine.Outcome.{
  Logged, execute_task_step-IsLog, execute_task_step_refused, execute_task_step_trace,
}
use vitna_code.Engine.Replay.{replay_run-IsLog}

-- A digest that tells only whether there was anything to hash.
abbrev toy : Crypto
toy = record {
  sha256 = λ b. b;
  hex_encode = λ b. elim b [ [] ↦ "none" | x ∷ r ↦ "some" ];
  hex_decode = λ h. none;
}

abbrev world : World
world = record {
  crypto = toy;
  now_ms = λ n. 1000 + n;
  writable = λ n. true;
  to_vec = λ j. ok (1 ∷ []);
  shown = λ e. "refused";
}

abbrev result : ToolResult
result = record {
  call_id = "call";
  tool_name = "write_file";
  success = true;
  output = "done";
  preimage_hash = some "before";
  postimage_hash = some "after";
  diff = some "diff";
  exit_code = some (ℤ.pos 0);
  sandbox_backend = some "none";
  sandbox_enforcement = some "none";
}

abbrev tool : Tool
tool = record { compute_action_digest = λ args. "digest"; execute = λ n args context. ok result }

abbrev parts : Parts
parts = record {
  world = world;
  tool = λ name. some tool;
  assemble = λ root history diffs. record { context_digest = "context"; estimated_tokens = 7 };
  spawns_processes = true;
  sandbox_status = λ n root network. err "no sandbox";
}

abbrev config : Bool → OrchestrationConfig
config approve = record {
  session_id = "session";
  run_id = "run";
  workspace_root = "/work";
  auto_approve = approve;
  model_sku = "sku";
  provider_name = "provider";
  sandbox_guarantee = "guarded";
  verification_command = none;
  allow_unsandboxed = false;
}

-- An engine that goes on at the fifth event of its session.
abbrev engine : Bool → Engine
engine approve = continuing_at (new (config approve) open_in_memory) 5

abbrev edit : StepType
edit = propose_edit "a.rs" "text"

is_log : (approve : Bool) → IsLog world open_in_memory 5 (config approve) [] (engine approve)
is_log approve = IsLog-new world open_in_memory (config approve) 5

edit_runs : (execute_task_step parts edit (engine true)).1 ≡ ok result
unfolding execute_task_step dispatch approve_action approve_isolation run_tool finish_tool
    record_result record_event append_event new_event verify_integrity calculate_hash preimage
    as_bytes decimal to_string
edit_runs = refl

execute_task_step-IsLog_example :
    (more : List EventRecord) × IsLog world open_in_memory 5
      (config true)
      ([] ++ more)
      (execute_task_step parts edit (engine true)).0
execute_task_step-IsLog_example =
    execute_task_step-IsLog parts open_in_memory 5 (config true) [] edit (engine true) (is_log true)

not_approved : IsApproved parts (config false) (dispatch edit).0 (dispatch edit).2 → ⊥
unfolding dispatch
not_approved a = ground (arith, a.0 refl)

execute_task_step_refused_example :
    ((a : ToolResult) → (execute_task_step parts edit (engine false)).1 ≢ ok a)
    × ((ts : List String) × Logged parts open_in_memory 5
          (config false)
          []
          ts
          (execute_task_step parts edit (engine false)).0
        × (contains ts started ≡ false))
execute_task_step_refused_example =
    execute_task_step_refused parts open_in_memory 5 (config false) [] edit (engine false)
      (is_log false) not_approved

execute_task_step_trace_example :
    IsApproved parts (config true) (dispatch edit).0 (dispatch edit).2
    × ((i : Bool) × Logged parts open_in_memory 5
          (config true)
          []
          (opening (dispatch edit).2 i ++ started ∷ "vitna.v1.ToolFinished" ∷ [])
          (execute_task_step parts edit (engine true)).0)
execute_task_step_trace_example =
    execute_task_step_trace parts open_in_memory 5 (config true) [] edit (engine true) result
      (is_log true) edit_runs

-- The engine after an edit, and what it recorded.
abbrev edited : Engine
edited = (execute_task_step parts edit (engine true)).0

edited_log :
    (more : List EventRecord) × IsLog world open_in_memory 5 (config true) ([] ++ more) edited
edited_log =
    execute_task_step-IsLog parts open_in_memory 5 (config true) [] edit (engine true) (is_log true)

replay_run-IsLog_example :
    (get_events edited.store "run" 0 ≡ ok edited_log.0)
    × (replay_run toy edited.store "run"
        ≡ ok (record {
          run_id = "run";
          last_sequence = last_seq 0 edited_log.0;
          state = foldl transition queued edited_log.0;
          last_event_hash = edited.last_event_hash;
          total_events = length edited_log.0;
        }))
replay_run-IsLog_example =
    replay_run-IsLog world open_in_memory 5 (config true) ([] ++ edited_log.0) edited tt
      edited_log.1
