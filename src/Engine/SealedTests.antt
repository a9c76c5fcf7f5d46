-- ===== src/Engine/SealedTests.antt =====
-- A run of crates/orchestration/src/engine.rs that ends with a receipt, and the theorem there.
use vitna_code.Base.{
  Option, some, String, Bool, ◌==◌, ◌+◌, true, false, none, [], ◌∷◌, ok, err, nat_eq,
}
use vitna_code.Store.{Crypto, open_in_memory}
use vitna_code.Receipts.{VitnaRunReceiptV1}
use vitna_code.Receipts.Sign.{Signing}
use vitna_code.Engine.{Json, Engine, World, new}
use vitna_code.Engine.Execute.{Parts, Tool, ToolResult, ℤ, text_at}
use vitna_code.Engine.Finalize.{Outputs}

abbrev crypto : Crypto
crypto = record {
  sha256 = λ b. b;
  hex_encode = λ b. elim b [ [] ↦ "none" | x ∷ r ↦ "some" ];
  hex_decode = λ h. none;
}

abbrev world : World
world = record {
  crypto = crypto;
  now_ms = λ n. 1000 + n;
  writable = λ n. true;
  to_vec = λ j. ok (1 ∷ []);
  shown = λ e. "refused";
}

-- A command that runs with no sandbox and succeeds where it is told to test.
abbrev tested : Json → ToolResult
tested args = record {
  call_id = "call";
  tool_name = "run_command";
  success = is_test (text_at "command" args);
  output = "ok";
  preimage_hash = none;
  postimage_hash = none;
  diff = none;
  exit_code = some (ℤ.pos 0);
  sandbox_backend = some "none";
  sandbox_enforcement = some "none";
}
  where
    is_test : Option String → Bool
    is_test none = false
    is_test (some command) = command == "cargo test"

abbrev command_tool : Tool
command_tool = record {
  compute_action_digest = λ args. "digest";
  execute = λ n args context. ok (tested args);
}

abbrev parts : Parts
parts = record {
  world = world;
  tool = λ name. some command_tool;
  assemble = λ root history diffs. record { context_digest = "context"; estimated_tokens = 7 };
  spawns_processes = false;
  sandbox_status = λ n root network. err "no sandbox";
}

-- One signature for everything.
abbrev signing : Signing (Unit {0}) (Unit {0})
signing = record {
  quoted = λ s. s;
  hex_encode = λ b. "01";
  hex_decode = λ h. ok (1 ∷ []);
  key_from_bytes = λ b. ok tt;
  signature_from_slice = λ b. ok b;
  sign_bytes = λ key m. 1 ∷ [];
  verify_strict = λ key m signature. elim signature [ [] ↦ false | b ∷ rest ↦ nat_eq b 1 ];
  verifying_key = λ key. key;
}

abbrev outputs : Outputs
outputs = record {
  pretty = λ r. ok "{}";
  create_dir_all = λ n path. ok tt;
  write = λ n path content. ok tt;
}

abbrev engine : Engine
engine =
    new
      (record {
        session_id = "session";
        run_id = "run";
        workspace_root = "/work";
        auto_approve = true;
        model_sku = "sku";
        provider_name = "provider";
        sandbox_guarantee = "guarded";
        verification_command = some "cargo test";
        allow_unsandboxed = false;
      })
      open_in_memory

-- The command ran with no sandbox, and is the evidence.
abbrev receipt : VitnaRunReceiptV1
receipt = record {
  schema_version = "vitna-run-receipt-v1";
  run_id = "run";
  session_id = "session";
  workspace_fingerprint = "some";
  base_commit_sha = "0000000000000000000000000000000000000000";
  model_selection = record {
    provider = "provider";
    model_sku = "sku";
    routing_reason = "pinned_profile";
    policy_digest = none;
  };
  event_hash_chain_root = "some";
  isolation_label = "full_access";
  completion_state = "completed_with_evidence";
  evidence_items =
      record {
        evidence_id = "ev-proof-1";
        grade = "sandbox_captured";
        description = "Verification command 'cargo test' completed with success=true";
        artifact_digest = some "some";
      }
      ∷ [];
  changeset = record { files_modified = []; diff_digest = "none" };
  runner_execution_statements =
      record {
        action_id = "act-1";
        statement_digest = "some";
        signature = "some";
        sandbox_backend = some "none";
        sandbox_enforcement = some "none";
      }
      ∷ [];
  child_receipt_roots = [];
  device_signature = "01";
}
