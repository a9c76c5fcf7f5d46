-- ===== src/Engine/Finalize.antt =====
-- `finalize_run` of crates/orchestration/src/engine.rs: the verification command, the receipt, its
-- signature and its file.
use Prim.Native.String.{◌++◌ as str_append}
use vitna_code.Base.{
  ℕ, ◌+◌, String, Bool, true, false, Option, none, some, [], ◌∷◌, ◌++◌, Result, ok, err, length,
  nat_eq, if◌then◌else◌,
}
use Prim.Native.Char.{code}
use vitna_code.Base.Steps.{Step, ◌>>=◌, done, get, modify, lift}
use vitna_code.Base.Print.{to_string, join}
use vitna_code.Receipts.{VitnaRunReceiptV1}
use vitna_code.Receipts.Merkle.{compute_event_merkle_root}
use vitna_code.Receipts.Sign.{Signing, sign}
use vitna_code.Engine.{Engine, text, object, end, member, record_event}
use vitna_code.Engine.Execute.{
  Parts, ToolResult, run_verification, execute_task_step, digest, observed_isolation_label,
}

-- `serde_json::to_string_pretty`, `fs::create_dir_all` and `fs::write`.
pub record Outputs : Type 0 where
  pub pretty : VitnaRunReceiptV1 → Result String String
  pub create_dir_all : ℕ → String → Result String (Unit {0})
  pub write : ℕ → String → String → Result String (Unit {0})

-- `Path::join` with `/` between names.
abbrev is_absolute : String → Bool
is_absolute String.[] = false
is_absolute (String.◌∷◌ c s) = nat_eq (code c) b'/'

abbrev ends_open : String → Bool
ends_open String.[] = true
ends_open (String.◌∷◌ c String.[]) = nat_eq (code c) b'/'
ends_open (String.◌∷◌ c (String.◌∷◌ d s)) = ends_open (String.◌∷◌ d s)

abbrev pub join_path : String → String → String
join_path a b =
    if is_absolute b
    then b
    else if ends_open a
    then str_append a b
    else str_append a (str_append "/" b)

-- `.map_err(|e| format!("..: {}", e))`
abbrev pub in_context {ℓ} : {A : Type ℓ} → String → Result String A → Result String A
in_context what (ok a) = ok a
in_context what (err e) = err (str_append what (str_append ": " e))

abbrev show_bool : Bool → String
show_bool true = "true"
show_bool false = "false"

module _ (p : Parts) where
  abbrev pub push_evidence : String → ToolResult → Engine → Engine
  push_evidence cmd result e = record e {
    evidence_items =
        e.evidence_items
        ++ record {
          evidence_id = str_append "ev-proof-" (to_string (length e.evidence_items + 1));
          grade = if result.success then "sandbox_captured" else "model_reported";
          description =
              str_append "Verification command '" (
                str_append cmd (str_append "' completed with success=" (show_bool result.success)));
          artifact_digest = some (digest p result.output);
        }
          ∷ [];
  }

  unfoldable pub run_verification_command : Option String → Step Engine (Unit {0})
  run_verification_command none = done tt
  run_verification_command (some cmd) = do
    result ← execute_task_step p (run_verification cmd)
    modify (push_evidence cmd result)

  unfoldable pub receipt_of : Engine → String → VitnaRunReceiptV1
  receipt_of e root = record {
    schema_version = "vitna-run-receipt-v1";
    run_id = e.config.run_id;
    session_id = e.config.session_id;
    workspace_fingerprint = digest p e.config.workspace_root;
    base_commit_sha = "0000000000000000000000000000000000000000";
    model_selection = record {
      provider = e.config.provider_name;
      model_sku = e.config.model_sku;
      routing_reason = "pinned_profile";
      policy_digest = none;
    };
    event_hash_chain_root = root;
    isolation_label = observed_isolation_label e;
    completion_state = "completed_with_evidence";
    evidence_items = e.evidence_items;
    changeset = record {
      files_modified = e.changeset_modifications;
      diff_digest = digest p (join "\n" e.accumulated_diffs);
    };
    runner_execution_statements = e.runner_statements;
    child_receipt_roots = [];
    device_signature = "";
  }

  -- Writing the signed receipt, and recording that it was generated.
  unfoldable pub write_receipt : Outputs → VitnaRunReceiptV1 → Step Engine String
  write_receipt o receipt = do
    e ← get
    let receipt_dir = join_path (join_path e.config.workspace_root ".vitna") "receipts"
    let receipt_path = join_path receipt_dir (str_append e.config.run_id ".json")
    _ ←
        lift
          (in_context "Failed to create receipt directory" (o.create_dir_all e.ticks receipt_dir))
    receipt_json ← lift (in_context "Failed to serialize receipt" (o.pretty receipt))
    _ ← lift (in_context "Failed to write receipt file" (o.write e.ticks receipt_path receipt_json))
    record_event p.world "vitna.v1.ReceiptGenerated" (
        object (
          member "run_id" (text e.config.run_id) (
            member "receipt_path" (text receipt_path)
              (member "device_signature" (text receipt.device_signature) end))))

  unfoldable pub emit_receipt : Outputs → VitnaRunReceiptV1 → Step Engine VitnaRunReceiptV1
  emit_receipt o receipt = do _ ← write_receipt o receipt; done receipt

  module _ {SigningKey VerifyingKey : Type 0} (s : Signing SigningKey VerifyingKey)
      (key : SigningKey) (o : Outputs) where
    -- `none` stands for a root that was not computed; the source has no such case.
    abbrev pub sealed : Option String → Step Engine VitnaRunReceiptV1
    sealed none e = (e, err "no root")
    sealed (some root) e = emit_receipt o (sign s key (receipt_of e root)) e

    abbrev pub finish_run : Step Engine VitnaRunReceiptV1
    finish_run e = sealed (compute_event_merkle_root p.world.crypto e.recorded_event_hashes) e

    unfoldable pub finalize_run : Step Engine VitnaRunReceiptV1
    finalize_run = do
      e ← get
      _ ← run_verification_command e.config.verification_command
      finish_run
