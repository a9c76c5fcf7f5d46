-- ===== src/Engine/Sealed.antt =====
-- The receipt that `finalize_run` of crates/orchestration/src/engine.rs returns.
use Prim.Native.String.{◌++◌ as str_append}
use vitna_code.Base.{true, String, ◌≡◌, ◌⊎◌, some, ok, List, [], ◌∷◌}
use vitna_code.Receipts.{VitnaRunReceiptV1, RunnerExecutionStatementRecord}
use vitna_code.Receipts.Merkle.{compute_event_merkle_root}
use vitna_code.Receipts.Sign.{Signing, verify_signature}
use vitna_code.Engine.{Engine}
use vitna_code.Engine.Execute.{Parts}
use vitna_code.Engine.Finalize.{join_path, Outputs}

-- Some command ran with no sandbox.
abbrev pub SomeUnsandboxed : List RunnerExecutionStatementRecord → Type 0
SomeUnsandboxed [] = ⊥
SomeUnsandboxed (s ∷ statements) = (s.sandbox_backend ≡ some "none") ⊎ SomeUnsandboxed statements

-- Full access where a command ran with no sandbox, and else what the run was configured for.
abbrev pub IsLabelled : Engine → String → Type 0
IsLabelled e label =
    (SomeUnsandboxed e.runner_statements × (label ≡ "full_access"))
    ⊎ ((¬ (SomeUnsandboxed e.runner_statements)) × (label ≡ e.config.sandbox_guarantee))

abbrev receipt_dir : Engine → String
receipt_dir e = join_path (join_path e.config.workspace_root ".vitna") "receipts"

abbrev receipt_path : Engine → String
receipt_path e = join_path (receipt_dir e) (str_append e.config.run_id ".json")

module _ (p : Parts) (o : Outputs) where
  -- The receipt's text went to its file in the workspace.
  abbrev pub WrittenTo : Engine → VitnaRunReceiptV1 → Type 0
  WrittenTo e r =
      (content : String) × ((o.pretty r ≡ ok content)
        × (o.write e.ticks (receipt_path e) content ≡ ok tt))

module _ (SigningKey VerifyingKey : Type 0) (p : Parts) (s : Signing SigningKey VerifyingKey)
    (key : SigningKey) (o : Outputs) where
  -- A receipt that sums up the run of the engine, signed with the key.
  abbrev pub IsReceiptOf : Engine → VitnaRunReceiptV1 → Type 0
  IsReceiptOf e r =
      (compute_event_merkle_root p.world.crypto e.recorded_event_hashes
        ≡ some r.event_hash_chain_root)
      × IsLabelled e r.isolation_label
      × (r.evidence_items ≡ e.evidence_items)
      × (r.runner_execution_statements ≡ e.runner_statements)
      × WrittenTo p o e r
      × (verify_signature s r (s.verifying_key key) ≡ ok true)
