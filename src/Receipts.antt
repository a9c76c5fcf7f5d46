-- ===== src/Receipts.antt =====
-- The run receipt of crates/receipts/src/lib.rs: its records, and what a child's receipt adds.
pub mod Merkle
pub mod Binding
pub mod Aggregate
pub mod Canonical
pub mod Sign
pub mod Verify
mod SignTests
mod Tests
use vitna_code.Base.{
  String, ◌≡◌, Bool, true, false, ◌||◌, not, Option, List, [], ◌∷◌, ◌++◌, ◌==◌, if◌then◌else◌,
}

pub record ModelSelectionRecord : Type 0 where
  pub provider : String
  pub model_sku : String
  pub routing_reason : String
  pub policy_digest : Option String

pub record EvidenceItemRecord : Type 0 where
  pub evidence_id : String
  pub grade : String
  pub description : String
  pub artifact_digest : Option String

pub record FileModificationRecord : Type 0 where
  pub path : String
  pub preimage_hash : String
  pub postimage_hash : String

pub record ChangeSetRecord : Type 0 where
  pub files_modified : List FileModificationRecord
  pub diff_digest : String

pub record RunnerExecutionStatementRecord : Type 0 where
  pub action_id : String
  pub statement_digest : String
  pub signature : String
  pub sandbox_backend : Option String
  pub sandbox_enforcement : Option String

pub record VitnaRunReceiptV1 : Type 0 where
  pub schema_version : String
  pub run_id : String
  pub session_id : String
  pub workspace_fingerprint : String
  pub base_commit_sha : String
  pub model_selection : ModelSelectionRecord
  pub event_hash_chain_root : String
  pub isolation_label : String
  pub completion_state : String
  pub evidence_items : List EvidenceItemRecord
  pub changeset : ChangeSetRecord
  pub runner_execution_statements : List RunnerExecutionStatementRecord
  pub child_receipt_roots : List String
  pub device_signature : String

-- `self.evidence_items.iter().any(|e| e.evidence_id == item.evidence_id)`
abbrev pub has_evidence : List EvidenceItemRecord → String → Bool
has_evidence [] id = false
has_evidence (e ∷ items) id = e.evidence_id == id || has_evidence items id

unfoldable pub add_evidence :
    List EvidenceItemRecord → List EvidenceItemRecord → List EvidenceItemRecord
add_evidence items [] = items
add_evidence items (item ∷ more) =
    add_evidence (if has_evidence items item.evidence_id then items else items ++ item ∷ []) more

unfoldable pub aggregate_child_receipt : VitnaRunReceiptV1 → VitnaRunReceiptV1 → VitnaRunReceiptV1
unfolding add_evidence
aggregate_child_receipt parent child = record parent {
  child_receipt_roots =
      (if child.event_hash_chain_root == ""
        then parent.child_receipt_roots
        else parent.child_receipt_roots ++ child.event_hash_chain_root ∷ []);
  evidence_items = add_evidence parent.evidence_items child.evidence_items;
}
