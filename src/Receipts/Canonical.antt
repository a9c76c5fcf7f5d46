-- ===== src/Receipts/Canonical.antt =====
-- The canonical form of a receipt in crates/receipts/src/lib.rs. `serde_json` is an argument as far
-- as it prints scalars; a serialised struct is the object of its fields.
use Prim.Native.String.{◌++◌ as str_append}
use vitna_code.Base.{String, Bool, Option, none, some, List, [], ◌∷◌, if◌then◌else◌}
use vitna_code.Base.Sort.{str_leb}
use vitna_code.Base.Print.{join}
use vitna_code.Bytes.{Bytes, as_bytes}
use vitna_code.Receipts.{
  EvidenceItemRecord, FileModificationRecord, RunnerExecutionStatementRecord, VitnaRunReceiptV1,
}

-- `serde_json::Value`; a number is its print.
mutual
  pub data Value : Type 0 where
    null : Value
    boolean : Bool → Value
    number : String → Value
    string : String → Value
    array : Items → Value
    object : Fields → Value

  pub data Items : Type 0 where
    end : Items
    item : Value → Items → Items

  pub data Fields : Type 0 where
    done : Fields
    field : String → Value → Fields → Fields

abbrev insert_entry : String × String → List (String × String) → List (String × String)
insert_entry e [] = e ∷ []
insert_entry e (x ∷ entries) =
    let rest = insert_entry e entries in if str_leb e.0 x.0 then e ∷ x ∷ entries else x ∷ rest

-- `keys.sort()`, each key with the print of its value.
abbrev pub sort_entries : List (String × String) → List (String × String)
sort_entries [] = []
sort_entries (e ∷ entries) = insert_entry e (sort_entries entries)

abbrev entry_texts : (String → String) → List (String × String) → List String
entry_texts quoted [] = []
entry_texts quoted (e ∷ entries) =
    str_append (quoted e.0) (str_append ":" e.1) ∷ entry_texts quoted entries

-- `quoted` is `serde_json::to_string` of a text.
unfoldable mutual
  pub canonicalize_value : (String → String) → Value → String
  canonicalize_value quoted null = "null"
  canonicalize_value quoted (boolean b) = if b then "true" else "false"
  canonicalize_value quoted (number n) = n
  canonicalize_value quoted (string s) = quoted s
  canonicalize_value quoted (array items) =
      str_append "[" (str_append (join "," (canonicalize_items quoted items)) "]")
  canonicalize_value quoted (object fields) = str_append "{" (
      str_append (join "," (entry_texts quoted (sort_entries (canonicalize_fields quoted fields))))
        "}")

  pub canonicalize_items : (String → String) → Items → List String
  canonicalize_items quoted end = []
  canonicalize_items quoted (item v items) =
      canonicalize_value quoted v ∷ canonicalize_items quoted items

  pub canonicalize_fields : (String → String) → Fields → List (String × String)
  canonicalize_fields quoted done = []
  canonicalize_fields quoted (field k v fields) =
      (k, canonicalize_value quoted v) ∷ canonicalize_fields quoted fields

-- A field that `skip_serializing_if = "Option::is_none"` leaves out.
abbrev optional : String → Option String → Fields → Fields
optional key none fields = fields
optional key (some s) fields = field key (string s) fields

abbrev strings : List String → Items
strings [] = end
strings (s ∷ more) = item (string s) (strings more)

abbrev evidence_values : List EvidenceItemRecord → Items
evidence_values [] = end
evidence_values (e ∷ more) =
    item
      (object (
        field "evidence_id" (string e.evidence_id) (
          field "grade" (string e.grade) (
            field "description" (string e.description)
              (optional "artifact_digest" e.artifact_digest done)))))
      (evidence_values more)

abbrev file_values : List FileModificationRecord → Items
file_values [] = end
file_values (f ∷ more) =
    item
      (object (
        field "path" (string f.path) (
          field "preimage_hash" (string f.preimage_hash)
            (field "postimage_hash" (string f.postimage_hash) done))))
      (file_values more)

abbrev statement_values : List RunnerExecutionStatementRecord → Items
statement_values [] = end
statement_values (s ∷ more) =
    item
      (object (
        field "action_id" (string s.action_id) (
          field "statement_digest" (string s.statement_digest) (
            field "signature" (string s.signature) (
              optional "sandbox_backend" s.sandbox_backend
                (optional "sandbox_enforcement" s.sandbox_enforcement done))))))
      (statement_values more)

-- `skip_serializing_if = "Vec::is_empty"`
abbrev roots_field : List String → Fields → Fields
roots_field [] fields = fields
roots_field (r ∷ roots) fields = field "child_receipt_roots" (array (strings (r ∷ roots))) fields

-- `serde_json::to_value` of a receipt.
unfoldable pub to_value : VitnaRunReceiptV1 → Value
to_value r = object (
    field "schema_version" (string r.schema_version) (
      field "run_id" (string r.run_id) (
        field "session_id" (string r.session_id) (
          field "workspace_fingerprint" (string r.workspace_fingerprint) (
            field "base_commit_sha" (string r.base_commit_sha) (
              field "model_selection"
                (object (
                  field "provider" (string r.model_selection.provider) (
                    field "model_sku" (string r.model_selection.model_sku) (
                      field "routing_reason" (string r.model_selection.routing_reason)
                        (optional "policy_digest" r.model_selection.policy_digest done)))))
                (field "event_hash_chain_root" (string r.event_hash_chain_root) (
                  field "isolation_label" (string r.isolation_label) (
                    field "completion_state" (string r.completion_state) (
                      field "evidence_items" (array (evidence_values r.evidence_items)) (
                        field "changeset"
                          (object (
                            field "files_modified" (array (file_values r.changeset.files_modified))
                              (field "diff_digest" (string r.changeset.diff_digest) done)))
                          (field "runner_execution_statements"
                            (array (statement_values r.runner_execution_statements))
                            (roots_field r.child_receipt_roots (
                              field "device_signature" (string r.device_signature)
                                done))))))))))))))

-- The signature does not cover itself.
unfoldable pub to_canonical_bytes : (String → String) → VitnaRunReceiptV1 → Bytes
to_canonical_bytes quoted r =
    as_bytes (canonicalize_value quoted (to_value (record r { device_signature = "" })))
