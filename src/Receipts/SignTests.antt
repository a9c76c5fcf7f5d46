-- ===== src/Receipts/SignTests.antt =====
-- Signatures and verdicts of crates/receipts/src/lib.rs and crates/vitna-receipt-verify/src/lib.rs at a
-- concrete receipt, with a signature of one bit.
use Prim.Native.String.{◌++◌ as str_append}
use vitna_code.Base.{
  ℕ, ◌≡◌, ◌↔◌, refl, Bool, true, false, none, some, [], ◌∷◌, ◌==◌, ok, nat_eq, if◌then◌else◌,
}
use vitna_code.Bytes.{Bytes}
use vitna_code.Receipts.{VitnaRunReceiptV1}
use vitna_code.Receipts.Canonical.{
  Items, Fields, null, boolean, array, object, string, field, item, canonicalize_value,
  canonicalize_items, canonicalize_fields,
}
use vitna_code.Receipts.Sign.{
  Signing, SigningLaws, VerificationReport, verify_signature, verify_receipt,
}
use vitna_code.Receipts.Verify.{IsWellFormed, verify_receipt_valid_iff}

abbrev bit : Bool → ℕ
bit true = 1
bit false = 0

abbrev first : Bytes → ℕ
first [] = 0
first (b ∷ bytes) = b

abbrev signing : Signing Bool Bool
signing = record {
  quoted = λ s. str_append "'" (str_append s "'");
  hex_encode = λ b. if nat_eq (first b) 1 then "01" else "00";
  hex_decode = λ h. if h == "01" then ok (1 ∷ []) else ok (0 ∷ []);
  key_from_bytes = λ b. ok (nat_eq (first b) 1);
  signature_from_slice = λ b. ok b;
  sign_bytes = λ key m. bit key ∷ [];
  verify_strict = λ key m signature. nat_eq (first signature) (bit key);
  verifying_key = λ key. key;
}

laws : SigningLaws signing
laws = record {
  decode_sign = λ key m. decode key;
  slice_sign = λ key m. refl;
  verify_sign = λ key m. agrees key;
}
  where
    decode :
        (key : Bool) → signing.hex_decode (signing.hex_encode (bit key ∷ [])) ≡ ok (bit key ∷ [])
    decode true = refl
    decode false = refl

    agrees : (key : Bool) → nat_eq (bit key) (bit key) ≡ true
    agrees true = refl
    agrees false = refl

-- Keys are sorted, whatever order they stand in.
sorts_keys :
    canonicalize_value signing.quoted (
      object (
        field "b"
          (array (item null (item (boolean true) Items.end)))
          (field "a" (string "x") Fields.done)))
    ≡ "{'a':'x','b':[null,true]}"
unfolding canonicalize_value canonicalize_items canonicalize_fields
sorts_keys = refl

abbrev receipt : VitnaRunReceiptV1
receipt = record {
  schema_version = "vitna-run-receipt-v1";
  run_id = "run";
  session_id = "session";
  workspace_fingerprint = "fp";
  base_commit_sha = "abcd";
  model_selection = record {
    provider = "anthropic";
    model_sku = "sku";
    routing_reason = "pinned";
    policy_digest = none;
  };
  event_hash_chain_root = "root";
  isolation_label = "guarded";
  completion_state = "completed_with_evidence";
  evidence_items = [];
  changeset = record { files_modified = []; diff_digest = "" };
  runner_execution_statements = [];
  child_receipt_roots = [];
  device_signature = "01";
}

verify_receipt_valid_iff_example :
    (report : VerificationReport) × (verify_receipt signing receipt (some "01") ≡ ok report)
    × ((report.is_valid ≡ true)
        ↔ (IsWellFormed receipt × (verify_signature signing receipt true ≡ ok true)))
    × ((report.signature_verified ≡ true) ↔ (verify_signature signing receipt true ≡ ok true))
verify_receipt_valid_iff_example =
    verify_receipt_valid_iff Bool Bool signing receipt "01" (1 ∷ []) true refl refl
