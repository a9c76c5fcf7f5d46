-- ===== src/Receipts/Sign.antt =====
-- Signing and checking a receipt, as crates/receipts/src/lib.rs and crates/vitna-receipt-verify/src/lib.rs
-- do. Ed25519 and hex are third-party crates and stand in the record Signing.
use Prim.Native.String.{◌++◌ as str_append}
use vitna_code.Base.{
  ℕ, String, ◌≡◌, Bool, true, false, ◌||◌, not, Option, none, some, List, [], ◌∷◌, ◌++◌, ◌==◌,
  contains, length, Result, ok, err, ◌>>=◌, if◌then◌else◌,
}
use vitna_code.Bytes.{Bytes}
use vitna_code.Receipts.{FileModificationRecord, VitnaRunReceiptV1}
use vitna_code.Receipts.Canonical.{to_canonical_bytes}

-- A key pair and the operations on it: `SigningKey::sign`, `VerifyingKey::from_bytes` and
-- `verify_strict`, `Signature::from_slice`, `hex`, and how `serde_json` quotes a text.
pub record Signing (SigningKey VerifyingKey : Type 0) : Type 0 where
  pub quoted : String → String
  pub hex_encode : Bytes → String
  pub hex_decode : String → Result String Bytes
  pub key_from_bytes : Bytes → Result String VerifyingKey
  pub signature_from_slice : Bytes → Result String Bytes
  pub sign_bytes : SigningKey → Bytes → Bytes
  pub verify_strict : VerifyingKey → Bytes → Bytes → Bool
  pub verifying_key : SigningKey → VerifyingKey

-- What the crates document: a signature can be read back, and the key pair agrees.
pub record SigningLaws {SigningKey VerifyingKey : Type 0} (s : Signing SigningKey VerifyingKey)
    : Type 0 where
  pub decode_sign :
      (k : SigningKey) (m : Bytes)
      → s.hex_decode (s.hex_encode (s.sign_bytes k m)) ≡ ok (s.sign_bytes k m)
  pub slice_sign :
      (k : SigningKey) (m : Bytes)
      → s.signature_from_slice (s.sign_bytes k m) ≡ ok (s.sign_bytes k m)
  pub verify_sign :
      (k : SigningKey) (m : Bytes) → s.verify_strict (s.verifying_key k) m (s.sign_bytes k m) ≡ true

pub record VerificationReport : Type 0 where
  pub is_valid : Bool
  pub run_id : String
  pub schema_version : String
  pub isolation_label : String
  pub completion_state : String
  pub evidence_count : ℕ
  pub signature_verified : Bool
  pub errors : List String

abbrev pub valid_labels : List String
valid_labels = "read_only" ∷ "guarded" ∷ "strong" ∷ "full_access" ∷ []

abbrev pub valid_states : List String
valid_states =
    "completed_with_evidence" ∷ "completed_with_unknowns" ∷ "blocked" ∷ "failed" ∷ "cancelled"
    ∷ "needs_reconciliation" ∷ []

abbrev pub error_if : Bool → String → List String
error_if b message = if b then message ∷ [] else []

-- Checks 1 to 3.
abbrev pub word_errors : VitnaRunReceiptV1 → List String
word_errors r =
    error_if (not (r.schema_version == "vitna-run-receipt-v1"))
      (str_append "Unsupported schema version: " r.schema_version)
    ++ (error_if (not (contains valid_labels r.isolation_label))
          (str_append "Unknown isolation label: " r.isolation_label)
        ++ error_if (not (contains valid_states r.completion_state))
            (str_append "Unknown completion state: " r.completion_state))

-- Check 4.
abbrev pub file_errors : List FileModificationRecord → List String
file_errors [] = []
file_errors (f ∷ files) =
    error_if (f.preimage_hash == "" || f.postimage_hash == "")
      (str_append "Missing preimage or postimage hash for " f.path)
    ++ file_errors files

-- Check 5, once there is a key: whether the signature verified, and the errors.
abbrev pub signature_outcome : Result String Bool → Bool × List String
signature_outcome (ok true) = (true, [])
signature_outcome (ok false) = (false, "Device signature mismatch or payload tampered" ∷ [])
signature_outcome (err e) = (false, str_append "Signature verification error: " e ∷ [])

abbrev pub is_empty : List String → Bool
is_empty [] = true
is_empty (e ∷ errors) = false

abbrev pub report_of : VitnaRunReceiptV1 → Bool × List String → VerificationReport
report_of r (verified, signature_errors) =
    let errors = word_errors r ++ (file_errors r.changeset.files_modified ++ signature_errors) in
    record {
      is_valid = is_empty errors;
      run_id = r.run_id;
      schema_version = r.schema_version;
      isolation_label = r.isolation_label;
      completion_state = r.completion_state;
      evidence_count = length r.evidence_items;
      signature_verified = verified;
      errors = errors;
    }

module _ {SigningKey VerifyingKey : Type 0} (s : Signing SigningKey VerifyingKey) where
  unfoldable pub sign : SigningKey → VitnaRunReceiptV1 → VitnaRunReceiptV1
  sign key r = record r {
    device_signature = s.hex_encode (s.sign_bytes key (to_canonical_bytes s.quoted r));
  }

  unfoldable pub verify_signature : VitnaRunReceiptV1 → VerifyingKey → Result String Bool
  verify_signature r key = do
    bytes ← s.hex_decode r.device_signature
    signature ← s.signature_from_slice bytes
    ok (s.verify_strict key (to_canonical_bytes s.quoted r) signature)

  unfoldable pub check_signature :
      VitnaRunReceiptV1 → Option String → Result String (Bool × List String)
  check_signature r none = ok (false, [])
  check_signature r (some pub_hex) = do
    key_bytes ← s.hex_decode pub_hex
    key ← s.key_from_bytes key_bytes
    ok (signature_outcome (verify_signature r key))

  unfoldable pub verify_receipt :
      VitnaRunReceiptV1 → Option String → Result String VerificationReport
  verify_receipt r public_key_hex = do
    checked ← check_signature r public_key_hex
    ok (report_of r checked)
