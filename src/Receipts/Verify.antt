-- ===== src/Receipts/Verify.antt =====
-- What a verdict of crates/vitna-receipt-verify/src/lib.rs means.
use vitna_code.Base.{
  String, ◌≡◌, ◌≢◌, refl, sym, ◌∙◌, ◌↔◌, Bool, true, false, ◌&&◌, ◌||◌, not, some, List, [], ◌∷◌,
  ◌++◌, ◌==◌, contains, Result, ok, err, arith, eq_iff, All,
}
use vitna_code.Bytes.{Bytes}
use vitna_code.Receipts.{FileModificationRecord, VitnaRunReceiptV1}
use vitna_code.Receipts.Canonical.{to_canonical_bytes}
use vitna_code.Receipts.Sign.{
  Signing, SigningLaws, VerificationReport, valid_labels, valid_states, error_if, word_errors,
  file_errors, is_empty, signature_outcome, report_of, sign, verify_signature, check_signature,
  verify_receipt,
}

-- What the checks without a key ask of a receipt.
abbrev pub IsWellFormed : VitnaRunReceiptV1 → Type 0
IsWellFormed r =
    (r.schema_version ≡ "vitna-run-receipt-v1")
    × (contains valid_labels r.isolation_label ≡ true)
    × (contains valid_states r.completion_state ≡ true)
    × All (λ f. (f.preimage_hash ≢ "") × (f.postimage_hash ≢ "")) r.changeset.files_modified

and_split : (a b : Bool) → (a && b) ≡ true → (a ≡ true) × (b ≡ true)
and_split true b h = (refl, h)
and_split false b h = absurd (ground arith)

and_true : (a b : Bool) → a ≡ true → b ≡ true → (a && b) ≡ true
and_true a b h k = ground arith

is_empty-guard :
    (b : Bool) (m : String) (rest : List String)
    → is_empty (error_if b m ++ rest) ≡ (not b && is_empty rest)
is_empty-guard true m rest = refl
is_empty-guard false m rest = refl

is_empty-error_if : (b : Bool) (m : String) → is_empty (error_if b m) ≡ not b
is_empty-error_if true m = refl
is_empty-error_if false m = refl

is_empty-append : (xs ys : List String) → is_empty (xs ++ ys) ≡ (is_empty xs && is_empty ys)
is_empty-append [] ys = refl
is_empty-append (x ∷ xs) ys = refl

is_empty-file_errors :
    (files : List FileModificationRecord)
    → (is_empty (file_errors files) ≡ true)
      ↔ All (λ f. (f.preimage_hash ≢ "") × (f.postimage_hash ≢ "")) files
is_empty-file_errors [] = (λ y. tt, λ y. refl)
is_empty-file_errors (f ∷ files) =
    let guard =
      is_empty-guard (f.preimage_hash == "" || f.postimage_hash == "") _ (file_errors files) in
    let (to, from) = is_empty-file_errors files in
    let pre = eq_iff f.preimage_hash "" in
    let post = eq_iff f.postimage_hash "" in
    (
      λ y.
          let z = sym guard ∙ y in
          (
            (λ p. absurd (ground (arith, z, pre.1 p)), λ p. absurd (ground (arith, z, post.1 p))),
            to (ground (arith, z)),
          ),
      λ (n, a). guard ∙ ground (arith, pre, post, n.0, n.1, from a),
    )

is_empty-word_errors :
    (r : VitnaRunReceiptV1)
    → is_empty (word_errors r) ≡ (
        r.schema_version == "vitna-run-receipt-v1"
        && (contains valid_labels r.isolation_label && contains valid_states r.completion_state))
is_empty-word_errors r =
    is_empty-guard (not (r.schema_version == "vitna-run-receipt-v1")) _ _
    ∙ ground (
      arith,
      is_empty-guard (not (contains valid_labels r.isolation_label)) _
          (error_if (not (contains valid_states r.completion_state)) _),
      is_empty-error_if (not (contains valid_states r.completion_state)) _,
    )

valid_iff :
    (r : VitnaRunReceiptV1) (verified : Bool) (errors : List String)
    → ((report_of r (verified, errors)).is_valid ≡ true)
      ↔ (IsWellFormed r × (is_empty errors ≡ true))
valid_iff r verified errors =
    let whole =
      is_empty-append (word_errors r) (file_errors r.changeset.files_modified ++ errors) in
    let tail = is_empty-append (file_errors r.changeset.files_modified) errors in
    let words = is_empty-word_errors r in
    let (to, from) = is_empty-file_errors r.changeset.files_modified in
    let schema = eq_iff r.schema_version "vitna-run-receipt-v1" in
    (
      λ y.
          let (w, rest) = and_split _ _ (sym whole ∙ y) in
          let (f, e) = and_split _ _ (sym tail ∙ rest) in
          let (v, lists) = and_split _ _ (sym words ∙ w) in
          let (l, c) = and_split _ _ lists in ((schema.0 v, l, c, to f), e),
      λ ((v, l, c, f), e).
          whole
          ∙ and_true _ _ (words ∙ and_true _ _ (schema.1 v) (and_true _ _ l c))
              (tail ∙ and_true _ _ (from f) e),
    )

signature_ok :
    (x : Result String Bool)
    → (((signature_outcome x).0 ≡ true) ↔ (x ≡ ok true))
      × ((is_empty (signature_outcome x).1 ≡ true) ↔ (x ≡ ok true))
signature_ok (ok true) = ((λ y. refl, λ y. refl), (λ y. refl, λ y. refl))
signature_ok (ok false) = (
  (λ y. absurd (ground arith), λ y. absurd (ground arith)),
  (λ y. absurd (ground arith), λ y. absurd (ground arith)),
)
signature_ok (err e) = (
  (λ y. absurd (ground arith), λ y. absurd (ground arith)),
  (λ y. absurd (ground arith), λ y. absurd (ground arith)),
)

-- A receipt that was signed, and not changed since, passes the check with the key of its signer.
pub verify_signature-sign :
    (SigningKey VerifyingKey : Type 0) (s : Signing SigningKey VerifyingKey) (key : SigningKey)
    (r : VitnaRunReceiptV1)
    → SigningLaws s
    → verify_signature s (sign s key r) (s.verifying_key key) ≡ ok true
unfolding verify_signature sign to_canonical_bytes
verify_signature-sign SigningKey VerifyingKey s key r laws =
    let m = to_canonical_bytes s.quoted r in
    rw (laws.decode_sign key m, laws.slice_sign key m, laws.verify_sign key m) refl

-- With a key that can be read, a verdict is always given; it is valid exactly where the receipt is
-- well formed and its signature verifies with that key, and it says that the signature verified
-- exactly where it did.
pub verify_receipt_valid_iff :
    (SigningKey VerifyingKey : Type 0) (s : Signing SigningKey VerifyingKey) (r : VitnaRunReceiptV1)
    (public_key_hex : String) (key_bytes : Bytes) (key : VerifyingKey)
    → s.hex_decode public_key_hex ≡ ok key_bytes
    → s.key_from_bytes key_bytes ≡ ok key
    → (report : VerificationReport) × (verify_receipt s r (some public_key_hex) ≡ ok report)
      × ((report.is_valid ≡ true) ↔ (IsWellFormed r × (verify_signature s r key ≡ ok true)))
      × ((report.signature_verified ≡ true) ↔ (verify_signature s r key ≡ ok true))
unfolding verify_receipt check_signature
verify_receipt_valid_iff SigningKey VerifyingKey s r public_key_hex key_bytes key d k =
    let x = verify_signature s r key in
    let (verified, clean) = signature_ok x in
    let (to, from) = valid_iff r (signature_outcome x).0 (signature_outcome x).1 in
    (
      report_of r (signature_outcome x),
      rw (d, k) refl,
      (λ y. ((to y).0, clean.0 (to y).1), λ (w, y). from (w, clean.1 y)),
      verified,
    )
