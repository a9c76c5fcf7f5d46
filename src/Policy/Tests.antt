-- ===== src/Policy/Tests.antt =====
-- A policy of crates/policy/src/lib.rs that is signed with a toy key.
use Prim.Native.String.{◌++◌ as str_append}
use vitna_code.Base.{
  ℕ, zero, suc, ◌≡◌, refl, Bool, true, false, [], ◌∷◌, ◌==◌, ok, length, nat_eq, if◌then◌else◌,
}
use vitna_code.Bytes.{Bytes}
use vitna_code.Receipts.Sign.{Signing}
use vitna_code.Policy.{
  SignedModelPolicy, PolicyKeys, PolicyKeysLaws, policy_digest, with_public_key, sign,
  verify_signature, is_expired,
}
use vitna_code.Policy.Signed.{verify_signature-sign_policy}

abbrev zeros : ℕ → Bytes
zeros zero = []
zeros (suc n) = 0 ∷ zeros n

-- A key and its signatures are 32 bytes, the first of which is its bit.
abbrev key_bytes : Bool → Bytes
key_bytes true = 1 ∷ zeros 31
key_bytes false = 0 ∷ zeros 31

abbrev first : Bytes → ℕ
first [] = 0
first (b ∷ bytes) = b

abbrev toy_signing : Signing Bool Bool
toy_signing = record {
  quoted = λ s. str_append "'" (str_append s "'");
  hex_encode = λ b. if nat_eq (first b) 1 then "01" else "00";
  hex_decode = λ h. if h == "01" then ok (key_bytes true) else ok (key_bytes false);
  key_from_bytes = λ b. ok (nat_eq (first b) 1);
  signature_from_slice = λ b. ok b;
  sign_bytes = λ key m. key_bytes key;
  verify_strict = λ key m signature. nat_eq (first signature) (first (key_bytes key));
  verifying_key = λ key. key;
}

abbrev toy_keys : PolicyKeys Bool Bool
toy_keys = record { signing = toy_signing; to_bytes = key_bytes; sha256 = λ b. b }

decode :
    (key : Bool)
    → toy_signing.hex_decode (toy_signing.hex_encode (key_bytes key)) ≡ ok (key_bytes key)
decode true = refl
decode false = refl

agrees : (key : Bool) → nat_eq (first (key_bytes key)) (first (key_bytes key)) ≡ true
agrees true = refl
agrees false = refl

long : (key : Bool) → length (key_bytes key) ≡ 32
long true = refl
long false = refl

reads : (key : Bool) → toy_signing.key_from_bytes (key_bytes key) ≡ ok key
reads true = refl
reads false = refl

toy_laws : PolicyKeysLaws toy_keys
toy_laws = record {
  signing_laws = record {
    decode_sign = λ key m. decode key;
    slice_sign = λ key m. refl;
    verify_sign = λ key m. agrees key;
  };
  length-to_bytes = long;
  decode_key = decode;
  read_key = reads;
}

abbrev policy : SignedModelPolicy
policy = record {
  schema_version = "vitna-model-policy-v1";
  policy_id = "test-policy-01";
  issued_at = 1000;
  expires_at = 2000;
  allowed_providers = "anthropic" ∷ "fake" ∷ [];
  lanes = record { lane = "coding"; provider = "anthropic"; model_sku = "sonnet" } ∷ [];
  required_sandbox_guarantee = "strong";
  public_key = "";
  signature = "";
}

expires : (is_expired policy 2000 ≡ false) × (is_expired policy 2001 ≡ true)
expires = (refl, refl)

verify_signature-sign_policy_example :
    (verify_signature toy_keys (sign toy_keys true policy) ≡ ok true)
    × (policy_digest toy_keys (sign toy_keys true policy)
        ≡ policy_digest toy_keys (with_public_key toy_keys true policy))
    × (sign toy_keys true (record policy { public_key = "00"; signature = "00" })
        ≡ sign toy_keys true policy)
verify_signature-sign_policy_example =
    verify_signature-sign_policy Bool Bool toy_keys true policy "00" "00" toy_laws
