-- ===== src/Policy.antt =====
-- The signed model policy of crates/policy/src/lib.rs. Its canonicalize_value is, but for names, that
-- of crates/receipts/src/lib.rs; Ed25519, SHA-256, hex and serde_json are third-party crates.
pub mod Signed
mod Tests
use vitna_code.Base.{
  ℕ, String, Bool, ◌≡◌, List, [], ◌∷◌, length, Result, ok, err, ◌>>=◌, ltb, nat_eq, if◌then◌else◌,
}
use vitna_code.Base.Print.{to_string}
use vitna_code.Bytes.{Bytes, as_bytes}
use vitna_code.Receipts.Canonical.{
  Value, Items, end, item, Fields, done, field, string, number, array, object, canonicalize_value,
}
use vitna_code.Receipts.Sign.{Signing, SigningLaws}

pub record ModelLaneConfig : Type 0 where
  pub lane : String
  pub provider : String
  pub model_sku : String

pub record SignedModelPolicy : Type 0 where
  pub schema_version : String
  pub policy_id : String
  pub issued_at : ℕ
  pub expires_at : ℕ
  pub allowed_providers : List String
  pub lanes : List ModelLaneConfig
  pub required_sandbox_guarantee : String
  pub public_key : String
  pub signature : String

abbrev provider_values : List String → Items
provider_values [] = end
provider_values (s ∷ more) = item (string s) (provider_values more)

abbrev lane_values : List ModelLaneConfig → Items
lane_values [] = end
lane_values (l ∷ more) =
    item
      (object (
        field "lane" (string l.lane)
          (field "provider" (string l.provider) (field "model_sku" (string l.model_sku) done))))
      (lane_values more)

-- `serde_json::to_value` of a policy.
abbrev pub policy_value : SignedModelPolicy → Value
policy_value p = object (
    field "schema_version" (string p.schema_version) (
      field "policy_id" (string p.policy_id) (
        field "issued_at" (number (to_string p.issued_at)) (
          field "expires_at" (number (to_string p.expires_at)) (
            field "allowed_providers" (array (provider_values p.allowed_providers)) (
              field "lanes" (array (lane_values p.lanes)) (
                field "required_sandbox_guarantee" (string p.required_sandbox_guarantee) (
                  field "public_key" (string p.public_key)
                    (field "signature" (string p.signature) done)))))))))

-- The signature does not cover itself.
unfoldable pub to_canonical_bytes : (String → String) → SignedModelPolicy → Bytes
to_canonical_bytes quoted p =
    as_bytes (canonicalize_value quoted (policy_value (record p { signature = "" })))

-- Ed25519 with the bytes of a public key, and SHA-256.
pub record PolicyKeys (SigningKey VerifyingKey : Type 0) : Type 0 where
  pub signing : Signing SigningKey VerifyingKey
  pub to_bytes : VerifyingKey → Bytes
  pub sha256 : Bytes → Bytes

-- What the crates document: a key has 32 bytes, from which it can be read back.
pub record PolicyKeysLaws {SigningKey VerifyingKey : Type 0}
    (k : PolicyKeys SigningKey VerifyingKey) : Type 0 where
  pub signing_laws : SigningLaws k.signing
  pub length-to_bytes : (v : VerifyingKey) → length (k.to_bytes v) ≡ 32
  pub decode_key :
      (v : VerifyingKey)
      → k.signing.hex_decode (k.signing.hex_encode (k.to_bytes v)) ≡ ok (k.to_bytes v)
  pub read_key : (v : VerifyingKey) → k.signing.key_from_bytes (k.to_bytes v) ≡ ok v

-- `try_into` an array of 32 bytes.
abbrev pub key_array : Bytes → Result String Bytes
key_array bytes = if nat_eq (length bytes) 32 then ok bytes else err "Invalid public key length"

abbrev pub is_expired : SignedModelPolicy → ℕ → Bool
is_expired p current_time = ltb p.expires_at current_time

module _ {SigningKey VerifyingKey : Type 0} (k : PolicyKeys SigningKey VerifyingKey) where
  unfoldable pub policy_digest : SignedModelPolicy → String
  policy_digest p = k.signing.hex_encode (k.sha256 (to_canonical_bytes k.signing.quoted p))

  abbrev pub with_public_key : SigningKey → SignedModelPolicy → SignedModelPolicy
  with_public_key key p = record p {
    public_key = k.signing.hex_encode (k.to_bytes (k.signing.verifying_key key));
  }

  unfoldable pub sign : SigningKey → SignedModelPolicy → SignedModelPolicy
  sign key p = record (with_public_key key p) {
    signature =
        k.signing.hex_encode
          (k.signing.sign_bytes key (to_canonical_bytes k.signing.quoted (with_public_key key p)));
  }

  unfoldable pub verify_signature : SignedModelPolicy → Result String Bool
  verify_signature p = do
    pubkey_bytes ← k.signing.hex_decode p.public_key
    pubkey_array ← key_array pubkey_bytes
    verifying_key ← k.signing.key_from_bytes pubkey_array
    sig_bytes ← k.signing.hex_decode p.signature
    sig ← k.signing.signature_from_slice sig_bytes
    ok (k.signing.verify_strict verifying_key (to_canonical_bytes k.signing.quoted p) sig)
