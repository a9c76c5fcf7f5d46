-- ===== src/Policy/Signed.antt =====
-- Signing a policy of crates/policy/src/lib.rs.
use vitna_code.Base.{String, true, ◌≡◌, refl, ok, length}
use vitna_code.Policy.{
  SignedModelPolicy, to_canonical_bytes, PolicyKeys, PolicyKeysLaws, key_array, policy_digest,
  with_public_key, sign, verify_signature,
}
use vitna_code.Bytes.{Bytes}

key_array_ok : (b : Bytes) → length b ≡ 32 → key_array b ≡ ok b
key_array_ok b h = rw h refl

-- A policy that was signed passes the check, with a digest that its signature does not change. A
-- signature or a key that stood in it before leaves no trace.
pub verify_signature-sign_policy :
    (SigningKey VerifyingKey : Type 0) (k : PolicyKeys SigningKey VerifyingKey) (key : SigningKey)
    (p : SignedModelPolicy) (other_key other_signature : String)
    → PolicyKeysLaws k
    → (verify_signature k (sign k key p) ≡ ok true)
      × (policy_digest k (sign k key p) ≡ policy_digest k (with_public_key k key p))
      × (sign k key (record p { public_key = other_key; signature = other_signature })
          ≡ sign k key p)
unfolding verify_signature sign policy_digest to_canonical_bytes
verify_signature-sign_policy SigningKey VerifyingKey k key p other_key other_signature laws =
    let v = k.signing.verifying_key key in
    let m = to_canonical_bytes k.signing.quoted (with_public_key k key p) in
    let signed = laws.signing_laws in
    (
      rw
          (
            laws.decode_key v,
            key_array_ok (k.to_bytes v) (laws.length-to_bytes v),
            laws.read_key v,
            signed.decode_sign key m,
            signed.slice_sign key m,
            signed.verify_sign key m,
          )
          refl,
      refl,
      refl,
    )
