-- ===== src/Session/Sealed.antt =====
-- What a receipt of crates/app-server/src/journal.rs says of its session.
use vitna_code.Base.{
  String, true, false, ◌≡◌, refl, List, [], ◌∷◌, none, some, Result, ok, if◌then◌else◌, ◌⊎◌, inl,
  inr, ◌↔◌, eq_iff, Bool-cases,
}
use Prim.Native.String.{◌++◌ as str_append}
use vitna_code.Store.{Crypto, genesis_hash}
use vitna_code.Receipts.{VitnaRunReceiptV1}
use vitna_code.Receipts.Binding.{merkle_root_total}
use vitna_code.Receipts.Sign.{Signing, SigningLaws, sign, verify_signature}
use vitna_code.Receipts.Verify.{verify_signature-sign}
use vitna_code.Runner.{backend_none}
use vitna_code.Session.{
  Effect, write, remove, command, is_unsandboxed, Details, sha256_hex, chain, any_unsandboxed,
  unsigned, receipt,
}
use vitna_code.Session.Files.{Distinct, file_at, history, files_exact}

-- The command ran, and with no sandbox.
abbrev pub Unconfined : Effect → Type 0
Unconfined (write path pre post) = ⊥
Unconfined (remove path pre) = ⊥
Unconfined (command text dir none not_run) = ⊥
Unconfined (command text dir (some ran) not_run) = ran.sandbox_backend ≡ backend_none

abbrev pub SomeUnconfined : List Effect → Type 0
SomeUnconfined [] = ⊥
SomeUnconfined (e ∷ effects) = Unconfined e ⊎ SomeUnconfined effects

abbrev pub IsLabelled : List Effect → String → Type 0
IsLabelled effects label =
    (SomeUnconfined effects × (label ≡ "full_access"))
    ⊎ ((¬ (SomeUnconfined effects)) × (label ≡ "guarded"))

is_unsandboxed_iff : (e : Effect) → (is_unsandboxed e ≡ true) ↔ Unconfined e
is_unsandboxed_iff (write path pre post) = (λ h. absurd (cc), λ h. absurd h)
is_unsandboxed_iff (remove path pre) = (λ h. absurd (cc), λ h. absurd h)
is_unsandboxed_iff (command text dir none not_run) = (λ h. absurd (cc), λ h. absurd h)
is_unsandboxed_iff (command text dir (some ran) not_run) = eq_iff ran.sandbox_backend backend_none

any_unsandboxed_iff :
    (effects : List Effect) → (any_unsandboxed effects ≡ true) ↔ SomeUnconfined effects
any_unsandboxed_iff [] = (λ h. absurd (cc), λ h. absurd h)
any_unsandboxed_iff (e ∷ effects) =
    let (to, from) = is_unsandboxed_iff e in
    let (to_rest, from_rest) = any_unsandboxed_iff effects in
    elim (Bool-cases (is_unsandboxed e)) [
      | inl y ↦ rw y (λ h. inl (to y), λ h. refl)
      | inr y ↦ rw y (λ h. inr (to_rest h), by_rest e effects y from from_rest)
    ]
  where
    by_rest :
        (e : Effect) (effects : List Effect)
        → is_unsandboxed e ≡ false
        → (Unconfined e → is_unsandboxed e ≡ true)
        → (SomeUnconfined effects → any_unsandboxed effects ≡ true)
        → Unconfined e ⊎ SomeUnconfined effects
        → any_unsandboxed effects ≡ true
    by_rest e effects y from from_rest (inl u) = absurd (let both = from u in cc)
    by_rest e effects y from from_rest (inr u) = from_rest u

label-IsLabelled :
    (effects : List Effect)
    → IsLabelled effects (if any_unsandboxed effects then "full_access" else "guarded")
label-IsLabelled effects =
    let (to, from) = any_unsandboxed_iff effects in
    elim (Bool-cases (any_unsandboxed effects)) [
      | inl y ↦ rw y (inl (to y, refl))
      | inr y ↦ rw y (inr (λ u. let both = from u in absurd (cc), refl))
    ]

-- The label of the isolation, the files with their history, and the signature.
abbrev pub IsSealed :
    {SigningKey VerifyingKey : Type 0}
    → Signing SigningKey VerifyingKey
    → List Effect
    → SigningKey
    → VitnaRunReceiptV1
    → Type 0
IsSealed s effects key r =
    (verify_signature s r (s.verifying_key key) ≡ ok true)
    × IsLabelled effects r.isolation_label
    × Distinct r.changeset.files_modified
    × ((path : String) → file_at path r.changeset.files_modified ≡ history path effects)

module _ (SigningKey VerifyingKey : Type 0) (c : Crypto) (s : Signing SigningKey VerifyingKey)
    (effect_text : Effect → Result String String)
    (texts : (e : Effect) → (t : String) × (effect_text e ≡ ok t)) where
  chain_total :
      (previous : String) (effects : List Effect)
      → (hashes : List String) × (chain c s effect_text previous effects ≡ ok hashes)
  unfolding chain
  chain_total previous [] = ([], refl)
  chain_total previous (e ∷ effects) =
      let (body, written) = texts e in
      let hash = sha256_hex c s effect_text (str_append previous (str_append "\n" body)) in
      let (hashes, more) = chain_total hash effects in (hash ∷ hashes, rw written (rw more refl))

  IsSealed-sign :
      (effects : List Effect) (details : Details) (key : SigningKey) (root : String)
      → SigningLaws s
      → IsSealed s effects key (sign s key (unsigned c s effect_text effects details key root))
  unfolding sign
  IsSealed-sign effects details key root laws =
      let (distinct, exact) = files_exact effects in
      (
        verify_signature-sign SigningKey VerifyingKey s key
            (unsigned c s effect_text effects details key root) laws,
        label-IsLabelled effects,
        distinct,
        exact,
      )

-- Where every effect has a text, a session has a receipt. It passes the check with the key of its
-- signer, says full access exactly where some command ran with no sandbox, and has one record for
-- each path that an effect changed, with what the path held before the first and after the last.
pub receipt-IsSealed :
    (SigningKey VerifyingKey : Type 0) (c : Crypto) (s : Signing SigningKey VerifyingKey)
    (effect_text : Effect → Result String String) (effects : List Effect) (details : Details)
    (key : SigningKey)
    → SigningLaws s
    → ((e : Effect) → (t : String) × (effect_text e ≡ ok t))
    → (r : VitnaRunReceiptV1) × (receipt c s effect_text effects details key ≡ ok r)
      × IsSealed s effects key r
unfolding receipt
receipt-IsSealed SigningKey VerifyingKey c s effect_text effects details key laws texts =
    let (hashes, chained) =
      chain_total SigningKey VerifyingKey c s effect_text texts genesis_hash effects in
    let (root, rooted) = merkle_root_total c hashes in
    (
      sign s key (unsigned c s effect_text effects details key root),
      rw chained (rw rooted refl),
      IsSealed-sign SigningKey VerifyingKey c s effect_text texts effects details key root laws,
    )
