-- ===== src/Receipts/Tests.antt =====
-- Runs of the receipts of crates/receipts/src/lib.rs, and the theorems at concrete hashes.
use Prim.Native.Char.{code}
use vitna_code.Base.{
  ℕ, zero, suc, String, none, some, List, [], ◌∷◌, ◌++◌, map, nat_eq, ◌≡◌, ◌⊎◌, refl, false, ◌||◌,
  arith, ap,
}
use vitna_code.Bytes.{Bytes}
use vitna_code.Store.{Crypto}
use vitna_code.Receipts.{
  EvidenceItemRecord, VitnaRunReceiptV1, has_evidence, add_evidence, aggregate_child_receipt,
}
use vitna_code.Receipts.Aggregate.{DistinctEvidence, aggregate_evidence}
use vitna_code.Receipts.Merkle.{zeros, next_level, reduce, leaf, compute_event_merkle_root}
use vitna_code.Receipts.Binding.{Collision, merkle_root_binds}

-- A byte as that many ones and a nought.
abbrev tally : ℕ → String → String
tally zero s = String.◌∷◌ "0" s
tally (suc n) s = String.◌∷◌ "1" (tally n s)

abbrev print : Bytes → String
print [] = ""
print (b ∷ bytes) = tally b (print bytes)

abbrev behead : String → String
behead String.[] = ""
behead (String.◌∷◌ c s) = s

abbrev first_code : String → ℕ
first_code String.[] = 0
first_code (String.◌∷◌ c s) = code c

differ : (a b : ℕ) → nat_eq a b ≡ false → a ≡ b → ⊥
differ a b n e = ground arith

tally_inj : (m n : ℕ) (s t : String) → tally m s ≡ tally n t → (m ≡ n) × (s ≡ t)
tally_inj zero zero s t e = (refl, ap behead e)
tally_inj zero (suc n) s t e = absurd (differ 48 49 refl (ap first_code e))
tally_inj (suc m) zero s t e = absurd (differ 49 48 refl (ap first_code e))
tally_inj (suc m) (suc n) s t e = let (p, q) = tally_inj m n s t (ap behead e) in (ap suc p, q)

print_nonempty : (b : ℕ) (bytes : Bytes) → print (b ∷ bytes) ≡ "" → ⊥
print_nonempty zero bytes e = differ 48 0 refl (ap first_code e)
print_nonempty (suc b) bytes e = differ 49 0 refl (ap first_code e)

print_inj : (x y : Bytes) → print x ≡ print y → x ≡ y
print_inj [] [] e = refl
print_inj [] (b ∷ y) e = absurd (ground (arith, print_nonempty b y))
print_inj (a ∷ x) [] e = absurd (ground (arith, print_nonempty a x))
print_inj (a ∷ x) (b ∷ y) e =
    let (h, t) = tally_inj a b (print x) (print y) e in ground (arith, h, print_inj x y t)

-- One digest for everything.
abbrev constant : Crypto
constant = record { sha256 = λ b. zeros 32; hex_encode = print; hex_decode = λ h. none }

abbrev item : String → EvidenceItemRecord
item id = record {
  evidence_id = id;
  grade = "sandbox_captured";
  description = "tests passed";
  artifact_digest = none;
}

abbrev receipt : String → List EvidenceItemRecord → VitnaRunReceiptV1
receipt root items = record {
  schema_version = "vitna-run-receipt-v1";
  run_id = "run";
  session_id = "session";
  workspace_fingerprint = "fp";
  base_commit_sha = "abcd";
  model_selection = record {
    provider = "anthropic";
    model_sku = "sku";
    routing_reason = "pinned";
    policy_digest = none;
  };
  event_hash_chain_root = root;
  isolation_label = "guarded";
  completion_state = "completed_with_evidence";
  evidence_items = items;
  changeset = record { files_modified = []; diff_digest = "" };
  runner_execution_statements = [];
  child_receipt_roots = [];
  device_signature = "";
}

abbrev parent : VitnaRunReceiptV1
parent = receipt "root-1" (item "a" ∷ item "b" ∷ [])

abbrev child : VitnaRunReceiptV1
child = receipt "root-2" (item "b" ∷ item "c" ∷ item "c" ∷ [])

adds_c : (aggregate_child_receipt parent child).evidence_items ≡ item "a" ∷ item "b" ∷ item "c" ∷ []
unfolding aggregate_child_receipt add_evidence
adds_c = refl

keeps_the_root : (aggregate_child_receipt parent child).child_receipt_roots ≡ "root-2" ∷ []
unfolding aggregate_child_receipt
keeps_the_root = refl

aggregate_evidence_example :
    DistinctEvidence (aggregate_child_receipt parent child).evidence_items
    × ((new : List EvidenceItemRecord) × ((aggregate_child_receipt parent child).evidence_items
          ≡ parent.evidence_items ++ new))
    × ((id : String)
        → has_evidence (aggregate_child_receipt parent child).evidence_items id
          ≡ (has_evidence parent.evidence_items id || has_evidence child.evidence_items id))
aggregate_evidence_example = aggregate_evidence parent child (refl, (refl, tt))

root_of_a_b : compute_event_merkle_root constant ("a" ∷ "b" ∷ []) ≡ some (print (zeros 32))
unfolding compute_event_merkle_root reduce next_level
root_of_a_b = refl

root_of_c_d : compute_event_merkle_root constant ("c" ∷ "d" ∷ []) ≡ some (print (zeros 32))
unfolding compute_event_merkle_root reduce next_level
root_of_c_d = refl

merkle_root_binds_example :
    (map (leaf constant) ("a" ∷ "b" ∷ []) ≡ map (leaf constant) ("c" ∷ "d" ∷ []))
    ⊎ Collision constant.sha256
merkle_root_binds_example =
    merkle_root_binds constant ("a" ∷ "b" ∷ []) ("c" ∷ "d" ∷ []) (print (zeros 32)) (λ b. refl)
      print_inj refl (refl, (refl, tt)) (refl, (refl, tt)) root_of_a_b root_of_c_d
