-- ===== src/Receipts/Aggregate.antt =====
-- What `aggregate_child_receipt` of crates/receipts/src/lib.rs keeps and adds.
use vitna_code.Base.{
  String, ◌≡◌, refl, ap, sym, ◌∙◌, true, false, ◌||◌, List, [], ◌∷◌, ◌++◌, arith, ◌==◌, eq_iff,
  Bool-cases, inl, inr,
}
use mathlib.Core.List.{append-nil, append_assoc}
use vitna_code.Receipts.{
  EvidenceItemRecord, VitnaRunReceiptV1, has_evidence, add_evidence, aggregate_child_receipt,
}

-- No evidence id stands twice.
abbrev pub DistinctEvidence : List EvidenceItemRecord → Type 0
DistinctEvidence [] = Unit
DistinctEvidence (e ∷ items) = (has_evidence items e.evidence_id ≡ false) × DistinctEvidence items

has_evidence-append :
    (xs ys : List EvidenceItemRecord) (id : String)
    → has_evidence (xs ++ ys) id ≡ (has_evidence xs id || has_evidence ys id)
has_evidence-append [] ys id = refl
has_evidence-append (x ∷ xs) ys id = ground (arith, has_evidence-append xs ys id)

DistinctEvidence-push :
    (items : List EvidenceItemRecord) (e : EvidenceItemRecord)
    → has_evidence items e.evidence_id ≡ false
    → DistinctEvidence items
    → DistinctEvidence (items ++ e ∷ [])
DistinctEvidence-push [] e h d = (refl, tt)
DistinctEvidence-push (x ∷ items) e h d = (
  ground (
    arith,
    has_evidence-append items (e ∷ []) x.evidence_id,
    eq_iff x.evidence_id e.evidence_id,
    eq_iff e.evidence_id x.evidence_id,
  ),
  DistinctEvidence-push items e (ground arith) d.1,
)

DistinctEvidence-add :
    (items more : List EvidenceItemRecord)
    → DistinctEvidence items
    → DistinctEvidence (add_evidence items more)
unfolding add_evidence
DistinctEvidence-add items [] d = d
DistinctEvidence-add items (e ∷ more) d = elim (Bool-cases (has_evidence items e.evidence_id)) [
  | inl old ↦ rw old (DistinctEvidence-add items more d)
  | inr new ↦
      rw new (DistinctEvidence-add (items ++ e ∷ []) more (DistinctEvidence-push items e new d))
]

has_evidence-add :
    (items more : List EvidenceItemRecord) (id : String)
    → has_evidence (add_evidence items more) id ≡ (has_evidence items id || has_evidence more id)
unfolding add_evidence
has_evidence-add items [] id = ground arith
has_evidence-add items (e ∷ more) id = elim (Bool-cases (has_evidence items e.evidence_id)) [
  | inl old ↦ rw old (ground (arith, has_evidence-add items more id, same))
  | inr new ↦ rw new (
      ground
        (arith, has_evidence-add (items ++ e ∷ []) more id, has_evidence-append items (e ∷ []) id))
]
  where
    same : e.evidence_id == id ≡ true → has_evidence items e.evidence_id ≡ has_evidence items id
    same h = ap (has_evidence items) ((eq_iff e.evidence_id id).0 h)

add_evidence_extends :
    (items more : List EvidenceItemRecord)
    → (new : List EvidenceItemRecord) × (add_evidence items more ≡ items ++ new)
unfolding add_evidence
add_evidence_extends items [] = ([], sym (append-nil items))
add_evidence_extends items (e ∷ more) = elim (Bool-cases (has_evidence items e.evidence_id)) [
  | inl old ↦ rw old (add_evidence_extends items more)
  | inr new ↦
      let (tail, p) = add_evidence_extends (items ++ e ∷ []) more in
      rw new (e ∷ tail, p ∙ append_assoc items (e ∷ []) tail)
]

-- Aggregating a child leaves the parent's evidence in front, unchanged, keeps evidence ids
-- distinct, and ends with exactly the ids that the parent or the child had.
pub aggregate_evidence :
    (parent child : VitnaRunReceiptV1)
    → DistinctEvidence parent.evidence_items
    → let items = (aggregate_child_receipt parent child).evidence_items in
      DistinctEvidence items
      × ((new : List EvidenceItemRecord) × (items ≡ parent.evidence_items ++ new))
      × ((id : String)
          → has_evidence items id
            ≡ (has_evidence parent.evidence_items id || has_evidence child.evidence_items id))
unfolding aggregate_child_receipt
aggregate_evidence parent child d = (
  DistinctEvidence-add parent.evidence_items child.evidence_items d,
  add_evidence_extends parent.evidence_items child.evidence_items,
  has_evidence-add parent.evidence_items child.evidence_items,
)
