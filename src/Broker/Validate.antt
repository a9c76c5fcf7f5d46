-- ===== src/Broker/Validate.antt =====
-- When `validate_preimages` of crates/git-broker/src/broker.rs finds no conflict.
use vitna_code.Base.{
  String, ◌≡◌, refl, subst, ap, none, List, [], ◌∷◌, ◌++◌, Result, ok, err, arith, eq_iff, ◌↔◌, All,
}
use vitna_code.Broker.{
  FileChange, ChangeSet, MergeConflict, Entry, absent, blocked, file, refused, Tree, Trees,
  null_hash, primary_name, current_of, conflict_of, with_entry, conflicts_from, in_tree,
  validate_preimages,
}

module _ {Disk : Type 0} (t : Trees Disk) where
  -- What is found is a regular file with that hash, or nothing where the hash is the null hash.
  abbrev pub IsHolding : Entry → String → Type 0
  IsHolding absent hash = null_hash ≡ hash
  IsHolding (file bytes mode) hash = t.sha256_hex bytes ≡ hash
  IsHolding (blocked reason) hash = ⊥
  IsHolding (refused reason) hash = ⊥

  abbrev pub Holds : Disk → Tree → String → String → Type 0
  Holds d tree path hash = (e : Entry) × (t.entry d tree path ≡ ok e) × IsHolding e hash

  conflict_none :
      (change : FileChange) (current : String)
      → current ≡ change.preimage_hash
      → conflict_of t change (current, none) ≡ []
  conflict_none change current e = ground (arith, (eq_iff current change.preimage_hash).1 e)

  conflict_some :
      (change : FileChange) (current : String)
      → conflict_of t change (current, none) ≡ []
      → current ≡ change.preimage_hash
  conflict_some change current e = ground (arith, eq_iff current change.preimage_hash)

  none_of_append : (xs ys : List MergeConflict) → xs ++ ys ≡ [] → (xs ≡ []) × (ys ≡ [])
  none_of_append [] ys e = (refl, e)
  none_of_append (x ∷ xs) ys e = absurd (ground arith)

  IsHolding-conflict_of :
      (change : FileChange) (e : Entry)
      → (conflict_of t change (current_of t e) ≡ []) ↔ IsHolding e change.preimage_hash
  IsHolding-conflict_of change absent =
      (conflict_some change null_hash, conflict_none change null_hash)
  IsHolding-conflict_of change (file bytes mode) =
      (conflict_some change (t.sha256_hex bytes), conflict_none change (t.sha256_hex bytes))
  IsHolding-conflict_of change (blocked reason) = (λ y. absurd (ground arith), λ y. absurd y)
  IsHolding-conflict_of change (refused reason) = (λ y. absurd (ground arith), λ y. absurd y)

  with_entry_none :
      (change : FileChange) (r : Result String Entry) (rest : Result String (List MergeConflict))
      → (with_entry t change r rest ≡ ok [])
        ↔ ((e : Entry) × (r ≡ ok e) × IsHolding e change.preimage_hash) × (rest ≡ ok [])
  with_entry_none change (err x) rest = (λ y. absurd (cc), λ (h, y). absurd (cc))
  with_entry_none change (ok e) (err x) = (λ y. absurd (cc), λ (h, y). absurd (cc))
  with_entry_none change (ok e) (ok conflicts) = (
    λ y.
        let (found, rest) =
          none_of_append (conflict_of t change (current_of t e)) conflicts (ground arith) in
        ((e, refl, (IsHolding-conflict_of change e).0 found), ap ok rest),
    λ (h, y).
        let same : h.0 ≡ e = ground (arith, h.1) in
        let found =
          (IsHolding-conflict_of change e).1
            (subst (λ z. IsHolding z change.preimage_hash) same h.2) in
        ground (arith, found, y),
  )

  conflicts_none :
      (d : Disk) (tree : Tree) (files : List FileChange)
      → (conflicts_from t d tree files ≡ ok [])
        ↔ All (λ c. Holds d tree c.path c.preimage_hash) files
  unfolding conflicts_from
  conflicts_none d tree [] = (λ y. tt, λ y. refl)
  conflicts_none d tree (change ∷ files) =
      let (to, from) =
        with_entry_none change (t.entry d tree change.path) (conflicts_from t d tree files) in
      (
        λ y. ((to y).0, (conflicts_none d tree files).0 (to y).1),
        λ (h, hs). from (h, (conflicts_none d tree files).1 hs),
      )

-- The check finds no conflict exactly where the primary checkout opens and every change's path
-- holds its preimage: a regular file with that hash, or nothing where it is the null hash.
pub validate_preimages_none_iff :
    (Disk : Type 0) (t : Trees Disk) (d : Disk) (primary_repo : String) (changeset : ChangeSet)
    → (validate_preimages t d primary_repo changeset ≡ ok []) ↔ (
        (tree : Tree) × (t.open_tree d primary_repo primary_name ≡ ok tree)
        × All (λ c. Holds t d tree c.path c.preimage_hash) changeset.files)
unfolding validate_preimages
validate_preimages_none_iff Disk t d primary_repo changeset =
    opened (t.open_tree d primary_repo primary_name)
  where
    opened :
        (r : Result String Tree)
        → (in_tree t r (λ primary. conflicts_from t d primary changeset.files) ≡ ok []) ↔ (
            (tree : Tree) × (r ≡ ok tree)
            × All (λ c. Holds t d tree c.path c.preimage_hash) changeset.files)
    opened (err x) = (λ y. absurd (cc), λ h. absurd (ground (arith, h.1)))
    opened (ok tree) = (
      λ y. (tree, refl, (conflicts_none t d tree changeset.files).0 y),
      λ h.
          let same : h.0 ≡ tree = ground (arith, h.1) in
          (conflicts_none t d tree changeset.files).1
            (subst (λ x. All (λ c. Holds t d x c.path c.preimage_hash) changeset.files) same h.2),
    )
