-- ===== src/FileTree/Merges.antt =====
-- The trees of crates/git-broker/src/tree.rs are what crates/git-broker/src/broker.rs takes them for.
use mathlib.Core.List.{append_assoc}
use vitna_code.Base.{
  ℕ, String, ◌≡◌, ◌≢◌, refl, sym, ◌∙◌, ap, subst, inl, inr, List, [], ◌∷◌, ◌++◌, Result, ok, err,
}
use vitna_code.Base.Steps.{Step, next, lift, After-imp}
use vitna_code.Bytes.{Bytes}
use vitna_code.Broker.{file, Tree, Trees, TreeLaws}
use vitna_code.FileTree.{Place, Disk, Host, root_place}
use vitna_code.FileTree.Walk.{names_of, entry, open_tree, shown}
use vitna_code.FileTree.Write.{dirs_of, enter_dirs, write_file, write_names, write}
use vitna_code.FileTree.Reads.{Leads, LeadsAll, entry_file_iff}
use vitna_code.FileTree.Keeps.{Kept, Keeping, chain}
use vitna_code.FileTree.Enters.{PassedDirs, Kept-PassedDirs, enter_dirs-Keeping}
use vitna_code.FileTree.Leaves.{FileAt, write_file-Keeping}

abbrev pub place_of : Result String (List String) → String
place_of (ok names) = shown names
place_of (err e) = ""

-- The operations of a tree, as the broker calls them.
abbrev pub file_trees : Host → Trees Disk
file_trees h = record {
  sha256_hex = h.sha256_hex;
  open_tree = open_tree h;
  entry = entry h;
  write = write h;
  place = λ tree rel. place_of (names_of tree rel);
}

module _ (h : Host) (tree : Tree) (rel : String) where
  Leads-to :
      (q : Place) (s : Disk) (dir : Place) (n : String) (names : List String) (bytes : Bytes)
      (mode : ℕ)
      → PassedDirs q h tree rel dir (dirs_of n names) s
      → FileAt h tree rel (dir ++ n ∷ names) bytes mode s
      → Leads h s dir n names bytes mode
  Leads-to q s dir n [] bytes mode dirs there = there
  Leads-to q s dir n (k ∷ names) bytes mode ((passed, at), dirs) there = (
    passed,
    at,
    Leads-to q s (dir ++ n ∷ []) k names bytes mode dirs (
        subst (λ p. FileAt h tree rel p bytes mode s) (sym (append_assoc dir (n ∷ []) (k ∷ names)))
          there),
  )

  -- The names lead to the file that was write_leaves, and nothing else was changed.
  write_names-Keeping :
      (d : Disk) (hash : String) (content : Bytes) (mode : ℕ) (n : String) (names : List String)
      → Keeping
          (root_place tree ++ n ∷ names)
          d
          (λ _ s. Leads h s (root_place tree) n names content mode)
          (write_names h tree rel hash content mode (n ∷ names) d)
  write_names-Keeping d hash content mode n names =
      chain q d (enter_dirs h tree rel (root_place tree) [] (dirs_of n names) d)
        (λ _.
          write_file h tree rel hash content mode (root_place tree ++ dirs_of n names) q
            (n ∷ names))
        (λ _ s. PassedDirs q h tree rel (root_place tree) (dirs_of n names) s)
        (λ _ s. Leads h s (root_place tree) n names content mode)
        (enter_dirs-Keeping q h tree rel d (root_place tree) [] (dirs_of n names))
        (λ _ s passed.
          After-imp
            (write_file h tree rel hash content mode (root_place tree ++ dirs_of n names) q
              (n ∷ names) s)
            (λ _ t. Kept q s t × FileAt h tree rel q content mode t)
            (λ _ t. Kept q s t × Leads h t (root_place tree) n names content mode) (Kept q s)
            (Kept q s)
            (λ _ t (kept, there). (
              kept,
              Leads-to q t (root_place tree) n names content mode
                  (Kept-PassedDirs q h tree rel s t (root_place tree) (dirs_of n names) kept passed)
                  there,
            ))
            (λ t kept. kept)
            (write_file-Keeping h tree rel q s hash content mode
              (root_place tree ++ dirs_of n names) (n ∷ names)))
    where
      q : Place
      q = root_place tree ++ n ∷ names

append_cancel : (p a b : List String) → p ++ a ≡ p ++ b → a ≡ b
append_cancel [] a b e = e
append_cancel (x ∷ p) a b e = append_cancel p a b (cc)

After-Kept :
    (q : Place) (d : Disk) (Q : Unit {0} → Disk → Type 0) (r : Disk × Result String (Unit {0}))
    → Keeping q d Q r
    → Kept q d r.0
After-Kept q d Q (s, ok u) (kept, _) = kept
After-Kept q d Q (s, err e) kept = kept

After-ok :
    (q : Place) (d s : Disk) (Q : Unit {0} → Disk → Type 0) (r : Disk × Result String (Unit {0}))
    → Keeping q d Q r
    → r ≡ (s, ok tt)
    → Q tt s
After-ok q d s Q r k e =
    (let there : Keeping q d Q (s, ok tt) = subst (Keeping q d Q) e k in there.1)

module _ (h : Host) where
  Kept-Leads :
      (q : Place) (d d' : Disk) (dir : Place) (n : String) (names : List String) (bytes : Bytes)
      (mode : ℕ)
      → Kept q d d'
      → dir ++ n ∷ names ≢ q
      → Leads h d dir n names bytes mode
      → Leads h d' dir n names bytes mode
  Kept-Leads q d d' dir n [] bytes mode kept apart (passed, there, opened, readable) =
      (passed, kept _ _ there (inl apart), opened, readable)
  Kept-Leads q d d' dir n (k ∷ names) bytes mode kept apart (passed, there, more) = (
    passed,
    kept _ _ there (inr refl),
    Kept-Leads q d d' (dir ++ n ∷ []) k names bytes mode kept
        (λ e. apart (sym (append_assoc dir (n ∷ []) (k ∷ names)) ∙ e)) more,
  )

  Kept-LeadsAll :
      (d d' : Disk) (root : Place) (names other : List String) (bytes : Bytes) (mode : ℕ)
      → Kept (root ++ names) d d'
      → other ≢ names
      → LeadsAll h d root other bytes mode
      → LeadsAll h d' root other bytes mode
  Kept-LeadsAll d d' root names [] bytes mode kept apart l = l
  Kept-LeadsAll d d' root names (n ∷ other) bytes mode kept apart l =
      Kept-Leads (root ++ names) d d' root n other bytes mode kept
        (λ e. apart (append_cancel root (n ∷ other) names e)) l

  module _ (tree : Tree) (rel hash : String) (content : Bytes) (mode : ℕ) where
    abbrev write_at : Result String (List String) → Step Disk (Unit {0})
    write_at r d = next (lift r d) (write_names h tree rel hash content mode)

    write_leaves :
        (d d' : Disk) (r : Result String (List String))
        → names_of tree rel ≡ r
        → write_at r d ≡ (d', ok tt)
        → entry h d' tree rel ≡ ok (file content mode)
    write_leaves d d' (err e) named y = absurd (cc)
    write_leaves d d' (ok []) named y = absurd (cc)
    write_leaves d d' (ok (n ∷ names)) named y = (entry_file_iff h d' tree rel content mode).1 (
      n ∷ names,
      named,
      After-ok (root_place tree ++ n ∷ names) d d'
          (λ _ s. Leads h s (root_place tree) n names content mode)
          (write_names h tree rel hash content mode (n ∷ names) d)
          (write_names-Keeping h tree rel d hash content mode n names) y,
    )

    untouched :
        (d : Disk) (other : String) (found : Bytes) (m : ℕ) (r : Result String (List String))
        → place_of (names_of tree other) ≢ place_of r
        → entry h d tree other ≡ ok (file found m)
        → entry h (write_at r d).0 tree other ≡ ok (file found m)
    untouched d other found m (err e) apart y = y
    untouched d other found m (ok []) apart y = y
    untouched d other found m (ok (n ∷ names)) apart y =
        let (names', named, leads) = (entry_file_iff h d tree other found m).0 y in
        (entry_file_iff h (write_at (ok (n ∷ names)) d).0 tree other found m).1 (
          names',
          named,
          Kept-LeadsAll d (write_at (ok (n ∷ names)) d).0 (root_place tree) (n ∷ names) names' found
              m
              (After-Kept (root_place tree ++ n ∷ names) d
                (λ _ s. Leads h s (root_place tree) n names content mode)
                (write_names h tree rel hash content mode (n ∷ names) d)
                (write_names-Keeping h tree rel d hash content mode n names))
              (λ same. apart (ap place_of (named ∙ ap (λ (z : List String). ok z) same))) leads,
        )

-- The trees meet what the broker assumes of them: a write that succeeds leaves exactly the content
-- and the mode, and no write, failed or not, changes a regular file at another place.
pub file_trees-TreeLaws : (h : Host) → TreeLaws (file_trees h)
unfolding write
file_trees-TreeLaws h = record {
  entry_write = λ d d' tree path preimage bytes mode y.
      write_leaves h tree path preimage bytes mode d d' (names_of tree path) refl y;
  entry_write_other = λ d tree path other preimage bytes found mode m apart y.
      untouched h tree path preimage bytes mode d other found m (names_of tree path) apart y;
}
