-- ===== src/FileTree/Enters.antt =====
-- The directories that `write` of crates/git-broker/src/tree.rs walks and makes on its way.
use vitna_code.Base.{String, ◌≡◌, refl, inr, Option, none, some, List, [], ◌∷◌, ◌++◌}
use vitna_code.Base.Steps.{After-imp}
use vitna_code.Broker.{Tree}
use vitna_code.FileTree.{
  Place, Node, directory, link, regular, special, Disk, inspect, make_dir, Host,
}
use vitna_code.FileTree.Write.{appeared, create_dir, pass_dir, enter_dir, enter_dirs}
use vitna_code.FileTree.Reads.{Passes}
use vitna_code.FileTree.Keeps.{
  Kept, Keeping, Kept-refl, chain, weaken-Keeping, made-Keeping, looked-Keeping,
}

module _ (q : Place) (h : Host) (tree : Tree) (rel : String) where
  appeared-Keeping :
      (d : Disk) (place : Place) (names : List String) (x : Option Node)
      → d place ≡ x
      → Keeping q d (λ _ s. s place ≡ some directory) (appeared h tree rel names x d)
  appeared-Keeping d place names none e = Kept-refl q d
  appeared-Keeping d place names (some directory) e = (Kept-refl q d, e)
  appeared-Keeping d place names (some (link t)) e = Kept-refl q d
  appeared-Keeping d place names (some (regular b m)) e = Kept-refl q d
  appeared-Keeping d place names (some (special k)) e = Kept-refl q d

  create_dir-Keeping :
      (d : Disk) (place : Place) (names : List String) (x : Option Node)
      → d place ≡ x
      → Keeping q d (λ _ s. s place ≡ some directory) (create_dir h tree rel place names x d)
  create_dir-Keeping d place names none e = made-Keeping q h tree rel d place _ directory e make_dir
  create_dir-Keeping d place names (some y) e =
      looked-Keeping q h tree rel d place (appeared h tree rel names)
        (λ _ s. s place ≡ some directory)
        (λ x s found passed. appeared-Keeping s place names x found)

  pass_dir-Keeping :
      (d : Disk) (dir place : Place) (names : List String) (x : Option Node)
      → d place ≡ x
      → Keeping q d (λ _ s. s place ≡ some directory) (pass_dir h tree rel dir place names x d)
  pass_dir-Keeping d dir place names none e = create_dir-Keeping d place names (d place) refl
  pass_dir-Keeping d dir place names (some directory) e = (Kept-refl q d, e)
  pass_dir-Keeping d dir place names (some (link t)) e = Kept-refl q d
  pass_dir-Keeping d dir place names (some (regular b m)) e = Kept-refl q d
  pass_dir-Keeping d dir place names (some (special k)) e = Kept-refl q d

  abbrev pub PassedDir : Place → Disk → Type 0
  PassedDir place s = Passes h s inspect place × (s place ≡ some directory)

  enter_dir-Keeping :
      (d : Disk) (dir place : Place) (names : List String)
      → Keeping q d (λ _ s. PassedDir place s) (enter_dir h tree rel dir place names d)
  enter_dir-Keeping d dir place names =
      looked-Keeping q h tree rel d place (pass_dir h tree rel dir place names)
        (λ _ s. PassedDir place s)
        (λ x s found passed.
          weaken-Keeping q s (pass_dir h tree rel dir place names x s)
            (λ _ t. t place ≡ some directory) (λ _ t. PassedDir place t)
            (λ _ t there. (passed, there)) (pass_dir-Keeping s dir place names x found))

  abbrev pub PassedDirs : Place → List String → Disk → Type 0
  PassedDirs dir [] s = Unit {0}
  PassedDirs dir (n ∷ dirs) s = PassedDir (dir ++ n ∷ []) s × PassedDirs (dir ++ n ∷ []) dirs s

  pub Kept-PassedDirs :
      (d d' : Disk) (dir : Place) (dirs : List String)
      → Kept q d d'
      → PassedDirs dir dirs d
      → PassedDirs dir dirs d'
  Kept-PassedDirs d d' dir [] kept p = tt
  Kept-PassedDirs d d' dir (n ∷ dirs) kept ((passed, there), more) =
      ((passed, kept _ _ there (inr refl)), Kept-PassedDirs d d' (dir ++ n ∷ []) dirs kept more)

  pub enter_dirs-Keeping :
      (d : Disk) (dir : Place) (seen dirs : List String)
      → Keeping q d (λ _ s. PassedDirs dir dirs s) (enter_dirs h tree rel dir seen dirs d)
  unfolding enter_dirs
  enter_dirs-Keeping d dir seen [] = (Kept-refl q d, tt)
  enter_dirs-Keeping d dir seen (n ∷ dirs) =
      chain q d (enter_dir h tree rel dir (dir ++ n ∷ []) (seen ++ n ∷ []) d)
        (λ _. enter_dirs h tree rel (dir ++ n ∷ []) (seen ++ n ∷ []) dirs)
        (λ _ s. PassedDir (dir ++ n ∷ []) s) (λ _ s. PassedDirs dir (n ∷ dirs) s)
        (enter_dir-Keeping d dir (dir ++ n ∷ []) (seen ++ n ∷ []))
        (λ _ s (passed, there).
          After-imp (enter_dirs h tree rel (dir ++ n ∷ []) (seen ++ n ∷ []) dirs s)
            (λ _ t. Kept q s t × PassedDirs (dir ++ n ∷ []) dirs t)
            (λ _ t. Kept q s t × PassedDirs dir (n ∷ dirs) t) (Kept q s) (Kept q s)
            (λ _ t (kept, more). (kept, ((passed, kept _ _ there (inr refl)), more)))
            (λ t kept. kept) (enter_dirs-Keeping s (dir ++ n ∷ []) (seen ++ n ∷ []) dirs))
