-- ===== src/Broker/Merge.antt =====
-- What a merge by crates/git-broker/src/broker.rs and crates/git-broker/src/merge_queue.rs checks
-- before it writes, and leaves when it is done.
use vitna_code.Base.{
  ℕ, String, ◌≡◌, ◌≢◌, refl, sym, ap, ◌∙◌, subst, List, [], ◌∷◌, map, length, Result, ok, err, All,
}
use vitna_code.Base.Steps.{lift, ◌>>=◌}
use vitna_code.Bytes.{Bytes}
use vitna_code.Broker.{FileChange, ChangeSet, file, Tree, Trees, TreeLaws, primary_name, agent_name}
use vitna_code.Broker.Write.{Source, read_sources, write_read, write_changes}
use vitna_code.Broker.Apply.{
  path_of, DistinctPlaces, IsRead, changes, read_sources_ok, write_sources_ok,
}
use vitna_code.Broker.Queue.{written}

module _ (Disk : Type 0) (t : Trees Disk) where
  -- The agent workspace has a file for the change, with the hash that the change attests.
  abbrev pub IsAttested : Disk → Tree → FileChange → Type 0
  IsAttested d agent c =
      (bytes : Bytes) × ((mode : ℕ) × (t.entry d agent c.path ≡ ok (file bytes mode))
        × (t.sha256_hex bytes ≡ c.postimage_hash))

  -- The primary checkout now has for the change what the agent workspace had.
  abbrev pub IsMerged : Disk → Tree → Disk → Tree → FileChange → Type 0
  IsMerged d agent d' primary c =
      (bytes : Bytes) × ((mode : ℕ) × (t.entry d agent c.path ≡ ok (file bytes mode))
        × (t.sha256_hex bytes ≡ c.postimage_hash)
        × (t.entry d' primary c.path ≡ ok (file bytes mode)))

  IsAttested-All :
      (d : Disk) (agent : Tree) (sources : List Source)
      → All (IsRead Disk t d agent) sources
      → All (IsAttested d agent) (changes sources)
  IsAttested-All d agent [] a = tt
  IsAttested-All d agent (s ∷ sources) a =
      ((s.bytes, (s.mode, a.0.1, a.0.0)), IsAttested-All d agent sources a.1)

  IsMerged-All :
      (d d' : Disk) (agent primary : Tree) (sources : List Source)
      → All (IsRead Disk t d agent) sources
      → All (λ s. t.entry d' primary s.change.path ≡ ok (file s.bytes s.mode)) sources
      → All (IsMerged d agent d' primary) (changes sources)
  IsMerged-All d d' agent primary [] a w = tt
  IsMerged-All d d' agent primary (s ∷ sources) a w =
      ((s.bytes, (s.mode, a.0.1, a.0.0, w.0)), IsMerged-All d d' agent primary sources a.1 w.1)

  write_changes_opened :
      (d : Disk) (primary_repo agent_root : String) (changeset : ChangeSet) (primary agent : Tree)
      → t.open_tree d primary_repo primary_name ≡ ok primary
      → t.open_tree d agent_root agent_name ≡ ok agent
      → write_changes t primary_repo agent_root changeset d
        ≡ write_read t primary (read_sources t d agent changeset.files) d
  unfolding write_changes
  write_changes_opened d primary_repo agent_root changeset primary agent p a =
      subst
        (λ x.
          (lift x >>= (λ tree.
              lift (t.open_tree d agent_root agent_name)
              >>= (λ other. write_read t tree (read_sources t d other changeset.files))))
            d
          ≡ write_read t primary (read_sources t d agent changeset.files) d)
        (sym p)
        (subst
          (λ x.
            (lift x >>= (λ other. write_read t primary (read_sources t d other changeset.files))) d
            ≡ write_read t primary (read_sources t d agent changeset.files) d)
          (sym a) refl)

  -- What was read, if all was.
  write_read_ok :
      (laws : TreeLaws t) (d : Disk) (agent primary : Tree) (files : List FileChange)
      (applied : List String) (r : Result String (List Source))
      → read_sources t d agent files ≡ r
      → DistinctPlaces t primary files
      → (write_read t primary r d).1 ≡ ok applied
      → (applied ≡ map path_of files)
        × All (IsMerged d agent (write_read t primary r d).0 primary) files
  write_read_ok laws d agent primary files applied (err e) y u h = absurd (cc)
  write_read_ok laws d agent primary files applied (ok sources) y u h =
      let (same, reads) = read_sources_ok Disk t d agent files sources y in
      let (paths, written) =
        write_sources_ok Disk t laws primary (length sources) sources [] applied d
          (subst (λ x. DistinctPlaces t primary x) (sym same) u) h in
      subst
        (λ x.
          (applied ≡ map path_of x)
          × All (IsMerged d agent (write_read t primary (ok sources) d).0 primary) x)
        same (paths, IsMerged-All d _ agent primary sources reads written)

  write_read_unattested :
      (d : Disk) (agent primary : Tree) (files : List FileChange) (r : Result String (List Source))
      → read_sources t d agent files ≡ r
      → (All (IsAttested d agent) files → ⊥)
      → ((write_read t primary r d).0 ≡ d)
        × ((a : List String) → (write_read t primary r d).1 ≢ ok a)
  write_read_unattested d agent primary files (err e) y n = (refl, λ a z. absurd (cc))
  write_read_unattested d agent primary files (ok sources) y n =
      let (same, reads) = read_sources_ok Disk t d agent files sources y in
      absurd
        (n (subst (λ x. All (IsAttested d agent) x) same (IsAttested-All d agent sources reads)))

-- Where `write_changes` succeeds on changes that lead to different places, it reports all their
-- paths in order, and for each change the primary checkout holds the very content that the agent
-- workspace had before, which has the hash that the change attests.
pub write_changes_merges :
    (Disk : Type 0) (t : Trees Disk) (d : Disk) (primary_repo agent_root : String)
    (changeset : ChangeSet) (primary agent : Tree) (applied : List String)
    → TreeLaws t
    → t.open_tree d primary_repo primary_name ≡ ok primary
    → t.open_tree d agent_root agent_name ≡ ok agent
    → DistinctPlaces t primary changeset.files
    → (write_changes t primary_repo agent_root changeset d).1 ≡ ok applied
    → (applied ≡ map path_of changeset.files)
      × All
          (IsMerged Disk t d agent (write_changes t primary_repo agent_root changeset d).0 primary)
          changeset.files
write_changes_merges Disk t d primary_repo agent_root changeset primary agent applied laws p a u h =
    let opened =
      write_changes_opened Disk t d primary_repo agent_root changeset primary agent p a in
    subst
      (λ r.
        (applied ≡ map path_of changeset.files)
        × All (IsMerged Disk t d agent r.0 primary) changeset.files)
      (sym opened)
      (write_read_ok Disk t laws d agent primary changeset.files applied _ refl u
        (sym (ap (λ r. r.1) opened) ∙ h))

-- Where the agent workspace lacks a file with the attested hash for some change, `write_changes`
-- returns an error and writes nothing at all.
pub write_changes_stale :
    (Disk : Type 0) (t : Trees Disk) (d : Disk) (primary_repo agent_root : String)
    (changeset : ChangeSet) (primary agent : Tree)
    → t.open_tree d primary_repo primary_name ≡ ok primary
    → t.open_tree d agent_root agent_name ≡ ok agent
    → (All (IsAttested Disk t d agent) changeset.files → ⊥)
    → ((write_changes t primary_repo agent_root changeset d).0 ≡ d)
      × ((applied : List String)
          → (write_changes t primary_repo agent_root changeset d).1 ≢ ok applied)
write_changes_stale Disk t d primary_repo agent_root changeset primary agent p a n =
    subst (λ r. (r.0 ≡ d) × ((applied : List String) → r.1 ≢ ok applied))
      (sym (write_changes_opened Disk t d primary_repo agent_root changeset primary agent p a))
      (write_read_unattested Disk t d agent primary changeset.files _ refl n)
