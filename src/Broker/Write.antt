-- ===== src/Broker/Write.antt =====
-- `write_changes` of crates/git-broker/src/broker.rs: every source is read and checked first, then
-- the files are written one by one.
use Prim.Native.String.{◌++◌ as str_append}
use vitna_code.Base.{
  ℕ, String, not, List, [], ◌∷◌, ◌++◌, ◌==◌, length, Result, ok, err, if◌then◌else◌,
}
use vitna_code.Base.Steps.{Step, next, ◌>>=◌, fail, get, lift}
use vitna_code.Base.Print.{to_string, join}
use vitna_code.Bytes.{Bytes}
use vitna_code.Broker.{
  FileChange, ChangeSet, Entry, absent, blocked, file, refused, Tree, Trees, primary_name,
  agent_name,
}

-- A change with the content and the mode that the agent workspace has for it.
pub record Source : Type 0 where
  pub change : FileChange
  pub bytes : Bytes
  pub mode : ℕ

-- An error that stopped a merge partway.
abbrev pub stopped : String → List String → ℕ → String
stopped error [] total = error
stopped error (a ∷ applied) total = str_append error (
    str_append ". The merge stopped there, after writing " (
      str_append (to_string (length (a ∷ applied))) (
        str_append " of "
          (str_append (to_string total) (str_append " files: " (join ", " (a ∷ applied)))))))

-- `.map_err(..)`
abbrev pub map_err :
    {Disk : Type 0}
    → (String → String)
    → Disk × Result String (Unit {0})
    → Disk × Result String (Unit {0})
map_err f (d, ok u) = (d, ok u)
map_err f (d, err e) = (d, err (f e))

abbrev pub push_source :
    Result String Source → Result String (List Source) → Result String (List Source)
push_source (err e) rest = err e
push_source (ok s) (err e) = err e
push_source (ok s) (ok sources) = ok (s ∷ sources)

module _ {Disk : Type 0} (t : Trees Disk) where
  abbrev pub attested : FileChange → Bytes → ℕ → Result String Source
  attested change bytes mode =
      if not (t.sha256_hex bytes == change.postimage_hash)
      then err (
          str_append "Cannot merge '" (
            str_append change.path (
              str_append "': " (
                str_append agent_name (
                  str_append " no longer holds the content this changeset attests (SHA-256 " (
                    str_append change.postimage_hash (
                      str_append ", found "
                        (str_append (t.sha256_hex bytes) "); inspect it again"))))))))
      else ok (record { change = change; bytes = bytes; mode = mode })

  abbrev pub gone : FileChange → Result String Source
  gone change = err (
      str_append "Cannot merge '"
        (str_append change.path (str_append "': it is no longer in " agent_name)))

  abbrev pub source_of : FileChange → Result String Entry → Result String Source
  source_of change (err e) = err e
  source_of change (ok absent) = gone change
  source_of change (ok (blocked reason)) = gone change
  source_of change (ok (refused reason)) = err (
      str_append "Cannot merge '" (
        str_append change.path
          (str_append "' from " (str_append agent_name (str_append ": " reason)))))
  source_of change (ok (file bytes mode)) = attested change bytes mode

  -- The first loop.
  unfoldable pub read_sources : Disk → Tree → List FileChange → Result String (List Source)
  read_sources d agent [] = ok []
  read_sources d agent (change ∷ files) =
      push_source (source_of change (t.entry d agent change.path)) (read_sources d agent files)

  -- The second loop; `applied` are the paths written so far.
  unfoldable pub write_sources : Tree → ℕ → List Source → List String → Step Disk (List String)
  write_sources primary total [] applied d = (d, ok applied)
  write_sources primary total (s ∷ sources) applied d =
      next
        (map_err (λ e. stopped e applied total)
          (t.write primary s.change.path s.change.preimage_hash s.bytes s.mode d))
        (λ _. write_sources primary total sources (applied ++ s.change.path ∷ []))

  abbrev pub write_read : Tree → Result String (List Source) → Step Disk (List String)
  write_read primary (err e) = fail e
  write_read primary (ok sources) = write_sources primary (length sources) sources []

  unfoldable pub write_changes : String → String → ChangeSet → Step Disk (List String)
  write_changes primary_repo agent_root changeset = do
    d ← get
    primary ← lift (t.open_tree d primary_repo primary_name)
    agent ← lift (t.open_tree d agent_root agent_name)
    write_read primary (read_sources d agent changeset.files)
