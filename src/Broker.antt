-- ===== src/Broker.antt =====
-- `GitBroker` of crates/git-broker/src/broker.rs: the check of a changeset against the primary
-- checkout, and its writing. The trees of crates/git-broker/src/tree.rs are an interface: the disk
-- is a type of its own, and what `Tree` promises of it is the record TreeLaws.
pub mod Validate
pub mod Write
pub mod Apply
pub mod Queue
pub mod Merge
pub mod Drain
mod Tests
use Prim.Native.String.{◌++◌ as str_append}
use vitna_code.Base.{
  ℕ, String, Bool, true, false, not, Option, none, some, List, [], ◌∷◌, ◌++◌, ◌==◌, ◌≡◌, Result, ok,
  err, length, if◌then◌else◌, ◌≢◌,
}
use vitna_code.Base.Steps.{Step, ◌>>=◌, done, fail, get, lift}
use vitna_code.Base.Print.{to_string, join}
use vitna_code.Bytes.{Bytes}

abbrev pub null_hash : String
null_hash = "0000000000000000000000000000000000000000000000000000000000000000"

abbrev pub primary_name : String
primary_name = "the primary checkout"

abbrev pub agent_name : String
agent_name = "the agent workspace"

pub record FileChange : Type 0 where
  pub path : String
  pub preimage_hash : String
  pub postimage_hash : String
  pub diff : String

pub record ChangeSet : Type 0 where
  pub changeset_id : String
  pub base_commit_sha : String
  pub files : List FileChange
  pub combined_diff : String
  pub diff_digest : String

pub record MergeConflict : Type 0 where
  pub path : String
  pub expected_preimage : String
  pub actual_current_hash : String
  pub message : String

pub record MergeResult : Type 0 where
  pub success : Bool
  pub applied_files : List String
  pub conflicts : List MergeConflict
  pub new_commit_sha : Option String

-- Permissions are their mode bits.
pub data Entry : Type 0 where
  absent : Entry
  blocked : String → Entry
  file : Bytes → ℕ → Entry
  refused : String → Entry

-- `Tree`: its name in messages, and its resolved root.
pub record Tree : Type 0 where
  pub name : String
  pub root : String

-- `Tree::new`, `entry`, `write` and `sha256_hex`; `place` is where a path of a tree leads.
pub record Trees (Disk : Type 0) : Type 0 where
  pub sha256_hex : Bytes → String
  pub open_tree : Disk → String → String → Result String Tree
  pub entry : Disk → Tree → String → Result String Entry
  pub write : Tree → String → String → Bytes → ℕ → Step Disk (Unit {0})
  pub place : Tree → String → String

-- What the comments on `Tree::write` promise: a write that succeeds leaves exactly the content, and
-- no write, failed or not, touches a regular file at another place.
pub record TreeLaws {Disk : Type 0} (t : Trees Disk) : Type 0 where
  pub entry_write :
      (d d' : Disk) (tree : Tree) (path preimage : String) (bytes : Bytes) (mode : ℕ)
      → t.write tree path preimage bytes mode d ≡ (d', ok tt)
      → t.entry d' tree path ≡ ok (file bytes mode)
  pub entry_write_other :
      (d : Disk) (tree : Tree) (path other preimage : String) (bytes found : Bytes) (mode m : ℕ)
      → t.place tree other ≢ t.place tree path
      → t.entry d tree other ≡ ok (file found m)
      → t.entry (t.write tree path preimage bytes mode d).0 tree other ≡ ok (file found m)

module _ {Disk : Type 0} (t : Trees Disk) where
  -- The hash of what is there, and why it cannot be merged over.
  abbrev pub current_of : Entry → String × Option String
  current_of absent = (null_hash, none)
  current_of (blocked reason) = (null_hash, some reason)
  current_of (file bytes mode) = (t.sha256_hex bytes, none)
  current_of (refused reason) = ("", some reason)

  abbrev pub conflict_at : FileChange → String → String → MergeConflict
  conflict_at change current message = record {
    path = change.path;
    expected_preimage = change.preimage_hash;
    actual_current_hash = current;
    message = message;
  }

  -- The conflict of one change, if there is one.
  abbrev pub conflict_of : FileChange → String × Option String → List MergeConflict
  conflict_of change (current, some reason) =
      conflict_at change current (
        str_append "Cannot merge '" (
          str_append change.path
            (str_append "' into " (str_append primary_name (str_append ": " reason)))))
      ∷ []
  conflict_of change (current, none) =
      if not (current == change.preimage_hash)
      then conflict_at change current (
          str_append "Preimage mismatch for '"
            (str_append change.path "': file was modified externally in primary checkout"))
        ∷ []
      else []

  abbrev pub prepend :
      List MergeConflict → Result String (List MergeConflict) → Result String (List MergeConflict)
  prepend found (ok conflicts) = ok (found ++ conflicts)
  prepend found (err e) = err e

  abbrev pub with_entry :
      FileChange
      → Result String Entry
      → Result String (List MergeConflict)
      → Result String (List MergeConflict)
  with_entry change (ok entry) rest = prepend (conflict_of change (current_of entry)) rest
  with_entry change (err e) rest = err e

  -- The loop over the changes, up to the first path that is malformed.
  unfoldable pub conflicts_from : Disk → Tree → List FileChange → Result String (List MergeConflict)
  conflicts_from d primary [] = ok []
  conflicts_from d primary (change ∷ files) =
      with_entry change (t.entry d primary change.path) (conflicts_from d primary files)

  abbrev pub in_tree {ℓ} :
      {A : Type ℓ} → Result String Tree → (Tree → Result String A) → Result String A
  in_tree (ok tree) f = f tree
  in_tree (err e) f = err e

  unfoldable pub validate_preimages : Disk → String → ChangeSet → Result String (List MergeConflict)
  validate_preimages d primary_repo changeset =
      in_tree (t.open_tree d primary_repo primary_name)
        (λ primary. conflicts_from d primary changeset.files)
