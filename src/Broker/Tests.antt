-- ===== src/Broker/Tests.antt =====
-- Merges of crates/git-broker/src on a small disk, and the theorems there.
use vitna_code.Base.{
  ℕ, String, ◌≡◌, ◌≢◌, refl, sym, ap, ◌∙◌, Bool, true, false, ◌&&◌, ◌==◌, Option, none, some, List,
  [], ◌∷◌, map, Result, ok, err, arith, eq_iff, eq_refl, nat_eq, All, if◌then◌else◌,
}
use vitna_code.Base.Steps.{Step}
use vitna_code.Bytes.{Bytes}
use vitna_code.Broker.{
  FileChange, ChangeSet, Entry, absent, file, Tree, Trees, TreeLaws, null_hash, primary_name,
  agent_name, conflicts_from, validate_preimages,
}
use vitna_code.Broker.Validate.{validate_preimages_none_iff}
use vitna_code.Broker.Write.{read_sources, write_sources, write_changes}
use vitna_code.Broker.Apply.{path_of}
use vitna_code.Broker.Queue.{MergeQueueItem, MergeQueue, merged, merge_item, process_all}
use vitna_code.Broker.Merge.{IsAttested, IsMerged, write_changes_merges, write_changes_stale}
use vitna_code.Broker.Drain.{IsClean, IsDrained, merge_item_unclean, process_all-IsDrained}

-- The regular files of each root.
abbrev Disk : Type 0
Disk = String → String → Option (Bytes × ℕ)

abbrev hash : Bytes → String
hash [] = "empty"
hash (x ∷ bytes) = if nat_eq x 1 then "one" else "other"

abbrev found_hash : Option (Bytes × ℕ) → String
found_hash none = null_hash
found_hash (some (bytes, mode)) = hash bytes

abbrev entry_of : Option (Bytes × ℕ) → Result String Entry
entry_of none = ok absent
entry_of (some (bytes, mode)) = ok (file bytes mode)

abbrev put : Disk → String → String → Bytes × ℕ → Disk
put d root path content r p = if r == root && p == path then some content else d r p

abbrev write_if : Bool → Tree → String → Bytes × ℕ → Step Disk (Unit {0})
write_if true tree path content d = (put d tree.root path content, ok tt)
write_if false tree path content d = (d, err "changed")

abbrev write : Tree → String → String → Bytes → ℕ → Step Disk (Unit {0})
write tree path preimage bytes mode d =
    write_if (found_hash (d tree.root path) == preimage) tree path (bytes, mode) d

abbrev trees : Trees Disk
trees = record {
  sha256_hex = hash;
  open_tree = λ d root name. ok (record { name = name; root = root });
  entry = λ d tree path. entry_of (d tree.root path);
  write = write;
  place = λ tree path. path;
}

put_here :
    (d : Disk) (root path : String) (content : Bytes × ℕ)
    → put d root path content root path ≡ some content
put_here d root path content = ground (arith, eq_refl root, eq_refl path)

put_other :
    (d : Disk) (root path other : String) (content : Bytes × ℕ)
    → other ≢ path
    → put d root path content root other ≡ d root other
put_other d root path other content n = ground (arith, eq_iff other path)

write_if_same :
    (b : Bool) (d d' : Disk) (tree : Tree) (path : String) (content : Bytes × ℕ)
    → write_if b tree path content d ≡ (d', ok tt)
    → entry_of (d' tree.root path) ≡ ok (file content.0 content.1)
write_if_same true d d' tree path content h =
    ap (λ x. entry_of (x tree.root path)) (sym (ap (λ r. r.0) h))
    ∙ ap entry_of (put_here d tree.root path content)
write_if_same false d d' tree path content h = absurd (ground (arith, ap (λ r. r.1) h))

write_if_other :
    (b : Bool) (d : Disk) (tree : Tree) (path other : String) (content : Bytes × ℕ)
    (e : Result String Entry)
    → other ≢ path
    → entry_of (d tree.root other) ≡ e
    → entry_of ((write_if b tree path content d).0 tree.root other) ≡ e
write_if_other true d tree path other content e n h =
    ap entry_of (put_other d tree.root path other content n) ∙ h
write_if_other false d tree path other content e n h = h

laws : TreeLaws trees
laws = record {
  entry_write =
      λ d d' tree path preimage bytes mode h. write_if_same _ d d' tree path (bytes, mode) h;
  entry_write_other = λ d tree path other preimage bytes found mode m n h.
      write_if_other _ d tree path other (bytes, mode) _ n h;
}

abbrev change : String → FileChange
change post = record { path = "a"; preimage_hash = null_hash; postimage_hash = post; diff = "" }

abbrev changeset : String → ChangeSet
changeset post = record {
  changeset_id = "cs";
  base_commit_sha = "base";
  files = change post ∷ [];
  combined_diff = "";
  diff_digest = "digest";
}

-- The agent has written `a`, and the primary checkout is empty or has it already.
abbrev disk : Option (Bytes × ℕ) → Disk
disk there root path =
    if path == "a" then (if root == "/agent" then some (1 ∷ [], 420) else there) else none

abbrev tree : String → String → Tree
tree name root = record { name = name; root = root }

abbrev item : String → MergeQueueItem
item id = record {
  queue_id = id;
  task_id = id;
  agent_workspace_root = "/agent";
  changeset = changeset "one";
}

abbrev merge_runs : List String
merge_runs = "a" ∷ []

write_runs :
    (write_changes trees "/primary" "/agent" (changeset "one") (disk none)).1 ≡ ok merge_runs
unfolding write_changes read_sources write_sources
write_runs = refl

write_changes_merges_example :
    ("a" ∷ [] ≡ map path_of (changeset "one").files)
    × All
        (IsMerged Disk trees
          (disk none)
          (tree agent_name "/agent")
          (write_changes trees "/primary" "/agent" (changeset "one") (disk none)).0
          (tree primary_name "/primary"))
        (changeset "one").files
write_changes_merges_example =
    write_changes_merges Disk trees (disk none) "/primary" "/agent" (changeset "one")
      (tree primary_name "/primary") (tree agent_name "/agent") merge_runs laws refl refl (tt, tt)
      write_runs

-- Contents with the hash of another.
abbrev is_two : Bytes → Bool
is_two bytes = hash bytes == "two"

unattested :
    All (IsAttested Disk trees (disk none) (tree agent_name "/agent")) (changeset "two").files → ⊥
unattested ((bytes, (mode, found, attests)), u) =
    let same : 1 ∷ [] ≡ bytes = ground arith in
    let two : is_two bytes ≡ true = (eq_iff (hash bytes) "two").1 attests in
    let no : false ≡ true = ap is_two same ∙ two in absurd (cc)

write_changes_stale_example :
    ((write_changes trees "/primary" "/agent" (changeset "two") (disk none)).0 ≡ disk none)
    × ((applied : List String)
        → (write_changes trees "/primary" "/agent" (changeset "two") (disk none)).1 ≢ ok applied)
write_changes_stale_example =
    write_changes_stale Disk trees (disk none) "/primary" "/agent" (changeset "two")
      (tree primary_name "/primary") (tree agent_name "/agent") refl refl unattested

unclean : IsClean trees (disk (some (2 ∷ [], 420))) "/primary" (changeset "one") → ⊥
unfolding validate_preimages conflicts_from
unclean clean =
    let none_found =
      (validate_preimages_none_iff Disk trees (disk (some (2 ∷ [], 420))) "/primary"
          (changeset "one")).1
        clean in
    absurd (ground (arith, none_found))

merge_item_unclean_example :
    ((merge_item trees "/primary" (item "t") (disk (some (2 ∷ [], 420)))).0
      ≡ disk (some (2 ∷ [], 420)))
    × ((applied : List String)
        → (merge_item trees "/primary" (item "t") (disk (some (2 ∷ [], 420)))).1 ≢ merged applied)
merge_item_unclean_example =
    merge_item_unclean Disk trees "/primary" (item "t") (disk (some (2 ∷ [], 420))) unclean

abbrev queue : MergeQueue
queue = record { primary_repo_root = "/primary"; pending = item "t" ∷ item "u" ∷ []; history = [] }

process_all-IsDrained_example :
    IsDrained Disk trees (item "t" ∷ item "u" ∷ []) [] (process_all trees queue (disk none))
process_all-IsDrained_example = process_all-IsDrained Disk trees queue (disk none)
