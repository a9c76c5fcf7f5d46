-- ===== src/FileTree/Write.antt =====
-- `write`, `create_dir` and `verify_written` of crates/git-broker/src/tree.rs.
use Prim.Native.String.{◌++◌ as str_append}
use vitna_code.Base.{
  take, ℕ, suc, String, Bool, true, false, Option, none, some, List, [], ◌∷◌, ◌++◌, ◌==◌, length,
  Result, ok, err, ltb, if◌then◌else◌,
}
use vitna_code.Base.Steps.{Step, ◌>>=◌, ◌>>◌, done, fail, get, modify, lift}
use vitna_code.Base.Print.{to_string}
use vitna_code.Bytes.{Bytes}
use vitna_code.Paths.{same}
use vitna_code.Broker.{Tree, null_hash}
use vitna_code.FileTree.{
  Place, Node, directory, link, regular, special, Disk, Call, open_read, open_write, create_new,
  make_dir, read, truncate, write_all, Host, describe, same_place, root_place, quoted,
}
use vitna_code.FileTree.Walk.{
  failed, shown, names_of, unless_failed, lstat, link_at, verify_opened, bytes_of,
}

abbrev pub put : Place → Node → Disk → Disk
put place node d p = if same_place p place then some node else d p

-- `cannot_write`
abbrev pub cannot_write : Tree → String → String → String
cannot_write tree rel reason = failed "Cannot write " tree rel reason

-- The names before the last one, below a first name, and the last one.
abbrev pub dirs_of : String → List String → List String
dirs_of n [] = []
dirs_of n (m ∷ names) = n ∷ dirs_of m names

abbrev pub last_of : String → List String → String
last_of n [] = n
last_of n (m ∷ names) = last_of m names

module _ (h : Host) where
  -- A call on the disk that may fail.
  abbrev pub calling : Call → Place → (String → String) → Step Disk (Unit {0})
  calling call place wrap = lift (unless_failed h (h.fails call place) wrap (ok tt))

  abbrev pub not_a_directory : Tree → String → List String → Node → String
  not_a_directory tree rel names x = cannot_write tree rel (
      str_append (quoted (shown names))
        (str_append " is " (str_append (describe x) ", not a directory")))

  abbrev pub appeared : Tree → String → List String → Option Node → Step Disk (Unit {0})
  appeared tree rel names (some directory) = done tt
  appeared tree rel names found = fail (
      cannot_write tree rel
        (str_append (quoted (shown names)) " appeared as something other than a directory"))

  abbrev cannot_create_dir : Tree → List String → String → String
  cannot_create_dir tree names e = str_append "Cannot create directory " (
      str_append (quoted (shown names))
        (str_append " in " (str_append tree.name (str_append ": " e))))

  -- `create_dir`: something that is already there is accepted if it is a directory.
  abbrev pub create_dir : Tree → String → Place → List String → Option Node → Step Disk (Unit {0})
  create_dir tree rel place names none = do
    calling make_dir place (cannot_create_dir tree names)
    modify (put place directory)
  create_dir tree rel place names (some x) = do
    d ← get
    found ← lift (lstat h d tree place rel)
    appeared tree rel names found

  -- One directory on the way, as `lstat` found it.
  abbrev pub pass_dir :
      Tree → String → Place → Place → List String → Option Node → Step Disk (Unit {0})
  pass_dir tree rel dir place names none = do d ← get; create_dir tree rel place names (d place)
  pass_dir tree rel dir place names (some directory) = done tt
  pass_dir tree rel dir place names (some (link target)) = do
    d ← get
    fail (cannot_write tree rel (link_at h d tree dir names target))
  pass_dir tree rel dir place names (some (regular bytes mode)) =
      fail (not_a_directory tree rel names (regular bytes mode))
  pass_dir tree rel dir place names (some (special kind)) =
      fail (not_a_directory tree rel names (special kind))

  abbrev pub enter_dir : Tree → String → Place → Place → List String → Step Disk (Unit {0})
  enter_dir tree rel dir place names = do
    d ← get
    found ← lift (lstat h d tree place rel)
    pass_dir tree rel dir place names found

  -- The loop over the directories, at a place that the names `seen` have led to.
  unfoldable pub enter_dirs :
      Tree → String → Place → List String → List String → Step Disk (Unit {0})
  enter_dirs tree rel dir seen [] = done tt
  enter_dirs tree rel dir seen (n ∷ dirs) = do
    enter_dir tree rel dir (dir ++ n ∷ []) (seen ++ n ∷ [])
    enter_dirs tree rel (dir ++ n ∷ []) (seen ++ n ∷ []) dirs

  abbrev not_a_file : Tree → String → Node → String
  not_a_file tree rel x =
      cannot_write tree rel (str_append "it is " (str_append (describe x) ", not a regular file"))

  -- What stands at the path itself.
  abbrev pub pass_file : Tree → String → Place → List String → Option Node → Step Disk (Unit {0})
  pass_file tree rel dir names none = done tt
  pass_file tree rel dir names (some (regular bytes mode)) = done tt
  pass_file tree rel dir names (some directory) = fail (not_a_file tree rel directory)
  pass_file tree rel dir names (some (special kind)) = fail (not_a_file tree rel (special kind))
  pass_file tree rel dir names (some (link target)) = do
    d ← get
    fail (cannot_write tree rel (link_at h d tree dir names target))

  -- `create_new`, which refuses what is already there.
  abbrev pub create_file : Tree → String → Place → Option Node → Step Disk (Unit {0})
  create_file tree rel place (some x) =
      fail (cannot_write tree rel "something appeared there after it was found absent")
  create_file tree rel place none = do
    calling create_new place (failed "Cannot create " tree rel)
    modify (put place (regular [] h.new_mode))

  abbrev pub verify : Tree → String → Place → Step Disk ℕ
  verify tree rel place = do d ← get; lift (verify_opened h tree rel place place (d place))

  abbrev pub open_new : Tree → String → Place → Step Disk ℕ
  open_new tree rel place = do d ← get; create_file tree rel place (d place); verify tree rel place

  -- The file opened is the one whose hash is checked.
  abbrev pub unchanged : Tree → String → Bool → String → String → Step Disk (Unit {0})
  unchanged tree rel true preimage_hash found = done tt
  unchanged tree rel false preimage_hash found = fail (
      cannot_write tree rel (
        str_append "it changed after its preimage was checked (expected SHA-256 "
          (str_append preimage_hash (str_append ", found " (str_append found ")")))))

  abbrev pub open_failed : Tree → String → String → String
  open_failed tree rel e = str_append "Cannot open " (
      str_append (quoted rel)
        (str_append " in " (str_append tree.name (str_append " for writing: " e))))

  abbrev pub emptied : Tree → String → Place → ℕ → Step Disk ℕ
  emptied tree rel place mode = do
    calling truncate place (failed "Failed to write " tree rel)
    modify (put place (regular [] mode))
    done mode

  abbrev pub compared : Tree → String → String → Place → Step Disk (Unit {0})
  compared tree rel preimage_hash place d =
      let found = h.sha256_hex (bytes_of h (d place)) in
      unchanged tree rel (found == preimage_hash) preimage_hash found d

  abbrev pub checked_old : Tree → String → String → Place → ℕ → Step Disk ℕ
  checked_old tree rel preimage_hash place mode = do
    calling read place (failed "Cannot read " tree rel)
    compared tree rel preimage_hash place
    emptied tree rel place mode

  abbrev pub open_old : Tree → String → String → Place → Step Disk ℕ
  open_old tree rel preimage_hash place = do
    calling open_write place (open_failed tree rel)
    mode ← verify tree rel place
    checked_old tree rel preimage_hash place mode

  -- `write_all`, `set_permissions` and `sync_all`, of which any may fail.
  abbrev pub fill : Tree → String → Place → Bytes → ℕ → ℕ → Option String → Step Disk (Unit {0})
  fill tree rel place content old mode none = modify (put place (regular content mode))
  fill tree rel place content old mode (some e) = do
    modify (put place (regular (h.partial place content) old))
    fail (failed "Failed to write " tree rel e)

  abbrev back_text : Bytes → ℕ → String
  back_text back limit =
      if ltb limit (length back)
      then str_append "more than " (str_append (to_string limit) " bytes")
      else str_append (to_string (length back))
          (str_append " bytes (SHA-256 " (str_append (h.sha256_hex back) ")"))

  abbrev pub as_written : Tree → String → Bytes → Bytes → Bool → Result String (Unit {0})
  as_written tree rel content back true = ok tt
  as_written tree rel content back false = err (
      str_append "Write to " (
        str_append (quoted rel) (
          str_append " in " (
            str_append tree.name (
              str_append " failed verification: " (
                str_append (to_string (length content)) (
                  str_append " bytes were written (SHA-256 " (
                    str_append (h.sha256_hex content) (
                      str_append "), but reading the file back returned "
                        (back_text back (length content)))))))))))

  abbrev pub unverified : Tree → String → String → String
  unverified tree rel e = str_append "Write to " (
      str_append (quoted rel)
        (str_append " in " (str_append tree.name (str_append " could not be verified: " e))))

  abbrev pub unverified_if : Tree → String → Result String ℕ → Result String ℕ
  unverified_if tree rel (ok mode) = ok mode
  unverified_if tree rel (err e) = err (unverified tree rel e)

  abbrev pub read_back : Tree → String → Place → Bytes → Step Disk (Unit {0})
  read_back tree rel place content d =
      let back = take (suc (length content)) (bytes_of h (d place)) in
      lift (as_written tree rel content back (same back content)) d

  abbrev pub verify_again : Tree → String → Place → Step Disk ℕ
  verify_again tree rel place d =
      lift (unverified_if tree rel (verify_opened h tree rel place place (d place))) d

  abbrev pub verify_written : Tree → String → Place → Bytes → Step Disk (Unit {0})
  verify_written tree rel place content = do
    calling open_read place (unverified tree rel)
    verify_again tree rel place
    calling read place (unverified tree rel)
    read_back tree rel place content

  abbrev pub open_file : Tree → String → String → Place → Bool → Step Disk ℕ
  open_file tree rel preimage_hash place true = open_new tree rel place
  open_file tree rel preimage_hash place false = open_old tree rel preimage_hash place

  abbrev pub fill_file : Tree → String → Bytes → ℕ → Place → ℕ → Step Disk (Unit {0})
  fill_file tree rel content mode place old = do
    fill tree rel place content old mode (h.fails write_all place)
    verify_written tree rel place content

  abbrev pub open_and_fill : Tree → String → String → Bytes → ℕ → Place → Step Disk (Unit {0})
  open_and_fill tree rel preimage_hash content mode place = do
    old ← open_file tree rel preimage_hash place (preimage_hash == null_hash)
    fill_file tree rel content mode place old

  -- What `lstat` found at the path decides whether it is written.
  abbrev pub write_found :
      Tree
      → String
      → String
      → Bytes
      → ℕ
      → Place
      → Place
      → List String
      → Option Node
      → Step Disk (Unit {0})
  write_found tree rel preimage_hash content mode dir place names found = do
    pass_file tree rel dir names found
    open_and_fill tree rel preimage_hash content mode place

  -- The part of `write` behind the directories.
  abbrev pub write_file :
      Tree → String → String → Bytes → ℕ → Place → Place → List String → Step Disk (Unit {0})
  write_file tree rel preimage_hash content mode dir place names = do
    d ← get
    found ← lift (lstat h d tree place rel)
    write_found tree rel preimage_hash content mode dir place names found

  -- `write`, at the names of a path.
  abbrev pub write_names : Tree → String → String → Bytes → ℕ → List String → Step Disk (Unit {0})
  write_names tree rel preimage_hash content mode [] = fail "names() refuses an empty path"
  write_names tree rel preimage_hash content mode (n ∷ names) = do
    enter_dirs tree rel (root_place tree) [] (dirs_of n names)
    write_file tree rel preimage_hash content mode (root_place tree ++ dirs_of n names)
        (root_place tree ++ n ∷ names) (n ∷ names)

  unfoldable pub write : Tree → String → String → Bytes → ℕ → Step Disk (Unit {0})
  write tree rel preimage_hash content mode = do
    names ← lift (names_of tree rel)
    write_names tree rel preimage_hash content mode names
