-- ===== src/FileTree/Walk.antt =====
-- `Tree::new`, `names`, `lstat`, `link`, `verify_opened` and `entry` of crates/git-broker/src/tree.rs.
use Prim.Native.String.{◌++◌ as str_append}
use vitna_code.Base.{
  ℕ, String, Bool, true, false, Option, none, some, List, [], ◌∷◌, ◌++◌, Result, ok, err, ◌>>=◌,
}
use vitna_code.Base.Print.{join}
use vitna_code.Bytes.{Bytes}
use vitna_code.Broker.{Entry, absent, blocked, file, refused, Tree}
use vitna_code.FileTree.{
  Place, Component, root_dir, cur_dir, parent_dir, normal, Node, directory, link, regular, special,
  Disk, Call, inspect, open_read, read, Host, components, describe, same_place, is_within,
  canonicalize, max_links, place_text, root_place, quoted,
}

-- "<what> '<rel>' in <name>: <error>"
abbrev pub failed : String → Tree → String → String → String
failed what tree rel e =
    str_append what
      (str_append (quoted rel) (str_append " in " (str_append tree.name (str_append ": " e))))

-- `shown`
abbrev pub shown : List String → String
shown names = join "/" names

-- `relative`, of a place within the root.
abbrev below : Place → Place → Place
below place [] = place
below [] (r ∷ root) = []
below (p ∷ place) (r ∷ root) = below place root

abbrev or_dot : Place → String
or_dot [] = "."
or_dot (p ∷ more) = join "/" (p ∷ more)

abbrev relative : Tree → Place → String
relative tree place = or_dot (below place (root_place tree))

abbrev link_to : Tree → List String → Place → Bool → String
link_to tree names target true = str_append (quoted (shown names)) (
    str_append " is a link to " (
      str_append (quoted (relative tree target)) (
        str_append " inside "
          (str_append tree.name ", and links are not followed, even inside it"))))
link_to tree names target false = str_append (quoted (shown names)) (
    str_append " is a link that leads outside "
      (str_append tree.name ", and links are not followed"))

-- Why a link is refused, by where it leads.
abbrev pub link_reason : Tree → List String → Option Place → String
link_reason tree names none =
    str_append (quoted (shown names))
      (" is a link whose target does not exist, and links are not followed")
link_reason tree names (some target) =
    link_to tree names target (is_within target (root_place tree))

abbrev push_name : String → Result String (List String) → Result String (List String)
push_name n (ok names) = ok (n ∷ names)
push_name n (err e) = err e

-- The loop of `names`.
abbrev pub normal_only : String → List Component → Result String (List String)
normal_only reason [] = ok []
normal_only reason (normal n ∷ more) = push_name n (normal_only reason more)
normal_only reason (root_dir ∷ more) = err reason
normal_only reason (cur_dir ∷ more) = err reason
normal_only reason (parent_dir ∷ more) = err reason

abbrev pub nonempty : String → List String → Result String (List String)
nonempty reason [] = err reason
nonempty reason (n ∷ names) = ok (n ∷ names)

abbrev pub not_inside : Tree → String → String
not_inside tree rel = str_append (quoted rel) (str_append " is not a path inside " tree.name)

abbrev pub not_a_name : Tree → String → String
not_a_name tree rel = str_append (quoted rel) (str_append " does not name a file inside " tree.name)

unfoldable pub names_of : Tree → String → Result String (List String)
names_of tree rel = do
  names ← normal_only (not_inside tree rel) (components rel)
  nonempty (not_a_name tree rel) names

-- What a walk ends with: an answer, or the place to open.
pub data Walk : Type 0 where
  ended : Entry → Walk
  reached : Place → Walk

abbrev pub is_last : List String → Bool
is_last [] = true
is_last (n ∷ names) = false

module _ (h : Host) where
  -- The file system's root is a directory.
  abbrev only_directory : String → String → Place → Option Node → Result String Tree
  only_directory root name [] found = ok (record { name = name; root = place_text [] })
  only_directory root name (n ∷ place) (some directory) =
      ok (record { name = name; root = place_text (n ∷ place) })
  only_directory root name (n ∷ place) found = err (
      str_append "Cannot use "
        (str_append (quoted root) (str_append " as " (str_append name ": it is not a directory"))))

  abbrev resolved_root : Disk → String → String → Option Place → Result String Tree
  resolved_root d root name none = err (
      str_append "Cannot resolve " (
        str_append name
          (str_append " at " (str_append (quoted root) (str_append ": " h.unresolved)))))
  resolved_root d root name (some place) = only_directory root name place (d place)

  unfoldable pub open_tree : Disk → String → String → Result String Tree
  open_tree d root name =
      resolved_root d root name (canonicalize max_links d h.current_dir (components root))

  -- A call that may fail, and what follows it.
  abbrev pub unless_failed {ℓ} :
      {A : Type ℓ} → Option String → (String → String) → Result String A → Result String A
  unless_failed none wrap rest = rest
  unless_failed (some e) wrap rest = err (wrap e)

  abbrev pub guarded {ℓ} :
      {A : Type ℓ} → Call → Place → (String → String) → Result String A → Result String A
  guarded call place wrap rest = unless_failed (h.fails call place) wrap rest

  -- `lstat`
  abbrev pub lstat : Disk → Tree → Place → String → Result String (Option Node)
  lstat d tree place rel = guarded inspect place (failed "Cannot inspect " tree rel) (ok (d place))

  -- `link`, of the link that stands at a place.
  abbrev pub link_at : Disk → Tree → Place → List String → List Component → String
  link_at d tree dir names target = link_reason tree names (canonicalize max_links d dir target)

  -- What one name of the walk decides, the last one or another; `rest` is the rest of the walk.
  abbrev pub visited :
      Disk
      → Tree
      → String
      → Place
      → List String
      → Bool
      → Option Node
      → Result String Walk
      → Result String Walk
  visited d tree rel dir names last none rest = ok (ended absent)
  visited d tree rel dir names last (some (link target)) rest =
      ok (ended (refused (link_at d tree dir names target)))
  visited d tree rel dir names false (some directory) rest = rest
  visited d tree rel dir names true (some directory) rest =
      ok (ended (refused (str_append (quoted rel) " is a directory, not a regular file")))
  visited d tree rel dir names true (some (regular bytes mode)) rest = rest
  visited d tree rel dir names false (some (regular bytes mode)) rest =
      ok (ended (blocked (str_append (quoted (shown names)) " is a regular file, not a directory")))
  visited d tree rel dir names false (some (special kind)) rest = ok (
      ended (
        blocked (
          str_append (quoted (shown names))
            (str_append " is " (str_append (describe (special kind)) ", not a directory")))))
  visited d tree rel dir names true (some (special kind)) rest = ok (
      ended (
        refused (
          str_append (quoted rel)
            (str_append " is " (str_append (describe (special kind)) ", not a regular file")))))

  -- The loop of `entry`, at a place that the names `seen` have led to.
  abbrev pub walk : Disk → Tree → String → Place → List String → List String → Result String Walk
  walk d tree rel dir seen [] = ok (reached dir)
  walk d tree rel dir seen (n ∷ names) = lstat d tree (dir ++ n ∷ []) rel >>= λ found.
      visited d tree rel dir (seen ++ n ∷ []) (is_last names) found
        (walk d tree rel (dir ++ n ∷ []) (seen ++ n ∷ []) names)

  abbrev not_regular : Tree → String → Node → String
  not_regular tree rel x = str_append (quoted rel) (
      str_append " in "
        (str_append tree.name (str_append " is " (str_append (describe x) ", not a regular file"))))

  abbrev pub exactly : Tree → String → ℕ → Bool → Result String ℕ
  exactly tree rel mode true = ok mode
  exactly tree rel mode false = err (
      str_append (quoted rel) (
        str_append " in " (
          str_append tree.name " was moved, or reached through a link, while it was being opened")))

  -- `verify_opened`: the handle's own path, as the system gives it, is the one it was opened at.
  abbrev pub verify_opened : Tree → String → Place → Place → Option Node → Result String ℕ
  verify_opened tree rel opened expected (some (regular bytes mode)) =
      exactly tree rel mode (same_place opened expected)
  verify_opened tree rel opened expected (some directory) = err (not_regular tree rel directory)
  verify_opened tree rel opened expected (some (special k)) = err (not_regular tree rel (special k))
  verify_opened tree rel opened expected (some (link t)) = err (not_regular tree rel (link t))
  verify_opened tree rel opened expected none = err (failed "Cannot inspect " tree rel h.unresolved)

  -- The bytes behind a handle.
  abbrev pub bytes_of : Option Node → Bytes
  bytes_of (some (regular bytes mode)) = bytes
  bytes_of (some directory) = []
  bytes_of (some (link target)) = []
  bytes_of (some (special kind)) = []
  bytes_of none = []

  abbrev pub read_at : Disk → Tree → String → Place → Result String Entry
  read_at d tree rel place = guarded open_read place (failed "Cannot open " tree rel) (
      verify_opened tree rel place place (d place) >>= λ mode.
      guarded read place (failed "Cannot read " tree rel) (ok (file (bytes_of (d place)) mode)))

  abbrev pub after_walk : Disk → Tree → String → Walk → Result String Entry
  after_walk d tree rel (ended e) = ok e
  after_walk d tree rel (reached place) = read_at d tree rel place

  unfoldable pub entry : Disk → Tree → String → Result String Entry
  entry d tree rel = do
    names ← names_of tree rel
    end ← walk d tree rel (root_place tree) [] names
    after_walk d tree rel end
