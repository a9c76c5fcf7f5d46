-- ===== src/FileTree.antt =====
-- The file system that `Tree` of crates/git-broker/src/tree.rs works on, and its resolving
-- of paths. What the operating system answers is a record: which calls
-- fail, and with which error. A lookup takes the names one by one; where `Tree` looks a path up,
-- the directories above it were found real ones, so no link is followed on the way.
pub mod Walk
pub mod Write
pub mod Reads
pub mod Keeps
pub mod Enters
pub mod Leaves
pub mod Succeeds
pub mod Merges
mod Tests
use Prim.Native.String.{◌++◌ as str_append}
use Prim.Native.Char.{Char, code}
use vitna_code.Base.{
  ℕ, zero, suc, String, Bool, true, false, ◌&&◌, ◌||◌, Option, none, some, List, [], ◌∷◌, ◌++◌,
  ◌==◌, Result, ok, err, ◌>>=◌, nat_eq, if◌then◌else◌,
}
use vitna_code.Base.Print.{join}
use vitna_code.Bytes.{Bytes}
use vitna_code.Broker.{Entry, absent, blocked, file, refused, Tree}

-- The names from the file system's root.
abbrev pub Place : Type 0
Place = List String

-- `std::path::Component`
pub data Component : Type 0 where
  root_dir : Component
  cur_dir : Component
  parent_dir : Component
  normal : String → Component

-- A link holds the path it was made with. The text of a special file is its kind.
pub data Node : Type 0 where
  directory : Node
  link : List Component → Node
  regular : Bytes → ℕ → Node
  special : String → Node

abbrev pub Disk : Type 0
Disk = Place → Option Node

pub data Call : Type 0 where
  inspect : Call
  open_read : Call
  open_write : Call
  create_new : Call
  make_dir : Call
  read : Call
  truncate : Call
  write_all : Call

-- `fails` is the error of a call at a path, and `partial` what a write that fails leaves there.
pub record Host : Type 0 where
  pub sha256_hex : Bytes → String
  pub fails : Call → Place → Option String
  pub partial : Place → Bytes → Bytes
  pub new_mode : ℕ
  pub current_dir : Place
  pub unresolved : String

-- `Path::components`, where a path's parts stand between slashes.
abbrev push_char : Char → List String → List String
push_char c [] = String.◌∷◌ c "" ∷ []
push_char c (s ∷ more) = String.◌∷◌ c s ∷ more

unfoldable pub parts : String → List String
parts String.[] = "" ∷ []
parts (String.◌∷◌ c s) =
    let rest = parts s in if nat_eq (code c) b'/' then "" ∷ rest else push_char c rest

abbrev component_of : String → Component
component_of s = if s == ".." then parent_dir else normal s

unfoldable pub components_of : List String → List Component
components_of [] = []
components_of (s ∷ more) =
    let rest = components_of more in if s == "" || s == "." then rest else component_of s ∷ rest

-- A path that is one empty part is the empty path.
abbrev pub components_from : List String → List Component
components_from [] = []
components_from (s ∷ []) = if s == "." then cur_dir ∷ [] else components_of (s ∷ [])
components_from (s ∷ p ∷ more) =
    if s == ""
    then root_dir ∷ components_of (p ∷ more)
    else if s == "."
    then cur_dir ∷ components_of (p ∷ more)
    else components_of (s ∷ p ∷ more)

unfoldable pub components : String → List Component
components path = components_from (parts path)

abbrev pub describe : Node → String
describe directory = "a directory"
describe (link target) = "a link"
describe (regular bytes mode) = "a regular file"
describe (special kind) = kind

abbrev pub same_place : Place → Place → Bool
same_place [] [] = true
same_place [] (y ∷ t) = false
same_place (x ∷ s) [] = false
same_place (x ∷ s) (y ∷ t) = x == y && same_place s t

-- `is_within`: every part of the root is the path's part there.
abbrev pub is_within : Place → Place → Bool
is_within path [] = true
is_within [] (r ∷ root) = false
is_within (p ∷ path) (r ∷ root) = r == p && is_within path root

abbrev drop_last : Place → Place
drop_last [] = []
drop_last (x ∷ []) = []
drop_last (x ∷ y ∷ place) = x ∷ drop_last (y ∷ place)

-- One name of a path that is resolved, links followed by `again`.
abbrev followed :
    Option Node
    → Option Place
    → (List Component → Option Place)
    → List Component
    → Place
    → Option Place
followed none rest again [] here = none
followed none rest again (c ∷ more) here = none
followed (some directory) rest again more here = rest
followed (some (link target)) rest again more here = again (target ++ more)
followed (some (regular bytes mode)) rest again [] here = some here
followed (some (regular bytes mode)) rest again (c ∷ more) here = none
followed (some (special kind)) rest again [] here = some here
followed (some (special kind)) rest again (c ∷ more) here = none

abbrev resolved_by :
    (Place → List Component → Option Place) → Disk → Place → List Component → Option Place
resolved_by again d here [] = some here
resolved_by again d here (root_dir ∷ more) = resolved_by again d [] more
resolved_by again d here (cur_dir ∷ more) = resolved_by again d here more
resolved_by again d here (parent_dir ∷ more) = resolved_by again d (drop_last here) more
resolved_by again d here (normal name ∷ more) =
    followed (d (here ++ name ∷ [])) (resolved_by again d (here ++ name ∷ []) more) (again here)
      more (here ++ name ∷ [])

-- `fs::canonicalize`, up to `links` links on the way.
unfoldable pub canonicalize : ℕ → Disk → Place → List Component → Option Place
canonicalize zero d = resolved_by (λ _ _. none) d
canonicalize (suc links) d = resolved_by (canonicalize links d) d

-- The links that the kernel follows before it gives up.
abbrev pub max_links : ℕ
max_links = 40

abbrev pub place_text : Place → String
place_text place = str_append "/" (join "/" place)

abbrev normal_names : List Component → Place
normal_names [] = []
normal_names (normal name ∷ more) = name ∷ normal_names more
normal_names (root_dir ∷ more) = normal_names more
normal_names (cur_dir ∷ more) = normal_names more
normal_names (parent_dir ∷ more) = normal_names more

-- Where the root stands: its path is absolute, and its own links are resolved.
unfoldable pub root_place : Tree → Place
root_place tree = normal_names (components tree.root)

abbrev pub quoted : String → String
quoted s = str_append "'" (str_append s "'")
