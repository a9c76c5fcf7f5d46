-- ===== src/ToolPath.antt =====
-- The lexical path guard of crates/tools/src/path_safety.rs, as on Unix. A path that is given is a
-- text; one that is normalized is the list of its components.
pub mod Within
pub mod Keeps
pub mod Accepts
mod Tests
use vitna_code.Base.{
  ℕ, String, Bool, true, false, ◌&&◌, ◌||◌, Option, none, some, List, [], ◌∷◌, ◌++◌, map, Result,
  ok, err, if◌then◌else◌,
}
use vitna_code.Paths.{Text, same, split, named, starts_with, ends_with}

-- `Component`, less the prefixes of Windows.
pub data Component : Type 0 where
  root_dir : Component
  cur_dir : Component
  parent_dir : Component
  normal : Text → Component

-- `as_os_str`
abbrev pub as_os_str : Component → Text
as_os_str root_dir = b'/' ∷ []
as_os_str cur_dir = b'.' ∷ []
as_os_str parent_dir = b'.' ∷ b'.' ∷ []
as_os_str (normal n) = n

abbrev pub component : Text → Component
component n = if same n (b'.' ∷ b'.' ∷ []) then parent_dir else normal n

-- `Path::components`: repeated slashes and `.` are passed over, but for a `.` at the start.
abbrev pub leads_with_dot : List Text → Bool
leads_with_dot [] = false
leads_with_dot (n ∷ names) = same n (b'.' ∷ [])

unfoldable pub components : Text → List Component
components path =
    let parts = map component (named (split path)) in
    if starts_with b'/' path
    then root_dir ∷ parts
    else if leads_with_dot (split path)
    then cur_dir ∷ parts
    else parts

abbrev pub keep : Component → Option (List Component) → Option (List Component)
keep c none = none
keep c (some out) = some (c ∷ out)

-- `PathBuf::pop`, which neither the empty path nor the root has.
abbrev pub pop : List Component → Option (List Component)
pop [] = none
pop (root_dir ∷ []) = none
pop (cur_dir ∷ []) = some []
pop (parent_dir ∷ []) = some []
pop (normal n ∷ []) = some []
pop (c ∷ d ∷ out) = keep c (pop (d ∷ out))

-- Without a parent there is no path.
abbrev pub popped :
    Option (List Component) → (List Component → Option (List Component)) → Option (List Component)
popped none next = none
popped (some out) next = next out

unfoldable pub normalize_from : List Component → List Component → Option (List Component)
normalize_from out [] = some out
normalize_from out (root_dir ∷ more) = normalize_from (root_dir ∷ []) more
normalize_from out (cur_dir ∷ more) = normalize_from out more
normalize_from out (parent_dir ∷ more) = popped (pop out) (λ rest. normalize_from rest more)
normalize_from out (normal n ∷ more) = normalize_from (out ++ normal n ∷ []) more

abbrev pub normalize : Text → Option (List Component)
normalize path = normalize_from [] (components path)

abbrev pub same_component : Component → Component → Bool
same_component a b = same (as_os_str a) (as_os_str b)

-- `is_within`: no shorter than the root, and the same as far as it goes.
abbrev pub is_within : List Component → List Component → Bool
is_within path [] = true
is_within [] (r ∷ root) = false
is_within (p ∷ path) (r ∷ root) = same_component r p && is_within path root

-- `Path::join`
abbrev pub join : Text → Text → Text
join root requested =
    if starts_with b'/' requested
    then requested
    else if same root [] || ends_with b'/' root
    then root ++ requested
    else root ++ b'/' ∷ requested

-- Why a path is refused.
pub data Refused : Type 0 where
  traversal : Refused
  unusable_root : Refused
  escapes : Refused

abbrev pub within_root :
    Option (List Component) → Option (List Component) → Result Refused (List Component)
within_root none root = err traversal
within_root (some path) none = err unusable_root
within_root (some path) (some root) = if is_within path root then ok path else err escapes

unfoldable pub resolve_workspace_path : Text → Text → Result Refused (List Component)
resolve_workspace_path root requested =
    within_root (normalize (join root requested)) (normalize root)
