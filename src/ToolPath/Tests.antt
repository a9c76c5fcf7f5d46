-- ===== src/ToolPath/Tests.antt =====
-- Paths that crates/tools/src/path_safety.rs takes and refuses, and the theorem there.
use vitna_code.Base.{◌≡◌, refl, some, List, [], ◌∷◌, ◌++◌, map, ok, err}
use vitna_code.Paths.{Text, chars, split, named}
use vitna_code.ToolPath.{
  Component, root_dir, normal, components, normalize_from, normalize, traversal, escapes,
  resolve_workspace_path,
}
use vitna_code.ToolPath.Accepts.{resolve_workspace_path-StaysDown}
use vitna_code.ToolPath.Keeps.{LiesIn, resolve_workspace_path-LiesIn}

abbrev workspace : Text
workspace = chars "/workspace"

abbrev lib_path : List Component
lib_path = root_dir ∷ normal workspace_name ∷ normal (chars "src") ∷ normal (chars "lib.rs") ∷ []
  where
    workspace_name : Text
    workspace_name = chars "workspace"

inside : resolve_workspace_path workspace (chars "./subdir/../src/lib.rs") ≡ ok lib_path
unfolding resolve_workspace_path normalize_from components split named
inside = refl

climbs : resolve_workspace_path workspace (chars "../../etc/passwd") ≡ err traversal
unfolding resolve_workspace_path normalize_from components split named
climbs = refl

sibling : resolve_workspace_path workspace (chars "../workspace_other/file") ≡ err escapes
unfolding resolve_workspace_path normalize_from components split named
sibling = refl

-- Under the root `.` every absolute path passes.
relative_root :
    resolve_workspace_path (chars ".") (chars "/etc/passwd")
    ≡ ok (root_dir ∷ normal (chars "etc") ∷ normal (chars "passwd") ∷ [])
unfolding resolve_workspace_path normalize_from components split named
relative_root = refl

resolve_workspace_path-LiesIn_example : LiesIn workspace lib_path
resolve_workspace_path-LiesIn_example =
    resolve_workspace_path-LiesIn workspace (chars "./subdir/../src/lib.rs") lib_path refl inside

abbrev workspace_path : List Component
workspace_path = root_dir ∷ normal (chars "workspace") ∷ []

abbrev dotted : Text
dotted = chars "./src//lib.rs"

workspace_normal : normalize workspace ≡ some workspace_path
unfolding normalize_from components split named
workspace_normal = refl

resolve_workspace_path-StaysDown_example :
    resolve_workspace_path workspace dotted
    ≡ ok (workspace_path ++ map normal (named (split dotted)))
unfolding split named
resolve_workspace_path-StaysDown_example =
    resolve_workspace_path-StaysDown workspace dotted workspace_path refl refl workspace_normal
      (refl, (refl, tt))
