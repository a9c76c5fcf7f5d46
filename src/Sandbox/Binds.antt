-- ===== src/Sandbox/Binds.antt =====
-- What the arguments of generate_linux_bwrap_args of crates/vitna-sandbox/src/lib.rs let a command
-- write. Bubblewrap mounts in the order of its arguments, so the last mount over a path decides.
use Prim.Native.String.{◌++◌ as str_append}
use text.Mathlib.Text.{starts_with}
use vitna_code.Base.{
  String, Bool, true, false, ◌≡◌, refl, ap, map, ◌∙◌, ◌||◌, ◌&&◌, not, Option, none, some, List, [],
  ◌∷◌, ◌==◌, arith, if◌then◌else◌, Bool-cases, inl, inr,
}
use vitna_code.Sandbox.{
  SandboxGuarantee, SandboxConfig, Machine, new, join_path, protected_subpaths, mount_args,
  existing, is_read_only, git_args, protected_args, generate_linux_bwrap_args,
}

-- What is mounted, whether it can be written, and where. `--tmpfs`, `--dev` and `--proc` mount a file
-- system of the sandbox's own, with nothing of the host under it; it can be written.
pub record Bind : Type 0 where
  pub writable : Bool
  pub source : Option String
  pub target : String

abbrev is_fresh : String → Bool
is_fresh a = a == "--tmpfs" || (a == "--dev" || a == "--proc")

-- The mounts that an argument list asks for, in order.
abbrev pub binds : List String → List Bind
binds [] = []
binds (a ∷ []) = []
binds (a ∷ s ∷ []) =
    if is_fresh a then record { writable = true; source = none; target = s } ∷ [] else []
binds (a ∷ s ∷ t ∷ rest) =
    let here = binds rest in
    let behind = binds (t ∷ rest) in
    let later = binds (s ∷ t ∷ rest) in
    if a == "--bind"
    then record { writable = true; source = some s; target = t } ∷ here
    else if a == "--ro-bind"
    then record { writable = false; source = some s; target = t } ∷ here
    else if is_fresh a
    then record { writable = true; source = none; target = s } ∷ behind
    else later

abbrev pub covers : String → String → Bool
covers target path = target == "/" || (path == target || starts_with path (str_append target "/"))

abbrev or_else : Option Bool → Option Bool → Option Bool
or_else (some b) rest = some b
or_else none rest = rest

-- Whether a path lies in a writable mount, by the last mount over it.
abbrev pub can_write : List Bind → String → Option Bool
can_write [] path = none
can_write (b ∷ more) path =
    or_else (can_write more path) (if covers b.target path then some b.writable else none)

abbrev pub any_covers : List String → String → Bool
any_covers [] path = false
any_covers (t ∷ targets) path = covers t path || any_covers targets path

abbrev same_place_bind : Bool → String → Bind
same_place_bind writable p = record { writable = writable; source = some p; target = p }

abbrev fresh : String → Bind
fresh p = record { writable = true; source = none; target = p }

abbrev as_read_only : List String → List Bind
as_read_only [] = []
as_read_only (p ∷ paths) = same_place_bind false p ∷ as_read_only paths

module _ (machine : Machine) where
  binds_protected :
      (paths : List String) → binds (protected_args machine paths) ≡ as_read_only paths
  binds_protected [] = refl
  binds_protected (p ∷ paths) = ap (◌∷◌ (same_place_bind false p)) (binds_protected paths)

  binds_mount :
      (b : Bool) (path : String) (rest : List String)
      → binds ((if b then "--bind" else "--ro-bind") ∷ path ∷ path ∷ rest)
        ≡ same_place_bind b path ∷ binds rest
  binds_mount true path rest = refl
  binds_mount false path rest = refl

  binds_git :
      (b : Bool) (git_dir : String) (rest : List String)
      → binds (if b then "--bind" ∷ git_dir ∷ git_dir ∷ rest else rest)
        ≡ (if b then same_place_bind true git_dir ∷ binds rest else binds rest)
  binds_git true git_dir rest = refl
  binds_git false git_dir rest = refl

can_write_protected :
    (paths : List String) (path : String)
    → can_write (as_read_only paths) path ≡ (if any_covers paths path then some false else none)
can_write_protected [] path = refl
can_write_protected (p ∷ paths) path = ground (arith, can_write_protected paths path)

abbrev when : Bool → Bool → Option Bool
when here writable = if here then some writable else none

last_decides :
    (p g r w proc dev tmp : Bool)
    → or_else
        (or_else
          (or_else
            (or_else (or_else (or_else (when p false) (when g true)) (when r w)) (when tmp true))
            (when dev true))
          (when proc true))
        (some false)
      ≡ some (
          if p
          then false
          else if g
          then true
          else if r
          then w
          else (proc || (dev || (tmp || false))))
last_decides p g r w proc dev tmp = ground arith

last_decides_bare :
    (p r w proc dev tmp : Bool)
    → or_else
        (or_else
          (or_else (or_else (or_else (when p false) (when r w)) (when tmp true)) (when dev true))
          (when proc true))
        (some false)
      ≡ some (if p then false else if r then w else (proc || (dev || (tmp || false))))
last_decides_bare p r w proc dev tmp = ground arith

-- What a command in a workspace must not change: the configuration that Git runs code from, the
-- submodules that hold more of it, and what Vitna keeps there.
abbrev never_written : List String
never_written =
    ".git/config" ∷ ".git/config.worktree" ∷ ".git/hooks" ∷ ".git/info" ∷ ".git/modules" ∷ ".vitna"
    ∷ []

abbrev fresh_places : List String
fresh_places = "/proc" ∷ "/dev" ∷ "/tmp" ∷ []

module _ (machine : Machine) (root : String) where
  abbrev git_dir : String
  git_dir = join_path root ".git"

  -- A path in one of these names of the workspace, where it exists.
  abbrev pub any_protected : List String → String → Bool
  any_protected [] path = false
  any_protected (n ∷ names) path =
      (machine.exists (join_path root n) && covers (join_path root n) path)
      || any_protected names path

  abbrev pub is_protected : String → Bool
  is_protected path = any_protected never_written path

  abbrev after_mount : List Bind
  after_mount =
      let own = as_read_only (protected_subpaths machine root) in
      if machine.is_dir git_dir then same_place_bind true git_dir ∷ own else own

  abbrev config_of : SandboxGuarantee → Bool → SandboxConfig
  config_of guarantee network = record (new root guarantee) { allow_network = network }

  -- What the arguments of a new configuration decide: the protected paths that exist are read-only,
  -- the rest of a `.git` directory can be written, and so can the workspace where it is not read-only
  -- and, outside of it, the sandbox's own file systems.
  abbrev pub decided : SandboxGuarantee → String → Bool
  decided guarantee path =
      if is_protected path
      then false
      else if machine.is_dir git_dir && covers git_dir path
      then true
      else if covers root path
      then not (is_read_only guarantee)
      else any_covers fresh_places path

  protected_covers :
      (names : List String) (path : String)
      → any_covers (existing machine.exists (map (join_path root) names)) path
        ≡ any_protected names path
  protected_covers [] path = refl
  protected_covers (n ∷ names) path = ground (arith, protected_covers names path)

  is_protected-covers :
      (path : String) → any_covers (protected_subpaths machine root) path ≡ is_protected path
  unfolding protected_subpaths
  is_protected-covers path = protected_covers never_written path

  binds_tail :
      (guarantee : SandboxGuarantee)
      → binds (
          mount_args machine
            (config_of guarantee true).mounts
            (git_args machine git_dir (protected_args machine (protected_subpaths machine root))))
        ≡ same_place_bind (not (is_read_only guarantee)) root ∷ after_mount
  binds_tail guarantee =
      binds_mount machine (not (is_read_only guarantee)) root
        (git_args machine git_dir (protected_args machine (protected_subpaths machine root)))
      ∙ ap (◌∷◌ (same_place_bind (not (is_read_only guarantee)) root)) (
          binds_git machine (machine.is_dir git_dir) git_dir
            (protected_args machine (protected_subpaths machine root))
          ∙ rw (binds_protected machine (protected_subpaths machine root)) refl)

  abbrev before : List Bind → List Bind
  before more = same_place_bind false "/" ∷ fresh "/proc" ∷ fresh "/dev" ∷ fresh "/tmp" ∷ more

  binds_all :
      (guarantee : SandboxGuarantee) (network : Bool)
      → binds (generate_linux_bwrap_args machine (config_of guarantee network))
        ≡ same_place_bind false "/"
          ∷ fresh "/proc"
          ∷ fresh "/dev"
          ∷ fresh "/tmp"
          ∷ same_place_bind (not (is_read_only guarantee)) root
          ∷ after_mount
  unfolding generate_linux_bwrap_args
  binds_all guarantee true = ap before (binds_tail guarantee)
  binds_all guarantee false = ap before (binds_tail guarantee)

-- A Linux plan of a new configuration, with or without the network, mounts so that a path lies in a
-- writable mount exactly where it is in no protected path that exists and lies in a `.git` directory,
-- or in a workspace that is not read-only, or outside of the workspace in the sandbox's own /tmp,
-- /dev or /proc.
pub can_write_exact :
    (machine : Machine) (root : String) (guarantee : SandboxGuarantee) (network : Bool)
    (path : String)
    → can_write
        (binds (generate_linux_bwrap_args machine (config_of machine root guarantee network)))
        path
      ≡ some (decided machine root guarantee path)
can_write_exact machine root guarantee network path =
    rw (binds_all machine root guarantee network)
      (elim (Bool-cases (machine.is_dir (join_path root ".git"))) [
        | inl e ↦ rw e (
            rw can_write_protected (
              rw (is_protected-covers machine root path) (
                last_decides (is_protected machine root path) (covers (join_path root ".git") path)
                  (covers root path) (not (is_read_only guarantee)) (covers "/proc" path)
                  (covers "/dev" path) (covers "/tmp" path))))
        | inr e ↦ rw e (
            rw can_write_protected (
              rw (is_protected-covers machine root path) (
                last_decides_bare (is_protected machine root path) (covers root path)
                  (not (is_read_only guarantee)) (covers "/proc" path) (covers "/dev" path)
                  (covers "/tmp" path))))
      ])
