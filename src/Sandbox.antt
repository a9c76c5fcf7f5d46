-- ===== src/Sandbox.antt =====
-- crates/vitna-sandbox/src/lib.rs: what isolation a plan claims, and the invocation that it gives.
-- What the machine answers (its system, the probe of its sandbox, which paths exist and where they
-- lead) is a record.
pub mod Binds
pub mod Claims
mod Tests
use Prim.Native.String.{◌++◌ as str_append}
use Prim.Native.Char.{code}
use vitna_code.Base.{
  ℕ, String, Bool, true, false, not, List, [], ◌∷◌, ◌++◌, map, Result, ok, err, nat_eq, ◌>>=◌,
  if◌then◌else◌,
}
use vitna_code.Bytes.{Bytes}

pub data SandboxGuarantee : Type 0 where
  read_only : SandboxGuarantee
  guarded : SandboxGuarantee
  strong : SandboxGuarantee
  full_access : SandboxGuarantee

pub data SandboxBackend : Type 0 where
  bubblewrap : SandboxBackend
  seatbelt : SandboxBackend
  app_container : SandboxBackend

abbrev pub backend_name : SandboxBackend → String
backend_name bubblewrap = "bubblewrap"
backend_name seatbelt = "seatbelt"
backend_name app_container = "appcontainer"

pub data Enforcement : Type 0 where
  fully_enforced : Enforcement
  fallback : Enforcement

abbrev pub enforcement_name : Enforcement → String
enforcement_name fully_enforced = "fully_enforced"
enforcement_name fallback = "fallback"

pub data PlanError : Type 0 where
  unavailable : String → PlanError
  not_implemented : String → PlanError

abbrev pub reason : PlanError → String
reason (unavailable why) = why
reason (not_implemented why) = why

pub record SandboxMount : Type 0 where
  pub host_path : String
  pub sandbox_path : String
  pub writable : Bool

pub record SandboxPlan : Type 0 where
  pub backend : SandboxBackend
  pub enforcement : Enforcement
  pub gaps : List String
  pub program : String
  pub args : List String
  pub env : List (String × String)
  pub cwd : String

pub record SandboxConfig : Type 0 where
  pub workspace_root : String
  pub mounts : List SandboxMount
  pub allow_network : Bool
  pub max_memory_bytes : ℕ
  pub max_cpu_percent : ℕ
  pub max_processes : ℕ
  pub sanitized_environment : List (String × String)
  pub guarantee : SandboxGuarantee

pub data System : Type 0 where
  linux : System
  macos : System
  windows : System
  other : System

pub record Machine : Type 0 where
  pub system : System
  pub bwrap_probe : Result String (Unit {0})
  pub seatbelt_probe : Result String (Unit {0})
  pub exists : String → Bool
  pub is_dir : String → Bool
  pub canonicalize : String → String
  pub hex_sha256 : String → String

abbrev ends_in_slash : String → Bool
ends_in_slash String.[] = false
ends_in_slash (String.◌∷◌ c String.[]) = nat_eq (code c) b'/'
ends_in_slash (String.◌∷◌ c (String.◌∷◌ d s)) = ends_in_slash (String.◌∷◌ d s)

-- `Path::join`, of a relative path.
abbrev pub join_path : String → String → String
join_path root rel =
    if ends_in_slash root then str_append root rel else str_append root (str_append "/" rel)

abbrev pub is_read_only : SandboxGuarantee → Bool
is_read_only read_only = true
is_read_only guarded = false
is_read_only strong = false
is_read_only full_access = false

abbrev pub new : String → SandboxGuarantee → SandboxConfig
new workspace_root guarantee = record {
  workspace_root = workspace_root;
  mounts =
      record {
        host_path = workspace_root;
        sandbox_path = workspace_root;
        writable = not (is_read_only guarantee);
      }
      ∷ [];
  allow_network = false;
  max_memory_bytes = 2147483648;
  max_cpu_percent = 100;
  max_processes = 64;
  sanitized_environment = ("LANG", "en_US.UTF-8") ∷ ("LC_ALL", "en_US.UTF-8") ∷ [];
  guarantee = guarantee;
}

abbrev candidates : List String
candidates =
    ".git/config" ∷ ".git/config.worktree" ∷ ".git/hooks" ∷ ".git/info" ∷ ".git/modules" ∷ ".vitna"
    ∷ []

abbrev pub existing : (String → Bool) → List String → List String
existing exists [] = []
existing exists (p ∷ paths) =
    let rest = existing exists paths in if exists p then p ∷ rest else rest

module _ (machine : Machine) where
  unfoldable pub protected_subpaths : String → List String
  protected_subpaths root = existing machine.exists (map (join_path root) candidates)

  -- On macOS a policy is written against the resolved path.
  abbrev path_on : System → String → String
  path_on linux path = path
  path_on macos path = machine.canonicalize path
  path_on windows path = path
  path_on other path = path

  abbrev pub policy_path : String → String
  policy_path path = path_on machine.system path

  abbrev fixed_args : List String
  fixed_args =
      "bwrap" ∷ "--die-with-parent" ∷ "--new-session" ∷ "--unshare-pid" ∷ "--unshare-ipc"
      ∷ "--unshare-uts" ∷ "--unshare-cgroup-try" ∷ "--ro-bind" ∷ "/" ∷ "/" ∷ "--proc" ∷ "/proc"
      ∷ "--dev" ∷ "/dev" ∷ "--tmpfs" ∷ "/tmp" ∷ []

  abbrev pub mount_args : List SandboxMount → List String → List String
  mount_args [] rest = rest
  mount_args (m ∷ mounts) rest =
      (if m.writable then "--bind" else "--ro-bind")
      ∷ m.host_path
      ∷ m.sandbox_path
      ∷ mount_args mounts rest

  abbrev pub git_args : String → List String → List String
  git_args git_dir rest =
      if machine.is_dir git_dir then "--bind" ∷ git_dir ∷ git_dir ∷ rest else rest

  abbrev pub protected_args : List String → List String
  protected_args [] = []
  protected_args (p ∷ paths) = "--ro-bind" ∷ p ∷ p ∷ protected_args paths

  abbrev network_args : Bool → List String → List String
  network_args allowed rest = if allowed then rest else "--unshare-net" ∷ rest

  unfoldable pub generate_linux_bwrap_args : SandboxConfig → List String
  generate_linux_bwrap_args config =
      fixed_args
      ++ network_args config.allow_network (
          mount_args config.mounts (
            git_args (join_path config.workspace_root ".git")
              (protected_args (protected_subpaths config.workspace_root))))

  abbrev except : List String → String → String
  except [] rest = rest
  except (p ∷ paths) rest =
      str_append "\n  (require-not (subpath \""
        (str_append (policy_path p) (str_append "\"))" (except paths rest)))

  abbrev except_git : String → String → String
  except_git git_dir rest =
      if machine.exists git_dir
      then str_append "\n  (require-not (literal \""
          (str_append (policy_path git_dir) (str_append "\"))" rest))
      else rest

  abbrev write_rule : SandboxConfig → String → String
  write_rule config rest =
      if is_read_only config.guarantee
      then rest
      else str_append "(allow file-write* (require-all (subpath \"" (
          str_append (policy_path config.workspace_root) (
            str_append "\")" (
              except (protected_subpaths config.workspace_root)
                (except_git (join_path config.workspace_root ".git") (str_append "))\n" rest)))))

  abbrev network_rule : Bool → String
  network_rule allowed = if allowed then "(allow network-outbound)\n" else "(deny network*)\n"

  unfoldable pub generate_macos_seatbelt_profile : SandboxConfig → String
  generate_macos_seatbelt_profile config =
      str_append
        "(version 1)\n(deny default)\n(allow process-fork)\n(allow process-exec)\n(allow signal (target same-sandbox))\n(allow sysctl-read)\n(allow mach-lookup)\n(allow ipc-posix-sem)\n(allow file-read*)\n"
        (write_rule config (network_rule config.allow_network))

  -- The rest of a list behind its first item: `split_off(1)`.
  abbrev pub behind_first : List String → List String
  behind_first [] = []
  behind_first (a ∷ args) = args

  abbrev pub enforcement_of : List String → Enforcement
  enforcement_of [] = fully_enforced
  enforcement_of (gap ∷ gaps) = fallback

  abbrev pub git_gaps : Bool → List String
  git_gaps exists =
      if exists
      then []
      else "workspace has no .git directory, so one created inside the sandbox is not protected"
        ∷ []

  abbrev pub linux_plan :
      SandboxConfig → String → String → Result String (Unit {0}) → Result PlanError SandboxPlan
  linux_plan config command cwd (err why) = err (unavailable why)
  linux_plan config command cwd (ok u) =
      let gaps = git_gaps (machine.exists (join_path config.workspace_root ".git")) in
      ok (record {
        backend = bubblewrap;
        enforcement = enforcement_of gaps;
        gaps = gaps;
        program = "bwrap";
        args =
            behind_first (generate_linux_bwrap_args config)
            ++ "--chdir" ∷ cwd ∷ "--" ∷ "/bin/sh" ∷ "-c" ∷ command ∷ [];
        env = config.sanitized_environment;
        cwd = cwd;
      })

  abbrev pub macos_plan :
      SandboxConfig → String → String → Result String (Unit {0}) → Result PlanError SandboxPlan
  macos_plan config command cwd (err why) = err (unavailable why)
  macos_plan config command cwd (ok u) = ok (record {
    backend = seatbelt;
    enforcement = fallback;
    gaps =
        "no PID namespace: process-tree teardown is by process group, which a child that calls setsid can leave"
        ∷ git_gaps (machine.exists (join_path config.workspace_root ".git"));
    program = "/usr/bin/sandbox-exec";
    args = "-p" ∷ generate_macos_seatbelt_profile config ∷ "/bin/sh" ∷ "-c" ∷ command ∷ [];
    env = config.sanitized_environment;
    cwd = cwd;
  })

  abbrev pub plan_guarded : System → SandboxConfig → String → String → Result PlanError SandboxPlan
  plan_guarded linux config command cwd = linux_plan config command cwd machine.bwrap_probe
  plan_guarded macos config command cwd = macos_plan config command cwd machine.seatbelt_probe
  plan_guarded windows config command cwd = err (
      unavailable
        "no AppContainer launcher is implemented on Windows; the existing profile name is an identifier, not a container")
  plan_guarded other config command cwd =
      err (unavailable "no sandbox backend exists for this platform")

  abbrev pub plan_for :
      SandboxGuarantee → SandboxConfig → String → String → Result PlanError SandboxPlan
  plan_for full_access config command cwd =
      err
        (not_implemented "full_access is host execution with no sandbox and is never planned here")
  plan_for strong config command cwd = err (
      not_implemented
        "strong isolation means an ephemeral container or hardware VM (docs/PLATFORM_MATRIX.md); no such backend is implemented")
  plan_for read_only config command cwd = plan_guarded machine.system config command cwd
  plan_for guarded config command cwd = plan_guarded machine.system config command cwd

  unfoldable pub plan : SandboxConfig → String → String → Result PlanError SandboxPlan
  plan config command cwd = plan_for config.guarantee config command cwd
