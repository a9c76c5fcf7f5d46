-- ===== src/Sandbox/Tests.antt =====
-- Plans of crates/vitna-sandbox/src/lib.rs on small machines, and the theorems there.
use vitna_code.Base.{
  String, Bool, true, false, ◌≡◌, ◌⊎◌, refl, Option, some, List, [], ◌∷◌, ok, err, contains,
}
use vitna_code.Sandbox.{
  SandboxGuarantee, read_only, guarded, strong, SandboxPlan, Machine, System, linux, macos, new,
  protected_subpaths, not_implemented, bubblewrap, fallback, generate_linux_bwrap_args,
  generate_macos_seatbelt_profile, plan,
}
use vitna_code.Sandbox.Binds.{binds, can_write, can_write_exact}
use vitna_code.Sandbox.Claims.{IsBackedBy, IsHonest, plan_claims}

abbrev machine : System → List String → Machine
machine system paths = record {
  system = system;
  bwrap_probe = ok tt;
  seatbelt_probe = ok tt;
  exists = contains paths;
  is_dir = contains paths;
  canonicalize = λ path. path;
  hex_sha256 = λ text. text;
}

abbrev with_git : List String
with_git = "/w/.git" ∷ "/w/.git/config" ∷ "/w/.vitna" ∷ []

abbrev on_linux : Machine
on_linux = machine linux with_git

abbrev writes : SandboxGuarantee → String → Option Bool
writes guarantee path =
    can_write (binds (generate_linux_bwrap_args on_linux (new "/w" guarantee))) path

writes_source : writes guarded "/w/src" ≡ some true
unfolding generate_linux_bwrap_args protected_subpaths
writes_source = refl

writes_config : writes guarded "/w/.git/config" ≡ some false
unfolding generate_linux_bwrap_args protected_subpaths
writes_config = refl

writes_elsewhere : writes guarded "/etc/passwd" ≡ some false
unfolding generate_linux_bwrap_args protected_subpaths
writes_elsewhere = refl

-- The sandbox's own /tmp.
writes_tmp : writes read_only "/tmp/x" ≡ some true
unfolding generate_linux_bwrap_args protected_subpaths
writes_tmp = refl

-- A read-only workspace can be written below its `.git`.
writes_git_head : writes read_only "/w/.git/HEAD" ≡ some true
unfolding generate_linux_bwrap_args protected_subpaths
writes_git_head = refl

profile_read_only :
    generate_macos_seatbelt_profile (machine macos []) (new "/w" read_only)
    ≡ "(version 1)\n(deny default)\n(allow process-fork)\n(allow process-exec)\n(allow signal (target same-sandbox))\n(allow sysctl-read)\n(allow mach-lookup)\n(allow ipc-posix-sem)\n(allow file-read*)\n(deny network*)\n"
unfolding generate_macos_seatbelt_profile
profile_read_only = refl

plan_strong :
    plan on_linux (new "/w" strong) "true" "/w"
    ≡ err (
        not_implemented
          "strong isolation means an ephemeral container or hardware VM (docs/PLATFORM_MATRIX.md); no such backend is implemented")
unfolding plan
plan_strong = refl

can_write_exact_example : writes read_only "/w/.git/HEAD" ≡ some true
unfolding protected_subpaths
can_write_exact_example = can_write_exact on_linux "/w" read_only false "/w/.git/HEAD"

-- A Linux workspace without a `.git`.
abbrev bare_plan : SandboxPlan
bare_plan = record {
  backend = bubblewrap;
  enforcement = fallback;
  gaps = "workspace has no .git directory, so one created inside the sandbox is not protected" ∷ [];
  program = "bwrap";
  args =
      "--die-with-parent" ∷ "--new-session" ∷ "--unshare-pid" ∷ "--unshare-ipc" ∷ "--unshare-uts"
      ∷ "--unshare-cgroup-try" ∷ "--ro-bind" ∷ "/" ∷ "/" ∷ "--proc" ∷ "/proc" ∷ "--dev" ∷ "/dev"
      ∷ "--tmpfs" ∷ "/tmp" ∷ "--unshare-net" ∷ "--bind" ∷ "/w" ∷ "/w" ∷ "--chdir" ∷ "/w" ∷ "--"
      ∷ "/bin/sh" ∷ "-c" ∷ "true" ∷ [];
  env = ("LANG", "en_US.UTF-8") ∷ ("LC_ALL", "en_US.UTF-8") ∷ [];
  cwd = "/w";
}

bare : plan (machine linux []) (new "/w" guarded) "true" "/w" ≡ ok bare_plan
unfolding plan generate_linux_bwrap_args protected_subpaths
bare = refl

plan_claims_example :
    ((guarded ≡ read_only) ⊎ (guarded ≡ guarded))
    × IsBackedBy (machine linux []) (new "/w" guarded) linux bare_plan
    × IsHonest (machine linux []) (new "/w" guarded) linux bare_plan
plan_claims_example = plan_claims (machine linux []) (new "/w" guarded) "true" "/w" bare_plan bare
