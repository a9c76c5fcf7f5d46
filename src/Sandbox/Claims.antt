-- ===== src/Sandbox/Claims.antt =====
-- What `plan` of crates/vitna-sandbox/src/lib.rs claims of the isolation it plans.
use vitna_code.Base.{
  String, Bool, true, false, ◌≡◌, refl, ◌∙◌, ◌↔◌, ◌⊎◌, inl, inr, List, [], ◌∷◌, Result, ok, err,
}
use vitna_code.Sandbox.{
  SandboxGuarantee, read_only, guarded, strong, full_access, bubblewrap, seatbelt, fully_enforced,
  fallback, SandboxPlan, SandboxConfig, System, linux, macos, windows, other, Machine, join_path,
  git_gaps, enforcement_of, linux_plan, macos_plan, plan_guarded, plan_for, plan,
}

module _ (machine : Machine) (config : SandboxConfig) where
  -- The plan of a system whose sandbox answered its probe.
  abbrev pub IsBackedBy : System → SandboxPlan → Type 0
  IsBackedBy system p =
      ((system ≡ linux) × (machine.bwrap_probe ≡ ok tt) × (p.backend ≡ bubblewrap))
      ⊎ ((system ≡ macos) × (machine.seatbelt_probe ≡ ok tt) × (p.backend ≡ seatbelt))

  -- Full enforcement is claimed exactly where no gap is named: on Linux, with a `.git` to protect.
  abbrev pub IsHonest : System → SandboxPlan → Type 0
  IsHonest system p =
      ((p.enforcement ≡ fully_enforced) ↔ (p.gaps ≡ []))
      × ((p.enforcement ≡ fully_enforced)
          ↔ ((system ≡ linux) × (machine.exists (join_path config.workspace_root ".git") ≡ true)))

  abbrev IsClaim : System → SandboxPlan → Type 0
  IsClaim system p = IsBackedBy system p × IsHonest system p

  enforcement_iff :
      (gaps : List String) → (enforcement_of machine gaps ≡ fully_enforced) ↔ (gaps ≡ [])
  enforcement_iff [] = (λ _. refl, λ _. refl)
  enforcement_iff (gap ∷ gaps) = (λ e. absurd (cc), λ e. absurd (cc))

  gaps_iff : (b : Bool) → (git_gaps machine b ≡ []) ↔ (b ≡ true)
  gaps_iff true = (λ _. refl, λ _. refl)
  gaps_iff false = (λ e. absurd (cc), λ e. absurd (cc))

  module _ (command cwd : String) (p : SandboxPlan) where
    abbrev has_git : Bool
    has_git = machine.exists (join_path config.workspace_root ".git")

    linux-IsClaim :
        (r : Result String (Unit {0}))
        → machine.bwrap_probe ≡ r
        → linux_plan machine config command cwd r ≡ ok p
        → IsClaim linux p
    linux-IsClaim (err why) e z = absurd (cc)
    linux-IsClaim (ok u) e z =
        let gaps = git_gaps machine has_git in
        let same : p.gaps ≡ gaps = cc in
        let claimed : p.enforcement ≡ enforcement_of machine gaps = cc in
        let backend : p.backend ≡ bubblewrap = cc in
        let (to, from) = enforcement_iff gaps in
        let (none, there) = gaps_iff has_git in
        (
          inl (refl, e, backend),
          (
            (λ f. same ∙ to (cc), λ g. claimed ∙ from (cc)),
            (λ f. (refl, none (to (cc))), λ (s, g). claimed ∙ from (there g)),
          ),
        )

    macos-IsClaim :
        (r : Result String (Unit {0}))
        → machine.seatbelt_probe ≡ r
        → macos_plan machine config command cwd r ≡ ok p
        → IsClaim macos p
    macos-IsClaim (err why) e z = absurd (cc)
    macos-IsClaim (ok u) e z =
        let backend : p.backend ≡ seatbelt = cc in
        let claimed : p.enforcement ≡ fallback = cc in
        (
          inr (refl, e, backend),
          ((λ f. absurd (cc), λ g. absurd (cc)), (λ f. absurd (cc), λ (s, g). absurd (cc))),
        )

    IsClaim-on :
        (system : System) → plan_guarded machine system config command cwd ≡ ok p → IsClaim system p
    IsClaim-on linux z = linux-IsClaim machine.bwrap_probe refl z
    IsClaim-on macos z = macos-IsClaim machine.seatbelt_probe refl z
    IsClaim-on windows z = absurd (cc)
    IsClaim-on other z = absurd (cc)

    abbrev IsPlanned : SandboxGuarantee → Type 0
    IsPlanned guarantee = (guarantee ≡ read_only) ⊎ (guarantee ≡ guarded)

    IsClaim-for :
        (guarantee : SandboxGuarantee)
        → plan_for machine guarantee config command cwd ≡ ok p
        → IsPlanned guarantee × IsClaim machine.system p
    IsClaim-for read_only z = (inl refl, IsClaim-on machine.system z)
    IsClaim-for guarded z = (inr refl, IsClaim-on machine.system z)
    IsClaim-for strong z = absurd (cc)
    IsClaim-for full_access z = absurd (cc)

-- A plan is only ever given for the read-only and the guarded guarantee, on Linux or macOS with a
-- sandbox that answered its probe. It claims full enforcement exactly where it names no gap, which
-- is on Linux in a workspace that has a `.git`.
pub plan_claims :
    (machine : Machine) (config : SandboxConfig) (command cwd : String) (p : SandboxPlan)
    → plan machine config command cwd ≡ ok p
    → ((config.guarantee ≡ read_only) ⊎ (config.guarantee ≡ guarded))
      × IsBackedBy machine config machine.system p
      × IsHonest machine config machine.system p
unfolding plan
plan_claims machine config command cwd p z =
    let (planned, claim) = IsClaim-for machine config command cwd p config.guarantee z in
    (planned, claim.0, claim.1)
