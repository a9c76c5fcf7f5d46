-- ===== src/Engine/Gates.antt =====
-- The approvals of `execute_task_step` in crates/orchestration/src/engine.rs: what it records, in
-- which order, and that no tool starts before what it needs was approved.
use vitna_code.Base.{
  ℕ, String, ◌≡◌, refl, sym, ap, ◌∙◌, subst, Bool, true, false, ◌&&◌, ◌==◌, List, [], ◌∷◌, ◌++◌,
  contains, contains-append, arith, ok, err, Result, if◌then◌else◌,
}
use mathlib.Core.List.{append_assoc}
use vitna_code.Base.Steps.{Triple, bind-Triple, weaken, given, done, get, ◌>>=◌}
use vitna_code.Store.{EventRecord, EventStore}
use vitna_code.Engine.{OrchestrationConfig, Engine, Json, record_event}
use vitna_code.Engine.Record.{Told, Told-record_event}
use vitna_code.Engine.Execute.{
  Parts, granted_if, approve_action, approve_unsandboxed, unless_confined,
}

abbrev pub started : String
started = "vitna.v1.ToolStarted"

-- What is recorded where an approval is asked for and given.
abbrev pub approvals : Bool → List String
approvals false = []
approvals true = "vitna.v1.ApprovalRequested" ∷ "vitna.v1.ApprovalGranted" ∷ []

-- What is recorded before the tool starts.
abbrev pub opening : Bool → Bool → List String
opening action isolation = "vitna.v1.ContextAssembled" ∷ (approvals action ++ approvals isolation)

pub opening_unstarted : (a i : Bool) → contains (opening a i) started ≡ false
opening_unstarted false false = refl
opening_unstarted false true = refl
opening_unstarted true false = refl
opening_unstarted true true = refl

-- The tool is a command of a runner that starts processes, and nothing can confine it.
abbrev pub IsUnconfined : Parts → String → String → Type 0
IsUnconfined p root name =
    ((name == "run_command" && p.spawns_processes) ≡ true)
    × ((n : ℕ) → (reason : String) × (p.sandbox_status n root false ≡ err reason))

-- What was approved for a tool to start.
abbrev pub IsApproved : Parts → OrchestrationConfig → String → Bool → Type 0
IsApproved p config name is_mutating =
    (is_mutating ≡ true → config.auto_approve ≡ true)
    × (IsUnconfined p config.workspace_root name → config.allow_unsandboxed ≡ true)

module _ (p : Parts) (start : EventStore) (first : ℕ) (config : OrchestrationConfig)
    (es : List EventRecord) where
  abbrev pub Heard : List String → Engine → Type 0
  Heard ts e = Told p.world start first config es ts e

  -- A failure: what was recorded, and that an approval stands before a start.
  abbrev pub Ended : Type 0 → Engine → Type 0
  Ended F e = (ts : List String) × Heard ts e × (contains ts started ≡ true → F)

  pub unstarted :
      (F : Type 0) (ts : List String) (e : Engine)
      → contains ts started ≡ false
      → Heard ts e
      → Ended F e
  unstarted F ts e n h = (ts, h, λ y. absurd (ground (arith, y)))

  -- Which approvals stand after step 3b.
  abbrev pub Opened : Bool → String → Engine → Type 0
  Opened m name s =
      (i : Bool) × Heard (opening m i) s
      × (IsUnconfined p config.workspace_root name → config.allow_unsandboxed ≡ true)

  module _ (F : Type 0) where
    pub record-Triple :
        (ts : List String) (t : String) (payload : Json)
        → contains ts started ≡ false
        → Triple (Heard ts) (record_event p.world t payload) (λ _. Heard (ts ++ t ∷ [])) (Ended F)
    record-Triple ts t payload n =
        weaken (Told-record_event p.world start first config es ts t payload) (λ a s q. q)
          (λ s h. unstarted F ts s n h)

    granted-Triple :
        (b : Bool) (ts : List String) (refusal : String) (payload : Json)
        → contains ts started ≡ false
        → Triple
            (Heard ts)
            (granted_if p b refusal payload)
            (λ _ s. Heard (ts ++ "vitna.v1.ApprovalGranted" ∷ []) s × (b ≡ true))
            (Ended F)
    granted-Triple false ts refusal payload n = record { holds = λ s h. unstarted F ts s n h }
    granted-Triple true ts refusal payload n =
        bind-Triple (record-Triple ts "vitna.v1.ApprovalGranted" payload n)
          (λ _. record { holds = λ s h. (h, refl) })

    -- Asking, and going on only if the flag is set.
    ask-Triple :
        (flag : OrchestrationConfig → Bool) (ts : List String) (refusal : String)
        (asked payload : Json)
        → contains ts started ≡ false
        → Triple
            (Heard ts)
            (record_event p.world "vitna.v1.ApprovalRequested" asked
              >>= (λ _. get >>= (λ e. granted_if p (flag e.config) refusal payload)))
            (λ _ s. Heard (ts ++ approvals true) s × (flag config ≡ true))
            (Ended F)
    ask-Triple flag ts refusal asked payload n =
        bind-Triple (record-Triple ts "vitna.v1.ApprovalRequested" asked n) (λ _. record {
          holds = λ s h.
              let asked_for = ts ++ "vitna.v1.ApprovalRequested" ∷ [] in
              let t : Triple (Heard asked_for) (granted_if p (flag s.config) refusal payload)
                  (λ _ s'. Heard (ts ++ approvals true) s' × (flag config ≡ true)) (Ended F) =
                weaken (granted-Triple (flag s.config) asked_for refusal payload unstarted_yet)
                  (λ a s' q. (
                    subst (λ l. Heard l s') (append_assoc ts _ _) q.0,
                    sym (ap flag h.log.same_config) ∙ q.1,
                  ))
                  (λ s' q. q) in
              t.holds s h;
        })
      where
        unstarted_yet : contains (ts ++ "vitna.v1.ApprovalRequested" ∷ []) started ≡ false
        unstarted_yet =
            contains-append ts ("vitna.v1.ApprovalRequested" ∷ []) started ∙ ground arith

    pub action-Triple :
        (m : Bool) (name : String) (args : Json) (digest : String)
        → Triple
            (Heard (opening false false))
            (if m then approve_action p name args digest else done tt)
            (λ _ s. Heard (opening m false) s × (m ≡ true → config.auto_approve ≡ true))
            (Ended F)
    unfolding approve_action
    action-Triple false name args digest = record { holds = λ s h. (h, λ y. absurd (ground arith)) }
    action-Triple true name args digest =
        weaken (ask-Triple (λ c. c.auto_approve) (opening false false) _ _ _ refl)
          (λ a s q. (q.0, λ _. q.1)) (λ s q. q)

    opening_append : (m i : Bool) → opening m false ++ approvals i ≡ opening m i
    opening_append false i = refl
    opening_append true i = refl

    pub confined-Triple :
        (m : Bool) (name digest : String) (status : Result String (String × String))
        → Triple
            (λ s.
              Heard (opening m false) s
              × (IsUnconfined p config.workspace_root name
                  → (reason : String) × (status ≡ err reason)))
            (unless_confined p name digest status)
            (λ _. Opened m name)
            (Ended F)
    unfolding approve_unsandboxed
    confined-Triple m name digest (ok plan) = record {
      holds = λ s h. (false, h.0, λ u. absurd (ground (arith, (h.1 u).1)));
    }
    confined-Triple m name digest (err reason) = given (λ _.
        weaken
          (ask-Triple (λ c. c.allow_unsandboxed) (opening m false) _ _ _
            (opening_unstarted m false))
          (λ a s q. (true, subst (λ l. Heard l s) (opening_append m true) q.0, λ _. q.1))
          (λ s q. q))
