-- ===== src/Engine/Verified.antt =====
-- What the verification command of `finalize_run` in crates/orchestration/src/engine.rs has done
-- when the run goes on.
use vitna_code.Base.{
  ℕ, String, false, ◌≡◌, refl, sym, subst, ◌∙◌, ap, Option, none, some, [], ◌∷◌, ◌++◌, Result, ok,
  err, if◌then◌else◌,
}
use vitna_code.Base.Steps.{
  Step, next_ok, done, modify, lift, Triple, bind-Triple, weaken, next_by, After,
}
use vitna_code.Receipts.{EvidenceItemRecord}
use vitna_code.Engine.{Engine, Json, text, object, end, member, record_event}
use vitna_code.Engine.Execute.{
  Parts, StepType, Tool, ToolContext, ToolResult, run_verification, dispatch, found, run_tool,
  approve_action, approve_isolation, finish_tool, execute_task_step, digest,
}
use vitna_code.Engine.Finalize.{push_evidence, run_verification_command}

module _ (p : Parts) where
  -- A tool of this name was called with these arguments, and gave the result.
  abbrev pub WasCalled : String → Json → ToolResult → Type 0
  WasCalled name args result =
      (tool : Tool) × ((n : ℕ) × ((context : ToolContext) × ((p.tool name ≡ some tool)
            × (tool.execute n args context ≡ ok result))))

  -- The evidence of a command that was run.
  abbrev pub IsEvidenceOf : ToolResult → EvidenceItemRecord → Type 0
  IsEvidenceOf result item =
      (item.grade ≡ (if result.success then "sandbox_captured" else "model_reported"))
      × (item.artifact_digest ≡ some (digest p result.output))

  -- The engine after the verification of a run: as before where there is no command, and else after a
  -- step that called the tool for commands with the command, and with the evidence of its result.
  abbrev pub IsVerified : Option String → Engine → Engine → Type 0
  IsVerified none e e' = e' ≡ e
  IsVerified (some cmd) e e' =
      (mid : Engine) × ((result : ToolResult) × ((item : EvidenceItemRecord) × ((execute_task_step p
                (run_verification cmd) e
              ≡ (mid, ok result))
            × WasCalled "run_command" (object (member "command" (text cmd) end)) result
            × (e' ≡ record mid { evidence_items = mid.evidence_items ++ item ∷ [] })
            × IsEvidenceOf result item)))

  -- What follows is known of a result, and nothing of a failure.
  abbrev pub Gives : {A : Type 0} → Type 0 → Step Engine A → (A → Type 0) → Type 0
  Gives X m Q = Triple {S = Engine} (λ e. X) m (λ a e. Q a) (λ e. Unit {0})

  keeps : {A : Type 0} (X : Type 0) (m : Step Engine A) → Gives X m (λ a. X)
  keeps {A} X m = record { holds = λ e x. kept (m e) x }
    where
      kept : (r : Engine × Result String A) → X → After (λ a e. X) (λ e. Unit {0}) r
      kept (e, ok a) x = x
      kept (e, err y) x = tt

  pub records :
      (X : Type 0) (t : String) (payload : Json) → Gives X (record_event p.world t payload) (λ a. X)
  records X t payload = keeps X (record_event p.world t payload)

  pub lifts :
      {A : Type 0} (X : Type 0) (r : Result String A) → Gives X (lift r) (λ a. X × (r ≡ ok a))
  lifts X (ok a) = record { holds = λ e x. (x, refl) }
  lifts X (err y) = record { holds = λ e x. tt }

  finish_tool-Gives :
      (X : Type 0) (name : String) (args : Json) (action_digest : String) (result : ToolResult)
      → Gives X (finish_tool p name args action_digest result) (λ r. X × (result ≡ r))
  unfolding finish_tool
  finish_tool-Gives X name args action_digest result =
      bind-Triple (records X "vitna.v1.ToolFinished" _) (λ _. record { holds = λ e x. (x, refl) })

  bind_called :
      (tool : Tool) (name : String) (args : Json) (action_digest : String) (result : ToolResult)
      (n : ℕ) (context : ToolContext)
      → Gives
          ((p.tool name ≡ some tool) × (tool.execute n args context ≡ ok result))
          (finish_tool p name args action_digest result)
          (WasCalled name args)
  bind_called tool name args action_digest result n context =
      weaken
        (finish_tool-Gives ((p.tool name ≡ some tool) × (tool.execute n args context ≡ ok result))
          name args action_digest result)
        (λ r e h. (tool, (n, (context, (h.0.0, h.0.1 ∙ ap ok h.1))))) (λ e x. x)

  run_tool-Gives :
      (tool : Tool) (name : String) (args : Json) (action_digest : String)
      → Gives
          (p.tool name ≡ some tool)
          (run_tool p tool name args action_digest)
          (WasCalled name args)
  unfolding run_tool
  run_tool-Gives tool name args action_digest =
      bind-Triple (records (p.tool name ≡ some tool) "vitna.v1.ToolStarted" _) (λ _. record {
        holds = λ s h.
            (bind-Triple (lifts (p.tool name ≡ some tool) (tool.execute s.ticks args _)) (λ result.
                bind_called tool name args action_digest result s.ticks (record {
                  workspace_root = s.config.workspace_root;
                  allow_unsandboxed = s.config.allow_unsandboxed;
                  allow_network = false;
                }))).holds
              s h;
      })

  found-Gives :
      (name : String) (o : Option Tool)
      → p.tool name ≡ o
      → Gives (Unit {0}) (found p name o) (λ tool. p.tool name ≡ some tool)
  found-Gives name none h = record { holds = λ e x. tt }
  found-Gives name (some tool) h = record { holds = λ e x. h }

  step-WasCalled :
      (step : StepType)
      → Gives (Unit {0}) (execute_task_step p step) (WasCalled (dispatch step).0 (dispatch step).1)
  unfolding execute_task_step
  step-WasCalled step =
      let name = (dispatch step).0 in
      let args = (dispatch step).1 in
      record {
        holds = λ s h.
            (bind-Triple (records (Unit {0}) "vitna.v1.ContextAssembled" _) (λ _.
                bind-Triple (found-Gives name (p.tool name) refl) (λ tool.
                  let there = p.tool name ≡ some tool in
                  bind-Triple
                    (keeps there (
                      if (dispatch step).2
                      then approve_action p name args (tool.compute_action_digest args)
                      else done tt))
                    (λ _.
                      bind-Triple
                        (keeps there (approve_isolation p name (tool.compute_action_digest args)))
                        (λ _.
                          run_tool-Gives tool name args (tool.compute_action_digest args)))))).holds
              s h;
      }

  pub after_ok :
      {A : Type 0} (Q : A → Type 0) (r : Engine × Result String A) (e : Engine) (a : A)
      → After (λ b s. Q b) (λ s. Unit {0}) r
      → r ≡ (e, ok a)
      → Q a
  after_ok Q r e a h y = subst (λ x. After (λ b s. Q b) (λ s. Unit {0}) x) y h

  -- The verification was carried out where it returned.
  pub verified :
      (command : Option String) (e e' : Engine)
      → run_verification_command p command e ≡ (e', ok tt)
      → IsVerified command e e'
  unfolding run_verification_command dispatch
  verified none e e' h = cc
  verified (some cmd) e e' h =
      let (mid, (result, y, z)) =
        next_ok (execute_task_step p (run_verification cmd) e)
          (λ result. modify (push_evidence p cmd result)) tt (ap (λ r. r.1) h) in
      (
        mid,
        (
          result,
          (
            _,
            (
              y,
              after_ok (WasCalled "run_command" (object (member "command" (text cmd) end))) _ mid
                  result ((step-WasCalled (run_verification cmd)).holds e tt) y,
              gone mid result (sym (next_by _ _ _ mid result y refl) ∙ h),
              (refl, refl),
            ),
          ),
        ),
      )
    where
      gone :
          (mid : Engine) (result : ToolResult)
          → modify (push_evidence p cmd result) mid ≡ (e', ok tt)
          → e' ≡ push_evidence p cmd result mid
      gone mid result h = sym (ap (λ r. r.0) h)
