-- ===== src/Engine/Outcome.antt =====
-- What `execute_task_step` of crates/orchestration/src/engine.rs records and returns.
use vitna_code.Base.{
  ℕ, String, ◌≡◌, ◌≢◌, refl, sym, subst, Bool, true, false, List, [], ◌∷◌, ◌++◌, map, contains, ok,
  err, Result, Bool-cases, inl, inr,
}
use mathlib.Core.List.{append-nil}
use vitna_code.Base.Steps.{After}
use vitna_code.Store.{EventRecord, EventStore}
use vitna_code.Engine.{OrchestrationConfig, Engine}
use vitna_code.Engine.Record.{IsLog}
use vitna_code.Engine.Execute.{Parts, StepType, ToolResult, dispatch, execute_task_step}
use vitna_code.Engine.Gates.{started, opening, IsApproved, Heard, Ended}
use vitna_code.Engine.Approval.{Ran, step-Triple}

abbrev pub type_urls : List EventRecord → List String
type_urls = map (λ x. x.type_url)

module _ (p : Parts) (start : EventStore) (first : ℕ) (config : OrchestrationConfig)
    (es : List EventRecord) where
  -- The engine's log is `es` and some more events of these types.
  abbrev pub Logged : List String → Engine → Type 0
  Logged ts e =
      (more : List EventRecord) × IsLog p.world start first config (es ++ more) e
      × (type_urls more ≡ ts)

  Heard-nothing :
      (e : Engine) → IsLog p.world start first config es e → Heard p start first config es [] e
  Heard-nothing e l = record {
    more = [];
    log = subst (λ x. IsLog p.world start first config x e) (sym (append-nil es)) l;
    types = refl;
  }

  logged : (ts : List String) (e : Engine) → Heard p start first config es ts e → Logged ts e
  logged ts e h = (h.more, h.log, h.types)

  module _ (step : StepType) where
    abbrev Gate : Type 0
    Gate = IsApproved p config (dispatch step).0 (dispatch step).2

    abbrev Trace : Engine × Result String ToolResult → Type 0
    Trace r =
        After
          (λ _.
            Ran p start first config es (dispatch step).2 (dispatch step).0
              (started ∷ "vitna.v1.ToolFinished" ∷ []))
          (Ended p start first config es Gate) r

    trace :
        (e : Engine) → IsLog p.world start first config es e → Trace (execute_task_step p step e)
    trace e l = (step-Triple p start first config es step).holds e (Heard-nothing e l)

    -- What every outcome has in common.
    outcome-Logged :
        (r : Engine × Result String ToolResult)
        → Trace r
        → (ts : List String) × Logged ts r.0 × (contains ts started ≡ true → Gate)
    outcome-Logged (e, ok a) (i, h, g) = (_, logged _ e h, λ _. g)
    outcome-Logged (e, err x) (ts, h, g) = (ts, logged ts e h, g)

    outcome_refused :
        (r : Engine × Result String ToolResult)
        → Trace r
        → (Gate → ⊥)
        → ((a : ToolResult) → r.1 ≢ ok a)
          × ((ts : List String) × Logged ts r.0 × (contains ts started ≡ false))
    outcome_refused (e, ok a) (i, h, g) n = absurd (n g)
    outcome_refused (e, err x) (ts, h, g) n = (
      (λ a y. absurd (cc)),
      (
        ts,
        logged ts e h,
        elim (Bool-cases (contains ts started)) [ inl y ↦ absurd (n (g y)) | inr y ↦ y ],
      ),
    )

    outcome_ok :
        (r : Engine × Result String ToolResult) (a : ToolResult)
        → Trace r
        → r.1 ≡ ok a
        → Gate
          × ((i : Bool) × Logged
                (opening (dispatch step).2 i ++ started ∷ "vitna.v1.ToolFinished" ∷ [])
                r.0)
    outcome_ok (e, ok b) a (i, h, g) y = (g, (i, logged _ e h))
    outcome_ok (e, err x) a t y = absurd (cc)

-- Whatever comes of a step, the engine's log is as before and then the step's events: the store
-- has them behind what it held, in one hash chain from the genesis hash to the engine's last one,
-- of the run, and numbered without a gap.
pub execute_task_step-IsLog :
    (p : Parts) (start : EventStore) (first : ℕ) (config : OrchestrationConfig)
    (es : List EventRecord) (step : StepType) (e : Engine)
    → IsLog p.world start first config es e
    → (more : List EventRecord) × IsLog p.world start first config
        (es ++ more)
        (execute_task_step p step e).0
execute_task_step-IsLog p start first config es step e l =
    let (ts, (more, log, types), gate) =
      outcome-Logged p start first config es step _ (trace p start first config es step e l) in
    (more, log)

-- A step that lacks an approval (the general one where its tool changes something, or the one to
-- run without a sandbox where its command cannot be confined) returns an error and records no
-- start of a tool.
pub execute_task_step_refused :
    (p : Parts) (start : EventStore) (first : ℕ) (config : OrchestrationConfig)
    (es : List EventRecord) (step : StepType) (e : Engine)
    → IsLog p.world start first config es e
    → (IsApproved p config (dispatch step).0 (dispatch step).2 → ⊥)
    → ((a : ToolResult) → (execute_task_step p step e).1 ≢ ok a)
      × ((ts : List String) × Logged p start first config es ts (execute_task_step p step e).0
          × (contains ts started ≡ false))
execute_task_step_refused p start first config es step e l n =
    outcome_refused p start first config es step _ (trace p start first config es step e l) n

-- A step that returns a result had its approvals, and recorded in this order: the context, the
-- general approval exactly where its tool changes something, the one for isolation or not, the
-- start and the end of the tool.
pub execute_task_step_trace :
    (p : Parts) (start : EventStore) (first : ℕ) (config : OrchestrationConfig)
    (es : List EventRecord) (step : StepType) (e : Engine) (a : ToolResult)
    → IsLog p.world start first config es e
    → (execute_task_step p step e).1 ≡ ok a
    → IsApproved p config (dispatch step).0 (dispatch step).2
      × ((i : Bool) × Logged p start first config es
            (opening (dispatch step).2 i ++ started ∷ "vitna.v1.ToolFinished" ∷ [])
            (execute_task_step p step e).0)
execute_task_step_trace p start first config es step e a l y =
    outcome_ok p start first config es step _ a (trace p start first config es step e l) y
