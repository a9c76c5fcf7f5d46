-- ===== src/Engine/Approval.antt =====
-- `execute_task_step` of crates/orchestration/src/engine.rs as a whole: its log in every outcome, and
-- the approvals before a tool starts.
use vitna_code.Base.{
  ℕ, String, ◌≡◌, refl, sym, ◌∙◌, subst, Bool, true, false, ◌&&◌, ◌==◌, List, [], ◌∷◌, ◌++◌, arith,
  Option, none, some, ok, err, Result,
}
use mathlib.Core.List.{append_assoc}
use vitna_code.Base.Steps.{Triple, bind-Triple, weaken, if-After, lift}
use vitna_code.Store.{EventRecord, EventStore}
use vitna_code.Receipts.{RunnerExecutionStatementRecord}
use vitna_code.Engine.{OrchestrationConfig, Engine, Json, record_event}
use vitna_code.Engine.Record.{IsSame, Told-same, Told-record_event}
use vitna_code.Engine.Execute.{
  Parts, StepType, Tool, ToolResult, ℤ, dispatch, approve_isolation, unless_confined,
  push_modification, push_diff, push_statement, statement_of, text_at, run_tool, finish_tool, found,
  record_result, execute_task_step,
}
use vitna_code.Engine.Gates.{
  started, opening, opening_unstarted, IsUnconfined, IsApproved, Heard, Ended, Opened, unstarted,
  record-Triple, action-Triple, confined-Triple,
}

IsSame-modification :
    (pre post path : Option String) (e : Engine) → IsSame e (push_modification pre post path e)
IsSame-modification none post path e = (refl, refl, refl, refl, refl)
IsSame-modification (some a) none path e = (refl, refl, refl, refl, refl)
IsSame-modification (some a) (some b) none e = (refl, refl, refl, refl, refl)
IsSame-modification (some a) (some b) (some c) e = (refl, refl, refl, refl, refl)

IsSame-diff : (d : Option String) (e : Engine) → IsSame e (push_diff d e)
IsSame-diff none e = (refl, refl, refl, refl, refl)
IsSame-diff (some d) e = (refl, refl, refl, refl, refl)

IsSame-statement :
    (x : Option ℤ) (s : RunnerExecutionStatementRecord) (e : Engine)
    → IsSame e (push_statement x s e)
IsSame-statement none s e = (refl, refl, refl, refl, refl)
IsSame-statement (some x) s e = (refl, refl, refl, refl, refl)

IsSame-trans : (a b c : Engine) → IsSame a b → IsSame b c → IsSame a c
IsSame-trans a b c (p, q, r, s, t) (p', q', r', s', t') = (p' ∙ p, q' ∙ q, r' ∙ r, s' ∙ s, t' ∙ t)

IsSame-record_result :
    (p : Parts) (name : String) (args : Json) (digest : String) (result : ToolResult) (e : Engine)
    → IsSame e (record_result p name args digest result e)
unfolding record_result
IsSame-record_result p name args digest result e =
    let e1 = push_modification result.preimage_hash result.postimage_hash (text_at "path" args) e in
    let e2 = push_diff result.diff e1 in
    let e3 = push_statement result.exit_code (statement_of p result e2) e2 in
    IsSame-trans e e2 e3
      (IsSame-trans e e1 e2
        (IsSame-modification result.preimage_hash result.postimage_hash (text_at "path" args) e)
        (IsSame-diff result.diff e1))
      (IsSame-statement result.exit_code (statement_of p result e2) e2)

module _ (p : Parts) (start : EventStore) (first : ℕ) (config : OrchestrationConfig)
    (es : List EventRecord) where
  lift-Triple :
      {A : Type 0} (P : Engine → Type 0) (E : Engine → Type 0) (r : Result String A)
      → ((s : Engine) → P s → E s)
      → Triple P (lift r) (λ _. P) E
  lift-Triple P E (ok a) h = record { holds = λ s x. x }
  lift-Triple P E (err e) h = record { holds = λ s x. h s x }

  module _ (m : Bool) (name : String) where
    -- A start, with what it needs approved, and perhaps the end of the tool.
    abbrev pub Ran : List String → Engine → Type 0
    Ran ending s =
        (i : Bool) × Heard p start first config es (opening m i ++ ending) s
        × IsApproved p config name m

    Ran-Ended :
        (ending : List String) (s : Engine)
        → Ran ending s
        → Ended p start first config es (IsApproved p config name m) s
    Ran-Ended ending s (i, h, a) = (opening m i ++ ending, h, λ _. a)

    -- Recording once the tool has started.
    late-Triple :
        (ending : List String) (t : String) (payload : Json)
        → Triple
            (Ran ending)
            (record_event p.world t payload)
            (λ _. Ran (ending ++ t ∷ []))
            (Ended p start first config es (IsApproved p config name m))
    late-Triple ending t payload = record {
      holds = λ s (i, h, a).
          let told : Triple (Heard p start first config es (opening m i ++ ending))
              (record_event p.world t payload) (λ _. Ran (ending ++ t ∷ []))
              (Ended p start first config es (IsApproved p config name m)) =
            weaken
              (Told-record_event p.world start first config es (opening m i ++ ending) t payload)
              (λ x s' q. (
                i,
                subst (λ l. Heard p start first config es l s')
                    (append_assoc (opening m i) ending (t ∷ [])) q,
                a,
              ))
              (λ s' q. Ran-Ended ending s' (i, q, a)) in
          told.holds s h;
    }

    abbrev Granted : Engine → Type 0
    Granted s = (m ≡ true → config.auto_approve ≡ true) × Opened p start first config es m name s

    start-Triple :
        (payload : Json)
        → Triple Granted
            (record_event p.world started payload)
            (λ _. Ran (started ∷ []))
            (Ended p start first config es (IsApproved p config name m))
    start-Triple payload = record {
      holds = λ s (a, (i, h, u)).
          let told : Triple (Heard p start first config es (opening m i))
              (record_event p.world started payload) (λ _. Ran (started ∷ []))
              (Ended p start first config es (IsApproved p config name m)) =
            weaken
              (record-Triple p start first config es (IsApproved p config name m) (opening m i)
                started payload (opening_unstarted m i))
              (λ x s' q. (i, q, (a, u))) (λ s' q. q) in
          told.holds s h;
    }

    finish-Triple :
        (args : Json) (digest : String) (result : ToolResult)
        → Triple
            (Ran (started ∷ []))
            (finish_tool p name args digest result)
            (λ _. Ran (started ∷ "vitna.v1.ToolFinished" ∷ []))
            (Ended p start first config es (IsApproved p config name m))
    unfolding finish_tool
    finish-Triple args digest result =
        bind-Triple (late-Triple (started ∷ []) "vitna.v1.ToolFinished" _) (λ _. record {
          holds = λ s (i, q, a). (
            i,
            Told-same p.world start first config es _ s _ q
                (IsSame-record_result p name args digest result s),
            a,
          );
        })

    run-Triple :
        (tool : Tool) (args : Json) (digest : String)
        → Triple Granted
            (run_tool p tool name args digest)
            (λ _. Ran (started ∷ "vitna.v1.ToolFinished" ∷ []))
            (Ended p start first config es (IsApproved p config name m))
    unfolding run_tool
    run-Triple tool args digest = bind-Triple (start-Triple _) (λ _. record {
      holds = λ s h.
          (bind-Triple
              (lift-Triple (Ran (started ∷ [])) _ (tool.execute s.ticks args _)
                (Ran-Ended (started ∷ [])))
              (λ result. finish-Triple args digest result)).holds
            s h;
    })

    isolation-Triple :
        (digest : String)
        → Triple
            (λ s.
              Heard p start first config es (opening m false) s
              × (m ≡ true → config.auto_approve ≡ true))
            (approve_isolation p name digest)
            (λ _. Granted)
            (Ended p start first config es (IsApproved p config name m))
    unfolding approve_isolation
    isolation-Triple digest = record {
      holds = λ s (h, a).
          let t : Triple
              (λ x.
                Heard p start first config es (opening m false) x
                × (IsUnconfined p config.workspace_root name
                    → (reason : String) × (p.sandbox_status s.ticks s.config.workspace_root false
                        ≡ err reason)))
              (unless_confined p name digest
                (p.sandbox_status s.ticks s.config.workspace_root false))
              (λ _. Granted) (Ended p start first config es (IsApproved p config name m)) =
            weaken
              (confined-Triple p start first config es (IsApproved p config name m) m name digest _)
              (λ x s' q. (a, q)) (λ s' q. q) in
          if-After (λ _. Granted) (Ended p start first config es (IsApproved p config name m))
            (name == "run_command" && p.spawns_processes) _ _ s
            (λ y. t.holds s (
              h,
              λ u.
                  subst
                    (λ c.
                      (reason : String) × (p.sandbox_status s.ticks c.workspace_root false
                        ≡ err reason))
                    (sym h.log.same_config) (u.1 s.ticks),
            ))
            (λ n. (a, (false, h, λ u. absurd (ground (arith, u.0)))));
    }

  found-Triple :
      (P : Engine → Type 0) (E : Engine → Type 0) (name : String) (tool : Option Tool)
      → ((s : Engine) → P s → E s)
      → Triple P (found p name tool) (λ _. P) E
  found-Triple P E name none h = record { holds = λ s x. h s x }
  found-Triple P E name (some tool) h = record { holds = λ s x. x }

  pub step-Triple :
      (step : StepType)
      → Triple
          (Heard p start first config es [])
          (execute_task_step p step)
          (λ _. Ran (dispatch step).2 (dispatch step).0 (started ∷ "vitna.v1.ToolFinished" ∷ []))
          (Ended p start first config es (IsApproved p config (dispatch step).0 (dispatch step).2))
  unfolding execute_task_step
  step-Triple step =
      let F = IsApproved p config (dispatch step).0 (dispatch step).2 in
      record {
        holds = λ s h.
            (bind-Triple
                (record-Triple p start first config es F [] "vitna.v1.ContextAssembled" _ refl)
                (λ _.
                  bind-Triple
                    (found-Triple (Heard p start first config es (opening false false)) _
                      (dispatch step).0 (p.tool (dispatch step).0)
                      (λ s' q. unstarted p start first config es F (opening false false) s' refl q))
                    (λ tool.
                      bind-Triple (action-Triple p start first config es F (dispatch step).2 _ _ _)
                        (λ _.
                          bind-Triple (isolation-Triple (dispatch step).2 (dispatch step).0 _)
                            (λ _. run-Triple (dispatch step).2 (dispatch step).0 tool _ _))))).holds
              s h;
      }
