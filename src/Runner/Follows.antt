-- ===== src/Runner/Follows.antt =====
-- `run_command` of crates/vitna-runner/src/lib.rs follows the protocol, whatever the system answers.
use vitna_code.Base.{String, true, ◌≡◌, ◌⊎◌, some, ok, err}
use vitna_code.Base.Steps.{Step, ◌>>◌, done}
use vitna_code.Engine.Execute.{ℤ}
use vitna_code.Sandbox.{SandboxPlan, PlanError}
use vitna_code.Runner.Journal.{
  acknowledged, JournalEntry, Child, Teardown, ActionJournal, prepared_entry, record_sandbox,
  record_acknowledged,
}
use vitna_code.Runner.{
  System, CommandRequest, ExecutionOutput, confined, unconfined, journaled, after_spawn, plan_of,
  action_id_of, kill_tree, output_of, code_text,
}
use vitna_code.Runner.Protocol.{Phase, journal_holds, At, AtRest}

module _ (system : System) (request : CommandRequest) where
  -- A child that may be spawned: one that the planned sandbox confines, or where there is no plan
  -- an unconfined one that the request allows.
  abbrev pub MayRun : Child → Type 0
  MayRun c =
      ((p : SandboxPlan) × ((plan_of system request ≡ ok p) × (c ≡ confined system request p)))
      ⊎ ((e : PlanError) × ((plan_of system request ≡ err e)
            × (request.allow_unsandboxed ≡ true)
            × (c ≡ unconfined system request)))

  abbrev pub digest : String
  digest = system.hex_sha256 request.command

  abbrev id : String
  id = action_id_of system

  module _ (s : ActionJournal) where
    abbrev Now : Phase → ActionJournal → Type 0
    Now = At s id digest MayRun

    abbrev Rest : ActionJournal → Type 0
    Rest = AtRest s id digest MayRun

    -- The action's last entry is acknowledged, with the exit code of the result.
    abbrev pub Done : ExecutionOutput → ActionJournal → Type 0
    Done out j =
        (e : JournalEntry) × (Now (journal_holds e) j
          × (e.state ≡ acknowledged)
          × (e.exit_code ≡ some out.exit_code)
          × (out.action_id ≡ e.action_id))

    abbrev acknowledging : Child → ℤ → Step ActionJournal ExecutionOutput
    acknowledging c code =
        journaled system "acknowledged" (record_acknowledged system.serde system.writes id)
        >> done (output_of system request id c code (code_text code))

    abbrev achieved : Child → Teardown
    achieved c = kill_tree (system.group_killed c) c.namespaced

    abbrev confining : Child → Step ActionJournal ExecutionOutput
    confining c =
        journaled system "sandbox"
          (record_sandbox system.serde system.writes id c.backend c.enforcement)
        >> after_spawn system request id c (system.spawn c)

    abbrev first_entry : JournalEntry
    first_entry = prepared_entry system.serde system.writes id digest system.now_ms
