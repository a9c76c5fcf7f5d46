-- ===== src/Engine.antt =====
-- `OrchestrationEngine` of crates/orchestration/src/engine.rs: its state, and the recording of an
-- event. The clock and the disk are arguments: `ticks` counts the events that were tried, and the
-- n-th of them meets the clock's n-th reading and the disk's n-th state.
pub mod Record
pub mod Execute
pub mod Gates
pub mod Approval
pub mod Outcome
pub mod Replay
pub mod Finalize
pub mod Verified
pub mod Sealed
mod SealedTests
mod Tests
use Prim.Native.String.{◌++◌ as str_append}
use vitna_code.Base.{
  ℕ, zero, suc, ◌+◌, ◌/◌, ◌%◌, String, Bool, Option, List, [], ◌∷◌, ◌++◌, Result, ok, err, nat_eq,
  max, if◌then◌else◌,
}
use vitna_code.Base.Steps.{Step}
use vitna_code.Base.Print.{to_string}
use vitna_code.Bytes.{Bytes}
use vitna_code.Store.{
  Crypto, EventRecord, EventStore, StoreError, genesis_hash, new_event, append_event,
}
use vitna_code.Receipts.{FileModificationRecord, RunnerExecutionStatementRecord, EvidenceItemRecord}

-- `serde_json::Value` as far as events and arguments use it.
mutual
  pub data Json : Type 0 where
    null : Json
    boolean : Bool → Json
    number : ℕ → Json
    text : String → Json
    object : Members → Json

  pub data Members : Type 0 where
    end : Members
    member : String → Json → Members → Members

pub record ContextMessage : Type 0 where
  pub role : String
  pub content : String
  pub tool_call_id : Option String
  pub name : Option String

pub record OrchestrationConfig : Type 0 where
  pub session_id : String
  pub run_id : String
  pub workspace_root : String
  pub auto_approve : Bool
  pub model_sku : String
  pub provider_name : String
  pub sandbox_guarantee : String
  pub verification_command : Option String
  pub allow_unsandboxed : Bool

pub record Engine : Type 0 where
  pub config : OrchestrationConfig
  pub store : EventStore
  pub sequence_counter : ℕ  -- u64
  pub last_event_hash : String
  pub recorded_event_hashes : List String
  pub changeset_modifications : List FileModificationRecord
  pub accumulated_diffs : List String
  pub runner_statements : List RunnerExecutionStatementRecord
  pub evidence_items : List EvidenceItemRecord
  pub history : List ContextMessage
  pub ticks : ℕ

abbrev pub first_event_sequence : ℕ
first_event_sequence = 1

-- `OrchestrationEngine::new`
abbrev pub new : OrchestrationConfig → EventStore → Engine
new config store = record {
  config = config;
  store = store;
  sequence_counter = first_event_sequence;
  last_event_hash = genesis_hash;
  recorded_event_hashes = [];
  changeset_modifications = [];
  accumulated_diffs = [];
  runner_statements = [];
  evidence_items = [];
  history = [];
  ticks = 0;
}

abbrev pub continuing_at : Engine → ℕ → Engine
continuing_at e next_sequence = record e {
  sequence_counter = max next_sequence first_event_sequence;
}

-- What is outside: the clock, the disk, `serde_json::to_vec`, and the texts of a store's errors.
pub record World : Type 0 where
  pub crypto : Crypto
  pub now_ms : ℕ → ℕ
  pub writable : ℕ → Bool
  pub to_vec : Json → Result String Bytes
  pub shown : StoreError → String

module _ (w : World) where
  abbrev pub event_of : Engine → String → Bytes → EventRecord
  event_of e type_url payload =
      new_event w.crypto
        (str_append "ev-"
          (str_append e.config.run_id (str_append "-" (to_string e.sequence_counter))))
        e.config.run_id e.sequence_counter type_url (w.now_ms e.ticks) payload e.last_event_hash

  -- An append that was taken moves the engine on; one that was not leaves all but the clock.
  abbrev pub advance :
      Engine → EventRecord → Result StoreError EventStore → Engine × Result String String
  advance e event (err reason) = (
    record e { ticks = suc e.ticks },
    err (str_append "Failed to append event: " (w.shown reason)),
  )
  advance e event (ok store) = (
    record e {
      store = store;
      last_event_hash = event.event_hash;
      recorded_event_hashes = e.recorded_event_hashes ++ event.event_hash ∷ [];
      sequence_counter = e.sequence_counter + 1;
      ticks = suc e.ticks;
    },
    ok event.event_hash,
  )

  abbrev pub append_payload : Engine → String → Result String Bytes → Engine × Result String String
  append_payload e type_url (err reason) = (record e { ticks = suc e.ticks }, err reason)
  append_payload e type_url (ok payload) =
      let event = event_of e type_url payload in
      advance e event (append_event w.crypto (w.writable e.ticks) e.store event)

  -- An append is taken only for a sequence that fits an i64, so the counter does not overflow.
  unfoldable pub record_event : String → Json → Step Engine String
  record_event type_url payload e = append_payload e type_url (w.to_vec payload)
