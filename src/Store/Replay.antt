-- ===== src/Store/Replay.antt =====
-- `replay_run` of crates/store/src/lib.rs.
use vitna_code.Base.{
  ℕ, String, Bool, ◌||◌, not, List, [], ◌∷◌, ◌==◌, Result, ok, ◌>>=◌, length, if◌then◌else◌,
}
use vitna_code.Bytes.{Bytes, as_bytes, has_window}
use vitna_code.Store.{
  Crypto, EventRecord, EventStore, StoreError, genesis_hash, verify_integrity, get_events,
}

pub data ReplayedRunState : Type 0 where
  queued running_model waiting_for_approval running_tool waiting_for_child waiting_for_retry paused
        needs_reconciliation completed failed cancelled orphaned :
      ReplayedRunState

pub record RunSummary : Type 0 where
  pub run_id : String
  pub last_sequence : ℕ
  pub state : ReplayedRunState
  pub last_event_hash : String
  pub total_events : ℕ

-- `str::contains`
abbrev pub mentions : String → String → Bool
mentions text word = has_window (as_bytes word) (as_bytes text)

-- `windows(n).any(|w| w == word)` for a word of n bytes
abbrev pub payload_has : Bytes → String → Bool
payload_has payload word = has_window (as_bytes word) payload

-- The transition that one event makes.
unfoldable pub transition : ReplayedRunState → EventRecord → ReplayedRunState
transition current e =
    if mentions e.type_url "ToolProposed" || mentions e.type_url "ApprovalRequested"
    then waiting_for_approval
    else if mentions e.type_url "ToolStarted"
    then running_tool
    else if mentions e.type_url "ToolFinished"
    then running_model
    else if mentions e.type_url "RunStateChanged"
    then if payload_has e.encrypted_payload "completed"
      then completed
      else if payload_has e.encrypted_payload "failed"
      then failed
      else if payload_has e.encrypted_payload "needs_reconciliation"
      then needs_reconciliation
      else current
    else current

module _ (c : Crypto) (run_id : String) (total : ℕ) where
  summary : ReplayedRunState → ℕ → String → RunSummary
  summary state last_seq last_hash = record {
    run_id = run_id;
    last_sequence = last_seq;
    state = state;
    last_event_hash = last_hash;
    total_events = total;
  }

  -- The loop; `expected_prev_hash` and `last_hash` are always equal and are one variable here.
  unfoldable pub replay_from : List EventRecord → ReplayedRunState → ℕ → String → RunSummary
  unfolding summary
  replay_from [] current last_seq last_hash = summary current last_seq last_hash
  replay_from (e ∷ events) current last_seq last_hash =
      let rest = replay_from events (transition current e) e.sequence e.event_hash in
      if not (e.prev_event_hash == last_hash) || not (verify_integrity c e)
      then summary needs_reconciliation last_seq last_hash
      else rest

unfoldable pub replay : Crypto → String → List EventRecord → RunSummary
replay c run_id events = replay_from c run_id (length events) events queued 0 genesis_hash

unfoldable pub replay_run : Crypto → EventStore → String → Result StoreError RunSummary
replay_run c s run_id = do events ← get_events s run_id 0; ok (replay c run_id events)
