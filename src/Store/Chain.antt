-- ===== src/Store/Chain.antt =====
-- What `replay_run` of crates/store/src/lib.rs finds: an unbroken hash chain, or where it breaks.
use mathlib.Core.List.{foldl, append-nil}
use vitna_code.Base.{
  ℕ, String, ◌≡◌, ◌≢◌, refl, ◌∙◌, true, false, List, [], ◌∷◌, ◌++◌, arith, eq_iff, length, ◌⊎◌,
}
use vitna_code.Store.{Crypto, EventRecord, genesis_hash, verify_integrity}
use vitna_code.Store.Replay.{
  ReplayedRunState, queued, needs_reconciliation, transition, replay_from, replay,
}

-- Each event names the hash of the one before it, and its own hash is that of its contents.
abbrev pub IsChain : Crypto → String → List EventRecord → Type 0
IsChain c h [] = Unit
IsChain c h (e ∷ es) =
    (e.prev_event_hash ≡ h) × (verify_integrity c e ≡ true) × IsChain c e.event_hash es

-- The hash and the sequence that an event list ends at.
abbrev pub last_hash : String → List EventRecord → String
last_hash h [] = h
last_hash h (e ∷ es) = last_hash e.event_hash es

abbrev pub last_seq : ℕ → List EventRecord → ℕ
last_seq n [] = n
last_seq n (e ∷ es) = last_seq e.sequence es

replay_from_chain :
    (c : Crypto) (run_id : String) (total : ℕ) (es rest : List EventRecord) (s : ReplayedRunState)
    (n : ℕ) (h : String)
    → IsChain c h es
    → replay_from c run_id total (es ++ rest) s n h
      ≡ replay_from c run_id total rest (foldl transition s es) (last_seq n es) (last_hash h es)
unfolding replay_from
replay_from_chain c run_id total [] rest s n h ch = refl
replay_from_chain c run_id total (e ∷ es) rest s n h ch =
    rw ((eq_iff e.prev_event_hash h).1 ch.0, ch.1)
      (replay_from_chain c run_id total es rest (transition s e) e.sequence e.event_hash ch.2)

-- Replaying an unbroken chain folds the transitions over it, and ends at its last event.
pub replay_of_IsChain :
    (c : Crypto) (run_id : String) (es : List EventRecord)
    → IsChain c genesis_hash es
    → replay c run_id es ≡ record {
      run_id = run_id;
      last_sequence = last_seq 0 es;
      state = foldl transition queued es;
      last_event_hash = last_hash genesis_hash es;
      total_events = length es;
    }
unfolding replay replay_from
replay_of_IsChain c run_id es ch =
    rw append-nil at (replay_from_chain c run_id (length es) es [] queued 0 genesis_hash ch)

replay_from_break :
    (c : Crypto) (run_id : String) (total : ℕ) (e : EventRecord) (rest : List EventRecord)
    (s : ReplayedRunState) (n : ℕ) (h : String)
    → (e.prev_event_hash ≢ h) ⊎ (verify_integrity c e ≡ false)
    → replay_from c run_id total (e ∷ rest) s n h ≡ record {
      run_id = run_id;
      last_sequence = n;
      state = needs_reconciliation;
      last_event_hash = h;
      total_events = total;
    }
unfolding replay_from
replay_from_break c run_id total e rest s n h bad = ground (arith, eq_iff e.prev_event_hash h)

-- Where an event is not linked to the chain before it, or does not have the hash of its contents,
-- replaying asks for reconciliation, names the last event before it, and reads no event after it.
pub replay_of_break :
    (c : Crypto) (run_id : String) (es : List EventRecord) (e : EventRecord)
    (rest : List EventRecord)
    → IsChain c genesis_hash es
    → (e.prev_event_hash ≢ last_hash genesis_hash es) ⊎ (verify_integrity c e ≡ false)
    → replay c run_id (es ++ e ∷ rest) ≡ record {
      run_id = run_id;
      last_sequence = last_seq 0 es;
      state = needs_reconciliation;
      last_event_hash = last_hash genesis_hash es;
      total_events = length (es ++ e ∷ rest);
    }
unfolding replay
replay_of_break c run_id es e rest ch bad =
    let total = length (es ++ e ∷ rest) in
    replay_from_chain c run_id total es (e ∷ rest) queued 0 genesis_hash ch
    ∙ replay_from_break c run_id total e rest (foldl transition queued es) (last_seq 0 es)
        (last_hash genesis_hash es) bad
