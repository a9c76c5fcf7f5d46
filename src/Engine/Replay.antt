-- ===== src/Engine/Replay.antt =====
-- What crates/store/src/lib.rs reads back of the events that crates/orchestration/src/engine.rs
-- recorded.
use vitna_code.Base.{
  ℕ, suc, String, ◌≡◌, refl, ap, ◌∙◌, false, ◌==◌, List, [], ◌∷◌, ◌++◌, length, arith, ok, eq_iff,
  All,
}
use mathlib.Core.List.{foldl}
use vitna_code.Store.{EventRecord, EventStore, matching, order_by_sequence, get_events}
use vitna_code.Store.Chain.{last_seq, replay_of_IsChain}
use vitna_code.Store.Replay.{queued, transition, replay, replay_run}
use vitna_code.Engine.{OrchestrationConfig, Engine, World}
use vitna_code.Engine.Record.{IsLog, IsNumbered}

matching-append :
    (run : String) (n : ℕ) (xs ys : List EventRecord)
    → matching run n (xs ++ ys) ≡ matching run n xs ++ matching run n ys
unfolding matching
matching-append run n [] ys = refl
matching-append run n (x ∷ xs) ys = ground (arith, matching-append run n xs ys)

matching-owned :
    (run : String) (es : List EventRecord) → All (λ x. x.run_id ≡ run) es → matching run 0 es ≡ es
unfolding matching
matching-owned run [] a = refl
matching-owned run (x ∷ es) a = ground (arith, matching-owned run es a.1, eq_iff x.run_id run)

matching-foreign :
    (run : String) (es : List EventRecord)
    → All (λ x. (x.run_id == run) ≡ false) es
    → matching run 0 es ≡ []
unfolding matching
matching-foreign run [] a = refl
matching-foreign run (x ∷ es) a = ground (arith, matching-foreign run es a.1)

order-numbered : (n : ℕ) (es : List EventRecord) → IsNumbered n es → order_by_sequence es ≡ es
unfolding order_by_sequence
order-numbered n [] h = refl
order-numbered n (x ∷ []) h = refl
order-numbered n (x ∷ y ∷ es) h = rw (order-numbered (suc n) (y ∷ es) h.1) (ground arith)

-- Where the store held nothing of the run before, reading the run's events gives the engine's log,
-- and a replay of the run finds no break: it folds all of them and ends at the engine's last hash.
pub replay_run-IsLog :
    (w : World) (start : EventStore) (first : ℕ) (config : OrchestrationConfig)
    (es : List EventRecord) (e : Engine)
    → All (λ x. (x.run_id == config.run_id) ≡ false) start.rows
    → IsLog w start first config es e
    → (get_events e.store config.run_id 0 ≡ ok es)
      × (replay_run w.crypto e.store config.run_id
          ≡ ok (record {
            run_id = config.run_id;
            last_sequence = last_seq 0 es;
            state = foldl transition queued es;
            last_event_hash = e.last_event_hash;
            total_events = length es;
          }))
unfolding replay_run get_events
replay_run-IsLog w start first config es e foreign l =
    let read : order_by_sequence (matching config.run_id 0 e.store.rows) ≡ es =
      ap (λ r. order_by_sequence (matching config.run_id 0 r)) l.rows
      ∙ ap order_by_sequence (matching-append config.run_id 0 start.rows es)
      ∙ ap (λ r. order_by_sequence (r ++ matching config.run_id 0 es))
          (matching-foreign config.run_id start.rows foreign)
      ∙ ap order_by_sequence (matching-owned config.run_id es l.owned)
      ∙ order-numbered first es l.numbered in
    (
      ap ok read,
      ap (λ x. ok (replay w.crypto config.run_id x)) read
          ∙ ap ok (
              replay_of_IsChain w.crypto config.run_id es l.chain
              ∙ ap
                  (λ h. record {
                    run_id = config.run_id;
                    last_sequence = last_seq 0 es;
                    state = foldl transition queued es;
                    last_event_hash = h;
                    total_events = length es;
                  })
                  l.last),
    )
