-- ===== src/Store/Tests.antt =====
-- Runs of the event store of crates/store/src/lib.rs, and the theorems at concrete events.
use mathlib.Core.List.{foldl}
use vitna_code.Base.{
  ℕ, ◌≤◌, ◌<◌, ◌≡◌, refl, none, true, false, List, [], ◌∷◌, ◌++◌, inl, ok, err, eq_iff, arith, All,
}
use vitna_code.Bytes.{as_bytes, decimal, has_window}
use vitna_code.Store.{
  Crypto, EventRecord, EventStore, preimage, calculate_hash, verify_integrity, append_event,
  get_events, events_after, matching, order_by_sequence, open_in_memory, genesis_hash, constraint,
  io_fault,
}
use vitna_code.Store.Replay.{queued, needs_reconciliation, running_tool, transition, replay}
use vitna_code.Store.Hash.{preimage_inj, calculate_hash_shift}
use vitna_code.Store.Chain.{IsChain, replay_of_break}
use vitna_code.Store.Table.{IsValid, append_event-IsValid, IsValid-open}
use vitna_code.Store.Resume.{events_after_exact}

-- A digest that tells only whether there was anything to hash.
abbrev toy : Crypto
toy = record {
  sha256 = λ b. b;
  hex_encode = λ b. elim b [ [] ↦ "none" | x ∷ r ↦ "some" ];
  hex_decode = λ h. none;
}

abbrev e1 : EventRecord
e1 = record {
  event_id = "ev-1";
  run_id = "run";
  sequence = 1;
  type_url = "vitna.v1.ApprovalRequested";
  timestamp_ms = 1000;
  encrypted_payload = 1 ∷ [];
  prev_event_hash = genesis_hash;
  event_hash = "some";
}

abbrev e2 : EventRecord
e2 = record {
  event_id = "ev-2";
  run_id = "run";
  sequence = 2;
  type_url = "vitna.v1.ToolStarted";
  timestamp_ms = 1001;
  encrypted_payload = [];
  prev_event_hash = "some";
  event_hash = "some";
}

-- Not linked to the event before it.
abbrev stray : EventRecord
stray = record e2 { prev_event_hash = "other" }

e1_good : verify_integrity toy e1 ≡ true
unfolding verify_integrity calculate_hash preimage as_bytes
e1_good = refl

e2_good : verify_integrity toy e2 ≡ true
unfolding verify_integrity calculate_hash preimage as_bytes
e2_good = refl

preimage_inj_example :
    (as_bytes "p" ≡ as_bytes "p")
    × (as_bytes "r" ≡ as_bytes "r")
    × (◌≡◌ {A = ℕ} 7 7)
    × (as_bytes "t" ≡ as_bytes "t")
    × (◌≡◌ {A = ℕ} 9 9)
    × (as_bytes (toy.hex_encode (toy.sha256 (1 ∷ [])))
        ≡ as_bytes (toy.hex_encode (toy.sha256 (2 ∷ []))))
unfolding as_bytes preimage
preimage_inj_example =
    preimage_inj toy "p" "p" "r" "r" 7 7 "t" "t" 9 9 (1 ∷ []) (2 ∷ []) (omega arith) (omega arith)
      (omega arith) (omega arith) (omega arith) (omega arith) (omega arith) (omega arith)
      (omega arith) (omega arith) refl

calculate_hash_shift_example :
    calculate_hash toy "p" "r:12" 34 "t" 5 [] ≡ calculate_hash toy "p" "r" 12 "34:t" 5 []
unfolding as_bytes decimal
calculate_hash_shift_example = calculate_hash_shift toy "p" "r" "t" "12" "34" 12 34 5 [] refl refl

e1-IsChain : IsChain toy genesis_hash (e1 ∷ e2 ∷ [])
e1-IsChain = (refl, e1_good, (refl, e2_good, tt))

state_after_two : foldl transition queued (e1 ∷ e2 ∷ []) ≡ running_tool
unfolding transition has_window as_bytes
state_after_two = refl

replay_of_break_example : replay toy "run" (e1 ∷ stray ∷ []) ≡ record {
  run_id = "run";
  last_sequence = 1;
  state = needs_reconciliation;
  last_event_hash = "some";
  total_events = 2;
}
replay_of_break_example =
    replay_of_break toy "run" (e1 ∷ []) stray [] (refl, e1_good, tt)
      (inl (ground (arith, eq_iff "other" "some")))

abbrev after_one : EventStore
after_one = record { rows = e1 ∷ []; sent = e1 ∷ [] }

abbrev after_two : EventStore
after_two = record { rows = e1 ∷ e2 ∷ []; sent = e1 ∷ e2 ∷ [] }

appended_one : append_event toy true open_in_memory e1 ≡ ok after_one
unfolding append_event verify_integrity calculate_hash preimage as_bytes
appended_one = refl

appended_two : append_event toy true after_one e2 ≡ ok after_two
unfolding append_event verify_integrity calculate_hash preimage as_bytes
appended_two = refl

append_refused :
    (append_event toy true after_one e1 ≡ err constraint)
    × (append_event toy false after_one e2 ≡ err io_fault)
unfolding append_event verify_integrity calculate_hash preimage as_bytes
append_refused = (refl, refl)

after_one-IsValid : IsValid toy after_one
after_one-IsValid =
    append_event-IsValid toy true open_in_memory after_one e1 (IsValid-open toy) appended_one

append_event-IsValid_example : IsValid toy after_two
append_event-IsValid_example =
    append_event-IsValid toy true after_one after_two e2 after_one-IsValid appended_two

both_events : get_events after_two "run" 0 ≡ ok (e1 ∷ e2 ∷ [])
unfolding get_events matching order_by_sequence
both_events = refl

events_after_exact_example :
    (held later : List EventRecord) × (events_after after_two "run" 1 ≡ ok later)
    × (e1 ∷ e2 ∷ [] ≡ held ++ later)
    × All (λ e. e.sequence ≤ 1) held
    × All (λ e. 1 < e.sequence) later
events_after_exact_example =
    events_after_exact toy after_two "run" 1 (e1 ∷ e2 ∷ [])
      (append_event-IsValid toy true after_one after_two e2 after_one-IsValid appended_two)
      both_events
