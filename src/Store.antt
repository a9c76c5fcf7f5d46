-- ===== src/Store.antt =====
-- The event store of crates/store/src/lib.rs: an event and its hash, the table of events, and the
-- queries on it. The table is the list of its rows in the order of insertion; the two SQL
-- constraints are those of crates/store/migrations/0001_initial_schema.sql. What SQLite does
-- besides (whether the disk takes a write) is an argument.
pub mod Replay
pub mod Hash
pub mod Chain
pub mod Table
pub mod Resume
pub mod Sequence
pub mod Tests
use vitna_code.Base.{
  ℕ, ◌+◌, ◌≤◌, ◌^◌, String, Bool, true, false, ◌&&◌, ◌||◌, not, Option, none, some, List, [], ◌∷◌,
  ◌++◌, ◌==◌, Result, ok, err, ltb, leb, nat_eq, max, if◌then◌else◌,
}
use vitna_code.Bytes.{Bytes, as_bytes, decimal}

-- The crates `sha2` and `hex`.
pub record Crypto : Type 0 where
  pub sha256 : Bytes → Bytes
  pub hex_encode : Bytes → String
  pub hex_decode : String → Option Bytes

abbrev pub genesis_hash : String
genesis_hash = "0000000000000000000000000000000000000000000000000000000000000000"

pub record EventRecord : Type 0 where
  pub event_id : String
  pub run_id : String
  pub sequence : ℕ  -- u64
  pub type_url : String
  pub timestamp_ms : ℕ  -- u64
  pub encrypted_payload : Bytes
  pub prev_event_hash : String
  pub event_hash : String

module _ (c : Crypto) where
  -- What `calculate_hash` feeds to the hasher, `:` between the fields.
  unfoldable pub preimage : String → String → ℕ → String → ℕ → Bytes → Bytes
  preimage prev_hash run_id sequence type_url timestamp_ms payload =
      as_bytes prev_hash
      ++ (b':'
          ∷ (as_bytes run_id
              ++ (b':'
                  ∷ (decimal sequence
                      ++ (b':'
                          ∷ (as_bytes type_url
                              ++ (b':'
                                  ∷ (decimal timestamp_ms
                                      ++ (b':' ∷ as_bytes (c.hex_encode (c.sha256 payload)))))))))))

  unfoldable pub calculate_hash : String → String → ℕ → String → ℕ → Bytes → String
  calculate_hash prev_hash run_id sequence type_url timestamp_ms payload =
      c.hex_encode (c.sha256 (preimage prev_hash run_id sequence type_url timestamp_ms payload))

  -- `EventRecord::new`
  unfoldable pub new_event : String → String → ℕ → String → ℕ → Bytes → String → EventRecord
  new_event event_id run_id sequence type_url timestamp_ms payload prev_event_hash = record {
    event_id = event_id;
    run_id = run_id;
    sequence = sequence;
    type_url = type_url;
    timestamp_ms = timestamp_ms;
    encrypted_payload = payload;
    prev_event_hash = prev_event_hash;
    event_hash = calculate_hash prev_event_hash run_id sequence type_url timestamp_ms payload;
  }

  unfoldable pub verify_integrity : EventRecord → Bool
  verify_integrity e =
      e.event_hash
      == calculate_hash e.prev_event_hash e.run_id e.sequence e.type_url e.timestamp_ms
          e.encrypted_payload

pub data StoreError : Type 0 where
  -- `InvalidQuery`; a number above `i64::MAX` as a parameter; a SQL constraint; a failed write
  invalid_query conversion constraint io_fault : StoreError

-- `sent` is what the broadcast channel was given.
pub record EventStore : Type 0 where
  pub rows : List EventRecord
  pub sent : List EventRecord

abbrev pub open_in_memory : EventStore
open_in_memory = record { rows = []; sent = [] }

abbrev pub i64_max : ℕ
i64_max = 9223372036854775807

-- PRIMARY KEY (event_id) and UNIQUE (run_id, sequence)
abbrev pub clashes : List EventRecord → EventRecord → Bool
clashes [] e = false
clashes (r ∷ rows) e =
    (r.event_id == e.event_id || (r.run_id == e.run_id && nat_eq r.sequence e.sequence))
    || clashes rows e

abbrev pub fits_i64 : EventRecord → Bool
fits_i64 e = leb e.sequence i64_max && leb e.timestamp_ms i64_max

-- `writable` says whether the disk takes the row. On an error the store is as it was.
unfoldable pub append_event :
    Crypto → Bool → EventStore → EventRecord → Result StoreError EventStore
append_event c writable s e =
    if not (verify_integrity c e)
    then err invalid_query
    else if not (fits_i64 e)
    then err conversion
    else if clashes s.rows e
    then err constraint
    else if not writable
    then err io_fault
    else ok (record { rows = s.rows ++ e ∷ []; sent = s.sent ++ e ∷ [] })

abbrev pub larger : ℕ → Option ℕ → ℕ
larger n none = n
larger n (some m) = max n m

unfoldable pub max_sequence : String → List EventRecord → Option ℕ
max_sequence run_id [] = none
max_sequence run_id (r ∷ rows) =
    let rest = max_sequence run_id rows in
    if r.run_id == run_id then some (larger r.sequence rest) else rest

-- SELECT MAX(sequence) over the rows of a run
unfoldable pub last_sequence : EventStore → String → Option ℕ
last_sequence s run_id = max_sequence run_id s.rows

-- The WHERE clause of `get_events`
unfoldable pub matching : String → ℕ → List EventRecord → List EventRecord
matching run_id since [] = []
matching run_id since (r ∷ rows) =
    let rest = matching run_id since rows in
    if r.run_id == run_id && leb since r.sequence then r ∷ rest else rest

-- ORDER BY sequence ASC
unfoldable pub insert_by_sequence : EventRecord → List EventRecord → List EventRecord
insert_by_sequence e [] = e ∷ []
insert_by_sequence e (r ∷ rows) =
    let rest = insert_by_sequence e rows in
    if leb e.sequence r.sequence then e ∷ r ∷ rows else r ∷ rest

unfoldable pub order_by_sequence : List EventRecord → List EventRecord
unfolding insert_by_sequence
order_by_sequence [] = []
order_by_sequence (r ∷ rows) = insert_by_sequence r (order_by_sequence rows)

unfoldable pub get_events : EventStore → String → ℕ → Result StoreError (List EventRecord)
get_events s run_id since_sequence =
    if leb since_sequence i64_max
    then ok (order_by_sequence (matching run_id since_sequence s.rows))
    else err conversion

-- The early return leaves `after + 1` no room to overflow, so `saturating_add` is `+`.
unfoldable pub events_after : EventStore → String → ℕ → Result StoreError (List EventRecord)
events_after s run_id after_sequence =
    if leb i64_max after_sequence then ok [] else get_events s run_id (after_sequence + 1)
