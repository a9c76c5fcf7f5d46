-- ===== src/Engine/Record.antt =====
-- What the engine of crates/orchestration/src/engine.rs has recorded: a hash chain of its own
-- events, behind what the store held before.
use vitna_code.Base.{
  ℕ, max, suc, ◌+◌, String, ◌≡◌, refl, sym, ap, ◌∙◌, subst, true, List, [], ◌∷◌, ◌++◌, map, length,
  arith, All, All-append, length-append, ok, err, Result, eq_refl,
}
use mathlib.Core.List.{append_assoc, append-nil}
use vitna_code.Base.Steps.{After, Triple}
use vitna_code.Bytes.{Bytes}
use vitna_code.Store.{
  Crypto, EventRecord, EventStore, StoreError, genesis_hash, new_event, verify_integrity,
  append_event,
}
use vitna_code.Store.Chain.{IsChain, last_hash}
use vitna_code.Store.Table.{append_event_parts}
use vitna_code.Engine.{
  new, continuing_at, first_event_sequence, OrchestrationConfig, Engine, World, Json, event_of,
  advance, append_payload, record_event,
}

-- The sequences count up from the first one.
abbrev pub IsNumbered : ℕ → List EventRecord → Type 0
IsNumbered n [] = Unit
IsNumbered n (e ∷ es) = (e.sequence ≡ n) × IsNumbered (suc n) es

-- `es` are the events that the engine recorded, numbered from `first`, into a store that was `start`.
pub record IsLog (w : World) (start : EventStore) (first : ℕ) (config : OrchestrationConfig)
    (es : List EventRecord) (e : Engine) : Type 0 where
  pub same_config : e.config ≡ config
  pub rows : e.store.rows ≡ start.rows ++ es
  pub sent : e.store.sent ≡ start.sent ++ es
  pub chain : IsChain w.crypto genesis_hash es
  pub last : last_hash genesis_hash es ≡ e.last_event_hash
  pub hashes : map (λ x. x.event_hash) es ≡ e.recorded_event_hashes
  pub numbered : IsNumbered first es
  pub next_number : e.sequence_counter ≡ first + length es
  pub owned : All (λ x. x.run_id ≡ config.run_id) es

IsChain-append :
    (c : Crypto) (h : String) (es : List EventRecord) (e : EventRecord)
    → IsChain c h es
    → e.prev_event_hash ≡ last_hash h es
    → verify_integrity c e ≡ true
    → IsChain c h (es ++ e ∷ [])
IsChain-append c h [] e ch p v = (p, v, tt)
IsChain-append c h (x ∷ es) e ch p v = (ch.0, ch.1, IsChain-append c x.event_hash es e ch.2 p v)

last_hash-append :
    (h : String) (es : List EventRecord) (e : EventRecord)
    → last_hash h (es ++ e ∷ []) ≡ e.event_hash
last_hash-append h [] e = refl
last_hash-append h (x ∷ es) e = last_hash-append x.event_hash es e

IsNumbered-append :
    (n : ℕ) (es : List EventRecord) (e : EventRecord)
    → IsNumbered n es
    → e.sequence ≡ n + length es
    → IsNumbered n (es ++ e ∷ [])
IsNumbered-append n [] e h p = (omega arith, tt)
IsNumbered-append n (x ∷ es) e h p = (h.0, IsNumbered-append (suc n) es e h.1 (omega arith))

map-push {ℓ κ} :
    {A : Type ℓ} {B : Type κ} (f : A → B) (xs : List A) (x : A)
    → map f (xs ++ x ∷ []) ≡ map f xs ++ f x ∷ []
map-push f [] x = refl
map-push f (y ∷ xs) x = ap (◌∷◌ (f y)) (map-push f xs x)

verify_integrity-new_event :
    (c : Crypto) (id run : String) (n : ℕ) (t : String) (ms : ℕ) (payload : Bytes) (h : String)
    → verify_integrity c (new_event c id run n t ms payload h) ≡ true
unfolding verify_integrity new_event
verify_integrity-new_event c id run n t ms payload h = eq_refl _

-- The configuration and what was recorded are the same.
abbrev pub IsSame : Engine → Engine → Type 0
IsSame e e' =
    (e'.config ≡ e.config)
    × (e'.store ≡ e.store)
    × (e'.sequence_counter ≡ e.sequence_counter)
    × (e'.last_event_hash ≡ e.last_event_hash)
    × (e'.recorded_event_hashes ≡ e.recorded_event_hashes)

module _ (w : World) (start : EventStore) (first : ℕ) (config : OrchestrationConfig) where
  IsLog-advance :
      (es : List EventRecord) (e : Engine) (t : String) (payload : Bytes) (store : EventStore)
      → IsLog w start first config es e
      → append_event w.crypto (w.writable e.ticks) e.store (event_of w e t payload) ≡ ok store
      → IsLog w start first config
          (es ++ event_of w e t payload ∷ [])
          ((advance w e (event_of w e t payload) (ok store)).0)
  unfolding new_event
  IsLog-advance es e t payload store l h =
      let event = event_of w e t payload in
      let stored = (append_event_parts w.crypto (w.writable e.ticks) e.store store event h).4 in
      record {
        same_config = l.same_config;
        rows =
            ap (λ s. s.rows) stored
            ∙ ap (λ r. r ++ event ∷ []) l.rows
            ∙ append_assoc start.rows es (event ∷ []);
        sent =
            ap (λ s. s.sent) stored
            ∙ ap (λ r. r ++ event ∷ []) l.sent
            ∙ append_assoc start.sent es (event ∷ []);
        chain =
            IsChain-append w.crypto genesis_hash es event l.chain (sym l.last)
              (verify_integrity-new_event w.crypto _ _ _ _ _ _ _);
        last = last_hash-append genesis_hash es event;
        hashes =
            map-push (λ x. x.event_hash) es event ∙ ap (λ r. r ++ event.event_hash ∷ []) l.hashes;
        numbered = IsNumbered-append first es event l.numbered l.next_number;
        next_number = omega (arith, l.next_number, length-append es (event ∷ []));
        owned = All-append _ es (event ∷ []) l.owned (ap (λ k. k.run_id) l.same_config, tt);
      }

  -- A failed append, and whatever else leaves the recorder's fields alone.
  pub IsLog-same :
      (es : List EventRecord) (e e' : Engine)
      → IsLog w start first config es e
      → IsSame e e'
      → IsLog w start first config es e'
  IsLog-same es e e' l (c, s, n, h, r) = record {
    same_config = c ∙ l.same_config;
    rows = ap (λ x. x.rows) s ∙ l.rows;
    sent = ap (λ x. x.sent) s ∙ l.sent;
    chain = l.chain;
    last = l.last ∙ sym h;
    hashes = l.hashes ∙ sym r;
    numbered = l.numbered;
    next_number = n ∙ l.next_number;
    owned = l.owned;
  }

  -- `more` are the events recorded since `es`, of the types `ts`.
  pub record Told (es : List EventRecord) (ts : List String) (e : Engine) : Type 0 where
    pub more : List EventRecord
    pub log : IsLog w start first config (es ++ more) e
    pub types : map (λ x. x.type_url) more ≡ ts

  Told-advance :
      (es : List EventRecord) (ts : List String) (e : Engine) (t : String) (payload : Bytes)
      (r : Result StoreError EventStore)
      → Told es ts e
      → append_event w.crypto (w.writable e.ticks) e.store (event_of w e t payload) ≡ r
      → After (λ _. Told es (ts ++ t ∷ [])) (Told es ts) (advance w e (event_of w e t payload) r)
  unfolding new_event
  Told-advance es ts e t payload (err reason) told h = record {
    more = told.more;
    log = IsLog-same _ e _ told.log (refl, refl, refl, refl, refl);
    types = told.types;
  }
  Told-advance es ts e t payload (ok store) told h =
      let event = event_of w e t payload in
      record {
        more = told.more ++ event ∷ [];
        log =
            subst (λ l. IsLog w start first config l (advance w e event (ok store)).0)
              (append_assoc es told.more (event ∷ []))
              (IsLog-advance (es ++ told.more) e t payload store told.log h);
        types = map-push (λ x. x.type_url) told.more event ∙ ap (λ l. l ++ t ∷ []) told.types;
      }

  Told-append_payload :
      (es : List EventRecord) (ts : List String) (e : Engine) (t : String) (r : Result String Bytes)
      → Told es ts e
      → After (λ _. Told es (ts ++ t ∷ [])) (Told es ts) (append_payload w e t r)
  Told-append_payload es ts e t (err reason) told = record {
    more = told.more;
    log = IsLog-same _ e _ told.log (refl, refl, refl, refl, refl);
    types = told.types;
  }
  Told-append_payload es ts e t (ok payload) told = Told-advance es ts e t payload _ told refl

  pub Told-record_event :
      (es : List EventRecord) (ts : List String) (t : String) (payload : Json)
      → Triple (Told es ts) (record_event w t payload) (λ _. Told es (ts ++ t ∷ [])) (Told es ts)
  unfolding record_event
  Told-record_event es ts t payload = record {
    holds = λ e told. Told-append_payload es ts e t (w.to_vec payload) told;
  }

  pub Told-same :
      (es : List EventRecord) (ts : List String) (e e' : Engine)
      → Told es ts e
      → IsSame e e'
      → Told es ts e'
  Told-same es ts e e' told same = record {
    more = told.more;
    log = IsLog-same _ e e' told.log same;
    types = told.types;
  }

-- An engine that is made for a store has recorded nothing.
pub IsLog-new :
    (w : World) (store : EventStore) (config : OrchestrationConfig) (next_sequence : ℕ)
    → IsLog w store
        (max next_sequence first_event_sequence)
        config
        []
        (continuing_at (new config store) next_sequence)
IsLog-new w store config next_sequence = record {
  same_config = refl;
  rows = sym (append-nil store.rows);
  sent = sym (append-nil store.sent);
  chain = tt;
  last = refl;
  hashes = refl;
  numbered = tt;
  next_number = omega arith;
  owned = tt;
}
