-- ===== src/Runner/Reopens.antt =====
-- What the file of crates/vitna-runner/src/journal.rs gives when it is opened again.
use mathlib.Core.List.{append_assoc, append-nil}
use vitna_code.Base.{
  take, ℕ, suc, String, Bool, true, false, ◌≡◌, ◌≢◌, refl, sym, ap, ◌∙◌, Option, none, some, List,
  [], ◌∷◌, ◌++◌, Result, ok, err, nat_eq, All, All-append, if◌then◌else◌, Bool-cases, inl, inr,
}
use vitna_code.Bytes.{Bytes}
use vitna_code.Runner.Journal.{
  JournalEntry, Written, cut, whole, Serde, Entries, ActionJournal, insert, lines, push_byte,
  is_blank, push_entry, next_line, read_lines, read_log, insert_all, opened, open_journal,
  append_entry,
}

-- Every line of the file is complete.
abbrev pub Ended : Bytes → Type 0
Ended [] = Unit {0}
Ended (b ∷ []) = nat_eq b 10 ≡ true
Ended (b ∷ c ∷ bytes) = Ended (c ∷ bytes)

-- What serde_json promises of an entry: it is read back from its text, which is not blank and holds
-- no line feed.
pub record IsReadBack (serde : Serde) (e : JournalEntry) : Type 0 where
  pub read_back : serde.from_str (serde.to_string e) ≡ some e
  pub one_line : All (λ b. nat_eq b 10 ≡ false) (serde.to_string e)
  pub not_blank : is_blank (serde.to_string e) ≡ false
  pub text : serde.is_utf8 (serde.to_string e) ≡ true

abbrev lines_push : ℕ → Bytes → List Bytes
lines_push b bytes = if nat_eq b 10 then [] ∷ lines bytes else push_byte b (lines bytes)

lines_line :
    (l rest : Bytes) → All (λ b. nat_eq b 10 ≡ false) l → lines (l ++ 10 ∷ rest) ≡ l ∷ lines rest
unfolding lines
lines_line [] rest a = refl
lines_line (b ∷ l) rest (h, a) = rw h (rw (lines_line l rest a) refl)

push-append :
    (b : ℕ) (ls more : List Bytes) → ls ≢ [] → push_byte b (ls ++ more) ≡ push_byte b ls ++ more
push-append b [] more h = absurd (h refl)
push-append b (l ∷ ls) more h = refl

lines_some : (b : ℕ) (bytes : Bytes) → lines (b ∷ bytes) ≢ []
unfolding lines
lines_some b bytes = elim (Bool-cases (nat_eq b 10)) [
  | inl e ↦ rw e (λ h. absurd (cc))
  | inr e ↦ rw e (pushed (lines bytes))
]
  where
    pushed : (ls : List Bytes) → push_byte b ls ≢ []
    pushed [] h = absurd (cc)
    pushed (l ∷ ls) h = absurd (cc)

lines-append : (b rest : Bytes) → Ended b → lines (b ++ rest) ≡ lines b ++ lines rest
unfolding lines
lines-append [] rest e = refl
lines-append (b ∷ []) rest e = rw e refl
lines-append (b ∷ c ∷ bytes) rest e = elim (Bool-cases (nat_eq b 10)) [
  | inl h ↦ rw h (ap (◌∷◌ []) (lines-append (c ∷ bytes) rest e))
  | inr h ↦ rw h (
      ap (push_byte b) (lines-append (c ∷ bytes) rest e)
      ∙ push-append b (lines (c ∷ bytes)) (lines rest) (lines_some c bytes))
]

Ended-append : (b l : Bytes) → Ended (b ++ (l ++ 10 ∷ []))
Ended-append [] [] = refl
Ended-append [] (x ∷ []) = refl
Ended-append [] (x ∷ y ∷ l) = Ended-append [] (y ∷ l)
Ended-append (b ∷ []) [] = refl
Ended-append (b ∷ []) (x ∷ l) = Ended-append [] (x ∷ l)
Ended-append (b ∷ c ∷ bs) l = Ended-append (c ∷ bs) l

insert_all-append :
    (serde : Serde) (log more : List JournalEntry) (entries : Entries)
    → insert_all serde (log ++ more) entries ≡ insert_all serde more (insert_all serde log entries)
insert_all-append serde [] more entries = refl
insert_all-append serde (e ∷ log) more entries =
    insert_all-append serde log more (insert e.action_id e entries)

module _ (serde : Serde) where
  abbrev kept : Bool → Option JournalEntry → List JournalEntry → List JournalEntry
  kept b x rest = if b then rest else push_entry x rest

  kept-append :
      (b : Bool) (x : Option JournalEntry) (log more : List JournalEntry)
      → kept b x (log ++ more) ≡ kept b x log ++ more
  kept-append true x log more = refl
  kept-append false none log more = refl
  kept-append false (some e) log more = refl

  next_line-append :
      (line : Bytes) (r r' : Result String (List JournalEntry)) (log more : List JournalEntry)
      → next_line serde line r ≡ ok log
      → ((rest : List JournalEntry) → r ≡ ok rest → r' ≡ ok (rest ++ more))
      → next_line serde line r' ≡ ok (log ++ more)
  next_line-append line (err e) r' log more y go = absurd (cc)
  next_line-append line (ok rest) r' log more y go =
      let same : kept (is_blank line) (serde.from_str line) rest ≡ log = cc in
      rw (go rest refl) (
        ap ok
          (kept-append (is_blank line) (serde.from_str line) rest more ∙ ap (λ x. x ++ more) same))

  read_lines-append :
      (ls ms : List Bytes) (log more : List JournalEntry)
      → read_lines serde ls ≡ ok log
      → read_lines serde ms ≡ ok more
      → read_lines serde (ls ++ ms) ≡ ok (log ++ more)
  read_lines-append [] ms log more y z =
      let same : [] ≡ log = cc in z ∙ ap (λ l. ok (l ++ more)) same
  read_lines-append (line ∷ ls) ms log more y z = elim (Bool-cases (serde.is_utf8 line)) [
    | inl e ↦ rw e (
        next_line-append line (read_lines serde ls) (read_lines serde (ls ++ ms)) log more
          (rw e at y) (λ rest r. read_lines-append ls ms rest more r z))
    | inr e ↦ absurd (let failed = rw e at y in cc)
  ]

  read_line :
      (l : Bytes)
      → All (λ b. nat_eq b 10 ≡ false) l
      → serde.is_utf8 l ≡ true
      → read_log serde (l ++ 10 ∷ []) ≡ ok (kept (is_blank l) (serde.from_str l) [])
  unfolding read_log lines
  read_line l clean text = rw (lines_line l [] clean) (rw text refl)

  read_log-append :
      (file l : Bytes) (log : List JournalEntry)
      → Ended file
      → read_log serde file ≡ ok log
      → All (λ b. nat_eq b 10 ≡ false) l
      → serde.is_utf8 l ≡ true
      → read_log serde (file ++ (l ++ 10 ∷ []))
        ≡ ok (log ++ kept (is_blank l) (serde.from_str l) [])
  unfolding read_log
  read_log-append file l log ended y clean text = rw (lines-append file (l ++ 10 ∷ []) ended) (
      read_lines-append (lines file) (lines (l ++ 10 ∷ [])) log
        (kept (is_blank l) (serde.from_str l) []) y (read_line l clean text))

  read_log_entry :
      (file : Bytes) (log : List JournalEntry) (e : JournalEntry)
      → IsReadBack serde e
      → Ended file
      → read_log serde file ≡ ok log
      → read_log serde (file ++ (serde.to_string e ++ 10 ∷ [])) ≡ ok (log ++ e ∷ [])
  read_log_entry file log e laws ended y =
      read_log-append file (serde.to_string e) log ended y laws.one_line laws.text
      ∙ rw laws.not_blank (rw laws.read_back refl)

  abbrev journal_of : Bytes → List JournalEntry → ActionJournal
  journal_of file log = record {
    file = file;
    entries = insert_all serde log [];
    appends = 0;
    trace = [];
  }

  opened_log :
      (file : Bytes) (r : Result String (List JournalEntry)) (j : ActionJournal)
      → opened serde file r ≡ ok j
      → (log : List JournalEntry) × ((r ≡ ok log) × (insert_all serde log [] ≡ j.entries))
  opened_log file (err e) j y = absurd (cc)
  opened_log file (ok log) j y =
      let same : journal_of file log ≡ j = cc in (log, (refl, ap (λ x. x.entries) same))

-- The file holds complete lines, and opening it gives the entries that are in memory.
abbrev pub Reopens : Serde → ActionJournal → Type 0
Reopens serde j =
    Ended j.file × (open_journal serde j.file ≡ ok (record j { appends = 0; trace = [] }))

-- An append that reaches the disk keeps the file and the memory in step: opened again, the file
-- gives the entries that the journal then has.
pub append_entry-Reopens :
    (serde : Serde) (writes : ℕ → Written) (j : ActionJournal) (e : JournalEntry)
    → IsReadBack serde e
    → Reopens serde j
    → writes j.appends ≡ whole
    → Reopens serde (append_entry serde writes e j).0
unfolding open_journal
append_entry-Reopens serde writes j e laws (ended, y) w =
    let (log, (read, entries)) = opened_log serde j.file (read_log serde j.file) _ y in
    rw w (
      Ended-append j.file (serde.to_string e),
      rw (read_log_entry serde j.file log e laws ended read)
          (rw (insert_all-append serde log (e ∷ []) []) (rw entries refl)),
    )

-- Bytes of an entry that a failed append left behind swallow the next one: where they and that
-- entry's text make no entry together, opening the file reads what it read before.
pub read_log_cut :
    (serde : Serde) (writes : ℕ → Written) (j : ActionJournal) (e f : JournalEntry) (n : ℕ)
    (why : String) (log : List JournalEntry)
    → IsReadBack serde f
    → Ended j.file
    → read_log serde j.file ≡ ok log
    → writes j.appends ≡ cut n why
    → writes (suc j.appends) ≡ whole
    → All (λ b. nat_eq b 10 ≡ false) (take n (serde.to_string e ++ 10 ∷ []))
    → serde.is_utf8 (take n (serde.to_string e ++ 10 ∷ []) ++ serde.to_string f) ≡ true
    → serde.from_str (take n (serde.to_string e ++ 10 ∷ []) ++ serde.to_string f) ≡ none
    → read_log serde (append_entry serde writes f (append_entry serde writes e j).0).0.file ≡ ok log
read_log_cut serde writes j e f n why log laws ended y w v clean text no_entry =
    let torn = take n (serde.to_string e ++ 10 ∷ []) in
    rw w (
      rw v (
        ap (read_log serde) (
          append_assoc j.file torn (serde.to_string f ++ 10 ∷ [])
          ∙ ap (λ l. j.file ++ l) (sym (append_assoc torn (serde.to_string f) (10 ∷ []))))
        ∙ (read_log-append serde j.file (torn ++ serde.to_string f) log ended y
              (All-append (λ b. nat_eq b 10 ≡ false) torn (serde.to_string f) clean laws.one_line)
              text
            ∙ rw no_entry (ap ok (nothing (is_blank (torn ++ serde.to_string f)))))))
  where
    nothing : (b : Bool) → log ++ kept serde b none [] ≡ log
    nothing true = append-nil log
    nothing false = append-nil log
