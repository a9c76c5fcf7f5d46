-- ===== src/Ledger/Budget.antt =====
-- What a reply of crates/app-server/src/routines.rs may hold.
use vitna_code.Base.{
  ℕ, zero, suc, ◌+◌, ◌-◌, ◌≤◌, String, Bool, false, ◌≡◌, refl, Option, none, some, List, [], ◌∷◌,
  ◌++◌, length, take, length-take_le, Result, ok, err, arith, ltb, Bool-cases, inl, inr, ap, subst,
  ◌∙◌,
}
use vitna_code.Bytes.{Bytes}
use vitna_code.Ledger.{
  Unread, missing, not_a_file, too_large, reply_full, not_text, unreadable, Found, nothing,
  no_access, no_file, file, within, text,
}
use vitna_code.Ledger.Routines.{
  Lock, taken_at, free, unknown, Named, Folder, Row, max_reply_bytes, max_definitions, with_lock,
  with_receipts, in_state, with_parsed, with_definition, empty_row, one, all_rows, read_routines,
}

take_all : (n : ℕ) (b : Bytes) → length (take (suc n) b) ≤ n → take (suc n) b ≡ b
take_all n [] h = refl
take_all zero (x ∷ b) h = absurd (omega arith)
take_all (suc n) (x ∷ b) h = ap (◌∷◌ x) (take_all n b (omega arith))

-- What was read, and what is left of the budget, from what stood there.
abbrev IsCharged : Bytes → ℕ → ℕ → Bytes × ℕ → Type 0
IsCharged bytes max budget (read, left) =
    (read ≡ bytes) × (length read ≤ max) × (length read + left ≡ budget)

ok-inj : {a b : Bytes × ℕ} → ◌≡◌ {A = Result Unread (Bytes × ℕ)} (ok a) (ok b) → a ≡ b
ok-inj h = cc

ltb-le : (m n : ℕ) → ltb m n ≡ false → n ≤ m
ltb-le m n h = ground arith

left_whole : (budget n : ℕ) → n ≤ budget → n + (budget - n) ≡ budget
left_whole budget n h = omega arith

within-IsCharged :
    (is_utf8 : Bytes → Bool) (max : ℕ) (bytes : Bytes) (budget : ℕ) (got : Bytes × ℕ)
    → within is_utf8 max bytes budget ≡ ok got
    → IsCharged bytes max budget got
within-IsCharged is_utf8 max bytes budget got y = elim (Bool-cases (ltb max (length bytes))) [
  | inl e ↦ absurd (let z = rw e at y in cc)
  | inr e ↦ elim (Bool-cases (ltb budget (length bytes))) [
    | inl f ↦ absurd (let z = rw f at (rw e at y) in cc)
    | inr f ↦ elim (Bool-cases (is_utf8 bytes)) [
      | inl u ↦
          let z = rw u at (rw f at (rw e at y)) in
          subst (IsCharged bytes max budget) (ok-inj z)
            (refl, ltb-le max _ e, left_whole budget _ (ltb-le budget _ f))
      | inr u ↦ absurd (let z = rw u at (rw f at (rw e at y)) in cc)
    ]
  ]
]

-- What a file's text is, from what stood there when its size was taken.
abbrev IsText : Found → ℕ → ℕ → Bytes × ℕ → Type 0
IsText nothing max budget got = ⊥
IsText no_access max budget got = ⊥
IsText no_file max budget got = ⊥
IsText (file content appended) max budget got = IsCharged (content ++ appended) max budget got

text_charged :
    (is_utf8 : Bytes → Bool) (found : Found) (max budget : ℕ) (got : Bytes × ℕ)
    → text is_utf8 found max budget ≡ ok got
    → IsText found max budget got
unfolding text
text_charged is_utf8 nothing max budget got y = absurd (cc)
text_charged is_utf8 no_access max budget got y = absurd (cc)
text_charged is_utf8 no_file max budget got y = absurd (cc)
text_charged is_utf8 (file content appended) max budget got y =
    elim (Bool-cases (ltb max (length content))) [
      | inl e ↦ absurd (let z = rw e at y in cc)
      | inr e ↦ elim (Bool-cases (ltb budget (length content))) [
        | inl f ↦ absurd (let z = rw f at (rw e at y) in cc)
        | inr f ↦ entire (rw f at (rw e at y))
      ]
    ]
  where
    entire :
        within is_utf8 max (take (max + 1) (content ++ appended)) budget ≡ ok got
        → IsCharged (content ++ appended) max budget got
    entire z =
        let charged =
          within-IsCharged is_utf8 max (take (max + 1) (content ++ appended)) budget got z in
        let short : length (take (max + 1) (content ++ appended)) ≤ max =
          subst (λ b. length b ≤ max) charged.0 charged.1 in
        (
          charged.0
              ∙ subst (λ n. length (take n whole) ≤ max → take n whole ≡ whole) (succ max)
                  (take_all max whole) short,
          charged.1,
          charged.2,
        )
      where
        whole : Bytes
        whole = content ++ appended

        succ : (n : ℕ) → suc n ≡ n + 1
        succ n = omega arith

-- How many bytes of files a row carries.
abbrev optional_size : Option Bytes → ℕ
optional_size none = 0
optional_size (some bytes) = length bytes

abbrev row_size : Row → ℕ
row_size row = optional_size row.definition + optional_size row.receipts

abbrev pub sizes : List Row → ℕ
sizes [] = 0
sizes (row ∷ rows) = row_size row + sizes rows

abbrev IsPaid : ℕ → Row × ℕ → Type 0
IsPaid budget (row, left) = row_size row + left ≤ budget

text_paid :
    (is_utf8 : Bytes → Bool) (found : Found) (max budget : ℕ) (got : Bytes × ℕ)
    → text is_utf8 found max budget ≡ ok got
    → length got.0 + got.1 ≤ budget
text_paid is_utf8 nothing max budget got y = absurd (text_charged is_utf8 nothing max budget got y)
text_paid is_utf8 no_access max budget got y =
    absurd (text_charged is_utf8 no_access max budget got y)
text_paid is_utf8 no_file max budget got y = absurd (text_charged is_utf8 no_file max budget got y)
text_paid is_utf8 (file content appended) max budget got y =
    let charged = (text_charged is_utf8 (file content appended) max budget got y).2 in omega arith

lock_paid :
    (lock : Lock) (row : Row) (left budget : ℕ)
    → row_size row + left ≤ budget
    → row_size (with_lock lock row) + left ≤ budget
lock_paid (taken_at ms) row left budget h = h
lock_paid free row left budget h = h
lock_paid unknown row left budget h = omega arith

receipts-IsPaid :
    (lock : Lock) (row : Row) (budget total : ℕ) (answer : Result Unread (Bytes × ℕ))
    → ((got : Bytes × ℕ) → answer ≡ ok got → length got.0 + got.1 ≤ budget)
    → row_size row + budget ≤ total
    → row.receipts ≡ none
    → IsPaid total (with_receipts lock row budget answer)
receipts-IsPaid lock row budget total (ok (bytes, left)) paid h e =
    let fits = paid (bytes, left) refl in
    lock_paid lock (record row { receipts = some bytes }) left total (omega arith)
receipts-IsPaid lock row budget total (err missing) paid h e =
    lock_paid lock (record row { receipts = some [] }) budget total (omega arith)
receipts-IsPaid lock row budget total (err not_a_file) paid h e = h
receipts-IsPaid lock row budget total (err too_large) paid h e = h
receipts-IsPaid lock row budget total (err reply_full) paid h e = h
receipts-IsPaid lock row budget total (err not_text) paid h e = h
receipts-IsPaid lock row budget total (err unreadable) paid h e = h

module _ (folder : Folder) where
  state-IsPaid :
      (row : Row) (budget total : ℕ) (id state : Option String)
      → row_size row + budget ≤ total
      → row.receipts ≡ none
      → IsPaid total (in_state folder row budget id state)
  state-IsPaid row budget total none state h e = h
  state-IsPaid row budget total (some id) none h e = h
  state-IsPaid row budget total (some id) (some state) h e =
      receipts-IsPaid _ row budget total _ (text_paid folder.is_utf8 _ _ budget) h e

  parsed-IsPaid :
      (row : Row) (budget total : ℕ) (named : Option Named)
      → row_size row + budget ≤ total
      → row.receipts ≡ none
      → IsPaid total (with_parsed folder row budget named)
  parsed-IsPaid row budget total none h e = h
  parsed-IsPaid row budget total (some named) h e = state-IsPaid row budget total _ _ h e

  definition-IsPaid :
      (name : String) (budget : ℕ) (answer : Result Unread (Bytes × ℕ))
      → ((got : Bytes × ℕ) → answer ≡ ok got → length got.0 + got.1 ≤ budget)
      → IsPaid budget (with_definition folder (empty_row name) budget answer)
  definition-IsPaid name budget (err unread) paid = omega arith
  definition-IsPaid name budget (ok (bytes, left)) paid =
      parsed-IsPaid _ left budget (folder.parsed bytes)
        (let fits = paid (bytes, left) refl in omega arith) refl

  one-IsPaid : (name path : String) (budget : ℕ) → IsPaid budget (one folder name path budget)
  unfolding one
  one-IsPaid name path budget =
      definition-IsPaid name budget _ (text_paid folder.is_utf8 _ _ budget)

  all_paid :
      (files : List (String × String)) (budget : ℕ)
      → sizes (all_rows folder files budget).0 + (all_rows folder files budget).1 ≤ budget
  unfolding all_rows
  all_paid [] budget = omega arith
  all_paid ((name, path) ∷ files) budget =
      omega (arith, one-IsPaid name path budget, all_paid files (one folder name path budget).1)

  length-all_rows :
      (files : List (String × String)) (budget : ℕ)
      → length (all_rows folder files budget).0 ≡ length files
  unfolding all_rows
  length-all_rows [] budget = refl
  length-all_rows ((name, path) ∷ files) budget = ap suc (length-all_rows files _)

length-take-drop :
    {A : Type 0} (n : ℕ) (xs : List A) → length (take n xs) + (length xs - n) ≡ length xs
length-take-drop zero xs = omega arith
length-take-drop (suc n) [] = omega arith
length-take-drop (suc n) (x ∷ xs) = omega (arith, length-take-drop n xs)

-- A reply has a row for each of the first 64 definitions, counts the others, and carries at most
-- 48 MiB of files, whatever other processes append while they are read.
pub read_routines_bounded :
    (folder : Folder) (files : List (String × String))
    → (length (read_routines folder files).0 + (read_routines folder files).1 ≡ length files)
      × (length (read_routines folder files).0 ≤ max_definitions)
      × (sizes (read_routines folder files).0 ≤ max_reply_bytes)
unfolding read_routines
read_routines_bounded folder files =
    let rows = length-all_rows folder (take max_definitions files) max_reply_bytes in
    (
      omega (arith, rows, length-take-drop max_definitions files),
      omega (arith, rows, length-take_le max_definitions files),
      omega (arith, all_paid folder (take max_definitions files) max_reply_bytes),
    )
