-- ===== src/Ledger.antt =====
-- The capped reads of crates/app-server/src/ledger.rs and crates/app-server/src/routines.rs, and the
-- names that they take. A file's bytes are those there when its size is taken, and those that
-- another process appended before it was read.
pub mod Rows
pub mod Routines
pub mod Budget
mod Tests
use vitna_code.Base.{
  ℕ, zero, suc, ◌+◌, ◌-◌, String, Bool, true, false, ◌&&◌, ◌||◌, List, [], ◌∷◌, ◌++◌, length, take,
  drop, Result, ok, err, ◌>>=◌, ltb, leb, nat_eq, if◌then◌else◌,
}
use vitna_code.Bytes.{Bytes}
use vitna_code.Paths.{Text}

-- `Unread` of both files.
pub data Unread : Type 0 where
  missing : Unread
  not_a_file : Unread
  too_large : Unread
  reply_full : Unread
  not_text : Unread
  unreadable : Unread

-- What stands at a path.
pub data Found : Type 0 where
  nothing : Found
  no_access : Found
  no_file : Found
  file : Bytes → Bytes → Found

abbrev pub max_ledger_bytes : ℕ
max_ledger_bytes = 33554432

-- Where the first newline ends, or the length: the cut of a read that began one byte early.
abbrev pub row_end : Bytes → ℕ
row_end [] = 0
row_end (b ∷ bytes) = let rest = row_end bytes in if nat_eq b 10 then 1 else suc rest

-- A read past the cap starts one byte early.
abbrev pub early_of : ℕ → ℕ
early_of start = if ltb 0 start then 1 else 0

-- The rows that are sent, and how many bytes before them are left out.
abbrev pub rows_from : ℕ → Bytes → Bytes × ℕ
rows_from start bytes =
    if ltb 0 start
    then (drop (row_end bytes) bytes, start + row_end bytes - early_of start)
    else (bytes, start)

abbrev pub cap : ℕ → Bytes → Bytes → Bytes × ℕ
cap max content appended =
    let start = length content - max in
    rows_from start
      (take (max + early_of start) (drop (start - early_of start) (content ++ appended)))

module _ (is_utf8 : Bytes → Bool) where
  abbrev pub as_text : Bytes × ℕ → Result Unread (Bytes × ℕ)
  as_text (bytes, left_out) = if is_utf8 bytes then ok (bytes, left_out) else err not_text

  unfoldable pub read_capped : Found → ℕ → Result Unread (Bytes × ℕ)
  read_capped nothing max = ok ([], 0)
  read_capped no_access max = err unreadable
  read_capped no_file max = err not_a_file
  read_capped (file content appended) max = as_text (cap max content appended)

  unfoldable pub read : Found → Result Unread (Bytes × ℕ)
  read found = read_capped found max_ledger_bytes

  -- The part of `text` of routines.rs behind the read.
  abbrev pub within : ℕ → Bytes → ℕ → Result Unread (Bytes × ℕ)
  within max bytes budget =
      if ltb max (length bytes)
      then err too_large
      else if ltb budget (length bytes)
      then err reply_full
      else if is_utf8 bytes
      then ok (bytes, budget - length bytes)
      else err not_text

  -- `text`: the file's bytes, and the budget that is left.
  unfoldable pub text : Found → ℕ → ℕ → Result Unread (Bytes × ℕ)
  text nothing max budget = err missing
  text no_access max budget = err unreadable
  text no_file max budget = err not_a_file
  text (file content appended) max budget =
      if ltb max (length content)
      then err too_large
      else if ltb budget (length content)
      then err reply_full
      else within max (take (max + 1) (content ++ appended)) budget

abbrev between : ℕ → ℕ → ℕ → Bool
between a b n = leb a n && leb n b

abbrev is_slug_first : ℕ → Bool
is_slug_first n = between b'a' b'z' n || between b'0' b'9' n

abbrev is_slug_char : ℕ → Bool
is_slug_char n = between b'a' b'z' n || (between b'0' b'9' n || (nat_eq n b'.' || nat_eq n b'-'))

abbrev all_of : (ℕ → Bool) → Text → Bool
all_of test [] = true
all_of test (n ∷ t) = test n && all_of test t

abbrev first_of : (ℕ → Bool) → Text → Bool
first_of test [] = false
first_of test (n ∷ t) = test n

abbrev pub rest_of : Text → Text
rest_of [] = []
rest_of (n ∷ t) = t

-- All that a slug may hold is ASCII, so its length in bytes is that in characters.
unfoldable pub slug : Text → Bool
slug value =
    leb (length value) 128 && (first_of is_slug_first value && all_of is_slug_char (rest_of value))

abbrev is_id_char : ℕ → Bool
is_id_char n = between b'a' b'z' n || (between b'0' b'9' n || nat_eq n b'-')

unfoldable pub routine_id : Text → Bool
routine_id id =
    leb (length id) 64 && (first_of (between b'a' b'z') id && all_of is_id_char (rest_of id))
