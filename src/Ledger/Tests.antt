-- ===== src/Ledger/Tests.antt =====
-- Reads of crates/app-server/src/ledger.rs and crates/app-server/src/routines.rs, and the theorems
-- there.
use vitna_code.Base.{
  ◌+◌, ◌≤◌, String, Bool, true, false, ◌≡◌, refl, Option, none, some, List, [], ◌∷◌, ◌++◌, length,
  ok, err, if◌then◌else◌,
}
use vitna_code.Bytes.{Bytes}
use vitna_code.Paths.{chars, same}
use vitna_code.Ledger.{reply_full, Found, nothing, file, read_capped, text, slug, routine_id}
use vitna_code.Ledger.Rows.{IsTail, read_capped-IsTail}
use vitna_code.Ledger.Routines.{
  Lock, free, Named, Folder, max_reply_bytes, max_definitions, one, read_routines,
}
use vitna_code.Ledger.Budget.{sizes, read_routines_bounded}

abbrev always : Bytes → Bool
always bytes = true

-- Three rows, the last of which another process appended.
abbrev rows : Bytes
rows = 1 ∷ 2 ∷ 10 ∷ 3 ∷ 10 ∷ []

abbrev newest : Bytes
newest = 4 ∷ 10 ∷ []

inside_row : read_capped always (file rows newest) 3 ≡ ok (3 ∷ 10 ∷ [], 3)
unfolding read_capped
inside_row = refl

on_row_start : read_capped always (file rows newest) 2 ≡ ok (3 ∷ 10 ∷ [], 3)
unfolding read_capped
on_row_start = refl

read_capped-IsTail_example : IsTail 3 (rows ++ newest) (3 ∷ 10 ∷ []) 3
read_capped-IsTail_example = read_capped-IsTail always rows newest 3 (3 ∷ 10 ∷ []) 3 inside_row

full : text always (file rows newest) 9 4 ≡ err reply_full
unfolding text
full = refl

charged : text always (file rows []) 9 8 ≡ ok (rows, 3)
unfolding text
charged = refl

slugs : (slug (chars "gpt-5.1") ≡ true) × (slug (chars "../x") ≡ false)
unfolding slug
slugs = (refl, refl)

ids : (routine_id (chars "daily-9") ≡ true) × (routine_id (chars "9-daily") ≡ false)
unfolding routine_id
ids = (refl, refl)

-- One routine, with its receipts.
abbrev some_files : String → Found
some_files path =
    if same (chars path) (chars "/r/a.json")
    then file (7 ∷ []) []
    else if same (chars path) (chars "/s/daily/receipts.jsonl")
    then file rows []
    else nothing

abbrev never_locked : String → Lock
never_locked path = free

abbrev daily : Bytes → Option Named
daily bytes = some (record { id = some "daily"; state_directory = some "/s" })

abbrev always_absolute : String → Bool
always_absolute path = true

abbrev a_folder : Folder
a_folder = record {
  found = some_files;
  locked = never_locked;
  is_utf8 = always;
  parsed = daily;
  is_absolute = always_absolute;
}

a_row : (one a_folder "a.json" "/r/a.json" 10) ≡ (
  record {
    file = "a.json";
    definition = some (7 ∷ []);
    receipts = some rows;
    locked_at_ms = none;
    problem = none;
  },
  4,
)
unfolding one routine_id text
a_row = refl

abbrev named_files : List (String × String)
named_files = ("a.json", "/r/a.json") ∷ ("b.json", "/r/b.json") ∷ []

read_routines_bounded_example :
    (length (read_routines a_folder named_files).0 + (read_routines a_folder named_files).1
      ≡ length named_files)
    × (length (read_routines a_folder named_files).0 ≤ max_definitions)
    × (sizes (read_routines a_folder named_files).0 ≤ max_reply_bytes)
read_routines_bounded_example = read_routines_bounded a_folder named_files
