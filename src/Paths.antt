-- ===== src/Paths.antt =====
-- The path rules of crates/app-server/src/paths.rs: `resolve`. A text is the list of its
-- characters' numbers.
pub mod Safe
pub mod Guard
mod Tests
use Prim.Native.Char.{code}
use vitna_code.Base.{
  ℕ, zero, suc, ◌+◌, String, Bool, true, false, ◌&&◌, ◌||◌, not, Option, none, some, List, [], ◌∷◌,
  ◌++◌, map, length, Result, ok, err, ltb, leb, nat_eq, if◌then◌else◌,
}

abbrev pub Text : Type 0
Text = List ℕ

abbrev pub max_path_length : ℕ
max_path_length = 1024

abbrev pub max_depth : ℕ
max_depth = 64

abbrev pub same : Text → Text → Bool
same [] [] = true
same [] (y ∷ t) = false
same (x ∷ s) [] = false
same (x ∷ s) (y ∷ t) = nat_eq x y && same s t

abbrev between : ℕ → ℕ → ℕ → Bool
between a b c = leb a c && leb c b

-- `char::is_whitespace`: the White_Space property of Unicode.
abbrev pub is_whitespace : ℕ → Bool
is_whitespace c =
    between 9 13 c
    || (nat_eq c 32
        || (nat_eq c 0x85
            || (nat_eq c 0xa0
                || (nat_eq c 0x1680
                    || (between 0x2000 0x200a c
                        || (between 0x2028 0x2029 c
                            || (nat_eq c 0x202f || (nat_eq c 0x205f || nat_eq c 0x3000))))))))

unfoldable pub trim_start : Text → Text
trim_start [] = []
trim_start (c ∷ t) = let rest = trim_start t in if is_whitespace c then rest else c ∷ t

abbrev pub all_whitespace : Text → Bool
all_whitespace [] = true
all_whitespace (c ∷ t) = is_whitespace c && all_whitespace t

unfoldable pub trim_end : Text → Text
trim_end [] = []
trim_end (c ∷ t) = let rest = trim_end t in if all_whitespace (c ∷ t) then [] else c ∷ rest

-- `.replace('\\', "/")`, of one character.
abbrev pub slash : ℕ → ℕ
slash c = if nat_eq c b'\\' then b'/' else c

-- `encode_utf16().count()`
abbrev pub utf16_count : Text → ℕ
utf16_count [] = 0
utf16_count (c ∷ t) = (if ltb c 0x10000 then 1 else 2) + utf16_count t

abbrev pub is_top : Text → Bool
is_top t = same t [] || (same t (b'.' ∷ []) || (same t (b'.' ∷ b'/' ∷ []) || same t (b'/' ∷ [])))

abbrev is_ascii_alphabetic : ℕ → Bool
is_ascii_alphabetic c = between b'a' b'z' c || between b'A' b'Z' c

abbrev pub names_drive : Text → Bool
names_drive [] = false
names_drive (c ∷ []) = false
names_drive (c ∷ d ∷ t) = nat_eq d b':' && is_ascii_alphabetic c

abbrev pub starts_with : ℕ → Text → Bool
starts_with c [] = false
starts_with c (d ∷ t) = nat_eq c d

abbrev pub push_char : ℕ → List Text → List Text
push_char c [] = (c ∷ []) ∷ []
push_char c (s ∷ more) = (c ∷ s) ∷ more

-- `.split('/')`
unfoldable pub split : Text → List Text
split [] = [] ∷ []
split (c ∷ t) = let rest = split t in if nat_eq c b'/' then [] ∷ rest else push_char c rest

-- `.filter(|s| !s.is_empty() && *s != ".")`
unfoldable pub named : List Text → List Text
named [] = []
named (s ∷ more) =
    let rest = named more in if same s [] || same s (b'.' ∷ []) then rest else s ∷ rest

abbrev pub has_control : Text → Bool
has_control [] = false
has_control (c ∷ t) = (ltb c 32 || nat_eq c 127) || has_control t

abbrev pub ends_with : ℕ → Text → Bool
ends_with c [] = false
ends_with c (d ∷ []) = nat_eq c d
ends_with c (d ∷ e ∷ t) = ends_with c (e ∷ t)

abbrev pub holds : ℕ → Text → Bool
holds c [] = false
holds c (d ∷ t) = nat_eq d c || holds c t

-- Why one name is refused.
abbrev pub refusal : Text → Option String
refusal s =
    if same s (b'.' ∷ b'.' ∷ [])
    then some "it climbs out of the folder"
    else if has_control s
    then some "a name in it holds a control character"
    else if ends_with b'.' s || ends_with b' ' s
    then some "a name in it ends in a dot or a space"
    else if holds b':' s
    then some "a name in it holds a colon"
    else none

abbrev or_else : Option String → Option String → Option String
or_else (some r) rest = some r
or_else none rest = rest

unfoldable pub first_refusal : List Text → Option String
first_refusal [] = none
first_refusal (s ∷ more) = or_else (refusal s) (first_refusal more)

abbrev pub checked : Option String → List Text → Result String (List Text)
checked (some reason) segments = err reason
checked none segments = ok segments

-- `if test { return Err(..) }`
abbrev pub refuse_if : Bool → String → Result String (List Text) → Result String (List Text)
refuse_if true reason rest = err reason
refuse_if false reason rest = rest

-- The last of the tests, and the names.
abbrev pub resolve_names : List Text → Result String (List Text)
resolve_names segments =
    refuse_if (ltb max_depth (length segments)) "the path is too deep"
      (checked (first_refusal segments) segments)

abbrev pub resolve_relative : Text → Result String (List Text)
resolve_relative raw =
    refuse_if (names_drive raw) "it names a drive, and paths are relative to the top of the folder"
      (refuse_if (starts_with b'/' raw)
        "it starts at a root, and paths are relative to the top of the folder"
        (refuse_if (starts_with b'~' raw)
          "it starts at a home folder, and paths are relative to the top of the folder"
          (resolve_names (named (split raw)))))

abbrev pub resolve_raw : Text → Result String (List Text)
resolve_raw raw =
    refuse_if (ltb max_path_length (utf16_count raw)) "the path is too long"
      (if is_top raw then ok [] else resolve_relative raw)

unfoldable pub resolve : Text → Result String (List Text)
resolve input = resolve_raw (map slash (trim_end (trim_start input)))

abbrev pub has_suffix : Text → Text → Bool
has_suffix suffix [] = same suffix []
has_suffix suffix (c ∷ t) = let rest = has_suffix suffix t in same suffix (c ∷ t) || rest

abbrev pub member : List Text → Text → Bool
member [] t = false
member (s ∷ more) t = same s t || member more t

abbrev pub any_suffix : List Text → Text → Bool
any_suffix [] t = false
any_suffix (s ∷ more) t = has_suffix s t || any_suffix more t

-- `strip_prefix`
abbrev pub strip_prefix : Text → Text → Option Text
strip_prefix [] t = some t
strip_prefix (c ∷ prefix) [] = none
strip_prefix (c ∷ prefix) (d ∷ t) =
    let rest = strip_prefix prefix t in if nat_eq c d then rest else none

-- The characters of a text.
abbrev pub chars : String → Text
chars String.[] = []
chars (String.◌∷◌ c s) = code c ∷ chars s

abbrev pub skipped : List Text
skipped = map chars (".git" ∷ "node_modules" ∷ ".vitna" ∷ [])

-- What stands behind `.env.` makes the name a secret's.
abbrev env_kind : Option Text → Bool
env_kind none = false
env_kind (some rest) =
    not (same rest [])
    && not (member (map chars ("example" ∷ "sample" ∷ "template" ∷ "dist" ∷ [])) rest)

-- `holds_secret`, of a name in lower case.
abbrev pub names_secret : Text → Bool
names_secret name =
    same name (chars ".env")
    || (env_kind (strip_prefix (chars ".env.") name)
        || (any_suffix (map chars (".pem" ∷ ".key" ∷ ".p12" ∷ ".pfx" ∷ [])) name
            || (member (map chars ("id_rsa" ∷ "id_dsa" ∷ "id_ecdsa" ∷ "id_ed25519" ∷ [])) name
                || member (map chars (".npmrc" ∷ ".netrc" ∷ ".pypirc" ∷ [])) name)))

-- `str::to_lowercase` follows the tables of Unicode, which are an argument.
module _ (to_lowercase : Text → Text) where
  abbrev pub holds_secret : Text → Bool
  holds_secret name = names_secret (to_lowercase name)

  abbrev pub last_guard : List Text → Option Text
  last_guard [] = none
  last_guard (s ∷ []) =
      if holds_secret s
      then some (s ++ chars " usually holds secrets, so it is never read")
      else none
  last_guard (s ∷ t ∷ more) = last_guard (t ∷ more)

  abbrev pub first_skipped : List Text → Option Text
  first_skipped [] = none
  first_skipped (s ∷ more) =
      let rest = first_skipped more in
      if member skipped (to_lowercase s) then some (s ++ chars " is never read") else rest

  abbrev pub or_last : Option Text → List Text → Option Text
  or_last (some reason) segments = some reason
  or_last none segments = last_guard segments

  unfoldable pub guarded : List Text → Option Text
  guarded segments = or_last (first_skipped segments) segments
