-- ===== src/Paths/Safe.antt =====
-- What `resolve` of crates/app-server/src/paths.rs lets through.
use vitna_code.Base.{
  ℕ, ◌≤◌, String, ◌≡◌, ◌≢◌, refl, sym, ap, ◌∙◌, subst, Bool, true, false, ◌||◌, Option, none, some,
  List, [], ◌∷◌, map, length, Result, ok, arith, ltb, nat_eq, All, if◌then◌else◌, Bool-cases,
  Option-cases, inl, inr, ◌⊎◌,
}
use vitna_code.Paths.{
  Text, max_depth, same, slash, push_char, split, named, has_control, ends_with, holds, refusal,
  first_refusal, checked, trim_start, trim_end, refuse_if, resolve_names, resolve_relative,
  resolve_raw, resolve, utf16_count, is_top, names_drive, starts_with, max_path_length,
}

-- A plain name: no way up, nothing that a disk reads as a separator, a stream or another name.
abbrev pub IsPlain : Text → Type 0
IsPlain s =
    (s ≢ [])
    × (s ≢ b'.' ∷ [])
    × (s ≢ b'.' ∷ b'.' ∷ [])
    × (holds b'/' s ≡ false)
    × (holds b'\\' s ≡ false)
    × (holds b':' s ≡ false)
    × (has_control s ≡ false)
    × (ends_with b'.' s ≡ false)
    × (ends_with b' ' s ≡ false)

pub same_refl : (s : Text) → same s s ≡ true
same_refl [] = refl
same_refl (c ∷ s) = ground (arith, same_refl s)

pub same_eq : (s t : Text) → same s t ≡ true → s ≡ t
same_eq [] [] h = refl
same_eq [] (y ∷ t) h = absurd (cc)
same_eq (x ∷ s) [] h = absurd (cc)
same_eq (x ∷ s) (y ∷ t) h =
    let rest = same_eq s t (ground (arith, h)) in let first : x ≡ y = ground (arith, h) in cc

pub differ : (s t : Text) → same s t ≡ false → s ≢ t
differ s t h e = absurd (ground (arith, h, sym (same_refl s) ∙ ap (same s) e))

abbrev IsWhole : Text → Type 0
IsWhole s = (holds b'/' s ≡ false) × (holds b'\\' s ≡ false)

IsWhole-push_char :
    (c : ℕ) (l : List Text)
    → nat_eq c b'/' ≡ false
    → nat_eq c b'\\' ≡ false
    → All IsWhole l
    → All IsWhole (push_char c l)
IsWhole-push_char c [] h k a = ((ground (arith, h), ground (arith, k)), tt)
IsWhole-push_char c (s ∷ l) h k a = ((ground (arith, h, a.0.0), ground (arith, k, a.0.1)), a.1)

IsWhole-split : (t : Text) → holds b'\\' t ≡ false → All IsWhole (split t)
unfolding split
IsWhole-split [] h = ((refl, refl), tt)
IsWhole-split (c ∷ t) h =
    let rest = IsWhole-split t (ground (arith, h)) in
    elim (Bool-cases (nat_eq c b'/')) [
      | inl y ↦ rw y ((refl, refl), rest)
      | inr n ↦ rw n (IsWhole-push_char c (split t) n (ground (arith, h)) rest)
    ]

no_backslash : (t : Text) → holds b'\\' (map slash t) ≡ false
no_backslash [] = refl
no_backslash (c ∷ t) = ground (arith, no_backslash t)

abbrev IsNamed : Text → Type 0
IsNamed s = IsWhole s × (same s [] ≡ false) × (same s (b'.' ∷ []) ≡ false)

IsNamed-named : (l : List Text) → All IsWhole l → All IsNamed (named l)
unfolding named
IsNamed-named [] a = tt
IsNamed-named (s ∷ l) a = elim (Bool-cases (same s [] || same s (b'.' ∷ []))) [
  | inl y ↦ rw y (IsNamed-named l a.1)
  | inr n ↦ rw n ((a.0, ground (arith, n), ground (arith, n)), IsNamed-named l a.1)
]

IsPlain-refusal : (s : Text) → IsNamed s → refusal s ≡ none → IsPlain s
IsPlain-refusal s (w, e, d) h =
    let (up, control, tail, colon) = tests in
    (
      differ s _ e,
      differ s _ d,
      differ s _ up,
      w.0,
      w.1,
      colon,
      control,
      ground (arith, tail),
      ground (arith, tail),
    )
  where
    tests :
        (same s (b'.' ∷ b'.' ∷ []) ≡ false)
        × (has_control s ≡ false)
        × ((ends_with b'.' s || ends_with b' ' s) ≡ false)
        × (holds b':' s ≡ false)
    tests = ground (arith, h)

IsPlain-first_refusal : (l : List Text) → All IsNamed l → first_refusal l ≡ none → All IsPlain l
unfolding first_refusal
IsPlain-first_refusal [] a h = tt
IsPlain-first_refusal (s ∷ l) a h = elim (Option-cases (refusal s)) [
  | inl n ↦ (IsPlain-refusal s a.0 n, IsPlain-first_refusal l a.1 (ground (arith, h, n)))
  | inr (r, y) ↦ absurd (ground (arith, h, y))
]

-- A refusal that was passed.
past :
    (b : Bool) (reason : String) (rest : Result String (List Text)) (segments : List Text)
    → refuse_if b reason rest ≡ ok segments
    → (b ≡ false) × (rest ≡ ok segments)
past true reason rest segments h = absurd (ground arith)
past false reason rest segments h = (refl, h)

past_top :
    (b : Bool) (rest : Result String (List Text)) (segments : List Text)
    → (if b then ok [] else rest) ≡ ok segments
    → (segments ≡ []) ⊎ (rest ≡ ok segments)
past_top true rest segments h = inl (ground arith)
past_top false rest segments h = inr h

checked_ok :
    (o : Option String) (l segments : List Text)
    → checked o l ≡ ok segments
    → (o ≡ none) × (l ≡ segments)
checked_ok (some reason) l segments h = absurd (ground arith)
checked_ok none l segments h = (refl, ground arith)

-- The names that are let through, of names that were found.
abbrev IsPassed : List Text → List Text → Type 0
IsPassed found segments =
    (first_refusal segments ≡ none) × (length segments ≤ max_depth) × (segments ≡ found)

IsPassed-resolve_names :
    (found segments : List Text) → resolve_names found ≡ ok segments → IsPassed found segments
IsPassed-resolve_names found segments h =
    let (deep, rest) =
      past (ltb max_depth (length found)) "the path is too deep"
        (checked (first_refusal found) found) segments h in
    let (clean, e) = checked_ok (first_refusal found) found segments rest in
    let short : length found ≤ max_depth = ground (arith, deep) in
    subst (λ l. IsPassed found l) e (clean, short, refl)

IsPassed-resolve_relative :
    (raw : Text) (segments : List Text)
    → resolve_relative raw ≡ ok segments
    → IsPassed (named (split raw)) segments
IsPassed-resolve_relative raw segments h =
    let found = named (split raw) in
    let home =
      refuse_if (starts_with b'~' raw)
        "it starts at a home folder, and paths are relative to the top of the folder"
        (resolve_names found) in
    let root =
      refuse_if (starts_with b'/' raw)
        "it starts at a root, and paths are relative to the top of the folder" home in
    let past_drive =
      past (names_drive raw) "it names a drive, and paths are relative to the top of the folder"
        root segments h in
    let past_root =
      past (starts_with b'/' raw)
        "it starts at a root, and paths are relative to the top of the folder" home segments
        past_drive.1 in
    let past_home =
      past (starts_with b'~' raw)
        "it starts at a home folder, and paths are relative to the top of the folder"
        (resolve_names found) segments past_root.1 in
    IsPassed-resolve_names found segments past_home.1

-- What `resolve_raw` lets through is the top, or the names of the text.
resolve_raw_ok :
    (raw : Text) (segments : List Text)
    → resolve_raw raw ≡ ok segments
    → (segments ≡ []) ⊎ IsPassed (named (split raw)) segments
resolve_raw_ok raw segments h =
    let rest =
      past (ltb max_path_length (utf16_count raw)) "the path is too long"
        (if is_top raw then ok [] else resolve_relative raw) segments h in
    elim (past_top (is_top raw) (resolve_relative raw) segments rest.1) [
      | inl e ↦ inl e
      | inr relative ↦ inr (IsPassed-resolve_relative raw segments relative)
    ]

-- A path that is let through names at most 64 plain names: none is empty, `.` or `..`, none holds a
-- slash, a backslash, a colon or a control character, and none ends in a dot or a space.
pub resolve-IsPlain :
    (input : Text) (segments : List Text)
    → resolve input ≡ ok segments
    → (length segments ≤ max_depth) × All IsPlain segments
unfolding resolve
resolve-IsPlain input segments h =
    let t = trim_end (trim_start input) in
    elim (resolve_raw_ok (map slash t) segments h) [
      | inl e ↦ subst (λ l. (length l ≤ max_depth) × All IsPlain l) (sym e) (omega arith, tt)
      | inr (clean, short, e) ↦ (
        short,
        IsPlain-first_refusal segments
            (subst (λ l. All IsNamed l) (sym e)
              (IsNamed-named (split (map slash t)) (IsWhole-split (map slash t) (no_backslash t))))
            clean,
      )
    ]
