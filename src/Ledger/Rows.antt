-- ===== src/Ledger/Rows.antt =====
-- What a capped read of crates/app-server/src/ledger.rs sends.
use mathlib.Core.List.{append_assoc}
use vitna_code.Base.{
  ℕ, zero, suc, ◌+◌, ◌-◌, ◌≤◌, Bool, true, ◌≡◌, refl, sym, ap, ◌∙◌, subst, ◌⊎◌, inl, inr, [], ◌∷◌,
  ◌++◌, length, length-append, take, drop, take-drop, length-take, length-take_le, length-drop, ok,
  arith, ltb, nat_eq, Bool-cases,
}
use vitna_code.Bytes.{Bytes}
use vitna_code.Ledger.{file, row_end, early_of, rows_from, cap, as_text, read_capped}

-- The last byte is a newline.
abbrev pub EndsRow : Bytes → Type 0
EndsRow [] = ⊥
EndsRow (b ∷ []) = nat_eq b 10 ≡ true
EndsRow (b ∷ c ∷ bytes) = EndsRow (c ∷ bytes)

-- What is sent is a stretch of the file behind the bytes that are left out. It begins with a row, or
-- is empty.
abbrev pub IsTail : ℕ → Bytes → Bytes → ℕ → Type 0
IsTail max whole sent left_out =
    (before : Bytes) × ((after : Bytes) × ((whole ≡ before ++ (sent ++ after))
        × (length before ≡ left_out)
        × (length sent ≤ max)
        × ((before ≡ []) ⊎ (EndsRow before ⊎ (sent ≡ [])))))

EndsRow-append : (a b : Bytes) → EndsRow b → EndsRow (a ++ b)
EndsRow-append [] b e = e
EndsRow-append (x ∷ []) [] e = absurd e
EndsRow-append (x ∷ []) (y ∷ b) e = e
EndsRow-append (x ∷ z ∷ a) b e = EndsRow-append (z ∷ a) b e

row_end_le : (b : Bytes) → row_end b ≤ length b
row_end_le [] = omega arith
row_end_le (x ∷ b) = ground (arith, row_end_le b)

row_end_cuts : (b : Bytes) → EndsRow (take (row_end b) b) ⊎ (drop (row_end b) b ≡ [])
row_end_cuts [] = inr refl
row_end_cuts (x ∷ b) = elim (Bool-cases (nat_eq x 10)) [
  | inl e ↦ rw e (inl e)
  | inr e ↦ rw e (behind b (row_end_cuts b))
]
  where
    behind :
        (l : Bytes)
        → EndsRow (take (row_end l) l) ⊎ (drop (row_end l) l ≡ [])
        → EndsRow (x ∷ take (row_end l) l) ⊎ (drop (row_end l) l ≡ [])
    behind l (inl r) = inl (EndsRow-append (x ∷ []) (take (row_end l) l) r)
    behind l (inr r) = inr r

sent_bound : (max n : ℕ) (b : Bytes) → length b ≤ max + 1 → length (drop (row_end b) b) ≤ max
sent_bound max n [] h = omega arith
sent_bound max n (x ∷ b) h = elim (Bool-cases (nat_eq x 10)) [
  | inl e ↦ rw e (omega arith)
  | inr e ↦ rw e (omega (arith, length-drop (row_end b) b))
]

abbrev IsTailOf : ℕ → Bytes → Bytes × ℕ → Type 0
IsTailOf max whole (sent, left_out) = IsTail max whole sent left_out

abbrev read_early : ℕ → ℕ → Bytes → Bytes
read_early max n whole = take (max + 1) (drop n whole)

rows_from_early :
    (max n : ℕ) (whole : Bytes)
    → rows_from (suc n) (take (max + early_of (suc n)) (drop (suc n - early_of (suc n)) whole)) ≡ (
      drop (row_end (read_early max n whole)) (read_early max n whole),
      n + row_end (read_early max n whole),
    )
rows_from_early max n whole =
    let later : ltb 0 (suc n) ≡ true = ground arith in
    let back : suc n - 1 ≡ n = omega arith in
    let count : suc n + row_end (read_early max n whole) - 1
        ≡ n + row_end (read_early max n whole) =
      omega arith in
    rw later (
      rw back
        (ap (λ k. (drop (row_end (read_early max n whole)) (read_early max n whole), k)) count))

whole_split :
    (max n : ℕ) (whole : Bytes)
    → (take n whole ++ take (row_end (read_early max n whole)) (read_early max n whole))
        ++ (drop (row_end (read_early max n whole)) (read_early max n whole)
            ++ drop (max + 1) (drop n whole))
      ≡ whole
whole_split max n whole =
    let bytes = read_early max n whole in
    append_assoc (take n whole) (take (row_end bytes) bytes)
      (drop (row_end bytes) bytes ++ drop (max + 1) (drop n whole))
    ∙ (ap (λ l. take n whole ++ l)
          (sym (
            append_assoc (take (row_end bytes) bytes) (drop (row_end bytes) bytes)
              (drop (max + 1) (drop n whole))))
        ∙ (ap (λ l. take n whole ++ (l ++ drop (max + 1) (drop n whole)))
              (take-drop (row_end bytes) bytes)
            ∙ (ap (λ l. take n whole ++ l) (take-drop (max + 1) (drop n whole))
                ∙ take-drop n whole)))

early-IsTail :
    (max n : ℕ) (whole : Bytes)
    → suc n ≤ length whole
    → IsTail max whole
        (drop (row_end (read_early max n whole)) (read_early max n whole))
        (n + row_end (read_early max n whole))
early-IsTail max n whole h =
    let bytes = read_early max n whole in
    (
      take n whole ++ take (row_end bytes) bytes,
      (
        drop (max + 1) (drop n whole),
        (
          sym (whole_split max n whole),
          omega (
            arith,
            length-append (take n whole) (take (row_end bytes) bytes),
            length-take n whole (omega arith),
            length-take (row_end bytes) bytes (row_end_le bytes),
          ),
          sent_bound max 0 bytes (length-take_le (max + 1) (drop n whole)),
          inr (row_start (row_end_cuts bytes)),
        ),
      ),
    )
  where
    row_start :
        EndsRow (take (row_end (read_early max n whole)) (read_early max n whole))
          ⊎ (drop (row_end (read_early max n whole)) (read_early max n whole) ≡ [])
        → EndsRow (take n whole ++ take (row_end (read_early max n whole)) (read_early max n whole))
          ⊎ (drop (row_end (read_early max n whole)) (read_early max n whole) ≡ [])
    row_start (inl e) = inl (EndsRow-append (take n whole) _ e)
    row_start (inr e) = inr e

tail_from :
    (max start : ℕ) (whole : Bytes)
    → start ≤ length whole
    → IsTailOf max whole
        (rows_from start (take (max + early_of start) (drop (start - early_of start) whole)))
tail_from max zero whole h =
    let all : max + 0 ≡ max = omega arith in
    (
      [],
      (
        drop max whole,
        (rw all (sym (take-drop max whole)), refl, rw all (length-take_le max whole), inl refl),
      ),
    )
tail_from max (suc n) whole h =
    subst (IsTailOf max whole) (sym (rows_from_early max n whole)) (early-IsTail max n whole h)

as_text_ok :
    (is_utf8 : Bytes → Bool) (p : Bytes × ℕ) (sent : Bytes) (left_out : ℕ)
    → as_text is_utf8 p ≡ ok (sent, left_out)
    → p ≡ (sent, left_out)
as_text_ok is_utf8 (bytes, n) sent left_out y = elim (Bool-cases (is_utf8 bytes)) [
  | inl e ↦ let got = rw e at y in cc
  | inr e ↦ absurd (let got = rw e at y in cc)
]

-- What is sent of a ledger is a stretch of it of at most the cap. It begins at the ledger's start or
-- right behind a newline, so no row is sent without its beginning, and the bytes before it are
-- counted as left out.
pub read_capped-IsTail :
    (is_utf8 : Bytes → Bool) (content appended : Bytes) (max : ℕ) (sent : Bytes) (left_out : ℕ)
    → read_capped is_utf8 (file content appended) max ≡ ok (sent, left_out)
    → IsTail max (content ++ appended) sent left_out
unfolding read_capped
read_capped-IsTail is_utf8 content appended max sent left_out y =
    subst (IsTailOf max (content ++ appended))
      (as_text_ok is_utf8 (cap max content appended) sent left_out y)
      (tail_from max (length content - max) (content ++ appended)
        (omega (arith, length-append content appended)))
