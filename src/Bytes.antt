-- ===== src/Bytes.antt =====
-- Byte strings: `str::as_bytes`, `u64::to_string` and `windows(n).any(..)` of the standard library,
-- as crates/store/src/lib.rs and crates/receipts/src/lib.rs use them.
pub mod Decimal
pub mod Split
use Prim.Native.Char.{code}
use vitna_code.Base.{
  ℕ, zero, suc, ◌+◌, ◌/◌, ◌%◌, String, Bool, true, false, ◌&&◌, ◌||◌, List, [], ◌∷◌, ◌++◌, nat_eq,
  ltb, if◌then◌else◌,
}

abbrev pub Bytes : Type 0
Bytes = List ℕ

-- The UTF-8 bytes of one character.
abbrev pub utf8 : ℕ → Bytes
utf8 c =
    if ltb c 0x80
    then c ∷ []
    else if ltb c 0x800
    then (0xc0 + c / 0x40) ∷ (0x80 + c % 0x40) ∷ []
    else if ltb c 0x10000
    then (0xe0 + c / 0x1000) ∷ (0x80 + c / 0x40 % 0x40) ∷ (0x80 + c % 0x40) ∷ []
    else (0xf0 + c / 0x40000)
      ∷ (0x80 + c / 0x1000 % 0x40)
      ∷ (0x80 + c / 0x40 % 0x40)
      ∷ (0x80 + c % 0x40)
      ∷ []

unfoldable pub as_bytes : String → Bytes
as_bytes String.[] = []
as_bytes (String.◌∷◌ c s) = utf8 (code c) ++ as_bytes s

-- The digits of a number in front of `out`, on fuel.
unfoldable pub emit : ℕ → ℕ → Bytes → Bytes
emit zero n out = out
emit (suc fuel) n out =
    let out' = (48 + n % 10) ∷ out in
    let more = emit fuel (n / 10) out' in if nat_eq (n / 10) 0 then out' else more

-- A `u64` has at most 20 digits.
unfoldable pub decimal : ℕ → Bytes
unfolding emit
decimal n = emit 20 n []

abbrev pub has_prefix : Bytes → Bytes → Bool
has_prefix [] b = true
has_prefix (x ∷ w) [] = false
has_prefix (x ∷ w) (y ∷ b) = nat_eq x y && has_prefix w b

-- Some window of `b` is the non-empty `w`; for texts, `contains`.
unfoldable pub has_window : Bytes → Bytes → Bool
has_window w [] = false
has_window w (y ∷ b) = has_prefix w (y ∷ b) || has_window w b
