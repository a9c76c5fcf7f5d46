-- ===== src/Base/Print.antt =====
-- `u64::to_string` and `[String]::join`, as texts.
use Prim.Native.Nat.{ℕ, zero, suc, ◌/◌, ◌%◌}
use Prim.Native.String.{String, ◌++◌ as str_append, char_at}
use mathlib.Core.List.{List, [], ◌∷◌}
use vitna_code.Base.Tests.{nat_eq, if◌then◌else◌}

abbrev digits : ℕ → ℕ → String → String
digits zero n out = out
digits (suc fuel) n out =
    let out' = String.◌∷◌ (char_at "0123456789" (n % 10)) out in
    let more = digits fuel (n / 10) out' in if nat_eq (n / 10) 0 then out' else more

-- A `u64` has at most 20 digits.
unfoldable pub to_string : ℕ → String
to_string n = digits 20 n ""

abbrev pub join : String → List String → String
join sep [] = ""
join sep (x ∷ []) = x
join sep (x ∷ y ∷ rest) = str_append x (str_append sep (join sep (y ∷ rest)))
