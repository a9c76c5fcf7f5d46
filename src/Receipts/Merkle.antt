-- ===== src/Receipts/Merkle.antt =====
-- `compute_event_merkle_root` of crates/receipts/src/lib.rs.
use vitna_code.Base.{
  ℕ, zero, suc, ◌+◌, String, Option, none, some, List, [], ◌∷◌, ◌++◌, map, length, ◌≤◌, arith, ◌*◌,
}
use vitna_code.Bytes.{Bytes}
use vitna_code.Store.{Crypto, genesis_hash}

abbrev pub zeros : ℕ → Bytes
zeros zero = []
zeros (suc n) = 0 ∷ zeros n

-- One round over the chunks of two; a last chunk of one is hashed with itself.
unfoldable pub next_level : (Bytes → Bytes) → List Bytes → List Bytes
next_level sha256 [] = []
next_level sha256 (a ∷ []) = sha256 (a ++ a) ∷ []
next_level sha256 (a ∷ b ∷ rest) = sha256 (a ++ b) ∷ next_level sha256 rest

-- The `while` loop, on fuel; `none` means that the fuel ran out.
unfoldable pub reduce : (Bytes → Bytes) → ℕ → List Bytes → Option Bytes
reduce sha256 zero level = none
reduce sha256 (suc fuel) [] = none
reduce sha256 (suc fuel) (a ∷ []) = some a
reduce sha256 (suc fuel) (a ∷ b ∷ rest) = reduce sha256 fuel (next_level sha256 (a ∷ b ∷ rest))

-- `hex::decode(h).unwrap_or_else(|_| vec![0u8; 32])`
abbrev pub leaf : Crypto → String → Bytes
leaf c h = elim (c.hex_decode h) [ none ↦ zeros 32 | some b ↦ b ]

-- A level shrinks in each round, so as many rounds as there are hashes are enough fuel.
unfoldable pub compute_event_merkle_root : Crypto → List String → Option String
compute_event_merkle_root c [] = some genesis_hash
compute_event_merkle_root c (h ∷ hashes) =
    elim (reduce c.sha256 (suc (length hashes)) (map (leaf c) (h ∷ hashes))) [
      | none ↦ none
      | some root ↦ some (c.hex_encode root)
    ]

pub length-next_level :
    (sha256 : Bytes → Bytes) (l : List Bytes) → 2 * length (next_level sha256 l) ≤ length l + 1
unfolding next_level
length-next_level sha256 [] = omega arith
length-next_level sha256 (a ∷ []) = omega arith
length-next_level sha256 (a ∷ b ∷ rest) = omega (arith, length-next_level sha256 rest)
