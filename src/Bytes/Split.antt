-- ===== src/Bytes/Split.antt =====
-- Fields joined by a separator can be told apart where they hold no separator.
use vitna_code.Base.{ℕ, ◌≡◌, [], ◌∷◌, ◌++◌, arith, All, ◌≢◌}
use vitna_code.Bytes.{Bytes}

-- No byte is the separator.
abbrev pub Lacks : ℕ → Bytes → Type 0
Lacks sep b = All (λ c. c ≢ sep) b

pub split_field :
    (sep : ℕ) (x y r s : Bytes)
    → Lacks sep x
    → Lacks sep y
    → x ++ sep ∷ r ≡ y ++ sep ∷ s
    → (x ≡ y) × (r ≡ s)
split_field sep [] [] r s hx hy e = ground arith
split_field sep [] (b ∷ y) r s hx hy e = absurd (ground (arith, hy.0))
split_field sep (a ∷ x) [] r s hx hy e = absurd (ground (arith, hx.0))
split_field sep (a ∷ x) (b ∷ y) r s hx hy e = ground (arith, split_field sep x y r s hx.1 hy.1)
