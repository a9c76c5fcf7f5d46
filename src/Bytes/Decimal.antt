-- ===== src/Bytes/Decimal.antt =====
-- The decimal print of a `u64` can be read back, and holds digits only.
use native.Mathlib.Nat.{pow-suc}
use vitna_code.Base.{
  ℕ, zero, suc, ◌+◌, ◌-◌, ◌*◌, ◌/◌, ◌%◌, ◌^◌, ◌<◌, ◌≡◌, ap, sym, ◌∙◌, [], ◌∷◌, arith, nat_eq, All,
  Bool-cases, inl, inr,
}
use vitna_code.Bytes.{Bytes, emit, decimal}

scan : Bytes → ℕ → ℕ
scan [] n = n
scan (c ∷ out) n = scan out (n * 10 + (c - 48))

scan-emit : (f n : ℕ) (out : Bytes) → n < 10 ^ f → scan (emit f n out) 0 ≡ scan out n
unfolding scan emit
scan-emit zero n out h = let z : n ≡ 0 = omega arith in rw z
scan-emit (suc f) n out h = elim (Bool-cases (nat_eq (n / 10) 0)) [
  | inl e ↦ let small : 0 + (48 + n % 10 - 48) ≡ n = ground arith in rw e (ap (scan out) small)
  | inr e ↦
      let back : n / 10 * 10 + (48 + n % 10 - 48) ≡ n = omega arith in
      rw e (
        scan-emit f (n / 10) ((48 + n % 10) ∷ out) (omega (arith, pow-suc 10 f))
        ∙ ap (scan out) back)
]

-- Two numbers of 64 bits with one print are equal.
pub decimal_inj : (m n : ℕ) → m < 2 ^ 64 → n < 2 ^ 64 → decimal m ≡ decimal n → m ≡ n
unfolding decimal scan
decimal_inj m n hm hn e =
    sym (scan-emit 20 m [] (omega arith)) ∙ ap (λ b. scan b 0) e ∙ scan-emit 20 n [] (omega arith)

IsDigits-emit : (f n : ℕ) (out : Bytes) → All (λ c. c < 58) out → All (λ c. c < 58) (emit f n out)
unfolding emit
IsDigits-emit zero n out a = a
IsDigits-emit (suc f) n out a =
    let more = IsDigits-emit f (n / 10) ((48 + n % 10) ∷ out) (omega arith, a) in
    elim (Bool-cases (nat_eq (n / 10) 0)) [ inl e ↦ rw e (omega arith, a) | inr e ↦ rw e more ]

-- Every byte of a print is below `:`.
pub IsDigits-decimal : (n : ℕ) → All (λ c. c < 58) (decimal n)
unfolding decimal
IsDigits-decimal n = IsDigits-emit 20 n [] tt
