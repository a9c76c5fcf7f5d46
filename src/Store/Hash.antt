-- ===== src/Store/Hash.antt =====
-- What `calculate_hash` of crates/store/src/lib.rs binds, and what it does not.
use Prim.Native.String.{◌++◌ as str_append}
use Prim.Native.String.append
use mathlib.Core.List.{append_assoc}
use vitna_code.Base.{ℕ, ◌^◌, ◌<◌, String, ◌≡◌, refl, ap, ◌∙◌, [], ◌∷◌, ◌++◌, arith, All}
use vitna_code.Bytes.{Bytes, as_bytes, decimal}
use vitna_code.Bytes.Decimal.{decimal_inj, IsDigits-decimal}
use vitna_code.Bytes.Split.{Lacks, split_field}
use vitna_code.Store.{Crypto, preimage, calculate_hash}

Lacks-of_digits : (b : Bytes) → All (λ c. c < 58) b → Lacks b':' b
Lacks-of_digits [] a = tt
Lacks-of_digits (c ∷ b) a = (λ e. omega arith, Lacks-of_digits b a.1)

Lacks-decimal : (n : ℕ) → Lacks b':' (decimal n)
Lacks-decimal n = Lacks-of_digits (decimal n) (IsDigits-decimal n)

-- Two events whose previous hashes, runs and types hold no colon are fed to the hasher as the same
-- bytes only if they agree in the previous hash, the run, the sequence, the type, the time and the
-- digest of the payload.
pub preimage_inj :
    (c : Crypto) (p p' r r' : String) (n n' : ℕ) (t t' : String) (m m' : ℕ) (b b' : Bytes)
    → Lacks b':' (as_bytes p)
    → Lacks b':' (as_bytes p')
    → Lacks b':' (as_bytes r)
    → Lacks b':' (as_bytes r')
    → Lacks b':' (as_bytes t)
    → Lacks b':' (as_bytes t')
    → n < 2 ^ 64
    → n' < 2 ^ 64
    → m < 2 ^ 64
    → m' < 2 ^ 64
    → preimage c p r n t m b ≡ preimage c p' r' n' t' m' b'
    → (as_bytes p ≡ as_bytes p')
      × (as_bytes r ≡ as_bytes r')
      × (n ≡ n')
      × (as_bytes t ≡ as_bytes t')
      × (m ≡ m')
      × (as_bytes (c.hex_encode (c.sha256 b)) ≡ as_bytes (c.hex_encode (c.sha256 b')))
unfolding preimage
preimage_inj c p p' r r' n n' t t' m m' b b' lp lp' lr lr' lt lt' fn fn' fm fm' e =
    let (ep, e1) = split_field b':' (as_bytes p) (as_bytes p') _ _ lp lp' e in
    let (er, e2) = split_field b':' (as_bytes r) (as_bytes r') _ _ lr lr' e1 in
    let (en, e3) =
      split_field b':' (decimal n) (decimal n') _ _ (Lacks-decimal n) (Lacks-decimal n') e2 in
    let (et, e4) = split_field b':' (as_bytes t) (as_bytes t') _ _ lt lt' e3 in
    let (em, e5) =
      split_field b':' (decimal m) (decimal m') _ _ (Lacks-decimal m) (Lacks-decimal m') e4 in
    (ep, er, decimal_inj n n' fn fn' en, et, decimal_inj m m' fm fm' em, e5)

pub as_bytes-append : (s t : String) → as_bytes (str_append s t) ≡ as_bytes s ++ as_bytes t
unfolding as_bytes
as_bytes-append String.[] t = rw append.nil
as_bytes-append (String.◌∷◌ c s) t =
    rw (append.cons c s t) (simp (as_bytes-append s t, append_assoc))

as_bytes-colon : as_bytes ":" ≡ b':' ∷ []
unfolding as_bytes
as_bytes-colon = refl

regroup :
    (r dn dk t rest : Bytes)
    → (r ++ (b':' ∷ [] ++ dn)) ++ b':' ∷ (dk ++ b':' ∷ (t ++ rest))
      ≡ r ++ b':' ∷ (dn ++ b':' ∷ ((dk ++ (b':' ∷ [] ++ t)) ++ rest))
regroup r dn dk t rest = simp append_assoc

-- The separators do not tell the fields apart where a text holds a colon: a run `r:n` at sequence
-- `k` with type `t` has the hash of the run `r` at sequence `n` with type `k:t`.
pub calculate_hash_shift :
    (c : Crypto) (p r t digits_n digits_k : String) (n k m : ℕ) (b : Bytes)
    → as_bytes digits_n ≡ decimal n
    → as_bytes digits_k ≡ decimal k
    → calculate_hash c p (str_append r (str_append ":" digits_n)) k t m b
      ≡ calculate_hash c p r n (str_append digits_k (str_append ":" t)) m b
unfolding calculate_hash preimage
calculate_hash_shift c p r t dn dk n k m b en ek =
    ap (λ x. c.hex_encode (c.sha256 (as_bytes p ++ b':' ∷ x))) same
  where
    rest : Bytes
    rest = b':' ∷ (decimal m ++ b':' ∷ as_bytes (c.hex_encode (c.sha256 b)))

    joined :
        (x y : String)
        → as_bytes (str_append x (str_append ":" y)) ≡ as_bytes x ++ (b':' ∷ [] ++ as_bytes y)
    joined x y =
        as_bytes-append x (str_append ":" y)
        ∙ ap (λ z. as_bytes x ++ z)
            (as_bytes-append ":" y ∙ ap (λ z. z ++ as_bytes y) as_bytes-colon)

    same :
        as_bytes (str_append r (str_append ":" dn))
          ++ b':' ∷ (decimal k ++ b':' ∷ (as_bytes t ++ rest))
        ≡ as_bytes r
          ++ b':' ∷ (decimal n ++ b':' ∷ (as_bytes (str_append dk (str_append ":" t)) ++ rest))
    same =
        rw (joined r dn, joined dk t, en, ek)
          (regroup (as_bytes r) (decimal n) (decimal k) (as_bytes t) rest)
