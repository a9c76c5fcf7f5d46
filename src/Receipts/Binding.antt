-- ===== src/Receipts/Binding.antt =====
-- What the Merkle root of crates/receipts/src/lib.rs binds: the event hashes, given how many there
-- are; and what it does not: whether the last hash stands there twice.
use vitna_code.Base.{
  ℕ, zero, suc, ◌*◌, String, some, List, [], ◌∷◌, ◌++◌, map, length, length-map, length-append, ◌≡◌,
  ◌≢◌, refl, ◌≤◌, ◌<◌, arith, ap, sym, subst, ◌∙◌, ◌⊎◌, inl, inr, All,
}
use native.Mathlib.Decide.{ℕ_discrete}
use vitna_code.Bytes.{Bytes}
use vitna_code.Store.{Crypto}
use vitna_code.Receipts.Merkle.{
  next_level, reduce, leaf, compute_event_merkle_root, length-next_level,
}

length-next_level_ge :
    (sha256 : Bytes → Bytes) (l : List Bytes) → length l ≤ 2 * length (next_level sha256 l)
unfolding next_level
length-next_level_ge sha256 [] = omega arith
length-next_level_ge sha256 (a ∷ []) = omega arith
length-next_level_ge sha256 (a ∷ b ∷ rest) = omega (arith, length-next_level_ge sha256 rest)

reduce_total :
    (sha256 : Bytes → Bytes) (f : ℕ) (l : List Bytes)
    → 0 < length l
    → length l ≤ f
    → (r : Bytes) × (reduce sha256 f l ≡ some r)
unfolding reduce
reduce_total sha256 zero l p h = absurd (omega arith)
reduce_total sha256 (suc f) [] p h = absurd (omega arith)
reduce_total sha256 (suc f) (a ∷ []) p h = (a, refl)
reduce_total sha256 (suc f) (a ∷ b ∷ rest) p h =
    reduce_total sha256 f (next_level sha256 (a ∷ b ∷ rest))
      (omega (arith, length-next_level_ge sha256 (a ∷ b ∷ rest)))
      (omega (arith, length-next_level sha256 (a ∷ b ∷ rest)))

compute_root :
    (c : Crypto) (h : String) (hs : List String) (root : Bytes)
    → reduce c.sha256 (suc (length hs)) (map (leaf c) (h ∷ hs)) ≡ some root
    → compute_event_merkle_root c (h ∷ hs) ≡ some (c.hex_encode root)
unfolding compute_event_merkle_root
compute_root c h hs root e = ground arith

-- The root is always computed.
pub merkle_root_total :
    (c : Crypto) (hashes : List String)
    → (r : String) × (compute_event_merkle_root c hashes ≡ some r)
unfolding compute_event_merkle_root
merkle_root_total c [] = (_, refl)
merkle_root_total c (h ∷ hashes) =
    let (root, p) =
      reduce_total c.sha256 (suc (length hashes)) (map (leaf c) (h ∷ hashes)) (omega arith)
        (omega (arith, length-map hashes (leaf c))) in
    (c.hex_encode root, ground arith)

reduce-suc :
    (sha256 : Bytes → Bytes) (f : ℕ) (l : List Bytes) (r : Bytes)
    → reduce sha256 f l ≡ some r
    → reduce sha256 (suc f) l ≡ some r
unfolding reduce
reduce-suc sha256 zero l r h = absurd (cc)
reduce-suc sha256 (suc f) [] r h = absurd (cc)
reduce-suc sha256 (suc f) (a ∷ []) r h = h
reduce-suc sha256 (suc f) (a ∷ b ∷ rest) r h =
    reduce-suc sha256 f (next_level sha256 (a ∷ b ∷ rest)) r h

-- An even number of items.
abbrev pub IsPaired {ℓ} : {A : Type ℓ} → List A → Type 0
IsPaired [] = Unit
IsPaired (a ∷ []) = ⊥
IsPaired (a ∷ b ∷ rest) = IsPaired rest

next_level_repeat :
    (c : Crypto) (hs : List String) (h : String)
    → IsPaired hs
    → next_level c.sha256 (map (leaf c) (hs ++ h ∷ []))
      ≡ next_level c.sha256 (map (leaf c) (hs ++ h ∷ h ∷ []))
unfolding next_level
next_level_repeat c [] h p = refl
next_level_repeat c (a ∷ []) h p = absurd p
next_level_repeat c (a ∷ b ∷ hs) h p = rw (next_level_repeat c hs h p)

-- After an even number of event hashes, but at least two, one last hash and that hash twice have
-- the same root.
merkle_root_repeat :
    (c : Crypto) (a b : String) (hs : List String) (h : String)
    → IsPaired hs
    → compute_event_merkle_root c (a ∷ b ∷ (hs ++ h ∷ []))
      ≡ compute_event_merkle_root c (a ∷ b ∷ (hs ++ h ∷ h ∷ []))
unfolding reduce
merkle_root_repeat c a b hs h p =
    let one = map (leaf c) (a ∷ b ∷ (hs ++ h ∷ [])) in
    let two = map (leaf c) (a ∷ b ∷ (hs ++ h ∷ h ∷ [])) in
    let same : next_level c.sha256 one ≡ next_level c.sha256 two =
      next_level_repeat c (a ∷ b ∷ hs) h p in
    let f = suc (length (hs ++ h ∷ [])) in
    let longer : suc (length (hs ++ h ∷ h ∷ [])) ≡ suc f =
      omega (arith, length-append hs (h ∷ []), length-append hs (h ∷ h ∷ [])) in
    let (root, e) =
      reduce_total c.sha256 f (next_level c.sha256 one)
        (omega (arith, length-next_level_ge c.sha256 one))
        (omega (arith, length-next_level c.sha256 one, length-map (hs ++ h ∷ []) (leaf c))) in
    let e' : reduce c.sha256 (suc (length (hs ++ h ∷ h ∷ []))) (next_level c.sha256 two)
        ≡ some root =
      subst (λ n. reduce c.sha256 n (next_level c.sha256 two) ≡ some root) (sym longer)
        (subst (λ l. reduce c.sha256 (suc f) l ≡ some root) same
          (reduce-suc c.sha256 f (next_level c.sha256 one) root e)) in
    compute_root c a (b ∷ (hs ++ h ∷ [])) root e
    ∙ sym (compute_root c a (b ∷ (hs ++ h ∷ h ∷ [])) root e')

append_split : (a a' b b' : Bytes) → length a ≡ length a' → a ++ b ≡ a' ++ b' → (a ≡ a') × (b ≡ b')
append_split [] [] b b' l e = (refl, e)
append_split [] (x ∷ a') b b' l e = absurd (omega arith)
append_split (x ∷ a) [] b b' l e = absurd (omega arith)
append_split (x ∷ a) (y ∷ a') b b' l e = ground (arith, append_split a a' b b')

-- Two byte strings with one digest.
pub record Collision (sha256 : Bytes → Bytes) : Type 0 where
  pub left : Bytes
  pub right : Bytes
  pub differ : left ≢ right
  pub same : sha256 left ≡ sha256 right

Bytes-discrete : Discrete Bytes
Bytes-discrete = hlevel ℕ_discrete

abbrev Is32 : Bytes → Type 0
Is32 b = length b ≡ 32

module _ (sha256 : Bytes → Bytes) (digest_length : (b : Bytes) → length (sha256 b) ≡ 32) where
  pair_bound :
      (a b a' b' : Bytes)
      → length a ≡ length a'
      → sha256 (a ++ b) ≡ sha256 (a' ++ b')
      → ((a ≡ a') × (b ≡ b')) ⊎ Collision sha256
  pair_bound a b a' b' l e = elim (Bytes-discrete (a ++ b) (a' ++ b')) [
    | yes p ↦ inl (append_split a a' b b' l p)
    | no p ↦ inr (record { left = a ++ b; right = a' ++ b'; differ = p; same = e })
  ]

  next_level_bound :
      (xs ys : List Bytes)
      → length xs ≡ length ys
      → All Is32 xs
      → All Is32 ys
      → next_level sha256 xs ≡ next_level sha256 ys
      → (xs ≡ ys) ⊎ Collision sha256
  unfolding next_level
  next_level_bound [] [] l hx hy e = inl refl
  next_level_bound [] (y ∷ ys) l hx hy e = absurd (omega arith)
  next_level_bound (x ∷ xs) [] l hx hy e = absurd (omega arith)
  next_level_bound (x ∷ []) (y ∷ []) l hx hy e =
      elim (pair_bound x x y y (hx.0 ∙ sym hy.0) (ground arith)) [
        | inl p ↦ inl (ap (λ b. b ∷ []) p.0)
        | inr k ↦ inr k
      ]
  next_level_bound (x ∷ []) (y ∷ y' ∷ ys) l hx hy e = absurd (omega arith)
  next_level_bound (x ∷ x' ∷ xs) (y ∷ []) l hx hy e = absurd (omega arith)
  next_level_bound (x ∷ x' ∷ xs) (y ∷ y' ∷ ys) l hx hy e =
      elim (pair_bound x x' y y' (hx.0 ∙ sym hy.0) (ground arith)) [
        | inr k ↦ inr k
        | inl p ↦ elim (next_level_bound xs ys (omega arith) hx.1.1 hy.1.1 (ground arith)) [
          | inr k ↦ inr k
          | inl q ↦ inl (ground (arith, p, q))
        ]
      ]

  Is32-next_level : (l : List Bytes) → All Is32 (next_level sha256 l)
  unfolding next_level
  Is32-next_level [] = tt
  Is32-next_level (a ∷ []) = (digest_length (a ++ a), tt)
  Is32-next_level (a ∷ b ∷ rest) = (digest_length (a ++ b), Is32-next_level rest)

  length-next_level_same :
      (xs ys : List Bytes)
      → length xs ≡ length ys
      → length (next_level sha256 xs) ≡ length (next_level sha256 ys)
  length-next_level_same xs ys l = omega (
    arith,
    length-next_level sha256 xs,
    length-next_level sha256 ys,
    length-next_level_ge sha256 xs,
    length-next_level_ge sha256 ys,
  )

  reduce_bound :
      (f : ℕ) (xs ys : List Bytes) (r : Bytes)
      → length xs ≡ length ys
      → All Is32 xs
      → All Is32 ys
      → reduce sha256 f xs ≡ some r
      → reduce sha256 f ys ≡ some r
      → (xs ≡ ys) ⊎ Collision sha256
  unfolding reduce
  reduce_bound zero xs ys r l hx hy ex ey = absurd (cc)
  reduce_bound (suc f) [] ys r l hx hy ex ey = absurd (cc)
  reduce_bound (suc f) (x ∷ []) [] r l hx hy ex ey = absurd (omega arith)
  reduce_bound (suc f) (x ∷ x' ∷ xs) [] r l hx hy ex ey = absurd (omega arith)
  reduce_bound (suc f) (x ∷ []) (y ∷ []) r l hx hy ex ey = inl (ground arith)
  reduce_bound (suc f) (x ∷ []) (y ∷ y' ∷ ys) r l hx hy ex ey = absurd (omega arith)
  reduce_bound (suc f) (x ∷ x' ∷ xs) (y ∷ []) r l hx hy ex ey = absurd (omega arith)
  reduce_bound (suc f) (x ∷ x' ∷ xs) (y ∷ y' ∷ ys) r l hx hy ex ey =
      elim (reduce_bound f (next_level sha256 (x ∷ x' ∷ xs)) (next_level sha256 (y ∷ y' ∷ ys)) r
        (length-next_level_same (x ∷ x' ∷ xs) (y ∷ y' ∷ ys) l) (Is32-next_level (x ∷ x' ∷ xs))
        (Is32-next_level (y ∷ y' ∷ ys)) ex ey) [
          | inl e ↦ next_level_bound (x ∷ x' ∷ xs) (y ∷ y' ∷ ys) l hx hy e
          | inr k ↦ inr k
        ]

-- With a digest of 32 bytes and a hex print that tells bytes apart: two lists of as many event
-- hashes, each of 32 bytes, that have one root are the same hashes, or SHA-256 has a collision.
pub merkle_root_binds :
    (c : Crypto) (xs ys : List String) (r : String)
    → ((b : Bytes) → length (c.sha256 b) ≡ 32)
    → ((a b : Bytes) → c.hex_encode a ≡ c.hex_encode b → a ≡ b)
    → length xs ≡ length ys
    → All (λ b. length b ≡ 32) (map (leaf c) xs)
    → All (λ b. length b ≡ 32) (map (leaf c) ys)
    → compute_event_merkle_root c xs ≡ some r
    → compute_event_merkle_root c ys ≡ some r
    → (map (leaf c) xs ≡ map (leaf c) ys) ⊎ Collision c.sha256
unfolding compute_event_merkle_root
merkle_root_binds c [] [] r dl hx l ax ay ex ey = inl refl
merkle_root_binds c [] (y ∷ ys) r dl hx l ax ay ex ey = absurd (omega arith)
merkle_root_binds c (x ∷ xs) [] r dl hx l ax ay ex ey = absurd (omega arith)
merkle_root_binds c (x ∷ xs) (y ∷ ys) r dl hx l ax ay ex ey =
    let ls = map (leaf c) (x ∷ xs) in
    let rs = map (leaf c) (y ∷ ys) in
    let f = suc (length xs) in
    let (p, ep) =
      reduce_total c.sha256 f ls (omega arith) (omega (arith, length-map xs (leaf c))) in
    let (q, eq) =
      reduce_total c.sha256 f rs (omega arith) (omega (arith, length-map ys (leaf c))) in
    let lengths : suc (length ys) ≡ f = omega arith in
    let eq' = subst (λ n. reduce c.sha256 n rs ≡ some q) (sym lengths) eq in
    let same : q ≡ p =
      hx q p (ground (arith, compute_root c x xs p ep, compute_root c y ys q eq')) in
    reduce_bound c.sha256 dl f ls rs p
      (omega (arith, length-map xs (leaf c), length-map ys (leaf c))) ax ay ep (eq ∙ ap some same)
