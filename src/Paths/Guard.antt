-- ===== src/Paths/Guard.antt =====
-- Which paths crates/app-server/src/paths.rs lets a page reach: those that `resolve` lets through and
-- `guarded` keeps nothing of.
use vitna_code.Base.{
  false, ◌≡◌, refl, Option, none, some, List, [], ◌∷◌, ◌↔◌, All, Bool-cases, inl, inr,
}
use vitna_code.Paths.{
  Text, skipped, member, holds_secret, first_skipped, last_guard, or_last, guarded,
}

module _ (to_lowercase : Text → Text) where
  -- No name, at any depth and in any case, is one of the folders that are never read.
  abbrev pub AvoidsSkipped : List Text → Type 0
  AvoidsSkipped segments = All (λ s. member skipped (to_lowercase s) ≡ false) segments

  -- The last name is not one that usually holds a secret.
  abbrev pub EndsOpen : List Text → Type 0
  EndsOpen [] = Unit {0}
  EndsOpen (s ∷ []) = holds_secret to_lowercase s ≡ false
  EndsOpen (s ∷ t ∷ more) = EndsOpen (t ∷ more)

  first_skipped_iff :
      (segments : List Text) → (first_skipped to_lowercase segments ≡ none) ↔ AvoidsSkipped segments
  first_skipped_iff [] = (λ _. tt, λ _. refl)
  first_skipped_iff (s ∷ more) =
      let (to, from) = first_skipped_iff more in
      elim (Bool-cases (member skipped (to_lowercase s))) [
        | inl e ↦ rw e (λ h. absurd (cc), λ h. absurd (cc))
        | inr e ↦ rw e (λ h. (refl, to h), λ h. from h.1)
      ]

  last_guard_iff :
      (segments : List Text) → (last_guard to_lowercase segments ≡ none) ↔ EndsOpen segments
  last_guard_iff [] = (λ _. tt, λ _. refl)
  last_guard_iff (s ∷ []) = elim (Bool-cases (holds_secret to_lowercase s)) [
    | inl e ↦ rw e (λ h. absurd (cc), λ h. absurd (cc))
    | inr e ↦ rw e (λ h. refl, λ h. refl)
  ]
  last_guard_iff (s ∷ t ∷ more) = last_guard_iff (t ∷ more)

  or_last_iff :
      (x : Option Text) (segments : List Text)
      → (or_last to_lowercase x segments ≡ none)
        ↔ ((x ≡ none) × (last_guard to_lowercase segments ≡ none))
  or_last_iff (some r) segments = (λ h. absurd (cc), λ h. absurd (let gone = h.0 in cc))
  or_last_iff none segments = (λ h. (refl, h), λ h. h.1)

-- A path is kept away from exactly where one of its names, in any case, is a folder that is never
-- read, or the last one usually holds a secret.
guarded-none_iff :
    (to_lowercase : Text → Text) (segments : List Text)
    → (guarded to_lowercase segments ≡ none)
      ↔ (AvoidsSkipped to_lowercase segments × EndsOpen to_lowercase segments)
unfolding guarded
guarded-none_iff to_lowercase segments =
    let (a, b) = or_last_iff to_lowercase (first_skipped to_lowercase segments) segments in
    let (c, d) = first_skipped_iff to_lowercase segments in
    let (e, f) = last_guard_iff to_lowercase segments in
    (λ h. (c (a h).0, e (a h).1), λ h. b (d h.0, f h.1))
