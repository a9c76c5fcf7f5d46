-- ===== src/Base/Steps.antt =====
-- Code that changes a state and may fail: the state after a failure is the one it failed in, and a
-- triple says what holds before, after a result and after a failure.
use Prim.Native.String.{String}
use mathlib.Core.Path.{◌≡◌, refl}
use mathlib.Core.Bool.{Bool, true, false}
use vitna_code.Base.Tests.{if◌then◌else◌}
use vitna_code.Base.Outcome.{Result, ok, err}

abbrev pub Step : Type 0 → Type 0 → Type 0
Step S A = S → S × Result String A

module _ {S : Type 0} where
  abbrev pub next : {A B : Type 0} → S × Result String A → (A → Step S B) → S × Result String B
  next (s, ok a) f = f a s
  next (s, err e) f = (s, err e)

  infixl 5 ◌>>=◌
  abbrev pub ◌>>=◌ : {A B : Type 0} → Step S A → (A → Step S B) → Step S B
  (m >>= f) s = next (m s) f

  infixl 5 ◌>>◌
  abbrev pub ◌>>◌ : {A B : Type 0} → Step S A → Step S B → Step S B
  (m >> n) s = next (m s) (λ _. n)

  abbrev pub done : {A : Type 0} → A → Step S A
  done a s = (s, ok a)

  abbrev pub fail : {A : Type 0} → String → Step S A
  fail e s = (s, err e)

  abbrev pub get : Step S S
  get s = (s, ok s)

  abbrev pub modify : (S → S) → Step S (Unit {0})
  modify f s = (f s, ok tt)

  -- A result that is already there.
  abbrev pub lift : {A : Type 0} → Result String A → Step S A
  lift (ok a) s = (s, ok a)
  lift (err e) s = (s, err e)

  abbrev pub After : {A : Type 0} → (A → S → Type 0) → (S → Type 0) → S × Result String A → Type 0
  After Q E (s, ok a) = Q a s
  After Q E (s, err e) = E s

  -- What holds of a run from a state of `P`.
  pub record Triple {A : Type 0} (P : S → Type 0) (m : Step S A) (Q : A → S → Type 0)
      (E : S → Type 0) : Type 0 where
    pub holds : (s : S) → P s → After Q E (m s)

  pub next-After :
      {A B : Type 0}
      → (r : S × Result String A) (f : A → Step S B) (P : A → S → Type 0) (Q : B → S → Type 0)
        (E : S → Type 0)
      → After P E r
      → ((a : A) (s : S) → P a s → After Q E (f a s))
      → After Q E (next r f)
  next-After (s, ok a) f P Q E h k = k a s h
  next-After (s, err e) f P Q E h k = h

  next-Triple :
      {A B : Type 0}
      → (r : S × Result String A) (f : A → Step S B) (P : A → S → Type 0) (Q : B → S → Type 0)
        (E : S → Type 0)
      → After P E r
      → ((a : A) → Triple (P a) (f a) Q E)
      → After Q E (next r f)
  next-Triple r f P Q E h k = next-After r f P Q E h λ a. (k a).holds

  pub bind-Triple :
      {A B : Type 0}
      → {P : S → Type 0} {m : Step S A} {f : A → Step S B} {Q : A → S → Type 0} {R : B → S → Type 0}
        {E : S → Type 0}
      → Triple P m Q E
      → ((a : A) → Triple (Q a) (f a) R E)
      → Triple P (m >>= f) R E
  bind-Triple h k = record { holds = λ s p. next-Triple _ _ _ _ _ (h.holds s p) k }

  pub After-imp :
      {A : Type 0} (r : S × Result String A) (Q Q' : A → S → Type 0) (E E' : S → Type 0)
      → ((a : A) (s : S) → Q a s → Q' a s)
      → ((s : S) → E s → E' s)
      → After Q E r
      → After Q' E' r
  After-imp (s, ok a) Q Q' E E' q e h = q a s h
  After-imp (s, err x) Q Q' E E' q e h = e s h

  pub weaken :
      {A : Type 0} {P : S → Type 0} {m : Step S A} {Q Q' : A → S → Type 0} {E E' : S → Type 0}
      → Triple P m Q E
      → ((a : A) (s : S) → Q a s → Q' a s)
      → ((s : S) → E s → E' s)
      → Triple P m Q' E'
  weaken t q e = record { holds = λ s p. After-imp _ _ _ _ _ q e (t.holds s p) }

  -- A fact that the state does not enter.
  pub given :
      {A : Type 0} {P : S → Type 0} {F : Type 0} {m : Step S A} {Q : A → S → Type 0}
      {E : S → Type 0}
      → (F → Triple P m Q E)
      → Triple (λ s. P s × F) m Q E
  given t = record { holds = λ s p. (t p.1).holds s p.0 }

  pub if-After :
      {A : Type 0} (Q : A → S → Type 0) (E : S → Type 0) (b : Bool) (m n : Step S A) (s : S)
      → (b ≡ true → After Q E (m s))
      → (b ≡ false → After Q E (n s))
      → After Q E ((if b then m else n) s)
  if-After Q E true m n s h k = h refl
  if-After Q E false m n s h k = k refl

  -- A result came by a result of the first part.
  pub next_ok :
      {A B : Type 0} (r : S × Result String A) (f : A → Step S B) (b : B)
      → (next r f).1 ≡ ok b
      → (s : S) × ((a : A) × (r ≡ (s, ok a)) × ((f a s).1 ≡ ok b))
  next_ok (s, ok a) f b h = (s, (a, refl, h))
  next_ok (s, err e) f b h = absurd (cc)

  -- A run goes on from what the first part gave.
  pub next_by :
      {A B : Type 0}
      → (r : S × Result String A) (f : A → Step S B) (y : S × Result String B) (s : S) (a : A)
      → r ≡ (s, ok a)
      → f a s ≡ y
      → next r f ≡ y
  next_by r f y s a e k = rw e k
