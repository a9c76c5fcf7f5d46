-- ===== src/FileTree/Keeps.antt =====
-- What `write` of crates/git-broker/src/tree.rs leaves alone, and what it leaves behind.
use vitna_code.Base.{
  String, ◌≡◌, ◌≢◌, refl, ◌∙◌, ap, ◌⊎◌, inl, inr, Option, none, some, Result, ok, err, Bool-cases,
}
use vitna_code.Base.Steps.{Step, next, ◌>>◌, modify, lift, After, next-After, After-imp}
use vitna_code.Paths.{same}
use vitna_code.Broker.{Tree}
use vitna_code.FileTree.{Place, Node, directory, Disk, Call, inspect, Host, same_place}
use vitna_code.FileTree.Walk.{unless_failed, lstat, failed}
use vitna_code.FileTree.Write.{put, calling}
use vitna_code.FileTree.Reads.{Passes, same_place_refl, same_place_eq, unless_failed_ok}

-- Nothing is taken away or changed, save what stands at `q`; no directory is, even there.
abbrev pub Kept : Place → Disk → Disk → Type 0
Kept q d d' = (p : Place) (x : Node) → d p ≡ some x → (p ≢ q) ⊎ (x ≡ directory) → d' p ≡ some x

abbrev pub Keeping :
    Place → Disk → {A : Type 0} → (A → Disk → Type 0) → Disk × Result String A → Type 0
Keeping q d Q r = After (λ a s. Kept q d s × Q a s) (Kept q d) r

pub Kept-refl : (q : Place) (d : Disk) → Kept q d d
Kept-refl q d p x e o = e

pub Kept-trans : (q : Place) (a b c : Disk) → Kept q a b → Kept q b c → Kept q a c
Kept-trans q a b c u v p x e o = v p x (u p x e o) o

pub put_here : (q : Place) (x : Node) (d : Disk) → put q x d q ≡ some x
put_here q x d = rw same_place_refl refl

pub put_other : (q p : Place) (x : Node) (d : Disk) → p ≢ q → put q x d p ≡ d p
put_other q p x d other = elim (Bool-cases (same_place p q)) [
  | inl e ↦ absurd (other (same_place_eq p q e))
  | inr e ↦ rw e refl
]

put_new-Kept : (q place : Place) (x : Node) (d : Disk) → d place ≡ none → Kept q d (put place x d)
put_new-Kept q place x d absent p y e o =
    put_other place p x d (λ same. absurd (let there = ap d same in cc)) ∙ e

pub put_here-Kept : (q : Place) (x : Node) (d : Disk) → d q ≢ some directory → Kept q d (put q x d)
put_here-Kept q x d other p y e (inl apart) = put_other q p x d apart ∙ e
put_here-Kept q x d other p y e (inr dir) =
    put_other q p x d (λ same. other (let there = ap d same in cc)) ∙ e

module _ (q : Place) where
  pub chain :
      {A B : Type 0}
      → (d : Disk) (r : Disk × Result String A) (f : A → Step Disk B) (P : A → Disk → Type 0)
        (Q : B → Disk → Type 0)
      → Keeping q d P r
      → ((a : A) (s : Disk) → P a s → Keeping q s Q (f a s))
      → Keeping q d Q (next r f)
  chain {A = A} d r f P Q h k =
      next-After r f (λ a s. Kept q d s × P a s) (λ b s. Kept q d s × Q b s) (Kept q d) h
        λ a s (kept, p). from_there a s kept (k a s p)
    where
      from_there : (a : A) (s : Disk) → Kept q d s → Keeping q s Q (f a s) → Keeping q d Q (f a s)
      from_there a s kept =
          After-imp (f a s) (λ b t. Kept q s t × Q b t) (λ b t. Kept q d t × Q b t) (Kept q s)
            (Kept q d) (λ b t (more, y). (Kept-trans q d s t kept more, y))
            (λ t more. Kept-trans q d s t kept more)

  pub weaken-Keeping :
      {A : Type 0}
      → (d : Disk) (r : Disk × Result String A) (P Q : A → Disk → Type 0)
      → ((a : A) (s : Disk) → P a s → Q a s)
      → Keeping q d P r
      → Keeping q d Q r
  weaken-Keeping d r P Q imp =
      After-imp r (λ a s. Kept q d s × P a s) (λ a s. Kept q d s × Q a s) (Kept q d) (Kept q d)
        (λ a s (kept, p). (kept, imp a s p)) (λ s kept. kept)

  pub lift-Keeping :
      {A : Type 0}
      → (d : Disk) (r : Result String A) → Keeping q d (λ a s. (s ≡ d) × (r ≡ ok a)) (lift r d)
  lift-Keeping d (ok a) = (Kept-refl q d, (refl, refl))
  lift-Keeping d (err e) = Kept-refl q d

  module _ (h : Host) (tree : Tree) (rel : String) where
    pub calling-Keeping :
        (d : Disk) (call : Call) (place : Place) (wrap : String → String)
        → Keeping q d (λ _ s. (s ≡ d) × Passes h d call place) (calling h call place wrap d)
    calling-Keeping d call place wrap =
        weaken-Keeping d (calling h call place wrap d)
          (λ u s. (s ≡ d) × (unless_failed h (h.fails call place) wrap (ok tt) ≡ ok u))
          (λ _ s. (s ≡ d) × Passes h d call place)
          (λ u s (same, passed).
            (same, (unless_failed_ok h tree rel (h.fails call place) wrap (ok tt) u passed).0))
          (lift-Keeping d (unless_failed h (h.fails call place) wrap (ok tt)))

    pub made-Keeping :
        (d : Disk) (place : Place) (wrap : String → String) (x : Node)
        → d place ≡ none
        → (call : Call)
        → Keeping q d
            (λ _ s. s place ≡ some x)
            ((calling h call place wrap >> modify (put place x)) d)
    made-Keeping d place wrap x absent call =
        chain d (calling h call place wrap d) (λ _. modify (put place x))
          (λ _ s. (s ≡ d) × Passes h d call place) (λ _ s. s place ≡ some x)
          (calling-Keeping d call place wrap)
          (λ _ s (same, passed). (
            put_new-Kept q place x s (let there = ap (λ (z : Disk). z place) same in cc),
            put_here place x s,
          ))

    -- What `lstat` found is what stands there.
    pub looked-Keeping :
        {B : Type 0}
        → (d : Disk) (place : Place) (f : Option Node → Step Disk B) (Q : B → Disk → Type 0)
        → ((x : Option Node) (s : Disk)
            → s place ≡ x
            → Passes h s inspect place
            → Keeping q s Q (f x s))
        → Keeping q d Q (next (lift (lstat h d tree place rel) d) f)
    looked-Keeping d place f Q k =
        chain d (lift (lstat h d tree place rel) d) f
          (λ x s. (s ≡ d) × (lstat h d tree place rel ≡ ok x)) Q
          (lift-Keeping d (lstat h d tree place rel))
          (λ x s (same, looked).
            let (passed, found) =
              unless_failed_ok h tree rel (h.fails inspect place)
                (failed "Cannot inspect " tree rel) (ok (d place)) x looked in
            k x s (let there = ap (λ (z : Disk). z place) same in cc) passed)
