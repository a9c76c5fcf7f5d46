-- ===== src/Base/Sort.antt =====
-- `Vec<String>::sort`: the order of texts, and a sort by it.
use Prim.Native.Nat.{Ordering}
use Prim.Native.String.{String, compare}
use Prim.Native.String.compare
use vitna_code.Base.Tests.{if◌then◌else◌, Bool-cases}
use mathlib.Core.Path.{◌≡◌, refl}
use mathlib.Core.Logic.{inl, inr}
use mathlib.Core.Bool.{Bool, true, false, ◌||◌}
use mathlib.Core.List.{List, [], ◌∷◌}
use native.Mathlib.Omega.{arith}
use text.Mathlib.Text.{◌==◌}
use vitna_code.Base.Text.{contains}

abbrev pub str_leb : String → String → Bool
str_leb s t = elim (compare s t) [ Ordering.gt ↦ false | _ ↦ true ]

unfoldable pub insert : String → List String → List String
insert x [] = x ∷ []
insert x (y ∷ ys) = let rest = insert x ys in if str_leb x y then x ∷ y ∷ ys else y ∷ rest

unfoldable pub sort : List String → List String
unfolding insert
sort [] = []
sort (x ∷ xs) = insert x (sort xs)

contains-insert :
    (x z : String) (ys : List String) → contains (insert x ys) z ≡ (x == z || contains ys z)
unfolding insert
contains-insert x z [] = refl
contains-insert x z (y ∷ ys) = ground (arith, contains-insert x z ys)

-- Sorting keeps what the list contains.
pub contains-sort : (z : String) (xs : List String) → contains (sort xs) z ≡ contains xs z
unfolding sort
contains-sort z [] = refl
contains-sort z (x ∷ xs) = ground (arith, contains-insert x z (sort xs), contains-sort z xs)

abbrev HeadLe : String → List String → Type 0
HeadLe x [] = Unit
HeadLe x (y ∷ ys) = str_leb x y ≡ true

abbrev pub IsSorted : List String → Type 0
IsSorted [] = Unit
IsSorted (x ∷ xs) = HeadLe x xs × IsSorted xs

flip_compare : (s t : String) → compare s t ≡ Ordering.gt → compare t s ≡ Ordering.lt
flip_compare String.[] String.[] h = cc
flip_compare String.[] (String.◌∷◌ d t) h = cc (compare.nil-cons d t)
flip_compare (String.◌∷◌ c s) String.[] h = compare.nil-cons c s
flip_compare (String.◌∷◌ c s) (String.◌∷◌ d t) h =
    ground (arith, compare.cons-cons c d s t, compare.cons-cons d c t s, flip_compare s t)

leb_total : (s t : String) → str_leb s t ≡ false → str_leb t s ≡ true
leb_total s t h = ground (arith, flip_compare s t)

IsSorted-insert : (x : String) (ys : List String) → IsSorted ys → IsSorted (insert x ys)
unfolding insert
IsSorted-insert x [] s = (tt, tt)
IsSorted-insert x (y ∷ ys) s = elim (Bool-cases (str_leb x y)) [
  | inl e ↦ rw e (e, s)
  | inr e ↦ rw e (below x y ys (leb_total x y e) s, IsSorted-insert x ys s.1)
]
  where
    below :
        (x y : String) (ys : List String)
        → str_leb y x ≡ true
        → IsSorted (y ∷ ys)
        → HeadLe y (insert x ys)
    below x y [] l s = l
    below x y (z ∷ zs) l s = elim (Bool-cases (str_leb x z)) [ inl e ↦ rw e l | inr e ↦ rw e s.0 ]

-- The result of sorting is in order.
pub IsSorted-sort : (xs : List String) → IsSorted (sort xs)
unfolding sort
IsSorted-sort [] = tt
IsSorted-sort (x ∷ xs) = IsSorted-insert x (sort xs) (IsSorted-sort xs)
