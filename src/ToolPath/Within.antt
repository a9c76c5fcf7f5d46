-- ===== src/ToolPath/Within.antt =====
-- What the guard of crates/tools/src/path_safety.rs lets through.
use vitna_code.Base.{
  Bool, true, false, ◌≡◌, ◌≢◌, refl, subst, Option, none, some, List, [], ◌∷◌, ◌++◌, map, arith,
  All, if◌then◌else◌, Bool-cases, inl, inr, ◌||◌,
}
use vitna_code.Paths.{Text, same, split, named, starts_with}
use vitna_code.Paths.Safe.{differ}
use vitna_code.ToolPath.{
  Component, root_dir, cur_dir, parent_dir, normal, component, leads_with_dot, components, keep,
  pop, popped, normalize_from, normalize,
}

-- A name that leads one folder down.
abbrev pub IsName : Text → Type 0
IsName n = (n ≢ []) × (n ≢ b'.' ∷ []) × (n ≢ b'.' ∷ b'.' ∷ [])

abbrev pub IsDown : Component → Type 0
IsDown root_dir = ⊥
IsDown cur_dir = ⊥
IsDown parent_dir = ⊥
IsDown (normal n) = IsName n

-- All but a root at the front lead down.
abbrev pub IsClean : List Component → Type 0
IsClean [] = Unit {0}
IsClean (root_dir ∷ out) = All IsDown out
IsClean (cur_dir ∷ out) = ⊥
IsClean (parent_dir ∷ out) = ⊥
IsClean (normal n ∷ out) = IsName n × All IsDown out

-- A component that can be parsed: a normal one has a name.
abbrev IsParsed : Component → Type 0
IsParsed root_dir = Unit {0}
IsParsed cur_dir = Unit {0}
IsParsed parent_dir = Unit {0}
IsParsed (normal n) = IsName n

IsParsed-component :
    (n : Text) → same n [] ≡ false → same n (b'.' ∷ []) ≡ false → IsParsed (component n)
IsParsed-component n e d = elim (Bool-cases (same n (b'.' ∷ b'.' ∷ []))) [
  | inl y ↦ rw y tt
  | inr y ↦ rw y (differ n _ e, differ n _ d, differ n _ y)
]

IsParsed-named : (l : List Text) → All IsParsed (map component (named l))
unfolding named
IsParsed-named [] = tt
IsParsed-named (n ∷ l) = elim (Bool-cases (same n [] || same n (b'.' ∷ []))) [
  | inl y ↦ rw y (IsParsed-named l)
  | inr y ↦ rw y (IsParsed-component n (ground (arith, y)) (ground (arith, y)), IsParsed-named l)
]

IsParsed-components : (path : Text) → All IsParsed (components path)
unfolding components
IsParsed-components path =
    let parts = IsParsed-named (split path) in
    elim (Bool-cases (starts_with b'/' path)) [
      | inl y ↦ rw y (tt, parts)
      | inr y ↦ rw y (dotted (leads_with_dot (split path)) parts)
    ]
  where
    dotted :
        (b : Bool)
        → All IsParsed (map component (named (split path)))
        → All IsParsed (
            if b
            then cur_dir ∷ map component (named (split path))
            else map component (named (split path)))
    dotted true a = (tt, a)
    dotted false a = a

All-push :
    (out : List Component) (n : Text)
    → All IsDown out
    → IsName n
    → All IsDown (out ++ normal n ∷ [])
All-push [] n a h = (h, tt)
All-push (c ∷ out) n a h = (a.0, All-push out n a.1 h)

IsClean-push :
    (out : List Component) (n : Text) → IsClean out → IsName n → IsClean (out ++ normal n ∷ [])
IsClean-push [] n a h = (h, tt)
IsClean-push (root_dir ∷ out) n a h = All-push out n a h
IsClean-push (cur_dir ∷ out) n a h = a
IsClean-push (parent_dir ∷ out) n a h = a
IsClean-push (normal m ∷ out) n a h = (a.0, All-push out n a.1 h)

IsDown-keep :
    (c : Component) (o : Option (List Component)) (rest : List Component)
    → IsDown c
    → ((out : List Component) → o ≡ some out → All IsDown out)
    → keep c o ≡ some rest
    → All IsDown rest
IsDown-keep c none rest d a h = absurd (cc)
IsDown-keep c (some out) rest d a h =
    let same_list : c ∷ out ≡ rest = cc in subst (All IsDown) same_list (d, a out refl)

IsDown-pop : (out rest : List Component) → All IsDown out → pop out ≡ some rest → All IsDown rest
IsDown-pop [] rest a h = absurd (cc)
IsDown-pop (root_dir ∷ out) rest a h = absurd a.0
IsDown-pop (cur_dir ∷ out) rest a h = absurd a.0
IsDown-pop (parent_dir ∷ out) rest a h = absurd a.0
IsDown-pop (normal n ∷ []) rest a h =
    let same_list : [] ≡ rest = cc in subst (All IsDown) same_list tt
IsDown-pop (normal n ∷ d ∷ out) rest a h =
    IsDown-keep (normal n) (pop (d ∷ out)) rest a.0 (λ left. IsDown-pop (d ∷ out) left a.1) h

IsClean-down : (out : List Component) → All IsDown out → IsClean out
IsClean-down [] a = tt
IsClean-down (root_dir ∷ out) a = absurd a.0
IsClean-down (cur_dir ∷ out) a = a.0
IsClean-down (parent_dir ∷ out) a = a.0
IsClean-down (normal n ∷ out) a = a

rooted :
    (o : Option (List Component)) (rest : List Component)
    → ((out : List Component) → o ≡ some out → All IsDown out)
    → keep root_dir o ≡ some rest
    → IsClean rest
rooted none rest a h = absurd (cc)
rooted (some out) rest a h =
    let same_list : root_dir ∷ out ≡ rest = cc in subst IsClean same_list (a out refl)

IsClean-pop : (out rest : List Component) → IsClean out → pop out ≡ some rest → IsClean rest
IsClean-pop [] rest a h = absurd (cc)
IsClean-pop (root_dir ∷ []) rest a h = absurd (cc)
IsClean-pop (root_dir ∷ d ∷ out) rest a h =
    rooted (pop (d ∷ out)) rest (λ left. IsDown-pop (d ∷ out) left a) h
IsClean-pop (cur_dir ∷ out) rest a h = absurd a
IsClean-pop (parent_dir ∷ out) rest a h = absurd a
IsClean-pop (normal n ∷ out) rest a h = IsClean-down rest (IsDown-pop (normal n ∷ out) rest a h)

IsClean-popped :
    (o : Option (List Component)) (next : List Component → Option (List Component))
    (rest : List Component)
    → ((out : List Component) → o ≡ some out → next out ≡ some rest → IsClean rest)
    → popped o next ≡ some rest
    → IsClean rest
IsClean-popped none next rest a h = absurd (cc)
IsClean-popped (some out) next rest a h = a out refl h

IsClean-normalize_from :
    (more out rest : List Component)
    → All IsParsed more
    → IsClean out
    → normalize_from out more ≡ some rest
    → IsClean rest
unfolding normalize_from
IsClean-normalize_from [] out rest a clean h =
    let same_list : out ≡ rest = cc in subst IsClean same_list clean
IsClean-normalize_from (root_dir ∷ more) out rest a clean h =
    IsClean-normalize_from more (root_dir ∷ []) rest a.1 tt h
IsClean-normalize_from (cur_dir ∷ more) out rest a clean h =
    IsClean-normalize_from more out rest a.1 clean h
IsClean-normalize_from (parent_dir ∷ more) out rest a clean h =
    IsClean-popped (pop out) (λ left. normalize_from left more) rest
      (λ left e. IsClean-normalize_from more left rest a.1 (IsClean-pop out left clean e)) h
IsClean-normalize_from (normal n ∷ more) out rest a clean h =
    IsClean-normalize_from more (out ++ normal n ∷ []) rest a.1 (IsClean-push out n clean a.0) h

pub IsClean-normalize :
    (path : Text) (rest : List Component) → normalize path ≡ some rest → IsClean rest
IsClean-normalize path rest h =
    IsClean-normalize_from (components path) [] rest (IsParsed-components path) tt h
