-- ===== src/ToolPath/Keeps.antt =====
-- The guard of crates/tools/src/path_safety.rs keeps a tool within its workspace.
use vitna_code.Base.{
  ℕ, suc, zero, true, ◌≡◌, refl, subst, Option, none, some, List, [], ◌∷◌, ◌++◌, map, length, drop,
  ok, arith, All, Bool-cases, Option-cases, inl, inr,
}
use vitna_code.Paths.{Text, starts_with, split, named}
use vitna_code.ToolPath.{
  Component, root_dir, cur_dir, parent_dir, normal, as_os_str, component, components, keep, pop,
  normalize_from, normalize, is_within, join, resolve_workspace_path,
}
use vitna_code.Paths.Safe.{same_eq}
use vitna_code.ToolPath.Within.{IsName, IsDown, IsClean, IsClean-normalize}

-- The path starts at the root.
abbrev StartsAtRoot : List Component → Type 0
StartsAtRoot [] = ⊥
StartsAtRoot (root_dir ∷ out) = Unit {0}
StartsAtRoot (cur_dir ∷ out) = ⊥
StartsAtRoot (parent_dir ∷ out) = ⊥
StartsAtRoot (normal n ∷ out) = ⊥

keep-StartsAtRoot :
    (o : Option (List Component)) (rest : List Component)
    → keep root_dir o ≡ some rest
    → StartsAtRoot rest
keep-StartsAtRoot none rest h = absurd (cc)
keep-StartsAtRoot (some out) rest h =
    let same_list : root_dir ∷ out ≡ rest = cc in subst StartsAtRoot same_list tt

pop-StartsAtRoot :
    (out rest : List Component) → StartsAtRoot out → pop out ≡ some rest → StartsAtRoot rest
pop-StartsAtRoot [] rest a h = absurd a
pop-StartsAtRoot (root_dir ∷ []) rest a h = absurd (cc)
pop-StartsAtRoot (root_dir ∷ d ∷ out) rest a h = keep-StartsAtRoot (pop (d ∷ out)) rest h
pop-StartsAtRoot (cur_dir ∷ out) rest a h = absurd a
pop-StartsAtRoot (parent_dir ∷ out) rest a h = absurd a
pop-StartsAtRoot (normal n ∷ out) rest a h = absurd a

append-StartsAtRoot : (out more : List Component) → StartsAtRoot out → StartsAtRoot (out ++ more)
append-StartsAtRoot [] more a = absurd a
append-StartsAtRoot (root_dir ∷ out) more a = tt
append-StartsAtRoot (cur_dir ∷ out) more a = absurd a
append-StartsAtRoot (parent_dir ∷ out) more a = absurd a
append-StartsAtRoot (normal n ∷ out) more a = absurd a

normalize_from-StartsAtRoot :
    (more out rest : List Component)
    → StartsAtRoot out
    → normalize_from out more ≡ some rest
    → StartsAtRoot rest
unfolding normalize_from
normalize_from-StartsAtRoot [] out rest a h =
    let same_list : out ≡ rest = cc in subst StartsAtRoot same_list a
normalize_from-StartsAtRoot (root_dir ∷ more) out rest a h =
    normalize_from-StartsAtRoot more (root_dir ∷ []) rest tt h
normalize_from-StartsAtRoot (cur_dir ∷ more) out rest a h =
    normalize_from-StartsAtRoot more out rest a h
normalize_from-StartsAtRoot (parent_dir ∷ more) out rest a h = elim (Option-cases (pop out)) [
  | inl e ↦ absurd (let gone = rw e at h in cc)
  | inr (left, e) ↦
      normalize_from-StartsAtRoot more left rest (pop-StartsAtRoot out left a e) (rw e at h)
]
normalize_from-StartsAtRoot (normal n ∷ more) out rest a h =
    normalize_from-StartsAtRoot more (out ++ normal n ∷ []) rest
      (append-StartsAtRoot out (normal n ∷ []) a) h

normalize-StartsAtRoot :
    (path : Text) (rest : List Component)
    → starts_with b'/' path ≡ true
    → normalize path ≡ some rest
    → StartsAtRoot rest
unfolding components normalize_from
normalize-StartsAtRoot path rest y h =
    normalize_from-StartsAtRoot (map component (named (split path))) (root_dir ∷ []) rest tt
      (rw y at h)

is_within_split :
    (path base : List Component)
    → is_within path base ≡ true
    → map as_os_str path ≡ map as_os_str base ++ map as_os_str (drop (length base) path)
is_within_split path [] h = refl
is_within_split [] (r ∷ base) h = absurd (cc)
is_within_split (p ∷ path) (r ∷ base) h =
    let first = same_eq (as_os_str r) (as_os_str p) (ground (arith, h)) in
    let rest = is_within_split path base (ground (arith, h)) in cc

IsName-down : (c : Component) → IsDown c → IsName (as_os_str c)
IsName-down root_dir d = absurd d
IsName-down cur_dir d = absurd d
IsName-down parent_dir d = absurd d
IsName-down (normal n) d = d

names_below :
    (k : ℕ) (path : List Component) → All IsDown path → All IsName (map as_os_str (drop k path))
names_below zero [] a = tt
names_below zero (c ∷ path) a = (IsName-down c a.0, names_below zero path a.1)
names_below (suc k) [] a = tt
names_below (suc k) (c ∷ path) a = names_below k path a.1

clean_below :
    (path base : List Component)
    → IsClean path
    → StartsAtRoot base
    → All IsName (map as_os_str (drop (length base) path))
clean_below path [] a r = absurd r
clean_below [] (b ∷ base) a r = tt
clean_below (root_dir ∷ path) (b ∷ base) a r = names_below (length base) path a
clean_below (cur_dir ∷ path) (b ∷ base) a r = absurd a
clean_below (parent_dir ∷ path) (b ∷ base) a r = absurd a
clean_below (normal n ∷ path) (b ∷ base) a r = names_below (length base) path a.1

-- The path is that of the workspace with names behind it.
abbrev pub LiesIn : Text → List Component → Type 0
LiesIn root path =
    (base : List Component) × ((names : List Text) × (normalize root ≡ some base)
      × (map as_os_str path ≡ map as_os_str base ++ names)
      × All IsName names)

-- With an absolute workspace root, a path that is let through is the root's with names behind it,
-- none of which is empty, `.` or `..`.
pub resolve_workspace_path-LiesIn :
    (root requested : Text) (path : List Component)
    → starts_with b'/' root ≡ true
    → resolve_workspace_path root requested ≡ ok path
    → LiesIn root path
unfolding resolve_workspace_path
resolve_workspace_path-LiesIn root requested path absolute h =
    elim (Option-cases (normalize (join root requested))) [
      | inl e ↦ absurd (let gone = rw e at h in cc)
      | inr (found, e) ↦ elim (Option-cases (normalize root)) [
        | inl f ↦ absurd (let gone = rw f at (rw e at h) in cc)
        | inr (base, f) ↦ elim (Bool-cases (is_within found base)) [
          | inr w ↦ absurd (let gone = rw w at (rw f at (rw e at h)) in cc)
          | inl w ↦
              let got : found ≡ path = let z = rw w at (rw f at (rw e at h)) in cc in
              subst (LiesIn root) got (
                base,
                (
                  map as_os_str (drop (length base) found),
                  f,
                  is_within_split found base w,
                  clean_below found base (IsClean-normalize _ found e)
                      (normalize-StartsAtRoot root base absolute f),
                ),
              )
        ]
      ]
    ]
