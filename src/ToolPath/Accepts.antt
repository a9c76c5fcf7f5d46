-- ===== src/ToolPath/Accepts.antt =====
-- The guard of crates/tools/src/path_safety.rs takes the paths that name a place in the workspace.
use mathlib.Core.List.{append_assoc, append-nil}
use vitna_code.Base.{
  true, false, ◌||◌, ◌≡◌, refl, sym, ap, ◌∙◌, Option, none, some, List, [], ◌∷◌, ◌++◌, map, ok,
  arith, All, Bool-cases, nat_eq, inl, inr,
}
use vitna_code.Paths.{Text, same, push_char, split, named, starts_with, ends_with}
use vitna_code.Paths.Safe.{same_refl}
use vitna_code.ToolPath.{
  Component, root_dir, cur_dir, parent_dir, normal, as_os_str, component, components, pop, popped,
  normalize_from, normalize, is_within, join, resolve_workspace_path,
}

popped_assoc :
    (o : Option (List Component)) (f g : List Component → Option (List Component))
    → popped (popped o f) g ≡ popped o (λ x. popped (f x) g)
popped_assoc none f g = refl
popped_assoc (some x) f g = refl

popped_ext :
    (o : Option (List Component)) (f g : List Component → Option (List Component))
    → ((x : List Component) → f x ≡ g x)
    → popped o f ≡ popped o g
popped_ext none f g h = refl
popped_ext (some x) f g h = h x

normalize_from-append :
    (xs ys out : List Component)
    → normalize_from out (xs ++ ys) ≡ popped (normalize_from out xs) (λ o. normalize_from o ys)
unfolding normalize_from
normalize_from-append [] ys out = refl
normalize_from-append (root_dir ∷ xs) ys out = normalize_from-append xs ys (root_dir ∷ [])
normalize_from-append (cur_dir ∷ xs) ys out = normalize_from-append xs ys out
normalize_from-append (parent_dir ∷ xs) ys out =
    popped_ext (pop out) _ _ (λ o. normalize_from-append xs ys o)
    ∙ sym (popped_assoc (pop out) (λ o. normalize_from o xs) (λ o. normalize_from o ys))
normalize_from-append (normal n ∷ xs) ys out = normalize_from-append xs ys (out ++ normal n ∷ [])

normalize_from-normal :
    (names : List Text) (out : List Component)
    → normalize_from out (map normal names) ≡ some (out ++ map normal names)
unfolding normalize_from
normalize_from-normal [] out = ap some (sym (append-nil out))
normalize_from-normal (n ∷ names) out =
    normalize_from-normal names (out ++ normal n ∷ [])
    ∙ ap some (append_assoc out (normal n ∷ []) (map normal names))

split_nonempty : (t : Text) → (s : Text) × (more : List Text) × (split t ≡ s ∷ more)
unfolding split
split_nonempty [] = ([], [], refl)
split_nonempty (c ∷ t) =
    let (s, more, e) = split_nonempty t in
    elim (Bool-cases (nat_eq c b'/')) [
      | inl y ↦ rw y ([], split t, refl)
      | inr y ↦ rw y (rw e (c ∷ s, more, refl))
    ]

split-append : (a b : Text) → split (a ++ b'/' ∷ b) ≡ split a ++ split b
unfolding split
split-append [] b = refl
split-append (c ∷ a) b =
    let (s, more, e) = split_nonempty a in
    let ih = split-append a b in
    elim (Bool-cases (nat_eq c b'/')) [
      | inl y ↦ rw y (ap (◌∷◌ []) ih)
      | inr y ↦ rw y (ap (push_char c) ih ∙ rw e refl)
    ]

named-append : (l m : List Text) → named (l ++ m) ≡ named l ++ named m
unfolding named
named-append [] m = refl
named-append (s ∷ l) m =
    let ih = named-append l m in
    elim (Bool-cases (same s [] || same s (b'.' ∷ []))) [
      | inl y ↦ rw y ih
      | inr y ↦ rw y (ap (◌∷◌ s) ih)
    ]

without_last : (t : Text) → ends_with b'/' t ≡ true → (a : Text) × (t ≡ a ++ b'/' ∷ [])
without_last [] h = absurd (cc)
without_last (c ∷ []) h = let slash : c ≡ b'/' = ground (arith, h) in ([], ap (λ x. x ∷ []) slash)
without_last (c ∷ d ∷ t) h = let (a, e) = without_last (d ∷ t) h in (c ∷ a, ap (◌∷◌ c) e)

-- The names of a path that was joined.
abbrev names_of : Text → List Text
names_of t = named (split t)

names_of-slash : (a b : Text) → names_of (a ++ b'/' ∷ b) ≡ names_of a ++ names_of b
names_of-slash a b = ap named (split-append a b) ∙ named-append (split a) (split b)

names_of-ends :
    (root requested : Text)
    → ends_with b'/' root ≡ true
    → names_of (root ++ requested) ≡ names_of root ++ names_of requested
unfolding split named
names_of-ends root requested h =
    let (a, e) = without_last root h in
    let whole : root ++ requested ≡ a ++ b'/' ∷ requested =
      ap (λ r. r ++ requested) e ∙ append_assoc a (b'/' ∷ []) requested in
    let front : names_of root ≡ names_of a =
      ap names_of e ∙ (names_of-slash a [] ∙ append-nil (names_of a)) in
    ap names_of whole ∙ (names_of-slash a requested ∙ ap (λ l. l ++ names_of requested) (sym front))

names_of-join :
    (root requested : Text)
    → starts_with b'/' root ≡ true
    → starts_with b'/' requested ≡ false
    → names_of (join root requested) ≡ names_of root ++ names_of requested
names_of-join [] requested h r = absurd (cc)
names_of-join (c ∷ root) requested h r = elim (Bool-cases (ends_with b'/' (c ∷ root))) [
  | inl y ↦ rw r (rw y (names_of-ends (c ∷ root) requested y))
  | inr y ↦ rw r (rw y (names_of-slash (c ∷ root) requested))
]

-- No name leads up.
abbrev pub StaysDown : List Text → Type 0
StaysDown names = All (λ n. same n (b'.' ∷ b'.' ∷ []) ≡ false) names

map-component : (names : List Text) → StaysDown names → map component names ≡ map normal names
map-component [] a = refl
map-component (n ∷ names) a =
    let rest = map-component names a.1 in let first = a.0 in rw first (ap (◌∷◌ (normal n)) rest)

map-append : (l m : List Text) → map component (l ++ m) ≡ map component l ++ map component m
map-append [] m = refl
map-append (n ∷ l) m = ap (◌∷◌ (component n)) (map-append l m)

starts_with-join :
    (root requested : Text)
    → starts_with b'/' root ≡ true
    → starts_with b'/' requested ≡ false
    → starts_with b'/' (join root requested) ≡ true
starts_with-join [] requested h r = absurd (cc)
starts_with-join (c ∷ root) requested h r = elim (Bool-cases (ends_with b'/' (c ∷ root))) [
  | inl y ↦ rw r (rw y h)
  | inr y ↦ rw r (rw y h)
]

components_of :
    (path : Text)
    → starts_with b'/' path ≡ true
    → components path ≡ root_dir ∷ map component (names_of path)
unfolding components
components_of path h = rw h refl

components-join :
    (root requested : Text)
    → starts_with b'/' root ≡ true
    → starts_with b'/' requested ≡ false
    → StaysDown (names_of requested)
    → components (join root requested) ≡ components root ++ map normal (names_of requested)
components-join root requested h r down =
    components_of (join root requested) (starts_with-join root requested h r)
    ∙ (ap (λ l. root_dir ∷ map component l) (names_of-join root requested h r)
        ∙ (ap (◌∷◌ root_dir) (map-append (names_of root) (names_of requested))
            ∙ (ap (λ l. root_dir ∷ (map component (names_of root) ++ l))
                  (map-component (names_of requested) down)
                ∙ ap (λ l. l ++ map normal (names_of requested)) (sym (components_of root h)))))

is_within-append : (base more : List Component) → is_within (base ++ more) base ≡ true
is_within-append [] more = refl
is_within-append (c ∷ base) more =
    ground (arith, same_refl (as_os_str c), is_within-append base more)

normalize-join :
    (root requested : Text) (base : List Component)
    → starts_with b'/' root ≡ true
    → starts_with b'/' requested ≡ false
    → normalize root ≡ some base
    → StaysDown (names_of requested)
    → normalize (join root requested) ≡ some (base ++ map normal (names_of requested))
normalize-join root requested base h r e down =
    ap (normalize_from []) (components-join root requested h r down)
    ∙ (normalize_from-append (components root) (map normal (names_of requested)) []
        ∙ (ap (λ o. popped o (λ out. normalize_from out (map normal (names_of requested)))) e
            ∙ normalize_from-normal (names_of requested) base))

-- With an absolute workspace root that can be normalized, a relative path with no `..` is let
-- through, and its names, less `.`, stand behind the root's.
pub resolve_workspace_path-StaysDown :
    (root requested : Text) (base : List Component)
    → starts_with b'/' root ≡ true
    → starts_with b'/' requested ≡ false
    → normalize root ≡ some base
    → StaysDown (named (split requested))
    → resolve_workspace_path root requested ≡ ok (base ++ map normal (named (split requested)))
unfolding resolve_workspace_path
resolve_workspace_path-StaysDown root requested base h r e down =
    let joined = normalize-join root requested base h r e down in
    let inside = is_within-append base (map normal (named (split requested))) in
    rw joined (rw e (rw inside refl))
