-- ===== src/FileTree/Reads.antt =====
-- When `entry` of crates/git-broker/src/tree.rs finds a regular file.
use vitna_code.Base.{
  ℕ, String, Bool, true, false, ◌≡◌, refl, ◌∙◌, ap, subst, ◌↔◌, ◌≢◌, Option, none, some, List, [],
  ◌∷◌, ◌++◌, Result, ok, err, ◌>>=◌, eq_iff, eq_refl, arith,
}
use vitna_code.Bytes.{Bytes}
use vitna_code.Broker.{Entry, file, Tree}
use vitna_code.FileTree.{
  Place, Node, directory, link, regular, special, Disk, Call, inspect, open_read, read, Host,
  same_place, root_place, components,
}
use vitna_code.FileTree.Walk.{
  Walk, ended, reached, names_of, nonempty, normal_only, not_inside, not_a_name, unless_failed,
  lstat, visited, is_last, walk, after_walk, read_at, verify_opened, bytes_of, entry, failed,
  exactly,
}

pub same_place_refl : (p : Place) → same_place p p ≡ true
same_place_refl [] = refl
same_place_refl (x ∷ p) = ground (arith, eq_refl x, same_place_refl p)

pub same_place_eq : (p q : Place) → same_place p q ≡ true → p ≡ q
same_place_eq [] [] h = refl
same_place_eq [] (y ∷ q) h = absurd (ground arith)
same_place_eq (x ∷ p) [] h = absurd (ground arith)
same_place_eq (x ∷ p) (y ∷ q) h = ground (arith, eq_iff x y, same_place_eq p q)

module _ (h : Host) (d : Disk) where
  abbrev pub Passes : Call → Place → Type 0
  Passes call place = h.fails call place ≡ none

  -- The names lead over directories, none of them a link, to a regular file, and no call fails.
  abbrev pub Leads : Place → String → List String → Bytes → ℕ → Type 0
  Leads dir n [] bytes mode =
      Passes inspect (dir ++ n ∷ [])
      × (d (dir ++ n ∷ []) ≡ some (regular bytes mode))
      × Passes open_read (dir ++ n ∷ [])
      × Passes read (dir ++ n ∷ [])
  Leads dir n (k ∷ names) bytes mode =
      Passes inspect (dir ++ n ∷ [])
      × (d (dir ++ n ∷ []) ≡ some directory)
      × Leads (dir ++ n ∷ []) k names bytes mode

  abbrev pub LeadsAll : Place → List String → Bytes → ℕ → Type 0
  LeadsAll dir [] bytes mode = ⊥
  LeadsAll dir (n ∷ names) bytes mode = Leads dir n names bytes mode

pub bind_ok {ℓ κ} :
    {A : Type ℓ} {B : Type κ} (r : Result String A) (f : A → Result String B) (b : B)
    → (r >>= f) ≡ ok b
    → (a : A) × (r ≡ ok a) × (f a ≡ ok b)
bind_ok (ok a) f b y = (a, refl, y)
bind_ok (err e) f b y = absurd (cc)

module _ (h : Host) (tree : Tree) (rel : String) where
  pub unless_failed_ok {ℓ} :
      {A : Type ℓ} (x : Option String) (wrap : String → String) (r : Result String A) (a : A)
      → unless_failed h x wrap r ≡ ok a
      → (x ≡ none) × (r ≡ ok a)
  unless_failed_ok none wrap r a y = (refl, y)
  unless_failed_ok (some e) wrap r a y = absurd (cc)

  exactly_ok : (mode m : ℕ) (b : Bool) → exactly h tree rel mode b ≡ ok m → (b ≡ true) × (mode ≡ m)
  exactly_ok mode m true y = (refl, cc)
  exactly_ok mode m false y = absurd (cc)

  -- A handle that is accepted is a regular file's, at the place that was walked to.
  pub verify_opened_ok :
      (opened expected : Place) (x : Option Node) (mode : ℕ)
      → verify_opened h tree rel opened expected x ≡ ok mode
      → (opened ≡ expected) × ((x ≡ some (regular (bytes_of h x) mode)))
  verify_opened_ok opened expected none mode y = absurd (cc)
  verify_opened_ok opened expected (some directory) mode y = absurd (cc)
  verify_opened_ok opened expected (some (link t)) mode y = absurd (cc)
  verify_opened_ok opened expected (some (special k)) mode y = absurd (cc)
  verify_opened_ok opened expected (some (regular b m)) mode y =
      let (same, e) = exactly_ok m mode (same_place opened expected) y in
      (same_place_eq opened expected same, ap (λ z. some (regular b z)) e)

  read_at_ok :
      (d : Disk) (place : Place) (e : Entry)
      → read_at h d tree rel place ≡ ok e
      → Passes h d open_read place
        × Passes h d read place
        × ((m : ℕ) × (d place ≡ some (regular (bytes_of h (d place)) m))
            × (file (bytes_of h (d place)) m ≡ e))
  read_at_ok d place e y =
      let (opened, more) = unless_failed_ok (h.fails open_read place) _ _ e y in
      let (m, verified, rest) = bind_ok (verify_opened h tree rel place place (d place)) _ e more in
      let (passed, last) = unless_failed_ok (h.fails read place) _ _ e rest in
      (opened, passed, (m, (verify_opened_ok place place (d place) m verified).1, cc))

  abbrev halted : Entry → Result String Walk
  halted e = ok (ended e)

  stopped_file :
      (d : Disk) (w : Walk) (e found : Entry)
      → halted e ≡ ok w
      → after_walk h d tree rel w ≡ ok found
      → e ≡ found
  stopped_file d (ended e') e found y z = cc
  stopped_file d (reached place) e found y z = absurd (cc)

  module _ (d : Disk) (bytes : Bytes) (mode : ℕ) where
    abbrev EndsIn : Walk → Type 0
    EndsIn w = after_walk h d tree rel w ≡ ok (file bytes mode)

    pass_directory :
        (dir : Place) (names : List String) (x : Option Node) (rest : Result String Walk) (w : Walk)
        → visited h d tree rel dir names false x rest ≡ ok w
        → EndsIn w
        → (x ≡ some directory) × (rest ≡ ok w)
    pass_directory dir names none rest w y z = absurd (let same = stopped_file d w _ _ y z in cc)
    pass_directory dir names (some directory) rest w y z = (refl, y)
    pass_directory dir names (some (link t)) rest w y z =
        absurd (let same = stopped_file d w _ _ y z in cc)
    pass_directory dir names (some (regular b m)) rest w y z =
        absurd (let same = stopped_file d w _ _ y z in cc)
    pass_directory dir names (some (special k)) rest w y z =
        absurd (let same = stopped_file d w _ _ y z in cc)

    pass_last :
        (dir : Place) (names : List String) (x : Option Node) (rest : Result String Walk) (w : Walk)
        → visited h d tree rel dir names true x rest ≡ ok w
        → EndsIn w
        → rest ≡ ok w
    pass_last dir names none rest w y z = absurd (let same = stopped_file d w _ _ y z in cc)
    pass_last dir names (some directory) rest w y z =
        absurd (let same = stopped_file d w _ _ y z in cc)
    pass_last dir names (some (link t)) rest w y z =
        absurd (let same = stopped_file d w _ _ y z in cc)
    pass_last dir names (some (regular b m)) rest w y z = y
    pass_last dir names (some (special k)) rest w y z =
        absurd (let same = stopped_file d w _ _ y z in cc)

    abbrev step : Place → List String → String → List String → Option Node → Result String Walk
    step dir seen n names found =
        visited h d tree rel dir (seen ++ n ∷ []) (is_last names) found
          (walk h d tree rel (dir ++ n ∷ []) (seen ++ n ∷ []) names)

    walk-Leads :
        (dir : Place) (seen : List String) (n : String) (names : List String) (w : Walk)
        → walk h d tree rel dir seen (n ∷ names) ≡ ok w
        → EndsIn w
        → Leads h d dir n names bytes mode
    walk-Leads dir seen n [] w y z =
        let (x, looked, more) =
          bind_ok (lstat h d tree (dir ++ n ∷ []) rel) (step dir seen n []) w y in
        let (passed, found) =
          unless_failed_ok (h.fails inspect (dir ++ n ∷ [])) (failed "Cannot inspect " tree rel)
            (ok (d (dir ++ n ∷ []))) x looked in
        let there = pass_last dir (seen ++ n ∷ []) x (ok (reached (dir ++ n ∷ []))) w more z in
        let (opened, readable, (m, at, same)) =
          read_at_ok d (dir ++ n ∷ []) (file bytes mode)
            (let same : w ≡ reached (dir ++ n ∷ []) = cc in subst EndsIn same z) in
        (passed, at ∙ (cc), opened, readable)
    walk-Leads dir seen n (k ∷ names) w y z =
        let (x, looked, more) =
          bind_ok (lstat h d tree (dir ++ n ∷ []) rel) (step dir seen n (k ∷ names)) w y in
        let (passed, found) =
          unless_failed_ok (h.fails inspect (dir ++ n ∷ [])) (failed "Cannot inspect " tree rel)
            (ok (d (dir ++ n ∷ []))) x looked in
        let (at, rest) =
          pass_directory dir (seen ++ n ∷ []) x
            (walk h d tree rel (dir ++ n ∷ []) (seen ++ n ∷ []) (k ∷ names)) w more z in
        (passed, cc, walk-Leads (dir ++ n ∷ []) (seen ++ n ∷ []) k names w rest z)

    Leads-walk :
        (dir : Place) (seen : List String) (n : String) (names : List String)
        → Leads h d dir n names bytes mode
        → (walk h d tree rel dir seen (n ∷ names) >>= after_walk h d tree rel)
          ≡ ok (file bytes mode)
    Leads-walk dir seen n [] (passed, at, opened, readable) =
        rw passed (rw at (rw opened (rw at (rw same_place_refl (rw readable refl)))))
    Leads-walk dir seen n (k ∷ names) (passed, at, more) =
        rw passed (rw at (Leads-walk (dir ++ n ∷ []) (seen ++ n ∷ []) k names more))

nonempty_ok :
    (reason : String) (ns names : List String) → nonempty reason ns ≡ ok names → names ≢ []
nonempty_ok reason [] names y z = absurd (cc)
nonempty_ok reason (n ∷ ns) names y z = absurd (cc)

pub names_of_nonempty :
    (tree : Tree) (rel : String) (names : List String) → names_of tree rel ≡ ok names → names ≢ []
unfolding names_of
names_of_nonempty tree rel names y =
    let (ns, normal, more) =
      bind_ok (normal_only (not_inside tree rel) (components rel)) (nonempty (not_a_name tree rel))
        names y in
    nonempty_ok (not_a_name tree rel) ns names more

-- A path holds a regular file exactly where its names lead to that file over directories alone, so
-- over no link, and no call on the way fails.
pub entry_file_iff :
    (h : Host) (d : Disk) (tree : Tree) (rel : String) (bytes : Bytes) (mode : ℕ)
    → (entry h d tree rel ≡ ok (file bytes mode)) ↔ (
        (names : List String) × (names_of tree rel ≡ ok names)
        × LeadsAll h d (root_place tree) names bytes mode)
unfolding entry
entry_file_iff h d tree rel bytes mode = (to, from)
  where
    led :
        (names : List String) (w : Walk)
        → names ≢ []
        → walk h d tree rel (root_place tree) [] names ≡ ok w
        → EndsIn h tree rel d bytes mode w
        → LeadsAll h d (root_place tree) names bytes mode
    led [] w some_names a b = absurd (some_names refl)
    led (n ∷ names) w some_names a b = walk-Leads h tree rel d bytes mode _ [] n names w a b

    to :
        entry h d tree rel ≡ ok (file bytes mode)
        → (names : List String) × (names_of tree rel ≡ ok names)
          × LeadsAll h d (root_place tree) names bytes mode
    to y =
        let (names, named, more) = bind_ok (names_of tree rel) _ _ y in
        let (w, walked, end) = bind_ok _ _ _ more in
        (names, named, led names w (names_of_nonempty tree rel names named) walked end)

    leads :
        (names : List String)
        → LeadsAll h d (root_place tree) names bytes mode
        → (walk h d tree rel (root_place tree) [] names >>= after_walk h d tree rel)
          ≡ ok (file bytes mode)
    leads [] l = absurd l
    leads (n ∷ names) l = Leads-walk h tree rel d bytes mode _ [] n names l

    from :
        (names : List String) × (names_of tree rel ≡ ok names)
          × LeadsAll h d (root_place tree) names bytes mode
        → entry h d tree rel ≡ ok (file bytes mode)
    from (names, named, l) = rw named (leads names l)
