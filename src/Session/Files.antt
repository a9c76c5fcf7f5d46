-- ===== src/Session/Files.antt =====
-- The file records of a receipt of crates/app-server/src/journal.rs, path by path.
use vitna_code.Base.{
  String, ◌≡◌, refl, ◌∙◌, ap, Option, none, some, List, [], ◌∷◌, ◌==◌, arith, eq_iff, if◌then◌else◌,
  Bool-cases, inl, inr,
}
use vitna_code.Receipts.{FileModificationRecord}
use vitna_code.Session.{Effect, touched, touch_file, touch_files, files_from}

abbrev post_of : String → String → Option (String × (String × String)) → String
post_of path old none = old
post_of path old (some (p, (pre, post))) = if p == path then post else old

-- What the last effect on a path left there, `post` where there is none.
abbrev pub last_post : String → String → List Effect → String
last_post path post [] = post
last_post path post (e ∷ effects) = last_post path (post_of path post (touched e)) effects

abbrev first_touch :
    String
    → Option (String × (String × String))
    → List Effect
    → Option FileModificationRecord
    → Option FileModificationRecord
first_touch path none effects rest = rest
first_touch path (some (p, (pre, post))) effects rest =
    if p == path
    then some
        (record { path = p; preimage_hash = pre; postimage_hash = last_post path post effects })
    else rest

-- What a path held before the first effect on it, and after the last.
abbrev pub history : String → List Effect → Option FileModificationRecord
history path [] = none
history path (e ∷ effects) = first_touch path (touched e) effects (history path effects)

abbrev pub file_at : String → List FileModificationRecord → Option FileModificationRecord
file_at path [] = none
file_at path (f ∷ files) = let rest = file_at path files in if f.path == path then some f else rest

-- No path has two records.
abbrev pub Distinct : List FileModificationRecord → Type 0
Distinct [] = Unit {0}
Distinct (f ∷ files) = (file_at f.path files ≡ none) × Distinct files

abbrev updated : String → String → String → Option FileModificationRecord → FileModificationRecord
updated path pre post none = record { path = path; preimage_hash = pre; postimage_hash = post }
updated path pre post (some f) = record f { postimage_hash = post }

file_at-touch_file :
    (path p pre post : String) (files : List FileModificationRecord)
    → file_at path (touch_file p pre post files)
      ≡ (if p == path then some (updated p pre post (file_at path files)) else file_at path files)
file_at-touch_file path p pre post [] = refl
file_at-touch_file path p pre post (f ∷ files) = ground (
  arith,
  file_at-touch_file path p pre post files,
  eq_iff f.path p,
  eq_iff p path,
  eq_iff f.path path,
)

touch_file-Distinct :
    (p pre post : String) (files : List FileModificationRecord)
    → Distinct files
    → Distinct (touch_file p pre post files)
touch_file-Distinct p pre post [] d = (refl, tt)
touch_file-Distinct p pre post (f ∷ files) (fresh, d) = elim (Bool-cases (f.path == p)) [
  | inl e ↦ rw e (fresh, d)
  | inr e ↦ rw e (
    ground (arith, file_at-touch_file f.path p pre post files, eq_iff f.path p, eq_iff p f.path),
    touch_file-Distinct p pre post files d,
  )
]

abbrev continued :
    String → Option FileModificationRecord → List Effect → Option FileModificationRecord
continued path none effects = history path effects
continued path (some f) effects =
    some (record f { postimage_hash = last_post path f.postimage_hash effects })

abbrev touched_at :
    String
    → Option (String × (String × String))
    → Option FileModificationRecord
    → Option FileModificationRecord
touched_at path none x = x
touched_at path (some (p, (pre, post))) x = if p == path then some (updated p pre post x) else x

file_at-touch_files :
    (path : String) (t : Option (String × (String × String))) (files : List FileModificationRecord)
    → file_at path (touch_files t files) ≡ touched_at path t (file_at path files)
file_at-touch_files path none files = refl
file_at-touch_files path (some (p, (pre, post))) files = file_at-touch_file path p pre post files

continued-touched_at :
    (path : String) (t : Option (String × (String × String))) (x : Option FileModificationRecord)
    (e : Effect) (effects : List Effect)
    → touched e ≡ t
    → continued path (touched_at path t x) effects ≡ continued path x (e ∷ effects)
continued-touched_at path none none e effects h = rw h refl
continued-touched_at path none (some f) e effects h = rw h refl
continued-touched_at path (some (p, (pre, post))) none e effects h =
    rw h (elim (Bool-cases (p == path)) [ inl b ↦ rw b refl | inr b ↦ rw b refl ])
continued-touched_at path (some (p, (pre, post))) (some f) e effects h =
    rw h (elim (Bool-cases (p == path)) [ inl b ↦ rw b refl | inr b ↦ rw b refl ])

file_at-files_from :
    (path : String) (files : List FileModificationRecord) (effects : List Effect)
    → file_at path (files_from files effects) ≡ continued path (file_at path files) effects
unfolding files_from
file_at-files_from path files [] = unchanged (file_at path files)
  where
    unchanged : (x : Option FileModificationRecord) → x ≡ continued path x []
    unchanged none = refl
    unchanged (some f) = refl
file_at-files_from path files (e ∷ effects) =
    file_at-files_from path (touch_files (touched e) files) effects
    ∙ (ap (λ x. continued path x effects) (file_at-touch_files path (touched e) files)
        ∙ continued-touched_at path (touched e) (file_at path files) e effects refl)

touch_files-Distinct :
    (t : Option (String × (String × String))) (files : List FileModificationRecord)
    → Distinct files
    → Distinct (touch_files t files)
touch_files-Distinct none files d = d
touch_files-Distinct (some (p, (pre, post))) files d = touch_file-Distinct p pre post files d

files_from-Distinct :
    (files : List FileModificationRecord) (effects : List Effect)
    → Distinct files
    → Distinct (files_from files effects)
unfolding files_from
files_from-Distinct files [] d = d
files_from-Distinct files (e ∷ effects) d =
    files_from-Distinct (touch_files (touched e) files) effects
      (touch_files-Distinct (touched e) files d)

-- No path has two records, and a path has the record of its history.
pub files_exact :
    (effects : List Effect)
    → Distinct (files_from [] effects)
      × ((path : String) → file_at path (files_from [] effects) ≡ history path effects)
files_exact effects =
    (files_from-Distinct [] effects tt, λ path. file_at-files_from path [] effects)
