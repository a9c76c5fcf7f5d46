-- ===== src/Broker/Apply.antt =====
-- What `write_changes` of crates/git-broker/src/broker.rs leaves in the primary checkout.
use vitna_code.Base.{
  ℕ, String, ◌≡◌, ◌≢◌, refl, ◌∙◌, subst, List, [], ◌∷◌, ◌++◌, map, Result, ok, err, arith, eq_iff,
  All,
}
use mathlib.Core.List.{append_assoc, append-nil}
use vitna_code.Base.Steps.{Step, next}
use vitna_code.Bytes.{Bytes}
use vitna_code.Broker.{FileChange, Entry, absent, blocked, file, refused, Tree, Trees, TreeLaws}
use vitna_code.Broker.Write.{
  Source, stopped, map_err, attested, source_of, push_source, read_sources, write_sources,
}

abbrev pub path_of : FileChange → String
path_of c = c.path

-- No two changes lead to one place.
abbrev pub DistinctPlaces : {Disk : Type 0} → Trees Disk → Tree → List FileChange → Type 0
DistinctPlaces t tree [] = Unit
DistinctPlaces t tree (c ∷ files) =
    All (λ x. t.place tree c.path ≢ t.place tree x.path) files × DistinctPlaces t tree files

abbrev pub changes : List Source → List FileChange
changes = map (λ s. s.change)

module _ (Disk : Type 0) (t : Trees Disk) where
  -- A source that was read of this tree, with the hash that its change attests.
  abbrev pub IsRead : Disk → Tree → Source → Type 0
  IsRead d agent s =
      (t.sha256_hex s.bytes ≡ s.change.postimage_hash)
      × (t.entry d agent s.change.path ≡ ok (file s.bytes s.mode))

  attested_ok :
      (change : FileChange) (bytes : Bytes) (mode : ℕ) (s : Source)
      → attested t change bytes mode ≡ ok s
      → (record { change = change; bytes = bytes; mode = mode } ≡ s)
        × (t.sha256_hex bytes ≡ change.postimage_hash)
  attested_ok change bytes mode s h =
      ground (arith, eq_iff (t.sha256_hex bytes) change.postimage_hash)

  source_ok :
      (d : Disk) (agent : Tree) (change : FileChange) (r : Result String Entry) (s : Source)
      → t.entry d agent change.path ≡ r
      → source_of t change r ≡ ok s
      → (s.change ≡ change) × IsRead d agent s
  source_ok d agent change (err e) s y h = absurd (cc)
  source_ok d agent change (ok absent) s y h = absurd (cc)
  source_ok d agent change (ok (blocked reason)) s y h = absurd (cc)
  source_ok d agent change (ok (refused reason)) s y h = absurd (cc)
  source_ok d agent change (ok (file bytes mode)) s y h =
      let (same, hash) = attested_ok change bytes mode s h in
      subst (λ x. (x.change ≡ change) × IsRead d agent x) same (refl, (hash, y))

  pushed_ok :
      (d : Disk) (agent : Tree) (change : FileChange) (files : List FileChange)
      (r : Result String Source) (rest : Result String (List Source)) (out : List Source)
      → ((s : Source) → r ≡ ok s → (s.change ≡ change) × IsRead d agent s)
      → ((more : List Source) → rest ≡ ok more → (changes more ≡ files) × All (IsRead d agent) more)
      → push_source r rest ≡ ok out
      → (changes out ≡ change ∷ files) × All (IsRead d agent) out
  pushed_ok d agent change files (err e) rest out p q h = absurd (cc)
  pushed_ok d agent change files (ok s) (err e) out p q h = absurd (cc)
  pushed_ok d agent change files (ok s) (ok more) out p q h =
      let (c, read) = p s refl in
      let (cs, reads) = q more refl in
      let same : s ∷ more ≡ out = ground arith in
      subst (λ x. (changes x ≡ change ∷ files) × All (IsRead d agent) x) same
        (ground (arith, c, cs), (read, reads))

  pub read_sources_ok :
      (d : Disk) (agent : Tree) (files : List FileChange) (sources : List Source)
      → read_sources t d agent files ≡ ok sources
      → (changes sources ≡ files) × All (IsRead d agent) sources
  unfolding read_sources
  read_sources_ok d agent [] [] h = (refl, tt)
  read_sources_ok d agent [] (s ∷ sources) h = absurd (ground arith)
  read_sources_ok d agent (c ∷ files) sources h =
      pushed_ok d agent c files (source_of t c (t.entry d agent c.path))
        (read_sources t d agent files) sources
        (λ s y. source_ok d agent c (t.entry d agent c.path) s refl y)
        (λ more y. read_sources_ok d agent files more y) h

  module _ (laws : TreeLaws t) (primary : Tree) where
    next_keep :
        (r : Disk × Result String (Unit {0})) (f : String → String) (k : Step Disk (List String))
        (P : Disk → Type 0)
        → P r.0
        → ((d : Disk) → P d → P (k d).0)
        → P (next (map_err f r) (λ _. k)).0
    next_keep (d, ok u) f k P p step = step d p
    next_keep (d, err e) f k P p step = p

    -- A file at another place than those that are written stays.
    write_sources_other :
        (total : ℕ) (sources : List Source) (applied : List String) (d : Disk) (path : String)
        (found : Bytes) (m : ℕ)
        → All (λ c. t.place primary path ≢ t.place primary c.path) (changes sources)
        → t.entry d primary path ≡ ok (file found m)
        → t.entry (write_sources t primary total sources applied d).0 primary path
          ≡ ok (file found m)
    unfolding write_sources
    write_sources_other total [] applied d path found m a e = e
    write_sources_other total (s ∷ sources) applied d path found m a e =
        next_keep _ _ _ (λ x. t.entry x primary path ≡ ok (file found m))
          (laws.entry_write_other d primary s.change.path path s.change.preimage_hash s.bytes found
            s.mode m a.0 e)
          (λ d' e'.
            write_sources_other total sources (applied ++ s.change.path ∷ []) d' path found m a.1
              e')

    abbrev IsWritten : Disk → Source → Type 0
    IsWritten d s = t.entry d primary s.change.path ≡ ok (file s.bytes s.mode)

    pub write_sources_ok :
        (total : ℕ) (sources : List Source) (applied out : List String) (d : Disk)
        → DistinctPlaces t primary (changes sources)
        → (write_sources t primary total sources applied d).1 ≡ ok out
        → (out ≡ applied ++ map path_of (changes sources))
          × All (IsWritten (write_sources t primary total sources applied d).0) sources
    unfolding write_sources
    write_sources_ok total [] applied out d u h = (ground (arith, append-nil applied), tt)
    write_sources_ok total (s ∷ sources) applied out d u h =
        go (t.write primary s.change.path s.change.preimage_hash s.bytes s.mode d) refl
          (λ d' y. write_sources_ok total sources (applied ++ s.change.path ∷ []) out d' u.1 y) h
      where
        rest : Step Disk (List String)
        rest = write_sources t primary total sources (applied ++ s.change.path ∷ [])

        go :
            (r : Disk × Result String (Unit {0}))
            → t.write primary s.change.path s.change.preimage_hash s.bytes s.mode d ≡ r
            → ((d' : Disk)
                → (rest d').1 ≡ ok out
                → (out ≡ (applied ++ s.change.path ∷ []) ++ map path_of (changes sources))
                  × All (IsWritten (rest d').0) sources)
            → (next (map_err (λ e. stopped e applied total) r) (λ _. rest)).1 ≡ ok out
            → (out ≡ applied ++ map path_of (changes (s ∷ sources)))
              × All
                  (IsWritten (next (map_err (λ e. stopped e applied total) r) (λ _. rest)).0)
                  (s ∷ sources)
        go (d', err e) y ih h = absurd (cc)
        go (d', ok x) y ih h =
            let (paths, written) = ih d' h in
            let here =
              laws.entry_write d d' primary s.change.path s.change.preimage_hash s.bytes s.mode y in
            (
              paths ∙ append_assoc applied (s.change.path ∷ []) _,
              (
                write_sources_other total sources (applied ++ s.change.path ∷ []) d' s.change.path
                    s.bytes s.mode u.0 here,
                written,
              ),
            )
