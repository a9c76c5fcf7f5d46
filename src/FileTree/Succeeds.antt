-- ===== src/FileTree/Succeeds.antt =====
-- When `write` of crates/git-broker/src/tree.rs succeeds.
use vitna_code.Base.{
  take, ℕ, suc, String, true, false, ◌≡◌, ◌≢◌, refl, none, some, List, [], ◌∷◌, ◌++◌, ◌==◌, length,
  ◌⊎◌, inl, inr, ok, arith, eq_iff,
}
use vitna_code.Base.Steps.{next_by, ◌>>=◌}
use vitna_code.Bytes.{Bytes}
use vitna_code.Paths.{same}
use vitna_code.Broker.{Tree, null_hash}
use vitna_code.FileTree.{Place, directory, regular, Disk, Call, open_write, Host, root_place}
use vitna_code.FileTree.Walk.{names_of}
use vitna_code.FileTree.Write.{
  put, calling, verify, checked_old, open_failed, open_and_fill, dirs_of, enter_dirs, open_new,
  open_old, fill_file, write_file, write,
}
use vitna_code.FileTree.Reads.{same_place_refl}

same_taken : (content : Bytes) → same (take (suc (length content)) content) content ≡ true
same_taken [] = refl
same_taken (b ∷ content) = ground (arith, same_taken content)

-- Directories that are there are passed, and nothing is made.
abbrev pub Standing : Disk → Place → List String → Type 0
Standing d dir [] = Unit {0}
Standing d dir (n ∷ dirs) = (d (dir ++ n ∷ []) ≡ some directory) × Standing d (dir ++ n ∷ []) dirs

module _ (h : Host) where
  -- What stands at the path is nothing, for the null hash, or a file with the preimage's hash.
  abbrev pub IsPreimage : Disk → Place → String → Type 0
  IsPreimage d q hash =
      ((d q ≡ none) × (hash ≡ null_hash))
      ⊎ ((old : Bytes) × ((m : ℕ) × ((d q ≡ some (regular old m))
              × (h.sha256_hex old ≡ hash)
              × (hash ≢ null_hash))))

module _ (h : Host) (tree : Tree) (rel : String)
    (never : (c : Call) (p : Place) → h.fails c p ≡ none) where
  enter_dirs-Standing :
      (d : Disk) (dir : Place) (seen dirs : List String)
      → Standing d dir dirs
      → enter_dirs h tree rel dir seen dirs d ≡ (d, ok tt)
  unfolding enter_dirs
  enter_dirs-Standing d dir seen [] s = refl
  enter_dirs-Standing d dir seen (n ∷ dirs) (there, s) =
      rw never (rw there (enter_dirs-Standing d (dir ++ n ∷ []) (seen ++ n ∷ []) dirs s))

  fill_file_ok :
      (d : Disk) (q : Place) (content : Bytes) (mode old : ℕ)
      → fill_file h tree rel content mode q old d ≡ (put q (regular content mode) d, ok tt)
  fill_file_ok d q content mode old = rw never (
      rw never (
        rw same_place_refl
          (rw same_place_refl (rw never (rw same_place_refl (rw same_taken refl))))))

  open_new_ok :
      (d : Disk) (q : Place)
      → d q ≡ none
      → open_new h tree rel q d ≡ (put q (regular [] h.new_mode) d, ok h.new_mode)
  open_new_ok d q absent = rw absent (rw never (rw same_place_refl (rw same_place_refl refl)))

  verify_ok :
      (d : Disk) (q : Place) (old : Bytes) (mode : ℕ)
      → d q ≡ some (regular old mode)
      → verify h tree rel q d ≡ (d, ok mode)
  verify_ok d q old mode there = rw there (rw same_place_refl refl)

  open_old_ok :
      (d : Disk) (q : Place) (old : Bytes) (mode : ℕ) (hash : String)
      → d q ≡ some (regular old mode)
      → h.sha256_hex old ≡ hash
      → open_old h tree rel hash q d ≡ (put q (regular [] mode) d, ok mode)
  open_old_ok d q old mode hash there found =
      next_by (calling h open_write q (open_failed h tree rel) d)
        (λ _. verify h tree rel q >>= checked_old h tree rel hash q)
        (put q (regular [] mode) d, ok mode) d tt (rw never refl)
        (next_by (verify h tree rel q d) (checked_old h tree rel hash q)
          (put q (regular [] mode) d, ok mode) d mode (verify_ok d q old mode there)
          (rw never (rw there (rw ((eq_iff (h.sha256_hex old) hash).1 found) (rw never refl)))))

  open_and_fill_ok :
      (d : Disk) (hash : String) (content : Bytes) (mode : ℕ) (q : Place)
      → IsPreimage h d q hash
      → (open_and_fill h tree rel hash content mode q d).1 ≡ ok tt
  open_and_fill_ok d hash content mode q (inl (absent, null)) =
      rw ((eq_iff hash null_hash).1 null) (rw (open_new_ok d q absent) (rw fill_file_ok refl))
  open_and_fill_ok d hash content mode q (inr (old, (m, (there, found, other)))) =
      rw (let apart : (hash == null_hash) ≡ false = ground (arith, eq_iff hash null_hash) in apart)
        (rw (open_old_ok d q old m hash there found) (rw fill_file_ok refl))

  write_file_ok :
      (d : Disk) (hash : String) (content : Bytes) (mode : ℕ) (dir q : Place) (names : List String)
      → IsPreimage h d q hash
      → (write_file h tree rel hash content mode dir q names d).1 ≡ ok tt
  write_file_ok d hash content mode dir q names (inl (absent, null)) =
      rw never (rw absent (open_and_fill_ok d hash content mode q (inl (absent, null))))
  write_file_ok d hash content mode dir q names (inr (old, (m, (there, found, other)))) =
      rw never
        (rw there (open_and_fill_ok d hash content mode q (inr (old, (m, (there, found, other))))))

-- Where no call fails, the directories of the path stand, and the path holds nothing for the null
-- hash, or a file with the given hash, a write succeeds.
pub write_succeeds :
    (h : Host) (d : Disk) (tree : Tree) (rel hash : String) (content : Bytes) (mode : ℕ)
    (n : String) (names : List String)
    → ((c : Call) (p : Place) → h.fails c p ≡ none)
    → names_of tree rel ≡ ok (n ∷ names)
    → Standing d (root_place tree) (dirs_of n names)
    → IsPreimage h d (root_place tree ++ n ∷ names) hash
    → (write h tree rel hash content mode d).1 ≡ ok tt
unfolding write
write_succeeds h d tree rel hash content mode n names never named standing preimage = rw named (
    rw (enter_dirs-Standing h tree rel never d (root_place tree) [] (dirs_of n names) standing) (
      write_file_ok h tree rel never d hash content mode (root_place tree ++ dirs_of n names)
        (root_place tree ++ n ∷ names) (n ∷ names) preimage))
