-- ===== src/FileTree/Leaves.antt =====
-- The file that `write` of crates/git-broker/src/tree.rs leaves.
use vitna_code.Base.{
  take, ℕ, suc, String, Bool, true, false, ◌≡◌, ◌≢◌, refl, ◌∙◌, ap, Option, none, some, List, [],
  ◌==◌, length, Result, ok,
}
use vitna_code.Base.Steps.{◌>>=◌, ◌>>◌, done, modify}
use vitna_code.Bytes.{Bytes}
use vitna_code.Paths.{same}
use vitna_code.Broker.{Tree, null_hash}
use vitna_code.FileTree.{
  Place, Node, directory, link, regular, special, Disk, inspect, open_read, open_write, create_new,
  read, truncate, write_all, Host,
}
use vitna_code.FileTree.Walk.{verify_opened, bytes_of, failed}
use vitna_code.FileTree.Write.{
  put, calling, pass_file, create_file, verify, open_new, unchanged, open_file, fill, as_written,
  verify_written, write_file, unverified_if, emptied, compared, checked_old, open_failed,
  unverified, verify_again, read_back, fill_file, open_and_fill, write_found,
}
use vitna_code.FileTree.Reads.{Passes, verify_opened_ok}
use vitna_code.FileTree.Keeps.{
  Keeping, Kept-refl, chain, weaken-Keeping, lift-Keeping, calling-Keeping, made-Keeping,
  looked-Keeping, put_here, put_here-Kept,
}

module _ (h : Host) (tree : Tree) (rel : String) where
  -- A file that `entry` reads, at the end of its walk.
  abbrev pub FileAt : Place → Bytes → ℕ → Disk → Type 0
  FileAt place bytes mode s =
      Passes h s inspect place
      × (s place ≡ some (regular bytes mode))
      × Passes h s open_read place
      × Passes h s read place

  module _ (q : Place) where
    abbrev NotDir : Disk → Type 0
    NotDir s = s q ≢ some directory

    pass_file-Keeping :
        (d : Disk) (dir : Place) (names : List String) (x : Option Node)
        → Keeping q d (λ _ s. Unit {0}) (pass_file h tree rel dir names x d)
    pass_file-Keeping d dir names none = (Kept-refl q d, tt)
    pass_file-Keeping d dir names (some directory) = Kept-refl q d
    pass_file-Keeping d dir names (some (link t)) = Kept-refl q d
    pass_file-Keeping d dir names (some (regular b m)) = (Kept-refl q d, tt)
    pass_file-Keeping d dir names (some (special k)) = Kept-refl q d

    create_file-Keeping :
        (d : Disk) (x : Option Node)
        → d q ≡ x
        → Keeping q d (λ _ s. Unit {0}) (create_file h tree rel q x d)
    create_file-Keeping d (some y) e = Kept-refl q d
    create_file-Keeping d none e =
        weaken-Keeping q d (create_file h tree rel q none d)
          (λ _ s. s q ≡ some (regular [] h.new_mode)) (λ _ s. Unit {0}) (λ _ s there. tt)
          (made-Keeping q h tree rel d q (failed "Cannot create " tree rel) (regular [] h.new_mode)
            e create_new)

    verify-Keeping : (d : Disk) → Keeping q d (λ _ s. NotDir s) (verify h tree rel q d)
    verify-Keeping d =
        weaken-Keeping q d (verify h tree rel q d)
          (λ m s. (s ≡ d) × (verify_opened h tree rel q q (d q) ≡ ok m)) (λ _ s. NotDir s)
          (λ m s (same, verified) dir.
            let there = ap (λ (z : Disk). z q) same in
            let file = (verify_opened_ok h tree rel q q (d q) m verified).1 in cc)
          (lift-Keeping q d (verify_opened h tree rel q q (d q)))

    open_new-Keeping : (d : Disk) → Keeping q d (λ _ s. NotDir s) (open_new h tree rel q d)
    open_new-Keeping d =
        chain q d (create_file h tree rel q (d q) d) (λ _. verify h tree rel q) (λ _ s. Unit {0})
          (λ _ s. NotDir s) (create_file-Keeping d (d q) refl) (λ _ s _. verify-Keeping s)

    unchanged-Keeping :
        (d : Disk) (b : Bool) (hash found : String)
        → Keeping q d (λ _ s. s ≡ d) (unchanged h tree rel b hash found d)
    unchanged-Keeping d true hash found = (Kept-refl q d, refl)
    unchanged-Keeping d false hash found = Kept-refl q d

    emptied-Keeping :
        (d : Disk) (mode : ℕ)
        → NotDir d
        → Keeping q d (λ _ s. NotDir s) (emptied h tree rel q mode d)
    emptied-Keeping d mode other =
        chain q d (calling h truncate q (failed "Failed to write " tree rel) d)
          (λ _. modify (put q (regular [] mode)) >> done mode)
          (λ _ s. (s ≡ d) × Passes h d truncate q) (λ _ s. NotDir s)
          (calling-Keeping q h tree rel d truncate q (failed "Failed to write " tree rel))
          (λ _ s (same, passed). (
            put_here-Kept q (regular [] mode) s
                (λ dir. other (let there = ap (λ (z : Disk). z q) same in cc)),
            (λ dir. let there = put_here q (regular [] mode) s in cc),
          ))

    checked_old-Keeping :
        (d : Disk) (hash : String) (mode : ℕ)
        → NotDir d
        → Keeping q d (λ _ s. NotDir s) (checked_old h tree rel hash q mode d)
    checked_old-Keeping d hash mode other =
        chain q d (calling h read q (failed "Cannot read " tree rel) d)
          (λ _. compared h tree rel hash q >> emptied h tree rel q mode)
          (λ _ s. (s ≡ d) × Passes h d read q) (λ _ s. NotDir s)
          (calling-Keeping q h tree rel d read q (failed "Cannot read " tree rel))
          (λ _ s (same, passed).
            chain q s (compared h tree rel hash q s) (λ _. emptied h tree rel q mode) (λ _ t. t ≡ s)
              (λ _ t. NotDir t)
              (unchanged-Keeping s (h.sha256_hex (bytes_of h (s q)) == hash) hash
                (h.sha256_hex (bytes_of h (s q))))
              (λ _ t again.
                emptied-Keeping t mode
                  (λ dir. other (let there = ap (λ (z : Disk). z q) (again ∙ same) in cc))))

    open_file-Keeping :
        (d : Disk) (hash : String) (b : Bool)
        → Keeping q d (λ _ s. NotDir s) (open_file h tree rel hash q b d)
    open_file-Keeping d hash true = open_new-Keeping d
    open_file-Keeping d hash false =
        chain q d (calling h open_write q (open_failed h tree rel) d)
          (λ _. verify h tree rel q >>= checked_old h tree rel hash q)
          (λ _ s. (s ≡ d) × Passes h d open_write q) (λ _ s. NotDir s)
          (calling-Keeping q h tree rel d open_write q (open_failed h tree rel))
          (λ _ s _.
            chain q s (verify h tree rel q s) (checked_old h tree rel hash q) (λ _ t. NotDir t)
              (λ _ t. NotDir t) (verify-Keeping s)
              (λ mode t other. checked_old-Keeping t hash mode other))

    fill-Keeping :
        (d : Disk) (content : Bytes) (old mode : ℕ) (x : Option String)
        → NotDir d
        → Keeping q d
            (λ _ s. s q ≡ some (regular content mode))
            (fill h tree rel q content old mode x d)
    fill-Keeping d content old mode none other =
        (put_here-Kept q (regular content mode) d other, put_here q (regular content mode) d)
    fill-Keeping d content old mode (some e) other =
        put_here-Kept q (regular (h.partial q content) old) d other

    -- Reading back changes nothing, and shows that the file can be opened and read.
    verify_written-Keeping :
        (d : Disk) (content : Bytes)
        → Keeping q d
            (λ _ s. (s ≡ d) × (Passes h d open_read q × Passes h d read q))
            (verify_written h tree rel q content d)
    verify_written-Keeping d content =
        chain q d (calling h open_read q (unverified h tree rel) d)
          (λ _.
            verify_again h tree rel q
            >> (calling h read q (unverified h tree rel) >> read_back h tree rel q content))
          (λ _ s. (s ≡ d) × Passes h d open_read q)
          (λ _ s. (s ≡ d) × (Passes h d open_read q × Passes h d read q))
          (calling-Keeping q h tree rel d open_read q (unverified h tree rel))
          (λ _ s (same, opened).
            chain q s (verify_again h tree rel q s)
              (λ _. calling h read q (unverified h tree rel) >> read_back h tree rel q content)
              (λ m t.
                (t ≡ s) × (unverified_if h tree rel (verify_opened h tree rel q q (s q)) ≡ ok m))
              (λ _ t. (t ≡ d) × (Passes h d open_read q × Passes h d read q))
              (lift-Keeping q s (unverified_if h tree rel (verify_opened h tree rel q q (s q))))
              (λ _ t (again, _).
                chain q t (calling h read q (unverified h tree rel) t)
                  (λ _. read_back h tree rel q content) (λ _ u. (u ≡ t) × Passes h t read q)
                  (λ _ u. (u ≡ d) × (Passes h d open_read q × Passes h d read q))
                  (calling-Keeping q h tree rel t read q (unverified h tree rel))
                  (λ _ u (still, readable).
                    weaken-Keeping q u (read_back h tree rel q content u)
                      (λ x v. (v ≡ u) × (back u ≡ ok x))
                      (λ _ v. (v ≡ d) × (Passes h d open_read q × Passes h d read q))
                      (λ _ v (end, _). (end ∙ (still ∙ (again ∙ same)), (opened, readable)))
                      (lift-Keeping q u (back u)))))
      where
        back : Disk → Result String (Unit {0})
        back u =
            let b = take (suc (length content)) (bytes_of h (u q)) in
            as_written h tree rel content b (same b content)

    filled-Keeping :
        (d : Disk) (content : Bytes) (mode old : ℕ)
        → NotDir d
        → Passes h d inspect q
        → Keeping q d (λ _ s. FileAt q content mode s) (fill_file h tree rel content mode q old d)
    filled-Keeping d content mode old other passed =
        chain q d (fill h tree rel q content old mode (h.fails write_all q) d)
          (λ _. verify_written h tree rel q content) (λ _ s. s q ≡ some (regular content mode))
          (λ _ s. FileAt q content mode s)
          (fill-Keeping d content old mode (h.fails write_all q) other)
          (λ _ s there.
            weaken-Keeping q s (verify_written h tree rel q content s)
              (λ _ t. (t ≡ s) × (Passes h s open_read q × Passes h s read q))
              (λ _ t. FileAt q content mode t)
              (λ _ t (same, (opened, readable)).
                (passed, ap (λ (z : Disk). z q) same ∙ there, opened, readable))
              (verify_written-Keeping s content))

    opened-Keeping :
        (d : Disk) (hash : String) (content : Bytes) (mode : ℕ)
        → Passes h d inspect q
        → Keeping q d
            (λ _ s. FileAt q content mode s)
            (open_and_fill h tree rel hash content mode q d)
    opened-Keeping d hash content mode passed =
        chain q d (open_file h tree rel hash q (hash == null_hash) d)
          (fill_file h tree rel content mode q) (λ _ s. NotDir s) (λ _ s. FileAt q content mode s)
          (open_file-Keeping d hash (hash == null_hash))
          (λ old s other. filled-Keeping s content mode old other passed)

    pub write_file-Keeping :
        (d : Disk) (hash : String) (content : Bytes) (mode : ℕ) (dir : Place) (names : List String)
        → Keeping q d
            (λ _ s. FileAt q content mode s)
            (write_file h tree rel hash content mode dir q names d)
    write_file-Keeping d hash content mode dir names =
        looked-Keeping q h tree rel d q (write_found h tree rel hash content mode dir q names)
          (λ _ s. FileAt q content mode s)
          (λ x s found passed.
            chain q s (pass_file h tree rel dir names x s)
              (λ _. open_and_fill h tree rel hash content mode q) (λ _ t. Unit {0})
              (λ _ t. FileAt q content mode t) (pass_file-Keeping s dir names x)
              (λ _ t _. opened-Keeping t hash content mode passed))
