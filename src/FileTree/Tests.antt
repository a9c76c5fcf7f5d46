-- ===== src/FileTree/Tests.antt =====
-- Reads and writes of crates/git-broker/src/tree.rs on a small disk, and the theorems there.
use vitna_code.Base.{
  String, ◌≡◌, ◌↔◌, refl, inr, none, some, Option, List, [], ◌∷◌, ok, err, nat_eq, arith, eq_iff,
  if◌then◌else◌,
}
use vitna_code.Bytes.{Bytes}
use vitna_code.Broker.{blocked, file, refused, Tree, TreeLaws, null_hash}
use vitna_code.FileTree.{
  Place, root_dir, normal, Node, directory, link, regular, special, Disk, Call, Host, parts,
  components_of, components, canonicalize, root_place, same_place,
}
use vitna_code.FileTree.Walk.{names_of, open_tree, entry}
use vitna_code.FileTree.Write.{enter_dirs, write}
use vitna_code.FileTree.Reads.{LeadsAll, entry_file_iff}
use vitna_code.FileTree.Merges.{file_trees, file_trees-TreeLaws}
use vitna_code.FileTree.Succeeds.{write_succeeds}

abbrev hash : Bytes → String
hash [] = "empty"
hash (x ∷ bytes) = if nat_eq x 1 then "one" else "other"

abbrev quiet : Call → Place → Option String
quiet call place = none

abbrev host : Host
host = record {
  sha256_hex = hash;
  fails = quiet;
  partial = λ place bytes. [];
  new_mode = 420;
  current_dir = "home" ∷ [];
  unresolved = "No such file or directory";
}

-- A checkout with a file, a link that leads out of it, and one that stays.
abbrev nodes : List (Place × Node)
nodes =
    ("repo" ∷ [], directory)
    ∷ ("repo" ∷ "src" ∷ [], directory)
    ∷ ("repo" ∷ "src" ∷ "a" ∷ [], regular (1 ∷ []) 420)
    ∷ ("repo" ∷ "docs" ∷ [], link (root_dir ∷ normal "etc" ∷ []))
    ∷ ("repo" ∷ "kept" ∷ [], link (normal "src" ∷ []))
    ∷ ("repo" ∷ "pipe" ∷ [], special "a FIFO")
    ∷ ("etc" ∷ [], directory)
    ∷ ("here" ∷ [], link (normal "repo" ∷ []))
    ∷ []

abbrev lookup : List (Place × Node) → Place → Option Node
lookup [] p = none
lookup ((q, x) ∷ more) p = let rest = lookup more p in if same_place p q then some x else rest

abbrev disk : Disk
disk = lookup nodes

abbrev tree : Tree
tree = record { name = "the primary checkout"; root = "/repo" }

-- The root's own links are resolved.
open_tree_link : open_tree host disk "/here" "the primary checkout" ≡ ok tree
unfolding open_tree canonicalize components parts components_of
open_tree_link = refl

open_tree_missing :
    open_tree host disk "/gone" "the primary checkout"
    ≡ err "Cannot resolve the primary checkout at '/gone': No such file or directory"
unfolding open_tree canonicalize components parts components_of
open_tree_missing = refl

names_of_up : names_of tree "../a" ≡ err "'../a' is not a path inside the primary checkout"
unfolding names_of components parts components_of
names_of_up = refl

entry_a : entry host disk tree "src/a" ≡ ok (file (1 ∷ []) 420)
unfolding entry names_of root_place components parts components_of
entry_a = refl

entry_below_a :
    entry host disk tree "src/a/b" ≡ ok (blocked "'src/a' is a regular file, not a directory")
unfolding entry names_of root_place components parts components_of
entry_below_a = refl

entry_link :
    entry host disk tree "docs/passwd"
    ≡ ok (
        refused
          "'docs' is a link that leads outside the primary checkout, and links are not followed")
unfolding entry names_of root_place components parts components_of canonicalize
entry_link = refl

entry_link_inside :
    entry host disk tree "kept"
    ≡ ok (
        refused
          "'kept' is a link to 'src' inside the primary checkout, and links are not followed, even inside it")
unfolding entry names_of root_place components parts components_of canonicalize
entry_link_inside = refl

write_through_link : write host tree "docs/passwd" null_hash [] 420 disk ≡ (
  disk,
  err
      "Cannot write 'docs/passwd' in the primary checkout: 'docs' is a link that leads outside the primary checkout, and links are not followed",
)
unfolding write enter_dirs names_of root_place components parts components_of canonicalize
write_through_link = refl

write_new_dir : (write host tree "new/b" null_hash (7 ∷ []) 384 disk).1 ≡ ok tt
unfolding write enter_dirs names_of root_place components parts components_of
write_new_dir = refl

write_stale :
    (write host tree "src/a" "other" (7 ∷ []) 384 disk).1
    ≡ err
        "Cannot write 'src/a' in the primary checkout: it changed after its preimage was checked (expected SHA-256 other, found one)"
unfolding write enter_dirs names_of root_place components parts components_of
write_stale = refl

named_a : names_of tree "src/a" ≡ ok ("src" ∷ "a" ∷ [])
unfolding names_of components parts components_of
named_a = refl

entry_file_iff_example : (entry host disk tree "src/a" ≡ ok (file (1 ∷ []) 420)) ↔ (
    (names : List String) × (names_of tree "src/a" ≡ ok names)
    × LeadsAll host disk (root_place tree) names (1 ∷ []) 420)
entry_file_iff_example = entry_file_iff host disk tree "src/a" (1 ∷ []) 420

file_trees-TreeLaws_example : TreeLaws (file_trees host)
file_trees-TreeLaws_example = file_trees-TreeLaws host

write_succeeds_example : (write host tree "src/a" "one" (7 ∷ []) 384 disk).1 ≡ ok tt
unfolding root_place components parts components_of
write_succeeds_example =
    write_succeeds host disk tree "src/a" "one" (7 ∷ []) 384 "src" ("a" ∷ []) (λ c p. refl) named_a
      (refl, tt)
      (inr (1 ∷ [], (420, (refl, refl, λ e. absurd (ground (arith, eq_iff "one" null_hash))))))
