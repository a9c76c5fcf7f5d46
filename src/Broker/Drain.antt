-- ===== src/Broker/Drain.antt =====
-- The merge queue of crates/git-broker/src/merge_queue.rs: what it never writes over, and that it
-- works off its items in order.
use vitna_code.Base.{
  suc, String, ◌≡◌, ◌≢◌, refl, sym, ap, ◌∙◌, none, some, List, [], ◌∷◌, ◌++◌, map, length, Result,
  ok, err, All,
}
use mathlib.Core.List.{append_assoc, append-nil}
use vitna_code.Broker.{ChangeSet, MergeConflict, Tree, Trees, primary_name, validate_preimages}
use vitna_code.Broker.Validate.{Holds, validate_preimages_none_iff}
use vitna_code.Broker.Queue.{
  MergeQueueItem, MergeQueueResult, merged, MergeQueue, merge_checked, merge_item, process_next,
  push_result, process_loop, process_all, Run,
}

-- Every change's path in the primary checkout holds its preimage.
abbrev pub IsClean : {Disk : Type 0} → Trees Disk → Disk → String → ChangeSet → Type 0
IsClean t d root changeset =
    (tree : Tree) × (t.open_tree d root primary_name ≡ ok tree)
    × All (λ c. Holds t d tree c.path c.preimage_hash) changeset.files

-- An item of the queue whose changeset has a path that no longer holds its preimage is not merged,
-- and leaves the disk as it is.
pub merge_item_unclean :
    (Disk : Type 0) (t : Trees Disk) (root : String) (item : MergeQueueItem) (d : Disk)
    → (IsClean t d root item.changeset → ⊥)
    → ((merge_item t root item d).0 ≡ d)
      × ((applied : List String) → (merge_item t root item d).1 ≢ merged applied)
unfolding merge_item
merge_item_unclean Disk t root item d n =
    go (validate_preimages t d root item.changeset)
      (λ y. n ((validate_preimages_none_iff Disk t d root item.changeset).0 y))
  where
    go :
        (r : Result String (List MergeConflict))
        → (r ≡ ok [] → ⊥)
        → ((merge_checked t root item r d).0 ≡ d)
          × ((applied : List String) → (merge_checked t root item r d).1 ≢ merged applied)
    go (err message) m = (refl, λ applied y. absurd (cc))
    go (ok []) m = absurd (m refl)
    go (ok (c ∷ conflicts)) m = (refl, λ applied y. absurd (cc))

module _ (Disk : Type 0) (t : Trees Disk) where
  -- All items are worked off: `new` is what the history got, and the results tell the same.
  abbrev pub IsDrained :
      List MergeQueueItem → List (MergeQueueItem × MergeQueueResult) → Run t → Type 0
  IsDrained pending history none = ⊥
  IsDrained pending history (some (d, q, results)) =
      (q.pending ≡ [])
      × ((new : List (MergeQueueItem × MergeQueueResult)) × (q.history ≡ history ++ new)
          × (map (λ x. x.0) new ≡ pending)
          × (results ≡ map (λ x. (x.0.task_id, x.1)) new))

  IsDrained-push :
      (item : MergeQueueItem) (res : MergeQueueResult) (rest : List MergeQueueItem)
      (history : List (MergeQueueItem × MergeQueueResult)) (r : Run t)
      → IsDrained rest (history ++ (item, res) ∷ []) r
      → IsDrained (item ∷ rest) history (push_result t (some (item.task_id, res)) r)
  IsDrained-push item res rest history none h = h
  IsDrained-push item res rest history (some (d, q, results)) (empty, (new, old, items, told)) = (
    empty,
    (
      (item, res) ∷ new,
      old ∙ append_assoc history ((item, res) ∷ []) new,
      ap (◌∷◌ item) items,
      ap (◌∷◌ (item.task_id, res)) told,
    ),
  )

  IsDrained-process_loop :
      (pending : List MergeQueueItem) (root : String)
      (history : List (MergeQueueItem × MergeQueueResult)) (d : Disk)
      → IsDrained pending history (
          process_loop t
            (suc (length pending))
            (record { primary_repo_root = root; pending = pending; history = history })
            d)
  unfolding process_loop process_next
  IsDrained-process_loop [] root history d = (refl, ([], sym (append-nil history), refl, refl))
  IsDrained-process_loop (item ∷ rest) root history d =
      let (d', res) = merge_item t root item d in
      IsDrained-push item res rest history _
        (IsDrained-process_loop rest root (history ++ (item, res) ∷ []) d')

-- `process_all` always returns, with no item left; its results and what it adds to the history
-- are those of the items that waited, in their order.
pub process_all-IsDrained :
    (Disk : Type 0) (t : Trees Disk) (q : MergeQueue) (d : Disk)
    → IsDrained Disk t q.pending q.history (process_all t q d)
unfolding process_all
process_all-IsDrained Disk t q d =
    IsDrained-process_loop Disk t q.pending q.primary_repo_root q.history d
