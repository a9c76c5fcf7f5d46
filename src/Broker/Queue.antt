-- ===== src/Broker/Queue.antt =====
-- `apply_changeset` of crates/git-broker/src/broker.rs, and the queue of
-- crates/git-broker/src/merge_queue.rs.
use vitna_code.Base.{
  ℕ, zero, suc, String, true, false, Option, none, some, List, [], ◌∷◌, ◌++◌, length, Result, ok,
  err,
}
use vitna_code.Base.Steps.{Step}
use vitna_code.Broker.{ChangeSet, MergeConflict, MergeResult, Trees, validate_preimages}
use vitna_code.Broker.Write.{write_changes}

pub record MergeQueueItem : Type 0 where
  pub queue_id : String
  pub task_id : String
  pub agent_workspace_root : String
  pub changeset : ChangeSet

pub data MergeQueueResult : Type 0 where
  merged : List String → MergeQueueResult
  conflict : List MergeConflict → MergeQueueResult
  error : String → MergeQueueResult

pub record MergeQueue : Type 0 where
  pub primary_repo_root : String
  pub pending : List MergeQueueItem
  pub history : List (MergeQueueItem × MergeQueueResult)

abbrev pub enqueue : MergeQueue → MergeQueueItem → MergeQueue
enqueue q item = record q { pending = q.pending ++ item ∷ [] }

abbrev pub pending_count : MergeQueue → ℕ
pending_count q = length q.pending

module _ {Disk : Type 0} (t : Trees Disk) where
  abbrev pub applied_to :
      ChangeSet → String → Disk × Result String (List String) → Disk × Result String MergeResult
  applied_to changeset base (d, err e) = (d, err e)
  applied_to changeset base (d, ok applied) = (
    d,
    ok (record {
      success = true;
      applied_files = applied;
      conflicts = [];
      new_commit_sha = some base;
    }),
  )

  abbrev pub apply_checked :
      String
      → String
      → String
      → ChangeSet
      → Result String (List MergeConflict)
      → Step Disk MergeResult
  apply_checked primary agent_root base changeset (err e) d = (d, err e)
  apply_checked primary agent_root base changeset (ok (c ∷ conflicts)) d = (
    d,
    ok (record {
      success = false;
      applied_files = [];
      conflicts = c ∷ conflicts;
      new_commit_sha = none;
    }),
  )
  apply_checked primary agent_root base changeset (ok []) d =
      applied_to changeset base (write_changes t primary agent_root changeset d)

  -- `base` is the workspace's `base_commit_sha`.
  unfoldable pub apply_changeset : String → String → String → ChangeSet → Step Disk MergeResult
  apply_changeset primary agent_root base changeset d =
      apply_checked primary agent_root base changeset (validate_preimages t d primary changeset) d

  abbrev pub written : Disk × Result String (List String) → Disk × MergeQueueResult
  written (d, ok applied_files) = (d, merged applied_files)
  written (d, err message) = (d, error message)

  abbrev pub merge_checked :
      String → MergeQueueItem → Result String (List MergeConflict) → Disk → Disk × MergeQueueResult
  merge_checked root item (err message) d = (d, error message)
  merge_checked root item (ok (c ∷ conflicts)) d = (d, conflict (c ∷ conflicts))
  merge_checked root item (ok []) d =
      written (write_changes t root item.agent_workspace_root item.changeset d)

  -- What `process_next` does with its item.
  unfoldable pub merge_item : String → MergeQueueItem → Disk → Disk × MergeQueueResult
  merge_item root item d = merge_checked root item (validate_preimages t d root item.changeset) d

  abbrev pub with_next :
      MergeQueue
      → List MergeQueueItem
      → MergeQueueItem
      → Disk × MergeQueueResult
      → Disk × MergeQueue × Option (String × MergeQueueResult)
  with_next q rest item (d, res) = (
    d,
    record q { pending = rest; history = q.history ++ (item, res) ∷ [] },
    some (item.task_id, res),
  )

  abbrev pub pop_next :
      MergeQueue
      → List MergeQueueItem
      → Disk
      → Disk × MergeQueue × Option (String × MergeQueueResult)
  pop_next q [] d = (d, q, none)
  pop_next q (item ∷ rest) d = with_next q rest item (merge_item q.primary_repo_root item d)

  unfoldable pub process_next :
      MergeQueue → Disk → Disk × MergeQueue × Option (String × MergeQueueResult)
  process_next q d = pop_next q q.pending d

  abbrev pub Run : Type 0
  Run = Option (Disk × MergeQueue × List (String × MergeQueueResult))

  abbrev pub push_result : Option (String × MergeQueueResult) → Run → Run
  push_result res none = none
  push_result none (some r) = some r
  push_result (some res) (some (d, q, results)) = some (d, q, res ∷ results)

  abbrev pub while_pending : List MergeQueueItem → Disk × MergeQueue → Run → Run
  while_pending [] (d, q) more = some (d, q, [])
  while_pending (item ∷ rest) s more = more

  -- The `while` loop, on fuel; `none` means that the fuel ran out.
  unfoldable pub process_loop : ℕ → MergeQueue → Disk → Run
  process_loop zero q d = none
  process_loop (suc fuel) q d =
      let next = process_next q d in
      while_pending q.pending (d, q) (push_result next.2 (process_loop fuel next.1 next.0))

  -- Each round takes one item off, so one round more than there are items is enough fuel.
  unfoldable pub process_all : MergeQueue → Disk → Run
  process_all q d = process_loop (suc (pending_count q)) q d
