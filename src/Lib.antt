-- ===== src/Lib.antt =====
-- Vitna Code runs coding agents locally. An orchestrator (crates/orchestration) takes a graph of
-- tasks, runs the tools of each task in a sandbox and records what happened as events; the event
-- store (crates/store) keeps the events of a run as a hash chain in a table; a receipt
-- (crates/receipts) sums up a run by the Merkle root of its event hashes, signed with the device's
-- key, and can be checked offline (crates/vitna-receipt-verify). Agents work in workspaces of their
-- own, and a broker (crates/git-broker) merges their changesets into the primary checkout, one after
-- the other. Clients talk to the daemon in length-prefixed frames (crates/protocol), and a page talks
-- to a local server that resolves the paths it names (crates/app-server). Commands run through a
-- runner that journals them (crates/vitna-runner) in a sandbox (crates/vitna-sandbox).
--
-- Which file models what:
--
-- Dag.antt is crates/orchestration/src/dag.rs: TaskStatus, TaskNode and TaskGraph with add_node,
-- validate, get_ready_tasks, mark_running, mark_succeeded, mark_failed and is_complete. The HashMap
-- of nodes is the list of its entries in the order that the map iterates in; nothing is assumed of
-- that order. Dag/Validate.antt and Dag/Kahn.antt hold Kahn's algorithm and its invariants,
-- Dag/Acyclic.antt, Dag/Complete.antt and Dag/Verdict.antt what its verdict means;
-- Dag/Cascade.antt, Dag/Downstream.antt, Dag/Cancels.antt and Dag/Failure.antt the cancellation of
-- what waits for a failed task; Dag/Ready.antt the ready tasks; Dag/Reach.antt the graphs that can
-- be built.
--
-- Store.antt is crates/store/src/lib.rs: EventRecord with new, calculate_hash and verify_integrity;
-- EventStore with append_event, last_sequence, get_events and events_after. The SQL table of
-- crates/store/migrations/0001_initial_schema.sql is the list of its rows, its two constraints are
-- `clashes`, and its queries are functions on the list. Store/Replay.antt is replay_run, and
-- Store/Chain.antt what it finds; Store/Hash.antt is what an event's hash covers; Store/Table.antt,
-- Store/Resume.antt and Store/Sequence.antt are about the table.
--
-- Receipts.antt is crates/receipts/src/lib.rs: the records of a receipt and aggregate_child_receipt
-- (Receipts/Aggregate.antt); Receipts/Merkle.antt is compute_event_merkle_root, and
-- Receipts/Binding.antt what its root binds.
--
-- Receipts/Canonical.antt is to_canonical_bytes with canonicalize_value; Receipts/Sign.antt is sign
-- and verify_signature, and verify_receipt of crates/vitna-receipt-verify/src/lib.rs, with
-- Receipts/Verify.antt on what a verdict means. Ed25519, hex and the quoting of a text are the record
-- Signing, and what their documentation says of a signature is the record SigningLaws.
--
-- Engine.antt is the state of crates/orchestration/src/engine.rs with record_event, new and
-- continuing_at; Engine/Execute.antt is execute_task_step and observed_isolation_label, written in
-- the Step monad of Base/Steps.antt, which keeps the state that an early return leaves behind. The
-- registry of tools (crates/tools/src/lib.rs), the context assembler (crates/context) and the runner
-- (crates/vitna-runner) are the record Parts; what is outside is the record World. Both are
-- arguments, and `ticks` counts the tried events so that the clock, the disk, a tool and the sandbox
-- may answer differently each time. Engine/Record.antt says what a log is, Engine/Gates.antt and
-- Engine/Approval.antt follow a step, Engine/Outcome.antt and Engine/Replay.antt
-- draw the conclusions; the last of them connects the engine with the store. No other writer appends
-- to the store during a step.
--
-- Broker.antt is crates/git-broker/src/broker.rs: the records of a changeset and validate_preimages
-- (Broker/Validate.antt says when it finds nothing); Broker/Write.antt is write_changes, with
-- Broker/Apply.antt on its two loops; Broker/Queue.antt is apply_changeset and the queue of
-- crates/git-broker/src/merge_queue.rs; Broker/Merge.antt and Broker/Drain.antt draw the conclusions.
-- The trees of crates/git-broker/src/tree.rs are the record Trees over a type of disks, and what the
-- comments there promise of a write is the record TreeLaws, which FileTree/Merges.antt
-- fills. Nothing else writes to the disk during a merge.
--
-- Frame.antt is the framing of crates/protocol/src/lib.rs: ProtocolEnvelope, encode_frame and
-- decode_frame, with the cut of the length to 32 bits written out; Frame/RoundTrip.antt is about
-- both. The JSON of an envelope is the record Serde.
--
-- Paths.antt is `resolve` and `guarded` of crates/app-server/src/paths.rs, on texts as the lists of their
-- characters' numbers, with the White_Space property of Unicode written out; Paths/Safe.antt says
-- what `resolve` lets through, and Paths/Guard.antt is about `guarded`. The lower case of Unicode is an
-- argument.
--
-- Engine/Finalize.antt is finalize_run; Engine/Verified.antt says what its verification command does,
-- and Engine/Sealed.antt what its receipt is. Writing the receipt's file is the record Outputs.
--
-- FileTree.antt is the file system under crates/git-broker/src/tree.rs: what stands at a place, and how
-- a path is split and resolved. FileTree/Walk.antt is `new`, `names` and `entry`; FileTree/Write.antt is
-- `write` with what it calls. The record Host holds what a system answers: which call fails at which
-- place, and what a failed write leaves; a call fails or not independently of the time, and no other
-- process changes the disk during a call, so the check of an opened file always finds the expected
-- one; a node stands at one place, so there are no hard links. The handle's own path is what /proc gives on Linux. A path of
-- links is followed for 40 links. FileTree/Reads.antt is about `entry`; FileTree/Keeps.antt,
-- FileTree/Enters.antt and FileTree/Leaves.antt follow a write, FileTree/Succeeds.antt says when it
-- succeeds, and FileTree/Merges.antt fills the broker's record of trees.
--
-- Sandbox.antt is crates/vitna-sandbox/src/lib.rs: the plan, the Bubblewrap arguments and the Seatbelt
-- profile. The system, its probes and which paths exist are the record Machine. Sandbox/Binds.antt
-- reads the arguments as Bubblewrap does, one mount after the other, its own file systems among them, and Sandbox/Claims.antt is about
-- what a plan claims.
--
-- Runner.antt is ProcessRunner::run_command of crates/vitna-runner/src/lib.rs, with the plan of
-- Sandbox.antt; Runner/Journal.antt is ActionJournal of crates/vitna-runner/src/journal.rs, on the bytes
-- of its file. What the system answers (clock, child, signals, and what each append achieves) is the
-- record System, and serde_json is the record Serde. The field `trace` of the journal is not in the
-- program: it notes, in order, the entries on the disk and what happens to the child, with what a teardown of it
-- achieved; descendants of a child are not followed. The mutex around
-- the journal is never poisoned. Runner/Protocol.antt is the state machine of an action,
-- Runner/Follows.antt shows that a run follows it, and Runner/Reopens.antt is about the file.
--
-- Session.antt is crates/app-server/src/journal.rs: the effects of a session and the receipt made from
-- them; Session/Files.antt is about its file records and Session/Sealed.antt about the whole. The
-- receipt's keys and hashes are those of Receipts.
--
-- Ledger.antt is the capped read of crates/app-server/src/ledger.rs and `text` of
-- crates/app-server/src/routines.rs; Ledger/Routines.antt is `one` and the loop of `read` there. What
-- stands at a path is what was there when its size was taken and what was appended before it was read.
-- The folder, its locks and serde_json are the record Folder. Ledger/Rows.antt and Ledger/Budget.antt
-- are about the two reads.
--
-- ToolPath.antt is crates/tools/src/path_safety.rs as on Unix, where a normalized path is the list of
-- its components; ToolPath/Within.antt is about normalizing, and ToolPath/Keeps.antt and
-- ToolPath/Accepts.antt about the guard.
--
-- Policy.antt is the signed model policy of crates/policy/src/lib.rs, with the canonical form of
-- Receipts/Canonical.antt, whose code the policy repeats; Policy/Signed.antt is about signing one.
--
-- Admission.antt is crates/app-server/src/admission.rs and the order in which `handle` of
-- crates/app-server/src/api.rs asks, up to the route that it calls; a request is the record of what is
-- read of it, and the sessions are an argument. Admission/Shows.antt is about each test, and
-- Admission/Admits.antt about who reaches a route.
--
-- Base.antt and its children are shared helpers: Boolean tests, lists, the Result type with the
-- `?` operator as a do block, membership, and sort on texts. Bytes.antt is what the standard
-- library does with byte strings: UTF-8, decimal print, windows.
--
-- Arguments of the model. SHA-256, hex encoding and hex decoding come from third-party crates; they
-- are the fields of the record Crypto of Store.antt, and no theorem assumes more of them than it
-- names. Whether the disk takes a write is a Boolean argument of append_event.
--
-- Loops. Kahn's loop and the cascade of a failure run on fuel, with `none` where it runs out, and
-- so do the reduction to a Merkle root and the merge queue: a task enters the queue of Kahn's loop
-- once, so one round more than there are tasks is enough; a cascade takes one round for each task it
-- cancels; a level of hashes shrinks in each round; and the merge queue takes one item off in each
-- round. All other
-- loops are structural.
--
-- Numbers. A u64 is a natural number; where the code depends on its bounds (the i64 that SQLite
-- stores, the digits of a decimal print, a sum that would overflow) the bound is written out.
--
-- Not modelled: sockets, operating system handles, running processes, model services and user
-- interfaces, which are effects outside of the program, and the clock, whose reading is an argument.
-- The tools, the daemon, the providers and the HTTP routes over these parts are left out so far.
pub mod Admission
pub mod Base
pub mod Broker
pub mod Bytes
pub mod Dag
pub mod Engine
pub mod FileTree
pub mod Frame
pub mod Ledger
pub mod Paths
pub mod Policy
pub mod Receipts
pub mod Runner
pub mod Sandbox
pub mod Session
pub mod Store
pub mod ToolPath
