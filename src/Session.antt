-- ===== src/Session.antt =====
-- What a session did to a folder, and the receipt made from it: crates/app-server/src/journal.rs.
-- Keys and hashes are the records of Receipts.Sign and Store, and serde_json's text of an effect is
-- an argument.
pub mod Files
pub mod Sealed
mod Tests
use Prim.Native.String.{◌++◌ as str_append}
use vitna_code.Base.{
  ℕ, suc, String, Bool, true, false, ◌&&◌, ◌||◌, not, Option, none, some, List, [], ◌∷◌, ◌++◌, ◌==◌,
  length, ◌+◌, Result, ok, err, ◌>>=◌, leb, ltb, nat_eq, if◌then◌else◌,
}
use vitna_code.Base.Print.{to_string}
use vitna_code.Bytes.{Bytes, as_bytes}
use vitna_code.Engine.Execute.{ℤ, pos, negsuc}
use vitna_code.Runner.{backend_none, backend_no_process, code_text}
use vitna_code.Paths.{Text, chars, all_whitespace, trim_start, trim_end}
use vitna_code.Store.{Crypto, genesis_hash}
use vitna_code.Receipts.{
  EvidenceItemRecord, FileModificationRecord, RunnerExecutionStatementRecord, VitnaRunReceiptV1,
}
use vitna_code.Receipts.Merkle.{compute_event_merkle_root}
use vitna_code.Receipts.Sign.{Signing, sign}

abbrev pub absent_preimage_hash : String
absent_preimage_hash = "0000000000000000000000000000000000000000000000000000000000000000"

abbrev pub no_commit : String
no_commit = "0000000000000000000000000000000000000000"

pub record Ran : Type 0 where
  pub action_id : String
  pub exit_code : ℤ
  pub statement_digest : String
  pub sandbox_backend : String
  pub sandbox_enforcement : String
  pub duration_ms : ℕ

-- A write: its path, and the hashes before and after. A removal: its path, and the hash before. A
-- command: its text, its directory, how it ran, and why it did not.
pub data Effect : Type 0 where
  write : String → String → String → Effect
  remove : String → String → Effect
  command : String → String → Option Ran → Option String → Effect

pub record Journal : Type 0 where
  pub effects : List Effect

abbrev pub add_effect : Effect → Journal → Journal
add_effect effect j = record { effects = j.effects ++ effect ∷ [] }

abbrev pub take : Journal → Journal × List Effect
take j = (record { effects = [] }, j.effects)

abbrev pub restore : List Effect → Journal → Journal
restore effects j = record { effects = effects ++ j.effects }

pub record Details : Type 0 where
  pub run_id : String
  pub session_id : String
  pub root : String
  pub base_commit : Option String
  pub provider : String
  pub model : String
  pub completion : String
  pub summary : Option String

-- The path that an effect changes, with its hashes before and after.
abbrev pub touched : Effect → Option (String × (String × String))
touched (write path pre post) = some (path, (pre, post))
touched (remove path pre) = some (path, (pre, absent_preimage_hash))
touched (command text dir ran not_run) = none

-- `files.iter_mut().find(..)`, and what is done with what it finds.
abbrev pub touch_file :
    String → String → String → List FileModificationRecord → List FileModificationRecord
touch_file path pre post [] =
    record { path = path; preimage_hash = pre; postimage_hash = post } ∷ []
touch_file path pre post (f ∷ files) =
    let rest = touch_file path pre post files in
    if f.path == path then record f { postimage_hash = post } ∷ files else f ∷ rest

abbrev pub touch_files :
    Option (String × (String × String)) → List FileModificationRecord → List FileModificationRecord
touch_files none files = files
touch_files (some (path, (pre, post))) files = touch_file path pre post files

-- The loop over the effects, from the records so far.
unfoldable pub files_from : List FileModificationRecord → List Effect → List FileModificationRecord
files_from files [] = files
files_from files (e ∷ effects) = files_from (touch_files (touched e) files) effects

abbrev pub listing : List FileModificationRecord → String
listing [] = ""
listing (f ∷ files) = str_append f.path (
    str_append "\t" (
      str_append f.preimage_hash
        (str_append "\t" (str_append f.postimage_hash (str_append "\n" (listing files))))))

pub record Evidence : Type 0 where
  pub grade : String
  pub description : String
  pub artifact_digest : Option String

abbrev pub is_unsandboxed : Effect → Bool
is_unsandboxed (write path pre post) = false
is_unsandboxed (remove path pre) = false
is_unsandboxed (command text dir none not_run) = false
is_unsandboxed (command text dir (some ran) not_run) = ran.sandbox_backend == backend_none

-- `ran_unsandboxed`, over all effects.
abbrev pub any_unsandboxed : List Effect → Bool
any_unsandboxed [] = false
any_unsandboxed (e ∷ effects) = is_unsandboxed e || any_unsandboxed effects

abbrev place_of : String → String
place_of dir = if dir == "" then "at the top of the folder" else str_append "in " dir

abbrev grade_of : String → String
grade_of backend =
    if backend == backend_none || backend == backend_no_process
    then "broker_observed"
    else "sandbox_captured"

abbrev isolation_of : Ran → String
isolation_of ran =
    if ran.sandbox_backend == backend_none
    then "with no sandbox"
    else if ran.sandbox_backend == backend_no_process
    then "in a runner that starts no process"
    else str_append "in the " (
        str_append ran.sandbox_backend
          (str_append " sandbox (" (str_append ran.sandbox_enforcement ")")))

abbrev named_command : String → String → String → String
named_command text dir rest =
    str_append "`" (str_append text (str_append "` " (str_append (place_of dir) rest)))

abbrev evidence_of : Effect → List Evidence
evidence_of (write path pre post) = []
evidence_of (remove path pre) = []
evidence_of (command text dir (some ran) not_run) =
    record {
      grade = grade_of ran.sandbox_backend;
      description = named_command text dir (
          str_append " exited "
            (str_append (code_text ran.exit_code) (str_append ", " (isolation_of ran))));
      artifact_digest = some ran.statement_digest;
    }
    ∷ []
evidence_of (command text dir none (some reason)) =
    record {
      grade = "broker_observed";
      description = named_command text dir (str_append " did not complete: " reason);
      artifact_digest = none;
    }
    ∷ []
evidence_of (command text dir none none) = []

abbrev pub all_evidence : List Effect → List Evidence
all_evidence [] = []
all_evidence (e ∷ effects) = evidence_of e ++ all_evidence effects

abbrev pub numbered : ℕ → List Evidence → List EvidenceItemRecord
numbered n [] = []
numbered n (e ∷ more) =
    record {
      evidence_id = str_append "ev-" (to_string n);
      grade = e.grade;
      description = e.description;
      artifact_digest = e.artifact_digest;
    }
    ∷ numbered (suc n) more

abbrev or_no_commit : Option String → String
or_no_commit none = no_commit
or_no_commit (some commit) = commit

module _ {SigningKey VerifyingKey : Type 0} (c : Crypto) (s : Signing SigningKey VerifyingKey)
    (effect_text : Effect → Result String String) where
  abbrev pub sha256_hex : String → String
  sha256_hex text = c.hex_encode (c.sha256 (as_bytes text))

  abbrev pub push_hash : String → Result String (List String) → Result String (List String)
  push_hash hash (ok hashes) = ok (hash ∷ hashes)
  push_hash hash (err e) = err e

  -- Each effect is hashed behind the hash before it.
  unfoldable pub chain : String → List Effect → Result String (List String)
  chain previous [] = ok []
  chain previous (e ∷ effects) = do
    body ← effect_text e
    (let hash = sha256_hex (str_append previous (str_append "\n" body)) in
        push_hash hash (chain hash effects))

  abbrev statements_of : SigningKey → Effect → List RunnerExecutionStatementRecord
  statements_of key (write path pre post) = []
  statements_of key (remove path pre) = []
  statements_of key (command text dir none not_run) = []
  statements_of key (command text dir (some ran) not_run) =
      record {
        action_id = ran.action_id;
        statement_digest = ran.statement_digest;
        signature = s.hex_encode (s.sign_bytes key (as_bytes ran.statement_digest));
        sandbox_backend = some ran.sandbox_backend;
        sandbox_enforcement = some ran.sandbox_enforcement;
      }
      ∷ []

  abbrev pub all_statements : SigningKey → List Effect → List RunnerExecutionStatementRecord
  all_statements key [] = []
  all_statements key (e ∷ effects) = statements_of key e ++ all_statements key effects

  abbrev summary_evidence : Option String → List Evidence
  summary_evidence none = []
  summary_evidence (some summary) =
      if all_whitespace (chars summary)
      then []
      else record {
        grade = "model_reported";
        description = summary;
        artifact_digest = some (sha256_hex summary);
      }
        ∷ []

  abbrev pub unsigned : List Effect → Details → SigningKey → String → VitnaRunReceiptV1
  unsigned effects details key root =
      let files = files_from [] effects in
      record {
        schema_version = "vitna-run-receipt-v1";
        run_id = details.run_id;
        session_id = details.session_id;
        workspace_fingerprint = sha256_hex details.root;
        base_commit_sha = or_no_commit details.base_commit;
        model_selection = record {
          provider = details.provider;
          model_sku = details.model;
          routing_reason = "reported_by_page";
          policy_digest = none;
        };
        event_hash_chain_root = root;
        isolation_label = if any_unsandboxed effects then "full_access" else "guarded";
        completion_state = details.completion;
        evidence_items = numbered 1 (all_evidence effects ++ summary_evidence details.summary);
        changeset = record { files_modified = files; diff_digest = sha256_hex (listing files) };
        runner_execution_statements = all_statements key effects;
        child_receipt_roots = [];
        device_signature = "";
      }

  -- The fuel of the root is enough, so it is always there.
  abbrev pub with_root :
      List Effect → Details → SigningKey → Option String → Result String VitnaRunReceiptV1
  with_root effects details key none = err "the root was not computed"
  with_root effects details key (some root) = ok (sign s key (unsigned effects details key root))

  unfoldable pub receipt : List Effect → Details → SigningKey → Result String VitnaRunReceiptV1
  receipt effects details key = do
    hashes ← chain genesis_hash effects
    with_root effects details key (compute_event_merkle_root c hashes)

abbrev between : ℕ → ℕ → ℕ → Bool
between a b n = leb a n && leb n b

abbrev is_ascii_hexdigit : ℕ → Bool
is_ascii_hexdigit n = between b'0' b'9' n || (between b'a' b'f' n || between b'A' b'F' n)

abbrev all_hex : Text → Bool
all_hex [] = true
all_hex (n ∷ t) = is_ascii_hexdigit n && all_hex t

abbrev to_ascii_lowercase : Text → Text
to_ascii_lowercase [] = []
to_ascii_lowercase (n ∷ t) = (if between b'A' b'Z' n then n + 32 else n) ∷ to_ascii_lowercase t

abbrev checked_id : Text → Option Text
checked_id id =
    if (nat_eq (length id) 40 || nat_eq (length id) 64) && all_hex id
    then some (to_ascii_lowercase id)
    else none

-- An id of hex digits has as many bytes as characters.
unfoldable pub commit_id : Text → Option Text
commit_id text = checked_id (trim_end (trim_start text))
