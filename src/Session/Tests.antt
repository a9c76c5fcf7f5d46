-- ===== src/Session/Tests.antt =====
-- Receipts of crates/app-server/src/journal.rs for small sessions, and the theorem there.
use vitna_code.Base.{
  String, true, ◌≡◌, refl, none, some, List, [], ◌∷◌, ◌==◌, Result, ok, if◌then◌else◌,
}
use vitna_code.Engine.Execute.{pos}
use vitna_code.Store.{Crypto}
use vitna_code.Bytes.{Bytes}
use vitna_code.Receipts.{VitnaRunReceiptV1}
use vitna_code.Receipts.Sign.{Signing, SigningLaws}
use vitna_code.Session.{
  Effect, Details, write, remove, command, files_from, receipt, commit_id, add_effect, take,
  restore, all_evidence, numbered,
}
use vitna_code.Session.Sealed.{IsSealed, receipt-IsSealed}
use vitna_code.Paths.{trim_start, trim_end}
use vitna_code.Base.Print.{to_string}

abbrev effects : List Effect
effects =
    write "a" "1" "2"
    ∷ write "b" "3" "4"
    ∷ write "a" "2" "5"
    ∷ command "ls" ""
        (some record {
          action_id = "act-1";
          exit_code = pos 0;
          statement_digest = "d";
          sandbox_backend = "none";
          sandbox_enforcement = "none";
          duration_ms = 1;
        })
        none
    ∷ remove "b" "4"
    ∷ []

files :
    files_from [] effects
    ≡ record { path = "a"; preimage_hash = "1"; postimage_hash = "5" }
      ∷ record {
        path = "b";
        preimage_hash = "3";
        postimage_hash = "0000000000000000000000000000000000000000000000000000000000000000";
      }
      ∷ []
unfolding files_from
files = refl

evidence :
    numbered 1 (all_evidence effects)
    ≡ record {
      evidence_id = "ev-1";
      grade = "broker_observed";
      description = "`ls` at the top of the folder exited 0, with no sandbox";
      artifact_digest = some "d";
    }
      ∷ []
unfolding to_string
evidence = refl

-- A journal that is restored keeps its order.
restored :
    (take (
      restore
        (write "a" "1" "2" ∷ [])
        (add_effect (write "b" "3" "4") (record { effects = [] })))).1
    ≡ write "a" "1" "2" ∷ write "b" "3" "4" ∷ []
restored = refl

short_id : commit_id (b'a' ∷ b'b' ∷ []) ≡ none
unfolding commit_id trim_start trim_end
short_id = refl

abbrev bytes_of : String → Bytes
bytes_of h = if h == "01" then 1 ∷ [] else []

abbrev crypto : Crypto
crypto = record {
  sha256 = λ b. 1 ∷ [];
  hex_encode = λ b. "01";
  hex_decode = λ h. some (bytes_of h);
}

-- One key, whose signature is one byte.
abbrev signing : Signing (Unit {0}) (Unit {0})
signing = record {
  quoted = λ s. s;
  hex_encode = λ b. "01";
  hex_decode = λ h. ok (1 ∷ []);
  key_from_bytes = λ b. ok tt;
  signature_from_slice = λ b. ok b;
  sign_bytes = λ key m. 1 ∷ [];
  verify_strict = λ key m signature. true;
  verifying_key = λ key. key;
}

laws : SigningLaws signing
laws = record {
  decode_sign = λ key m. refl;
  slice_sign = λ key m. refl;
  verify_sign = λ key m. refl;
}

abbrev details : Details
details = record {
  run_id = "app-1";
  session_id = "app-session-1";
  root = "/work";
  base_commit = none;
  provider = "p";
  model = "m";
  completion = "completed_with_unknowns";
  summary = none;
}

abbrev text : Effect → Result String String
text e = ok "{}"

receipt-IsSealed_example :
    (r : VitnaRunReceiptV1) × (receipt crypto signing text effects details tt ≡ ok r)
    × IsSealed signing effects tt r
receipt-IsSealed_example =
    receipt-IsSealed (Unit {0}) (Unit {0}) crypto signing text effects details tt laws
      (λ e. ("{}", refl))
