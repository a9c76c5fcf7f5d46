-- ===== src/Frame.antt =====
-- The frames of crates/protocol/src/lib.rs: an envelope behind its length in four bytes. How
-- `serde_json` writes and reads an envelope is an argument, and a reader is the bytes it still has.
pub mod RoundTrip
mod Tests
use vitna_code.Base.{
  ℕ, zero, suc, ◌+◌, ◌*◌, ◌/◌, ◌%◌, ◌^◌, String, Bool, Option, none, some, List, [], ◌∷◌, ◌++◌,
  length, Result, ok, err, ltb, if◌then◌else◌,
}
use vitna_code.Bytes.{Bytes}

abbrev pub protocol_version_major : ℕ
protocol_version_major = 1

abbrev pub protocol_version_minor : ℕ
protocol_version_minor = 0

abbrev pub max_frame_size_bytes : ℕ
max_frame_size_bytes = 16777216

pub record ProtocolEnvelope : Type 0 where
  pub protocol_version_major : ℕ  -- u32, and so the next two
  pub protocol_version_minor : ℕ
  pub schema_version : ℕ
  pub type_url : String
  pub session_id : String
  pub run_id : String
  pub sequence : ℕ  -- u64
  pub idempotency_key : String
  pub payload : Bytes

-- `ProtocolEnvelope::new`
abbrev pub new : String → String → String → ℕ → String → Bytes → ProtocolEnvelope
new type_url session_id run_id sequence idempotency_key payload = record {
  protocol_version_major = protocol_version_major;
  protocol_version_minor = protocol_version_minor;
  schema_version = 1;
  type_url = type_url;
  session_id = session_id;
  run_id = run_id;
  sequence = sequence;
  idempotency_key = idempotency_key;
  payload = payload;
}

-- `io::Error`, by its kind; `invalid_data` carries what is wrong.
pub data FrameError : Type 0 where
  not_json : String → FrameError
  too_long : ℕ → FrameError
  incoming_too_long : ℕ → FrameError
  unexpected_eof : FrameError

-- `u32::to_be_bytes` and `u32::from_be_bytes`
unfoldable pub to_be_bytes : ℕ → Bytes
to_be_bytes n = n / 16777216 ∷ n / 65536 % 256 ∷ n / 256 % 256 ∷ n % 256 ∷ []

abbrev pub from_be_bytes : ℕ → ℕ → ℕ → ℕ → ℕ
from_be_bytes a b c d = a * 16777216 + b * 65536 + c * 256 + d

-- `serde_json`
pub record Serde : Type 0 where
  pub to_vec : ProtocolEnvelope → Result String Bytes
  pub from_slice : Bytes → Result String ProtocolEnvelope

abbrev pub framed : Result String Bytes → Result FrameError Bytes
framed (err e) = err (not_json e)
framed (ok serialized) =
    let len = length serialized % 2 ^ 32 in
    if ltb max_frame_size_bytes len then err (too_long len) else ok (to_be_bytes len ++ serialized)

-- The length is cut to 32 bits before it is compared.
unfoldable pub encode_frame : Serde → ProtocolEnvelope → Result FrameError Bytes
encode_frame s envelope = framed (s.to_vec envelope)

-- `read_exact`: so many bytes, and what is left, or the end of the input.
unfoldable pub read_exact : ℕ → Bytes → Option (Bytes × Bytes)
read_exact zero input = some ([], input)
read_exact (suc n) [] = none
read_exact (suc n) (b ∷ input) = elim (read_exact n input) [
  | none ↦ none
  | some (buffer, rest) ↦ some (b ∷ buffer, rest)
]

abbrev pub parsed :
    Result String ProtocolEnvelope → Bytes → Result FrameError (ProtocolEnvelope × Bytes)
parsed (err e) rest = err (not_json e)
parsed (ok envelope) rest = ok (envelope, rest)

abbrev pub read_body : Serde → Option (Bytes × Bytes) → Result FrameError (ProtocolEnvelope × Bytes)
read_body s none = err unexpected_eof
read_body s (some (buffer, rest)) = parsed (s.from_slice buffer) rest

-- The envelope and the bytes after its frame.
unfoldable pub decode_frame : Serde → Bytes → Result FrameError (ProtocolEnvelope × Bytes)
decode_frame s (a ∷ b ∷ c ∷ d ∷ input) =
    let frame_len = from_be_bytes a b c d in
    if ltb max_frame_size_bytes frame_len
    then err (incoming_too_long frame_len)
    else read_body s (read_exact frame_len input)
decode_frame s (a ∷ b ∷ c ∷ []) = err unexpected_eof
decode_frame s (a ∷ b ∷ []) = err unexpected_eof
decode_frame s (a ∷ []) = err unexpected_eof
decode_frame s [] = err unexpected_eof
