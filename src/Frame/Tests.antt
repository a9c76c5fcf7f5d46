-- ===== src/Frame/Tests.antt =====
-- A frame of crates/protocol/src/lib.rs, and the theorems there.
use vitna_code.Base.{◌≡◌, refl, [], ◌∷◌, ◌++◌, ok, err, arith}
use vitna_code.Frame.{
  ProtocolEnvelope, Serde, new, to_be_bytes, read_exact, encode_frame, decode_frame, unexpected_eof,
  incoming_too_long,
}
use vitna_code.Frame.RoundTrip.{decode_frame-encode_frame}

abbrev envelope : ProtocolEnvelope
envelope = new "type.vitna.ai/vitna.protocol.v1.SubmitTurn" "session" "run" 1 "key" (1 ∷ [])

-- An envelope is written as three bytes.
abbrev serde : Serde
serde = record { to_vec = λ e. ok (7 ∷ 8 ∷ 9 ∷ []); from_slice = λ b. ok envelope }

encodes : encode_frame serde envelope ≡ ok (0 ∷ 0 ∷ 0 ∷ 3 ∷ 7 ∷ 8 ∷ 9 ∷ [])
unfolding encode_frame to_be_bytes
encodes = refl

cut_short : decode_frame serde (0 ∷ 0 ∷ 0 ∷ 3 ∷ 7 ∷ []) ≡ err unexpected_eof
unfolding decode_frame read_exact
cut_short = refl

-- 16 MiB and one byte.
oversized : decode_frame serde (1 ∷ 0 ∷ 0 ∷ 1 ∷ []) ≡ err (incoming_too_long 16777217)
unfolding decode_frame
oversized = refl

decodes : decode_frame serde (0 ∷ 0 ∷ 0 ∷ 3 ∷ 7 ∷ 8 ∷ 9 ∷ 5 ∷ []) ≡ ok (envelope, 5 ∷ [])
unfolding decode_frame read_exact
decodes = refl

decode_frame-encode_frame_example :
    decode_frame serde ((0 ∷ 0 ∷ 0 ∷ 3 ∷ 7 ∷ 8 ∷ 9 ∷ []) ++ 5 ∷ []) ≡ ok (envelope, 5 ∷ [])
decode_frame-encode_frame_example =
    decode_frame-encode_frame serde envelope (7 ∷ 8 ∷ 9 ∷ []) (0 ∷ 0 ∷ 0 ∷ 3 ∷ 7 ∷ 8 ∷ 9 ∷ [])
      (5 ∷ []) refl refl (omega arith) encodes
