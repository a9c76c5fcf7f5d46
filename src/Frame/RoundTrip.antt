-- ===== src/Frame/RoundTrip.antt =====
-- What `decode_frame` of crates/protocol/src/lib.rs reads, and that it reads what `encode_frame` wrote.
use vitna_code.Base.{
  ℕ, zero, suc, ◌/◌, ◌%◌, ◌^◌, ◌≤◌, ◌<◌, String, ◌≡◌, refl, sym, ap, ◌∙◌, subst, false, Option,
  none, some, [], ◌∷◌, ◌++◌, length, Result, ok, err, arith, ltb, if◌then◌else◌, Bool-cases, inl,
  inr,
}
use vitna_code.Bytes.{Bytes}
use vitna_code.Frame.{
  too_long, incoming_too_long, ProtocolEnvelope, Serde, max_frame_size_bytes, to_be_bytes,
  from_be_bytes, framed, encode_frame, read_exact, parsed, read_body, decode_frame,
}

read_exact-append : (xs ys : Bytes) → read_exact (length xs) (xs ++ ys) ≡ some (xs, ys)
unfolding read_exact
read_exact-append [] ys = refl
read_exact-append (x ∷ xs) ys = rw (read_exact-append xs ys) refl

from_be_bytes-to_be_bytes :
    (n : ℕ)
    → n < 2 ^ 32
    → from_be_bytes (n / 16777216) (n / 65536 % 256) (n / 256 % 256) (n % 256) ≡ n
from_be_bytes-to_be_bytes n h = omega arith

framed_ok :
    (serialized frame : Bytes)
    → length serialized < 2 ^ 32
    → framed (ok serialized) ≡ ok frame
    → (length serialized ≤ max_frame_size_bytes)
      × (frame ≡ to_be_bytes (length serialized) ++ serialized)
framed_ok serialized frame h y = checked (length serialized) (
    subst
      (λ n.
        (if ltb max_frame_size_bytes n then err (too_long n) else ok (to_be_bytes n ++ serialized))
        ≡ ok frame)
      same y)
  where
    same : length serialized % 2 ^ 32 ≡ length serialized
    same = omega arith

    checked :
        (n : ℕ)
        → (if ltb max_frame_size_bytes n
            then err (too_long n)
            else ok (to_be_bytes n ++ serialized))
          ≡ ok frame
        → (n ≤ max_frame_size_bytes) × (frame ≡ to_be_bytes n ++ serialized)
    checked n z = elim (Bool-cases (ltb max_frame_size_bytes n)) [
      | inl long ↦ absurd (ground (arith, z, long))
      | inr short ↦ (ground (arith, short), ground (arith, z, short))
    ]

decode_body :
    (s : Serde) (e : ProtocolEnvelope) (serialized rest : Bytes)
    → s.from_slice serialized ≡ ok e
    → length serialized < 2 ^ 32
    → length serialized ≤ max_frame_size_bytes
    → decode_frame s ((to_be_bytes (length serialized) ++ serialized) ++ rest) ≡ ok (e, rest)
unfolding decode_frame to_be_bytes
decode_body s e serialized rest law h short =
    let n = length serialized in
    let back = from_be_bytes-to_be_bytes n h in
    subst
      (λ k.
        (if ltb max_frame_size_bytes k
          then err (incoming_too_long k)
          else read_body s (read_exact k (serialized ++ rest)))
        ≡ ok (e, rest))
      (sym back) (body n refl)
  where
    body :
        (k : ℕ)
        → k ≡ length serialized
        → (if ltb max_frame_size_bytes k
            then err (incoming_too_long k)
            else read_body s (read_exact k (serialized ++ rest)))
          ≡ ok (e, rest)
    body k same =
        let read : read_exact k (serialized ++ rest) ≡ some (serialized, rest) =
          ap (λ m. read_exact m (serialized ++ rest)) same ∙ read_exact-append serialized rest in
        let small : ltb max_frame_size_bytes k ≡ false = ground arith in rw (small, read, law) refl

-- A frame that was encoded, of an envelope whose text is shorter than 2^32 bytes, decodes to that
-- envelope, and leaves the reader at the byte behind the frame.
pub decode_frame-encode_frame :
    (s : Serde) (e : ProtocolEnvelope) (serialized frame rest : Bytes)
    → s.to_vec e ≡ ok serialized
    → s.from_slice serialized ≡ ok e
    → length serialized < 2 ^ 32
    → encode_frame s e ≡ ok frame
    → decode_frame s (frame ++ rest) ≡ ok (e, rest)
unfolding encode_frame
decode_frame-encode_frame s e serialized frame rest v law h y =
    let (short, same) = framed_ok serialized frame h (sym (ap framed v) ∙ y) in
    ap (λ f. decode_frame s (f ++ rest)) same ∙ decode_body s e serialized rest law h short

read_exact_ok :
    (n : ℕ) (input buffer rest : Bytes)
    → read_exact n input ≡ some (buffer, rest)
    → (input ≡ buffer ++ rest) × (length buffer ≡ n)
unfolding read_exact
read_exact_ok zero input [] rest h = (ground arith, refl)
read_exact_ok zero input (x ∷ buffer) rest h = absurd (ground arith)
read_exact_ok (suc n) [] buffer rest h = absurd (ground arith)
read_exact_ok (suc n) (b ∷ input) buffer rest h =
    grown (read_exact n input) (λ x r y. read_exact_ok n input x r y) h
  where
    grown :
        (o : Option (Bytes × Bytes))
        → ((x r : Bytes) → o ≡ some (x, r) → (input ≡ x ++ r) × (length x ≡ n))
        → elim o as (λ _. Option (Bytes × Bytes)) [ none ↦ none | some p ↦ some (b ∷ p.0, p.1) ]
          ≡ some (buffer, rest)
        → (b ∷ input ≡ buffer ++ rest) × (length buffer ≡ suc n)
    grown none ih y = absurd (ground arith)
    grown (some (x, r)) ih y =
        let (split, size) = ih x r refl in
        let front : b ∷ x ≡ buffer = ground arith in
        let back : r ≡ rest = ground arith in
        (
          ap (◌∷◌ b) split ∙ ap (λ z. z ++ r) front ∙ ap (◌++◌ buffer) back,
          ap length (sym front) ∙ ap suc size,
        )

-- The number in a header of four bytes.
abbrev pub IsHeader : Bytes → ℕ → Type 0
IsHeader (a ∷ b ∷ c ∷ d ∷ []) n = from_be_bytes a b c d ≡ n
IsHeader _ n = ⊥

-- What is read as a frame was four bytes with the length of a body of at most 16 MiB, that body,
-- which is the text of the envelope, and what is left.
decode_frame_exact :
    (s : Serde) (input rest : Bytes) (e : ProtocolEnvelope)
    → decode_frame s input ≡ ok (e, rest)
    → (header : Bytes) × ((body : Bytes) × (input ≡ header ++ (body ++ rest))
        × IsHeader header (length body)
        × (length body ≤ max_frame_size_bytes)
        × (s.from_slice body ≡ ok e))
unfolding decode_frame
decode_frame_exact s [] rest e h = absurd (ground arith)
decode_frame_exact s (a ∷ []) rest e h = absurd (ground arith)
decode_frame_exact s (a ∷ b ∷ []) rest e h = absurd (ground arith)
decode_frame_exact s (a ∷ b ∷ c ∷ []) rest e h = absurd (ground arith)
decode_frame_exact s (a ∷ b ∷ c ∷ d ∷ input) rest e h =
    let (body, split, size, short, text) = checked (from_be_bytes a b c d) h in
    (a ∷ b ∷ c ∷ d ∷ [], (body, ap (λ x. a ∷ b ∷ c ∷ d ∷ x) split, sym size, short, text))
  where
    text_of :
        (buffer left : Bytes) (r : Result String ProtocolEnvelope)
        → parsed r left ≡ ok (e, rest)
        → (r ≡ ok e) × (left ≡ rest)
    text_of buffer left (err x) y = absurd (cc)
    text_of buffer left (ok x) y = (ground arith, ground arith)

    body_of :
        (n : ℕ) (o : Option (Bytes × Bytes))
        → ((x r : Bytes) → o ≡ some (x, r) → (input ≡ x ++ r) × (length x ≡ n))
        → read_body s o ≡ ok (e, rest)
        → (body : Bytes) × (input ≡ body ++ rest) × (length body ≡ n) × (s.from_slice body ≡ ok e)
    body_of n none ih y = absurd (ground arith)
    body_of n (some (x, left)) ih y =
        let (split, size) = ih x left refl in
        let (text, end) = text_of x left (s.from_slice x) y in
        (x, split ∙ ap (◌++◌ x) end, size, text)

    checked :
        (n : ℕ)
        → (if ltb max_frame_size_bytes n
            then err (incoming_too_long n)
            else read_body s (read_exact n input))
          ≡ ok (e, rest)
        → (body : Bytes) × (input ≡ body ++ rest)
          × (length body ≡ n)
          × (length body ≤ max_frame_size_bytes)
          × (s.from_slice body ≡ ok e)
    checked n y = elim (Bool-cases (ltb max_frame_size_bytes n)) [
      | inl long ↦ absurd (ground (arith, y, long))
      | inr short ↦
          let (body, split, size, text) =
            body_of n (read_exact n input) (λ x r z. read_exact_ok n input x r z)
              (ground (arith, y, short)) in
          (body, split, size, ground (arith, short, size), text)
    ]
