-- ===== src/Wire/WebSocket/Frames.antt =====
-- DecodeFrame on what EncodeFrame writes: src/core/websocket_server.cpp.
use mcx.Prelude.{
  ℕ, ◌/◌, ◌%◌, ◌^◌, ◌≤◌, ◌<◌, ◌≡◌, ap, ◌∙◌, inl, inr, false, ◌∷◌, arith, ltb, if◌then◌else◌, ltb→lt,
  lt→ltb, Bool-cases, length, take, take_all, nat_eq, text_key,
}
use mcx.Prelude.Text.{Text}
use mcx.Wire.WebSocket.{ok, extended_length, read_payload, decode_frame, encode_frame}

-- The signed shift gives the length, or a number that no text is as long as.
extended_length-le : (n : ℕ) → n < 65536 → n ≤ extended_length (n / 256 % 256) (n % 256)
unfolding extended_length
extended_length-le n h = ground arith

le→ltb : (a b : ℕ) → b ≤ a → ltb a b ≡ false
le→ltb a b h = ground arith

short_frame :
    (n : ℕ) (message : Text) → n < 126 → decode_frame (0x81 ∷ n ∷ message) ≡ ok (take n message)
unfolding decode_frame read_payload
short_frame n message h = ground arith

middle_frame :
    (hi lo : ℕ) (message : Text)
    → decode_frame (0x81 ∷ 126 ∷ hi ∷ lo ∷ message) ≡ ok (take (extended_length hi lo) message)
unfolding decode_frame read_payload
middle_frame hi lo message = ground arith

long_frame :
    (a b c d e f g h : ℕ) (message : Text)
    → decode_frame (0x81 ∷ 127 ∷ a ∷ b ∷ c ∷ d ∷ e ∷ f ∷ g ∷ h ∷ message) ≡ ok (take 127 message)
unfolding decode_frame read_payload
long_frame a b c d e f g h message = ground arith

-- A message of up to 65535 bytes.
decode_frame_whole :
    (message : Text) → length message < 65536 → decode_frame (encode_frame message) ≡ ok message
unfolding encode_frame decode_frame
decode_frame_whole message h = elim (Bool-cases (ltb (length message) 126)) [
  | inl short ↦ rw short (
      short_frame (length message) message (ltb→lt _ _ short)
      ∙ ap ok (take_all (length message) message (omega arith)))
  | inr longer ↦
      rw (longer, lt→ltb (length message) 65536 h)
        (middle_frame _ _ message
          ∙ ap ok (take_all _ message (extended_length-le (length message) h)))
]

-- From 65536 bytes on only the first 127 bytes are read back: the 64-bit length is not read.
decode_frame_cuts :
    (message : Text)
    → 65536 ≤ length message
    → decode_frame (encode_frame message) ≡ ok (take 127 message)
unfolding encode_frame decode_frame
decode_frame_cuts message h =
    rw (le→ltb (length message) 126 (omega arith), le→ltb (length message) 65536 h)
      (long_frame (byte (2 ^ 56)) (byte (2 ^ 48)) (byte (2 ^ 40)) (byte (2 ^ 32)) (byte (2 ^ 24))
        (byte (2 ^ 16)) (byte (2 ^ 8)) (length message % 256) message)
  where
    byte : ℕ → ℕ
    byte k = length message / k % 256

-- A message of up to 65535 bytes is read back whole; of a longer one only the first 127 bytes are, since
-- the 64-bit length is not read.
pub decode_frame-encode_frame :
    (message : Text)
    → decode_frame (encode_frame message)
      ≡ ok (if ltb (length message) 65536 then message else take 127 message)
decode_frame-encode_frame message = elim (Bool-cases (ltb (length message) 65536)) [
  | inl fits ↦ rw fits (decode_frame_whole message (ltb→lt _ _ fits))
  | inr long ↦ rw long (decode_frame_cuts message (ground (arith, long)))
]
