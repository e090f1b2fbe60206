-- ===== src/Wire/WebSocket/Masked.antt =====
-- DecodeFrame on the masked frames of clients: src/core/websocket_server.cpp.
use mcx.Prelude.{
  ℕ, suc, ◌+◌, ◌-◌, ◌*◌, ◌/◌, ◌%◌, ◌≤◌, ◌<◌, ◌≡◌, refl, ap, ◌∙◌, inl, inr, true, false, ◌||◌, [],
  ◌∷◌, arith, leb, if◌then◌else◌, Bool-cases, length, All, nat_eq, text_key,
}
use mcx.Prelude.Text.{Text}
use mcx.Wire.Bytes.{IsByte, xor_byte, xor_byte_twice}
use mcx.Wire.WebSocket.{ok, undefined, extended_length, unmask, read_payload, decode_frame}

-- The masking of RFC 6455: each byte with the byte of the key whose turn it is.
abbrev pub masked : ℕ → ℕ → ℕ → ℕ → Text → Text
masked k0 k1 k2 k3 [] = []
masked k0 k1 k2 k3 (c ∷ cs) = xor_byte c k0 ∷ masked k1 k2 k3 k0 cs

length-masked : (k0 k1 k2 k3 : ℕ) (s : Text) → length (masked k0 k1 k2 k3 s) ≡ length s
length-masked k0 k1 k2 k3 [] = refl
length-masked k0 k1 k2 k3 (c ∷ s) = ap suc (length-masked k1 k2 k3 k0 s)

unmask-masked :
    (k0 k1 k2 k3 : ℕ) (s : Text)
    → IsByte k0
    → IsByte k1
    → IsByte k2
    → IsByte k3
    → All IsByte s
    → unmask (length s) k0 k1 k2 k3 (masked k0 k1 k2 k3 s) ≡ ok s
unfolding unmask
unmask-masked k0 k1 k2 k3 [] h0 h1 h2 h3 b = refl
unmask-masked k0 k1 k2 k3 (c ∷ s) h0 h1 h2 h3 b =
    ground (arith, xor_byte_twice c k0 b.0 h0, unmask-masked k1 k2 k3 k0 s h1 h2 h3 h0 b.1)

-- Two bytes or more are missing.
unmask_short :
    (n k0 k1 k2 k3 : ℕ) (s : Text) → length s + 2 ≤ n → unmask n k0 k1 k2 k3 s ≡ undefined
unfolding unmask
unmask_short n k0 k1 k2 k3 [] h = ground arith
unmask_short n k0 k1 k2 k3 (c ∷ s) h = ground (arith, unmask_short (n - 1) k1 k2 k3 k0 s)

-- A frame with its length in the second byte is unmasked with the key that follows.
short_key :
    (n b0 b1 k0 k1 k2 k3 : ℕ) (s : Text)
    → read_payload true n 2 (b0 ∷ b1 ∷ k0 ∷ k1 ∷ k2 ∷ k3 ∷ s) ≡ unmask n k0 k1 k2 k3 s
unfolding read_payload
short_key n b0 b1 k0 k1 k2 k3 s = ground arith

middle_key :
    (n b0 b1 b2 b3 k0 k1 k2 k3 : ℕ) (s : Text)
    → read_payload true n 4 (b0 ∷ b1 ∷ b2 ∷ b3 ∷ k0 ∷ k1 ∷ k2 ∷ k3 ∷ s) ≡ unmask n k0 k1 k2 k3 s
unfolding read_payload
middle_key n b0 b1 b2 b3 k0 k1 k2 k3 s = ground arith

masked_frame :
    (n k0 k1 k2 k3 : ℕ) (s : Text)
    → n < 126
    → decode_frame (0x81 ∷ (128 + n) ∷ k0 ∷ k1 ∷ k2 ∷ k3 ∷ s) ≡ unmask n k0 k1 k2 k3 s
unfolding decode_frame
masked_frame n k0 k1 k2 k3 s h =
    let size : (128 + n) % 128 ≡ n = omega arith in
    ground (arith, size, short_key n 0x81 (128 + n) k0 k1 k2 k3 s)

masked_middle_frame :
    (hi lo k0 k1 k2 k3 : ℕ) (s : Text)
    → decode_frame (0x81 ∷ 254 ∷ hi ∷ lo ∷ k0 ∷ k1 ∷ k2 ∷ k3 ∷ s)
      ≡ unmask (extended_length hi lo) k0 k1 k2 k3 s
unfolding decode_frame
masked_middle_frame hi lo k0 k1 k2 k3 s =
    ground (arith, middle_key (extended_length hi lo) 0x81 254 hi lo k0 k1 k2 k3 s)

-- The value of the signed shift.
extended_length_signed :
    (hi lo : ℕ)
    → hi < 256
    → lo < 256
    → (leb 128 lo || leb 128 hi) ≡ true
    → 70000 ≤ extended_length hi lo
unfolding extended_length
extended_length_signed hi lo h l e = ground arith

extended_length_plain :
    (hi lo : ℕ) → (leb 128 lo || leb 128 hi) ≡ false → extended_length hi lo ≡ hi * 256 + lo
unfolding extended_length
extended_length_plain hi lo e = ground arith

-- The text that a client masks in a frame of up to 125 bytes is read back.
pub decode_frame-masked :
    (k0 k1 k2 k3 : ℕ) (message : Text)
    → IsByte k0
    → IsByte k1
    → IsByte k2
    → IsByte k3
    → All IsByte message
    → length message < 126
    → decode_frame (0x81 ∷ (128 + length message) ∷ k0 ∷ k1 ∷ k2 ∷ k3 ∷ masked k0 k1 k2 k3 message)
      ≡ ok message
decode_frame-masked k0 k1 k2 k3 message h0 h1 h2 h3 b h =
    masked_frame (length message) k0 k1 k2 k3 (masked k0 k1 k2 k3 message) h
    ∙ unmask-masked k0 k1 k2 k3 message h0 h1 h2 h3 b

-- A frame whose second byte claims at least two bytes more than follow its key is read past its end.
decode_frame_overreads :
    (n k0 k1 k2 k3 : ℕ) (rest : Text)
    → n < 126
    → length rest + 2 ≤ n
    → decode_frame (0x81 ∷ (128 + n) ∷ k0 ∷ k1 ∷ k2 ∷ k3 ∷ rest) ≡ undefined
decode_frame_overreads n k0 k1 k2 k3 rest h short =
    masked_frame n k0 k1 k2 k3 rest h ∙ unmask_short n k0 k1 k2 k3 rest short

-- A masked message with a 16-bit length is read back exactly where both bytes of the length are below
-- 128; where one is not, its sign makes the length huge, and the frame is read past its end.
decode_frame-masked_middle :
    (k0 k1 k2 k3 : ℕ) (message : Text)
    → IsByte k0
    → IsByte k1
    → IsByte k2
    → IsByte k3
    → All IsByte message
    → length message < 65536
    → let hi = length message / 256 in
      let lo = length message % 256 in
      decode_frame (0x81 ∷ 254 ∷ hi ∷ lo ∷ k0 ∷ k1 ∷ k2 ∷ k3 ∷ masked k0 k1 k2 k3 message)
      ≡ (if leb 128 lo || leb 128 hi then undefined else ok message)
decode_frame-masked_middle k0 k1 k2 k3 message h0 h1 h2 h3 b h =
    let hi = length message / 256 in
    let lo = length message % 256 in
    let hidden = masked k0 k1 k2 k3 message in
    masked_middle_frame hi lo k0 k1 k2 k3 hidden ∙ elim (Bool-cases (leb 128 lo || leb 128 hi)) [
      | inl signed ↦ rw signed (
          unmask_short (extended_length hi lo) k0 k1 k2 k3 hidden (
            omega (
              arith,
              length-masked k0 k1 k2 k3 message,
              extended_length_signed hi lo (omega arith) (omega arith) signed,
            )))
      | inr plain ↦
          let size : extended_length hi lo ≡ length message =
            extended_length_plain hi lo plain ∙ omega arith in
          rw (plain, size) (unmask-masked k0 k1 k2 k3 message h0 h1 h2 h3 b)
    ]
