-- ===== src/Wire/WebSocket.antt =====
-- src/core/websocket_server.cpp: the frames. A char is a byte, and is signed where the source shifts
-- it, as on the x86-64 hosts that the server is built for. A frame can be read one byte past its end,
-- where std::string keeps a zero; a read further on is undefined, and `substr` past the end throws.
pub mod Frames
pub mod Masked
pub mod Clients
use mcx.Prelude.{
  ℕ, ◌+◌, ◌-◌, ◌*◌, ◌/◌, ◌%◌, ◌^◌, Bool, not, ◌&&◌, Option, none, some, List, [], ◌∷◌, ◌++◌, ltb,
  leb, ◌==◌, if◌then◌else◌, length, get_elem?, take, drop, Eq, nat_eq, text_key,
}
use mcx.Prelude.Text.{Text}
use mcx.Wire.Bytes.{xor_byte}

pub data Outcome : Type 0 where
  ok : Text → Outcome
  throws undefined : Outcome

-- `frame[i]`
unfoldable pub char_at : Text → ℕ → Option ℕ
char_at frame i = if i == length frame then some 0 else get_elem? frame i

-- `(frame[2] << 8) | frame[3]`, with both chars signed, as a uint64_t. A negative second char sets
-- every bit above it; a negative first one sets every bit above the shift.
unfoldable pub extended_length : ℕ → ℕ → ℕ
extended_length hi lo =
    if leb 128 lo
    then 2 ^ 64 - (256 - lo)
    else if leb 128 hi
    then 2 ^ 64 - ((256 - hi) * 256 - lo)
    else hi * 256 + lo

-- The loop that takes off the mask: `n` bytes from those that are left, with the key turned as far
-- as the loop has come.
unfoldable pub unmask : ℕ → ℕ → ℕ → ℕ → ℕ → List ℕ → Outcome
unmask n k0 k1 k2 k3 [] =
    if n == 0 then ok [] else if n == 1 then ok (xor_byte 0 k0 ∷ []) else undefined
unmask n k0 k1 k2 k3 (c ∷ cs) =
    let rest = unmask (n - 1) k1 k2 k3 k0 cs in
    if n == 0
    then ok []
    else elim rest [ ok text ↦ ok (xor_byte c k0 ∷ text) | throws ↦ throws | undefined ↦ undefined ]

-- A loop that starts behind the end of the frame may read nothing.
unfoldable pub unmask_at : ℕ → ℕ → ℕ → ℕ → ℕ → ℕ → Text → Outcome
unfolding unmask
unmask_at n offset k0 k1 k2 k3 frame =
    if ltb (length frame) offset
    then (if n == 0 then ok [] else undefined)
    else unmask n k0 k1 k2 k3 (drop offset frame)

-- The four reads of the key.
unfoldable pub with_key : ℕ → ℕ → Text → Outcome
unfolding char_at unmask_at
with_key n offset frame = elim (char_at frame offset) [
  | none ↦ undefined
  | some k0 ↦ elim (char_at frame (offset + 1)) [
    | none ↦ undefined
    | some k1 ↦ elim (char_at frame (offset + 2)) [
      | none ↦ undefined
      | some k2 ↦ elim (char_at frame (offset + 3)) [
        | none ↦ undefined
        | some k3 ↦ unmask_at n (offset + 4) k0 k1 k2 k3 frame
      ]
    ]
  ]
]

-- `frame.substr(offset, n)`
unfoldable pub substr : ℕ → ℕ → Text → Outcome
substr n offset frame =
    if ltb (length frame) offset then throws else ok (take n (drop offset frame))

-- The payload, once its length and the place where it or its key begins are known.
unfoldable pub read_payload : Bool → ℕ → ℕ → Text → Outcome
unfolding with_key substr
read_payload mask n offset frame = if mask then with_key n offset frame else substr n offset frame

unfoldable pub decode_frame : Text → Outcome
unfolding char_at
decode_frame [] = ok []
decode_frame (b0 ∷ []) = ok []
decode_frame (b0 ∷ b1 ∷ rest) =
    let frame = b0 ∷ b1 ∷ rest in
    let opcode = b0 % 16 in
    let mask = leb 128 b1 in
    let payload_len = b1 % 128 in
    if not (opcode == 1) && not (opcode == 2)
    then ok []
    else if payload_len == 126
    then elim (char_at frame 2) [
      | none ↦ undefined
      | some hi ↦ elim (char_at frame 3) [
        | none ↦ undefined
        | some lo ↦ read_payload mask (extended_length hi lo) 4 frame
      ]
    ]
    else if payload_len == 127
    then read_payload mask payload_len 10 frame
    else read_payload mask payload_len 2 frame

-- `(length >> (i * 8)) & 0xFF` for i from 7 down to 0.
unfoldable pub length_bytes : ℕ → List ℕ
length_bytes n =
    (n / 2 ^ 56 % 256)
    ∷ (n / 2 ^ 48 % 256)
    ∷ (n / 2 ^ 40 % 256)
    ∷ (n / 2 ^ 32 % 256)
    ∷ (n / 2 ^ 24 % 256)
    ∷ (n / 2 ^ 16 % 256)
    ∷ (n / 2 ^ 8 % 256)
    ∷ (n % 256)
    ∷ []

unfoldable pub encode_frame : Text → Text
unfolding length_bytes
encode_frame message =
    let n = length message in
    if ltb n 126
    then 0x81 ∷ n ∷ message
    else if ltb n 65536
    then 0x81 ∷ 126 ∷ (n / 256 % 256) ∷ (n % 256) ∷ message
    else 0x81 ∷ 127 ∷ (length_bytes n ++ message)
