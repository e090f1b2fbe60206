-- ===== src/Wire/Protocol/RoundTrip.antt =====
-- Serialize and Deserialize of src/core/protocol.cpp against each other.
use mcx.Prelude.{
  ℕ, ◌+◌, ◌*◌, ◌/◌, ◌%◌, ◌≤◌, ◌<◌, ◌≡◌, ap, ◌≢◌, ◌⊎◌, true, false, List, [], ◌∷◌, ◌++◌, arith,
  length, take, drop, length-append, length-take, take-append, take-append-drop, All, nat_eq,
  text_key,
}
use mcx.Wire.Protocol.{McxPacket, magic, version, serialize, deserialize}

take-append_mod :
    (xs rest : List ℕ)
    → length xs < 65536
    → take (length xs % 256 + length xs / 256 % 256 * 256) (xs ++ rest) ≡ xs
take-append_mod xs rest h =
    let e : length xs % 256 + length xs / 256 % 256 * 256 ≡ length xs = omega arith in
    rw e (take-append xs rest)

-- A packet whose payload is shorter than 65536 bytes is read back from the front of any buffer that
-- begins with its serialization, whatever stood in the output packet.
pub deserialize-serialize :
    (p out : McxPacket) (rest : List ℕ)
    → length p.payload < 65536
    → deserialize (serialize p ++ rest) out ≡ (true, p)
unfolding serialize deserialize
deserialize-serialize p out rest h =
    ground (arith, length-append p.payload rest, take-append_mod p.payload rest h)

truncated_length :
    (p out : McxPacket)
    → length (deserialize (serialize p) out).1.payload ≡ length p.payload % 65536
unfolding serialize deserialize
truncated_length p out =
    ground
      (arith, length-take (length p.payload % 256 + length p.payload / 256 % 256 * 256) p.payload)

-- From 65536 bytes on the length field wraps: what is read back is accepted, and its payload is
-- strictly shorter than the one that was sent.
deserialize_truncates :
    (p out : McxPacket)
    → 65536 ≤ length p.payload
    → ((deserialize (serialize p) out).0 ≡ true)
      × (length (deserialize (serialize p) out).1.payload ≡ length p.payload % 65536)
      × ((deserialize (serialize p) out).1 ≢ p)
unfolding serialize deserialize
deserialize_truncates p out h = (
  ground arith,
  truncated_length p out,
  λ e. omega (arith, truncated_length p out, ap (λ (q : McxPacket). length q.payload) e),
)

abbrev IsByte : ℕ → Type 0
IsByte b = b < 256

-- Deserialize accepts only what Serialize writes: an accepted buffer of bytes is the serialization of
-- the packet that it gives, followed by bytes that are ignored.
pub deserialize_sound :
    (bytes : List ℕ) (out q : McxPacket)
    → All IsByte bytes
    → deserialize bytes out ≡ (true, q)
    → (rest : List ℕ) × (bytes ≡ serialize q ++ rest)
unfolding deserialize serialize
deserialize_sound [] out q h e = ground arith
deserialize_sound (m ∷ []) out q h e = ground arith
deserialize_sound (m ∷ v ∷ []) out q h e = ground arith
deserialize_sound (m ∷ v ∷ t ∷ []) out q h e = ground arith
deserialize_sound (m ∷ v ∷ t ∷ lo ∷ []) out q h e = ground arith
deserialize_sound (m ∷ v ∷ t ∷ lo ∷ hi ∷ rest) out q h e =
    let n = lo + hi * 256 in
    (
      drop n rest,
      ground (arith, h.1.1.1.0, h.1.1.1.1.0, take-append-drop n rest, length-take n rest),
    )

-- A refused buffer leaves the payload of the output packet alone, and its type too unless the buffer
-- has a good header.
deserialize_refuses :
    (bytes : List ℕ) (out : McxPacket)
    → (deserialize bytes out).0 ≡ false
    → ((deserialize bytes out).1.payload ≡ out.payload)
      × (((deserialize bytes out).1 ≡ out) ⊎ (take 2 bytes ≡ magic ∷ version ∷ []))
unfolding deserialize
deserialize_refuses [] out h = ground arith
deserialize_refuses (m ∷ []) out h = ground arith
deserialize_refuses (m ∷ v ∷ []) out h = ground arith
deserialize_refuses (m ∷ v ∷ t ∷ []) out h = ground arith
deserialize_refuses (m ∷ v ∷ t ∷ lo ∷ []) out h = ground arith
deserialize_refuses (m ∷ v ∷ t ∷ lo ∷ hi ∷ rest) out h = ground arith
