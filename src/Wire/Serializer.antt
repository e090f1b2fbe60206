-- ===== src/Wire/Serializer.antt =====
-- src/core/packet_serializer.cpp. A double is its 64-bit pattern. A read outside of the buffer, which
-- C++ leaves undefined, gives `none`; a successful read gives the value and the new offset.
pub mod Fields
use mcx.Prelude.{
  ℕ, ◌+◌, ◌%◌, ◌^◌, Option, none, some, List, [], ◌++◌, ltb, if◌then◌else◌, length, take, drop, Eq,
  nat_eq, text_key,
}
use mcx.Prelude.Do.{◌>>=◌}
use mcx.Prelude.Text.{Text}
use mcx.Wire.Bytes.{le_bytes, from_le}
use mcx.Events.{Double}

-- `Append`
unfoldable pub append_bytes : List ℕ → List ℕ → List ℕ
append_bytes buf bytes = buf ++ bytes

-- The length field holds the low 32 bits of the size.
unfoldable pub serialize_string : Text → List ℕ
unfolding append_bytes
serialize_string str =
    let result = append_bytes [] (le_bytes 4 (length str % 2 ^ 32)) in append_bytes result str

unfoldable pub serialize_uint32 : ℕ → List ℕ
unfolding append_bytes
serialize_uint32 value = append_bytes [] (le_bytes 4 value)

unfoldable pub serialize_double : Double → List ℕ
unfolding append_bytes
serialize_double value = append_bytes [] (le_bytes 8 value)

-- `n` bytes at the offset, which must all lie in the buffer.
unfoldable pub read_bytes : ℕ → List ℕ → ℕ → Option (List ℕ)
read_bytes n bytes offset =
    if ltb (length bytes) (offset + n) then none else some (take n (drop offset bytes))

unfoldable pub deserialize_string : List ℕ → ℕ → Option (Text × ℕ)
deserialize_string bytes offset = do
  field ← read_bytes 4 bytes offset
  text ← read_bytes (from_le field) bytes (offset + 4)
  some (text, offset + 4 + from_le field)

unfoldable pub deserialize_uint32 : List ℕ → ℕ → Option (ℕ × ℕ)
deserialize_uint32 bytes offset = do
  field ← read_bytes 4 bytes offset
  some (from_le field, offset + 4)

unfoldable pub deserialize_double : List ℕ → ℕ → Option (Double × ℕ)
deserialize_double bytes offset = do
  field ← read_bytes 8 bytes offset
  some (from_le field, offset + 8)
