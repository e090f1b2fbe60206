-- ===== src/Wire/Serializer/Fields.antt =====
-- Fields written one after the other and read back in order: src/core/packet_serializer.cpp.
use mcx.Prelude.{
  ℕ, ◌+◌, ◌%◌, ◌^◌, ◌<◌, ◌≡◌, sym, ap, ◌∙◌, subst, Option, some, List, [], ◌∷◌, ◌++◌, map, arith,
  length, length-append, take-append, drop-append, All, nat_eq, text_key,
}
use mcx.Prelude.Do.{◌>>=◌}
use mcx.Prelude.Text.{Text}
use mathlib.Core.List.{append_assoc}
use mcx.Wire.Bytes.{le_bytes, from_le, length-le_bytes, from_le-le_bytes}
use mcx.Wire.Serializer.{
  serialize_string, serialize_uint32, serialize_double, read_bytes, deserialize_string,
  deserialize_uint32, deserialize_double,
}

-- Reading what stands in the middle of a buffer.
read_bytes-append :
    (pre field rest : List ℕ)
    → read_bytes (length field) (pre ++ (field ++ rest)) (length pre) ≡ some field
unfolding read_bytes
read_bytes-append pre field rest = ground (
  arith,
  length-append pre (field ++ rest),
  length-append field rest,
  drop-append pre (field ++ rest),
  take-append field rest,
)

read_number :
    (n v : ℕ) (pre rest : List ℕ)
    → read_bytes n (pre ++ (le_bytes n v ++ rest)) (length pre) ≡ some (le_bytes n v)
read_number n v pre rest =
    subst
      (λ (k : ℕ). read_bytes k (pre ++ (le_bytes n v ++ rest)) (length pre) ≡ some (le_bytes n v))
      (length-le_bytes n v) (read_bytes-append pre (le_bytes n v) rest)

read_after :
    (n v : ℕ) (pre s rest : List ℕ)
    → read_bytes (length s) (pre ++ ((le_bytes n v ++ s) ++ rest)) (length pre + n) ≡ some s
read_after n v pre s rest =
    let regrouped : pre ++ ((le_bytes n v ++ s) ++ rest) ≡ (pre ++ le_bytes n v) ++ (s ++ rest) =
      simp append_assoc in
    let seam : length (pre ++ le_bytes n v) ≡ length pre + n =
      omega (arith, length-append pre (le_bytes n v), length-le_bytes n v) in
    rw regrouped (rw (← seam) (read_bytes-append (pre ++ le_bytes n v) s rest))

-- A field and its kind.
pub data Field : Type 0 where
  text : Text → Field
  uint32 double : ℕ → Field

pub data Kind : Type 0 where
  a_text a_uint32 a_double : Kind

abbrev pub kind_of : Field → Kind
kind_of (text s) = a_text
kind_of (uint32 v) = a_uint32
kind_of (double v) = a_double

abbrev pub write : Field → List ℕ
write (text s) = serialize_string s
write (uint32 v) = serialize_uint32 v
write (double v) = serialize_double v

abbrev pub write_all : List Field → List ℕ
write_all [] = []
write_all (f ∷ fs) = write f ++ write_all fs

abbrev pub read : Kind → List ℕ → ℕ → Option (Field × ℕ)
read a_text bytes offset = do (s, next) ← deserialize_string bytes offset; some (text s, next)
read a_uint32 bytes offset = do (v, next) ← deserialize_uint32 bytes offset; some (uint32 v, next)
read a_double bytes offset = do (v, next) ← deserialize_double bytes offset; some (double v, next)

abbrev pub read_all : List Kind → List ℕ → ℕ → Option (List Field × ℕ)
read_all [] bytes offset = some ([], offset)
read_all (k ∷ ks) bytes offset = do
  (f, next) ← read k bytes offset
  (fs, end) ← read_all ks bytes next
  some (f ∷ fs, end)

-- The field fits the width that it is written in.
abbrev pub Fits : Field → Type 0
Fits (text s) = length s < 2 ^ 32
Fits (uint32 v) = v < 2 ^ 32
Fits (double v) = v < 2 ^ 64

read-write :
    (f : Field) (pre rest : List ℕ)
    → Fits f
    → read (kind_of f) (pre ++ (write f ++ rest)) (length pre)
      ≡ some (f, length pre + length (write f))
unfolding serialize_string serialize_uint32 serialize_double deserialize_string deserialize_uint32
    deserialize_double
read-write (text s) pre rest h =
    let first : read_bytes 4 (pre ++ ((le_bytes 4 (length s % 2 ^ 32) ++ s) ++ rest)) (length pre)
        ≡ some (le_bytes 4 (length s % 2 ^ 32)) =
      rw (append_assoc (le_bytes 4 (length s % 2 ^ 32)) s rest)
        (read_number 4 (length s % 2 ^ 32) pre (s ++ rest)) in
    let size : from_le (le_bytes 4 (length s % 2 ^ 32)) ≡ length s =
      from_le-le_bytes 4 (length s % 2 ^ 32) (omega arith) ∙ omega arith in
    ground (
      arith,
      first,
      size,
      read_after 4 (length s % 2 ^ 32) pre s rest,
      length-append (le_bytes 4 (length s % 2 ^ 32)) s,
      length-le_bytes 4 (length s % 2 ^ 32),
    )
read-write (uint32 v) pre rest h =
    ground (arith, read_number 4 v pre rest, from_le-le_bytes 4 v h, length-le_bytes 4 v)
read-write (double v) pre rest h =
    ground (arith, read_number 8 v pre rest, from_le-le_bytes 8 v h, length-le_bytes 8 v)

read_all-write_all_at :
    (fs : List Field) (pre rest : List ℕ)
    → All Fits fs
    → read_all (map kind_of fs) (pre ++ (write_all fs ++ rest)) (length pre)
      ≡ some (fs, length pre + length (write_all fs))
read_all-write_all_at [] pre rest h = ground arith
read_all-write_all_at (f ∷ fs) pre rest h =
    let buffer = pre ++ ((write f ++ write_all fs) ++ rest) in
    let one : read (kind_of f) buffer (length pre) ≡ some (f, length pre + length (write f)) =
      rw (append_assoc (write f) (write_all fs) rest)
        (read-write f pre (write_all fs ++ rest) h.0) in
    let moved : (pre ++ write f) ++ (write_all fs ++ rest) ≡ buffer = simp append_assoc in
    let seam = length-append pre (write f) in
    let more : read_all (map kind_of fs) buffer (length pre + length (write f))
        ≡ some (fs, length pre + length (write f) + length (write_all fs)) =
      rw (← moved, ← seam) (read_all-write_all_at fs (pre ++ write f) rest h.1) in
    ground (arith, one, more, length-append (write f) (write_all fs))

-- Fields that fit their types, a text having fewer than 2^32 bytes, are read back in order where they
-- were written one after the other, from wherever they stand in a buffer, and the offset ends behind
-- the last one.
pub read_all-write_all :
    (fs : List Field) (pre rest : List ℕ)
    → All Fits fs
    → read_all (map kind_of fs) (pre ++ (write_all fs ++ rest)) (length pre)
      ≡ some (fs, length (pre ++ write_all fs))
read_all-write_all fs pre rest h =
    read_all-write_all_at fs pre rest h
    ∙ ap (λ (n : ℕ). some (fs, n)) (sym (length-append pre (write_all fs)))
