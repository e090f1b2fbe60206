-- ===== src/Wire/Bytes.antt =====
-- Numbers as bytes, lowest first: what memcpy of an unsigned integer writes and reads on the
-- little-endian hosts that the server is built for; and XOR of bytes.
use mcx.Prelude.{
  ℕ, zero, suc, ◌+◌, ◌*◌, ◌/◌, ◌%◌, ◌^◌, ◌<◌, ◌≡◌, refl, ap, Bool, true, false, if◌then◌else◌, List,
  [], ◌∷◌, arith, ◌==◌, ==_iff, length, nat_eq, text_key,
}
use Prim.Native.Nat.{bit_xor}
use native.Mathlib.Nat.{pow-suc}

abbrev pub IsByte : ℕ → Type 0
IsByte b = b < 256

unfoldable pub le_bytes : ℕ → ℕ → List ℕ
le_bytes zero v = []
le_bytes (suc n) v = (v % 256) ∷ le_bytes n (v / 256)

unfoldable pub from_le : List ℕ → ℕ
from_le [] = 0
from_le (b ∷ bs) = b + 256 * from_le bs

pub length-le_bytes : (n v : ℕ) → length (le_bytes n v) ≡ n
unfolding le_bytes
length-le_bytes zero v = refl
length-le_bytes (suc n) v = ap suc (length-le_bytes n (v / 256))

pub from_le-le_bytes : (n v : ℕ) → v < 256 ^ n → from_le (le_bytes n v) ≡ v
unfolding le_bytes from_le
from_le-le_bytes zero v h = omega arith
from_le-le_bytes (suc n) v h =
    let small : v / 256 < 256 ^ n = grind (arith, pow-suc 256 n) in
    omega (arith, from_le-le_bytes n (v / 256) small)

-- `a ^ b` of two bytes.
abbrev pub xor_byte : ℕ → ℕ → ℕ
xor_byte a b = bit_xor a b

-- A test of every number under a bound.
holds_under : (ℕ → Bool) → ℕ → Bool
holds_under p zero = true
holds_under p (suc bound) = let others = holds_under p bound in if p bound then others else false

nothing_below : {b : ℕ} → b < 0 → ⊥
nothing_below small = omega arith

holds_under-at : (p : ℕ → Bool) (bound b : ℕ) → holds_under p bound ≡ true → b < bound → p b ≡ true
unfolding holds_under
holds_under-at p zero b checked small = absurd (nothing_below small)
holds_under-at p (suc bound) b checked small = ground (arith, holds_under-at p bound b)

restores : ℕ → ℕ → Bool
restores a b = bit_xor (bit_xor a b) b == a

every_pair : holds_under (λ a. holds_under (restores a) 256) 256 ≡ true
unfolding holds_under restores
every_pair = refl

pub xor_byte_twice : (a b : ℕ) → a < 256 → b < 256 → xor_byte (xor_byte a b) b ≡ a
unfolding restores
xor_byte_twice a b small small' =
    let for_a = holds_under-at (λ x. holds_under (restores x) 256) 256 a every_pair small in
    let for_b = holds_under-at (restores a) 256 b for_a small' in
    (==_iff (bit_xor (bit_xor a b) b) a).0 for_b
