-- ===== src/Base/Bits.antt =====
-- Bounds on the bit operations that the protocols use on packet fields, from the recursion by binary
-- digits that the native operations stand for.
use Prim.Native.Nat.{
  ℕ, zero, suc, ◌+◌, ◌*◌, ◌/◌, ◌^◌, ◌≤◌, ◌<◌, min, max, bit_and, bit_or, digits, bit_and-bitwise,
  bit_or-bitwise,
}
use mathlib.Core.Path.{◌≡◌, refl, ap}
use native.Mathlib.Nat.{pow-suc}
use mathlib.Core.Bool.{Bool, true, false}
use dpb_s_mgmt.Base.Tests.{◌==◌, ==_iff, if◌then◌else◌, Bool-cases}
use mathlib.Core.Logic.{inl, inr}
use native.Mathlib.Decide.{dec_lt}
use native.Mathlib.Omega.{arith}

or_digits-le : (n a b : ℕ) → digits (λ b. b) max n a b ≤ a + b
or_digits-le zero a b = omega arith
or_digits-le (suc n) zero b = omega arith
or_digits-le (suc n) (suc a) b = omega (arith, or_digits-le n (suc a / 2) (b / 2))

pub bit_or-le-add : (a b : ℕ) → bit_or a b ≤ a + b
bit_or-le-add a b = omega (arith, bit_or-bitwise a b, or_digits-le a a b)

or_digits-zero : (n b : ℕ) → digits (λ b. b) max n 0 b ≡ b
or_digits-zero zero b = omega arith
or_digits-zero (suc n) b = omega arith

pub zero-bit_or : (b : ℕ) → bit_or 0 b ≡ b
zero-bit_or b = omega (arith, bit_or-bitwise 0 b, or_digits-zero 0 b)

two-mul-pow : (q k : ℕ) → q * 2 ^ suc k ≡ 2 * (q * 2 ^ k)
two-mul-pow q k = omega (arith, ap (λ (t : ℕ). q * t) (pow-suc 2 k))

or_digits-shifted :
    (k n q r : ℕ) → r ≤ n → r < 2 ^ k → digits (λ b. b) max n r (q * 2 ^ k) ≡ r + q * 2 ^ k
or_digits-shifted k n q zero le lt = omega (arith, or_digits-zero n (q * 2 ^ k))
or_digits-shifted k zero q (suc r) le lt = absurd (omega arith)
or_digits-shifted zero (suc n) q (suc r) le lt = absurd (omega arith)
or_digits-shifted (suc k) (suc n) q (suc r) le lt = ground (
  arith,
  two-mul-pow q k,
  pow-suc 2 k,
  or_digits-shifted k n q (suc r / 2) (omega arith) (omega (arith, pow-suc 2 k)),
)

-- A low byte and a high byte.
pub bit_or_bytes : (low high : ℕ) → low < 256 → bit_or low (high * 256) ≡ low + high * 256
bit_or_bytes low high h =
    omega (arith, bit_or-bitwise low (high * 256), or_digits-shifted 8 low high low (omega arith) h)

-- The mask 0xFF keeps the first `n` numbers, by evaluation.
keeps_mask : ℕ → Bool
keeps_mask zero = true
keeps_mask (suc n) = if bit_and n 0xFF == n then keeps_mask n else false

keeps_mask-lt : (n x : ℕ) → keeps_mask n ≡ true → x < n → bit_and x 0xFF ≡ x
unfolding keeps_mask
keeps_mask-lt zero x e h = absurd (omega arith)
keeps_mask-lt (suc n) x e h = elim (Bool-cases (bit_and n 0xFF == n)) [
  | inr other ↦ ground arith
  | inl same ↦ elim (dec_lt x n) [
    | yes below ↦ keeps_mask-lt n x (ground arith) below
    | no last ↦ let eq : x ≡ n = omega arith in rw eq ((==_iff (bit_and n 0xFF) n).0 same)
  ]
]

pub bit_and_byte : (x : ℕ) → x < 256 → bit_and x 0xFF ≡ x
unfolding keeps_mask
bit_and_byte x h = keeps_mask-lt 256 x refl h

and_digits-le : (n a b : ℕ) → digits (λ b. zero) min n a b ≤ a
and_digits-le zero a b = omega arith
and_digits-le (suc n) zero b = omega arith
and_digits-le (suc n) (suc a) b = omega (arith, and_digits-le n (suc a / 2) (b / 2))

pub bit_and-le_left : (a b : ℕ) → bit_and a b ≤ a
bit_and-le_left a b = omega (arith, bit_and-bitwise a b, and_digits-le a a b)
