-- ===== src/Base/Words.antt =====
-- Machine words: uint32_t sums and differences with their wrap-around, and the byte orders in which
-- the protocols write 16-bit and 32-bit fields.
use native.Mathlib.Omega.{arith}
use Prim.Native.Nat.{ℕ, zero, suc, ◌+◌, ◌-◌, ◌*◌, ◌/◌, ◌%◌, ◌^◌, ◌<◌}
use mathlib.Core.List.{List, [], ◌∷◌, ◌++◌}
use dpb_s_mgmt.Base.Lists.{get_or, take, drop}

-- uint32_t
abbrev pub add32 : ℕ → ℕ → ℕ
add32 a b = (a + b) % 2 ^ 32

abbrev pub sub32 : ℕ → ℕ → ℕ
sub32 a b = (a + 2 ^ 32 - b) % 2 ^ 32

-- `htons` and a copy of the two bytes: the high byte comes first.
abbrev pub u16_be : ℕ → List ℕ
u16_be x = (x / 256 % 256) ∷ (x % 256) ∷ []

-- A copy of the two bytes at `at` and `ntohs`.
abbrev pub get_u16_be : List ℕ → ℕ → ℕ
get_u16_be b at = get_or b at 0 * 256 + get_or b (at + 1) 0

-- A `uint16_t` or `uint32_t` in memory on the little-endian host.
abbrev pub u16_le : ℕ → List ℕ
u16_le x = (x % 256) ∷ (x / 256 % 256) ∷ []

abbrev pub u32_le : ℕ → List ℕ
u32_le x = (x % 256) ∷ (x / 256 % 256) ∷ (x / 65536 % 256) ∷ (x / 16777216 % 256) ∷ []

abbrev pub get_u16_le : List ℕ → ℕ → ℕ
get_u16_le b at = get_or b at 0 + get_or b (at + 1) 0 * 256

abbrev pub get_u32_le : List ℕ → ℕ → ℕ
get_u32_le b at =
    get_or b at 0
    + get_or b (at + 1) 0 * 256
    + get_or b (at + 2) 0 * 65536
    + get_or b (at + 3) 0 * 16777216

-- `htonl` and a copy of the four bytes.
abbrev pub u32_be : ℕ → List ℕ
u32_be x = (x / 16777216 % 256) ∷ (x / 65536 % 256) ∷ (x / 256 % 256) ∷ (x % 256) ∷ []

abbrev pub get_u32_be : List ℕ → ℕ → ℕ
get_u32_be b at =
    get_or b at 0 * 16777216
    + get_or b (at + 1) 0 * 65536
    + get_or b (at + 2) 0 * 256
    + get_or b (at + 3) 0

-- Every number of the list is a byte.
abbrev pub AreBytes : List ℕ → Type 0
AreBytes [] = Unit {0}
AreBytes (x ∷ xs) = (x < 256) × AreBytes xs

pub AreBytes-append : (xs ys : List ℕ) → AreBytes xs → AreBytes ys → AreBytes (xs ++ ys)
AreBytes-append [] ys hx hy = hy
AreBytes-append (x ∷ xs) ys hx hy = (hx.0, AreBytes-append xs ys hx.1 hy)

pub get_or-lt : (xs : List ℕ) (i : ℕ) → AreBytes xs → get_or xs i 0 < 256
get_or-lt [] i h = omega arith
get_or-lt (x ∷ xs) zero h = h.0
get_or-lt (x ∷ xs) (suc i) h = get_or-lt xs i h.1

pub AreBytes-take : (n : ℕ) (xs : List ℕ) → AreBytes xs → AreBytes (take n xs)
AreBytes-take zero xs h = tt
AreBytes-take (suc n) [] h = tt
AreBytes-take (suc n) (x ∷ xs) h = (h.0, AreBytes-take n xs h.1)

pub AreBytes-drop : (n : ℕ) (xs : List ℕ) → AreBytes xs → AreBytes (drop n xs)
AreBytes-drop zero xs h = h
AreBytes-drop (suc n) [] h = tt
AreBytes-drop (suc n) (x ∷ xs) h = AreBytes-drop n xs h.1
