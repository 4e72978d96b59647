-- ===== src/Rs422/Checksum.antt =====
-- The frame checksum of rs422_protocol.c, as a function of the plain sum of the bytes.
use dpb_s_mgmt.Base.{
  ℕ, zero, suc, ◌+◌, ◌%◌, ◌^◌, ◌<◌, ◌≡◌, ◌≢◌, List, [], ◌∷◌, arith, length, get_or, set, add32,
}
use dpb_s_mgmt.Rs422.{sum_bytes, checksum}

abbrev pub total : List ℕ → ℕ
total [] = 0
total (x ∷ xs) = x + total xs

sum_bytes-total :
    (acc : ℕ) (xs : List ℕ) → acc < 2 ^ 32 → sum_bytes acc xs ≡ (acc + total xs) % 2 ^ 32
unfolding sum_bytes
sum_bytes-total acc [] h = omega arith
sum_bytes-total acc (x ∷ xs) h = omega (arith, sum_bytes-total (add32 acc x) xs (omega arith))

-- The checksum is the complement of the sum of the bytes modulo 2^16, however long the data is: the
-- wrap-around of the 32-bit accumulator does not show.
pub checksum-total : (xs : List ℕ) → checksum xs + total xs % 2 ^ 16 ≡ 65535
unfolding checksum
checksum-total xs = omega (arith, sum_bytes-total 0 xs (omega arith))

pub checksum-lt : (xs : List ℕ) → checksum xs < 2 ^ 16
checksum-lt xs = omega (arith, checksum-total xs)

pub total-set :
    (xs : List ℕ) (i v : ℕ) → i < length xs → total (set xs i v) + get_or xs i 0 ≡ total xs + v
total-set [] i v h = absurd (omega arith)
total-set (x ∷ xs) zero v h = omega arith
total-set (x ∷ xs) (suc i) v h = omega (arith, total-set xs i v (omega arith))

-- Two data of one length that differ in one byte have different checksums.
pub checksum-set_ne :
    (xs : List ℕ) (i v : ℕ)
    → i < length xs
    → get_or xs i 0 < 256
    → v < 256
    → v ≢ get_or xs i 0
    → checksum (set xs i v) ≢ checksum xs
checksum-set_ne xs i v h old new ne =
    omega (arith, checksum-total xs, checksum-total (set xs i v), total-set xs i v h)
