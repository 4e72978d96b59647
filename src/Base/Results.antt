-- ===== src/Base/Results.antt =====
-- The error codes of include/common.h, and the result of a function that returns one of them.
use mathlib.Core.Bool.{Bool, true, false}
use mathlib.Core.Path.{◌≡◌, refl}

-- The codes below 0; SUCCESS is `ok`.
pub data Error : Type 0 where
  general invalid_param memory network timeout not_initialized not_ready : Error

pub data Result {ℓ} (A : Type ℓ) : Type ℓ where
  ok : A → Result A
  err : Error → Result A

-- `if (bad) return e;`
abbrev pub fail_if : Bool → Error → Result (Unit {0})
fail_if true e = err e
fail_if false e = ok tt

-- The rest of a function runs on what has succeeded.
infixl 5 ◌>>=◌
abbrev pub ◌>>=◌ {ℓ κ} : {A : Type ℓ} {B : Type κ} → Result A → (A → Result B) → Result B
err e >>= rest = err e
ok value >>= rest = rest value

infixl 5 ◌>>◌
abbrev pub ◌>>◌ {ℓ} : {B : Type ℓ} → Result (Unit {0}) → Result B → Result B
check >> rest = check >>= λ passed. rest

-- What passed a check, and what came behind it.
pub fail_if-eq_ok {ℓ} :
    {B : Type ℓ} (bad : Bool) (e : Error) (k : Unit {0} → Result B) {b : B}
    → (fail_if bad e >>= k) ≡ ok b
    → (bad ≡ false) × (k tt ≡ ok b)
fail_if-eq_ok true e k h = cc
fail_if-eq_ok false e k h = (refl, h)

-- Whatever the check says, a continuation that fails with its error fails with it.
pub fail_if-err {ℓ} :
    {B : Type ℓ} (bad : Bool) (e : Error) (k : Unit {0} → Result B)
    → k tt ≡ err e
    → (fail_if bad e >>= k) ≡ err e
fail_if-err true e k h = refl
fail_if-err false e k h = h
