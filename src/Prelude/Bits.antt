-- ===== src/Prelude/Bits.antt =====
-- Laws of the bit operations at variables, from their digit recursion.
use Prim.Native.Nat.{
  ℕ, zero, suc, ◌+◌, ◌*◌, ◌/◌, ◌%◌, ◌^◌, ◌≤◌, ◌<◌, min, max, ◌-◌, bit_and, bit_or, bit_xor,
  bit_and-bitwise, digits, differ, bit_or-bitwise, bit_xor-bitwise,
}
use mathlib.Core.Path.{◌≡◌, refl, ◌∙◌, ap, sym, ap₂}
use mathlib.Core.Logic.{inl, inr}
use lean_string.Prelude.Tests.{◌==◌, ==_iff, Bool-cases}
use native.Mathlib.Omega.{arith}

-- A digit operation `f`, with `z b` the result once the first number has run out.
module _ (z : ℕ → ℕ) (f : ℕ → ℕ → ℕ) (z_step : (b : ℕ) → z b ≡ z (b / 2) * 2 + f 0 (b % 2)) where
  one_more : (n a b : ℕ) → a ≤ n → digits z f (suc n) a b ≡ digits z f n a b
  one_more zero zero b h = refl
  one_more zero (suc a) b h = absurd (omega arith)
  one_more (suc n) zero b h = refl
  one_more (suc n) (suc a) b h = omega (arith, one_more n (suc a / 2) (b / 2) (omega arith))

  -- Fuel beyond the number itself makes no difference.
  enough : (n a b : ℕ) → a ≤ n → digits z f n a b ≡ digits z f a a b
  enough zero zero b h = refl
  enough zero (suc a) b h = absurd (omega arith)
  enough (suc n) a b h = elim (Bool-cases (a == suc n)) [
    | inl e ↦ ap (λ k. digits z f k a b) (sym ((==_iff a (suc n)).0 e))
    | inr e ↦ one_more n a b (ground arith) ∙ enough n a b (ground arith)
  ]

  digits_step :
      (a b : ℕ) → digits z f a a b ≡ digits z f (a / 2) (a / 2) (b / 2) * 2 + f (a % 2) (b % 2)
  digits_step zero b = z_step b
  digits_step (suc a) b = omega (arith, enough a (suc a / 2) (b / 2) (omega arith))

pub bit_or_step : (a b : ℕ) → bit_or a b ≡ bit_or (a / 2) (b / 2) * 2 + max (a % 2) (b % 2)
bit_or_step a b = omega (
  arith,
  bit_or-bitwise a b,
  bit_or-bitwise (a / 2) (b / 2),
  digits_step (λ b. b) max (λ b. omega arith) a b,
)

differ_bit_zero : (y : ℕ) → y < 2 → differ y 0 ≡ y
differ_bit_zero zero h = refl
differ_bit_zero (suc y) h = refl

pub bit_xor_step : (a b : ℕ) → bit_xor a b ≡ bit_xor (a / 2) (b / 2) * 2 + differ (a % 2) (b % 2)
bit_xor_step a b = omega (
  arith,
  bit_xor-bitwise a b,
  bit_xor-bitwise (a / 2) (b / 2),
  digits_step (λ b. b) differ (λ b. omega arith) a b,
)

-- 2 to the power `k`, by doubling.
abbrev pub pow2 : ℕ → ℕ
pow2 zero = 1
pow2 (suc k) = pow2 k + pow2 k

-- The low `k` digits and those above them are computed apart.
module _ (op f : ℕ → ℕ → ℕ)
    (op_step : (a b : ℕ) → op a b ≡ op (a / 2) (b / 2) * 2 + f (a % 2) (b % 2))
    (op_zero : op 0 0 ≡ 0) where
  split :
      (k a b x y : ℕ)
      → a < pow2 k
      → b < pow2 k
      → op (a + pow2 k * x) (b + pow2 k * y) ≡ op a b + pow2 k * op x y
  split zero zero zero x y p q =
      let e : op (0 + 1 * x) (0 + 1 * y) ≡ op x y = ap₂ op (omega arith) (omega arith) in
      omega (arith, op_zero, e)
  split zero zero (suc b) x y p q = absurd (omega arith)
  split zero (suc a) b x y p q = absurd (omega arith)
  split (suc k) a b x y p q =
      let u = a + pow2 (suc k) * x in
      let v = b + pow2 (suc k) * y in
      let halves : op (u / 2) (v / 2) ≡ op (a / 2 + pow2 k * x) (b / 2 + pow2 k * y) =
        ap₂ op (omega arith) (omega arith) in
      let bits : f (u % 2) (v % 2) ≡ f (a % 2) (b % 2) = ap₂ f (omega arith) (omega arith) in
      omega (
        arith,
        op_step u v,
        op_step a b,
        halves,
        bits,
        split k (a / 2) (b / 2) x y (omega arith) (omega arith),
      )

pub bit_or_split :
    (k a b x y : ℕ)
    → a < pow2 k
    → b < pow2 k
    → bit_or (a + pow2 k * x) (b + pow2 k * y) ≡ bit_or a b + pow2 k * bit_or x y
bit_or_split = split bit_or max bit_or_step (bit_or-bitwise 0 0)

pub bit_xor_split :
    (k a b x y : ℕ)
    → a < pow2 k
    → b < pow2 k
    → bit_xor (a + pow2 k * x) (b + pow2 k * y) ≡ bit_xor a b + pow2 k * bit_xor x y
bit_xor_split = split bit_xor differ bit_xor_step (bit_xor-bitwise 0 0)

pub zero-bit_or : (b : ℕ) → bit_or 0 b ≡ b
zero-bit_or b = bit_or-bitwise 0 b

-- By strong induction on a bound: nothing is set in 0.
or_zero_fuel : (n a : ℕ) → a ≤ n → bit_or a 0 ≡ a
or_zero_fuel n zero h = bit_or-bitwise 0 0
or_zero_fuel zero (suc a) h = absurd (omega arith)
or_zero_fuel (suc n) (suc a) h =
    omega (arith, bit_or_step (suc a) 0, or_zero_fuel n (suc a / 2) (omega arith))

pub bit_or-zero : (a : ℕ) → bit_or a 0 ≡ a
bit_or-zero a = or_zero_fuel a a (omega arith)

xor_zero_fuel : (n a : ℕ) → a ≤ n → bit_xor a 0 ≡ a
xor_zero_fuel n zero h = bit_xor-bitwise 0 0
xor_zero_fuel zero (suc a) h = absurd (omega arith)
xor_zero_fuel (suc n) (suc a) h = omega (
  arith,
  bit_xor_step (suc a) 0,
  differ_bit_zero (suc a % 2) (omega arith),
  xor_zero_fuel n (suc a / 2) (omega arith),
)

pub bit_xor-zero : (a : ℕ) → bit_xor a 0 ≡ a
bit_xor-zero a = xor_zero_fuel a a (omega arith)

or_self_fuel : (n a : ℕ) → a ≤ n → bit_or a a ≡ a
or_self_fuel n zero h = bit_or-bitwise 0 0
or_self_fuel zero (suc a) h = absurd (omega arith)
or_self_fuel (suc n) (suc a) h =
    omega (arith, bit_or_step (suc a) (suc a), or_self_fuel n (suc a / 2) (omega arith))

pub bit_or_self : (a : ℕ) → bit_or a a ≡ a
bit_or_self a = or_self_fuel a a (omega arith)

-- A word whose last byte is `m` above a length of seven bytes.
pub or_tag : (m n : ℕ) → n < 2 ^ 56 → bit_or n (m * 2 ^ 56) ≡ n + m * 2 ^ 56
or_tag m n h =
    let e : bit_or n (m * 2 ^ 56) ≡ bit_or (n + pow2 56 * 0) (0 + pow2 56 * m) =
      ap₂ bit_or (omega arith) (omega arith) in
    omega
      (arith, e, bit_or_split 56 n 0 0 m (omega arith) (omega arith), bit_or-zero n, zero-bit_or m)

pub xor_tag : (m n : ℕ) → n < 2 ^ 56 → bit_xor m m ≡ 0 → bit_xor (n + m * 2 ^ 56) (m * 2 ^ 56) ≡ n
xor_tag m n h self =
    let e : bit_xor (n + m * 2 ^ 56) (m * 2 ^ 56) ≡ bit_xor (n + pow2 56 * m) (0 + pow2 56 * m) =
      ap₂ bit_xor (omega arith) (omega arith) in
    omega (arith, e, bit_xor_split 56 n 0 m m (omega arith) (omega arith), bit_xor-zero n, self)

pub bit_and_step : (a b : ℕ) → bit_and a b ≡ bit_and (a / 2) (b / 2) * 2 + min (a % 2) (b % 2)
bit_and_step a b = omega (
  arith,
  bit_and-bitwise a b,
  bit_and-bitwise (a / 2) (b / 2),
  digits_step (λ b. 0) min (λ b. omega arith) a b,
)

pow2_pos : (k : ℕ) → 0 < pow2 k
pow2_pos zero = omega arith
pow2_pos (suc k) = omega (arith, pow2_pos k)

and_zero_fuel : (n a : ℕ) → a ≤ n → bit_and a 0 ≡ 0
and_zero_fuel n zero h = bit_and-bitwise 0 0
and_zero_fuel zero (suc a) h = absurd (omega arith)
and_zero_fuel (suc n) (suc a) h =
    omega (arith, bit_and_step (suc a) 0, and_zero_fuel n (suc a / 2) (omega arith))

-- The low `k` digits are kept by a mask of `k` ones.
pub and_low : (k n x : ℕ) → n < pow2 k → bit_and (n + pow2 k * x) (pow2 k - 1) ≡ n
and_low zero n x h = and_zero_fuel (n + 1 * x) (n + 1 * x) (omega arith) ∙ omega arith
and_low (suc k) n x h =
    let u = n + pow2 (suc k) * x in
    let v = pow2 (suc k) - 1 in
    let halves : bit_and (u / 2) (v / 2) ≡ bit_and (n / 2 + pow2 k * x) (pow2 k - 1) =
      ap₂ bit_and (omega arith) (omega (arith, pow2_pos k)) in
    omega (arith, bit_and_step u v, halves, and_low k (n / 2) x (omega arith), pow2_pos k)
