-- ===== src/Repr/NumToRepr/Count.antt =====
-- The count of digits is that of the decimal notation, with the sign.
use lean_string.Prelude.{
  ℕ, zero, suc, ◌+◌, ◌-◌, ◌≤◌, ◌<◌, ◌≡◌, ◌⊎◌, refl, sym, ap, subst, inl, inr, List, [], ◌∷◌, arith,
  leb, leb→le, lt_of_leb-false, Bool-cases,
}
use lean_string.Prelude.Int.{ℤ, pos, negsuc, neg}
use lean_string.Repr.DigitCount.{
  IntType, i8, u8, i16, u16, i32, u32, i64, u64, isize, usize, InRange, match_ranges, digit_count,
}
use lean_string.Repr.NumToRepr.Decimal.{p10, p10_pos, Width}

-- The arms for the numbers of `j`, `j + 1`, … digits, `c` arms in all.
up_arms : ℕ → ℕ → List (ℤ × ℕ)
up_arms j zero = []
up_arms j (suc c) = (pos (p10 j - 1), j) ∷ up_arms (suc j) c

-- The arms for the negative numbers of at most `c` digits, in front of others.
down_arms : ℕ → List (ℤ × ℕ) → List (ℤ × ℕ)
down_arms zero rest = rest
down_arms (suc c) rest = (neg (p10 c), suc (suc c)) ∷ down_arms c rest

Width-between : (j n : ℕ) → (p10 j ≤ n) ⊎ (j ≡ 0) → n < p10 (suc j) → Width (suc j) n
Width-between zero n low high = high
Width-between (suc j) n (inl low) high = (low, high)
Width-between (suc j) n (inr e) high = absurd (omega arith)

-- The count of a number that has more than `j` digits.
Width-up :
    (j c n : ℕ)
    → (p10 j ≤ n) ⊎ (j ≡ 0)
    → n < p10 (suc j + c)
    → Width (match_ranges (suc j + c) (up_arms (suc j) c) (pos n)) n
unfolding up_arms
Width-up j zero n low high =
    let e : suc j + 0 ≡ suc j = omega arith in
    subst (λ w. Width w n) (sym e) (Width-between j n low (subst (λ w. n < p10 w) e high))
Width-up j (suc c) n low high =
    let e : suc j + suc c ≡ suc (suc j) + c = omega arith in
    elim (Bool-cases (leb n (p10 (suc j) - 1))) [
      | inl here ↦
          rw here (
            Width-between j n low (omega (arith, leb→le n (p10 (suc j) - 1) here, p10_pos (suc j))))
      | inr later ↦ rw later (
          subst (λ w. Width (match_ranges w (up_arms (suc (suc j)) c) (pos n)) n) (sym e)
            (Width-up (suc j) c n (inl (omega (arith, lt_of_leb-false n (p10 (suc j) - 1) later)))
              (subst (λ w. n < p10 w) e high)))
    ]

neg_lem : (p : ℕ) → 1 ≤ p → neg p ≡ negsuc (p - 1)
neg_lem zero h = absurd (omega arith)
neg_lem (suc p) h = ap negsuc (omega arith)

-- A number that is not negative passes the arms of those that are.
pass_down :
    (last c : ℕ) (rest : List (ℤ × ℕ)) (n : ℕ)
    → match_ranges last (down_arms c rest) (pos n) ≡ match_ranges last rest (pos n)
unfolding down_arms
pass_down last zero rest n = refl
pass_down last (suc c) rest n = rw (neg_lem (p10 c) (p10_pos c)) (pass_down last c rest n)

-- The count of a negative number has one more for the sign.
Width-down :
    (last c : ℕ) (rest : List (ℤ × ℕ)) (n : ℕ)
    → suc n < p10 c
    → (k : ℕ) × ((match_ranges last (down_arms c rest) (negsuc n) ≡ suc k) × Width k (suc n))
unfolding down_arms
Width-down last zero rest n high = absurd (omega arith)
Width-down last (suc c) rest n high =
    rw (neg_lem (p10 c) (p10_pos c)) (elim (Bool-cases (leb (p10 c - 1) n)) [
      | inl here ↦ rw here (
          (
            suc c,
            (refl, Width-between c (suc n) (inl (omega (arith, leb→le (p10 c - 1) n here))) high),
          ))
      | inr later ↦
          rw later (
            Width-down last c rest n
              (omega (arith, lt_of_leb-false (p10 c - 1) n later, p10_pos c)))
    ])

-- The digits that `count` characters give of an integer.
pub data Counts : ℤ → ℕ → Type 0 where
  unsigned : {n k : ℕ} → Width k n → Counts (pos n) k
  negative : {n k : ℕ} → Width k (suc n) → Counts (negsuc n) (suc k)

up : (c n : ℕ) → n < p10 (1 + c) → Counts (pos n) (match_ranges (1 + c) (up_arms 1 c) (pos n))
up c n h = unsigned (Width-up 0 c n (inr refl) h)

past :
    (last d c n : ℕ)
    → last ≡ 1 + c
    → n < p10 (1 + c)
    → Counts (pos n) (match_ranges last (down_arms d (up_arms 1 c)) (pos n))
past last d c n e h = rw (e, pass_down (1 + c) d (up_arms 1 c) n) (up c n h)

down :
    (last d c n : ℕ)
    → suc n < p10 d
    → Counts (negsuc n) (match_ranges last (down_arms d (up_arms 1 c)) (negsuc n))
down last d c n h =
    let (k, (e, w)) = Width-down last d (up_arms 1 c) n h in
    subst (Counts (negsuc n)) (sym e) (negative w)

-- For every integer of a type, `digit_count` is the number of decimal digits of its absolute
-- value, the first of which is not 0 unless it is the only one, and one more if the integer is
-- negative.
pub digit_count-Counts : (t : IntType) (v : ℤ) → InRange t v → Counts v (digit_count t v)
unfolding digit_count up_arms down_arms
digit_count-Counts u8 (pos n) h = up 2 n (omega arith)
digit_count-Counts u16 (pos n) h = up 4 n (omega arith)
digit_count-Counts u32 (pos n) h = up 9 n (omega arith)
digit_count-Counts u64 (pos n) h = up 19 n (omega arith)
digit_count-Counts usize (pos n) h = up 19 n (omega arith)
digit_count-Counts i8 (pos n) h = past 3 3 2 n refl (omega arith)
digit_count-Counts i16 (pos n) h = past 5 5 4 n refl (omega arith)
digit_count-Counts i32 (pos n) h = past 10 10 9 n refl (omega arith)
digit_count-Counts i64 (pos n) h = past 19 19 18 n refl (omega arith)
digit_count-Counts isize (pos n) h = past 19 19 18 n refl (omega arith)
digit_count-Counts u8 (negsuc n) h = absurd (omega arith)
digit_count-Counts u16 (negsuc n) h = absurd (omega arith)
digit_count-Counts u32 (negsuc n) h = absurd (omega arith)
digit_count-Counts u64 (negsuc n) h = absurd (omega arith)
digit_count-Counts usize (negsuc n) h = absurd (omega arith)
digit_count-Counts i8 (negsuc n) h = down 3 3 2 n (omega arith)
digit_count-Counts i16 (negsuc n) h = down 5 5 4 n (omega arith)
digit_count-Counts i32 (negsuc n) h = down 10 10 9 n (omega arith)
digit_count-Counts i64 (negsuc n) h = down 19 19 18 n (omega arith)
digit_count-Counts isize (negsuc n) h = down 19 19 18 n (omega arith)
