-- ===== src/Repr/NumToRepr/Limits.antt =====
-- What the types of src/repr/num_to_repr.rs have room for, and the sign in front of the digits.
use lean_string.Prelude.{
  ℕ, zero, suc, ◌+◌, ◌^◌, ◌≤◌, ◌<◌, ◌≡◌, refl, sym, ap, ◌∙◌, inl, inr, Bool-cases, lt_of_leb-false,
  true, false, [], ◌∷◌, arith, leb, drop,
}
use lean_string.Prelude.Int.{ℤ, pos, negsuc}
use lean_string.Prelude.Splice.{splice, drop-splice}
use lean_string.Utf8.{Bytes}
use lean_string.Repr.DigitCount.{
  IntType, i8, u8, i16, u16, i32, u32, i64, u64, isize, usize, size_of, above_max, below_zero,
  InRange,
}
use lean_string.Repr.NumToRepr.{
  magnitude, Cursor, write_four, four_at_a_time, write_sign, wrapping_sub,
}
use lean_string.Repr.NumToRepr.Decimal.{p10, Width, digits}
use lean_string.Repr.NumToRepr.Count.{Counts, unsigned, negative}
use lean_string.Repr.NumToRepr.Writing.{Writing}

-- What the types have room for.
pub data Limits (t : IntType) : Type 0 where
  wide : leb 2 (size_of t) ≡ true → above_max t ≤ 2 ^ 64 → below_zero t ≤ 2 ^ 63 → Limits t
  narrow : leb 2 (size_of t) ≡ false → above_max t ≤ 256 → below_zero t ≤ 128 → Limits t

pub limits : (t : IntType) → Limits t
limits i8 = narrow refl (omega arith) (omega arith)
limits u8 = narrow refl (omega arith) (omega arith)
limits i16 = wide refl (omega arith) (omega arith)
limits u16 = wide refl (omega arith) (omega arith)
limits i32 = wide refl (omega arith) (omega arith)
limits u32 = wide refl (omega arith) (omega arith)
limits i64 = wide refl (omega arith) (omega arith)
limits u64 = wide refl (omega arith) (omega arith)
limits isize = wide refl (omega arith) (omega arith)
limits usize = wide refl (omega arith) (omega arith)

abbrev pub abs : ℤ → ℕ
abs (pos n) = n
abs (negsuc n) = suc n

-- The bytes that a sign takes.
abbrev pub sign_size : ℤ → ℕ
sign_size (pos n) = 0
sign_size (negsuc n) = 1

pub sign_le : (v : ℤ) → sign_size v ≤ 1
sign_le (pos n) = omega arith
sign_le (negsuc n) = omega arith

pub abs_small : {t : IntType} (v : ℤ) → Limits t → InRange t v → abs v + sign_size v < 2 ^ 64
abs_small (pos n) (wide e above below) h = omega arith
abs_small (pos n) (narrow e above below) h = omega arith
abs_small (negsuc n) (wide e above below) h = omega arith
abs_small (negsuc n) (narrow e above below) h = omega arith

pub abs_narrow :
    (t : IntType) (v : ℤ) → above_max t ≤ 256 → below_zero t ≤ 128 → InRange t v → abs v < 10000
abs_narrow t (pos n) above below h = omega arith
abs_narrow t (negsuc n) above below h = omega arith

pub magnitude_lem : (v : ℤ) → abs v + sign_size v < 2 ^ 64 → magnitude v ≡ abs v
unfolding magnitude
magnitude_lem (pos n) h = omega arith
magnitude_lem (negsuc n) h = omega arith

lt_p10 : (k : ℕ) → k + k < p10 k
lt_p10 zero = omega arith
lt_p10 (suc k) = omega (arith, lt_p10 k)

pub count_bounds : (k n : ℕ) → Width k n → (1 ≤ k) × ((k + k ≤ n + 2) × (n < p10 k))
count_bounds zero n w = absurd w
count_bounds (suc zero) n w = (omega arith, (omega arith, w))
count_bounds (suc (suc k)) n (lo, hi) = (omega arith, (omega (arith, lt_p10 (suc k)), hi))

pub stops : (fuel : ℕ) (s : Cursor) → s.n < p10 fuel → (four_at_a_time fuel s).n < 10000
unfolding four_at_a_time write_four
stops zero s h = omega arith
stops (suc fuel) s h = elim (Bool-cases (leb 10000 s.n)) [
  | inl big ↦ rw big (stops fuel (write_four s) (omega arith))
  | inr small ↦ rw small (lt_of_leb-false 10000 s.n small)
]

pub counted_below : (v : ℤ) (count : ℕ) → Counts v count → abs v < p10 count
counted_below (pos n) count (unsigned {k} w) = (count_bounds k n w).1.1
counted_below (negsuc n) count (negative {k} w) = omega (arith, (count_bounds k (suc n) w).1.1)

-- A sign if the integer is negative, and `k` digits.
abbrev pub text_of : ℤ → ℕ → Bytes
text_of (pos n) k = digits k n
text_of (negsuc n) k = 45 ∷ digits k (suc n)

-- The closure is done, and has written the text.
pub record Finished (text : Bytes) (s : Cursor) : Type 0 where
  pub curr : s.curr ≡ 0
  pub text_in : s.buf ≡ text

pub signed :
    (v : ℤ) (size : ℕ) (goal : Bytes) (k : ℕ) (s : Cursor)
    → digits k (abs v) ≡ goal
    → Writing (sign_size v) size goal 0 s
    → Finished (text_of v k) (write_sign v s)
unfolding write_sign digits
signed (pos n) size goal k s e i = record {
  curr = i.at;
  text_in = ap (λ j. drop j s.buf) (sym i.at) ∙ i.so_far ∙ sym e;
}
signed (negsuc n) size goal k s e i =
    let moved : wrapping_sub s.curr 1 ≡ 0 = omega (arith, i.at) in
    record {
      curr = moved;
      text_in =
          ap (λ j. splice s.buf j (45 ∷ [])) moved
          ∙ drop-splice s.buf 0 (45 ∷ []) (omega (arith, i.at, i.room, i.size_of_buf))
          ∙ ap (λ j. 45 ∷ drop j s.buf) {x = 1} (sym i.at)
          ∙ ap (λ t. 45 ∷ t) (i.so_far ∙ sym e);
    }
