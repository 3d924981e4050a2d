-- ===== src/Repr/NumToRepr.antt =====
-- The text of a number: src/repr/num_to_repr.rs, on a target with 64-bit pointers.
pub mod Decimal
pub mod Count
pub mod Writing
pub mod Limits
pub mod Print
use Prim.Native.Nat.{suc}
use lean_string.Prelude.{
  ℕ, zero, ◌+◌, ◌-◌, ◌*◌, ◌/◌, ◌%◌, ◌^◌, ◌<◌, Bool, true, false, List, [], ◌∷◌, ltb, leb,
  if◌then◌else◌, take, drop,
}
use lean_string.Prelude.Int.{ℤ, pos, negsuc, neg}
use lean_string.Prelude.Splice.{splice}
use lean_string.Utf8.{Bytes}
use lean_string.Memory.{Heap, Allocator, M}
use lean_string.HeapBuffer.{Mutability}
use lean_string.Repr.{Repr}
use lean_string.Repr.Init.{new_with}
use lean_string.Repr.DigitCount.{
  IntType, i8, u8, i16, u16, i32, u32, i64, u64, isize, usize, size_of, above_max, below_zero,
  InRange, leb_ℤ, match_ranges, arms_u64, arms_i64, arms, last_arm, digit_count,
}

abbrev pub is_nonnegative : ℤ → Bool
is_nonnegative (pos n) = true
is_nonnegative (negsuc n) = false

-- The cast of a signed number, with its sign extended, to `u64`.
abbrev pub as_u64 : ℤ → ℕ
as_u64 (pos n) = n % 2 ^ 64
as_u64 (negsuc n) = 2 ^ 64 - 1 - n % 2 ^ 64

-- `!` of a `u64`, and its `wrapping_add`.
abbrev pub bit_not : ℕ → ℕ
bit_not a = 2 ^ 64 - 1 - a

abbrev pub wrapping_add : ℕ → ℕ → ℕ
wrapping_add a b = (a + b) % 2 ^ 64

-- `-=` of a `usize`
abbrev pub wrapping_sub : ℕ → ℕ → ℕ
wrapping_sub a b = (a + 2 ^ 64 - b) % 2 ^ 64

unfoldable pub magnitude : ℤ → ℕ
magnitude v = if is_nonnegative v then as_u64 v else wrapping_add (bit_not (as_u64 v)) 1

-- `DEC_DIGITS_LUT`: the two digits of each number below 100.
unfoldable pub dec_digits_lut : Bytes
dec_digits_lut =
    48 ∷ 48 ∷ 48 ∷ 49 ∷ 48 ∷ 50 ∷ 48 ∷ 51 ∷ 48 ∷ 52 ∷ 48 ∷ 53 ∷ 48 ∷ 54 ∷ 48 ∷ 55 ∷ 48 ∷ 56 ∷ 48
    ∷ 57 ∷ 49 ∷ 48 ∷ 49 ∷ 49 ∷ 49 ∷ 50 ∷ 49 ∷ 51 ∷ 49 ∷ 52 ∷ 49 ∷ 53 ∷ 49 ∷ 54 ∷ 49 ∷ 55 ∷ 49 ∷ 56
    ∷ 49 ∷ 57 ∷ 50 ∷ 48 ∷ 50 ∷ 49 ∷ 50 ∷ 50 ∷ 50 ∷ 51 ∷ 50 ∷ 52 ∷ 50 ∷ 53 ∷ 50 ∷ 54 ∷ 50 ∷ 55 ∷ 50
    ∷ 56 ∷ 50 ∷ 57 ∷ 51 ∷ 48 ∷ 51 ∷ 49 ∷ 51 ∷ 50 ∷ 51 ∷ 51 ∷ 51 ∷ 52 ∷ 51 ∷ 53 ∷ 51 ∷ 54 ∷ 51 ∷ 55
    ∷ 51 ∷ 56 ∷ 51 ∷ 57 ∷ 52 ∷ 48 ∷ 52 ∷ 49 ∷ 52 ∷ 50 ∷ 52 ∷ 51 ∷ 52 ∷ 52 ∷ 52 ∷ 53 ∷ 52 ∷ 54 ∷ 52
    ∷ 55 ∷ 52 ∷ 56 ∷ 52 ∷ 57 ∷ 53 ∷ 48 ∷ 53 ∷ 49 ∷ 53 ∷ 50 ∷ 53 ∷ 51 ∷ 53 ∷ 52 ∷ 53 ∷ 53 ∷ 53 ∷ 54
    ∷ 53 ∷ 55 ∷ 53 ∷ 56 ∷ 53 ∷ 57 ∷ 54 ∷ 48 ∷ 54 ∷ 49 ∷ 54 ∷ 50 ∷ 54 ∷ 51 ∷ 54 ∷ 52 ∷ 54 ∷ 53 ∷ 54
    ∷ 54 ∷ 54 ∷ 55 ∷ 54 ∷ 56 ∷ 54 ∷ 57 ∷ 55 ∷ 48 ∷ 55 ∷ 49 ∷ 55 ∷ 50 ∷ 55 ∷ 51 ∷ 55 ∷ 52 ∷ 55 ∷ 53
    ∷ 55 ∷ 54 ∷ 55 ∷ 55 ∷ 55 ∷ 56 ∷ 55 ∷ 57 ∷ 56 ∷ 48 ∷ 56 ∷ 49 ∷ 56 ∷ 50 ∷ 56 ∷ 51 ∷ 56 ∷ 52 ∷ 56
    ∷ 53 ∷ 56 ∷ 54 ∷ 56 ∷ 55 ∷ 56 ∷ 56 ∷ 56 ∷ 57 ∷ 57 ∷ 48 ∷ 57 ∷ 49 ∷ 57 ∷ 50 ∷ 57 ∷ 51 ∷ 57 ∷ 52
    ∷ 57 ∷ 53 ∷ 57 ∷ 54 ∷ 57 ∷ 55 ∷ 57 ∷ 56 ∷ 57 ∷ 57 ∷ []

-- The variables of the closure: where the digits begin, what is left to write, and the slice.
pub record Cursor : Type 0 where
  pub curr : ℕ
  pub n : ℕ
  pub buf : Bytes

-- `curr -= count`, and the bytes are written there.
abbrev pub write_before : Cursor → ℕ → Bytes → ℕ → Cursor
write_before s count bytes n =
    let curr = wrapping_sub s.curr count in
    record { curr = curr; n = n; buf = splice s.buf curr bytes }

-- The two bytes of the table at an offset.
abbrev pub pair_at : ℕ → Bytes
pair_at d = take 2 (drop d dec_digits_lut)

-- The body of `while n >= 10000`.
unfoldable pub write_four : Cursor → Cursor
write_four s =
    let rem = s.n % 10000 in
    let d1 = rem / 100 * 2 in
    let d2 = rem % 100 * 2 in
    let curr = wrapping_sub s.curr 4 in
    record {
      curr = curr;
      n = s.n / 10000;
      buf = splice (splice s.buf curr (pair_at d1)) (curr + 2) (pair_at d2);
    }

-- `while n >= 10000`
unfoldable pub four_at_a_time : ℕ → Cursor → Cursor
four_at_a_time zero s = s
four_at_a_time (suc fuel) s =
    let rest = four_at_a_time fuel (write_four s) in if leb 10000 s.n then rest else s

-- `if n >= 100`
unfoldable pub two_more : Cursor → Cursor
two_more s = if leb 100 s.n then write_before s 2 (pair_at (s.n % 100 * 2)) (s.n / 100) else s

-- The last one or two digits.
unfoldable pub last_digits : Cursor → Cursor
last_digits s =
    if ltb s.n 10
    then write_before s 1 ((s.n % 256 + 48) % 256 ∷ []) s.n
    else write_before s 2 (pair_at (s.n * 2)) s.n

-- The sign.
unfoldable pub write_sign : ℤ → Cursor → Cursor
write_sign v s = if is_nonnegative v then s else write_before s 1 (45 ∷ []) s.n

-- The closure's body. The loop makes at most as many rounds as there are digits.
unfoldable pub written : IntType → ℤ → Bytes → Cursor
written t v buf =
    let count = digit_count t v in
    let start : Cursor = record { curr = count; n = magnitude v; buf = buf } in
    let fours = if leb 2 (size_of t) then four_at_a_time count start else start in
    write_sign v (last_digits (two_more fours))

module _ ⦃A : Allocator⦄ where
  -- `NumToRepr::into_repr`
  unfoldable pub into_repr : Mutability → IntType → ℤ → M Heap Repr
  into_repr m t v = new_with m (digit_count t v) (λ buf. (written t v buf).buf)
