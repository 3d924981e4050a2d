-- ===== src/Repr/DigitCount.antt =====
-- The integer types of src/repr/num_to_repr.rs, on a target with 64-bit pointers, and the trait
-- `DigitCount` for them.
use lean_string.Prelude.{ℕ, ◌^◌, ◌<◌, Bool, true, false, List, [], ◌∷◌, leb, if◌then◌else◌}
use lean_string.Prelude.Int.{ℤ, pos, negsuc, neg}

-- The primitive integer types.
pub data IntType : Type 0 where
  i8 u8 i16 u16 i32 u32 i64 u64 isize usize : IntType

-- `size_of`
abbrev pub size_of : IntType → ℕ
size_of i8 = 1
size_of u8 = 1
size_of i16 = 2
size_of u16 = 2
size_of i32 = 4
size_of u32 = 4
size_of i64 = 8
size_of u64 = 8
size_of isize = 8
size_of usize = 8

-- The first number above the type's, and how many lie below 0.
abbrev pub above_max : IntType → ℕ
above_max i8 = 2 ^ 7
above_max u8 = 2 ^ 8
above_max i16 = 2 ^ 15
above_max u16 = 2 ^ 16
above_max i32 = 2 ^ 31
above_max u32 = 2 ^ 32
above_max i64 = 2 ^ 63
above_max u64 = 2 ^ 64
above_max isize = 2 ^ 63
above_max usize = 2 ^ 64

abbrev pub below_zero : IntType → ℕ
below_zero i8 = 2 ^ 7
below_zero i16 = 2 ^ 15
below_zero i32 = 2 ^ 31
below_zero i64 = 2 ^ 63
below_zero isize = 2 ^ 63
below_zero _ = 0

-- The integers that a type holds.
abbrev pub InRange : IntType → ℤ → Type 0
InRange t (pos n) = n < above_max t
InRange t (negsuc n) = n < below_zero t

abbrev pub leb_ℤ : ℤ → ℤ → Bool
leb_ℤ (pos a) (pos b) = leb a b
leb_ℤ (pos a) (negsuc b) = false
leb_ℤ (negsuc a) (pos b) = true
leb_ℤ (negsuc a) (negsuc b) = leb b a

-- The arms of a match on ascending ranges: the last number of each and what it gives. What the last
-- arm gives comes first.
abbrev pub match_ranges : ℕ → List (ℤ × ℕ) → ℤ → ℕ
match_ranges last [] v = last
match_ranges last ((end, count) ∷ arms) v =
    let rest = match_ranges last arms v in if leb_ℤ v end then count else rest

-- `DigitCount::digit_count` of `u64` and `i64`, to which `usize` and `isize` are cast
abbrev pub arms_u64 : List (ℤ × ℕ)
arms_u64 =
    (pos 9, 1)
    ∷ (pos 99, 2)
    ∷ (pos 999, 3)
    ∷ (pos 9999, 4)
    ∷ (pos 99999, 5)
    ∷ (pos 999999, 6)
    ∷ (pos 9999999, 7)
    ∷ (pos 99999999, 8)
    ∷ (pos 999999999, 9)
    ∷ (pos 9999999999, 10)
    ∷ (pos 99999999999, 11)
    ∷ (pos 999999999999, 12)
    ∷ (pos 9999999999999, 13)
    ∷ (pos 99999999999999, 14)
    ∷ (pos 999999999999999, 15)
    ∷ (pos 9999999999999999, 16)
    ∷ (pos 99999999999999999, 17)
    ∷ (pos 999999999999999999, 18)
    ∷ (pos 9999999999999999999, 19)
    ∷ []

abbrev pub arms_i64 : List (ℤ × ℕ)
arms_i64 =
    (neg 1000000000000000000, 20)
    ∷ (neg 100000000000000000, 19)
    ∷ (neg 10000000000000000, 18)
    ∷ (neg 1000000000000000, 17)
    ∷ (neg 100000000000000, 16)
    ∷ (neg 10000000000000, 15)
    ∷ (neg 1000000000000, 14)
    ∷ (neg 100000000000, 13)
    ∷ (neg 10000000000, 12)
    ∷ (neg 1000000000, 11)
    ∷ (neg 100000000, 10)
    ∷ (neg 10000000, 9)
    ∷ (neg 1000000, 8)
    ∷ (neg 100000, 7)
    ∷ (neg 10000, 6)
    ∷ (neg 1000, 5)
    ∷ (neg 100, 4)
    ∷ (neg 10, 3)
    ∷ (neg 1, 2)
    ∷ (pos 9, 1)
    ∷ (pos 99, 2)
    ∷ (pos 999, 3)
    ∷ (pos 9999, 4)
    ∷ (pos 99999, 5)
    ∷ (pos 999999, 6)
    ∷ (pos 9999999, 7)
    ∷ (pos 99999999, 8)
    ∷ (pos 999999999, 9)
    ∷ (pos 9999999999, 10)
    ∷ (pos 99999999999, 11)
    ∷ (pos 999999999999, 12)
    ∷ (pos 9999999999999, 13)
    ∷ (pos 99999999999999, 14)
    ∷ (pos 999999999999999, 15)
    ∷ (pos 9999999999999999, 16)
    ∷ (pos 99999999999999999, 17)
    ∷ (pos 999999999999999999, 18)
    ∷ []

-- The arms of each type.
abbrev pub arms : IntType → List (ℤ × ℕ)
arms u8 = (pos 9, 1) ∷ (pos 99, 2) ∷ []
arms i8 = (neg 100, 4) ∷ (neg 10, 3) ∷ (neg 1, 2) ∷ (pos 9, 1) ∷ (pos 99, 2) ∷ []
arms u16 = (pos 9, 1) ∷ (pos 99, 2) ∷ (pos 999, 3) ∷ (pos 9999, 4) ∷ []
arms i16 =
    (neg 10000, 6)
    ∷ (neg 1000, 5)
    ∷ (neg 100, 4)
    ∷ (neg 10, 3)
    ∷ (neg 1, 2)
    ∷ (pos 9, 1)
    ∷ (pos 99, 2)
    ∷ (pos 999, 3)
    ∷ (pos 9999, 4)
    ∷ []
arms u32 =
    (pos 9, 1)
    ∷ (pos 99, 2)
    ∷ (pos 999, 3)
    ∷ (pos 9999, 4)
    ∷ (pos 99999, 5)
    ∷ (pos 999999, 6)
    ∷ (pos 9999999, 7)
    ∷ (pos 99999999, 8)
    ∷ (pos 999999999, 9)
    ∷ []
arms i32 =
    (neg 1000000000, 11)
    ∷ (neg 100000000, 10)
    ∷ (neg 10000000, 9)
    ∷ (neg 1000000, 8)
    ∷ (neg 100000, 7)
    ∷ (neg 10000, 6)
    ∷ (neg 1000, 5)
    ∷ (neg 100, 4)
    ∷ (neg 10, 3)
    ∷ (neg 1, 2)
    ∷ (pos 9, 1)
    ∷ (pos 99, 2)
    ∷ (pos 999, 3)
    ∷ (pos 9999, 4)
    ∷ (pos 99999, 5)
    ∷ (pos 999999, 6)
    ∷ (pos 9999999, 7)
    ∷ (pos 99999999, 8)
    ∷ (pos 999999999, 9)
    ∷ []
arms u64 = arms_u64
arms i64 = arms_i64
arms usize = arms_u64
arms isize = arms_i64

abbrev pub last_arm : IntType → ℕ
last_arm u8 = 3
last_arm i8 = 3
last_arm u16 = 5
last_arm i16 = 5
last_arm u32 = 10
last_arm i32 = 10
last_arm u64 = 20
last_arm i64 = 19
last_arm usize = 20
last_arm isize = 19

unfoldable pub digit_count : IntType → ℤ → ℕ
digit_count t v = match_ranges (last_arm t) (arms t) v
