-- ===== src/InlineBuffer/FromChar.antt =====
-- `InlineBuffer::from_char` assembles the encoding of a char in a word.
use Prim.Native.Nat.{bit_and, bit_or}
use mathlib.Core.Path.{ap₂}
use lean_string.Prelude.{
  ℕ, ◌+◌, ◌*◌, ◌/◌, ◌%◌, ◌≤◌, ◌<◌, ◌≡◌, ap, ◌∙◌, inl, inr, [], ◌∷◌, arith, ltb, ltb→lt,
  le_of_ltb-false, Bool-cases,
}
use lean_string.Prelude.Bits.{pow2, bit_or_split, bit_or-zero, zero-bit_or, and_low}
use lean_string.Utf8.{IsScalar, encode_utf8}
use lean_string.InlineBuffer.{shl, shr, from_char}
use lean_string.InlineBuffer.Shape.{pad}
use lean_string.InlineBuffer.New.{short_case}

-- Bits above a number, and bits below a multiple.
or_above : (k a b : ℕ) → a < pow2 k → bit_or a (pow2 k * b) ≡ a + pow2 k * b
or_above k a b h =
    let e : bit_or a (pow2 k * b) ≡ bit_or (a + pow2 k * 0) (0 + pow2 k * b) =
      ap₂ bit_or (omega arith) (omega arith) in
    omega (
      arith,
      e,
      bit_or_split k a 0 0 b h (omega arith),
      bit_or-zero a,
      ap (λ n. pow2 k * n) (zero-bit_or b),
    )

or_below : (k m x : ℕ) → x < pow2 k → bit_or (pow2 k * m) x ≡ pow2 k * m + x
or_below k m x h =
    let e : bit_or (pow2 k * m) x ≡ bit_or (0 + pow2 k * m) (x + pow2 k * 0) =
      ap₂ bit_or (omega arith) (omega arith) in
    omega (
      arith,
      e,
      bit_or_split k 0 x m 0 (omega arith) h,
      ap (λ n. pow2 k * n) (bit_or-zero m),
      zero-bit_or x,
    )

low_bits : (n : ℕ) → bit_or 0x80 (bit_and n 0x3F) ≡ 0x80 + n % 64
low_bits n =
    ap (λ x. bit_or 0x80 x)
      (ap (λ x. bit_and x 0x3F) {y = n % 64 + pow2 6 * (n / 64)} (omega arith)
        ∙ and_low 6 (n % 64) (n / 64) (omega arith))
    ∙ or_below 6 2 (n % 64) (omega arith)

-- A byte put above `k` bits.
or_byte : (k a b : ℕ) → a < pow2 k → shl b k ≡ pow2 k * b → bit_or a (shl b k) ≡ a + pow2 k * b
or_byte k a b h e = ap (λ x. bit_or a x) e ∙ or_above k a b h

two_bytes :
    (c : ℕ)
    → c < 0x800
    → bit_or (bit_or 0xC0 (shr c 6)) (shl (bit_or 0x80 (bit_and c 0x3F)) 8)
      ≡ (0xC0 + c / 64) + 256 * (0x80 + c % 64)
two_bytes c h =
    rw (low_bits c, or_below 5 6 (shr c 6) (omega arith))
      (or_byte 8 (0xC0 + shr c 6) (0x80 + c % 64) (omega arith) (omega arith) ∙ omega arith)

three_bytes :
    (c : ℕ)
    → c < 0x10000
    → bit_or
        (bit_or (bit_or 0xE0 (shr c 12)) (shl (bit_or 0x80 (bit_and (shr c 6) 0x3F)) 8))
        (shl (bit_or 0x80 (bit_and c 0x3F)) 16)
      ≡ (0xE0 + c / 4096) + 256 * (0x80 + c / 64 % 64) + 65536 * (0x80 + c % 64)
three_bytes c h =
    rw
      (
        low_bits c,
        low_bits (shr c 6),
        or_below 4 14 (shr c 12) (omega arith),
        or_byte 8 (0xE0 + shr c 12) (0x80 + shr c 6 % 64) (omega arith) (omega arith),
      )
      (or_byte 16 (0xE0 + shr c 12 + 256 * (0x80 + shr c 6 % 64)) (0x80 + c % 64) (omega arith)
          (omega arith)
        ∙ omega arith)

four_bytes :
    (c : ℕ)
    → c < 0x110000
    → bit_or
        (bit_or
          (bit_or (bit_or 0xF0 (shr c 18)) (shl (bit_or 0x80 (bit_and (shr c 12) 0x3F)) 8))
          (shl (bit_or 0x80 (bit_and (shr c 6) 0x3F)) 16))
        (shl (bit_or 0x80 (bit_and c 0x3F)) 24)
      ≡ (0xF0 + c / 262144)
        + 256 * (0x80 + c / 4096 % 64)
        + 65536 * (0x80 + c / 64 % 64)
        + 16777216 * (0x80 + c % 64)
four_bytes c h =
    rw
      (
        low_bits c,
        low_bits (shr c 6),
        low_bits (shr c 12),
        or_below 3 30 (shr c 18) (omega arith),
        or_byte 8 (0xF0 + shr c 18) (0x80 + shr c 12 % 64) (omega arith) (omega arith),
        or_byte 16 (0xF0 + shr c 18 + 256 * (0x80 + shr c 12 % 64)) (0x80 + shr c 6 % 64)
            (omega arith) (omega arith),
      )
      (or_byte 24 (0xF0 + shr c 18 + 256 * (0x80 + shr c 12 % 64) + 65536 * (0x80 + shr c 6 % 64))
          (0x80 + c % 64) (omega arith) (omega arith)
        ∙ omega arith)

-- For a scalar value, the shifts and masks of `from_char` make the inline buffer of exactly the
-- bytes that `char::encode_utf8` gives, with zeros and the tagged length behind them.
pub from_char-pad : (c : ℕ) → IsScalar c → from_char c ≡ pad (encode_utf8 c)
unfolding from_char encode_utf8
from_char-pad c sc = elim (Bool-cases (ltb c 0x80)) [
  | inl one ↦
      let h : c < 0x80 = ltb→lt c 0x80 one in
      rw one (short_case (c ∷ []) c (omega arith) (omega arith) (omega arith))
  | inr a ↦
      let low : 0x80 ≤ c = le_of_ltb-false c 0x80 a in
      rw a (elim (Bool-cases (ltb c 0x800)) [
        | inl two ↦
            let h : c < 0x800 = ltb→lt c 0x800 two in
            rw two (
              short_case ((0xC0 + c / 64) ∷ (0x80 + c % 64) ∷ []) _ (omega arith) (omega arith)
                (two_bytes c h ∙ omega arith))
        | inr b ↦ rw b (elim (Bool-cases (ltb c 0x10000)) [
          | inl three ↦
              let h : c < 0x10000 = ltb→lt c 0x10000 three in
              rw three (
                short_case ((0xE0 + c / 4096) ∷ (0x80 + c / 64 % 64) ∷ (0x80 + c % 64) ∷ []) _
                  (omega arith) (omega arith) (three_bytes c h ∙ omega arith))
          | inr d ↦
              let h : c < 0x110000 = ground arith in
              rw d (
                short_case
                  ((0xF0 + c / 262144)
                    ∷ (0x80 + c / 4096 % 64)
                    ∷ (0x80 + c / 64 % 64)
                    ∷ (0x80 + c % 64)
                    ∷ [])
                  _ (omega arith) (omega arith) (four_bytes c h ∙ omega arith))
        ])
      ])
]
