-- ===== src/InlineBuffer/Shape.antt =====
-- The sixteen bytes of a text.
use Prim.Native.Nat.{bit_or}
use lean_string.Prelude.{
  ℕ, zero, suc, ◌+◌, ◌-◌, ◌*◌, ◌/◌, ◌%◌, ◌^◌, ◌≤◌, ◌<◌, ◌≡◌, refl, sym, ap, subst, ◌∙◌, Bool, true,
  false, inl, inr, arith, [], ◌∷◌, ◌++◌, append_assoc, append-nil, ltb, leb, ◌==◌, if◌then◌else◌,
  Bool-cases, ltb→lt, le_of_ltb-false, length, take, drop, replicate, All, length-append,
  length-take, length-drop, length-replicate, take-append-drop, get_or,
}
use lean_string.Prelude.Bits.{pow2, bit_or_split, bit_or-zero, zero-bit_or}
use lean_string.Prelude.LittleEndian.{IsByte, from_le, to_le, pow256, to_le-from_le, from_le-append}
use lean_string.Utf8.{Bytes}
use lean_string.LastByte.{mask_1100_0000, max_inline_size}
use lean_string.InlineBuffer.{InlineBuffer}

-- A full text as it is; a shorter one with zeros behind it, and its length in the last byte.
unfoldable pub pad : Bytes → InlineBuffer
pad text =
    if length text == max_inline_size
    then text
    else text ++ (replicate (15 - length text) 0 ++ (length text + 0xC0) ∷ [])

-- `len | MASK_1100_0000`
pub or_mask : (n : ℕ) → n < 64 → bit_or n mask_1100_0000 ≡ n + 0xC0
or_mask n h =
    let e : bit_or n 0xC0 ≡ bit_or (n + pow2 6 * 0) (0 + pow2 6 * 3) =
      mathlib.Core.Path.ap₂ bit_or (omega arith) (omega arith) in
    omega
      (arith, e, bit_or_split 6 n 0 0 3 (omega arith) (omega arith), bit_or-zero n, zero-bit_or 3)

-- Eight bytes of seven and one on top.
pub to_le_top :
    (bs : Bytes) (t : ℕ)
    → length bs ≡ 7
    → All IsByte bs
    → IsByte t
    → to_le 8 (from_le bs + t * 2 ^ 56) ≡ bs ++ t ∷ []
to_le_top bs t e hb ht =
    let bytes = bs ++ t ∷ [] in
    let n : length bytes ≡ 8 = omega (arith, length-append bs (t ∷ [])) in
    let spelled : from_le bytes ≡ from_le bs + t * 2 ^ 56 =
      from_le-append bs (t ∷ [])
      ∙ ap (λ k. from_le bs + pow256 k * from_le (t ∷ [])) e
      ∙ omega arith in
    let all : All IsByte bytes = lean_string.Prelude.All-append IsByte bs (t ∷ []) hb (ht, tt) in
    sym (ap (to_le 8) spelled) ∙ sym (ap (λ k. to_le k (from_le bytes)) n) ∙ to_le-from_le bytes all
