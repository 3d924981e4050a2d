-- ===== src/Repr/Scalar.antt =====
-- `Repr::from_char` and `Repr::from_bool` (src/repr.rs).
use lean_string.Prelude.{
  ℕ, ◌≤◌, inl, refl, sym, subst, Bool, true, false, [], ◌∷◌, arith, ◌<◌, All, length, if◌then◌else◌,
}
use lean_string.Utf8.{Bytes, IsScalar, IsUtf8, encode_utf8, encode}
use lean_string.Utf8.Shape.{IsUtf8-encode_utf8, length-encode_utf8, len_utf8_bounds}
use lean_string.Memory.{Heap}
use lean_string.Memory.Counted.{Counted}
use lean_string.HeapBuffer.{Mutability}
use lean_string.InlineBuffer
use lean_string.InlineBuffer.FromChar.{from_char-pad}
use lean_string.Repr.{Repr, inline}
use lean_string.Repr.Owns.{InInline}
use lean_string.Repr.Room.{InInline-pad, InInline-new}
use lean_string.Repr.Fresh.{New, inline-New}

-- `Repr::from_char`
unfoldable pub from_char : ℕ → Repr
from_char ch = inline (InlineBuffer.from_char ch)

-- "true" and "false"
abbrev pub true_text : Bytes
true_text = b't' ∷ b'r' ∷ b'u' ∷ b'e' ∷ []

abbrev pub false_text : Bytes
false_text = b'f' ∷ b'a' ∷ b'l' ∷ b's' ∷ b'e' ∷ []

abbrev pub bool_text : Bool → Bytes
bool_text true = true_text
bool_text false = false_text

-- `Repr::from_bool`, with `INLINE_BUFFER_TRUE` and `INLINE_BUFFER_FALSE`
unfoldable pub from_bool : Bool → Repr
from_bool b =
    if b then inline (InlineBuffer.new true_text) else inline (InlineBuffer.new false_text)

ascii_scalars : (s : Bytes) → All (λ b. b < 128) s → All IsScalar s
ascii_scalars [] all = tt
ascii_scalars (b ∷ s) (small, all) = (inl (omega arith), ascii_scalars s all)

bool_valid : (b : Bool) → IsUtf8 (bool_text b)
unfolding encode encode_utf8
bool_valid true = record {
  chars = true_text;
  scalars = ascii_scalars true_text (omega arith);
  spells = refl;
}
bool_valid false = record {
  chars = false_text;
  scalars = ascii_scalars false_text (omega arith);
  spells = refl;
}

module _ {refs : ℕ → ℕ} {h : Heap} {m : Mutability} (k : Counted refs h) where
  -- A string of its own with the encoding of the char.
  pub from_char-New : (c : ℕ) → IsScalar c → New refs m h (encode_utf8 c) (from_char c) h
  unfolding from_char
  from_char-New c sc =
      let u = IsUtf8-encode_utf8 c sc in
      let fits : length (encode_utf8 c) ≤ 16 =
        omega (arith, length-encode_utf8 c, len_utf8_bounds c) in
      inline-New k u (
        subst (λ b. InInline b (encode_utf8 c)) (sym (from_char-pad c sc))
          (InInline-pad (encode_utf8 c) u fits))

  -- A string of its own with the word for the value.
  pub from_bool-New : (b : Bool) → New refs m h (bool_text b) (from_bool b) h
  unfolding from_bool
  from_bool-New true =
      inline-New k (bool_valid true) (InInline-new true_text (bool_valid true) (omega arith))
  from_bool-New false =
      inline-New k (bool_valid false) (InInline-new false_text (bool_valid false) (omega arith))
