-- ===== src/Tests/Built.antt =====
-- The theorems on iterators, decoders and formatted values, at concrete inputs.
use lean_string.Prelude.{
  ℕ, ◌≡◌, refl, sym, ap, ◌∙◌, inl, inr, Bool, true, false, ◌&&◌, ◌||◌, none, some, List, [], ◌∷◌,
  ◌++◌, append-nil, arith, ltb, leb, ◌==◌, Bool-cases, if◌then◌else◌, All,
}
use lean_string.Prelude.Int.{negsuc}
use lean_string.Utf8.{Bytes, IsScalar, IsUtf8, encode, encode_utf8}
use lean_string.Utf8.Shape.{IsUtf8-nil}
use lean_string.Utf8.Chars.{chars, chars-encode, joined}
use lean_string.HeapBuffer.{mutable}
use lean_string.InlineBuffer
use lean_string.InlineBuffer.Shape.{pad}
use lean_string.InlineBuffer.FromChar.{from_char-pad}
use lean_string.Repr.Owns.{in_inline}
use lean_string.Repr.Room.{InInline-new}
use lean_string.Repr.DigitCount.{i8}
use lean_string.LeanString.Beside.{Beside}
use lean_string.LeanString.Collect.{extend_owned, from_chars}
use lean_string.LeanString.Collect.Owned.{Drained, extend_owned-Drained}
use lean_string.LeanString.Collect.Collected.{from_chars-Beside}
use lean_string.LeanString.Format.{
  Formatting, finish, unwind, write, Valid, write_fmt, try_from_fmt, formatted, succeeds,
}
use lean_string.LeanString.Format.Written.{Written, write_fmt-Written}
use lean_string.LeanString.Format.Formatted.{Displayed, try_from_fmt-Displayed}
use lean_string.LeanString.Utf8.{Validation, rejoined, from_utf8_lossy}
use lean_string.LeanString.Utf8.Lossy.{lossy_pieces, from_utf8_lossy-Beside}
use lean_string.LeanString.Utf16.Endian.{little, from_utf16_bytes}
use lean_string.LeanString.Utf16.Endian.Units.{DecodesBytes, from_utf16_bytes-DecodesBytes}
use lean_string.Utf8.Ascii.{ascii-IsUtf8}
use lean_string.Repr.NumToRepr.{magnitude}
use lean_string.Repr.NumToRepr.Decimal.{digits, digits-IsDigit}
use lean_string.Repr.NumToRepr.Print.{IsDigit-IsAscii}
use lean_string.Traits.{Printers, plain, integer, try_to_lean_string}
use lean_string.Traits.Shown.{Shown, try_to_lean_string-Shown}
use lean_string.Tests.{
  three_places, empty_heap, empty-Counted, hi, hi-IsUtf8, letters, letters-IsUtf8, letters-IsScalar,
  inline_hi, heap_letters, heap-World,
}

from_char-pad_example : InlineBuffer.from_char 0x20AC ≡ pad (encode_utf8 0x20AC)
from_char-pad_example = from_char-pad 0x20AC (inl (omega arith))

from_chars-Beside_example :
    Beside (λ a. 0) mutable empty_heap (encode letters) (from_chars 17 letters empty_heap)
from_chars-Beside_example = from_chars-Beside empty-Counted 17 letters letters-IsScalar

-- A string that is appended to itself is counted twice; here one on the heap is appended to "hi".
extend_owned-Drained_example :
    Drained
      (λ a. 0)
      mutable
      heap_letters.heap
      hi
      ((heap_letters.self, letters) ∷ [])
      (extend_owned mutable
        (heap_letters.self ∷ [])
        (record { self = inline_hi.self; heap = heap_letters.heap }))
extend_owned-Drained_example =
    extend_owned-Drained ((heap_letters.self, letters) ∷ [])
      ((letters-IsUtf8, heap-World.owns.content), tt)
      (record {
        valid = hi-IsUtf8;
        content = in_inline (InInline-new hi hi-IsUtf8 (omega arith));
        counted = heap-World.owns.counted;
      })

-- "hi", then an answer that depends on whether it could be written.
abbrev greeting : Formatting
greeting = write hi (λ answer. write letters (λ again. finish answer))

write_fmt-Written_example :
    Written
      (λ a. 0)
      heap_letters.heap
      letters
      (hi ++ (letters ++ []))
      (some true)
      (write_fmt (record { as_str = none; formatting = greeting }) heap_letters)
unfolding formatted succeeds
write_fmt-Written_example =
    write_fmt-Written heap-World.owns (record { as_str = none; formatting = greeting })
      (hi-IsUtf8, λ a. (letters-IsUtf8, λ b. tt))

-- "hi", then a panic if it could be written.
abbrev panicking : Formatting
panicking = write hi (λ answer. if answer then unwind else finish false)

panicking-Valid : (answer : Bool) → Valid (if answer then unwind else finish false)
panicking-Valid true = tt
panicking-Valid false = tt

try_from_fmt-Displayed_example :
    Displayed
      (λ a. 0)
      empty_heap
      (record { as_str = none; formatting = panicking })
      (try_from_fmt (record { as_str = none; formatting = panicking }) empty_heap)
try_from_fmt-Displayed_example =
    try_from_fmt-Displayed (record { as_str = none; formatting = panicking })
      (hi-IsUtf8, panicking-Valid) empty-Counted

from_utf16_bytes-DecodesBytes_example :
    DecodesBytes
      (λ a. 0)
      empty_heap
      little
      (0x34 ∷ 0xD8 ∷ 0x1E ∷ 0xDD ∷ [])
      (from_utf16_bytes little true (0x34 ∷ 0xD8 ∷ 0x1E ∷ 0xDD ∷ []) empty_heap)
from_utf16_bytes-DecodesBytes_example =
    from_utf16_bytes-DecodesBytes empty-Counted little true (0x34 ∷ 0xD8 ∷ 0x1E ∷ 0xDD ∷ [])
      (omega arith)

digits-IsUtf8 : (k n : ℕ) → IsUtf8 (digits k n)
digits-IsUtf8 k n = ascii-IsUtf8 (digits k n) (IsDigit-IsAscii (digits k n) (digits-IsDigit k n))

-- The lowest 39 digits of an integer, and of a float's bits.
abbrev digit_printers : Printers
digit_printers = record {
  itoa = λ v. digits 39 (magnitude v);
  zmij_f32 = λ bits. digits 10 bits;
  zmij_f64 = λ bits. digits 20 bits;
  itoa_valid = λ v. digits-IsUtf8 39 (magnitude v);
  zmij_f32_valid = λ bits. digits-IsUtf8 10 bits;
  zmij_f64_valid = λ bits. digits-IsUtf8 20 bits;
}

try_to_lean_string-Shown_example :
    Shown digit_printers
      (λ a. 0)
      mutable
      empty_heap
      (plain (integer i8 (negsuc 127)))
      (try_to_lean_string digit_printers (plain (integer i8 (negsuc 127))) empty_heap)
try_to_lean_string-Shown_example =
    try_to_lean_string-Shown digit_printers empty-Counted (plain (integer i8 (negsuc 127)))
      (omega arith)

-- A validation that decodes the bytes and compares.
is_scalar : ℕ → Bool
is_scalar c = ltb c 0xD800 || (leb 0xE000 c && ltb c 0x110000)

all_scalar : List ℕ → Bool
all_scalar [] = true
all_scalar (c ∷ cs) = is_scalar c && all_scalar cs

same_bytes : Bytes → Bytes → Bool
same_bytes [] [] = true
same_bytes [] (b ∷ t) = false
same_bytes (a ∷ s) [] = false
same_bytes (a ∷ s) (b ∷ t) = a == b && same_bytes s t

same_bytes-eq : (s t : Bytes) → same_bytes s t ≡ true → s ≡ t
unfolding same_bytes
same_bytes-eq [] [] e = refl
same_bytes-eq [] (b ∷ t) e = absurd (cc)
same_bytes-eq (a ∷ s) [] e = absurd (cc)
same_bytes-eq (a ∷ s) (b ∷ t) e = ground (arith, same_bytes-eq s t)

same_bytes_refl : (s : Bytes) → same_bytes s s ≡ true
unfolding same_bytes
same_bytes_refl [] = refl
same_bytes_refl (a ∷ s) = ground (arith, same_bytes_refl s)

char_of : (c : ℕ) → is_scalar c ≡ true → IsScalar c
unfolding is_scalar
char_of c e = ground arith

is_scalar_of : (c : ℕ) → IsScalar c → is_scalar c ≡ true
unfolding is_scalar
is_scalar_of c sc = ground arith

all_scalar-All : (cs : List ℕ) → all_scalar cs ≡ true → All IsScalar cs
unfolding all_scalar
all_scalar-All [] e = tt
all_scalar-All (c ∷ cs) e = (char_of c (ground arith), all_scalar-All cs (ground arith))

All-all_scalar : (cs : List ℕ) → All IsScalar cs → all_scalar cs ≡ true
unfolding all_scalar
All-all_scalar [] all = refl
All-all_scalar (c ∷ cs) (sc, all) = ground (arith, is_scalar_of c sc, All-all_scalar cs all)

valid_text : Bytes → Bool
valid_text s = all_scalar (chars s) && same_bytes (encode (chars s)) s

valid_text-IsUtf8 : (s : Bytes) → valid_text s ≡ true → IsUtf8 s
unfolding valid_text
valid_text-IsUtf8 s e = record {
  chars = chars s;
  scalars = all_scalar-All (chars s) (ground arith);
  spells = same_bytes-eq (encode (chars s)) s (ground arith);
}

IsUtf8-valid_text : (s : Bytes) → IsUtf8 s → valid_text s ≡ true
unfolding valid_text
IsUtf8-valid_text s u =
    let e : chars s ≡ u.chars = ap chars (sym u.spells) ∙ chars-encode u.chars u.scalars in
    rw (e, u.spells) (ground (arith, All-all_scalar u.chars u.scalars, same_bytes_refl s))

one_chunk : Bytes → List (Bytes × Bytes)
one_chunk s = if valid_text s then (s, []) ∷ [] else ([], s) ∷ []

one_chunk-valid : (s : Bytes) → All (λ c. IsUtf8 c.0) (one_chunk s)
unfolding one_chunk
one_chunk-valid s = elim (Bool-cases (valid_text s)) [
  | inl good ↦ rw good (valid_text-IsUtf8 s good, tt)
  | inr bad ↦ rw bad (IsUtf8-nil, tt)
]

one_chunk-cut : (s : Bytes) → rejoined (one_chunk s) ≡ s
unfolding one_chunk rejoined
one_chunk-cut s = elim (Bool-cases (valid_text s)) [
  | inl good ↦ rw good (append-nil s)
  | inr bad ↦ rw bad (append-nil s)
]

abbrev by_decoding : Validation
by_decoding = record {
  is_valid = valid_text;
  utf8_chunks = one_chunk;
  accepted = valid_text-IsUtf8;
  accepts = IsUtf8-valid_text;
  valid_parts = one_chunk-valid;
  cut = one_chunk-cut;
}

from_utf8_lossy-Beside_example :
    Beside
      (λ a. 0)
      mutable
      empty_heap
      (joined (lossy_pieces (one_chunk (0xC3 ∷ 0x28 ∷ []))))
      (from_utf8_lossy by_decoding (0xC3 ∷ 0x28 ∷ []) empty_heap)
from_utf8_lossy-Beside_example = from_utf8_lossy-Beside by_decoding empty-Counted (0xC3 ∷ 0x28 ∷ [])
