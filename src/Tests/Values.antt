-- ===== src/Tests/Values.antt =====
-- The theorems on case mappings, iterators and formatted values, at concrete inputs.
use mathlib.Core.List.{map}
use lean_string.Prelude.{
  ℕ, ◌<◌, ◌≡◌, refl, sym, ap, subst, inl, inr, List, [], ◌∷◌, arith, ◌==◌, Bool-cases,
  if◌then◌else◌, All,
}
use lean_string.Utf8.{Bytes, IsScalar, IsUtf8, encode, encode_utf8}
use lean_string.Utf8.Shape.{IsUtf8-encode}
use lean_string.Utf8.Chars.{chars, chars-encode}
use lean_string.Memory.Ends.{Ends}
use lean_string.HeapBuffer.{mutable, immutable}
use lean_string.Case.{Case, lower, upper, ascii_mapped}
use lean_string.Case.Ascii.{mapped-IsScalar}
use lean_string.Case.Unicode.{
  Unicode, capital_sigma, small_sigma, mapped_chars, split_at_first_change,
}
use lean_string.Case.Unicode.Splits.{Divided, split_at_first_change-Divided}
use lean_string.Repr.Owns.{with_self}
use lean_string.Repr.ToCase.{to_case}
use lean_string.Repr.ToCase.Ended.{CaseMapped, Cleared}
use lean_string.Repr.ToCase.Mapped.{to_case-CaseMapped}
use lean_string.LeanString.Beside.{Beside}
use lean_string.LeanString.UnicodeCase.{to_lowercase, to_lowercase-Beside}
use lean_string.InlineBuffer
use lean_string.Repr.{inline}
use lean_string.Repr.Room.{InInline-new}
use lean_string.Repr.Owns.{in_inline}
use lean_string.LeanString.Compare.{lean, plain}
use lean_string.LeanString.Compare.Compared.{
  of_lean, of_plain, Equated, Compared, eq-Equated, cmp-Compared,
}
use lean_string.LeanString.Collect.{extend_chars}
use lean_string.LeanString.Collect.Extended.{Extended, extend_chars-Extended}
use lean_string.Tests.{
  three_places, empty_heap, empty-Counted, hi, hi-IsUtf8, letters, heap_letters, heap-World,
}

-- Mappings that change the ASCII letters and the letter sigma alone.
simple_case : Case → ℕ → ℕ
simple_case lower c = if c == capital_sigma then small_sigma else ascii_mapped lower c
simple_case upper c = ascii_mapped upper c

simple-ascii : (case : Case) (c : ℕ) → c < 128 → simple_case case c ∷ [] ≡ ascii_mapped case c ∷ []
unfolding simple_case
simple-ascii lower c lt = ap (λ x. x ∷ []) (ground arith)
simple-ascii upper c lt = refl

simple-IsScalar : (case : Case) (c : ℕ) → IsScalar c → All IsScalar (simple_case case c ∷ [])
unfolding simple_case
simple-IsScalar upper c sc = (mapped-IsScalar upper c sc, tt)
simple-IsScalar lower c sc = elim (Bool-cases (c == capital_sigma)) [
  | inl e ↦ rw e (inl (omega arith), tt)
  | inr e ↦ rw e (mapped-IsScalar lower c sc, tt)
]

mapped-scalars :
    (case : Case) (cs : List ℕ)
    → All IsScalar cs
    → All IsScalar (mapped_chars (λ c. simple_case case c ∷ []) cs)
unfolding mapped_chars
mapped-scalars case [] all = tt
mapped-scalars case (c ∷ cs) (sc, all) = ((simple-IsScalar case c sc).0, mapped-scalars case cs all)

simple_text : Case → Bytes → Bytes
simple_text case s = encode (mapped_chars (λ c. simple_case case c ∷ []) (chars s))

simple_text_lem :
    (case : Case) (cs : List ℕ)
    → All IsScalar cs
    → simple_text case (encode cs) ≡ encode (mapped_chars (λ c. simple_case case c ∷ []) cs)
unfolding simple_text
simple_text_lem case cs sc =
    ap (λ x. encode (mapped_chars (λ c. simple_case case c ∷ []) x)) (chars-encode cs sc)

simple-valid : (case : Case) (s : Bytes) → IsUtf8 s → IsUtf8 (simple_text case s)
simple-valid case s u =
    subst (λ t. IsUtf8 (simple_text case t)) u.spells
      (subst IsUtf8 (sym (simple_text_lem case u.chars u.scalars)) (
        IsUtf8-encode (mapped_chars (λ c. simple_case case c ∷ []) u.chars)
          (mapped-scalars case u.chars u.scalars)))

abbrev simple_unicode : Unicode
unfolding simple_case
simple_unicode = record {
  to_char_case = λ case c. simple_case case c ∷ [];
  to_text_case = simple_text;
  ascii_case = simple-ascii;
  sigma_case = refl;
  char_scalars = simple-IsScalar;
  text_valid = simple-valid;
  text_upper = simple_text_lem upper;
  text_lower = λ cs sc other. simple_text_lem lower cs sc;
}

-- "aΣB"
abbrev greek : List ℕ
greek = 97 ∷ capital_sigma ∷ 66 ∷ []

greek-IsScalar : All IsScalar greek
greek-IsScalar = (inl (omega arith), (inl (omega arith), (inl (omega arith), tt)))

split_at_first_change-Divided_example :
    Divided simple_unicode lower greek (split_at_first_change simple_unicode lower (encode greek))
split_at_first_change-Divided_example =
    split_at_first_change-Divided simple_unicode lower greek greek-IsScalar

to_case-CaseMapped_example :
    Ends
      (CaseMapped
        (λ a. 0)
        empty_heap
        (encode greek)
        (simple_unicode.to_text_case lower (encode greek)))
      (Cleared (λ a. 0) empty_heap)
      (to_case simple_unicode lower (encode greek) empty_heap)
to_case-CaseMapped_example =
    to_case-CaseMapped simple_unicode lower empty-Counted (IsUtf8-encode greek greek-IsScalar)

to_lowercase-Beside_example :
    Beside
      (with_self (λ a. 0) heap_letters.self)
      mutable
      heap_letters.heap
      (simple_unicode.to_text_case lower letters)
      (to_lowercase simple_unicode heap_letters.self heap_letters.heap)
to_lowercase-Beside_example = to_lowercase-Beside simple_unicode heap-World.owns

extend_chars-Extended_example :
    Extended
      (λ a. 0)
      heap_letters.heap
      letters
      (map encode_utf8 greek)
      (extend_chars 9 greek heap_letters)
extend_chars-Extended_example = extend_chars-Extended heap-World.owns 9 greek greek-IsScalar

eq-Equated_example : Equated heap_letters.heap (lean heap_letters.self) (plain hi) letters hi
eq-Equated_example = eq-Equated (of_lean heap-World.owns.content) of_plain

cmp-Compared_example :
    Compared heap_letters.heap heap_letters.self (inline (InlineBuffer.new hi)) letters hi
cmp-Compared_example =
    cmp-Compared {n = immutable} heap-World.owns.content
      (in_inline (InInline-new hi hi-IsUtf8 (omega arith)))
