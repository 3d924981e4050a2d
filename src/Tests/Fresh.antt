-- ===== src/Tests/Fresh.antt =====
-- The theorems on new strings, case mappings and numbers, at concrete inputs.
use lean_string.Prelude.{
  ℕ, zero, suc, ◌%◌, ◌==◌, List, [], ◌∷◌, none, ◌<◌, ◌≡◌, refl, some, arith, replicate,
}
use lean_string.Prelude.Int.{pos, negsuc}
use lean_string.HeapBuffer.{mutable, immutable}
use lean_string.Memory.{Heap, exact, put}
use lean_string.Memory.Counted.{block, Counted-fresh}
use lean_string.Utf8.{encode, encode_utf8}
use lean_string.Repr.Owns.{Owns, in_heap}
use lean_string.Repr.Place.{at_state}
use lean_string.Repr.Retain.{Predicate, retain}
use lean_string.Repr.Retain.Chars.{left_over}
use lean_string.Repr.Retain.Keep.{Retained, retain-keeps}
use lean_string.Repr.Convert.Consumed.{Moved, Gone}
use lean_string.LeanString.Convert.{try_into_lean_str, try_into_lean_str-Moved}
use lean_string.Utf8.Utf16.{decode_utf16}
use lean_string.LeanString.Utf16.{from_utf16}
use lean_string.LeanString.Utf16.Decoded.{Decodes, from_utf16-Decodes}
use lean_string.LeanStr.{try_into_lean_string}
use lean_string.LeanStr.Convert.{try_into_lean_string-Moved}
use lean_string.Memory.Ends.{Ends}
use lean_string.Case.{upper, is_ascii, prefix_len_while, count_while}
use lean_string.Case.Scan.{prefix_len_while_lem}
use lean_string.Case.Ascii.{ascii_text}
use lean_string.Repr.Owns.{with_self, Keeps}
use lean_string.Repr.Fresh.{New}
use lean_string.Repr.Init.{repeat}
use lean_string.Repr.Init.Copies.{copies}
use lean_string.Repr.Init.Repeat.{repeat-copies}
use lean_string.Repr.Range.{included, excluded, range_start, range_end, replace_range}
use lean_string.Repr.Range.Replace.{replace_range-replaces}
use lean_string.Repr.Fill.{replaced_at}
use lean_string.Utf8.{is_char_boundary}
use lean_string.Repr.AsciiCase.{to_ascii_case, make_ascii_case}
use lean_string.Repr.AsciiCase.Mapped.{Cased, to_ascii_case-Cased, make_ascii_case-maps}
use lean_string.Repr.DigitCount.{i8, i64, u64, digit_count}
use lean_string.Repr.NumToRepr.{written, magnitude, four_at_a_time, into_repr}
use lean_string.Repr.NumToRepr.Decimal.{parse}
use lean_string.Repr.NumToRepr.Count.{Counts, digit_count-Counts}
use lean_string.Repr.NumToRepr.Print.{
  parse-written, four_at_a_time-stops, Denotes, into_repr-Denotes,
}
use lean_string.Tests.{
  three_places, empty_heap, empty-Counted, hi, letters, letters-IsUtf8, letters-IsScalar, hi-IsUtf8,
  inline_hi, inline-World, heap_letters, heap-World,
}

repeat-copies_example :
    Ends
      (New (with_self (λ a. 0) heap_letters.self) mutable heap_letters.heap (copies 3 letters))
      (λ g. g ≡ heap_letters.heap)
      (repeat mutable heap_letters.self 3 heap_letters.heap)
repeat-copies_example = repeat-copies heap-World.owns 3 (λ e. omega arith)

to_ascii_case-Cased_example :
    Ends
      (Cased
        (λ a. 0)
        mutable
        heap_letters.heap
        heap_letters.self
        letters
        (ascii_text upper letters))
      (λ g. g ≡ heap_letters.heap)
      (to_ascii_case mutable upper heap_letters.self heap_letters.heap)
unfolding put
to_ascii_case-Cased_example = to_ascii_case-Cased heap-World.owns (omega arith) upper

make_ascii_case-maps_example :
    Ends
      (λ _ t. Keeps (λ a. 0) mutable empty_heap (ascii_text upper hi) t)
      (λ t. t ≡ inline_hi)
      (make_ascii_case upper inline_hi)
make_ascii_case-maps_example = make_ascii_case-maps inline-World.owns upper (omega arith)

prefix_len_while_lem_example : prefix_len_while is_ascii letters ≡ count_while is_ascii letters
prefix_len_while_lem_example = prefix_len_while_lem is_ascii letters

digit_count-Counts_example : Counts (negsuc 127) (digit_count i8 (negsuc 127))
digit_count-Counts_example = digit_count-Counts i8 (negsuc 127) (omega arith)

parse-written_example :
    ((written i8 (negsuc 127) (replicate 4 0)).curr ≡ 0)
    × (parse (written i8 (negsuc 127) (replicate 4 0)).buf ≡ some (negsuc 127))
parse-written_example =
    parse-written i8 (negsuc 127) (replicate 4 0) (omega arith) (unfold digit_count in refl)

four_at_a_time-stops_example :
    (four_at_a_time
      (digit_count u64 (pos 18446744073709551615))
      (record { curr = 20; n = 18446744073709551615; buf = replicate 20 0 })).n
    < 10000
four_at_a_time-stops_example =
    four_at_a_time-stops u64 (pos 18446744073709551615)
      (record { curr = 20; n = 18446744073709551615; buf = replicate 20 0 }) (omega arith)
      (unfold magnitude in refl)

into_repr-Denotes_example :
    Ends
      (Denotes (λ a. 0) immutable empty_heap i64 (negsuc 9223372036854775807))
      (λ g. g ≡ empty_heap)
      (into_repr immutable i64 (negsuc 9223372036854775807) empty_heap)
into_repr-Denotes_example =
    into_repr-Denotes immutable i64 (negsuc 9223372036854775807) empty-Counted (omega arith)

replace_range-replaces_example :
    Ends
      (λ _ t. Keeps (λ a. 0) mutable heap_letters.heap (replaced_at 2 6 hi letters) t)
      (λ t. t ≡ heap_letters)
      (replace_range (included 2) (excluded 6) hi heap_letters)
unfolding range_start range_end
replace_range-replaces_example =
    replace_range-replaces heap-World.owns (included 2) (excluded 6) hi hi-IsUtf8
      (unfold is_char_boundary in refl) (unfold is_char_boundary in refl) (omega arith)

-- Every second char, and a panic after the given number of calls.
abbrev every_second : Predicate ℕ
every_second zero ch = none
every_second (suc n) ch = some ((n % 2) == 1, n)

retain-keeps_example :
    Retained
      (λ a. 0)
      heap_letters
      (left_over every_second 4 letters)
      (retain every_second 4 heap_letters)
unfolding encode encode_utf8
retain-keeps_example = retain-keeps every_second letters letters-IsScalar heap-World.owns 4

try_into_lean_str-Moved_example :
    Ends
      (Moved (λ a. 0) immutable heap_letters.heap letters)
      (Gone (λ a. 0) heap_letters.heap)
      (try_into_lean_str heap_letters.self heap_letters.heap)
try_into_lean_str-Moved_example = try_into_lean_str-Moved heap-World.owns

abbrev exact_heap : Heap
exact_heap = put empty_heap 1 (some (block 1 (exact, 28, letters)))

exact-Owns : Owns (λ a. 0) immutable (at_state heap_letters.self exact_heap) letters
unfolding put
exact-Owns = record {
  valid = letters-IsUtf8;
  content = in_heap (record {
    cap = 20;
    bytes = letters;
    at = refl;
    room = refl;
    word = refl;
    begins = refl;
    fits = omega arith;
    limit = omega arith;
    fills = refl;
  });
  counted =
      Counted-fresh (λ a. 0) empty_heap 1 (block 1 (exact, 28, letters)) empty-Counted refl refl;
}

try_into_lean_string-Moved_example :
    Ends
      (Moved (λ a. 0) mutable exact_heap letters)
      (Gone (λ a. 0) exact_heap)
      (try_into_lean_string heap_letters.self exact_heap)
try_into_lean_string-Moved_example = try_into_lean_string-Moved exact-Owns

-- U+1D11E, `m`, and a surrogate without a partner.
abbrev some_units : List ℕ
some_units = 0xD834 ∷ 0xDD1E ∷ 0x6D ∷ 0xD834 ∷ []

from_utf16-Decodes_example :
    Decodes (λ a. 0) empty_heap (decode_utf16 some_units) (from_utf16 some_units empty_heap)
from_utf16-Decodes_example =
    from_utf16-Decodes empty-Counted some_units
      (omega arith, (omega arith, (omega arith, (omega arith, tt))))

decode_utf16_test : decode_utf16 some_units ≡ some 0x1D11E ∷ some 0x6D ∷ none ∷ []
unfolding decode_utf16
decode_utf16_test = refl
