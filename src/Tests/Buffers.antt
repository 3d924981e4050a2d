-- ===== src/Tests/Buffers.antt =====
-- The theorems on buffers and on reads, at concrete inputs.
use lean_string.Prelude.{◌≡◌, refl, inl, true, some, ◌++◌, arith}
use lean_string.Utf8.{encode_utf8, is_char_boundary}
use lean_string.Utf8.Shape.{Halves, IsUtf8-Halves, IsUtf8-bytes}
use lean_string.Utf8.Decode.{next_char, next_char-encode_utf8}
use lean_string.LastByte.{is_last_byte}
use lean_string.InlineBuffer
use lean_string.InlineBuffer.Shape.{pad}
use lean_string.InlineBuffer.New.{new-pad}
use lean_string.Repr.{last_byte}
use lean_string.Repr.Queries.{last_byte-valid, Discriminated}
use lean_string.Tests.{
  three_places, hi, hi-IsUtf8, letters, letters-IsUtf8, inline_hi, inline-World,
}

new-pad_example : InlineBuffer.new hi ≡ pad hi
new-pad_example = new-pad hi (IsUtf8-bytes hi-IsUtf8) (omega arith)

last_byte-valid_example :
    (is_last_byte (last_byte inline_hi.self) ≡ true) × Discriminated inline_hi.self
last_byte-valid_example = last_byte-valid inline-World.owns.content

next_char-encode_utf8_example : next_char (encode_utf8 0x20AC ++ hi) ≡ some 0x20AC
next_char-encode_utf8_example = next_char-encode_utf8 0x20AC hi (inl (omega arith))

IsUtf8-Halves_example : Halves letters 7
IsUtf8-Halves_example = IsUtf8-Halves 7 letters-IsUtf8 (unfold is_char_boundary in refl)
