-- ===== src/InlineBuffer.antt =====
-- src/repr/inline_buffer.rs on a 64-bit little-endian target: sixteen bytes, assembled as two words.
pub mod Shape
pub mod Words
pub mod New
pub mod FromChar
use Prim.Native.Nat.{bit_and, bit_or}
use lean_string.Prelude.{
  ℕ, zero, suc, ◌+◌, ◌-◌, ◌*◌, ◌/◌, ◌%◌, ◌^◌, Bool, [], ◌∷◌, ◌++◌, ltb, leb, ◌==◌, if◌then◌else◌,
  length, take, drop, replicate,
}
use lean_string.Prelude.LittleEndian.{from_le, to_le}
use lean_string.Prelude.Splice.{splice}
use lean_string.Utf8.{Bytes}
use lean_string.LastByte.{max_inline_size, mask_1100_0000, length00}

abbrev pub InlineBuffer : Type 0
InlineBuffer = Bytes

-- `read_unaligned` of a word of `size` bytes at `src.add(off)`
abbrev pub load : ℕ → Bytes → ℕ → ℕ
load size src off = from_le (take size (drop off src))

-- `<<` and `>>` by bits on a `u64`
abbrev pub shl : ℕ → ℕ → ℕ
shl x k = x * 2 ^ k % 2 ^ 64

abbrev pub shr : ℕ → ℕ → ℕ
shr x k = x / 2 ^ k

-- The word with nothing but the inline length in its last byte.
abbrev pub last_byte_of : ℕ → ℕ
last_byte_of len = shl (bit_or len mask_1100_0000) 56

-- `mem::transmute([w0, w1])`
abbrev pub from_words : ℕ → ℕ → InlineBuffer
from_words w0 w1 = to_le 8 w0 ++ to_le 8 w1

-- The first word of a text shorter than a word: two loads from either end that may overlap.
abbrev pub two_loads : ℕ → Bytes → ℕ
two_loads size text =
    let len = length text in
    bit_or (load size text 0) (shl (load size text (len - size)) ((len - size) * 8))

-- `InlineBuffer::new`
unfoldable pub new : Bytes → InlineBuffer
new text =
    let len = length text in
    let last_byte = last_byte_of len in
    if len == max_inline_size
    then from_words (load 8 text 0) (load 8 text 8)
    else if leb 8 len
    then from_words (load 8 text 0) (
        if len == 8
        then last_byte
        else bit_or (shr (load 8 text (len - 8)) ((max_inline_size - len) * 8)) last_byte)
    else if leb 4 len
    then from_words (two_loads 4 text) last_byte
    else if leb 2 len
    then from_words (two_loads 2 text) last_byte
    else if len == 1
    then from_words (load 1 text 0) last_byte
    else from_words 0 last_byte

-- `InlineBuffer::from_char`
unfoldable pub from_char : ℕ → InlineBuffer
from_char code =
    let low = λ (n : ℕ). bit_or 0x80 (bit_and n 0x3F) in
    let tagged = λ (len : ℕ). shl (bit_or len mask_1100_0000) 56 in
    if ltb code 0x80
    then from_words code (tagged 1)
    else if ltb code 0x800
    then from_words (bit_or (bit_or 0xC0 (shr code 6)) (shl (low code) 8)) (tagged 2)
    else if ltb code 0x10000
    then from_words
        (bit_or (bit_or (bit_or 0xE0 (shr code 12)) (shl (low (shr code 6)) 8)) (shl (low code) 16))
        (tagged 3)
    else from_words
        (bit_or
          (bit_or (bit_or (bit_or 0xF0 (shr code 18)) (shl (low (shr code 12)) 8))
            (shl (low (shr code 6)) 16))
          (shl (low code) 24))
        (tagged 4)

-- `InlineBuffer::empty`
unfoldable pub empty : InlineBuffer
empty = replicate 15 0 ++ length00 ∷ []

-- `InlineBuffer::set_len`: the length of a full buffer is not written.
unfoldable pub set_len : InlineBuffer → ℕ → InlineBuffer
set_len buffer len =
    if ltb len max_inline_size then splice buffer 15 (bit_or len mask_1100_0000 ∷ []) else buffer
