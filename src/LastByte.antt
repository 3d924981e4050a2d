-- ===== src/LastByte.antt =====
-- The last byte of the two words (src/repr/last_byte.rs): a byte below 0xC0 is the sixteenth byte of
-- a full inline text, 0xC0 to 0xCF an inline length, and the two markers tag the other buffers.
use lean_string.Prelude.{ℕ, ◌+◌, Bool, ltb}

-- `size_of::<usize>()` and `usize::MAX`, `isize::MAX`, on a 64-bit target
abbrev pub usize_max : ℕ
usize_max = 0xFFFF_FFFF_FFFF_FFFF

abbrev pub isize_max : ℕ
isize_max = 0x7FFF_FFFF_FFFF_FFFF

abbrev pub max_inline_size : ℕ
max_inline_size = 16

abbrev pub length00 : ℕ
length00 = 0xC0

abbrev pub heap_marker : ℕ
heap_marker = 0xD0

abbrev pub static_marker : ℕ
static_marker = 0xD1

abbrev pub mask_1100_0000 : ℕ
mask_1100_0000 = 0xC0

-- The values of the enum: a byte with any other value is no `LastByte`.
unfoldable pub is_last_byte : ℕ → Bool
is_last_byte b = ltb b (static_marker + 1)
