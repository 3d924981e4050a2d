-- ===== src/HeapBuffer/TextLen.antt =====
-- `TextLen` (src/repr/heap_buffer.rs) on a 64-bit little-endian target: a length of seven bytes, and
-- the heap marker as the eighth. A length never moves to the heap there.
pub mod Words
use Prim.Native.Nat.{bit_or, bit_xor}
use lean_string.Prelude.{ℕ, ◌*◌, ◌^◌, Bool, false, ltb, if◌then◌else◌}
use lean_string.LastByte.{heap_marker}
use lean_string.Memory.{Result, ok, err, reserve_error}

-- `MAX_LEN`: seven bytes of ones
abbrev pub max_len : ℕ
max_len = 0x00FF_FFFF_FFFF_FFFF

-- `TextLen::TAG`: the marker as the last byte of a word
abbrev pub tag : ℕ
tag = heap_marker * 2 ^ 56

-- `TextLen::new`
unfoldable pub new : ℕ → Result ℕ
new size = if ltb max_len size then err reserve_error else ok (bit_or size tag)

-- `TextLen::as_usize`
unfoldable pub as_usize : ℕ → ℕ
as_usize w = bit_xor w tag

-- `TextLen::is_heap`
abbrev pub is_heap : ℕ → Bool
is_heap w = false
