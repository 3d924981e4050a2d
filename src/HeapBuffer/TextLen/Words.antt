-- ===== src/HeapBuffer/TextLen/Words.antt =====
-- A length survives being tagged, and its word carries the marker.
use lean_string.Prelude.{ℕ, ◌+◌, ◌≤◌, ◌≡◌, ap, refl, ltb-false, arith}
use lean_string.Prelude.Bits.{or_tag, xor_tag}
use lean_string.LastByte.{heap_marker}
use lean_string.Memory.{ok}
use lean_string.HeapBuffer.TextLen.{max_len, tag, new, as_usize}

-- The word of a length that fits: the length below, the marker in the last byte.
pub new_tagged : (n : ℕ) → n ≤ max_len → new n ≡ ok (n + tag)
unfolding new
new_tagged n h = rw (ltb-false max_len n h) (ap ok (or_tag heap_marker n (omega arith)))

pub as_usize_tagged : (n : ℕ) → n ≤ max_len → as_usize (n + tag) ≡ n
unfolding as_usize
as_usize_tagged n h = xor_tag heap_marker n (omega arith) refl
