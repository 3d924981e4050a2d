-- ===== src/HeapBuffer/Capacity.antt =====
-- `Capacity` (src/repr/heap_buffer.rs) on a 64-bit target.
use lean_string.Prelude.{ℕ, Bool, false, ltb, if◌then◌else◌}
use lean_string.Memory.{Result, ok, err, reserve_error}
use lean_string.HeapBuffer.TextLen.{max_len}

-- `Capacity::MAX`
abbrev pub max_capacity : ℕ
max_capacity = max_len

-- `is_len_heap_layout`
abbrev pub is_len_heap_layout : ℕ → Bool
is_len_heap_layout capacity = false

-- `Capacity::new`
unfoldable pub new : ℕ → Result ℕ
new capacity = if ltb max_capacity capacity then err reserve_error else ok capacity
