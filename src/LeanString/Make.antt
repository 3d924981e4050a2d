-- ===== src/LeanString/Make.antt =====
-- src/lib.rs: the methods of `LeanString` that make or read a string without changing it.
use lean_string.Prelude.{ℕ, Bool, Option}
use lean_string.Utf8.{Bytes}
use lean_string.Memory.{Result, ok, err, Heap, Allocator, M, pure, panic}
use lean_string.HeapBuffer.{mutable}
use lean_string.Case.{lower, upper}
use lean_string.Repr
use lean_string.Repr.{Repr, State, reading, make_shallow_clone, drop_in, replace_inner}
use lean_string.Repr.Init
use lean_string.Repr.AsciiCase.{to_ascii_case}
use lean_string.LeanString.{unwrap_with_msg}

-- `new`, `from_static_str`
unfoldable pub new : Repr
new = Repr.new

abbrev pub or_panic : {S : Type 0} → Result Repr → M S Repr
or_panic (ok r) = pure r
or_panic (err e) = panic

unfoldable pub from_static_str : {S : Type 0} → Bytes → M S Repr
from_static_str text = or_panic (Repr.from_static_str text)

-- `len`, `is_empty`, `as_str` and `as_bytes`, `is_heap_allocated`, `as_static_str`
unfoldable pub len : Repr → ℕ
len r = Repr.len r

unfoldable pub is_empty : Repr → Bool
is_empty r = Repr.is_empty r

unfoldable pub as_bytes : Repr → M Heap Bytes
as_bytes r = Repr.as_bytes r

unfoldable pub is_heap_allocated : Repr → Bool
is_heap_allocated r = Repr.is_heap_buffer r

unfoldable pub as_static_str : Repr → M Heap (Option Bytes)
as_static_str r = Repr.as_static_str r

-- `capacity`
unfoldable pub capacity : Repr → M Heap ℕ
capacity r = Repr.capacity r

module _ ⦃A : Allocator⦄ where
  -- `try_with_capacity`, `with_capacity`
  unfoldable pub try_with_capacity : ℕ → M Heap Repr
  try_with_capacity capacity = Repr.with_capacity capacity

  unfoldable pub with_capacity : ℕ → M Heap Repr
  with_capacity capacity = unwrap_with_msg (try_with_capacity capacity)

  -- `From<&str>`
  unfoldable pub from : Bytes → M Heap Repr
  from value = unwrap_with_msg (Repr.from_str mutable value)

  -- `try_repeat`, `repeat`
  unfoldable pub try_repeat : Repr → ℕ → M Heap Repr
  try_repeat r n = Init.repeat mutable r n

  unfoldable pub repeat : Repr → ℕ → M Heap Repr
  repeat r n = unwrap_with_msg (try_repeat r n)

  -- `try_to_ascii_lowercase` and `try_to_ascii_uppercase`, and their companions
  unfoldable pub try_to_ascii_lowercase : Repr → M Heap Repr
  try_to_ascii_lowercase r = to_ascii_case mutable lower r

  unfoldable pub to_ascii_lowercase : Repr → M Heap Repr
  to_ascii_lowercase r = unwrap_with_msg (try_to_ascii_lowercase r)

  unfoldable pub try_to_ascii_uppercase : Repr → M Heap Repr
  try_to_ascii_uppercase r = to_ascii_case mutable upper r

  unfoldable pub to_ascii_uppercase : Repr → M Heap Repr
  to_ascii_uppercase r = unwrap_with_msg (try_to_ascii_uppercase r)
