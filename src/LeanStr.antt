-- ===== src/LeanStr.antt =====
-- src/lib.rs: `LeanStr`, a wrapper of `Repr<Immutable>`.
pub mod Convert
use lean_string.Prelude.{ℕ, Bool, Option}
use lean_string.Utf8.{Bytes}
use lean_string.Memory.{Result, ok, err, Heap, Allocator, M, pure, fail, panic, ◌>>=◌, ◌>>◌}
use lean_string.HeapBuffer.{mutable, immutable}
use lean_string.Case.{lower, upper}
use lean_string.Repr
use lean_string.Repr.{Repr, State, reading, make_shallow_clone, drop_in, replace_inner}
use lean_string.Repr.Init
use lean_string.Repr.AsciiCase.{to_ascii_case}
use lean_string.Repr.Convert.{Conversion, converted, kept, into_mutable}
use lean_string.LeanString.{unwrap_with_msg}

-- `new`, `from_static_str`
unfoldable pub new : Repr
new = Repr.new

abbrev pub or_panic : {S : Type 0} → Result Repr → M S Repr
or_panic (ok r) = pure r
or_panic (err e) = panic

unfoldable pub from_static_str : {S : Type 0} → Bytes → M S Repr
from_static_str text = or_panic (Repr.from_static_str text)

-- `len`, `is_empty`, `as_str` and `as_bytes`, `is_heap_allocated`, `as_static_str`
unfoldable pub len : Repr → ℕ
len r = Repr.len r

unfoldable pub is_empty : Repr → Bool
is_empty r = Repr.is_empty r

unfoldable pub as_bytes : Repr → M Heap Bytes
as_bytes r = Repr.as_bytes r

unfoldable pub is_heap_allocated : Repr → Bool
is_heap_allocated r = Repr.is_heap_buffer r

unfoldable pub as_static_str : Repr → M Heap (Option Bytes)
as_static_str r = Repr.as_static_str r

-- `LeanStr::clone`, the `drop` of `Drop`, and `clone_from`
unfoldable pub clone : Repr → M Heap Repr
clone r = make_shallow_clone immutable r

unfoldable pub drop_str : Repr → M Heap (Unit {0})
drop_str r = drop_in immutable r

unfoldable pub clone_from : Repr → M State (Unit {0})
clone_from source = do
  r ← reading (λ _. make_shallow_clone immutable source)
  replace_inner immutable r

-- Once the conversion is over: an empty string is in the place of the old one and is dropped, or the
-- old one is put back and is dropped.
abbrev pub take_or_drop : Conversion → M Heap Repr
take_or_drop (converted q) = do drop_str Repr.new; pure q
take_or_drop (kept r) = do drop_str r; fail

module _ ⦃A : Allocator⦄ where
  -- `From<&str>`
  unfoldable pub from : Bytes → M Heap Repr
  from value = unwrap_with_msg (Repr.from_str immutable value)

  -- `try_repeat`, `repeat`
  unfoldable pub try_repeat : Repr → ℕ → M Heap Repr
  try_repeat r n = Init.repeat immutable r n

  unfoldable pub repeat : Repr → ℕ → M Heap Repr
  repeat r n = unwrap_with_msg (try_repeat r n)

  -- `try_to_ascii_lowercase` and `try_to_ascii_uppercase`, and their companions
  unfoldable pub try_to_ascii_lowercase : Repr → M Heap Repr
  try_to_ascii_lowercase r = to_ascii_case immutable lower r

  unfoldable pub to_ascii_lowercase : Repr → M Heap Repr
  to_ascii_lowercase r = unwrap_with_msg (try_to_ascii_lowercase r)

  unfoldable pub try_to_ascii_uppercase : Repr → M Heap Repr
  try_to_ascii_uppercase r = to_ascii_case immutable upper r

  unfoldable pub to_ascii_uppercase : Repr → M Heap Repr
  to_ascii_uppercase r = unwrap_with_msg (try_to_ascii_uppercase r)

  -- `try_into_lean_string`, `into_lean_string`
  unfoldable pub try_into_lean_string : Repr → M Heap Repr
  try_into_lean_string r = do c ← into_mutable r; take_or_drop c

  unfoldable pub into_lean_string : Repr → M Heap Repr
  into_lean_string r = unwrap_with_msg (try_into_lean_string r)
