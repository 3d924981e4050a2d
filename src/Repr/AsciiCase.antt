-- ===== src/Repr/AsciiCase.antt =====
-- `Repr::to_ascii_case` and `Repr::make_ascii_case` (src/repr.rs).
pub mod Overwrite
pub mod Mapped
use mathlib.Core.List.{map}
use lean_string.Prelude.{ℕ, not, Option, none, some, if◌then◌else◌, length}
use lean_string.Prelude.Splice.{splice}
use lean_string.Utf8.{Bytes}
use lean_string.Memory.{Heap, Allocator, M, ◌>>=◌, ◌>>◌}
use lean_string.HeapBuffer.{Mutability, mutable}
use lean_string.Case.{Case, ascii_mapped, split_at_first_ascii_change}
use lean_string.Repr.{
  Repr, State, reading, len, as_bytes, is_modifiable, make_shallow_clone, replace_inner,
}
use lean_string.Repr.Edit.{get, read_at, write_at}
use lean_string.Repr.Init.{new_with}

-- The closure of `to_ascii_case`: the first part as it is, and behind it the second part mapped.
abbrev pub mapped_into : Case → Bytes → Bytes → Bytes → Bytes
mapped_into case unchanged changed dst =
    splice (splice dst 0 unchanged) (length unchanged) (map (ascii_mapped case) changed)

module _ ⦃A : Allocator⦄ where
  abbrev pub map_behind : Mutability → Case → Repr → Bytes → Option (Bytes × Bytes) → M Heap Repr
  map_behind m case r text none = make_shallow_clone m r
  map_behind m case r text (some (unchanged, changed)) =
      new_with m (length text) (mapped_into case unchanged changed)

  -- `Repr::to_ascii_case`
  unfoldable pub to_ascii_case : Mutability → Case → Repr → M Heap Repr
  to_ascii_case m case r = do
    text ← as_bytes r
    map_behind m case r text (split_at_first_ascii_change case text)

  -- `Repr::make_ascii_case`
  unfoldable pub make_ascii_case : Case → M State (Unit {0})
  make_ascii_case case = do
    modifiable ← reading is_modifiable
    if not modifiable
        then (do mapped ← reading (to_ascii_case mutable case); replace_inner mutable mapped)
        else do r ← get; bytes ← read_at 0 (len r); write_at 0 (map (ascii_mapped case) bytes)
