-- ===== src/Repr/ToCase.antt =====
-- `Repr::to_case` (src/repr.rs).
pub mod Pushes
pub mod Ended
pub mod Mapped
use mathlib.Core.List.{map}
use lean_string.Prelude.{
  ℕ, ◌+◌, Bool, true, false, Option, none, some, List, [], ◌∷◌, ◌==◌, if◌then◌else◌, length,
}
use lean_string.Utf8.{Bytes}
use lean_string.Utf8.Chars.{chars}
use lean_string.Memory.{
  Heap, Allocator, Outcome, done, failed, panicked, fault, M, pure, fail, and_then, ◌>>=◌, ◌>>◌,
}
use lean_string.HeapBuffer.{mutable}
use lean_string.Case.{Case, lower, upper, ascii_mapped, split_ascii_prefix}
use lean_string.Case.Unicode.{Unicode, capital_sigma, split_at_first_change}
use lean_string.Repr.{Repr, State, with_capacity, from_str, drop_in}
use lean_string.Repr.Edit.{write_at, set_len}
use lean_string.Repr.Appends.{push_chars}

-- The first two parts, written behind one another, and the length of both.
abbrev pub write_parts : Bytes → Bytes → M State (Unit {0})
write_parts first second = do
  write_at 0 first
  write_at (length first) second
  set_len (length first + length second)

-- `Case::Lower if c == 'Σ'`
unfoldable pub is_sigma : Case → ℕ → Bool
is_sigma lower c = c == capital_sigma
is_sigma upper c = false

module _ ⦃A : Allocator⦄ (u : Unicode) where
  -- The loop over the other chars, which 'Σ' ends.
  unfoldable pub push_mapped : Case → List ℕ → M State Bool
  push_mapped case [] = pure true
  push_mapped case (c ∷ cs) =
      if is_sigma case c
      then pure false
      else do push_chars (u.to_char_case case c); push_mapped case cs

  -- The local `mapped`: it is returned, or dropped for an error or for the mapping of the whole text.
  abbrev pub finished : Bytes → Outcome State Bool → Outcome Heap (Option Repr)
  finished text (done true s) = done (some s.self) s.heap
  finished text (done false s) =
      and_then (drop_in mutable s.self s.heap)
        λ _. do q ← from_str mutable (u.to_text_case lower text); pure (some q)
  finished text (failed s) = and_then (drop_in mutable s.self s.heap) λ _. fail
  finished text (panicked s) = panicked s.heap
  finished text fault = fault

  abbrev pub map_parts : Case → Bytes → Bytes → Bytes × Bytes → M Heap (Option Repr)
  map_parts case text unchanged (ascii, rest) = do
    mapped ← with_capacity (length text)
    λ h. finished text (
        (write_parts unchanged (map (ascii_mapped case) ascii) >> push_mapped case (chars rest))
          (record { self = mapped; heap = h }))

  abbrev pub map_changed : Case → Bytes → Option (Bytes × Bytes) → M Heap (Option Repr)
  map_changed case text none = pure none
  map_changed case text (some (unchanged, changed)) =
      map_parts case text unchanged (split_ascii_prefix changed)

  -- `Repr::to_case`
  unfoldable pub to_case : Case → Bytes → M Heap (Option Repr)
  to_case case text = map_changed case text (split_at_first_change u case text)
