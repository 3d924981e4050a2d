-- ===== src/Repr/Range.antt =====
-- `slice_range`, `Repr::extend_from_within` and `Repr::replace_range` (src/repr.rs). A text of
-- `usize::MAX` bytes does not exist, so a bound that saturates is out of bounds.
pub mod Extend
pub mod Replace
use lean_string.Prelude.{
  ℕ, ◌+◌, ◌-◌, Bool, true, false, not, if◌then◌else◌, ltb, leb, ◌==◌, ◌&&◌, length, take, drop,
}
use lean_string.Prelude.Splice.{splice}
use lean_string.Utf8.{Bytes, is_char_boundary}
use lean_string.LastByte.{usize_max}
use lean_string.Memory.{
  Allocator, Outcome, done, failed, panicked, fault, M, pure, panic, and_then, ◌>>=◌, ◌>>◌,
}
use lean_string.HeapBuffer.{mutable}
use lean_string.Repr.{State, reading, len, as_bytes, is_modifiable, spare_capacity, replace_inner}
use lean_string.Repr.Init.{new_with}
use lean_string.Repr.Edit.{get, make_room, grow_amortized, copy_at, set_len, fill_gap}

-- `core::ops::Bound`
pub data Bound : Type 0 where
  included : ℕ → Bound
  excluded : ℕ → Bound
  unbounded : Bound

-- `usize::saturating_add(1)`
abbrev pub saturating_suc : ℕ → ℕ
saturating_suc n = if ltb n usize_max then n + 1 else usize_max

unfoldable pub range_start : Bound → ℕ
range_start (included n) = n
range_start (excluded n) = saturating_suc n
range_start unbounded = 0

unfoldable pub range_end : Bytes → Bound → ℕ
range_end text (included n) = saturating_suc n
range_end text (excluded n) = n
range_end text unbounded = length text

-- `slice_range`: its three assertions, and the bounds of the range
unfoldable pub slice_range : Bytes → Bound → Bound → M State (ℕ × ℕ)
slice_range text from to =
    if not (is_char_boundary text (range_start from))
    then panic
    else if not (is_char_boundary text (range_end text to))
    then panic
    else if not (leb (range_start from) (range_end text to))
    then panic
    else pure (range_start from, range_end text to)

-- The assertions of `slice_range`, together.
abbrev pub is_slice : Bytes → Bound → Bound → Bool
is_slice text from to =
    is_char_boundary text (range_start from)
    && (is_char_boundary text (range_end text to) && leb (range_start from) (range_end text to))

-- The closure of `replace_range`: three parts, written behind one another.
abbrev pub three_into : Bytes → ℕ → ℕ → Bytes → Bytes → Bytes
three_into text start stop replace_with dst =
    let first = splice dst 0 (take start text) in
    let second = splice first start replace_with in
    splice second (start + length replace_with) (drop stop text)

module _ ⦃A : Allocator⦄ where
  -- The copy of a range behind the text.
  abbrev pub extend_by : ℕ × ℕ → M State (Unit {0})
  extend_by (from, to) = if to - from == 0 then pure tt else do
    r ← get
    make_room grow_amortized (to - from)
    copy_at from (len r) (to - from)
    set_len (len r + (to - from))

  -- `Repr::extend_from_within`
  unfoldable pub extend_from_within : Bound → Bound → M State (Unit {0})
  extend_from_within from to = do
    text ← reading as_bytes
    range ← slice_range text from to
    extend_by range

  -- The text between the bounds is replaced: in a new string if this one may not be written to, or
  -- else in place.
  abbrev pub replace_by : Bytes → Bytes → ℕ × ℕ → M State (Unit {0})
  replace_by text replace_with (start, stop) =
      if (stop - start == 0) && (length replace_with == 0) then pure tt else do
        r ← get
        let new_len = len r - (stop - start) + length replace_with
        let additional = length replace_with - (stop - start)
        modifiable ← reading is_modifiable
        if not modifiable
            then (do
              replaced ←
                  reading (λ _. new_with mutable new_len (three_into text start stop replace_with))
              replace_inner mutable replaced)
            else do
              spare ← reading spare_capacity
              if ltb spare additional then grow_amortized additional else pure tt
              fill_gap (len r) start stop replace_with new_len

  -- `Repr::replace_range`
  unfoldable pub replace_range : Bound → Bound → Bytes → M State (Unit {0})
  replace_range from to replace_with = do
    text ← reading as_bytes
    range ← slice_range text from to
    replace_by text replace_with range
