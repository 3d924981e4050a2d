-- ===== src/LeanString.antt =====
-- src/lib.rs: `LeanString`, a wrapper of `Repr<Mutable>` whose methods panic where the `try_` methods
-- return an error.
pub mod Refines
pub mod Shrink
pub mod Sharing
pub mod Make
pub mod Convert
pub mod Utf16
pub mod Beside
pub mod UnicodeCase
pub mod Collect
pub mod Format
pub mod Utf8
pub mod Compare
use lean_string.Prelude.{
  ℕ, ◌+◌, ◌-◌, Bool, true, false, not, Option, none, some, if◌then◌else◌, length, take, drop,
}
use lean_string.Utf8.{Bytes, is_char_boundary}
use lean_string.Memory.{
  Heap, Allocator, Outcome, done, failed, panicked, fault, M, pure, fail, panic, undefined,
  and_then, ◌>>=◌, ◌>>◌,
}
use lean_string.HeapBuffer.{mutable}
use lean_string.Repr
use lean_string.Repr.{
  Repr, State, with_heap, reading, store, as_bytes, drop_in, make_shallow_clone, from_str,
}
use lean_string.Repr.Edit
use lean_string.Repr.Edit.{get}
use lean_string.Repr.Cut
use lean_string.Repr.Range
use lean_string.Repr.Range.{Bound}
use lean_string.Repr.Retain
use lean_string.Repr.Retain.{Predicate}
use lean_string.Repr.AsciiCase.{make_ascii_case}
use lean_string.Case.{lower, upper}

-- `UnwrapWithMsg::unwrap_with_msg`
abbrev pub unwrapped : {S A : Type 0} → Outcome S A → Outcome S A
unwrapped (done a s) = done a s
unwrapped (failed s) = panicked s
unwrapped (panicked s) = panicked s
unwrapped fault = fault

unfoldable pub unwrap_with_msg : {S A : Type 0} → M S A → M S A
unwrap_with_msg m s = unwrapped (m s)

-- A local string that a failure or a panic drops.
abbrev pub or_drop : {A : Type 0} → Repr → Outcome State A → Outcome State A
or_drop other (done a s) = done a s
or_drop other (failed s) = and_then (reading (λ _. drop_in mutable other) s) λ _. fail
or_drop other (panicked s) = and_then (reading (λ _. drop_in mutable other) s) λ _. panic
or_drop other fault = fault

-- `LeanString::clear`
unfoldable pub clear : M State (Unit {0})
clear = Cut.clear

-- `LeanString::clone`, and the `drop` of `Drop`
unfoldable pub clone : Repr → M Heap Repr
clone r = make_shallow_clone mutable r

unfoldable pub drop_string : Repr → M Heap (Unit {0})
drop_string r = drop_in mutable r

-- `LeanString::clone_from`: the source is cloned before the old content is given up.
unfoldable pub clone_from : Repr → M State (Unit {0})
clone_from source = do
  r ← reading (λ _. make_shallow_clone mutable source)
  Repr.replace_inner mutable r

module _ ⦃A : Allocator⦄ where
  -- `try_reserve`, `reserve`
  unfoldable pub try_reserve : ℕ → M State (Unit {0})
  try_reserve additional = Edit.reserve additional

  unfoldable pub reserve : ℕ → M State (Unit {0})
  reserve additional = unwrap_with_msg (try_reserve additional)

  -- `try_reserve_exact`, `reserve_exact`
  unfoldable pub try_reserve_exact : ℕ → M State (Unit {0})
  try_reserve_exact additional = Edit.reserve_exact additional

  unfoldable pub reserve_exact : ℕ → M State (Unit {0})
  reserve_exact additional = unwrap_with_msg (try_reserve_exact additional)

  -- `try_shrink_to`, `shrink_to`, `try_shrink_to_fit`, `shrink_to_fit`
  unfoldable pub try_shrink_to : ℕ → M State (Unit {0})
  try_shrink_to min_capacity = Edit.shrink_to min_capacity

  unfoldable pub shrink_to : ℕ → M State (Unit {0})
  shrink_to min_capacity = unwrap_with_msg (try_shrink_to min_capacity)

  unfoldable pub try_shrink_to_fit : M State (Unit {0})
  try_shrink_to_fit = Edit.shrink_to 0

  unfoldable pub shrink_to_fit : M State (Unit {0})
  shrink_to_fit = unwrap_with_msg try_shrink_to_fit

  -- `try_push`, `push`
  unfoldable pub try_push : ℕ → M State (Unit {0})
  try_push ch = Edit.push_char ch

  unfoldable pub push : ℕ → M State (Unit {0})
  push ch = unwrap_with_msg (try_push ch)

  -- `try_pop`, `pop`
  unfoldable pub try_pop : M State (Option ℕ)
  try_pop = Cut.pop

  unfoldable pub pop : M State (Option ℕ)
  pop = unwrap_with_msg try_pop

  -- `try_push_str`, `push_str`
  unfoldable pub try_push_str : Bytes → M State (Unit {0})
  try_push_str string = Edit.push_str string

  unfoldable pub push_str : Bytes → M State (Unit {0})
  push_str string = unwrap_with_msg (try_push_str string)

  -- `try_extend_from_within`, `extend_from_within`
  unfoldable pub try_extend_from_within : Bound → Bound → M State (Unit {0})
  try_extend_from_within from to = Range.extend_from_within from to

  unfoldable pub extend_from_within : Bound → Bound → M State (Unit {0})
  extend_from_within from to = unwrap_with_msg (try_extend_from_within from to)

  -- `try_remove`, `remove`
  unfoldable pub try_remove : ℕ → M State ℕ
  try_remove idx = Cut.remove idx

  unfoldable pub remove : ℕ → M State ℕ
  remove idx = unwrap_with_msg (try_remove idx)

  -- `try_insert`, `insert`
  unfoldable pub try_insert : ℕ → ℕ → M State (Unit {0})
  try_insert idx ch = Edit.insert_char idx ch

  unfoldable pub insert : ℕ → ℕ → M State (Unit {0})
  insert idx ch = unwrap_with_msg (try_insert idx ch)

  -- `try_insert_str`, `insert_str`
  unfoldable pub try_insert_str : ℕ → Bytes → M State (Unit {0})
  try_insert_str idx string = Edit.insert_str idx string

  unfoldable pub insert_str : ℕ → Bytes → M State (Unit {0})
  insert_str idx string = unwrap_with_msg (try_insert_str idx string)

  -- `try_truncate`, `truncate`
  unfoldable pub try_truncate : ℕ → M State (Unit {0})
  try_truncate new_len = Cut.truncate new_len

  unfoldable pub truncate : ℕ → M State (Unit {0})
  truncate new_len = unwrap_with_msg (try_truncate new_len)

  -- `try_replace_range`, `replace_range`
  unfoldable pub try_replace_range : Bound → Bound → Bytes → M State (Unit {0})
  try_replace_range from to replace_with = Range.replace_range from to replace_with

  unfoldable pub replace_range : Bound → Bound → Bytes → M State (Unit {0})
  replace_range from to replace_with = unwrap_with_msg (try_replace_range from to replace_with)

  -- `try_retain`, `retain`
  unfoldable pub try_retain : {P : Type 0} → Predicate P → P → M State (Unit {0})
  try_retain predicate p = Retain.retain predicate p

  unfoldable pub retain : {P : Type 0} → Predicate P → P → M State (Unit {0})
  retain predicate p = unwrap_with_msg (try_retain predicate p)

  -- `try_make_ascii_lowercase` and `try_make_ascii_uppercase`, and their companions
  unfoldable pub try_make_ascii_lowercase : M State (Unit {0})
  try_make_ascii_lowercase = make_ascii_case lower

  unfoldable pub make_ascii_lowercase : M State (Unit {0})
  make_ascii_lowercase = unwrap_with_msg try_make_ascii_lowercase

  unfoldable pub try_make_ascii_uppercase : M State (Unit {0})
  try_make_ascii_uppercase = make_ascii_case upper

  unfoldable pub make_ascii_uppercase : M State (Unit {0})
  make_ascii_uppercase = unwrap_with_msg try_make_ascii_uppercase

  -- `try_split_off`: the slice panics off a boundary; the other half is dropped if the cut fails.
  unfoldable pub try_split_off : ℕ → M State Repr
  try_split_off at = do
    text ← reading as_bytes
    if not (is_char_boundary text at) then panic else do
      other ← reading (λ _. from_str mutable (drop at text))
      (λ s. or_drop other (try_truncate at s))
      pure other

  unfoldable pub split_off : ℕ → M State Repr
  split_off at = unwrap_with_msg (try_split_off at)
