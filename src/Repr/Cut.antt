-- ===== src/Repr/Cut.antt =====
-- The operations of `impl Repr<Mutable>` in src/repr.rs that take something away from the text.
pub mod Shorter
pub mod Chars
pub mod Remove
use lean_string.Prelude.{
  ℕ, ◌+◌, ◌-◌, Bool, true, false, not, Option, none, some, ltb, leb, ◌==◌, if◌then◌else◌, length,
  take, drop,
}
use lean_string.Utf8.{Bytes, len_utf8, is_char_boundary}
use lean_string.Utf8.Decode.{next_char, last_char}
use lean_string.Memory.{
  Heap, Allocator, Outcome, done, failed, panicked, fault, M, pure, fail, panic, undefined,
  and_then, ◌>>=◌, ◌>>◌,
}
use lean_string.HeapBuffer
use lean_string.HeapBuffer.{HeapBuffer, mutable}
use lean_string.InlineBuffer
use lean_string.StaticBuffer
use lean_string.Repr.{
  Repr, inline, heap, static, State, with_heap, reading, store, is_heap_buffer, is_static_buffer,
  as_heap_buffer, as_static_buffer, as_inline_buffer, len, as_bytes, is_unique, new, from_str,
  replace_inner,
}
use lean_string.Repr.Edit.{get, read_at, copy_at, set_len, ensure_modifiable}

-- `unwrap_unchecked` on a char
abbrev pub unwrap_unchecked : {S : Type 0} → Option ℕ → M S ℕ
unwrap_unchecked none = undefined
unwrap_unchecked (some c) = pure c

-- `Repr::clear`
unfoldable pub clear : M State (Unit {0})
clear = do
  r ← get
  if is_static_buffer r
      then (do s ← as_static_buffer r; store (static (StaticBuffer.set_len s 0)))
      else do unique ← reading is_unique; if unique then set_len 0 else replace_inner mutable new

module _ ⦃A : Allocator⦄ where
  -- The branch of `Repr::truncate_unchecked` for a heap buffer: the length stands in the string, so a
  -- shared allocation is kept.
  unfoldable pub truncate_heap : HeapBuffer → ℕ → M State (Unit {0})
  truncate_heap b new_len =
      if not (HeapBuffer.is_len_on_heap b)
      then (do b' ← reading (λ _. HeapBuffer.set_len b new_len); store (heap b'))
      else do
        unique ← reading (λ _. HeapBuffer.is_unique b)
        if unique
            then (do b' ← reading (λ _. HeapBuffer.set_len b new_len); store (heap b'))
            else do
              text ← reading (λ _. HeapBuffer.read_bytes b.ptr new_len)
              new_repr ← reading (λ _. from_str mutable text)
              reading (λ _. HeapBuffer.release mutable b)
              store new_repr

  -- `Repr::truncate_unchecked`
  unfoldable pub truncate_unchecked : ℕ → M State (Unit {0})
  truncate_unchecked new_len = do
    r ← get
    if is_heap_buffer r
        then (do b ← as_heap_buffer r; truncate_heap b new_len)
        else if is_static_buffer r
        then (do s ← as_static_buffer r; store (static (StaticBuffer.set_len s new_len)))
        else do b ← as_inline_buffer r; store (inline (InlineBuffer.set_len b new_len))

  -- `Repr::truncate`
  unfoldable pub truncate : ℕ → M State (Unit {0})
  truncate new_len = do
    r ← get
    if leb (len r) new_len then pure tt else do
      text ← reading as_bytes
      if not (is_char_boundary text new_len) then panic else truncate_unchecked new_len

  -- The last char, if there is one, is cut off.
  abbrev pub pop_char : Repr → Option ℕ → M State (Option ℕ)
  pop_char r none = pure none
  pop_char r (some ch) = do truncate_unchecked (len r - len_utf8 ch); pure (some ch)

  -- `Repr::pop`
  unfoldable pub pop : M State (Option ℕ)
  pop = do r ← get; text ← reading as_bytes; pop_char r (last_char text)

  -- `Repr::remove`
  unfoldable pub remove : ℕ → M State ℕ
  remove idx = do
    r ← get
    text ← reading as_bytes
    if not (is_char_boundary text idx) then panic else if not (ltb idx (len r)) then panic else do
      ensure_modifiable
      suffix ← read_at idx (len r - idx)
      ch ← unwrap_unchecked (next_char suffix)
      copy_at (idx + len_utf8 ch) idx (len r - idx - len_utf8 ch)
      set_len (len r - len_utf8 ch)
      pure ch
