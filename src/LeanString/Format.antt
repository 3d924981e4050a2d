-- ===== src/LeanString/Format.antt =====
-- What is formatted into a string: `fmt::Write for LeanString` (src/lib.rs) and `try_from_fmt`
-- (src/traits.rs). A formatter, which is code outside the crate, writes texts and may look at each
-- answer before it goes on; it answers or panics in the end.
pub mod Written
pub mod Formatted
use lean_string.Prelude.{
  ℕ, Bool, true, false, not, ◌&&◌, Option, none, some, List, [], ◌∷◌, ◌++◌, if◌then◌else◌,
}
use lean_string.Utf8.{Bytes, IsUtf8}
use lean_string.Memory.{
  Heap, Allocator, Outcome, done, failed, panicked, fault, M, pure, fail, panic, and_then, ◌>>=◌,
  ◌>>◌,
}
use lean_string.HeapBuffer.{mutable}
use lean_string.Repr.{Repr, State, replace_inner}
use lean_string.Repr.Edit.{get}
use lean_string.LeanString.{push_str, try_push_str, drop_string}
use lean_string.LeanString.Make
use lean_string.LeanString.Make.{from_static_str, is_empty, is_heap_allocated}

-- `true` is `Ok(())`, and `false` is `Err(fmt::Error)`.
pub data Formatting : Type 0 where
  finish : Bool → Formatting
  unwind : Formatting
  write : Bytes → (Bool → Formatting) → Formatting

-- `fmt::Arguments`: `as_str` is the text of arguments with nothing to format.
pub record Arguments : Type 0 where
  pub as_str : Option Bytes
  pub formatting : Formatting

module _ ⦃A : Allocator⦄ where
  -- `fmt::write` with the `write_str` of a string, which never returns an error.
  unfoldable pub write_all : Formatting → M State Bool
  write_all (finish answer) = pure answer
  write_all unwind = panic
  write_all (write s next) = do push_str s; write_all (next true)

  -- The constant text is borrowed by an empty string, and appended to any other.
  abbrev pub write_constant : Bytes → M State Bool
  write_constant s = do
    r ← get
    (if is_empty r && not (is_heap_allocated r)
        then (do new ← from_static_str s; replace_inner mutable new)
        else push_str s)
    pure true

  abbrev pub write_either : Option Bytes → Formatting → M State Bool
  write_either (some s) formatting = write_constant s
  write_either none formatting = write_all formatting

  -- `LeanString::write_fmt`
  unfoldable pub write_fmt : Arguments → M State Bool
  write_fmt args = write_either args.as_str args.formatting

  -- `Writer::write_str`: an error takes the place of the string, which is dropped.
  abbrev pub written :
      (Bool → Option Repr → M Heap (Option Repr × Bool))
      → Outcome State (Unit {0})
      → Outcome Heap (Option Repr × Bool)
  written next (done a s) = next true (some s.self) s.heap
  written next (failed s) = and_then (drop_string s.self s.heap) λ _. next false none
  written next (panicked s) = and_then (drop_string s.self s.heap) λ _. panic
  written next fault = fault

  -- A panic of the formatter drops the `Writer`.
  abbrev pub drop_writer : Option Repr → M Heap (Unit {0})
  drop_writer none = pure tt
  drop_writer (some r) = drop_string r

  -- `fmt::write` with a `Writer`: no string stands for `Err(ReserveError)`.
  unfoldable pub run : Formatting → Option Repr → M Heap (Option Repr × Bool)
  run (finish answer) writer = pure (writer, answer)
  run unwind writer = do drop_writer writer; panic
  run (write s next) none = run (next false) none
  run (write s next) (some r) = λ h.
      written (λ answer writer. run (next answer) writer)
        (try_push_str s (record { self = r; heap = h }))

  -- The last match of `try_from_fmt`; no string is `fmt::Error` here.
  abbrev pub settled : Option Repr × Bool → M Heap (Option Repr)
  settled (some string, true) = pure (some string)
  settled (none, answer) = fail
  settled (some string, false) = do drop_string string; pure none

  abbrev pub format_either : Option Bytes → Formatting → M Heap (Option Repr)
  format_either (some str) formatting = do r ← from_static_str str; pure (some r)
  format_either none formatting = do end ← run formatting (some Make.new); settled end

  -- `try_from_fmt`
  unfoldable pub try_from_fmt : Arguments → M Heap (Option Repr)
  try_from_fmt args = format_either args.as_str args.formatting

-- The formatter, where every write succeeds: its texts, and its answer; `none` is a panic.
unfoldable pub formatted : Formatting → Bytes
formatted (finish answer) = []
formatted unwind = []
formatted (write s next) = s ++ formatted (next true)

unfoldable pub succeeds : Formatting → Option Bool
succeeds (finish answer) = some answer
succeeds unwind = none
succeeds (write s next) = succeeds (next true)

-- For some answers to its writes, the formatter panics.
pub data MayUnwind : Formatting → Type 0 where
  at_once : MayUnwind unwind
  later :
      {s : Bytes} {next : Bool → Formatting} (answer : Bool)
      → MayUnwind (next answer)
      → MayUnwind (write s next)

-- What the type `str` guarantees.
abbrev pub Valid : Formatting → Type 0
Valid (finish answer) = Unit {0}
Valid unwind = Unit {0}
Valid (write s next) = IsUtf8 s × ((answer : Bool) → Valid (next answer))
