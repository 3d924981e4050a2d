-- ===== src/Traits.antt =====
-- src/traits.rs: `ToLeanString` and `ToLeanStr`. The type of a value decides how it becomes a string;
-- what is none of the listed types is formatted by its own `Display`. The crates zmij and itoa, which
-- print floats and integers of 128 bits, are a parameter.
pub mod Shown
pub mod ShownStr
use lean_string.Prelude.{ℕ, Bool, Option, none, some}
use lean_string.Prelude.Int.{ℤ}
use lean_string.Utf8.{Bytes, IsUtf8}
use lean_string.Memory.{
  Heap, Allocator, Outcome, done, failed, panicked, fault, M, pure, panic, and_then, ◌>>=◌,
}
use lean_string.HeapBuffer.{Mutability, mutable, immutable}
use lean_string.Repr
use lean_string.Repr.{Repr, from_str}
use lean_string.Repr.DigitCount.{IntType}
use lean_string.Repr.NumToRepr.{into_repr}
use lean_string.Repr.Scalar.{from_char, from_bool}
use lean_string.LeanString
use lean_string.LeanString.{unwrap_with_msg}
use lean_string.LeanString.Convert.{try_into_lean_str}
use lean_string.LeanString.Format.{Arguments, try_from_fmt}
use lean_string.LeanStr
use lean_string.LeanStr.{try_into_lean_string}

-- `itoa::Buffer::format` of an `i128` or `u128`, and `zmij::Buffer::format` of a float, which is given by
-- its bits. Each gives a `&str`.
pub record Printers : Type 0 where
  pub itoa : ℤ → Bytes
  pub zmij_f32 : ℕ → Bytes
  pub zmij_f64 : ℕ → Bytes
  pub itoa_valid : (v : ℤ) → IsUtf8 (itoa v)
  pub zmij_f32_valid : (bits : ℕ) → IsUtf8 (zmij_f32 bits)
  pub zmij_f64_valid : (bits : ℕ) → IsUtf8 (zmij_f64 bits)

-- A value of a type from which a string is built at once; a `NonZero` is the number in it.
pub data Plain : Type 0 where
  integer : IntType → ℤ → Plain
  integer_128 : ℤ → Plain
  float_32 : ℕ → Plain
  float_64 : ℕ → Plain
  boolean : Bool → Plain
  character : ℕ → Plain
  string : Bytes → Plain

pub data Value : Type 0 where
  plain : Plain → Value
  of_lean_string : Repr → Value
  of_lean_str : Repr → Value
  other : Arguments → Value

-- The error `Fmt`, as no string, is an error of the caller too.
abbrev pub unwrap_string : Outcome Heap (Option Repr) → Outcome Heap Repr
unwrap_string (done (some r) h) = done r h
unwrap_string (done none h) = panicked h
unwrap_string (failed h) = panicked h
unwrap_string (panicked h) = panicked h
unwrap_string fault = fault

module _ ⦃A : Allocator⦄ where
  -- The string that is formatted is converted.
  abbrev pub moved_to_str : Option Repr → M Heap (Option Repr)
  moved_to_str none = pure none
  moved_to_str (some s) = do moved ← try_into_lean_str s; pure (some moved)

module _ ⦃A : Allocator⦄ (printers : Printers) where
  -- `NumToRepr::into_repr` of `u128` and `i128`, of `f32` and of `f64`
  unfoldable pub from_128 : Mutability → ℤ → M Heap Repr
  from_128 m v = from_str m (printers.itoa v)

  unfoldable pub from_f32 : Mutability → ℕ → M Heap Repr
  from_f32 m bits = from_str m (printers.zmij_f32 bits)

  unfoldable pub from_f64 : Mutability → ℕ → M Heap Repr
  from_f64 m bits = from_str m (printers.zmij_f64 bits)

  -- The arms of `match_type!` with `Repr::from_num`, `from_bool`, `from_char` and `from_str`
  unfoldable pub from_plain : Mutability → Plain → M Heap Repr
  from_plain m (integer t v) = into_repr m t v
  from_plain m (integer_128 v) = from_128 m v
  from_plain m (float_32 bits) = from_f32 m bits
  from_plain m (float_64 bits) = from_f64 m bits
  from_plain m (boolean b) = pure (from_bool b)
  from_plain m (character c) = pure (from_char c)
  from_plain m (string s) = from_str m s

  -- `ToLeanString::try_to_lean_string` and `to_lean_string`; no string is the error `Fmt`.
  unfoldable pub try_to_lean_string : Value → M Heap (Option Repr)
  try_to_lean_string (plain v) = do repr ← from_plain mutable v; pure (some repr)
  try_to_lean_string (of_lean_string s) = do copy ← LeanString.clone s; pure (some copy)
  try_to_lean_string (of_lean_str s) = do
    copy ← LeanStr.clone s
    moved ← try_into_lean_string copy
    pure (some moved)
  try_to_lean_string (other args) = try_from_fmt args

  unfoldable pub to_lean_string : Value → M Heap Repr
  to_lean_string v h = unwrap_string (try_to_lean_string v h)

  -- `ToLeanStr::try_to_lean_str` and `to_lean_str`
  unfoldable pub try_to_lean_str : Value → M Heap (Option Repr)
  try_to_lean_str (plain v) = do repr ← from_plain immutable v; pure (some repr)
  try_to_lean_str (of_lean_str s) = do copy ← LeanStr.clone s; pure (some copy)
  try_to_lean_str (of_lean_string s) = do
    copy ← LeanString.clone s
    moved ← try_into_lean_str copy
    pure (some moved)
  try_to_lean_str (other args) = do written ← try_from_fmt args; moved_to_str written

  unfoldable pub to_lean_str : Value → M Heap Repr
  to_lean_str v h = unwrap_string (try_to_lean_str v h)
