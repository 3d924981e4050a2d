-- ===== src/LeanString/Utf16/Endian.antt =====
-- The constructors from the bytes of UTF-16 units in either byte order, and those of `LeanStr`
-- (src/lib.rs), on a little-endian target. `align_to::<u16>` may or may not find a buffer aligned.
pub mod Units
use lean_string.Prelude.{
  ℕ, ◌+◌, ◌*◌, ◌%◌, Bool, true, false, ◌&&◌, Option, none, some, List, [], ◌∷◌, ◌==◌, if◌then◌else◌,
  length,
}
use lean_string.Utf8.{Bytes}
use lean_string.Utf8.Utf16.{decode_utf16}
use lean_string.Memory.{Heap, Allocator, Outcome, M, pure, ◌>>=◌}
use lean_string.Repr.{Repr}
use lean_string.LeanString.Convert.{into_lean_str}
use lean_string.LeanString.Utf16.{with_units, from_utf16}

pub data Endian : Type 0 where
  little big : Endian

-- `u16::from_le_bytes`, `u16::from_be_bytes`
abbrev pub unit_of : Endian → ℕ → ℕ → ℕ
unit_of little a b = a + 256 * b
unit_of big a b = 256 * a + b

-- The units of the chunks that `as_chunks::<2>` gives.
unfoldable pub units : Endian → Bytes → List ℕ
units order [] = []
units order (a ∷ []) = []
units order (a ∷ b ∷ buf) = unit_of order a b ∷ units order buf

-- `cfg!(target_endian = …)`
abbrev pub is_native : Endian → Bool
is_native little = true
is_native big = false

-- `align_to::<u16>` reads the memory in the byte order of the target, whatever order was asked for.
-- `none` stands for a buffer that does not begin at an aligned address.
abbrev pub target_endian : Endian
target_endian = little

abbrev pub align_to : Bool → Bytes → Option (List ℕ)
align_to true buf = some (units target_endian buf)
align_to false buf = none

-- A string, or the kind of a `FromUtf16Error`.
pub data Decoding : Type 0 where
  string : Repr → Decoding
  lone_surrogate : Decoding
  odd_bytes : Decoding

abbrev pub decoding : Option Repr → Decoding
decoding none = lone_surrogate
decoding (some r) = string r

abbrev pub str_of : ⦃A : Allocator⦄ → Decoding → M Heap Decoding
str_of (string r) = do q ← into_lean_str r; pure (string q)
str_of lone_surrogate = pure lone_surrogate
str_of odd_bytes = pure odd_bytes

module _ ⦃A : Allocator⦄ where
  -- The match on the target and on what `align_to` gives
  abbrev pub decoded_by : Endian → Bytes → Bool → Option (List ℕ) → M Heap (Option Repr)
  decoded_by order buf true (some native) = from_utf16 native
  decoded_by order buf true none =
      with_units (decode_utf16 (units order buf)) (length (units order buf))
  decoded_by order buf false aligned =
      with_units (decode_utf16 (units order buf)) (length (units order buf))

  -- `from_utf16le` and `from_utf16be`, for the byte order and for whether the buffer is aligned
  unfoldable pub from_utf16_bytes : Endian → Bool → Bytes → M Heap Decoding
  from_utf16_bytes order aligned buf =
      if length buf % 2 == 0
      then (do r ← decoded_by order buf (is_native order) (align_to aligned buf); pure (decoding r))
      else pure odd_bytes

  unfoldable pub from_utf16le : Bool → Bytes → M Heap Decoding
  from_utf16le aligned buf = from_utf16_bytes little aligned buf

  unfoldable pub from_utf16be : Bool → Bytes → M Heap Decoding
  from_utf16be aligned buf = from_utf16_bytes big aligned buf

  -- The constructors of `LeanStr`
  unfoldable pub str_from_utf16 : List ℕ → M Heap Decoding
  str_from_utf16 buf = do x ← from_utf16 buf; str_of (decoding x)

  unfoldable pub str_from_utf16le : Bool → Bytes → M Heap Decoding
  str_from_utf16le aligned buf = do x ← from_utf16le aligned buf; str_of x

  unfoldable pub str_from_utf16be : Bool → Bytes → M Heap Decoding
  str_from_utf16be aligned buf = do x ← from_utf16be aligned buf; str_of x
