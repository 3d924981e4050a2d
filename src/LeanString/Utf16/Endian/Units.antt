-- ===== src/LeanString/Utf16/Endian/Units.antt =====
-- What the constructors from bytes return, whether the buffer is aligned or not.
use lean_string.Prelude.{
  ℕ, ◌/◌, ◌%◌, ◌<◌, ◌≡◌, refl, inl, inr, Bool, true, false, Option, none, some, List, [], ◌∷◌, ◌++◌,
  arith, ◌==◌, ==_iff, Bool-cases, length, All,
}
use mathlib.Core.List.{map}
use mathlib.Core.Path.{ap₂}
use lean_string.Utf8.{Bytes, encode}
use lean_string.Utf8.Utf16.{decode_utf16}
use lean_string.Prelude.LittleEndian.{IsByte}
use lean_string.Memory.{Heap, Allocator, Outcome, done, panicked, pure, and_then}
use lean_string.Memory.Counted.{Counted, Same}
use lean_string.HeapBuffer.{mutable}
use lean_string.Repr.{Repr}
use lean_string.Repr.Owns.{Owns}
use lean_string.Repr.Place.{at_state}
use lean_string.LeanString.Utf16.{with_units, from_utf16}
use lean_string.LeanString.Utf16.Decoded
use lean_string.LeanString.Utf16.Decoded.{Decodes, from_utf16-Decodes}
use lean_string.LeanString.Utf16.Endian.{
  Endian, little, big, unit_of, units, is_native, align_to, decoded_by, Decoding, string,
  lone_surrogate, odd_bytes, decoding, from_utf16_bytes,
}

-- The bytes of units in an order.
unfoldable pub to_bytes : Endian → List ℕ → Bytes
to_bytes order [] = []
to_bytes little (u ∷ us) = (u % 256) ∷ (u / 256) ∷ to_bytes little us
to_bytes big (u ∷ us) = (u / 256) ∷ (u % 256) ∷ to_bytes big us

-- The units of words of 16 bits are read back from their bytes, in either order.
pub units-to_bytes :
    (order : Endian) (us : List ℕ)
    → All (λ u. u < 0x10000) us
    → units order (to_bytes order us) ≡ us
unfolding units to_bytes
units-to_bytes little [] words = refl
units-to_bytes big [] words = refl
units-to_bytes little (u ∷ us) (w, words) =
    ap₂ (λ x xs. x ∷ xs) (omega arith) (units-to_bytes little us words)
units-to_bytes big (u ∷ us) (w, words) =
    ap₂ (λ x xs. x ∷ xs) (omega arith) (units-to_bytes big us words)

units-words :
    (order : Endian) (buf : Bytes) → All IsByte buf → All (λ u. u < 0x10000) (units order buf)
unfolding units
units-words order [] bytes = tt
units-words order (a ∷ []) bytes = tt
units-words order (a ∷ b ∷ buf) (x, (y, bytes)) =
    (in_range order a b x y, units-words order buf bytes)
  where
    in_range : (order : Endian) (a b : ℕ) → a < 256 → b < 256 → unit_of order a b < 0x10000
    in_range little a b x y = omega arith
    in_range big a b x y = omega arith

-- Bytes in pairs are decoded as their units; an odd byte is an error, and nothing is changed.
pub data DecodesBytes (refs : ℕ → ℕ) (h : Heap) (order : Endian) (buf : Bytes)
    : Outcome Heap Decoding → Type 0 where
  decoded :
      {q : Repr} {g : Heap} (cs : List ℕ)
      → length buf % 2 ≡ 0
      → decode_utf16 (units order buf) ≡ map some cs
      → Owns refs mutable (at_state q g) (encode cs)
      → Same refs h g
      → DecodesBytes refs h order buf (done (string q) g)
  surrogate :
      {g : Heap} (before : List ℕ) (after : List (Option ℕ))
      → length buf % 2 ≡ 0
      → decode_utf16 (units order buf) ≡ map some before ++ (none ∷ after)
      → Counted refs g
      → Same refs h g
      → DecodesBytes refs h order buf (done lone_surrogate g)
  odd : {g : Heap} → length buf % 2 ≡ 1 → g ≡ h → DecodesBytes refs h order buf (done odd_bytes g)
  out_of_memory :
      {g : Heap} → Counted refs g → Same refs h g → DecodesBytes refs h order buf (panicked g)

even_bytes :
    {refs : ℕ → ℕ} {h : Heap} {order : Endian} {buf : Bytes} {o : Outcome Heap (Option Repr)}
    → length buf % 2 ≡ 0
    → Decodes refs h (decode_utf16 (units order buf)) o
    → DecodesBytes refs h order buf (and_then o (λ r. pure (decoding r)))
even_bytes e (Decoded.decoded cs x own same) = decoded cs e x own same
even_bytes e (Decoded.lone_surrogate before after x k same) = surrogate before after e x k same
even_bytes e (Decoded.out_of_memory k same) = out_of_memory k same

-- Where all reference counts are right and for bytes, in either order and whether or not the
-- buffer is aligned, `from_utf16le` and `from_utf16be` return a sound string of exactly the chars
-- that `decode_utf16` gives for the units, or the error of a surrogate with no partner, or that
-- of an odd number of bytes, which changes nothing, or panic; no error or panic leaves a
-- reference behind, and what others refer to is unchanged in every case.
pub from_utf16_bytes-DecodesBytes :
    ⦃A : Allocator⦄ {refs : ℕ → ℕ} {h : Heap}
    → Counted refs h
    → (order : Endian) (aligned : Bool) (buf : Bytes) → All IsByte buf
    → DecodesBytes refs h order buf (from_utf16_bytes order aligned buf h)
unfolding from_utf16_bytes
from_utf16_bytes-DecodesBytes {refs} {h} k order aligned buf bytes =
    elim (Bool-cases (length buf % 2 == 0)) [
      | inl even ↦
          rw even (even_bytes ((==_iff (length buf % 2) 0).0 even) (either_arm order aligned))
      | inr part ↦ rw part (odd (ground arith) refl)
    ]
  where
    by_units :
        (order : Endian)
        → Decodes refs h
            (decode_utf16 (units order buf))
            (with_units (decode_utf16 (units order buf)) (length (units order buf)) h)
    by_units order =
        unfold from_utf16 in from_utf16-Decodes k (units order buf) (units-words order buf bytes)

    -- The native reading is taken for its own order alone.
    either_arm :
        (order : Endian) (aligned : Bool)
        → Decodes refs h
            (decode_utf16 (units order buf))
            (decoded_by order buf (is_native order) (align_to aligned buf) h)
    either_arm little true = from_utf16-Decodes k (units little buf) (units-words little buf bytes)
    either_arm little false = by_units little
    either_arm big aligned = by_units big
