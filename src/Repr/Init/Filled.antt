-- ===== src/Repr/Init/Filled.antt =====
-- A new string that a closure fills.
use lean_string.Prelude.{
  ℕ, ◌+◌, ◌≤◌, ◌≡◌, ap, ◌∙◌, inl, inr, arith, leb, leb→le, Bool-cases, length, take,
}
use lean_string.Prelude.Splice.{splice, length-splice, length-take_le, take-splice_end}
use lean_string.Utf8.{Bytes, IsUtf8}
use lean_string.LastByte.{max_inline_size}
use lean_string.Memory.{Heap, Allocator}
use lean_string.Memory.Ends.{Ends, returns}
use lean_string.Memory.Counted.{Counted}
use lean_string.HeapBuffer.{Mutability}
use lean_string.HeapBuffer.Build.Fill.{fill-Built}
use lean_string.InlineBuffer
use lean_string.Repr.{heap}
use lean_string.Repr.Owns.{InInline}
use lean_string.Repr.Place.{InInline-set_len}
use lean_string.Repr.Fresh.{New, Built-New, inline-New, empty-InInline}
use lean_string.Repr.Init.{new_with}

-- An inline buffer whose first bytes are written over.
InInline-filled :
    (text : Bytes)
    → IsUtf8 text
    → length text ≤ 16
    → InInline (InlineBuffer.set_len (splice InlineBuffer.empty 0 text) (length text)) text
InInline-filled text u fits =
    let size : length InlineBuffer.empty ≡ 16 = empty-InInline.size in
    let room : 0 + length text ≤ length InlineBuffer.empty = omega (arith, size) in
    InInline-set_len (splice InlineBuffer.empty 0 text) text u
      (length-splice InlineBuffer.empty 0 text room ∙ size) fits
      (ap (λ n. take n (splice InlineBuffer.empty 0 text)) {y = 0 + length text} (omega arith)
        ∙ take-splice_end InlineBuffer.empty 0 text room)

-- If the closure writes the text whatever the slice held, the new string holds the text.
pub new_with-New :
    ⦃A : Allocator⦄ {refs : ℕ → ℕ} {h : Heap} (m : Mutability) (text : Bytes) (init : Bytes → Bytes)
    → Counted refs h
    → IsUtf8 text
    → ((dst : Bytes) → length dst ≡ length text → init dst ≡ text)
    → Ends (New refs m h text) (λ g. g ≡ h) (new_with m (length text) init h)
unfolding new_with
new_with-New {h} m text init k u writes = elim (Bool-cases (leb (length text) max_inline_size)) [
  | inl small ↦
      let n = leb→le (length text) 16 small in
      let made =
        writes (take (length text) InlineBuffer.empty)
          (length-take_le (length text) InlineBuffer.empty (omega (arith, empty-InInline.size))) in
      rw (small, made) (returns (inline-New k u (InInline-filled text u n)))
  | inr large ↦ rw large (fill-Built k m text init writes heap (λ b g e. Built-New u e))
]
