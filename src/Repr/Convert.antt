-- ===== src/Repr/Convert.antt =====
-- `Repr::into_immutable` and `Repr::into_mutable` (src/repr.rs). A string that is not on the heap keeps
-- its words; an allocation is converted if it is not shared, and copied if it is.
pub mod Change
pub mod Consumed
use lean_string.Prelude.{not, leb, if◌then◌else◌, length}
use lean_string.LastByte.{max_inline_size}
use lean_string.Memory.{
  Heap, Allocator, Outcome, done, failed, panicked, fault, M, pure, ◌>>=◌, ◌>>◌,
}
use lean_string.HeapBuffer
use lean_string.HeapBuffer.{HeapBuffer, Mutability, mutable, immutable, as_str, release}
use lean_string.HeapBuffer.Convert.{into_exact, into_growable}
use lean_string.InlineBuffer
use lean_string.Repr.{Repr, inline, heap, is_heap_buffer, as_heap_buffer, from_str}

-- `Ok` of the new string, or `Err` with the string that was given.
pub data Conversion : Type 0 where
  converted : Repr → Conversion
  kept : Repr → Conversion

-- `match` on the result of a call.
abbrev pub matched : {A B : Type 0} → Outcome Heap A → (A → M Heap B) → M Heap B → Outcome Heap B
matched (done a h) good bad = good a h
matched (failed h) good bad = bad h
matched (panicked h) good bad = panicked h
matched fault good bad = fault

module _ ⦃A : Allocator⦄ where
  -- The copy of a shared text; the reference is released once the copy is complete.
  abbrev pub copy_shared : Mutability → Mutability → HeapBuffer → M Heap Conversion
  copy_shared m m' b = do
    text ← as_str b
    λ h.
        matched (from_str m' text h) (λ next. do release m b; pure (converted next))
          (pure (kept (heap b)))

  -- `Repr::into_immutable`
  unfoldable pub into_immutable : Repr → M Heap Conversion
  into_immutable r = if not (is_heap_buffer r) then pure (converted r) else do
    b ← as_heap_buffer r
    heap_str ← as_str b
    unique ← HeapBuffer.is_unique b
    if unique
        then (if leb (length heap_str) max_inline_size
            then (do release mutable b; pure (converted (inline (InlineBuffer.new heap_str))))
            else (λ h.
                matched (into_exact b h) (λ next. pure (converted (heap next)))
                  (pure (kept (heap b)))))
        else copy_shared mutable immutable b

  -- `Repr::into_mutable`
  unfoldable pub into_mutable : Repr → M Heap Conversion
  into_mutable r = if not (is_heap_buffer r) then pure (converted r) else do
    b ← as_heap_buffer r
    unique ← HeapBuffer.is_unique b
    if unique
        then (λ h.
            matched (into_growable b h) (λ next. pure (converted (heap next)))
              (pure (kept (heap b))))
        else copy_shared immutable mutable b
