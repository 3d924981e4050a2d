-- ===== src/LeanString/Shrink.antt =====
-- Shrinking keeps the text.
use Prim.Native.Nat.{max}
use lean_string.Prelude.{ℕ, ◌≤◌, ◌≡◌, inl, inr, arith, ltb, Bool-cases, length}
use lean_string.Utf8.{Bytes}
use lean_string.Memory.{Heap, Allocator}
use lean_string.Memory.Ends.{Ends, returns, weaken}
use lean_string.HeapBuffer.{mutable}
use lean_string.Repr.{Repr, State}
use lean_string.Repr.Edit.{shrink_to}
use lean_string.Repr.Owns.{Content, in_inline, in_heap, in_static, Owns, Keeps}
use lean_string.Repr.Queries.{inline_not_heap, static_not_heap, heap_is_heap, len_lem, capacity_lem}
use lean_string.Repr.Place.{at_state}
use lean_string.Repr.Grow.{reallocate-Roomy}
use lean_string.Repr.Text.{unchanged}

module _ ⦃A : Allocator⦄ {refs : ℕ → ℕ} {h : Heap} (least : ℕ) where
  shrunk :
      {r : Repr} {text : Bytes}
      → Owns refs mutable (at_state r h) text
      → Content mutable h r text
      → Ends
          (λ _ t. Keeps refs mutable h text t)
          (λ t. t ≡ at_state r h)
          (shrink_to least (at_state r h))
  unfolding shrink_to
  shrunk o (in_inline c) = rw (inline_not_heap c) (returns (unchanged o))
  shrunk {text} o (in_heap c) =
      let wanted = max (length text) least in
      let enough : length text ≤ wanted = omega arith in
      rw (heap_is_heap c, len_lem o.content, capacity_lem {h = h} (in_heap c))
        (elim (Bool-cases (ltb wanted c.cap)) [
          | inl smaller ↦
              rw smaller (weaken (reallocate-Roomy wanted o enough) (λ _ t q. q.keeps) (λ t e. e))
          | inr full ↦ rw full (returns (unchanged o))
        ])
  shrunk o (in_static c) = rw (static_not_heap c) (returns (unchanged o))

-- On a sound string, `shrink_to` returns with the same text, the string sound and everything
-- that others refer to unchanged, or fails and changes nothing.
pub shrink_to-Keeps :
    ⦃A : Allocator⦄ {refs : ℕ → ℕ} {s : State} {text : Bytes} (least : ℕ)
    → Owns refs mutable s text
    → Ends (λ _ t. Keeps refs mutable s.heap text t) (λ t. t ≡ s) (shrink_to least s)
shrink_to-Keeps least o = shrunk least o o.content
