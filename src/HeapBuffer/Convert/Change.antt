-- ===== src/HeapBuffer/Convert/Change.antt =====
-- The conversions of a buffer that nothing else refers to keep its text.
use lean_string.Prelude.{
  ℕ, ◌+◌, ◌-◌, ◌≤◌, ◌≡◌, refl, sym, ap, subst, fun_ext, ◌∙◌, ◌&&◌, true, none, some, inl, inr,
  Option-cases, ◌++◌, arith, leb, le→leb, ◌==◌, ==_iff, Bool-cases, length, take, drop,
  length-append, length-drop, take-append-drop, drop-take, take_all,
}
use lean_string.Prelude.Splice.{splice, drop-splice, drop-splice_past, length-splice}
use lean_string.Utf8.{Bytes}
use lean_string.Utf8.Shape.{take-append_exact}
use lean_string.Memory.{growable, exact, Block, Heap, put, Allocator}
use lean_string.Memory.Ends.{Ends, returns, fails}
use lean_string.Memory.Counted.{count_in, View, block, plus, one_at_self, Counted, cell_of_view}
use lean_string.HeapBuffer.{HeapBuffer, mutable, immutable, resize}
use lean_string.HeapBuffer.TextLen.{max_len}
use lean_string.HeapBuffer.Holds.{Holds, the_block, alloc_layout_lem, layout_lem, len_lem}
use lean_string.HeapBuffer.Build.{Built}
use lean_string.HeapBuffer.Realloc.{relocated, length-resize, take-resize}
use lean_string.HeapBuffer.Convert.{memory_of, copy_within, into_exact, into_growable}

-- The bytes of an allocation behind either header.
growable_memory :
    (n c size : ℕ) (bytes : Bytes) → drop 16 (memory_of (block n (growable c, size, bytes))) ≡ bytes
unfolding memory_of
growable_memory n c size bytes = refl

length-growable :
    (n c size : ℕ) (bytes : Bytes)
    → length (memory_of (block n (growable c, size, bytes))) ≡ 16 + length bytes
unfolding memory_of
length-growable n c size bytes = omega arith

exact_memory :
    (n size : ℕ) (bytes : Bytes) → drop 8 (memory_of (block n (exact, size, bytes))) ≡ bytes
unfolding memory_of
exact_memory n size bytes = refl

length-exact :
    (n size : ℕ) (bytes : Bytes)
    → length (memory_of (block n (exact, size, bytes))) ≡ 8 + length bytes
unfolding memory_of
length-exact n size bytes = omega arith

put_same : (h : Heap) (p : ℕ) (b : Block) → h p ≡ some b → put h p (some b) ≡ h
unfolding put
put_same h p b e = fun_ext λ a. ground arith

module _ (memory text : Bytes) (from to : ℕ) (begins : take (length text) (drop from memory) ≡ text)
    (room : to + length text ≤ length memory) where
  -- A text that is copied stands at its new place.
  copied :
      drop to (copy_within memory from to (length text)) ≡ text ++ drop (to + length text) memory
  copied = ap (λ t. drop to (splice memory to t)) begins ∙ drop-splice memory to text room

  length-copied : length (copy_within memory from to (length text)) ≡ length memory
  length-copied = ap (λ t. length (splice memory to t)) begins ∙ length-splice memory to text room

  copied_first : take (length text) (drop to (copy_within memory from to (length text))) ≡ text
  copied_first =
      ap (take (length text)) copied ∙ take-append_exact text (drop (to + length text) memory)

module _ ⦃A : Allocator⦄ (refs : ℕ → ℕ) {h : Heap} {b : HeapBuffer} {text : Bytes}
    (o : Holds mutable h b text) (k : Counted (plus refs b.ptr) h) (only : refs b.ptr ≡ 0) where
  abbrev v : View
  v = (growable o.cap, 16 + o.cap, o.bytes)

  abbrev memory : Bytes
  memory = memory_of (block (count_in (h b.ptr)) v)

  abbrev moved : Bytes
  moved = copy_within memory 16 8 (length text)

  behind : drop 16 memory ≡ o.bytes
  behind = growable_memory (count_in (h b.ptr)) o.cap (16 + o.cap) o.bytes

  size : length memory ≡ 16 + o.cap
  size = length-growable (count_in (h b.ptr)) o.cap (16 + o.cap) o.bytes ∙ omega (arith, o.room)

  begins : take (length text) (drop 16 memory) ≡ text
  begins = ap (take (length text)) behind ∙ o.begins

  -- The bytes that a failure moves back are those of before.
  restored : drop 16 (copy_within moved 8 16 (length text)) ≡ o.bytes
  restored =
      let n = length-copied memory text 16 8 begins (omega (arith, size, o.fits)) in
      copied moved text 8 16 (copied_first memory text 16 8 begins (omega (arith, size, o.fits)))
        (omega (arith, n, size, o.fits))
      ∙ ap (λ t. text ++ t)
          (ap (λ t. drop (16 + length text) (splice memory 8 t)) begins
            ∙ drop-splice_past memory 8 text (16 + length text) (omega arith)
                (omega (arith, size, o.fits))
            ∙ sym (lean_string.Prelude.drop-drop 16 (length text) memory)
            ∙ ap (drop (length text)) behind)
      ∙ ap (λ t. t ++ drop (length text) o.bytes) (sym o.begins)
      ∙ take-append-drop (length text) o.bytes

  one : count_in (h b.ptr) ≡ 1
  one = omega (arith, k.counts b.ptr, one_at_self b.ptr)

  pub into_exact-Built :
      Ends (Built refs immutable h text (length text)) (λ g. g ≡ h) (into_exact b h)
  unfolding into_exact
  into_exact-Built =
      let n = length text in
      let limit : n ≤ max_len = omega (arith, o.fits, o.limit) in
      let inside : (leb (16 + n) (length memory) && (16 + o.cap == 16 + o.cap)) ≡ true =
        ground (arith, size, o.fits) in
      rw (the_block o, alloc_layout_lem o, len_lem o, layout_lem immutable n limit)
        (rw inside (elim (Option-cases (A.move_to h b.ptr (8 + n))) [
          | inl null ↦
              rw (null, restored)
                (fails (
                  put_same h b.ptr (block 1 v)
                    (cell_of_view (h b.ptr) o.at ∙ ap (λ n. some (block n v)) one)))
          | inr (q, got) ↦
              let bytes = drop 8 (resize q moved (8 + n)) in
              rw got (
                returns (
                  relocated refs n q bytes k only (A.move_fresh h b.ptr (8 + n) q got) o.word
                    (omega (
                      arith,
                      length-drop 8 (resize q moved (8 + n)),
                      length-resize q moved (8 + n),
                    ))
                    (sym (drop-take 8 n (resize q moved (8 + n)))
                      ∙ ap (drop 8) (
                          take-resize q (8 + n) moved (8 + n) (omega arith) (
                            omega (
                              arith,
                              length-copied memory text 16 8 begins (omega (arith, size, o.fits)),
                              size,
                              o.fits,
                            )))
                      ∙ drop-take 8 n moved
                      ∙ copied_first memory text 16 8 begins (omega (arith, size, o.fits)))
                    (omega arith) limit refl))
        ]))

module _ ⦃A : Allocator⦄ (refs : ℕ → ℕ) {h : Heap} {b : HeapBuffer} {text : Bytes}
    (o : Holds immutable h b text) (k : Counted (plus refs b.ptr) h) (only : refs b.ptr ≡ 0) where
  -- The allocation with all its bytes, in its new size.
  abbrev wider : ℕ → Bytes
  wider q =
      resize q (memory_of (block (count_in (h b.ptr)) (exact, 8 + o.cap, o.bytes)))
        (16 + length text)

  wider_begins : (q : ℕ) → take (length text) (drop 8 (wider q)) ≡ text
  wider_begins q =
      let n = length text in
      let old = memory_of (block (count_in (h b.ptr)) (exact, 8 + o.cap, o.bytes)) in
      sym (drop-take 8 n (wider q))
      ∙ ap (drop 8) (
          take-resize q (8 + n) old (16 + n) (omega arith)
            (omega (arith, length-exact (count_in (h b.ptr)) (8 + o.cap) o.bytes, o.room, o.fits)))
      ∙ drop-take 8 n old
      ∙ ap (take n) (exact_memory (count_in (h b.ptr)) (8 + o.cap) o.bytes)
      ∙ o.begins

  pub into_growable-Built :
      Ends (Built refs mutable h text (length text)) (λ g. g ≡ h) (into_growable b h)
  unfolding into_growable
  into_growable-Built =
      let n = length text in
      let limit : n ≤ max_len = omega (arith, o.fits, o.limit) in
      let inside : (leb (8 + n)
              (length (memory_of (block (count_in (h b.ptr)) (exact, 8 + o.cap, o.bytes))))
            && (8 + o.cap == 8 + o.cap))
          ≡ true =
        ground (arith, length-exact (count_in (h b.ptr)) (8 + o.cap) o.bytes, o.room, o.fits) in
      rw (the_block o, alloc_layout_lem o, len_lem o, layout_lem mutable n limit)
        (rw inside (elim (Option-cases (A.move_to h b.ptr (16 + n))) [
          | inl null ↦ rw null (fails refl)
          | inr (q, got) ↦
              let old = memory_of (block (count_in (h b.ptr)) (exact, 8 + o.cap, o.bytes)) in
              let room : 16 + n ≤ length (wider q) = omega (arith, length-resize q old (16 + n)) in
              let bytes = drop 16 (copy_within (wider q) 8 16 n) in
              rw got (
                returns (
                  relocated refs n q bytes k only (A.move_fresh h b.ptr (16 + n) q got) o.word
                    (omega (
                      arith,
                      length-drop 16 (copy_within (wider q) 8 16 n),
                      length-copied (wider q) text 8 16 (wider_begins q) room,
                      length-resize q old (16 + n),
                    ))
                    (copied_first (wider q) text 8 16 (wider_begins q) room) (omega arith) limit
                    tt))
        ]))
