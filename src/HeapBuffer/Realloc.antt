-- ===== src/HeapBuffer/Realloc.antt =====
-- Another capacity for a buffer that is not shared.
use lean_string.Prelude.{
  ℕ, ◌+◌, ◌-◌, ◌%◌, ◌^◌, ◌≤◌, ◌<◌, ◌≡◌, refl, sym, ap, subst, ◌∙◌, Bool, true, false, Option, none,
  some, arith, ltb, leb, le→leb, leb→le, lt→ltb, ltb-false, le_of_ltb-false, ==_iff, Bool-cases,
  Option-cases, inl, inr, ◌==◌, if◌then◌else◌, [], ◌++◌, length, take, drop, length-append,
  take-append_le, take-take,
}
use lean_string.Utf8.{Bytes}
use lean_string.Memory.{growable, Heap, put, Allocator}
use lean_string.Memory.Ends.{Ends, returns, fails}
use lean_string.Memory.Counted.{
  count_in, block, plus, Counted, Counted-free, Counted-fresh, Same-trans, Same-unique, Same-fresh,
  view-put,
}
use lean_string.HeapBuffer.{
  HeapBuffer, Mutability, mutable, header_offset, new_header, resize, move_block, realloc,
}
use lean_string.HeapBuffer.TextLen.{max_len, tag}
use lean_string.HeapBuffer.Capacity
use lean_string.HeapBuffer.Holds.{Holds, Fills, the_block, alloc_layout_lem}
use lean_string.HeapBuffer.Alloc.{Capacity-lem}
use lean_string.HeapBuffer.Build.{Built}

module _ ⦃A : Allocator⦄ where
  pub length-resize : (q : ℕ) (bytes : Bytes) (n : ℕ) → length (resize q bytes n) ≡ n
  length-resize q bytes n = omega (
    arith,
    length-append (take n bytes) (A.garbage q (n - length bytes)),
    lean_string.Prelude.length-take n bytes,
    A.length-garbage q (n - length bytes),
  )

  -- What fits in both sizes survives.
  pub take-resize :
      (q k : ℕ) (bytes : Bytes) (n : ℕ)
      → k ≤ n
      → k ≤ length bytes
      → take k (resize q bytes n) ≡ take k bytes
  take-resize q k bytes n small fits =
      take-append_le k (take n bytes) _ (omega (arith, lean_string.Prelude.length-take n bytes))
      ∙ take-take k n bytes small

-- A buffer whose block has moved to `q`, which is free once the old one is.
pub relocated :
    (refs : ℕ → ℕ) {m : Mutability} {h : Heap} {p len : ℕ} {text : Bytes} (cap q : ℕ)
    (bytes : Bytes)
    → Counted (plus refs p) h
    → refs p ≡ 0
    → put h p none q ≡ none
    → len ≡ length text + tag
    → length bytes ≡ cap
    → take (length text) bytes ≡ text
    → length text ≤ cap
    → cap ≤ max_len
    → Fills m cap (length text)
    → Built refs m h text cap
        (record { ptr = q; len = len })
        (put (put h p none) q (some (block 1 (new_header m cap, header_offset m + cap, bytes))))
relocated refs {m} {h} {p} cap q bytes k only free word room begins fits limit fills =
    let old = put h p none in
    let k' = Counted-free refs h p k only in
    let new = block 1 (new_header m cap, header_offset m + cap, bytes) in
    record {
      holds = record {
        cap = cap;
        bytes = bytes;
        at = view-put old q 1 (new_header m cap, header_offset m + cap, bytes);
        room = room;
        word = word;
        begins = begins;
        fits = fits;
        limit = limit;
        fills = fills;
      };
      capacity = refl;
      counted = Counted-fresh refs old q new k' free refl;
      same = Same-trans (Same-unique refs h p none only) (Same-fresh refs old q (some new) k' free);
      alone = omega (arith, k'.counts q, ap count_in free);
    }

module _ ⦃A : Allocator⦄ (refs : ℕ → ℕ) {h : Heap} {b : HeapBuffer} {text : Bytes}
    (o : Holds mutable h b text) (k : Counted (plus refs b.ptr) h) (only : refs b.ptr ≡ 0) where
  moved-Built :
      (cap q : ℕ)
      → cap ≤ max_len
      → length text ≤ cap
      → put h b.ptr none q ≡ none
      → Ends
          (Built refs mutable h text cap)
          (λ g. g ≡ h)
          (move_block b
            (block (count_in (h b.ptr)) (growable o.cap, 16 + o.cap, o.bytes))
            cap
            (16 + cap)
            (some q)
            h)
  moved-Built cap q limit fits free =
      let size : 16 + cap - 16 ≡ cap = omega arith in
      returns (
        relocated refs cap q (resize q o.bytes (16 + cap - 16)) k only free o.word
          (length-resize q o.bytes (16 + cap - 16) ∙ size)
          (take-resize q (length text) o.bytes (16 + cap - 16) (omega arith)
              (omega (arith, o.fits, o.room))
            ∙ o.begins)
          fits limit tt)

  -- For a sound growable buffer that nothing else refers to, and a capacity that its text fits
  -- in, `realloc` returns a buffer of that capacity with the same text and right counts,
  -- everything that others refer to being unchanged, or fails and changes nothing.
  pub realloc-Built :
      (cap : ℕ)
      → length text ≤ cap
      → Ends (Built refs mutable h text cap) (λ g. g ≡ h) (realloc b cap h)
  unfolding realloc
  realloc-Built cap fits = elim (Bool-cases (ltb max_len cap)) [
    | inl big ↦ unfold Capacity.new in rw big (fails refl)
    | inr small ↦
        let limit = le_of_ltb-false max_len cap small in
        let size : (16 + cap) % 2 ^ 64 ≡ 16 + cap = omega arith in
        let same : (16 + o.cap == 16 + o.cap) ≡ true = ground arith in
        rw (Capacity-lem cap limit, alloc_layout_lem o, the_block o, size, same)
          (elim (Option-cases (A.move_to h b.ptr (16 + cap))) [
            | inl null ↦ rw null (fails refl)
            | inr (q, got) ↦
                rw got (moved-Built cap q limit fits (A.move_fresh h b.ptr (16 + cap) q got))
          ])
  ]
