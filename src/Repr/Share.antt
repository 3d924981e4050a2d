-- ===== src/Repr/Share.antt =====
-- `Clone` and `Drop`: a clone of a heap string is one more reference to the same allocation.
use lean_string.Prelude.{
  ℕ, ◌+◌, ◌%◌, ◌^◌, ◌≤◌, ◌<◌, ◌≡◌, refl, sym, ap, ◌∙◌, inl, inr, false, some, arith, ltb, ltb→lt,
  le_of_ltb-false, ◌==◌, ==_iff, Bool-cases,
}
use lean_string.Utf8.{Bytes}
use lean_string.LastByte.{isize_max}
use lean_string.Memory.{Heap, put, Outcome, done, panicked}
use lean_string.Memory.Counted.{
  count_in, View, view, block, plus, one_at_self, put_at, put-put, Counted, Counted-update, Same,
  Same-refl,
}
use lean_string.HeapBuffer.{HeapBuffer, Mutability, new_header, header_offset, release, minus_one}
use lean_string.HeapBuffer.Holds.{Holds, Holds-look, the_block}
use lean_string.HeapBuffer.Release.{count_lem}
use lean_string.Repr.{Repr, inline, heap, static, make_shallow_clone, drop_in, fetch_add}
use lean_string.Repr.Owns.{Content, in_inline, in_heap, in_static, with_self, Owns}
use lean_string.Repr.Queries.{inline_not_heap, static_not_heap, heap_is_heap}
use lean_string.Repr.Place.{at_state}

-- The count that the string's buffer records.
abbrev pub count_of : Repr → Heap → ℕ
count_of (inline buffer) h = 0
count_of (heap b) h = count_in (h b.ptr)
count_of (static s) h = 0

-- A clone: both strings hold the text, with one reference each. If the count is past its limit, the
-- call panics, and the string is as before.
pub data Cloned (refs : ℕ → ℕ) (m : Mutability) (h : Heap) (r : Repr) (text : Bytes)
    : Outcome Heap Repr → Type 0 where
  cloned :
      {g : Heap}
      → Owns (with_self refs r) m (at_state r g) text
      → Same (with_self refs r) h g
      → Cloned refs m h r text (done r g)
  too_many :
      {g : Heap}
      → isize_max < count_of r h
      → Owns refs m (at_state r g) text
      → Same (with_self refs r) h g
      → Cloned refs m h r text (panicked g)

module _ (refs : ℕ → ℕ) {m : Mutability} {h : Heap} {b : HeapBuffer} {text : Bytes}
    (o : Holds m h b text) (k : Counted (plus refs b.ptr) h) where
  cell : View
  cell = (new_header m o.cap, header_offset m + o.cap, o.bytes)

  with_count : ℕ → Heap
  unfolding cell
  with_count n = put h b.ptr (some (block n cell))

  with_count_looks : (n a : ℕ) → view (with_count n a) ≡ view (h a)
  unfolding with_count cell put
  with_count_looks n a = elim (Bool-cases (a == b.ptr)) [
    | inl e ↦ rw e (sym o.at ∙ ap (λ x. view (h x)) (sym ((==_iff a b.ptr).0 e)))
    | inr e ↦ rw e
  ]

  with_count-Counted :
      refs b.ptr + 1 ≤ isize_max
      → Counted (plus (plus refs b.ptr) b.ptr) (with_count (refs b.ptr + 2))
  unfolding with_count cell put
  with_count-Counted few = record {
    counts = λ a. ground (arith, k.counts a);
    bounded = λ a. ground (arith, k.bounded a);
    no_leak = λ a z. ground (arith, k.no_leak a);
  }

  with_count-Same : (n : ℕ) → Same (plus refs b.ptr) h (with_count n)
  with_count-Same n = record { looks = λ a r. with_count_looks n a }

  fetch_add_lem : fetch_add b.ptr h ≡ done (refs b.ptr + 1) (with_count (refs b.ptr + 2))
  unfolding with_count cell fetch_add
  fetch_add_lem =
      let n : (count_in (h b.ptr) + 1) % 2 ^ 64 ≡ refs b.ptr + 2 =
        omega (arith, count_lem refs k o, k.bounded b.ptr, one_at_self b.ptr) in
      rw (the_block o) (
        ap (λ c. done c (put h b.ptr (some (block ((count_in (h b.ptr) + 1) % 2 ^ 64) cell))))
          (count_lem refs k o)
        ∙ ap (λ c. done (refs b.ptr + 1) (put h b.ptr (some (block c cell)))) n)

  with_count_still : (n : ℕ) → Holds m (with_count n) b text
  with_count_still n = Holds-look o (with_count n) (with_count_looks n b.ptr)

  with_count_back : Counted (plus refs b.ptr) (with_count (refs b.ptr + 1))
  unfolding with_count
  with_count_back = Counted-update refs h b.ptr (block (refs b.ptr + 1) cell) k refl

  -- The count goes back where it was.
  undo_lem :
      isize_max < refs b.ptr + 1
      → release m b (with_count (refs b.ptr + 2)) ≡ done tt (with_count (refs b.ptr + 1))
  unfolding with_count cell release Holds-look
  undo_lem many =
      let g = with_count (refs b.ptr + 2) in
      let c : count_in (g b.ptr) ≡ refs b.ptr + 2 =
        ap count_in (put_at h b.ptr (some (block (refs b.ptr + 2) cell))) in
      let o' = Holds-look o g (with_count_looks (refs b.ptr + 2) b.ptr) in
      let n : minus_one (refs b.ptr + 2) ≡ refs b.ptr + 1 =
        omega (arith, k.bounded b.ptr, one_at_self b.ptr) in
      let other : (refs b.ptr + 2 == 1) ≡ false = ground arith in
      rw (the_block o', c, other, n)
        (ap (done tt) (
          put-put h b.ptr (some (block (refs b.ptr + 2) cell))
            (some (block (refs b.ptr + 1) cell))))

clone-Content :
    {refs : ℕ → ℕ} {m : Mutability} {h : Heap} {r : Repr} {text : Bytes}
    → Owns refs m (at_state r h) text
    → Content m h r text
    → Cloned refs m h r text (make_shallow_clone m r h)
unfolding make_shallow_clone drop_in
clone-Content {refs} {h} o (in_inline c) = rw (inline_not_heap c) (cloned o (Same-refl refs h))
clone-Content {refs} {h} o (in_heap {b} c) = elim (Bool-cases (ltb isize_max (refs b.ptr + 1))) [
  | inl many ↦
      let n = ltb→lt isize_max (refs b.ptr + 1) many in
      rw (heap_is_heap c, fetch_add_lem refs c o.counted, many, undo_lem refs c o.counted n)
        (too_many (omega (arith, n, count_lem refs o.counted c))
          (record {
            valid = o.valid;
            content = in_heap (with_count_still refs c o.counted (refs b.ptr + 1));
            counted = with_count_back refs c o.counted;
          })
          (with_count-Same refs c o.counted (refs b.ptr + 1)))
  | inr few ↦
      rw (heap_is_heap c, fetch_add_lem refs c o.counted, few)
        (cloned
          (record {
            valid = o.valid;
            content = in_heap (with_count_still refs c o.counted (refs b.ptr + 2));
            counted =
                with_count-Counted refs c o.counted
                  (omega (arith, le_of_ltb-false isize_max (refs b.ptr + 1) few));
          })
          (with_count-Same refs c o.counted (refs b.ptr + 2)))
]
clone-Content {refs} {h} o (in_static c) = rw (static_not_heap c) (cloned o (Same-refl refs h))

-- On a sound string, `make_shallow_clone` returns the same two words with one more reference
-- counted, or panics because the count is past `isize::MAX`, with the count put back.
-- Everything that others refer to, and the text, is unchanged.
pub make_shallow_clone-Cloned :
    {refs : ℕ → ℕ} {m : Mutability} {h : Heap} {r : Repr} {text : Bytes}
    → Owns refs m (at_state r h) text
    → Cloned refs m h r text (make_shallow_clone m r h)
make_shallow_clone-Cloned o = clone-Content o o.content
