-- ===== src/HeapBuffer/Release.antt =====
-- Giving up a reference.
use lean_string.Prelude.{
  ℕ, ◌+◌, ◌≡◌, refl, sym, ap, ◌∙◌, ◌≢◌, true, none, some, inl, inr, arith, ==_iff, Bool-cases, ◌==◌,
}
use lean_string.Utf8.{Bytes}
use lean_string.Memory.{Heap, put, Outcome, done}
use lean_string.Memory.Counted.{
  count_in, View, view, block, plus, one_at_self, Counted, Counted-free, Counted-drop, Same,
  Same-unique, put-put, view-put,
}
use lean_string.HeapBuffer.{
  HeapBuffer, Mutability, header_offset, new_header, minus_one, dealloc, release,
}
use lean_string.HeapBuffer.Holds.{Holds, the_block, Holds-look, alloc_layout_lem}

-- `release` returns, and the reference is gone: the count is that of the other references, which see
-- their blocks unchanged, and the block is free if there are none.
pub record Released (refs : ℕ → ℕ) (h : Heap) (r : Outcome Heap (Unit {0})) : Type 0 where
  pub after : Heap
  pub ends : r ≡ done tt after
  pub counted : Counted refs after
  pub same : Same refs h after

pub ==-true : (a b : ℕ) → a ≡ b → (a == b) ≡ true
==-true a b e = ground arith

dealloc_lem :
    {m : Mutability} {h : Heap} {b : HeapBuffer} {text : Bytes} (o : Holds m h b text)
    → dealloc m b h ≡ done tt (put h b.ptr none)
unfolding dealloc
dealloc_lem {m} {b} o =
    rw (alloc_layout_lem o, the_block o)
      (rw (==-true (header_offset m + o.cap) (header_offset m + o.cap) refl))

module _ (refs : ℕ → ℕ) {m : Mutability} {h : Heap} {b : HeapBuffer} {text : Bytes}
    (k : Counted (plus refs b.ptr) h) (o : Holds m h b text) where
  pub count_lem : count_in (h b.ptr) ≡ refs b.ptr + 1
  count_lem = k.counts b.ptr ∙ ap (λ n. refs b.ptr + n) (one_at_self b.ptr)

  minus_one_lem : minus_one (count_in (h b.ptr)) ≡ refs b.ptr
  minus_one_lem = omega (arith, count_lem, k.bounded b.ptr, one_at_self b.ptr)

  v : View
  v = (new_header m o.cap, header_offset m + o.cap, o.bytes)

  dropped : Heap
  dropped = put h b.ptr (some (block (minus_one (count_in (h b.ptr))) v))

  still : Holds m dropped b text
  unfolding dropped v
  still = Holds-look o dropped (view-put h b.ptr _ v ∙ sym o.at)

  dropped_looks : (a : ℕ) → view (dropped a) ≡ view (h a)
  unfolding dropped v put
  dropped_looks a = elim (Bool-cases (a == b.ptr)) [
    | inl e ↦ rw e (sym o.at ∙ ap (λ x. view (h x)) (sym ((==_iff a b.ptr).0 e)))
    | inr e ↦ rw e
  ]

  last : refs b.ptr ≡ 0 → Released refs h (release m b h)
  unfolding release dropped v
  last only = record {
    after = put h b.ptr none;
    ends = rw (the_block o) (
        rw (==-true (count_in (h b.ptr)) 1 (omega (arith, count_lem)))
          (dealloc_lem still ∙ ap (done tt) (put-put h b.ptr _ none)));
    counted = Counted-free refs h b.ptr k only;
    same = Same-unique refs h b.ptr none only;
  }

  more : refs b.ptr ≢ 0 → Released refs h (release m b h)
  unfolding release dropped v
  more others = record {
    after = dropped;
    ends = rw (the_block o) (ground (arith, count_lem));
    counted = Counted-drop refs h b.ptr _ k minus_one_lem others;
    same = record { looks = λ a r. dropped_looks a };
  }

  -- For a sound buffer and right reference counts, `release` returns; the counts are right for
  -- the other references alone, the allocation is free if there are none, and what they refer
  -- to is unchanged.
  pub release-Released : Released refs h (release m b h)
  release-Released = elim (Bool-cases (refs b.ptr == 0)) [
    | inl e ↦ last (ground arith)
    | inr e ↦ more (ground arith)
  ]
