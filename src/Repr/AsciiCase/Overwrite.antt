-- ===== src/Repr/AsciiCase/Overwrite.antt =====
-- A text written over by one of the same length, in a buffer of the string's own.
use lean_string.Prelude.{
  ℕ, ◌+◌, ◌≤◌, ◌<◌, ◌≡◌, sym, ap, subst, ◌∙◌, true, arith, le→leb, length, take, take_all, get_or,
}
use lean_string.Prelude.Splice.{splice, length-splice, take-splice_end, get_or-splice_past}
use lean_string.Utf8.{Bytes, IsUtf8}
use lean_string.Utf8.Shape.{EndsBelow-last, IsUtf8-EndsBelow}
use lean_string.Memory.{Heap}
use lean_string.Memory.Ends.{Ends, returns}
use lean_string.Memory.Counted.{Counted, Same-refl}
use lean_string.HeapBuffer.{HeapBuffer, mutable}
use lean_string.HeapBuffer.TextLen.{tag}
use lean_string.HeapBuffer.Holds.{Holds}
use lean_string.HeapBuffer.Write.{
  Holds-Writable, refilled, refilled-Writable, refilled-Same, write-refilled, length-written,
  Writable-Holds,
}
use lean_string.Repr.{Repr, State}
use lean_string.Repr.Edit.{write_at}
use lean_string.Repr.Owns.{InInline, Content, in_inline, in_heap, in_static, with_self, Keeps}
use lean_string.Repr.Queries.{
  inline_not_heap, inline_not_static, heap_is_heap, heap_not_static, is_unique_heap, modifiable,
}
use lean_string.Repr.Place.{at_state}
use lean_string.Repr.Grow.{alone_of_unique}

start_of :
    (buffer new : Bytes)
    → length new ≤ length buffer
    → take (length new) (splice buffer 0 new) ≡ new
start_of buffer new fits =
    ap (λ n. take n (splice buffer 0 new)) {y = 0 + length new} (omega arith)
    ∙ take-splice_end buffer 0 new (omega arith)

InInline-overwritten :
    {buffer text : Bytes} (new : Bytes)
    → InInline buffer text
    → IsUtf8 new
    → length new ≡ length text
    → InInline (splice buffer 0 new) new
InInline-overwritten {buffer} {text} new c u e =
    let room : 0 + length new ≤ length buffer = omega (arith, c.size, c.fits) in
    let begins = start_of buffer new (omega arith) in
    let size = length-splice buffer 0 new room ∙ c.size in
    record {
      size = size;
      fits = omega (arith, c.fits);
      begins = begins;
      short = λ lt.
          get_or-splice_past buffer 0 new 15 0 (omega arith) room
          ∙ c.short (omega arith)
          ∙ omega arith;
      full = λ n.
          let whole : splice buffer 0 new ≡ new =
            sym (take_all (length new) (splice buffer 0 new) (omega arith)) ∙ begins in
          subst (λ t. get_or t 15 0 < 0xC0) (sym whole)
            (EndsBelow-last new 15 (IsUtf8-EndsBelow u) n);
    }

module _ {refs : ℕ → ℕ} {h : Heap} {E : State → Type 0} where
  -- The text is the new one, and nothing that others refer to changes.
  pub overwritten-Keeps :
      {r : Repr} {text : Bytes} (new : Bytes)
      → Content mutable h r text
      → Counted (with_self refs r) h
      → modifiable r h ≡ true
      → IsUtf8 new
      → length new ≡ length text
      → Ends (λ _ s. Keeps refs mutable h new s) E (write_at 0 new (at_state r h))
  unfolding write_at
  overwritten-Keeps new (in_inline {buffer} {text} c) k own u e =
      rw (inline_not_static c, inline_not_heap c)
        (rw (le→leb (0 + length new) 16 (omega (arith, c.fits))) (
          returns (record {
            owns = record {
              valid = u;
              content = in_inline (InInline-overwritten new c u e);
              counted = k;
            };
            same = Same-refl refs h;
          })))
  overwritten-Keeps new (in_heap {b} {text} c) k own u e =
      let w = Holds-Writable c k (alone_of_unique refs b.ptr k own) in
      let fits : 0 + length new ≤ c.cap = omega (arith, c.fits) in
      let bytes = splice c.bytes 0 new in
      let w' = refilled-Writable w bytes (length-written w 0 new fits) in
      let word : record { ptr = b.ptr; len = length new + tag } ≡ b =
        λ i. record { ptr = b.ptr; len = (ap (λ n. n + tag) e ∙ sym c.word) i } in
      rw (heap_not_static c, heap_is_heap c, is_unique_heap c, own)
        (rw (write-refilled w 0 new fits) (
          returns (record {
            owns = record {
              valid = u;
              content = in_heap (
                  subst (λ (x : HeapBuffer). Holds mutable (refilled w bytes) x new) word
                    (Writable-Holds w' new (omega arith)
                      (start_of c.bytes new (omega (arith, c.room)))));
              counted = w'.counted;
            };
            same = refilled-Same w bytes;
          })))
  overwritten-Keeps new (in_static c) k own u e = absurd cc
