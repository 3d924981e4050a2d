-- ===== src/HeapBuffer/Write.antt =====
-- Writes through a pointer to a growable allocation that nothing else refers to.
use lean_string.Prelude.{ℕ, ◌+◌, ◌≤◌, ◌≡◌, refl, ap, ◌∙◌, some, arith, length, take}
use lean_string.Prelude.Splice.{splice, length-splice, take-splice_end}
use lean_string.Utf8.{Bytes}
use lean_string.Memory.{growable, Heap, Allocator, done}
use lean_string.Memory.Ends.{Ends, returns, bind}
use lean_string.Memory.Counted.{
  count_in, view, plus, one_at_self, Counted, Counted-update, Same, Same-trans, Same-unique,
  view-put,
}
use lean_string.HeapBuffer.{HeapBuffer, mutable, write_bytes, set_len, from_str_with_capacity}
use lean_string.HeapBuffer.TextLen.{max_len, tag}
use lean_string.HeapBuffer.TextLen.Words.{new_tagged}
use lean_string.HeapBuffer.Holds.{Holds}
use lean_string.HeapBuffer.Alloc.{rewritten, write_bytes_lem}
use lean_string.HeapBuffer.Build.{Built, with_capacity-Built}

pub record Writable (refs : ℕ → ℕ) (h : Heap) (p cap : ℕ) (bytes : Bytes) : Type 0 where
  pub at : view (h p) ≡ some (growable cap, 16 + cap, bytes)
  pub room : length bytes ≡ cap
  pub limit : cap ≤ max_len
  pub counted : Counted (plus refs p) h
  pub alone : refs p ≡ 0

pub Holds-Writable :
    {refs : ℕ → ℕ} {h : Heap} {b : HeapBuffer} {text : Bytes} (o : Holds mutable h b text)
    → Counted (plus refs b.ptr) h
    → refs b.ptr ≡ 0
    → Writable refs h b.ptr o.cap o.bytes
Holds-Writable o k only = record {
  at = o.at;
  room = o.room;
  limit = o.limit;
  counted = k;
  alone = only;
}

module _ {refs : ℕ → ℕ} {h : Heap} {p cap : ℕ} {bytes : Bytes}
    (w : Writable refs h p cap bytes) where
  pub count_one : count_in (h p) ≡ 1
  count_one = omega (arith, w.counted.counts p, one_at_self p, w.alone)

  -- The heap with other bytes in the block.
  pub refilled : Bytes → Heap
  refilled bytes' = rewritten h p (growable cap, 16 + cap, bytes')

  pub refilled-Writable :
      (bytes' : Bytes) → length bytes' ≡ cap → Writable refs (refilled bytes') p cap bytes'
  unfolding refilled
  refilled-Writable bytes' e = record {
    at = view-put h p (count_in (h p)) (growable cap, 16 + cap, bytes');
    room = e;
    limit = w.limit;
    counted = Counted-update refs h p _ w.counted (omega (arith, count_one, w.alone));
    alone = w.alone;
  }

  pub refilled-Same : (bytes' : Bytes) → Same refs h (refilled bytes')
  unfolding refilled
  refilled-Same bytes' = Same-unique refs h p _ w.alone

  pub write-refilled :
      (off : ℕ) (src : Bytes)
      → off + length src ≤ cap
      → write_bytes p off src h ≡ done tt (refilled (splice bytes off src))
  unfolding refilled
  write-refilled off src fits =
      write_bytes_lem p off src h (growable cap) (16 + cap) bytes w.at (omega (arith, w.room))

  pub length-written :
      (off : ℕ) (src : Bytes) → off + length src ≤ cap → length (splice bytes off src) ≡ cap
  length-written off src fits = length-splice bytes off src (omega (arith, w.room)) ∙ w.room

  -- A new length makes a prefix of the bytes the text.
  pub Writable-Holds :
      (text : Bytes)
      → length text ≤ cap
      → take (length text) bytes ≡ text
      → Holds mutable h (record { ptr = p; len = length text + tag }) text
  Writable-Holds text fits begins = record {
    cap = cap;
    bytes = bytes;
    at = w.at;
    room = w.room;
    word = refl;
    begins = begins;
    fits = fits;
    limit = w.limit;
    fills = tt;
  }

pub set_len_lem :
    (b : HeapBuffer) (n : ℕ) (h : Heap)
    → n ≤ max_len
    → set_len b n h ≡ done (record { ptr = b.ptr; len = n + tag }) h
unfolding set_len
set_len_lem b n h e = rw (new_tagged n e)

module _ ⦃A : Allocator⦄ {refs : ℕ → ℕ} {h : Heap} (k : Counted refs h) where
  -- Where all reference counts are right, `from_str_with_capacity` of a text that fits in the
  -- capacity returns an unshared buffer of that capacity with the text, everything that others
  -- refer to being unchanged, or fails and changes nothing.
  pub from_str_with_capacity-Built :
      (text : Bytes) (cap : ℕ)
      → length text ≤ cap
      → Ends (Built refs mutable h text cap) (λ g. g ≡ h) (from_str_with_capacity text cap h)
  unfolding from_str_with_capacity Writable-Holds
  from_str_with_capacity-Built text cap fits = bind (with_capacity-Built k cap) λ b g e.
      let w = Holds-Writable e.holds e.counted e.alone in
      let ok_cap : 0 + length text ≤ e.holds.cap = omega (arith, e.capacity) in
      let w' = refilled-Writable w (splice e.holds.bytes 0 text) (length-written w 0 text ok_cap) in
      let whole : take (length text) (splice e.holds.bytes 0 text) ≡ text =
        ap (λ n. take n (splice e.holds.bytes 0 text)) (omega arith)
        ∙ take-splice_end e.holds.bytes 0 text (omega (arith, e.holds.room)) in
      rw
        (
          write-refilled w 0 text ok_cap,
          set_len_lem b (length text) (refilled w (splice e.holds.bytes 0 text))
              (omega (arith, e.holds.limit)),
        )
        (returns (record {
          holds = Writable-Holds w' text (omega arith) whole;
          capacity = e.capacity;
          counted = w'.counted;
          same = Same-trans e.same (refilled-Same w _);
          alone = e.alone;
        }))
