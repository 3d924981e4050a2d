-- ===== src/Repr/Cut/Shorter.antt =====
-- What clearing and truncating do to the text. A shared or static buffer is kept, with another length.
use lean_string.Prelude.{
  ℕ, ◌+◌, ◌≤◌, ◌<◌, ◌≡◌, sym, ap, subst, ◌∙◌, inl, inr, true, false, [], arith, leb, leb→le,
  Bool-cases, length, take, take_all, take-take,
}
use lean_string.Prelude.Splice.{length-take_le}
use lean_string.Utf8.{Bytes, IsUtf8, is_char_boundary}
use lean_string.Utf8.Shape.{IsUtf8-nil, IsUtf8-Halves, Halves}
use lean_string.Memory.{Heap, Allocator, panicked}
use lean_string.Memory.Ends.{Ends, returns, weaken}
use lean_string.Memory.Counted.{Counted, Same-refl}
use lean_string.HeapBuffer
use lean_string.HeapBuffer.{HeapBuffer, Mutability, mutable}
use lean_string.HeapBuffer.Holds.{Holds}
use lean_string.HeapBuffer.Write.{set_len_lem}
use lean_string.InlineBuffer
use lean_string.StaticBuffer
use lean_string.Repr.{Repr, heap, State, new}
use lean_string.Repr.Edit.{set_len}
use lean_string.Repr.Cut.{truncate_unchecked, truncate_heap, truncate, clear}
use lean_string.Repr.Owns.{
  InInline, InStatic, Content, in_inline, in_heap, in_static, with_self, Owns, Keeps,
}
use lean_string.Repr.Queries.{
  inline_not_heap, inline_not_static, heap_is_heap, heap_not_static, static_not_heap,
  static_is_static, is_unique_lem, as_bytes_lem, len_lem, unique,
}
use lean_string.Repr.Place.{at_state, InInline-set_len}
use lean_string.Repr.Fresh.{inline-New, replaced_by-New, empty-InInline}
use lean_string.Repr.Text.{unchanged}

-- A prefix of a text in a growable allocation, which keeps its capacity.
pub Holds-take :
    {h : Heap} {b : HeapBuffer} {text : Bytes} (n : ℕ)
    → Holds mutable h b text
    → n ≤ length text
    → Holds mutable h
        (record { ptr = b.ptr; len = n + lean_string.HeapBuffer.TextLen.tag })
        (take n text)
Holds-take {b} {text} n o fits =
    let e = length-take_le n text fits in
    record {
      cap = o.cap;
      bytes = o.bytes;
      at = o.at;
      room = o.room;
      word = ap (λ k. k + lean_string.HeapBuffer.TextLen.tag) (sym e);
      begins =
          ap (λ k. take k o.bytes) e
          ∙ sym (take-take n (length text) o.bytes fits)
          ∙ ap (take n) o.begins;
      fits = omega (arith, e, o.fits);
      limit = o.limit;
      fills = tt;
    }

pub InStatic-take :
    {s : StaticBuffer.StaticBuffer} {text : Bytes} (n : ℕ)
    → InStatic s text
    → n ≤ length text
    → InStatic (StaticBuffer.set_len s n) (take n text)
InStatic-take {s} {text} n o fits =
    let e = length-take_le n text fits in
    subst (λ b. InStatic b (take n text))
      (sym (StaticBuffer.set_len_lem s n (omega (arith, o.limit))))
      (record {
        word = ap (λ k. k + StaticBuffer.tag) (sym e);
        begins =
            ap (λ k. take k s.memory) e
            ∙ sym (take-take n (length text) s.memory fits)
            ∙ ap (take n) o.begins;
        fits = omega (arith, e, o.fits);
        limit = omega (arith, e, o.limit);
      })

pub InInline-take :
    {buffer text : Bytes} (n : ℕ)
    → InInline buffer text
    → IsUtf8 (take n text)
    → n ≤ length text
    → InInline (InlineBuffer.set_len buffer n) (take n text)
InInline-take {buffer} {text} n o u fits =
    let e = length-take_le n text fits in
    subst (λ k. InInline (InlineBuffer.set_len buffer k) (take n text)) e
      (InInline-set_len buffer (take n text) u o.size (omega (arith, e, o.fits)) (
        ap (λ k. take k buffer) e
        ∙ sym (take-take n (length text) buffer fits)
        ∙ ap (take n) o.begins))

module _ ⦃A : Allocator⦄ {refs : ℕ → ℕ} {h : Heap} {E : State → Type 0} where
  shortened :
      {r : Repr} {text : Bytes} (n : ℕ)
      → Content mutable h r text
      → Counted (with_self refs r) h
      → Halves text n
      → Ends (λ _ t. Keeps refs mutable h (take n text) t) E (truncate_unchecked n (at_state r h))
  unfolding truncate_unchecked truncate_heap
  shortened n (in_inline c) k i =
      rw (inline_not_heap c, inline_not_static c)
        (returns (record {
          owns = record {
            valid = i.left;
            content = in_inline (InInline-take n c i.left i.fits);
            counted = k;
          };
          same = Same-refl refs h;
        }))
  shortened n (in_heap {b} c) k i =
      rw (heap_is_heap c, set_len_lem b n h (omega (arith, i.fits, c.fits, c.limit)))
        (returns (record {
          owns = record { valid = i.left; content = in_heap (Holds-take n c i.fits); counted = k };
          same = Same-refl refs h;
        }))
  shortened n (in_static c) k i =
      rw (static_not_heap c, static_is_static c)
        (returns (record {
          owns = record {
            valid = i.left;
            content = in_static (InStatic-take n c i.fits);
            counted = k;
          };
          same = Same-refl refs h;
        }))

module _ ⦃A : Allocator⦄ {refs : ℕ → ℕ} {s : State} {text : Bytes}
    (o : Owns refs mutable s text) where
  pub truncate_unchecked-takes :
      {E : State → Type 0} (n : ℕ)
      → Halves text n
      → Ends (λ _ t. Keeps refs mutable s.heap (take n text) t) E (truncate_unchecked n s)
  truncate_unchecked-takes n i = shortened n o.content o.counted i

  -- On a sound string and for `n` at a char boundary, `truncate n` never fails: it returns with
  -- the first `n` bytes as the text, the string sound and everything that others refer to
  -- unchanged.
  pub truncate-takes :
      (n : ℕ)
      → is_char_boundary text n ≡ true
      → Ends (λ _ t. Keeps refs mutable s.heap (take n text) t) (λ _. ⊥) (truncate n s)
  unfolding truncate
  truncate-takes n at = elim (Bool-cases (leb (length text) n)) [
    | inl short ↦
        rw (len_lem o.content, short)
          (returns (
            subst (λ t. Keeps refs mutable s.heap t s)
              (sym (take_all n text (leb→le (length text) n short))) (unchanged o)))
    | inr long ↦
        rw (len_lem o.content, long, as_bytes_lem o.content, at)
          (truncate_unchecked-takes n (IsUtf8-Halves n o.valid at))
  ]

  -- On a sound string and for `n` below the length and off a char boundary, `truncate n` panics
  -- before anything is changed.
  pub truncate-panics :
      (n : ℕ) → n < length text → is_char_boundary text n ≡ false → truncate n s ≡ panicked s
  unfolding truncate
  truncate-panics n short off =
      let e : leb (length text) n ≡ false = ground arith in
      rw (len_lem o.content, e, as_bytes_lem o.content, off)

cleared :
    {refs : ℕ → ℕ} {h : Heap} {E : State → Type 0} {r : Repr} {text : Bytes}
    → Content mutable h r text
    → Counted (with_self refs r) h
    → Ends (λ _ t. Keeps refs mutable h [] t) E (clear (at_state r h))
unfolding clear set_len new
cleared {refs} {h} (in_inline c) k =
    rw (inline_not_static c, is_unique_lem {m = mutable} {h = h} (in_inline c), inline_not_heap c)
      (returns (record {
        owns = record {
          valid = IsUtf8-nil;
          content = in_inline (InInline-take 0 c IsUtf8-nil (omega arith));
          counted = k;
        };
        same = Same-refl refs h;
      }))
cleared {refs} {h} {E} {r} (in_heap {b} c) k = elim (Bool-cases (unique (heap b) h)) [
  | inl own ↦
      rw
        (
          heap_not_static c,
          is_unique_lem {m = mutable} {h = h} (in_heap c),
          own,
          heap_is_heap c,
          set_len_lem b 0 h (omega arith),
        )
        (returns (record {
          owns = record {
            valid = IsUtf8-nil;
            content = in_heap (Holds-take 0 c (omega arith));
            counted = k;
          };
          same = Same-refl refs h;
        }))
  | inr shared ↦
      rw (heap_not_static c, is_unique_lem {m = mutable} {h = h} (in_heap c), shared)
        (weaken
          (replaced_by-New {refs = refs} {E = E} (in_heap c)
            (inline-New k IsUtf8-nil empty-InInline))
          (λ _ t e. e.0) (λ t e. e))
]
cleared {refs} {h} (in_static c) k = rw (static_is_static c) (
    returns (record {
      owns = record {
        valid = IsUtf8-nil;
        content = in_static (InStatic-take 0 c (omega arith));
        counted = k;
      };
      same = Same-refl refs h;
    }))

-- On a sound string, `clear` always returns, with the empty text, the string sound and
-- everything that others refer to unchanged.
pub clear-empties :
    {refs : ℕ → ℕ} {s : State} {text : Bytes}
    → Owns refs mutable s text
    → Ends (λ _ t. Keeps refs mutable s.heap [] t) (λ _. ⊥) (clear s)
clear-empties o = cleared o.content o.counted
