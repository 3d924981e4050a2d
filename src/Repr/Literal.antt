-- ===== src/Repr/Literal.antt =====
-- Strings from static texts, and empty strings with a capacity.
use lean_string.Prelude.{
  ℕ, ◌≤◌, ◌<◌, ◌≡◌, refl, inl, inr, [], arith, ltb, leb, leb→le, le_of_ltb-false, ltb→lt,
  Bool-cases, length, take_all,
}
use lean_string.Utf8.{Bytes, IsUtf8}
use lean_string.Utf8.Shape.{IsUtf8-nil}
use lean_string.LastByte.{max_inline_size}
use lean_string.Memory.{Heap, Allocator, Result, ok, err, reserve_error}
use lean_string.Memory.Ends.{Ends, returns, bind}
use lean_string.Memory.Counted.{Counted}
use lean_string.HeapBuffer.{Mutability, mutable}
use lean_string.HeapBuffer.Build.{with_capacity-Built}
use lean_string.StaticBuffer
use lean_string.Repr.{Repr, new, from_static_str, with_capacity}
use lean_string.Repr.Owns.{with_self, Content, in_inline, in_heap, in_static}
use lean_string.Repr.Queries.{capacity_of}
use lean_string.Repr.Room.{InInline-new}
use lean_string.Repr.Fresh.{New, inline-New, Built-New, empty-InInline}

-- A string that borrows the text and refers to no allocation, or the refusal of a text that is too
-- long.
pub data Borrowed (m : Mutability) (h : Heap) (text : Bytes) : Result Repr → Type 0 where
  borrowed :
      {r : Repr}
      → length text ≤ StaticBuffer.max_length
      → Content m h r text
      → ((refs : ℕ → ℕ) → with_self refs r ≡ refs)
      → Borrowed m h text (ok r)
  too_long : StaticBuffer.max_length < length text → Borrowed m h text (err reserve_error)

-- For a valid static text, `from_static_str` makes a sound string that holds the text, without
-- any allocation, or refuses the text, which is then longer than a length word can say.
pub from_static_str-Borrowed :
    (m : Mutability) (h : Heap) (text : Bytes)
    → IsUtf8 text
    → Borrowed m h text (from_static_str text)
unfolding from_static_str
from_static_str-Borrowed m h text u = elim (Bool-cases (leb (length text) max_inline_size)) [
  | inl small ↦
      let n = leb→le (length text) 16 small in
      rw small (borrowed (omega arith) (in_inline (InInline-new text u n)) (λ refs. refl))
  | inr large ↦ rw large (elim (Bool-cases (ltb StaticBuffer.max_length (length text))) [
    | inl long ↦
        unfold StaticBuffer.new in
        rw long (too_long (ltb→lt StaticBuffer.max_length (length text) long))
    | inr fits ↦
        let n = le_of_ltb-false StaticBuffer.max_length (length text) fits in
        rw (StaticBuffer.new_lem text n) (
          borrowed n
            (in_static (record {
              word = refl;
              begins = take_all (length text) text (omega arith);
              fits = omega arith;
              limit = n;
            }))
            (λ refs. refl))
  ])
]

-- A new empty string of its own, with room for `cap` bytes.
pub record Empty (refs : ℕ → ℕ) (h : Heap) (cap : ℕ) (r : Repr) (g : Heap) : Type 0 where
  pub fresh : New refs mutable h [] r g
  pub content : Content mutable g r []
  pub room : cap ≤ capacity_of content

-- Where all reference counts are right, `with_capacity` returns a sound empty string that
-- shares nothing and has at least the capacity, with everything that others refer to unchanged,
-- or fails and changes nothing.
pub with_capacity-Empty :
    ⦃A : Allocator⦄ {refs : ℕ → ℕ} {h : Heap} (cap : ℕ)
    → Counted refs h
    → Ends (Empty refs h cap) (λ g. g ≡ h) (with_capacity cap h)
unfolding with_capacity new
with_capacity-Empty cap k = elim (Bool-cases (leb cap max_inline_size)) [
  | inl small ↦ rw small (
      returns (record {
        fresh = inline-New k IsUtf8-nil empty-InInline;
        content = in_inline empty-InInline;
        room = leb→le cap 16 small;
      }))
  | inr large ↦ rw large (
      bind (with_capacity-Built k cap) λ b g e. returns (record {
        fresh = Built-New IsUtf8-nil e;
        content = in_heap e.holds;
        room = omega (arith, e.capacity);
      }))
]
