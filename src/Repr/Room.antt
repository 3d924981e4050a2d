-- ===== src/Repr/Room.antt =====
-- Growing: a string that can be written to and has room, with the same text.
use lean_string.Prelude.{
  ℕ, ◌+◌, ◌-◌, ◌≤◌, ◌<◌, ◌≡◌, refl, sym, ap, subst, ◌∙◌, inl, inr, true, [], ◌∷◌, ◌++◌, arith, ◌==◌,
  ==_iff, Bool-cases, length, take_all, get_or, replicate, length-replicate, length-append,
  take-append_le,
}
use lean_string.Prelude.Splice.{get_or-append}
use lean_string.Utf8.{Bytes, IsUtf8}
use lean_string.Utf8.Shape.{IsUtf8-EndsBelow, IsUtf8-bytes, EndsBelow-last}
use lean_string.Memory.{Heap}
use lean_string.Memory.Ends.{Ends, returns, weaken}
use lean_string.Memory.Counted.{
  count_in, plus, one_at_self, Counted, Same, Same-refl, Same-trans, Same-plus,
}
use lean_string.HeapBuffer.{HeapBuffer, Mutability, mutable}
use lean_string.HeapBuffer.Holds.{Holds, Holds-look}
use lean_string.HeapBuffer.Release.{release-Released}
use lean_string.HeapBuffer.Build.{Built}
use lean_string.InlineBuffer
use lean_string.InlineBuffer.Shape.{pad}
use lean_string.InlineBuffer.New.{new-pad}
use lean_string.Repr.{Repr, inline, heap, static, State, replace_inner, drop_in}
use lean_string.Repr.Owns.{InInline, Content, in_inline, in_heap, in_static, with_self, Keeps}
use lean_string.Repr.Queries.{
  inline_not_heap, static_not_heap, heap_is_heap, modifiable, capacity_of,
}
use lean_string.Repr.Place.{at_state}

-- A string looks the same in a heap that is the same for its own reference.
pub Content-Same :
    {m : Mutability} (refs : ℕ → ℕ) {h g : Heap} {r : Repr} {text : Bytes}
    → Content m h r text
    → Same (with_self refs r) h g
    → Content m g r text
Content-Same refs (in_inline c) s = in_inline c
Content-Same refs {g} (in_heap {b} c) s =
    in_heap (Holds-look c g (s.looks b.ptr (omega (arith, one_at_self b.ptr))))
Content-Same refs (in_static c) s = in_static c

-- `replace_inner` gives up the old reference and keeps all others, that of the new string included.
pub record Replaced (refs : ℕ → ℕ) (h : Heap) (other : Repr) (s : State) : Type 0 where
  pub after : Heap
  pub state : s ≡ at_state other after
  pub counted : Counted refs after
  pub same : Same refs h after

module _ {refs : ℕ → ℕ} {h : Heap} {E : Heap → Type 0} where
  pub drop_in-Counted :
      {m : Mutability} {r : Repr} {text : Bytes}
      → Content m h r text
      → Counted (with_self refs r) h
      → Ends (λ _ g. Counted refs g × Same refs h g) E (drop_in m r h)
  unfolding drop_in
  drop_in-Counted (in_inline c) k = rw (inline_not_heap c) (returns (k, Same-refl refs h))
  drop_in-Counted (in_heap c) k =
      let gone = release-Released refs k c in
      rw (heap_is_heap c, gone.ends) (returns (gone.counted, gone.same))
  drop_in-Counted (in_static c) k = rw (static_not_heap c) (returns (k, Same-refl refs h))

pub InInline-pad : (text : Bytes) → IsUtf8 text → length text ≤ 16 → InInline (pad text) text
unfolding pad
InInline-pad text u fits = elim (Bool-cases (length text == 16)) [
  | inl full ↦
      let n : length text ≡ 16 = (==_iff (length text) 16).0 full in
      rw full (record {
        size = n;
        fits = fits;
        begins = take_all (length text) text (omega arith);
        short = λ lt. absurd (omega arith);
        full = λ e. EndsBelow-last text 15 (IsUtf8-EndsBelow u) e;
      })
  | inr part ↦
      let k = 15 - length text in
      let last : Bytes = (length text + 0xC0) ∷ [] in
      let zeros : Bytes = replicate k 0 in
      let lt : length text < 16 = ground arith in
      let n : length zeros ≡ k = length-replicate k 0 in
      rw part (record {
        size = omega (arith, length-append text (zeros ++ last), length-append zeros last, n);
        fits = fits;
        begins =
            take-append_le (length text) text (zeros ++ last) (omega arith)
            ∙ take_all (length text) text (omega arith);
        short = λ _.
            ap (λ i. get_or (text ++ (zeros ++ last)) i 0) {y = length text + (length zeros + 0)}
              (omega (arith, n))
            ∙ get_or-append text (zeros ++ last) (length zeros + 0) 0
            ∙ get_or-append zeros last 0 0;
        full = λ e. absurd (omega arith);
      })
]

-- The inline buffer that `InlineBuffer::new` builds holds its text.
pub InInline-new :
    (text : Bytes) → IsUtf8 text → length text ≤ 16 → InInline (InlineBuffer.new text) text
InInline-new text u fits =
    subst (λ b. InInline b text) (sym (new-pad text (IsUtf8-bytes u) fits))
      (InInline-pad text u fits)

module _ {refs : ℕ → ℕ} {h : Heap} {E : State → Type 0} where
  pub replace_inner-Replaced :
      {m : Mutability} {r : Repr} {text : Bytes} (other : Repr)
      → Content m h r text
      → Counted (with_self refs r) h
      → Ends (λ _ s. Replaced refs h other s) E (replace_inner m other (at_state r h))
  unfolding replace_inner drop_in
  replace_inner-Replaced other (in_inline c) k =
      rw (inline_not_heap c)
        (returns (record { after = h; state = refl; counted = k; same = Same-refl refs h }))
  replace_inner-Replaced other (in_heap c) k =
      let gone = release-Released refs k c in
      rw (heap_is_heap c, gone.ends)
        (returns
          (record { after = gone.after; state = refl; counted = gone.counted; same = gone.same }))
  replace_inner-Replaced other (in_static c) k =
      rw (static_not_heap c)
        (returns (record { after = h; state = refl; counted = k; same = Same-refl refs h }))

-- The string has room for `cap` bytes, may be written to, and holds the text.
pub record Roomy (refs : ℕ → ℕ) (h : Heap) (text : Bytes) (cap : ℕ) (s : State) : Type 0 where
  pub keeps : Keeps refs mutable h text s
  pub writable : modifiable s.self s.heap ≡ true
  pub content : Content mutable s.heap s.self text
  pub room : cap ≤ capacity_of content

pub Counted-ext : {f g : ℕ → ℕ} {h : Heap} → ((a : ℕ) → f a ≡ g a) → Counted f h → Counted g h
Counted-ext e k = record {
  counts = λ a. k.counts a ∙ e a;
  bounded = λ a. omega (arith, k.bounded a, e a);
  no_leak = λ a z. k.no_leak a (e a ∙ z);
}

Same-ext : {f g : ℕ → ℕ} {h k : Heap} → ((a : ℕ) → f a ≡ g a) → Same f h k → Same g h k
Same-ext e s = record { looks = λ a r. s.looks a (omega (arith, e a)) }

-- References counted in another order.
with_self-plus :
    (refs : ℕ → ℕ) (r : Repr) (p a : ℕ) → plus (with_self refs r) p a ≡ with_self (plus refs p) r a
with_self-plus refs (inline b) p a = refl
with_self-plus refs (heap b) p a = omega arith
with_self-plus refs (static b) p a = refl

pub with_self-le : (refs : ℕ → ℕ) (r : Repr) (a : ℕ) → refs a ≤ with_self refs r a
with_self-le refs (inline b) a = omega arith
with_self-le refs (heap b) a = omega arith
with_self-le refs (static b) a = omega arith

pub Same-with_self :
    (refs : ℕ → ℕ) (r : Repr) {h g : Heap} → Same (with_self refs r) h g → Same refs h g
Same-with_self refs (inline b) s = s
Same-with_self refs (heap b) s = Same-plus refs b.ptr s
Same-with_self refs (static b) s = s

pub count_is_one :
    (refs : ℕ → ℕ) {h : Heap} (p : ℕ)
    → Counted (plus refs p) h
    → refs p ≡ 0
    → (count_in (h p) == 1) ≡ true
count_is_one refs p k only = ground (arith, k.counts p)

pub Roomy-heap :
    {refs : ℕ → ℕ} {h g : Heap} {b : HeapBuffer} {text : Bytes}
    → IsUtf8 text
    → (o : Holds mutable g b text) → Counted (plus refs b.ptr) g
    → refs b.ptr ≡ 0
    → Same refs h g
    → Roomy refs h text o.cap (at_state (heap b) g)
Roomy-heap {refs} {b} u o k only same = record {
  keeps = record { owns = record { valid = u; content = in_heap o; counted = k }; same = same };
  writable = count_is_one refs b.ptr k only;
  content = in_heap o;
  room = omega arith;
}

pub Roomy-inline :
    {refs : ℕ → ℕ} {h g : Heap} {buffer text : Bytes} (cap : ℕ)
    → IsUtf8 text
    → InInline buffer text
    → Counted refs g
    → Same refs h g
    → cap ≤ 16
    → Roomy refs h text cap (at_state (inline buffer) g)
Roomy-inline cap u c k same fits = record {
  keeps = record { owns = record { valid = u; content = in_inline c; counted = k }; same = same };
  writable = refl;
  content = in_inline c;
  room = fits;
}

-- A new buffer in place of the old string.
module _ {refs : ℕ → ℕ} {h : Heap} {E : State → Type 0} where
  pub replaced_by_heap :
      {r : Repr} {old text : Bytes} {cap : ℕ} (b : HeapBuffer) (g : Heap)
      → IsUtf8 text
      → Content mutable h r old
      → Built (with_self refs r) mutable h text cap b g
      → Ends (λ _ s. Roomy refs h text cap s) E (replace_inner mutable (heap b) (at_state r g))
  unfolding Holds-look
  replaced_by_heap {r} {text} {cap} b g u c e =
      let all = plus refs b.ptr in
      let only : refs b.ptr ≡ 0 = omega (arith, with_self-le refs r b.ptr, e.alone) in
      weaken
        (replace_inner-Replaced {refs = all} {h = g} {E = E} (heap b) (Content-Same refs c e.same)
          (Counted-ext (with_self-plus refs r b.ptr) e.counted))
        (λ _ s q.
          let o =
            Holds-look e.holds q.after (q.same.looks b.ptr (omega (arith, one_at_self b.ptr))) in
          let same = Same-trans (Same-with_self refs r e.same) (Same-plus refs b.ptr q.same) in
          subst (Roomy refs h text cap) (sym q.state) (
            subst (λ n. Roomy refs h text n (at_state (heap b) q.after)) e.capacity
              (Roomy-heap u o q.counted only same)))
        (λ s x. x)

  pub replaced_by_inline :
      {r : Repr} {text : Bytes} (cap : ℕ)
      → IsUtf8 text
      → Content mutable h r text
      → Counted (with_self refs r) h
      → length text ≤ 16
      → cap ≤ 16
      → Ends
          (λ _ s. Roomy refs h text cap s)
          E
          (replace_inner mutable (inline (InlineBuffer.new text)) (at_state r h))
  replaced_by_inline {text} cap u c k fits small =
      weaken (replace_inner-Replaced (inline (InlineBuffer.new text)) c k)
        (λ _ s q.
          subst (Roomy refs h text cap) (sym q.state)
            (Roomy-inline cap u (InInline-new text u fits) q.counted q.same small))
        (λ s x. x)
