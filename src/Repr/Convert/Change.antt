-- ===== src/Repr/Convert/Change.antt =====
-- The conversions keep the text, or give the string back as it was.
use lean_string.Prelude.{ℕ, ◌≤◌, ◌≡◌, refl, inl, inr, arith, leb, leb→le, ◌==◌, Bool-cases, length}
use lean_string.Utf8.{Bytes, IsUtf8}
use lean_string.LastByte.{max_inline_size}
use lean_string.Memory.{Heap, Allocator, Outcome, M, pure, ◌>>◌}
use lean_string.Memory.Ends.{Ends, returns, fails}
use lean_string.Memory.Counted.{
  count_in, plus, Counted, Same, one_at_self, Same-plus, Same-refl, Same-trans,
}
use lean_string.HeapBuffer.{HeapBuffer, Mutability, mutable, immutable, release}
use lean_string.HeapBuffer.Holds.{Holds, Holds-look, as_str_lem, is_unique_lem}
use lean_string.HeapBuffer.Build.{Built}
use lean_string.HeapBuffer.Release.{release-Released}
use lean_string.HeapBuffer.Convert.Change.{into_exact-Built, into_growable-Built}
use lean_string.InlineBuffer
use lean_string.Repr.{Repr, inline, heap}
use lean_string.Repr.Owns.{Content, in_inline, in_heap, in_static, with_self, Owns}
use lean_string.Repr.Queries.{inline_not_heap, static_not_heap, heap_is_heap}
use lean_string.Repr.Place.{at_state}
use lean_string.Repr.Room.{Content-Same, InInline-new, Counted-ext, Same-with_self}
use lean_string.Repr.Grow.{alone_of_unique}
use lean_string.Repr.Fresh.{from_str-New, with_self-swap}
use lean_string.Repr.Convert.{
  Conversion, converted, kept, matched, copy_shared, into_immutable, into_mutable,
}

-- What a conversion gives: the text in a sound string of the other kind, the reference of the old one
-- being gone, or the old string in the heap as it was.
pub data Converted (refs : ℕ → ℕ) (m : Mutability) (h : Heap) (r : Repr) (text : Bytes)
    : Conversion → Heap → Type 0 where
  changed :
      {q : Repr} {g : Heap}
      → Owns refs m (at_state q g) text
      → Same refs h g
      → Converted refs m h r text (converted q) g
  unchanged : {q : Repr} {g : Heap} → q ≡ r → g ≡ h → Converted refs m h r text (kept q) g

-- No call that is converted fails.
abbrev pub Never : Heap → Type 0
Never g = ⊥

module _ {A B : Type 0} {P : A → Heap → Type 0} {D E : Heap → Type 0} {Q : B → Heap → Type 0} where
  match_on :
      {o : Outcome Heap A} {good : A → M Heap B} {bad : M Heap B}
      → Ends P D o
      → ((a : A) (g : Heap) → P a g → Ends Q E (good a g))
      → ((g : Heap) → D g → Ends Q E (bad g))
      → Ends Q E (matched o good bad)
  match_on (returns p) next other = next _ _ p
  match_on (fails e) next other = other _ e

module _ {refs : ℕ → ℕ} {m' : Mutability} {h : Heap} {b : HeapBuffer} {text : Bytes}
    (u : IsUtf8 text) where
  -- A buffer in the place of one that nothing else refers to.
  exchanged :
      {o : Outcome Heap HeapBuffer}
      → Ends (Built refs m' h text (length text)) (λ g. g ≡ h) o
      → Ends
          (Converted refs m' h (heap b) text)
          Never
          (matched o (λ next. pure (converted (heap next))) (pure (kept (heap b))))
  exchanged e =
      match_on e
        (λ q g n.
          returns
            (changed (record { valid = u; content = in_heap n.holds; counted = n.counted }) n.same))
        (λ g same. returns (unchanged refl same))

module _ ⦃A : Allocator⦄ {refs : ℕ → ℕ} {m : Mutability} {h : Heap} {b : HeapBuffer} {text : Bytes}
    (u : IsUtf8 text) (c : Holds m h b text) (k : Counted (plus refs b.ptr) h) where
  -- The reference of the old string goes when the new one is complete.
  copied : (m' : Mutability) → Ends (Converted refs m' h (heap b) text) Never (copy_shared m m' b h)
  copied m' = rw (as_str_lem c) (
      match_on (from_str-New k m' text u)
        (λ q g n.
          let old = Holds-look c g (n.same.looks b.ptr (omega (arith, one_at_self b.ptr))) in
          let gone =
            release-Released (with_self refs q)
              (Counted-ext (with_self-swap refs (heap b) q) n.owns.counted) old in
          rw gone.ends (
            returns (
              changed
                (record {
                  valid = u;
                  content = Content-Same refs n.owns.content gone.same;
                  counted = gone.counted;
                })
                (Same-trans (Same-plus refs b.ptr n.same) (Same-with_self refs q gone.same)))))
        (λ g same. returns (unchanged refl same)))

-- A string without an allocation is of both kinds.
unboxed :
    {refs : ℕ → ℕ} {m' : Mutability} {h : Heap} {r : Repr} {text : Bytes}
    → IsUtf8 text
    → Content m' h r text
    → Counted (with_self refs r) h
    → Converted refs m' h r text (converted r) h
unboxed {refs} {h} u c k =
    changed (record { valid = u; content = c; counted = k }) (Same-refl refs h)

module _ ⦃A : Allocator⦄ {refs : ℕ → ℕ} {h : Heap} {b : HeapBuffer} {text : Bytes}
    (u : IsUtf8 text) where
  -- A short text leaves its allocation.
  inlined :
      Holds mutable h b text
      → Counted (plus refs b.ptr) h
      → length text ≤ 16
      → Ends
          (Converted refs immutable h (heap b) text)
          Never
          ((release mutable b >> pure (converted (inline (InlineBuffer.new text)))) h)
  inlined c k fits =
      let gone = release-Released refs k c in
      rw gone.ends (
        returns (
          changed
            (record {
              valid = u;
              content = in_inline (InInline-new text u fits);
              counted = gone.counted;
            })
            gone.same))

module _ ⦃A : Allocator⦄ where
  converts_to_immutable :
      {refs : ℕ → ℕ} {h : Heap} {r : Repr} {text : Bytes}
      → IsUtf8 text
      → Content mutable h r text
      → Counted (with_self refs r) h
      → Ends (Converted refs immutable h r text) Never (into_immutable r h)
  unfolding into_immutable
  converts_to_immutable u (in_inline c) k =
      rw (inline_not_heap c) (returns (unboxed u (in_inline c) k))
  converts_to_immutable u (in_static c) k =
      rw (static_not_heap c) (returns (unboxed u (in_static c) k))
  converts_to_immutable {refs} {h} u (in_heap {b} {text} c) k =
      rw (heap_is_heap c, as_str_lem c, is_unique_lem c)
        (elim (Bool-cases (count_in (h b.ptr) == 1)) [
          | inl own ↦ rw own (elim (Bool-cases (leb (length text) max_inline_size)) [
            | inl small ↦ rw small (inlined u c k (leb→le (length text) 16 small))
            | inr large ↦
                rw large
                  (exchanged u (into_exact-Built refs c k (alone_of_unique refs b.ptr k own)))
          ])
          | inr shared ↦ rw shared (copied u c k immutable)
        ])

  converts_to_mutable :
      {refs : ℕ → ℕ} {h : Heap} {r : Repr} {text : Bytes}
      → IsUtf8 text
      → Content immutable h r text
      → Counted (with_self refs r) h
      → Ends (Converted refs mutable h r text) Never (into_mutable r h)
  unfolding into_mutable
  converts_to_mutable u (in_inline c) k =
      rw (inline_not_heap c) (returns (unboxed u (in_inline c) k))
  converts_to_mutable u (in_static c) k =
      rw (static_not_heap c) (returns (unboxed u (in_static c) k))
  converts_to_mutable {refs} {h} u (in_heap {b} {text} c) k =
      rw (heap_is_heap c, is_unique_lem c)
        (elim (Bool-cases (count_in (h b.ptr) == 1)) [
          | inl own ↦
              rw own (exchanged u (into_growable-Built refs c k (alone_of_unique refs b.ptr k own)))
          | inr shared ↦ rw shared (copied u c k mutable)
        ])

  module _ {refs : ℕ → ℕ} {h : Heap} {r : Repr} {text : Bytes} where
    -- On a sound mutable string, `into_immutable` returns: the string converted, sound and with the
    -- same text, everything that others refer to unchanged, or the string and the heap as they were.
    pub into_immutable-Converted :
        Owns refs mutable (at_state r h) text
        → Ends (Converted refs immutable h r text) Never (into_immutable r h)
    into_immutable-Converted o = converts_to_immutable o.valid o.content o.counted

    -- On a sound immutable string, `into_mutable` returns: the string converted, sound and with the
    -- same text, everything that others refer to unchanged, or the string and the heap as they were.
    pub into_mutable-Converted :
        Owns refs immutable (at_state r h) text
        → Ends (Converted refs mutable h r text) Never (into_mutable r h)
    into_mutable-Converted o = converts_to_mutable o.valid o.content o.counted
