-- ===== src/Repr/Fresh.antt =====
-- New strings: `from_str`, `with_capacity`, `from_static_str`, and a new string in place of an old one.
use lean_string.Prelude.{
  ℕ, ◌≡◌, refl, sym, ap, subst, inl, inr, true, [], arith, leb, leb→le, Bool-cases, length,
}
use lean_string.Utf8.{Bytes, IsUtf8}
use lean_string.LastByte.{max_inline_size}
use lean_string.Memory.{Heap, Allocator}
use lean_string.Memory.Ends.{Ends, returns, bind, weaken}
use lean_string.Memory.Counted.{Counted, Same, Same-refl, Same-trans}
use lean_string.HeapBuffer.{HeapBuffer, Mutability, mutable}
use lean_string.HeapBuffer.Build.{Built, new-Built}
use lean_string.InlineBuffer
use lean_string.InlineBuffer.{InlineBuffer}
use lean_string.Repr.{Repr, inline, heap, static, State, from_str, replace_inner}
use lean_string.Repr.Edit.{ensure_modifiable}
use lean_string.Repr.Owns.{InInline, Content, in_inline, in_heap, with_self, Owns, Keeps}
use lean_string.Repr.Queries.{modifiable, is_modifiable_lem, as_bytes_lem}
use lean_string.Repr.Place.{at_state}
use lean_string.Repr.Room.{
  Content-Same, InInline-new, Counted-ext, Same-with_self, with_self-le, replace_inner-Replaced,
  count_is_one,
}
use lean_string.Repr.Grow.{bind_heap}

-- No other reference leads to the string's buffer.
abbrev pub Alone : (ℕ → ℕ) → Repr → Type 0
Alone refs (inline buffer) = Unit {0}
Alone refs (heap b) = refs b.ptr ≡ 0
Alone refs (static s) = ⊥

-- A new string beside those that `refs` counts.
pub record New (refs : ℕ → ℕ) (m : Mutability) (h : Heap) (text : Bytes) (r : Repr) (g : Heap)
    : Type 0 where
  pub owns : Owns refs m (at_state r g) text
  pub same : Same refs h g
  pub alone : Alone refs r

pub Built-New :
    {refs : ℕ → ℕ} {m : Mutability} {h g : Heap} {text : Bytes} {cap : ℕ} {b : HeapBuffer}
    → IsUtf8 text
    → Built refs m h text cap b g
    → New refs m h text (heap b) g
Built-New u e = record {
  owns = record { valid = u; content = in_heap e.holds; counted = e.counted };
  same = e.same;
  alone = e.alone;
}

pub inline-New :
    {refs : ℕ → ℕ} {m : Mutability} {h : Heap} {buffer text : Bytes}
    → Counted refs h
    → IsUtf8 text
    → InInline buffer text
    → New refs m h text (inline buffer) h
inline-New {refs} {h} k u c = record {
  owns = record { valid = u; content = in_inline c; counted = k };
  same = Same-refl refs h;
  alone = tt;
}

pub empty-InInline : InInline InlineBuffer.empty []
unfolding InlineBuffer.empty
empty-InInline = record {
  size = refl;
  fits = omega arith;
  begins = refl;
  short = λ lt. refl;
  full = λ e. absurd (omega arith);
}

module _ ⦃A : Allocator⦄ {refs : ℕ → ℕ} {h : Heap} (k : Counted refs h) where
  -- Where all reference counts are right, `from_str` of a valid text returns a sound string
  -- that holds the text and shares nothing, with everything that others refer to unchanged, or
  -- fails and changes nothing.
  pub from_str-New :
      (m : Mutability) (text : Bytes)
      → IsUtf8 text
      → Ends (New refs m h text) (λ g. g ≡ h) (from_str m text h)
  unfolding from_str
  from_str-New m text u = elim (Bool-cases (leb (length text) max_inline_size)) [
    | inl small ↦
        rw small (returns (inline-New k u (InInline-new text u (leb→le (length text) 16 small))))
    | inr large ↦ rw large (bind (new-Built k m text) λ b g e. returns (Built-New u e))
  ]

-- A string that `replace_inner` puts in place of the old one.
abbrev pub Own : (ℕ → ℕ) → Heap → Bytes → State → Type 0
Own refs h text s = Keeps refs mutable h text s × (modifiable s.self s.heap ≡ true)

pub with_self-swap :
    (refs : ℕ → ℕ) (r q : Repr) (a : ℕ)
    → with_self (with_self refs r) q a ≡ with_self (with_self refs q) r a
with_self-swap refs (inline b) (inline c) a = refl
with_self-swap refs (inline b) (heap c) a = refl
with_self-swap refs (inline b) (static c) a = refl
with_self-swap refs (heap b) (inline c) a = refl
with_self-swap refs (heap b) (heap c) a = omega arith
with_self-swap refs (heap b) (static c) a = refl
with_self-swap refs (static b) (inline c) a = refl
with_self-swap refs (static b) (heap c) a = refl
with_self-swap refs (static b) (static c) a = refl

pub Alone-with_self : (refs : ℕ → ℕ) (r q : Repr) → Alone (with_self refs r) q → Alone refs q
Alone-with_self refs r (inline c) e = tt
Alone-with_self refs r (heap c) e = omega (arith, with_self-le refs r c.ptr)
Alone-with_self refs r (static c) e = e

pub Alone-modifiable :
    (refs : ℕ → ℕ) (q : Repr) {h : Heap}
    → Counted (with_self refs q) h
    → Alone refs q
    → modifiable q h ≡ true
Alone-modifiable refs (inline c) k e = refl
Alone-modifiable refs (heap c) k e = count_is_one refs c.ptr k e
Alone-modifiable refs (static c) k e = absurd e

module _ {refs : ℕ → ℕ} {h g : Heap} {r q : Repr} {old text : Bytes} {E : State → Type 0} where
  pub replaced_by-New :
      Content mutable h r old
      → New (with_self refs r) mutable h text q g
      → Ends (λ _ s. Own refs h text s) E (replace_inner mutable q (at_state r g))
  replaced_by-New c n =
      weaken
        (replace_inner-Replaced {refs = with_self refs q} {E = E} q (Content-Same refs c n.same)
          (Counted-ext (with_self-swap refs r q) n.owns.counted))
        (λ _ s e. subst (Own refs h text) (sym e.state) (
          record {
            owns = record {
              valid = n.owns.valid;
              content = Content-Same refs n.owns.content e.same;
              counted = e.counted;
            };
            same = Same-trans (Same-with_self refs r n.same) (Same-with_self refs q e.same);
          },
          Alone-modifiable refs q e.counted (Alone-with_self refs r q n.alone),
        ))
        (λ s e. e)

module _ ⦃A : Allocator⦄ {refs : ℕ → ℕ} {s : State} {text : Bytes}
    (o : Owns refs mutable s text) where
  -- On a sound string, `ensure_modifiable` returns with the same text in a buffer that the
  -- string may write to, the string sound and everything that others refer to unchanged, or
  -- fails and changes nothing.
  pub ensure_modifiable-Own :
      Ends (λ _ t. Own refs s.heap text t) (λ t. t ≡ s) (ensure_modifiable s)
  unfolding ensure_modifiable
  ensure_modifiable-Own = elim (Bool-cases (modifiable s.self s.heap)) [
    | inl own ↦
        rw (is_modifiable_lem o.content, own)
          (returns (record { owns = o; same = Same-refl refs s.heap }, own))
    | inr shared ↦
        rw (is_modifiable_lem o.content, shared, as_bytes_lem o.content)
          (bind_heap (λ q. replace_inner mutable q) s.self
            (from_str-New o.counted mutable text o.valid) (λ q g n. replaced_by-New o.content n)
            (λ g e. ap (at_state s.self) e))
  ]
