-- ===== src/Repr/AsciiCase/Mapped.antt =====
-- The ASCII case mappings give the mapped text, or share the string where nothing changes.
use mathlib.Core.List.{map, map-append}
use lean_string.Prelude.{
  ℕ, ◌+◌, ◌≤◌, ◌≡◌, refl, sym, ap, subst, ◌∙◌, inl, inr, Option, ◌++◌, arith, Bool-cases, length,
  take, drop, length-append, take_all,
}
use lean_string.Prelude.Splice.{splice, length-splice, take-splice_end}
use lean_string.Utf8.{Bytes, IsUtf8}
use lean_string.LastByte.{isize_max}
use lean_string.Memory.{Heap, Allocator, Outcome}
use lean_string.Memory.Ends.{Ends, returns, weaken}
use lean_string.Memory.Counted.{Same, Same-trans}
use lean_string.HeapBuffer.{Mutability, mutable}
use lean_string.Case.{Case, ascii_mapped}
use lean_string.Case.Ascii.{
  ascii_text, length-ascii_text, ascii_text-IsUtf8, Split, nothing_changes, split_at,
  split_at_first_ascii_change-Split,
}
use lean_string.Repr.{Repr, State, replace_inner}
use lean_string.Repr.Owns.{Content, with_self, Owns, Keeps}
use lean_string.Repr.Queries.{as_bytes_lem, len_lem, modifiable, is_modifiable_lem}
use lean_string.Repr.Place.{at_state}
use lean_string.Repr.Room.{Content-Same, Same-with_self, replace_inner-Replaced}
use lean_string.Repr.Grow.{bind_heap, fits_capacity}
use lean_string.Repr.Share.{Cloned, cloned, too_many, count_of, make_shallow_clone-Cloned}
use lean_string.Repr.Fresh.{New, replaced_by-New}
use lean_string.Repr.Fill.{Content-Ready, Ready-read}
use lean_string.Repr.Init.Filled.{new_with-New}
use lean_string.Repr.AsciiCase.{mapped_into, map_behind, to_ascii_case, make_ascii_case}
use lean_string.Repr.AsciiCase.Overwrite.{overwritten-Keeps}

-- Two parts written behind one another fill the slice.
two_parts :
    (s t dst : Bytes)
    → length dst ≡ length s + length t
    → splice (splice dst 0 s) (length s) t ≡ s ++ t
two_parts s t dst size =
    let once = splice dst 0 s in
    let len : length once ≡ length dst = length-splice dst 0 s (omega arith) in
    sym (
      take_all (length s + length t) (splice once (length s) t)
        (omega (arith, length-splice once (length s) t (omega arith))))
    ∙ take-splice_end once (length s) t (omega arith)
    ∙ ap (λ x. x ++ t)
        (ap (λ n. take n once) {y = 0 + length s} (omega arith)
          ∙ take-splice_end dst 0 s (omega arith))

-- The string that `to_ascii_case` returns: the same one, with one more reference, where nothing
-- changes, or a new one with the mapped text.
pub data Cased (refs : ℕ → ℕ) (m : Mutability) (h : Heap) (r : Repr) (text new : Bytes) (q : Repr)
    (g : Heap) : Type 0 where
  as_before :
      new ≡ text
      → q ≡ r
      → Owns (with_self refs r) m (at_state r g) text
      → Same (with_self refs r) h g
      → Cased refs m h r text new q g
  mapped : New (with_self refs r) m h new q g → Cased refs m h r text new q g

-- A clone whose count is not past the limit returns.
few_clones :
    {refs : ℕ → ℕ} {m : Mutability} {h : Heap} {r : Repr} {text new : Bytes}
    {out : Outcome Heap Repr}
    → Cloned refs m h r text out
    → count_of r h ≤ isize_max
    → new ≡ text
    → Ends (Cased refs m h r text new) (λ g. g ≡ h) out
few_clones (cloned o same) few e = returns (as_before e refl o same)
few_clones (too_many n o same) few e = absurd (omega arith)

module _ ⦃A : Allocator⦄ {refs : ℕ → ℕ} {m : Mutability} {h : Heap} {r : Repr} {text : Bytes}
    (o : Owns refs m (at_state r h) text) (few : count_of r h ≤ isize_max) (case : Case) where
  mapped_behind :
      {parts : Option (Bytes × Bytes)}
      → Split case text parts
      → Ends
          (Cased refs m h r text (ascii_text case text))
          (λ g. g ≡ h)
          (map_behind m case r text parts h)
  mapped_behind (nothing_changes same) = few_clones (make_shallow_clone-Cloned o) few same
  mapped_behind (split_at {unchanged} {changed} whole kept) =
      let e : unchanged ++ map (ascii_mapped case) changed ≡ ascii_text case text =
        ap (λ t. t ++ map (ascii_mapped case) changed) (sym kept)
        ∙ sym (map-append (ascii_mapped case) unchanged changed)
        ∙ ap (ascii_text case) whole in
      let n = length-ascii_text case text in
      let size = length-append unchanged (map (ascii_mapped case) changed) in
      rw (sym n) (
        weaken
          (new_with-New m (ascii_text case text) (mapped_into case unchanged changed) o.counted
            (ascii_text-IsUtf8 case o.valid)
            (λ dst d.
              two_parts unchanged (map (ascii_mapped case) changed) dst
                (omega (arith, d, size, ap length e))
              ∙ e))
          (λ q g new. mapped new) (λ g x. x))

  -- On a sound string whose count is not past `isize::MAX`, `to_ascii_case` returns a new sound
  -- string with the ASCII letters of the text in the case, or, only if that is the text itself,
  -- the same string with one more reference; everything that others refer to is unchanged. Or
  -- it fails and changes nothing.
  pub to_ascii_case-Cased :
      Ends (Cased refs m h r text (ascii_text case text)) (λ g. g ≡ h) (to_ascii_case m case r h)
  unfolding to_ascii_case
  to_ascii_case-Cased =
      rw (as_bytes_lem o.content) (mapped_behind (split_at_first_ascii_change-Split case text))

-- The string that is returned takes the place of the old one.
replaced_by-Cased :
    {refs : ℕ → ℕ} {h g : Heap} {r q : Repr} {text new : Bytes} {E : State → Type 0}
    → Owns refs mutable (at_state r h) text
    → Cased refs mutable h r text new q g
    → Ends (λ _ s. Keeps refs mutable h new s) E (replace_inner mutable q (at_state r g))
replaced_by-Cased {refs} {h} {g} {r} {q} {text} {new} {E} o (as_before e same_repr own same) =
    subst (λ x. Ends (λ _ s. Keeps refs mutable h new s) E (replace_inner mutable x (at_state r g)))
      (sym same_repr)
      (weaken (replace_inner-Replaced {refs = with_self refs r} {E = E} r own.content own.counted)
        (λ _ s x. subst (Keeps refs mutable h new) (sym x.state) (record {
          owns = record {
            valid = subst IsUtf8 (sym e) o.valid;
            content =
                subst (Content mutable x.after r) (sym e) (Content-Same refs own.content x.same);
            counted = x.counted;
          };
          same = Same-trans (Same-with_self refs r same) (Same-with_self refs r x.same);
        }))
        (λ s x. x))
replaced_by-Cased o (mapped fresh) =
    weaken (replaced_by-New o.content fresh) (λ _ s k. k.0) (λ s x. x)

module _ ⦃A : Allocator⦄ {refs : ℕ → ℕ} {s : State} {text : Bytes}
    (o : Owns refs mutable s text) where
  -- On a sound string whose count is not past `isize::MAX`, `make_ascii_case` returns with the
  -- ASCII letters of the text in the case, the string sound and everything that others refer to
  -- unchanged, or fails and changes nothing.
  pub make_ascii_case-maps :
      (case : Case)
      → count_of s.self s.heap ≤ isize_max
      → Ends
          (λ _ t. Keeps refs mutable s.heap (ascii_text case text) t)
          (λ t. t ≡ s)
          (make_ascii_case case s)
  unfolding make_ascii_case
  make_ascii_case-maps case few = elim (Bool-cases (modifiable s.self s.heap)) [
    | inl own ↦
        let ready = Content-Ready o.content o.counted own in
        let all : take (length text) (drop 0 text) ≡ text =
          take_all (length text) text (omega arith) in
        rw
          (
            is_modifiable_lem o.content,
            own,
            len_lem o.content,
            Ready-read 0 (length text) ready (omega arith) (fits_capacity o.content),
            all,
          )
          (overwritten-Keeps (ascii_text case text) o.content o.counted own
            (ascii_text-IsUtf8 case o.valid) (length-ascii_text case text))
    | inr shared ↦
        rw (is_modifiable_lem o.content, shared)
          (bind_heap (λ q. replace_inner mutable q) s.self (to_ascii_case-Cased o few case)
            (λ q g c. replaced_by-Cased o c) (λ g e. ap (at_state s.self) e))
  ]
