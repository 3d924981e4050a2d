-- ===== src/LeanString/Collect/Collected.antt =====
-- What `FromIterator` and `Add` return: the texts of the iterator in a row.
use lean_string.Prelude.{ℕ, ◌≡◌, sym, subst, List, [], ◌++◌, All}
use lean_string.Utf8.{Bytes, IsScalar, IsUtf8, encode}
use lean_string.Utf8.Chars.{joined, encode-joined}
use lean_string.Memory.{Heap, Allocator, Outcome, panic, and_then}
use lean_string.Memory.Ends.{Ends, returns, fails}
use lean_string.Memory.Counted.{Counted, Same, Same-refl, Same-trans}
use lean_string.HeapBuffer.{mutable, immutable}
use lean_string.Repr.{Repr, State}
use lean_string.Repr.Owns.{Owns, Keeps}
use lean_string.Repr.Place.{at_state}
use lean_string.Repr.Room.{drop_in-Counted}
use lean_string.Repr.Literal.{Empty, with_capacity-Empty}
use lean_string.LeanString.{drop_string, unwrap_with_msg}
use lean_string.LeanString.Make
use lean_string.LeanString.Make.{try_with_capacity}
use lean_string.LeanString.Convert.{into_lean_str, try_into_lean_str-Moved}
use lean_string.LeanString.Beside.{new-Owns, Beside, made, out_of_memory, Moved-Beside}
use lean_string.LeanString.Collect.{
  or_default, collected, push_each, from_chars, from_strs, str_from_chars, str_from_strs, on,
}
use lean_string.LeanString.Collect.Extended.{
  Extended, extended, interrupted, push_each-Extended, extend_strs-Extended,
}

-- The local string is dropped by a panic.
drop_buf :
    {refs : ℕ → ℕ} {h : Heap} {text new : Bytes} {s : State}
    → Keeps refs mutable h text s
    → Beside refs mutable h new (and_then (drop_string s.self s.heap) (λ _. panic))
unfolding drop_string
drop_buf {refs} {h} {new} {s} k = after (drop_in-Counted {E = λ _. ⊥} k.owns.content k.owns.counted)
  where
    after :
        {o : Outcome Heap (Unit {0})}
        → Ends (λ _ g. Counted refs g × Same refs s.heap g) (λ _. ⊥) o
        → Beside refs mutable h new (and_then o (λ _. panic))
    after (returns p) = out_of_memory p.0 (Same-trans k.same p.1)
    after (fails e) = absurd e

pub collected-Beside :
    {refs : ℕ → ℕ} {h : Heap} {text : Bytes} {pieces : List Bytes} {o : Outcome State (Unit {0})}
    → Extended refs h text pieces o
    → Beside refs mutable h (text ++ joined pieces) (collected o)
collected-Beside (extended k) = made k.owns k.same
collected-Beside (interrupted before piece after e k) = drop_buf k

-- The conversion to a `LeanStr` of a string that is returned.
to_str :
    ⦃A : Allocator⦄ {refs : ℕ → ℕ} {h : Heap} {text : Bytes} {o : Outcome Heap Repr}
    → Beside refs mutable h text o
    → Beside refs immutable h text (and_then o into_lean_str)
unfolding into_lean_str unwrap_with_msg
to_str (made own same) = Moved-Beside same (try_into_lean_str-Moved own)
to_str (out_of_memory k same) = out_of_memory k same

module _ ⦃A : Allocator⦄ {refs : ℕ → ℕ} {h : Heap} (k : Counted refs h) where
  pushed_on :
      (q : Repr) (g : Heap) (cs : List ℕ)
      → All IsScalar cs
      → Owns refs mutable (at_state q g) []
      → Same refs h g
      → Beside refs mutable h (encode cs) (on q (push_each cs) g)
  pushed_on q g cs sc own same =
      subst (λ t. Beside refs mutable h t (on q (push_each cs) g)) (encode-joined cs)
        (collected-Beside
          (push_each-Extended cs [] (at_state q g) sc (record { owns = own; same = same })))

  -- Where all reference counts are right and for scalar values, whatever bound `size_hint`
  -- gives, `from_iter` returns a sound string of exactly these chars, or panics and leaves no
  -- reference behind; everything that others refer to is unchanged.
  pub from_chars-Beside :
      (lower_bound : ℕ) (cs : List ℕ)
      → All IsScalar cs
      → Beside refs mutable h (encode cs) (from_chars lower_bound cs h)
  unfolding from_chars try_with_capacity
  from_chars-Beside lower_bound cs sc = buffered (with_capacity-Empty lower_bound k)
    where
      buffered :
          {o : Outcome Heap Repr}
          → Ends (Empty refs h lower_bound) (λ g. g ≡ h) o
          → Beside refs mutable h
              (encode cs)
              (and_then (or_default o) (λ buf. on buf (push_each cs)))
      buffered (returns e) = pushed_on _ _ cs sc e.fresh.owns e.fresh.same
      buffered (fails e) =
          subst (λ g. Beside refs mutable h (encode cs) (on Make.new (push_each cs) g)) (sym e)
            (pushed_on Make.new h cs sc (new-Owns k) (Same-refl refs h))

  -- The same for valid texts in a row.
  pub from_strs-Beside :
      (ss : List Bytes) → All IsUtf8 ss → Beside refs mutable h (joined ss) (from_strs ss h)
  unfolding from_strs
  from_strs-Beside ss v = collected-Beside (extend_strs-Extended (new-Owns k) ss v)

  -- The same for a `LeanStr` that is collected from chars.
  pub str_from_chars-Beside :
      (lower_bound : ℕ) (cs : List ℕ)
      → All IsScalar cs
      → Beside refs immutable h (encode cs) (str_from_chars lower_bound cs h)
  unfolding str_from_chars
  str_from_chars-Beside lower_bound cs sc = to_str (from_chars-Beside lower_bound cs sc)

  -- The same for a `LeanStr` that is collected from texts.
  pub str_from_strs-Beside :
      (ss : List Bytes) → All IsUtf8 ss → Beside refs immutable h (joined ss) (str_from_strs ss h)
  unfolding str_from_strs
  str_from_strs-Beside ss v = to_str (from_strs-Beside ss v)
