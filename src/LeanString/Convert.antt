-- ===== src/LeanString/Convert.antt =====
-- `LeanString::try_into_lean_str` and `into_lean_str` (src/lib.rs), and what they do to the text.
use lean_string.Prelude.{ℕ, refl}
use lean_string.Utf8.{Bytes}
use lean_string.Memory.{Heap, Allocator, M, pure, fail, ◌>>=◌, ◌>>◌}
use lean_string.Memory.Ends.{Ends, bind, weaken}
use lean_string.HeapBuffer.{mutable, immutable}
use lean_string.Repr
use lean_string.Repr.{Repr}
use lean_string.Repr.Owns.{Owns}
use lean_string.Repr.Place.{at_state}
use lean_string.Repr.Convert.{Conversion, converted, kept, into_immutable}
use lean_string.Repr.Convert.Change.{into_immutable-Converted}
use lean_string.Repr.Convert.Consumed.{Moved, Gone, after_conversion, nothing_to_drop}
use lean_string.LeanString.{drop_string, unwrap_with_msg}

-- Once the conversion is over: an empty string is in the place of the old one and is dropped, or the
-- old one is put back and is dropped.
abbrev pub take_or_drop : Conversion → M Heap Repr
take_or_drop (converted q) = do drop_string Repr.new; pure q
take_or_drop (kept r) = do drop_string r; fail

module _ ⦃A : Allocator⦄ where
  -- `try_into_lean_str`, `into_lean_str`
  unfoldable pub try_into_lean_str : Repr → M Heap Repr
  try_into_lean_str r = do c ← into_immutable r; take_or_drop c

  unfoldable pub into_lean_str : Repr → M Heap Repr
  into_lean_str r = unwrap_with_msg (try_into_lean_str r)

module _ ⦃A : Allocator⦄ {refs : ℕ → ℕ} {h : Heap} {r : Repr} {text : Bytes} where
  -- On a sound `LeanString`, `try_into_lean_str` returns a sound `LeanStr` with the same text
  -- in its place, or fails and the string is dropped, its reference being given back; in both
  -- cases everything that others refer to is unchanged.
  pub try_into_lean_str-Moved :
      Owns refs mutable (at_state r h) text
      → Ends (Moved refs immutable h text) (Gone refs h) (try_into_lean_str r h)
  unfolding try_into_lean_str drop_string
  try_into_lean_str-Moved o =
      bind (weaken (into_immutable-Converted o) (λ c g x. x) (λ g e. absurd e))
        (after_conversion o take_or_drop (λ q g. rw (nothing_to_drop mutable g) refl) (λ r g. refl))
