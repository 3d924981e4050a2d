-- ===== src/LeanStr/Convert.antt =====
-- What `try_into_lean_string` does to the text.
use lean_string.Prelude.{ℕ, refl}
use lean_string.Utf8.{Bytes}
use lean_string.Memory.{Heap, Allocator}
use lean_string.Memory.Ends.{Ends, bind, weaken}
use lean_string.HeapBuffer.{mutable, immutable}
use lean_string.Repr.{Repr}
use lean_string.Repr.Owns.{Owns}
use lean_string.Repr.Place.{at_state}
use lean_string.Repr.Convert.Change.{into_mutable-Converted}
use lean_string.Repr.Convert.Consumed.{Moved, Gone, after_conversion, nothing_to_drop}
use lean_string.LeanStr.{drop_str, take_or_drop, try_into_lean_string}

module _ ⦃A : Allocator⦄ {refs : ℕ → ℕ} {h : Heap} {r : Repr} {text : Bytes} where
  -- On a sound `LeanStr`, `try_into_lean_string` returns a sound `LeanString` with the same
  -- text in its place, or fails and the string is dropped, its reference being given back; in
  -- both cases everything that others refer to is unchanged.
  pub try_into_lean_string-Moved :
      Owns refs immutable (at_state r h) text
      → Ends (Moved refs mutable h text) (Gone refs h) (try_into_lean_string r h)
  unfolding try_into_lean_string drop_str
  try_into_lean_string-Moved o =
      bind (weaken (into_mutable-Converted o) (λ c g x. x) (λ g e. absurd e)) (
        after_conversion o take_or_drop (λ q g. rw (nothing_to_drop immutable g) refl)
          (λ r g. refl))
