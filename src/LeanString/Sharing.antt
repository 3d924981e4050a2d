-- ===== src/LeanString/Sharing.antt =====
-- Clones and drops beside other strings: a clone is a string of its own, and the last drop frees the
-- allocation.
use lean_string.Prelude.{◌≡◌, refl, Option, some, ◌∷◌}
use lean_string.Utf8.{Bytes}
use lean_string.Memory.{Heap, Allocator, Outcome, done, panicked, M}
use lean_string.Memory.Ends.{Ends, returns, fails, weaken}
use lean_string.Memory.Counted.{Counted}
use lean_string.HeapBuffer.{mutable}
use lean_string.Repr.{Repr, State}
use lean_string.Repr.Owns.{Keeps}
use lean_string.Repr.Cut.Shorter.{clear-empties}
use lean_string.Repr.Place.{at_state}
use lean_string.Repr.Room.{drop_in-Counted, Content-Same, Same-with_self}
use lean_string.Repr.Share.{Cloned, cloned, too_many, make_shallow_clone-Cloned}
use lean_string.LeanString
use lean_string.LeanString.{clone, drop_string, unwrap_with_msg}
use lean_string.LeanString.Refines.{
  Pool, refs_of, AllHold, AllHold-Same, World, Keeps-World, Call, push, push_str, insert,
  insert_str, truncate, clear, reserve, reserve_exact, shrink_to, shrink_to_fit, extend_from_within,
  replace_range, WellTyped, text_after, try_call, Agrees, returned, refused, panics,
  try_call-Agrees,
}

-- The clone stands beside the original, and both hold the text. A panic leaves all strings as they
-- were.
pub data Duplicated (pool : Pool) (r : Repr) (text : Bytes) : Outcome Heap Repr → Type 0 where
  duplicated :
      {q : Repr} {g : Heap}
      → World ((r, text) ∷ pool) (at_state q g) text
      → Duplicated pool r text (done q g)
  overflowed : {g : Heap} → World pool (at_state r g) text → Duplicated pool r text (panicked g)

from_Cloned :
    {pool : Pool} {s : State} {text : Bytes} {out : Outcome Heap Repr}
    → World pool s text
    → Cloned (refs_of pool) mutable s.heap s.self text out
    → Duplicated pool s.self text out
from_Cloned {pool} {s} w (cloned o same) = duplicated (record {
  owns = o;
  others = (
    (w.owns.valid, Content-Same (refs_of pool) w.owns.content same),
    AllHold-Same pool w.others (Same-with_self (refs_of pool) s.self same),
  );
})
from_Cloned {pool} {s} w (too_many n o same) = overflowed (record {
  owns = o;
  others = AllHold-Same pool w.others (Same-with_self (refs_of pool) s.self same);
})

-- In a sound world of strings, `clone` returns a second string with the same text beside the
-- original, the world staying sound, or it panics and leaves a sound world with the same texts.
pub clone-Duplicated :
    {pool : Pool} {s : State} {text : Bytes}
    → World pool s text
    → Duplicated pool s.self text (clone s.self s.heap)
unfolding clone
clone-Duplicated w = from_Cloned w (make_shallow_clone-Cloned w.owns)

-- The other strings after a drop, and every allocation counted over them alone.
pub record Remains (pool : Pool) (g : Heap) : Type 0 where
  pub counted : Counted (refs_of pool) g
  pub others : AllHold g pool

-- In a sound world of strings, dropping one always returns. The other strings keep their texts,
-- every reference count is that of the remaining strings, and what none of them refers to is
-- free.
pub drop_string-Remains :
    {pool : Pool} {s : State} {text : Bytes}
    → World pool s text
    → Ends (λ _ g. Remains pool g) (λ _. ⊥) (drop_string s.self s.heap)
unfolding drop_string
drop_string-Remains {pool} w =
    weaken (drop_in-Counted {E = λ _. ⊥} w.owns.content w.owns.counted)
      (λ _ g k. record { counted = k.0; others = AllHold-Same pool w.others k.1 }) (λ g e. e)

-- The methods without `try_`: they return with the text that the abstract call says, or panic with
-- nothing changed.
pub data Happens (pool : Pool) (s : State) (after : Option Bytes)
    : Outcome State (Unit {0}) → Type 0 where
  returns_with :
      {new : Bytes} {t : State}
      → after ≡ some new
      → World pool t new
      → Happens pool s after (done tt t)
  panics_with : Happens pool s after (panicked s)

Agrees-Happens :
    {pool : Pool} {s : State} (after : Option Bytes) {out : Outcome State (Unit {0})}
    → Agrees pool s after out
    → Happens pool s after (LeanString.unwrapped out)
Agrees-Happens after (returned w) = returns_with refl w
Agrees-Happens after refused = panics_with
Agrees-Happens after panics = panics_with

cleared :
    {pool : Pool} {s : State} {text new : Bytes} {out : Outcome State (Unit {0})}
    → World pool s text
    → Ends (λ _ t. Keeps (refs_of pool) mutable s.heap new t) (λ _. ⊥) out
    → Happens pool s (some new) out
cleared w (returns k) = returns_with refl (Keeps-World w k)
cleared w (fails e) = absurd e

module _ ⦃A : Allocator⦄ where
  -- The method of a call that panics where the `try_` method returns an error.
  unfoldable pub call : Call → M State (Unit {0})
  call (push ch) = LeanString.push ch
  call (push_str string) = LeanString.push_str string
  call (insert idx ch) = LeanString.insert idx ch
  call (insert_str idx string) = LeanString.insert_str idx string
  call (truncate n) = LeanString.truncate n
  call clear = LeanString.clear
  call (reserve n) = LeanString.reserve n
  call (reserve_exact n) = LeanString.reserve_exact n
  call (shrink_to n) = LeanString.shrink_to n
  call shrink_to_fit = LeanString.shrink_to_fit
  call (extend_from_within from to) = LeanString.extend_from_within from to
  call (replace_range from to replace_with) = LeanString.replace_range from to replace_with

  -- In a sound world of strings and for well-typed arguments, each of `push`, `push_str`,
  -- `insert`, `insert_str`, `truncate`, `reserve`, `reserve_exact`, `shrink_to`,
  -- `shrink_to_fit`, `extend_from_within`, `replace_range` and `clear` returns with the text
  -- that the call on the text gives, the world staying sound, or panics and leaves the state as
  -- it was.
  pub call-Happens :
      {pool : Pool} {s : State} {text : Bytes} (c : Call)
      → World pool s text
      → WellTyped c
      → Happens pool s (text_after c text) (call c s)
  unfolding call try_call unwrap_with_msg LeanString.push LeanString.push_str LeanString.insert
      LeanString.insert_str LeanString.truncate LeanString.reserve LeanString.reserve_exact
      LeanString.shrink_to LeanString.shrink_to_fit LeanString.extend_from_within
      LeanString.replace_range
  call-Happens {text} (push ch) w v =
      Agrees-Happens (text_after (push ch) text) (try_call-Agrees w (push ch) v)
  call-Happens {text} (push_str string) w v =
      Agrees-Happens (text_after (push_str string) text) (try_call-Agrees w (push_str string) v)
  call-Happens {text} (insert idx ch) w v =
      Agrees-Happens (text_after (insert idx ch) text) (try_call-Agrees w (insert idx ch) v)
  call-Happens {text} (insert_str idx string) w v =
      Agrees-Happens (text_after (insert_str idx string) text)
        (try_call-Agrees w (insert_str idx string) v)
  call-Happens {text} (truncate n) w v =
      Agrees-Happens (text_after (truncate n) text) (try_call-Agrees w (truncate n) v)
  call-Happens clear w v = unfold LeanString.clear in cleared w (clear-empties w.owns)
  call-Happens {text} (reserve n) w v =
      Agrees-Happens (text_after (reserve n) text) (try_call-Agrees w (reserve n) v)
  call-Happens {text} (reserve_exact n) w v =
      Agrees-Happens (text_after (reserve_exact n) text) (try_call-Agrees w (reserve_exact n) v)
  call-Happens {text} (shrink_to n) w v =
      Agrees-Happens (text_after (shrink_to n) text) (try_call-Agrees w (shrink_to n) v)
  call-Happens {text} shrink_to_fit w v =
      Agrees-Happens (text_after shrink_to_fit text) (try_call-Agrees w shrink_to_fit v)
  call-Happens {text} (extend_from_within from to) w v =
      Agrees-Happens (text_after (extend_from_within from to) text)
        (try_call-Agrees w (extend_from_within from to) v)
  call-Happens {text} (replace_range from to replace_with) w v =
      Agrees-Happens (text_after (replace_range from to replace_with) text)
        (try_call-Agrees w (replace_range from to replace_with) v)
