-- ===== src/Traits/ShownStr.antt =====
-- The `LeanStr` that a value becomes.
use lean_string.Prelude.{ℕ, refl, subst, Option, some}
use lean_string.Utf8.{Bytes}
use lean_string.Memory.{Heap, Allocator, Outcome, pure, and_then, ◌>>=◌}
use lean_string.Memory.Counted.{Counted}
use lean_string.HeapBuffer.{mutable, immutable}
use lean_string.Repr.{Repr}
use lean_string.Repr.Owns.{with_self, Owns}
use lean_string.Repr.Place.{at_state}
use lean_string.Repr.Share.{Cloned, cloned, too_many, make_shallow_clone-Cloned}
use lean_string.LeanString
use lean_string.LeanString.Convert.{try_into_lean_str, try_into_lean_str-Moved}
use lean_string.LeanString.Format.{Arguments}
use lean_string.LeanString.Format.Written.{text_either}
use lean_string.LeanString.Format.Formatted.{
  Displayed, string_of, format_error, no_memory, unwound_with, too_long, try_from_fmt-Displayed,
}
use lean_string.LeanStr
use lean_string.Traits.{
  Printers, Value, plain, of_lean_string, of_lean_str, other, moved_to_str, try_to_lean_str,
}
use lean_string.Traits.Shown.{
  IsValue, Shown, not_shown, reserve_failed, gave_up, from_plain-Shown, string-Cloned, copy_moved,
}

module _ ⦃A : Allocator⦄ (printers : Printers) {refs : ℕ → ℕ} {h : Heap} {args : Arguments} where
  display_moved :
      {o : Outcome Heap (Option Repr)}
      → Displayed refs h args o
      → Shown printers refs immutable h (other args) (and_then o moved_to_str)
  display_moved (string_of e own same) =
      copy_moved (text_either args.as_str args.formatting) refl same (try_into_lean_str-Moved own)
  display_moved (format_error e k same) = not_shown e k same
  display_moved (no_memory k same) = reserve_failed k same
  display_moved (unwound_with e m k same) = gave_up k same
  display_moved (too_long str e n k same) = gave_up k same

module _ ⦃A : Allocator⦄ (printers : Printers) {rest : ℕ → ℕ} {h : Heap} {r : Repr}
    {text : Bytes} where
  from_LeanStr :
      Owns rest immutable (at_state r h) text
      → Shown printers
          (with_self rest r)
          immutable
          h
          (of_lean_str r)
          (try_to_lean_str printers (of_lean_str r) h)
  unfolding try_to_lean_str LeanStr.clone
  from_LeanStr o = string-Cloned o.content (make_shallow_clone-Cloned o)

  from_LeanString :
      Owns rest mutable (at_state r h) text
      → Shown printers
          (with_self rest r)
          immutable
          h
          (of_lean_string r)
          (try_to_lean_str printers (of_lean_string r) h)
  unfolding try_to_lean_str LeanString.clone
  from_LeanString o = after (make_shallow_clone-Cloned o)
    where
      after :
          {x : Outcome Heap Repr}
          → Cloned rest mutable h r text x
          → Shown printers
              (with_self rest r)
              immutable
              h
              (of_lean_string r)
              (and_then x (λ copy. try_into_lean_str copy >>= λ moved. pure (some moved)))
      after (cloned own same) = copy_moved text o.content same (try_into_lean_str-Moved own)
      after (too_many n own same) = gave_up own.counted same

-- The same for `try_to_lean_str` and a `LeanStr`.
pub try_to_lean_str-Shown :
    ⦃A : Allocator⦄ (printers : Printers) {refs : ℕ → ℕ} {h : Heap}
    → Counted refs h
    → (v : Value) → IsValue refs h v
    → Shown printers refs immutable h v (try_to_lean_str printers v h)
unfolding try_to_lean_str
try_to_lean_str-Shown printers k (plain v) p = from_plain-Shown printers immutable k v p
try_to_lean_str-Shown printers {h} k (of_lean_string r) a =
    subst
      (λ n.
        Shown printers n immutable h (of_lean_string r)
          (try_to_lean_str printers (of_lean_string r) h))
      a.counted_in (from_LeanString printers a.owns)
try_to_lean_str-Shown printers {h} k (of_lean_str r) a =
    subst
      (λ n.
        Shown printers n immutable h (of_lean_str r) (try_to_lean_str printers (of_lean_str r) h))
      a.counted_in (from_LeanStr printers a.owns)
try_to_lean_str-Shown printers k (other args) v =
    display_moved printers (try_from_fmt-Displayed args v k)
