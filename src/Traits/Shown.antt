-- ===== src/Traits/Shown.antt =====
-- The string that a value becomes.
use lean_string.Prelude.{ℕ, ◌≡◌, refl, sym, subst, false, Option, none, some}
use lean_string.Prelude.Int.{ℤ}
use lean_string.Utf8.{Bytes, IsScalar, IsUtf8, encode_utf8}
use lean_string.Memory.{Heap, Allocator, Outcome, done, failed, panicked, pure, and_then, ◌>>=◌}
use lean_string.Memory.Ends.{Ends, returns, fails}
use lean_string.Memory.Counted.{Counted, Same, Same-refl, Same-trans}
use lean_string.HeapBuffer.{Mutability, mutable, immutable}
use lean_string.Repr.{Repr}
use lean_string.Repr.Owns.{Content, with_self, Owns}
use lean_string.Repr.Place.{at_state}
use lean_string.Repr.Share.{Cloned, cloned, too_many, make_shallow_clone-Cloned}
use lean_string.Repr.Fresh.{New, from_str-New}
use lean_string.Repr.Scalar.{bool_text, from_char-New, from_bool-New}
use lean_string.Repr.DigitCount.{IntType, InRange}
use lean_string.Repr.NumToRepr.Decimal.{parse}
use lean_string.Repr.NumToRepr.Print.{Denotes, into_repr-Denotes}
use lean_string.Repr.Convert.Consumed.{Moved, Gone}
use lean_string.LeanString
use lean_string.LeanString.Format.{Arguments}
use lean_string.LeanString.Format.Written.{text_either, answer_either, ValidEither}
use lean_string.LeanString.Format.Formatted.{
  Displayed, string_of, format_error, no_memory, unwound_with, too_long, try_from_fmt-Displayed,
}
use lean_string.LeanStr
use lean_string.LeanStr.{try_into_lean_string}
use lean_string.LeanStr.Convert.{try_into_lean_string-Moved}
use lean_string.Traits.{
  Printers, Plain, integer, integer_128, float_32, float_64, boolean, character, string, Value,
  plain, of_lean_string, of_lean_str, other, from_128, from_f32, from_f64, from_plain,
  try_to_lean_string,
}

-- What the type of a value guarantees.
abbrev pub IsPlain : Plain → Type 0
IsPlain (integer t v) = InRange t v
IsPlain (integer_128 v) = Unit {0}
IsPlain (float_32 bits) = Unit {0}
IsPlain (float_64 bits) = Unit {0}
IsPlain (boolean b) = Unit {0}
IsPlain (character c) = IsScalar c
IsPlain (string s) = IsUtf8 s

-- A string among those that `refs` counts.
pub record Among (refs : ℕ → ℕ) (m : Mutability) (h : Heap) (r : Repr) : Type 0 where
  pub rest : ℕ → ℕ
  pub text : Bytes
  pub owns : Owns rest m (at_state r h) text
  pub counted_in : with_self rest r ≡ refs

abbrev pub IsValue : (ℕ → ℕ) → Heap → Value → Type 0
IsValue refs h (plain v) = IsPlain v
IsValue refs h (of_lean_string r) = Among refs mutable h r
IsValue refs h (of_lean_str r) = Among refs immutable h r
IsValue refs h (other args) = ValidEither args.as_str args.formatting

-- The text that shows a value: an integer of at most 64 bits is read back from it.
abbrev pub ShowsPlain : Printers → Plain → Bytes → Type 0
ShowsPlain printers (integer t v) text = parse text ≡ some v
ShowsPlain printers (integer_128 v) text = text ≡ printers.itoa v
ShowsPlain printers (float_32 bits) text = text ≡ printers.zmij_f32 bits
ShowsPlain printers (float_64 bits) text = text ≡ printers.zmij_f64 bits
ShowsPlain printers (boolean b) text = text ≡ bool_text b
ShowsPlain printers (character c) text = text ≡ encode_utf8 c
ShowsPlain printers (string s) text = text ≡ s

abbrev pub Shows : Printers → Heap → Value → Bytes → Type 0
Shows printers h (plain v) text = ShowsPlain printers v text
Shows printers h (of_lean_string r) text = Content mutable h r text
Shows printers h (of_lean_str r) text = Content immutable h r text
Shows printers h (other args) text = text ≡ text_either args.as_str args.formatting

-- The value's own `Display` answers an error.
abbrev pub DisplayFails : Value → Type 0
DisplayFails (plain v) = ⊥
DisplayFails (of_lean_string r) = ⊥
DisplayFails (of_lean_str r) = ⊥
DisplayFails (other args) = answer_either args.as_str args.formatting ≡ some false

-- A sound string with a text that shows the value; or an error or a panic, which leave no reference.
pub data Shown (printers : Printers) (refs : ℕ → ℕ) (m : Mutability) (h : Heap) (v : Value)
    : Outcome Heap (Option Repr) → Type 0 where
  shown :
      {q : Repr} {g : Heap} (text : Bytes)
      → Shows printers h v text
      → Owns refs m (at_state q g) text
      → Same refs h g
      → Shown printers refs m h v (done (some q) g)
  not_shown :
      {g : Heap}
      → DisplayFails v
      → Counted refs g
      → Same refs h g
      → Shown printers refs m h v (done none g)
  reserve_failed :
      {g : Heap} → Counted refs g → Same refs h g → Shown printers refs m h v (failed g)
  gave_up : {g : Heap} → Counted refs g → Same refs h g → Shown printers refs m h v (panicked g)

module _ {printers : Printers} {refs : ℕ → ℕ} {m : Mutability} {h : Heap} (k : Counted refs h) where
  -- A string that is built at once.
  pub built :
      (v : Plain) (text : Bytes) {o : Outcome Heap Repr}
      → ShowsPlain printers v text
      → Ends (New refs m h text) (λ g. g ≡ h) o
      → Shown printers refs m h (plain v) (and_then o (λ repr. pure (some repr)))
  built v text s (returns n) = shown text s n.owns n.same
  built v text s (fails e) =
      subst (λ g. Shown printers refs m h (plain v) (failed g)) (sym e)
        (reserve_failed k (Same-refl refs h))

  denoted :
      (t : IntType) (v : ℤ) {o : Outcome Heap Repr}
      → Ends (Denotes refs m h t v) (λ g. g ≡ h) o
      → Shown printers refs m h (plain (integer t v)) (and_then o (λ repr. pure (some repr)))
  denoted t v (returns d) = shown d.text d.denotes d.string.owns d.string.same
  denoted t v (fails e) =
      subst (λ g. Shown printers refs m h (plain (integer t v)) (failed g)) (sym e)
        (reserve_failed k (Same-refl refs h))

at_once :
    {refs : ℕ → ℕ} {m : Mutability} {h : Heap} {text : Bytes} {r : Repr}
    → New refs m h text r h
    → Ends (New refs m h text) (λ g. g ≡ h) (pure r h)
at_once n = returns n

module _ ⦃A : Allocator⦄ (printers : Printers) {refs : ℕ → ℕ} (m : Mutability) {h : Heap}
    (k : Counted refs h) where
  pub from_plain-Shown :
      (v : Plain)
      → IsPlain v
      → Shown printers refs m h
          (plain v)
          (and_then (from_plain printers m v h) (λ repr. pure (some repr)))
  unfolding from_plain from_128 from_f32 from_f64
  from_plain-Shown (integer t v) range = denoted k t v (into_repr-Denotes m t v k range)
  from_plain-Shown (integer_128 v) u =
      built k (integer_128 v) (printers.itoa v) refl
        (from_str-New k m (printers.itoa v) (printers.itoa_valid v))
  from_plain-Shown (float_32 bits) u =
      built k (float_32 bits) (printers.zmij_f32 bits) refl
        (from_str-New k m (printers.zmij_f32 bits) (printers.zmij_f32_valid bits))
  from_plain-Shown (float_64 bits) u =
      built k (float_64 bits) (printers.zmij_f64 bits) refl
        (from_str-New k m (printers.zmij_f64 bits) (printers.zmij_f64_valid bits))
  from_plain-Shown (boolean b) u =
      built k (boolean b) (bool_text b) refl (at_once (from_bool-New k b))
  from_plain-Shown (character c) sc =
      built k (character c) (encode_utf8 c) refl (at_once (from_char-New k c sc))
  from_plain-Shown (string s) u = built k (string s) s refl (from_str-New k m s u)

pub string-Cloned :
    {printers : Printers} {m : Mutability} {h : Heap} {v : Value} {r : Repr} {rest : ℕ → ℕ}
    {text : Bytes} {o : Outcome Heap Repr}
    → Shows printers h v text
    → Cloned rest m h r text o
    → Shown printers (with_self rest r) m h v (and_then o (λ copy. pure (some copy)))
string-Cloned {text} c (cloned own same) = shown text c own same
string-Cloned c (too_many n own same) = gave_up own.counted same

module _ {printers : Printers} {refs : ℕ → ℕ} {m : Mutability} {h : Heap} where
  -- A copy that is converted, or dropped where that fails.
  pub copy_moved :
      {v : Value} {g : Heap} (text : Bytes) {o : Outcome Heap Repr}
      → Shows printers h v text
      → Same refs h g
      → Ends (Moved refs m g text) (Gone refs g) o
      → Shown printers refs m h v (and_then o (λ moved. pure (some moved)))
  copy_moved text c same (returns q) = shown text c q.owns (Same-trans same q.same)
  copy_moved text c same (fails q) = reserve_failed q.counted (Same-trans same q.same)

formatted_string :
    {printers : Printers} {refs : ℕ → ℕ} {h : Heap} {args : Arguments}
    {o : Outcome Heap (Option Repr)}
    → Displayed refs h args o
    → Shown printers refs mutable h (other args) o
formatted_string {args} (string_of e own same) =
    shown (text_either args.as_str args.formatting) refl own same
formatted_string (format_error e k same) = not_shown e k same
formatted_string (no_memory k same) = reserve_failed k same
formatted_string (unwound_with e m k same) = gave_up k same
formatted_string (too_long str e n k same) = gave_up k same

module _ ⦃A : Allocator⦄ (printers : Printers) {refs : ℕ → ℕ} {h : Heap} (k : Counted refs h) where
  from_LeanString :
      {r : Repr} {rest : ℕ → ℕ} {text : Bytes}
      → Owns rest mutable (at_state r h) text
      → Shown printers
          (with_self rest r)
          mutable
          h
          (of_lean_string r)
          (try_to_lean_string printers (of_lean_string r) h)
  unfolding try_to_lean_string LeanString.clone
  from_LeanString o = string-Cloned o.content (make_shallow_clone-Cloned o)

  from_LeanStr :
      {r : Repr} {rest : ℕ → ℕ} {text : Bytes}
      → Owns rest immutable (at_state r h) text
      → Shown printers
          (with_self rest r)
          mutable
          h
          (of_lean_str r)
          (try_to_lean_string printers (of_lean_str r) h)
  unfolding try_to_lean_string LeanStr.clone
  from_LeanStr {r} {rest} {text} o = after (make_shallow_clone-Cloned o)
    where
      after :
          {x : Outcome Heap Repr}
          → Cloned rest immutable h r text x
          → Shown printers
              (with_self rest r)
              mutable
              h
              (of_lean_str r)
              (and_then x (λ copy. try_into_lean_string copy >>= λ moved. pure (some moved)))
      after (cloned own same) = copy_moved text o.content same (try_into_lean_string-Moved own)
      after (too_many n own same) = gave_up own.counted same

  from_Display :
      (args : Arguments)
      → ValidEither args.as_str args.formatting
      → Shown printers refs mutable h (other args) (try_to_lean_string printers (other args) h)
  unfolding try_to_lean_string
  from_Display args v = formatted_string (try_from_fmt-Displayed args v k)

  -- Where all reference counts are right, `try_to_lean_string` returns a sound string with a
  -- text that shows the value: an integer of at most 64 bits is read back from it; for one of
  -- 128 bits or a float it is the text that the crate itoa or zmij prints; for a Boolean, a
  -- char or a string it is the value's own; and for a value with a `Display` of its own, all
  -- that this writes. Or it returns the error of that `Display`, or that of a reservation, or
  -- panics; these leave no reference behind. Everything that others refer to is unchanged.
  pub try_to_lean_string-Shown :
      (v : Value)
      → IsValue refs h v
      → Shown printers refs mutable h v (try_to_lean_string printers v h)
  unfolding try_to_lean_string
  try_to_lean_string-Shown (plain v) p = from_plain-Shown printers mutable k v p
  try_to_lean_string-Shown (of_lean_string r) a =
      subst
        (λ n.
          Shown printers n mutable h (of_lean_string r)
            (try_to_lean_string printers (of_lean_string r) h))
        a.counted_in (from_LeanString a.owns)
  try_to_lean_string-Shown (of_lean_str r) a =
      subst
        (λ n.
          Shown printers n mutable h (of_lean_str r)
            (try_to_lean_string printers (of_lean_str r) h))
        a.counted_in (from_LeanStr a.owns)
  try_to_lean_string-Shown (other args) v = from_Display args v
