-- ===== src/LeanString/Format/Formatted.antt =====
-- What `try_from_fmt` returns.
use lean_string.Prelude.{
  ℕ, ◌≡◌, refl, sym, subst, Bool, true, false, Option, none, some, ◌<◌, length, [], ◌++◌,
  append-nil, append_assoc,
}
use lean_string.Utf8.{Bytes, IsUtf8}
use lean_string.Memory.{
  Heap, Allocator, Outcome, Result, done, failed, panicked, M, pure, and_then, ◌>>=◌,
}
use lean_string.Memory.Ends.{Ends, returns, fails}
use lean_string.Memory.Counted.{Counted, Same, Same-refl, Same-trans}
use lean_string.HeapBuffer.{mutable}
use lean_string.StaticBuffer
use lean_string.Repr.{Repr, State}
use lean_string.Repr.Owns.{Owns, Keeps}
use lean_string.Repr.Place.{at_state}
use lean_string.Repr.Room.{drop_in-Counted}
use lean_string.Repr.Fill.{Keeps-after}
use lean_string.Repr.Text.{push_str-appends}
use lean_string.LeanString.{drop_string, try_push_str}
use lean_string.LeanString.Make
use lean_string.LeanString.Make.{or_panic, from_static_str}
use lean_string.LeanString.Beside.{new-Owns}
use lean_string.Repr.Literal
use lean_string.Repr.Literal.{Borrowed, borrowed, from_static_str-Borrowed}
use lean_string.LeanString.Format.Written.{text_either, answer_either, ValidEither}
use lean_string.LeanString.Format.{
  Formatting, finish, unwind, write, Arguments, written, run, settled, format_either, try_from_fmt,
  formatted, succeeds, MayUnwind, at_once, later, Valid,
}

abbrev Cleared : (ℕ → ℕ) → Heap → Heap → Type 0
Cleared refs h g = Counted refs g × Same refs h g

-- How `fmt::write` ends: with the whole text and the answer of the formatter; with the error of a
-- reservation, whatever the formatter answers to that; or in a panic of the formatter.
data Ran (refs : ℕ → ℕ) (h : Heap) (text : Bytes) (answer : Option Bool) (f : Formatting)
    : Outcome Heap (Option Repr × Bool) → Type 0 where
  whole :
      {q : Repr} {b : Bool} {g : Heap}
      → answer ≡ some b
      → Owns refs mutable (at_state q g) text
      → Same refs h g
      → Ran refs h text answer f (done (some q, b) g)
  refused : {b : Bool} {g : Heap} → Cleared refs h g → Ran refs h text answer f (done (none, b) g)
  unwound : {g : Heap} → MayUnwind f → Cleared refs h g → Ran refs h text answer f (panicked g)

-- What comes of the formatter after a write.
Ran-later :
    {refs : ℕ → ℕ} {h : Heap} {text piece : Bytes} {answer : Option Bool} {next : Bool → Formatting}
    {o : Outcome Heap (Option Repr × Bool)} (b : Bool)
    → Ran refs h text answer (next b) o
    → Ran refs h text answer (write piece next) o
Ran-later b (whole e own same) = whole e own same
Ran-later b (refused clear) = refused clear
Ran-later b (unwound m clear) = unwound (later b m) clear

module _ ⦃A : Allocator⦄ {refs : ℕ → ℕ} {h : Heap} where
  -- After an error nothing is written any more.
  no_string :
      {text : Bytes} {answer : Option Bool} (f : Formatting) {g : Heap}
      → Cleared refs h g
      → Ran refs h text answer f (run f none g)
  unfolding run
  no_string (finish answer) clear = refused clear
  no_string unwind clear = unwound at_once clear
  no_string (write s next) clear = Ran-later false (no_string (next false) clear)

  -- A string that is dropped before what follows.
  dropped_then :
      {A : Type 0} {text : Bytes} {s : State} (P : Outcome Heap A → Type 0) {next : M Heap A}
      → Keeps refs mutable h text s
      → ((g : Heap) → Cleared refs h g → P (next g))
      → P (and_then (drop_string s.self s.heap) (λ _. next))
  unfolding drop_string
  dropped_then {s} P {next} k go =
      after (drop_in-Counted {E = λ _. ⊥} k.owns.content k.owns.counted)
    where
      after :
          {o : Outcome Heap (Unit {0})}
          → Ends (λ _ g. Counted refs g × Same refs s.heap g) (λ _. ⊥) o
          → P (and_then o (λ _. next))
      after (returns p) = go _ (p.0, Same-trans k.same p.1)
      after (fails e) = absurd e

  after_write :
      {text new whole_text piece : Bytes} {answer : Option Bool} {s : State}
      {o : Outcome State (Unit {0})} (next : Bool → Formatting)
      → Keeps refs mutable h text s
      → Ends (λ _ t. Keeps refs mutable s.heap new t) (λ t. t ≡ s) o
      → ((t : State)
          → Keeps refs mutable h new t
          → Ran refs h whole_text answer (next true) (run (next true) (some t.self) t.heap))
      → Ran refs h whole_text answer
          (write piece next)
          (written (λ b writer. run (next b) writer) o)
  after_write next k (returns p) go = Ran-later true (go _ (Keeps-after k.same p))
  after_write {whole_text} {piece} {answer} {s} next k (fails e) go =
      subst
        (λ t.
          Ran refs h whole_text answer (write piece next)
            (written (λ b writer. run (next b) writer) (failed t)))
        (sym e)
        (dropped_then (Ran refs h whole_text answer (write piece next)) k
          (λ g clear. Ran-later false (no_string (next false) clear)))

  run-Ran :
      (f : Formatting) (text : Bytes) (s : State)
      → Valid f
      → Keeps refs mutable h text s
      → Ran refs h (text ++ formatted f) (succeeds f) f (run f (some s.self) s.heap)
  unfolding run formatted succeeds try_push_str
  run-Ran (finish answer) text s v k =
      whole refl (subst (λ t. Owns refs mutable s t) (sym (append-nil text)) k.owns) k.same
  run-Ran unwind text s v k =
      dropped_then (Ran refs h (text ++ []) none unwind) k (λ g clear. unwound at_once clear)
  run-Ran (write p next) text s (v, vs) k =
      subst
        (λ t.
          Ran refs h t (succeeds (next true)) (write p next)
            (run (write p next) (some s.self) s.heap))
        (append_assoc text p (formatted (next true)))
        (after_write next k (push_str-appends k.owns p v)
          (λ t q. run-Ran (next true) (text ++ p) t (vs true) q))

-- How `try_from_fmt` ends: a string of all that is written, where the formatter succeeds; its error,
-- where it does not; the error of a reservation; or the panic of the formatter, or for a constant text
-- that is too long.
pub data Displayed (refs : ℕ → ℕ) (h : Heap) (args : Arguments)
    : Outcome Heap (Option Repr) → Type 0 where
  string_of :
      {q : Repr} {g : Heap}
      → answer_either args.as_str args.formatting ≡ some true
      → Owns refs mutable (at_state q g) (text_either args.as_str args.formatting)
      → Same refs h g
      → Displayed refs h args (done (some q) g)
  format_error :
      {g : Heap}
      → answer_either args.as_str args.formatting ≡ some false
      → Counted refs g
      → Same refs h g
      → Displayed refs h args (done none g)
  no_memory : {g : Heap} → Counted refs g → Same refs h g → Displayed refs h args (failed g)
  unwound_with :
      {g : Heap}
      → args.as_str ≡ none
      → MayUnwind args.formatting
      → Counted refs g
      → Same refs h g
      → Displayed refs h args (panicked g)
  too_long :
      {g : Heap} (str : Bytes)
      → args.as_str ≡ some str
      → StaticBuffer.max_length < length str
      → Counted refs g
      → Same refs h g
      → Displayed refs h args (panicked g)

abbrev arguments : Option Bytes → Formatting → Arguments
arguments constant f = record { as_str = constant; formatting = f }

module _ ⦃A : Allocator⦄ {refs : ℕ → ℕ} {h : Heap} (f : Formatting) where
  settle :
      {o : Outcome Heap (Option Repr × Bool)}
      → Ran refs h (formatted f) (succeeds f) f o
      → Displayed refs h (arguments none f) (and_then o settled)
  settle (whole {b = true} e own same) = string_of e own same
  settle (whole {b = false} e own same) =
      dropped_then (Displayed refs h (arguments none f)) (record { owns = own; same = same })
        (λ g clear. format_error e clear.0 clear.1)
  settle (refused clear) = no_memory clear.0 clear.1
  settle (unwound m clear) = unwound_with refl m clear.0 clear.1

constant_string :
    {refs : ℕ → ℕ} {h : Heap} (str : Bytes) {f : Formatting} {r : Result Repr}
    → Counted refs h
    → IsUtf8 str
    → Borrowed mutable h str r
    → Displayed refs h (arguments (some str) f) ((or_panic r >>= λ q. pure (some q)) h)
constant_string {refs} {h} str k v (borrowed n c off_heap) =
    string_of refl
      (record {
        valid = v;
        content = c;
        counted = subst (λ n. Counted n h) (sym (off_heap refs)) k;
      })
      (Same-refl refs h)
constant_string {refs} {h} str k v (Literal.too_long n) = too_long str refl n k (Same-refl refs h)

-- Where all reference counts are right, `try_from_fmt` returns a sound string of the constant
-- text, or, for arguments that are not constant, of all that the formatter writes, if the
-- formatter succeeds; the formatter's error, if it does not; or, once a write has run out of
-- memory, the error of the reservation, whatever the formatter answers to that. It panics only
-- where the formatter does for some answers to its writes, or for a constant text that is
-- longer than a static string can be. An error or a panic leaves no reference behind, and
-- everything that others refer to is unchanged.
pub try_from_fmt-Displayed :
    ⦃A : Allocator⦄ {refs : ℕ → ℕ} {h : Heap} (args : Arguments)
    → ValidEither args.as_str args.formatting
    → Counted refs h
    → Displayed refs h args (try_from_fmt args h)
unfolding try_from_fmt from_static_str
try_from_fmt-Displayed {refs} {h} args v k = by_constant args.as_str args.formatting v
  where
    by_constant :
        (constant : Option Bytes) (f : Formatting)
        → ValidEither constant f
        → Displayed refs h (arguments constant f) (format_either constant f h)
    by_constant none f v = settle f (
        run-Ran f [] (at_state Make.new h) v
          (record { owns = new-Owns k; same = Same-refl refs h }))
    by_constant (some str) f v = constant_string str k v (from_static_str-Borrowed mutable h str v)
