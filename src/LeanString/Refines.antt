-- ===== src/LeanString/Refines.antt =====
-- An abstract view of a `LeanString`: its text alone. Every call computes the text that the abstract
-- call says, whatever the buffers are, and every other string keeps its own text.
use lean_string.Prelude.{
  ℕ, ◌≡◌, sym, subst, inl, inr, Option, none, some, List, [], ◌∷◌, ◌++◌, arith, leb,
  lt_of_leb-false, ◌==◌, Bool-cases, if◌then◌else◌, ◌-◌, length, take, drop, All,
}
use lean_string.Utf8.{Bytes, IsScalar, IsUtf8, encode_utf8, is_char_boundary}
use lean_string.Memory.{Heap, Allocator, Outcome, done, failed, panicked, M}
use lean_string.Memory.Ends.{Ends, returns, fails, weaken}
use lean_string.Memory.Counted.{Same}
use lean_string.HeapBuffer.{mutable}
use lean_string.Repr.{Repr, State}
use lean_string.Repr.Edit
use lean_string.Repr.Cut
use lean_string.Repr.Range
use lean_string.Repr.Range.{Bound, range_start, range_end, is_slice}
use lean_string.Repr.Range.Extend.{
  within, outside, slice_cases, extend_from_within-appends, extend_from_within-panics,
}
use lean_string.Repr.Range.Replace.{replace_range-replaces, replace_range-panics}
use lean_string.Repr.Owns.{Content, with_self, Owns, Keeps}
use lean_string.Repr.Queries.{len_lem}
use lean_string.Repr.Room.{Content-Same, Same-with_self}
use lean_string.Repr.Fill.{inserted_at, replaced_at}
use lean_string.Repr.Text.{
  unchanged, push_str-appends, push_char-appends, insert_str-inserts, insert_str-panics,
  insert_char-inserts, insert_char-panics, reserve-Keeps, reserve_exact-Roomy,
}
use lean_string.Repr.Cut.Shorter.{truncate-takes, truncate-panics, clear-empties}
use lean_string.LeanString.Shrink.{shrink_to-Keeps}
use lean_string.LeanString

-- Other strings, with their texts.
abbrev pub Pool : Type 0
Pool = List (Repr × Bytes)

abbrev pub refs_of : Pool → ℕ → ℕ
refs_of [] a = 0
refs_of ((r, text) ∷ pool) a = with_self (refs_of pool) r a

abbrev pub AllHold : Heap → Pool → Type 0
AllHold h = All (λ e. IsUtf8 e.1 × Content mutable h e.0 e.1)

-- A string, and the strings beside it; the references are counted over all of them.
pub record World (pool : Pool) (s : State) (text : Bytes) : Type 0 where
  pub owns : Owns (refs_of pool) mutable s text
  pub others : AllHold s.heap pool

pub AllHold-Same :
    (pool : Pool) {h g : Heap} → AllHold h pool → Same (refs_of pool) h g → AllHold g pool
AllHold-Same [] all s = tt
AllHold-Same ((r, text) ∷ pool) ((u, c), all) s = (
  (u, Content-Same (refs_of pool) c s),
  AllHold-Same pool all (Same-with_self (refs_of pool) r s),
)

pub Keeps-World :
    {pool : Pool} {s t : State} {text new : Bytes}
    → World pool s text
    → Keeps (refs_of pool) mutable s.heap new t
    → World pool t new
Keeps-World {pool} w k = record { owns = k.owns; others = AllHold-Same pool w.others k.same }

-- Calls that change a string's text or its capacity and give nothing else back.
pub data Call : Type 0 where
  push : ℕ → Call
  push_str : Bytes → Call
  insert : ℕ → ℕ → Call
  insert_str : ℕ → Bytes → Call
  truncate : ℕ → Call
  clear : Call
  reserve : ℕ → Call
  reserve_exact : ℕ → Call
  shrink_to : ℕ → Call
  shrink_to_fit : Call
  extend_from_within : Bound → Bound → Call
  replace_range : Bound → Bound → Bytes → Call

-- What the types `char` and `str` guarantee of the arguments.
abbrev pub WellTyped : Call → Type 0
WellTyped (push ch) = IsScalar ch
WellTyped (push_str string) = IsUtf8 string
WellTyped (insert idx ch) = IsScalar ch
WellTyped (insert_str idx string) = IsUtf8 string
WellTyped (truncate n) = Unit {0}
WellTyped clear = Unit {0}
WellTyped (reserve n) = Unit {0}
WellTyped (reserve_exact n) = Unit {0}
WellTyped (shrink_to n) = Unit {0}
WellTyped shrink_to_fit = Unit {0}
WellTyped (extend_from_within from to) = Unit {0}
WellTyped (replace_range from to replace_with) = IsUtf8 replace_with

-- The text after a call; `none` is a panic.
abbrev pub text_after : Call → Bytes → Option Bytes
text_after (push ch) text = some (text ++ encode_utf8 ch)
text_after (push_str string) text = some (text ++ string)
text_after (insert idx ch) text =
    if is_char_boundary text idx then some (inserted_at idx (encode_utf8 ch) text) else none
text_after (insert_str idx string) text =
    if is_char_boundary text idx then some (inserted_at idx string text) else none
text_after (truncate n) text =
    if leb (length text) n
    then some text
    else if is_char_boundary text n
    then some (take n text)
    else none
text_after clear text = some []
text_after (reserve n) text = some text
text_after (reserve_exact n) text = some text
text_after (shrink_to n) text = some text
text_after shrink_to_fit text = some text
text_after (extend_from_within from to) text =
    if is_slice text from to
    then some (text ++ take (range_end text to - range_start from) (drop (range_start from) text))
    else none
text_after (replace_range from to replace_with) text =
    if is_slice text from to
    then some (replaced_at (range_start from) (range_end text to) replace_with text)
    else none

module _ ⦃A : Allocator⦄ where
  -- The `try_` method of a call; `clear` has none.
  unfoldable pub try_call : Call → M State (Unit {0})
  try_call (push ch) = LeanString.try_push ch
  try_call (push_str string) = LeanString.try_push_str string
  try_call (insert idx ch) = LeanString.try_insert idx ch
  try_call (insert_str idx string) = LeanString.try_insert_str idx string
  try_call (truncate n) = LeanString.try_truncate n
  try_call clear = LeanString.clear
  try_call (reserve n) = LeanString.try_reserve n
  try_call (reserve_exact n) = LeanString.try_reserve_exact n
  try_call (shrink_to n) = LeanString.try_shrink_to n
  try_call shrink_to_fit = LeanString.try_shrink_to_fit
  try_call (extend_from_within from to) = LeanString.try_extend_from_within from to
  try_call (replace_range from to replace_with) = LeanString.try_replace_range from to replace_with

-- A call refines its abstract view: it returns with that text, or fails with nothing changed, or
-- panics with nothing changed if the abstract call panics.
pub data Agrees (pool : Pool) (s : State) : Option Bytes → Outcome State (Unit {0}) → Type 0 where
  returned : {new : Bytes} {t : State} → World pool t new → Agrees pool s (some new) (done tt t)
  refused : {new : Bytes} → Agrees pool s (some new) (failed s)
  panics : Agrees pool s none (panicked s)

module _ {pool : Pool} {s : State} {text : Bytes} (w : World pool s text) where
  agreed :
      {new : Bytes} {r : Outcome State (Unit {0})}
      → Ends (λ _ t. Keeps (refs_of pool) mutable s.heap new t) (λ t. t ≡ s) r
      → Agrees pool s (some new) r
  agreed (returns k) = returned (Keeps-World w k)
  agreed {new} (fails e) = subst (λ t. Agrees pool s (some new) (failed t)) (sym e) refused

  never_fails :
      {new : Bytes} {r : Outcome State (Unit {0})}
      → Ends (λ _ t. Keeps (refs_of pool) mutable s.heap new t) (λ t. ⊥) r
      → Agrees pool s (some new) r
  never_fails (returns k) = returned (Keeps-World w k)
  never_fails (fails e) = absurd e

module _ ⦃A : Allocator⦄ {pool : Pool} {s : State} {text : Bytes} (w : World pool s text) where
  truncate-Agrees : (n : ℕ) → Agrees pool s (text_after (truncate n) text) (Cut.truncate n s)
  truncate-Agrees n = elim (Bool-cases (leb (length text) n)) [
    | inl short ↦ rw short (
        agreed w
          (unfold Cut.truncate in rw (len_lem w.owns.content, short) (returns (unchanged w.owns))))
    | inr long ↦ rw long (elim (Bool-cases (is_char_boundary text n)) [
      | inl at ↦ rw at (never_fails w (truncate-takes w.owns n at))
      | inr off ↦
          rw (off, truncate-panics w.owns n (lt_of_leb-false (length text) n long) off) panics
    ])
  ]

  insert_str-Agrees :
      (idx : ℕ) (string : Bytes)
      → IsUtf8 string
      → Agrees pool s (text_after (insert_str idx string) text) (Edit.insert_str idx string s)
  insert_str-Agrees idx string v = elim (Bool-cases (is_char_boundary text idx)) [
    | inl at ↦ rw at (agreed w (insert_str-inserts w.owns idx string v at))
    | inr off ↦ rw (off, insert_str-panics w.owns idx string off) panics
  ]

  insert-Agrees :
      (idx ch : ℕ)
      → IsScalar ch
      → Agrees pool s (text_after (insert idx ch) text) (Edit.insert_char idx ch s)
  insert-Agrees idx ch sc = elim (Bool-cases (is_char_boundary text idx)) [
    | inl at ↦ rw at (agreed w (insert_char-inserts w.owns idx ch sc at))
    | inr off ↦ rw (off, insert_char-panics w.owns idx ch off) panics
  ]

  reserve-Agrees : (n : ℕ) → Agrees pool s (some text) (Edit.reserve n s)
  reserve-Agrees n = agreed w (reserve-Keeps w.owns n)

  reserve_exact-Agrees : (n : ℕ) → Agrees pool s (some text) (Edit.reserve_exact n s)
  reserve_exact-Agrees n = elim (Bool-cases (n == 0)) [
    | inl nothing ↦ unfold Edit.reserve_exact in rw nothing (agreed w (returns (unchanged w.owns)))
    | inr more ↦
        agreed w
          (weaken (reserve_exact-Roomy w.owns n (ground arith)) (λ _ t q. q.keeps) (λ t e. e))
  ]

  extend-Agrees :
      (from to : Bound)
      → Agrees pool s
          (text_after (extend_from_within from to) text)
          (Range.extend_from_within from to s)
  extend-Agrees from to = elim (slice_cases text from to) [
    | within first last ordered slice ↦
        rw slice (agreed w (extend_from_within-appends w.owns from to first last ordered))
    | outside bad ↦ rw (bad, extend_from_within-panics w.owns from to bad) panics
  ]

  replace-Agrees :
      (from to : Bound) (replace_with : Bytes)
      → IsUtf8 replace_with
      → Agrees pool s
          (text_after (replace_range from to replace_with) text)
          (Range.replace_range from to replace_with s)
  replace-Agrees from to replace_with v = elim (slice_cases text from to) [
    | within first last ordered slice ↦
        rw slice
          (agreed w (replace_range-replaces w.owns from to replace_with v first last ordered))
    | outside bad ↦ rw (bad, replace_range-panics w.owns from to replace_with bad) panics
  ]

  -- In a sound world of strings and for well-typed arguments, each of `try_push`,
  -- `try_push_str`, `try_insert`, `try_insert_str`, `try_truncate`, `try_reserve`,
  -- `try_reserve_exact`, `try_shrink_to`, `try_shrink_to_fit`, `try_extend_from_within`,
  -- `try_replace_range` and `clear` refines the call on the text alone: it returns with that
  -- text, or fails and changes nothing, or panics and changes nothing where the call on the
  -- text panics. The world stays sound: all other strings keep their texts.
  pub try_call-Agrees : (c : Call) → WellTyped c → Agrees pool s (text_after c text) (try_call c s)
  unfolding try_call LeanString.try_push LeanString.try_push_str LeanString.try_insert
      LeanString.try_insert_str LeanString.try_truncate LeanString.clear LeanString.try_reserve
      LeanString.try_reserve_exact LeanString.try_shrink_to LeanString.try_shrink_to_fit
      LeanString.try_extend_from_within LeanString.try_replace_range
  try_call-Agrees (push ch) sc = agreed w (push_char-appends w.owns ch sc)
  try_call-Agrees (push_str string) v = agreed w (push_str-appends w.owns string v)
  try_call-Agrees (insert idx ch) sc = insert-Agrees idx ch sc
  try_call-Agrees (insert_str idx string) v = insert_str-Agrees idx string v
  try_call-Agrees (truncate n) v = truncate-Agrees n
  try_call-Agrees clear v = never_fails w (clear-empties w.owns)
  try_call-Agrees (reserve n) v = reserve-Agrees n
  try_call-Agrees (reserve_exact n) v = reserve_exact-Agrees n
  try_call-Agrees (shrink_to n) v = agreed w (shrink_to-Keeps n w.owns)
  try_call-Agrees shrink_to_fit v = agreed w (shrink_to-Keeps 0 w.owns)
  try_call-Agrees (extend_from_within from to) v = extend-Agrees from to
  try_call-Agrees (replace_range from to replace_with) v = replace-Agrees from to replace_with v
