-- ===== src/LeanString/UnicodeCase.antt =====
-- `to_lowercase` and `to_uppercase` of `LeanString` and of `LeanStr` (src/lib.rs), and the text that
-- they return.
use lean_string.Prelude.{ℕ, ◌≡◌, sym, subst, Option, none, some}
use lean_string.Utf8.{Bytes}
use lean_string.Memory.{Heap, Allocator, Outcome, M, pure, and_then, ◌>>=◌}
use lean_string.Memory.Ends.{Ends, returns, fails}
use lean_string.Memory.Counted.{Same}
use lean_string.HeapBuffer.{Mutability, mutable, immutable}
use lean_string.Case.{Case, lower, upper}
use lean_string.Case.Unicode.{Unicode}
use lean_string.Repr
use lean_string.Repr.{Repr}
use lean_string.Repr.Owns.{with_self, Owns}
use lean_string.Repr.Place.{at_state}
use lean_string.Repr.Queries.{as_bytes_lem}
use lean_string.Repr.Share.{make_shallow_clone-Cloned}
use lean_string.Repr.ToCase.{to_case}
use lean_string.Repr.ToCase.Ended.{CaseMapped, same_text, new_text, Cleared}
use lean_string.Repr.ToCase.Mapped.{to_case-CaseMapped}
use lean_string.LeanString
use lean_string.LeanString.{unwrapped, unwrap_with_msg}
use lean_string.LeanString.Beside.{Beside, made, out_of_memory, Cloned-Beside, Moved-Beside}
use lean_string.LeanString.Convert.{into_lean_str, try_into_lean_str-Moved}
use lean_string.LeanStr

module _ ⦃A : Allocator⦄ (u : Unicode) where
  -- `map_or_else(|| self.clone(), LeanString)`
  abbrev pub string_or_clone : Repr → Option Repr → M Heap Repr
  string_or_clone r none = LeanString.clone r
  string_or_clone r (some q) = pure q

  -- `LeanString::to_lowercase`, `LeanString::to_uppercase`
  unfoldable pub to_lowercase : Repr → M Heap Repr
  to_lowercase r = do
    text ← Repr.as_bytes r
    mapped ← unwrap_with_msg (to_case u lower text)
    string_or_clone r mapped

  unfoldable pub to_uppercase : Repr → M Heap Repr
  to_uppercase r = do
    text ← Repr.as_bytes r
    mapped ← unwrap_with_msg (to_case u upper text)
    string_or_clone r mapped

  -- `map_or_else(|| self.clone(), |mapped| LeanString(mapped).into_lean_str())`
  abbrev pub str_or_clone : Repr → Option Repr → M Heap Repr
  str_or_clone r none = LeanStr.clone r
  str_or_clone r (some q) = into_lean_str q

  -- `LeanStr::to_lowercase`, `LeanStr::to_uppercase`
  unfoldable pub str_to_lowercase : Repr → M Heap Repr
  str_to_lowercase r = do
    text ← Repr.as_bytes r
    mapped ← unwrap_with_msg (to_case u lower text)
    str_or_clone r mapped

  unfoldable pub str_to_uppercase : Repr → M Heap Repr
  str_to_uppercase r = do
    text ← Repr.as_bytes r
    mapped ← unwrap_with_msg (to_case u upper text)
    str_or_clone r mapped

module _ {refs : ℕ → ℕ} {m : Mutability} {h : Heap} {text new : Bytes} where
  -- A panicking call behind the mapping.
  after_case :
      {o : Outcome Heap (Option Repr)} (next : Option Repr → M Heap Repr)
      → Ends (CaseMapped refs h text new) (Cleared refs h) o
      → (new ≡ text → Beside refs m h new (next none h))
      → ((q : Repr) (g : Heap)
          → Owns refs mutable (at_state q g) new
          → Same refs h g
          → Beside refs m h new (next (some q) g))
      → Beside refs m h new (and_then (unwrapped o) next)
  after_case next (returns (same_text e same)) clone go =
      subst (λ g. Beside refs m h new (next none g)) (sym same) (clone e)
  after_case next (returns (new_text own same)) clone go = go _ _ own same
  after_case next (fails clear) clone go = out_of_memory clear.0 clear.1

module _ ⦃A : Allocator⦄ (u : Unicode) {refs : ℕ → ℕ} {h : Heap} {r : Repr} {text : Bytes} where
  string_case :
      (case : Case)
      → Owns refs mutable (at_state r h) text
      → Beside
          (with_self refs r)
          mutable
          h
          (u.to_text_case case text)
          (and_then (unwrapped (to_case u case text h)) (string_or_clone u r))
  unfolding LeanString.clone
  string_case case o =
      after_case (string_or_clone u r) (to_case-CaseMapped u case o.counted o.valid)
        (λ e.
          subst (λ t. Beside (with_self refs r) mutable h t (LeanString.clone r h)) (sym e)
            (Cloned-Beside (make_shallow_clone-Cloned o)))
        (λ q g own same. made own same)

  str_case :
      (case : Case)
      → Owns refs immutable (at_state r h) text
      → Beside
          (with_self refs r)
          immutable
          h
          (u.to_text_case case text)
          (and_then (unwrapped (to_case u case text h)) (str_or_clone u r))
  unfolding LeanStr.clone into_lean_str unwrap_with_msg
  str_case case o =
      after_case (str_or_clone u r) (to_case-CaseMapped u case o.counted o.valid)
        (λ e.
          subst (λ t. Beside (with_self refs r) immutable h t (LeanStr.clone r h)) (sym e)
            (Cloned-Beside (make_shallow_clone-Cloned o)))
        (λ q g own same. Moved-Beside same (try_into_lean_str-Moved own))

  -- On a sound `LeanString`, `to_lowercase` returns a sound string with the text that
  -- `str::to_lowercase` gives, or panics; the string and all others keep their texts, and a panic
  -- leaves no reference behind.
  pub to_lowercase-Beside :
      Owns refs mutable (at_state r h) text
      → Beside (with_self refs r) mutable h (u.to_text_case lower text) (to_lowercase u r h)
  unfolding to_lowercase unwrap_with_msg
  to_lowercase-Beside o = rw (as_bytes_lem o.content) (string_case lower o)

  -- The same for `to_uppercase` and `str::to_uppercase`.
  pub to_uppercase-Beside :
      Owns refs mutable (at_state r h) text
      → Beside (with_self refs r) mutable h (u.to_text_case upper text) (to_uppercase u r h)
  unfolding to_uppercase unwrap_with_msg
  to_uppercase-Beside o = rw (as_bytes_lem o.content) (string_case upper o)

  -- On a sound `LeanStr`, `to_lowercase` returns a sound `LeanStr` with the text that
  -- `str::to_lowercase` gives, or panics; the string and all others keep their texts, and a panic
  -- leaves no reference behind.
  pub str_to_lowercase-Beside :
      Owns refs immutable (at_state r h) text
      → Beside (with_self refs r) immutable h (u.to_text_case lower text) (str_to_lowercase u r h)
  unfolding str_to_lowercase unwrap_with_msg
  str_to_lowercase-Beside o = rw (as_bytes_lem o.content) (str_case lower o)

  -- The same for `to_uppercase` and `str::to_uppercase`.
  pub str_to_uppercase-Beside :
      Owns refs immutable (at_state r h) text
      → Beside (with_self refs r) immutable h (u.to_text_case upper text) (str_to_uppercase u r h)
  unfolding str_to_uppercase unwrap_with_msg
  str_to_uppercase-Beside o = rw (as_bytes_lem o.content) (str_case upper o)
