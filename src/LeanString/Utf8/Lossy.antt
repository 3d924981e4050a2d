-- ===== src/LeanString/Utf8/Lossy.antt =====
-- What the UTF-8 constructors return.
use lean_string.Prelude.{
  ℕ, ◌≡◌, ◌∙◌, refl, sym, subst, inl, inr, true, false, Option, none, some, List, [], ◌∷◌, ◌++◌,
  arith, ◌==◌, Bool-cases, if◌then◌else◌, length, All,
}
use lean_string.Utf8.{Bytes, IsUtf8, encode_utf8}
use lean_string.Utf8.Chars.{joined}
use lean_string.Memory.{Heap, Allocator, Outcome, M, done, panicked, pure, and_then}
use lean_string.Memory.Ends.{Ends, returns, fails}
use lean_string.Memory.Counted.{Counted, Same, Same-refl}
use lean_string.HeapBuffer.{mutable}
use lean_string.Repr.{Repr, State}
use lean_string.Repr.Owns.{Owns, Keeps}
use lean_string.Repr.Place.{at_state}
use lean_string.Repr.Text.{push_str-appends, push_char-appends}
use lean_string.Repr.Appends.{none_yet}
use lean_string.Repr.Fresh.{New, from_str-New}
use lean_string.Repr.Literal.{Empty, with_capacity-Empty}
use lean_string.LeanString.{unwrapped, unwrap_with_msg, push, try_push, push_str, try_push_str}
use lean_string.LeanString.Make
use lean_string.LeanString.Make.{try_with_capacity, with_capacity}
use lean_string.LeanString.Beside.{Beside, out_of_memory}
use lean_string.LeanString.Collect.Extended.{Extended, extended, extend_first}
use lean_string.LeanString.Collect.Collected.{collected-Beside}
use lean_string.LeanString.Utf8.{Validation, replacement, push_chunks, from_utf8, from_utf8_lossy}

-- The valid parts, with a replacement character for each invalid one.
unfoldable pub lossy_pieces : List (Bytes × Bytes) → List Bytes
lossy_pieces [] = []
lossy_pieces ((valid, invalid) ∷ chunks) =
    let rest = lossy_pieces chunks in
    valid ∷ (if length invalid == 0 then rest else encode_utf8 replacement ∷ rest)

module _ ⦃A : Allocator⦄ {refs : ℕ → ℕ} {h : Heap} where
  push_chunks-Extended :
      (chunks : List (Bytes × Bytes)) (text : Bytes) (s : State)
      → All (λ c. IsUtf8 c.0) chunks
      → Keeps refs mutable h text s
      → Extended refs h text (lossy_pieces chunks) (push_chunks chunks s)
  unfolding push_chunks lossy_pieces push_str unwrap_with_msg try_push_str push try_push
  push_chunks-Extended [] text s all k = extended (none_yet text k)
  push_chunks-Extended ((valid, invalid) ∷ chunks) text s (u, us) k =
      extend_first k (push_str-appends k.owns valid u) λ t q.
        elim (Bool-cases (length invalid == 0)) [
          | inl clean ↦ rw clean (push_chunks-Extended chunks (text ++ valid) t us q)
          | inr broken ↦ rw broken (
              extend_first q (push_char-appends q.owns replacement (inr (omega arith, omega arith)))
                λ t' q'.
                  push_chunks-Extended chunks ((text ++ valid) ++ encode_utf8 replacement) t' us q')
        ]

  -- A new buffer, or a panic without one.
  pub with_buffer :
      {cap : ℕ} {text : Bytes} {o : Outcome Heap Repr} {next : Repr → M Heap Repr}
      → Counted refs h
      → Ends (Empty refs h cap) (λ g. g ≡ h) o
      → ((q : Repr) (g : Heap)
          → Owns refs mutable (at_state q g) []
          → Same refs h g
          → Beside refs mutable h text (next q g))
      → Beside refs mutable h text (and_then (unwrapped o) next)
  with_buffer k (returns e) go = go _ _ e.fresh.owns e.fresh.same
  with_buffer {text} k (fails e) go =
      subst (λ g. Beside refs mutable h text (panicked g)) (sym e)
        (out_of_memory k (Same-refl refs h))

-- The string of a valid text; or the error for any other; or a panic.
pub data FromUtf8 (refs : ℕ → ℕ) (h : Heap) (buf : Bytes)
    : Outcome Heap (Option Repr) → Type 0 where
  valid_text :
      {q : Repr} {g : Heap}
      → Owns refs mutable (at_state q g) buf
      → Same refs h g
      → FromUtf8 refs h buf (done (some q) g)
  utf8_error : {g : Heap} → ¬ (IsUtf8 buf) → g ≡ h → FromUtf8 refs h buf (done none g)
  gave_up : {g : Heap} → IsUtf8 buf → g ≡ h → FromUtf8 refs h buf (panicked g)

module _ ⦃A : Allocator⦄ (v : Validation) {refs : ℕ → ℕ} {h : Heap} (k : Counted refs h) where
  -- Where all reference counts are right, `from_utf8` returns a sound string of the bytes if they
  -- are a valid text, or the error exactly if they are not, or panics on a valid text without
  -- changing anything; everything that others refer to is unchanged.
  pub from_utf8-FromUtf8 : (buf : Bytes) → FromUtf8 refs h buf (from_utf8 v buf h)
  unfolding from_utf8 Make.from unwrap_with_msg
  from_utf8-FromUtf8 buf = elim (Bool-cases (v.is_valid buf)) [
    | inl good ↦
        rw good (after (v.accepted buf good) (from_str-New k mutable buf (v.accepted buf good)))
    | inr bad ↦
        rw bad (utf8_error (λ u. absurd (true_not_false (sym (v.accepts buf u) ∙ bad))) refl)
  ]
    where
      true_not_false : true ≡ false → ⊥
      true_not_false e = cc

      after :
          {o : Outcome Heap Repr}
          → IsUtf8 buf
          → Ends (New refs mutable h buf) (λ g. g ≡ h) o
          → FromUtf8 refs h buf (and_then (unwrapped o) (λ r. pure (some r)))
      after u (returns n) = valid_text n.owns n.same
      after u (fails e) = gave_up u e

  -- Where all reference counts are right, `from_utf8_lossy` returns a sound string of the valid
  -- parts, with a replacement character in the place of each invalid part, or panics and leaves
  -- no reference behind; everything that others refer to is unchanged.
  pub from_utf8_lossy-Beside :
      (buf : Bytes)
      → Beside refs mutable h (joined (lossy_pieces (v.utf8_chunks buf))) (from_utf8_lossy v buf h)
  unfolding from_utf8_lossy with_capacity unwrap_with_msg try_with_capacity
  from_utf8_lossy-Beside buf = with_buffer k (with_capacity-Empty (length buf) k) λ q g own same.
      collected-Beside (
        push_chunks-Extended (v.utf8_chunks buf) [] (at_state q g) (v.valid_parts buf)
          (record { owns = own; same = same }))
