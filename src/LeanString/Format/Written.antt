-- ===== src/LeanString/Format/Written.antt =====
-- What `write_fmt` leaves in a string.
use lean_string.Prelude.{
  ℕ, ◌≡◌, refl, sym, ap, subst, ◌∙◌, inl, inr, Bool, true, not, ◌&&◌, Option, none, some, [], ◌∷◌,
  ◌++◌, append-nil, append_assoc, arith, ◌==◌, Bool-cases, length,
}
use lean_string.Utf8.{Bytes, IsUtf8}
use lean_string.Memory.{
  Heap, Allocator, Outcome, Result, done, panicked, M, pure, and_then, ◌>>=◌, ◌>>◌,
}
use lean_string.Memory.Ends.{Ends, returns, fails}
use lean_string.Memory.Counted.{Counted, Same}
use lean_string.HeapBuffer.{mutable}
use lean_string.Repr
use lean_string.Repr.{Repr, State, replace_inner}
use lean_string.Repr.Owns.{Content, with_self, Owns, Keeps}
use lean_string.Repr.Queries.{len_lem}
use lean_string.Repr.Room.{Replaced, Content-Same, replace_inner-Replaced}
use lean_string.Repr.Fill.{Keeps-after}
use lean_string.Repr.Text.{unchanged, push_str-appends}
use lean_string.Repr.Literal.{Borrowed, borrowed, too_long, from_static_str-Borrowed}
use lean_string.LeanString.{unwrapped, unwrap_with_msg, push_str, try_push_str}
use lean_string.LeanString.Make.{or_panic, from_static_str, is_empty, is_heap_allocated}
use lean_string.LeanString.Format.{
  Formatting, finish, unwind, write, Arguments, write_all, write_constant, write_either, write_fmt,
  formatted, succeeds, Valid,
}

-- All that is written stands behind the text, and the formatter's answer is returned; or there is a
-- panic, and a part of it stands there.
pub data Written (refs : ℕ → ℕ) (h : Heap) (text out : Bytes) (answer : Option Bool)
    : Outcome State Bool → Type 0 where
  all_written :
      {s : State} {b : Bool}
      → answer ≡ some b
      → Keeps refs mutable h (text ++ out) s
      → Written refs h text out answer (done b s)
  interrupted :
      {s : State} (before after : Bytes)
      → before ++ after ≡ out
      → Keeps refs mutable h (text ++ before) s
      → Written refs h text out answer (panicked s)

-- What arguments write, the answer, and what the type `str` guarantees: the constant text, if there is
-- one.
abbrev pub text_either : Option Bytes → Formatting → Bytes
text_either none f = formatted f
text_either (some str) f = str

abbrev pub answer_either : Option Bytes → Formatting → Option Bool
answer_either none f = succeeds f
answer_either (some str) f = some true

abbrev pub ValidEither : Option Bytes → Formatting → Type 0
ValidEither none f = Valid f
ValidEither (some str) f = IsUtf8 str

module _ {refs : ℕ → ℕ} {h : Heap} {text : Bytes} (piece : Bytes) {out : Bytes}
    {answer : Option Bool} where
  Written-more :
      {o : Outcome State Bool}
      → Written refs h (text ++ piece) out answer o
      → Written refs h text (piece ++ out) answer o
  Written-more (all_written {s} e k) =
      all_written e (subst (λ t. Keeps refs mutable h t s) (append_assoc text piece out) k)
  Written-more (interrupted {s} before after e k) =
      interrupted (piece ++ before) after (append_assoc piece before after ∙ ap (λ t. piece ++ t) e)
        (subst (λ t. Keeps refs mutable h t s) (append_assoc text piece before) k)

  -- A panicking append, and what follows it.
  append_then :
      {s : State} {o : Outcome State (Unit {0})} {next : M State Bool}
      → Keeps refs mutable h text s
      → Ends (λ _ t. Keeps refs mutable s.heap (text ++ piece) t) (λ t. t ≡ s) o
      → ((t : State)
          → Keeps refs mutable h (text ++ piece) t
          → Written refs h (text ++ piece) out answer (next t))
      → Written refs h text (piece ++ out) answer (and_then (unwrapped o) (λ _. next))
  append_then k (returns p) go = Written-more (go _ (Keeps-after k.same p))
  append_then {s} k (fails e) go =
      subst (λ t. Written refs h text (piece ++ out) answer (panicked t)) (sym e)
        (interrupted [] (piece ++ out) refl
          (subst (λ t. Keeps refs mutable h t s) (sym (append-nil text)) k))

module _ ⦃A : Allocator⦄ {refs : ℕ → ℕ} {h : Heap} where
  nothing_more :
      {text : Bytes} {b : Bool} {s : State}
      → Keeps refs mutable h text s
      → Written refs h text [] (some b) (done b s)
  nothing_more {text} {s} k =
      all_written refl (subst (λ t. Keeps refs mutable h t s) (sym (append-nil text)) k)

  write_all-Written :
      (f : Formatting) (text : Bytes) (s : State)
      → Valid f
      → Keeps refs mutable h text s
      → Written refs h text (formatted f) (succeeds f) (write_all f s)
  unfolding write_all formatted succeeds push_str unwrap_with_msg try_push_str
  write_all-Written (finish answer) text s v k = nothing_more k
  write_all-Written unwind text s v k =
      interrupted [] [] refl (subst (λ t. Keeps refs mutable h t s) (sym (append-nil text)) k)
  write_all-Written (write p next) text s (v, vs) k =
      append_then p k (push_str-appends k.owns p v)
        (λ t q. write_all-Written (next true) (text ++ p) t (vs true) q)

no_bytes : (text : Bytes) → (length text == 0) ≡ true → text ≡ []
no_bytes [] e = refl
no_bytes (b ∷ text) e = absurd (ground arith)

module _ ⦃A : Allocator⦄ {refs : ℕ → ℕ} {s : State} {text : Bytes}
    (o : Owns refs mutable s text) where
  -- The constant text takes the place of an empty string.
  placed :
      {q : Repr} {new : Bytes}
      → IsUtf8 new
      → Content mutable s.heap q new
      → ((refs : ℕ → ℕ) → with_self refs q ≡ refs)
      → Written refs s.heap [] new
          (some true)
          (and_then (replace_inner mutable q s) (λ _. pure true))
  placed {q} {new} v c off_heap =
      after (replace_inner-Replaced {refs = refs} {E = λ _. ⊥} q o.content o.counted)
    where
      after :
          {x : Outcome State (Unit {0})}
          → Ends (λ _ t. Replaced refs s.heap q t) (λ _. ⊥) x
          → Written refs s.heap [] new (some true) (and_then x (λ _. pure true))
      after (returns {s = t} p) = all_written refl (
          subst (Keeps refs mutable s.heap new) (sym p.state) (record {
            owns = record {
              valid = v;
              content =
                  Content-Same refs c
                    (subst (λ r. Same r s.heap p.after) (sym (off_heap refs)) p.same);
              counted = subst (λ r. Counted r p.after) (sym (off_heap refs)) p.counted;
            };
            same = p.same;
          }))
      after (fails e) = absurd e

  constant-Written :
      (str : Bytes)
      → IsUtf8 str
      → text ≡ []
      → {r : Result Repr} → Borrowed mutable s.heap str r
      → Written refs s.heap text str
          (some true)
          (((or_panic r >>= λ new. replace_inner mutable new) >> pure true) s)
  constant-Written str v e (borrowed {r = q} n c off_heap) =
      subst (λ t. Written refs s.heap t str (some true) ((replace_inner mutable q >> pure true) s))
        (sym e) (placed v c off_heap)
  constant-Written str v e (too_long n) =
      interrupted [] str refl
        (subst (λ t. Keeps refs mutable s.heap t s) (sym (append-nil text)) (unchanged o))

  write_constant-Written :
      (str : Bytes) → IsUtf8 str → Written refs s.heap text str (some true) (write_constant str s)
  unfolding is_empty Repr.is_empty is_heap_allocated from_static_str
  write_constant-Written str v =
      rw (len_lem o.content)
        (elim (Bool-cases ((length text == 0) && not (Repr.is_heap_buffer s.self))) [
          | inl bare ↦ rw bare (
              constant-Written str v (no_bytes text (ground arith))
                (from_static_str-Borrowed mutable s.heap str v))
          | inr other ↦ rw other (appended str v)
        ])
    where
      appended :
          (str : Bytes)
          → IsUtf8 str
          → Written refs s.heap text str (some true) ((push_str str >> pure true) s)
      appended str v =
          unfold push_str unwrap_with_msg try_push_str in
          subst (λ t. Written refs s.heap text t (some true) ((push_str str >> pure true) s))
            (append-nil str)
            (append_then str (unchanged o) (push_str-appends o str v) (λ t k. nothing_more k))

  -- On a sound string and for valid arguments, `write_fmt` returns the answer of the formatter
  -- with all that is written behind the text, the constant text of arguments with nothing to
  -- format included, or panics with a part of it behind the text; the string is sound and
  -- everything that others refer to is unchanged.
  pub write_fmt-Written :
      (args : Arguments)
      → ValidEither args.as_str args.formatting
      → Written refs s.heap text
          (text_either args.as_str args.formatting)
          (answer_either args.as_str args.formatting)
          (write_fmt args s)
  unfolding write_fmt
  write_fmt-Written args v = by_constant args.as_str args.formatting v
    where
      by_constant :
          (constant : Option Bytes) (f : Formatting)
          → ValidEither constant f
          → Written refs s.heap text
              (text_either constant f)
              (answer_either constant f)
              (write_either constant f s)
      by_constant none f v = write_all-Written f text s v (unchanged o)
      by_constant (some str) f v = write_constant-Written str v
