-- ===== src/LeanString/Collect/Extended.antt =====
-- What the loops of `Extend` over chars and slices leave.
use mathlib.Core.List.{map}
use lean_string.Prelude.{ℕ, ◌≡◌, refl, sym, ap, subst, List, [], ◌∷◌, ◌++◌, All}
use lean_string.Utf8.{Bytes, IsScalar, IsUtf8, encode_utf8}
use lean_string.Utf8.Chars.{joined}
use lean_string.Memory.{Heap, Allocator, Outcome, done, panicked, M, and_then}
use lean_string.Memory.Ends.{Ends, returns, fails}
use lean_string.HeapBuffer.{mutable}
use lean_string.Repr.{State}
use lean_string.Repr.Owns.{Owns, Keeps}
use lean_string.Repr.Fill.{Keeps-after}
use lean_string.Repr.Text.{unchanged, push_str-appends, push_char-appends, reserve-Keeps}
use lean_string.Repr.Appends.{none_yet, one_more}
use lean_string.LeanString.{
  unwrapped, unwrap_with_msg, push, try_push, push_str, try_push_str, try_reserve,
}
use lean_string.LeanString.Collect.{ignored, push_each, extend_chars, extend_strs}

-- All pieces stand behind the text; or there is a panic at one of them, and those before it do.
pub data Extended (refs : ℕ → ℕ) (h : Heap) (text : Bytes) (pieces : List Bytes)
    : Outcome State (Unit {0}) → Type 0 where
  extended :
      {s : State}
      → Keeps refs mutable h (text ++ joined pieces) s
      → Extended refs h text pieces (done tt s)
  interrupted :
      {s : State} (before : List Bytes) (piece : Bytes) (after : List Bytes)
      → before ++ (piece ∷ after) ≡ pieces
      → Keeps refs mutable h (text ++ joined before) s
      → Extended refs h text pieces (panicked s)

module _ {refs : ℕ → ℕ} {h : Heap} {text : Bytes} where
  pub Extended-cons :
      {piece : Bytes} {pieces : List Bytes} {o : Outcome State (Unit {0})}
      → Extended refs h (text ++ piece) pieces o
      → Extended refs h text (piece ∷ pieces) o
  Extended-cons {piece} {pieces} (extended k) = extended (one_more text piece pieces k)
  Extended-cons {piece} (interrupted before p after e k) =
      interrupted (piece ∷ before) p after (ap (λ t. piece ∷ t) e) (one_more text piece before k)

  -- A call that panics where it could not append, and the others behind it.
  pub extend_first :
      {piece : Bytes} {pieces : List Bytes} {s : State} {o : Outcome State (Unit {0})}
      {next : M State (Unit {0})}
      → Keeps refs mutable h text s
      → Ends (λ _ t. Keeps refs mutable s.heap (text ++ piece) t) (λ t. t ≡ s) o
      → ((t : State)
          → Keeps refs mutable h (text ++ piece) t
          → Extended refs h (text ++ piece) pieces (next t))
      → Extended refs h text (piece ∷ pieces) (and_then (unwrapped o) (λ _. next))
  extend_first k (returns p) go = Extended-cons (go _ (Keeps-after k.same p))
  extend_first {piece} {pieces} k (fails e) go =
      subst (λ t. Extended refs h text (piece ∷ pieces) (panicked t)) (sym e)
        (interrupted [] piece pieces refl (none_yet text k))

  -- A reservation whose error is ignored.
  after_ignored :
      {pieces : List Bytes} {s : State} {o : Outcome State (Unit {0})} {next : M State (Unit {0})}
      → Keeps refs mutable h text s
      → Ends (λ _ t. Keeps refs mutable s.heap text t) (λ t. t ≡ s) o
      → ((t : State) → Keeps refs mutable h text t → Extended refs h text pieces (next t))
      → Extended refs h text pieces (and_then (ignored o) (λ _. next))
  after_ignored k (returns p) go = go _ (Keeps-after k.same p)
  after_ignored {pieces} {next} k (fails e) go =
      subst (λ t. Extended refs h text pieces (next t)) (sym e) (go _ k)

module _ ⦃A : Allocator⦄ {refs : ℕ → ℕ} {h : Heap} where
  pub push_each-Extended :
      (cs : List ℕ) (text : Bytes) (s : State)
      → All IsScalar cs
      → Keeps refs mutable h text s
      → Extended refs h text (map encode_utf8 cs) (push_each cs s)
  unfolding push_each push unwrap_with_msg try_push
  push_each-Extended [] text s sc k = extended (none_yet text k)
  push_each-Extended (c ∷ cs) text s (sc, scs) k =
      extend_first k (push_char-appends k.owns c sc)
        (λ t q. push_each-Extended cs (text ++ encode_utf8 c) t scs q)

  strs-Extended :
      (ss : List Bytes) (text : Bytes) (s : State)
      → All IsUtf8 ss
      → Keeps refs mutable h text s
      → Extended refs h text ss (extend_strs ss s)
  unfolding extend_strs push_str unwrap_with_msg try_push_str
  strs-Extended [] text s v k = extended (none_yet text k)
  strs-Extended (p ∷ ss) text s (v, vs) k =
      extend_first k (push_str-appends k.owns p v) (λ t q. strs-Extended ss (text ++ p) t vs q)

module _ ⦃A : Allocator⦄ {refs : ℕ → ℕ} {s : State} {text : Bytes}
    (o : Owns refs mutable s text) where
  -- On a sound string and for scalar values, whatever bound `size_hint` gives, `extend` returns
  -- with all chars behind the text, or panics with those before one of them behind it; the
  -- string is sound and everything that others refer to is unchanged.
  pub extend_chars-Extended :
      (lower_bound : ℕ) (cs : List ℕ)
      → All IsScalar cs
      → Extended refs s.heap text (map encode_utf8 cs) (extend_chars lower_bound cs s)
  unfolding extend_chars try_reserve
  extend_chars-Extended lower_bound cs sc =
      after_ignored (unchanged o) (reserve-Keeps o lower_bound)
        (λ t k. push_each-Extended cs text t sc k)

  -- The same for valid texts.
  pub extend_strs-Extended :
      (ss : List Bytes) → All IsUtf8 ss → Extended refs s.heap text ss (extend_strs ss s)
  extend_strs-Extended ss v = strs-Extended ss text s v (unchanged o)
