-- ===== src/Repr/Appends.antt =====
-- Appends in a row: chars or texts pushed one by one, up to the first that is refused.
use mathlib.Core.List.{map}
use lean_string.Prelude.{
  ℕ, ◌≡◌, refl, sym, ap, subst, List, [], ◌∷◌, ◌++◌, append-nil, append_assoc, All,
}
use lean_string.Utf8.{Bytes, IsScalar, encode_utf8}
use lean_string.Utf8.Chars.{joined}
use lean_string.Memory.{Heap, Allocator, Outcome, done, failed, M, pure, and_then, ◌>>◌}
use lean_string.Memory.Ends.{Ends, returns, fails}
use lean_string.HeapBuffer.{mutable}
use lean_string.Repr.{State}
use lean_string.Repr.Edit.{push_char}
use lean_string.Repr.Owns.{Keeps}
use lean_string.Repr.Fill.{Keeps-after}
use lean_string.Repr.Text.{push_char-appends}

module _ ⦃A : Allocator⦄ where
  -- `try_for_each(|c| self.push_char(c))`
  unfoldable pub push_chars : List ℕ → M State (Unit {0})
  push_chars [] = pure tt
  push_chars (c ∷ cs) = do push_char c; push_chars cs

-- All pieces stand behind the text; or one was refused, and those before it stand there.
pub data Appended (refs : ℕ → ℕ) (h : Heap) (text : Bytes) (pieces : List Bytes)
    : Outcome State (Unit {0}) → Type 0 where
  appended :
      {s : State}
      → Keeps refs mutable h (text ++ joined pieces) s
      → Appended refs h text pieces (done tt s)
  refused :
      {s : State} (before after : List Bytes) (piece : Bytes)
      → before ++ (piece ∷ after) ≡ pieces
      → Keeps refs mutable h (text ++ joined before) s
      → Appended refs h text pieces (failed s)

module _ {refs : ℕ → ℕ} {h : Heap} (text : Bytes) where
  -- Nothing is appended yet.
  pub none_yet :
      {s : State} → Keeps refs mutable h text s → Keeps refs mutable h (text ++ joined []) s
  unfolding joined
  none_yet {s} k = subst (λ x. Keeps refs mutable h x s) (sym (append-nil text)) k

  pub one_more :
      {s : State} (piece : Bytes) (pieces : List Bytes)
      → Keeps refs mutable h ((text ++ piece) ++ joined pieces) s
      → Keeps refs mutable h (text ++ joined (piece ∷ pieces)) s
  unfolding joined
  one_more {s} piece pieces k =
      subst (λ x. Keeps refs mutable h x s) (append_assoc text piece (joined pieces)) k

module _ {refs : ℕ → ℕ} {h : Heap} {text : Bytes} where
  pub Appended-cons :
      {piece : Bytes} {pieces : List Bytes} {o : Outcome State (Unit {0})}
      → Appended refs h (text ++ piece) pieces o
      → Appended refs h text (piece ∷ pieces) o
  Appended-cons {piece} {pieces} (appended k) = appended (one_more text piece pieces k)
  Appended-cons {piece} (refused before after p e k) =
      refused (piece ∷ before) after p (ap (λ t. piece ∷ t) e) (one_more text piece before k)

module _ {refs : ℕ → ℕ} {h : Heap} {text piece : Bytes} {pieces : List Bytes} {s : State} where
  -- A first append that may fail, and the others behind it.
  pub append_first :
      {o : Outcome State (Unit {0})} {next : M State (Unit {0})}
      → Keeps refs mutable h text s
      → Ends (λ _ t. Keeps refs mutable s.heap (text ++ piece) t) (λ t. t ≡ s) o
      → ((t : State)
          → Keeps refs mutable h (text ++ piece) t
          → Appended refs h (text ++ piece) pieces (next t))
      → Appended refs h text (piece ∷ pieces) (and_then o (λ _. next))
  append_first k (returns p) go = Appended-cons (go _ (Keeps-after k.same p))
  append_first k (fails e) go =
      subst (λ t. Appended refs h text (piece ∷ pieces) (failed t)) (sym e)
        (refused [] pieces piece refl (none_yet _ k))

module _ ⦃A : Allocator⦄ {refs : ℕ → ℕ} {h : Heap} where
  pub push_chars-Appended :
      (cs : List ℕ) (text : Bytes) (s : State)
      → All IsScalar cs
      → Keeps refs mutable h text s
      → Appended refs h text (map encode_utf8 cs) (push_chars cs s)
  unfolding push_chars
  push_chars-Appended [] text s sc k = appended (none_yet _ k)
  push_chars-Appended (c ∷ cs) text s (sc, scs) k =
      append_first k (push_char-appends k.owns c sc)
        (λ t q. push_chars-Appended cs (text ++ encode_utf8 c) t scs q)
