-- ===== src/Repr/Retain/Keep.antt =====
-- `retain` leaves the chars for which the predicate holds.
use lean_string.Prelude.{
  ℕ, ◌+◌, ◌≤◌, ◌≡◌, refl, sym, ap, subst, ◌∙◌, Bool, true, false, if◌then◌else◌, Option, some, List,
  [], ◌∷◌, ◌++◌, arith, length, length-append, take, drop, drop-drop, All, All-append,
}
use lean_string.Utf8.{Bytes, IsScalar, len_utf8, encode_utf8, encode}
use lean_string.Utf8.Shape.{All-left, All-right, IsUtf8-encode, length-encode_utf8, encode-append}
use lean_string.Memory.{Heap, Allocator, Outcome, done, failed, panicked, pure, panic, and_then}
use lean_string.Memory.Ends.{Ends, returns, fails, bind, weaken}
use lean_string.HeapBuffer.{mutable}
use lean_string.Repr.{State}
use lean_string.Repr.Edit.{set_len}
use lean_string.Repr.Owns.{Owns, Keeps}
use lean_string.Repr.Queries.{as_bytes_lem, len_lem}
use lean_string.Repr.Place.{set_len-Keeps}
use lean_string.Repr.Fill.{Ready, Keeps-after}
use lean_string.Repr.Text.{unchanged}
use lean_string.Repr.Fresh.{ensure_modifiable-Own}
use lean_string.Repr.Cut.Remove.{Own-Ready}
use lean_string.Repr.Retain.{Predicate, retain_from, retain}
use lean_string.Repr.Retain.Chars.{
  chars_le, two_parts, panics, holds, refuses, answer, retained, left_over, Found, all_kept,
  all_left, removed_at, find_removed-Found,
}
use lean_string.Repr.Retain.Running.{Running, Compacted}
use lean_string.Repr.Retain.Loop.{keep_loop-Compacted}

retained-IsScalar :
    {P : Type 0} (predicate : Predicate P) (p : P) (cs : List ℕ)
    → All IsScalar cs
    → All IsScalar (retained predicate p cs).0
unfolding retained
retained-IsScalar predicate p [] h = tt
retained-IsScalar predicate p (c ∷ cs) (sc, h) = elim (answer (predicate p c)) [
  | panics said ↦ rw said tt
  | holds q said ↦ rw said (sc, retained-IsScalar predicate q cs h)
  | refuses q said ↦ rw said (retained-IsScalar predicate q cs h)
]

-- The loop starts behind the first char that is removed.
start :
    {refs : ℕ → ℕ} {text : Bytes} {t : State} (before after : List ℕ) (c i : ℕ)
    → encode (before ++ (c ∷ after)) ≡ text
    → i ≡ length (encode before)
    → Ready refs t.heap text (length text) t.self
    → Running refs (length text) (i + len_utf8 c) i before after t
unfolding encode
start {text} before after c i spells at q =
    let whole : text ≡ encode before ++ (encode_utf8 c ++ encode after) =
      sym spells ∙ encode-append before (c ∷ after) in
    let all : take (length (encode before ++ (encode_utf8 c ++ encode after))) q.bytes
        ≡ encode before ++ (encode_utf8 c ++ encode after) =
      subst (λ x. take (length x) q.bytes ≡ x) whole q.begins in
    let parts = two_parts q.bytes (encode before) (encode_utf8 c ++ encode after) all in
    let rest =
      two_parts (drop (length (encode before)) q.bytes) (encode_utf8 c) (encode after) parts.1 in
    let w = length-encode_utf8 c in
    let size : length text
        ≡ length (encode before) + (length (encode_utf8 c) + length (encode after)) =
      omega (
        arith,
        ap length whole,
        length-append (encode before) (encode_utf8 c ++ encode after),
        length-append (encode_utf8 c) (encode after),
      ) in
    record {
      bytes = q.bytes;
      opened = q.opened;
      kept = ap (λ n. take n q.bytes) at ∙ parts.0;
      at = at;
      left =
          ap (λ n. take (length (encode after)) (drop n q.bytes))
            {y = length (encode before) + length (encode_utf8 c)} (omega (arith, at, w))
          ∙ ap (take (length (encode after)))
              (sym (drop-drop (length (encode before)) (length (encode_utf8 c)) q.bytes))
          ∙ rest.1;
      ends = omega (arith, at, w, size);
      order = omega arith;
      room = q.room;
    }

-- The length set behind the chars that are left.
cut_behind :
    {refs : ℕ → ℕ} {h : Heap} {E : State → Type 0} {cs : List ℕ} (d : ℕ) {s : State}
    → All IsScalar cs
    → Compacted refs h cs d s
    → Ends (λ _ t. Keeps refs mutable h (encode cs) t) E (set_len d s)
cut_behind {refs} {h} {E} {cs} d {s} sc k =
    subst (λ n. Ends (λ _ t. Keeps refs mutable h (encode cs) t) E (set_len n s)) (sym k.at)
      (weaken
        (set_len-Keeps (encode cs) k.opened (IsUtf8-encode cs sc) (omega (arith, k.at, k.room))
          (ap (λ n. take n k.bytes) (sym k.at) ∙ k.front))
        (λ _ t x. Keeps-after k.same x) (λ t x. x))

-- How `retain` ends: with the chars that are left, and a panic if the predicate panicked, or with an
-- error and the string as it was.
pub data Retained (refs : ℕ → ℕ) (s : State) (left : List ℕ × Bool)
    : Outcome State (Unit {0}) → Type 0 where
  retains :
      {t : State}
      → left.1 ≡ false
      → Keeps refs mutable s.heap (encode left.0) t
      → Retained refs s left (done tt t)
  unwinds :
      {t : State}
      → left.1 ≡ true
      → Keeps refs mutable s.heap (encode left.0) t
      → Retained refs s left (panicked t)
  fails_before : {t : State} → t ≡ s → Retained refs s left (failed t)

unwound :
    {refs : ℕ → ℕ} {s t : State} {left : List ℕ × Bool} (b : Bool)
    → left.1 ≡ b
    → Keeps refs mutable s.heap (encode left.0) t
    → Retained refs s left ((if b then panic else pure tt) t)
unwound true e k = unwinds e k
unwound false e k = retains e k

module _ ⦃A : Allocator⦄ {P : Type 0} (predicate : Predicate P) {refs : ℕ → ℕ} {s : State}
    (cs : List ℕ) (sc : All IsScalar cs) (o : Owns refs mutable s (encode cs)) where
  abbrev Left : List ℕ × Bool → Outcome State Bool → Type 0
  Left left = Ends (λ b t. (left.1 ≡ b) × Keeps refs mutable s.heap (encode left.0) t) (λ t. t ≡ s)

  -- What is done when a char is removed.
  rest_from :
      (q : P) {i : ℕ} (c : ℕ) (before after : List ℕ)
      → before ++ (c ∷ after) ≡ cs
      → i ≡ length (encode before)
      → Left
          (before ++ (retained predicate q after).0, (retained predicate q after).1)
          (retain_from predicate (some (some (i, c), q)) s)
  rest_from q {i} c before after whole at =
      let spelt = subst (All IsScalar) (sym whole) sc in
      let later = (All-right IsScalar before (c ∷ after) spelt).1 in
      let fuel : length after ≤ length (encode cs) =
        omega (arith, chars_le cs, ap length whole, length-append before (c ∷ after)) in
      let valid =
        All-append IsScalar before (retained predicate q after).0
          (All-left IsScalar before (c ∷ after) spelt)
          (retained-IsScalar predicate q after later) in
      bind (ensure_modifiable-Own o) λ _ t own. rw (len_lem own.0.owns.content) (
        bind
          (keep_loop-Compacted predicate (length (encode cs)) (length (encode cs)) q
            (i + len_utf8 c) i before after t fuel later
            (start before after c i (ap encode whole) at (Own-Ready own)))
          λ d u k.
            bind (cut_behind d.0 valid k.1) λ _ v x. returns (sym k.0, Keeps-after own.0.same x))

  chars_from :
      {p : P} {out : Option (Option (ℕ × ℕ) × P)}
      → Found predicate p 0 cs out
      → Left (left_over predicate p cs) (retain_from predicate out s)
  chars_from (all_kept e) = rw e (returns (refl, unchanged o))
  chars_from (all_left e) = rw e (returns (refl, unchanged o))
  chars_from (removed_at {q} {c} before after whole kept at) =
      rw kept (rest_from q c before after whole (omega (arith, at)))

  end_of_call :
      {left : List ℕ × Bool} {r : Outcome State Bool}
      → Left left r
      → Retained refs s left (and_then r λ b. if b then panic else pure tt)
  end_of_call (returns {a} (e, k)) = unwound a e k
  end_of_call (fails e) = fails_before e

  -- On a sound string that spells a sequence of chars and for a predicate that has a state and
  -- may panic, `retain` asks it about each char once and in order and returns with the chars
  -- for which it holds, or panics because the predicate did, with the chars for which it held
  -- until then, or all chars if it refused none before; the string is sound and everything that
  -- others refer to unchanged in both cases; or it fails and changes nothing.
  pub retain-keeps : (p : P) → Retained refs s (left_over predicate p cs) (retain predicate p s)
  unfolding retain
  retain-keeps p = rw (as_bytes_lem o.content) (
      end_of_call (
        chars_from (
          find_removed-Found predicate (length (encode cs)) p 0 cs (omega (arith, chars_le cs))
            sc)))
