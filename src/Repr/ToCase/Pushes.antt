-- ===== src/Repr/ToCase/Pushes.antt =====
-- The parts that `to_case` writes: the first two at once, the other chars one by one.
use mathlib.Core.List.{map}
use lean_string.Prelude.{
  ℕ, ◌+◌, ◌≤◌, ◌≡◌, refl, sym, ap, subst, ◌∙◌, inl, inr, Bool, true, false, List, [], ◌∷◌, ◌++◌,
  append-nil, append_assoc, arith, Bool-cases, length, length-append, take, All,
}
use lean_string.Prelude.Splice.{splice, length-splice, take-splice_end}
use lean_string.Utf8.{Bytes, IsScalar, IsUtf8, encode_utf8, encode}
use lean_string.Utf8.Shape.{encode-append, IsUtf8-append, IsUtf8-EndsBelow}
use lean_string.Utf8.Chars.{joined, encode-joined}
use lean_string.Memory.{Heap, Allocator, Outcome, done, failed, M, and_then}
use lean_string.Memory.Ends.{Ends, bind, weaken}
use lean_string.Memory.Counted.{Same-trans}
use lean_string.HeapBuffer.{mutable}
use lean_string.Case.{Case, lower, upper}
use lean_string.Case.Unicode.{Unicode, mapped_chars}
use lean_string.Repr.{Repr, State}
use lean_string.Repr.Edit.{set_len}
use lean_string.Repr.Owns.{Keeps}
use lean_string.Repr.Place.{at_state, write_at-Filled, set_len-Keeps}
use lean_string.Repr.Fill.{Ready, Keeps-after}
use lean_string.Repr.Appends.{Appended, appended, refused, push_chars-Appended}
use lean_string.Repr.ToCase.{write_parts, is_sigma, push_mapped}

-- Two texts written to an empty string with room for both.
module _ {refs : ℕ → ℕ} {h : Heap} {r : Repr} {first second : Bytes} {cap : ℕ} {E : State → Type 0}
    (u : IsUtf8 first) (v : IsUtf8 second) (q : Ready refs h [] cap r)
    (room : length first + length second ≤ cap) where
  pub write_parts-Keeps :
      Ends
        (λ _ s. Keeps refs mutable h (first ++ second) s)
        E
        (write_parts first second (at_state r h))
  write_parts-Keeps =
      let once = splice q.bytes 0 first in
      let len : length once ≡ length q.bytes =
        length-splice q.bytes 0 first (omega (arith, room, q.room)) in
      let n : length (first ++ second) ≡ length first + length second =
        length-append first second in
      let fits : length first + length second ≤ length once = omega (arith, room, q.room, len) in
      let text : take (length first + length second) (splice once (length first) second)
          ≡ first ++ second =
        take-splice_end once (length first) second fits
        ∙ ap (λ t. t ++ second)
            (ap (λ n. take n once) {y = 0 + length first} (omega arith)
              ∙ take-splice_end q.bytes 0 first (omega (arith, room, q.room))) in
      bind
        (write_at-Filled {E = E} 0 first q.opened (omega (arith, room, q.room))
          (IsUtf8-EndsBelow u))
        λ _ s f.
          bind (write_at-Filled {E = E} (length first) second f.opened fits (IsUtf8-EndsBelow v))
            λ _ s' f'.
              weaken
                (subst
                  (λ k.
                    Ends (λ _ t. Keeps refs mutable s'.heap (first ++ second) t) E (set_len k s'))
                  n
                  (set_len-Keeps (first ++ second) f'.opened (IsUtf8-append u v)
                    (omega (arith, n, fits, length-splice once (length first) second fits))
                    (ap (λ k. take k (splice once (length first) second)) n ∙ text)))
                (λ _ t k. Keeps-after (Same-trans f.same f'.same) k) (λ t e. e)

-- How the loop ends: with all chars mapped and pushed, at 'Σ', or where a push failed.
pub data Mapped (u : Unicode) (case : Case) (refs : ℕ → ℕ) (h : Heap) (ks cs : List ℕ)
    : Outcome State Bool → Type 0 where
  all_mapped :
      {s : State}
      → All (λ c. is_sigma case c ≡ false) cs
      → Keeps refs mutable h (encode (ks ++ mapped_chars (u.to_char_case case) cs)) s
      → Mapped u case refs h ks cs (done true s)
  at_sigma :
      {s : State} {text : Bytes}
      → case ≡ lower
      → Keeps refs mutable h text s
      → Mapped u case refs h ks cs (done false s)
  out_of_room :
      {s : State} {text : Bytes}
      → Keeps refs mutable h text s
      → Mapped u case refs h ks cs (failed s)

encode_snoc : (ks ds : List ℕ) → encode ks ++ joined (map encode_utf8 ds) ≡ encode (ks ++ ds)
encode_snoc ks ds = ap (λ t. encode ks ++ t) (encode-joined ds) ∙ sym (encode-append ks ds)

sigma_is_lower : (case : Case) (c : ℕ) → is_sigma case c ≡ true → case ≡ lower
unfolding is_sigma
sigma_is_lower lower c e = refl
sigma_is_lower upper c e = absurd (cc)

module _ ⦃A : Allocator⦄ (u : Unicode) (case : Case) {refs : ℕ → ℕ} {h : Heap} where
  Mapped-cons :
      {ks cs : List ℕ} {c : ℕ} {o : Outcome State Bool}
      → is_sigma case c ≡ false
      → Mapped u case refs h (ks ++ u.to_char_case case c) cs o
      → Mapped u case refs h ks (c ∷ cs) o
  unfolding mapped_chars
  Mapped-cons {ks} {cs} {c} e (all_mapped {s} all k) =
      all_mapped (e, all)
        (subst (λ x. Keeps refs mutable h (encode x) s)
          (append_assoc ks (u.to_char_case case c) (mapped_chars (u.to_char_case case) cs)) k)
  Mapped-cons e (at_sigma low k) = at_sigma low k
  Mapped-cons e (out_of_room k) = out_of_room k

  pub push_mapped-Mapped :
      (ks cs : List ℕ) (s : State)
      → All IsScalar cs
      → Keeps refs mutable h (encode ks) s
      → Mapped u case refs h ks cs (push_mapped u case cs s)
  unfolding push_mapped mapped_chars
  push_mapped-Mapped ks [] s sc k =
      all_mapped tt (subst (λ x. Keeps refs mutable h (encode x) s) (sym (append-nil ks)) k)
  push_mapped-Mapped ks (c ∷ cs) s (sc, scs) k = elim (Bool-cases (is_sigma case c)) [
    | inl sigma ↦ rw sigma (at_sigma (sigma_is_lower case c sigma) k)
    | inr other ↦
        let ds = u.to_char_case case c in
        rw other (
          after other (push_chars-Appended ds (encode ks) s (u.char_scalars case c sc) k) (λ t q.
            push_mapped-Mapped (ks ++ ds) cs t scs
              (subst (λ x. Keeps refs mutable h x t) (encode_snoc ks ds) q)))
  ]
    where
      after :
          {ks cs : List ℕ} {c : ℕ} {o : Outcome State (Unit {0})} {next : M State Bool}
          → is_sigma case c ≡ false
          → Appended refs h (encode ks) (map encode_utf8 (u.to_char_case case c)) o
          → ((t : State)
              → Keeps refs mutable h
                  (encode ks ++ joined (map encode_utf8 (u.to_char_case case c)))
                  t
              → Mapped u case refs h (ks ++ u.to_char_case case c) cs (next t))
          → Mapped u case refs h ks (c ∷ cs) (and_then o (λ _. next))
      after other (appended q) go = Mapped-cons other (go _ q)
      after other (refused before rest piece e q) go = out_of_room q
