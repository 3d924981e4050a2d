-- ===== src/Repr/Retain/Chars.antt =====
-- The chars that a predicate retains, and the search for the first that it does not.
use lean_string.Prelude.{
  ℕ, zero, suc, ◌+◌, ◌≤◌, ◌≡◌, refl, sym, ap, ◌∙◌, true, false, Bool, Option, none, some, List, [],
  ◌∷◌, ◌++◌, arith, length, length-append, take, drop, drop-take, take-take, All,
}
use lean_string.Utf8.{Bytes, IsScalar, len_utf8, encode_utf8, encode}
use lean_string.Utf8.Shape.{
  length-encode_utf8, len_utf8_bounds, take-append_exact, drop-append_exact,
}
use lean_string.Utf8.Decode.{next_char, next_char-encode_utf8}
use lean_string.Repr.Retain.{Predicate, answered, find_removed}

pub encode_first : (c : ℕ) (cs : List ℕ) → encode (c ∷ cs) ≡ encode_utf8 c ++ encode cs
unfolding encode
encode_first c cs = refl

pub length-encode_first :
    (c : ℕ) (cs : List ℕ) → length (encode (c ∷ cs)) ≡ len_utf8 c + length (encode cs)
unfolding encode
length-encode_first c cs =
    omega (arith, length-append (encode_utf8 c) (encode cs), length-encode_utf8 c)

-- There are said more chars than bytes.
pub chars_le : (cs : List ℕ) → length cs ≤ length (encode cs)
chars_le [] = omega arith
chars_le (c ∷ cs) = omega (arith, length-encode_first c cs, chars_le cs, len_utf8_bounds c)

at_start : (idx : ℕ) → idx ≡ idx + length (encode [])
unfolding encode
at_start idx = omega arith

next_of_nothing : next_char (encode []) ≡ none
unfolding next_char encode
next_of_nothing = refl

pub next_of_first : (c : ℕ) (cs : List ℕ) → IsScalar c → next_char (encode (c ∷ cs)) ≡ some c
unfolding encode
next_of_first c cs sc = next_char-encode_utf8 c (encode cs) sc

drop_first : (c : ℕ) (cs : List ℕ) → drop (len_utf8 c) (encode (c ∷ cs)) ≡ encode cs
unfolding encode
drop_first c cs =
    ap (λ n. drop n (encode_utf8 c ++ encode cs)) (sym (length-encode_utf8 c))
    ∙ drop-append_exact (encode_utf8 c) (encode cs)

-- What a predicate answered.
pub data Answer {P : Type 0} (x : Option (Bool × P)) : Type 0 where
  panics : x ≡ none → Answer x
  holds : (q : P) → x ≡ some (true, q) → Answer x
  refuses : (q : P) → x ≡ some (false, q) → Answer x

pub answer : {P : Type 0} (x : Option (Bool × P)) → Answer x
answer none = panics refl
answer (some (true, q)) = holds q refl
answer (some (false, q)) = refuses q refl

-- A char more in front, and the same end.
abbrev pub after_char : ℕ → List ℕ × Bool → List ℕ × Bool
after_char c rest = (c ∷ rest.0, rest.1)

module _ {P : Type 0} (predicate : Predicate P) where
  -- The chars for which the predicate holds, asked about in order until it panics, and whether it
  -- does.
  unfoldable pub retained : P → List ℕ → List ℕ × Bool
  retained p [] = ([], false)
  retained p (c ∷ cs) =
      answered (predicate p c) ([], true) (λ q. after_char c (retained q cs)) (λ q. retained q cs)

  -- The chars that are left, and whether the predicate panics: all of them when it does so before
  -- one is removed.
  unfoldable pub left_over : P → List ℕ → List ℕ × Bool
  left_over p [] = ([], false)
  left_over p (c ∷ cs) =
      answered (predicate p c) (c ∷ cs, true) (λ q. after_char c (left_over q cs))
        (λ q. retained q cs)

  -- The first char that is not retained, and what was before it.
  pub data Found (p : P) (idx : ℕ) (cs : List ℕ) : Option (Option (ℕ × ℕ) × P) → Type 0 where
    all_kept : {q : P} → left_over p cs ≡ (cs, false) → Found p idx cs (some (none, q))
    all_left : left_over p cs ≡ (cs, true) → Found p idx cs none
    removed_at :
        {q : P} {i c : ℕ} (before after : List ℕ)
        → before ++ (c ∷ after) ≡ cs
        → left_over p cs ≡ (before ++ (retained q after).0, (retained q after).1)
        → i ≡ idx + length (encode before)
        → Found p idx cs (some (some (i, c), q))

  kept_first :
      (p : P) (idx c : ℕ) (cs : List ℕ) {q : P} {out : Option (Option (ℕ × ℕ) × P)}
      → predicate p c ≡ some (true, q)
      → Found q (idx + len_utf8 c) cs out
      → Found p idx (c ∷ cs) out
  unfolding left_over
  kept_first p idx c cs said (all_kept e) = all_kept (rw said (ap (after_char c) e))
  kept_first p idx c cs said (all_left e) = all_left (rw said (ap (after_char c) e))
  kept_first p idx c cs said (removed_at before after whole kept at) =
      removed_at (c ∷ before) after (ap (λ t. c ∷ t) whole) (rw said (ap (after_char c) kept))
        (omega (arith, at, length-encode_first c before))

  pub find_removed-Found :
      (fuel : ℕ) (p : P) (idx : ℕ) (cs : List ℕ)
      → length cs ≤ fuel
      → All IsScalar cs
      → Found p idx cs (find_removed predicate fuel p idx (encode cs))
  unfolding find_removed left_over
  find_removed-Found zero p idx [] enough sc = all_kept refl
  find_removed-Found zero p idx (c ∷ cs) enough sc = absurd (omega arith)
  find_removed-Found (suc fuel) p idx [] enough sc = rw next_of_nothing (all_kept refl)
  find_removed-Found (suc fuel) p idx (c ∷ cs) enough (sc, scs) =
      rw (next_of_first c cs sc, drop_first c cs)
        (elim (answer (predicate p c)) [
          | panics said ↦ rw said (all_left (rw said refl))
          | holds q said ↦ rw said (
              kept_first p idx c cs said
                (find_removed-Found fuel q (idx + len_utf8 c) cs (omega arith) scs))
          | refuses q said ↦ rw said (removed_at [] cs refl (rw said refl) (at_start idx))
        ])

-- A text of two parts, at a place.
pub two_parts :
    (bytes a b : Bytes)
    → take (length (a ++ b)) bytes ≡ a ++ b
    → (take (length a) bytes ≡ a) × (take (length b) (drop (length a) bytes) ≡ b)
two_parts bytes a b e =
    let n = length-append a b in
    (
      sym (take-take (length a) (length (a ++ b)) bytes (omega (arith, n)))
          ∙ ap (take (length a)) e
          ∙ take-append_exact a b,
      sym (drop-take (length a) (length b) bytes)
          ∙ ap (λ k. drop (length a) (take k bytes)) (sym n)
          ∙ ap (drop (length a)) e
          ∙ drop-append_exact a b,
    )
