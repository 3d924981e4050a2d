-- ===== src/Repr/Cut/Chars.antt =====
-- `pop` and `remove` take one whole char out of the text.
use lean_string.Prelude.{
  ℕ, zero, suc, ◌+◌, ◌-◌, ◌<◌, ◌≡◌, refl, sym, ap, subst, ◌∙◌, true, false, none, some, [], ◌++◌,
  append-nil, arith, length, drop, get_or, length-append,
}
use lean_string.Prelude.Splice.{get_or-append}
use lean_string.Utf8.{Bytes, IsScalar, IsUtf8, len_utf8, encode_utf8, is_continuation}
use lean_string.Utf8.Shape.{
  IsUtf8-encode_utf8, Halves, length-encode_utf8, len_utf8_bounds, take-append_exact,
  drop-append_exact,
}
use lean_string.Utf8.Decode.{next_char, last_start, last_char, next_char-encode_utf8}
use lean_string.Memory.{Allocator, done}
use lean_string.Memory.Ends.{Ends, returns, bind}
use lean_string.HeapBuffer.{mutable}
use lean_string.Repr.{State}
use lean_string.Repr.Cut.{pop}
use lean_string.Repr.Cut.Shorter.{truncate_unchecked-takes}
use lean_string.Repr.Owns.{Owns, Keeps}
use lean_string.Repr.Queries.{as_bytes_lem, len_lem}

-- Back over a run of continuations to the byte before it.
last_start-run :
    (s : Bytes) (i n : ℕ)
    → is_continuation (get_or s i 0) ≡ false
    → ((j : ℕ) → j < n → is_continuation (get_or s (i + suc j) 0) ≡ true)
    → last_start s (suc (i + n)) ≡ i
unfolding last_start
last_start-run s i zero head run = let e : i + zero ≡ i = omega arith in rw e (rw head)
last_start-run s i (suc n) head run = rw (run n (omega arith)) (
    ap (last_start s) {y = suc (i + n)} (omega arith)
    ∙ last_start-run s i n head (λ j lt. run j (omega arith)))

encode_utf8_head : (c : ℕ) → IsScalar c → is_continuation (get_or (encode_utf8 c) 0 0) ≡ false
unfolding encode_utf8
encode_utf8_head c sc = ground arith

encode_utf8_tail :
    (c j : ℕ)
    → IsScalar c
    → suc j < length (encode_utf8 c)
    → is_continuation (get_or (encode_utf8 c) (suc j) 0) ≡ true
unfolding encode_utf8
encode_utf8_tail c zero sc lt = ground arith
encode_utf8_tail c (suc zero) sc lt = ground arith
encode_utf8_tail c (suc (suc zero)) sc lt = ground arith
encode_utf8_tail c (suc (suc (suc j))) sc lt =
    absurd (omega (arith, length-encode_utf8 c, len_utf8_bounds c))

-- The last char of a text that ends in one.
pub last_char-append :
    (before : Bytes) (c : ℕ) → IsScalar c → last_char (before ++ encode_utf8 c) ≡ some c
unfolding last_char
last_char-append before c sc =
    let text = before ++ encode_utf8 c in
    let p = length before in
    let n = length (encode_utf8 c) - 1 in
    let e : length text ≡ suc (p + n) =
      omega
        (arith, length-append before (encode_utf8 c), length-encode_utf8 c, len_utf8_bounds c) in
    let at : last_start text (suc (p + n)) ≡ p =
      last_start-run text p n
        (ap (λ i. is_continuation (get_or text i 0)) {y = p + 0} (omega arith)
          ∙ ap is_continuation (get_or-append before (encode_utf8 c) 0 0)
          ∙ encode_utf8_head c sc)
        (λ j lt.
          ap is_continuation (get_or-append before (encode_utf8 c) (suc j) 0)
          ∙ encode_utf8_tail c j sc (omega arith)) in
    ap (λ i. next_char (drop i text)) (ap (last_start text) e ∙ at)
    ∙ ap next_char (drop-append_exact before (encode_utf8 c) ∙ sym (append-nil (encode_utf8 c)))
    ∙ next_char-encode_utf8 c [] sc

module _ ⦃A : Allocator⦄ {refs : ℕ → ℕ} {s : State} where
  -- `pop` of the empty text changes nothing.
  pub pop-nil : Owns refs mutable s [] → pop s ≡ done none s
  unfolding pop last_char next_char last_start
  pop-nil o = rw (as_bytes_lem o.content)

  -- On a sound string whose text is a valid text and one more char, `pop` returns that char,
  -- with the text before it, the string sound and everything that others refer to unchanged; it
  -- never fails.
  pub pop-append :
      (before : Bytes) (c : ℕ)
      → IsUtf8 before
      → IsScalar c
      → Owns refs mutable s (before ++ encode_utf8 c)
      → Ends (λ ch t. (ch ≡ some c) × Keeps refs mutable s.heap before t) (λ _. ⊥) (pop s)
  unfolding pop
  pop-append before c u sc o =
      let text = before ++ encode_utf8 c in
      let n : length text - len_utf8 c ≡ length before =
        omega (arith, length-append before (encode_utf8 c), length-encode_utf8 c) in
      let halves : Halves text (length before) = record {
        left = subst IsUtf8 (sym (take-append_exact before (encode_utf8 c))) u;
        right =
            subst IsUtf8 (sym (drop-append_exact before (encode_utf8 c))) (IsUtf8-encode_utf8 c sc);
        fits = omega (arith, length-append before (encode_utf8 c));
      } in
      rw (as_bytes_lem o.content, last_char-append before c sc, len_lem o.content, n)
        (bind (truncate_unchecked-takes o {E = λ _. ⊥} (length before) halves) λ _ t k. returns (
          refl,
          subst (λ x. Keeps refs mutable s.heap x t) (take-append_exact before (encode_utf8 c)) k,
        ))
