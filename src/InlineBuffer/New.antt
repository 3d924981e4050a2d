-- ===== src/InlineBuffer/New.antt =====
-- `InlineBuffer::new` assembles exactly the bytes of the text, whatever its length.
use Prim.Native.Nat.{bit_or}
use mathlib.Core.Path.{ap₂}
use lean_string.Prelude.{
  ℕ, zero, suc, ◌+◌, ◌-◌, ◌*◌, ◌/◌, ◌%◌, ◌^◌, ◌≤◌, ◌<◌, ◌≡◌, refl, sym, ap, subst, ◌∙◌, Bool, true,
  false, inl, inr, arith, [], ◌∷◌, ◌++◌, append_assoc, append-nil, ltb, leb, leb→le,
  lt_of_leb-false, ◌==◌, ==_iff, if◌then◌else◌, Bool-cases, ltb→lt, le_of_ltb-false, length, take,
  drop, replicate, All, All-append, length-append, length-take, length-drop, length-replicate,
  take-append-drop, take_all, drop-drop,
}
use lean_string.Prelude.LittleEndian.{IsByte, from_le, pow256_lem, from_le-drop}
use lean_string.Utf8.{Bytes}
use lean_string.InlineBuffer.{load, shr, last_byte_of, from_words, new}
use lean_string.InlineBuffer.Shape.{pad}
use lean_string.InlineBuffer.Words.{
  All-drop, last_byte_alone, or_last, two_loads_lem, short_words, long_words, full_words,
}

-- The tail of the text, shifted down behind its first word.
shifted_tail :
    (text : Bytes)
    → All IsByte text
    → 8 ≤ length text
    → length text ≤ 16
    → shr (load 8 text (length text - 8)) ((16 - length text) * 8) ≡ from_le (drop 8 text)
shifted_tail text h long fits =
    let n = length text in
    let tail = drop (n - 8) text in
    ap₂ (λ x y. from_le x / y) (take_all 8 tail (omega (arith, length-drop (n - 8) text)))
      (pow256_lem (16 - n) (omega arith))
    ∙ from_le-drop (16 - n) tail (All-drop (n - 8) text h)
    ∙ ap from_le (drop-drop (n - 8) (16 - n) text ∙ ap (λ k. drop k text) {y = 8} (omega arith))

above_eight :
    (text : Bytes)
    → All IsByte text
    → 8 ≤ length text
    → length text < 16
    → (length text == 8) ≡ false
    → bit_or
        (shr (load 8 text (length text - 8)) ((16 - length text) * 8))
        (last_byte_of (length text))
      ≡ from_le (drop 8 text) + (length text + 0xC0) * 2 ^ 56
above_eight text h long short ne =
    ap (λ x. bit_or x (last_byte_of (length text))) (shifted_tail text h long (omega arith))
    ∙ or_last (drop 8 text) (length text) (All-drop 8 text h) (omega (arith, length-drop 8 text))
        short

exactly_eight :
    (text : Bytes)
    → (length text == 8) ≡ true
    → last_byte_of (length text) ≡ from_le (drop 8 text) + (length text + 0xC0) * 2 ^ 56
exactly_eight text eq =
    let e : length text ≡ 8 = (==_iff (length text) 8).0 eq in
    last_byte_alone (length text) (omega arith)
    ∙ ap (λ bs. from_le bs + (length text + 0xC0) * 2 ^ 56)
        (sym (lean_string.Prelude.drop_all 8 text (omega arith)))

one_byte : (text : Bytes) → length text ≡ 1 → load 1 text 0 ≡ from_le text
one_byte [] e = absurd (omega arith)
one_byte (b ∷ []) e = refl
one_byte (b ∷ (c ∷ s)) e = absurd (omega arith)

no_byte : (text : Bytes) → length text ≡ 0 → 0 ≡ from_le text
no_byte [] e = refl
no_byte (b ∷ s) e = absurd (omega arith)

pub short_case :
    (text : Bytes) (w : ℕ)
    → All IsByte text
    → length text < 8
    → w ≡ from_le text
    → from_words w (last_byte_of (length text)) ≡ pad text
short_case text w h short e =
    ap (λ x. from_words x (last_byte_of (length text))) e ∙ short_words text h short

full_case : (text : Bytes) → length text ≡ 16 → text ≡ pad text
unfolding pad
full_case text e = ground arith

-- For a text of bytes, at most sixteen of them, the word loads and shifts of
-- `InlineBuffer::new` make exactly the text, then zeros, then the length with its tag as the
-- last byte; a full text has no length byte.
pub new-pad : (text : Bytes) → All IsByte text → length text ≤ 16 → new text ≡ pad text
unfolding new
new-pad text h fits = elim (Bool-cases (length text == 16)) [
  | inl full ↦ rw full (
      full_words text h ((==_iff (length text) 16).0 full)
      ∙ full_case text ((==_iff (length text) 16).0 full))
  | inr part ↦
      let short : length text < 16 = ground arith in
      rw part (elim (Bool-cases (leb 8 (length text))) [
        | inl long ↦ rw long (elim (Bool-cases (length text == 8)) [
          | inl eq ↦
              rw eq
                (long_words text _ h (leb→le 8 (length text) long) short (exactly_eight text eq))
          | inr ne ↦ rw ne (
              long_words text _ h (leb→le 8 (length text) long) short
                (above_eight text h (leb→le 8 (length text) long) short ne))
        ])
        | inr below ↦
            let short8 : length text < 8 = lt_of_leb-false 8 (length text) below in
            rw below (elim (Bool-cases (leb 4 (length text))) [
              | inl four ↦ rw four (
                  short_case text _ h short8
                    (two_loads_lem 4 text h (leb→le 4 (length text) four) (omega arith) short8))
              | inr few ↦
                  let short4 : length text < 4 = lt_of_leb-false 4 (length text) few in
                  rw few (elim (Bool-cases (leb 2 (length text))) [
                    | inl two ↦ rw two (
                        short_case text _ h short8 (
                          two_loads_lem 2 text h (leb→le 2 (length text) two) (omega arith) short8))
                    | inr one ↦
                        let short2 : length text < 2 = lt_of_leb-false 2 (length text) one in
                        rw one (elim (Bool-cases (length text == 1)) [
                          | inl e ↦ rw e (
                              short_case text _ h short8
                                (one_byte text ((==_iff (length text) 1).0 e)))
                          | inr e ↦ rw e (short_case text _ h short8 (no_byte text (ground arith)))
                        ])
                  ])
            ])
      ])
]
