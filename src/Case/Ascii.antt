-- ===== src/Case/Ascii.antt =====
-- The ASCII case mapping of a text, and the splits before its first change.
use mathlib.Core.List.{map, map-append}
use lean_string.Prelude.{
  ℕ, suc, ◌≡◌, refl, sym, ap, ◌∙◌, inl, inr, true, not, Option, none, some, List, [], ◌∷◌, ◌++◌,
  arith, ◌==◌, ==_iff, Bool-cases, length, take, take-append-drop, take_all, All,
}
use lean_string.Utf8.{Bytes, IsScalar, IsUtf8, encode, encode_utf8}
use lean_string.Case.{
  Case, lower, upper, ascii_mapped, byte_changes, count_while, split_at_first_ascii_change,
}
use lean_string.Case.Scan.{prefix_len_while_lem}

-- The text with its ASCII letters in the case.
abbrev pub ascii_text : Case → Bytes → Bytes
ascii_text case s = map (ascii_mapped case) s

pub length-ascii_text : (case : Case) (s : Bytes) → length (ascii_text case s) ≡ length s
length-ascii_text case [] = refl
length-ascii_text case (b ∷ s) = ap suc (length-ascii_text case s)

mapped_char :
    (case : Case) (c : ℕ)
    → map (ascii_mapped case) (encode_utf8 c) ≡ encode_utf8 (ascii_mapped case c)
unfolding encode_utf8
mapped_char lower c = ground arith
mapped_char upper c = ground arith

pub mapped-IsScalar : (case : Case) (c : ℕ) → IsScalar c → IsScalar (ascii_mapped case c)
mapped-IsScalar lower c sc = ground arith
mapped-IsScalar upper c sc = ground arith

mapped-All :
    (case : Case) (cs : List ℕ) → All IsScalar cs → All IsScalar (map (ascii_mapped case) cs)
mapped-All case [] all = tt
mapped-All case (c ∷ cs) (sc, all) = (mapped-IsScalar case c sc, mapped-All case cs all)

pub mapped_spells :
    (case : Case) (cs : List ℕ) → encode (map (ascii_mapped case) cs) ≡ ascii_text case (encode cs)
unfolding encode
mapped_spells case [] = refl
mapped_spells case (c ∷ cs) =
    ap (λ t. t ++ encode (map (ascii_mapped case) cs)) (sym (mapped_char case c))
    ∙ ap (λ t. map (ascii_mapped case) (encode_utf8 c) ++ t) (mapped_spells case cs)
    ∙ sym (map-append (ascii_mapped case) (encode_utf8 c) (encode cs))

-- The mapping keeps a text valid.
pub ascii_text-IsUtf8 : (case : Case) {s : Bytes} → IsUtf8 s → IsUtf8 (ascii_text case s)
ascii_text-IsUtf8 case u = record {
  chars = map (ascii_mapped case) u.chars;
  scalars = mapped-All case u.chars u.scalars;
  spells = mapped_spells case u.chars ∙ ap (ascii_text case) u.spells;
}

unchanged_byte : (case : Case) (b : ℕ) → not (byte_changes case b) ≡ true → ascii_mapped case b ≡ b
unchanged_byte lower b e = ground arith
unchanged_byte upper b e = ground arith

kept_prefix :
    (case : Case) (s : Bytes)
    → ascii_text case (take (count_while (λ b. not (byte_changes case b)) s) s)
      ≡ take (count_while (λ b. not (byte_changes case b)) s) s
unfolding count_while
kept_prefix case [] = refl
kept_prefix case (b ∷ s) = elim (Bool-cases (not (byte_changes case b))) [
  | inl same ↦ rw same (
      ap (λ t. ascii_mapped case b ∷ t) (kept_prefix case s)
      ∙ ap (λ c. c ∷ take (count_while (λ b. not (byte_changes case b)) s) s)
          (unchanged_byte case b same))
  | inr changes ↦ rw changes refl
]

-- Where a text is split: nothing changes in the first part, and nothing at all if there is no split.
pub data Split (case : Case) (text : Bytes) : Option (Bytes × Bytes) → Type 0 where
  nothing_changes : ascii_text case text ≡ text → Split case text none
  split_at :
      {unchanged changed : Bytes}
      → unchanged ++ changed ≡ text
      → ascii_text case unchanged ≡ unchanged
      → Split case text (some (unchanged, changed))

pub split_at_first_ascii_change-Split :
    (case : Case) (text : Bytes) → Split case text (split_at_first_ascii_change case text)
unfolding split_at_first_ascii_change
split_at_first_ascii_change-Split case text =
    let pred = λ (b : ℕ). not (byte_changes case b) in
    let mid = count_while pred text in
    let kept = kept_prefix case text in
    rw (prefix_len_while_lem pred text) (elim (Bool-cases (mid == length text)) [
      | inl all ↦
          let whole : take mid text ≡ text =
            take_all mid text (omega (arith, (==_iff mid (length text)).0 all)) in
          rw all (nothing_changes (ap (ascii_text case) (sym whole) ∙ kept ∙ whole))
      | inr part ↦ rw part (split_at (take-append-drop mid text) kept)
    ])
