-- ===== src/Case/Unicode.antt =====
-- src/case.rs: the split of a text before the first char that changes under a Unicode case mapping.
-- The mappings of chars and of texts are the standard library's.
pub mod Splits
use lean_string.Prelude.{
  ℕ, ◌+◌, ◌<◌, ◌≡◌, Bool, true, false, not, ◌&&◌, Option, none, some, List, [], ◌∷◌, ◌++◌, ◌==◌,
  if◌then◌else◌, length, drop, All,
}
use lean_string.Utf8.{Bytes, IsScalar, IsUtf8, len_utf8, encode}
use lean_string.Utf8.Chars.{chars}
use lean_string.Case.{
  Case, lower, upper, is_ascii, ascii_mapped, byte_changes, prefix_len_while, split_at_unchecked,
}

-- 'Σ' and 'σ'
abbrev pub capital_sigma : ℕ
capital_sigma = 0x3A3

abbrev pub small_sigma : ℕ
small_sigma = 0x3C3

-- The chars of several chars.
unfoldable pub mapped_chars : (ℕ → List ℕ) → List ℕ → List ℕ
mapped_chars f [] = []
mapped_chars f (c ∷ cs) = f c ++ mapped_chars f cs

-- `char::to_lowercase` and `char::to_uppercase`, `str::to_lowercase` and `str::to_uppercase`, with
-- what is documented of them: on ASCII they are the ASCII mappings, and a text is mapped char by
-- char, except for 'Σ', which `str::to_lowercase` maps by its place in a word.
pub record Unicode : Type 0 where
  pub to_char_case : Case → ℕ → List ℕ
  pub to_text_case : Case → Bytes → Bytes
  pub ascii_case : (case : Case) (c : ℕ) → c < 128 → to_char_case case c ≡ ascii_mapped case c ∷ []
  pub sigma_case : to_char_case lower capital_sigma ≡ small_sigma ∷ []
  pub char_scalars : (case : Case) (c : ℕ) → IsScalar c → All IsScalar (to_char_case case c)
  pub text_valid : (case : Case) (s : Bytes) → IsUtf8 s → IsUtf8 (to_text_case case s)
  pub text_upper :
      (cs : List ℕ)
      → All IsScalar cs
      → to_text_case upper (encode cs) ≡ encode (mapped_chars (to_char_case upper) cs)
  pub text_lower :
      (cs : List ℕ)
      → All IsScalar cs
      → All (λ c. (c == capital_sigma) ≡ false) cs
      → to_text_case lower (encode cs) ≡ encode (mapped_chars (to_char_case lower) cs)

-- `iter.eq([ch])`
unfoldable pub eq_single : List ℕ → ℕ → Bool
eq_single [] ch = false
eq_single (c ∷ []) ch = c == ch
eq_single (c ∷ d ∷ cs) ch = false

module _ (u : Unicode) (case : Case) where
  -- `char_changes`
  unfoldable pub char_changes : ℕ → Bool
  char_changes ch = not (eq_single (u.to_char_case case ch) ch)

  -- `char_indices().find(|&(_, c)| char_changes(c, case))`, for the chars from an offset on
  unfoldable pub find_change : ℕ → List ℕ → Option ℕ
  find_change offset [] = none
  find_change offset (c ∷ cs) =
      let rest = find_change (offset + len_utf8 c) cs in
      if char_changes c then some offset else rest

  abbrev pub split_behind : Bytes → ℕ → Option ℕ → Option (Bytes × Bytes)
  split_behind text skipped none = none
  split_behind text skipped (some offset) = some (split_at_unchecked text (skipped + offset))

  -- `split_at_first_change`
  unfoldable pub split_at_first_change : Bytes → Option (Bytes × Bytes)
  split_at_first_change text =
      let skipped = prefix_len_while (λ b. is_ascii b && not (byte_changes case b)) text in
      split_behind text skipped (find_change 0 (chars (drop skipped text)))
