-- ===== src/Utf8/Utf16.antt =====
-- UTF-16 as core::char defines it: `char::decode_utf16` and `char::encode_utf16`.
use mathlib.Core.List.{map}
use lean_string.Prelude.{
  ℕ, ◌+◌, ◌-◌, ◌*◌, ◌/◌, ◌%◌, ◌<◌, ◌≡◌, refl, ap, ◌∙◌, inl, inr, Bool, true, false, not, ◌&&◌, ◌||◌,
  Option, none, some, List, [], ◌∷◌, arith, ltb, leb, Bool-cases, if◌then◌else◌, All,
}
use lean_string.Utf8.{IsScalar}

-- The surrogates, of which the high ones come first in a pair.
abbrev pub is_surrogate : ℕ → Bool
is_surrogate u = leb 0xD800 u && ltb u 0xE000

abbrev pub is_low : ℕ → Bool
is_low u = leb 0xDC00 u && ltb u 0xE000

-- The chars in order, `none` for each surrogate that has no partner.
unfoldable pub decode_utf16 : List ℕ → List (Option ℕ)
decode_utf16 [] = []
decode_utf16 (u ∷ []) = (if is_surrogate u then none else some u) ∷ []
decode_utf16 (u ∷ v ∷ units) =
    let one = decode_utf16 (v ∷ units) in
    let two = decode_utf16 units in
    if not (is_surrogate u)
    then some u ∷ one
    else if is_low u || not (is_low v)
    then none ∷ one
    else some ((u - 0xD800) * 1024 + (v - 0xDC00) + 0x10000) ∷ two

unfoldable pub encode_utf16 : List ℕ → List ℕ
encode_utf16 [] = []
encode_utf16 (c ∷ cs) =
    if ltb c 0x10000
    then c ∷ encode_utf16 cs
    else (0xD800 + (c - 0x10000) / 1024) ∷ (0xDC00 + (c - 0x10000) % 1024) ∷ encode_utf16 cs

abbrev pub IsScalarOr : Option ℕ → Type 0
IsScalarOr none = Unit {0}
IsScalarOr (some c) = IsScalar c

-- What is decoded from words of 16 bits is a scalar value.
pub decode_utf16-scalars :
    (units : List ℕ) → All (λ u. u < 0x10000) units → All IsScalarOr (decode_utf16 units)
unfolding decode_utf16
decode_utf16-scalars [] h = tt
decode_utf16-scalars (u ∷ []) (hu, h) = elim (Bool-cases (is_surrogate u)) [
  | inl bad ↦ rw bad (tt, tt)
  | inr good ↦ rw good (ground arith, tt)
]
decode_utf16-scalars (u ∷ v ∷ units) (hu, (hv, h)) = elim (Bool-cases (is_surrogate u)) [
  | inr good ↦ rw good (ground arith, decode_utf16-scalars (v ∷ units) (hv, h))
  | inl bad ↦ rw bad (elim (Bool-cases (is_low u || not (is_low v))) [
    | inl lone ↦ rw lone (tt, decode_utf16-scalars (v ∷ units) (hv, h))
    | inr paired ↦ rw paired (ground arith, decode_utf16-scalars units h)
  ])
]

decode_plain :
    (u : ℕ) (units : List ℕ)
    → is_surrogate u ≡ false
    → decode_utf16 (u ∷ units) ≡ some u ∷ decode_utf16 units
unfolding decode_utf16
decode_plain u [] e = rw e refl
decode_plain u (v ∷ units) e = rw e refl

decode_pair :
    (u v : ℕ) (units : List ℕ)
    → is_surrogate u ≡ true
    → (is_low u || not (is_low v)) ≡ false
    → decode_utf16 (u ∷ v ∷ units)
      ≡ some ((u - 0xD800) * 1024 + (v - 0xDC00) + 0x10000) ∷ decode_utf16 units
unfolding decode_utf16
decode_pair u v units e f = rw (e, f) refl

-- Chars are read back from their encoding.
pub decode_utf16-encode_utf16 :
    (cs : List ℕ) → All IsScalar cs → decode_utf16 (encode_utf16 cs) ≡ map some cs
unfolding encode_utf16
decode_utf16-encode_utf16 [] h = unfold decode_utf16 in refl
decode_utf16-encode_utf16 (c ∷ cs) (sc, h) = elim (Bool-cases (ltb c 0x10000)) [
  | inl plain ↦ rw plain (
      decode_plain c (encode_utf16 cs) (ground arith)
      ∙ ap (λ t. some c ∷ t) (decode_utf16-encode_utf16 cs h))
  | inr pair ↦ rw pair (
      decode_pair (0xD800 + (c - 0x10000) / 1024) (0xDC00 + (c - 0x10000) % 1024) (encode_utf16 cs)
        (ground arith) (ground arith)
      ∙ ap (λ x. some x ∷ decode_utf16 (encode_utf16 cs)) {y = c} (ground arith)
      ∙ ap (λ t. some c ∷ t) (decode_utf16-encode_utf16 cs h))
]
