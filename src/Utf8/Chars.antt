-- ===== src/Utf8/Chars.antt =====
-- `str::chars` and the encodings of sequences of chars.
use mathlib.Core.List.{map}
use lean_string.Prelude.{
  ℕ, zero, suc, ◌+◌, ◌≤◌, ◌≡◌, refl, sym, ap, ◌∙◌, none, some, List, [], ◌∷◌, ◌++◌, append_assoc,
  arith, length, length-append, drop, All,
}
use lean_string.Utf8.{Bytes, IsScalar, len_utf8, encode_utf8, encode}
use lean_string.Utf8.Shape.{length-encode_utf8, len_utf8_bounds, drop-append_exact}
use lean_string.Utf8.Decode.{next_char, next_char-encode_utf8}

-- Chars read from the front as long as there are some; each takes a byte at least.
pub chars_within : ℕ → Bytes → List ℕ
chars_within zero s = []
chars_within (suc fuel) s = elim (next_char s) [
  | none ↦ []
  | some c ↦ c ∷ chars_within fuel (drop (len_utf8 c) s)
]

-- `str::chars`
unfoldable pub chars : Bytes → List ℕ
unfolding chars_within
chars s = chars_within (length s) s

-- Texts behind one another.
unfoldable pub joined : List Bytes → Bytes
joined [] = []
joined (p ∷ ps) = p ++ joined ps

pub encode-cons : (c : ℕ) (cs : List ℕ) → encode (c ∷ cs) ≡ encode_utf8 c ++ encode cs
unfolding encode
encode-cons c cs = refl

pub encode-nil : encode [] ≡ []
unfolding encode
encode-nil = refl

pub encode-joined : (cs : List ℕ) → joined (map encode_utf8 cs) ≡ encode cs
unfolding encode joined
encode-joined [] = refl
encode-joined (c ∷ cs) = ap (λ t. encode_utf8 c ++ t) (encode-joined cs)

pub joined-append : (ps qs : List Bytes) → joined (ps ++ qs) ≡ joined ps ++ joined qs
unfolding joined
joined-append [] qs = refl
joined-append (p ∷ ps) qs =
    ap (λ t. p ++ t) (joined-append ps qs) ∙ sym (append_assoc p (joined ps) (joined qs))

pub length-encode-cons :
    (c : ℕ) (cs : List ℕ) → length (encode (c ∷ cs)) ≡ len_utf8 c + length (encode cs)
unfolding encode
length-encode-cons c cs =
    omega (arith, length-append (encode_utf8 c) (encode cs), length-encode_utf8 c)

drop_char : (c : ℕ) (cs : List ℕ) → drop (len_utf8 c) (encode (c ∷ cs)) ≡ encode cs
unfolding encode
drop_char c cs =
    ap (λ n. drop n (encode_utf8 c ++ encode cs)) (sym (length-encode_utf8 c))
    ∙ drop-append_exact (encode_utf8 c) (encode cs)

next_of_nil : next_char (encode []) ≡ none
unfolding next_char encode
next_of_nil = refl

next_of_cons : (c : ℕ) (cs : List ℕ) → IsScalar c → next_char (encode (c ∷ cs)) ≡ some c
unfolding encode
next_of_cons c cs sc = next_char-encode_utf8 c (encode cs) sc

within_chars :
    (fuel : ℕ) (cs : List ℕ)
    → length (encode cs) ≤ fuel
    → All IsScalar cs
    → chars_within fuel (encode cs) ≡ cs
unfolding chars_within
within_chars zero [] enough sc = refl
within_chars zero (c ∷ cs) enough sc =
    absurd (omega (arith, length-encode-cons c cs, len_utf8_bounds c))
within_chars (suc fuel) [] enough sc = rw (next_of_nil, chars_within) refl
within_chars (suc fuel) (c ∷ cs) enough (sc, scs) =
    rw (next_of_cons c cs sc, drop_char c cs, chars_within)
      (ap (λ t. c ∷ t)
        (within_chars fuel cs (omega (arith, length-encode-cons c cs, len_utf8_bounds c)) scs))

-- The chars of a text are those that it encodes.
pub chars-encode : (cs : List ℕ) → All IsScalar cs → chars (encode cs) ≡ cs
unfolding chars
chars-encode cs sc = within_chars (length (encode cs)) cs (omega arith) sc
