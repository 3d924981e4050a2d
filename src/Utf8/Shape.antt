-- ===== src/Utf8/Shape.antt =====
-- What every valid text looks like, whatever it spells.
use lean_string.Prelude.{
  ℕ, zero, suc, ◌+◌, ◌-◌, ◌≤◌, ◌<◌, ◌≡◌, refl, ap, ◌∙◌, sym, inl, inr, true, false, List, [], ◌∷◌,
  ◌++◌, append_assoc, append-nil, subst, ltb→lt, le_of_ltb-false, arith, ltb, Bool-cases, length,
  take, drop, get_elem?, get_or, All, All-append, length-append, take-append_le, drop-append_le,
  take_all, drop_all,
}
use lean_string.Prelude.LittleEndian.{IsByte}
use lean_string.Utf8.{
  Bytes, IsScalar, len_utf8, encode_utf8, encode, IsUtf8, starts_char, is_char_boundary,
}

pub length-encode_utf8 : (c : ℕ) → length (encode_utf8 c) ≡ len_utf8 c
unfolding encode_utf8 len_utf8
length-encode_utf8 c = ground arith

pub len_utf8_bounds : (c : ℕ) → (1 ≤ len_utf8 c) × (len_utf8 c ≤ 4)
unfolding len_utf8
len_utf8_bounds c = ground arith

pub IsUtf8-nil : IsUtf8 []
unfolding encode
IsUtf8-nil = record { chars = []; scalars = tt; spells = refl }

pub encode-append : (cs ds : List ℕ) → encode (cs ++ ds) ≡ encode cs ++ encode ds
unfolding encode
encode-append [] ds = refl
encode-append (c ∷ cs) ds =
    ap (λ t. encode_utf8 c ++ t) (encode-append cs ds)
    ∙ sym (append_assoc (encode_utf8 c) (encode cs) (encode ds))

pub IsUtf8-append : {s t : Bytes} → IsUtf8 s → IsUtf8 t → IsUtf8 (s ++ t)
IsUtf8-append {s} {t} u v = record {
  chars = u.chars ++ v.chars;
  scalars = All-append IsScalar u.chars v.chars u.scalars v.scalars;
  spells =
      encode-append u.chars v.chars
      ∙ ap (λ x. x ++ encode v.chars) u.spells
      ∙ ap (λ x. s ++ x) v.spells;
}

pub IsUtf8-encode_utf8 : (c : ℕ) → IsScalar c → IsUtf8 (encode_utf8 c)
unfolding encode
IsUtf8-encode_utf8 c h = record {
  chars = c ∷ [];
  scalars = (h, tt);
  spells = append-nil (encode_utf8 c);
}

-- A text never ends in the first byte of a longer char.
abbrev pub EndsBelow : Bytes → Type 0
EndsBelow [] = Unit
EndsBelow (b ∷ []) = b < 0xC0
EndsBelow (b ∷ (c ∷ s)) = EndsBelow (c ∷ s)

EndsBelow-append : (s t : Bytes) → EndsBelow s → EndsBelow t → EndsBelow (s ++ t)
EndsBelow-append [] t hs ht = ht
EndsBelow-append (b ∷ []) [] hs ht = hs
EndsBelow-append (b ∷ []) (c ∷ t) hs ht = ht
EndsBelow-append (b ∷ (c ∷ s)) t hs ht = EndsBelow-append (c ∷ s) t hs ht

EndsBelow-encode_utf8 : (c : ℕ) → EndsBelow (encode_utf8 c)
unfolding encode_utf8
EndsBelow-encode_utf8 c = elim (Bool-cases (ltb c 0x80)) [
  | inl a ↦ rw a (omega (arith, ltb→lt c 0x80 a))
  | inr a ↦ rw a (elim (Bool-cases (ltb c 0x800)) [
    | inl b ↦ rw b (omega arith)
    | inr b ↦ rw b (elim (Bool-cases (ltb c 0x10000)) [
      | inl d ↦ rw d (omega arith)
      | inr d ↦ rw d (omega arith)
    ])
  ])
]

EndsBelow-encode : (cs : List ℕ) → EndsBelow (encode cs)
unfolding encode
EndsBelow-encode [] = tt
EndsBelow-encode (c ∷ cs) =
    EndsBelow-append (encode_utf8 c) (encode cs) (EndsBelow-encode_utf8 c) (EndsBelow-encode cs)

pub IsUtf8-EndsBelow : {s : Bytes} → IsUtf8 s → EndsBelow s
IsUtf8-EndsBelow u = subst EndsBelow u.spells (EndsBelow-encode u.chars)

-- Inside a char there is no boundary.
inside_char :
    (c : ℕ) (t : Bytes) (i : ℕ)
    → IsScalar c
    → 0 < i
    → i < len_utf8 c
    → starts_char (get_elem? (encode_utf8 c ++ t) i) ≡ false
unfolding encode_utf8 len_utf8 starts_char
inside_char c t zero sc p q = absurd (omega arith)
inside_char c t (suc zero) sc p q = ground arith
inside_char c t (suc (suc zero)) sc p q = ground arith
inside_char c t (suc (suc (suc zero))) sc p q = ground arith
inside_char c t (suc (suc (suc (suc i)))) sc p q = ground arith

get_elem?-append : (s t : Bytes) (j : ℕ) → get_elem? (s ++ t) (length s + j) ≡ get_elem? t j
get_elem?-append [] t j = ap (get_elem? t) (omega arith)
get_elem?-append (b ∷ s) t j =
    let e : suc (length s) + j ≡ suc (length s + j) = omega arith in rw e (get_elem?-append s t j)

boundary-append :
    (s t : Bytes) (j : ℕ)
    → is_char_boundary (s ++ t) (length s + j) ≡ true
    → is_char_boundary t j ≡ true
unfolding is_char_boundary
boundary-append s t j h = ground (arith, get_elem?-append s t j, length-append s t)

-- A boundary falls between two chars.
pub record Cut (cs : List ℕ) (i : ℕ) : Type 0 where
  pub before : List ℕ
  pub after : List ℕ
  pub whole : cs ≡ before ++ after
  pub place : length (encode before) ≡ i

at_start :
    (c : ℕ) (t : Bytes) (i : ℕ)
    → IsScalar c
    → is_char_boundary (encode_utf8 c ++ t) i ≡ true
    → i < len_utf8 c
    → 0 ≡ i
unfolding is_char_boundary
at_start c t zero sc h short = refl
at_start c t (suc i) sc h short = ground (
  arith,
  inside_char c t (suc i) sc (omega arith) short,
  length-append (encode_utf8 c) t,
  length-encode_utf8 c,
)

Cut-cons : {cs : List ℕ} {i : ℕ} (c : ℕ) → Cut cs i → Cut (c ∷ cs) (length (encode_utf8 c) + i)
unfolding encode
Cut-cons c k = record {
  before = c ∷ k.before;
  after = k.after;
  whole = ap (λ t. c ∷ t) k.whole;
  place = omega (arith, length-append (encode_utf8 c) (encode k.before), k.place);
}

nil_start : (i : ℕ) → is_char_boundary [] i ≡ true → 0 ≡ i
unfolding is_char_boundary
nil_start i h = ground arith

pub boundary-Cut :
    (cs : List ℕ) (i : ℕ) → All IsScalar cs → is_char_boundary (encode cs) i ≡ true → Cut cs i
unfolding encode
boundary-Cut [] i sc h = record { before = []; after = []; whole = refl; place = nil_start i h }
boundary-Cut (c ∷ cs) i (sc, scs) h = elim (Bool-cases (ltb i (len_utf8 c))) [
  | inl short ↦ record {
    before = [];
    after = c ∷ cs;
    whole = refl;
    place = at_start c (encode cs) i sc h (ltb→lt i (len_utf8 c) short);
  }
  | inr long ↦
      let n = length (encode_utf8 c) in
      let far : n ≤ i = omega (arith, length-encode_utf8 c, le_of_ltb-false i (len_utf8 c) long) in
      let e : n + (i - n) ≡ i = omega arith in
      subst (Cut (c ∷ cs)) e (
        Cut-cons c (
          boundary-Cut cs (i - n) scs (
            boundary-append (encode_utf8 c) (encode cs) (i - n)
              (subst (λ t. is_char_boundary (encode_utf8 c ++ encode cs) t ≡ true) (sym e) h))))
]

pub IsUtf8-encode : (cs : List ℕ) → All IsScalar cs → IsUtf8 (encode cs)
IsUtf8-encode cs h = record { chars = cs; scalars = h; spells = refl }

pub All-left {ℓ κ} : {A : Type ℓ} (P : A → Type κ) (xs ys : List A) → All P (xs ++ ys) → All P xs
All-left P [] ys h = tt
All-left P (x ∷ xs) ys (p, h) = (p, All-left P xs ys h)

pub All-right {ℓ κ} : {A : Type ℓ} (P : A → Type κ) (xs ys : List A) → All P (xs ++ ys) → All P ys
All-right P [] ys h = h
All-right P (x ∷ xs) ys (p, h) = All-right P xs ys h

-- A text cut at a boundary is two texts.
pub record Halves (s : Bytes) (i : ℕ) : Type 0 where
  pub left : IsUtf8 (take i s)
  pub right : IsUtf8 (drop i s)
  pub fits : i ≤ length s

pub take-append_exact : (s t : Bytes) → take (length s) (s ++ t) ≡ s
take-append_exact s t =
    take-append_le (length s) s t (omega arith) ∙ take_all (length s) s (omega arith)

pub drop-append_exact : (s t : Bytes) → drop (length s) (s ++ t) ≡ t
drop-append_exact s t =
    drop-append_le (length s) s t (omega arith)
    ∙ ap (λ x. x ++ t) (drop_all (length s) s (omega arith))

Halves-encode :
    (ds es : List ℕ)
    → All IsScalar ds
    → All IsScalar es
    → Halves (encode ds ++ encode es) (length (encode ds))
Halves-encode ds es hd he = record {
  left = subst IsUtf8 (sym (take-append_exact (encode ds) (encode es))) (IsUtf8-encode ds hd);
  right = subst IsUtf8 (sym (drop-append_exact (encode ds) (encode es))) (IsUtf8-encode es he);
  fits = omega (arith, length-append (encode ds) (encode es));
}

pub IsUtf8-Halves : {s : Bytes} (i : ℕ) → IsUtf8 s → is_char_boundary s i ≡ true → Halves s i
IsUtf8-Halves {s} i u h =
    let k : Cut u.chars i =
      boundary-Cut u.chars i u.scalars
        (subst (λ t. is_char_boundary t i ≡ true) (sym u.spells) h) in
    let sc : All IsScalar (k.before ++ k.after) = subst (All IsScalar) k.whole u.scalars in
    let e : encode k.before ++ encode k.after ≡ s =
      sym (encode-append k.before k.after) ∙ ap encode (sym k.whole) ∙ u.spells in
    subst (λ t. Halves t i) e
      (subst (Halves (encode k.before ++ encode k.after)) k.place (
        Halves-encode k.before k.after (All-left IsScalar k.before k.after sc)
          (All-right IsScalar k.before k.after sc)))

pub EndsBelow-last : (s : Bytes) (i : ℕ) → EndsBelow s → length s ≡ suc i → get_or s i 0 < 0xC0
EndsBelow-last [] i h e = absurd (omega arith)
EndsBelow-last (b ∷ []) zero h e = h
EndsBelow-last (b ∷ []) (suc i) h e = absurd (omega arith)
EndsBelow-last (b ∷ (c ∷ s)) zero h e = absurd (omega arith)
EndsBelow-last (b ∷ (c ∷ s)) (suc i) h e = EndsBelow-last (c ∷ s) i h (omega arith)

pub EndsBelow-drop : (k : ℕ) (s : Bytes) → EndsBelow s → EndsBelow (drop k s)
EndsBelow-drop zero s h = h
EndsBelow-drop (suc k) [] h = tt
EndsBelow-drop (suc k) (b ∷ []) h = subst EndsBelow (sym (drop_all k [] (omega arith))) tt
EndsBelow-drop (suc k) (b ∷ (c ∷ s)) h = EndsBelow-drop k (c ∷ s) h

All-encode_utf8 : (c : ℕ) → IsScalar c → All IsByte (encode_utf8 c)
unfolding encode_utf8
All-encode_utf8 c sc = elim (Bool-cases (ltb c 0x80)) [
  | inl a ↦ rw a (omega (arith, ltb→lt c 0x80 a))
  | inr a ↦ rw a (elim (Bool-cases (ltb c 0x800)) [
    | inl b ↦ rw b (omega (arith, ltb→lt c 0x800 b))
    | inr b ↦ rw b (elim (Bool-cases (ltb c 0x10000)) [
      | inl d ↦ rw d (omega (arith, ltb→lt c 0x10000 d))
      | inr d ↦ rw d (omega arith)
    ])
  ])
]

All-encode : (cs : List ℕ) → All IsScalar cs → All IsByte (encode cs)
unfolding encode
All-encode [] h = tt
All-encode (c ∷ cs) (sc, scs) =
    All-append IsByte (encode_utf8 c) (encode cs) (All-encode_utf8 c sc) (All-encode cs scs)

pub IsUtf8-bytes : {s : Bytes} → IsUtf8 s → All IsByte s
IsUtf8-bytes u = subst (All IsByte) u.spells (All-encode u.chars u.scalars)
