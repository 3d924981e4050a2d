-- ===== src/InlineBuffer/Words.antt =====
-- The two words that `InlineBuffer::new` (src/repr/inline_buffer.rs) assembles, by the length of the
-- text.
use Prim.Native.Nat.{bit_or}
use mathlib.Core.Path.{ap₂}
use lean_string.Prelude.{
  ℕ, zero, suc, ◌+◌, ◌-◌, ◌*◌, ◌%◌, ◌^◌, ◌≤◌, ◌<◌, ◌≡◌, sym, ap, ◌∙◌, arith, [], ◌∷◌, ◌++◌,
  append_assoc, length, take, drop, replicate, All, All-append, length-append, length-drop,
  length-replicate, take-append-drop, take_all,
}
use lean_string.Prelude.Splice.{length-take_le}
use lean_string.Prelude.Bits.{or_tag}
use lean_string.Prelude.LittleEndian.{
  IsByte, from_le, to_le, pow256, pow256_lem, to_le-from_le, from_le-append_zeros,
  from_le-zeros_append, from_le-lt, or_bytes_ends, bit_or-from_le, All-zeros,
}
use lean_string.Utf8.{Bytes}
use lean_string.InlineBuffer.{load, shl, last_byte_of, from_words, two_loads}
use lean_string.InlineBuffer.Shape.{pad, or_mask, to_le_top}

abbrev zeros : ℕ → Bytes
zeros k = replicate k 0

length-zeros : (k : ℕ) → length (zeros k) ≡ k
length-zeros k = length-replicate k 0

zeros-append : (a b : ℕ) → zeros a ++ zeros b ≡ zeros (a + b)
zeros-append zero b = ap zeros (omega arith)
zeros-append (suc a) b =
    let e : suc a + b ≡ suc (a + b) = omega arith in rw e (ap (λ t. 0 ∷ t) (zeros-append a b))

All-take : (k : ℕ) (bs : Bytes) → All IsByte bs → All IsByte (take k bs)
All-take zero bs h = tt
All-take (suc k) [] h = tt
All-take (suc k) (b ∷ bs) (hb, hs) = (hb, All-take k bs hs)

pub All-drop : (k : ℕ) (bs : Bytes) → All IsByte bs → All IsByte (drop k bs)
All-drop zero bs h = h
All-drop (suc k) [] h = tt
All-drop (suc k) (b ∷ bs) (hb, hs) = All-drop k bs hs

last_byte_lem : (n : ℕ) → n < 16 → last_byte_of n ≡ (n + 0xC0) * 2 ^ 56
last_byte_lem n h = omega (arith, or_mask n (omega arith))

pub last_byte_alone : (n : ℕ) → n < 16 → last_byte_of n ≡ from_le [] + (n + 0xC0) * 2 ^ 56
last_byte_alone n h = omega (arith, last_byte_lem n h)

-- A word of a text that is shorter than a word.
to_le_short :
    (text : Bytes)
    → All IsByte text
    → length text ≤ 8
    → to_le 8 (from_le text) ≡ text ++ zeros (8 - length text)
to_le_short text h small =
    let k = 8 - length text in
    let bytes = text ++ zeros k in
    let n : length bytes ≡ 8 = omega (arith, length-append text (zeros k), length-zeros k) in
    sym (ap (to_le 8) (from_le-append_zeros text k))
    ∙ sym (ap (λ j. to_le j (from_le bytes)) n)
    ∙ to_le-from_le bytes (All-append IsByte text (zeros k) h (All-zeros k))

-- The second word with a part of the text below the length.
top_word :
    (bs : Bytes) (t : ℕ)
    → All IsByte bs
    → IsByte t
    → length bs ≤ 7
    → to_le 8 (from_le bs + t * 2 ^ 56) ≡ bs ++ (zeros (7 - length bs) ++ t ∷ [])
top_word bs t h ht small =
    let k = 7 - length bs in
    ap (λ x. to_le 8 (x + t * 2 ^ 56)) (sym (from_le-append_zeros bs k))
    ∙ to_le_top (bs ++ zeros k) t (omega (arith, length-append bs (zeros k), length-zeros k))
        (All-append IsByte bs (zeros k) h (All-zeros k)) ht
    ∙ append_assoc bs (zeros k) (t ∷ [])

pub or_last :
    (bs : Bytes) (n : ℕ)
    → All IsByte bs
    → length bs ≤ 7
    → n < 16
    → bit_or (from_le bs) (last_byte_of n) ≡ from_le bs + (n + 0xC0) * 2 ^ 56
or_last bs n h small lt = rw (last_byte_lem n lt) (
    or_tag (n + 0xC0) (from_le bs) (
      omega (
        arith,
        from_le-append_zeros bs (7 - length bs),
        from_le-lt (bs ++ zeros (7 - length bs))
            (All-append IsByte bs (zeros (7 - length bs)) h (All-zeros (7 - length bs))),
        seven bs (7 - length bs) (omega arith),
      )))
  where
    seven : (cs : Bytes) (k : ℕ) → length cs + k ≡ 7 → pow256 (length (cs ++ zeros k)) ≡ 2 ^ 56
    seven cs k e =
        ap pow256 (length-append cs (zeros k) ∙ ap (λ t. length cs + t) (length-zeros k) ∙ e)

small_word :
    (n : ℕ) (bs : Bytes) → length bs ≡ n → All IsByte bs → n < 8 → from_le bs % 2 ^ 64 ≡ from_le bs
small_word n bs e h short = omega (
  arith,
  from_le-append_zeros bs (8 - n),
  from_le-lt (bs ++ zeros (8 - n)) (All-append IsByte bs (zeros (8 - n)) h (All-zeros (8 - n))),
  ap pow256 (
      length-append bs (zeros (8 - n))
      ∙ ap₂ (λ a b. a + b) e (length-zeros (8 - n))
      ∙ eight n short),
)
  where
    eight : (k : ℕ) → k < 8 → k + (8 - k) ≡ 8
    eight k lt = omega arith

not_full :
    (text : Bytes)
    → length text < 16
    → text ++ (zeros (15 - length text) ++ (length text + 0xC0) ∷ []) ≡ pad text
unfolding pad
not_full text h = ground arith

-- Two loads of `k` bytes cover a text of `k` to `2 * k` bytes.
pub two_loads_lem :
    (k : ℕ) (text : Bytes)
    → All IsByte text
    → k ≤ length text
    → length text ≤ k + k
    → length text < 8
    → two_loads k text ≡ from_le text
two_loads_lem k text h small large short =
    let j = length text - k in
    let rest = drop j text in
    let shifted = zeros j ++ rest in
    let tail : take k rest ≡ rest = take_all k rest (omega (arith, length-drop j text)) in
    let n : length shifted ≡ length text =
      omega (arith, length-append (zeros j) rest, length-zeros j, length-drop j text) in
    let all : All IsByte shifted =
      All-append IsByte (zeros j) rest (All-zeros j) (All-drop j text h) in
    let spelled : from_le (take k rest) * 2 ^ (j * 8) ≡ from_le shifted =
      ap₂ (λ x y. from_le x * y) tail (pow256_lem j (omega arith))
      ∙ sym (from_le-zeros_append j rest) in
    let shift : shl (load k text j) (j * 8) ≡ from_le shifted =
      ap (λ x. x % 2 ^ 64) spelled ∙ small_word (length text) shifted n all short in
    ap (bit_or (from_le (take k text))) shift
    ∙ bit_or-from_le (take k text) shifted (All-take k text h) all
    ∙ ap from_le (or_bytes_ends k j text (omega arith) small)

-- The words of a text shorter than a word.
pub short_words :
    (text : Bytes)
    → All IsByte text
    → length text < 8
    → from_words (from_le text) (last_byte_of (length text)) ≡ pad text
short_words text h short =
    let n = length text in
    let t = n + 0xC0 in
    ap₂ (λ x y. x ++ to_le 8 y) (to_le_short text h (omega arith)) (last_byte_alone n (omega arith))
    ∙ ap (λ x. (text ++ zeros (8 - n)) ++ x) (top_word [] t tt (omega arith) (omega arith))
    ∙ append_assoc text (zeros (8 - n)) (zeros 7 ++ t ∷ [])
    ∙ ap (λ x. text ++ x)
        (sym (append_assoc (zeros (8 - n)) (zeros 7) (t ∷ []))
          ∙ ap (λ x. x ++ t ∷ []) (zeros-append (8 - n) 7 ∙ ap zeros (omega arith)))
    ∙ not_full text (omega arith)

-- The words of a text of eight to fifteen bytes.
pub long_words :
    (text : Bytes) (w : ℕ)
    → All IsByte text
    → 8 ≤ length text
    → length text < 16
    → w ≡ from_le (drop 8 text) + (length text + 0xC0) * 2 ^ 56
    → from_words (load 8 text 0) w ≡ pad text
long_words text w h long short e =
    let n = length text in
    let t = n + 0xC0 in
    let high : length (drop 8 text) ≡ n - 8 = length-drop 8 text in
    let low : length (take 8 text) ≡ 8 = length-take_le 8 text long in
    ap₂ (λ x y. x ++ to_le 8 y)
      (ap (λ k. to_le k (from_le (take 8 text))) (sym low)
        ∙ to_le-from_le (take 8 text) (All-take 8 text h))
      e
    ∙ ap (λ x. take 8 text ++ x)
        (top_word (drop 8 text) t (All-drop 8 text h) (omega arith) (omega (arith, high)))
    ∙ sym (append_assoc (take 8 text) (drop 8 text) (zeros (7 - length (drop 8 text)) ++ t ∷ []))
    ∙ ap₂ (λ x k. x ++ (zeros k ++ t ∷ [])) (take-append-drop 8 text) (omega (arith, high))
    ∙ not_full text short

-- Sixteen bytes are taken as they are.
pub full_words :
    (text : Bytes)
    → All IsByte text
    → length text ≡ 16
    → from_words (load 8 text 0) (load 8 text 8) ≡ text
full_words text h e =
    let low : length (take 8 text) ≡ 8 = length-take_le 8 text (omega arith) in
    let high : length (drop 8 text) ≡ 8 = length-drop 8 text ∙ omega arith in
    let all : take 8 (drop 8 text) ≡ drop 8 text = take_all 8 (drop 8 text) (omega (arith, high)) in
    ap₂ (λ x y. x ++ y)
      (ap (λ k. to_le k (from_le (take 8 text))) (sym low)
        ∙ to_le-from_le (take 8 text) (All-take 8 text h))
      (ap₂ (λ k x. to_le k (from_le x)) (sym high) all
        ∙ to_le-from_le (drop 8 text) (All-drop 8 text h))
    ∙ take-append-drop 8 text
