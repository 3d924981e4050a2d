-- ===== src/Repr/NumToRepr/Decimal.antt =====
-- Decimal notation: the digits of a number, how many it has, and the number that a text denotes.
use mathlib.Core.Path.{ap₂}
use lean_string.Prelude.{
  ℕ, zero, suc, ◌+◌, ◌-◌, ◌*◌, ◌/◌, ◌%◌, ◌≤◌, ◌<◌, ◌≡◌, refl, ap, ◌∙◌, true, false, ◌&&◌, Option,
  none, some, [], ◌∷◌, ◌++◌, append_assoc, arith, ltb, leb, ◌==◌, if◌then◌else◌, length,
  length-append, take, drop, All, All-append,
}
use lean_string.Prelude.Int.{ℤ, pos, neg}
use lean_string.Utf8.{Bytes}
use lean_string.Repr.NumToRepr.{dec_digits_lut, pair_at}

abbrev pub p10 : ℕ → ℕ
p10 zero = 1
p10 (suc k) = 10 * p10 k

pub p10_pos : (k : ℕ) → 1 ≤ p10 k
p10_pos zero = omega arith
p10_pos (suc k) = omega (arith, p10_pos k)

-- The number has just so many digits: the first is not 0, unless it is the only one.
abbrev pub Width : ℕ → ℕ → Type 0
Width zero n = ⊥
Width (suc zero) n = n < 10
Width (suc (suc k)) n = (p10 (suc k) ≤ n) × (n < p10 (suc (suc k)))

-- The lowest `k` digits, as characters.
unfoldable pub digits : ℕ → ℕ → Bytes
digits zero n = []
digits (suc k) n = digits k (n / 10) ++ ((n % 10 + 48) ∷ [])

pub length-digits : (k n : ℕ) → length (digits k n) ≡ k
unfolding digits
length-digits zero n = refl
length-digits (suc k) n =
    omega (arith, length-append (digits k (n / 10)) ((n % 10 + 48) ∷ []), length-digits k (n / 10))

abbrev pub IsDigit : ℕ → Type 0
IsDigit b = (48 ≤ b) × (b < 58)

pub digits-IsDigit : (k n : ℕ) → All IsDigit (digits k n)
unfolding digits
digits-IsDigit zero n = tt
digits-IsDigit (suc k) n =
    All-append IsDigit (digits k (n / 10)) ((n % 10 + 48) ∷ []) (digits-IsDigit k (n / 10))
      ((omega arith, omega arith), tt)

-- Two digits of a number below 100.
abbrev pub pair : ℕ → Bytes
pair r = (r / 10 + 48) ∷ (r % 10 + 48) ∷ []

pub digits_two : (k n : ℕ) → digits (suc (suc k)) n ≡ digits k (n / 100) ++ pair (n % 100)
unfolding digits
digits_two k n =
    let high : n / 10 / 10 ≡ n / 100 = omega arith in
    let tens : n / 10 % 10 + 48 ≡ n % 100 / 10 + 48 = omega arith in
    let ones : n % 10 + 48 ≡ n % 100 % 10 + 48 = omega arith in
    append_assoc (digits k (n / 10 / 10)) ((n / 10 % 10 + 48) ∷ []) ((n % 10 + 48) ∷ [])
    ∙ ap₂ (λ q r. digits k q ++ r) high (ap₂ (λ a b. a ∷ b ∷ []) tens ones)

pub digits_four :
    (k n : ℕ)
    → digits (suc (suc (suc (suc k)))) n
      ≡ digits k (n / 10000) ++ (pair (n % 10000 / 100) ++ pair (n % 10000 % 100))
digits_four k n =
    let high : n / 100 / 100 ≡ n / 10000 = omega arith in
    let hundreds : n / 100 % 100 ≡ n % 10000 / 100 = omega arith in
    let low : n % 100 ≡ n % 10000 % 100 = omega arith in
    digits_two (suc (suc k)) n
    ∙ ap (λ t. t ++ pair (n % 100)) (digits_two k (n / 100))
    ∙ append_assoc (digits k (n / 100 / 100)) (pair (n / 100 % 100)) (pair (n % 100))
    ∙ ap₂ (λ q r. digits k q ++ r) high (ap₂ (λ a b. pair a ++ pair b) hundreds low)

-- The table, spelled out from a number.
pairs : ℕ → ℕ → Bytes
pairs k zero = []
pairs k (suc c) = (k / 10 + 48) ∷ (k % 10 + 48) ∷ pairs (suc k) c

pairs_at : (i k c : ℕ) → i < c → take 2 (drop (i * 2) (pairs k c)) ≡ pair (k + i)
unfolding pairs
pairs_at i k zero h = absurd (omega arith)
pairs_at zero k (suc c) h = ap pair (omega arith)
pairs_at (suc i) k (suc c) h =
    ap (λ j. take 2 (drop j (pairs k (suc c)))) {y = suc (suc (i * 2))} (omega arith)
    ∙ pairs_at i (suc k) c (omega arith)
    ∙ ap pair (omega arith)

table : dec_digits_lut ≡ pairs 0 100
unfolding dec_digits_lut pairs
table = refl

pub pair_at_lem : (i : ℕ) → i < 100 → pair_at (i * 2) ≡ pair i
pair_at_lem i h =
    ap (λ t. take 2 (drop (i * 2) t)) table ∙ pairs_at i 0 100 h ∙ ap pair (omega arith)

-- The number that a text of digits denotes, behind those read so far.
unfoldable pub read_digits : ℕ → Bytes → Option ℕ
read_digits n [] = some n
read_digits n (b ∷ text) =
    let rest = read_digits (n * 10 + (b - 48)) text in if leb 48 b && ltb b 58 then rest else none

abbrev signed : (ℕ → ℤ) → Option ℕ → Option ℤ
signed sign none = none
signed sign (some n) = some (sign n)

-- The integer that a text denotes: a `-` may stand before its digits, of which there is one at least.
unfoldable pub parse : Bytes → Option ℤ
parse [] = none
parse (b ∷ []) = signed pos (read_digits 0 (b ∷ []))
parse (b ∷ c ∷ text) =
    if b == 45
    then signed neg (read_digits 0 (c ∷ text))
    else signed pos (read_digits 0 (b ∷ c ∷ text))

value : ℕ → Bytes → ℕ
value n [] = n
value n (b ∷ text) = value (n * 10 + (b - 48)) text

value-append : (n b : ℕ) (text : Bytes) → value n (text ++ (b ∷ [])) ≡ value n text * 10 + (b - 48)
unfolding value
value-append n b [] = refl
value-append n b (c ∷ text) = value-append (n * 10 + (c - 48)) b text

value-digits : (k n : ℕ) → n < p10 k → value 0 (digits k n) ≡ n
unfolding value digits
value-digits zero n h = omega arith
value-digits (suc k) n h =
    value-append 0 (n % 10 + 48) (digits k (n / 10))
    ∙ omega (arith, value-digits k (n / 10) (omega arith))

read_digits_lem :
    (n : ℕ) (text : Bytes) → All IsDigit text → read_digits n text ≡ some (value n text)
unfolding value read_digits
read_digits_lem n [] ds = refl
read_digits_lem n (b ∷ text) ((lo, hi), ds) =
    let digit : (leb 48 b && ltb b 58) ≡ true = ground arith in
    rw digit (read_digits_lem (n * 10 + (b - 48)) text ds)

read_digits-digits : (k n : ℕ) → n < p10 k → read_digits 0 (digits k n) ≡ some n
read_digits-digits k n h =
    read_digits_lem 0 (digits k n) (digits-IsDigit k n) ∙ ap some (value-digits k n h)

parse_digits :
    (text : Bytes) (n : ℕ)
    → All IsDigit text
    → 1 ≤ length text
    → read_digits 0 text ≡ some n
    → parse text ≡ some (pos n)
unfolding parse
parse_digits [] n ds one e = absurd (omega arith)
parse_digits (b ∷ []) n ds one e = ap (signed pos) e
parse_digits (b ∷ c ∷ text) n ((lo, hi), ds) one e =
    let digit : (b == 45) ≡ false = ground arith in rw digit (ap (signed pos) e)

parse_negative :
    (text : Bytes) (n : ℕ)
    → 1 ≤ length text
    → read_digits 0 text ≡ some n
    → parse (45 ∷ text) ≡ some (neg n)
unfolding parse
parse_negative [] n one e = absurd (omega arith)
parse_negative (c ∷ text) n one e = ap (signed neg) e

pub parse-digits : (k n : ℕ) → 1 ≤ k → n < p10 k → parse (digits k n) ≡ some (pos n)
parse-digits k n one h =
    parse_digits (digits k n) n (digits-IsDigit k n) (omega (arith, length-digits k n))
      (read_digits-digits k n h)

pub parse-negative : (k n : ℕ) → 1 ≤ k → n < p10 k → parse (45 ∷ digits k n) ≡ some (neg n)
parse-negative k n one h =
    parse_negative (digits k n) n (omega (arith, length-digits k n)) (read_digits-digits k n h)
