-- ===== src/Prelude/LittleEndian.antt =====
-- Words as bytes, lowest first.
use Prim.Native.Nat.{ℕ, zero, suc, ◌+◌, ◌*◌, ◌/◌, ◌%◌, ◌^◌, ◌≤◌, ◌<◌, bit_or}
use mathlib.Core.Path.{◌≡◌, refl, ap, sym, ◌∙◌, ap₂}
use mathlib.Core.List.{List, [], ◌∷◌, ◌++◌}
use native.Mathlib.Omega.{arith}
use native.Mathlib.Nat.{div-div-eq-div-mul, zero-div}
use lean_string.Prelude.Lists.{length, take, drop, replicate, All}
use lean_string.Prelude.Bits.{bit_or_split, zero-bit_or, bit_or-zero, bit_or_self}

abbrev pub IsByte : ℕ → Type 0
IsByte b = b < 256

-- The number that bytes spell.
abbrev pub from_le : List ℕ → ℕ
from_le [] = 0
from_le (b ∷ bs) = b + 256 * from_le bs

-- The lowest `k` bytes of a number.
abbrev pub to_le : ℕ → ℕ → List ℕ
to_le zero n = []
to_le (suc k) n = (n % 256) ∷ to_le k (n / 256)

abbrev pub pow256 : ℕ → ℕ
pow256 zero = 1
pow256 (suc k) = 256 * pow256 k

-- A shift by `k` bytes.
pub pow256_lem : (k : ℕ) → k ≤ 8 → 2 ^ (k * 8) ≡ pow256 k
pow256_lem zero h = refl
pow256_lem (suc zero) h = refl
pow256_lem (suc (suc zero)) h = refl
pow256_lem (suc (suc (suc zero))) h = refl
pow256_lem (suc (suc (suc (suc zero)))) h = refl
pow256_lem (suc (suc (suc (suc (suc zero))))) h = refl
pow256_lem (suc (suc (suc (suc (suc (suc zero)))))) h = refl
pow256_lem (suc (suc (suc (suc (suc (suc (suc zero))))))) h = refl
pow256_lem (suc (suc (suc (suc (suc (suc (suc (suc zero)))))))) h = refl
pow256_lem (suc (suc (suc (suc (suc (suc (suc (suc (suc k))))))))) h = absurd (omega arith)

pub to_le-from_le : (bs : List ℕ) → All IsByte bs → to_le (length bs) (from_le bs) ≡ bs
to_le-from_le [] h = refl
to_le-from_le (b ∷ bs) (hb, hs) =
    ap₂ (λ x xs. x ∷ xs) (omega arith) (ap (to_le (length bs)) (omega arith) ∙ to_le-from_le bs hs)

pub from_le-append :
    (xs ys : List ℕ) → from_le (xs ++ ys) ≡ from_le xs + pow256 (length xs) * from_le ys
from_le-append [] ys = omega arith
from_le-append (x ∷ xs) ys = omega (arith, from_le-append xs ys)

pub from_le-zeros : (k : ℕ) → from_le (replicate k 0) ≡ 0
from_le-zeros zero = refl
from_le-zeros (suc k) = omega (arith, from_le-zeros k)

pub All-zeros : (k : ℕ) → All IsByte (replicate k 0)
All-zeros zero = tt
All-zeros (suc k) = (omega arith, All-zeros k)

-- Zeros above change nothing, zeros below shift.
pub from_le-append_zeros : (xs : List ℕ) (k : ℕ) → from_le (xs ++ replicate k 0) ≡ from_le xs
from_le-append_zeros xs k =
    from_le-append xs (replicate k 0)
    ∙ omega (arith, ap (λ n. pow256 (length xs) * n) (from_le-zeros k))

pub from_le-zeros_append :
    (k : ℕ) (xs : List ℕ) → from_le (replicate k 0 ++ xs) ≡ from_le xs * pow256 k
from_le-zeros_append zero xs = omega arith
from_le-zeros_append (suc k) xs = omega (arith, from_le-zeros_append k xs)

pub from_le-lt : (bs : List ℕ) → All IsByte bs → from_le bs < pow256 (length bs)
from_le-lt [] h = omega arith
from_le-lt (b ∷ bs) (hb, hs) = omega (arith, from_le-lt bs hs)

-- A shift to the right drops low bytes.
pub from_le-drop :
    (k : ℕ) (bs : List ℕ) → All IsByte bs → from_le bs / pow256 k ≡ from_le (drop k bs)
from_le-drop zero bs h = omega arith
from_le-drop (suc k) [] h = zero-div (pow256 (suc k))
from_le-drop (suc k) (b ∷ bs) (hb, hs) =
    sym (div-div-eq-div-mul (b + 256 * from_le bs) 256 (pow256 k))
    ∙ ap (λ n. n / pow256 k) (omega arith)
    ∙ from_le-drop k bs hs

-- `|` works byte by byte.
abbrev pub or_bytes : List ℕ → List ℕ → List ℕ
or_bytes [] ys = ys
or_bytes (x ∷ xs) [] = x ∷ xs
or_bytes (x ∷ xs) (y ∷ ys) = bit_or x y ∷ or_bytes xs ys

pub bit_or-from_le :
    (xs ys : List ℕ)
    → All IsByte xs
    → All IsByte ys
    → bit_or (from_le xs) (from_le ys) ≡ from_le (or_bytes xs ys)
bit_or-from_le [] ys hx hy = zero-bit_or (from_le ys)
bit_or-from_le (x ∷ xs) [] hx hy = bit_or-zero (from_le (x ∷ xs))
bit_or-from_le (x ∷ xs) (y ∷ ys) (hx, hxs) (hy, hys) =
    bit_or_split 8 x y (from_le xs) (from_le ys) (omega arith) (omega arith)
    ∙ ap (λ n. bit_or x y + 256 * n) (bit_or-from_le xs ys hxs hys)

or_bytes-take : (k : ℕ) (xs : List ℕ) → or_bytes (take k xs) xs ≡ xs
or_bytes-take zero xs = refl
or_bytes-take (suc k) [] = refl
or_bytes-take (suc k) (x ∷ xs) = ap₂ (λ y ys. y ∷ ys) (bit_or_self x) (or_bytes-take k xs)

-- Two ends of one text that meet or overlap.
pub or_bytes_ends :
    (k j : ℕ) (xs : List ℕ)
    → j ≤ k
    → k ≤ length xs
    → or_bytes (take k xs) (replicate j 0 ++ drop j xs) ≡ xs
or_bytes_ends k zero xs p q = or_bytes-take k xs
or_bytes_ends zero (suc j) xs p q = absurd (omega arith)
or_bytes_ends (suc k) (suc j) [] p q = absurd (omega arith)
or_bytes_ends (suc k) (suc j) (x ∷ xs) p q =
    ap₂ (λ y ys. y ∷ ys) (bit_or-zero x) (or_bytes_ends k j xs (omega arith) (omega arith))
