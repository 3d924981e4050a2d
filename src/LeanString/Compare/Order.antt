-- ===== src/LeanString/Compare/Order.antt =====
-- The equality and the order of texts, byte by byte.
use Prim.Native.Nat.{Ordering}
use mathlib.Core.Bool.{false≢true}
use lean_string.Prelude.{
  ℕ, ◌<◌, ◌≡◌, refl, ap, subst, ◌↔◌, inl, inr, true, ◌&&◌, [], ◌∷◌, arith, ltb, ltb→lt,
  le_of_ltb-false, ◌==◌, ==_iff, Bool-cases,
}
use lean_string.Utf8.{Bytes}
use lean_string.LeanString.Compare.{str_eq, str_cmp}

-- The first text ends before the second, or has a lower byte where the two first differ.
pub data Precedes : Bytes → Bytes → Type 0 where
  shorter : {y : ℕ} {ys : Bytes} → Precedes [] (y ∷ ys)
  lower_byte : {x y : ℕ} {xs ys : Bytes} → x < y → Precedes (x ∷ xs) (y ∷ ys)
  same_byte : {x : ℕ} {xs ys : Bytes} → Precedes xs ys → Precedes (x ∷ xs) (x ∷ ys)

pub data Ordered (a b : Bytes) : Ordering → Type 0 where
  less : Precedes a b → Ordered a b Ordering.lt
  equal : a ≡ b → Ordered a b Ordering.eq
  greater : Precedes b a → Ordered a b Ordering.gt

behind : {x : ℕ} {xs ys : Bytes} {o : Ordering} → Ordered xs ys o → Ordered (x ∷ xs) (x ∷ ys) o
behind (less p) = less (same_byte p)
behind {x} (equal e) = equal (ap (λ t. x ∷ t) e)
behind (greater p) = greater (same_byte p)

pub str_cmp-Ordered : (a b : Bytes) → Ordered a b (str_cmp a b)
unfolding str_cmp
str_cmp-Ordered [] [] = equal refl
str_cmp-Ordered [] (y ∷ ys) = less shorter
str_cmp-Ordered (x ∷ xs) [] = greater shorter
str_cmp-Ordered (x ∷ xs) (y ∷ ys) = elim (Bool-cases (ltb x y)) [
  | inl lt ↦ rw lt (less (lower_byte (ltb→lt x y lt)))
  | inr ge ↦ rw ge (elim (Bool-cases (ltb y x)) [
    | inl gt ↦ rw gt (greater (lower_byte (ltb→lt y x gt)))
    | inr le ↦ rw le (
        subst (λ z. Ordered (x ∷ xs) (z ∷ ys) (str_cmp xs ys)) {x = x}
          (omega (arith, le_of_ltb-false x y ge, le_of_ltb-false y x le))
          (behind (str_cmp-Ordered xs ys)))
  ])
]

str_eq_refl : (a : Bytes) → str_eq a a ≡ true
unfolding str_eq
str_eq_refl [] = refl
str_eq_refl (x ∷ xs) = rw ((==_iff x x).1 refl) (str_eq_refl xs)

same_of_str_eq : (a b : Bytes) → str_eq a b ≡ true → a ≡ b
unfolding str_eq
same_of_str_eq [] [] e = refl
same_of_str_eq [] (y ∷ ys) e = absurd (false≢true e)
same_of_str_eq (x ∷ xs) [] e = absurd (false≢true e)
same_of_str_eq (x ∷ xs) (y ∷ ys) e = elim (Bool-cases (x == y)) [
  | inl same ↦
      subst (λ z. x ∷ xs ≡ z ∷ ys) ((==_iff x y).0 same)
        (ap (λ t. x ∷ t) (same_of_str_eq xs ys (subst (λ b. (b && str_eq xs ys) ≡ true) same e)))
  | inr apart ↦ absurd (false≢true (subst (λ b. (b && str_eq xs ys) ≡ true) apart e))
]

pub str_eq_iff : (a b : Bytes) → (str_eq a b ≡ true) ↔ (a ≡ b)
str_eq_iff a b = (same_of_str_eq a b, λ e. subst (λ t. str_eq a t ≡ true) e (str_eq_refl a))
