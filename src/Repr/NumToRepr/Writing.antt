-- ===== src/Repr/NumToRepr/Writing.antt =====
-- The digits are written backwards, behind the room for those that are still to come.
use lean_string.Prelude.{
  ℕ, zero, suc, ◌+◌, ◌-◌, ◌*◌, ◌/◌, ◌%◌, ◌^◌, ◌≤◌, ◌<◌, ◌≡◌, refl, sym, ap, subst, ◌∙◌, inl, inr,
  [], ◌∷◌, ◌++◌, append_assoc, arith, ltb, leb, ltb→lt, le_of_ltb-false, leb→le, lt_of_leb-false,
  Bool-cases, length, drop,
}
use lean_string.Prelude.Splice.{splice, length-splice, drop-splice, splice-splice_behind}
use lean_string.Utf8.{Bytes}
use lean_string.Repr.NumToRepr.{
  Cursor, wrapping_sub, write_before, pair_at, write_four, four_at_a_time, two_more, last_digits,
}
use lean_string.Repr.NumToRepr.Decimal.{
  Width, digits, pair, digits_two, digits_four, pair_at_lem, p10_pos,
}

wrapping_sub_lem : (a b : ℕ) → b ≤ a → a < 2 ^ 64 → wrapping_sub a b ≡ a - b
wrapping_sub_lem a b h k = omega arith

-- A number of at least 10000 has five digits or more, and the quotient four less.
data Longer (d : ℕ) (n : ℕ) : ℕ → Type 0 where
  longer : (k : ℕ) → Width k n → Longer d n (d + k)

four_fewer : (k n : ℕ) → Width k n → 10000 ≤ n → Longer 4 (n / 10000) k
four_fewer zero n w h = absurd w
four_fewer (suc zero) n w h = absurd (omega arith)
four_fewer (suc (suc zero)) n (lo, hi) h = absurd (omega arith)
four_fewer (suc (suc (suc zero))) n (lo, hi) h = absurd (omega arith)
four_fewer (suc (suc (suc (suc zero)))) n (lo, hi) h = absurd (omega arith)
four_fewer (suc (suc (suc (suc (suc zero))))) n (lo, hi) h = longer 1 (omega arith)
four_fewer (suc (suc (suc (suc (suc (suc k)))))) n (lo, hi) h =
    subst (Longer 4 (n / 10000)) (omega arith) (longer (suc (suc k)) (omega arith, omega arith))

two_fewer : (k n : ℕ) → Width k n → 100 ≤ n → Longer 2 (n / 100) k
two_fewer zero n w h = absurd w
two_fewer (suc zero) n w h = absurd (omega arith)
two_fewer (suc (suc zero)) n (lo, hi) h = absurd (omega arith)
two_fewer (suc (suc (suc zero))) n (lo, hi) h = longer 1 (omega arith)
two_fewer (suc (suc (suc (suc k)))) n (lo, hi) h =
    subst (Longer 2 (n / 100)) (omega arith) (longer (suc (suc k)) (omega arith, omega arith))

last_one : (k n : ℕ) → Width k n → n < 10 → k ≡ 1
last_one zero n w h = absurd w
last_one (suc zero) n w h = refl
last_one (suc (suc k)) n (lo, hi) h = absurd (omega (arith, p10_pos k))

last_two : (k n : ℕ) → Width k n → 10 ≤ n → n < 100 → k ≡ 2
last_two zero n w h h' = absurd w
last_two (suc zero) n w h h' = absurd (omega arith)
last_two (suc (suc zero)) n w h h' = refl
last_two (suc (suc (suc k))) n (lo, hi) h h' = absurd (omega (arith, p10_pos k))

-- `off` bytes and `k` digits lie before the written ones, and with the digits of `n` they are the goal.
pub record Writing (off size : ℕ) (goal : Bytes) (k : ℕ) (s : Cursor) : Type 0 where
  pub at : s.curr ≡ off + k
  pub size_of_buf : length s.buf ≡ size
  pub room : s.curr ≤ size
  pub small : size < 2 ^ 64
  pub so_far : digits k s.n ++ drop s.curr s.buf ≡ goal

module _ {off size : ℕ} {goal : Bytes} where
  -- Digits written before the others.
  pub write_before-Writing :
      (k w n : ℕ) (bytes : Bytes) (s : Cursor)
      → Writing off size goal (w + k) s
      → length bytes ≡ w
      → digits (w + k) s.n ≡ digits k n ++ bytes
      → Writing off size goal k (write_before s w bytes n)
  write_before-Writing k w n bytes s i len split =
      let moved : wrapping_sub s.curr w ≡ off + k =
        wrapping_sub_lem s.curr w (omega (arith, i.at)) (omega (arith, i.room, i.small))
        ∙ omega (arith, i.at) in
      let fits : off + k + length bytes ≤ length s.buf =
        omega (arith, i.room, i.at, i.size_of_buf) in
      let behind : drop (off + k + length bytes) s.buf ≡ drop s.curr s.buf =
        ap (λ j. drop j s.buf) (omega (arith, i.at)) in
      record {
        at = moved;
        size_of_buf =
            ap (λ j. length (splice s.buf j bytes)) moved
            ∙ length-splice s.buf (off + k) bytes fits
            ∙ i.size_of_buf;
        room = omega (arith, moved, i.room, i.at);
        small = i.small;
        so_far =
            ap (λ j. digits k n ++ drop j (splice s.buf j bytes)) moved
            ∙ ap (λ t. digits k n ++ t)
                (drop-splice s.buf (off + k) bytes fits ∙ ap (λ t. bytes ++ t) behind)
            ∙ sym (append_assoc (digits k n) bytes (drop s.curr s.buf))
            ∙ ap (λ t. t ++ drop s.curr s.buf) (sym split)
            ∙ i.so_far;
      }

  -- Four digits, as two pairs of the table.
  write_four-Writing :
      (k : ℕ) (s : Cursor)
      → Writing off size goal (suc (suc (suc (suc k)))) s
      → Writing off size goal k (write_four s)
  unfolding write_four
  write_four-Writing k s i =
      let rem = s.n % 10000 in
      let hi = pair (rem / 100) in
      let lo = pair (rem % 100) in
      let four : 4 + k ≡ suc (suc (suc (suc k))) = omega arith in
      let i' : Writing off size goal (4 + k) s =
        subst (λ j. Writing off size goal j s) (sym four) i in
      let moved : wrapping_sub s.curr 4 ≡ s.curr - 4 =
        wrapping_sub_lem s.curr 4 (omega (arith, i.at)) (omega (arith, i.room, i.small)) in
      let curr = wrapping_sub s.curr 4 in
      let both : splice (splice s.buf curr (pair_at (rem / 100 * 2))) (curr + 2)
            (pair_at (rem % 100 * 2))
          ≡ splice s.buf curr (hi ++ lo) =
        rw (pair_at_lem (rem / 100) (omega arith), pair_at_lem (rem % 100) (omega arith))
          (splice-splice_behind s.buf curr hi lo
            (omega (arith, moved, i.at, i.room, i.size_of_buf))) in
      subst (λ b. Writing off size goal k (record { curr = curr; n = s.n / 10000; buf = b }))
        (sym both)
        (write_before-Writing k 4 (s.n / 10000) (hi ++ lo) s i' refl
          (ap (λ j. digits j s.n) four ∙ digits_four k s.n))

module _ (off size : ℕ) (goal : Bytes) where
  -- What is left to write has as many digits as there is room for.
  pub record Left (k : ℕ) (s : Cursor) : Type 0 where
    pub writing : Writing off size goal k s
    pub width : Width k s.n

  pub record Few (bound : ℕ) (s : Cursor) : Type 0 where
    pub k : ℕ
    pub left : Left k s
    pub few : s.n < bound

module _ {off size : ℕ} {goal : Bytes} where
  round :
      (k : ℕ) (s : Cursor)
      → Writing off size goal k s
      → Longer 4 (s.n / 10000) k
      → (j : ℕ) × ((4 + j ≡ k) × Left off size goal j (write_four s))
  unfolding write_four
  round k s i (longer j w) = (
    j,
    (
      refl,
      record {
        writing = write_four-Writing j s (subst (λ j'. Writing off size goal j' s) (omega arith) i);
        width = w;
      },
    ),
  )

  -- The loop ends with four digits left at most, since it goes as often as there are digits.
  pub four_at_a_time-Few :
      (fuel k : ℕ) (s : Cursor)
      → k ≤ fuel
      → Left off size goal k s
      → Few off size goal 10000 (four_at_a_time fuel s)
  unfolding four_at_a_time
  four_at_a_time-Few zero zero s enough l = absurd (l.width)
  four_at_a_time-Few zero (suc k) s enough l = absurd (omega arith)
  four_at_a_time-Few (suc fuel) k s enough l = elim (Bool-cases (leb 10000 s.n)) [
    | inl big ↦
        let (j, (e, l')) = round k s l.writing (four_fewer k s.n l.width (leb→le 10000 s.n big)) in
        rw big (four_at_a_time-Few fuel j (write_four s) (omega arith) l')
    | inr small ↦ rw small (record { k = k; left = l; few = lt_of_leb-false 10000 s.n small })
  ]

  two_digits :
      (k : ℕ) (s : Cursor)
      → Writing off size goal k s
      → s.n < 10000
      → Longer 2 (s.n / 100) k
      → Few off size goal 100 (write_before s 2 (pair_at (s.n % 100 * 2)) (s.n / 100))
  two_digits k s i few (longer j w) = record {
    k = j;
    left = record {
      writing =
          write_before-Writing j 2 (s.n / 100) (pair_at (s.n % 100 * 2)) s i
            (ap length (pair_at_lem (s.n % 100) (omega arith)))
            (ap (λ c. digits c s.n) {x = 2 + j} {y = suc (suc j)} (omega arith)
              ∙ digits_two j s.n
              ∙ ap (λ t. digits j (s.n / 100) ++ t) (sym (pair_at_lem (s.n % 100) (omega arith))));
      width = w;
    };
    few = omega arith;
  }

  pub two_more-Few : (s : Cursor) → Few off size goal 10000 s → Few off size goal 100 (two_more s)
  unfolding two_more
  two_more-Few s f = elim (Bool-cases (leb 100 s.n)) [
    | inl big ↦ rw big (
        two_digits f.k s f.left.writing f.few (two_fewer f.k s.n f.left.width (leb→le 100 s.n big)))
    | inr small ↦ rw small (record { k = f.k; left = f.left; few = lt_of_leb-false 100 s.n small })
  ]

  -- All digits are written.
  pub last_digits-Writing :
      (s : Cursor) → Few off size goal 100 s → Writing off size goal 0 (last_digits s)
  unfolding last_digits digits
  last_digits-Writing s f = elim (Bool-cases (ltb s.n 10)) [
    | inl one ↦
        let k : f.k ≡ 1 + 0 = last_one f.k s.n f.left.width (ltb→lt s.n 10 one) in
        rw one (
          write_before-Writing 0 1 s.n ((s.n % 256 + 48) % 256 ∷ []) s
            (subst (λ j. Writing off size goal j s) k f.left.writing) refl
            (ap (λ b. b ∷ []) (omega (arith, ltb→lt s.n 10 one))))
    | inr two ↦
        let k : f.k ≡ 2 + 0 = last_two f.k s.n f.left.width (le_of_ltb-false s.n 10 two) f.few in
        rw two (
          write_before-Writing 0 2 s.n (pair_at (s.n * 2)) s
            (subst (λ j. Writing off size goal j s) k f.left.writing)
            (ap length (pair_at_lem s.n f.few))
            (ap (λ a. a ∷ (s.n % 10 + 48) ∷ []) {y = s.n / 10 + 48} (omega (arith, f.few))
              ∙ sym (pair_at_lem s.n f.few)))
  ]
