-- ===== src/Repr/Init/Copies.antt =====
-- The doubling copies of `repeat` fill the slice with copies of the text.
use Prim.Native.Nat.{min}
use lean_string.Prelude.{
  ℕ, zero, suc, ◌+◌, ◌-◌, ◌*◌, ◌≤◌, ◌<◌, ◌≡◌, sym, ap, subst, ◌∙◌, inl, inr, [], ◌∷◌, ◌++◌,
  append-nil, append_assoc, arith, ltb, ltb→lt, le_of_ltb-false, leb, leb→le, lt_of_leb-false,
  Bool-cases, length, take, length-append, take_all, take-take,
}
use lean_string.Prelude.Splice.{splice, length-splice, take-splice_end, splice_nothing}
use lean_string.Utf8.{Bytes, IsUtf8}
use lean_string.Utf8.Shape.{IsUtf8-nil, IsUtf8-append, take-append_exact}
use lean_string.Repr.Init.{double_up, repeat_into}

-- `n` copies of a text.
pub copies : ℕ → Bytes → Bytes
copies zero text = []
copies (suc n) text = text ++ copies n text

pub copies-IsUtf8 : (n : ℕ) {text : Bytes} → IsUtf8 text → IsUtf8 (copies n text)
unfolding copies
copies-IsUtf8 zero u = IsUtf8-nil
copies-IsUtf8 (suc n) u = IsUtf8-append u (copies-IsUtf8 n u)

pub length-copies : (n : ℕ) (text : Bytes) → length (copies n text) ≡ length text * n
unfolding copies
length-copies zero text = omega arith
length-copies (suc n) text = grind (arith, length-append text (copies n text), length-copies n text)

copies-add : (k j : ℕ) (text : Bytes) → copies (k + j) text ≡ copies k text ++ copies j text
unfolding copies
copies-add zero j text = ap (λ n. copies n text) (omega arith)
copies-add (suc k) j text =
    ap (λ n. copies n text) {y = suc (k + j)} (omega arith)
    ∙ ap (λ t. text ++ t) (copies-add k j text)
    ∙ sym (append_assoc text (copies k text) (copies j text))

length-copies_add :
    (k j : ℕ) (text : Bytes)
    → length (copies (k + j) text) ≡ length (copies k text) + length (copies j text)
length-copies_add k j text =
    ap length (copies-add k j text) ∙ length-append (copies k text) (copies j text)

take-copies :
    (k j : ℕ) (text : Bytes) → take (length (copies k text)) (copies (k + j) text) ≡ copies k text
take-copies k j text =
    ap (take (length (copies k text))) (copies-add k j text)
    ∙ take-append_exact (copies k text) (copies j text)

-- Some copies are a text that is not empty only if the text is not.
copies_pos :
    (j k : ℕ) (text : Bytes) → 0 < length (copies j text) → 0 < length (copies (suc k) text)
unfolding copies
copies_pos zero k text h = absurd (omega arith)
copies_pos (suc j) k [] h = absurd (copies_empty j h)
  where
    copies_empty : (j : ℕ) → 0 < length (copies j []) → ⊥
    copies_empty zero h = omega arith
    copies_empty (suc j) h = copies_empty j h
copies_pos (suc j) k (b ∷ text) h = omega arith

module _ (text : Bytes) where
  abbrev size_of : ℕ → ℕ
  size_of n = length (copies n text)

  -- The slice `dst` begins with `k` copies.
  abbrev Begins : ℕ → Bytes → Type 0
  Begins k dst = take (size_of k) dst ≡ copies k text

  nothing_missing :
      (k j : ℕ) (dst : Bytes)
      → size_of j ≡ 0
      → length dst ≡ size_of (k + j)
      → Begins k dst
      → dst ≡ copies (k + j) text
  nothing_missing k j dst none_left size begins =
      let e = length-copies_add k j text in
      sym (take_all (size_of k) dst (omega arith))
      ∙ begins
      ∙ sym (take-copies k j text)
      ∙ take_all (size_of k) (copies (k + j) text) (omega arith)

  -- A prefix of `m` copies, with `m` up to `k`, put behind `k` copies.
  copied_behind :
      (k m d : ℕ) (dst : Bytes)
      → m + d ≡ k
      → size_of k + size_of m ≤ length dst
      → Begins k dst
      → Begins (k + m) (splice dst (size_of k) (take (size_of m) dst))
        × (length (splice dst (size_of k) (take (size_of m) dst)) ≡ length dst)
  copied_behind k m d dst e fits begins =
      let le : size_of m ≤ size_of k = omega (arith, length-copies_add m d text, ap size_of e) in
      let src : take (size_of m) dst ≡ copies m text =
        sym (take-take (size_of m) (size_of k) dst le)
        ∙ ap (take (size_of m)) (begins ∙ ap (λ n. copies n text) (sym e))
        ∙ take-copies m d text in
      rw src (
        ap (λ n. take n (splice dst (size_of k) (copies m text))) (length-copies_add k m text)
            ∙ take-splice_end dst (size_of k) (copies m text) fits
            ∙ ap (λ t. t ++ copies m text) begins
            ∙ sym (copies-add k m text),
        length-splice dst (size_of k) (copies m text) fits,
      )

  split_size : (m n : ℕ) → m ≤ n → size_of n ≡ size_of m + size_of (n - m)
  split_size m n le = ap size_of {y = m + (n - m)} (omega arith) ∙ length-copies_add m (n - m) text

  min-size_of : (k j : ℕ) → min (size_of k) (size_of j) ≡ size_of (min k j)
  min-size_of k j = elim (Bool-cases (leb k j)) [
    | inl le ↦
        let h = leb→le k j le in
        omega (arith, split_size k j h, ap size_of {x = k} {y = min k j} (omega arith))
    | inr lt ↦
        let h = lt_of_leb-false k j lt in
        omega (arith, split_size j k (omega arith), ap size_of {x = j} {y = min k j} (omega arith))
  ]

  -- The invariant of the doubling: `suc k` copies stand at the front, and `j` are missing.
  doubled :
      (fuel k j n : ℕ) (dst : Bytes)
      → suc k + j ≡ n
      → size_of j ≤ fuel
      → length dst ≡ size_of n
      → Begins (suc k) dst
      → double_up fuel (size_of n) (size_of (suc k)) dst ≡ copies n text
  unfolding double_up
  doubled zero k j n dst e enough size begins =
      rw (← e) (nothing_missing (suc k) j dst (omega arith) (size ∙ ap size_of (sym e)) begins)
  doubled (suc fuel) k j n dst e enough size begins =
      let sum : size_of n ≡ size_of (suc k) + size_of j =
        ap size_of (sym e) ∙ length-copies_add (suc k) j text in
      elim (Bool-cases (ltb (size_of (suc k)) (size_of n))) [
        | inr full ↦
            let le = le_of_ltb-false (size_of (suc k)) (size_of n) full in
            rw full (
              nothing_missing (suc k) j dst (omega arith) (size ∙ ap size_of (sym e)) begins
              ∙ ap (λ i. copies i text) e)
        | inl more ↦
            let lt = ltb→lt (size_of (suc k)) (size_of n) more in
            let pos : 0 < size_of (suc k) = copies_pos j k text (omega arith) in
            let m = min (suc k) j in
            let count : min (size_of (suc k)) (length dst - size_of (suc k)) ≡ size_of m =
              ap (min (size_of (suc k))) (omega arith) ∙ min-size_of (suc k) j in
            let left = split_size m j (omega arith) in
            let dst' = splice dst (size_of (suc k)) (take (size_of m) dst) in
            let step = copied_behind (suc k) m (suc k - m) dst (omega arith) (omega arith) begins in
            let next : suc (k + m) ≡ suc k + m = omega arith in
            rw (more, count)
              (ap (λ f. double_up fuel (size_of n) f dst')
                  (sym (length-copies_add (suc k) m text) ∙ ap size_of (sym next))
                ∙ doubled fuel (k + m) (j - m) n dst' (omega arith)
                    (omega (arith, min-size_of (suc k) j)) (step.1 ∙ size)
                    (subst (λ i. Begins i dst') (sym next) step.0))
      ]

-- The closure of `repeat` leaves `n` copies of the text, whatever the slice held.
pub repeat_into-copies :
    (text : Bytes) (n : ℕ) (dst : Bytes)
    → length dst ≡ length (copies n text)
    → repeat_into text (length (copies n text)) dst ≡ copies n text
unfolding repeat_into copies double_up
repeat_into-copies text zero [] size = splice_nothing [] 0 (omega arith)
repeat_into-copies text zero (b ∷ dst) size = absurd (omega arith)
repeat_into-copies text (suc n) dst size =
    let one : copies 1 text ≡ text = append-nil text in
    let whole = length-copies_add 1 n text in
    let fits : length text ≤ length dst = omega (arith, size, length-append text (copies n text)) in
    let first : take (length dst) text ≡ text = take_all (length dst) text fits in
    let dst' = splice dst 0 text in
    rw first (
      ap (λ k. double_up (length (copies (suc n) text)) (length (copies (suc n) text)) k dst')
        (ap length (sym one))
      ∙ doubled text (length (copies (suc n) text)) 0 n (suc n) dst' (omega arith)
          (omega (arith, length-append text (copies n text)))
          (length-splice dst 0 text (omega arith) ∙ size)
          (ap (λ k. take (length k) dst') one
            ∙ ap (λ k. take k dst') {y = 0 + length text} (omega arith)
            ∙ take-splice_end dst 0 text (omega arith)
            ∙ sym one))
