-- ===== src/Prelude/Splice.antt =====
-- Overwriting a part of a buffer: what `ptr::copy` and `copy_nonoverlapping` leave behind.
use Prim.Native.Nat.{ℕ, zero, suc, ◌+◌, ◌-◌, ◌≤◌, ◌<◌}
use mathlib.Core.Path.{◌≡◌, refl, ap, sym, ◌∙◌}
use mathlib.Core.List.{List, [], ◌∷◌, ◌++◌, append-nil, append_assoc}
use native.Mathlib.Omega.{arith}
use lean_string.Prelude.Lists.{
  length, take, drop, get_or, length-append, length-take, length-drop, take-append_add,
  take-append_le, drop-append_add, take-take, take_all, drop_all, take-append-drop, drop-drop,
}

module _ {ℓ} {A : Type ℓ} where
  -- `src` written over the bytes of `buf` from `off` on.
  pub splice : List A → ℕ → List A → List A
  splice buf off src = take off buf ++ (src ++ drop (off + length src) buf)

  unfold_splice :
      (buf : List A) (off : ℕ) (src : List A)
      → splice buf off src ≡ take off buf ++ (src ++ drop (off + length src) buf)
  unfolding splice
  unfold_splice buf off src = refl

  pub length-take_le : (n : ℕ) (xs : List A) → n ≤ length xs → length (take n xs) ≡ n
  length-take_le n xs h = omega (arith, length-take n xs)

  pub length-splice :
      (buf : List A) (off : ℕ) (src : List A)
      → off + length src ≤ length buf
      → length (splice buf off src) ≡ length buf
  unfolding splice
  length-splice buf off src h = omega (
    arith,
    length-append (take off buf) (src ++ drop (off + length src) buf),
    length-append src (drop (off + length src) buf),
    length-take off buf,
    length-drop (off + length src) buf,
  )

  -- What stands before the written part stays.
  pub take-splice_le :
      (buf : List A) (off : ℕ) (src : List A) (n : ℕ)
      → n ≤ off
      → off + length src ≤ length buf
      → take n (splice buf off src) ≡ take n buf
  unfolding splice
  take-splice_le buf off src n h fits =
      take-append_le n (take off buf) (src ++ drop (off + length src) buf)
        (omega (arith, length-take off buf))
      ∙ take-take n off buf h

  pub drop-splice :
      (buf : List A) (off : ℕ) (src : List A)
      → off + length src ≤ length buf
      → drop off (splice buf off src) ≡ src ++ drop (off + length src) buf
  unfolding splice
  drop-splice buf off src fits =
      let e : off ≡ off + 0 = omega arith in
      ap (λ t. drop t (splice buf off src)) e
      ∙ drop-append_add off 0 (take off buf) (src ++ drop (off + length src) buf)
          (length-take_le off buf (omega arith))

  -- A prefix that reaches `k` elements past the written part.
  -- What is behind the written part is as before.
  pub drop-splice_past :
      (buf : List A) (off : ℕ) (src : List A) (n : ℕ)
      → off + length src ≤ n
      → off + length src ≤ length buf
      → drop n (splice buf off src) ≡ drop n buf
  drop-splice_past buf off src n past fits =
      let rest = drop (off + length src) buf in
      let more = n - (off + length src) in
      let e : off + (length src + more) ≡ n = omega arith in
      ap (λ k. drop k (splice buf off src)) {y = off + (length src + more)} (sym e)
      ∙ sym (drop-drop off (length src + more) (splice buf off src))
      ∙ ap (drop (length src + more)) (drop-splice buf off src fits)
      ∙ drop-append_add (length src) more src rest refl
      ∙ drop-drop (off + length src) more buf
      ∙ ap (λ k. drop k buf) (omega arith)

  pub take-splice :
      (buf : List A) (off : ℕ) (src : List A) (k : ℕ)
      → off + length src ≤ length buf
      → take (off + (length src + k)) (splice buf off src)
        ≡ take off buf ++ (src ++ take k (drop (off + length src) buf))
  unfolding splice
  take-splice buf off src k fits =
      take-append_add off (length src + k) (take off buf) (src ++ drop (off + length src) buf)
        (length-take_le off buf (omega arith))
      ∙ ap (λ t. take off buf ++ t)
          (take-append_add (length src) k src (drop (off + length src) buf) refl)

  -- A prefix that ends with the written part.
  pub take-splice_end :
      (buf : List A) (off : ℕ) (src : List A)
      → off + length src ≤ length buf
      → take (off + length src) (splice buf off src) ≡ take off buf ++ src
  unfolding splice
  take-splice_end buf off src fits =
      take-append_add off (length src) (take off buf) (src ++ drop (off + length src) buf)
        (length-take_le off buf (omega arith))
      ∙ ap (λ t. take off buf ++ t)
          (take-append_le (length src) src (drop (off + length src) buf) (omega arith)
            ∙ take_all (length src) src (omega arith))

  -- A tail moved to `off + length mid`, and `mid` written into the gap at `off`.
  pub take-splice-splice :
      (buf : List A) (off : ℕ) (mid tail : List A)
      → off + length mid + length tail ≤ length buf
      → take (off + length mid + length tail) (splice (splice buf (off + length mid) tail) off mid)
        ≡ take off buf ++ (mid ++ tail)
  take-splice-splice buf off mid tail fits =
      let moved = splice buf (off + length mid) tail in
      let len : length moved ≡ length buf = length-splice buf (off + length mid) tail fits in
      let e : off + length mid + length tail ≡ off + (length mid + length tail) = omega arith in
      ap (λ t. take t (splice moved off mid)) e
      ∙ take-splice moved off mid (length tail) (omega (arith, len))
      ∙ ap (λ t. t ++ (mid ++ take (length tail) (drop (off + length mid) moved)))
          (take-splice_le buf (off + length mid) tail off (omega arith) fits)
      ∙ ap (λ t. take off buf ++ (mid ++ take (length tail) t))
          (drop-splice buf (off + length mid) tail fits)
      ∙ ap (λ t. take off buf ++ (mid ++ t))
          (take-append_le (length tail) tail _ (omega arith)
            ∙ take_all (length tail) tail (omega arith))

  -- A buffer written over as a whole.
  pub splice_whole : (buf src : List A) → length buf ≡ length src → splice buf 0 src ≡ src
  unfolding splice
  splice_whole buf src h =
      ap (λ t. src ++ t) (drop_all (0 + length src) buf (omega arith)) ∙ append-nil src

  -- Two copies of `k` elements from either end, which together cover the buffer.
  pub splice_ends :
      (buf src : List A) (k : ℕ)
      → length buf ≡ length src
      → k ≤ length src
      → length src ≤ k + k
      → splice (splice buf 0 (take k src)) (length src - k) (take k (drop (length src - k) src))
        ≡ src
  splice_ends buf src k h small large =
      let n = length src in
      let head = take k src in
      let once = splice buf 0 head in
      let len_head : length head ≡ k = length-take_le k src small in
      let len_once : length once ≡ n = length-splice buf 0 head (omega (arith, len_head)) ∙ h in
      let last : take k (drop (n - k) src) ≡ drop (n - k) src =
        take_all k (drop (n - k) src) (omega (arith, length-drop (n - k) src)) in
      let front : take (n - k) once ≡ take (n - k) src =
        sym (take-take (n - k) k once (omega arith))
        ∙ ap (take (n - k)) (
            ap (λ t. take t once) (omega (arith, len_head))
            ∙ take-splice_end buf 0 head (omega (arith, len_head)))
        ∙ take-take (n - k) k src (omega arith) in
      let back : drop (n - k + length (drop (n - k) src)) once ≡ [] =
        drop_all (n - k + length (drop (n - k) src)) once
          (omega (arith, len_once, length-drop (n - k) src)) in
      ap (splice once (n - k)) last
      ∙ unfold_splice once (n - k) (drop (n - k) src)
      ∙ ap (λ t. t ++ (drop (n - k) src ++ drop (n - k + length (drop (n - k) src)) once)) front
      ∙ ap (λ t. take (n - k) src ++ (drop (n - k) src ++ t)) back
      ∙ ap (λ t. take (n - k) src ++ t) (append-nil (drop (n - k) src))
      ∙ take-append-drop (n - k) src

  pub get_or-append :
      (xs ys : List A) (j : ℕ) (d : A) → get_or (xs ++ ys) (length xs + j) d ≡ get_or ys j d
  get_or-append [] ys j d = ap (λ i. get_or ys i d) (omega arith)
  get_or-append (x ∷ xs) ys j d =
      let e : suc (length xs) + j ≡ suc (length xs + j) = omega arith in
      rw e (get_or-append xs ys j d)

  get_or-drop : (k j : ℕ) (xs : List A) (d : A) → get_or (drop k xs) j d ≡ get_or xs (k + j) d
  get_or-drop zero j xs d = ap (λ i. get_or xs i d) (omega arith)
  get_or-drop (suc k) j [] d = refl
  get_or-drop (suc k) j (x ∷ xs) d =
      let e : suc k + j ≡ suc (k + j) = omega arith in rw e (get_or-drop k j xs d)

  get_or-append_lt :
      (xs ys : List A) (j : ℕ) (d : A) → j < length xs → get_or (xs ++ ys) j d ≡ get_or xs j d
  get_or-append_lt [] ys j d h = absurd (omega arith)
  get_or-append_lt (x ∷ xs) ys zero d h = refl
  get_or-append_lt (x ∷ xs) ys (suc j) d h = get_or-append_lt xs ys j d (omega arith)

  -- An element behind the written part, and one in it.
  pub get_or-splice_past :
      (buf : List A) (off : ℕ) (src : List A) (i : ℕ) (d : A)
      → off + length src ≤ i
      → off + length src ≤ length buf
      → get_or (splice buf off src) i d ≡ get_or buf i d
  unfolding splice
  get_or-splice_past buf off src i d past fits =
      let n = length src in
      let k = i - (off + n) in
      let start : length (take off buf) ≡ off = length-take_le off buf (omega arith) in
      ap (λ t. get_or (take off buf ++ (src ++ drop (off + n) buf)) t d)
        {y = length (take off buf) + (n + k)} (omega (arith, start))
      ∙ get_or-append (take off buf) (src ++ drop (off + n) buf) (n + k) d
      ∙ get_or-append src (drop (off + n) buf) k d
      ∙ get_or-drop (off + n) k buf d
      ∙ ap (λ t. get_or buf t d) (omega arith)

  pub get_or-splice_in :
      (buf : List A) (off : ℕ) (src : List A) (j : ℕ) (d : A)
      → j < length src
      → off + length src ≤ length buf
      → get_or (splice buf off src) (off + j) d ≡ get_or src j d
  unfolding splice
  get_or-splice_in buf off src j d inside fits =
      let start : length (take off buf) ≡ off = length-take_le off buf (omega arith) in
      ap (λ t. get_or (take off buf ++ (src ++ drop (off + length src) buf)) t d)
        {y = length (take off buf) + j} (omega (arith, start))
      ∙ get_or-append (take off buf) (src ++ drop (off + length src) buf) j d
      ∙ get_or-append_lt src (drop (off + length src) buf) j d inside

  pub splice_nothing : (buf : List A) (off : ℕ) → off ≤ length buf → splice buf off [] ≡ buf
  unfolding splice
  splice_nothing buf off h =
      ap (λ k. take off buf ++ drop k buf) {y = off} (omega arith) ∙ take-append-drop off buf

  -- Two parts written one behind the other are one part.
  pub splice-splice_behind :
      (buf : List A) (off : ℕ) (s t : List A)
      → off + length s + length t ≤ length buf
      → splice (splice buf off s) (off + length s) t ≡ splice buf off (s ++ t)
  unfolding splice
  splice-splice_behind buf off s t fits =
      let once = splice buf off s in
      let rest = drop (off + length s) buf in
      let start : length (take off buf) ≡ off = length-take_le off buf (omega arith) in
      let both : length (s ++ t) ≡ length s + length t = length-append s t in
      let behind : drop (off + length s + length t) once ≡ drop (off + length (s ++ t)) buf =
        ap (λ n. drop n once) {y = off + (length s + length t)} (omega arith)
        ∙ drop-append_add off (length s + length t) (take off buf) (s ++ rest) start
        ∙ drop-append_add (length s) (length t) s rest refl
        ∙ drop-drop (off + length s) (length t) buf
        ∙ ap (λ n. drop n buf) (omega arith) in
      unfold_splice once (off + length s) t
      ∙ ap (λ x. x ++ (t ++ drop (off + length s + length t) once))
          (take-splice_end buf off s (omega arith))
      ∙ ap (λ x. (take off buf ++ s) ++ (t ++ x)) behind
      ∙ append_assoc (take off buf) s (t ++ drop (off + length (s ++ t)) buf)
      ∙ ap (λ x. take off buf ++ x) (sym (append_assoc s t (drop (off + length (s ++ t)) buf)))
