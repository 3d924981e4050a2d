-- ===== src/Repr/Range/Extend.antt =====
-- `extend_from_within` appends a range of the text to it.
use lean_string.Prelude.{
  ℕ, zero, suc, ◌+◌, ◌-◌, ◌≤◌, ◌≡◌, refl, sym, ap, subst, ◌∙◌, inl, inr, true, false, [], ◌∷◌, ◌++◌,
  append-nil, arith, leb, le→leb, leb→le, ◌==◌, ==_iff, Bool-cases, length, take, drop, get_elem?,
  length-drop,
}
use lean_string.Prelude.Splice.{length-take_le}
use lean_string.Utf8.{Bytes, IsUtf8, is_char_boundary}
use lean_string.Utf8.Shape.{IsUtf8-Halves}
use lean_string.Memory.{Heap, Allocator, panicked, ◌>>◌}
use lean_string.Memory.Ends.{Ends, returns}
use lean_string.HeapBuffer.{mutable}
use lean_string.Repr.{Repr, State}
use lean_string.Repr.Edit.{copy_at, write_at, set_len}
use lean_string.Repr.Range.{
  Bound, is_slice, range_start, range_end, slice_range, extend_by, extend_from_within,
}
use lean_string.Repr.Owns.{Owns, Keeps}
use lean_string.Repr.Queries.{as_bytes_lem, len_lem}
use lean_string.Repr.Fill.{Ready, append-Keeps, Ready-read}
use lean_string.Repr.Text.{unchanged, after_room, Roomy-Ready}

get_elem?-drop : (k j : ℕ) (s : Bytes) → get_elem? (drop k s) j ≡ get_elem? s (k + j)
get_elem?-drop zero j s = ap (get_elem? s) (omega arith)
get_elem?-drop (suc k) j [] = refl
get_elem?-drop (suc k) j (b ∷ s) =
    let e : suc k + j ≡ suc (k + j) = omega arith in rw e (get_elem?-drop k j s)

-- A boundary of a text, seen from an earlier place.
pub boundary-drop :
    (s : Bytes) (k n : ℕ)
    → k + n ≤ length s
    → is_char_boundary s (k + n) ≡ true
    → is_char_boundary (drop k s) n ≡ true
unfolding is_char_boundary
boundary-drop s k n fits at = ground (arith, length-drop k s, get_elem?-drop k n s)

-- A range is one of the text, or an assertion fails.
pub data SliceCases (text : Bytes) (from to : Bound) : Type 0 where
  within :
      is_char_boundary text (range_start from) ≡ true
      → is_char_boundary text (range_end text to) ≡ true
      → range_start from ≤ range_end text to
      → is_slice text from to ≡ true
      → SliceCases text from to
  outside : is_slice text from to ≡ false → SliceCases text from to

pub slice_cases : (text : Bytes) (from to : Bound) → SliceCases text from to
slice_cases text from to = elim (Bool-cases (is_char_boundary text (range_start from))) [
  | inr off ↦ outside (rw off refl)
  | inl first ↦ elim (Bool-cases (is_char_boundary text (range_end text to))) [
    | inr off ↦ outside (rw (first, off) refl)
    | inl last ↦ elim (Bool-cases (leb (range_start from) (range_end text to))) [
      | inr crossed ↦ outside (rw (first, last, crossed) refl)
      | inl ordered ↦
          within first last (leb→le (range_start from) (range_end text to) ordered)
            (rw (first, last, ordered) refl)
    ]
  ]
]

pub slice_range-panics :
    (text : Bytes) (from to : Bound) (s : State)
    → is_slice text from to ≡ false
    → slice_range text from to s ≡ panicked s
unfolding slice_range
slice_range-panics text from to s bad =
    elim (Bool-cases (is_char_boundary text (range_start from))) [
      | inr off ↦ rw off refl
      | inl first ↦ elim (Bool-cases (is_char_boundary text (range_end text to))) [
        | inr off ↦ rw (first, off) refl
        | inl last ↦ elim (Bool-cases (leb (range_start from) (range_end text to))) [
          | inr crossed ↦ rw (first, last, crossed) refl
          | inl ordered ↦ absurd (cc (bad, first, last, ordered))
        ]
      ]
    ]

slice-IsUtf8 :
    (s : Bytes) (k n : ℕ)
    → IsUtf8 s
    → is_char_boundary s k ≡ true
    → is_char_boundary s (k + n) ≡ true
    → IsUtf8 (take n (drop k s))
slice-IsUtf8 s k n u from to =
    let h = IsUtf8-Halves k u from in
    let t = IsUtf8-Halves (k + n) u to in
    (IsUtf8-Halves n h.right (boundary-drop s k n t.fits to)).left

wider :
    {refs : ℕ → ℕ} {h : Heap} {text : Bytes} {cap less : ℕ} {r : Repr}
    → Ready refs h text cap r
    → less ≤ cap
    → Ready refs h text less r
wider q le = record {
  bytes = q.bytes;
  opened = q.opened;
  begins = q.begins;
  room = omega (arith, q.room);
}

module _ ⦃A : Allocator⦄ {refs : ℕ → ℕ} {s : State} {text : Bytes}
    (o : Owns refs mutable s text) where
  extended :
      (k n : ℕ)
      → is_char_boundary text k ≡ true
      → is_char_boundary text (k + n) ≡ true
      → Ends
          (λ _ t. Keeps refs mutable s.heap (text ++ take n (drop k text)) t)
          (λ t. t ≡ s)
          (extend_by (k, k + n) s)
  extended k n from to =
      let slice = take n (drop k text) in
      let t = IsUtf8-Halves (k + n) o.valid to in
      let size : length slice ≡ n =
        length-take_le n (drop k text) (omega (arith, length-drop k text, t.fits)) in
      let e : k + n - k ≡ n = omega arith in
      elim (Bool-cases (n == 0)) [
        | inl nothing ↦
            let z : n ≡ 0 = (==_iff n 0).0 nothing in
            rw (e, nothing)
              (returns (
                subst (λ t. Keeps refs mutable s.heap t s)
                  (sym (append-nil text) ∙ ap (λ m. text ++ take m (drop k text)) (sym z))
                  (unchanged o)))
        | inr more ↦
            rw (e, more, len_lem o.content)
              (after_room o n (copy_at k (length text) n >> set_len (length text + n)) λ g q.
                let ready = Roomy-Ready q in
                rw (Ready-read k n ready t.fits (omega arith)) (
                  subst
                    (λ m.
                      Ends (λ _ t. Keeps refs mutable g.heap (text ++ slice) t) (λ t. t ≡ s)
                        ((write_at (length text) slice >> set_len (length text + m)) g))
                    size
                    (append-Keeps o.valid (slice-IsUtf8 text k n o.valid from to)
                      (wider ready (omega (arith, size))))))
      ]

  -- On a sound string and for a range whose ends are char boundaries in order,
  -- `extend_from_within` returns with that range of the text appended to it, the string sound
  -- and everything that others refer to unchanged, or fails and changes nothing.
  pub extend_from_within-appends :
      (from to : Bound)
      → is_char_boundary text (range_start from) ≡ true
      → is_char_boundary text (range_end text to) ≡ true
      → range_start from ≤ range_end text to
      → Ends
          (λ _ t.
            Keeps refs mutable s.heap
              (text ++ take (range_end text to - range_start from) (drop (range_start from) text))
              t)
          (λ t. t ≡ s)
          (extend_from_within from to s)
  unfolding extend_from_within slice_range
  extend_from_within-appends from to first last ordered =
      let k = range_start from in
      let n = range_end text to - k in
      let e : k + n ≡ range_end text to = omega (arith, ordered) in
      rw (as_bytes_lem o.content, first, last, le→leb k (range_end text to) ordered)
        (subst
          (λ m.
            Ends (λ _ t. Keeps refs mutable s.heap (text ++ take n (drop k text)) t) (λ t. t ≡ s)
              (extend_by (k, m) s))
          e (extended k n first (subst (λ m. is_char_boundary text m ≡ true) (sym e) last)))

  -- On a sound string and for a range with an end off the char boundaries, or with its ends out
  -- of order, `extend_from_within` panics before anything is changed.
  pub extend_from_within-panics :
      (from to : Bound) → is_slice text from to ≡ false → extend_from_within from to s ≡ panicked s
  unfolding extend_from_within
  extend_from_within-panics from to bad =
      rw (as_bytes_lem o.content, slice_range-panics text from to s bad)
