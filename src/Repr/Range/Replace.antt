-- ===== src/Repr/Range/Replace.antt =====
-- `replace_range` puts a text in place of a range.
use lean_string.Prelude.{
  ℕ, ◌+◌, ◌-◌, ◌≤◌, ◌≡◌, sym, ap, subst, ◌∙◌, inl, inr, true, false, ◌&&◌, [], ◌∷◌, ◌++◌,
  append_assoc, arith, ltb, le→leb, le_of_ltb-false, ◌==◌, Bool-cases, if◌then◌else◌, length,
  length-append, take, drop, take-append-drop, length-drop,
}
use lean_string.Prelude.Splice.{splice, splice_whole, splice-splice_behind, length-take_le}
use lean_string.Utf8.{Bytes, IsUtf8, is_char_boundary}
use lean_string.Utf8.Shape.{IsUtf8-Halves, Halves}
use lean_string.Memory.{panicked, Allocator, pure}
use lean_string.Memory.Ends.{Ends, returns, bind, weaken}
use lean_string.HeapBuffer.{mutable}
use lean_string.Repr.{State, replace_inner}
use lean_string.Repr.Edit.{grow_amortized}
use lean_string.Repr.Range.{
  Bound, is_slice, range_start, range_end, slice_range, three_into, replace_by, replace_range,
}
use lean_string.Repr.Range.Extend.{slice_range-panics}
use lean_string.Repr.Owns.{Owns, Keeps}
use lean_string.Repr.Place.{at_state}
use lean_string.Repr.Queries.{
  as_bytes_lem, len_lem, modifiable, is_modifiable_lem, spare_capacity_lem, capacity_of,
}
use lean_string.Repr.Room.{Roomy}
use lean_string.Repr.Grow.{bind_heap, roomy, grow_amortized-Roomy}
use lean_string.Repr.Fresh.{replaced_by-New}
use lean_string.Repr.Init.Filled.{new_with-New}
use lean_string.Repr.Fill.{
  fill_gap-Keeps, Keeps-after, replaced_at, length-replaced, replaced-IsUtf8,
}
use lean_string.Repr.Text.{unchanged, Roomy-Ready}

-- The three parts fill the new string.
three_parts :
    (text : Bytes) (start stop : ℕ) (src dst : Bytes)
    → start ≤ length text
    → length dst ≡ length (replaced_at start stop src text)
    → three_into text start stop src dst ≡ replaced_at start stop src text
three_parts text start stop src dst fits size =
    let a = take start text in
    let c = drop stop text in
    let len_a : length a ≡ start = length-take_le start text fits in
    let len_ab : length (a ++ src) ≡ start + length src =
      omega (arith, length-append a src, len_a) in
    let whole = length-replaced start stop src text fits in
    let len_c = length-drop stop text in
    let once = splice dst 0 a in
    ap (λ t. splice t (start + length src) c)
      (ap (λ n. splice once n src) {x = start} {y = 0 + length a} (omega (arith, len_a))
        ∙ splice-splice_behind dst 0 a src (omega (arith, len_a, size, whole)))
    ∙ ap (λ n. splice (splice dst 0 (a ++ src)) n c) {y = 0 + length (a ++ src)}
        (omega (arith, len_ab))
    ∙ splice-splice_behind dst 0 (a ++ src) c (omega (arith, len_ab, len_c, size, whole))
    ∙ ap (λ t. splice dst 0 t) (append_assoc a src c)
    ∙ splice_whole dst (replaced_at start stop src text) size

-- Nothing in place of nothing.
no_change :
    (start stop : ℕ) (src text : Bytes)
    → start ≤ stop
    → ((stop - start == 0) && (length src == 0)) ≡ true
    → replaced_at start stop src text ≡ text
no_change start stop [] text ordered e =
    ap (λ n. take start text ++ drop n text) {y = start} (ground arith)
    ∙ take-append-drop start text
no_change start stop (b ∷ src) text ordered e = absurd (ground arith)

module _ ⦃A : Allocator⦄ {refs : ℕ → ℕ} {s : State} {text : Bytes}
    (o : Owns refs mutable s text) where
  -- Room in a buffer of the string's own.
  room_first :
      (n : ℕ)
      → modifiable s.self s.heap ≡ true
      → Ends
          (λ _ t. Roomy refs s.heap text (length text + n) t)
          (λ t. t ≡ s)
          ((if ltb (capacity_of o.content - length text) n then grow_amortized n else pure tt) s)
  room_first n own = elim (Bool-cases (ltb (capacity_of o.content - length text) n)) [
    | inl short ↦ rw short (grow_amortized-Roomy n o)
    | inr enough ↦ rw enough (returns (roomy n o own (le_of_ltb-false _ _ enough)))
  ]

  replaced :
      (start stop : ℕ) (src : Bytes)
      → IsUtf8 src
      → start ≤ stop
      → Halves text start
      → Halves text stop
      → Ends
          (λ _ t. Keeps refs mutable s.heap (replaced_at start stop src text) t)
          (λ t. t ≡ s)
          (replace_by text src (start, stop) s)
  replaced start stop src v ordered i j =
      elim (Bool-cases ((stop - start == 0) && (length src == 0))) [
        | inl nothing ↦ rw nothing (
            returns (
              subst (λ t. Keeps refs mutable s.heap t s)
                (sym (no_change start stop src text ordered nothing)) (unchanged o)))
        | inr something ↦
            let size = length-replaced start stop src text i.fits in
            let new_len : length (replaced_at start stop src text)
                ≡ length text - (stop - start) + length src =
              omega (arith, size, ordered, j.fits) in
            elim (Bool-cases (modifiable s.self s.heap)) [
              | inr shared ↦
                  rw
                    (something, len_lem o.content, is_modifiable_lem o.content, shared, sym new_len)
                    (bind_heap (λ q. replace_inner mutable q) s.self
                      (new_with-New mutable (replaced_at start stop src text)
                        (three_into text start stop src) o.counted
                        (replaced-IsUtf8 start stop v i j)
                        (λ dst e. three_parts text start stop src dst i.fits e))
                      (λ q g n. weaken (replaced_by-New o.content n) (λ _ t k. k.0) (λ t e. e))
                      (λ g e. ap (at_state s.self) e))
              | inl own ↦
                  rw
                    (
                      something,
                      len_lem o.content,
                      is_modifiable_lem o.content,
                      own,
                      spare_capacity_lem o.content,
                    )
                    (bind (room_first (length src - (stop - start)) own) λ _ g q.
                      weaken
                        (fill_gap-Keeps start stop o.valid v i j (Roomy-Ready q) (omega arith)
                          (omega (arith, ordered, j.fits))
                          (length text - (stop - start) + length src)
                          (omega (arith, ordered, j.fits)))
                        (λ _ t k. Keeps-after q.keeps.same k) (λ t e. e))
            ]
      ]

  -- On a sound string, for a range whose ends are char boundaries in order and a valid
  -- argument, `replace_range` returns with the argument in place of the range, the string sound
  -- and everything that others refer to unchanged, or fails and changes nothing.
  pub replace_range-replaces :
      (from to : Bound) (replace_with : Bytes)
      → IsUtf8 replace_with
      → is_char_boundary text (range_start from) ≡ true
      → is_char_boundary text (range_end text to) ≡ true
      → range_start from ≤ range_end text to
      → Ends
          (λ _ t.
            Keeps refs mutable s.heap
              (replaced_at (range_start from) (range_end text to) replace_with text)
              t)
          (λ t. t ≡ s)
          (replace_range from to replace_with s)
  unfolding replace_range slice_range
  replace_range-replaces from to replace_with v first last ordered =
      rw
        (as_bytes_lem o.content, first, last, le→leb (range_start from) (range_end text to) ordered)
        (replaced (range_start from) (range_end text to) replace_with v ordered
          (IsUtf8-Halves (range_start from) o.valid first)
          (IsUtf8-Halves (range_end text to) o.valid last))

  -- On a sound string and for a range with an end off the char boundaries, or with its ends out of
  -- order, `replace_range` panics before anything is changed.
  pub replace_range-panics :
      (from to : Bound) (replace_with : Bytes)
      → is_slice text from to ≡ false
      → replace_range from to replace_with s ≡ panicked s
  unfolding replace_range
  replace_range-panics from to replace_with bad =
      rw (as_bytes_lem o.content, slice_range-panics text from to s bad)
