-- ===== src/Repr/Cut/Remove.antt =====
-- `remove` takes one whole char out of the text, and closes the gap.
use lean_string.Prelude.{
  ℕ, ◌+◌, ◌-◌, ◌≤◌, ◌≡◌, refl, sym, ap, subst, ◌∙◌, inl, inr, true, false, ◌&&◌, ◌++◌, arith, ltb,
  lt→ltb, Bool-cases, length, take, drop, length-append, take-take, take_all, drop-append_add,
}
use lean_string.Prelude.Splice.{splice, length-splice, take-splice_end}
use lean_string.Utf8.{Bytes, IsScalar, IsUtf8, encode_utf8, is_char_boundary}
use lean_string.Utf8.Shape.{
  IsUtf8-append, IsUtf8-EndsBelow, length-encode_utf8, len_utf8_bounds, take-append_exact,
  drop-append_exact,
}
use lean_string.Utf8.Decode.{next_char-encode_utf8}
use lean_string.Memory.{Heap, Allocator, done, panicked, pure, ◌>>◌}
use lean_string.Memory.Ends.{Ends, returns, bind, weaken}
use lean_string.HeapBuffer.{mutable}
use lean_string.Repr.{Repr, State}
use lean_string.Repr.Edit.{write_at, set_len}
use lean_string.Repr.Cut.{remove}
use lean_string.Repr.Owns.{Owns, Keeps}
use lean_string.Repr.Queries.{as_bytes_lem, len_lem}
use lean_string.Repr.Place.{at_state, write_at-Filled, set_len-Keeps}
use lean_string.Repr.Grow.{fits_capacity}
use lean_string.Repr.Fill.{Ready, Ready-read, Content-Ready, Keeps-after}
use lean_string.Repr.Fresh.{Own, ensure_modifiable-Own}

module _ {refs : ℕ → ℕ} {h : Heap} {text : Bytes} {s : State} where
  pub Own-Ready : Own refs h text s → Ready refs s.heap text (length text) s.self
  Own-Ready (k, own) =
      let q = Content-Ready k.owns.content k.owns.counted own in
      record {
        bytes = q.bytes;
        opened = q.opened;
        begins = q.begins;
        room = omega (arith, q.room, fits_capacity k.owns.content);
      }

-- The places in a text of three parts.
module _ (before mid after : Bytes) where
  abbrev three : Bytes
  three = before ++ (mid ++ after)

  length-three : length three ≡ length before + (length mid + length after)
  length-three = omega (arith, length-append before (mid ++ after), length-append mid after)

  drop-first : drop (length before) three ≡ mid ++ after
  drop-first = drop-append_exact before (mid ++ after)

  drop-two : drop (length before + length mid) three ≡ after
  drop-two =
      drop-append_add (length before) (length mid) before (mid ++ after) refl
      ∙ drop-append_exact mid after

  take-first : take (length before) three ≡ before
  take-first = take-append_exact before (mid ++ after)

module _ {refs : ℕ → ℕ} {h : Heap} {r : Repr} {E : State → Type 0} (before mid after : Bytes)
    (u : IsUtf8 before) (v : IsUtf8 after)
    (q : Ready refs h (before ++ (mid ++ after)) (length (before ++ (mid ++ after))) r) where
  -- The rest written over the middle, and the length set behind it.
  pub close_gap-Keeps :
      {C : Type 0} (a : C)
      → Ends
          (λ x t. (x ≡ a) × Keeps refs mutable h (before ++ after) t)
          E
          ((write_at (length before) after >> (set_len (length before + length after) >> pure a))
            (at_state r h))
  close_gap-Keeps a =
      let n : length (before ++ after) ≡ length before + length after =
        length-append before after in
      let fits : length before + length after ≤ length q.bytes =
        omega (arith, q.room, length-three before mid after) in
      let start : take (length before) q.bytes ≡ before =
        sym (
          take-take (length before) (length (three before mid after)) q.bytes
            (omega (arith, length-three before mid after)))
        ∙ ap (take (length before)) q.begins
        ∙ take-first before mid after in
      bind (write_at-Filled {E = E} (length before) after q.opened fits (IsUtf8-EndsBelow v))
        λ _ s f.
          bind
            (subst
              (λ k. Ends (λ _ t. Keeps refs mutable s.heap (before ++ after) t) E (set_len k s)) n
              (set_len-Keeps (before ++ after) f.opened (IsUtf8-append u v)
                (omega (arith, n, fits, length-splice q.bytes (length before) after fits))
                (ap (λ k. take k (splice q.bytes (length before) after)) n
                  ∙ take-splice_end q.bytes (length before) after fits
                  ∙ ap (λ t. t ++ after) start)))
            λ _ t k. returns (refl, Keeps-after f.same k)

module _ ⦃A : Allocator⦄ {refs : ℕ → ℕ} {s : State} (before after : Bytes) (c : ℕ)
    (u : IsUtf8 before) (v : IsUtf8 after) (sc : IsScalar c)
    (o : Owns refs mutable s (before ++ (encode_utf8 c ++ after))) where
  -- On a sound string whose text is a valid text, a char and a valid text, with a boundary
  -- before the char, `remove` at that boundary returns the char, with the two texts joined, the
  -- string sound and everything that others refer to unchanged, or fails and changes nothing.
  pub remove-char :
      is_char_boundary (before ++ (encode_utf8 c ++ after)) (length before) ≡ true
      → Ends
          (λ ch t. (ch ≡ c) × Keeps refs mutable s.heap (before ++ after) t)
          (λ t. t ≡ s)
          (remove (length before) s)
  unfolding remove
  remove-char at =
      let mid = encode_utf8 c in
      let p = length before in
      let w = length mid in
      let q = length after in
      let n = length-three before mid after in
      let w1 : 1 ≤ w = omega (arith, length-encode_utf8 c, len_utf8_bounds c) in
      let inside : ltb p (length (three before mid after)) ≡ true =
        lt→ltb p _ (omega (arith, n, w1)) in
      let e1 : p + (w + q) - p ≡ w + q = omega arith in
      let e2 : w + q - w ≡ q = omega arith in
      let e3 : p + (w + q) - w ≡ p + q = omega arith in
      rw (as_bytes_lem o.content, at, len_lem o.content, inside)
        (bind (ensure_modifiable-Own o) λ _ t own.
          let ready = Own-Ready own in
          let first =
            Ready-read p (w + q) ready (omega (arith, n)) (omega arith)
            ∙ ap (λ x. done x t)
                (ap (take (w + q)) (drop-first before mid after)
                  ∙ take_all (w + q) (mid ++ after) (omega (arith, length-append mid after))) in
          let second =
            Ready-read (p + w) q ready (omega (arith, n)) (omega arith)
            ∙ ap (λ x. done x t)
                (ap (take q) (drop-two before mid after) ∙ take_all q after (omega arith)) in
          rw
            (
              n,
              e1,
              first,
              next_char-encode_utf8 c after sc,
              sym (length-encode_utf8 c),
              e2,
              second,
              e3,
            )
            (weaken (close_gap-Keeps {E = λ x. x ≡ s} before mid after u v ready c)
              (λ x y k. (k.0, Keeps-after own.0.same k.1)) (λ y e. e)))

module _ ⦃A : Allocator⦄ {refs : ℕ → ℕ} {s : State} {text : Bytes}
    (o : Owns refs mutable s text) where
  -- On a sound string, `remove` at an index that is off a char boundary or not below the length
  -- panics before anything is changed.
  pub remove-panics :
      (idx : ℕ)
      → (is_char_boundary text idx && ltb idx (length text)) ≡ false
      → remove idx s ≡ panicked s
  unfolding remove
  remove-panics idx bad = elim (Bool-cases (is_char_boundary text idx)) [
    | inl at ↦ elim (Bool-cases (ltb idx (length text))) [
      | inl inside ↦ absurd (cc (bad, at, inside))
      | inr past ↦ rw (as_bytes_lem o.content, at, len_lem o.content, past)
    ]
    | inr off ↦ rw (as_bytes_lem o.content, off)
  ]
