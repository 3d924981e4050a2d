-- ===== src/Repr/Text.antt =====
-- What the writing operations of src/repr.rs do to the text, when they return and when they do not.
use lean_string.Prelude.{
  ℕ, ◌+◌, ◌<◌, ◌≡◌, sym, subst, inl, inr, true, false, [], ◌∷◌, ◌++◌, append-nil, arith, ◌==◌,
  Bool-cases, length, take-append-drop,
}
use lean_string.Utf8.{Bytes, IsScalar, IsUtf8, encode_utf8, is_char_boundary}
use lean_string.Utf8.Shape.{IsUtf8-encode_utf8, IsUtf8-Halves, length-encode_utf8}
use lean_string.Memory.{Heap, Allocator, panicked, M, ◌>>◌}
use lean_string.Memory.Ends.{Ends, returns, bind, weaken}
use lean_string.Memory.Counted.{Same-refl}
use lean_string.HeapBuffer.{mutable}
use lean_string.Repr.{State}
use lean_string.Repr.Edit.{
  make_room, grow_amortized, grow_exact, push_str, push_char, insert_str, insert_char, reserve,
  reserve_exact, set_len, write_at, open_gap,
}
use lean_string.Repr.Owns.{Owns, Keeps}
use lean_string.Repr.Queries.{len_lem, as_bytes_lem}
use lean_string.Repr.Room.{Roomy}
use lean_string.Repr.Grow.{make_room-Roomy, grow_amortized-Roomy, grow_exact-Roomy}
use lean_string.Repr.Fill.{
  Ready, Content-Ready, append-Keeps, open_gap-Keeps, inserted_at, Keeps-after,
}

pub unchanged :
    {refs : ℕ → ℕ} {s : State} {text : Bytes}
    → Owns refs mutable s text
    → Keeps refs mutable s.heap text s
unchanged {refs} {s} o = record { owns = o; same = Same-refl refs s.heap }

module _ {refs : ℕ → ℕ} {h : Heap} {text : Bytes} {cap : ℕ} {s : State} where
  pub Roomy-Ready : Roomy refs h text cap s → Ready refs s.heap text cap s.self
  Roomy-Ready q =
      let e = Content-Ready q.content q.keeps.owns.counted q.writable in
      record {
        bytes = e.bytes;
        opened = e.opened;
        begins = e.begins;
        room = omega (arith, e.room, q.room);
      }

module _ ⦃A : Allocator⦄ {refs : ℕ → ℕ} {s : State} {text : Bytes}
    (o : Owns refs mutable s text) where
  -- A step that needs room, behind the step that makes it.
  pub after_room :
      {new : Bytes} (n : ℕ) (step : M State (Unit {0}))
      → ((g : State)
          → Roomy refs s.heap text (length text + n) g
          → Ends (λ _ t. Keeps refs mutable g.heap new t) (λ t. t ≡ s) (step g))
      → Ends
          (λ _ t. Keeps refs mutable s.heap new t)
          (λ t. t ≡ s)
          ((make_room grow_amortized n >> step) s)
  after_room n step next =
      bind (make_room-Roomy n o grow_amortized (grow_amortized-Roomy n o))
        λ _ g q. weaken (next g q) (λ _ t k. Keeps-after q.keeps.same k) (λ t e. e)

  -- On a sound string and a valid argument, `push_str` returns with the argument appended, the
  -- string sound and everything that others refer to unchanged, or fails and changes nothing.
  pub push_str-appends :
      (string : Bytes)
      → IsUtf8 string
      → Ends (λ _ t. Keeps refs mutable s.heap (text ++ string) t) (λ t. t ≡ s) (push_str string s)
  unfolding push_str
  push_str-appends string v = elim (Bool-cases (length string == 0)) [
    | inl empty ↦
        rw empty (
          returns (subst (λ t. Keeps refs mutable s.heap t s) (nothing string empty) (unchanged o)))
    | inr some ↦
        rw (some, len_lem o.content)
          (after_room (length string)
            (write_at (length text) string >> set_len (length text + length string))
            λ g q. append-Keeps o.valid v (Roomy-Ready q))
  ]
    where
      nothing : (string : Bytes) → (length string == 0) ≡ true → text ≡ text ++ string
      nothing [] e = sym (append-nil text)
      nothing (b ∷ string) e = absurd (ground arith)

  -- On a sound string and a scalar value, `push_char` returns with the encoding of the char
  -- appended, the string sound and everything that others refer to unchanged, or fails and
  -- changes nothing.
  pub push_char-appends :
      (ch : ℕ)
      → IsScalar ch
      → Ends
          (λ _ t. Keeps refs mutable s.heap (text ++ encode_utf8 ch) t)
          (λ t. t ≡ s)
          (push_char ch s)
  unfolding push_char
  push_char-appends ch sc =
      rw (len_lem o.content, sym (length-encode_utf8 ch))
        (after_room (length (encode_utf8 ch))
          (write_at (length text) (encode_utf8 ch)
            >> set_len (length text + length (encode_utf8 ch)))
          λ g q. append-Keeps o.valid (IsUtf8-encode_utf8 ch sc) (Roomy-Ready q))

  -- On a sound string, a valid argument and an index at a char boundary, `insert_str` returns
  -- with the argument put in at the index, the string sound and everything that others refer to
  -- unchanged, or fails and changes nothing.
  pub insert_str-inserts :
      (idx : ℕ) (string : Bytes)
      → IsUtf8 string
      → is_char_boundary text idx ≡ true
      → Ends
          (λ _ t. Keeps refs mutable s.heap (inserted_at idx string text) t)
          (λ t. t ≡ s)
          (insert_str idx string s)
  unfolding insert_str
  insert_str-inserts idx string v at = elim (Bool-cases (length string == 0)) [
    | inl empty ↦
        rw (as_bytes_lem o.content, at, empty)
          (returns
            (subst (λ t. Keeps refs mutable s.heap t s) (nothing string empty) (unchanged o)))
    | inr some ↦
        rw (as_bytes_lem o.content, at, some, len_lem o.content)
          (after_room (length string) (open_gap (length text) idx string)
            λ g q. open_gap-Keeps idx o.valid v (IsUtf8-Halves idx o.valid at) (Roomy-Ready q))
  ]
    where
      nothing : (string : Bytes) → (length string == 0) ≡ true → text ≡ inserted_at idx string text
      nothing [] e = sym (take-append-drop idx text)
      nothing (b ∷ string) e = absurd (ground arith)

  -- On a sound string, `insert_str` off a char boundary panics before anything is changed.
  pub insert_str-panics :
      (idx : ℕ) (string : Bytes)
      → is_char_boundary text idx ≡ false
      → insert_str idx string s ≡ panicked s
  unfolding insert_str
  insert_str-panics idx string off = rw (as_bytes_lem o.content, off)

  -- On a sound string, a scalar value and an index at a char boundary, `insert_char` returns
  -- with the encoding of the char put in at the index, the string sound and everything that
  -- others refer to unchanged, or fails and changes nothing.
  pub insert_char-inserts :
      (idx ch : ℕ)
      → IsScalar ch
      → is_char_boundary text idx ≡ true
      → Ends
          (λ _ t. Keeps refs mutable s.heap (inserted_at idx (encode_utf8 ch) text) t)
          (λ t. t ≡ s)
          (insert_char idx ch s)
  unfolding insert_char
  insert_char-inserts idx ch sc at =
      rw (as_bytes_lem o.content, at, len_lem o.content, sym (length-encode_utf8 ch))
        (after_room (length (encode_utf8 ch)) (open_gap (length text) idx (encode_utf8 ch)) λ g q.
          open_gap-Keeps idx o.valid (IsUtf8-encode_utf8 ch sc) (IsUtf8-Halves idx o.valid at)
            (Roomy-Ready q))

  -- On a sound string, `insert_char` off a char boundary panics before anything is changed.
  pub insert_char-panics :
      (idx ch : ℕ) → is_char_boundary text idx ≡ false → insert_char idx ch s ≡ panicked s
  unfolding insert_char
  insert_char-panics idx ch off = rw (as_bytes_lem o.content, off)

  -- On a sound string and for a positive `n`, `reserve n` returns with the same text in a
  -- buffer that the string may write to and that has room for `n` more bytes, with everything
  -- that others refer to unchanged, or fails and changes nothing.
  pub reserve-Roomy :
      (n : ℕ)
      → 0 < n
      → Ends (λ _ t. Roomy refs s.heap text (length text + n) t) (λ t. t ≡ s) (reserve n s)
  unfolding reserve
  reserve-Roomy n some =
      let e : (n == 0) ≡ false = ground arith in
      rw e (make_room-Roomy n o grow_amortized (grow_amortized-Roomy n o))

  -- On a sound string and for a positive `n`, `reserve_exact n` returns with the same text in a
  -- buffer that the string may write to and that has room for `n` more bytes, with everything
  -- that others refer to unchanged, or fails and changes nothing.
  pub reserve_exact-Roomy :
      (n : ℕ)
      → 0 < n
      → Ends (λ _ t. Roomy refs s.heap text (length text + n) t) (λ t. t ≡ s) (reserve_exact n s)
  unfolding reserve_exact
  reserve_exact-Roomy n some =
      let e : (n == 0) ≡ false = ground arith in
      rw e (make_room-Roomy n o grow_exact (grow_exact-Roomy n o))

  -- A reservation leaves the text.
  pub reserve-Keeps :
      (n : ℕ) → Ends (λ _ t. Keeps refs mutable s.heap text t) (λ t. t ≡ s) (reserve n s)
  reserve-Keeps n = elim (Bool-cases (n == 0)) [
    | inl nothing ↦ unfold reserve in rw nothing (returns (unchanged o))
    | inr more ↦ weaken (reserve-Roomy n (ground arith)) (λ _ t q. q.keeps) (λ t e. e)
  ]
