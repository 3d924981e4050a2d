-- ===== src/Repr/Retain/Running.antt =====
-- One round of the loop of `retain` (src/repr.rs).
use lean_string.Prelude.{
  ℕ, ◌+◌, ◌≤◌, ◌≡◌, sym, ap, ◌∙◌, inl, inr, true, false, List, [], ◌∷◌, ◌++◌, append-nil, arith,
  ltb, lt→ltb, ltb-false, ◌==◌, ==_iff, Bool-cases, if◌then◌else◌, length, length-append, take,
  drop, take_add, drop-drop,
}
use lean_string.Prelude.Splice.{splice, length-splice, take-splice_end, drop-splice_past}
use lean_string.Utf8.{Bytes, IsScalar, len_utf8, encode_utf8, encode}
use lean_string.Utf8.Shape.{
  IsUtf8-encode_utf8, IsUtf8-EndsBelow, length-encode_utf8, len_utf8_bounds, encode-append,
}
use lean_string.Memory.{Heap, pure}
use lean_string.Memory.Ends.{Ends, returns, weaken}
use lean_string.Memory.Counted.{Same, Same-refl, Same-trans}
use lean_string.Repr.{State}
use lean_string.Repr.Edit.{copy_at}
use lean_string.Repr.Place.{Open, write_at-Filled, read_at-bytes}
use lean_string.Repr.Retain.Chars.{length-encode_first, two_parts}

-- The front holds the chars that are kept, and what is not yet seen is in its place.
pub record Running (refs : ℕ → ℕ) (len src dst : ℕ) (ks es : List ℕ) (s : State) : Type 0 where
  pub bytes : Bytes
  pub opened : Open refs s.heap s.self bytes
  pub kept : take dst bytes ≡ encode ks
  pub at : dst ≡ length (encode ks)
  pub left : take (length (encode es)) (drop src bytes) ≡ encode es
  pub ends : src + length (encode es) ≡ len
  pub order : dst ≤ src
  pub room : len ≤ length bytes

encode_last : (ks : List ℕ) (c : ℕ) → encode (ks ++ (c ∷ [])) ≡ encode ks ++ encode_utf8 c
unfolding encode
encode_last ks c = encode-append ks (c ∷ []) ∙ ap (λ t. encode ks ++ t) (append-nil (encode_utf8 c))

module _ {refs : ℕ → ℕ} {len src dst : ℕ} {ks es : List ℕ} {c : ℕ} {s : State}
    (i : Running refs len src dst ks (c ∷ es) s) (sc : IsScalar c) where
  parts :
      (take (length (encode_utf8 c)) (drop src i.bytes) ≡ encode_utf8 c)
      × (take (length (encode es)) (drop (length (encode_utf8 c)) (drop src i.bytes)) ≡ encode es)
  unfolding encode
  parts = two_parts (drop src i.bytes) (encode_utf8 c) (encode es) i.left

  behind_char : take (length (encode es)) (drop (src + length (encode_utf8 c)) i.bytes) ≡ encode es
  behind_char =
      ap (take (length (encode es))) (sym (drop-drop src (length (encode_utf8 c)) i.bytes))
      ∙ parts.1

  behind : take (length (encode es)) (drop (src + len_utf8 c) i.bytes) ≡ encode es
  behind =
      ap (λ n. take (length (encode es)) (drop (src + n) i.bytes)) (sym (length-encode_utf8 c))
      ∙ behind_char

  -- A char is skipped.
  pub skipped : Running refs len (src + len_utf8 c) dst ks es s
  skipped = record {
    bytes = i.bytes;
    opened = i.opened;
    kept = i.kept;
    at = i.at;
    left = behind;
    ends = omega (arith, i.ends, length-encode_first c es);
    order = omega (arith, i.order);
    room = i.room;
  }

  -- A char is where it belongs.
  stays : dst ≡ src → Running refs len (src + len_utf8 c) (dst + len_utf8 c) (ks ++ (c ∷ [])) es s
  stays same = record {
    bytes = i.bytes;
    opened = i.opened;
    kept =
        take_add dst (len_utf8 c) i.bytes
        ∙ ap (λ t. t ++ take (len_utf8 c) (drop dst i.bytes)) i.kept
        ∙ ap (λ t. encode ks ++ t)
            (ap (λ n. take n (drop dst i.bytes)) (sym (length-encode_utf8 c))
              ∙ ap (λ n. take (length (encode_utf8 c)) (drop n i.bytes)) same
              ∙ parts.0)
        ∙ sym (encode_last ks c);
    at = omega (
      arith,
      ap length (encode_last ks c),
      length-append (encode ks) (encode_utf8 c),
      length-encode_utf8 c,
      i.at,
    );
    left = behind;
    ends = omega (arith, i.ends, length-encode_first c es);
    order = omega (arith, i.order);
    room = i.room;
  }

  -- A char is copied behind those that are kept.
  moves :
      {E : State → Type 0}
      → Ends
          (λ _ t.
            Running refs len (src + len_utf8 c) (dst + len_utf8 c) (ks ++ (c ∷ [])) es t
            × Same refs s.heap t.heap)
          E
          (copy_at src dst (len_utf8 c) s)
  moves {E} =
      let w = length-encode_utf8 c in
      let e = length-encode_first c es in
      let fits : dst + length (encode_utf8 c) ≤ length i.bytes =
        omega (arith, w, e, i.order, i.ends, i.room) in
      rw
        (read_at-bytes src (len_utf8 c) i.opened (omega (arith, e, i.ends, i.room)), sym w, parts.0)
        (weaken
          (write_at-Filled {E = E} dst (encode_utf8 c) i.opened fits
            (IsUtf8-EndsBelow (IsUtf8-encode_utf8 c sc)))
          (λ _ t f. (
            record {
              bytes = splice i.bytes dst (encode_utf8 c);
              opened = f.opened;
              kept =
                  take-splice_end i.bytes dst (encode_utf8 c) fits
                  ∙ ap (λ t. t ++ encode_utf8 c) i.kept
                  ∙ sym (encode_last ks c);
              at = omega (
                arith,
                ap length (encode_last ks c),
                length-append (encode ks) (encode_utf8 c),
                i.at,
              );
              left =
                  ap (take (length (encode es))) (
                    drop-splice_past i.bytes dst (encode_utf8 c) (src + length (encode_utf8 c))
                      (omega (arith, i.order)) fits)
                  ∙ behind_char;
              ends = omega (arith, i.ends, e, w);
              order = omega (arith, i.order);
              room = omega (arith, i.room, length-splice i.bytes dst (encode_utf8 c) fits);
            },
            f.same,
          ))
          (λ t x. x))

-- The retained chars stand in front.
pub record Compacted (refs : ℕ → ℕ) (h : Heap) (cs : List ℕ) (dst : ℕ) (s : State) : Type 0 where
  pub bytes : Bytes
  pub opened : Open refs s.heap s.self bytes
  pub front : take dst bytes ≡ encode cs
  pub at : dst ≡ length (encode cs)
  pub room : dst ≤ length bytes
  pub same : Same refs h s.heap

-- The copy is left out for a char that is where it belongs.
pub put_char :
    {refs : ℕ → ℕ} {len src dst : ℕ} {ks es : List ℕ} {c : ℕ} {s : State} {E : State → Type 0}
    → Running refs len src dst ks (c ∷ es) s
    → IsScalar c
    → Ends
        (λ _ t.
          Running refs len (src + len_utf8 c) (dst + len_utf8 c) (ks ++ (c ∷ [])) es t
          × Same refs s.heap t.heap)
        E
        ((if dst == src then pure tt else copy_at src dst (len_utf8 c)) s)
put_char {refs} {src} {dst} {c} {s} i sc = elim (Bool-cases (dst == src)) [
  | inl same ↦ rw same (returns (stays i sc ((==_iff dst src).0 same), Same-refl refs s.heap))
  | inr apart ↦ rw apart (moves i sc)
]

module _ {refs : ℕ → ℕ} {h g : Heap} {cs : List ℕ} {dst : ℕ} {s : State} where
  -- What is compacted after a step is so before it.
  pub earlier :
      {ds : List ℕ}
      → Same refs h g
      → cs ≡ ds
      → Compacted refs g cs dst s
      → Compacted refs h ds dst s
  earlier same e k = record {
    bytes = k.bytes;
    opened = k.opened;
    front = k.front ∙ ap encode e;
    at = k.at ∙ ap (λ t. length (encode t)) e;
    room = k.room;
    same = Same-trans same k.same;
  }

module _ {refs : ℕ → ℕ} (len : ℕ) where
  pub finished :
      {src dst : ℕ} {ks es : List ℕ} {s : State}
      → Running refs len src dst ks es s
      → Compacted refs s.heap (ks ++ []) dst s
  finished {ks} {s} i = record {
    bytes = i.bytes;
    opened = i.opened;
    front = i.kept ∙ ap encode (sym (append-nil ks));
    at = i.at ∙ ap (λ t. length (encode t)) (sym (append-nil ks));
    room = omega (arith, i.order, i.ends, i.room);
    same = Same-refl refs s.heap;
  }

  pub at_end :
      {src dst : ℕ} {ks : List ℕ} {s : State}
      → Running refs len src dst ks [] s
      → ltb src len ≡ false
  unfolding encode
  at_end {src} i = ltb-false src len (omega (arith, i.ends))

  pub inside :
      {src dst : ℕ} {ks es : List ℕ} {c : ℕ} {s : State}
      → Running refs len src dst ks (c ∷ es) s
      → ltb src len ≡ true
  inside {src} {es} {c} i =
      lt→ltb src len (omega (arith, i.ends, length-encode_first c es, len_utf8_bounds c))
