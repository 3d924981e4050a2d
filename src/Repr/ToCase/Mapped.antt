-- ===== src/Repr/ToCase/Mapped.antt =====
-- What `to_case` returns is what the standard library's mapping of the whole text gives.
use lean_string.Prelude.{
  ℕ, ◌+◌, ◌≤◌, ◌≡◌, refl, sym, ap, subst, ◌∙◌, Bool, true, false, Option, List, ◌∷◌, ◌++◌,
  append_assoc, arith, ltb→lt, length, length-append, All, All-append,
}
use lean_string.Utf8.{Bytes, IsScalar, IsUtf8, encode}
use lean_string.Utf8.Shape.{encode-append, IsUtf8-encode, All-left, All-right}
use lean_string.Utf8.Chars.{chars-encode}
use lean_string.Memory.{Heap, Allocator, Outcome, M, and_then}
use lean_string.Memory.Ends.{Ends, returns, fails, bind, weaken}
use lean_string.Memory.Counted.{Counted, Same-refl}
use lean_string.HeapBuffer.{mutable}
use lean_string.Case.{Case, is_ascii, split_ascii_prefix}
use lean_string.Case.Ascii.{ascii_text, length-ascii_text, ascii_text-IsUtf8, mapped_spells}
use lean_string.Case.Scan.{prefix_len_while_lem}
use lean_string.Case.Unicode.{Unicode, mapped_chars}
use lean_string.Case.Unicode.Splits.{
  scanned, parts_of_scan, Fixed, mapped_same, Divided, unchanging, divided,
  split_at_first_change-Divided,
}
use lean_string.Repr.{Repr, State}
use lean_string.Repr.Owns.{Keeps}
use lean_string.Repr.Place.{at_state}
use lean_string.Repr.Fill.{Content-Ready, Keeps-after}
use lean_string.Repr.Fresh.{Alone-modifiable}
use lean_string.Repr.Literal.{Empty, with_capacity-Empty}
use lean_string.Repr.ToCase.{write_parts, is_sigma, map_parts, map_changed, to_case}
use lean_string.Repr.ToCase.Pushes.{write_parts-Keeps, Mapped, push_mapped-Mapped}
use lean_string.Repr.ToCase.Ended.{
  CaseMapped, Cleared, mapped_chars-append, Other, ascii_chars, ascii-Other, Fixed-Other,
  text_mapped, finished-CaseMapped, same_text,
}

-- The parts of a text of chars: those before the first change, the ASCII chars behind them, and the
-- rest.
module _ ⦃A : Allocator⦄ (u : Unicode) (case : Case) {refs : ℕ → ℕ} {h : Heap} (k : Counted refs h)
    (before ascii rest : List ℕ) (sc : All IsScalar (before ++ (ascii ++ rest)))
    (fix : All (Fixed u case) before) (small : All (λ c. is_ascii c ≡ true) ascii) where
  abbrev f : ℕ → List ℕ
  f = u.to_char_case case

  abbrev written : List ℕ
  written = mapped_chars f before ++ mapped_chars f ascii

  abbrev source : Bytes
  source = encode (before ++ (ascii ++ rest))

  written_lem : encode before ++ ascii_text case (encode ascii) ≡ encode written
  written_lem =
      ap (λ t. encode t ++ ascii_text case (encode ascii)) (sym (mapped_same u case before fix))
      ∙ ap (λ t. encode (mapped_chars f before) ++ t)
          (sym (mapped_spells case ascii) ∙ ap encode (sym (ascii_chars u case ascii small)))
      ∙ sym (encode-append (mapped_chars f before) (mapped_chars f ascii))

  whole_text :
      All (λ c. is_sigma case c ≡ false) rest
      → encode (written ++ mapped_chars f rest) ≡ u.to_text_case case source
  whole_text other =
      ap encode (
        append_assoc (mapped_chars f before) (mapped_chars f ascii) (mapped_chars f rest)
        ∙ ap (λ t. mapped_chars f before ++ t) (sym (mapped_chars-append f ascii rest))
        ∙ sym (mapped_chars-append f before (ascii ++ rest)))
      ∙ text_mapped u case (before ++ (ascii ++ rest)) sc (
          All-append (Other u case) before (ascii ++ rest) (Fixed-Other u case before fix)
            (All-append (Other u case) ascii rest (ascii-Other u case ascii small) other))

  sc_rest : All IsScalar rest
  sc_rest = All-right IsScalar ascii rest (All-right IsScalar before (ascii ++ rest) sc)

  sc_ascii : All IsScalar ascii
  sc_ascii = All-left IsScalar ascii rest (All-right IsScalar before (ascii ++ rest) sc)

  room : length (encode before) + length (ascii_text case (encode ascii)) ≤ length source
  room = omega (
    arith,
    length-ascii_text case (encode ascii),
    ap length (encode-append before (ascii ++ rest)),
    ap length (encode-append ascii rest),
    length-append (encode before) (encode (ascii ++ rest)),
    length-append (encode ascii) (encode rest),
  )

  after_parts :
      {o : Outcome State (Unit {0})} {next : M State Bool}
      → Ends
          (λ _ s. Keeps refs mutable h (encode before ++ ascii_text case (encode ascii)) s)
          (λ _. ⊥)
          o
      → ((s : State)
          → Keeps refs mutable h (encode written) s
          → Mapped u case refs h written rest (next s))
      → Mapped u case refs h written rest (and_then o (λ _. next))
  after_parts (returns {s} q) go = go s (subst (λ x. Keeps refs mutable h x s) written_lem q)
  after_parts (fails e) go = absurd e

  parts_written :
      {q : Repr} {g : Heap}
      → Empty refs h (length source) q g
      → Ends
          (λ _ s. Keeps refs mutable h (encode before ++ ascii_text case (encode ascii)) s)
          (λ _. ⊥)
          (write_parts (encode before) (ascii_text case (encode ascii)) (at_state q g))
  parts_written {q} e =
      let own = e.fresh.owns.counted in
      weaken
        (write_parts-Keeps {E = λ _. ⊥}
          (IsUtf8-encode before (All-left IsScalar before (ascii ++ rest) sc))
          (ascii_text-IsUtf8 case (IsUtf8-encode ascii sc_ascii))
          (Content-Ready e.content own (Alone-modifiable refs q own e.fresh.alone))
          (omega (arith, room, e.room)))
        (λ _ s x. Keeps-after e.fresh.same x) (λ s x. x)

  map_parts-CaseMapped :
      Ends
        (CaseMapped refs h source (u.to_text_case case source))
        (Cleared refs h)
        (map_parts u case source (encode before) (encode ascii, encode rest) h)
  map_parts-CaseMapped = rw (chars-encode rest sc_rest) (
      bind
        (weaken (with_capacity-Empty (length source) k) (λ q g e. e)
          (λ g x. subst (Cleared refs h) (sym x) (k, Same-refl refs h)))
        λ q g e.
          finished-CaseMapped u case (IsUtf8-encode (before ++ (ascii ++ rest)) sc) whole_text (
            after_parts (parts_written e)
              (λ s new. push_mapped-Mapped u case written rest s sc_rest new)))

module _ ⦃A : Allocator⦄ (u : Unicode) (case : Case) {refs : ℕ → ℕ} {h : Heap}
    (k : Counted refs h) where
  changed_parts :
      (before chs : List ℕ)
      → All IsScalar (before ++ chs)
      → All (Fixed u case) before
      → Ends
          (CaseMapped refs h
            (encode (before ++ chs))
            (u.to_text_case case (encode (before ++ chs))))
          (Cleared refs h)
          (map_parts u case
            (encode (before ++ chs))
            (encode before)
            (split_ascii_prefix (encode chs))
            h)
  unfolding split_ascii_prefix
  changed_parts before chs sc fix =
      let s = scanned is_ascii (λ b e. ltb→lt b 128 e) chs in
      let whole : before ++ (s.before ++ s.after) ≡ before ++ chs = ap (λ t. before ++ t) s.whole in
      rw
        (
          prefix_len_while_lem is_ascii (encode chs),
          (parts_of_scan chs s).0,
          (parts_of_scan chs s).1,
        )
        (subst
          (λ cs.
            Ends (CaseMapped refs h (encode cs) (u.to_text_case case (encode cs))) (Cleared refs h)
              (map_parts u case (encode cs) (encode before) (encode s.before, encode s.after) h))
          whole
          (map_parts-CaseMapped u case k before s.before s.after
            (subst (All IsScalar) (sym whole) sc) fix s.pass))

  by_parts :
      (cs : List ℕ) {out : Option (Bytes × Bytes)}
      → All IsScalar cs
      → Divided u case cs out
      → Ends
          (CaseMapped refs h (encode cs) (u.to_text_case case (encode cs)))
          (Cleared refs h)
          (map_changed u case (encode cs) out h)
  by_parts cs sc (unchanging fix) = returns (
      same_text
        (sym (text_mapped u case cs sc (Fixed-Other u case cs fix))
          ∙ ap encode (mapped_same u case cs fix))
        refl)
  by_parts cs sc (divided before c after whole fix changes first second) =
      rw (first, second, sym whole)
        (changed_parts before (c ∷ after) (subst (All IsScalar) (sym whole) sc) fix)

  -- Where all reference counts are right and for a valid text, `to_case` returns a new sound
  -- string with the text that `str::to_lowercase` or `str::to_uppercase` gives, or none where
  -- that is the text itself. Or it fails. All reference counts stay right, and what others refer
  -- to is unchanged.
  pub to_case-CaseMapped :
      {text : Bytes}
      → IsUtf8 text
      → Ends
          (CaseMapped refs h text (u.to_text_case case text))
          (Cleared refs h)
          (to_case u case text h)
  unfolding to_case
  to_case-CaseMapped v =
      subst
        (λ t.
          Ends (CaseMapped refs h t (u.to_text_case case t)) (Cleared refs h) (to_case u case t h))
        v.spells
        (by_parts v.chars v.scalars (split_at_first_change-Divided u case v.chars v.scalars))
