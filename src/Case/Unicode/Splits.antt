-- ===== src/Case/Unicode/Splits.antt =====
-- Where a text is split: the scans of bytes stop between chars, and nothing changes before the split.
use lean_string.Prelude.{
  ℕ, ◌+◌, ◌<◌, ◌≡◌, refl, sym, ap, subst, ◌∙◌, inl, inr, Bool, true, false, not, ◌&&◌, Option, none,
  some, List, [], ◌∷◌, ◌++◌, append_assoc, arith, ltb, ltb→lt, le_of_ltb-false, ◌≤◌, ◌/◌, ==_iff,
  Bool-cases, length, length-append, take, drop, All, All-append,
}
use lean_string.Utf8.{Bytes, IsScalar, len_utf8, encode_utf8, encode}
use lean_string.Utf8.Shape.{take-append_exact, drop-append_exact, encode-append, All-right}
use lean_string.Utf8.Chars.{chars-encode, encode-nil, length-encode-cons}
use lean_string.Case.{Case, lower, upper, is_ascii, ascii_mapped, byte_changes, count_while}
use lean_string.Case.Scan.{prefix_len_while_lem}
use lean_string.Case.Unicode.{
  Unicode, mapped_chars, eq_single, char_changes, find_change, split_behind, split_at_first_change,
}

-- The chars before which a scan of bytes stops.
pub record Scanned (pred : ℕ → Bool) (cs : List ℕ) : Type 0 where
  pub before : List ℕ
  pub after : List ℕ
  pub whole : before ++ after ≡ cs
  pub pass : All (λ c. pred c ≡ true) before
  pub place : count_while pred (encode cs) ≡ length (encode before)

-- A test that only ASCII bytes pass.
abbrev pub OnlyAscii : (ℕ → Bool) → Type 0
OnlyAscii pred = (b : ℕ) → pred b ≡ true → b < 128

ascii_bytes : (c : ℕ) → c < 128 → encode_utf8 c ≡ c ∷ []
unfolding encode_utf8
ascii_bytes c lt = ground arith

-- The first byte of a char beyond ASCII is none itself.
wide_bytes :
    (pred : ℕ → Bool) (c : ℕ) (s : Bytes)
    → OnlyAscii pred
    → 128 ≤ c
    → count_while pred (encode_utf8 c ++ s) ≡ 0
unfolding encode_utf8 count_while
wide_bytes pred c s only wide =
    ground (arith, only (0xC0 + c / 64), only (0xE0 + c / 4096), only (0xF0 + c / 262144))

stops_first :
    (pred : ℕ → Bool) (c : ℕ) (s : Bytes)
    → OnlyAscii pred
    → pred c ≡ false
    → count_while pred (encode_utf8 c ++ s) ≡ 0
unfolding count_while
stops_first pred c s only stop = elim (Bool-cases (ltb c 128)) [
  | inl small ↦ rw (ascii_bytes c (ltb→lt c 128 small)) (rw stop refl)
  | inr wide ↦ wide_bytes pred c s only (le_of_ltb-false c 128 wide)
]

passes_first :
    (pred : ℕ → Bool) (c : ℕ) (s : Bytes)
    → OnlyAscii pred
    → pred c ≡ true
    → count_while pred (encode_utf8 c ++ s) ≡ length (encode_utf8 c) + count_while pred s
unfolding count_while
passes_first pred c s only pass = rw (ascii_bytes c (only c pass)) (rw pass (omega arith))

pub scanned : (pred : ℕ → Bool) → OnlyAscii pred → (cs : List ℕ) → Scanned pred cs
unfolding count_while encode
scanned pred only [] = record { before = []; after = []; whole = refl; pass = tt; place = refl }
scanned pred only (c ∷ cs) = elim (Bool-cases (pred c)) [
  | inl pass ↦
      let more = scanned pred only cs in
      record {
        before = c ∷ more.before;
        after = more.after;
        whole = ap (λ t. c ∷ t) more.whole;
        pass = (pass, more.pass);
        place = omega (
          arith,
          passes_first pred c (encode cs) only pass,
          more.place,
          length-append (encode_utf8 c) (encode more.before),
        );
      }
  | inr stop ↦ record {
    before = [];
    after = c ∷ cs;
    whole = refl;
    pass = tt;
    place = stops_first pred c (encode cs) only stop;
  }
]

-- The two parts of a text that is split where a scan stopped.
pub parts_of_scan :
    {pred : ℕ → Bool} (cs : List ℕ) (s : Scanned pred cs)
    → (take (count_while pred (encode cs)) (encode cs) ≡ encode s.before)
      × (drop (count_while pred (encode cs)) (encode cs) ≡ encode s.after)
parts_of_scan cs s =
    let e : encode cs ≡ encode s.before ++ encode s.after =
      ap encode (sym s.whole) ∙ encode-append s.before s.after in
    (
      rw (s.place, e) (take-append_exact (encode s.before) (encode s.after)),
      rw (s.place, e) (drop-append_exact (encode s.before) (encode s.after)),
    )

module _ (u : Unicode) (case : Case) where
  -- A char that the mapping leaves as it is.
  abbrev pub Fixed : ℕ → Type 0
  Fixed c = u.to_char_case case c ≡ c ∷ []

  single_lem : (l : List ℕ) (c : ℕ) → eq_single l c ≡ true → l ≡ c ∷ []
  unfolding eq_single
  single_lem [] c e = absurd (cc)
  single_lem (d ∷ []) c e = ap (λ t. t ∷ []) ((==_iff d c).0 e)
  single_lem (d ∷ d' ∷ l) c e = absurd (cc)

  pub same_char : (c : ℕ) → char_changes u case c ≡ false → Fixed c
  unfolding char_changes
  same_char c e = single_lem (u.to_char_case case c) c (ground arith)

  pub mapped_same : (cs : List ℕ) → All Fixed cs → mapped_chars (u.to_char_case case) cs ≡ cs
  unfolding mapped_chars
  mapped_same [] all = refl
  mapped_same (c ∷ cs) (fix, all) =
      ap (λ t. t ++ mapped_chars (u.to_char_case case) cs) fix
      ∙ ap (λ t. c ∷ t) (mapped_same cs all)

  -- What `find_change` answers: no char changes, or the offset of the first that does.
  data FoundChange (offset : ℕ) (cs : List ℕ) : Option ℕ → Type 0 where
    all_fixed : All Fixed cs → FoundChange offset cs none
    changes_at :
        {i : ℕ} (before : List ℕ) (c : ℕ) (after : List ℕ)
        → before ++ (c ∷ after) ≡ cs
        → All Fixed before
        → char_changes u case c ≡ true
        → i ≡ offset + length (encode before)
        → FoundChange offset cs (some i)

  same_first :
      (offset c : ℕ) {cs : List ℕ} {out : Option ℕ}
      → Fixed c
      → FoundChange (offset + len_utf8 c) cs out
      → FoundChange offset (c ∷ cs) out
  same_first offset c fix (all_fixed all) = all_fixed (fix, all)
  same_first offset c fix (changes_at before d after whole all changes at) =
      changes_at (c ∷ before) d after (ap (λ t. c ∷ t) whole) (fix, all) changes
        (omega (arith, at, length-encode-cons c before))

  find_change-FoundChange :
      (offset : ℕ) (cs : List ℕ) → FoundChange offset cs (find_change u case offset cs)
  unfolding find_change
  find_change-FoundChange offset [] = all_fixed tt
  find_change-FoundChange offset (c ∷ cs) = elim (Bool-cases (char_changes u case c)) [
    | inl changes ↦
        rw changes (changes_at [] c cs refl tt changes (omega (arith, ap length encode-nil)))
    | inr fix ↦
        rw fix
          (same_first offset c (same_char c fix) (find_change-FoundChange (offset + len_utf8 c) cs))
  ]

  same_byte : (c : ℕ) → (is_ascii c && not (byte_changes case c)) ≡ true → Fixed c
  same_byte c e = u.ascii_case case c (ground arith) ∙ ap (λ t. t ∷ []) (same case c (ground arith))
    where
      same : (case : Case) (c : ℕ) → not (byte_changes case c) ≡ true → ascii_mapped case c ≡ c
      same lower c e = ground arith
      same upper c e = ground arith

  same_prefix :
      (cs : List ℕ) → All (λ c. (is_ascii c && not (byte_changes case c)) ≡ true) cs → All Fixed cs
  same_prefix [] all = tt
  same_prefix (c ∷ cs) (pass, all) = (same_byte c pass, same_prefix cs all)

  -- How a text of chars is split: nothing changes, or nothing before the second part, which starts
  -- with a char that changes.
  pub data Divided (cs : List ℕ) : Option (Bytes × Bytes) → Type 0 where
    unchanging : All Fixed cs → Divided cs none
    divided :
        {first second : Bytes} (before : List ℕ) (c : ℕ) (after : List ℕ)
        → before ++ (c ∷ after) ≡ cs
        → All Fixed before
        → char_changes u case c ≡ true
        → first ≡ encode before
        → second ≡ encode (c ∷ after)
        → Divided cs (some (first, second))

  after_skip :
      (cs skip rest : List ℕ) {out : Option ℕ}
      → skip ++ rest ≡ cs
      → All Fixed skip
      → FoundChange 0 rest out
      → Divided cs (split_behind u case (encode cs) (length (encode skip)) out)
  after_skip cs skip rest e all (all_fixed more) =
      unchanging (subst (All Fixed) e (All-append Fixed skip rest all more))
  after_skip cs skip rest e all (changes_at {i} before c after whole more changes at) =
      let chars : (skip ++ before) ++ (c ∷ after) ≡ cs =
        append_assoc skip before (c ∷ after) ∙ ap (λ t. skip ++ t) whole ∙ e in
      let place : length (encode skip) + i ≡ length (encode (skip ++ before)) = omega (
        arith,
        at,
        ap length (encode-append skip before),
        length-append (encode skip) (encode before),
      ) in
      let parts : encode cs ≡ encode (skip ++ before) ++ encode (c ∷ after) =
        ap encode (sym chars) ∙ encode-append (skip ++ before) (c ∷ after) in
      divided (skip ++ before) c after chars (All-append Fixed skip before all more) changes
        (ap (λ n. take n (encode cs)) place
          ∙ ap (take (length (encode (skip ++ before)))) parts
          ∙ take-append_exact (encode (skip ++ before)) (encode (c ∷ after)))
        (ap (λ n. drop n (encode cs)) place
          ∙ ap (drop (length (encode (skip ++ before)))) parts
          ∙ drop-append_exact (encode (skip ++ before)) (encode (c ∷ after)))

  -- For a text that spells a sequence of chars, `split_at_first_change` splits it right before
  -- the first char that the mapping changes, or finds that no char changes.
  pub split_at_first_change-Divided :
      (cs : List ℕ) → All IsScalar cs → Divided cs (split_at_first_change u case (encode cs))
  unfolding split_at_first_change
  split_at_first_change-Divided cs sc =
      let pred = λ (b : ℕ). is_ascii b && not (byte_changes case b) in
      let s = scanned pred (λ b e. ground arith) cs in
      let scs : All IsScalar (s.before ++ s.after) = subst (All IsScalar) (sym s.whole) sc in
      rw
        (
          prefix_len_while_lem pred (encode cs),
          (parts_of_scan cs s).1,
          s.place,
          chars-encode s.after (All-right IsScalar s.before s.after scs),
        )
        (after_skip cs s.before s.after s.whole (same_prefix s.before s.pass)
          (find_change-FoundChange 0 s.after))
