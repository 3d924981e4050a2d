-- ===== src/Repr/NumToRepr/Print.antt =====
-- The text that is written is the number's.
use lean_string.Prelude.{
  ℕ, suc, ◌+◌, ◌≤◌, ◌<◌, ◌≡◌, refl, sym, ap, subst, ◌∙◌, some, [], ◌∷◌, ◌++◌, arith, leb,
  if◌then◌else◌, append-nil, length, drop, drop_all, All,
}
use lean_string.Prelude.Int.{ℤ, pos, negsuc}
use lean_string.Utf8.{Bytes, IsUtf8}
use lean_string.Utf8.Ascii.{IsAscii, ascii-IsUtf8}
use lean_string.Memory.{Heap, Allocator}
use lean_string.Memory.Ends.{Ends, weaken}
use lean_string.Memory.Counted.{Counted}
use lean_string.HeapBuffer.{Mutability}
use lean_string.Repr.{Repr}
use lean_string.Repr.Fresh.{New}
use lean_string.Repr.Init.Filled.{new_with-New}
use lean_string.Repr.DigitCount.{IntType, size_of, InRange, digit_count}
use lean_string.Repr.NumToRepr.{
  magnitude, Cursor, four_at_a_time, two_more, last_digits, written, into_repr,
}
use lean_string.Repr.NumToRepr.Decimal.{
  Width, digits, length-digits, digits-IsDigit, IsDigit, parse, parse-digits, parse-negative,
}
use lean_string.Repr.NumToRepr.Count.{Counts, unsigned, negative, digit_count-Counts}
use lean_string.Repr.NumToRepr.Writing.{
  Left, Few, four_at_a_time-Few, two_more-Few, last_digits-Writing,
}
use lean_string.Repr.NumToRepr.Limits.{
  Limits, limits, abs, sign_size, sign_le, abs_small, abs_narrow, magnitude_lem, count_bounds,
  stops, counted_below, Finished, signed, wide, narrow, text_of,
}

fours-Few :
    {off size : ℕ} {goal : Bytes} {t : IntType} (v : ℤ) (k count : ℕ) (s : Cursor)
    → Limits t
    → InRange t v
    → s.n ≡ abs v
    → k ≤ count
    → Left off size goal k s
    → Few off size goal 10000 (if leb 2 (size_of t) then four_at_a_time count s else s)
fours-Few {t} v k count s (wide e above below) h same enough l =
    rw e (four_at_a_time-Few count k s enough l)
fours-Few {t} v k count s (narrow e above below) h same enough l =
    rw e (record { k = k; left = l; few = omega (arith, same, abs_narrow t v above below h) })

-- With as many digits as there is room for behind the sign, all is written.
finished :
    (t : IntType) (v : ℤ) (k : ℕ) (buf : Bytes)
    → InRange t v
    → digit_count t v ≡ sign_size v + k
    → Width k (abs v)
    → length buf ≡ digit_count t v
    → Finished (text_of v k) (written t v buf)
unfolding written
finished t v k buf h e w len =
    let (one, (le, hi)) = count_bounds k (abs v) w in
    let small = abs_small v (limits t) h in
    let same : magnitude v ≡ abs v = magnitude_lem v small in
    let goal : Bytes = digits k (abs v) in
    let start : Cursor = record { curr = digit_count t v; n = magnitude v; buf = buf } in
    let left : Left (sign_size v) (digit_count t v) goal k start = record {
      writing = record {
        at = e;
        size_of_buf = len;
        room = omega arith;
        small = omega (arith, e, le, small, sign_le v);
        so_far =
            ap (λ n. digits k n ++ drop (digit_count t v) buf) same
            ∙ ap (λ t'. goal ++ t') (drop_all (digit_count t v) buf (omega (arith, len)))
            ∙ append-nil goal;
      };
      width = subst (Width k) (sym same) w;
    } in
    signed v (digit_count t v) goal k
      (last_digits
        (two_more (if leb 2 (size_of t) then four_at_a_time (digit_count t v) start else start)))
      refl
      (last_digits-Writing _ (
        two_more-Few _
          (fours-Few v k (digit_count t v) start (limits t) h same (omega (arith, e)) left)))

pub IsDigit-IsAscii : (s : Bytes) → All IsDigit s → All IsAscii s
IsDigit-IsAscii [] h = tt
IsDigit-IsAscii (b ∷ s) ((lo, hi), hs) = (omega arith, IsDigit-IsAscii s hs)

-- The text of an integer: it denotes it, has the bytes that are counted, and is what is written.
record Prints (t : IntType) (v : ℤ) (text : Bytes) : Type 0 where
  denotes : parse text ≡ some v
  counted : length text ≡ digit_count t v
  valid : IsUtf8 text
  written_by : (buf : Bytes) → length buf ≡ digit_count t v → Finished text (written t v buf)

text_of-Prints :
    (t : IntType) (v : ℤ) (count : ℕ)
    → InRange t v
    → digit_count t v ≡ count
    → Counts v count
    → (text : Bytes) × Prints t v text
text_of-Prints t (pos n) count h e (unsigned {k} w) =
    let (one, (le, hi)) = count_bounds k n w in
    (
      digits k n,
      record {
        denotes = parse-digits k n one hi;
        counted = length-digits k n ∙ sym e;
        valid = ascii-IsUtf8 (digits k n) (IsDigit-IsAscii (digits k n) (digits-IsDigit k n));
        written_by = λ buf len. finished t (pos n) k buf h (omega (arith, e)) w len;
      },
    )
text_of-Prints t (negsuc n) count h e (negative {k} w) =
    let (one, (le, hi)) = count_bounds k (suc n) w in
    (
      45 ∷ digits k (suc n),
      record {
        denotes = parse-negative k (suc n) one hi;
        counted = ap suc (length-digits k (suc n)) ∙ sym e;
        valid =
            ascii-IsUtf8 (45 ∷ digits k (suc n))
              (omega arith, IsDigit-IsAscii (digits k (suc n)) (digits-IsDigit k (suc n)));
        written_by = λ buf len. finished t (negsuc n) k buf h (omega (arith, e)) w len;
      },
    )

any_text : (t : IntType) (v : ℤ) → InRange t v → (text : Bytes) × Prints t v text
any_text t v h = text_of-Prints t v (digit_count t v) h refl (digit_count-Counts t v h)

-- For every integer of a type and a slice of `digit_count` bytes, the closure of `into_repr`
-- ends with its index at 0, without running below it, and the text that it leaves in the slice
-- is read back as the integer.
pub parse-written :
    (t : IntType) (v : ℤ) (buf : Bytes)
    → InRange t v
    → length buf ≡ digit_count t v
    → ((written t v buf).curr ≡ 0) × (parse (written t v buf).buf ≡ some v)
parse-written t v buf h len =
    let (text, p) = any_text t v h in
    let done_with = p.written_by buf len in (done_with.curr, ap parse done_with.text_in ∙ p.denotes)

-- For every integer of a type, the loop that writes four digits at a time ends within
-- `digit_count` rounds: less than 10000 is then left of the magnitude.
pub four_at_a_time-stops :
    (t : IntType) (v : ℤ) (s : Cursor)
    → InRange t v
    → s.n ≡ magnitude v
    → (four_at_a_time (digit_count t v) s).n < 10000
four_at_a_time-stops t v s h e = stops (digit_count t v) s (
    rw (e, magnitude_lem v (abs_small v (limits t) h))
      (counted_below v (digit_count t v) (digit_count-Counts t v h)))

-- A new string whose text denotes the integer.
pub record Denotes (refs : ℕ → ℕ) (m : Mutability) (h : Heap) (t : IntType) (v : ℤ) (r : Repr)
    (g : Heap) : Type 0 where
  pub text : Bytes
  pub string : New refs m h text r g
  pub denotes : parse text ≡ some v
  pub counted : length text ≡ digit_count t v

-- Where all reference counts are right, `into_repr` of an integer of a type returns a new sound
-- string whose text is read back as the integer and has `digit_count` bytes, with everything
-- that others refer to unchanged, or fails and changes nothing.
pub into_repr-Denotes :
    ⦃A : Allocator⦄ {refs : ℕ → ℕ} {h : Heap} (m : Mutability) (t : IntType) (v : ℤ)
    → Counted refs h
    → InRange t v
    → Ends (Denotes refs m h t v) (λ g. g ≡ h) (into_repr m t v h)
unfolding into_repr
into_repr-Denotes {refs} {h} m t v k range =
    let (text, p) = any_text t v range in
    rw (sym p.counted) (
      weaken
        (new_with-New m text (λ buf. (written t v buf).buf) k p.valid
          (λ dst e. (p.written_by dst (e ∙ p.counted)).text_in))
        (λ r g n. record { text = text; string = n; denotes = p.denotes; counted = p.counted })
        (λ g e. e))
