-- ===== src/Repr/Place.antt =====
-- Writes into a string's own buffer, and the length set behind them.
use Prim.Native.Nat.{bit_or}
use lean_string.Prelude.{
  ℕ, suc, ◌+◌, ◌/◌, ◌^◌, ◌≤◌, ◌<◌, ◌≡◌, refl, sym, ap, subst, ◌∙◌, inl, inr, true, false, [], ◌∷◌,
  arith, ltb, le→leb, ltb→lt, le_of_ltb-false, Bool-cases, length, take, drop, take_all, get_or,
}
use lean_string.Prelude.Splice.{
  splice, length-splice, take-splice_le, get_or-splice_past, get_or-splice_in, splice_nothing,
}
use lean_string.Utf8.{Bytes, IsUtf8}
use lean_string.Utf8.Shape.{EndsBelow, EndsBelow-last, IsUtf8-EndsBelow}
use lean_string.Memory.{Heap, done}
use lean_string.Memory.Ends.{Ends, returns}
use lean_string.Memory.Counted.{Counted, Same, Same-refl}
use lean_string.HeapBuffer
use lean_string.HeapBuffer.{HeapBuffer, mutable}
use lean_string.HeapBuffer.Holds.{block_at-some}
use lean_string.HeapBuffer.Write.{
  Writable, count_one, refilled, refilled-Writable, refilled-Same, write-refilled, length-written,
  Writable-Holds, set_len_lem,
}
use lean_string.InlineBuffer
use lean_string.InlineBuffer.{InlineBuffer}
use lean_string.InlineBuffer.Shape.{or_mask}
use lean_string.Repr.{Repr, inline, heap, State, is_heap_buffer, is_static_buffer, is_unique}
use lean_string.Repr.Edit.{write_at, read_at, set_len}
use lean_string.Repr.Owns.{InInline, in_inline, in_heap, Keeps}

-- A buffer that may be written to, with all its bytes, whatever length is recorded. The last byte
-- never looks like a marker.
pub data Open (refs : ℕ → ℕ) (h : Heap) : Repr → Bytes → Type 0 where
  open_inline :
      {buffer bytes : Bytes}
      → bytes ≡ buffer
      → length buffer ≡ 16
      → get_or buffer 15 0 < 0xD0
      → Counted refs h
      → Open refs h (inline buffer) bytes
  open_heap :
      {b : HeapBuffer} {bytes : Bytes}
      → b.len / 2 ^ 56 ≡ 0xD0
      → Writable refs h b.ptr (length bytes) bytes
      → Open refs h (heap b) bytes

abbrev pub at_state : Repr → Heap → State
at_state r h = record { self = r; heap = h }

-- Another content of the buffer, and nothing that others see has changed.
pub record Filled (refs : ℕ → ℕ) (h : Heap) (bytes : Bytes) (s : State) : Type 0 where
  pub opened : Open refs s.heap s.self bytes
  pub same : Same refs h s.heap

-- The end of a written part is the end of a text.
last-splice :
    (buffer : Bytes) (off : ℕ) (src : Bytes)
    → length buffer ≡ 16
    → get_or buffer 15 0 < 0xD0
    → off + length src ≤ 16
    → EndsBelow src
    → get_or (splice buffer off src) 15 0 < 0xD0
last-splice buffer off [] size last fits ends =
    subst (λ t. get_or t 15 0 < 0xD0) (sym (splice_nothing buffer off (omega arith))) last
last-splice buffer off (b ∷ src) size last fits ends =
    elim (Bool-cases (ltb (off + suc (length src)) 16)) [
      | inl inside ↦
          subst (λ x. x < 0xD0)
            (sym (
              get_or-splice_past buffer off (b ∷ src) 15 0 (omega (arith, ltb→lt _ _ inside))
                (omega arith)))
            last
      | inr end ↦
          let at_end : off + length src ≡ 15 = omega (arith, le_of_ltb-false _ _ end) in
          let e : get_or (splice buffer off (b ∷ src)) 15 0 ≡ get_or (b ∷ src) (length src) 0 =
            ap (λ i. get_or (splice buffer off (b ∷ src)) i 0) (sym at_end)
            ∙ get_or-splice_in buffer off (b ∷ src) (length src) 0 (omega arith) (omega arith) in
          omega (arith, e, EndsBelow-last (b ∷ src) (length src) ends refl)
    ]

pub tag_is_heap : (b : HeapBuffer) → b.len / 2 ^ 56 ≡ 0xD0 → is_heap_buffer (heap b) ≡ true
unfolding is_heap_buffer
tag_is_heap b e = rw e

pub tag_not_static : (b : HeapBuffer) → b.len / 2 ^ 56 ≡ 0xD0 → is_static_buffer (heap b) ≡ false
unfolding is_static_buffer
tag_not_static b e = rw e

pub low_not_heap :
    (buffer : InlineBuffer) → get_or buffer 15 0 < 0xD0 → is_heap_buffer (inline buffer) ≡ false
unfolding is_heap_buffer
low_not_heap buffer h = ground arith

pub low_not_static :
    (buffer : InlineBuffer) → get_or buffer 15 0 < 0xD0 → is_static_buffer (inline buffer) ≡ false
unfolding is_static_buffer
low_not_static buffer h = ground arith

module _ {refs : ℕ → ℕ} {h : Heap} (b : HeapBuffer) {n : ℕ} {bytes : Bytes}
    (tag : b.len / 2 ^ 56 ≡ 0xD0) (w : Writable refs h b.ptr n bytes) where
  pub is_unique_open : is_unique (heap b) h ≡ done true h
  unfolding is_unique HeapBuffer.is_unique
  is_unique_open = rw (tag_is_heap b tag, block_at-some b.ptr h w.at) (rw (count_one w))

module _ {refs : ℕ → ℕ} {h : Heap} {E : State → Type 0} where
  -- A write within the buffer changes those bytes, and nothing else that can be seen.
  pub write_at-Filled :
      {r : Repr} {bytes : Bytes} (off : ℕ) (src : Bytes)
      → Open refs h r bytes
      → off + length src ≤ length bytes
      → EndsBelow src
      → Ends (λ _ s. Filled refs h (splice bytes off src) s) E (write_at off src (at_state r h))
  unfolding write_at
  write_at-Filled off src (open_inline {buffer} {bytes} e size last k) fits ends =
      let room : off + length src ≤ 16 = omega (arith, ap length e) in
      rw (low_not_static buffer last, low_not_heap buffer last)
        (rw (le→leb (off + length src) 16 room) (
          returns (record {
            opened =
                open_inline (ap (λ t. splice t off src) e)
                  (length-splice buffer off src (omega arith) ∙ size)
                  (last-splice buffer off src size last room ends) k;
            same = Same-refl refs h;
          })))
  write_at-Filled off src (open_heap {b} {bytes} tag w) fits ends =
      rw (tag_not_static b tag, tag_is_heap b tag, is_unique_open b tag w)
        (rw (write-refilled w off src fits) (
          returns (record {
            opened = open_heap tag (
                subst
                  (λ n.
                    Writable refs (refilled w (splice bytes off src)) b.ptr n
                      (splice bytes off src))
                  (sym (length-written w off src fits))
                  (refilled-Writable w (splice bytes off src) (length-written w off src fits)));
            same = refilled-Same w (splice bytes off src);
          })))

module _ {refs : ℕ → ℕ} {h : Heap} where
  -- A read within the buffer gives the bytes and changes nothing.
  pub read_at-bytes :
      {r : Repr} {bytes : Bytes} (off n : ℕ)
      → Open refs h r bytes
      → off + n ≤ length bytes
      → read_at off n (at_state r h) ≡ done (take n (drop off bytes)) (at_state r h)
  unfolding read_at
  read_at-bytes off n (open_inline {buffer} {bytes} e size last k) fits =
      rw (low_not_static buffer last, low_not_heap buffer last)
        (rw (le→leb (off + n) 16 (omega (arith, ap length e)))
          (ap (λ t. done (take n (drop off t)) (at_state (inline buffer) h)) (sym e)))
  read_at-bytes off n (open_heap {b} {bytes} tag w) fits =
      rw
        (
          tag_not_static b tag,
          tag_is_heap b tag,
          is_unique_open b tag w,
          block_at-some b.ptr h w.at,
        )
        (rw (le→leb (off + n) (length bytes) fits))

-- The length of an inline buffer.
pub InInline-set_len :
    (buffer text : Bytes)
    → IsUtf8 text
    → length buffer ≡ 16
    → length text ≤ 16
    → take (length text) buffer ≡ text
    → InInline (InlineBuffer.set_len buffer (length text)) text
unfolding InlineBuffer.set_len
InInline-set_len buffer text u size fits begins = elim (Bool-cases (ltb (length text) 16)) [
  | inl short ↦
      let n : length text < 16 = ltb→lt (length text) 16 short in
      let tagged = bit_or (length text) 0xC0 in
      rw short (record {
        size = length-splice buffer 15 (tagged ∷ []) (omega arith) ∙ size;
        fits = fits;
        begins =
            take-splice_le buffer 15 (tagged ∷ []) (length text) (omega arith) (omega arith)
            ∙ begins;
        short = λ _.
            get_or-splice_in buffer 15 (tagged ∷ []) 0 0 (omega arith) (omega arith)
            ∙ or_mask (length text) (omega arith);
        full = λ e. absurd (omega arith);
      })
  | inr full ↦
      let n : length text ≡ 16 = omega (arith, le_of_ltb-false (length text) 16 full) in
      let whole : buffer ≡ text = sym (take_all (length text) buffer (omega arith)) ∙ begins in
      rw full (record {
        size = size;
        fits = fits;
        begins = begins;
        short = λ lt. absurd (omega arith);
        full = λ e.
            subst (λ t. get_or t 15 0 < 0xC0) (sym whole)
              (EndsBelow-last text 15 (IsUtf8-EndsBelow u) e);
      })
]

module _ {refs : ℕ → ℕ} {h : Heap} {E : State → Type 0} where
  -- The first bytes of a buffer become the text.
  pub set_len-Keeps :
      {r : Repr} {bytes : Bytes} (text : Bytes)
      → Open refs h r bytes
      → IsUtf8 text
      → length text ≤ length bytes
      → take (length text) bytes ≡ text
      → Ends (λ _ s. Keeps refs mutable h text s) E (set_len (length text) (at_state r h))
  unfolding set_len
  set_len-Keeps text (open_inline {buffer} {bytes} e size last k) u fits begins =
      rw (low_not_heap buffer last) (
        returns (record {
          owns = record {
            valid = u;
            content = in_inline (
                InInline-set_len buffer text u size (omega (arith, ap length e))
                  (ap (take (length text)) (sym e) ∙ begins));
            counted = k;
          };
          same = Same-refl refs h;
        }))
  set_len-Keeps text (open_heap {b} {bytes} tag w) u fits begins =
      rw (tag_is_heap b tag, set_len_lem b (length text) h (omega (arith, w.limit)))
        (returns (record {
          owns = record {
            valid = u;
            content = in_heap (Writable-Holds w text fits begins);
            counted = w.counted;
          };
          same = Same-refl refs h;
        }))
