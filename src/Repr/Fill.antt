-- ===== src/Repr/Fill.antt =====
-- A text written behind, or into, the text of a buffer with room for it.
use lean_string.Prelude.{
  ℕ, ◌+◌, ◌-◌, ◌≤◌, ◌≡◌, refl, sym, ap, subst, ◌∙◌, true, ◌++◌, arith, length, length-append,
  length-drop, take, drop, take-take, drop-take,
}
use lean_string.Prelude.Splice.{
  splice, length-splice, length-take_le, take-splice_end, take-splice-splice,
}
use lean_string.Utf8.{Bytes, IsUtf8}
use lean_string.Utf8.Shape.{EndsBelow-drop, IsUtf8-EndsBelow, IsUtf8-append, Halves}
use lean_string.Memory.{Heap, done, ◌>>◌}
use lean_string.Memory.Ends.{Ends, bind, weaken}
use lean_string.Memory.Counted.{Counted, Same, Same-trans}
use lean_string.HeapBuffer.{mutable}
use lean_string.HeapBuffer.Write.{Writable, Holds-Writable}
use lean_string.Repr.{Repr, State}
use lean_string.Repr.Edit.{write_at, read_at, set_len, fill_gap, open_gap}
use lean_string.Repr.Owns.{Content, in_inline, in_heap, in_static, with_self, Keeps}
use lean_string.Repr.Queries.{last_inline, tag_heap, modifiable, capacity_of}
use lean_string.Repr.Place.{
  Open, open_inline, open_heap, at_state, write_at-Filled, read_at-bytes, set_len-Keeps,
}
use lean_string.Repr.Grow.{alone_of_unique}

-- The buffer is open for writing and begins with the text.
pub record Ready (refs : ℕ → ℕ) (h : Heap) (text : Bytes) (cap : ℕ) (r : Repr) : Type 0 where
  pub bytes : Bytes
  pub opened : Open refs h r bytes
  pub begins : take (length text) bytes ≡ text
  pub room : cap ≤ length bytes

pub Content-Ready :
    {refs : ℕ → ℕ} {h : Heap} {r : Repr} {text : Bytes} (c : Content mutable h r text)
    → Counted (with_self refs r) h
    → modifiable r h ≡ true
    → Ready refs h text (capacity_of c) r
Content-Ready (in_inline {buffer} c) k own = record {
  bytes = buffer;
  opened = open_inline refl c.size (last_inline c) k;
  begins = c.begins;
  room = omega (arith, c.size);
}
Content-Ready {refs} {h} (in_heap {b} c) k own =
    let w = Holds-Writable c k (alone_of_unique refs b.ptr k own) in
    record {
      bytes = c.bytes;
      opened = open_heap (tag_heap c) (subst (λ n. Writable refs h b.ptr n c.bytes) (sym c.room) w);
      begins = c.begins;
      room = omega (arith, c.room);
    }
Content-Ready (in_static c) k own = absurd cc

module _ {refs : ℕ → ℕ} {h g : Heap} {text : Bytes} {s : State} where
  pub Keeps-after : Same refs h g → Keeps refs mutable g text s → Keeps refs mutable h text s
  Keeps-after same k = record { owns = k.owns; same = Same-trans same k.same }

module _ {refs : ℕ → ℕ} {h : Heap} {E : State → Type 0} {r : Repr} {text src : Bytes}
    (u : IsUtf8 text) (v : IsUtf8 src) (q : Ready refs h text (length text + length src) r) where
  pub append-Keeps :
      Ends
        (λ _ s. Keeps refs mutable h (text ++ src) s)
        E
        ((write_at (length text) src >> set_len (length text + length src)) (at_state r h))
  append-Keeps =
      bind (write_at-Filled {E = E} (length text) src q.opened q.room (IsUtf8-EndsBelow v)) λ _ s f.
        let n : length (text ++ src) ≡ length text + length src = length-append text src in
        weaken
          (subst (λ k. Ends (λ _ t. Keeps refs mutable s.heap (text ++ src) t) E (set_len k s)) n
            (set_len-Keeps (text ++ src) f.opened (IsUtf8-append u v)
              (omega (arith, n, q.room, length-splice q.bytes (length text) src q.room))
              (ap (λ k. take k (splice q.bytes (length text) src)) n
                ∙ take-splice_end q.bytes (length text) src q.room
                ∙ ap (λ t. t ++ src) q.begins)))
          (λ _ t k. Keeps-after f.same k) (λ t e. e)

-- The text with `src` in place of what lies between `idx` and `stop`.
abbrev pub replaced_at : ℕ → ℕ → Bytes → Bytes → Bytes
replaced_at idx stop src text = take idx text ++ (src ++ drop stop text)

-- The text with `src` put in at `idx`.
abbrev pub inserted_at : ℕ → Bytes → Bytes → Bytes
inserted_at idx src text = replaced_at idx idx src text

pub length-replaced :
    (idx stop : ℕ) (src text : Bytes)
    → idx ≤ length text
    → length (replaced_at idx stop src text) ≡ idx + length src + (length text - stop)
length-replaced idx stop src text fits = omega (
  arith,
  length-append (take idx text) (src ++ drop stop text),
  length-append src (drop stop text),
  length-take_le idx text fits,
  length-drop stop text,
)

pub replaced-IsUtf8 :
    {text src : Bytes} (idx stop : ℕ)
    → IsUtf8 src
    → Halves text idx
    → Halves text stop
    → IsUtf8 (replaced_at idx stop src text)
replaced-IsUtf8 idx stop v i j = IsUtf8-append i.left (IsUtf8-append v j.right)

module _ {refs : ℕ → ℕ} {h : Heap} {r : Repr} {text src : Bytes} {cap : ℕ} (idx stop : ℕ)
    (u : IsUtf8 text) (v : IsUtf8 src) (i : Halves text idx) (j : Halves text stop)
    (q : Ready refs h text cap r) (enough : length text ≤ cap)
    (room : idx + length src + (length text - stop) ≤ cap) where
  moved_tail : take (length text - stop) (drop stop q.bytes) ≡ drop stop text
  moved_tail =
      sym (drop-take stop (length text - stop) q.bytes)
      ∙ ap (λ n. drop stop (take n q.bytes)) {y = length text} (omega (arith, j.fits))
      ∙ ap (drop stop) q.begins

  tail_len : length (drop stop text) ≡ length text - stop
  tail_len = length-drop stop text

  size : length (replaced_at idx stop src text) ≡ idx + length src + (length text - stop)
  size = length-replaced idx stop src text i.fits

  filled_gap :
      take
        (length (replaced_at idx stop src text))
        (splice (splice q.bytes (idx + length src) (drop stop text)) idx src)
      ≡ replaced_at idx stop src text
  filled_gap =
      ap (λ n. take n (splice (splice q.bytes (idx + length src) (drop stop text)) idx src))
        {y = idx + length src + length (drop stop text)} (omega (arith, tail_len, size))
      ∙ take-splice-splice q.bytes idx src (drop stop text) (omega (arith, tail_len, room, q.room))
      ∙ ap (λ t. t ++ (src ++ drop stop text))
          (sym (take-take idx (length text) q.bytes i.fits) ∙ ap (take idx) q.begins)

  -- The tail is moved to its place before the gap is filled.
  pub fill_gap-Keeps :
      {E : State → Type 0} (n : ℕ)
      → n ≡ idx + length src + (length text - stop)
      → Ends
          (λ _ s. Keeps refs mutable h (replaced_at idx stop src text) s)
          E
          (fill_gap (length text) idx stop src n (at_state r h))
  fill_gap-Keeps {E} n e =
      let fits : idx + length src + length (drop stop text) ≤ length q.bytes =
        omega (arith, tail_len, room, q.room) in
      let once = splice q.bytes (idx + length src) (drop stop text) in
      let len_once : length once ≡ length q.bytes =
        length-splice q.bytes (idx + length src) (drop stop text) fits in
      let new_size : length (replaced_at idx stop src text) ≡ n = size ∙ sym e in
      rw
        (
          read_at-bytes stop (length text - stop) q.opened (omega (arith, j.fits, enough, q.room)),
          moved_tail,
        )
        (bind
          (write_at-Filled {E = E} (idx + length src) (drop stop text) q.opened fits
            (EndsBelow-drop stop text (IsUtf8-EndsBelow u)))
          λ _ s f.
            bind
              (write_at-Filled {E = E} idx src f.opened (omega (arith, len_once, fits))
                (IsUtf8-EndsBelow v))
              λ _ s' f'.
                weaken
                  (subst
                    (λ k.
                      Ends (λ _ t. Keeps refs mutable s'.heap (replaced_at idx stop src text) t) E
                        (set_len k s'))
                    new_size
                    (set_len-Keeps (replaced_at idx stop src text) f'.opened
                      (replaced-IsUtf8 idx stop v i j)
                      (omega (
                        arith,
                        size,
                        len_once,
                        room,
                        q.room,
                        length-splice once idx src (omega (arith, len_once, fits)),
                      ))
                      filled_gap))
                  (λ _ t k. Keeps-after (Same-trans f.same f'.same) k) (λ t e. e))

module _ {refs : ℕ → ℕ} {h : Heap} {r : Repr} {text src : Bytes} (idx : ℕ) (u : IsUtf8 text)
    (v : IsUtf8 src) (i : Halves text idx)
    (q : Ready refs h text (length text + length src) r) where
  pub open_gap-Keeps :
      {E : State → Type 0}
      → Ends
          (λ _ s. Keeps refs mutable h (inserted_at idx src text) s)
          E
          (open_gap (length text) idx src (at_state r h))
  open_gap-Keeps =
      fill_gap-Keeps idx idx u v i i q (omega arith) (omega (arith, i.fits))
        (length text + length src) (omega (arith, i.fits))

-- A read within the text.
pub Ready-read :
    {refs : ℕ → ℕ} {h : Heap} {r : Repr} {text : Bytes} {cap : ℕ} (off n : ℕ)
    (q : Ready refs h text cap r)
    → off + n ≤ length text
    → length text ≤ cap
    → read_at off n (at_state r h) ≡ done (take n (drop off text)) (at_state r h)
Ready-read {h} {r} {text} off n q fits small =
    read_at-bytes off n q.opened (omega (arith, q.room))
    ∙ ap (λ t. done t (at_state r h))
        (sym (drop-take off n q.bytes)
          ∙ ap (drop off)
              (sym (take-take (off + n) (length text) q.bytes fits) ∙ ap (take (off + n)) q.begins)
          ∙ drop-take off n text)
