-- ===== src/Repr/Queries.antt =====
-- Reads of a sound string: the kind of buffer, the length and the bytes.
use Prim.Native.Nat.{bit_and}
use lean_string.Prelude.{
  ℕ, ◌+◌, ◌-◌, ◌*◌, ◌/◌, ◌%◌, ◌^◌, ◌≤◌, ◌<◌, ◌≡◌, refl, sym, ap, ◌∙◌, ◌⊎◌, inl, inr, Bool, true,
  false, not, ◌&&◌, Option, none, some, arith, ltb, leb, le→leb, ltb-false, leb-false, ◌==◌, ==_iff,
  Bool-cases, if◌then◌else◌, length, take, get_or,
}
use lean_string.Prelude.Bits.{pow2, and_low}
use lean_string.Utf8.{Bytes}
use lean_string.LastByte.{is_last_byte}
use lean_string.Memory.{Heap, done}
use lean_string.Memory.Counted.{count_in}
use lean_string.HeapBuffer
use lean_string.HeapBuffer.{HeapBuffer, Mutability, mutable}
use lean_string.HeapBuffer.Holds
use lean_string.HeapBuffer.Holds.{Holds}
use lean_string.InlineBuffer.{InlineBuffer}
use lean_string.StaticBuffer
use lean_string.StaticBuffer.{StaticBuffer}
use lean_string.Repr.{
  Repr, inline, heap, static, is_heap_buffer, is_inline_buffer, last_byte, is_static_buffer, len,
  as_bytes, is_unique, is_modifiable, capacity, spare_capacity,
}
use lean_string.Repr.Owns.{InInline, InStatic, Content, in_inline, in_heap, in_static}

-- The tag of each kind, as read off the last byte.
module _ {buffer : InlineBuffer} {text : Bytes} (c : InInline buffer text) where
  pub last_inline : get_or buffer 15 0 < 0xD0
  last_inline = elim (Bool-cases (ltb (length text) 16)) [
    | inl short ↦ omega (
      arith,
      c.short (lean_string.Prelude.ltb→lt (length text) 16 short),
      lean_string.Prelude.ltb→lt (length text) 16 short,
    )
    | inr full ↦ omega (arith, c.full (ground (arith, c.fits)))
  ]

  pub inline_not_heap : is_heap_buffer (inline buffer) ≡ false
  unfolding is_heap_buffer
  inline_not_heap = ground (arith, last_inline)

  pub inline_not_static : is_static_buffer (inline buffer) ≡ false
  unfolding is_static_buffer
  inline_not_static = ground (arith, last_inline)

  -- The length of a short text is in the last byte; any end of a full text reads as sixteen.
  pub len-inline : len (inline buffer) ≡ length text
  unfolding len
  len-inline = ground (arith, last_inline, c.short, c.full, c.fits)

module _ {m : Mutability} {h : Heap} {b : HeapBuffer} {text : Bytes} (o : Holds m h b text) where
  pub tag_heap : b.len / 2 ^ 56 ≡ 0xD0
  tag_heap = omega (arith, o.word, o.fits, o.limit)

  pub heap_is_heap : is_heap_buffer (heap b) ≡ true
  unfolding is_heap_buffer
  heap_is_heap = ground (arith, tag_heap)

  pub heap_not_static : is_static_buffer (heap b) ≡ false
  unfolding is_static_buffer
  heap_not_static = ground (arith, tag_heap)

  pub len-heap : len (heap b) ≡ length text
  unfolding len
  len-heap =
      rw (tag_heap, o.word)
        (ap (λ w. bit_and w 0x00FF_FFFF_FFFF_FFFF) {y = length text + pow2 56 * 0xD0} (omega arith)
          ∙ and_low 56 (length text) 0xD0 (omega (arith, o.fits, o.limit)))

module _ {s : StaticBuffer} {text : Bytes} (o : InStatic s text) where
  pub tag_static : s.word / 2 ^ 56 ≡ 0xD1
  tag_static = omega (arith, o.word, o.limit)

  pub static_not_heap : is_heap_buffer (static s) ≡ false
  unfolding is_heap_buffer
  static_not_heap = ground (arith, tag_static)

  pub static_is_static : is_static_buffer (static s) ≡ true
  unfolding is_static_buffer
  static_is_static = ground (arith, tag_static)

  pub len-static : len (static s) ≡ length text
  unfolding len
  len-static =
      rw (tag_static, o.word)
        (ap (λ w. bit_and w 0x00FF_FFFF_FFFF_FFFF) {y = length text + pow2 56 * 0xD1} (omega arith)
          ∙ and_low 56 (length text) 0xD1 (omega (arith, o.limit)))

-- The length is read right, whichever buffer it is.
pub len_lem :
    {m : Mutability} {h : Heap} {r : Repr} {text : Bytes} → Content m h r text → len r ≡ length text
len_lem (in_inline c) = len-inline c
len_lem (in_heap c) = len-heap c
len_lem (in_static c) = len-static c

-- Of every sound string `as_bytes` reads exactly the text, within the bounds of its memory, and
-- changes nothing.
pub as_bytes_lem :
    {m : Mutability} {h : Heap} {r : Repr} {text : Bytes}
    → Content m h r text
    → as_bytes r h ≡ done text h
unfolding as_bytes
as_bytes_lem (in_inline {buffer} {text} c) =
    rw (len-inline c, leb-false 0xD0 (get_or buffer 15 0) (last_inline c))
      (rw (le→leb (length text) (length buffer) (omega (arith, c.fits, c.size))) (rw c.begins))
as_bytes_lem {h} (in_heap {b} {text} c) =
    rw (len-heap c, tag_heap c)
      (ap (λ n. HeapBuffer.read_bytes b.ptr n h) (sym (Holds.len_lem c))
        ∙ unfold HeapBuffer.as_str in Holds.as_str_lem c)
as_bytes_lem (in_static {s} {text} c) =
    rw (len-static c, tag_static c)
      (rw (le→leb (length text) (length s.memory) c.fits) (rw c.begins))

pub is_unique_heap :
    {m : Mutability} {h : Heap} {b : HeapBuffer} {text : Bytes}
    → Holds m h b text
    → is_unique (heap b) h ≡ done (count_in (h b.ptr) == 1) h
unfolding is_unique
is_unique_heap c = rw (heap_is_heap c) (Holds.is_unique_lem c)

-- Whether nothing else refers to the buffer, and whether it may be written to.
abbrev pub unique : Repr → Heap → Bool
unique (inline buffer) h = true
unique (heap b) h = count_in (h b.ptr) == 1
unique (static s) h = true

abbrev pub modifiable : Repr → Heap → Bool
modifiable (inline buffer) h = true
modifiable (heap b) h = count_in (h b.ptr) == 1
modifiable (static s) h = false

pub is_unique_lem :
    {m : Mutability} {h : Heap} {r : Repr} {text : Bytes}
    → Content m h r text
    → is_unique r h ≡ done (unique r h) h
unfolding is_unique
is_unique_lem (in_inline c) = rw (inline_not_heap c)
is_unique_lem (in_heap c) = is_unique_heap c
is_unique_lem (in_static c) = rw (static_not_heap c)

pub is_modifiable_lem :
    {m : Mutability} {h : Heap} {r : Repr} {text : Bytes}
    → Content m h r text
    → is_modifiable r h ≡ done (modifiable r h) h
unfolding is_modifiable
is_modifiable_lem {m} {h} (in_inline c) =
    rw (is_unique_lem {m = m} {h = h} (in_inline c), inline_not_static c)
is_modifiable_lem (in_heap c) = rw (is_unique_heap c, heap_not_static c)
is_modifiable_lem {m} {h} (in_static c) =
    rw (is_unique_lem {m = m} {h = h} (in_static c), static_is_static c)

-- How many bytes the buffer can hold.
abbrev pub capacity_of : {h : Heap} {r : Repr} {text : Bytes} → Content mutable h r text → ℕ
capacity_of (in_inline c) = 16
capacity_of (in_heap c) = c.cap
capacity_of (in_static {text} c) = length text

pub capacity_lem :
    {h : Heap} {r : Repr} {text : Bytes} (c : Content mutable h r text)
    → capacity r h ≡ done (capacity_of c) h
unfolding capacity
capacity_lem (in_inline c) = rw (inline_not_heap c, inline_not_static c)
capacity_lem (in_heap c) = rw (heap_is_heap c) (Holds.capacity_lem c)
capacity_lem {h} (in_static {s} {text} c) =
    rw (static_not_heap c, static_is_static c)
      (ap (λ n. done n h) (StaticBuffer.len_lem s (length text) c.word c.limit))

pub spare_capacity_lem :
    {h : Heap} {r : Repr} {text : Bytes} (c : Content mutable h r text)
    → spare_capacity r h ≡ done (capacity_of c - length text) h
unfolding spare_capacity
spare_capacity_lem (in_inline c) = rw (inline_not_heap c, inline_not_static c, len-inline c)
spare_capacity_lem (in_heap c) = rw (heap_is_heap c, Holds.capacity_lem c, len-heap c)
spare_capacity_lem {h} (in_static c) =
    rw (static_not_heap c, static_is_static c) (ap (λ n. done n h) (omega arith))

-- Which of the three tests of the last byte hold.
abbrev pub Discriminated : Repr → Type 0
Discriminated (inline buffer) =
    (is_inline_buffer (inline buffer) ≡ true)
    × ((is_heap_buffer (inline buffer) ≡ false) × (is_static_buffer (inline buffer) ≡ false))
Discriminated (heap b) =
    (is_inline_buffer (heap b) ≡ false)
    × ((is_heap_buffer (heap b) ≡ true) × (is_static_buffer (heap b) ≡ false))
Discriminated (static s) =
    (is_inline_buffer (static s) ≡ false)
    × ((is_heap_buffer (static s) ≡ false) × (is_static_buffer (static s) ≡ true))

-- Of every sound string the last byte is a value of the enum `LastByte`, and exactly one of the
-- three discriminant tests holds, the one for the buffer that the string has.
pub last_byte-valid :
    {m : Mutability} {h : Heap} {r : Repr} {text : Bytes}
    → Content m h r text
    → (is_last_byte (last_byte r) ≡ true) × Discriminated r
unfolding is_last_byte is_heap_buffer is_static_buffer is_inline_buffer
last_byte-valid (in_inline {buffer} c) = ground (arith, last_inline c)
last_byte-valid (in_heap c) = rw (tag_heap c) (refl, (refl, (refl, refl)))
last_byte-valid (in_static c) = rw (tag_static c) (refl, (refl, (refl, refl)))
