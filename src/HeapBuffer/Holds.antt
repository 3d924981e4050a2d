-- ===== src/HeapBuffer/Holds.antt =====
-- What it means that a heap buffer holds a text, and the reads of such a buffer.
use lean_string.Prelude.{
  ℕ, ◌+◌, ◌-◌, ◌≤◌, ◌≡◌, refl, ap, ◌∙◌, Option, none, some, arith, le→leb, ltb-false, ◌==◌, length,
  take,
}
use lean_string.Utf8.{Bytes}
use lean_string.LastByte.{isize_max, usize_max}
use lean_string.Memory.{ok, Block, Heap, done, block_at}
use lean_string.Memory.Counted.{count_in, View, view, block}
use lean_string.HeapBuffer.{
  HeapBuffer, Mutability, mutable, immutable, header_offset, new_header, layout_for, len, capacity,
  is_unique, read_bytes, as_str, write_bytes, own_layout, alloc_layout,
}
use lean_string.HeapBuffer.TextLen.{max_len, tag}
use lean_string.HeapBuffer.TextLen.Words.{as_usize_tagged}

-- An exact allocation is as long as its text.
abbrev pub Fills : Mutability → ℕ → ℕ → Type 0
Fills mutable cap n = Unit {0}
Fills immutable cap n = cap ≡ n

-- `b` points to a live allocation of its kind, whose first bytes are `text`.
pub record Holds (m : Mutability) (h : Heap) (b : HeapBuffer) (text : Bytes) : Type 0 where
  pub cap : ℕ
  pub bytes : Bytes
  pub at : view (h b.ptr) ≡ some (new_header m cap, header_offset m + cap, bytes)
  pub room : length bytes ≡ cap
  pub word : b.len ≡ length text + tag
  pub begins : take (length text) bytes ≡ text
  pub fits : length text ≤ cap
  pub limit : cap ≤ max_len
  pub fills : Fills m cap (length text)

pub layout_lem :
    (m : Mutability) (cap : ℕ) → cap ≤ max_len → layout_for m cap ≡ ok (header_offset m + cap)
unfolding layout_for
layout_lem mutable cap h =
    rw (ltb-false usize_max (16 + cap) (omega arith))
      (rw (ltb-false (isize_max - 7) (16 + cap) (omega arith)))
layout_lem immutable cap h =
    rw (ltb-false usize_max (8 + cap) (omega arith))
      (rw (ltb-false (isize_max - 7) (8 + cap) (omega arith)))

block_at_cell :
    (p : ℕ) (h : Heap) (c : Option Block) {v : View}
    → h p ≡ c
    → view c ≡ some v
    → block_at p h ≡ done (block (count_in c) v) h
unfolding block_at
block_at_cell p h none e w = cc
block_at_cell p h (some blk) {v} e w = ground arith

pub block_at-some :
    (p : ℕ) (h : Heap) {v : View}
    → view (h p) ≡ some v
    → block_at p h ≡ done (block (count_in (h p)) v) h
block_at-some p h e = block_at_cell p h (h p) refl e

module _ {m : Mutability} {h : Heap} {b : HeapBuffer} {text : Bytes} (o : Holds m h b text) where
  pub the_block :
      block_at b.ptr h
      ≡ done (block (count_in (h b.ptr)) (new_header m o.cap, header_offset m + o.cap, o.bytes)) h
  the_block = block_at-some b.ptr h o.at

  pub len_lem : len b ≡ length text
  len_lem =
      ap lean_string.HeapBuffer.TextLen.as_usize o.word
      ∙ as_usize_tagged (length text) (omega (arith, o.fits, o.limit))

  pub as_str_lem : as_str b h ≡ done text h
  unfolding as_str
  as_str_lem =
      rw (the_block, len_lem)
        (rw (le→leb (length text) (length o.bytes) (omega (arith, o.fits, o.room))) (rw o.begins))

  pub is_unique_lem : is_unique b h ≡ done (count_in (h b.ptr) == 1) h
  unfolding is_unique
  is_unique_lem = rw the_block

  unfoldable pub Holds-look : (g : Heap) → view (g b.ptr) ≡ view (h b.ptr) → Holds m g b text
  Holds-look g e = record {
    cap = o.cap;
    bytes = o.bytes;
    at = e ∙ o.at;
    room = o.room;
    word = o.word;
    begins = o.begins;
    fits = o.fits;
    limit = o.limit;
    fills = o.fills;
  }

  own_layout_lem : own_layout m b (new_header m o.cap) ≡ ok (header_offset m + o.cap)
  own_layout_lem = own m o.cap o.limit o.fills
    where
      own :
          (k : Mutability) (cap : ℕ)
          → cap ≤ max_len
          → Fills k cap (length text)
          → own_layout k b (new_header k cap) ≡ ok (header_offset k + cap)
      own mutable cap l f = layout_lem mutable cap l
      own immutable cap l f = rw (len_lem, ← f) (layout_lem immutable cap l)

  pub alloc_layout_lem : alloc_layout m b h ≡ done (header_offset m + o.cap) h
  unfolding alloc_layout
  alloc_layout_lem = rw (the_block, own_layout_lem)

pub capacity_lem :
    {h : Heap} {b : HeapBuffer} {text : Bytes} (o : Holds mutable h b text)
    → capacity b h ≡ done o.cap h
unfolding capacity
capacity_lem o = rw (the_block o)
