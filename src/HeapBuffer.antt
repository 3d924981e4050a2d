-- ===== src/HeapBuffer.antt =====
-- src/repr/heap_buffer.rs: a pointer to a shared allocation and a tagged length. A pointer names the
-- allocation; what lies before the bytes in memory (the header) is the block's other fields.
pub mod TextLen
pub mod Capacity
pub mod Holds
pub mod Alloc
pub mod Release
pub mod Build
pub mod Write
pub mod Realloc
pub mod Convert
use Prim.Native.Nat.{min}
use lean_string.Prelude.{
  ℕ, ◌+◌, ◌-◌, ◌*◌, ◌%◌, ◌^◌, ◌≤◌, ◌<◌, ◌≡◌, Bool, true, false, Option, none, some, List, ◌++◌, not,
  ◌&&◌, arith, ltb, leb, ◌==◌, if◌then◌else◌, length, take, drop,
}
use lean_string.Prelude.Splice.{splice}
use lean_string.Utf8.{Bytes}
use lean_string.LastByte.{isize_max, usize_max, max_inline_size}
use lean_string.Memory.{
  Result, ok, err, reserve_error, Header, growable, exact, Block, Heap, put, Allocator, Outcome,
  done, failed, panicked, fault, M, pure, fail, panic, undefined, lift, and_then, ◌>>=◌, ◌>>◌,
  block_at, set_block, free_block,
}

pub record HeapBuffer : Type 0 where
  pub ptr : ℕ
  pub len : ℕ

-- Which header an allocation has: `GrowableHeader` for `Mutable`, `ExactHeader` for `Immutable`.
pub data Mutability : Type 0 where
  mutable immutable : Mutability

-- `HeapBuffer::header_offset`, the larger of the header's size and a word
abbrev pub header_offset : Mutability → ℕ
header_offset mutable = 16
header_offset immutable = 8

-- `Header::new`
abbrev pub new_header : Mutability → ℕ → Header
new_header mutable capacity = growable capacity
new_header immutable capacity = exact

-- `Layout::from_size_align` with the alignment of a word
abbrev pub from_size : ℕ → Result ℕ
from_size size = if ltb (isize_max - 7) size then err reserve_error else ok size

-- `usize::checked_add`
abbrev pub checked_add : ℕ → ℕ → Result ℕ
checked_add a b = if ltb usize_max (a + b) then err reserve_error else ok (a + b)

abbrev pub and_result : Result ℕ → (ℕ → Result ℕ) → Result ℕ
and_result (ok n) f = f n
and_result (err e) f = err e

-- `HeapBuffer::layout_for`
unfoldable pub layout_for : Mutability → ℕ → Result ℕ
layout_for m capacity = and_result (checked_add (header_offset m) capacity) from_size

-- `HeapBuffer::is_len_on_heap`
abbrev pub is_len_on_heap : HeapBuffer → Bool
is_len_on_heap b = TextLen.is_heap b.len

-- `HeapBuffer::len`: the length is never stored on the heap
abbrev pub len : HeapBuffer → ℕ
len b = TextLen.as_usize b.len

-- A growable header's capacity; a read through the wrong header type is a fault.
abbrev pub read_capacity : Header → M Heap ℕ
read_capacity (growable c) = pure c
read_capacity exact = undefined

-- `HeapBuffer::capacity`
unfoldable pub capacity : HeapBuffer → M Heap ℕ
capacity b = do blk ← block_at b.ptr; read_capacity blk.header

-- `HeapBuffer::is_unique`
unfoldable pub is_unique : HeapBuffer → M Heap Bool
is_unique b = do blk ← block_at b.ptr; pure (blk.count == 1)

-- The first `n` bytes behind the pointer, which have to lie in the allocation.
abbrev pub read_bytes : ℕ → ℕ → M Heap Bytes
read_bytes p n = do
  blk ← block_at p
  if leb n (length blk.bytes) then pure (take n blk.bytes) else undefined

-- `HeapBuffer::as_str`
unfoldable pub as_str : HeapBuffer → M Heap Bytes
as_str b = read_bytes b.ptr (len b)

-- `copy_nonoverlapping(src, ptr.add(off), src.len())`
unfoldable pub write_bytes : ℕ → ℕ → Bytes → M Heap (Unit {0})
write_bytes p off src = do
  blk ← block_at p
  if leb (off + length src) (length blk.bytes)
      then set_block p (record blk { bytes = splice blk.bytes off src })
      else undefined

-- The header type's `layout` of a live buffer.
abbrev pub own_layout : Mutability → HeapBuffer → Header → Result ℕ
own_layout mutable b (growable c) = layout_for mutable c
own_layout mutable b exact = err reserve_error
own_layout immutable b hd = layout_for immutable (len b)

abbrev pub or_unreachable : Result ℕ → M Heap ℕ
or_unreachable (ok n) = pure n
or_unreachable (err e) = undefined

-- `HeapBuffer::alloc_layout`
unfoldable pub alloc_layout : Mutability → HeapBuffer → M Heap ℕ
alloc_layout m b = do blk ← block_at b.ptr; or_unreachable (own_layout m b blk.header)

-- `HeapBuffer::dealloc`: the allocator is given the layout of the allocation, or it is a fault.
unfoldable pub dealloc : Mutability → HeapBuffer → M Heap (Unit {0})
dealloc m b = do
  layout ← alloc_layout m b
  blk ← block_at b.ptr
  if blk.size == layout then free_block b.ptr else undefined

-- `fetch_sub(1)` on a word that wraps around
abbrev pub minus_one : ℕ → ℕ
minus_one n = (n + usize_max) % 2 ^ 64

-- `HeapBuffer::release`
unfoldable pub release : Mutability → HeapBuffer → M Heap (Unit {0})
release m b = do
  blk ← block_at b.ptr
  set_block b.ptr (record blk { count = minus_one blk.count })
  if blk.count == 1 then dealloc m b else pure tt

-- A part of an allocation's bytes, initialised or not.
abbrev pub read_range : ℕ → ℕ → ℕ → M Heap Bytes
read_range p off n = do
  blk ← block_at p
  if leb (off + n) (length blk.bytes) then pure (take n (drop off blk.bytes)) else undefined

-- What a closure makes of the first `len` bytes behind a pointer, whatever they are before.
abbrev pub fill : ℕ → ℕ → (Bytes → Bytes) → M Heap (Unit {0})
fill p len init = do dst ← read_range p 0 len; write_bytes p 0 (init dst)

module _ ⦃A : Allocator⦄ where
  -- `alloc`, and the header written into the new allocation
  abbrev pub alloc_block : Mutability → ℕ → ℕ → Option ℕ → M Heap ℕ
  alloc_block m capacity layout none = fail
  alloc_block m capacity layout (some p) = do
    set_block p (record {
      count = 1;
      header = new_header m capacity;
      size = layout;
      bytes = A.garbage p (layout - header_offset m);
    })
    pure p

  -- `HeapBuffer::allocate_ptr`
  unfoldable pub allocate_ptr : Mutability → ℕ → M Heap ℕ
  allocate_ptr m size = do
    capacity ← lift (Capacity.new size)
    layout ← lift (layout_for m capacity)
    λ h. alloc_block m capacity layout (A.place h layout) h

  -- `HeapBuffer::new_uninit`
  unfoldable pub new_uninit : Mutability → ℕ → M Heap HeapBuffer
  new_uninit m len = do
    text_len ← lift (TextLen.new len)
    p ← allocate_ptr m len
    pure (record { ptr = p; len = text_len })

  -- The copies of `HeapBuffer::new`: one of the whole text, or two of a fixed size from either end.
  unfoldable pub copy_text : ℕ → Bytes → M Heap (Unit {0})
  copy_text p text =
      let n = length text in
      let small = max_inline_size in
      if not (leb small n && leb n (4 * small))
      then write_bytes p 0 text
      else if leb (2 * small) n
      then (do
        write_bytes p 0 (take (2 * small) text)
        write_bytes p (n - 2 * small) (take (2 * small) (drop (n - 2 * small) text)))
      else do
        write_bytes p 0 (take small text)
        write_bytes p (n - small) (take small (drop (n - small) text))

  -- `HeapBuffer::new`
  unfoldable pub new : Mutability → Bytes → M Heap HeapBuffer
  new m text = do buffer ← new_uninit m (length text); copy_text buffer.ptr text; pure buffer

  -- `HeapBuffer::with_capacity`
  unfoldable pub with_capacity : ℕ → M Heap HeapBuffer
  with_capacity capacity = do
    text_len ← lift (TextLen.new 0)
    p ← allocate_ptr mutable capacity
    pure (record { ptr = p; len = text_len })

abbrev pub tagged : Result ℕ → HeapBuffer → M Heap HeapBuffer
tagged (ok w) b = pure (record b { len = w })
tagged (err e) b = undefined

-- `HeapBuffer::set_len`
unfoldable pub set_len : HeapBuffer → ℕ → M Heap HeapBuffer
set_len b len = tagged (TextLen.new len) b

module _ ⦃A : Allocator⦄ where
  -- `HeapBuffer::from_str_with_capacity`
  unfoldable pub from_str_with_capacity : Bytes → ℕ → M Heap HeapBuffer
  from_str_with_capacity text capacity = do
    buffer ← with_capacity capacity
    write_bytes buffer.ptr 0 text
    set_len buffer (length text)

  -- The bytes of an allocation moved to one of another size.
  abbrev pub resize : ℕ → Bytes → ℕ → Bytes
  resize q bytes n = take n bytes ++ A.garbage q (n - length bytes)

  abbrev pub move_block : HeapBuffer → Block → ℕ → ℕ → Option ℕ → M Heap HeapBuffer
  move_block b blk capacity size none = fail
  move_block b blk capacity size (some q) = do
    free_block b.ptr
    set_block q (record {
      count = 1;
      header = growable capacity;
      size = size;
      bytes = resize q blk.bytes (size - header_offset mutable);
    })
    pure (record b { ptr = q })

  -- `HeapBuffer::realloc`: on a null pointer the old allocation stays as it is.
  unfoldable pub realloc : HeapBuffer → ℕ → M Heap HeapBuffer
  realloc b new_capacity = do
    capacity ← lift (Capacity.new new_capacity)
    cur_layout ← alloc_layout mutable b
    blk ← block_at b.ptr
    let size = (header_offset mutable + capacity) % 2 ^ 64
    if blk.size == cur_layout
        then (λ h. move_block b blk capacity size (A.move_to h b.ptr size) h)
        else undefined
