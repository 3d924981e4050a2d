-- ===== src/HeapBuffer/Convert.antt =====
-- `HeapBuffer::into_exact` and `HeapBuffer::into_growable`: the allocation is kept, its header is
-- exchanged, and the bytes move with it. A failure leaves the buffer that was given.
pub mod Change
use lean_string.Prelude.{
  ℕ, ◌+◌, List, ◌++◌, Option, none, some, leb, ◌==◌, ◌&&◌, if◌then◌else◌, length, take, drop,
}
use lean_string.Prelude.Splice.{splice}
use lean_string.Prelude.LittleEndian.{to_le}
use lean_string.Utf8.{Bytes}
use lean_string.Memory.{
  Header, growable, exact, Block, Heap, Allocator, M, pure, fail, undefined, lift, ◌>>=◌, ◌>>◌,
  block_at, set_block, free_block,
}
use lean_string.HeapBuffer.{
  HeapBuffer, Mutability, mutable, immutable, header_offset, len, layout_for, alloc_layout,
  read_capacity, resize,
}

-- The words of a header.
header_bytes : ℕ → Header → Bytes
header_bytes count (growable capacity) = to_le 8 count ++ to_le 8 capacity
header_bytes count exact = to_le 8 count

-- All bytes of an allocation, those of the header included.
unfoldable pub memory_of : Block → Bytes
unfolding header_bytes
memory_of blk = header_bytes blk.count blk.header ++ blk.bytes

-- `ptr::copy` within an allocation
abbrev pub copy_within : Bytes → ℕ → ℕ → ℕ → Bytes
copy_within memory from to n = splice memory to (take n (drop from memory))

module _ ⦃A : Allocator⦄ where
  -- What `realloc` answers to `into_exact`. On a null pointer the bytes move back, and the header is
  -- written again.
  abbrev pub exact_block : HeapBuffer → ℕ → ℕ → ℕ → ℕ → Bytes → Option ℕ → M Heap HeapBuffer
  exact_block b text_len old_capacity old_size new_size moved none = do
    set_block b.ptr (record {
      count = 1;
      header = growable old_capacity;
      size = old_size;
      bytes =
          drop (header_offset mutable)
            (copy_within moved (header_offset immutable) (header_offset mutable) text_len);
    })
    fail
  exact_block b text_len old_capacity old_size new_size moved (some q) = do
    free_block b.ptr
    set_block q (record {
      count = 1;
      header = exact;
      size = new_size;
      bytes = drop (header_offset immutable) (resize q moved new_size);
    })
    pure (record b { ptr = q })

  -- `HeapBuffer::into_exact`
  unfoldable pub into_exact : HeapBuffer → M Heap HeapBuffer
  into_exact b = do
    blk ← block_at b.ptr
    old_capacity ← read_capacity blk.header
    old_layout ← alloc_layout mutable b
    new_layout ← lift (layout_for immutable (len b))
    let memory = memory_of blk
    let moved = copy_within memory (header_offset mutable) (header_offset immutable) (len b)
    if leb (header_offset mutable + len b) (length memory) && (blk.size == old_layout)
        then (λ h.
            exact_block b (len b) old_capacity blk.size new_layout moved
              (A.move_to h b.ptr new_layout) h)
        else undefined

  -- What `realloc` answers to `into_growable`.
  abbrev pub growable_block : HeapBuffer → ℕ → ℕ → Bytes → Option ℕ → M Heap HeapBuffer
  growable_block b text_len new_size memory none = fail
  growable_block b text_len new_size memory (some q) = do
    free_block b.ptr
    set_block q (record {
      count = 1;
      header = growable text_len;
      size = new_size;
      bytes = drop (header_offset mutable) (
          copy_within (resize q memory new_size) (header_offset immutable) (header_offset mutable)
            text_len);
    })
    pure (record b { ptr = q })

  -- `HeapBuffer::into_growable`
  unfoldable pub into_growable : HeapBuffer → M Heap HeapBuffer
  into_growable b = do
    blk ← block_at b.ptr
    old_layout ← alloc_layout immutable b
    new_layout ← lift (layout_for mutable (len b))
    let memory = memory_of blk
    if leb (header_offset immutable + len b) (length memory) && (blk.size == old_layout)
        then (λ h. growable_block b (len b) new_layout memory (A.move_to h b.ptr new_layout) h)
        else undefined
