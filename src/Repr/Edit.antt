-- ===== src/Repr/Edit.antt =====
-- The operations of `impl Repr<Mutable>` in src/repr.rs, on a state of the string and the heap.
use Prim.Native.Nat.{max}
use lean_string.Prelude.{
  ℕ, ◌+◌, ◌-◌, ◌/◌, not, ◌&&◌, ◌||◌, ltb, leb, ◌==◌, if◌then◌else◌, length, take, drop,
}
use lean_string.Prelude.Splice.{splice}
use lean_string.Utf8.{Bytes, len_utf8, encode_utf8, is_char_boundary}
use lean_string.LastByte.{max_inline_size}
use lean_string.Memory.{Allocator, done, M, pure, panic, undefined, lift, ◌>>=◌, ◌>>◌}
use lean_string.HeapBuffer
use lean_string.HeapBuffer.{mutable, checked_add, read_range}
use lean_string.InlineBuffer
use lean_string.Repr.{
  Repr, inline, heap, State, reading, store, is_heap_buffer, is_static_buffer, as_heap_buffer,
  as_inline_buffer, len, as_bytes, is_unique, is_modifiable, capacity, spare_capacity, from_str,
  replace_inner,
}

abbrev pub get : M State Repr
get s = done s.self s

-- A write through `Repr::as_mut_ptr`, whose contract excludes static and shared buffers.
unfoldable pub write_at : ℕ → Bytes → M State (Unit {0})
write_at off src = do
  r ← get
  if is_static_buffer r
      then undefined
      else if is_heap_buffer r
      then (do
        b ← as_heap_buffer r
        unique ← reading is_unique
        if unique then reading (λ _. HeapBuffer.write_bytes b.ptr off src) else undefined)
      else do
        b ← as_inline_buffer r
        if leb (off + length src) max_inline_size
            then store (inline (splice b off src))
            else undefined

-- A read through the same pointer.
unfoldable pub read_at : ℕ → ℕ → M State Bytes
read_at off n = do
  r ← get
  if is_static_buffer r
      then undefined
      else if is_heap_buffer r
      then (do
        b ← as_heap_buffer r
        unique ← reading is_unique
        if unique then reading (λ _. read_range b.ptr off n) else undefined)
      else do
        b ← as_inline_buffer r
        if leb (off + n) max_inline_size then pure (take n (drop off b)) else undefined

-- `ptr::copy(data.add(src), data.add(dst), n)`
abbrev pub copy_at : ℕ → ℕ → ℕ → M State (Unit {0})
copy_at src dst n = do bytes ← read_at src n; write_at dst bytes

-- `Repr::set_len`
unfoldable pub set_len : ℕ → M State (Unit {0})
set_len n = do
  r ← get
  if is_heap_buffer r
      then (do b ← as_heap_buffer r; b' ← reading (λ _. HeapBuffer.set_len b n); store (heap b'))
      else do b ← as_inline_buffer r; store (inline (InlineBuffer.set_len b n))

-- What is behind `stop` is moved behind a gap at `idx`, the gap is filled, and the length set.
abbrev pub fill_gap : ℕ → ℕ → ℕ → Bytes → ℕ → M State (Unit {0})
fill_gap len idx stop string new_len = do
  copy_at stop (idx + length string) (len - stop)
  write_at idx string
  set_len new_len

-- The gap for `string` is opened at `idx`, and filled.
abbrev pub open_gap : ℕ → ℕ → Bytes → M State (Unit {0})
open_gap len idx string = fill_gap len idx idx string (len + length string)

module _ ⦃A : Allocator⦄ where
  -- `Repr::reallocate`
  unfoldable pub reallocate : ℕ → M State (Unit {0})
  reallocate capacity = do
    r ← get
    unique ← reading is_unique
    if leb capacity max_inline_size
        then (do text ← reading as_bytes; replace_inner mutable (inline (InlineBuffer.new text)))
        else if is_heap_buffer r && unique
        then (do
          b ← as_heap_buffer r
          b' ← reading (λ _. HeapBuffer.realloc b capacity)
          store (heap b'))
        else do
          text ← reading as_bytes
          b ← reading (λ _. HeapBuffer.from_str_with_capacity text capacity)
          replace_inner mutable (heap b)

  -- `Repr::grow_amortized`: by half at least, once the text leaves the inline buffer
  unfoldable pub grow_amortized : ℕ → M State (Unit {0})
  grow_amortized additional = do
    r ← get
    required ← lift (checked_add (len r) additional)
    reallocate (if leb required max_inline_size then required else max required (len r + len r / 2))

  -- `Repr::grow_exact`
  unfoldable pub grow_exact : ℕ → M State (Unit {0})
  grow_exact additional = do
    r ← get
    required ← lift (checked_add (len r) additional)
    reallocate required

  -- `if self.spare_capacity() < additional || !self.is_modifiable() { grow(additional)? }`
  unfoldable pub make_room : (ℕ → M State (Unit {0})) → ℕ → M State (Unit {0})
  make_room grow additional = do
    spare ← reading spare_capacity
    modifiable ← reading is_modifiable
    if ltb spare additional || not modifiable then grow additional else pure tt

  -- `Repr::reserve`
  unfoldable pub reserve : ℕ → M State (Unit {0})
  reserve additional = if additional == 0 then pure tt else make_room grow_amortized additional

  -- `Repr::reserve_exact`
  unfoldable pub reserve_exact : ℕ → M State (Unit {0})
  reserve_exact additional = if additional == 0 then pure tt else make_room grow_exact additional

  -- `Repr::shrink_to`
  unfoldable pub shrink_to : ℕ → M State (Unit {0})
  shrink_to min_capacity = do
    r ← get
    if is_heap_buffer r
        then (do
          c ← reading capacity
          if ltb (max (len r) min_capacity) c
              then reallocate (max (len r) min_capacity)
              else pure tt)
        else pure tt

  -- `Repr::push_str`
  unfoldable pub push_str : Bytes → M State (Unit {0})
  push_str string = if length string == 0 then pure tt else do
    r ← get
    make_room grow_amortized (length string)
    write_at (len r) string
    set_len (len r + length string)

  -- `Repr::push_char`
  unfoldable pub push_char : ℕ → M State (Unit {0})
  push_char ch = do
    r ← get
    make_room grow_amortized (len_utf8 ch)
    write_at (len r) (encode_utf8 ch)
    set_len (len r + len_utf8 ch)

  -- `Repr::insert_str`
  unfoldable pub insert_str : ℕ → Bytes → M State (Unit {0})
  insert_str idx string = do
    r ← get
    text ← reading as_bytes
    if not (is_char_boundary text idx)
        then panic
        else if length string == 0
        then pure tt
        else do make_room grow_amortized (length string); open_gap (len r) idx string

  -- `Repr::insert_char`
  unfoldable pub insert_char : ℕ → ℕ → M State (Unit {0})
  insert_char idx ch = do
    r ← get
    text ← reading as_bytes
    if not (is_char_boundary text idx)
        then panic
        else do make_room grow_amortized (len_utf8 ch); open_gap (len r) idx (encode_utf8 ch)

  -- `Repr::ensure_modifiable`
  unfoldable pub ensure_modifiable : M State (Unit {0})
  ensure_modifiable = do
    modifiable ← reading is_modifiable
    if modifiable then pure tt else do
      text ← reading as_bytes
      copied ← reading (λ _. from_str mutable text)
      replace_inner mutable copied
