-- ===== src/Repr.antt =====
-- src/repr.rs: the two words of a string, which are an inline buffer, a heap buffer or a static
-- buffer. Which one is read off the last byte. A call on `&mut self` runs on a state of the string
-- and the heap.
pub mod Edit
pub mod Owns
pub mod Queries
pub mod Room
pub mod Grow
pub mod Fill
pub mod Fresh
pub mod Literal
pub mod Scalar
pub mod Init
pub mod AsciiCase
pub mod Appends
pub mod ToCase
pub mod DigitCount
pub mod NumToRepr
pub mod Cut
pub mod Retain
pub mod Range
pub mod Place
pub mod Text
pub mod Share
pub mod Convert
use Prim.Native.Nat.{bit_and, bit_or, max}
use lean_string.Prelude.{
  ℕ, ◌+◌, ◌-◌, ◌*◌, ◌/◌, ◌%◌, ◌^◌, ◌≡◌, Bool, true, false, not, ◌&&◌, ◌||◌, Option, none, some,
  List, [], ◌++◌, ltb, leb, ◌==◌, if◌then◌else◌, length, take, drop, get_or,
}
use lean_string.Prelude.LittleEndian.{from_le}
use lean_string.Prelude.Splice.{splice}
use lean_string.Utf8.{Bytes}
use lean_string.LastByte.{
  usize_max, isize_max, max_inline_size, mask_1100_0000, heap_marker, static_marker,
}
use lean_string.Memory.{
  Result, ok, err, reserve_error, Block, Heap, put, Allocator, Outcome, done, failed, panicked,
  fault, M, pure, fail, panic, undefined, lift, and_then, ◌>>=◌, ◌>>◌, block_at, set_block,
}
use lean_string.HeapBuffer
use lean_string.HeapBuffer.{HeapBuffer, Mutability, mutable}
use lean_string.InlineBuffer
use lean_string.InlineBuffer.{InlineBuffer}
use lean_string.StaticBuffer
use lean_string.StaticBuffer.{StaticBuffer}

pub data Repr : Type 0 where
  inline : InlineBuffer → Repr
  heap : HeapBuffer → Repr
  static : StaticBuffer → Repr

-- `Repr::tail_word`: the second word
abbrev pub tail_word : Repr → ℕ
tail_word (inline buffer) = from_le (take 8 (drop 8 buffer))
tail_word (heap b) = b.len
tail_word (static s) = s.word

-- `Repr::last_byte`: the top byte of the second word
abbrev pub last_byte : Repr → ℕ
last_byte (inline buffer) = get_or buffer 15 0
last_byte (heap b) = b.len / 2 ^ 56
last_byte (static s) = s.word / 2 ^ 56

-- `Repr::is_heap_buffer`, `is_static_buffer`, `is_inline_buffer`
unfoldable pub is_heap_buffer : Repr → Bool
is_heap_buffer r = last_byte r == heap_marker

unfoldable pub is_static_buffer : Repr → Bool
is_static_buffer r = last_byte r == static_marker

unfoldable pub is_inline_buffer : Repr → Bool
is_inline_buffer r = ltb (last_byte r) heap_marker

-- `Repr::as_heap_buffer` and its like: the wrong variant is a fault.
abbrev pub as_heap_buffer : {S : Type 0} → Repr → M S HeapBuffer
as_heap_buffer (heap b) = pure b
as_heap_buffer r = undefined

abbrev pub as_static_buffer : {S : Type 0} → Repr → M S StaticBuffer
as_static_buffer (static s) = pure s
as_static_buffer r = undefined

abbrev pub as_inline_buffer : {S : Type 0} → Repr → M S InlineBuffer
as_inline_buffer (inline b) = pure b
as_inline_buffer r = undefined

-- `LastByte as usize - MASK_1100_0000`, wrapping, and at most the size of the buffer
abbrev pub inline_len : ℕ → ℕ
inline_len byte =
    let this = (byte + 2 ^ 64 - mask_1100_0000) % 2 ^ 64 in
    if ltb max_inline_size this then max_inline_size else this

-- `Repr::len`
unfoldable pub len : Repr → ℕ
len r =
    if ltb (last_byte r) heap_marker
    then inline_len (last_byte r)
    else bit_and (tail_word r) (usize_max / 2 ^ 8)

-- `Repr::is_empty`
unfoldable pub is_empty : Repr → Bool
is_empty r = len r == 0

-- `slice::from_raw_parts` from the first word, or from the two words themselves
abbrev pub bytes_at_pointer : Repr → ℕ → M Heap Bytes
bytes_at_pointer (inline buffer) n = undefined
bytes_at_pointer (heap b) n = HeapBuffer.read_bytes b.ptr n
bytes_at_pointer (static s) n =
    if leb n (length s.memory) then pure (take n s.memory) else undefined

abbrev pub bytes_in_place : Repr → ℕ → M Heap Bytes
bytes_in_place (inline buffer) n = if leb n (length buffer) then pure (take n buffer) else undefined
bytes_in_place r n = undefined

-- `Repr::as_bytes`, and `Repr::as_str`, whose value is the same bytes
unfoldable pub as_bytes : Repr → M Heap Bytes
as_bytes r =
    if leb heap_marker (last_byte r) then bytes_at_pointer r (len r) else bytes_in_place r (len r)

-- `Repr::as_static_str`
unfoldable pub as_static_str : Repr → M Heap (Option Bytes)
as_static_str r =
    if is_static_buffer r
    then (do s ← as_static_buffer r; pure (some (StaticBuffer.as_str s)))
    else pure none

-- `Repr::is_unique`
unfoldable pub is_unique : Repr → M Heap Bool
is_unique r =
    if is_heap_buffer r then (do b ← as_heap_buffer r; HeapBuffer.is_unique b) else pure true

-- `Repr::is_modifiable`
unfoldable pub is_modifiable : Repr → M Heap Bool
is_modifiable r = do unique ← is_unique r; pure (not (is_static_buffer r) && unique)

-- `Repr<Mutable>::capacity`
unfoldable pub capacity : Repr → M Heap ℕ
capacity r =
    if is_heap_buffer r
    then (do b ← as_heap_buffer r; HeapBuffer.capacity b)
    else if is_static_buffer r
    then (do s ← as_static_buffer r; pure (StaticBuffer.len s))
    else pure max_inline_size

-- `Repr<Mutable>::spare_capacity`
unfoldable pub spare_capacity : Repr → M Heap ℕ
spare_capacity r =
    if is_heap_buffer r
    then (do b ← as_heap_buffer r; c ← HeapBuffer.capacity b; pure (c - len r))
    else if is_static_buffer r
    then pure 0
    else pure (max_inline_size - len r)

-- `Repr::new`
unfoldable pub new : Repr
new = inline InlineBuffer.empty

module _ ⦃A : Allocator⦄ where
  -- `Repr::from_str`
  unfoldable pub from_str : Mutability → Bytes → M Heap Repr
  from_str m text =
      if leb (length text) max_inline_size
      then pure (inline (InlineBuffer.new text))
      else do b ← HeapBuffer.new m text; pure (heap b)

  -- `Repr<Mutable>::with_capacity`
  unfoldable pub with_capacity : ℕ → M Heap Repr
  with_capacity capacity =
      if leb capacity max_inline_size
      then pure new
      else do b ← HeapBuffer.with_capacity capacity; pure (heap b)

abbrev pub static_repr : Result StaticBuffer → Result Repr
static_repr (ok s) = ok (static s)
static_repr (err e) = err e

-- `Repr::from_static_str`
unfoldable pub from_static_str : Bytes → Result Repr
from_static_str text =
    if leb (length text) max_inline_size
    then ok (inline (InlineBuffer.new text))
    else static_repr (StaticBuffer.new text)

-- The string that a call works on, and the heap.
pub record State : Type 0 where
  pub self : Repr
  pub heap : Heap

abbrev pub with_heap : {A : Type 0} → Repr → Outcome Heap A → Outcome State A
with_heap r (done a h) = done a (record { self = r; heap = h })
with_heap r (failed h) = failed (record { self = r; heap = h })
with_heap r (panicked h) = panicked (record { self = r; heap = h })
with_heap r fault = fault

-- A call that reads the string and may change the heap.
abbrev pub reading : {A : Type 0} → (Repr → M Heap A) → M State A
reading f s = with_heap s.self (f s.self s.heap)

abbrev pub store : Repr → M State (Unit {0})
store r s = done tt (record { self = r; heap = s.heap })

-- `Repr::drop_in`: the string's reference is given up.
unfoldable pub drop_in : Mutability → Repr → M Heap (Unit {0})
drop_in m r =
    if is_heap_buffer r then (do b ← as_heap_buffer r; HeapBuffer.release m b) else pure tt

-- `Repr::replace_inner`
unfoldable pub replace_inner : Mutability → Repr → M State (Unit {0})
unfolding drop_in
replace_inner m other = do reading (drop_in m); store other

-- `fetch_add(1)`, with the value before it
unfoldable pub fetch_add : ℕ → M Heap ℕ
fetch_add p = do
  blk ← block_at p
  set_block p (record blk { count = (blk.count + 1) % 2 ^ 64 })
  pure blk.count

-- `Repr::make_shallow_clone`: past the limit the reference is given up again, with a panic.
unfoldable pub make_shallow_clone : Mutability → Repr → M Heap Repr
make_shallow_clone m r =
    if is_heap_buffer r
    then (do
      b ← as_heap_buffer r
      prev ← fetch_add b.ptr
      if ltb isize_max prev then (do drop_in m r; panic) else pure r)
    else pure r
