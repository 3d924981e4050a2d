-- ===== src/Repr/Init.antt =====
-- `Repr::new_with` and the operations of src/repr.rs that fill a new string in place. The closure
-- maps the bytes of the uninitialised slice to those that it leaves there.
pub mod Filled
pub mod Copies
pub mod Repeat
use Prim.Native.Nat.{min}
use lean_string.Prelude.{
  ℕ, zero, suc, ◌+◌, ◌-◌, ◌*◌, Option, none, some, ltb, leb, ◌==◌, if◌then◌else◌, length, take,
}
use lean_string.Prelude.Splice.{splice}
use lean_string.Utf8.{Bytes}
use lean_string.LastByte.{usize_max, max_inline_size}
use lean_string.Memory.{Result, ok, err, reserve_error, Heap, Allocator, M, pure, lift, ◌>>=◌, ◌>>◌}
use lean_string.HeapBuffer
use lean_string.HeapBuffer.{Mutability, fill}
use lean_string.InlineBuffer
use lean_string.Repr.{Repr, inline, heap, as_bytes, make_shallow_clone}

-- `usize::checked_mul`
abbrev pub checked_mul : ℕ → ℕ → Result ℕ
checked_mul a b = if ltb usize_max (a * b) then err reserve_error else ok (a * b)

-- `while filled < len`: the part that is filled is copied behind itself.
pub double_up : ℕ → ℕ → ℕ → Bytes → Bytes
double_up zero len filled dst = dst
double_up (suc fuel) len filled dst =
    let count = min filled (length dst - filled) in
    let rest = double_up fuel len (filled + count) (splice dst filled (take count dst)) in
    if ltb filled len then rest else dst

-- The closure of `repeat`: one copy of the text, as far as it fits, and then the copies of copies.
unfoldable pub repeat_into : Bytes → ℕ → Bytes → Bytes
repeat_into text len dst = double_up len len (length text) (splice dst 0 (take (length dst) text))

module _ ⦃A : Allocator⦄ where
  -- `Repr::new_with`
  unfoldable pub new_with : Mutability → ℕ → (Bytes → Bytes) → M Heap Repr
  new_with m len init =
      if leb len max_inline_size
      then (let buffer = InlineBuffer.empty in
          pure (inline (InlineBuffer.set_len (splice buffer 0 (init (take len buffer))) len)))
      else do buffer ← HeapBuffer.new_uninit m len; fill buffer.ptr len init; pure (heap buffer)

  -- `Repr::repeat`
  unfoldable pub repeat : Mutability → Repr → ℕ → M Heap Repr
  repeat m r n = if n == 1 then make_shallow_clone m r else do
    text ← as_bytes r
    len ← lift (checked_mul (length text) n)
    new_with m len (repeat_into text len)
