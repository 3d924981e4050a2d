-- ===== src/Repr/Owns.antt =====
-- What it means that a string is sound and holds a text, beside other references.
use lean_string.Prelude.{ℕ, ◌+◌, ◌≤◌, ◌<◌, ◌≡◌, length, take, get_or}
use lean_string.Utf8.{Bytes, IsUtf8}
use lean_string.Memory.{Heap}
use lean_string.Memory.Counted.{plus, Counted, Same}
use lean_string.HeapBuffer.{HeapBuffer, Mutability}
use lean_string.HeapBuffer.Holds.{Holds}
use lean_string.InlineBuffer.{InlineBuffer}
use lean_string.StaticBuffer
use lean_string.StaticBuffer.{StaticBuffer}
use lean_string.Repr.{Repr, inline, heap, static, State}

-- Sixteen bytes that begin with the text; the last one is the length of a shorter text, and the end
-- of a full one.
pub record InInline (buffer : InlineBuffer) (text : Bytes) : Type 0 where
  pub size : length buffer ≡ 16
  pub fits : length text ≤ 16
  pub begins : take (length text) buffer ≡ text
  pub short : length text < 16 → get_or buffer 15 0 ≡ length text + 0xC0
  pub full : length text ≡ 16 → get_or buffer 15 0 < 0xC0

pub record InStatic (s : StaticBuffer) (text : Bytes) : Type 0 where
  pub word : s.word ≡ length text + StaticBuffer.tag
  pub begins : take (length text) s.memory ≡ text
  pub fits : length text ≤ length s.memory
  pub limit : length text ≤ StaticBuffer.max_length

pub data Content (m : Mutability) (h : Heap) : Repr → Bytes → Type 0 where
  in_inline :
      {buffer : InlineBuffer} {text : Bytes}
      → InInline buffer text
      → Content m h (inline buffer) text
  in_heap : {b : HeapBuffer} {text : Bytes} → Holds m h b text → Content m h (heap b) text
  in_static : {s : StaticBuffer} {text : Bytes} → InStatic s text → Content m h (static s) text

-- The references there are, that of the string included.
abbrev pub with_self : (ℕ → ℕ) → Repr → ℕ → ℕ
with_self refs (inline buffer) = refs
with_self refs (heap b) = plus refs b.ptr
with_self refs (static s) = refs

-- The string holds a valid text, and every reference count is right with `refs` counting the
-- references of all other strings.
pub record Owns (refs : ℕ → ℕ) (m : Mutability) (s : State) (text : Bytes) : Type 0 where
  pub valid : IsUtf8 text
  pub content : Content m s.heap s.self text
  pub counted : Counted (with_self refs s.self) s.heap

-- The string holds `text`, and all that other strings refer to is as it was in `h`.
pub record Keeps (refs : ℕ → ℕ) (m : Mutability) (h : Heap) (text : Bytes) (s : State)
    : Type 0 where
  pub owns : Owns refs m s text
  pub same : Same refs h s.heap
