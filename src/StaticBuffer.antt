-- ===== src/StaticBuffer.antt =====
-- src/repr/static_buffer.rs: a pointer to a `&'static str` and a tagged length.
use Prim.Native.Nat.{bit_or, bit_xor}
use lean_string.Prelude.{
  ℕ, ◌+◌, ◌*◌, ◌^◌, ◌≤◌, ◌≡◌, ap, refl, ◌∙◌, arith, ltb, ltb-false, if◌then◌else◌, length, take,
}
use lean_string.Prelude.Bits.{or_tag, xor_tag}
use lean_string.Utf8.{Bytes}
use lean_string.LastByte.{static_marker}
use lean_string.Memory.{Result, ok, err, reserve_error}

-- `memory` is the static text that the pointer leads to; it never changes.
pub record StaticBuffer : Type 0 where
  pub memory : Bytes
  pub word : ℕ

-- `StaticBuffer::MAX_LENGTH`
abbrev pub max_length : ℕ
max_length = 0x00FF_FFFF_FFFF_FFFF

-- `StaticBuffer::TAG`
abbrev pub tag : ℕ
tag = static_marker * 2 ^ 56

-- `StaticBuffer::new`
unfoldable pub new : Bytes → Result StaticBuffer
new text =
    if ltb max_length (length text)
    then err reserve_error
    else ok (record { memory = text; word = bit_or (length text) tag })

-- `StaticBuffer::len`
unfoldable pub len : StaticBuffer → ℕ
len s = bit_xor s.word tag

-- `StaticBuffer::as_str`
unfoldable pub as_str : StaticBuffer → Bytes
as_str s = take (len s) s.memory

-- `StaticBuffer::set_len`
unfoldable pub set_len : StaticBuffer → ℕ → StaticBuffer
set_len s n = record s { word = bit_or n tag }

pub new_lem :
    (text : Bytes)
    → length text ≤ max_length
    → new text ≡ ok (record { memory = text; word = length text + tag })
unfolding new
new_lem text h = rw (ltb-false max_length (length text) h) (
    ap (λ w. ok (record { memory = text; word = w }))
      (or_tag static_marker (length text) (omega arith)))

pub len_lem : (s : StaticBuffer) (n : ℕ) → s.word ≡ n + tag → n ≤ max_length → len s ≡ n
unfolding len
len_lem s n e h = ap (λ w. bit_xor w tag) e ∙ xor_tag static_marker n (omega arith) refl

pub set_len_lem :
    (s : StaticBuffer) (n : ℕ) → n ≤ max_length → set_len s n ≡ record s { word = n + tag }
unfolding set_len
set_len_lem s n h = ap (λ w. record s { word = w }) (or_tag static_marker n (omega arith))
