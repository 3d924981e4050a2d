-- ===== src/Utf8.antt =====
-- UTF-8 as core::str and core::char define it: the encoding of a char, char boundaries, and the
-- chars of a text. A `&str` is the list of its bytes.
pub mod Shape
pub mod Decode
pub mod Chars
pub mod Ascii
pub mod Utf16
use Prim.Native.Nat.{bit_and}
use lean_string.Prelude.{
  ℕ, zero, suc, ◌+◌, ◌-◌, ◌*◌, ◌/◌, ◌%◌, ◌≤◌, ◌<◌, ◌≡◌, ◌⊎◌, Bool, true, false, ◌&&◌, ◌||◌, not,
  List, [], ◌∷◌, ◌++◌, Option, none, some, ltb, leb, ◌==◌, if◌then◌else◌, length, All, drop,
  get_elem?,
}

abbrev pub Bytes : Type 0
Bytes = List ℕ

-- A `char` is a Unicode scalar value.
abbrev pub IsScalar : ℕ → Type 0
IsScalar c = (c < 0xD800) ⊎ ((0xE000 ≤ c) × (c < 0x110000))

-- `char::len_utf8`
unfoldable pub len_utf8 : ℕ → ℕ
len_utf8 c = if ltb c 0x80 then 1 else if ltb c 0x800 then 2 else if ltb c 0x10000 then 3 else 4

-- `char::encode_utf8`
unfoldable pub encode_utf8 : ℕ → Bytes
encode_utf8 c =
    if ltb c 0x80
    then c ∷ []
    else if ltb c 0x800
    then (0xC0 + c / 64) ∷ (0x80 + c % 64) ∷ []
    else if ltb c 0x10000
    then (0xE0 + c / 4096) ∷ (0x80 + c / 64 % 64) ∷ (0x80 + c % 64) ∷ []
    else (0xF0 + c / 262144) ∷ (0x80 + c / 4096 % 64) ∷ (0x80 + c / 64 % 64) ∷ (0x80 + c % 64) ∷ []

-- The bytes of a sequence of chars.
unfoldable pub encode : List ℕ → Bytes
encode [] = []
encode (c ∷ cs) = encode_utf8 c ++ encode cs

-- A valid UTF-8 text, with the chars that it spells.
pub record IsUtf8 (s : Bytes) : Type 0 where
  pub chars : List ℕ
  pub scalars : All IsScalar chars
  pub spells : encode chars ≡ s

abbrev pub is_continuation : ℕ → Bool
is_continuation b = leb 0x80 b && ltb b 0xC0

starts_char : Option ℕ → Bool
starts_char none = false
starts_char (some b) = not (is_continuation b)

-- `str::is_char_boundary`
unfoldable pub is_char_boundary : Bytes → ℕ → Bool
unfolding starts_char
is_char_boundary s i =
    if i == 0 then true else if i == length s then true else starts_char (get_elem? s i)
