-- ===== src/Utf8/Decode.antt =====
-- `str::chars`, read from the front, and its last char.
use lean_string.Prelude.{
  ℕ, zero, suc, ◌+◌, ◌-◌, ◌*◌, ◌≡◌, inl, inr, Bool-cases, [], ◌∷◌, ◌++◌, Option, none, some, arith,
  ltb, if◌then◌else◌, length, drop, get_or,
}
use lean_string.Utf8.{Bytes, IsScalar, encode_utf8, is_continuation}

-- The first char, for a text that starts with a whole one.
unfoldable pub next_char : Bytes → Option ℕ
next_char [] = none
next_char (b ∷ s) =
    if ltb b 0x80
    then some b
    else if ltb b 0xE0
    then some ((b - 0xC0) * 64 + (get_or s 0 0 - 0x80))
    else if ltb b 0xF0
    then some ((b - 0xE0) * 4096 + (get_or s 0 0 - 0x80) * 64 + (get_or s 1 0 - 0x80))
    else some (
        (b - 0xF0) * 262144
        + (get_or s 0 0 - 0x80) * 4096
        + (get_or s 1 0 - 0x80) * 64
        + (get_or s 2 0 - 0x80))

-- The place of the last byte before `i` that is no continuation.
unfoldable pub last_start : Bytes → ℕ → ℕ
last_start s zero = 0
last_start s (suc i) =
    let before = last_start s i in if is_continuation (get_or s i 0) then before else i

-- `chars().next_back()`
unfoldable pub last_char : Bytes → Option ℕ
last_char s = next_char (drop (last_start s (length s)) s)

-- A char read back from its encoding, whatever follows.
pub next_char-encode_utf8 :
    (c : ℕ) (t : Bytes) → IsScalar c → next_char (encode_utf8 c ++ t) ≡ some c
unfolding next_char encode_utf8
next_char-encode_utf8 c t sc = elim (Bool-cases (ltb c 0x80)) [
  | inl a ↦ rw a (rw a)
  | inr a ↦ rw a (elim (Bool-cases (ltb c 0x800)) [
    | inl b ↦ rw b (ground arith)
    | inr b ↦ rw b (elim (Bool-cases (ltb c 0x10000)) [
      | inl d ↦ rw d (ground arith)
      | inr d ↦ rw d (ground arith)
    ])
  ])
]
