-- ===== src/Utf8/Ascii.antt =====
-- ASCII texts: each byte is a char.
use mathlib.Core.Path.{ap₂}
use lean_string.Prelude.{ℕ, ◌<◌, ◌≡◌, refl, inl, [], ◌∷◌, ◌++◌, arith, lt→ltb, All}
use lean_string.Utf8.{Bytes, IsScalar, encode_utf8, encode, IsUtf8}

abbrev pub IsAscii : ℕ → Type 0
IsAscii b = b < 128

encode_ascii : (b : ℕ) → IsAscii b → encode_utf8 b ≡ b ∷ []
unfolding encode_utf8
encode_ascii b h = rw (lt→ltb b 0x80 h) refl

spelled : (s : Bytes) → All IsAscii s → encode s ≡ s
unfolding encode
spelled [] h = refl
spelled (b ∷ s) (hb, hs) = ap₂ (λ x y. x ++ y) (encode_ascii b hb) (spelled s hs)

scalars_of : (s : Bytes) → All IsAscii s → All IsScalar s
scalars_of [] h = tt
scalars_of (b ∷ s) (hb, hs) = (inl (omega arith), scalars_of s hs)

pub ascii-IsUtf8 : (s : Bytes) → All IsAscii s → IsUtf8 s
ascii-IsUtf8 s h = record { chars = s; scalars = scalars_of s h; spells = spelled s h }
