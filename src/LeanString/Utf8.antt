-- ===== src/LeanString/Utf8.antt =====
-- `from_utf8`, `from_utf8_lossy` and `from_utf8_unchecked` of `LeanString` and `LeanStr` (src/lib.rs).
-- The validation is the standard library's.
pub mod Lossy
use lean_string.Prelude.{
  ℕ, ◌≡◌, Bool, true, false, Option, none, some, List, [], ◌∷◌, ◌++◌, ◌==◌, if◌then◌else◌, length,
  All,
}
use lean_string.Utf8.{Bytes, IsUtf8, encode_utf8}
use lean_string.Memory.{Heap, Allocator, Outcome, M, pure, ◌>>=◌, ◌>>◌}
use lean_string.Repr.{Repr, State}
use lean_string.LeanString.{push, push_str}
use lean_string.LeanString.Make
use lean_string.LeanString.Make.{with_capacity}
use lean_string.LeanString.Collect.{on}
use lean_string.LeanString.Convert.{into_lean_str}
use lean_string.LeanStr

-- `char::REPLACEMENT_CHARACTER`
abbrev pub replacement : ℕ
replacement = 0xFFFD

-- The chunks one behind another, with valid and invalid parts.
unfoldable pub rejoined : List (Bytes × Bytes) → Bytes
rejoined [] = []
rejoined ((valid, invalid) ∷ chunks) = valid ++ (invalid ++ rejoined chunks)

-- `str::from_utf8` accepts exactly the valid texts. `utf8_chunks` cuts bytes into valid parts, each
-- with the invalid part behind it.
pub record Validation : Type 0 where
  pub is_valid : Bytes → Bool
  pub utf8_chunks : Bytes → List (Bytes × Bytes)
  pub accepted : (s : Bytes) → is_valid s ≡ true → IsUtf8 s
  pub accepts : (s : Bytes) → IsUtf8 s → is_valid s ≡ true
  pub valid_parts : (s : Bytes) → All (λ c. IsUtf8 c.0) (utf8_chunks s)
  pub cut : (s : Bytes) → rejoined (utf8_chunks s) ≡ s

module _ ⦃A : Allocator⦄ where
  -- The loop over the chunks.
  unfoldable pub push_chunks : List (Bytes × Bytes) → M State (Unit {0})
  push_chunks [] = pure tt
  push_chunks ((valid, invalid) ∷ chunks) = do
    push_str valid
    if length invalid == 0 then pure tt else push replacement
    push_chunks chunks

  module _ (v : Validation) where
    -- `from_utf8`; no string is the `Utf8Error`.
    unfoldable pub from_utf8 : Bytes → M Heap (Option Repr)
    from_utf8 buf = if v.is_valid buf then (do r ← Make.from buf; pure (some r)) else pure none

    unfoldable pub str_from_utf8 : Bytes → M Heap (Option Repr)
    str_from_utf8 buf =
        if v.is_valid buf then (do r ← LeanStr.from buf; pure (some r)) else pure none

    -- `from_utf8_lossy`
    unfoldable pub from_utf8_lossy : Bytes → M Heap Repr
    from_utf8_lossy buf = do
      ret ← with_capacity (length buf)
      on ret (push_chunks (v.utf8_chunks buf))

    unfoldable pub str_from_utf8_lossy : Bytes → M Heap Repr
    str_from_utf8_lossy buf = do ret ← from_utf8_lossy buf; into_lean_str ret

  -- `from_utf8_unchecked`
  unfoldable pub from_utf8_unchecked : Bytes → M Heap Repr
  from_utf8_unchecked buf = Make.from buf

  unfoldable pub str_from_utf8_unchecked : Bytes → M Heap Repr
  str_from_utf8_unchecked buf = LeanStr.from buf
