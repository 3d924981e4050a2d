-- ===== src/LeanString/Utf16.antt =====
-- `LeanString::from_utf16` and `from_utf16_lossy` (src/lib.rs).
pub mod Decoded
pub mod Endian
use mathlib.Core.List.{map}
use lean_string.Prelude.{ℕ, Bool, true, false, Option, none, some, List, [], ◌∷◌, length}
use lean_string.Memory.{
  Heap, Allocator, Outcome, done, failed, panicked, fault, M, pure, panic, and_then, ◌>>=◌, ◌>>◌,
}
use lean_string.Utf8.Utf16.{decode_utf16}
use lean_string.Repr.{Repr, State}
use lean_string.LeanString.{push, drop_string}
use lean_string.LeanString.Make.{with_capacity}

-- `Option::unwrap_or(REPLACEMENT_CHARACTER)`
abbrev pub or_replacement : Option ℕ → ℕ
or_replacement none = 0xFFFD
or_replacement (some c) = c

-- The local `ret`: it is returned, or dropped with an early return or a panic.
abbrev pub returned : Outcome State Bool → Outcome Heap (Option Repr)
returned (done true s) = done (some s.self) s.heap
returned (done false s) = and_then (drop_string s.self s.heap) λ _. pure none
returned (failed s) = failed s.heap
returned (panicked s) = and_then (drop_string s.self s.heap) λ _. panic
returned fault = fault

module _ ⦃A : Allocator⦄ where
  -- The loop over the decoded chars, which a lone surrogate ends.
  unfoldable pub push_units : List (Option ℕ) → M State Bool
  push_units [] = pure true
  push_units (none ∷ units) = pure false
  push_units (some c ∷ units) = do push c; push_units units

  abbrev pub with_units : List (Option ℕ) → ℕ → M Heap (Option Repr)
  with_units units capacity = do
    ret ← with_capacity capacity
    λ h. returned (push_units units (record { self = ret; heap = h }))

  -- `from_utf16` by `from_utf16_units`; `none` is the error of a lone surrogate.
  unfoldable pub from_utf16 : List ℕ → M Heap (Option Repr)
  from_utf16 buf = with_units (decode_utf16 buf) (length buf)

  -- `from_utf16_lossy` by `from_utf16_units_lossy`
  unfoldable pub from_utf16_lossy : List ℕ → M Heap (Option Repr)
  from_utf16_lossy buf =
      with_units (map (λ u. some (or_replacement u)) (decode_utf16 buf)) (length buf)
