-- ===== src/LeanString/Compare.antt =====
-- src/lib.rs: `PartialEq`, `Ord`, `PartialOrd` and `Hash`, which all work on the texts.
pub mod Order
pub mod Compared
use Prim.Native.Nat.{Ordering}
use lean_string.Prelude.{Bool, true, false, ◌&&◌, Option, some, [], ◌∷◌, ltb, ◌==◌, if◌then◌else◌}
use lean_string.Utf8.{Bytes}
use lean_string.Memory.{Heap, M, pure, ◌>>=◌}
use lean_string.Repr
use lean_string.Repr.{Repr}

-- `str::eq` and `str::cmp`, which go by the bytes.
unfoldable pub str_eq : Bytes → Bytes → Bool
str_eq [] [] = true
str_eq [] (y ∷ ys) = false
str_eq (x ∷ xs) [] = false
str_eq (x ∷ xs) (y ∷ ys) = (x == y) && str_eq xs ys

unfoldable pub str_cmp : Bytes → Bytes → Ordering
str_cmp [] [] = Ordering.eq
str_cmp [] (y ∷ ys) = Ordering.lt
str_cmp (x ∷ xs) [] = Ordering.gt
str_cmp (x ∷ xs) (y ∷ ys) =
    let rest = str_cmp xs ys in
    if ltb x y then Ordering.lt else if ltb y x then Ordering.gt else rest

-- A side of `==`: a `LeanString` or a `LeanStr`; or a `str`, `&str`, `String` or `Cow<str>`.
pub data Operand : Type 0 where
  lean : Repr → Operand
  plain : Bytes → Operand

abbrev pub as_str : Operand → M Heap Bytes
as_str (lean r) = Repr.as_bytes r
as_str (plain text) = pure text

-- `PartialEq::eq`
unfoldable pub eq : Operand → Operand → M Heap Bool
eq self other = do a ← as_str self; b ← as_str other; pure (str_eq a b)

-- `Ord::cmp`, `PartialOrd::partial_cmp`
unfoldable pub cmp : Repr → Repr → M Heap Ordering
cmp self other = do a ← Repr.as_bytes self; b ← Repr.as_bytes other; pure (str_cmp a b)

unfoldable pub partial_cmp : Repr → Repr → M Heap (Option Ordering)
partial_cmp self other = do o ← cmp self other; pure (some o)

-- `Hash::hash`, for what `str` writes to a hasher.
unfoldable pub hash : {H : Type 0} → (Bytes → H → H) → Repr → H → M Heap H
hash write self state = do text ← Repr.as_bytes self; pure (write text state)
