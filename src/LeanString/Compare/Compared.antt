-- ===== src/LeanString/Compare/Compared.antt =====
-- Comparisons of strings are those of their texts.
use Prim.Native.Nat.{Ordering}
use lean_string.Prelude.{◌≡◌, refl, ◌↔◌, Bool, some, true}
use lean_string.Utf8.{Bytes}
use lean_string.Memory.{Heap, done}
use lean_string.HeapBuffer.{Mutability}
use lean_string.Repr.{Repr}
use lean_string.Repr.Owns.{Content}
use lean_string.Repr.Queries.{as_bytes_lem}
use lean_string.LeanString.Compare.{
  Operand, lean, plain, as_str, str_eq, str_cmp, eq, cmp, partial_cmp, hash,
}
use lean_string.LeanString.Compare.Order.{Ordered, str_cmp-Ordered, str_eq_iff}

-- A side of a comparison holds a text.
pub data Reads (h : Heap) : Operand → Bytes → Type 0 where
  of_lean : {m : Mutability} {r : Repr} {text : Bytes} → Content m h r text → Reads h (lean r) text
  of_plain : {text : Bytes} → Reads h (plain text) text

as_str_lem : {h : Heap} {a : Operand} {text : Bytes} → Reads h a text → as_str a h ≡ done text h
as_str_lem (of_lean c) = as_bytes_lem c
as_str_lem of_plain = refl

-- `eq` answers, and says whether the texts are the same.
pub record Equated (h : Heap) (a b : Operand) (text other : Bytes) : Type 0 where
  pub answer : Bool
  pub answers : eq a b h ≡ done answer h
  pub says : (answer ≡ true) ↔ (text ≡ other)

-- `cmp` and `partial_cmp` answer with the order of the texts, and what hashes alike is the same.
pub record Compared (h : Heap) (a b : Repr) (text other : Bytes) : Type 1 where
  pub order : Ordering
  pub answers : cmp a b h ≡ done order h
  pub answers_partly : partial_cmp a b h ≡ done (some order) h
  pub ordered : Ordered text other order
  pub hashes :
      {H : Type 0} (write : Bytes → H → H) (state : H)
      → text ≡ other
      → hash write a state h ≡ hash write b state h

-- For two operands that hold a text each, a sound string of any layout or a plain text, `eq`
-- answers, and answers true exactly when the texts are the same.
pub eq-Equated :
    {h : Heap} {a b : Operand} {text other : Bytes}
    → Reads h a text
    → Reads h b other
    → Equated h a b text other
unfolding eq
eq-Equated {text} {other} x y = record {
  answer = str_eq text other;
  answers = rw (as_str_lem x, as_str_lem y) refl;
  says = str_eq_iff text other;
}

-- For two sound strings of any layout, `cmp` and `partial_cmp` answer with one order: less when
-- the first text ends before the second or has the lower byte where they first differ, greater
-- when the second does, and equal when the texts are the same; and strings with the same text
-- hash alike.
pub cmp-Compared :
    {h : Heap} {m n : Mutability} {a b : Repr} {text other : Bytes}
    → Content m h a text
    → Content n h b other
    → Compared h a b text other
unfolding cmp partial_cmp hash
cmp-Compared {text} {other} x y = record {
  order = str_cmp text other;
  answers = rw (as_bytes_lem x, as_bytes_lem y) refl;
  answers_partly = rw (as_bytes_lem x, as_bytes_lem y) refl;
  ordered = str_cmp-Ordered text other;
  hashes = λ write state same. rw (as_bytes_lem x, as_bytes_lem y, same) refl;
}
