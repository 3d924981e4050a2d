-- ===== src/LeanString/Collect.antt =====
-- `Extend`, `FromIterator`, `Add` and `AddAssign` of `LeanString` and `LeanStr` (src/lib.rs). An
-- iterator is the list of what it gives, with the lower bound of its `size_hint`, which need not be
-- right; it holds the strings that it has yet to give, as that of a `Vec` does, and its `next`
-- does not panic. A slice, a `Box<str>`, a `Cow<str>` and a `String` are the bytes of their texts.
pub mod Extended
pub mod Owned
pub mod Collected
use lean_string.Prelude.{ℕ, List, [], ◌∷◌}
use lean_string.Utf8.{Bytes}
use lean_string.Memory.{
  Heap, Allocator, Outcome, done, failed, panicked, fault, M, pure, panic, and_then, ◌>>=◌, ◌>>◌,
}
use lean_string.HeapBuffer.{Mutability, mutable, immutable}
use lean_string.Repr.{Repr, State, reading, as_bytes, drop_in}
use lean_string.LeanString.{push, push_str, try_reserve, drop_string}
use lean_string.LeanString.Make
use lean_string.LeanString.Convert.{into_lean_str}
use lean_string.LeanStr
use lean_string.LeanStr.{into_lean_string}

-- `let _ = …` on a result
abbrev pub ignored : Outcome State (Unit {0}) → Outcome State (Unit {0})
ignored (done a s) = done a s
ignored (failed s) = done tt s
ignored (panicked s) = panicked s
ignored fault = fault

-- `unwrap_or_default`
abbrev pub or_default : Outcome Heap Repr → Outcome Heap Repr
or_default (done r h) = done r h
or_default (failed h) = done Make.new h
or_default (panicked h) = panicked h
or_default fault = fault

-- The local `buf`: it is returned, or dropped by a panic.
abbrev pub collected : Outcome State (Unit {0}) → Outcome Heap Repr
collected (done a s) = done s.self s.heap
collected (failed s) = failed s.heap
collected (panicked s) = and_then (drop_string s.self s.heap) λ _. panic
collected fault = fault

-- An iterator is dropped with what it has yet to give.
unfoldable pub drop_iter : Mutability → List Repr → M Heap (Unit {0})
drop_iter m [] = pure tt
drop_iter m (item ∷ iter) = do drop_in m item; drop_iter m iter

-- An item that the body of a loop owns is dropped at its end; or by a panic, and the iterator after it.
abbrev pub drop_item :
    Mutability → Repr → List Repr → Outcome State (Unit {0}) → Outcome State (Unit {0})
drop_item m item iter (done a s) = reading (λ _. drop_in m item) s
drop_item m item iter (failed s) = failed s
drop_item m item iter (panicked s) =
    and_then (reading (λ _. drop_iter m (item ∷ iter)) s) λ _. panic
drop_item m item iter fault = fault

-- A panic before the loop drops the iterator.
abbrev pub before_loop : {A : Type 0} → Mutability → List Repr → Outcome Heap A → Outcome Heap A
before_loop m iter (done a h) = done a h
before_loop m iter (failed h) = failed h
before_loop m iter (panicked h) = and_then (drop_iter m iter h) λ _. panic
before_loop m iter fault = fault

abbrev pub on : Repr → M State (Unit {0}) → M Heap Repr
on r m h = collected (m (record { self = r; heap = h }))

module _ ⦃A : Allocator⦄ where
  -- `for ch in iter { self.push(ch) }`
  unfoldable pub push_each : List ℕ → M State (Unit {0})
  push_each [] = pure tt
  push_each (ch ∷ iter) = do push ch; push_each iter

  -- `Extend<char>`
  unfoldable pub extend_chars : ℕ → List ℕ → M State (Unit {0})
  extend_chars lower_bound iter = do (λ s. ignored (try_reserve lower_bound s)); push_each iter

  -- `Extend<&str>`, `Extend<Box<str>>`, `Extend<Cow<str>>`, `Extend<String>`
  unfoldable pub extend_strs : List Bytes → M State (Unit {0})
  extend_strs [] = pure tt
  extend_strs (s ∷ iter) = do push_str s; extend_strs iter

  -- `Extend<LeanString>` and `Extend<LeanStr>`
  unfoldable pub extend_owned : Mutability → List Repr → M State (Unit {0})
  extend_owned m [] = pure tt
  extend_owned m (item ∷ iter) = do
    text ← reading (λ _. as_bytes item)
    (λ s. drop_item m item iter (push_str text s))
    extend_owned m iter

  -- `FromIterator<char> for LeanString`
  unfoldable pub from_chars : ℕ → List ℕ → M Heap Repr
  from_chars lower_bound iter h =
      and_then (or_default (Make.try_with_capacity lower_bound h)) λ buf. on buf (push_each iter)

  -- `FromIterator<&str> for LeanString`, and those of the other slices
  unfoldable pub from_strs : List Bytes → M Heap Repr
  from_strs iter = on Make.new (extend_strs iter)

  -- `FromIterator<LeanString> for LeanString`
  unfoldable pub from_lean_strings : List Repr → M Heap Repr
  from_lean_strings [] = pure Make.new
  from_lean_strings (buf ∷ iter) = on buf (extend_owned mutable iter)

  -- `FromIterator<LeanStr> for LeanString`
  unfoldable pub from_lean_strs : List Repr → M Heap Repr
  from_lean_strs [] = pure Make.new
  from_lean_strs (first ∷ iter) = do
    buf ← (λ h. before_loop immutable iter (into_lean_string first h))
    on buf (extend_owned immutable iter)

  -- `FromIterator<char> for LeanStr`, and those of slices and of `LeanString`
  unfoldable pub str_from_chars : ℕ → List ℕ → M Heap Repr
  str_from_chars lower_bound iter = do buf ← from_chars lower_bound iter; into_lean_str buf

  unfoldable pub str_from_strs : List Bytes → M Heap Repr
  str_from_strs iter = do buf ← from_strs iter; into_lean_str buf

  unfoldable pub str_from_lean_strings : List Repr → M Heap Repr
  str_from_lean_strings iter = do buf ← from_lean_strings iter; into_lean_str buf

  -- `FromIterator<LeanStr> for LeanStr`
  unfoldable pub str_from_lean_strs : List Repr → M Heap Repr
  str_from_lean_strs [] = pure LeanStr.new
  str_from_lean_strs (first ∷ iter) = do
    first_string ← (λ h. before_loop immutable iter (into_lean_string first h))
    buf ← on first_string (extend_owned immutable iter)
    into_lean_str buf

  -- `Add<&str>` and `AddAssign<&str>`
  unfoldable pub add : Repr → Bytes → M Heap Repr
  add r rhs = on r (push_str rhs)

  unfoldable pub add_assign : Bytes → M State (Unit {0})
  add_assign rhs = push_str rhs
