-- ===== src/Memory.antt =====
-- Memory outside the two words of a string: allocations with their reference count, and the ways in
-- which a call can end. The global allocator is a parameter.
pub mod Ends
pub mod Counted
use lean_string.Prelude.{ℕ, ◌≡◌, Option, none, some, length, ◌==◌, if◌then◌else◌}
use lean_string.Utf8.{Bytes}

-- The only error of the crate's fallible functions.
pub data ReserveError : Type 0 where
  reserve_error : ReserveError

pub data Result (A : Type 0) : Type 0 where
  ok : A → Result A
  err : ReserveError → Result A

-- `GrowableHeader` holds a capacity, `ExactHeader` does not; both hold the count.
pub data Header : Type 0 where
  growable : ℕ → Header
  exact : Header

-- An allocation: its header, the size it was allocated with, and the bytes behind the header.
pub record Block : Type 0 where
  pub count : ℕ
  pub header : Header
  pub size : ℕ
  pub bytes : Bytes

abbrev pub Heap : Type 0
Heap = ℕ → Option Block

unfoldable pub put : Heap → ℕ → Option Block → Heap
put h p c a = if a == p then c else h a

-- What `alloc` and `realloc` answer in a heap, `none` for a null pointer, and the bytes that they
-- leave uninitialised.
pub record Allocator : Type 0 where
  pub place : Heap → ℕ → Option ℕ
  pub move_to : Heap → ℕ → ℕ → Option ℕ
  pub garbage : ℕ → ℕ → Bytes
  pub place_fresh : (h : Heap) (size p : ℕ) → place h size ≡ some p → h p ≡ none
  pub move_fresh : (h : Heap) (p size q : ℕ) → move_to h p size ≡ some q → put h p none q ≡ none
  pub length-garbage : (p n : ℕ) → length (garbage p n) ≡ n

-- How a call ends: with a value, with `Err(ReserveError)`, in a panic, or outside the contract of an
-- unsafe operation. The first three leave a state.
pub data Outcome (S A : Type 0) : Type 0 where
  done : A → S → Outcome S A
  failed : S → Outcome S A
  panicked : S → Outcome S A
  fault : Outcome S A

abbrev pub M : Type 0 → Type 0 → Type 0
M S A = S → Outcome S A

module _ {S A : Type 0} where
  abbrev pub pure : A → M S A
  pure a s = done a s

  abbrev pub fail : M S A
  fail s = failed s

  abbrev pub panic : M S A
  panic s = panicked s

  abbrev pub undefined : M S A
  undefined s = fault

  -- `?` on a pure result
  abbrev pub lift : Result A → M S A
  lift (ok a) = pure a
  lift (err e) = fail

module _ {S A B : Type 0} where
  abbrev pub and_then : Outcome S A → (A → M S B) → Outcome S B
  and_then (done a s) k = k a s
  and_then (failed s) k = failed s
  and_then (panicked s) k = panicked s
  and_then fault k = fault

  infixl 5 ◌>>=◌ ◌>>◌
  abbrev pub ◌>>=◌ : M S A → (A → M S B) → M S B
  m >>= k = λ s. and_then (m s) k

  abbrev pub ◌>>◌ : M S A → M S B → M S B
  m >> n = m >>= λ _. n

-- A read of an allocation; a dangling pointer is a fault.
unfoldable pub block_at : ℕ → M Heap Block
block_at p h = elim (h p) [ none ↦ fault | some b ↦ done b h ]

abbrev pub set_block : ℕ → Block → M Heap (Unit {0})
set_block p b h = done tt (put h p (some b))

abbrev pub free_block : ℕ → M Heap (Unit {0})
free_block p h = done tt (put h p none)
