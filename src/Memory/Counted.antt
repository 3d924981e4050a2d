-- ===== src/Memory/Counted.antt =====
-- Reference counts against the references that exist.
use lean_string.Prelude.{
  ℕ, ◌+◌, ◌≤◌, ◌<◌, ◌≡◌, refl, ap, fun_ext, ◌∙◌, ◌≢◌, false, Option, none, some, arith, ◌==◌,
  if◌then◌else◌,
}
use lean_string.Utf8.{Bytes}
use lean_string.LastByte.{isize_max}
use lean_string.Memory.{Header, Block, Heap, put}

-- The count in a cell; a cell that is free counts as 0.
abbrev pub count_in : Option Block → ℕ
count_in none = 0
count_in (some b) = b.count

-- A block without its count: what readers of it can see.
abbrev pub View : Type 0
View = Header × ℕ × Bytes

abbrev pub view : Option Block → Option View
view none = none
view (some b) = some (b.header, b.size, b.bytes)

abbrev pub block : ℕ → View → Block
block n (hd, size, bytes) = record { count = n; header = hd; size = size; bytes = bytes }

pub cell_of_view : (c : Option Block) {v : View} → view c ≡ some v → c ≡ some (block (count_in c) v)
cell_of_view none e = cc
cell_of_view (some b) e = ground arith

-- One reference to `p` beside those of `refs`.
abbrev pub one_at : ℕ → ℕ → ℕ
one_at p a = if a == p then 1 else 0

abbrev pub plus : (ℕ → ℕ) → ℕ → ℕ → ℕ
plus refs p a = refs a + one_at p a

-- Each count is the number of references, none of them is near the end of a word, and what nothing
-- refers to is free.
pub record Counted (refs : ℕ → ℕ) (h : Heap) : Type 0 where
  pub counts : (a : ℕ) → count_in (h a) ≡ refs a
  pub bounded : (a : ℕ) → refs a ≤ isize_max + 1
  pub no_leak : (a : ℕ) → refs a ≡ 0 → h a ≡ none

-- Whatever `refs` refers to looks in `g` as it does in `h`.
pub record Same (refs : ℕ → ℕ) (h g : Heap) : Type 0 where
  pub looks : (a : ℕ) → 0 < refs a → view (g a) ≡ view (h a)

pub Same-refl : (refs : ℕ → ℕ) (h : Heap) → Same refs h h
Same-refl refs h = record { looks = λ a r. refl }

pub Same-trans : {refs : ℕ → ℕ} {h g k : Heap} → Same refs h g → Same refs g k → Same refs h k
Same-trans p q = record { looks = λ a r. q.looks a r ∙ p.looks a r }

-- What is the same for more references is the same for fewer.
pub Same-plus : (refs : ℕ → ℕ) {h g : Heap} (p : ℕ) → Same (plus refs p) h g → Same refs h g
Same-plus refs p s = record { looks = λ a r. s.looks a (omega arith) }

pub put_at : (h : Heap) (p : ℕ) (c : Option Block) → put h p c p ≡ c
unfolding put
put_at h p c = ground arith

pub put_off : (h : Heap) (p : ℕ) (c : Option Block) (a : ℕ) → (a == p) ≡ false → put h p c a ≡ h a
unfolding put
put_off h p c a e = rw e

pub one_at_self : (p : ℕ) → one_at p p ≡ 1
one_at_self p = ground arith

module _ (refs : ℕ → ℕ) (h : Heap) where
  -- A new block in a free cell.
  pub Counted-fresh :
      (p : ℕ) (b : Block)
      → Counted refs h
      → h p ≡ none
      → b.count ≡ 1
      → Counted (plus refs p) (put h p (some b))
  unfolding put
  Counted-fresh p b k free one = record {
    counts = λ a. ground (arith, k.counts a);
    bounded = λ a. ground (arith, k.counts a, k.bounded a);
    no_leak = λ a z. ground (arith, k.no_leak a);
  }

  pub Same-fresh :
      (p : ℕ) (c : Option Block) → Counted refs h → h p ≡ none → Same refs h (put h p c)
  unfolding put
  Same-fresh p c k free = record { looks = λ a r. ground (arith, k.counts a) }

  -- A write to a block that nothing else refers to.
  pub Counted-update :
      (p : ℕ) (b : Block)
      → Counted (plus refs p) h
      → b.count ≡ refs p + 1
      → Counted (plus refs p) (put h p (some b))
  unfolding put
  Counted-update p b k one = record {
    counts = λ a. ground (arith, k.counts a);
    bounded = k.bounded;
    no_leak = λ a z. ground (arith, k.no_leak a);
  }

  pub Same-unique : (p : ℕ) (c : Option Block) → refs p ≡ 0 → Same refs h (put h p c)
  unfolding put
  Same-unique p c only = record { looks = λ a r. ground arith }

  -- The last reference goes, and the block with it.
  pub Counted-free : (p : ℕ) → Counted (plus refs p) h → refs p ≡ 0 → Counted refs (put h p none)
  unfolding put
  Counted-free p k only = record {
    counts = λ a. ground (arith, k.counts a);
    bounded = λ a. ground (arith, k.bounded a);
    no_leak = λ a z. ground (arith, k.no_leak a);
  }

  -- One of several references goes.
  pub Counted-drop :
      (p : ℕ) (b : Block)
      → Counted (plus refs p) h
      → b.count ≡ refs p
      → refs p ≢ 0
      → Counted refs (put h p (some b))
  unfolding put
  Counted-drop p b k one more = record {
    counts = λ a. ground (arith, k.counts a);
    bounded = λ a. ground (arith, k.bounded a);
    no_leak = λ a z. ground (arith, k.no_leak a);
  }

pub put-put : (h : Heap) (p : ℕ) (c d : Option Block) → put (put h p c) p d ≡ put h p d
unfolding put
put-put h p c d = fun_ext λ a. ground arith

-- A block whose count alone changed looks as before.
pub view-put : (h : Heap) (p n : ℕ) (v : View) → view (put h p (some (block n v)) p) ≡ some v
view-put h p n v = ap view (put_at h p (some (block n v)))
