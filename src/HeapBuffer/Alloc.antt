-- ===== src/HeapBuffer/Alloc.antt =====
-- A fresh allocation, and the write of bytes into one.
use lean_string.Prelude.{
  ℕ, ◌+◌, ◌-◌, ◌≤◌, ◌≡◌, refl, sym, subst, ◌∙◌, none, some, inl, inr, arith, ltb, le→leb, ltb-false,
  le_of_ltb-false, Bool-cases, Option-cases, length,
}
use lean_string.Prelude.Splice.{splice}
use lean_string.Utf8.{Bytes}
use lean_string.Memory.{ok, Header, Heap, put, Allocator, done}
use lean_string.Memory.Ends.{Ends, returns, fails}
use lean_string.Memory.Counted.{
  count_in, View, view, block, plus, Counted, Counted-fresh, Same, Same-fresh,
}
use lean_string.HeapBuffer.{Mutability, header_offset, new_header, allocate_ptr, write_bytes}
use lean_string.HeapBuffer.TextLen.{max_len}
use lean_string.HeapBuffer.Capacity
use lean_string.HeapBuffer.Holds.{layout_lem, block_at-some}

-- A new block of its kind with `cap` bytes, at an address that was free.
pub record Fresh (m : Mutability) (h : Heap) (cap p : ℕ) (g : Heap) : Type 0 where
  pub bytes : Bytes
  pub room : length bytes ≡ cap
  pub limit : cap ≤ max_len
  pub free : h p ≡ none
  pub made : g ≡ put h p (some (block 1 (new_header m cap, header_offset m + cap, bytes)))

pub Capacity-lem : (n : ℕ) → n ≤ max_len → Capacity.new n ≡ ok n
unfolding Capacity.new
Capacity-lem n h = rw (ltb-false max_len n h)

module _ ⦃A : Allocator⦄ where
  -- `allocate_ptr` makes a fresh block or fails and changes nothing.
  pub allocate_ptr-Fresh :
      (m : Mutability) (n : ℕ) (h : Heap) → Ends (Fresh m h n) (λ g. g ≡ h) (allocate_ptr m n h)
  unfolding allocate_ptr
  allocate_ptr-Fresh m n h = elim (Bool-cases (ltb max_len n)) [
    | inl big ↦ unfold Capacity.new in rw big (fails refl)
    | inr small ↦
        let limit = le_of_ltb-false max_len n small in
        rw (Capacity-lem n limit, layout_lem m n limit)
          (elim (Option-cases (A.place h (header_offset m + n))) [
            | inl null ↦ rw null (fails refl)
            | inr (p, got) ↦ rw got (
                returns (record {
                  bytes = A.garbage p (header_offset m + n - header_offset m);
                  room = A.length-garbage p (header_offset m + n - header_offset m) ∙ omega arith;
                  limit = limit;
                  free = A.place_fresh h (header_offset m + n) p got;
                  made = refl;
                }))
          ])
  ]

module _ {refs : ℕ → ℕ} {m : Mutability} {h g : Heap} {cap p : ℕ} (k : Counted refs h)
    (f : Fresh m h cap p g) where
  pub Fresh-Counted : Counted (plus refs p) g
  Fresh-Counted =
      subst (Counted (plus refs p)) (sym f.made) (Counted-fresh refs h p _ k f.free refl)

  pub Fresh-Same : Same refs h g
  Fresh-Same = subst (Same refs h) (sym f.made) (Same-fresh refs h p _ k f.free)

-- The heap after the bytes of the block at `p` are replaced.
abbrev pub rewritten : Heap → ℕ → View → Heap
rewritten h p v = put h p (some (block (count_in (h p)) v))

pub write_bytes_lem :
    (p off : ℕ) (src : Bytes) (h : Heap) (hd : Header) (size : ℕ) (bytes : Bytes)
    → view (h p) ≡ some (hd, size, bytes)
    → off + length src ≤ length bytes
    → write_bytes p off src h ≡ done tt (rewritten h p (hd, size, splice bytes off src))
unfolding write_bytes
write_bytes_lem p off src h hd size bytes e fits =
    rw (block_at-some p h e) (rw (le→leb (off + length src) (length bytes) fits))
