-- ===== src/Repr/Init/Repeat.antt =====
-- `repeat` gives copies of the text in a new string.
use lean_string.Prelude.{
  ℕ, ◌*◌, ◌≡◌, ◌≢◌, refl, sym, inl, inr, false, arith, ltb, ◌==◌, Bool-cases, length,
}
use lean_string.Utf8.{Bytes}
use lean_string.LastByte.{usize_max}
use lean_string.Memory.{Heap, Allocator}
use lean_string.Memory.Ends.{Ends, fails}
use lean_string.HeapBuffer.{Mutability}
use lean_string.Repr.{Repr}
use lean_string.Repr.Owns.{with_self, Owns}
use lean_string.Repr.Queries.{as_bytes_lem}
use lean_string.Repr.Place.{at_state}
use lean_string.Repr.Fresh.{New}
use lean_string.Repr.Init.{repeat, repeat_into}
use lean_string.Repr.Init.Filled.{new_with-New}
use lean_string.Repr.Init.Copies.{copies, copies-IsUtf8, length-copies, repeat_into-copies}

module _ ⦃A : Allocator⦄ {refs : ℕ → ℕ} {m : Mutability} {h : Heap} {r : Repr} {text : Bytes}
    (o : Owns refs m (at_state r h) text) where
  -- On a sound string and for any `n` but 1, `repeat` returns a new sound string with `n`
  -- copies of the text, with everything that others refer to unchanged, or fails and changes
  -- nothing.
  pub repeat-copies :
      (n : ℕ)
      → n ≢ 1
      → Ends (New (with_self refs r) m h (copies n text)) (λ g. g ≡ h) (repeat m r n h)
  unfolding repeat
  repeat-copies n many =
      let other : (n == 1) ≡ false = ground arith in
      let size = length-copies n text in
      rw (other, as_bytes_lem o.content)
        (elim (Bool-cases (ltb usize_max (length text * n))) [
          | inl over ↦ rw over (fails refl)
          | inr fits ↦
              rw (fits, sym size)
                (new_with-New m (copies n text) (repeat_into text (length (copies n text)))
                  o.counted (copies-IsUtf8 n o.valid) (λ dst e. repeat_into-copies text n dst e))
        ])
