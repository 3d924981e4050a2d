-- ===== src/HeapBuffer/Build/Fill.antt =====
-- A new buffer whose bytes a closure writes.
use lean_string.Prelude.{
  ℕ, ◌+◌, ◌≡◌, refl, sym, ap, subst, ◌∙◌, arith, le→leb, length, take, take_all,
}
use lean_string.Prelude.Splice.{splice_whole}
use lean_string.Utf8.{Bytes}
use lean_string.Memory.{Heap, Allocator, ◌>>◌, ◌>>=◌, pure}
use lean_string.Memory.Ends.{Ends, returns, bind}
use lean_string.Memory.Counted.{Counted, view-put}
use lean_string.HeapBuffer.{HeapBuffer, Mutability, header_offset, new_header, new_uninit, fill}
use lean_string.HeapBuffer.TextLen.{tag}
use lean_string.HeapBuffer.Holds.{block_at-some}
use lean_string.HeapBuffer.Build.{
  Built, Uninit, new_uninit-Uninit, with_bytes, write-with_bytes, built, Fills-refl,
}

module _ ⦃A : Allocator⦄ {refs : ℕ → ℕ} {h : Heap} (k : Counted refs h) (m : Mutability)
    (text : Bytes) (init : Bytes → Bytes)
    (writes : (dst : Bytes) → length dst ≡ length text → init dst ≡ text) where
  module _ {C : Type 0} {Q : C → Heap → Type 0} (f : HeapBuffer → C)
      (use_it : (b : HeapBuffer) (g : Heap)
        → Built refs m h text (length text) b g
        → Q (f b) g) where
    filled :
        (b : HeapBuffer) (g : Heap)
        → Uninit m h (length text) b g
        → Ends Q (λ g. g ≡ h) ((fill b.ptr (length text) init >> pure (f b)) g)
    unfolding with_bytes
    filled b g u =
        let n = length text in
        let p = b.ptr in
        let hd = new_header m n in
        let size = header_offset m + n in
        let bytes = u.fresh.bytes in
        let same : b ≡ record { ptr = p; len = n + tag } =
          λ i. record { ptr = p; len = u.word i } in
        let seen : take n bytes ≡ bytes = take_all n bytes (omega (arith, u.fresh.room)) in
        let made : init (take n bytes) ≡ text =
          writes (take n bytes) (ap length seen ∙ u.fresh.room) in
        rw
          (
            u.fresh.made,
            block_at-some p (with_bytes h p 1 hd size bytes) (view-put h p 1 (hd, size, bytes)),
          )
          (rw (le→leb (0 + n) (length bytes) (omega (arith, u.fresh.room)), made)
            (rw
              (
                write-with_bytes h p 1 hd size bytes 0 text (omega (arith, u.fresh.room)),
                splice_whole bytes text u.fresh.room,
              )
              (returns (
                use_it b (with_bytes h p 1 hd size text) (
                  subst (λ c. Built refs m h text n c (with_bytes h p 1 hd size text)) (sym same)
                    (built text text k u.fresh refl (omega arith) (take_all n text (omega arith))
                      (Fills-refl m n)))))))

    -- A buffer of the text's length, filled by the closure, holds the text.
    pub fill-Built :
        Ends Q
          (λ g. g ≡ h)
          ((new_uninit m (length text) >>= λ b. fill b.ptr (length text) init >> pure (f b)) h)
    fill-Built = bind (new_uninit-Uninit m (length text) h) filled
