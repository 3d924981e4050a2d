-- ===== src/HeapBuffer/Build.antt =====
-- New buffers: the text of the argument in a fresh allocation.
pub mod Fill
use lean_string.Prelude.{
  ℕ, ◌+◌, ◌-◌, ◌≤◌, ◌<◌, ◌≡◌, refl, sym, ap, subst, ◌∙◌, ◌&&◌, some, inl, inr, arith, leb, lt→ltb,
  leb→le, lt_of_leb-false, Bool-cases, [], length, take, drop, take_all, length-take, length-drop,
}
use lean_string.Prelude.Splice.{splice, splice_whole, splice_ends, length-splice, length-take_le}
use lean_string.Utf8.{Bytes}
use lean_string.Memory.{Header, Heap, put, Allocator, done, err, reserve_error, ◌>>◌}
use lean_string.Memory.Ends.{Ends, returns, fails, bind}
use lean_string.Memory.Counted.{
  count_in, View, block, plus, Counted-fresh, Same-fresh, Counted, Same, put-put, put_at, view-put,
}
use lean_string.HeapBuffer.{
  HeapBuffer, Mutability, mutable, immutable, header_offset, new_header, write_bytes, copy_text,
  new_uninit, new, with_capacity,
}
use lean_string.HeapBuffer.TextLen
use lean_string.HeapBuffer.TextLen.{max_len, tag}
use lean_string.HeapBuffer.TextLen.Words.{new_tagged}
use lean_string.HeapBuffer.Holds.{Holds, Fills}
use lean_string.HeapBuffer.Alloc.{Fresh, allocate_ptr-Fresh, rewritten, write_bytes_lem}

-- A buffer that nothing else refers to, with room for `cap` bytes, and that holds `text`.
pub record Built (refs : ℕ → ℕ) (m : Mutability) (h : Heap) (text : Bytes) (cap : ℕ)
    (b : HeapBuffer) (g : Heap) : Type 0 where
  pub holds : Holds m g b text
  pub capacity : holds.cap ≡ cap
  pub counted : Counted (plus refs b.ptr) g
  pub same : Same refs h g
  pub alone : refs b.ptr ≡ 0

rewritten-put :
    (h : Heap) (p n : ℕ) (v w : View)
    → rewritten (put h p (some (block n v))) p w ≡ put h p (some (block n w))
rewritten-put h p n v w =
    ap (λ c. put (put h p (some (block n v))) p (some (block (count_in c) w)))
      (put_at h p (some (block n v)))
    ∙ put-put h p (some (block n v)) (some (block n w))

module _ (h : Heap) (p n : ℕ) (hd : Header) (size : ℕ) where
  pub with_bytes : Bytes → Heap
  with_bytes bytes = put h p (some (block n (hd, size, bytes)))

  pub write-with_bytes :
      (bytes : Bytes) (off : ℕ) (src : Bytes)
      → off + length src ≤ length bytes
      → write_bytes p off src (with_bytes bytes) ≡ done tt (with_bytes (splice bytes off src))
  unfolding with_bytes
  write-with_bytes bytes off src fits =
      write_bytes_lem p off src (with_bytes bytes) hd size bytes (view-put h p n (hd, size, bytes))
        fits
      ∙ ap (done tt) (rewritten-put h p n (hd, size, bytes) (hd, size, splice bytes off src))

  write_two :
      (bytes text : Bytes) (k : ℕ)
      → length bytes ≡ length text
      → k ≤ length text
      → length text ≤ k + k
      → (write_bytes p 0 (take k text)
            >> write_bytes p (length text - k) (take k (drop (length text - k) text)))
          (with_bytes bytes)
        ≡ done tt (with_bytes text)
  write_two bytes text k e small large =
      let len_head : length (take k text) ≡ k = length-take_le k text small in
      let fits : 0 + length (take k text) ≤ length bytes = omega (arith, len_head) in
      rw (write-with_bytes bytes 0 (take k text) fits) (
        write-with_bytes (splice bytes 0 (take k text)) (length text - k)
          (take k (drop (length text - k) text))
          (omega (
            arith,
            length-splice bytes 0 (take k text) fits,
            length-take k (drop (length text - k) text),
            length-drop (length text - k) text,
          ))
        ∙ ap (λ t. done tt (with_bytes t)) (splice_ends bytes text k e small large))

  -- Whatever its length, `copy_text` copies the text.
  copy_text_lem :
      ⦃A : Allocator⦄ (bytes text : Bytes)
      → length bytes ≡ length text
      → copy_text p text (with_bytes bytes) ≡ done tt (with_bytes text)
  unfolding copy_text
  copy_text_lem bytes text e = elim (Bool-cases (leb 16 (length text) && leb (length text) 64)) [
    | inl mid ↦ rw mid (elim (Bool-cases (leb 32 (length text))) [
      | inl two ↦ rw two (write_two bytes text 32 e (leb→le 32 (length text) two) (ground arith))
      | inr one ↦ rw one (
          write_two bytes text 16 e (ground arith)
            (omega (arith, lt_of_leb-false 32 (length text) one)))
    ])
    | inr far ↦ rw far (
        write-with_bytes bytes 0 text (omega arith)
        ∙ ap (λ t. done tt (with_bytes t)) (splice_whole bytes text e))
  ]

pub Fills-refl : (m : Mutability) (n : ℕ) → Fills m n n
Fills-refl mutable n = tt
Fills-refl immutable n = refl

-- A fresh block whose bytes begin with the text.
pub built :
    {refs : ℕ → ℕ} {m : Mutability} {h g : Heap} {cap p : ℕ} (text bytes : Bytes)
    → Counted refs h
    → Fresh m h cap p g
    → length bytes ≡ cap
    → length text ≤ cap
    → take (length text) bytes ≡ text
    → Fills m cap (length text)
    → Built refs m h text cap
        (record { ptr = p; len = length text + tag })
        (with_bytes h p 1 (new_header m cap) (header_offset m + cap) bytes)
unfolding with_bytes
built {refs} {m} {h} {cap} {p} text bytes k f room fits begins fills = record {
  holds = record {
    cap = cap;
    bytes = bytes;
    at = view-put h p 1 (new_header m cap, header_offset m + cap, bytes);
    room = room;
    word = refl;
    begins = begins;
    fits = fits;
    limit = f.limit;
    fills = fills;
  };
  capacity = refl;
  counted = Counted-fresh refs h p _ k f.free refl;
  same = Same-fresh refs h p _ k f.free;
  alone = omega (arith, k.counts p, ap count_in f.free);
}

-- A tagged buffer over a fresh block of `n` bytes that are not initialised.
pub record Uninit (m : Mutability) (h : Heap) (n : ℕ) (b : HeapBuffer) (g : Heap) : Type 0 where
  pub word : b.len ≡ n + tag
  pub fresh : Fresh m h n b.ptr g

new-big : (n : ℕ) → max_len < n → TextLen.new n ≡ err reserve_error
unfolding TextLen.new
new-big n h = rw (lt→ltb max_len n h)

module _ ⦃A : Allocator⦄ where
  pub new_uninit-Uninit :
      (m : Mutability) (n : ℕ) (h : Heap) → Ends (Uninit m h n) (λ g. g ≡ h) (new_uninit m n h)
  unfolding new_uninit
  new_uninit-Uninit m n h = elim (Bool-cases (leb n max_len)) [
    | inl small ↦
        rw (new_tagged n (leb→le n max_len small))
          (bind (allocate_ptr-Fresh m n h) (λ p g f. returns (record { word = refl; fresh = f })))
    | inr big ↦ rw (new-big n (lt_of_leb-false n max_len big)) (fails refl)
  ]

module _ ⦃A : Allocator⦄ {refs : ℕ → ℕ} {h : Heap} (k : Counted refs h) where
  new_copies :
      (m : Mutability) (text : Bytes) (b : HeapBuffer) (g : Heap)
      → Uninit m h (length text) b g
      → Ends
          (Built refs m h text (length text))
          (λ g. g ≡ h)
          ((copy_text b.ptr text >> λ s. done b s) g)
  unfolding with_bytes
  new_copies m text b g u =
      let n = length text in
      let p = b.ptr in
      let same : b ≡ record { ptr = p; len = n + tag } = λ i. record { ptr = p; len = u.word i } in
      rw
        (
          u.fresh.made,
          copy_text_lem h p 1 (new_header m n) (header_offset m + n) u.fresh.bytes text
              u.fresh.room,
        )
        (returns (
          subst
            (λ c.
              Built refs m h text n c
                (with_bytes h p 1 (new_header m n) (header_offset m + n) text))
            (sym same)
            (built text text k u.fresh refl (omega arith) (take_all n text (omega arith))
              (Fills-refl m n))))

  -- Where all reference counts are right, `HeapBuffer::new` of a text returns an unshared
  -- buffer of the text's length with the text, everything that others refer to being unchanged,
  -- or fails and changes nothing.
  pub new-Built :
      (m : Mutability) (text : Bytes)
      → Ends (Built refs m h text (length text)) (λ g. g ≡ h) (new m text h)
  unfolding new
  new-Built m text = bind (new_uninit-Uninit m (length text) h) (new_copies m text)

  pub with_capacity-Built :
      (cap : ℕ) → Ends (Built refs mutable h [] cap) (λ g. g ≡ h) (with_capacity cap h)
  unfolding with_capacity
  with_capacity-Built cap = rw (new_tagged 0 (omega arith)) (
      bind (allocate_ptr-Fresh mutable cap h) (λ p g f. returns (
        subst (λ g'. Built refs mutable h [] cap (record { ptr = p; len = 0 + tag }) g')
          (sym f.made) (unfold with_bytes in built [] f.bytes k f f.room (omega arith) refl tt))))
