-- ===== src/Repr/Grow.antt =====
-- The growth of a string: `reallocate` on every representation, and the two ways to choose a capacity.
use Prim.Native.Nat.{max}
use lean_string.Prelude.{
  ℕ, ◌+◌, ◌-◌, ◌/◌, ◌≤◌, ◌≡◌, refl, ap, subst, inl, inr, true, false, arith, ltb, leb, leb→le,
  le_of_ltb-false, ◌==◌, ==_iff, Bool-cases, length,
}
use lean_string.Utf8.{Bytes, IsUtf8}
use lean_string.LastByte.{usize_max}
use lean_string.Memory.{Heap, Allocator, Outcome, and_then, M}
use lean_string.Memory.Ends.{Ends, returns, fails, weaken}
use lean_string.Memory.Counted.{count_in, plus, one_at_self, Counted, Same-refl}
use lean_string.HeapBuffer
use lean_string.HeapBuffer.{HeapBuffer, Mutability, mutable, checked_add}
use lean_string.HeapBuffer.Holds.{Holds}
use lean_string.HeapBuffer.Write.{from_str_with_capacity-Built}
use lean_string.HeapBuffer.Realloc.{realloc-Built}
use lean_string.Repr.{Repr, heap, State, with_heap, store, replace_inner}
use lean_string.Repr.Edit.{reallocate, grow_amortized, grow_exact, make_room}
use lean_string.Repr.Owns.{Content, in_inline, in_heap, in_static, Owns}
use lean_string.Repr.Queries.{
  inline_not_heap, static_not_heap, heap_is_heap, len_lem, as_bytes_lem, modifiable, is_unique_lem,
  is_modifiable_lem, capacity_of, spare_capacity_lem,
}
use lean_string.Repr.Place.{at_state}
use lean_string.Repr.Room.{Roomy, Roomy-heap, replaced_by_heap, replaced_by_inline}

module _ {A B : Type 0} {P : A → Heap → Type 0} {D : Heap → Type 0} {Q : B → State → Type 0}
    {E : State → Type 0} where
  -- A call on the heap inside a call on the string.
  pub bind_heap :
      {o : Outcome Heap A} (k : A → M State B) (r : Repr)
      → Ends P D o
      → ((a : A) (g : Heap) → P a g → Ends Q E (k a (at_state r g)))
      → ((g : Heap) → D g → E (at_state r g))
      → Ends Q E (and_then (with_heap r o) k)
  bind_heap k r (returns p) next bad = next _ _ p
  bind_heap k r (fails e) next bad = fails (bad _ e)

pub alone_of_unique :
    (refs : ℕ → ℕ) {h : Heap} (p : ℕ)
    → Counted (plus refs p) h
    → (count_in (h p) == 1) ≡ true
    → refs p ≡ 0
alone_of_unique refs p k e = omega (arith, k.counts p, (==_iff _ _).0 e, one_at_self p)

module _ ⦃A : Allocator⦄ {refs : ℕ → ℕ} {h : Heap} where
  -- A copy in a new allocation takes the place of the string.
  copied_out :
      {r : Repr} {text : Bytes} (cap : ℕ)
      → Owns refs mutable (at_state r h) text
      → length text ≤ cap
      → Ends
          (λ _ s. Roomy refs h text cap s)
          (λ s. s ≡ at_state r h)
          (and_then
            (with_heap r (HeapBuffer.from_str_with_capacity text cap h))
            λ b. replace_inner mutable (heap b))
  copied_out {r} {text} cap o fits =
      bind_heap (λ b. replace_inner mutable (heap b)) r
        (from_str_with_capacity-Built o.counted text cap fits)
        (λ b g e. replaced_by_heap b g o.valid o.content e) (λ g e. ap (at_state r) e)

  -- In place, if nothing else refers to the buffer.
  reallocated :
      {b : HeapBuffer} {text : Bytes} (cap : ℕ)
      → IsUtf8 text
      → Holds mutable h b text
      → Counted (plus refs b.ptr) h
      → (count_in (h b.ptr) == 1) ≡ true
      → length text ≤ cap
      → Ends
          (λ _ s. Roomy refs h text cap s)
          (λ s. s ≡ at_state (heap b) h)
          (and_then (with_heap (heap b) (HeapBuffer.realloc b cap h)) λ b'. store (heap b'))
  reallocated {b} {text} cap u o k one fits =
      bind_heap (λ b'. store (heap b')) (heap b)
        (realloc-Built refs o k (alone_of_unique refs b.ptr k one) cap fits)
        (λ b' g e. returns (
          subst (λ n. Roomy refs h text n (at_state (heap b') g)) e.capacity
            (Roomy-heap u e.holds e.counted e.alone e.same)))
        (λ g e. ap (at_state (heap b)) e)

  reallocate_large :
      {r : Repr} {text : Bytes} (cap : ℕ)
      → Owns refs mutable (at_state r h) text
      → Content mutable h r text
      → length text ≤ cap
      → (leb cap 16) ≡ false
      → Ends
          (λ _ s. Roomy refs h text cap s)
          (λ s. s ≡ at_state r h)
          (reallocate cap (at_state r h))
  unfolding reallocate
  reallocate_large cap o (in_inline c) fits large =
      rw (is_unique_lem o.content, large, inline_not_heap c, as_bytes_lem o.content)
        (copied_out cap o fits)
  reallocate_large cap o (in_heap {b} c) fits large = elim (Bool-cases (count_in (h b.ptr) == 1)) [
    | inl one ↦
        rw (is_unique_lem o.content, large, heap_is_heap c, one)
          (reallocated cap o.valid c o.counted one fits)
    | inr shared ↦
        rw (is_unique_lem o.content, large, heap_is_heap c, shared, as_bytes_lem o.content)
          (copied_out cap o fits)
  ]
  reallocate_large cap o (in_static c) fits large =
      rw (is_unique_lem o.content, large, static_not_heap c, as_bytes_lem o.content)
        (copied_out cap o fits)

  -- On a sound string and for a capacity that its text fits in, `reallocate` returns with the
  -- same text in a buffer that the string may write to and that has at least the capacity, with
  -- everything that others refer to unchanged, or fails and changes nothing.
  pub reallocate-Roomy :
      {r : Repr} {text : Bytes} (cap : ℕ)
      → Owns refs mutable (at_state r h) text
      → length text ≤ cap
      → Ends
          (λ _ s. Roomy refs h text cap s)
          (λ s. s ≡ at_state r h)
          (reallocate cap (at_state r h))
  reallocate-Roomy {r} {text} cap o fits = elim (Bool-cases (leb cap 16)) [
    | inl small ↦
        let le = leb→le cap 16 small in
        unfold reallocate in
        rw (is_unique_lem o.content, small, as_bytes_lem o.content)
          (replaced_by_inline cap o.valid o.content o.counted (omega arith) le)
    | inr large ↦ reallocate_large cap o o.content fits large
  ]

module _ {refs : ℕ → ℕ} {h : Heap} {text : Bytes} {small cap : ℕ} {s : State} where
  pub Roomy-less : small ≤ cap → Roomy refs h text cap s → Roomy refs h text small s
  Roomy-less le q = record {
    keeps = q.keeps;
    writable = q.writable;
    content = q.content;
    room = omega (arith, q.room);
  }

pub fits_capacity :
    {h : Heap} {r : Repr} {text : Bytes} (c : Content mutable h r text)
    → length text ≤ capacity_of c
fits_capacity (in_inline c) = c.fits
fits_capacity (in_heap c) = c.fits
fits_capacity (in_static c) = omega arith

module _ ⦃A : Allocator⦄ {refs : ℕ → ℕ} {h : Heap} {r : Repr} {text : Bytes} (n : ℕ)
    (o : Owns refs mutable (at_state r h) text) where
  -- Room for `n` more bytes, or a failure that changes nothing.
  abbrev pub Grown : M State (Unit {0}) → Type 0
  Grown call =
      Ends (λ _ s. Roomy refs h text (length text + n) s) (λ s. s ≡ at_state r h)
        (call (at_state r h))

  pub grow_amortized-Roomy : Grown (grow_amortized n)
  unfolding grow_amortized
  grow_amortized-Roomy = elim (Bool-cases (ltb usize_max (length text + n))) [
    | inl over ↦ rw (len_lem o.content, over) (fails refl)
    | inr fits ↦
        rw (len_lem o.content, fits)
          (elim (Bool-cases (leb (length text + n) 16)) [
            | inl small ↦ rw small (reallocate-Roomy (length text + n) o (omega arith))
            | inr large ↦
                let cap = max (length text + n) (length text + length text / 2) in
                let enough : length text + n ≤ cap = omega arith in
                rw large (
                  weaken (reallocate-Roomy cap o (omega (arith, enough)))
                    (λ _ s q. Roomy-less enough q) (λ s e. e))
          ])
  ]

  pub grow_exact-Roomy : Grown (grow_exact n)
  unfolding grow_exact
  grow_exact-Roomy = elim (Bool-cases (ltb usize_max (length text + n))) [
    | inl over ↦ rw (len_lem o.content, over) (fails refl)
    | inr fits ↦ rw (len_lem o.content, fits) (reallocate-Roomy (length text + n) o (omega arith))
  ]

  pub roomy :
      modifiable r h ≡ true
      → n ≤ capacity_of o.content - length text
      → Roomy refs h text (length text + n) (at_state r h)
  roomy own fits = record {
    keeps = record { owns = o; same = Same-refl refs h };
    writable = own;
    content = o.content;
    room = omega (arith, fits, fits_capacity o.content);
  }

  -- Before a write of `n` bytes: room for them in a buffer of the string's own.
  pub make_room-Roomy : (grow : ℕ → M State (Unit {0})) → Grown (grow n) → Grown (make_room grow n)
  unfolding make_room
  make_room-Roomy grow grown =
      rw (spare_capacity_lem o.content, is_modifiable_lem o.content)
        (elim (Bool-cases (modifiable r h)) [
          | inl own ↦ rw own (elim (Bool-cases (ltb (capacity_of o.content - length text) n)) [
            | inl short ↦ rw short grown
            | inr enough ↦
                rw enough (returns (roomy own (omega (arith, le_of_ltb-false _ _ enough))))
          ])
          | inr shared ↦
              rw shared (elim (Bool-cases (ltb (capacity_of o.content - length text) n)) [
                | inl short ↦ rw short grown
                | inr enough ↦ rw enough grown
              ])
        ])
