-- ===== src/Repr/Convert/Consumed.antt =====
-- What becomes of a string that a conversion consumes.
use lean_string.Prelude.{ℕ, ◌≡◌, refl}
use lean_string.Utf8.{Bytes}
use lean_string.Memory.{Heap, done, M, pure, fail, ◌>>◌}
use lean_string.Memory.Ends.{Ends, returns, fails, bind}
use lean_string.Memory.Counted.{Counted, Same}
use lean_string.HeapBuffer.{Mutability}
use lean_string.Repr
use lean_string.Repr.{Repr, drop_in}
use lean_string.Repr.Owns.{Owns}
use lean_string.Repr.Place.{at_state}
use lean_string.Repr.Queries.{inline_not_heap}
use lean_string.Repr.Fresh.{empty-InInline}
use lean_string.Repr.Room.{drop_in-Counted}
use lean_string.Repr.Convert.{Conversion, converted, kept}
use lean_string.Repr.Convert.Change.{Converted, changed, unchanged}

-- The string has moved into one of the other kind.
pub record Moved (refs : ℕ → ℕ) (m : Mutability) (h : Heap) (text : Bytes) (q : Repr) (g : Heap)
    : Type 0 where
  pub owns : Owns refs m (at_state q g) text
  pub same : Same refs h g

-- The string is gone, and its reference with it.
pub record Gone (refs : ℕ → ℕ) (h g : Heap) : Type 0 where
  pub counted : Counted refs g
  pub same : Same refs h g

module _ {refs : ℕ → ℕ} {m m' : Mutability} {h : Heap} {r : Repr} {text : Bytes}
    (o : Owns refs m (at_state r h) text) where
  -- What follows a conversion either moves the string or drops it.
  pub after_conversion :
      (after : Conversion → M Heap Repr)
      → ((q : Repr) (g : Heap) → after (converted q) g ≡ pure q g)
      → ((r : Repr) (g : Heap) → after (kept r) g ≡ (drop_in m r >> fail) g)
      → (c : Conversion) (g : Heap) → Converted refs m' h r text c g
      → Ends (Moved refs m' h text) (Gone refs h) (after c g)
  after_conversion after good bad c g (changed {q} own same) =
      rw (good q g) (returns (record { owns = own; same = same }))
  after_conversion after good bad c g (unchanged {q} e f) =
      rw (bad q g, e, f)
        (bind (drop_in-Counted {E = Gone refs h} o.content o.counted)
          (λ _ k p. fails (record { counted = p.0; same = p.1 })))

pub nothing_to_drop : (m : Mutability) (g : Heap) → drop_in m Repr.new g ≡ done tt g
unfolding Repr.new drop_in
nothing_to_drop m g = rw (inline_not_heap empty-InInline) refl
