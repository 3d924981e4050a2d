-- ===== src/LeanString/Collect/Owned.antt =====
-- What `extend` over strings leaves: each item is read, appended and dropped.
use lean_string.Prelude.{ℕ, ◌≡◌, refl, sym, ap, subst, List, [], ◌∷◌, ◌++◌}
use lean_string.Utf8.{Bytes, IsUtf8}
use lean_string.Utf8.Chars.{joined}
use lean_string.Memory.{Heap, Allocator, Outcome, done, failed, panicked, fault, M, panic, and_then}
use lean_string.Memory.Ends.{Ends, returns, fails, weaken}
use lean_string.Memory.Counted.{Counted, Same, Same-trans}
use lean_string.HeapBuffer.{Mutability, mutable}
use lean_string.Repr.{Repr, State, with_heap, reading, drop_in}
use lean_string.Repr.Owns.{Content, with_self, Owns, Keeps}
use lean_string.Repr.Place.{at_state}
use lean_string.Repr.Queries.{as_bytes_lem}
use lean_string.Repr.Room.{Content-Same, Same-with_self, Counted-ext, drop_in-Counted}
use lean_string.Repr.Fresh.{with_self-swap}
use lean_string.Repr.Fill.{Keeps-after}
use lean_string.Repr.Text.{unchanged, push_str-appends}
use lean_string.Repr.Appends.{none_yet, one_more}
use lean_string.LeanString.{unwrapped, unwrap_with_msg, push_str, try_push_str}
use lean_string.LeanString.Collect.{drop_iter, drop_item, extend_owned}

-- Strings with their texts.
abbrev pub Items : Type 0
Items = List (Repr × Bytes)

abbrev pub strings : Items → List Repr
strings [] = []
strings ((r, text) ∷ items) = r ∷ strings items

abbrev pub texts : Items → List Bytes
texts [] = []
texts ((r, text) ∷ items) = text ∷ texts items

-- The references there are, those of the items included.
abbrev pub with_items : (ℕ → ℕ) → Items → ℕ → ℕ
with_items refs [] = refs
with_items refs ((r, text) ∷ items) = with_self (with_items refs items) r

abbrev pub AllContent : Mutability → Heap → Items → Type 0
AllContent m h [] = Unit {0}
AllContent m h ((r, text) ∷ items) = (IsUtf8 text × Content m h r text) × AllContent m h items

pub AllContent-Same :
    (m : Mutability) (refs : ℕ → ℕ) (items : Items) {h g : Heap}
    → AllContent m h items
    → Same (with_items refs items) h g
    → AllContent m g items
AllContent-Same m refs [] all s = tt
AllContent-Same m refs ((r, text) ∷ items) ((u, c), all) s = (
  (u, Content-Same (with_items refs items) c s),
  AllContent-Same m refs items all (Same-with_self (with_items refs items) r s),
)

-- The items are gone; and the texts of all of them stand behind the text, or there is a panic at one
-- of them, and the texts of those before it stand there.
pub data Drained (refs : ℕ → ℕ) (m : Mutability) (h : Heap) (text : Bytes) (items : Items)
    : Outcome State (Unit {0}) → Type 0 where
  drained :
      {s : State}
      → Keeps refs mutable h (text ++ joined (texts items)) s
      → Drained refs m h text items (done tt s)
  interrupted :
      {s : State} (before : Items) (item : Repr × Bytes) (after : Items)
      → before ++ (item ∷ after) ≡ items
      → Keeps refs mutable h (text ++ joined (texts before)) s
      → Drained refs m h text items (panicked s)

module _ {refs : ℕ → ℕ} {m : Mutability} {h : Heap} {text : Bytes} where
  Drained-cons :
      {r : Repr} {piece : Bytes} {items : Items} {o : Outcome State (Unit {0})}
      → Drained refs m h (text ++ piece) items o
      → Drained refs m h text ((r, piece) ∷ items) o
  Drained-cons {piece} {items} (drained k) = drained (one_more text piece (texts items) k)
  Drained-cons {r} {piece} (interrupted before item after e k) =
      interrupted ((r, piece) ∷ before) item after (ap (λ t. (r, piece) ∷ t) e)
        (one_more text piece (texts before) k)

-- An item is dropped beside a string.
module _ {refs : ℕ → ℕ} {m : Mutability} {h : Heap} {r : Repr} {piece text : Bytes} {s : State}
    (c : Content m h r piece) (k : Keeps (with_self refs r) mutable h text s) where
  item_gone :
      {E : State → Type 0}
      → Ends (λ _ t. Keeps refs mutable h text t) E (reading (λ _. drop_in m r) s)
  item_gone {E} = by_drop (
      drop_in-Counted {refs = with_self refs s.self} {E = λ _. ⊥} (Content-Same refs c k.same)
        (Counted-ext (with_self-swap refs r s.self) k.owns.counted))
    where
      by_drop :
          {o : Outcome Heap (Unit {0})}
          → Ends
              (λ _ g. Counted (with_self refs s.self) g × Same (with_self refs s.self) s.heap g)
              (λ _. ⊥)
              o
          → Ends (λ _ t. Keeps refs mutable h text t) E (with_heap s.self o)
      by_drop (returns p) = returns (record {
        owns = record {
          valid = k.owns.valid;
          content = Content-Same refs k.owns.content p.1;
          counted = p.0;
        };
        same = Same-trans (Same-with_self refs r k.same) (Same-with_self refs s.self p.1);
      })
      by_drop (fails e) = absurd e

Same-with_items :
    (refs : ℕ → ℕ) (items : Items) {h g : Heap} → Same (with_items refs items) h g → Same refs h g
Same-with_items refs [] same = same
Same-with_items refs ((r, text) ∷ items) same =
    Same-with_items refs items (Same-with_self (with_items refs items) r same)

-- Two drops beside a string.
then_drop :
    {P Q : State → Type 0} {E : State → Type 0} {q : Repr} (o : Outcome Heap (Unit {0}))
    (next : M Heap (Unit {0}))
    → Ends (λ _ t. P t) (λ _. ⊥) (with_heap q o)
    → ((g : Heap) → P (at_state q g) → Ends (λ _ t. Q t) E (with_heap q (next g)))
    → Ends (λ _ t. Q t) E (with_heap q (and_then o (λ _. next)))
then_drop (done a g) next (returns p) go = go g p
then_drop (failed g) next (fails e) go = absurd e
then_drop (panicked g) next x go = elim x [ ]
then_drop fault next x go = elim x [ ]

-- The iterator is dropped beside a string.
iter_gone :
    (m : Mutability) {refs : ℕ → ℕ} (items : Items) {h : Heap} {text : Bytes} {s : State}
    {E : State → Type 0}
    → AllContent m s.heap items
    → Keeps (with_items refs items) mutable h text s
    → Ends (λ _ t. Keeps refs mutable h text t) E (reading (λ _. drop_iter m (strings items)) s)
unfolding drop_iter
iter_gone m [] all k = returns k
iter_gone m {refs} ((r, piece) ∷ items) {s = s} ((v, c), all) k =
    then_drop (drop_in m r s.heap) (drop_iter m (strings items)) (item_gone c (unchanged k.owns))
      λ g q.
        weaken (iter_gone m items (AllContent-Same m refs items all q.same) q)
          (λ _ t x. Keeps-after (Same-with_items refs ((r, piece) ∷ items) k.same) x) (λ t e. e)

module _ ⦃A : Allocator⦄ {refs : ℕ → ℕ} {m : Mutability} {h : Heap} where
  -- What follows an item that is appended, or panics where it cannot be.
  after_item :
      {r : Repr} {piece text : Bytes} {items : Items} {s : State} {o : Outcome State (Unit {0})}
      {next : M State (Unit {0})}
      → IsUtf8 piece × Content m s.heap r piece
      → AllContent m s.heap items
      → Keeps (with_self (with_items refs items) r) mutable h text s
      → Ends
          (λ _ t. Keeps (with_self (with_items refs items) r) mutable s.heap (text ++ piece) t)
          (λ t. t ≡ s)
          o
      → ((t : State)
          → AllContent m t.heap items
          → Keeps (with_items refs items) mutable h (text ++ piece) t
          → Drained refs m h (text ++ piece) items (next t))
      → Drained refs m h text
          ((r, piece) ∷ items)
          (and_then (drop_item m r (strings items) (unwrapped o)) (λ _. next))
  after_item {r} {piece} {text} {items} {s} {next} (v, c) all k (returns p) go =
      dropped (item_gone c p)
    where
      dropped :
          {o : Outcome State (Unit {0})}
          → Ends (λ _ t. Keeps (with_items refs items) mutable s.heap (text ++ piece) t) (λ _. ⊥) o
          → Drained refs m h text ((r, piece) ∷ items) (and_then o (λ _. next))
      dropped (returns q) = Drained-cons (
          go _ (AllContent-Same m refs items all q.same)
            (Keeps-after (Same-with_self (with_items refs items) r k.same) q))
      dropped (fails e) = absurd e
  after_item {r} {piece} {text} {items} {s} {next} (v, c) all k (fails e) go =
      subst
        (λ t.
          Drained refs m h text ((r, piece) ∷ items)
            (and_then (drop_item m r (strings items) (panicked t)) (λ _. next)))
        (sym e) (dropped (iter_gone m ((r, piece) ∷ items) ((v, c), all) (unchanged k.owns)))
    where
      dropped :
          {o : Outcome State (Unit {0})}
          → Ends (λ _ t. Keeps refs mutable s.heap text t) (λ _. ⊥) o
          → Drained refs m h text
              ((r, piece) ∷ items)
              (and_then {A = Unit {0}} (and_then o (λ _. panic)) (λ _. next))
      dropped (returns q) =
          interrupted [] (r, piece) items refl
            (none_yet text (Keeps-after (Same-with_items refs ((r, piece) ∷ items) k.same) q))
      dropped (fails e) = absurd e

  items-Drained :
      (items : Items) (text : Bytes) (s : State)
      → AllContent m s.heap items
      → Keeps (with_items refs items) mutable h text s
      → Drained refs m h text items (extend_owned m (strings items) s)
  unfolding extend_owned push_str unwrap_with_msg try_push_str
  items-Drained [] text s all k = drained (none_yet text k)
  items-Drained ((r, piece) ∷ items) text s ((v, c), all) k = rw (as_bytes_lem c) (
      after_item (v, c) all k (push_str-appends k.owns piece v)
        (λ t all' q. items-Drained items (text ++ piece) t all' q))

-- On a sound string and for an iterator that holds sound strings of either kind, `extend`
-- returns with the texts of all items behind the text, or panics at an item with the texts of
-- those before it behind the text. In both cases the string is sound, all items are dropped,
-- those that were not given before the panic included, and everything else that others refer to
-- is unchanged.
pub extend_owned-Drained :
    ⦃A : Allocator⦄ {refs : ℕ → ℕ} {m : Mutability} {s : State} {text : Bytes} (items : Items)
    → AllContent m s.heap items
    → Owns (with_items refs items) mutable s text
    → Drained refs m s.heap text items (extend_owned m (strings items) s)
extend_owned-Drained {s} {text} items all o = items-Drained items text s all (unchanged o)
