-- ===== src/LeanString/Utf16/Decoded.antt =====
-- What the UTF-16 constructors return.
use mathlib.Core.List.{map}
use lean_string.Prelude.{
  ℕ, ◌<◌, ◌≡◌, refl, sym, ap, subst, ◌∙◌, inr, Bool, true, false, Option, none, some, List, [], ◌∷◌,
  ◌++◌, append-nil, append_assoc, arith, length, All,
}
use lean_string.Utf8.{Bytes, encode_utf8, encode}
use lean_string.Utf8.Shape.{encode-append}
use lean_string.Utf8.Utf16.{decode_utf16, IsScalarOr, decode_utf16-scalars}
use lean_string.Memory.{Heap, Allocator, Outcome, M, done, panicked, and_then}
use lean_string.Memory.Ends.{Ends, returns, fails}
use lean_string.Memory.Counted.{Counted, Same, Same-refl, Same-trans}
use lean_string.HeapBuffer.{mutable}
use lean_string.Repr.{Repr, State}
use lean_string.Repr.Owns.{Owns, Keeps}
use lean_string.Repr.Place.{at_state}
use lean_string.Repr.Room.{drop_in-Counted}
use lean_string.Repr.Fill.{Keeps-after}
use lean_string.Repr.Convert.Change.{Never}
use lean_string.Repr.Text.{push_char-appends}
use lean_string.Repr.Literal.{Empty, with_capacity-Empty}
use lean_string.LeanString.{try_push, push, drop_string, unwrapped, unwrap_with_msg}
use lean_string.LeanString.Make.{try_with_capacity, with_capacity}
use lean_string.LeanString.Utf16.{
  or_replacement, returned, push_units, with_units, from_utf16, from_utf16_lossy,
}

-- How the loop ends: with all chars behind those there were, at a lone surrogate, or in a panic, and
-- what others refer to is as in `h`.
data Pushed (refs : ℕ → ℕ) (h : Heap) (ks : List ℕ) (units : List (Option ℕ))
    : Outcome State Bool → Type 0 where
  all_pushed :
      {s : State} (cs : List ℕ)
      → units ≡ map some cs
      → Keeps refs mutable h (encode (ks ++ cs)) s
      → Pushed refs h ks units (done true s)
  stopped :
      {s : State} (before : List ℕ) (after : List (Option ℕ)) {text : Bytes}
      → units ≡ map some before ++ (none ∷ after)
      → Keeps refs mutable h text s
      → Pushed refs h ks units (done false s)
  interrupted :
      {s : State} {text : Bytes} → Keeps refs mutable h text s → Pushed refs h ks units (panicked s)

next_char-Pushed :
    {refs : ℕ → ℕ} {h : Heap} {ks : List ℕ} (c : ℕ) {units : List (Option ℕ)}
    {o : Outcome State Bool}
    → Pushed refs h (ks ++ (c ∷ [])) units o
    → Pushed refs h ks (some c ∷ units) o
next_char-Pushed {refs} {h} {ks} c (all_pushed {s} cs e k) =
    all_pushed (c ∷ cs) (ap (λ t. some c ∷ t) e)
      (subst (λ x. Keeps refs mutable h (encode x) s) (append_assoc ks (c ∷ []) cs) k)
next_char-Pushed c (stopped before after e k) =
    stopped (c ∷ before) after (ap (λ t. some c ∷ t) e) k
next_char-Pushed c (interrupted k) = interrupted k

encode_nothing : encode [] ≡ []
unfolding encode
encode_nothing = refl

encode_snoc : (ks : List ℕ) (c : ℕ) → encode ks ++ encode_utf8 c ≡ encode (ks ++ (c ∷ []))
unfolding encode
encode_snoc ks c =
    ap (λ t. encode ks ++ t) (sym (append-nil (encode_utf8 c))) ∙ sym (encode-append ks (c ∷ []))

-- A call of `push`, which panics where `try_push` fails.
after_push :
    {refs : ℕ → ℕ} {h : Heap} {ks : List ℕ} {units : List (Option ℕ)} {s : State} {new text : Bytes}
    {o : Outcome State (Unit {0})} {next : M State Bool}
    → Keeps refs mutable h text s
    → Ends (λ _ t. Keeps refs mutable s.heap new t) (λ t. t ≡ s) o
    → ((t : State) → Keeps refs mutable s.heap new t → Pushed refs h ks units (next t))
    → Pushed refs h ks units (and_then (unwrapped o) (λ _. next))
after_push k (returns p) go = go _ p
after_push {refs} {h} {ks} {units} k (fails e) go =
    subst (λ t. Pushed refs h ks units (panicked t)) (sym e) (interrupted k)

module _ ⦃A : Allocator⦄ {refs : ℕ → ℕ} {h : Heap} where
  pushes :
      (ks : List ℕ) (units : List (Option ℕ)) (s : State)
      → All IsScalarOr units
      → Keeps refs mutable h (encode ks) s
      → Pushed refs h ks units (push_units units s)
  unfolding push_units push unwrap_with_msg try_push
  pushes ks [] s sc k =
      all_pushed [] refl (subst (λ x. Keeps refs mutable h (encode x) s) (sym (append-nil ks)) k)
  pushes ks (none ∷ units) s sc k = stopped [] units refl k
  pushes ks (some c ∷ units) s (sc, scs) k = next_char-Pushed c (
      after_push k (push_char-appends k.owns c sc) (λ t new.
        pushes (ks ++ (c ∷ [])) units t scs
          (subst (λ x. Keeps refs mutable h x t) (encode_snoc ks c) (Keeps-after k.same new))))

-- What is returned: a sound string of the chars; or the error, if a surrogate has no partner; or a
-- panic, if memory runs out. The last two leave no reference behind.
pub data Decodes (refs : ℕ → ℕ) (h : Heap) (units : List (Option ℕ))
    : Outcome Heap (Option Repr) → Type 0 where
  decoded :
      {q : Repr} {g : Heap} (cs : List ℕ)
      → units ≡ map some cs
      → Owns refs mutable (at_state q g) (encode cs)
      → Same refs h g
      → Decodes refs h units (done (some q) g)
  lone_surrogate :
      {g : Heap} (before : List ℕ) (after : List (Option ℕ))
      → units ≡ map some before ++ (none ∷ after)
      → Counted refs g
      → Same refs h g
      → Decodes refs h units (done none g)
  out_of_memory : {g : Heap} → Counted refs g → Same refs h g → Decodes refs h units (panicked g)

module _ {refs : ℕ → ℕ} {h : Heap} {units : List (Option ℕ)} {s : State} {text : Bytes} where
  -- The local string is dropped.
  drop_local :
      {next : M Heap (Option Repr)}
      → Keeps refs mutable h text s
      → ((g : Heap) → Counted refs g → Same refs h g → Decodes refs h units (next g))
      → Decodes refs h units (and_then (drop_string s.self s.heap) (λ _. next))
  unfolding drop_string
  drop_local {next} k go = after (drop_in-Counted {E = Never} k.owns.content k.owns.counted)
    where
      after :
          {o : Outcome Heap (Unit {0})}
          → Ends (λ _ g. Counted refs g × Same refs s.heap g) Never o
          → Decodes refs h units (and_then o (λ _. next))
      after (returns p) = go _ p.0 (Same-trans k.same p.1)
      after (fails e) = absurd e

returned-Decodes :
    {refs : ℕ → ℕ} {h : Heap} {units : List (Option ℕ)} {o : Outcome State Bool}
    → Pushed refs h [] units o
    → Decodes refs h units (returned o)
returned-Decodes (all_pushed cs e k) = decoded cs e k.owns k.same
returned-Decodes (stopped before after e k) =
    drop_local k (λ g c same. lone_surrogate before after e c same)
returned-Decodes (interrupted k) = drop_local k (λ g c same. out_of_memory c same)

replaced-scalars :
    (units : List (Option ℕ))
    → All IsScalarOr units
    → All IsScalarOr (map (λ u. some (or_replacement u)) units)
replaced-scalars [] h = tt
replaced-scalars (none ∷ units) (sc, h) = (inr (omega arith, omega arith), replaced-scalars units h)
replaced-scalars (some c ∷ units) (sc, h) = (sc, replaced-scalars units h)

module _ ⦃A : Allocator⦄ {refs : ℕ → ℕ} {h : Heap} (k : Counted refs h) where
  from_units :
      (units : List (Option ℕ)) (capacity : ℕ)
      → All IsScalarOr units
      → Decodes refs h units (with_units units capacity h)
  unfolding with_capacity unwrap_with_msg try_with_capacity
  from_units units capacity sc = made (with_capacity-Empty capacity k)
    where
      made :
          {o : Outcome Heap Repr}
          → Ends (Empty refs h capacity) (λ g. g ≡ h) o
          → Decodes refs h units (
              and_then
                (unwrapped o)
                (λ ret g. returned (push_units units (record { self = ret; heap = g }))))
      made (returns {a = q} {s = g} e) = returned-Decodes (
          pushes [] units (at_state q g) sc (record {
            owns = subst (Owns refs mutable (at_state q g)) (sym encode_nothing) e.fresh.owns;
            same = e.fresh.same;
          }))
      made (fails e) =
          subst (λ g. Decodes refs h units (panicked g)) (sym e)
            (out_of_memory k (Same-refl refs h))

  -- Where all reference counts are right and for words of 16 bits, `from_utf16` returns a sound
  -- string of exactly the chars that `decode_utf16` gives, or the error where a surrogate has
  -- no partner, or panics; the last two leave all reference counts right, and what others refer
  -- to is unchanged in every case.
  pub from_utf16-Decodes :
      (buf : List ℕ)
      → All (λ u. u < 0x10000) buf
      → Decodes refs h (decode_utf16 buf) (from_utf16 buf h)
  unfolding from_utf16
  from_utf16-Decodes buf words =
      from_units (decode_utf16 buf) (length buf) (decode_utf16-scalars buf words)

  -- The same for the chars with the replacement character in the place of each lone surrogate.
  pub from_utf16_lossy-Decodes :
      (buf : List ℕ)
      → All (λ u. u < 0x10000) buf
      → Decodes refs h
          (map (λ u. some (or_replacement u)) (decode_utf16 buf))
          (from_utf16_lossy buf h)
  unfolding from_utf16_lossy
  from_utf16_lossy-Decodes buf words =
      from_units (map (λ u. some (or_replacement u)) (decode_utf16 buf)) (length buf)
        (replaced-scalars (decode_utf16 buf) (decode_utf16-scalars buf words))
