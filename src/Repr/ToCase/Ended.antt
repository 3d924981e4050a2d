-- ===== src/Repr/ToCase/Ended.antt =====
-- How `to_case` (src/repr.rs) ends once the chars are mapped.
use mathlib.Core.List.{map}
use lean_string.Prelude.{
  ℕ, ◌≡◌, refl, sym, ap, subst, ◌∙◌, Bool, true, false, Option, none, some, List, [], ◌∷◌, ◌++◌,
  append_assoc, arith, ◌==◌, ==_iff, inl, inr, Bool-cases, get_or, ltb→lt, All,
}
use lean_string.Utf8.{Bytes, IsScalar, IsUtf8, encode}
use lean_string.Memory.{Heap, Allocator, Outcome, M, and_then}
use lean_string.Memory.Ends.{Ends, returns, fails, bind, weaken}
use lean_string.Memory.Counted.{Counted, Same, Same-trans}
use lean_string.HeapBuffer.{mutable}
use lean_string.Case.{Case, lower, upper, is_ascii, ascii_mapped}
use lean_string.Case.Unicode.{Unicode, capital_sigma, small_sigma, mapped_chars}
use lean_string.Case.Unicode.Splits.{Fixed}
use lean_string.Repr.{Repr, State, drop_in}
use lean_string.Repr.Owns.{Owns, Keeps}
use lean_string.Repr.Place.{at_state}
use lean_string.Repr.Room.{drop_in-Counted}
use lean_string.Repr.Fresh.{from_str-New}
use lean_string.Repr.ToCase.{is_sigma, finished}
use lean_string.Repr.ToCase.Pushes.{Mapped, all_mapped, at_sigma, out_of_room}

-- A new string with the text, or none where the text stays as it is.
pub data CaseMapped (refs : ℕ → ℕ) (h : Heap) (text new : Bytes) : Option Repr → Heap → Type 0 where
  same_text : {g : Heap} → new ≡ text → g ≡ h → CaseMapped refs h text new none g
  new_text :
      {q : Repr} {g : Heap}
      → Owns refs mutable (at_state q g) new
      → Same refs h g
      → CaseMapped refs h text new (some q) g

-- Nothing is left behind.
abbrev pub Cleared : (ℕ → ℕ) → Heap → Heap → Type 0
Cleared refs h g = Counted refs g × Same refs h g

pub mapped_chars-append :
    (f : ℕ → List ℕ) (cs ds : List ℕ)
    → mapped_chars f (cs ++ ds) ≡ mapped_chars f cs ++ mapped_chars f ds
unfolding mapped_chars
mapped_chars-append f [] ds = refl
mapped_chars-append f (c ∷ cs) ds =
    ap (λ t. f c ++ t) (mapped_chars-append f cs ds)
    ∙ sym (append_assoc (f c) (mapped_chars f cs) (mapped_chars f ds))

-- 'Σ' changes.
not_sigma : (u : Unicode) (k : Case) (c : ℕ) → Fixed u k c → is_sigma k c ≡ false
unfolding is_sigma
not_sigma u lower c fix = elim (Bool-cases (c == capital_sigma)) [
  | inl e ↦
      let at : c ≡ capital_sigma = (==_iff c capital_sigma).0 e in
      let same : capital_sigma ∷ [] ≡ small_sigma ∷ [] =
        sym (subst (Fixed u lower) at fix) ∙ u.sigma_case in
      absurd (omega (arith, ap (λ l. get_or l 0 0) same))
  | inr e ↦ e
]
not_sigma u upper c fix = refl

module _ (u : Unicode) (case : Case) where
  abbrev pub Other : ℕ → Type 0
  Other c = is_sigma case c ≡ false

  pub ascii_chars :
      (cs : List ℕ)
      → All (λ c. is_ascii c ≡ true) cs
      → mapped_chars (u.to_char_case case) cs ≡ map (ascii_mapped case) cs
  unfolding mapped_chars
  ascii_chars [] all = refl
  ascii_chars (c ∷ cs) (small, all) =
      ap (λ t. t ++ mapped_chars (u.to_char_case case) cs)
        (u.ascii_case case c (ltb→lt c 128 small))
      ∙ ap (λ t. ascii_mapped case c ∷ t) (ascii_chars cs all)

  pub ascii-Other : (cs : List ℕ) → All (λ c. is_ascii c ≡ true) cs → All Other cs
  unfolding is_sigma
  ascii-Other [] all = tt
  ascii-Other (c ∷ cs) (small, all) = (one case, ascii-Other cs all)
    where
      one : (k : Case) → is_sigma k c ≡ false
      one lower = ground arith
      one upper = refl

  pub Fixed-Other : (cs : List ℕ) → All (Fixed u case) cs → All Other cs
  Fixed-Other [] all = tt
  Fixed-Other (c ∷ cs) (fix, all) = (not_sigma u case c fix, Fixed-Other cs all)

  -- The mapping of a text by chars is that of the standard library.
  pub text_mapped :
      (cs : List ℕ)
      → All IsScalar cs
      → All Other cs
      → encode (mapped_chars (u.to_char_case case) cs) ≡ u.to_text_case case (encode cs)
  text_mapped cs sc other = by_case case other
    where
      unfolded :
          (cs : List ℕ)
          → All (λ c. is_sigma lower c ≡ false) cs
          → All (λ c. (c == capital_sigma) ≡ false) cs
      unfolded cs other = unfold is_sigma in other

      by_case :
          (k : Case)
          → All (λ c. is_sigma k c ≡ false) cs
          → encode (mapped_chars (u.to_char_case k) cs) ≡ u.to_text_case k (encode cs)
      by_case lower other = sym (u.text_lower cs sc (unfolded cs other))
      by_case upper other = sym (u.text_upper cs sc)

module _ ⦃A : Allocator⦄ (u : Unicode) (case : Case) {refs : ℕ → ℕ} {h : Heap} where
  -- The local string is dropped.
  drop_local :
      {s : State} {text : Bytes} {P : Option Repr → Heap → Type 0} {next : M Heap (Option Repr)}
      → Keeps refs mutable h text s
      → ((g : Heap) → Cleared refs h g → Ends P (Cleared refs h) (next g))
      → Ends P (Cleared refs h) (and_then (drop_in mutable s.self s.heap) (λ _. next))
  drop_local k go =
      bind (drop_in-Counted {E = Cleared refs h} k.owns.content k.owns.counted)
        (λ _ g p. go g (p.0, Same-trans k.same p.1))

  pub finished-CaseMapped :
      {text : Bytes} {ks cs : List ℕ} {o : Outcome State Bool}
      → IsUtf8 text
      → (All (λ c. is_sigma case c ≡ false) cs
          → encode (ks ++ mapped_chars (u.to_char_case case) cs) ≡ u.to_text_case case text)
      → Mapped u case refs h ks cs o
      → Ends
          (CaseMapped refs h text (u.to_text_case case text))
          (Cleared refs h)
          (finished u text o)
  finished-CaseMapped v e (all_mapped {s} other k) =
      returns (new_text (subst (λ x. Owns refs mutable s x) (e other) k.owns) k.same)
  finished-CaseMapped {text} v e (at_sigma low k) = drop_local k λ g clear.
      bind
        (weaken
          (from_str-New clear.0 mutable (u.to_text_case lower text) (u.text_valid lower text v))
          (λ q g' n. n) (λ g' x. subst (Cleared refs h) (sym x) clear))
        (λ q g' n. returns (
          new_text
            (subst (λ c. Owns refs mutable (at_state q g') (u.to_text_case c text)) (sym low)
              n.owns)
            (Same-trans clear.1 n.same)))
  finished-CaseMapped v e (out_of_room k) = drop_local k (λ g clear. fails clear)
