-- ===== src/Repr/Retain/Loop.antt =====
-- The loop of `retain` moves the retained chars to the front.
use lean_string.Prelude.{
  ℕ, zero, suc, ◌+◌, ◌-◌, ◌≤◌, ◌≡◌, refl, List, [], ◌∷◌, ◌++◌, append_assoc, arith, length, All,
}
use lean_string.Utf8.{IsScalar, len_utf8, encode}
use lean_string.Memory.Ends.{Ends, returns, bind, weaken}
use lean_string.Repr.{State}
use lean_string.Repr.Place.{read_at-bytes}
use lean_string.Repr.Retain.{Predicate, keep_loop}
use lean_string.Repr.Retain.Chars.{panics, holds, refuses, answer, retained, next_of_first}
use lean_string.Repr.Retain.Running.{
  Running, skipped, Compacted, put_char, earlier, finished, at_end, inside,
}

module _ {P : Type 0} (predicate : Predicate P) {refs : ℕ → ℕ} {E : State → Type 0} (len : ℕ) where
  pub keep_loop-Compacted :
      (fuel : ℕ) (p : P) (src dst : ℕ) (ks es : List ℕ) (s : State)
      → length es ≤ fuel
      → All IsScalar es
      → Running refs len src dst ks es s
      → Ends
          (λ k t.
            (k.1 ≡ (retained predicate p es).1)
            × Compacted refs s.heap (ks ++ (retained predicate p es).0) k.0 t)
          E
          (keep_loop predicate fuel p len src dst s)
  unfolding keep_loop retained
  keep_loop-Compacted zero p src dst ks [] s enough sc i = returns (refl, finished len i)
  keep_loop-Compacted zero p src dst ks (c ∷ es) s enough sc i = absurd (omega arith)
  keep_loop-Compacted (suc fuel) p src dst ks [] s enough sc i =
      rw (at_end len i) (returns (refl, finished len i))
  keep_loop-Compacted (suc fuel) p src dst ks (c ∷ es) s enough (sc, scs) i =
      let rest : len - src ≡ length (encode (c ∷ es)) = omega (arith, i.ends) in
      rw (inside len i, read_at-bytes src (len - src) i.opened (omega (arith, i.ends, i.room)))
        (rw (rest, i.left, next_of_first c es sc)
          (elim (answer (predicate p c)) [
            | panics said ↦ rw said (returns (refl, finished len i))
            | holds q said ↦ rw said (
                bind (put_char {E = E} i sc) λ _ t next.
                  weaken
                    (keep_loop-Compacted fuel q (src + len_utf8 c) (dst + len_utf8 c)
                      (ks ++ (c ∷ [])) es t (omega arith) scs next.0)
                    (λ _ u k. (
                      k.0,
                      earlier next.1 (append_assoc ks (c ∷ []) (retained predicate q es).0) k.1,
                    ))
                    (λ u x. x))
            | refuses q said ↦ rw said (
                keep_loop-Compacted fuel q (src + len_utf8 c) dst ks es s (omega arith) scs
                  (skipped i sc))
          ]))
