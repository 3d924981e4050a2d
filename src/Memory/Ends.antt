-- ===== src/Memory/Ends.antt =====
-- Postconditions of calls.
use lean_string.Memory.{Outcome, done, failed, M, and_then}

-- The call returns with `P`, or fails with `E`; it neither panics nor faults.
pub data Ends {S A : Type 0} (P : A → S → Type 0) (E : S → Type 0) : Outcome S A → Type 0 where
  returns : {a : A} {s : S} → P a s → Ends P E (done a s)
  fails : {s : S} → E s → Ends P E (failed s)

module _ {S A B : Type 0} {P : A → S → Type 0} {E : S → Type 0} {Q : B → S → Type 0} where
  pub bind :
      {r : Outcome S A} {k : A → M S B}
      → Ends P E r
      → ((a : A) (s : S) → P a s → Ends Q E (k a s))
      → Ends Q E (and_then r k)
  bind (returns p) next = next _ _ p
  bind (fails e) next = fails e

module _ {S A : Type 0} {P Q : A → S → Type 0} {E F : S → Type 0} where
  pub weaken :
      {r : Outcome S A}
      → Ends P E r
      → ((a : A) (s : S) → P a s → Q a s)
      → ((s : S) → E s → F s)
      → Ends Q F r
  weaken (returns p) good bad = returns (good _ _ p)
  weaken (fails e) good bad = fails (bad _ e)
