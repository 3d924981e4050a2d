-- ===== src/LeanString/Beside.antt =====
-- How a call of src/lib.rs ends that makes a string.
use lean_string.Prelude.{ℕ, []}
use lean_string.Utf8.{Bytes}
use lean_string.Utf8.Shape.{IsUtf8-nil}
use lean_string.Memory.{Heap, Outcome, done, panicked}
use lean_string.Memory.Ends.{Ends, returns, fails}
use lean_string.Memory.Counted.{Counted, Same, Same-trans}
use lean_string.HeapBuffer.{Mutability, mutable}
use lean_string.Repr
use lean_string.Repr.{Repr}
use lean_string.Repr.Fresh.{inline-New, empty-InInline}
use lean_string.Repr.Owns.{with_self, Owns}
use lean_string.Repr.Place.{at_state}
use lean_string.Repr.Share.{Cloned, cloned, too_many}
use lean_string.Repr.Convert.Consumed.{Moved, Gone}
use lean_string.LeanString.{unwrapped}
use lean_string.LeanString.Make

-- A sound string with the text beside those that `refs` counts; or a panic that leaves no reference.
pub data Beside (refs : ℕ → ℕ) (m : Mutability) (h : Heap) (text : Bytes)
    : Outcome Heap Repr → Type 0 where
  made :
      {q : Repr} {g : Heap}
      → Owns refs m (at_state q g) text
      → Same refs h g
      → Beside refs m h text (done q g)
  out_of_memory : {g : Heap} → Counted refs g → Same refs h g → Beside refs m h text (panicked g)

pub Cloned-Beside :
    {refs : ℕ → ℕ} {m : Mutability} {h : Heap} {r : Repr} {text : Bytes} {o : Outcome Heap Repr}
    → Cloned refs m h r text o
    → Beside (with_self refs r) m h text o
Cloned-Beside (cloned own same) = made own same
Cloned-Beside (too_many n own same) = out_of_memory own.counted same

pub Moved-Beside :
    {refs : ℕ → ℕ} {m : Mutability} {h k : Heap} {text : Bytes} {o : Outcome Heap Repr}
    → Same refs h k
    → Ends (Moved refs m k text) (Gone refs k) o
    → Beside refs m h text (unwrapped o)
Moved-Beside same (returns q) = made q.owns (Same-trans same q.same)
Moved-Beside same (fails q) = out_of_memory q.counted (Same-trans same q.same)

-- The new string is empty.
pub new-Owns :
    {refs : ℕ → ℕ} {h : Heap} → Counted refs h → Owns refs mutable (at_state Make.new h) []
unfolding Make.new Repr.new
new-Owns k = (inline-New k IsUtf8-nil empty-InInline).owns
