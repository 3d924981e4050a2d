-- ===== src/Tests.antt =====
-- Concrete inputs: an allocator, an inline, a heap and a static string, and the theorems applied to
-- them.
mod Buffers
mod Strings
mod Fresh
mod Values
mod Built
use lean_string.Prelude.{
  ℕ, zero, suc, ◌+◌, ◌≡◌, refl, inl, Option, none, some, List, [], ◌∷◌, ◌++◌, arith, replicate,
  length-replicate, All, take,
}
use lean_string.Utf8.{Bytes, IsScalar, IsUtf8, encode, encode_utf8, is_char_boundary}
use lean_string.Utf8.Shape.{IsUtf8-nil}
use lean_string.Memory.{Heap, Block, growable, put, Allocator, panicked}
use lean_string.Memory.Ends.{Ends}
use lean_string.Memory.Counted.{Counted, Counted-fresh}
use lean_string.HeapBuffer.{HeapBuffer, mutable}
use lean_string.HeapBuffer.Holds.{Holds}
use lean_string.HeapBuffer.TextLen
use lean_string.InlineBuffer
use lean_string.Repr.{inline, heap, State, from_str, make_shallow_clone}
use lean_string.Repr.Owns.{in_inline, in_heap, Keeps}
use lean_string.Repr.Room.{InInline-new}
use lean_string.Repr.Edit
use lean_string.Repr.Cut
use lean_string.Repr.Cut.Chars.{pop-append}
use lean_string.Repr.Cut.Remove.{remove-char, remove-panics}
use lean_string.Repr.Cut.Shorter.{truncate-takes, clear-empties}
use lean_string.LeanString.Shrink.{shrink_to-Keeps}
use lean_string.Repr.Fresh.{Own, ensure_modifiable-Own, New, from_str-New}
use lean_string.Repr.Grow.{reallocate-Roomy}
use lean_string.Repr.Room.{Roomy}
use lean_string.Repr.Fill.{inserted_at}
use lean_string.Repr.Share.{Cloned, make_shallow_clone-Cloned}
use lean_string.Repr.Text.{
  push_str-appends, push_char-appends, insert_str-inserts, insert_str-panics, insert_char-inserts,
  insert_char-panics, reserve-Roomy, reserve_exact-Roomy,
}
use lean_string.LeanString.{clone, drop_string}
use lean_string.LeanString.Sharing.{
  Happens, call, call-Happens, Duplicated, clone-Duplicated, Remains, drop_string-Remains,
}
use lean_string.LeanString.Refines.{push_str, insert_str, World, Agrees, try_call, try_call-Agrees}

abbrev pub if_free : Option Block → ℕ → Option ℕ → Option ℕ
if_free none p rest = some p
if_free (some b) p rest = rest

-- The first free place of a list.
abbrev pub free_of : List ℕ → Heap → Option ℕ
free_of [] h = none
free_of (p ∷ ps) h = if_free (h p) p (free_of ps h)

if_free-lem :
    (c : Option Block) (h : Heap) (p q : ℕ) (rest : Option ℕ)
    → h p ≡ c
    → (rest ≡ some q → h q ≡ none)
    → if_free c p rest ≡ some q
    → h q ≡ none
if_free-lem none h p q rest e later e' = grind arith
if_free-lem (some b) h p q rest e later e' = later e'

free_of-lem : (ps : List ℕ) (h : Heap) (q : ℕ) → free_of ps h ≡ some q → h q ≡ none
free_of-lem [] h q e = absurd cc
free_of-lem (p ∷ ps) h q e = if_free-lem (h p) h p q (free_of ps h) refl (free_of-lem ps h q) e

instance pub three_places : Allocator
three_places = record {
  place = λ h size. free_of (1 ∷ 2 ∷ 3 ∷ []) h;
  move_to = λ h p size. free_of (1 ∷ 2 ∷ 3 ∷ []) (put h p none);
  garbage = λ p n. replicate n 170;
  place_fresh = λ h size p e. free_of-lem (1 ∷ 2 ∷ 3 ∷ []) h p e;
  move_fresh = λ h p size q e. free_of-lem (1 ∷ 2 ∷ 3 ∷ []) (put h p none) q e;
  length-garbage = λ p n. length-replicate n 170;
}

abbrev pub empty_heap : Heap
empty_heap a = none

pub empty-Counted : Counted (λ a. 0) empty_heap
empty-Counted = record { counts = λ a. refl; bounded = λ a. omega arith; no_leak = λ a e. refl }

abbrev pub hi : Bytes
hi = 104 ∷ 105 ∷ []

pub hi-IsUtf8 : IsUtf8 hi
unfolding encode encode_utf8
hi-IsUtf8 = record {
  chars = hi;
  scalars = (inl (omega arith), (inl (omega arith), tt));
  spells = refl;
}

pub h-IsUtf8 : IsUtf8 (104 ∷ [])
unfolding encode encode_utf8
h-IsUtf8 = record { chars = 104 ∷ []; scalars = (inl (omega arith), tt); spells = refl }

pub i-IsUtf8 : IsUtf8 (105 ∷ [])
unfolding encode encode_utf8
i-IsUtf8 = record { chars = 105 ∷ []; scalars = (inl (omega arith), tt); spells = refl }

abbrev pub inline_hi : State
inline_hi = record { self = inline (InlineBuffer.new hi); heap = empty_heap }

pub inline-World : World [] inline_hi hi
inline-World = record {
  owns = record {
    valid = hi-IsUtf8;
    content = in_inline (InInline-new hi hi-IsUtf8 (omega arith));
    counted = empty-Counted;
  };
  others = tt;
}

replicate-IsScalar : (n : ℕ) → All IsScalar (replicate n 97)
replicate-IsScalar zero = tt
replicate-IsScalar (suc n) = (inl (omega arith), replicate-IsScalar n)

pub letters-IsScalar : All IsScalar (replicate 20 97)
letters-IsScalar = replicate-IsScalar 20

-- Twenty letters, in an allocation for thirty.
abbrev pub letters : Bytes
letters = replicate 20 97

pub letters-IsUtf8 : IsUtf8 letters
unfolding encode encode_utf8
letters-IsUtf8 = record { chars = letters; scalars = replicate-IsScalar 20; spells = refl }

abbrev pub the_block : Block
the_block = record {
  count = 1;
  header = growable 30;
  size = 46;
  bytes = replicate 20 97 ++ replicate 10 170;
}

abbrev pub letters_buffer : HeapBuffer
letters_buffer = record { ptr = 1; len = 20 + TextLen.tag }

abbrev pub heap_letters : State
heap_letters = record { self = heap letters_buffer; heap = put empty_heap 1 (some the_block) }

pub letters-Holds : Holds mutable heap_letters.heap letters_buffer letters
unfolding put
letters-Holds = record {
  cap = 30;
  bytes = replicate 20 97 ++ replicate 10 170;
  at = refl;
  room = refl;
  word = refl;
  begins = refl;
  fits = omega arith;
  limit = omega arith;
  fills = tt;
}

pub heap-World : World [] heap_letters letters
heap-World = record {
  owns = record {
    valid = letters-IsUtf8;
    content = in_heap letters-Holds;
    counted = Counted-fresh (λ a. 0) empty_heap 1 the_block empty-Counted refl refl;
  };
  others = tt;
}

-- One char of two bytes.
abbrev pub umlaut : Bytes
umlaut = 195 ∷ 164 ∷ []

umlaut-IsUtf8 : IsUtf8 umlaut
unfolding encode encode_utf8
umlaut-IsUtf8 = record { chars = 228 ∷ []; scalars = (inl (omega arith), tt); spells = refl }

abbrev pub umlaut_state : State
umlaut_state = record { self = inline (InlineBuffer.new umlaut); heap = empty_heap }

pub umlaut-World : World [] umlaut_state umlaut
umlaut-World = record {
  owns = record {
    valid = umlaut-IsUtf8;
    content = in_inline (InInline-new umlaut umlaut-IsUtf8 (omega arith));
    counted = empty-Counted;
  };
  others = tt;
}
