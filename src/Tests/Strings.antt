-- ===== src/Tests/Strings.antt =====
-- The theorems on strings, at concrete inputs.
use lean_string.Prelude.{◌≡◌, refl, inl, some, [], ◌∷◌, ◌++◌, arith}
use lean_string.Utf8.{encode_utf8, is_char_boundary}
use lean_string.Utf8.Shape.{IsUtf8-nil}
use lean_string.Memory.{panicked}
use lean_string.Memory.Ends.{Ends}
use lean_string.HeapBuffer.{mutable}
use lean_string.Repr.Owns.{Keeps}
use lean_string.Repr.Edit
use lean_string.Repr.Cut
use lean_string.Repr.Cut.Chars.{pop-append}
use lean_string.Repr.Cut.Remove.{remove-char}
use lean_string.Repr.Room.{Roomy}
use lean_string.Repr.Fill.{inserted_at}
use lean_string.Repr.Text.{push_str-appends, insert_str-inserts, insert_char-panics, reserve-Roomy}
use lean_string.LeanString.{clone, drop_string}
use lean_string.LeanString.Sharing.{
  Happens, call, call-Happens, Duplicated, clone-Duplicated, Remains, drop_string-Remains,
}
use lean_string.LeanString.Refines.{push_str, insert_str, Agrees, try_call, try_call-Agrees}
use lean_string.Repr.{with_capacity}
use lean_string.Repr.Literal.{Empty, with_capacity-Empty}
use lean_string.Tests.{
  three_places, empty_heap, empty-Counted, hi, hi-IsUtf8, h-IsUtf8, i-IsUtf8, letters,
  letters-IsUtf8, inline_hi, inline-World, heap_letters, heap-World,
}

try_call-Agrees_example :
    Agrees [] heap_letters (some (letters ++ hi)) (try_call (push_str hi) heap_letters)
try_call-Agrees_example = try_call-Agrees heap-World (push_str hi) hi-IsUtf8

call-Happens_example :
    Happens [] inline_hi (some (letters ++ hi)) (call (insert_str 0 letters) inline_hi)
unfolding is_char_boundary
call-Happens_example = call-Happens (insert_str 0 letters) inline-World letters-IsUtf8

clone-Duplicated_example :
    Duplicated [] heap_letters.self letters (clone heap_letters.self heap_letters.heap)
clone-Duplicated_example = clone-Duplicated heap-World

drop_string-Remains_example :
    Ends (λ _ g. Remains [] g) (λ _. ⊥) (drop_string heap_letters.self heap_letters.heap)
drop_string-Remains_example = drop_string-Remains heap-World

push_str-appends_example :
    Ends
      (λ _ t. Keeps (λ a. 0) mutable heap_letters.heap (letters ++ letters) t)
      (λ t. t ≡ heap_letters)
      (Edit.push_str letters heap_letters)
push_str-appends_example = push_str-appends heap-World.owns letters letters-IsUtf8

insert_str-inserts_example :
    Ends
      (λ _ t. Keeps (λ a. 0) mutable heap_letters.heap (inserted_at 3 hi letters) t)
      (λ t. t ≡ heap_letters)
      (Edit.insert_str 3 hi heap_letters)
insert_str-inserts_example =
    insert_str-inserts heap-World.owns 3 hi hi-IsUtf8 (unfold is_char_boundary in refl)

insert_char-panics_example : Edit.insert_char 9 33 inline_hi ≡ panicked inline_hi
insert_char-panics_example =
    insert_char-panics inline-World.owns 9 33 (unfold is_char_boundary in refl)

reserve-Roomy_example :
    Ends (λ _ t. Roomy (λ a. 0) empty_heap hi 42 t) (λ t. t ≡ inline_hi) (Edit.reserve 40 inline_hi)
reserve-Roomy_example = reserve-Roomy inline-World.owns 40 (omega arith)

pop-append_example :
    Ends
      (λ ch t. (ch ≡ some 105) × Keeps (λ a. 0) mutable empty_heap (104 ∷ []) t)
      (λ _. ⊥)
      (Cut.pop inline_hi)
unfolding encode_utf8
pop-append_example = pop-append (104 ∷ []) 105 h-IsUtf8 (inl (omega arith)) inline-World.owns

remove-char_example :
    Ends
      (λ ch t. (ch ≡ 104) × Keeps (λ a. 0) mutable empty_heap (105 ∷ []) t)
      (λ t. t ≡ inline_hi)
      (Cut.remove 0 inline_hi)
unfolding encode_utf8
remove-char_example =
    remove-char [] (105 ∷ []) 104 IsUtf8-nil i-IsUtf8 (inl (omega arith)) inline-World.owns
      (unfold is_char_boundary in refl)

with_capacity-Empty_example :
    Ends (Empty (λ a. 0) empty_heap 50) (λ g. g ≡ empty_heap) (with_capacity 50 empty_heap)
with_capacity-Empty_example = with_capacity-Empty 50 empty-Counted
