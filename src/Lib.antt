-- ===== src/Lib.antt =====
-- The crate lean_string: strings of two words. A text of at most sixteen bytes stands inside the
-- two words; a static text is pointed to; any other text is in a heap allocation with a reference
-- count, which clones share until one of them is written to. The last byte of the two words tells
-- the three apart. All of this is for a 64-bit little-endian target.
--
-- Parts, and the files that model them (paths from the repository's root):
-- - src/repr/last_byte.rs: LastByte. The enum is the range of its byte values.
-- - src/repr/inline_buffer.rs: InlineBuffer. Sixteen bytes; `new` is by word loads, as in the
--   source. InlineBuffer/Shape, Words and New say what bytes that makes.
-- - src/repr/static_buffer.rs: StaticBuffer. The memory pointed to, and the tagged length word.
-- - src/repr/heap_buffer.rs: HeapBuffer, with HeapBuffer/TextLen and HeapBuffer/Capacity for the
--   inner modules of the source. `Mutability` chooses the header: a growable one stores the
--   capacity, an exact one has none. HeapBuffer/Convert exchanges the header of an allocation.
--   Holds says that a buffer is sound; Alloc, Build, Write, Realloc, Release and Convert/Change are
--   about the operations.
-- - src/repr.rs: Repr (discriminants, reads, construction, clone and drop), Repr/Edit (what writes
--   or grows), Repr/Cut and Repr/Retain (what takes away), Repr/Range (ranges), Repr/Init
--   (`new_with` and `repeat`), Repr/Scalar (chars and Booleans), Repr/AsciiCase and Repr/ToCase (case
--   mappings) and Repr/Convert (between the two kinds). Repr/Owns says that a string is sound beside
--   others. Repr/Appends is about pushes in a row. Queries, Place, Room, Grow, Fill, Fresh, Literal,
--   Text, Share and the children of the modules named hold the theorems.
-- - src/repr/num_to_repr.rs: Repr/DigitCount and Repr/NumToRepr, for the integers of up to 64
--   bits. Decimal says what a text of digits denotes, Count is about `digit_count`, Limits,
--   Writing and Print about the closure.
-- - src/case.rs: Case, the scans for ASCII texts, and Case/Unicode, the split at the first change.
-- - src/lib.rs: LeanString, the `try_` methods that change a string and their panicking companions,
--   with LeanString/Make for those that make or read one, LeanString/Utf8 and LeanString/Utf16 for
--   the decoders, LeanString/UnicodeCase, LeanString/Collect for iterators, LeanString/Format for
--   what is formatted into a string, LeanString/Convert for the way to a LeanStr and
--   LeanString/Compare for equality, order and hashing. LeanString/Refines is the abstract view: a
--   text, and the texts of all other strings. LeanStr is the immutable type.
-- - src/traits.rs: Traits, which type of a value makes which string; LeanString/Format has its
--   `try_from_fmt`.
-- - Memory: the heap as a map from addresses to allocations, each with count, header, size and
--   bytes; and how a call ends: with a value, with ReserveError, in a panic, or outside the
--   contract of an unsafe operation (a fault). Theorems that say how a call ends exclude the fault.
-- - Utf8: valid texts as encodings of sequences of scalar values, char boundaries, decoding, ASCII
--   and UTF-16. These model the functions of the standard library that the source uses.
-- - Prelude: shared names, and lemmas on lists, bits, words and overwritten ranges.
--
-- The global allocator is a parameter (Memory.Allocator): it may refuse any request, answers with
-- an address that is free, and leaves the new bytes uninitialised with values of its choice. A call
-- on `&mut self` runs on a state of the string and the heap. `refs` counts, for each address, the
-- references of all other strings, so a theorem about one string is about any number of them.
--
-- Machine words: lengths and counts are natural numbers, with `checked_add` and the wrap-around of
-- counts written out. A reference count is at most isize::MAX + 1, which `make_shallow_clone`
-- maintains. The loops of `repeat`, `retain` and the formatting of numbers run on fuel, which is
-- the length of the new text, the bytes of the string and the count of digits: a copy at least
-- doubles what is filled, each round of `retain` passes a char, and one of four digits leaves four
-- fewer.
--
-- Not modelled: 32-bit and big-endian targets, where a length may move to the heap; atomic
-- orderings and threads, every step being atomic; iterators whose `next` panics; and glue (Debug
-- and Display, the From implementations that only forward, serde, arbitrary). Parameters stand for
-- the Unicode case mappings (Case.Unicode) and the validation of UTF-8
-- (LeanString.Utf8.Validation) of the standard library, for the texts that the crates zmij and
-- itoa print (Traits.Printers), and for formatters, which may panic.
pub mod Prelude
pub mod Utf8
pub mod LastByte
pub mod Memory
pub mod HeapBuffer
pub mod InlineBuffer
pub mod StaticBuffer
pub mod Repr
pub mod Case
pub mod LeanString
pub mod LeanStr
pub mod Traits
pub mod Tests
