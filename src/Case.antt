-- ===== src/Case.antt =====
-- src/case.rs: where a text starts to change under a case mapping. Scans go over chunks of sixteen
-- bytes and over the rest. The Unicode mappings are the standard library's.
pub mod Scan
pub mod Ascii
pub mod Unicode
use lean_string.Prelude.{
  ℕ, zero, suc, ◌+◌, ◌-◌, ◌/◌, ◌%◌, Bool, true, false, not, ◌&&◌, Option, none, some, List, [], ◌∷◌,
  ltb, leb, ◌==◌, if◌then◌else◌, length, take, drop,
}
use lean_string.Utf8.{Bytes}

pub data Case : Type 0 where
  lower upper : Case

-- `CHUNK_SIZE`
abbrev pub chunk_size : ℕ
chunk_size = 16

-- `u8::is_ascii` and its like
abbrev pub is_ascii : ℕ → Bool
is_ascii b = ltb b 128

abbrev pub is_ascii_uppercase : ℕ → Bool
is_ascii_uppercase b = leb 65 b && leb b 90

abbrev pub is_ascii_lowercase : ℕ → Bool
is_ascii_lowercase b = leb 97 b && leb b 122

abbrev pub to_ascii_lowercase : ℕ → ℕ
to_ascii_lowercase b = if is_ascii_uppercase b then b + 32 else b

abbrev pub to_ascii_uppercase : ℕ → ℕ
to_ascii_uppercase b = if is_ascii_lowercase b then b - 32 else b

-- `match case { Lower => b.to_ascii_lowercase(), Upper => b.to_ascii_uppercase() }`
abbrev pub ascii_mapped : Case → ℕ → ℕ
ascii_mapped lower b = to_ascii_lowercase b
ascii_mapped upper b = to_ascii_uppercase b

-- `byte_changes`
abbrev pub byte_changes : Case → ℕ → Bool
byte_changes lower b = is_ascii_uppercase b
byte_changes upper b = is_ascii_lowercase b

-- `iter().take_while(pred).count()`
pub count_while : (ℕ → Bool) → Bytes → ℕ
count_while pred [] = 0
count_while pred (b ∷ s) = if pred b then suc (count_while pred s) else 0

-- `pred(b) as u8`, summed up in a byte
sum_of : (ℕ → Bool) → Bytes → ℕ
sum_of pred [] = 0
sum_of pred (b ∷ s) = ((if pred b then 1 else 0) + sum_of pred s) % 256

-- `all_bytes`
unfoldable pub all_bytes : (ℕ → Bool) → Bytes → Bool
unfolding sum_of
all_bytes pred chunk = sum_of pred chunk == chunk_size

-- The loop of `prefix_len_while` over the chunks that are left, and the remainder behind them
scan_chunks : (ℕ → Bool) → ℕ → Bytes → ℕ → ℕ
scan_chunks pred zero bytes len = len + count_while pred bytes
scan_chunks pred (suc chunks) bytes len =
    let rest = scan_chunks pred chunks (drop chunk_size bytes) (len + chunk_size) in
    if not (all_bytes pred (take chunk_size bytes))
    then len + count_while pred (take chunk_size bytes)
    else rest

-- `prefix_len_while`, with `as_chunks::<CHUNK_SIZE>`
unfoldable pub prefix_len_while : (ℕ → Bool) → Bytes → ℕ
unfolding scan_chunks
prefix_len_while pred bytes = scan_chunks pred (length bytes / chunk_size) bytes 0

-- `split_at_unchecked`
abbrev pub split_at_unchecked : Bytes → ℕ → Bytes × Bytes
split_at_unchecked text mid = (take mid text, drop mid text)

-- `split_at_first_ascii_change`
unfoldable pub split_at_first_ascii_change : Case → Bytes → Option (Bytes × Bytes)
split_at_first_ascii_change case text =
    let mid = prefix_len_while (λ b. not (byte_changes case b)) text in
    if mid == length text then none else some (split_at_unchecked text mid)

-- `split_ascii_prefix`
unfoldable pub split_ascii_prefix : Bytes → Bytes × Bytes
split_ascii_prefix text = split_at_unchecked text (prefix_len_while is_ascii text)
