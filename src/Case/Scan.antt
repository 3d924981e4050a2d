-- ===== src/Case/Scan.antt =====
-- The scan by chunks counts what the plain scan counts.
use lean_string.Prelude.{
  ℕ, zero, suc, ◌+◌, ◌*◌, ◌/◌, ◌≤◌, ◌<◌, ◌≡◌, refl, sym, ap, ◌∙◌, inl, inr, Bool, [], ◌∷◌, ◌++◌,
  arith, ◌==◌, ==_iff, Bool-cases, length, take, drop, take-append-drop, length-drop,
}
use lean_string.Prelude.Splice.{length-take_le}
use lean_string.Utf8.{Bytes}
use lean_string.Case.{count_while, sum_of, all_bytes, scan_chunks, prefix_len_while}

module _ (pred : ℕ → Bool) where
  pub count_while-le : (s : Bytes) → count_while pred s ≤ length s
  unfolding count_while
  count_while-le [] = omega arith
  count_while-le (b ∷ s) = ground (arith, count_while-le s)

  -- A list that passes in full is counted in full.
  count_while-append :
      (s t : Bytes)
      → count_while pred s ≡ length s
      → count_while pred (s ++ t) ≡ length s + count_while pred t
  unfolding count_while
  count_while-append [] t all = omega arith
  count_while-append (b ∷ s) t all = ground (arith, count_while-append s t)

  -- A list that does not pass in full stops the count.
  count_while-stops :
      (s t : Bytes) → count_while pred s < length s → count_while pred (s ++ t) ≡ count_while pred s
  unfolding count_while
  count_while-stops [] t stop = absurd (omega arith)
  count_while-stops (b ∷ s) t stop = ground (arith, count_while-stops s t)

  -- The sum never wraps around in a chunk, and is the length only if all bytes pass.
  sum_of-le : (s : Bytes) → sum_of pred s ≤ length s
  unfolding sum_of
  sum_of-le [] = omega arith
  sum_of-le (b ∷ s) = ground (arith, sum_of-le s)

  sum_of_all :
      (s : Bytes) → length s < 256 → (sum_of pred s ≡ length s) → count_while pred s ≡ length s
  unfolding sum_of count_while
  sum_of_all [] small e = refl
  sum_of_all (b ∷ s) small e = ground (arith, sum_of_all s, sum_of-le s)

  all_of_count :
      (s : Bytes) → length s < 256 → count_while pred s ≡ length s → sum_of pred s ≡ length s
  unfolding sum_of count_while
  all_of_count [] small e = refl
  all_of_count (b ∷ s) small e = ground (arith, all_of_count s)

  scan_chunks_lem :
      (chunks : ℕ) (bytes : Bytes) (len : ℕ)
      → chunks * 16 ≤ length bytes
      → scan_chunks pred chunks bytes len ≡ len + count_while pred bytes
  unfolding scan_chunks all_bytes
  scan_chunks_lem zero bytes len fits = refl
  scan_chunks_lem (suc chunks) bytes len fits =
      let chunk = take 16 bytes in
      let rest = drop 16 bytes in
      let size : length chunk ≡ 16 = length-take_le 16 bytes (omega arith) in
      let whole : chunk ++ rest ≡ bytes = take-append-drop 16 bytes in
      elim (Bool-cases (sum_of pred chunk == 16)) [
        | inl all ↦
            let passed =
              sum_of_all chunk (omega arith) ((==_iff (sum_of pred chunk) 16).0 all ∙ sym size) in
            rw all (
              scan_chunks_lem chunks rest (len + 16) (omega (arith, length-drop 16 bytes))
              ∙ omega (arith, count_while-append chunk rest passed, ap (count_while pred) whole))
        | inr mixed ↦
            let stops : count_while pred chunk < length chunk =
              ground (arith, count_while-le chunk, all_of_count chunk) in
            rw mixed
              (omega (arith, count_while-stops chunk rest stops, ap (count_while pred) whole))
      ]

  -- For every test on bytes, the scan of `prefix_len_while` over chunks of sixteen bytes and
  -- the remainder gives the length of the longest prefix whose bytes all pass.
  pub prefix_len_while_lem : (bytes : Bytes) → prefix_len_while pred bytes ≡ count_while pred bytes
  unfolding prefix_len_while
  prefix_len_while_lem bytes =
      scan_chunks_lem (length bytes / 16) bytes 0 (omega arith) ∙ omega arith
