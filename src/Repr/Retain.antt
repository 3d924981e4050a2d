-- ===== src/Repr/Retain.antt =====
-- `Repr::retain` (src/repr.rs). The predicate may change a state of its own and may panic.
pub mod Chars
pub mod Running
pub mod Loop
pub mod Keep
use lean_string.Prelude.{
  ℕ, zero, suc, ◌+◌, ◌-◌, Bool, true, false, Option, none, some, ltb, ◌==◌, if◌then◌else◌, length,
  drop,
}
use lean_string.Utf8.{Bytes, len_utf8}
use lean_string.Utf8.Decode.{next_char}
use lean_string.Memory.{Allocator, M, pure, panic, ◌>>=◌, ◌>>◌}
use lean_string.Repr.{State, reading, len, as_bytes}
use lean_string.Repr.Edit.{get, read_at, copy_at, set_len, ensure_modifiable}
use lean_string.Repr.Cut.{unwrap_unchecked}

-- `FnMut(char) -> bool`; `none` is a panic.
abbrev pub Predicate : Type 0 → Type 0
Predicate P = P → ℕ → Option (Bool × P)

-- The three ways on from a call of the predicate.
abbrev pub answered : {P A : Type 0} → Option (Bool × P) → A → (P → A) → (P → A) → A
answered none panics holds fails = panics
answered (some (true, p)) panics holds fails = holds p
answered (some (false, p)) panics holds fails = fails p

module _ {P : Type 0} (predicate : Predicate P) where
  -- One round of `char_indices().find(|&(_, ch)| !predicate(ch))`.
  abbrev pub find_at :
      Option ℕ → P → ℕ → (ℕ → P → Option (Option (ℕ × ℕ) × P)) → Option (Option (ℕ × ℕ) × P)
  find_at none p idx next = some (none, p)
  find_at (some ch) p idx next =
      answered (predicate p ch) none (next ch) (λ q. some (some (idx, ch), q))

  -- The search, which needs at most as many rounds as there are bytes; `none` is a panic.
  unfoldable pub find_removed : ℕ → P → ℕ → Bytes → Option (Option (ℕ × ℕ) × P)
  find_removed zero p idx suffix = some (none, p)
  find_removed (suc fuel) p idx suffix =
      find_at (next_char suffix) p idx
        (λ ch q. find_removed fuel q (idx + len_utf8 ch) (drop (len_utf8 ch) suffix))

  -- `while g.src_idx < len`, whose rounds are at most the bytes; it gives `g.dst_idx`, and whether a
  -- panic of the predicate has left the loop.
  unfoldable pub keep_loop : ℕ → P → ℕ → ℕ → ℕ → M State (ℕ × Bool)
  keep_loop zero p len src_idx dst_idx = pure (dst_idx, false)
  keep_loop (suc fuel) p len src_idx dst_idx =
      let again : P → ℕ → ℕ → M State (ℕ × Bool) = λ q src dst. keep_loop fuel q len src dst in
      if ltb src_idx len
      then (do
        suffix ← read_at src_idx (len - src_idx)
        ch ← unwrap_unchecked (next_char suffix)
        let ch_len = len_utf8 ch
        answered (predicate p ch) (pure (dst_idx, true))
            (λ q. do
              if dst_idx == src_idx then pure tt else copy_at src_idx dst_idx ch_len
              again q (src_idx + ch_len) (dst_idx + ch_len))
            (λ q. again q (src_idx + ch_len) dst_idx))
      else pure (dst_idx, false)

  module _ ⦃A : Allocator⦄ where
    -- The first char to remove is dropped, and the others behind it are asked about. The guard sets the
    -- length when the loop is left, also by a panic; the result tells whether there was one.
    abbrev pub retain_from : Option (Option (ℕ × ℕ) × P) → M State Bool
    retain_from none = pure true
    retain_from (some (none, p)) = pure false
    retain_from (some (some (removed_idx, removed), p)) = do
      ensure_modifiable
      r ← get
      left ← keep_loop (len r) p (len r) (removed_idx + len_utf8 removed) removed_idx
      set_len left.0
      pure left.1

    -- `Repr::retain`
    unfoldable pub retain : P → M State (Unit {0})
    retain p = do
      text ← reading as_bytes
      panics ← retain_from (find_removed (length text) p 0 text)
      if panics then panic else pure tt
