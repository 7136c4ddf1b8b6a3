-- ===== src/Ext2/Dir/Iterate.antt =====
-- The iterator ends on every content of a directory, also a corrupt one.
use koros.Base.{
  ℕ, zero, suc, ◌+◌, ◌-◌, ◌≤◌, ◌<◌, ◌≡◌, refl, ap, inl, inr, ◌==◌, ltb, leb, Bool, true, false,
  List, [], ◌∷◌, Option, none, some, length, drop, arith, subst, Bool-cases, Option-cases, some_eq,
  absurd_none, dec_le,
}
use koros.Base.Words.{read_le}
use koros.Base.OrdMap.{Bytes}
use koros.Ext2.Dir.{DirEntry, Item, malformed, from_bytes, skip, next, items_from, items}

long_enough : (bytes : Bytes) → malformed bytes ≡ false → 8 ≤ read_le bytes 4 2
unfolding malformed
long_enough bytes h = ground arith

-- The record of an entry that is parsed has room for the header.
rec_len_low :
    (bytes rest : Bytes) (e : DirEntry) → from_bytes bytes ≡ some (e, rest) → 8 ≤ e.rec_len
unfolding from_bytes
rec_len_low bytes rest e h = elim (Bool-cases (ltb (length bytes) 8)) [
  | inl s ↦ absurd (absurd_none (rw (s, from_bytes) at h))
  | inr s ↦ elim (Bool-cases (malformed bytes)) [
    | inl m ↦ absurd (absurd_none (rw (s, m, from_bytes) at h))
    | inr m ↦ elim (Bool-cases (read_le bytes 0 4 == 0)) [
      | inl z ↦ absurd (absurd_none (rw (s, m, z, from_bytes) at h))
      | inr z ↦
          subst (λ n. 8 ≤ n) (ap (λ p. p.0.rec_len) (some_eq (rw (s, m, z, from_bytes) at h)))
            (long_enough bytes m)
    ]
  ]
]

skip_low : (bytes : Bytes) → 8 ≤ skip bytes
unfolding skip
skip_low bytes = ground arith

module _ (is_utf8 : Bytes → Bool) where
  -- What one call of `next` gives: the end, or an item and an offset further on.
  abbrev Moves : ℕ → ℕ → Option Item × ℕ → Type 0
  Moves len offset (none, offset') = Unit {0}
  Moves len offset (some item, offset') = (offset < len) × (offset < offset')

  abbrev Ends : ℕ → ℕ → Option (Option Item × ℕ) → Type 0
  Ends len offset r = (out : Option Item × ℕ) × (r ≡ some out) × Moves len offset out

  parsed_turn :
      (fuel : ℕ) (bytes rest : Bytes) (offset : ℕ) (e : DirEntry)
      → offset < length bytes
      → from_bytes (drop offset bytes) ≡ some (e, rest)
      → Ends (length bytes) offset (next is_utf8 (suc fuel) bytes offset)
  unfolding next
  parsed_turn fuel bytes rest offset e l h =
      let inside : leb (length bytes) offset ≡ false = ground arith in
      elim (Bool-cases (is_utf8 e.name)) [
        | inl u ↦ (
          (some (e.inode, e.file_type, e.name), offset + e.rec_len),
          rw (inside, h, u, next) refl,
          (l, let r = rec_len_low (drop offset bytes) rest e h in omega (arith, r)),
        )
        | inr u ↦ ((none, offset), rw (inside, h, u, next) refl, tt)
      ]

  next-Ends :
      (fuel : ℕ) (bytes : Bytes) (offset : ℕ)
      → length bytes - offset < fuel
      → Ends (length bytes) offset (next is_utf8 fuel bytes offset)
  unfolding next
  next-Ends zero bytes offset h = absurd (omega arith)
  next-Ends (suc fuel) bytes offset h = elim (dec_le (length bytes) offset) [
    | yes l ↦ ((none, offset), rw (outside l, next) refl, tt)
    | no l ↦ elim (Option-cases (from_bytes (drop offset bytes))) [
      | inr ((e, rest), k) ↦ parsed_turn fuel bytes rest offset e (omega arith) k
      | inl k ↦ elim (Bool-cases (ltb (length (drop offset bytes)) 8)) [
        | inl s ↦ ((none, offset), rw (inside l, k, s, next) refl, tt)
        | inr s ↦
            let low = skip_low (drop offset bytes) in
            let (out, p, m) =
              next-Ends fuel bytes (offset + skip (drop offset bytes)) (omega (arith, low)) in
            (out, rw (inside l, k, s, next) p, further out offset (skip (drop offset bytes)) m)
      ]
    ]
  ]
    where
      outside : length bytes ≤ offset → leb (length bytes) offset ≡ true
      outside l = ground arith

      inside : ¬ (length bytes ≤ offset) → leb (length bytes) offset ≡ false
      inside l = ground arith

      further :
          (out : Option Item × ℕ) (offset by : ℕ)
          → Moves (length bytes) (offset + by) out
          → Moves (length bytes) offset out
      further (none, o) offset by m = tt
      further (some item, o) offset by m = (omega (arith, m.0), omega (arith, m.1))

  items_from_ends :
      (fuel : ℕ) (bytes : Bytes) (offset : ℕ)
      → length bytes - offset < fuel
      → (found : List Item) × (items_from is_utf8 fuel bytes offset ≡ some found)
  unfolding items_from
  items_from_ends zero bytes offset h = absurd (omega arith)
  items_from_ends (suc fuel) bytes offset h =
      let (out, p, m) = next-Ends (suc (length bytes)) bytes offset (omega arith) in
      continue out m p (λ offset' k. items_from_ends fuel bytes offset' k)
    where
      continue :
          (out : Option Item × ℕ)
          → Moves (length bytes) offset out
          → next is_utf8 (suc (length bytes)) bytes offset ≡ some out
          → ((offset' : ℕ)
              → length bytes - offset' < fuel
              → (found : List Item) × (items_from is_utf8 fuel bytes offset' ≡ some found))
          → (found : List Item) × (items_from is_utf8 (suc fuel) bytes offset ≡ some found)
      continue (none, offset') m p rec = ([], rw (p, items_from) refl)
      continue (some item, offset') m p rec =
          let (found, q) = rec offset' (omega (arith, m.0, m.1)) in
          (item ∷ found, rw (p, q, items_from) refl)

  -- The iterator ends: on every content of a directory, also a corrupt one, the fuel of the model, one
  -- more than the bytes, is never used up, and there is a list of items.
  pub items_total : (bytes : Bytes) → (found : List Item) × (items is_utf8 bytes ≡ some found)
  unfolding items
  items_total bytes = items_from_ends (suc (length bytes)) bytes 0 (omega arith)
