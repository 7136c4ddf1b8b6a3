-- ===== src/Ext2/Dir/Append.antt =====
-- The block that `add_dir_entry` appends to a directory, and the sizes of entries.
use koros.Base.{
  ℕ, suc, ◌+◌, ◌%◌, ◌^◌, ◌≤◌, ◌<◌, ◌≡◌, refl, ◌∙◌, ap, leb, Bool, true, false, [], ◌∷◌, none, some,
  length, drop, replicate, length-replicate, arith,
}
use koros.Base.Words.{read_le, slice}
use koros.Base.OrdMap.{Bytes}
use koros.Ext2.Dir.{
  DirEntry, Item, malformed, from_bytes, next, items_from, items, write_dir_entry_in_buf, new_block,
  entry_size,
}
use koros.Ext2.Dir.Parse.{
  from_bytes-write_dir_entry_in_buf, length-write_dir_entry_in_buf, written_rec, written_ino,
  written_name,
}

-- An entry has room for its header and its name, and is a multiple of four bytes, not more than needed.
pub entry_size_lem :
    (n : ℕ)
    → (8 + n ≤ entry_size n)
      × (12 ≤ entry_size n)
      × (entry_size n % 4 ≡ 0)
      × (entry_size n < 8 + n + 5)
unfolding entry_size
entry_size_lem n = (omega arith, omega arith, omega arith, omega arith)

module _ (is_utf8 : Bytes → Bool) where
  last_turn :
      (fuel : ℕ) (bytes : Bytes) (offset : ℕ)
      → length bytes ≤ offset
      → next is_utf8 (suc fuel) bytes offset ≡ some (none, offset)
  unfolding next
  last_turn fuel bytes offset h =
      let out : leb (length bytes) offset ≡ true = ground arith in rw (out, next) refl

  single_from :
      (fuel : ℕ) (bytes : Bytes) (item : Item) (offset : ℕ)
      → next is_utf8 (suc (length bytes)) bytes 0 ≡ some (some item, offset)
      → next is_utf8 (suc (length bytes)) bytes offset ≡ some (none, offset)
      → items_from is_utf8 (suc (suc fuel)) bytes 0 ≡ some (item ∷ [])
  unfolding items_from
  single_from fuel bytes item offset p q = rw (p, q, items_from) refl

  items_single :
      (bytes : Bytes) (item : Item) (offset : ℕ)
      → 0 < length bytes
      → length bytes ≤ offset
      → next is_utf8 (suc (length bytes)) bytes 0 ≡ some (some item, offset)
      → items is_utf8 bytes ≡ some (item ∷ [])
  unfolding items
  items_single [] item offset h k p = absurd (omega arith)
  items_single (x ∷ xs) item offset h k p =
      single_from (length xs) (x ∷ xs) item offset p (last_turn (length (x ∷ xs)) (x ∷ xs) offset k)

  first_turn :
      (fuel : ℕ) (bytes rest : Bytes) (e : DirEntry)
      → 0 < length bytes
      → is_utf8 e.name ≡ true
      → from_bytes bytes ≡ some (e, rest)
      → next is_utf8 (suc fuel) bytes 0 ≡ some (some (e.inode, e.file_type, e.name), 0 + e.rec_len)
  unfolding next
  first_turn fuel bytes rest e h u k =
      let inside : leb (length bytes) 0 ≡ false = ground arith in rw (inside, k, u, next) refl

  items_entry :
      (bytes : Bytes) (e : DirEntry) (rest : Bytes)
      → 0 < length bytes
      → length bytes ≤ e.rec_len
      → is_utf8 e.name ≡ true
      → from_bytes bytes ≡ some (e, rest)
      → items is_utf8 bytes ≡ some ((e.inode, e.file_type, e.name) ∷ [])
  items_entry bytes e rest h k u p =
      items_single bytes (e.inode, e.file_type, e.name) (0 + e.rec_len) h (omega arith)
        (first_turn (length bytes) bytes rest e h u p)

  exact :
      (block_size ino file_type : ℕ) (name : Bytes)
      → length name < 256
      → block_size < 65536
      → new_block block_size ino file_type name
        ≡ write_dir_entry_in_buf
            (replicate block_size 0)
            0
            ino
            (length name)
            file_type
            name
            block_size
  unfolding new_block
  exact block_size ino file_type name l a =
      let len : length name % 256 ≡ length name = omega arith in
      let rec : block_size % 65536 ≡ block_size = omega arith in
      ap
        (λ n.
          write_dir_entry_in_buf (replicate block_size 0) 0 ino n file_type name
            (block_size % 65536))
        len
      ∙ ap (write_dir_entry_in_buf (replicate block_size 0) 0 ino (length name) file_type name) rec

  -- The block that `add_dir_entry` appends holds exactly the new entry, for blocks of less than
  -- 64 KiB: the iterator gives it, and nothing else.
  pub items-new_block :
      (block_size ino file_type : ℕ) (name : Bytes)
      → block_size < 65536
      → 8 + length name ≤ block_size
      → 0 < ino
      → ino < 2 ^ 32
      → length name < 256
      → is_utf8 name ≡ true
      → items is_utf8 (new_block block_size ino file_type name) ≡ some ((ino, file_type, name) ∷ [])
  items-new_block block_size ino file_type name a b c d l u =
      let buf = replicate {A = ℕ} block_size 0 in
      let whole : length buf ≡ block_size = length-replicate {A = ℕ} block_size 0 in
      let size =
        length-write_dir_entry_in_buf buf 0 ino (length name) file_type block_size name
          (omega (arith, whole))
        ∙ whole in
      ap (items is_utf8) (exact block_size ino file_type name l a)
      ∙ items_entry (write_dir_entry_in_buf buf 0 ino (length name) file_type name block_size)
          (record {
            inode = ino;
            rec_len = block_size;
            name_len = length name;
            file_type = file_type;
            name = name;
          })
          (drop (0 + block_size) buf) (omega (arith, size)) (omega (arith, size)) u
          (from_bytes-write_dir_entry_in_buf buf 0 ino file_type block_size name c d (omega arith) b
            (omega (arith, whole)))

too_short : (bytes : Bytes) → read_le bytes 4 2 ≡ 0 → from_bytes bytes ≡ none
unfolding from_bytes malformed
too_short bytes h = ground arith

-- With blocks of 64 KiB the size of the block does not fit in the 16 bits of the record length: the
-- entry that is appended has its inode and its name, but length 0, so that it cannot be read.
pub new_block_unreadable :
    (ino file_type : ℕ) (name : Bytes)
    → ino < 2 ^ 32
    → length name < 256
    → (read_le (new_block 65536 ino file_type name) 0 4 ≡ ino)
      × (slice (new_block 65536 ino file_type name) 8 (length name) ≡ name)
      × (read_le (new_block 65536 ino file_type name) 4 2 ≡ 0)
      × (from_bytes (new_block 65536 ino file_type name) ≡ none)
unfolding new_block write_dir_entry_in_buf
new_block_unreadable ino file_type name d l =
    let buf = replicate {A = ℕ} 65536 0 in
    let whole : length buf ≡ 65536 = length-replicate {A = ℕ} 65536 0 in
    let len = length name % 256 in
    let fits : 0 + 8 + length name ≤ length buf = omega (arith, whole) in
    let rec = written_rec buf 0 ino len file_type 0 name fits (omega arith) in
    (
      written_ino buf 0 ino len file_type 0 name fits (omega arith),
      written_name buf 0 ino len file_type 0 name fits,
      rec,
      too_short (new_block 65536 ino file_type name) rec,
    )
