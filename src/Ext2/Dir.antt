-- ===== src/Ext2/Dir.antt =====
-- filesystems/kor-ext2/src/dir.rs, the entries of a directory. The bytes of the directory, which the
-- code reads from the inode, are an argument, and the one write that a change makes to the inode is the
-- result: its offset and its bytes. The size of a directory is a multiple of the block size, so that
-- every slice is within the bytes.
pub mod Parse
pub mod Iterate
pub mod Append
mod Tests
use koros.Base.{
  ℕ, zero, suc, ◌+◌, ◌-◌, ◌*◌, ◌/◌, ◌%◌, ◌^◌, ◌==◌, max, Bool, true, false, not, ◌||◌, ◌&&◌, ltb,
  leb, if◌then◌else◌, List, [], ◌∷◌, Option, none, some, length, get_or, drop, replicate,
}
use koros.Base.Words.{to_le_bytes, read_le, splice, slice}
use koros.Base.OrdMap.{Bytes, bytes_eq}
use koros.Base.Result.{Result, ok, err}
use koros.Kor.Vfs.{
  FsError, invalid_input, not_found, FileType, regular, directory, symlink, block_device,
  char_device,
}

pub record DirEntry : Type 0 where
  pub inode : ℕ
  pub rec_len : ℕ
  pub name_len : ℕ
  pub file_type : ℕ
  pub name : Bytes

-- The structural validation.
pub malformed : Bytes → Bool
unfolding read_le
malformed bytes =
    ltb (read_le bytes 4 2) 8
    || ltb (length bytes) (read_le bytes 4 2)
    || ltb (read_le bytes 4 2) (8 + get_or bytes 6 0)

pub from_bytes : Bytes → Option (DirEntry × Bytes)
unfolding malformed read_le slice
from_bytes bytes =
    if ltb (length bytes) 8
    then none
    else if malformed bytes
    then none
    else if read_le bytes 0 4 == 0
    then none
    else some (
      record {
        inode = read_le bytes 0 4;
        rec_len = read_le bytes 4 2;
        name_len = get_or bytes 6 0;
        file_type = get_or bytes 7 0;
        name = slice bytes 8 (get_or bytes 6 0);
      },
      drop (read_le bytes 4 2) bytes,
    )

pub vfs_file_type : DirEntry → FileType
vfs_file_type e =
    if e.file_type == 1
    then regular
    else if e.file_type == 2
    then directory
    else if e.file_type == 3
    then char_device
    else if e.file_type == 4
    then block_device
    else if e.file_type == 7
    then symlink
    else regular

-- `(inode_number, file_type_byte, name)`
abbrev pub Item : Type 0
Item = ℕ × ℕ × Bytes

-- How far an unused or malformed entry moves the iterator.
pub skip : Bytes → ℕ
unfolding read_le
skip remaining = if ltb (read_le remaining 4 2) 8 then 8 else read_le remaining 4 2

-- `core::str::from_utf8(bytes).is_ok()` is a parameter.
module _ (is_utf8 : Bytes → Bool) where
  -- `DirIterator::next`: the item and the new offset. The outer `none` is the end of the fuel.
  pub next : ℕ → Bytes → ℕ → Option (Option Item × ℕ)
  unfolding from_bytes skip
  next zero bytes offset = none
  next (suc fuel) bytes offset =
      let remaining = drop offset bytes in
      if leb (length bytes) offset then some (none, offset) else (elim (from_bytes remaining) [
        | some (e, _) ↦
            if is_utf8 e.name
            then some (some (e.inode, e.file_type, e.name), offset + e.rec_len)
            else some (none, offset)
        | none ↦
            let rest = next fuel bytes (offset + skip remaining) in
            if ltb (length remaining) 8 then some (none, offset) else rest
      ])

  -- The items of the iterator from an offset on.
  pub items_from : ℕ → Bytes → ℕ → Option (List Item)
  unfolding next
  items_from zero bytes offset = none
  items_from (suc fuel) bytes offset = elim (next (suc (length bytes)) bytes offset) [
    | none ↦ none
    | some (none, _) ↦ some []
    | some (some item, offset') ↦ elim (items_from fuel bytes offset') [
      | none ↦ none
      | some items ↦ some (item ∷ items)
    ]
  ]

  -- Each turn moves the offset, so that the fuel is one more than the bytes.
  pub items : Bytes → Option (List Item)
  unfolding items_from
  items bytes = items_from (suc (length bytes)) bytes 0

-- The loop of `lookup`.
pub find_name : List Item → Bytes → Result FsError ℕ
find_name [] name = err not_found
find_name ((ino, ft, entry_name) ∷ rest) name =
    let later = find_name rest name in if bytes_eq entry_name name then ok ino else later

-- The loop of `list`.
pub pairs : List Item → List (Bytes × ℕ)
pairs [] = []
pairs ((ino, ft, name) ∷ rest) = (name, ino) ∷ pairs rest

pub lookup : (Bytes → Bool) → Bytes → Bytes → Option (Result FsError ℕ)
unfolding items find_name
lookup is_utf8 bytes name = elim (items is_utf8 bytes) [
  | none ↦ none
  | some found ↦ some (find_name found name)
]

pub list : (Bytes → Bool) → Bytes → Option (List (Bytes × ℕ))
unfolding items pairs
list is_utf8 bytes = elim (items is_utf8 bytes) [ none ↦ none | some found ↦ some (pairs found) ]

pub write_dir_entry_in_buf : Bytes → ℕ → ℕ → ℕ → ℕ → Bytes → ℕ → Bytes
unfolding splice to_le_bytes
write_dir_entry_in_buf buf offset ino name_len file_type name rec_len =
    let buf1 = splice buf offset (to_le_bytes 4 ino) in
    let buf2 = splice buf1 (offset + 4) (to_le_bytes 2 rec_len) in
    let buf3 = splice buf2 (offset + 6) (name_len ∷ []) in
    let buf4 = splice buf3 (offset + 7) (file_type ∷ []) in splice buf4 (offset + 8) name

-- `((8 + name_len + 3) & !3).max(12)`
pub entry_size : ℕ → ℕ
entry_size name_len = max ((8 + name_len + 3) / 4 * 4) 12

-- How the loop of `add_dir_entry` ends: at a free slot, or behind the last entry.
pub data Scan : Type 0 where
  slot : ℕ → ℕ → Scan
  ended : ℕ → ℕ → Scan

-- `none` is the end of the fuel.
pub scan : ℕ → Bytes → ℕ → ℕ → ℕ → ℕ → Option Scan
unfolding entry_size read_le
scan zero bytes needed offset last_entry_start last_entry_actual = none
scan (suc fuel) bytes needed offset last_entry_start last_entry_actual =
    let rec_len = read_le bytes (offset + 4) 2 in
    let rest =
      scan fuel bytes needed (offset + rec_len) offset (entry_size (get_or bytes (offset + 6) 0)) in
    if ltb (length bytes) (offset + 8)
    then some (ended last_entry_start last_entry_actual)
    else if ltb rec_len 8 || ltb (length bytes) (offset + rec_len)
    then some (ended last_entry_start last_entry_actual)
    else if read_le bytes offset 4 == 0 && leb needed rec_len
    then some (slot offset rec_len)
    else rest

abbrev pub Write : Type 0
Write = ℕ × Bytes

-- The block of the directory around an offset.
pub block_of : ℕ → Bytes → ℕ → Write
unfolding slice
block_of block_size bytes offset =
    (offset / block_size * block_size, slice bytes (offset / block_size * block_size) block_size)

-- The use of a free slot, whose rest becomes a free entry if it has room for a header.
pub use_slot : Bytes → ℕ → ℕ → ℕ → ℕ → Bytes → Bytes
unfolding write_dir_entry_in_buf entry_size
use_slot bytes offset rec_len ino file_type name =
    let needed = entry_size (length name) in
    let leftover = rec_len - needed in
    let rec = if leb 8 leftover then needed % 65536 else rec_len % 65536 in
    let written = write_dir_entry_in_buf bytes offset ino (length name % 256) file_type name rec in
    if leb 8 leftover
    then splice (splice written (offset + needed) (to_le_bytes 4 0)) (offset + needed + 4)
        (to_le_bytes 2 (leftover % 65536))
    else written

-- The split of the last entry, whose own part is `actual` bytes.
pub split_last : Bytes → ℕ → ℕ → ℕ → ℕ → ℕ → Bytes → Bytes
unfolding write_dir_entry_in_buf
split_last bytes start actual extra ino file_type name =
    write_dir_entry_in_buf (splice bytes (start + 4) (to_le_bytes 2 (actual % 65536)))
      (start + actual) ino (length name % 256) file_type name (extra % 65536)

-- A new block at the end, with one entry that fills it.
pub new_block : ℕ → ℕ → ℕ → Bytes → Bytes
unfolding write_dir_entry_in_buf
new_block block_size ino file_type name =
    write_dir_entry_in_buf (replicate block_size 0) 0 ino (length name % 256) file_type name
      (block_size % 65536)

-- What follows the loop: the split of the last entry where its spare bytes are enough, else a new block.
-- The subtraction is on `usize`.
pub place : Bytes → ℕ → ℕ → ℕ → Bytes → Scan → Write
unfolding block_of use_slot split_last new_block entry_size read_le
place bytes block_size ino file_type name (slot offset rec_len) =
    block_of block_size (use_slot bytes offset rec_len ino file_type name) offset
place bytes block_size ino file_type name (ended start actual) =
    let last_rec = read_le bytes (start + 4) 2 in
    let extra = (last_rec + 2 ^ 64 - actual) % 2 ^ 64 in
    if ltb 0 actual && leb (entry_size (length name)) extra
    then block_of block_size (split_last bytes start actual extra ino file_type name) start
    else (length bytes / block_size * block_size, new_block block_size ino file_type name)

-- The outer `none` is the end of the fuel. The call of `demote_from_htree` stands before.
pub add_dir_entry : Bool → ℕ → Bytes → Bytes → ℕ → ℕ → Option (Result FsError Write)
unfolding scan place
add_dir_entry has_filetype block_size bytes name child_inode file_type =
    let stored_type = if has_filetype then file_type else 0 in
    if length name == 0 || ltb 255 (length name)
    then some (err invalid_input)
    else elim (scan (suc (length bytes)) bytes (entry_size (length name)) 0 0 0) [
      | none ↦ none
      | some found ↦ some (ok (place bytes block_size child_inode stored_type name found))
    ]

-- The join of the deleted entry with a free one behind it in the same block.
pub coalesce : ℕ → Bytes → ℕ → ℕ → Bytes
unfolding read_le splice to_le_bytes
coalesce block_size bytes offset rec_len =
    let after = offset + rec_len in
    let next_rec = read_le bytes (after + 4) 2 in
    if (offset / block_size == after / block_size && leb (after + 8) (length bytes))
      && (read_le bytes after 4 == 0
          && leb 8 next_rec
          && leb (after + next_rec) (length bytes)
          && offset / block_size == (after + next_rec - 1) / block_size)
    then splice bytes (offset + 4) (to_le_bytes 2 ((rec_len + next_rec) % 65536))
    else bytes

-- The loop of `remove_dir_entry`.
pub remove_from : ℕ → ℕ → Bytes → Bytes → ℕ → Option (Result FsError Write)
unfolding read_le slice splice to_le_bytes coalesce block_of
remove_from zero block_size bytes name offset = none
remove_from (suc fuel) block_size bytes name offset =
    let rec_len = read_le bytes (offset + 4) 2 in
    let name_len = get_or bytes (offset + 6) 0 in
    let rest = remove_from fuel block_size bytes name (offset + rec_len) in
    if ltb (length bytes) (offset + 8)
    then some (err not_found)
    else if ltb rec_len 8 || ltb (length bytes) (offset + rec_len)
    then some (err not_found)
    else if not (read_le bytes offset 4 == 0)
        && (name_len == length name && bytes_eq (slice bytes (offset + 8) name_len) name)
    then some (
        ok (
          block_of block_size
            (coalesce block_size (splice bytes offset (to_le_bytes 4 0)) offset rec_len) offset))
    else rest

pub remove_dir_entry : ℕ → Bytes → Bytes → Option (Result FsError Write)
unfolding remove_from
remove_dir_entry block_size bytes name =
    if length bytes == 0
    then some (err not_found)
    else remove_from (suc (length bytes)) block_size bytes name 0
