-- ===== src/Ext2/Dir/Tests.antt =====
-- Runs over a small directory block.
use koros.Base.{
  ◌≡◌, refl, true, Bool, List, [], ◌∷◌, some, none, replicate, drop, ltb, if◌then◌else◌, arith,
}
use koros.Base.Words.{to_le_bytes, from_le_bytes, read_le, splice, slice}
use koros.Base.OrdMap.{Bytes}
use koros.Base.Result.{ok}
use koros.Ext2.Dir.{
  Item, malformed, from_bytes, skip, next, items_from, items, write_dir_entry_in_buf, new_block,
  entry_size, scan, place, add_dir_entry, block_of, split_last,
}
use koros.Ext2.Dir.Parse.{from_bytes-write_dir_entry_in_buf}
use koros.Ext2.Dir.Iterate.{items_total}
use koros.Ext2.Dir.Append.{items-new_block, new_block_unreadable}

-- Stands for the test of the core library: bytes below 128 are accepted.
abbrev is_ascii : Bytes → Bool
is_ascii [] = true
is_ascii (b ∷ bs) = if ltb b 128 then is_ascii bs else Bool.false

abbrev hello : Bytes
hello = 104 ∷ 105 ∷ []

abbrev bye : Bytes
bye = 98 ∷ 121 ∷ 101 ∷ []

-- The block with one entry, then with two.
abbrev one_entry : Bytes
one_entry = new_block 32 5 1 hello

adds_bye :
    add_dir_entry true 32 one_entry bye 6 1
    ≡ some (ok (0, write_dir_entry_in_buf (splice one_entry 4 (12 ∷ 0 ∷ [])) 12 6 3 1 bye 20))
unfolding add_dir_entry scan place block_of split_last write_dir_entry_in_buf new_block entry_size
    read_le slice splice from_le_bytes to_le_bytes
adds_bye = refl

lists_both :
    items is_ascii (write_dir_entry_in_buf (splice one_entry 4 (12 ∷ 0 ∷ [])) 12 6 3 1 bye 20)
    ≡ some ((5, 1, hello) ∷ (6, 1, bye) ∷ [])
unfolding items items_from next from_bytes malformed skip write_dir_entry_in_buf new_block read_le
    slice splice from_le_bytes to_le_bytes
lists_both = refl

from_bytes-write_dir_entry_in_buf_example :
    from_bytes (drop 12 (write_dir_entry_in_buf (replicate 32 0) 12 6 3 1 bye 20))
    ≡ some (
      record { inode = 6; rec_len = 20; name_len = 3; file_type = 1; name = bye },
      drop 32 (replicate 32 0),
    )
from_bytes-write_dir_entry_in_buf_example =
    from_bytes-write_dir_entry_in_buf (replicate 32 0) 12 6 1 20 bye (omega arith) (omega arith)
      (omega arith) (omega arith) (omega arith)

items_total_example :
    (found : List Item) × (items is_ascii (7 ∷ 0 ∷ 0 ∷ 0 ∷ 1 ∷ 0 ∷ 200 ∷ 1 ∷ 9 ∷ []) ≡ some found)
items_total_example = items_total is_ascii (7 ∷ 0 ∷ 0 ∷ 0 ∷ 1 ∷ 0 ∷ 200 ∷ 1 ∷ 9 ∷ [])

items-new_block_example : items is_ascii (new_block 1024 5 1 hello) ≡ some ((5, 1, hello) ∷ [])
items-new_block_example =
    items-new_block is_ascii 1024 5 1 hello (omega arith) (omega arith) (omega arith) (omega arith)
      (omega arith) refl

new_block_unreadable_example :
    (read_le (new_block 65536 5 1 hello) 0 4 ≡ 5)
    × (slice (new_block 65536 5 1 hello) 8 2 ≡ hello)
    × (read_le (new_block 65536 5 1 hello) 4 2 ≡ 0)
    × (from_bytes (new_block 65536 5 1 hello) ≡ none)
new_block_unreadable_example = new_block_unreadable 5 1 hello (omega arith) (omega arith)
