-- ===== src/Ext2/Bitmap.antt =====
-- filesystems/kor-ext2/src/bitmap.rs, `Bitmap`: one bit per block or inode over a vector of bytes.
pub mod Search
mod Tests
pub mod Bits
use koros.Base.{
  ℕ, zero, suc, ◌+◌, ◌*◌, ◌/◌, ◌%◌, ◌==◌, Bool, true, false, ◌||◌, ltb, leb, if◌then◌else◌, List,
  [], ◌∷◌, Option, none, some, length, get_or, set,
}
use koros.Base.Bits.{test_bit, or_bit, clear_bit}
use koros.Base.Result.{Result, ok, err}
use koros.Kor.Vfs.{FsError, invalid_input}

pub record Bitmap : Type 0 where
  pub bytes : List ℕ
  pub size : ℕ

unfoldable pub from_bytes : List ℕ → ℕ → Bitmap
from_bytes bytes size = record { bytes = bytes; size = size }

-- The guard of the three accessors.
unfoldable pub out_of_range : Bitmap → ℕ → Bool
out_of_range b index = leb b.size index || leb (length b.bytes) (index / 8)

unfoldable pub get : Bitmap → ℕ → Result FsError Bool
unfolding out_of_range
get b index =
    if out_of_range b index
    then err invalid_input
    else ok (test_bit (get_or b.bytes (index / 8) 0) (index % 8))

unfoldable pub set_bit : Bitmap → ℕ → Result FsError Bitmap
unfolding out_of_range
set_bit b index =
    if out_of_range b index
    then err invalid_input
    else ok (record b {
      bytes = set b.bytes (index / 8) (or_bit (get_or b.bytes (index / 8) 0) (index % 8));
    })

unfoldable pub clear : Bitmap → ℕ → Result FsError Bitmap
unfolding out_of_range
clear b index =
    if out_of_range b index
    then err invalid_input
    else ok (record b {
      bytes = set b.bytes (index / 8) (clear_bit (get_or b.bytes (index / 8) 0) (index % 8));
    })

-- The loop over the bits of one byte, of which `count` are left: `some` is what the function returns
-- from inside the loop.
unfoldable pub scan_byte : ℕ → ℕ → ℕ → ℕ → ℕ → Option (Option ℕ)
scan_byte byte base size bit zero = none
scan_byte byte base size bit (suc count) =
    let rest = scan_byte byte base size (suc bit) count in
    if leb size (base + bit)
    then some none
    else if test_bit byte bit
    then rest
    else some (some (base + bit))

-- The loop over the bytes, which goes on where the inner one has not returned.
unfoldable pub resume : Option (Option ℕ) → Option ℕ → Option ℕ
resume (some r) rest = r
resume none rest = rest

unfoldable pub scan_bytes : List ℕ → ℕ → ℕ → Option ℕ
unfolding resume
scan_bytes [] byte_idx size = none
scan_bytes (byte ∷ rest_bytes) byte_idx size =
    let rest = scan_bytes rest_bytes (suc byte_idx) size in
    if byte == 255 then rest else resume (scan_byte byte (byte_idx * 8) size 0 8) rest

unfoldable pub find_first_clear : Bitmap → Option ℕ
unfolding scan_bytes
find_first_clear b = scan_bytes b.bytes 0 b.size
