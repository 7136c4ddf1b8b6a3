-- ===== src/Ext2/Bitmap/Tests.antt =====
-- Runs of the bitmap: bits 0 to 9 are set.
use koros.Base.{◌≡◌, refl, [], ◌∷◌, none, some}
use koros.Base.Bits.{test_bit, or_bit}
use koros.Base.Result.{ok, err}
use koros.Kor.Vfs.{invalid_input}
use koros.Ext2.Bitmap.{
  Bitmap, from_bytes, get, set_bit, find_first_clear, scan_bytes, scan_byte, resume, out_of_range,
}
use koros.Ext2.Bitmap.Bits.{bit_at}
use koros.Ext2.Bitmap.Search.{Least, find_first_clear_lem}

abbrev ten : Bitmap
ten = record { bytes = 255 ∷ 3 ∷ []; size = 16 }

finds_ten : find_first_clear ten ≡ some 10
unfolding find_first_clear scan_bytes scan_byte resume test_bit
finds_ten = refl

sets_ten : set_bit ten 10 ≡ ok (record { bytes = 255 ∷ 7 ∷ []; size = 16 })
unfolding set_bit out_of_range or_bit
sets_ten = refl

refuses_sixteen : get ten 16 ≡ err invalid_input
unfolding get out_of_range
refuses_sixteen = refl

full : find_first_clear (from_bytes (255 ∷ 3 ∷ []) 10) ≡ none
unfolding find_first_clear scan_bytes scan_byte resume test_bit from_bytes
full = refl

find_first_clear_lem_example : Least (bit_at ten.bytes) 0 16 (find_first_clear ten)
find_first_clear_lem_example = find_first_clear_lem ten
