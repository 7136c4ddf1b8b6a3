-- ===== src/Ext2/Dir/Parse.antt =====
-- An entry that is written is parsed again.
use koros.Base.{
  ℕ, zero, suc, ◌+◌, ◌^◌, ◌≤◌, ◌<◌, ◌≡◌, refl, sym, ◌∙◌, ap, inl, ◌==◌, ltb, false, [], ◌∷◌, some,
  length, get_or, take, drop, arith, length-drop,
}
use koros.Base.Index.{list_ext, get_elem?-drop}
use koros.Base.Words.{
  to_le_bytes, from_le_bytes, read_le, splice, slice, length-splice, length-to_le_bytes,
  slice-splice, slice-splice_apart, from_le_bytes-to_le_bytes, get_elem?-splice,
}
use koros.Base.OrdMap.{Bytes}
use koros.Ext2.Dir.{malformed, from_bytes, write_dir_entry_in_buf}

drop_nil : (n : ℕ) → ◌≡◌ {A = Bytes} (drop n []) []
drop_nil zero = refl
drop_nil (suc n) = refl

drop-drop : (m n : ℕ) (xs : Bytes) → drop n (drop m xs) ≡ drop (m + n) xs
drop-drop zero n xs = ap (λ k. drop k xs) (omega arith)
drop-drop (suc m) n [] = drop_nil n ∙ sym (drop_nil (suc m + n))
drop-drop (suc m) n (x ∷ xs) =
    let e : suc (m + n) ≡ suc m + n = omega arith in drop-drop m n xs ∙ ap (λ k. drop k (x ∷ xs)) e

slice-drop :
    (offset start len : ℕ) (xs : Bytes)
    → slice (drop offset xs) start len ≡ slice xs (offset + start) len
unfolding slice
slice-drop offset start len xs = ap (take len) (drop-drop offset start xs)

read_le-drop :
    (offset start len : ℕ) (xs : Bytes)
    → read_le (drop offset xs) start len ≡ read_le xs (offset + start) len
unfolding read_le
read_le-drop offset start len xs = ap from_le_bytes (slice-drop offset start len xs)

get_or-slice : (xs : Bytes) (i x : ℕ) → slice xs i 1 ≡ x ∷ [] → get_or xs i 0 ≡ x
unfolding slice
get_or-slice [] zero x h = absurd (let e = ap length h in omega (arith, e))
get_or-slice [] (suc i) x h = absurd (let e = ap length h in omega (arith, e))
get_or-slice (y ∷ ys) zero x h = ap (λ l. get_or l 0 0) h
get_or-slice (y ∷ ys) (suc i) x h = get_or-slice ys i x h

get_or-drop : (offset i : ℕ) (xs : Bytes) → get_or (drop offset xs) i 0 ≡ get_or xs (offset + i) 0
get_or-drop zero i xs = ap (λ k. get_or xs k 0) (omega arith)
get_or-drop (suc offset) i [] = refl
get_or-drop (suc offset) i (x ∷ xs) =
    let e : suc (offset + i) ≡ suc offset + i = omega arith in
    get_or-drop offset i xs ∙ ap (λ k. get_or (x ∷ xs) k 0) e

drop-splice :
    (buf : Bytes) (offset : ℕ) (bytes : Bytes) (n : ℕ)
    → offset + length bytes ≤ length buf
    → offset + length bytes ≤ n
    → drop n (splice buf offset bytes) ≡ drop n buf
drop-splice buf offset bytes n h k = list_ext _ _ λ i. ground (
  arith,
  get_elem?-drop n (splice buf offset bytes) i,
  get_elem?-drop n buf i,
  get_elem?-splice buf offset bytes (n + i) h,
)

module _ (buf : Bytes) (offset ino name_len file_type rec_len : ℕ) (name : Bytes)
    (h : offset + 8 + length name ≤ length buf) where
  abbrev buf1 : Bytes
  buf1 = splice buf offset (to_le_bytes 4 ino)

  abbrev buf2 : Bytes
  buf2 = splice buf1 (offset + 4) (to_le_bytes 2 rec_len)

  abbrev buf3 : Bytes
  buf3 = splice buf2 (offset + 6) (name_len ∷ [])

  abbrev buf4 : Bytes
  buf4 = splice buf3 (offset + 7) (file_type ∷ [])

  abbrev written : Bytes
  written = splice buf4 (offset + 8) name

  length1 : length buf1 ≡ length buf
  length1 =
      length-splice buf offset (to_le_bytes 4 ino)
        (let e = length-to_le_bytes 4 ino in omega (arith, e))

  length2 : length buf2 ≡ length buf
  length2 =
      length-splice buf1 (offset + 4) (to_le_bytes 2 rec_len)
        (let e = length-to_le_bytes 2 rec_len in omega (arith, e, length1))
      ∙ length1

  length3 : length buf3 ≡ length buf
  length3 = length-splice buf2 (offset + 6) (name_len ∷ []) (omega (arith, length2)) ∙ length2

  length4 : length buf4 ≡ length buf
  length4 = length-splice buf3 (offset + 7) (file_type ∷ []) (omega (arith, length3)) ∙ length3

  length5 : length written ≡ length buf
  length5 = length-splice buf4 (offset + 8) name (omega (arith, length4)) ∙ length4

  -- The bytes that each write leaves, seen through the later ones.
  through5 :
      (start len : ℕ) → (start + len ≤ offset + 8) → slice written start len ≡ slice buf4 start len
  through5 start len k =
      slice-splice_apart buf4 (offset + 8) name start len (omega (arith, length4)) (inl k)

  through4 :
      (start len : ℕ) → (start + len ≤ offset + 7) → slice written start len ≡ slice buf3 start len
  through4 start len k =
      through5 start len (omega arith)
      ∙ slice-splice_apart buf3 (offset + 7) (file_type ∷ []) start len (omega (arith, length3))
          (inl k)

  through3 :
      (start len : ℕ) → (start + len ≤ offset + 6) → slice written start len ≡ slice buf2 start len
  through3 start len k =
      through4 start len (omega arith)
      ∙ slice-splice_apart buf2 (offset + 6) (name_len ∷ []) start len (omega (arith, length2))
          (inl k)

  through2 :
      (start len : ℕ) → (start + len ≤ offset + 4) → slice written start len ≡ slice buf1 start len
  through2 start len k =
      let e = length-to_le_bytes 2 rec_len in
      through3 start len (omega arith)
      ∙ slice-splice_apart buf1 (offset + 4) (to_le_bytes 2 rec_len) start len
          (omega (arith, e, length1)) (inl k)

  pub length-write_dir_entry_in_buf :
      length (write_dir_entry_in_buf buf offset ino name_len file_type name rec_len) ≡ length buf
  unfolding write_dir_entry_in_buf
  length-write_dir_entry_in_buf = length5

  pub written_name : slice written (offset + 8) (length name) ≡ name
  written_name = slice-splice buf4 (offset + 8) name (omega (arith, length4))

  written_type : get_or written (offset + 7) 0 ≡ file_type
  written_type = get_or-slice written (offset + 7) file_type (
      through5 (offset + 7) 1 (omega arith)
      ∙ slice-splice buf3 (offset + 7) (file_type ∷ []) (omega (arith, length3)))

  written_len : get_or written (offset + 6) 0 ≡ name_len
  written_len = get_or-slice written (offset + 6) name_len (
      through4 (offset + 6) 1 (omega arith)
      ∙ slice-splice buf2 (offset + 6) (name_len ∷ []) (omega (arith, length2)))

  pub written_rec : rec_len < 256 ^ 2 → read_le written (offset + 4) 2 ≡ rec_len
  unfolding read_le
  written_rec b =
      let e = length-to_le_bytes 2 rec_len in
      ap from_le_bytes (
        through3 (offset + 4) 2 (omega arith)
        ∙ ap (slice buf2 (offset + 4)) (sym e)
        ∙ slice-splice buf1 (offset + 4) (to_le_bytes 2 rec_len) (omega (arith, e, length1)))
      ∙ from_le_bytes-to_le_bytes 2 rec_len b

  pub written_ino : ino < 256 ^ 4 → read_le written offset 4 ≡ ino
  unfolding read_le
  written_ino b =
      let e = length-to_le_bytes 4 ino in
      ap from_le_bytes (
        through2 offset 4 (omega arith)
        ∙ ap (slice buf1 offset) (sym e)
        ∙ slice-splice buf offset (to_le_bytes 4 ino) (omega (arith, e)))
      ∙ from_le_bytes-to_le_bytes 4 ino b

  behind : (n : ℕ) → offset + 8 + length name ≤ n → drop n written ≡ drop n buf
  behind n k =
      let e = length-to_le_bytes 4 ino in
      let f = length-to_le_bytes 2 rec_len in
      drop-splice buf4 (offset + 8) name n (omega (arith, length4)) k
      ∙ drop-splice buf3 (offset + 7) (file_type ∷ []) n (omega (arith, length3)) (omega arith)
      ∙ drop-splice buf2 (offset + 6) (name_len ∷ []) n (omega (arith, length2)) (omega arith)
      ∙ drop-splice buf1 (offset + 4) (to_le_bytes 2 rec_len) n (omega (arith, f, length1))
          (omega (arith, f))
      ∙ drop-splice buf offset (to_le_bytes 4 ino) n (omega (arith, e)) (omega (arith, e))

-- What `from_bytes` needs of the fields, and gives for them.
parsed :
    (bytes rest : Bytes) (ino rec_len name_len file_type : ℕ) (name : Bytes)
    → read_le bytes 0 4 ≡ ino
    → read_le bytes 4 2 ≡ rec_len
    → get_or bytes 6 0 ≡ name_len
    → get_or bytes 7 0 ≡ file_type
    → slice bytes 8 name_len ≡ name
    → drop rec_len bytes ≡ rest
    → 0 < ino
    → 8 + name_len ≤ rec_len
    → rec_len ≤ length bytes
    → from_bytes bytes
      ≡ some (
        record {
          inode = ino;
          rec_len = rec_len;
          name_len = name_len;
          file_type = file_type;
          name = name;
        },
        rest,
      )
unfolding from_bytes malformed
parsed bytes rest ino rec_len name_len file_type name a b c d e f g h k =
    let short : ltb (length bytes) 8 ≡ false = ground arith in
    let well : malformed bytes ≡ false = ground arith in
    let used : (read_le bytes 0 4 == 0) ≡ false = ground arith in
    rw (short, well, used, a, b, c, d, e, f, from_bytes) refl

-- An entry that is written with its own name length, an inode number that is not 0 and a record that
-- holds the name and lies in the buffer is what `from_bytes` finds there, and what follows it is what
-- followed the record.
pub from_bytes-write_dir_entry_in_buf :
    (buf : Bytes) (offset ino file_type rec_len : ℕ) (name : Bytes)
    → 0 < ino
    → ino < 2 ^ 32
    → rec_len < 2 ^ 16
    → 8 + length name ≤ rec_len
    → offset + rec_len ≤ length buf
    → from_bytes
        (drop offset (write_dir_entry_in_buf buf offset ino (length name) file_type name rec_len))
      ≡ some (
        record {
          inode = ino;
          rec_len = rec_len;
          name_len = length name;
          file_type = file_type;
          name = name;
        },
        drop (offset + rec_len) buf,
      )
unfolding write_dir_entry_in_buf
from_bytes-write_dir_entry_in_buf buf offset ino file_type rec_len name a b c d e =
    let fits : offset + 8 + length name ≤ length buf = omega arith in
    let w = written buf offset ino (length name) file_type rec_len name fits in
    parsed (drop offset w) (drop (offset + rec_len) buf) ino rec_len (length name) file_type name
      (read_le-drop offset 0 4 w
        ∙ ap (λ k. read_le w k 4) (omega arith)
        ∙ written_ino buf offset ino (length name) file_type rec_len name fits b)
      (read_le-drop offset 4 2 w
        ∙ written_rec buf offset ino (length name) file_type rec_len name fits c)
      (get_or-drop offset 6 w
        ∙ written_len buf offset ino (length name) file_type rec_len name fits)
      (get_or-drop offset 7 w
        ∙ written_type buf offset ino (length name) file_type rec_len name fits)
      (slice-drop offset 8 (length name) w
        ∙ written_name buf offset ino (length name) file_type rec_len name fits)
      (drop-drop offset rec_len w
        ∙ behind buf offset ino (length name) file_type rec_len name fits (offset + rec_len)
            (omega arith))
      a d
      (let l = length-drop offset w in
        let m = length5 buf offset ino (length name) file_type rec_len name fits in
        omega (arith, l, m))
