-- ===== src/Base/Words.antt =====
-- Arithmetic on `u32`, which wraps, and numbers as little-endian bytes.
use Prim.Native.Nat.{ℕ, zero, suc, ◌+◌, ◌-◌, ◌*◌, ◌/◌, ◌%◌, ◌^◌, ◌<◌, ◌≤◌}
use mathlib.Core.Path.{◌≡◌, refl, ◌∙◌, ap, sym}
use mathlib.Core.List.{List, [], ◌∷◌, ◌++◌}
use native.Mathlib.Omega.{arith}
use mathlib.Core.Option.{none}
use mathlib.Core.Bool.{◌&&◌}
use mathlib.Core.Logic.{◌⊎◌}
use koros.Base.Tests.{ltb, leb, if◌then◌else◌}
use koros.Base.Index.{get_elem?-append, get_elem?-take, get_elem?-drop, list_ext, get_elem?_beyond}
use koros.Base.Lists.{get_elem?, length, take, drop, length-append, length-take, length-drop}

abbrev pub add32 : ℕ → ℕ → ℕ
add32 a b = (a + b) % 2 ^ 32

abbrev pub sub32 : ℕ → ℕ → ℕ
sub32 a b = (a + 2 ^ 32 - b) % 2 ^ 32

abbrev pub mul32 : ℕ → ℕ → ℕ
mul32 a b = a * b % 2 ^ 32

-- The first `count` bytes of `to_le_bytes`.
unfoldable pub to_le_bytes : ℕ → ℕ → List ℕ
to_le_bytes zero x = []
to_le_bytes (suc count) x = x % 256 ∷ to_le_bytes count (x / 256)

-- `from_le_bytes`.
unfoldable pub from_le_bytes : List ℕ → ℕ
from_le_bytes [] = 0
from_le_bytes (b ∷ bs) = b + 256 * from_le_bytes bs

-- `buf[offset..offset + bytes.len()].copy_from_slice(bytes)`, which fits in the buffer.
unfoldable pub splice : List ℕ → ℕ → List ℕ → List ℕ
splice buf offset bytes = take offset buf ++ (bytes ++ drop (offset + length bytes) buf)

-- `buf[offset..offset + len]`
unfoldable pub slice : List ℕ → ℕ → ℕ → List ℕ
slice buf offset len = take len (drop offset buf)

-- The number in `count` bytes at an offset.
unfoldable pub read_le : List ℕ → ℕ → ℕ → ℕ
unfolding from_le_bytes slice
read_le buf offset count = from_le_bytes (slice buf offset count)

pub length-to_le_bytes : (count x : ℕ) → length (to_le_bytes count x) ≡ count
unfolding to_le_bytes
length-to_le_bytes zero x = refl
length-to_le_bytes (suc count) x = omega (arith, length-to_le_bytes count (x / 256))

pub from_le_bytes-to_le_bytes :
    (count x : ℕ) → x < 256 ^ count → from_le_bytes (to_le_bytes count x) ≡ x
unfolding to_le_bytes from_le_bytes
from_le_bytes-to_le_bytes zero x h = omega arith
from_le_bytes-to_le_bytes (suc count) x h =
    omega (arith, from_le_bytes-to_le_bytes count (x / 256) (low count x h))
  where
    low : (count x : ℕ) → x < 256 ^ suc count → x / 256 < 256 ^ count
    low count x h = omega arith

pub length-splice :
    (buf : List ℕ) (offset : ℕ) (bytes : List ℕ)
    → offset + length bytes ≤ length buf
    → length (splice buf offset bytes) ≡ length buf
unfolding splice
length-splice buf offset bytes h =
    let tail = drop (offset + length bytes) buf in
    let whole : length (splice buf offset bytes)
        ≡ length (take offset buf) + length (bytes ++ tail) =
      length-append (take offset buf) (bytes ++ tail) in
    omega (
      arith,
      whole,
      length-append bytes tail,
      length-take offset buf,
      length-drop (offset + length bytes) buf,
    )

pub get_elem?-slice :
    (buf : List ℕ) (offset len i : ℕ)
    → get_elem? (slice buf offset len) i ≡ (if ltb i len then get_elem? buf (offset + i) else none)
unfolding slice
get_elem?-slice buf offset len i =
    ground (arith, get_elem?-take len (drop offset buf) i, get_elem?-drop offset buf i)

pub get_elem?-splice :
    (buf : List ℕ) (offset : ℕ) (bytes : List ℕ) (i : ℕ)
    → offset + length bytes ≤ length buf
    → get_elem? (splice buf offset bytes) i ≡ (
        if leb offset i && ltb i (offset + length bytes)
        then get_elem? bytes (i - offset)
        else get_elem? buf i)
unfolding splice
get_elem?-splice buf offset bytes i h =
    let tail = drop (offset + length bytes) buf in
    let first : length (take offset buf) ≡ offset = omega (arith, length-take offset buf) in
    let whole : get_elem? (splice buf offset bytes) i ≡ (
        if ltb i (length (take offset buf))
        then get_elem? (take offset buf) i
        else get_elem? (bytes ++ tail) (i - length (take offset buf))) =
      get_elem?-append (take offset buf) (bytes ++ tail) i in
    ground (
      arith,
      first,
      whole,
      get_elem?-take offset buf i,
      get_elem?-append bytes tail (i - offset),
      get_elem?-drop (offset + length bytes) buf (i - offset - length bytes),
    )

-- The bytes are read where they were written.
pub slice-splice :
    (buf : List ℕ) (offset : ℕ) (bytes : List ℕ)
    → offset + length bytes ≤ length buf
    → slice (splice buf offset bytes) offset (length bytes) ≡ bytes
slice-splice buf offset bytes h = list_ext _ _ λ i. ground (
  arith,
  get_elem?-slice (splice buf offset bytes) offset (length bytes) i,
  get_elem?-splice buf offset bytes (offset + i) h,
  get_elem?_beyond bytes i,
)

-- A part of the buffer that the write does not touch stays.
pub slice-splice_apart :
    (buf : List ℕ) (offset : ℕ) (bytes : List ℕ) (start len : ℕ)
    → offset + length bytes ≤ length buf
    → (start + len ≤ offset) ⊎ (offset + length bytes ≤ start)
    → slice (splice buf offset bytes) start len ≡ slice buf start len
slice-splice_apart buf offset bytes start len h apart = list_ext _ _ λ i. ground (
  arith,
  get_elem?-slice (splice buf offset bytes) start len i,
  get_elem?-slice buf start len i,
  get_elem?-splice buf offset bytes (start + i) h,
)

-- A number is read where it was written, and elsewhere nothing changes.
pub read_le-splice :
    (buf : List ℕ) (offset count x : ℕ)
    → offset + count ≤ length buf
    → x < 256 ^ count
    → read_le (splice buf offset (to_le_bytes count x)) offset count ≡ x
unfolding read_le
read_le-splice buf offset count x h k =
    let len = length-to_le_bytes count x in
    ap from_le_bytes (
      ap (slice (splice buf offset (to_le_bytes count x)) offset) (sym len)
      ∙ slice-splice buf offset (to_le_bytes count x) (omega (arith, len)))
    ∙ from_le_bytes-to_le_bytes count x k

pub read_le-splice_apart :
    (buf : List ℕ) (offset : ℕ) (bytes : List ℕ) (start count : ℕ)
    → offset + length bytes ≤ length buf
    → (start + count ≤ offset) ⊎ (offset + length bytes ≤ start)
    → read_le (splice buf offset bytes) start count ≡ read_le buf start count
unfolding read_le
read_le-splice_apart buf offset bytes start count h apart =
    ap from_le_bytes (slice-splice_apart buf offset bytes start count h apart)
