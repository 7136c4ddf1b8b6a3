-- ===== src/Ram/Content.antt =====
-- Reads and writes of the content of a file.
use koros.Base.Index.{
  get_elem?_beyond, get_elem?-append, get_elem?-take, get_elem?-drop, get_elem?-replicate, list_ext,
}
use koros.Base.{
  ℕ, ◌+◌, ◌-◌, ◌≤◌, ◌≡◌, refl, sym, ◌∙◌, ap, min, false, not, ◌&&◌, ltb, leb, if◌then◌else◌, [],
  ◌∷◌, ◌++◌, none, some, length, take, drop, replicate, get_elem?, arith, inl, inr, Bool-cases,
  length-append, length-take, length-drop, length-replicate,
}
use koros.Base.OrdMap.{Bytes}
use koros.Base.Result.{ok, ok_eq, absurd_ok}
use koros.Kor.Vfs.{is_regular}
use koros.Ram.{RamFs, RamINode, put, read_at, write_at, overwrite}

length-overwrite :
    (content : Bytes) (offset : ℕ) (buf : Bytes)
    → length (overwrite content offset buf)
      ≡ (if ltb (length content) (offset + length buf) then offset + length buf else length content)
unfolding overwrite
length-overwrite content offset buf = ground (
  arith,
  length-append (take offset (content ++ replicate (offset + length buf - length content) 0)) (
      buf
      ++ drop (offset + length buf)
          (content ++ replicate (offset + length buf - length content) 0)),
  length-append buf
      (drop (offset + length buf) (content ++ replicate (offset + length buf - length content) 0)),
  length-take offset (content ++ replicate (offset + length buf - length content) 0),
  length-drop (offset + length buf) (content ++ replicate (offset + length buf - length content) 0),
  length-append content (replicate (offset + length buf - length content) 0),
  length-replicate {A = ℕ} (offset + length buf - length content) 0,
)

-- The bytes of a content that has been written to: those of the buffer in its range, the old ones
-- elsewhere, and 0 in a gap between the old end and the range.
get_elem?-overwrite :
    (content : Bytes) (offset : ℕ) (buf : Bytes) (i : ℕ)
    → get_elem? (overwrite content offset buf) i ≡ (
        if leb offset i && ltb i (offset + length buf)
        then get_elem? buf (i - offset)
        else if ltb i (length content)
        then get_elem? content i
        else if ltb i offset
        then some 0
        else none)
unfolding overwrite
get_elem?-overwrite content offset buf i =
    let pad = replicate (offset + length buf - length content) 0 in
    let wide = content ++ pad in
    let long : length wide ≡ length content + (offset + length buf - length content) =
      length-append content pad
      ∙ ap (λ n. length content + n)
          (length-replicate {A = ℕ} (offset + length buf - length content) 0) in
    let first : length (take offset wide) ≡ offset = omega (arith, length-take offset wide, long) in
    ground (
      arith,
      first,
      long,
      get_elem?-append (take offset wide) (buf ++ drop (offset + length buf) wide) i,
      get_elem?-take offset wide i,
      get_elem?-append buf (drop (offset + length buf) wide) (i - offset),
      get_elem?-drop (offset + length buf) wide (i - offset - length buf),
      get_elem?-append content pad i,
      get_elem?-replicate {A = ℕ} (offset + length buf - length content) 0 (i - length content),
    )

min_range : (a b c : ℕ) → c ≡ (if ltb b (a + c) then a + c else b) → b ≤ c
min_range a b c h = ground arith

-- The bytes read back are the bytes written.
take-drop-overwrite :
    (content : Bytes) (offset : ℕ) (buf : Bytes)
    → take
        (min (offset + length buf) (length (overwrite content offset buf)) - offset)
        (drop offset (overwrite content offset buf))
      ≡ buf
take-drop-overwrite content offset buf = list_ext _ _ λ i. ground (
  arith,
  length-overwrite content offset buf,
  get_elem?-take (min (offset + length buf) (length (overwrite content offset buf)) - offset)
      (drop offset (overwrite content offset buf)) i,
  get_elem?-drop offset (overwrite content offset buf) i,
  get_elem?-overwrite content offset buf (offset + i),
  get_elem?_beyond buf i,
)

put_at : (s : RamFs) (i : ℕ) (node : RamINode) → (put s i node).nodes i ≡ node
unfolding put
put_at s i node = ground arith

length_zero : (xs : Bytes) → length xs ≡ 0 → xs ≡ []
length_zero [] h = refl
length_zero (x ∷ xs) h = absurd (omega arith)

read_back :
    (s : RamFs) (self offset : ℕ) (buf : Bytes)
    → not (is_regular (s.nodes self).file_type) ≡ false
    → (content : Bytes) → (s.nodes self).content ≡ overwrite content offset buf
    → read_at s self offset (length buf) ≡ ok buf
unfolding read_at
read_back s self offset buf e content c =
    elim (Bool-cases (leb (length (s.nodes self).content) offset)) [
      | inl l ↦
          let longer = length-overwrite content offset buf in
          let nil : length buf ≡ 0 = ground (arith, ap length c) in
          rw (e, l, read_at) (ap ok (sym (length_zero buf nil)))
      | inr l ↦ rw (e, l, read_at) (rw c (ap ok (take-drop-overwrite content offset buf)))
    ]

-- What a successful write does: the answer is the length of the buffer, a read of as many bytes at the
-- same offset gives the buffer, every other byte of the file is as before, a gap is filled with zeros,
-- and the size in the metadata is the length of the content.
pub read_at-write_at :
    (s s' : RamFs) (self offset n : ℕ) (buf : Bytes)
    → write_at s self offset buf ≡ ok (s', n)
    → (n ≡ length buf)
      × (read_at s' self offset (length buf) ≡ ok buf)
      × ((i : ℕ)
          → get_elem? (s'.nodes self).content i ≡ (
              if leb offset i && ltb i (offset + length buf)
              then get_elem? buf (i - offset)
              else if ltb i (length (s.nodes self).content)
              then get_elem? (s.nodes self).content i
              else if ltb i offset
              then some 0
              else none))
      × ((s'.nodes self).metadata.size ≡ length (s'.nodes self).content)
unfolding write_at
read_at-write_at s s' self offset n buf h =
    elim (Bool-cases (not (is_regular (s.nodes self).file_type))) [
      | inl e ↦ absurd (absurd_ok (rw (e, write_at) at h))
      | inr e ↦
          let same = ok_eq (rw (e, write_at) at h) in
          let node = s.nodes self in
          let written = put_at s self (record node {
            content = overwrite node.content offset buf;
            metadata = record node.metadata { size = length (overwrite node.content offset buf) };
          }) in
          let becomes = ap (λ p. p.0.nodes self) (sym same) ∙ written in
          (
            ap (λ p. p.1) (sym same),
            read_back s' self offset buf (ap (λ m. not (is_regular m.file_type)) becomes ∙ e)
                node.content (ap (λ m. m.content) becomes),
            (λ i.
                ap (λ m. get_elem? m.content i) becomes
                ∙ get_elem?-overwrite node.content offset buf i),
            (ap (λ m. m.metadata.size) becomes ∙ ap (λ m. length m.content) (sym becomes)),
          )
    ]
