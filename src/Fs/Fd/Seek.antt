-- ===== src/Fs/Fd/Seek.antt =====
-- What `seek` does.
use koros.Base.{ℕ, ◌+◌, ◌≡◌, sym, ap, ltb, inl, inr, Bool-cases, arith, ◌∙◌}
use koros.Base.Result.{Result, ok, ok_eq, absurd_ok}
use koros.Kor.Vfs.{FsError, Metadata}
use koros.Fs.Fd.{
  Delta, forward, backward, SeekFrom, from_start, from_current, from_end, FileDescriptor, move_from,
  at_position, seek,
}

-- How far a step goes forward and back.
abbrev pub ahead : Delta → ℕ
ahead (forward n) = n
ahead (backward n) = 0

abbrev pub back : Delta → ℕ
back (forward n) = 0
back (backward n) = n

-- Where a seek starts, given the position and the size, and how far it goes forward and back.
abbrev pub origin : ℕ → ℕ → SeekFrom → ℕ
origin position size (from_start p) = 0
origin position size (from_current delta) = position
origin position size (from_end delta) = size

abbrev pub step_of : SeekFrom → Delta
step_of (from_start p) = forward p
step_of (from_current delta) = delta
step_of (from_end delta) = delta

zero_plus : (q : ℕ) → 0 + q ≡ q
zero_plus q = omega arith

module _ {Node State : Type 0} (getattr : State → Node → Result FsError Metadata) where
  move_lem :
      (fd fd' : FileDescriptor Node) (base p : ℕ) (delta : Delta)
      → at_position fd (move_from base delta) ≡ ok (fd', p)
      → (p + back delta ≡ base + ahead delta) × (fd' ≡ record fd { position = p })
  unfolding move_from at_position
  move_lem fd fd' base p (forward n) h =
      let same = ok_eq h in
      let at = ap (λ q. q.1) same in
      (omega (arith, at), sym (ap (λ q. q.0) same) ∙ ap (λ x. record fd { position = x }) at)
  move_lem fd fd' base p (backward n) h = elim (Bool-cases (ltb base n)) [
    | inl e ↦ absurd (absurd_ok (rw e at h))
    | inr e ↦
        let same = ok_eq (rw e at h) in
        let at = ap (λ q. q.1) same in
        (ground (arith, at, e), sym (ap (λ q. q.0) same) ∙ ap (λ x. record fd { position = x }) at)
  ]

  -- A successful `seek` moves to the exact integer position, counted from the start, the position or the
  -- end of the file, and changes nothing else of the descriptor.
  pub seek_exact :
      (s : State) (fd fd' : FileDescriptor Node) (p : ℕ) (whence : SeekFrom) (meta : Metadata)
      → getattr s fd.inode ≡ ok meta
      → seek getattr s fd whence ≡ ok (fd', p)
      → (p + back (step_of whence) ≡ origin fd.position meta.size whence + ahead (step_of whence))
        × (fd' ≡ record fd { position = p })
  unfolding seek move_from
  seek_exact s fd fd' p (from_start q) meta g h =
      move_lem fd fd' 0 p (forward q) (ap (λ k. at_position fd (ok k)) (zero_plus q) ∙ h)
  seek_exact s fd fd' p (from_current delta) meta g h = move_lem fd fd' fd.position p delta h
  seek_exact s fd fd' p (from_end delta) meta g h =
      move_lem fd fd' meta.size p delta (rw (g, seek) at h)
