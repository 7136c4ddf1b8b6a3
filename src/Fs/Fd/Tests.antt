-- ===== src/Fs/Fd/Tests.antt =====
-- A descriptor at position 5 of a file of 9 bytes.
use koros.Base.{ℕ, ◌+◌, ◌≡◌, refl}
use koros.Base.Result.{Result, ok}
use koros.Kor.Vfs.{FsError, Metadata, FileType}
use koros.Fs.Fd.{backward, from_end, FileDescriptor, move_from, at_position, seek}
use koros.Fs.Fd.Seek.{seek_exact}

abbrev meta : Metadata
meta = record {
  size = 9;
  mode = 420;
  uid = 0;
  gid = 0;
  atime = 0;
  mtime = 0;
  ctime = 0;
  file_type = FileType.regular;
}

abbrev getattr : ℕ → ℕ → Result FsError Metadata
getattr s node = ok meta

abbrev fd : FileDescriptor ℕ
fd = record { inode = 1; position = 5; flags = 1; mode = 420 }

two_before_end : seek getattr 0 fd (from_end (backward 2)) ≡ ok (record fd { position = 7 }, 7)
unfolding seek move_from at_position
two_before_end = refl

seek_exact_run : (7 + 2 ≡ 9 + 0) × (record fd { position = 7 } ≡ record fd { position = 7 })
seek_exact_run =
    seek_exact getattr 0 fd (record fd { position = 7 }) 7 (from_end (backward 2)) meta refl
      two_before_end
