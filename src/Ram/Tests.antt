-- ===== src/Ram/Tests.antt =====
-- A tree with the root 0, a directory 1 named `a` and a file 2 named `f` in it.
use koros.Base.{
  ℕ, zero, suc, [], ◌∷◌, none, some, absurd_none, sym, ◌∙◌, ◌≡◌, ◌≢◌, refl, true, false, ◌&&◌, leb,
  ltb, if◌then◌else◌, ◌==◌, ◌+◌, ◌-◌, ◌<◌, arith, get_elem?, length,
}
use koros.Base.OrdMap.{Bytes, bytes_eq, bytes_key, get, insert, remove}
use koros.Base.Result.{ok, err}
use koros.Kor.Vfs.{FileType, FsError, is_directory, is_regular}
use koros.Ram.{
  RamFs, RamINode, put, metadata_of, add_node, new_dir, new_file, read_at, overwrite, write_at,
  add_child, remove_child, add_entry, build_child, create, unlink, rmdir, is_empty, move_entry,
  set_parent, is_occupied, rename,
}
use koros.Ram.Content.{read_at-write_at}
use koros.Ram.Names.{entry, unlink_entries, rmdir_entries, rename_entries, create_entries}
use koros.Ram.Valid.{IsValid, create_step, IsValid-Step}

abbrev root_node : RamINode
root_node = record {
  ino = 1;
  file_type = FileType.directory;
  content = [];
  children = [];
  metadata = metadata_of 0 493 FileType.directory;
  self_ref = some 0;
  parent = none;
}

-- `RamFs::new`
abbrev empty : RamFs
empty = record { nodes = λ i. root_node; count = 1; next_ino = 2 }

abbrev a_name : Bytes
a_name = 97 ∷ []

abbrev f_name : Bytes
f_name = 102 ∷ []

abbrev with_a : RamFs
with_a = add_child (new_dir empty (some 0) 493) 0 a_name 1

abbrev with_f : RamFs
with_f = add_child (new_file with_a 1 420) 1 f_name 2

made_a : create empty 0 a_name FileType.directory 493 ≡ ok (with_a, 1)
unfolding create add_entry build_child is_directory get
made_a = refl

made_f : create with_a 1 f_name FileType.regular 420 ≡ ok (with_f, 2)
unfolding create add_entry build_child is_directory get add_child new_dir add_node put
made_f = refl

empty-IsValid : IsValid empty
empty-IsValid = record {
  named = λ d i m e. absurd (absurd_none (sym (none_there d m) ∙ e));
  in_dir = λ d i m e. refl_dir;
  handles = λ d h. zero_handle d h;
}
  where
    none_there : (d : ℕ) (m : Bytes) → entry empty d m ≡ none
    none_there d m = unfold entry get in refl

    refl_dir : is_directory FileType.directory ≡ true
    refl_dir = unfold is_directory in refl

    zero_handle : (d : ℕ) → d < 1 → some 0 ≡ some d
    zero_handle zero h = refl
    zero_handle (suc d) h = absurd (omega arith)

IsValid-Step_example : IsValid with_a
IsValid-Step_example =
    IsValid-Step (λ i. true) empty with_a empty-IsValid
      (create_step 0 1 493 a_name FileType.directory (omega arith) made_a)

create_entries_run :
    (entry with_a 1 f_name ≡ none)
    × (2 ≡ with_a.count)
    × ((with_f.nodes 2).file_type ≡ FileType.regular)
    × ((m : Bytes) → entry with_f 2 m ≡ none)
    × ((with_f.nodes 2).parent ≡ (with_a.nodes 1).self_ref)
    × ((d : ℕ) (m : Bytes)
        → d ≢ 2
        → entry with_f d m ≡ (if 1 == d && bytes_eq f_name m then some 2 else entry with_a d m))
create_entries_run = create_entries with_a with_f 1 2 420 f_name FileType.regular below made_f
  where
    below : 1 < with_a.count
    below = unfold add_child new_dir add_node put in omega arith

-- Three bytes at offset 2 of the empty file.
abbrev buf : Bytes
buf = 7 ∷ 8 ∷ 9 ∷ []

abbrev written : RamFs
written = put with_f 2 (record (with_f.nodes 2) {
  content = overwrite (with_f.nodes 2).content 2 buf;
  metadata = record (with_f.nodes 2).metadata {
    size = length (overwrite (with_f.nodes 2).content 2 buf);
  };
})

write_f : write_at with_f 2 2 buf ≡ ok (written, 3)
unfolding write_at is_regular add_child new_file new_dir add_node put
write_f = refl

written_bytes : (written.nodes 2).content ≡ 0 ∷ 0 ∷ 7 ∷ 8 ∷ 9 ∷ []
unfolding overwrite add_child new_file new_dir add_node put
written_bytes = refl

read_at-write_at_example :
    (3 ≡ length buf)
    × (read_at written 2 2 (length buf) ≡ ok buf)
    × ((i : ℕ)
        → get_elem? (written.nodes 2).content i ≡ (
            if leb 2 i && ltb i (2 + length buf)
            then get_elem? buf (i - 2)
            else if ltb i (length (with_f.nodes 2).content)
            then get_elem? (with_f.nodes 2).content i
            else if ltb i 2
            then some 0
            else none))
    × ((written.nodes 2).metadata.size ≡ length (written.nodes 2).content)
read_at-write_at_example = read_at-write_at with_f written 2 2 3 buf write_f

unlinked : unlink with_f 1 f_name ≡ ok (remove_child with_f 1 f_name)
unfolding unlink is_directory get insert add_child new_dir new_file add_node put
unlinked = refl

unlink_entries_run :
    ((i : ℕ) × (entry with_f 1 f_name ≡ some i) × (is_directory (with_f.nodes i).file_type ≡ false))
    × ((d : ℕ) (m : Bytes)
        → entry (remove_child with_f 1 f_name) d m
          ≡ (if 1 == d && bytes_eq f_name m then none else entry with_f d m))
unlink_entries_run = unlink_entries with_f (remove_child with_f 1 f_name) 1 f_name unlinked

removed : rmdir with_a 0 a_name ≡ ok (remove_child with_a 0 a_name)
unfolding rmdir is_directory is_empty get insert add_child new_dir add_node put
removed = refl

rmdir_entries_run :
    ((i : ℕ) × (entry with_a 0 a_name ≡ some i)
      × (is_directory (with_a.nodes i).file_type ≡ true)
      × ((m : Bytes) → entry with_a i m ≡ none))
    × ((d : ℕ) (m : Bytes)
        → entry (remove_child with_a 0 a_name) d m
          ≡ (if 0 == d && bytes_eq a_name m then none else entry with_a d m))
rmdir_entries_run = rmdir_entries with_a (remove_child with_a 0 a_name) 0 a_name removed

-- The directory `a` can be moved into itself, as `a/f`: it is then its own child, and the root has lost it.
moved : (rename with_a 0 a_name (some 1) f_name).0 ≡ ok tt
unfolding rename is_directory is_empty is_occupied move_entry set_parent get insert add_child
    remove_child new_dir add_node put
moved = refl

moved_child : entry (rename with_a 0 a_name (some 1) f_name).1 1 f_name ≡ some 1
unfolding entry rename is_directory is_empty is_occupied move_entry set_parent get insert remove
    add_child remove_child new_dir add_node put
moved_child = refl

moved_away : entry (rename with_a 0 a_name (some 1) f_name).1 0 a_name ≡ none
unfolding entry rename is_directory is_empty is_occupied move_entry set_parent get insert remove
    add_child remove_child new_dir add_node put
moved_away = refl

-- Renaming a directory that is not empty to its own name fails.
same_name : (rename with_f 0 a_name (some 0) a_name).0 ≡ err FsError.not_empty
unfolding rename is_directory is_empty is_occupied move_entry set_parent get insert add_child
    remove_child new_dir new_file add_node put
same_name = refl

rename_entries_example :
    (child : ℕ) × (entry with_a 0 a_name ≡ some child)
    × ((d : ℕ) (m : Bytes)
        → entry (rename with_a 0 a_name (some 1) f_name).1 d m ≡ (
            if 1 == d && bytes_eq f_name m
            then some child
            else if 0 == d && bytes_eq a_name m
            then none
            else entry with_a d m))
rename_entries_example = rename_entries with_a 0 1 a_name f_name moved
