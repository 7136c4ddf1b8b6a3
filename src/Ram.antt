-- ===== src/Ram.antt =====
-- filesystems/kor-ramfs/src/lib.rs. An `Arc<RamINode>` is the number of a node; `nodes` gives the node
-- and `count` is the next free number. A `Weak` is also a number, and `upgrade` succeeds while a strong
-- handle exists: `live` says for which nodes, since callers hold handles too. Each method runs under the
-- locks it takes and is one step. Offsets are far below 2^64.
pub mod Content
pub mod Names
pub mod Valid
mod Tests
use koros.Base.{
  ℕ, zero, suc, ◌+◌, ◌-◌, ◌%◌, ◌^◌, ◌==◌, min, Bool, true, false, not, ◌&&◌, ltb, leb,
  if◌then◌else◌, List, [], ◌∷◌, ◌++◌, Option, none, some, length, take, drop, replicate, map,
}
use koros.Base.OrdMap.{Bytes, bytes_eq, bytes_key, get, insert, remove}
use koros.Base.Result.{Result, ok, err}
use koros.Kor.Vfs.{FileType, Metadata, FsError, is_directory, is_regular, is_symlink}
use koros.Fs.Path.{dot, dot_dot}

pub record RamINode : Type 0 where
  pub ino : ℕ
  pub file_type : FileType
  pub content : Bytes
  pub children : List (Bytes × ℕ)
  pub metadata : Metadata
  pub self_ref : Option ℕ
  pub parent : Option ℕ

-- The nodes and the counter `NEXT_INO`.
pub record RamFs : Type 0 where
  pub nodes : ℕ → RamINode
  pub count : ℕ
  pub next_ino : ℕ

pub put : RamFs → ℕ → RamINode → RamFs
put s i node = record s { nodes = λ j. if i == j then node else s.nodes j }

abbrev pub metadata_of : ℕ → ℕ → FileType → Metadata
metadata_of size mode file_type = record {
  size = size;
  mode = mode;
  uid = 0;
  gid = 0;
  atime = 0;
  mtime = 0;
  ctime = 0;
  file_type = file_type;
}

-- `alloc_ino`, `Arc::new` and the store to `self_ref`. The number of the new node is `s.count`.
pub add_node : RamFs → FileType → Bytes → ℕ → Option ℕ → RamFs
add_node s file_type content mode parent =
    record (put s s.count (record {
      ino = s.next_ino;
      file_type = file_type;
      content = content;
      children = [];
      metadata = metadata_of (length content) mode file_type;
      self_ref = some s.count;
      parent = parent;
    })) { count = suc s.count; next_ino = suc s.next_ino % 2 ^ 32 }

pub new_dir : RamFs → Option ℕ → ℕ → RamFs
new_dir s parent mode = add_node s FileType.directory [] mode parent

pub new_file : RamFs → ℕ → ℕ → RamFs
new_file s parent mode = add_node s FileType.regular [] mode (some parent)

-- The mode is 0o777.
pub new_symlink : RamFs → ℕ → Bytes → RamFs
new_symlink s parent target = add_node s FileType.symlink target 511 (some parent)

pub read_at : RamFs → ℕ → ℕ → ℕ → Result FsError Bytes
read_at s self offset len =
    let node = s.nodes self in
    if not (is_regular node.file_type)
    then err FsError.invalid_input
    else if leb (length node.content) offset
    then ok []
    else ok (take (min (offset + len) (length node.content) - offset) (drop offset node.content))

-- `resize(end, 0)` if the content is shorter, and `copy_from_slice`.
pub overwrite : Bytes → ℕ → Bytes → Bytes
overwrite content offset buf =
    let wide = content ++ replicate (offset + length buf - length content) 0 in
    take offset wide ++ (buf ++ drop (offset + length buf) wide)

pub write_at : RamFs → ℕ → ℕ → Bytes → Result FsError (RamFs × ℕ)
write_at s self offset buf =
    let node = s.nodes self in
    if not (is_regular node.file_type)
    then err FsError.invalid_input
    else ok (
      put s self (record node {
        content = overwrite node.content offset buf;
        metadata = record node.metadata { size = length (overwrite node.content offset buf) };
      }),
      length buf,
    )

-- `Weak::upgrade`
pub upgrade : (ℕ → Bool) → Option ℕ → Result FsError ℕ
upgrade live none = err FsError.io_error
upgrade live (some i) = if live i then ok i else err FsError.io_error

-- The directory `..` of a node: the root is its own.
pub parent_of : (ℕ → Bool) → RamINode → Result FsError ℕ
parent_of live node = elim node.parent [
  | some p ↦ upgrade live (some p)
  | none ↦ upgrade live node.self_ref
]

pub found : Option ℕ → Result FsError ℕ
found none = err FsError.not_found
found (some i) = ok i

pub lookup : (ℕ → Bool) → RamFs → ℕ → Bytes → Result FsError ℕ
lookup live s self name =
    let node = s.nodes self in
    if not (is_directory node.file_type)
    then err FsError.not_directory
    else if bytes_eq name dot
    then upgrade live node.self_ref
    else if bytes_eq name dot_dot
    then parent_of live node
    else found (get name node.children)

-- `children.insert` of the node `self`.
pub add_child : RamFs → ℕ → Bytes → ℕ → RamFs
add_child s self name child =
    let node = s.nodes self in
    put s self (record node { children = insert name child node.children })

pub remove_child : RamFs → ℕ → Bytes → RamFs
remove_child s self name =
    let node = s.nodes self in put s self (record node { children = remove name node.children })

-- What `create`, `mkdir` and `symlink` have in common: the checks, with the own handle for the child,
-- then the new node and its entry.
pub add_entry : RamFs → ℕ → Bytes → (ℕ → Option RamFs) → Result FsError (RamFs × ℕ)
add_entry s self name build =
    let node = s.nodes self in
    if not (is_directory node.file_type) then err FsError.not_directory else (elim node.self_ref [
      | none ↦ err FsError.io_error
      | some own ↦ elim (get name node.children) [
        | some old ↦ err FsError.already_exists
        | none ↦ elim (build own) [
          | none ↦ err FsError.invalid_input
          | some with_child ↦ ok (add_child with_child self name s.count, s.count)
        ]
      ]
    ])

pub build_child : RamFs → FileType → ℕ → ℕ → Option RamFs
build_child s file_type mode own = elim file_type [
  | FileType.regular ↦ some (new_file s own mode)
  | FileType.directory ↦ some (new_dir s (some own) mode)
  | _ ↦ none
]

pub create : RamFs → ℕ → Bytes → FileType → ℕ → Result FsError (RamFs × ℕ)
create s self name file_type mode = add_entry s self name (build_child s file_type mode)

pub mkdir : RamFs → ℕ → Bytes → ℕ → Result FsError (RamFs × ℕ)
mkdir s self name mode = add_entry s self name (λ own. some (new_dir s (some own) mode))

pub symlink : RamFs → ℕ → Bytes → Bytes → Result FsError (RamFs × ℕ)
symlink s self name target = add_entry s self name (λ own. some (new_symlink s own target))

pub unlink : RamFs → ℕ → Bytes → Result FsError RamFs
unlink s self name =
    let node = s.nodes self in
    if not (is_directory node.file_type)
    then err FsError.not_directory
    else (elim (get name node.children) [
      | none ↦ err FsError.not_found
      | some child ↦
          if is_directory (s.nodes child).file_type
          then err FsError.is_a_directory
          else ok (remove_child s self name)
    ])

pub is_empty : List (Bytes × ℕ) → Bool
is_empty [] = true
is_empty (x ∷ xs) = false

pub rmdir : RamFs → ℕ → Bytes → Result FsError RamFs
rmdir s self name =
    let node = s.nodes self in
    if not (is_directory node.file_type)
    then err FsError.not_directory
    else (elim (get name node.children) [
      | none ↦ err FsError.not_found
      | some child ↦
          if not (is_directory (s.nodes child).file_type)
          then err FsError.not_directory
          else if not (is_empty (s.nodes child).children)
          then err FsError.not_empty
          else ok (remove_child s self name)
    ])

pub getattr : RamFs → ℕ → Metadata
getattr s self = (s.nodes self).metadata

pub setattr : RamFs → ℕ → Metadata → RamFs
setattr s self metadata =
    let node = s.nodes self in put s self (record node { metadata = metadata })

pub list : RamFs → ℕ → Result FsError (List (Bytes × ℕ))
list s self =
    if not (is_directory (s.nodes self).file_type)
    then err FsError.not_directory
    else ok (map (λ e. (e.0, (s.nodes e.1).ino)) (s.nodes self).children)

-- The target is `none` if it is an inode of another kind.
pub link : (ℕ → Bool) → RamFs → ℕ → Bytes → Option ℕ → Result FsError RamFs
link live s self name target =
    if not (is_directory (s.nodes self).file_type)
    then err FsError.not_directory
    else (elim target [
      | none ↦ err FsError.invalid_input
      | some t ↦
          if is_directory (s.nodes t).file_type
          then err FsError.is_a_directory
          else (elim (upgrade live (s.nodes t).self_ref) [
            | err e ↦ err e
            | ok handle ↦ elim (get name (s.nodes self).children) [
              | some old ↦ err FsError.already_exists
              | none ↦ ok (add_child s self name handle)
            ]
          ])
    ])

-- The two maps after the entry has moved.
pub move_entry : RamFs → ℕ → Bytes → ℕ → Bytes → ℕ → RamFs
move_entry s self old_name new_parent new_name child =
    if self == new_parent
    then add_child (remove_child s self old_name) self new_name child
    else remove_child (add_child s new_parent new_name child) self old_name

-- A directory gets its new parent. The entry has moved even if this fails.
pub set_parent : RamFs → ℕ → ℕ → Result FsError (Unit {0}) × RamFs
set_parent s new_parent child =
    if is_directory (s.nodes child).file_type
    then (elim (s.nodes new_parent).self_ref [
      | none ↦ (err FsError.io_error, s)
      | some p ↦ (ok tt, put s child (record (s.nodes child) { parent = some p }))
    ])
    else (ok tt, s)

-- Is the entry at the new name a directory that is not empty?
pub is_occupied : RamFs → Option ℕ → Bool
is_occupied s none = false
is_occupied s (some i) = is_directory (s.nodes i).file_type && not (is_empty (s.nodes i).children)

pub rename : RamFs → ℕ → Bytes → Option ℕ → Bytes → Result FsError (Unit {0}) × RamFs
rename s self old_name target new_name =
    if not (is_directory (s.nodes self).file_type)
    then (err FsError.not_directory, s)
    else (elim target [
      | none ↦ (err FsError.invalid_input, s)
      | some new_parent ↦
          if not (is_directory (s.nodes new_parent).file_type)
          then (err FsError.not_directory, s)
          else (elim (get old_name (s.nodes self).children) [
            | none ↦ (err FsError.not_found, s)
            | some child ↦
                if is_occupied s (get new_name (s.nodes new_parent).children)
                then (err FsError.not_empty, s)
                else set_parent (move_entry s self old_name new_parent new_name child) new_parent
                    child
          ])
    ])

-- The bytes that `from_utf8` checks are a parameter.
pub readlink : (Bytes → Bool) → RamFs → ℕ → Result FsError Bytes
readlink is_utf8 s self =
    if not (is_symlink (s.nodes self).file_type)
    then err FsError.invalid_input
    else if is_utf8 (s.nodes self).content
    then ok (s.nodes self).content
    else err FsError.io_error

-- `RamFs::new`: the root is node 0, with mode 0o755, whatever the nodes before the first one are.
pub new_fs : (ℕ → RamINode) → ℕ → RamFs
new_fs nodes next_ino = new_dir (record { nodes = nodes; count = 0; next_ino = next_ino }) none 493
