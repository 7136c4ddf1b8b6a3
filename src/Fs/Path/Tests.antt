-- ===== src/Fs/Path/Tests.antt =====
-- Paths in a small tree: node 0 is the root, 1 a directory `a`, 2 a file `a/f`, 3 a link `l` to `a`,
-- and 4 a link `o` to itself.
use koros.Base.{ℕ, [], ◌∷◌, ◌++◌, none, some, ◌≡◌, ◌≢◌, refl, false, ◌&&◌, if◌then◌else◌, ◌==◌, ◌≤◌}
use koros.Base.OrdMap.{Bytes, bytes_eq}
use koros.Base.Result.{Result, ok, err}
use koros.Kor.Vfs.{INode, FileType, FsError, is_symlink}
use koros.Fs.Path.{
  slash, trim_start, before_slash, from_slash, next, collect, components, is_absolute, and_then,
  follow, step, walk, resolve_inner, resolve_path,
}
use koros.Fs.Path.Split.{components-append}
use koros.Fs.Path.Walk.{resolve_path_total, resolve_path_links, resolve_inner-append}

abbrev a_name : Bytes
a_name = 97 ∷ []

abbrev f_name : Bytes
f_name = 102 ∷ []

abbrev l_name : Bytes
l_name = 108 ∷ []

abbrev o_name : Bytes
o_name = 111 ∷ []

abbrev child_of : ℕ → Bytes → Result FsError ℕ
child_of node name =
    if node == 0 && bytes_eq name a_name
    then ok 1
    else if node == 1 && bytes_eq name f_name
    then ok 2
    else if node == 0 && bytes_eq name l_name
    then ok 3
    else if node == 0 && bytes_eq name o_name
    then ok 4
    else err FsError.not_found

abbrev type_of : ℕ → FileType
type_of node =
    if node == 3
    then FileType.symlink
    else if node == 4
    then FileType.symlink
    else if node == 2
    then FileType.regular
    else FileType.directory

abbrev tree : INode
tree = record {
  Node = ℕ;
  lookup = child_of;
  getattr = λ node. ok (record {
    size = 0;
    mode = 0;
    uid = 0;
    gid = 0;
    atime = 0;
    mtime = 0;
    ctime = 0;
    file_type = type_of node;
  });
  readlink = λ node. ok (if node == 3 then a_name else o_name);
}

-- `l/f` leads to the file, with one link followed.
abbrev linked : Bytes
linked = l_name ++ slash ∷ f_name

linked_found : resolve_path tree 0 linked ≡ some (ok (2, 1))
unfolding resolve_path resolve_inner walk step follow and_then components collect next trim_start
    before_slash from_slash is_absolute is_symlink
linked_found = refl

loop_fails : resolve_path tree 0 o_name ≡ some (err FsError.too_many_links)
unfolding resolve_path resolve_inner walk step follow and_then components collect next trim_start
    before_slash from_slash is_absolute is_symlink
loop_fails = refl

f_relative : is_absolute f_name ≡ false
unfolding is_absolute
f_relative = refl

resolve_path_total_example : resolve_path tree 0 o_name ≢ none
resolve_path_total_example = resolve_path_total tree 0 o_name

resolve_path_links_example : 1 ≤ 40
resolve_path_links_example = resolve_path_links tree 0 2 linked 1 linked_found

resolve_inner-append_run :
    resolve_inner tree 41 0 0 linked 0
    ≡ and_then tree
        (resolve_inner tree 41 0 0 l_name 0)
        (λ node d. resolve_inner tree 41 0 node f_name d)
resolve_inner-append_run = resolve_inner-append tree 40 108 0 0 [] f_name 0 f_relative

components-append_run : components linked ≡ components l_name ++ components f_name
components-append_run = components-append l_name f_name
