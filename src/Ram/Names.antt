-- ===== src/Ram/Names.antt =====
-- The entries of directories: what each operation does to all of them.
use koros.Base.{
  ℕ, suc, ◌<◌, ◌==◌, ==_iff, ◌≡◌, ◌≢◌, refl, sym, ◌∙◌, ap, subst, true, false, not, ◌&&◌,
  if◌then◌else◌, List, [], ◌∷◌, Option, none, some, arith, inl, inr, Bool-cases, Option-cases,
  some_eq,
}
use koros.Base.OrdMap.{Bytes, bytes_eq, bytes_key, get, get-insert, get-remove}
use koros.Base.Result.{ok, ok_eq, absurd_ok}
use koros.Kor.Vfs.{FileType, is_directory}
use koros.Ram.{
  RamFs, RamINode, put, add_node, new_file, new_dir, add_child, remove_child, add_entry,
  build_child, create, unlink, rmdir, is_empty, move_entry, set_parent, is_occupied, rename,
}

-- What a directory has under a name.
unfoldable pub entry : RamFs → ℕ → Bytes → Option ℕ
entry s d m = get m (s.nodes d).children

entry-put :
    (s : RamFs) (i d : ℕ) (node : RamINode) (m : Bytes)
    → entry (put s i node) d m ≡ (if i == d then get m node.children else entry s d m)
unfolding entry put
entry-put s i d node m = ground arith

pub entry-add_child :
    (s : RamFs) (self child d : ℕ) (name m : Bytes)
    → entry (add_child s self name child) d m
      ≡ (if self == d && bytes_eq name m then some child else entry s d m)
unfolding entry add_child put
entry-add_child s self child d name m =
    ground (arith, get-insert name m child (s.nodes self).children, ==_iff self d)

pub entry-remove_child :
    (s : RamFs) (self d : ℕ) (name m : Bytes)
    → entry (remove_child s self name) d m
      ≡ (if self == d && bytes_eq name m then none else entry s d m)
unfolding entry remove_child put
entry-remove_child s self d name m =
    ground (arith, get-remove name m (s.nodes self).children, ==_iff self d)

pub unlink_run :
    (s s' : RamFs) (self : ℕ) (name : Bytes)
    → unlink s self name ≡ ok s'
    → s' ≡ remove_child s self name
unfolding unlink
unlink_run s s' self name h = ground (arith, h)

pub rmdir_run :
    (s s' : RamFs) (self : ℕ) (name : Bytes)
    → rmdir s self name ≡ ok s'
    → s' ≡ remove_child s self name
unfolding rmdir
rmdir_run s s' self name h = ground (arith, h)

-- A successful `unlink` removes the entry of a node that is no directory, and no other.
pub unlink_entries :
    (s s' : RamFs) (self : ℕ) (name : Bytes)
    → unlink s self name ≡ ok s'
    → ((i : ℕ) × (entry s self name ≡ some i) × (is_directory (s.nodes i).file_type ≡ false))
      × ((d : ℕ) (m : Bytes)
          → entry s' d m ≡ (if self == d && bytes_eq name m then none else entry s d m))
unfolding unlink entry
unlink_entries s s' self name h = elim (Bool-cases (not (is_directory (s.nodes self).file_type))) [
  | inl e ↦ absurd (absurd_ok (rw (e, unlink) at h))
  | inr e ↦ elim (Option-cases (get name (s.nodes self).children)) [
    | inl z ↦ absurd (absurd_ok (rw (e, z, unlink) at h))
    | inr (i, z) ↦ elim (Bool-cases (is_directory (s.nodes i).file_type)) [
      | inl y ↦ absurd (absurd_ok (rw (e, z, y, unlink) at h))
      | inr y ↦
          let same = ok_eq (rw (e, z, y, unlink) at h) in
          (
            (i, z, y),
            λ d m.
                ap (λ t. get m (t.nodes d).children) (sym same)
                ∙ entry-remove_child s self d name m,
          )
    ]
  ]
]

no_entries : (m : Bytes) (c : List (Bytes × ℕ)) → not (is_empty c) ≡ false → get m c ≡ none
unfolding get is_empty
no_entries m [] x = refl
no_entries m (y ∷ ys) x = cc

-- A successful `rmdir` removes the entry of a directory that has no entries, and no other.
pub rmdir_entries :
    (s s' : RamFs) (self : ℕ) (name : Bytes)
    → rmdir s self name ≡ ok s'
    → ((i : ℕ) × (entry s self name ≡ some i)
        × (is_directory (s.nodes i).file_type ≡ true)
        × ((m : Bytes) → entry s i m ≡ none))
      × ((d : ℕ) (m : Bytes)
          → entry s' d m ≡ (if self == d && bytes_eq name m then none else entry s d m))
unfolding rmdir entry
rmdir_entries s s' self name h = elim (Bool-cases (not (is_directory (s.nodes self).file_type))) [
  | inl e ↦ absurd (absurd_ok (rw (e, rmdir) at h))
  | inr e ↦ elim (Option-cases (get name (s.nodes self).children)) [
    | inl z ↦ absurd (absurd_ok (rw (e, z, rmdir) at h))
    | inr (i, z) ↦ elim (Bool-cases (not (is_directory (s.nodes i).file_type))) [
      | inl y ↦ absurd (absurd_ok (rw (e, z, y, rmdir) at h))
      | inr y ↦ elim (Bool-cases (not (is_empty (s.nodes i).children))) [
        | inl x ↦ absurd (absurd_ok (rw (e, z, y, x, rmdir) at h))
        | inr x ↦
            let same = ok_eq (rw (e, z, y, x, rmdir) at h) in
            (
              (i, z, ground (arith, y), λ m. no_entries m (s.nodes i).children x),
              λ d m.
                  ap (λ t. get m (t.nodes d).children) (sym same)
                  ∙ entry-remove_child s self d name m,
            )
      ]
    ]
  ]
]

entry-move_entry :
    (s : RamFs) (self new_parent child d : ℕ) (old_name new_name m : Bytes)
    → entry (move_entry s self old_name new_parent new_name child) d m ≡ (
        if new_parent == d && bytes_eq new_name m
        then some child
        else if self == d && bytes_eq old_name m
        then none
        else entry s d m)
unfolding move_entry
entry-move_entry s self new_parent child d old_name new_name m = ground (
  arith,
  ==_iff self new_parent,
  ==_iff self d,
  ==_iff new_parent d,
  entry-add_child (remove_child s self old_name) self child d new_name m,
  entry-remove_child s self d old_name m,
  entry-remove_child (add_child s new_parent new_name child) self d old_name m,
  entry-add_child s new_parent child d new_name m,
)

entry-set_parent :
    (s : RamFs) (new_parent child d : ℕ) (m : Bytes)
    → entry (set_parent s new_parent child).1 d m ≡ entry s d m
unfolding entry set_parent put
entry-set_parent s new_parent child d m =
    elim (Bool-cases (is_directory (s.nodes child).file_type)) [
      | inr e ↦ rw (e, set_parent) refl
      | inl e ↦ elim (Option-cases (s.nodes new_parent).self_ref) [
        | inl z ↦ rw (e, z, set_parent) refl
        | inr (p, z) ↦ rw (e, z, set_parent) (ground (arith, ==_iff child d))
      ]
    ]

-- A successful `rename` moves one entry: the new directory has the node under the new name, in place of
-- what it had there; the old directory has nothing under the old name, unless this is the same place;
-- and every other entry of every directory is as it was.
pub rename_entries :
    (s : RamFs) (self new_parent : ℕ) (old_name new_name : Bytes)
    → (rename s self old_name (some new_parent) new_name).0 ≡ ok tt
    → (child : ℕ) × (entry s self old_name ≡ some child)
      × ((d : ℕ) (m : Bytes)
          → entry (rename s self old_name (some new_parent) new_name).1 d m ≡ (
              if new_parent == d && bytes_eq new_name m
              then some child
              else if self == d && bytes_eq old_name m
              then none
              else entry s d m))
unfolding rename
rename_entries s self new_parent old_name new_name h =
    elim (Bool-cases (not (is_directory (s.nodes self).file_type))) [
      | inl e ↦ absurd (absurd_ok (rw (e, rename) at h))
      | inr e ↦ elim (Bool-cases (not (is_directory (s.nodes new_parent).file_type))) [
        | inl z ↦ absurd (absurd_ok (rw (e, z, rename) at h))
        | inr z ↦ elim (Option-cases (get old_name (s.nodes self).children)) [
          | inl y ↦ absurd (absurd_ok (rw (e, z, y, rename) at h))
          | inr (child, y) ↦
              elim (Bool-cases (is_occupied s (get new_name (s.nodes new_parent).children))) [
                | inl x ↦ absurd (absurd_ok (rw (e, z, y, x, rename) at h))
                | inr x ↦ (
                  child,
                  unfold entry in y,
                  λ d m.
                      rw (e, z, y, x, rename)
                        (entry-set_parent (move_entry s self old_name new_parent new_name child)
                            new_parent child d m
                          ∙ entry-move_entry s self new_parent child d old_name new_name m),
                )
              ]
        ]
      ]
    ]

-- The new node of `create`, `mkdir` and `symlink`.
pub record Added (s : RamFs) (self : ℕ) (name : Bytes) (s' : RamFs) (child : ℕ) : Type 0 where
  pub own : ℕ
  pub with_child : RamFs
  pub is_self : (s.nodes self).self_ref ≡ some own
  pub is_dir : is_directory (s.nodes self).file_type ≡ true
  pub fresh : get name (s.nodes self).children ≡ none
  pub number : child ≡ s.count
  pub becomes : s' ≡ add_child with_child self name s.count

pub add_entry_run :
    (s s' : RamFs) (self child : ℕ) (name : Bytes) (build : ℕ → Option RamFs)
    → add_entry s self name build ≡ ok (s', child)
    → (a : Added s self name s' child) × (build a.own ≡ some a.with_child)
unfolding add_entry
add_entry_run s s' self child name build h =
    elim (Bool-cases (not (is_directory (s.nodes self).file_type))) [
      | inl e ↦ absurd (absurd_ok (rw (e, add_entry) at h))
      | inr e ↦ elim (Option-cases (s.nodes self).self_ref) [
        | inl z ↦ absurd (absurd_ok (rw (e, z, add_entry) at h))
        | inr (own, z) ↦ elim (Option-cases (get name (s.nodes self).children)) [
          | inr (old, y) ↦ absurd (absurd_ok (rw (e, z, y, add_entry) at h))
          | inl y ↦ elim (Option-cases (build own)) [
            | inl x ↦ absurd (absurd_ok (rw (e, z, y, x, add_entry) at h))
            | inr (t, x) ↦
                let same = ok_eq (rw (e, z, y, x, add_entry) at h) in
                (
                  record {
                    own = own;
                    with_child = t;
                    is_self = z;
                    is_dir = ground (arith, e);
                    fresh = y;
                    number = ap (λ p. p.1) (sym same);
                    becomes = ap (λ p. p.0) (sym same);
                  },
                  x,
                )
          ]
        ]
      ]
    ]

-- What an added node is like, and that the others are as they were.
pub record IsAdded (s : RamFs) (file_type : FileType) (parent : ℕ) (t : RamFs) : Type 0 where
  pub type : (t.nodes s.count).file_type ≡ file_type
  pub no_children : (t.nodes s.count).children ≡ []
  pub handle : (t.nodes s.count).self_ref ≡ some s.count
  pub above : (t.nodes s.count).parent ≡ some parent
  pub others : (j : ℕ) → s.count ≢ j → t.nodes j ≡ s.nodes j
  pub counted : t.count ≡ suc s.count

pub add_node_lem :
    (s : RamFs) (file_type : FileType) (content : Bytes) (mode parent : ℕ)
    → IsAdded s file_type parent (add_node s file_type content mode (some parent))
unfolding add_node put
add_node_lem s file_type content mode parent =
    let here : (s.count == s.count) ≡ true = ground arith in
    record {
      type = rw here refl;
      no_children = rw here refl;
      handle = rw here refl;
      above = rw here refl;
      others = λ j n. let other : (s.count == j) ≡ false = ground (arith, n) in rw other refl;
      counted = refl;
    }

pub build_child_lem :
    (s t : RamFs) (file_type : FileType) (mode own : ℕ)
    → build_child s file_type mode own ≡ some t
    → IsAdded s file_type own t
unfolding build_child new_file new_dir
build_child_lem s t FileType.regular mode own h =
    subst (IsAdded s FileType.regular own) (some_eq h) (add_node_lem s FileType.regular [] mode own)
build_child_lem s t FileType.directory mode own h =
    subst (IsAdded s FileType.directory own) (some_eq h)
      (add_node_lem s FileType.directory [] mode own)
build_child_lem s t FileType.symlink mode own h = cc
build_child_lem s t FileType.block_device mode own h = cc
build_child_lem s t FileType.char_device mode own h = cc
build_child_lem s t FileType.fifo mode own h = cc
build_child_lem s t FileType.socket mode own h = cc

-- A successful `create` in an existing directory adds one entry and one node: the name was free, it now
-- names the new node, which has the requested type, no entries, and the directory as its parent; every
-- other entry of every other node is as it was.
pub create_entries :
    (s s' : RamFs) (self child mode : ℕ) (name : Bytes) (file_type : FileType)
    → self < s.count
    → create s self name file_type mode ≡ ok (s', child)
    → (entry s self name ≡ none)
      × (child ≡ s.count)
      × ((s'.nodes child).file_type ≡ file_type)
      × ((m : Bytes) → entry s' child m ≡ none)
      × ((s'.nodes child).parent ≡ (s.nodes self).self_ref)
      × ((d : ℕ) (m : Bytes)
          → d ≢ child
          → entry s' d m ≡ (if self == d && bytes_eq name m then some child else entry s d m))
unfolding create
create_entries s s' self child mode name file_type l h =
    let (a, built) = add_entry_run s s' self child name (build_child s file_type mode) h in
    let new = build_child_lem s a.with_child file_type mode a.own built in
    let elsewhere : (self == s.count) ≡ false = ground (arith, l) in
    let node : s'.nodes s.count ≡ a.with_child.nodes s.count =
      ap (λ t. t.nodes s.count) a.becomes ∙ untouched a.with_child self s.count name elsewhere in
    let node' : s'.nodes child ≡ a.with_child.nodes s.count = ap s'.nodes a.number ∙ node in
    (
      (unfold entry in a.fresh),
      a.number,
      ap (λ n. n.file_type) node' ∙ new.type,
      (λ m.
          unfold entry in
          ap (λ n. get m n.children) node' ∙ ap (get m) new.no_children ∙ get_nil m),
      ap (λ n. n.parent) node' ∙ new.above ∙ sym a.is_self,
      λ d m n.
          let kept = new.others d (λ e. n (sym e ∙ sym a.number)) in
          ap (λ t. entry t d m) a.becomes
          ∙ entry-add_child a.with_child self s.count d name m
          ∙ ap (λ c. if self == d && bytes_eq name m then some c else entry a.with_child d m)
              (sym a.number)
          ∙ unfold entry in
            ap (λ x. if self == d && bytes_eq name m then some child else get m x.children) kept,
    )
  where
    get_nil : (m : Bytes) → get {V = ℕ} m [] ≡ none
    get_nil m = unfold get in refl

    untouched :
        (t : RamFs) (self j : ℕ) (name : Bytes)
        → (self == j) ≡ false
        → (add_child t self name j).nodes j ≡ t.nodes j
    untouched t self j name e = unfold add_child put in rw e refl
