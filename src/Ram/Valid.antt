-- ===== src/Ram/Valid.antt =====
-- The invariant of the tree of nodes.
use koros.Base.{
  ℕ, ◌<◌, ◌==◌, ◌≡◌, ◌≢◌, refl, sym, ◌∙◌, ap, subst, Bool, true, false, not, [], none, some, ◌⊎◌,
  arith, inl, inr, Bool-cases, Option-cases, some_eq, absurd_none, ℕ_discrete,
}
use koros.Base.OrdMap.{Bytes, bytes_key, get}
use koros.Base.Result.{ok, ok_eq, absurd_ok}
use koros.Kor.Vfs.{FileType, Metadata, is_directory, is_regular}
use koros.Ram.{
  RamFs, RamINode, put, new_dir, new_symlink, add_child, remove_child, build_child, create, mkdir,
  symlink, unlink, rmdir, move_entry, set_parent, rename, write_at, setattr, link, upgrade,
  build_child, is_occupied,
}
use koros.Ram.Names.{
  entry, unlink_run, rmdir_run, Added, add_entry_run, IsAdded, add_node_lem, build_child_lem,
  entry-add_child, entry-remove_child,
}

-- Every entry stands in a directory and names a node that has been made, and a node knows its own number.
pub record IsValid (s : RamFs) : Type 0 where
  pub named : (d i : ℕ) (m : Bytes) → entry s d m ≡ some i → (d < s.count) × (i < s.count)
  pub in_dir :
      (d i : ℕ) (m : Bytes) → entry s d m ≡ some i → is_directory (s.nodes d).file_type ≡ true
  pub handles : (d : ℕ) → d < s.count → (s.nodes d).self_ref ≡ some d

-- A change that makes no node and keeps types and handles.
pub record Keeps (s s' : RamFs) : Type 0 where
  pub counted : s'.count ≡ s.count
  pub types : (d : ℕ) → (s'.nodes d).file_type ≡ (s.nodes d).file_type
  pub handles : (d : ℕ) → (s'.nodes d).self_ref ≡ (s.nodes d).self_ref

Keeps-trans : (s t u : RamFs) → Keeps s t → Keeps t u → Keeps s u
Keeps-trans s t u k l = record {
  counted = l.counted ∙ k.counted;
  types = λ d. l.types d ∙ k.types d;
  handles = λ d. l.handles d ∙ k.handles d;
}

-- Such a change keeps the invariant if each entry is an old one, or stands in a directory and names a node.
IsValid-Keeps :
    (s s' : RamFs)
    → IsValid s
    → Keeps s s'
    → ((d i : ℕ) (m : Bytes)
        → entry s' d m ≡ some i
        → (entry s d m ≡ some i)
          ⊎ ((d < s.count) × (i < s.count) × (is_directory (s.nodes d).file_type ≡ true)))
    → IsValid s'
IsValid-Keeps s s' v c entries = record {
  named = λ d i m e. elim (entries d i m e) [
    | inl old ↦ ground (arith, v.named d i m old, c.counted)
    | inr q ↦ ground (arith, c.counted, q)
  ];
  in_dir = λ d i m e. elim (entries d i m e) [
    | inl old ↦ ap is_directory (c.types d) ∙ v.in_dir d i m old
    | inr q ↦ ap is_directory (c.types d) ∙ q.2
  ];
  handles = λ d h. c.handles d ∙ v.handles d (omega (arith, c.counted));
}

put_field :
    {A : Type 0} (f : RamINode → A) (s : RamFs) (i : ℕ) (node : RamINode)
    → f node ≡ f (s.nodes i)
    → (d : ℕ) → f ((put s i node).nodes d) ≡ f (s.nodes d)
unfolding put
put_field f s i node h d = elim (ℕ_discrete i d) [
  | yes p ↦
      let test : (i == d) ≡ true = ground (arith, p) in rw test (h ∙ ap (λ x. f (s.nodes x)) p)
  | no p ↦ let test : (i == d) ≡ false = ground (arith, p) in rw test refl
]

Keeps-put :
    (s : RamFs) (i : ℕ) (node : RamINode)
    → node.file_type ≡ (s.nodes i).file_type
    → node.self_ref ≡ (s.nodes i).self_ref
    → Keeps s (put s i node)
Keeps-put s i node h k = record {
  counted = unfold put in refl;
  types = put_field (λ x. x.file_type) s i node h;
  handles = put_field (λ x. x.self_ref) s i node k;
}

Keeps-add_child :
    (s : RamFs) (self child : ℕ) (name : Bytes) → Keeps s (add_child s self name child)
unfolding add_child
Keeps-add_child s self child name = Keeps-put s self _ refl refl

Keeps-remove_child : (s : RamFs) (self : ℕ) (name : Bytes) → Keeps s (remove_child s self name)
unfolding remove_child
Keeps-remove_child s self name = Keeps-put s self _ refl refl

get_nil : (m : Bytes) → get {V = ℕ} m [] ≡ none
unfolding get
get_nil m = refl

-- An added node has no entries, and the others have theirs.
entry_added :
    (s t : RamFs) (own d i : ℕ) (m : Bytes) (file_type : FileType)
    → IsAdded s file_type own t
    → entry t d m ≡ some i
    → (s.count ≢ d) × (entry s d m ≡ some i)
unfolding entry
entry_added s t own d i m file_type n e = elim (ℕ_discrete s.count d) [
  | yes p ↦ absurd (
      absurd_none
        (sym (ap (get m) (subst (λ x. (t.nodes x).children ≡ []) p n.no_children) ∙ get_nil m) ∙ e))
  | no p ↦ (p, ap (λ x. get m x.children) (sym (n.others d p)) ∙ e)
]

IsValid-node :
    (s t : RamFs) (own : ℕ) (file_type : FileType)
    → IsValid s
    → IsAdded s file_type own t
    → IsValid t
IsValid-node s t own file_type v n = record {
  named = λ d i m e.
      let old = entry_added s t own d i m file_type n e in
      let bounds = v.named d i m old.1 in
      (
        (subst (λ c. d < c) (sym n.counted) (omega (arith, bounds))),
        subst (λ c. i < c) (sym n.counted) (omega (arith, bounds)),
      );
  in_dir = λ d i m e.
      let old = entry_added s t own d i m file_type n e in
      ap (λ x. is_directory x.file_type) (n.others d old.0) ∙ v.in_dir d i m old.1;
  handles = λ d l. elim (ℕ_discrete s.count d) [
    | yes p ↦ subst (λ x. (t.nodes x).self_ref ≡ some x) p n.handle
    | no p ↦ ap (λ x. x.self_ref) (n.others d p) ∙ v.handles d (omega (arith, p, l, n.counted))
  ];
}

entries_add_child :
    (s : RamFs) (self child d i : ℕ) (name m : Bytes)
    → self < s.count
    → child < s.count
    → is_directory (s.nodes self).file_type ≡ true
    → entry (add_child s self name child) d m ≡ some i
    → (entry s d m ≡ some i)
      ⊎ ((d < s.count) × (i < s.count) × (is_directory (s.nodes d).file_type ≡ true))
entries_add_child s self child d i name m l k dir e = elim (ℕ_discrete self d) [
  | yes p ↦
      let here : is_directory (s.nodes d).file_type ≡ true =
        subst (λ x. is_directory (s.nodes x).file_type ≡ true) p dir in
      ground (arith, entry-add_child s self child d name m, p)
  | no p ↦ ground (arith, entry-add_child s self child d name m)
]

IsValid-add_child :
    (s : RamFs) (self child : ℕ) (name : Bytes)
    → IsValid s
    → self < s.count
    → child < s.count
    → is_directory (s.nodes self).file_type ≡ true
    → IsValid (add_child s self name child)
IsValid-add_child s self child name v l k dir =
    IsValid-Keeps s (add_child s self name child) v (Keeps-add_child s self child name)
      (λ d i m e. entries_add_child s self child d i name m l k dir e)

IsValid-remove_child :
    (s : RamFs) (self : ℕ) (name : Bytes) → IsValid s → IsValid (remove_child s self name)
IsValid-remove_child s self name v =
    IsValid-Keeps s (remove_child s self name) v (Keeps-remove_child s self name)
      (λ d i m e. inl (ground (arith, entry-remove_child s self d name m)))

IsValid-move_entry :
    (s : RamFs) (self new_parent child : ℕ) (old_name new_name : Bytes)
    → IsValid s
    → new_parent < s.count
    → child < s.count
    → is_directory (s.nodes new_parent).file_type ≡ true
    → IsValid (move_entry s self old_name new_parent new_name child)
unfolding move_entry
IsValid-move_entry s self new_parent child old_name new_name v l k dir =
    elim (ℕ_discrete self new_parent) [
      | yes p ↦
          let test : (self == new_parent) ≡ true = ground (arith, p) in
          let c = Keeps-remove_child s self old_name in
          rw test (
            IsValid-add_child (remove_child s self old_name) self child new_name
              (IsValid-remove_child s self old_name v) (omega (arith, p, c.counted))
              (omega (arith, c.counted))
              (ap is_directory (c.types self)
                ∙ subst (λ x. is_directory (s.nodes x).file_type ≡ true) (sym p) dir))
      | no p ↦
          let test : (self == new_parent) ≡ false = ground (arith, p) in
          rw test (
            IsValid-remove_child (add_child s new_parent new_name child) self old_name
              (IsValid-add_child s new_parent child new_name v l k dir))
    ]

IsValid-set_parent :
    (s : RamFs) (new_parent child : ℕ) → IsValid s → IsValid (set_parent s new_parent child).1
unfolding set_parent
IsValid-set_parent s new_parent child v =
    elim (Bool-cases (is_directory (s.nodes child).file_type)) [
      | inr e ↦ rw (e, set_parent) v
      | inl e ↦ elim (Option-cases (s.nodes new_parent).self_ref) [
        | inl z ↦ rw (e, z, set_parent) v
        | inr (p, z) ↦
            rw (e, z, set_parent)
              (IsValid-Keeps s (put s child (record (s.nodes child) { parent = some p })) v
                (Keeps-put s child (record (s.nodes child) { parent = some p }) refl refl)
                (λ d i m k. inl (
                  unfold entry in
                  sym (
                    ap (get m) (
                      put_field (λ x. x.children) s child
                        (record (s.nodes child) { parent = some p }) refl d))
                  ∙ k)))
      ]
    ]

-- A node that changes in its content and metadata alone.
IsValid-same :
    (s : RamFs) (self : ℕ) (node : RamINode)
    → IsValid s
    → node.file_type ≡ (s.nodes self).file_type
    → node.self_ref ≡ (s.nodes self).self_ref
    → node.children ≡ (s.nodes self).children
    → IsValid (put s self node)
unfolding entry
IsValid-same s self node v h k c =
    IsValid-Keeps s (put s self node) v (Keeps-put s self node h k)
      (λ d i m e. inl (sym (ap (get m) (put_field (λ x. x.children) s self node c d)) ∙ e))

-- A new node and its entry.
IsValid-Added :
    (s s' : RamFs) (self child : ℕ) (name : Bytes) (file_type : FileType)
    → IsValid s
    → self < s.count
    → (a : Added s self name s' child) → IsAdded s file_type a.own a.with_child
    → IsValid s'
IsValid-Added s s' self child name file_type v l a n =
    let t = a.with_child in
    let here : is_directory (t.nodes self).file_type ≡ true =
      ap (λ x. is_directory x.file_type) (n.others self (λ e. omega arith)) ∙ a.is_dir in
    let bound : s.count < t.count = subst (λ c. s.count < c) (sym n.counted) (omega arith) in
    subst IsValid (sym a.becomes) (
      IsValid-add_child t self s.count name (IsValid-node s t a.own file_type v n)
        (omega (arith, l, bound)) bound here)

-- One successful call, by handles of nodes that exist.
pub data Step (live : ℕ → Bool) : RamFs → RamFs → Type 0 where
  create_step :
      {s s' : RamFs} (self child mode : ℕ) (name : Bytes) (file_type : FileType)
      → self < s.count
      → create s self name file_type mode ≡ ok (s', child)
      → Step live s s'
  mkdir_step :
      {s s' : RamFs} (self child mode : ℕ) (name : Bytes)
      → self < s.count
      → mkdir s self name mode ≡ ok (s', child)
      → Step live s s'
  symlink_step :
      {s s' : RamFs} (self child : ℕ) (name target : Bytes)
      → self < s.count
      → symlink s self name target ≡ ok (s', child)
      → Step live s s'
  unlink_step :
      {s s' : RamFs} (self : ℕ) (name : Bytes) → unlink s self name ≡ ok s' → Step live s s'
  rmdir_step : {s s' : RamFs} (self : ℕ) (name : Bytes) → rmdir s self name ≡ ok s' → Step live s s'
  link_step :
      {s s' : RamFs} (self target : ℕ) (name : Bytes)
      → self < s.count
      → target < s.count
      → link live s self name (some target) ≡ ok s'
      → Step live s s'
  write_step :
      {s s' : RamFs} (self offset n : ℕ) (buf : Bytes)
      → write_at s self offset buf ≡ ok (s', n)
      → Step live s s'
  setattr_step :
      {s : RamFs} (self : ℕ) (metadata : Metadata) → Step live s (setattr s self metadata)
  rename_step :
      {s : RamFs} (self new_parent : ℕ) (old_name new_name : Bytes)
      → new_parent < s.count
      → Step live s (rename s self old_name (some new_parent) new_name).1

IsValid-rename :
    (s : RamFs) (self new_parent : ℕ) (old_name new_name : Bytes)
    → IsValid s
    → new_parent < s.count
    → IsValid (rename s self old_name (some new_parent) new_name).1
unfolding rename
IsValid-rename s self new_parent old_name new_name v l =
    elim (Bool-cases (not (is_directory (s.nodes self).file_type))) [
      | inl e ↦ rw (e, rename) v
      | inr e ↦ elim (Bool-cases (not (is_directory (s.nodes new_parent).file_type))) [
        | inl z ↦ rw (e, z, rename) v
        | inr z ↦ elim (Option-cases (get old_name (s.nodes self).children)) [
          | inl y ↦ rw (e, z, y, rename) v
          | inr (child, y) ↦
              elim (Bool-cases (is_occupied s (get new_name (s.nodes new_parent).children))) [
                | inl x ↦ rw (e, z, y, x, rename) v
                | inr x ↦
                    rw (e, z, y, x, rename)
                      (IsValid-set_parent (move_entry s self old_name new_parent new_name child)
                        new_parent child
                        (IsValid-move_entry s self new_parent child old_name new_name v l
                          ((v.named self child old_name (unfold entry in y)).1)
                          (ground (arith, z))))
              ]
        ]
      ]
    ]

IsValid-write_at :
    (s s' : RamFs) (self offset n : ℕ) (buf : Bytes)
    → IsValid s
    → write_at s self offset buf ≡ ok (s', n)
    → IsValid s'
unfolding write_at
IsValid-write_at s s' self offset n buf v h =
    elim (Bool-cases (not (is_regular (s.nodes self).file_type))) [
      | inl e ↦ absurd (absurd_ok (rw (e, write_at) at h))
      | inr e ↦
          subst IsValid (ap (λ p. p.0) (ok_eq (rw (e, write_at) at h)))
            (IsValid-same s self _ v refl refl refl)
    ]

IsValid-link :
    (live : ℕ → Bool) (s s' : RamFs) (self target : ℕ) (name : Bytes)
    → IsValid s
    → self < s.count
    → target < s.count
    → link live s self name (some target) ≡ ok s'
    → IsValid s'
unfolding link upgrade
IsValid-link live s s' self target name v l k h =
    let handle = v.handles target k in
    elim (Bool-cases (not (is_directory (s.nodes self).file_type))) [
      | inl e ↦ absurd (absurd_ok (rw (e, link) at h))
      | inr e ↦ elim (Bool-cases (is_directory (s.nodes target).file_type)) [
        | inl z ↦ absurd (absurd_ok (rw (e, z, link) at h))
        | inr z ↦ elim (Bool-cases (live target)) [
          | inr y ↦ absurd (absurd_ok (rw (e, z, handle, y, link) at h))
          | inl y ↦ elim (Option-cases (get name (s.nodes self).children)) [
            | inr (old, x) ↦ absurd (absurd_ok (rw (e, z, handle, y, x, link) at h))
            | inl x ↦
                subst IsValid (ok_eq (rw (e, z, handle, y, x, link) at h))
                  (IsValid-add_child s self target name v l k (ground (arith, e)))
          ]
        ]
      ]
    ]

-- Every successful call, and every call of `rename`, by handles of nodes that exist keeps the invariant:
-- each entry stands in a directory and names a node that exists, and each node knows its own number.
pub IsValid-Step : (live : ℕ → Bool) (s s' : RamFs) → IsValid s → Step live s s' → IsValid s'
unfolding create mkdir symlink new_dir new_symlink unlink rmdir setattr
IsValid-Step live s s' v (create_step self child mode name file_type l h) =
    let (a, built) = add_entry_run s s' self child name (build_child s file_type mode) h in
    IsValid-Added s s' self child name file_type v l a
      (build_child_lem s a.with_child file_type mode a.own built)
IsValid-Step live s s' v (mkdir_step self child mode name l h) =
    let (a, built) =
      add_entry_run s s' self child name (λ own. some (new_dir s (some own) mode)) h in
    IsValid-Added s s' self child name FileType.directory v l a (
      subst (IsAdded s FileType.directory a.own) (some_eq built)
        (add_node_lem s FileType.directory [] mode a.own))
IsValid-Step live s s' v (symlink_step self child name target l h) =
    let (a, built) =
      add_entry_run s s' self child name (λ own. some (new_symlink s own target)) h in
    IsValid-Added s s' self child name FileType.symlink v l a (
      subst (IsAdded s FileType.symlink a.own) (some_eq built)
        (add_node_lem s FileType.symlink target 511 a.own))
IsValid-Step live s s' v (unlink_step self name h) =
    subst IsValid (sym (unlink_run s s' self name h)) (IsValid-remove_child s self name v)
IsValid-Step live s s' v (rmdir_step self name h) =
    subst IsValid (sym (rmdir_run s s' self name h)) (IsValid-remove_child s self name v)
IsValid-Step live s s' v (link_step self target name l k h) =
    IsValid-link live s s' self target name v l k h
IsValid-Step live s s' v (write_step self offset n buf h) =
    IsValid-write_at s s' self offset n buf v h
IsValid-Step live s s' v (setattr_step self metadata) = IsValid-same s self _ v refl refl refl
IsValid-Step live s s' v (rename_step self new_parent old_name new_name l) =
    IsValid-rename s self new_parent old_name new_name v l
