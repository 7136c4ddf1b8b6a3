-- ===== src/Fs/Path.antt =====
-- filesystems/kor-fs/src/path.rs: the components of a path and the walk along them.
pub mod Split
pub mod Walk
mod Tests
use koros.Base.{
  ℕ, zero, suc, ◌+◌, ◌==◌, ltb, Bool, true, false, ◌&&◌, if◌then◌else◌, List, [], ◌∷◌, Option, none,
  some, length,
}
use koros.Base.OrdMap.{Bytes, bytes_eq}
use koros.Base.Result.{Result, ok, err}
use koros.Kor.Vfs.{INode, FsError, Metadata, is_symlink}

abbrev pub slash : ℕ
slash = 47

abbrev pub max_symlink_depth : ℕ
max_symlink_depth = 40

-- `trim_start_matches('/')`
pub trim_start : Bytes → Bytes
trim_start [] = []
trim_start (c ∷ cs) = if c == slash then trim_start cs else c ∷ cs

-- `&s[..end]` and `&s[end..]`, where `end` is `s.find('/')` or the length.
pub before_slash : Bytes → Bytes
before_slash [] = []
before_slash (c ∷ cs) = if c == slash then [] else c ∷ before_slash cs

pub from_slash : Bytes → Bytes
from_slash [] = []
from_slash (c ∷ cs) = if c == slash then c ∷ cs else from_slash cs

-- `Components::next`: a component and what remains.
pub next : Bytes → Option (Bytes × Bytes)
next s = elim (trim_start s) [
  | [] ↦ none
  | c ∷ cs ↦ some (before_slash (c ∷ cs), from_slash (c ∷ cs))
]

-- `collect`, on fuel.
pub collect : ℕ → Bytes → List Bytes
collect zero s = []
collect (suc fuel) s = elim (next s) [
  | none ↦ []
  | some (name, remaining) ↦ name ∷ collect fuel remaining
]

-- A component has at least one byte.
pub components : Bytes → List Bytes
components s = collect (length s) s

unfoldable pub is_absolute : Bytes → Bool
is_absolute [] = false
is_absolute (c ∷ cs) = c == slash

abbrev pub dot : Bytes
dot = 46 ∷ []

abbrev pub dot_dot : Bytes
dot_dot = 46 ∷ 46 ∷ []

module _ (fs : INode) where
  -- What a walk gives: `none` when the fuel has run out, else an error, or the inode and the number
  -- of symbolic links so far.
  abbrev pub Outcome : Type 0
  Outcome = Option (Result FsError (fs.Node × ℕ))

  pub and_then : Outcome → (fs.Node → ℕ → Outcome) → Outcome
  and_then none k = none
  and_then (some (err e)) k = some (err e)
  and_then (some (ok (node, depth))) k = k node depth

  -- The arm `_` once `next` is known: `is_symlink(&next)?`, the count of links and the recursive call.
  pub follow : (fs.Node → Bytes → ℕ → Outcome) → fs.Node → fs.Node → ℕ → Outcome
  follow resolve current node depth = elim (fs.getattr node) [
    | err e ↦ some (err e)
    | ok meta ↦
        if is_symlink meta.file_type
        then if ltb max_symlink_depth (suc depth)
          then some (err FsError.too_many_links)
          else (elim (fs.readlink node) [
            | err e ↦ some (err e)
            | ok target ↦ resolve current target (suc depth)
          ])
        else some (ok (node, depth))
  ]

  -- The body of the loop for one component.
  pub step : (fs.Node → Bytes → ℕ → Outcome) → fs.Node → Bytes → ℕ → Outcome
  step resolve current name depth =
      if bytes_eq name dot
      then some (ok (current, depth))
      else if bytes_eq name dot_dot
      then (elim (fs.lookup current dot_dot) [
        | err e ↦ some (err e)
        | ok node ↦ some (ok (node, depth))
      ])
      else (elim (fs.lookup current name) [
        | err e ↦ some (err e)
        | ok node ↦ follow resolve current node depth
      ])

  -- The loop.
  pub walk : (fs.Node → Bytes → ℕ → Outcome) → fs.Node → List Bytes → ℕ → Outcome
  walk resolve current [] depth = some (ok (current, depth))
  walk resolve current (name ∷ names) depth =
      and_then (step resolve current name depth) (λ node d. walk resolve node names d)

  -- The fuel bounds the nesting of symbolic links.
  pub resolve_inner : ℕ → fs.Node → fs.Node → Bytes → ℕ → Outcome
  resolve_inner zero root start path depth = none
  resolve_inner (suc fuel) root start path depth =
      walk (resolve_inner fuel root) (if is_absolute path then root else start) (components path)
        depth

  -- One level for the path, and one for each link that may be followed.
  pub resolve_path : fs.Node → Bytes → Outcome
  resolve_path start path = resolve_inner (suc max_symlink_depth) start start path 0
