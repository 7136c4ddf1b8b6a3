-- ===== src/Fs/Path/Walk.antt =====
-- The walk along a path: its fuel, and paths that are joined.
use koros.Base.{
  ℕ, zero, suc, ◌+◌, ◌≤◌, ltb, false, if◌then◌else◌, List, [], ◌∷◌, ◌++◌, none, some, arith, ◌≡◌,
  ◌≢◌, refl, sym, subst, ◌∙◌, ap, Bool-cases, inl, inr,
}
use mathlib.Core.Path.{fun_ext}
use koros.Base.OrdMap.{Bytes, bytes_eq}
use koros.Base.Result.{ok, err, Result-cases}
use koros.Kor.Vfs.{INode, is_symlink}
use koros.Fs.Path.{
  slash, is_absolute, components, dot, dot_dot, max_symlink_depth, Outcome, and_then, follow, step,
  walk, resolve_inner, resolve_path,
}
use koros.Fs.Path.Split.{components-append}

module _ (fs : INode) where
  -- A result that has not run out of fuel and has followed from `depth` up to 40 links.
  Done : ℕ → Outcome fs → Type 0
  Done depth none = ⊥
  Done depth (some (err e)) = Unit {0}
  Done depth (some (ok (node, d))) = (depth ≤ d) × (d ≤ max_symlink_depth)

  Done-weaken : (d e : ℕ) (o : Outcome fs) → d ≤ e → Done e o → Done d o
  unfolding Done
  Done-weaken d e none h o = o
  Done-weaken d e (some (err x)) h o = tt
  Done-weaken d e (some (ok (node, k))) h o = (omega (arith, o.0), o.1)

  Done-and_then :
      (depth : ℕ) (o : Outcome fs) (k : fs.Node → ℕ → Outcome fs)
      → Done depth o
      → ((node : fs.Node) (d : ℕ) → depth ≤ d → d ≤ max_symlink_depth → Done d (k node d))
      → Done depth (and_then fs o k)
  unfolding Done and_then
  Done-and_then depth none k o h = o
  Done-and_then depth (some (err e)) k o h = tt
  Done-and_then depth (some (ok (node, d))) k o h =
      Done-weaken depth d (k node d) o.0 (h node d o.0 o.1)

  module _ (resolve : fs.Node → Bytes → ℕ → Outcome fs) (fuel : ℕ)
      (resolve-Done : (node : fs.Node) (path : Bytes) (d : ℕ)
        → suc max_symlink_depth ≤ d + fuel
        → d ≤ max_symlink_depth
        → Done d (resolve node path d)) where
    follow-Done :
        (current node : fs.Node) (depth : ℕ)
        → suc max_symlink_depth ≤ depth + suc fuel
        → depth ≤ max_symlink_depth
        → Done depth (follow fs resolve current node depth)
    unfolding follow Done
    follow-Done current node depth h k = elim (Result-cases (fs.getattr node)) [
      | inr (e, z) ↦ rw (z, follow, Done) tt
      | inl (meta, z) ↦ elim (Bool-cases (is_symlink meta.file_type)) [
        | inr y ↦ rw (z, y, follow, Done) (omega arith, k)
        | inl y ↦ elim (Bool-cases (ltb max_symlink_depth (suc depth))) [
          | inl x ↦ rw (z, y, x, follow, Done) tt
          | inr x ↦ elim (Result-cases (fs.readlink node)) [
            | inr (e, w) ↦ rw (z, y, x, w, follow, Done) tt
            | inl (target, w) ↦
                rw (z, y, x, w, follow)
                  (Done-weaken depth (suc depth) (resolve current target (suc depth)) (omega arith)
                    (resolve-Done current target (suc depth) (omega arith) (ground arith)))
          ]
        ]
      ]
    ]

    step-Done :
        (current : fs.Node) (name : Bytes) (depth : ℕ)
        → suc max_symlink_depth ≤ depth + suc fuel
        → depth ≤ max_symlink_depth
        → Done depth (step fs resolve current name depth)
    unfolding step Done
    step-Done current name depth h k = elim (Bool-cases (bytes_eq name dot)) [
      | inl z ↦ rw (z, step, Done) (omega arith, k)
      | inr z ↦ elim (Bool-cases (bytes_eq name dot_dot)) [
        | inl y ↦ elim (Result-cases (fs.lookup current dot_dot)) [
          | inr (e, x) ↦ rw (z, y, x, step, Done) tt
          | inl (node, x) ↦ rw (z, y, x, step, Done) (omega arith, k)
        ]
        | inr y ↦ elim (Result-cases (fs.lookup current name)) [
          | inr (e, x) ↦ rw (z, y, x, step, Done) tt
          | inl (node, x) ↦ rw (z, y, x, step) (follow-Done current node depth h k)
        ]
      ]
    ]

    walk-Done :
        (current : fs.Node) (names : List Bytes) (depth : ℕ)
        → suc max_symlink_depth ≤ depth + suc fuel
        → depth ≤ max_symlink_depth
        → Done depth (walk fs resolve current names depth)
    unfolding walk
    walk-Done current [] depth h k = unfold Done in (omega arith, k)
    walk-Done current (name ∷ names) depth h k =
        Done-and_then depth (step fs resolve current name depth)
          (λ node d. walk fs resolve node names d) (step-Done current name depth h k)
          (λ node d a b. walk-Done node names d (omega arith) b)

  resolve_inner-Done :
      (fuel : ℕ) (root start : fs.Node) (path : Bytes) (depth : ℕ)
      → suc max_symlink_depth ≤ depth + fuel
      → depth ≤ max_symlink_depth
      → Done depth (resolve_inner fs fuel root start path depth)
  unfolding resolve_inner
  resolve_inner-Done zero root start path depth h k = absurd (omega arith)
  resolve_inner-Done (suc fuel) root start path depth h k =
      walk-Done (resolve_inner fs fuel root) fuel
        (λ node target d. resolve_inner-Done fuel root node target d)
        (if is_absolute path then root else start) (components path) depth h k

  not_none : (depth : ℕ) (o : Outcome fs) → Done depth o → o ≢ none
  unfolding Done
  not_none depth none d = absurd d
  not_none depth (some x) d = λ e. cc

  -- `resolve_path` ends, on every path and every tree, loops of symbolic links included: the fuel of
  -- the model, one level for the path and one for each of 40 links, is never used up.
  pub resolve_path_total : (start : fs.Node) (path : Bytes) → resolve_path fs start path ≢ none
  unfolding resolve_path
  resolve_path_total start path =
      not_none 0 (resolve_path fs start path)
        (resolve_inner-Done (suc max_symlink_depth) start start path 0 (omega arith) (omega arith))

  -- A path that is resolved has followed at most 40 symbolic links.
  pub resolve_path_links :
      (start node : fs.Node) (path : Bytes) (depth : ℕ)
      → resolve_path fs start path ≡ some (ok (node, depth))
      → depth ≤ max_symlink_depth
  unfolding resolve_path Done
  resolve_path_links start node path depth h =
      (subst (Done 0) h (
        resolve_inner-Done (suc max_symlink_depth) start start path 0 (omega arith)
          (omega arith))).1

  and_then_assoc :
      (o : Outcome fs) (f g : fs.Node → ℕ → Outcome fs)
      → and_then fs (and_then fs o f) g ≡ and_then fs o (λ node d. and_then fs (f node d) g)
  unfolding and_then
  and_then_assoc none f g = refl
  and_then_assoc (some (err e)) f g = refl
  and_then_assoc (some (ok (node, d))) f g = refl

  walk-append :
      (resolve : fs.Node → Bytes → ℕ → Outcome fs) (current : fs.Node) (xs ys : List Bytes)
      (depth : ℕ)
      → walk fs resolve current (xs ++ ys) depth
        ≡ and_then fs (walk fs resolve current xs depth) (λ node d. walk fs resolve node ys d)
  unfolding walk
  walk-append resolve current [] ys depth = unfold and_then in refl
  walk-append resolve current (x ∷ xs) ys depth =
      ap (and_then fs (step fs resolve current x depth))
        (fun_ext λ node. fun_ext λ d. walk-append resolve node xs ys d)
      ∙ sym (and_then_assoc (step fs resolve current x depth) _ _)

  resolve_inner-suc :
      (fuel : ℕ) (root start : fs.Node) (path : Bytes) (depth : ℕ)
      → resolve_inner fs (suc fuel) root start path depth
        ≡ walk fs
            (resolve_inner fs fuel root)
            (if is_absolute path then root else start)
            (components path)
            depth
  unfolding resolve_inner
  resolve_inner-suc fuel root start path depth = refl

  relative :
      (fuel : ℕ) (root start : fs.Node) (path : Bytes) (depth : ℕ)
      → is_absolute path ≡ false
      → resolve_inner fs (suc fuel) root start path depth
        ≡ walk fs (resolve_inner fs fuel root) start (components path) depth
  relative fuel root start path depth h =
      resolve_inner-suc fuel root start path depth
      ∙ ap
          (λ b.
            walk fs (resolve_inner fs fuel root) (if b then root else start) (components path)
              depth)
          h

  -- Resolving `p/q`, for a relative `q`, is resolving `p` and then `q` from there, with one count of
  -- links for both.
  pub resolve_inner-append :
      (fuel c : ℕ) (root start : fs.Node) (p q : Bytes) (depth : ℕ)
      → is_absolute q ≡ false
      → resolve_inner fs (suc fuel) root start ((c ∷ p) ++ slash ∷ q) depth
        ≡ and_then fs
            (resolve_inner fs (suc fuel) root start (c ∷ p) depth)
            (λ node d. resolve_inner fs (suc fuel) root node q d)
  unfolding is_absolute
  resolve_inner-append fuel c root start p q depth h =
      rw
        (
          resolve_inner-suc fuel root start ((c ∷ p) ++ slash ∷ q) depth,
          components-append (c ∷ p) q,
        )
        (walk-append (resolve_inner fs fuel root) (if is_absolute (c ∷ p) then root else start)
            (components (c ∷ p)) (components q) depth
          ∙ ap
              (and_then fs (
                walk fs (resolve_inner fs fuel root) (if is_absolute (c ∷ p) then root else start)
                  (components (c ∷ p)) depth))
              (fun_ext λ node. fun_ext λ d. sym (relative fuel root node q d h))
          ∙ ap (λ o. and_then fs o (λ node d. resolve_inner fs (suc fuel) root node q d))
              (sym (resolve_inner-suc fuel root start (c ∷ p) depth)))
