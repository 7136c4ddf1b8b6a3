-- ===== src/Korix/Syscall/Kept.antt =====
-- The names of a path that its `..` components leave, and that the code keeps exactly these.
use koros.Base.{
  ℕ, zero, suc, ◌==◌, true, false, ◌||◌, if◌then◌else◌, List, [], ◌∷◌, ◌++◌, ◌≡◌, refl, sym, ◌∙◌,
  ap, Bool-cases, inl, inr, ◌⊎◌,
}
use koros.Base.OrdMap.{Bytes, bytes_eq}
use koros.Fs.Path.{slash, dot, dot_dot, components}
use koros.Fs.Path.Split.{push, starts, components-split}
use koros.Korix.Syscall.{extend, split, pop, settle, settle_all}

-- A name, in front of so many `..` that are not matched and of the names that are left.
abbrev pub match_name : Bytes → ℕ × List Bytes → ℕ × List Bytes
match_name name (zero, names) = (zero, name ∷ names)
match_name name (suc k, names) = (k, names)

abbrev pub match : Bytes → ℕ × List Bytes → ℕ × List Bytes
match name (k, names) =
    if bytes_eq name [] || bytes_eq name dot
    then (k, names)
    else if bytes_eq name dot_dot
    then (suc k, names)
    else match_name name (k, names)

-- From the last component to the first, each `..` is matched with the nearest name before it that is
-- not matched: the number of `..` without a name, and the names without a `..`.
abbrev pub kept : List Bytes → ℕ × List Bytes
kept [] = (zero, [])
kept (name ∷ names) = match name (kept names)

pops : ℕ → List Bytes → List Bytes
pops zero names = names
pops (suc k) names = pops k (pop names)

pops_nil : (k : ℕ) → pops k [] ≡ []
unfolding pops pop
pops_nil zero = refl
pops_nil (suc k) = pops_nil k

pop-snoc : (xs : List Bytes) (n : Bytes) → pop (xs ++ n ∷ []) ≡ xs
unfolding pop
pop-snoc [] n = refl
pop-snoc (x ∷ []) n = refl
pop-snoc (x ∷ y ∷ ys) n = ap (λ t. x ∷ t) (pop-snoc (y ∷ ys) n)

pub append_assoc :
    (xs : List Bytes) (y : Bytes) (zs : List Bytes) → (xs ++ y ∷ []) ++ zs ≡ xs ++ y ∷ zs
append_assoc [] y zs = refl
append_assoc (x ∷ xs) y zs = ap (λ t. x ∷ t) (append_assoc xs y zs)

name_kept :
    (n : Bytes) (acc : List Bytes) (q : ℕ × List Bytes)
    → pops q.0 (acc ++ n ∷ []) ++ q.1 ≡ pops (match_name n q).0 acc ++ (match_name n q).1
unfolding pops
name_kept n acc (zero, names) = append_assoc acc n names
name_kept n acc (suc k, names) = ap (λ t. pops k t ++ names) (pop-snoc acc n)

settle_all-kept : (acc ps : List Bytes) → settle_all acc ps ≡ pops (kept ps).0 acc ++ (kept ps).1
unfolding settle_all settle pops
settle_all-kept acc [] = append_nil acc
  where
    append_nil : (xs : List Bytes) → xs ≡ xs ++ []
    append_nil [] = refl
    append_nil (x ∷ xs) = ap (λ t. x ∷ t) (append_nil xs)
settle_all-kept acc (p ∷ ps) = elim (Bool-cases (bytes_eq p [] || bytes_eq p dot)) [
  | inl e ↦ rw (e) (settle_all-kept acc ps)
  | inr e ↦ elim (Bool-cases (bytes_eq p dot_dot)) [
    | inl d ↦ rw (e, d) (settle_all-kept (pop acc) ps)
    | inr d ↦ rw (e, d) (settle_all-kept (acc ++ p ∷ []) ps ∙ name_kept p acc (kept ps))
  ]
]

-- The pieces between slashes, and the components in the sense of kor-fs.
abbrev Agree : Bytes → Type 0
Agree s =
    ((starts s ≡ false)
      × (ps : List Bytes) × (ms : List Bytes) × (split s ≡ [] ∷ ps)
      × (koros.Fs.Path.Split.split s ≡ ms)
      × (kept ps ≡ kept ms))
    ⊎ ((starts s ≡ true)
        × (n : Bytes) × (ps : List Bytes) × (ms : List Bytes) × (split s ≡ n ∷ ps)
        × (koros.Fs.Path.Split.split s ≡ n ∷ ms)
        × (kept ps ≡ kept ms))

kept-Agree : (s : Bytes) → Agree s → kept (split s) ≡ kept (koros.Fs.Path.Split.split s)
kept-Agree s (inl (h, ps, ms, a, b, e)) = ap kept a ∙ e ∙ ap kept (sym b)
kept-Agree s (inr (h, n, ps, ms, a, b, e)) = ap kept a ∙ ap (match n) e ∙ ap kept (sym b)

push_new : (c : ℕ) (ms : List Bytes) → push c ms false ≡ (c ∷ []) ∷ ms
unfolding push
push_new c [] = refl
push_new c (m ∷ ms) = refl

push_more : (c : ℕ) (m : Bytes) (ms : List Bytes) → push c (m ∷ ms) true ≡ (c ∷ m) ∷ ms
unfolding push
push_more c m ms = refl

agree : (s : Bytes) → Agree s
unfolding split koros.Fs.Path.Split.split starts extend
agree [] = inl (refl, [], [], refl, refl, refl)
agree (c ∷ cs) = elim (Bool-cases (c == slash)) [
  | inl e ↦
      rw (e)
        (inl (refl, split cs, koros.Fs.Path.Split.split cs, refl, refl, kept-Agree cs (agree cs)))
  | inr e ↦ elim (agree cs) [
    | inl (h, ps, ms, a, b, g) ↦
        rw (e, a, b, h) (inr (refl, c ∷ [], ps, ms, refl, push_new c ms, g))
    | inr (h, n, ps, ms, a, b, g) ↦
        rw (e, a, b, h) (inr (refl, c ∷ n, ps, ms, refl, push_more c n ms, g))
  ]
]

-- What the code keeps of the pieces of a path are the names that its components leave.
pub settle_all-components : (s : Bytes) → settle_all [] (split s) ≡ (kept (components s)).1
settle_all-components s =
    settle_all-kept [] (split s)
    ∙ ap (λ t. t ++ (kept (split s)).1) (pops_nil (kept (split s)).0)
    ∙ ap (λ q. q.1) (kept-Agree s (agree s))
    ∙ ap (λ q. (kept q).1) (sym (components-split s))
