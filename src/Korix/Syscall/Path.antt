-- ===== src/Korix/Syscall/Path.antt =====
-- The normal form of absolute paths.
use koros.Base.{
  subst, ◌⊎◌, ℕ, ◌==◌, true, false, ◌||◌, List, [], ◌∷◌, ◌++◌, none, some, ◌≡◌, refl, sym, ◌∙◌, ap,
  Bool-cases, inl, inr,
}
use koros.Base.OrdMap.{Bytes, bytes_eq}
use koros.Korix.Syscall.Kept.{kept, append_assoc, settle_all-components}
use koros.Fs.Path.{components, slash, dot, dot_dot, is_absolute}
use koros.Korix.Syscall.{extend, split, pop, settle, settle_all, join, normalize_absolute}

-- No byte is a slash.
abbrev Whole : Bytes → Type 0
Whole [] = Unit {0}
Whole (c ∷ cs) = ((c == slash) ≡ false) × Whole cs

-- Neither empty, nor `.`, nor `..`.
abbrev pub IsName : Bytes → Type 0
IsName n = ((bytes_eq n [] || bytes_eq n dot) ≡ false) × (bytes_eq n dot_dot ≡ false) × Whole n

abbrev pub AllWhole : List Bytes → Type 0
AllWhole [] = Unit {0}
AllWhole (n ∷ ns) = Whole n × AllWhole ns

abbrev pub AllNames : List Bytes → Type 0
AllNames [] = Unit {0}
AllNames (n ∷ ns) = IsName n × AllNames ns

AllWhole-extend :
    (c : ℕ) (ns : List Bytes) → (c == slash) ≡ false → AllWhole ns → AllWhole (extend c ns)
unfolding extend
AllWhole-extend c [] h w = ((h, tt), tt)
AllWhole-extend c (n ∷ ns) h (w, ws) = ((h, w), ws)

AllWhole-split : (s : Bytes) → AllWhole (split s)
unfolding split
AllWhole-split [] = (tt, tt)
AllWhole-split (c ∷ cs) = elim (Bool-cases (c == slash)) [
  | inl e ↦ rw (e) (tt, AllWhole-split cs)
  | inr e ↦ rw (e) (AllWhole-extend c (split cs) e (AllWhole-split cs))
]

AllNames-pop : (ns : List Bytes) → AllNames ns → AllNames (pop ns)
unfolding pop
AllNames-pop [] h = tt
AllNames-pop (x ∷ []) h = tt
AllNames-pop (x ∷ y ∷ ys) (h, hs) = (h, AllNames-pop (y ∷ ys) hs)

AllNames-snoc : (ns : List Bytes) (n : Bytes) → AllNames ns → IsName n → AllNames (ns ++ n ∷ [])
AllNames-snoc [] n h i = (i, tt)
AllNames-snoc (x ∷ xs) n (h, hs) i = (h, AllNames-snoc xs n hs i)

AllNames-settle : (ns : List Bytes) (n : Bytes) → AllNames ns → Whole n → AllNames (settle ns n)
unfolding settle
AllNames-settle ns n h w = elim (Bool-cases (bytes_eq n [] || bytes_eq n dot)) [
  | inl e ↦ rw (e) h
  | inr e ↦ elim (Bool-cases (bytes_eq n dot_dot)) [
    | inl d ↦ rw (e, d) (AllNames-pop ns h)
    | inr d ↦ rw (e, d) (AllNames-snoc ns n h (e, d, w))
  ]
]

AllNames-settle_all : (ns ps : List Bytes) → AllNames ns → AllWhole ps → AllNames (settle_all ns ps)
unfolding settle_all
AllNames-settle_all ns [] h w = h
AllNames-settle_all ns (p ∷ ps) h (w, ws) =
    AllNames-settle_all (settle ns p) ps (AllNames-settle ns p h w) ws

append_nil : (xs : List Bytes) → xs ++ [] ≡ xs
append_nil [] = refl
append_nil (x ∷ xs) = ap (λ t. x ∷ t) (append_nil xs)

settle-name : (ns : List Bytes) (n : Bytes) → IsName n → settle ns n ≡ ns ++ n ∷ []
unfolding settle
settle-name ns n (e, d, w) = rw (e, d) refl

settle_all-names : (ns ps : List Bytes) → AllNames ps → settle_all ns ps ≡ ns ++ ps
unfolding settle_all
settle_all-names ns [] h = sym (append_nil ns)
settle_all-names ns (p ∷ ps) (h, hs) =
    settle_all-names (settle ns p) ps hs
    ∙ ap (λ t. t ++ ps) (settle-name ns p h)
    ∙ append_assoc ns p ps

split-Whole : (n : Bytes) → Whole n → split n ≡ n ∷ []
unfolding split extend
split-Whole [] w = refl
split-Whole (c ∷ cs) (h, w) = rw (h, split-Whole cs w) refl

split-append : (n s : Bytes) → Whole n → split (n ++ slash ∷ s) ≡ n ∷ split s
unfolding split extend
split-append [] s w = refl
split-append (c ∷ cs) s (h, w) = rw (h, split-append cs s w) refl

split-join : (n : Bytes) (ns : List Bytes) → AllNames (n ∷ ns) → split (join (n ∷ ns)) ≡ n ∷ ns
unfolding join
split-join n [] ((e, d, w), hs) = split-Whole n w
split-join n (m ∷ ms) ((e, d, w), hs) =
    split-append n (join (m ∷ ms)) w ∙ ap (λ t. n ∷ t) (split-join m ms hs)

settle-empty : (ns : List Bytes) → settle ns [] ≡ ns
unfolding settle
settle-empty ns = refl

-- The components of the joined names are the names.
settle_all-join : (ns : List Bytes) → AllNames ns → settle_all [] (split (join ns)) ≡ ns
settle_all-join [] h = unfold split join settle_all in settle-empty []
settle_all-join (n ∷ ns) h = ap (settle_all []) (split-join n ns h) ∙ settle_all-names [] (n ∷ ns) h

normal_lem :
    (ns : List Bytes) → AllNames ns → normalize_absolute (slash ∷ join ns) ≡ some (slash ∷ join ns)
unfolding normalize_absolute is_absolute split settle_all
normal_lem ns h =
    ap (λ t. some (slash ∷ join (settle_all t (split (join ns))))) (settle-empty [])
    ∙ ap (λ t. some (slash ∷ join t)) (settle_all-join ns h)

-- The names of a path that are left when each `..`, from the last to the first, has been matched with
-- the nearest name before it.
abbrev pub names_left : Bytes → List Bytes
names_left path = (kept (components path)).1

-- An absolute path, and no other, has a normal form: a slash and the joined names of the path that are
-- left when each `..` is matched with the nearest name before it that is not matched, where the
-- components are those of path resolution, and a `..` without a name is dropped. No name is empty, `.`
-- or `..` or has a slash, and the normal form is its own normal form.
pub normalize_absolute_lem :
    (path : Bytes)
    → (is_absolute path ≡ false) × (normalize_absolute path ≡ none)
      ⊎ (is_absolute path ≡ true)
        × AllNames (names_left path)
        × (normalize_absolute path ≡ some (slash ∷ join (names_left path)))
        × (normalize_absolute (slash ∷ join (names_left path))
            ≡ some (slash ∷ join (names_left path)))
normalize_absolute_lem path = elim (Bool-cases (is_absolute path)) [
  | inl e ↦
      let same = settle_all-components path in
      let good : AllNames (names_left path) =
        subst AllNames same (AllNames-settle_all [] (split path) tt (AllWhole-split path)) in
      inr (
        e,
        good,
        unfold normalize_absolute in rw (e) (ap (λ t. some (slash ∷ join t)) same),
        normal_lem (names_left path) good,
      )
  | inr e ↦ inl (e, unfold normalize_absolute in rw (e) refl)
]
