-- ===== src/Fs/Path/Split.antt =====
-- The components of a path.
use koros.Base.{
  ℕ, zero, suc, ◌⊎◌, ◌≤◌, ◌==◌, Bool, true, false, if◌then◌else◌, List, [], ◌∷◌, ◌++◌, length,
  arith, ◌≡◌, refl, sym, ◌∙◌, ap, Bool-cases, inl, inr,
}
use koros.Base.OrdMap.{Bytes}
use koros.Fs.Path.{slash, trim_start, before_slash, from_slash, next, collect, components}

-- The components as a fold over the path: a slash ends the component before it, if there is one.
unfoldable pub push : ℕ → List Bytes → Bool → List Bytes
push c [] continues = (c ∷ []) ∷ []
push c (name ∷ names) continues = if continues then (c ∷ name) ∷ names else (c ∷ []) ∷ name ∷ names

-- Does the path start with a byte of a component?
unfoldable pub starts : Bytes → Bool
starts [] = false
starts (c ∷ cs) = if c == slash then false else true

unfoldable pub split : Bytes → List Bytes
unfolding starts
split [] = []
split (c ∷ cs) = let rest = split cs in if c == slash then rest else push c rest (starts cs)

split-trim_start : (s : Bytes) → split (trim_start s) ≡ split s
unfolding split trim_start
split-trim_start [] = refl
split-trim_start (c ∷ cs) = ground (arith, split-trim_start cs)

length-trim_start : (s : Bytes) → length (trim_start s) ≤ length s
unfolding trim_start
length-trim_start [] = omega arith
length-trim_start (c ∷ cs) = ground (arith, length-trim_start cs)

length-from_slash : (s : Bytes) → length (from_slash s) ≤ length s
unfolding from_slash
length-from_slash [] = omega arith
length-from_slash (c ∷ cs) = ground (arith, length-from_slash cs)

split-before_slash :
    (c : ℕ) (cs : Bytes)
    → (c == slash) ≡ false
    → split (c ∷ cs) ≡ before_slash (c ∷ cs) ∷ split (from_slash (c ∷ cs))
unfolding split before_slash from_slash starts push
split-before_slash c [] h = ground arith
split-before_slash c (d ∷ ds) h = elim (Bool-cases (d == slash)) [
  | inl e ↦ elim (List-cases (split ds)) [ inl z ↦ ground arith | inr (n, ns, z) ↦ ground arith ]
  | inr e ↦ ground (arith, split-before_slash d ds e)
]
  where
    List-cases : (xs : List Bytes) → (xs ≡ []) ⊎ ((n : Bytes) × (ns : List Bytes) × (xs ≡ n ∷ ns))
    List-cases [] = inl refl
    List-cases (x ∷ xs) = inr (x, xs, refl)

trim_start-head : (s : Bytes) (c : ℕ) (cs : Bytes) → trim_start s ≡ c ∷ cs → (c == slash) ≡ false
unfolding trim_start
trim_start-head [] c cs h = cc
trim_start-head (d ∷ ds) c cs h = ground (arith, trim_start-head ds c cs)

collect_lem : (fuel : ℕ) (s : Bytes) → length s ≤ fuel → collect fuel s ≡ split s
unfolding collect next
collect_lem zero [] h = unfold split in refl
collect_lem zero (c ∷ cs) h = absurd (omega arith)
collect_lem (suc fuel) s h = elim (Bytes-cases (trim_start s)) [
  | inl z ↦ rw (z, collect, next) (unfold split in ap split (sym z) ∙ split-trim_start s)
  | inr (c, cs, z) ↦
      let clear = trim_start-head s c cs z in
      let shorter : length (from_slash (c ∷ cs)) ≤ fuel =
        unfold from_slash in ground (arith, length-trim_start s, length-from_slash cs) in
      rw (z, collect, next, collect_lem fuel (from_slash (c ∷ cs)) shorter)
        (sym (split-before_slash c cs clear) ∙ ap split (sym z) ∙ split-trim_start s)
]
  where
    Bytes-cases : (xs : Bytes) → (xs ≡ []) ⊎ ((n : ℕ) × (ns : Bytes) × (xs ≡ n ∷ ns))
    Bytes-cases [] = inl refl
    Bytes-cases (x ∷ xs) = inr (x, xs, refl)

-- The iterator `Components` gives the components in the sense of `split`.
pub components-split : (s : Bytes) → components s ≡ split s
unfolding components
components-split s = collect_lem (length s) s (omega arith)

push-append :
    (c : ℕ) (names others : List Bytes) (continues : Bool)
    → (names ≡ [] → (continues ≡ false) ⊎ (others ≡ []))
    → push c (names ++ others) continues ≡ push c names continues ++ others
unfolding push
push-append c [] [] continues h = refl
push-append c [] (x ∷ xs) continues h = ground (arith, h refl)
push-append c (x ∷ xs) others true h = refl
push-append c (x ∷ xs) others false h = refl

push_nonempty : (c : ℕ) (names : List Bytes) (continues : Bool) → push c names continues ≡ [] → ⊥
unfolding push
push_nonempty c [] continues h = cc
push_nonempty c (x ∷ xs) true h = cc
push_nonempty c (x ∷ xs) false h = cc

split_nil : (s : Bytes) → split s ≡ [] → starts s ≡ false
unfolding split starts
split_nil [] h = refl
split_nil (c ∷ cs) h = ground (arith, push_nonempty c (split cs) (starts cs))

starts-append : (p q : Bytes) → starts (p ++ slash ∷ q) ≡ starts p
unfolding starts
starts-append [] q = ground arith
starts-append (c ∷ cs) q = refl

split-append_slash : (p q : Bytes) → split (p ++ slash ∷ q) ≡ split p ++ split q
unfolding split
split-append_slash [] q = ground arith
split-append_slash (c ∷ cs) q =
    rw (split-append_slash cs q, starts-append cs q)
      (ground (arith, push-append c (split cs) (split q) (starts cs) (λ z. inl (split_nil cs z))))

-- Two paths joined by a slash have the components of the one and then those of the other.
pub components-append : (p q : Bytes) → components (p ++ slash ∷ q) ≡ components p ++ components q
components-append p q =
    rw (components-split, components-split, components-split) (split-append_slash p q)
