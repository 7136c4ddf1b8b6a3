-- ===== src/Sched/Places.antt =====
-- Where a task handle is: the number of places that hold it.
use koros.Base.{
  ℕ, zero, suc, ◌+◌, ◌-◌, ◌≤◌, ◌<◌, ◌==◌, ◌≡◌, refl, ◌∙◌, ap, Bool, true, false, ◌&&◌, ltb,
  if◌then◌else◌, List, [], ◌∷◌, ◌++◌, Option, none, some, length, length-set, get_elem?, get_or,
  set, take, arith, ℕ_discrete,
}
use koros.Sched.{Sched, PerCpu, Action, update, max_cpus, swap_remove}

abbrev pub one_if : Bool → ℕ
one_if true = 1
one_if false = 0

-- How often a list holds a handle.
unfoldable pub tally : ℕ → List ℕ → ℕ
tally t [] = 0
tally t (x ∷ xs) = one_if (t == x) + tally t xs

abbrev pub tally_option : ℕ → Option ℕ → ℕ
tally_option t none = 0
tally_option t (some x) = one_if (t == x)

abbrev pub tally_prev : ℕ → Option (ℕ × Action) → ℕ
tally_prev t none = 0
tally_prev t (some (x, action)) = one_if (t == x)

-- A CPU holds the task that it runs and the task that it has switched away from.
abbrev pub on_cpu : ℕ → PerCpu → ℕ
on_cpu t cpu = tally_option t cpu.current + tally_prev t cpu.prev

unfoldable pub sum_below : ℕ → (ℕ → ℕ) → ℕ
sum_below zero f = 0
sum_below (suc n) f = f n + sum_below n f

-- The places of a handle: the shared lists, the queues below `queue_count`, and the CPUs.
unfoldable pub places : ℕ → Sched → ℕ → ℕ
places queue_count s t =
    tally t s.ready_queue
    + tally t s.sleepers
    + tally t s.zombies
    + sum_below queue_count (λ w. tally t (s.queues w).list)
    + sum_below max_cpus (λ c. on_cpu t (s.cpus c))

pub tally-append : (t : ℕ) (xs ys : List ℕ) → tally t (xs ++ ys) ≡ tally t xs + tally t ys
unfolding tally
tally-append t [] ys = omega arith
tally-append t (x ∷ xs) ys = omega (arith, tally-append t xs ys)

-- A sum after one of its terms has changed.
sum_below_above :
    {A : Type 0} (n i : ℕ) (f : ℕ → A) (g : A → ℕ) (x : A)
    → n ≤ i
    → sum_below n (λ j. g (update f i x j)) ≡ sum_below n (λ j. g (f j))
unfolding sum_below update
sum_below_above zero i f g x h = refl
sum_below_above (suc n) i f g x h =
    let other : (i == n) ≡ false = ground arith in
    rw other (ap (λ k. g (f n) + k) (sum_below_above n i f g x (omega arith)))

pub sum_below-update :
    {A : Type 0} (n i : ℕ) (f : ℕ → A) (g : A → ℕ) (x : A)
    → i < n
    → sum_below n (λ j. g (update f i x j)) + g (f i) ≡ sum_below n (λ j. g (f j)) + g x
unfolding sum_below update
sum_below-update zero i f g x h = absurd (omega arith)
sum_below-update (suc n) i f g x h = elim (ℕ_discrete i n) [
  | yes p ↦
      let same : (i == n) ≡ true = ground arith in
      let at_n : g (f i) ≡ g (f n) = ap (λ k. g (f k)) p in
      rw same (omega (arith, sum_below_above n i f g x (omega arith), at_n))
  | no p ↦
      let other : (i == n) ≡ false = ground arith in
      rw other (omega (arith, sum_below-update n i f g x (omega arith)))
]

tally-set :
    (t i v x : ℕ) (xs : List ℕ)
    → get_elem? xs i ≡ some x
    → tally t (set xs i v) + one_if (t == x) ≡ tally t xs + one_if (t == v)
unfolding tally
tally-set t i v x [] h = cc
tally-set t zero v x (y ∷ ys) h = ground arith
tally-set t (suc i) v x (y ∷ ys) h = omega (arith, tally-set t i v x ys h)

tally-take_last :
    (t d : ℕ) (xs : List ℕ)
    → 0 < length xs
    → tally t (take (length xs - 1) xs) + one_if (t == get_or xs (length xs - 1) d) ≡ tally t xs
unfolding tally
tally-take_last t d [] h = absurd (omega arith)
tally-take_last t d (x ∷ []) h = omega arith
tally-take_last t d (x ∷ y ∷ ys) h =
    let shorter : length (x ∷ y ∷ ys) - 1 ≡ suc (length (y ∷ ys) - 1) = omega arith in
    rw shorter (omega (arith, tally-take_last t d (y ∷ ys) (omega arith)))

get_or-set :
    (xs : List ℕ) (i k d v : ℕ)
    → get_or (set xs i v) k d ≡ (if i == k && ltb k (length xs) then v else get_or xs k d)
get_or-set [] i k d v = ground arith
get_or-set (x ∷ xs) zero zero d v = ground arith
get_or-set (x ∷ xs) zero (suc k) d v = ground arith
get_or-set (x ∷ xs) (suc i) zero d v = ground arith
get_or-set (x ∷ xs) (suc i) (suc k) d v = ground (arith, get_or-set xs i k d v)

last-set : (xs : List ℕ) (i k d : ℕ) → get_or (set xs i (get_or xs k d)) k d ≡ get_or xs k d
last-set xs i k d = ground (arith, get_or-set xs i k d (get_or xs k d))

some-length : (xs : List ℕ) (i x : ℕ) → get_elem? xs i ≡ some x → 0 < length xs
some-length [] i x h = cc
some-length (y ∷ ys) i x h = omega arith

pub tally-swap_remove :
    (t i x : ℕ) (xs : List ℕ)
    → get_elem? xs i ≡ some x
    → tally t (swap_remove xs i) + one_if (t == x) ≡ tally t xs
unfolding swap_remove
tally-swap_remove t i x xs h =
    let last = get_or xs (length xs - 1) 0 in
    let changed = set xs i last in
    let same : length changed ≡ length xs = length-set xs i last in
    let ends : get_or changed (length changed - 1) 0 ≡ last =
      ap (λ n. get_or changed (n - 1) 0) same ∙ last-set xs i (length xs - 1) 0 in
    let short : take (length changed - 1) changed ≡ take (length xs - 1) changed =
      ap (λ n. take (n - 1) changed) same in
    omega (
      arith,
      ap (tally t) short,
      ap (λ y. one_if (t == y)) ends,
      tally-take_last t 0 changed (omega (arith, same, some-length xs i x h)),
      tally-set t i last x xs h,
    )
