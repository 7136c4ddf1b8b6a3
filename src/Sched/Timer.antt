-- ===== src/Sched/Timer.antt =====
-- The sleepers after a tick of the timer.
use koros.Base.{
  ℕ, zero, suc, ◌+◌, ◌-◌, ◌≤◌, ◌<◌, ◌==◌, ◌≡◌, refl, sym, ◌∙◌, ap, subst, true, false, not, leb,
  List, [], ◌∷◌, none, some, length, length-set, length-take, get_elem?, get_elem?-set_ne, get_or,
  set, take, arith, inl, inr, Bool-cases, Option-cases, ℕ_discrete, some_eq,
}
use koros.Sched.{
  Sched, TaskState, update, swap_remove, set_state, set_cpu, push_ready, wake_due, timer_tick,
}

get_elem?-length : (xs : List ℕ) (i x : ℕ) → get_elem? xs i ≡ some x → i < length xs
get_elem?-length [] i x h = cc
get_elem?-length (y ∷ ys) zero x h = omega arith
get_elem?-length (y ∷ ys) (suc i) x h = omega (arith, get_elem?-length ys i x h)

get_elem?-none : (xs : List ℕ) (i : ℕ) → get_elem? xs i ≡ none → length xs ≤ i
get_elem?-none [] i h = omega arith
get_elem?-none (y ∷ ys) zero h = cc
get_elem?-none (y ∷ ys) (suc i) h = omega (arith, get_elem?-none ys i h)

get_elem?-take :
    (n : ℕ) (xs : List ℕ) (i x : ℕ) → get_elem? (take n xs) i ≡ some x → get_elem? xs i ≡ some x
get_elem?-take zero xs i x h = cc
get_elem?-take (suc n) [] i x h = cc
get_elem?-take (suc n) (y ∷ ys) zero x h = h
get_elem?-take (suc n) (y ∷ ys) (suc i) x h = get_elem?-take n ys i x h

-- `swap_remove` leaves the elements before the place alone, and the list is one shorter.
swap_remove_before :
    (xs : List ℕ) (i j x : ℕ)
    → j < i
    → get_elem? (swap_remove xs i) j ≡ some x
    → get_elem? xs j ≡ some x
unfolding swap_remove
swap_remove_before xs i j x h e =
    sym (get_elem?-set_ne xs (get_or xs (length xs - 1) 0) (λ k. omega arith))
    ∙ get_elem?-take (length xs - 1) (set xs i (get_or xs (length xs - 1) 0)) j x e

length-swap_remove : (xs : List ℕ) (i : ℕ) → length (swap_remove xs i) ≡ length xs - 1
unfolding swap_remove
length-swap_remove xs i = omega (
  arith,
  length-take (length xs - 1) (set xs i (get_or xs (length xs - 1) 0)),
  length-set xs i (get_or xs (length xs - 1) 0),
)

-- The sleepers before place `i` are not due.
NotDue : Sched → ℕ → ℕ → Type 0
NotDue s now i = (j x : ℕ) → j < i → get_elem? s.sleepers j ≡ some x → now < (s.tasks x).wake_tick

wake_tick-set_state :
    (s : Sched) (t x : ℕ) (state : TaskState)
    → ((set_state s t state).tasks x).wake_tick ≡ (s.tasks x).wake_tick
unfolding set_state update
wake_tick-set_state s t x state = elim (ℕ_discrete t x) [
  | yes p ↦
      let test : (t == x) ≡ true = ground (arith, p) in rw test (ap (λ y. (s.tasks y).wake_tick) p)
  | no p ↦ let test : (t == x) ≡ false = ground (arith, p) in rw test refl
]

woken : Sched → ℕ → ℕ → Sched
woken s i t =
    push_ready (set_state (record s { sleepers = swap_remove s.sleepers i }) t TaskState.ready) t

NotDue-woken : (s : Sched) (now i t : ℕ) → NotDue s now i → NotDue (woken s i t) now i
unfolding NotDue woken push_ready
NotDue-woken s now i t h j x l e =
    let old = h j x l (swap_remove_before s.sleepers i j x l (unfold set_state in e)) in
    subst (λ w. now < w)
      (sym (
        wake_tick-set_state (record s { sleepers = swap_remove s.sleepers i }) t x TaskState.ready))
      old

length-woken : (s : Sched) (i t : ℕ) → length (woken s i t).sleepers ≡ length s.sleepers - 1
unfolding woken push_ready set_state
length-woken s i t = length-swap_remove s.sleepers i

NotDue-next :
    (s : Sched) (now i t : ℕ)
    → NotDue s now i
    → get_elem? s.sleepers i ≡ some t
    → now < (s.tasks t).wake_tick
    → NotDue s now (suc i)
unfolding NotDue
NotDue-next s now i t h z y j x l e = elim (ℕ_discrete j i) [
  | yes p ↦
      let same : t ≡ x = some_eq (sym z ∙ ap (get_elem? s.sleepers) (sym p) ∙ e) in
      subst (λ k. now < (s.tasks k).wake_tick) same y
  | no p ↦ h j x (omega (arith, p)) e
]

wake_due-woken :
    (fuel : ℕ) (s : Sched) (now i t : ℕ)
    → get_elem? s.sleepers i ≡ some t
    → leb (s.tasks t).wake_tick now ≡ true
    → wake_due (suc fuel) s now i ≡ wake_due fuel (woken s i t) now i
unfolding wake_due woken
wake_due-woken fuel s now i t z y = rw (z, y, wake_due) refl

wake_due_later :
    (fuel : ℕ) (s : Sched) (now i t : ℕ)
    → get_elem? s.sleepers i ≡ some t
    → leb (s.tasks t).wake_tick now ≡ false
    → wake_due (suc fuel) s now i ≡ wake_due fuel s now (suc i)
unfolding wake_due
wake_due_later fuel s now i t z y = rw (z, y, wake_due) refl

wake_due_lem :
    (fuel : ℕ) (s : Sched) (now i j x : ℕ)
    → length s.sleepers ≤ i + fuel
    → NotDue s now i
    → get_elem? (wake_due fuel s now i).sleepers j ≡ some x
    → now < ((wake_due fuel s now i).tasks x).wake_tick
unfolding wake_due NotDue
wake_due_lem zero s now i j x l h e = h j x (omega (arith, get_elem?-length s.sleepers j x e)) e
wake_due_lem (suc fuel) s now i j x l h e = elim (Option-cases (get_elem? s.sleepers i)) [
  | inl z ↦ h_none s now i j x h z fuel e
  | inr (t, z) ↦ elim (Bool-cases (leb (s.tasks t).wake_tick now)) [
    | inl y ↦ rw (wake_due-woken fuel s now i t z y) (
        wake_due_lem fuel (woken s i t) now i j x
          (omega (arith, length-woken s i t, l, get_elem?-length s.sleepers i t z))
          (NotDue-woken s now i t h)
          (ap (λ q. get_elem? q.sleepers j) (sym (wake_due-woken fuel s now i t z y)) ∙ e))
    | inr y ↦ rw (wake_due_later fuel s now i t z y) (
        wake_due_lem fuel s now (suc i) j x (omega arith) (NotDue-next s now i t h z (ground arith))
          (ap (λ q. get_elem? q.sleepers j) (sym (wake_due_later fuel s now i t z y)) ∙ e))
  ]
]
  where
    h_none :
        (s : Sched) (now i j x : ℕ)
        → NotDue s now i
        → get_elem? s.sleepers i ≡ none
        → (fuel : ℕ) → get_elem? (wake_due (suc fuel) s now i).sleepers j ≡ some x
        → now < ((wake_due (suc fuel) s now i).tasks x).wake_tick
    h_none s now i j x h z fuel =
        rw (z, wake_due)
          (λ e.
            h j x (omega (arith, get_elem?-length s.sleepers j x e, get_elem?-none s.sleepers i z))
              e)

-- After a tick of a running scheduler no task that is due sleeps: every sleeper's tick lies ahead.
pub timer_tick_wakes :
    (s : Sched) (c now j x : ℕ)
    → s.sched_ready ≡ true
    → get_elem? (timer_tick s c now).sleepers j ≡ some x
    → now < ((timer_tick s c now).tasks x).wake_tick
unfolding timer_tick set_cpu NotDue
timer_tick_wakes s c now j x r =
    let test : not s.sched_ready ≡ false = ap not r in
    rw (test, timer_tick)
      (λ e.
        wake_due_lem (length s.sleepers) s now 0 j x (omega arith) (λ k y l. absurd (omega arith))
          e)
