-- ===== src/Sched/Keeps.antt =====
-- Each operation of the scheduler keeps the places of every task handle, or says how they change.
use koros.Base.{
  ℕ, zero, suc, ◌+◌, ◌-◌, ◌≤◌, ◌<◌, ◌==◌, ◌≡◌, ◌⊎◌, refl, sym, ◌∙◌, ap, Bool, true, false, not,
  ◌&&◌, leb, if◌then◌else◌, List, [], ◌∷◌, ◌++◌, none, some, length, get_elem?, arith, inl, inr,
  Bool-cases, Option-cases, ℕ_discrete, some_eq, absurd_none,
}
use koros.Sched.{
  Sched, PerCpu, WaitQueue, Action, to_ready, to_sleep, to_zombie, to_wait, TaskState, max_cpus,
  swap_remove, set_state, set_cpu, set_queue, push_ready, is_idle, pick_next, is_to_ready,
  record_switch, switch_out, settle, finish_switch, make_ready, make_all_ready, wake_one, wake_all,
  wake_due, timer_tick, update, time_slice,
}
use koros.Sched.Places.{
  one_if, tally, tally_option, tally_prev, on_cpu, sum_below-update, places, tally-append,
  tally-swap_remove,
}

-- The list that an action names, and the state of the tasks on it.
abbrev pub named : Action → Sched → List ℕ
named to_ready s = s.ready_queue
named to_sleep s = s.sleepers
named to_zombie s = s.zombies
named (to_wait w) s = (s.queues w).list

abbrev pub state_of : Action → TaskState
state_of to_ready = TaskState.ready
state_of to_sleep = TaskState.sleeping
state_of to_zombie = TaskState.exited
state_of (to_wait w) = TaskState.blocked

-- An idle task that would be ready.
abbrev pub stays : Sched → ℕ → Action → Bool
stays s prev action = is_to_ready action && is_idle (s.tasks prev)

module _ (queue_count : ℕ) where
  places-set_cpu :
      (s : Sched) (c t : ℕ) (cpu : PerCpu)
      → c < max_cpus
      → places queue_count (set_cpu s c cpu) t + on_cpu t (s.cpus c)
        ≡ places queue_count s t + on_cpu t cpu
  unfolding set_cpu places
  places-set_cpu s c t cpu h = omega (arith, sum_below-update max_cpus c s.cpus (on_cpu t) cpu h)

  places-set_queue :
      (s : Sched) (w t : ℕ) (queue : WaitQueue)
      → w < queue_count
      → places queue_count (set_queue s w queue) t + tally t (s.queues w).list
        ≡ places queue_count s t + tally t queue.list
  unfolding set_queue places
  places-set_queue s w t queue h =
      omega (arith, sum_below-update queue_count w s.queues (λ q. tally t q.list) queue h)

  places-set_state :
      (s : Sched) (x t : ℕ) (state : TaskState)
      → places queue_count (set_state s x state) t ≡ places queue_count s t
  unfolding set_state places
  places-set_state s x t state = refl

  tally_one : (t x : ℕ) → tally t (x ∷ []) ≡ one_if (t == x)
  unfolding tally
  tally_one t x = omega arith

  places-push_ready :
      (s : Sched) (x t : ℕ)
      → places queue_count (push_ready s x) t ≡ places queue_count s t + one_if (t == x)
  unfolding push_ready places
  places-push_ready s x t = omega (arith, tally-append t s.ready_queue (x ∷ []), tally_one t x)

  places-make_ready :
      (s : Sched) (x t : ℕ)
      → places queue_count (make_ready s x) t ≡ places queue_count s t + one_if (t == x)
  unfolding make_ready
  places-make_ready s x t =
      places-push_ready (set_state s x TaskState.ready) x t
      ∙ ap (λ n. n + one_if (t == x)) (places-set_state s x t TaskState.ready)

  differs :
      (s : Sched) (x t : ℕ)
      → is_idle (s.tasks x) ≡ true
      → is_idle (s.tasks t) ≡ false
      → one_if (t == x) ≡ 0
  differs s x t h k = elim (ℕ_discrete t x) [
    | yes p ↦ absurd (let same = ap (λ y. is_idle (s.tasks y)) p in cc)
    | no p ↦ ground (arith, p)
  ]

  -- The deferred transition puts a task that is not idle into one place.
  places-settle :
      (s : Sched) (prev t : ℕ) (action : Action)
      → is_idle (s.tasks t) ≡ false
      → ((w : ℕ) → action ≡ to_wait w → w < queue_count)
      → places queue_count (settle s prev action) t ≡ places queue_count s t + one_if (t == prev)
  unfolding settle
  places-settle s prev t to_ready h k = elim (Bool-cases (is_idle (s.tasks prev))) [
    | inr e ↦ rw e (places-make_ready_at s prev t)
    | inl e ↦ rw e (omega (arith, differs s prev t e h))
  ]
    where
      places-make_ready_at :
          (s : Sched) (prev t : ℕ)
          → places queue_count (push_ready (set_state s prev TaskState.ready) prev) t
            ≡ places queue_count s t + one_if (t == prev)
      places-make_ready_at s prev t =
          places-push_ready (set_state s prev TaskState.ready) prev t
          ∙ ap (λ n. n + one_if (t == prev)) (places-set_state s prev t TaskState.ready)
  places-settle s prev t to_sleep h k =
      unfold places set_state in
      omega (arith, tally-append t s.sleepers (prev ∷ []), tally_one t prev)
  places-settle s prev t to_zombie h k =
      unfold places set_state in
      omega (arith, tally-append t s.zombies (prev ∷ []), tally_one t prev)
  places-settle s prev t (to_wait w) h k = omega (
    arith,
    places-set_queue (set_state s prev TaskState.blocked) w t
        (record { list = (s.queues w).list ++ prev ∷ []; lock = false }) (k w refl),
    places-set_state s prev t TaskState.blocked,
    same_queue s prev w t,
    tally-append t (s.queues w).list (prev ∷ []),
    tally_one t prev,
  )
    where
      same_queue :
          (s : Sched) (prev w t : ℕ)
          → tally t ((set_state s prev TaskState.blocked).queues w).list ≡ tally t (s.queues w).list
      same_queue s prev w t = unfold set_state in refl

  finish_switch-some :
      (s : Sched) (c prev : ℕ) (action : Action)
      → (s.cpus c).prev ≡ some (prev, action)
      → finish_switch s c ≡ settle (set_cpu s c (record (s.cpus c) { prev = none })) prev action
  unfolding finish_switch
  finish_switch-some s c prev action e = rw (e, finish_switch) refl

  on_cpu_prev :
      (s : Sched) (c t prev : ℕ) (action : Action)
      → (s.cpus c).prev ≡ some (prev, action)
      → on_cpu t (s.cpus c) ≡ on_cpu t (record (s.cpus c) { prev = none }) + one_if (t == prev)
  on_cpu_prev s c t prev action e = omega (arith, ap (tally_prev t) e)

  -- A change of a CPU leaves the lists and the tasks alone.
  same_named :
      (s : Sched) (c prev : ℕ) (cpu : PerCpu) (action : Action)
      → (if stays (set_cpu s c cpu) prev action
          then named action (set_cpu s c cpu)
          else named action (set_cpu s c cpu) ++ prev ∷ [])
        ≡ (if stays s prev action then named action s else named action s ++ prev ∷ [])
  unfolding set_cpu
  same_named s c prev cpu to_ready = refl
  same_named s c prev cpu to_sleep = refl
  same_named s c prev cpu to_zombie = refl
  same_named s c prev cpu (to_wait w) = refl

  settled :
      (s : Sched) (prev : ℕ) (action : Action)
      → (named action (settle s prev action)
          ≡ (if stays s prev action then named action s else named action s ++ prev ∷ []))
        × (((settle s prev action).tasks prev).state
            ≡ (if stays s prev action then (s.tasks prev).state else state_of action))
        × ((settle s prev action).cpus ≡ s.cpus)
  unfolding settle set_state set_queue push_ready update is_to_ready
  settled s prev to_ready = ground arith
  settled s prev to_sleep = ground arith
  settled s prev to_zombie = ground arith
  settled s prev (to_wait w) = ground arith

  -- On a CPU that exists, and for a wait queue that does if its action names one, `finish_switch` moves
  -- the task that the CPU has switched away from to the end of the list that the action names, in the
  -- state of that list; an idle task that would be ready is left alone. The CPU holds no such task any
  -- more, and every task that is not idle is in as many places as before.
  pub places-finish_switch :
      (s : Sched) (c prev t : ℕ) (action : Action)
      → c < max_cpus
      → (s.cpus c).prev ≡ some (prev, action)
      → ((w : ℕ) → action ≡ to_wait w → w < queue_count)
      → is_idle (s.tasks t) ≡ false
      → (named action (finish_switch s c)
          ≡ (if stays s prev action then named action s else named action s ++ prev ∷ []))
        × (((finish_switch s c).tasks prev).state
            ≡ (if stays s prev action then (s.tasks prev).state else state_of action))
        × (((finish_switch s c).cpus c).prev ≡ none)
        × (places queue_count (finish_switch s c) t ≡ places queue_count s t)
  places-finish_switch s c prev t action l e k h =
      let free = set_cpu s c (record (s.cpus c) { prev = none }) in
      let run = finish_switch-some s c prev action e in
      let (list, state, cpus) = settled free prev action in
      (
        ap (named action) run
            ∙ list
            ∙ same_named s c prev (record (s.cpus c) { prev = none }) action,
        ap (λ x. (x.tasks prev).state) run ∙ state ∙ unfold set_cpu in refl,
        ap (λ x. (x.cpus c).prev) run
            ∙ ap (λ x. (x c).prev) cpus
            ∙ unfold set_cpu update in ground arith,
        ap (λ x. places queue_count x t) run
            ∙ omega (
              arith,
              places-settle (set_cpu s c (record (s.cpus c) { prev = none })) prev t action
                  (unfold set_cpu in h) k,
              places-set_cpu s c t (record (s.cpus c) { prev = none }) l,
              on_cpu_prev s c t prev action e,
            ),
      )

  -- A list that a task is taken from, and the CPU that gets it.
  places-record_switch :
      (s : Sched) (c prev next t : ℕ) (action : Action)
      → c < max_cpus
      → (s.cpus c).prev ≡ none
      → (s.cpus c).current ≡ some prev
      → places queue_count (record_switch s c action prev next) t
        ≡ places queue_count s t + one_if (t == next)
  unfolding record_switch
  places-record_switch s c prev next t action l e k = omega (
    arith,
    places-set_cpu (set_state s next TaskState.running) c t
        (record (s.cpus c) { prev = some (prev, action); slice = time_slice; current = some next })
        l,
    places-set_state s next t TaskState.running,
    same_cpu s c next t,
    ap (tally_prev t) e,
    ap (tally_option t) k,
  )
    where
      same_cpu :
          (s : Sched) (c next t : ℕ)
          → on_cpu t ((set_state s next TaskState.running).cpus c) ≡ on_cpu t (s.cpus c)
      same_cpu s c next t = unfold set_state in refl

  -- A task that runs and is ready as well is in two places.
  current_le :
      (s : Sched) (c t : ℕ)
      → c < max_cpus
      → (s.cpus c).current ≡ some t
      → tally t s.ready_queue + 1 ≤ places queue_count s t
  unfolding places
  current_le s c t l e =
      let same : one_if (t == t) ≡ 1 = ground arith in
      omega (
        arith,
        sum_below-update max_cpus c s.cpus (on_cpu t)
            (record (s.cpus c) { current = none; prev = none }) l,
        ap (tally_option t) e,
        same,
      )

  ready_cons :
      (s : Sched) (next t : ℕ) (rest : List ℕ)
      → s.ready_queue ≡ next ∷ rest
      → places queue_count (record s { ready_queue = rest }) t + one_if (t == next)
        ≡ places queue_count s t
  unfolding places tally
  ready_cons s next t rest e = omega (arith, ap (tally t) e)

  -- What `switch_out` does once the next task is known.
  switch_to :
      (s picked s' : Sched) (c next : ℕ) (switches : Bool) (action : Action)
      → pick_next s c ≡ some (picked, next)
      → switch_out s c action ≡ some (s', switches)
      → (prev : ℕ) × ((picked.cpus c).current ≡ some prev)
        × (((prev ≡ next) × (s' ≡ picked)) ⊎ (s' ≡ record_switch picked c action prev next))
  unfolding switch_out
  switch_to s picked s' c next switches action e h = elim (Option-cases (picked.cpus c).current) [
    | inl z ↦ absurd (absurd_none (rw (e, z, switch_out) at h))
    | inr (prev, z) ↦ elim (Bool-cases (prev == next && is_to_ready action)) [
      | inl y ↦ (
        prev,
        z,
        inl (ground (arith, y), sym (ap (λ p. p.0) (some_eq (rw (e, z, y, switch_out) at h)))),
      )
      | inr y ↦ (prev, z, inr (sym (ap (λ p. p.0) (some_eq (rw (e, z, y, switch_out) at h)))))
    ]
  ]

  List-cases : (xs : List ℕ) → (xs ≡ []) ⊎ ((x : ℕ) × (rest : List ℕ) × (xs ≡ x ∷ rest))
  List-cases [] = inl refl
  List-cases (x ∷ xs) = inr (x, xs, refl)

  pick_next_cases :
      (s picked : Sched) (c next : ℕ)
      → pick_next s c ≡ some (picked, next)
      → ((rest : List ℕ) × (s.ready_queue ≡ next ∷ rest)
          × (picked ≡ record s { ready_queue = rest }))
        ⊎ (((s.cpus c).idle ≡ some next) × (picked ≡ s))
  unfolding pick_next
  pick_next_cases s picked c next h = elim (List-cases s.ready_queue) [
    | inr (x, rest, e) ↦
        let same = some_eq (rw (e, pick_next) at h) in
        inl (rest, e ∙ ap (λ p. p.1 ∷ rest) same, sym (ap (λ p. p.0) same))
    | inl e ↦ elim (Option-cases (s.cpus c).idle) [
      | inl z ↦ absurd (absurd_none (rw (e, z, pick_next) at h))
      | inr (i, z) ↦
          let same = some_eq (rw (e, z, pick_next) at h) in
          inr (z ∙ ap (λ p. some p.1) same, sym (ap (λ p. p.0) same))
    ]
  ]

  switch_out-none :
      (s : Sched) (c : ℕ) (action : Action) → pick_next s c ≡ none → switch_out s c action ≡ none
  unfolding switch_out
  switch_out-none s c action z = rw (z, switch_out) refl

  -- `schedule` up to the context switch loses and duplicates no task: on a CPU whose last switch is
  -- finished and whose idle task is one, each task that is not idle and was in at most one place is in as many places as before,
  -- whichever task is picked and whether or not the CPU switches.
  pub places-switch_out :
      (s s' : Sched) (c t : ℕ) (switches : Bool) (action : Action)
      → c < max_cpus
      → (s.cpus c).prev ≡ none
      → ((i : ℕ) → (s.cpus c).idle ≡ some i → is_idle (s.tasks i) ≡ true)
      → is_idle (s.tasks t) ≡ false
      → places queue_count s t ≤ 1
      → switch_out s c action ≡ some (s', switches)
      → places queue_count s' t ≡ places queue_count s t
  unfolding tally
  places-switch_out s s' c t switches action l p idle h once e =
      elim (Option-cases (pick_next s c)) [
        | inl z ↦ absurd (absurd_none (sym (switch_out-none s c action z) ∙ e))
        | inr ((picked, next), z) ↦
            let (prev, cur, way) = switch_to s picked s' c next switches action z e in
            elim (pick_next_cases s picked c next z) [
              | inl (rest, r, same) ↦
                  let taken = ap (λ x. places queue_count x t) same in
                  let less = ready_cons s next t rest r in
                  let cur_s : (s.cpus c).current ≡ some prev =
                    ap (λ x. (x.cpus c).current) (sym same) ∙ cur in
                  elim way [
                    | inr w ↦ omega (
                      arith,
                      ap (λ x. places queue_count x t) w,
                      taken,
                      less,
                      places-record_switch picked c prev next t action l
                          (ap (λ x. (x.cpus c).prev) same ∙ p) cur,
                    )
                    | inl (q, w) ↦ elim (ℕ_discrete t next) [
                      | yes k ↦ absurd (twice s c t prev next rest l cur_s q k r once)
                      | no k ↦
                          let other : one_if (t == next) ≡ 0 = ground (arith, k) in
                          omega (arith, ap (λ x. places queue_count x t) w, taken, less, other)
                    ]
                  ]
              | inr (i, same) ↦
                  let other = differs s next t (idle next i) h in
                  let taken = ap (λ x. places queue_count x t) same in
                  elim way [
                    | inr w ↦ omega (
                      arith,
                      ap (λ x. places queue_count x t) w,
                      taken,
                      other,
                      places-record_switch picked c prev next t action l
                          (ap (λ x. (x.cpus c).prev) same ∙ p) cur,
                    )
                    | inl (q, w) ↦ omega (arith, ap (λ x. places queue_count x t) w, taken)
                  ]
            ]
      ]
    where
      twice :
          (s : Sched) (c t prev next : ℕ) (rest : List ℕ)
          → c < max_cpus
          → (s.cpus c).current ≡ some prev
          → prev ≡ next
          → t ≡ next
          → s.ready_queue ≡ next ∷ rest
          → places queue_count s t ≤ 1
          → ⊥
      twice s c t prev next rest l cur q k r once =
          let here : (s.cpus c).current ≡ some t = cur ∙ ap some (q ∙ sym k) in
          let same : one_if (t == next) ≡ 1 = ground (arith, k) in
          omega (arith, current_le s c t l here, ap (tally t) r, same, once)

  -- Waking the first task of a queue loses and duplicates no task.
  pub places-wake_one :
      (s : Sched) (w t : ℕ)
      → w < queue_count
      → places queue_count (wake_one s w).0 t ≡ places queue_count s t
  unfolding wake_one tally
  places-wake_one s w t l = elim (List-cases (s.queues w).list) [
    | inl e ↦
        rw (e, wake_one)
          (omega
            (arith, places-set_queue s w t (record { list = []; lock = false }) l, ap (tally t) e))
    | inr (x, rest, e) ↦
        rw (e, wake_one)
          (omega (
            arith,
            places-make_ready (set_queue s w (record { list = rest; lock = false })) x t,
            places-set_queue s w t (record { list = rest; lock = false }) l,
            ap (tally t) e,
          ))
  ]

  places-make_all_ready :
      (s : Sched) (t : ℕ) (ts : List ℕ)
      → places queue_count (make_all_ready s ts) t ≡ places queue_count s t + tally t ts
  unfolding make_all_ready tally
  places-make_all_ready s t [] = omega arith
  places-make_all_ready s t (x ∷ xs) =
      omega (arith, places-make_all_ready (make_ready s x) t xs, places-make_ready s x t)

  -- Waking all tasks of a queue loses and duplicates no task: each is in as many places as before.
  pub places-wake_all :
      (s : Sched) (w t : ℕ)
      → w < queue_count
      → places queue_count (wake_all s w).0 t ≡ places queue_count s t
  unfolding wake_all tally
  places-wake_all s w t l = omega (
    arith,
    places-make_all_ready (set_queue s w (record { list = []; lock = false })) t (s.queues w).list,
    places-set_queue s w t (record { list = []; lock = false }) l,
  )

  places-woken :
      (s : Sched) (i x t : ℕ)
      → get_elem? s.sleepers i ≡ some x
      → places queue_count
          (push_ready
            (set_state (record s { sleepers = swap_remove s.sleepers i }) x TaskState.ready)
            x)
          t
        ≡ places queue_count s t
  unfolding push_ready set_state places
  places-woken s i x t e = omega (
    arith,
    tally-append t s.ready_queue (x ∷ []),
    tally_one t x,
    tally-swap_remove t i x s.sleepers e,
  )

  places-wake_due :
      (fuel : ℕ) (s : Sched) (now i t : ℕ)
      → places queue_count (wake_due fuel s now i) t ≡ places queue_count s t
  unfolding wake_due
  places-wake_due zero s now i t = refl
  places-wake_due (suc fuel) s now i t = elim (Option-cases (get_elem? s.sleepers i)) [
    | inl e ↦ rw (e, wake_due) refl
    | inr (x, e) ↦ elim (Bool-cases (leb (s.tasks x).wake_tick now)) [
      | inl z ↦
          rw (e, z, wake_due)
            (places-wake_due fuel
                (push_ready
                  (set_state (record s { sleepers = swap_remove s.sleepers i }) x TaskState.ready)
                  x)
                now i t
              ∙ places-woken s i x t e)
      | inr z ↦ rw (e, z, wake_due) (places-wake_due fuel s now (suc i) t)
    ]
  ]

  -- A tick of the timer loses and duplicates no task: each is in as many places as before.
  pub places-timer_tick :
      (s : Sched) (c now t : ℕ)
      → c < max_cpus
      → places queue_count (timer_tick s c now) t ≡ places queue_count s t
  unfolding timer_tick
  places-timer_tick s c now t l = elim (Bool-cases (not s.sched_ready)) [
    | inl e ↦ rw (e, timer_tick) refl
    | inr e ↦
        let woken = wake_due (length s.sleepers) s now 0 in
        rw (e, timer_tick)
          (omega (
            arith,
            places-set_cpu woken c t (record (woken.cpus c) { slice = (woken.cpus c).slice - 1 }) l,
            places-wake_due (length s.sleepers) s now 0 t,
          ))
  ]
