-- ===== src/Sched.antt =====
-- base/kor-sched/src/lib.rs: the scheduler. A task handle and a wait queue pointer are numbers. A context
-- switch hands the CPU to the incoming task, whose next code is `finish_switch`, whether it was switched
-- away from before or starts in `task_bootstrap`; so `schedule` is two steps, `switch_out` and
-- `finish_switch`, and other CPUs may run in between. A critical section under a lock is one step. Saved
-- contexts, stacks and page tables belong to the architecture and are left out.
pub mod Places
pub mod Keeps
pub mod Timer
mod Tests
use koros.Base.{
  ℕ, zero, suc, ◌+◌, ◌-◌, ◌*◌, ◌/◌, ◌==◌, max, Bool, true, false, not, ◌&&◌, ltb, leb,
  if◌then◌else◌, List, [], ◌∷◌, ◌++◌, Option, none, some, length, get_elem?, get_or, set, take,
}

abbrev pub max_cpus : ℕ
max_cpus = 8

abbrev pub time_slice : ℕ
time_slice = 5

pub data TaskState : Type 0 where
  ready running sleeping exited blocked : TaskState

pub record Task : Type 0 where
  pub id : ℕ
  pub state : TaskState
  pub wake_tick : ℕ

-- The action of a deferred transition; `to_wait` carries its queue.
pub data Action : Type 0 where
  to_ready to_sleep to_zombie : Action
  to_wait : ℕ → Action

pub record PerCpu : Type 0 where
  pub current : Option ℕ
  pub idle : Option ℕ
  pub prev : Option (ℕ × Action)
  pub slice : ℕ

pub record WaitQueue : Type 0 where
  pub lock : Bool
  pub list : List ℕ

pub record Sched : Type 0 where
  pub tasks : ℕ → Task
  pub next_task : ℕ
  pub next_id : ℕ
  pub cpus : ℕ → PerCpu
  pub queues : ℕ → WaitQueue
  pub ready_queue : List ℕ
  pub sleepers : List ℕ
  pub zombies : List ℕ
  pub sched_ready : Bool

pub update {ℓ} : {A : Type ℓ} → (ℕ → A) → ℕ → A → ℕ → A
update f i x j = if i == j then x else f j

pub set_state : Sched → ℕ → TaskState → Sched
unfolding update
set_state s t state = record s { tasks = update s.tasks t (record (s.tasks t) { state = state }) }

pub set_cpu : Sched → ℕ → PerCpu → Sched
unfolding update
set_cpu s c cpu = record s { cpus = update s.cpus c cpu }

pub set_queue : Sched → ℕ → WaitQueue → Sched
unfolding update
set_queue s w queue = record s { queues = update s.queues w queue }

pub is_idle : Task → Bool
is_idle task = task.id == 0

pub push_ready : Sched → ℕ → Sched
push_ready s t = record s { ready_queue = s.ready_queue ++ t ∷ [] }

-- A new task is ready from the start; `configure` is outside.
pub spawn : Sched → Sched × ℕ
unfolding update
spawn s =
    let made = record s {
      tasks = update s.tasks s.next_task (record { id = s.next_id; state = ready; wake_tick = 0 });
      next_task = suc s.next_task;
      next_id = suc s.next_id;
    } in
    (push_ready made s.next_task, s.next_id)

-- `none` is the failure of `expect("no idle task")`.
pub pick_next : Sched → ℕ → Option (Sched × ℕ)
pick_next s c = elim s.ready_queue [
  | next ∷ rest ↦ some (record s { ready_queue = rest }, next)
  | [] ↦ elim (s.cpus c).idle [ none ↦ none | some idle ↦ some (s, idle) ]
]

pub is_to_ready : Action → Bool
is_to_ready to_ready = true
is_to_ready _ = false

-- The stores of `schedule` up to the context switch.
pub record_switch : Sched → ℕ → Action → ℕ → ℕ → Sched
record_switch s c action prev next =
    set_cpu (set_state s next running) c
      (record (s.cpus c) { prev = some (prev, action); slice = time_slice; current = some next })

-- `schedule` up to the context switch. The Boolean tells whether it switches.
pub switch_out : Sched → ℕ → Action → Option (Sched × Bool)
switch_out s c action = elim (pick_next s c) [
  | none ↦ none
  | some (picked, next) ↦ elim (picked.cpus c).current [
    | none ↦ none
    | some prev ↦
        if prev == next && is_to_ready action
        then some (picked, false)
        else some (record_switch picked c action prev next, true)
  ]
]

-- The arms of `finish_switch`, once `prev` is taken.
pub settle : Sched → ℕ → Action → Sched
settle s prev to_ready =
    if is_idle (s.tasks prev) then s else push_ready (set_state s prev ready) prev
settle s prev to_sleep =
    let slept = set_state s prev sleeping in record slept { sleepers = slept.sleepers ++ prev ∷ [] }
settle s prev to_zombie =
    let dead = set_state s prev exited in record dead { zombies = dead.zombies ++ prev ∷ [] }
settle s prev (to_wait w) =
    set_queue (set_state s prev blocked) w
      (record { list = (s.queues w).list ++ prev ∷ []; lock = false })

pub finish_switch : Sched → ℕ → Sched
finish_switch s c = elim (s.cpus c).prev [
  | none ↦ s
  | some (prev, action) ↦ settle (set_cpu s c (record (s.cpus c) { prev = none })) prev action
]

pub make_ready : Sched → ℕ → Sched
make_ready s t = push_ready (set_state s t ready) t

-- `lock` is taken and given back within the step.
pub wake_one : Sched → ℕ → Sched × Bool
wake_one s w = elim (s.queues w).list [
  | [] ↦ (set_queue s w (record { list = []; lock = false }), false)
  | t ∷ rest ↦ (make_ready (set_queue s w (record { list = rest; lock = false })) t, true)
]

pub make_all_ready : Sched → List ℕ → Sched
make_all_ready s [] = s
make_all_ready s (t ∷ ts) = make_all_ready (make_ready s t) ts

pub wake_all : Sched → ℕ → Sched × ℕ
wake_all s w = (
  make_all_ready (set_queue s w (record { list = []; lock = false })) (s.queues w).list,
  length (s.queues w).list,
)

pub reap : Sched → Sched
reap s = record s { zombies = [] }

-- `Vec::swap_remove`, for an index in range: the last element takes the place.
pub swap_remove : List ℕ → ℕ → List ℕ
swap_remove xs i = take (length xs - 1) (set xs i (get_or xs (length xs - 1) 0))

-- The loop of `timer_tick` over the sleepers, on fuel.
pub wake_due : ℕ → Sched → ℕ → ℕ → Sched
wake_due zero s now i = s
wake_due (suc fuel) s now i = elim (get_elem? s.sleepers i) [
  | none ↦ s
  | some t ↦
      let woken =
        wake_due fuel
          (push_ready (set_state (record s { sleepers = swap_remove s.sleepers i }) t ready) t) now
          i in
      let later = wake_due fuel s now (suc i) in
      if leb (s.tasks t).wake_tick now then woken else later
]

-- Each turn removes a sleeper or passes one.
pub timer_tick : Sched → ℕ → ℕ → Sched
timer_tick s c now =
    if not s.sched_ready
    then s
    else let woken = wake_due (length s.sleepers) s now 0 in
      set_cpu woken c (record (woken.cpus c) { slice = (woken.cpus c).slice - 1 })

-- `preempt`: whether the slice is used up, and the store. `yield_now` follows.
pub preempt : Sched → ℕ → Sched × Bool
preempt s c =
    if not s.sched_ready
    then (s, false)
    else if (s.cpus c).slice == 0
    then (set_cpu s c (record (s.cpus c) { slice = time_slice }), true)
    else (s, false)

-- `sleep`: the tick to wake at, and its store before the switch.
pub wake_at : ℕ → ℕ → ℕ → ℕ
wake_at now ms tick_hz = now + max (ms * tick_hz / 1000) 1

pub start_sleep : Sched → ℕ → ℕ → Option Sched
unfolding update
start_sleep s c wake = elim (s.cpus c).current [
  | none ↦ none
  | some t ↦ some (record s { tasks = update s.tasks t (record (s.tasks t) { wake_tick = wake }) })
]

-- A semaphore: its queue and its count, which does not fall below 0 once it starts there.
pub record Semaphore : Type 0 where
  pub wq : ℕ
  pub count : ℕ

-- One turn of the loop of `wait` on CPU `c`: it takes a token, or it holds the queue's lock and switches
-- away, to be tried again after a wake. The Boolean tells whether it has the token.
pub wait_turn : Sched → Semaphore → ℕ → Option (Sched × Semaphore × Bool)
wait_turn s sem c =
    if ltb 0 sem.count
    then some (s, record sem { count = sem.count - 1 }, true)
    else (elim (switch_out (set_queue s sem.wq (record (s.queues sem.wq) { lock = true })) c
        (to_wait sem.wq)) [ none ↦ none | some (after, switched) ↦ some (after, sem, false) ])

pub post : Sched → Semaphore → Sched × Semaphore
post s sem = ((wake_one s sem.wq).0, record sem { count = suc sem.count })

-- `yield_now` and a turn of the loop of `exit`, up to the context switch.
pub yield_now : Sched → ℕ → Option (Sched × Bool)
yield_now s c = switch_out s c to_ready

pub exit_turn : Sched → ℕ → Option (Sched × Bool)
exit_turn s c = switch_out s c to_zombie

-- `raw_lock`, once the lock is free.
pub raw_lock : Sched → ℕ → Sched
raw_lock s w = set_queue s w (record (s.queues w) { lock = true })

pub raw_unlock : Sched → ℕ → Sched
raw_unlock s w = set_queue s w (record (s.queues w) { lock = false })

-- `wait`, up to the context switch, with the queue's lock held.
pub wait : Sched → ℕ → ℕ → Option (Sched × Bool)
wait s w c = switch_out (raw_lock s w) c (to_wait w)

-- The answer of the predicate is an argument; the Boolean tells whether the task blocks.
pub wait_if : Sched → ℕ → ℕ → Bool → Option (Sched × Bool)
wait_if s w c should_wait =
    let blocked_state = wait s w c in
    if should_wait
    then (elim blocked_state [ none ↦ none | some (after, switches) ↦ some (after, true) ])
    else some (raw_unlock (raw_lock s w) w, false)
