-- ===== src/Sched/Tests.antt =====
-- Two tasks, 1 and 2, and the idle task 0 of CPU 0.
use koros.Base.{
  ◌++◌, ℕ, [], ◌∷◌, none, some, some_eq, ◌≡◌, refl, true, false, if◌then◌else◌, ◌==◌, ◌≤◌, ◌<◌,
  arith, ap, subst, get_elem?,
}
use koros.Sched.{
  Sched, Task, TaskState, PerCpu, Action, to_wait, is_idle, pick_next, is_to_ready, record_switch,
  switch_out, set_cpu, set_state, update, finish_switch, timer_tick, wake_due, wake_all, push_ready,
  swap_remove,
}
use koros.Sched.Places.{places, tally, sum_below}
use koros.Sched.Keeps.{
  named, stays, state_of, places-switch_out, places-finish_switch, places-wake_all,
  places-timer_tick,
}
use koros.Sched.Timer.{timer_tick_wakes}

-- CPU 0 runs task 1; task 2 is ready; task 3 sleeps until 10 and task 4 until 30.
abbrev task : ℕ → Task
task t = record { id = t; state = TaskState.ready; wake_tick = if t == 3 then 10 else 30 }

abbrev cpu : ℕ → PerCpu
cpu c = record { current = if c == 0 then some 1 else none; idle = some 0; prev = none; slice = 5 }

abbrev start : Sched
start = record {
  tasks = task;
  next_task = 5;
  next_id = 5;
  cpus = cpu;
  queues = λ w. record { lock = false; list = [] };
  ready_queue = 2 ∷ [];
  sleepers = 3 ∷ 4 ∷ [];
  zombies = [];
  sched_ready = true;
}

abbrev switched : Sched
switched = record_switch (record start { ready_queue = [] }) 0 (to_wait 0) 1 2

switches : switch_out start 0 (to_wait 0) ≡ some (switched, true)
unfolding switch_out pick_next is_to_ready
switches = refl

idle_is : (i : ℕ) → (start.cpus 0).idle ≡ some i → is_idle (start.tasks i) ≡ true
unfolding is_idle
idle_is i e = subst (λ k. (k == 0) ≡ true) (some_eq e) refl

busy : is_idle (start.tasks 1) ≡ false
unfolding is_idle
busy = refl

once : places 1 start 1 ≤ 1
unfolding places tally sum_below
once = omega arith

places-switch_out_example : places 1 switched 1 ≡ places 1 start 1
places-switch_out_example =
    places-switch_out 1 start switched 0 1 true (to_wait 0) (omega arith) refl idle_is busy once
      switches

waiting : (switched.cpus 0).prev ≡ some (1, to_wait 0)
unfolding record_switch set_cpu update
waiting = refl

to_wait_zero : (w : ℕ) → to_wait 0 ≡ to_wait w → w < 1
to_wait_zero w e = subst (λ k. k < 1) (ap queue_of e) (omega arith)
  where
    queue_of : Action → ℕ
    queue_of (to_wait w) = w
    queue_of _ = 0

busy_switched : is_idle (switched.tasks 1) ≡ false
unfolding is_idle record_switch set_cpu set_state update
busy_switched = refl

places-finish_switch_example :
    (named (to_wait 0) (finish_switch switched 0) ≡ (
      if stays switched 1 (to_wait 0)
      then named (to_wait 0) switched
      else named (to_wait 0) switched ++ 1 ∷ []))
    × (((finish_switch switched 0).tasks 1).state
        ≡ (if stays switched 1 (to_wait 0) then (switched.tasks 1).state else state_of (to_wait 0)))
    × (((finish_switch switched 0).cpus 0).prev ≡ none)
    × (places 1 (finish_switch switched 0) 1 ≡ places 1 switched 1)
places-finish_switch_example =
    places-finish_switch 1 switched 0 1 1 (to_wait 0) (omega arith) waiting to_wait_zero
      busy_switched

places-timer_tick_run : places 1 (timer_tick start 0 20) 3 ≡ places 1 start 3
places-timer_tick_run = places-timer_tick 1 start 0 20 3 (omega arith)

places-wake_all_run :
    places 1 (wake_all (finish_switch switched 0) 0).0 1 ≡ places 1 (finish_switch switched 0) 1
places-wake_all_run = places-wake_all 1 (finish_switch switched 0) 0 1 (omega arith)

still_asleep : get_elem? (timer_tick start 0 20).sleepers 0 ≡ some 4
unfolding timer_tick wake_due set_cpu push_ready set_state swap_remove
still_asleep = refl

timer_tick_wakes_example : 20 < ((timer_tick start 0 20).tasks 4).wake_tick
timer_tick_wakes_example = timer_tick_wakes start 0 20 0 4 refl still_asleep
