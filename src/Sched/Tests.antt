-- ===== src/Sched/Tests.antt =====
-- The theorems of the scheduler where the initial task runs, and where it waits for a child.
use heaven_os.Prelude.{
  ℕ, ◌+◌, ◌<◌, ◌≡◌, ◌≢◌, refl, arith, [], get_elem?, inl, none, some, ◌==◌, if◌then◌else◌,
}
use heaven_os.Vmem.Tables.{Machine, okay}
use heaven_os.Sched.Init.{map_memory, map_kernel}
use heaven_os.Sched.Setup.{init_task}
use heaven_os.Sched.Rounds.{KeepsReady, sched_pass, sched_pass-IsReady}
use heaven_os.Sched.{
  Kernel, Task, switched, mark_zombie, sys_exit, sched_visit, sched_switch_to, sched_timer_tick,
  task_runnable, task_waiting, task_zombie,
}
use heaven_os.Sched.Exit.{sys_exit-sched_timer_tick}
use heaven_os.Sched.Timer.{sched_timer_tick-sched_switch_to}

abbrev booted : Kernel
booted = record { sched_timer = 5; current = none; tasks = init_task; ints = λ p a. 0 }

-- Task 1 runs behind its deadline.
abbrev overdue : Kernel
overdue = record booted { current = some 1 }

sched_timer_tick-sched_switch_to_example :
    (k : Kernel) × (sched_timer_tick (sched_switch_to 1 booted) ≡ some k)
    × (k.current ≡ none)
    × (k.sched_timer ≡ booted.sched_timer + 1)
    × ((k.tasks 1).state ≡ (booted.tasks 1).state)
    × (k.sched_timer < (k.tasks 1).preempt_deadline)
sched_timer_tick-sched_switch_to_example = sched_timer_tick-sched_switch_to 1 booted (omega arith)

-- Task 1 waits for task 2, which runs up to tick 15.
abbrev family : ℕ → Task
family p =
    if p == 1
    then record (init_task 1) { state = task_waiting; wait_pid = 2 }
    else if p == 2
    then record (init_task 2) { pid = 2; ppid = 1; state = task_runnable; preempt_deadline = 15 }
    else init_task p

abbrev child_runs : Kernel
child_runs = record { sched_timer = 5; current = some 2; tasks = family; ints = λ p a. 0 }

sys_exit-sched_timer_tick_example :
    ((k' : Kernel) × (sys_exit 7 child_runs ≡ some (switched, k'))
      × ((k'.tasks 1).state ≡ task_runnable))
    × ((k' : Kernel) × (sched_timer_tick (mark_zombie 7 2 child_runs) ≡ some k')
        × (k'.current ≡ none)
        × ((k'.tasks 2).state ≡ task_zombie)
        × ((k'.tasks 1).state ≡ task_waiting)
        × ((i : ℕ) → ((sched_visit i k').current ≢ some 2) × ((sched_visit i k').current ≢ some 1)))
sys_exit-sched_timer_tick_example =
    sys_exit-sched_timer_tick 7 2 1 child_runs refl refl (omega arith) refl refl (omega arith)

abbrev nowhere : Machine
nowhere = record { word = λ a. 0; frames = []; freed = []; objects = 0 }

-- Every task switches back at once.
abbrev yield_at_once : Kernel → Kernel
yield_at_once k = record k { current = none }

yield-KeepsReady : KeepsReady 1 yield_at_once
yield-KeepsReady q k other here ready = ready

sched_pass-IsReady_example :
    (j : ℕ) × (get_elem? (sched_pass yield_at_once 65536 0 booted).0 j ≡ some 1)
sched_pass-IsReady_example =
    sched_pass-IsReady yield_at_once 1 booted (omega arith) yield-KeepsReady (inl refl)

-- No memory and no kernel take no entry.
map_none : map_memory 0 4096 0 0 nowhere ≡ some (okay, nowhere)
unfolding map_memory
map_none = refl

map_no_kernel : map_kernel 1 4096 100 0 100 nowhere ≡ some (okay, nowhere)
unfolding map_kernel
map_no_kernel = refl
