-- ===== src/Sched.antt =====
-- sched/sched.c and kernel/syscall.c: the tasks, the scheduler and the system calls. A call of
-- `arch_thread_switch` saves where the task stands in the kernel, here its `resume`, and a handler
-- ends there; the rest of the handler is a function of its own. `none` is a panic of an assertion,
-- an access behind the array of tasks, or one through NULL.
pub mod Timer
pub mod Exit
pub mod Init
pub mod Setup
pub mod Rounds
mod Tests
use heaven_os.Prelude.{
  ℕ, zero, suc, ◌+◌, ◌*◌, ◌/◌, ◌%◌, ◌^◌, bit_and, Bool, true, false, ltb, leb, ◌==◌, ◌&&◌, ◌||◌,
  not, if◌then◌else◌, update, Option, none, some, List, [], ◌∷◌,
}
use heaven_os.FrameAlloc.{kassert, ◌>>=◌, ◌>>◌}
use heaven_os.Vmem.{Area, vmem_is_mapped, vmem_user, vmem_write}

abbrev pub max_task_count : ℕ
max_task_count = 65536

abbrev pub preempt_ticks : ℕ
preempt_ticks = 10

abbrev pub sched_timer_period : ℕ
sched_timer_period = 10

-- `enum state`
abbrev pub task_not_allocated : ℕ
task_not_allocated = 0

abbrev pub task_runnable : ℕ
task_runnable = 1

abbrev pub task_waiting : ℕ
task_waiting = 2

abbrev pub task_zombie : ℕ
task_zombie = 3

abbrev pub task_sleeping : ℕ
task_sleeping = 4

-- Where the thread of a task goes on: in user mode, or behind the `sched_switch` of `sys_sleep`,
-- of `sched_timer_tick`, of `sys_exit`, or of `sys_wait` for a child and with a pointer to its status.
pub data Resume : Type 0 where
  in_user : Resume
  in_sleep : Resume
  in_tick : Resume
  in_exit : Resume
  in_wait : ℕ → ℕ → Resume

pub record Task : Type 0 where
  pub pid : ℕ
  pub ppid : ℕ
  pub wait_pid : ℕ
  pub state : ℕ
  pub preempt_deadline : ℕ
  pub sleep_until : ℕ
  pub exitcode : ℕ
  pub areas : List Area
  pub resume : Resume

-- `ints` is the user memory: of a task, the int at an address.
pub record Kernel : Type 0 where
  pub sched_timer : ℕ
  pub current : Option ℕ
  pub tasks : ℕ → Task
  pub ints : ℕ → ℕ → ℕ

pub data Errno : Type 0 where
  enosys : Errno
  enomem : Errno
  einval : Errno
  echild : Errno

-- How a system call leaves the handler: with a value, an error, or by `sched_switch`.
pub data Answer : Type 0 where
  value : ℕ → Answer
  error : Errno → Answer
  switched : Answer

abbrev pub set_task : ℕ → Task → Kernel → Kernel
set_task p task k = record k { tasks = update k.tasks p task }

-- `tasks[pid]`
abbrev pub task_at : ℕ → Kernel → Option Task
task_at p k = if ltb p max_task_count then some (k.tasks p) else none

-- The loop of `sched_allocate_task`: it reads the state of a task before it compares its number.
pub find_free : ℕ → ℕ → Kernel → Option ℕ
find_free zero pid k = none
find_free (suc left) pid k =
    let rest = find_free left (pid + 1) k in
    do
      task ← task_at pid k
      if not (task.state == task_not_allocated) && ltb pid max_task_count then rest else some pid

pub sched_allocate_task : Kernel → Option (Option ℕ × Kernel)
sched_allocate_task k = do
  pid ← find_free (max_task_count + 1) 1 k
  if pid == max_task_count
      then some (none, k)
      else some (some pid, set_task pid (record (k.tasks pid) { pid = pid }) k)

-- `sched_switch_to`; the address space and the thread are those of the task.
pub sched_switch_to : ℕ → Kernel → Kernel
sched_switch_to p k =
    record (set_task p
      (record (k.tasks p) { preempt_deadline = (k.sched_timer + preempt_ticks) % 2 ^ 64 }) k) {
        current = some p;
      }

-- `sched_switch`, for a thread that goes on at `r`
pub sched_switch : Resume → Kernel → Option Kernel
sched_switch r k = do
  p ← k.current
  some (record (set_task p (record (k.tasks p) { resume = r }) k) { current = none })

-- The first lines of the body of the scheduler's loop.
pub sched_wake : ℕ → Kernel → Kernel
sched_wake p k =
    if ((k.tasks p).state == task_sleeping) && leb (k.tasks p).sleep_until k.sched_timer
    then set_task p (record (k.tasks p) { state = task_runnable }) k
    else k

-- The body of the scheduler's loop up to the switch.
pub sched_visit : ℕ → Kernel → Kernel
sched_visit p k =
    let k' = sched_wake p k in
    if (k'.tasks p).state == task_runnable then sched_switch_to p k' else k'

-- The body of the loop after the switch: a zombie's address space is destroyed.
pub sched_clean : ℕ → Kernel → Kernel
sched_clean p k =
    if (k.tasks p).state == task_zombie then set_task p (record (k.tasks p) { areas = [] }) k else k

-- `sched_timer_tick` of the task `p`, after the timer was counted up
pub preempt : ℕ → Kernel → Option Kernel
preempt p k =
    if leb k.sched_timer (k.tasks p).preempt_deadline then sched_switch in_tick k else some k

pub sched_timer_tick : Kernel → Option Kernel
sched_timer_tick k =
    let k' = record k { sched_timer = (k.sched_timer + 1) % 2 ^ 64 } in
    elim k.current [ none ↦ some k' | some p ↦ preempt p k' ]

pub sys_sleep : ℕ → Kernel → Option (Answer × Kernel)
sys_sleep ms k = do
  p ← k.current
  k ← sched_switch in_sleep (
      set_task p
        (record (k.tasks p) {
          sleep_until = (k.sched_timer + ms / sched_timer_period) % 2 ^ 64;
          state = task_sleeping;
        })
        k)
  some (switched, k)

pub sys_getpid : Kernel → Option (Answer × Kernel)
sys_getpid k = do p ← k.current; some (value (k.tasks p).pid, k)

-- The child that `sys_fork` has made; its thread starts in user mode.
pub start_child : ℕ → ℕ → Kernel → Kernel
start_child p c k =
    set_task c
      (record (k.tasks c) {
        areas = (k.tasks p).areas;
        resume = in_user;
        ppid = (k.tasks p).pid;
        state = task_runnable;
      })
      k

-- `sys_fork`, where `cloned` and `threaded` are the error of `vmem_clone` and of
-- `arch_thread_clone_current`, if any.
pub sys_fork : Option Errno → Option Errno → Kernel → Option (Answer × Kernel)
sys_fork cloned threaded k = do
  p ← k.current
  (child, k) ← sched_allocate_task k
  c ← child
  elim cloned [
    | some e ↦ some (error e, k)
    | none ↦ elim threaded [
      | some e ↦ some (error e, k)
      | none ↦ some (value (k.tasks c).pid, start_child p c k)
    ]
  ]

-- The parent of an exiting task is made runnable if it waits for it.
pub notify_parent : ℕ → Kernel → Kernel
notify_parent p k =
    let parent = (k.tasks p).ppid in
    if ((k.tasks parent).state == task_waiting) && ((k.tasks parent).wait_pid == (k.tasks p).pid)
    then set_task parent (record (k.tasks parent) { state = task_runnable }) k
    else k

-- The first lines of `sys_exit` of the task `p`.
abbrev pub mark_zombie : ℕ → ℕ → Kernel → Kernel
mark_zombie code p k =
    set_task p (record (k.tasks p) { exitcode = code % 2 ^ 32; state = task_zombie }) k

-- `sys_exit` up to its `sched_switch`, behind which it panics, when no interrupt arrives in it
pub sys_exit : ℕ → Kernel → Option (Answer × Kernel)
sys_exit code k = do
  p ← k.current
  k ← sched_switch in_exit (notify_parent p (mark_zombie code p k))
  some (switched, k)

-- The last lines of `sys_wait`: the child's entry is freed.
pub free_entry : ℕ → Kernel → Kernel
free_entry child k = set_task child (record (k.tasks child) { state = task_not_allocated }) k

-- `sys_wait` from where the child is a zombie on
pub finish_wait : ℕ → ℕ → ℕ → Kernel → Option (Answer × Kernel)
finish_wait p child status k =
    if status == 0
    then some (value 0, free_entry child k)
    else elim (vmem_is_mapped (k.tasks p).areas status) [
      | none ↦ some (error einval, k)
      | some area ↦
          if bit_and area.flags (vmem_user + vmem_write) == 0
          then some (error einval, k)
          else some (
            value 0,
            free_entry child (record k {
              ints = update k.ints p (update (k.ints p) status (k.tasks child).exitcode);
            }),
          )
    ]

-- `sys_wait` of the task `p` for an entry of the array
pub wait_for : ℕ → ℕ → ℕ → Kernel → Option (Answer × Kernel)
wait_for p child status k = elim ((k.tasks child).ppid == (k.tasks p).pid) [
  | false ↦ some (error echild, k)
  | true ↦ elim ((k.tasks child).state == task_zombie) [
    | false ↦ do
      k ←
          sched_switch (in_wait child status)
            (set_task p (record (k.tasks p) { state = task_waiting; wait_pid = child }) k)
      some (switched, k)
    | true ↦ finish_wait p child status k
  ]
]

pub sys_wait : ℕ → ℕ → Kernel → Option (Answer × Kernel)
sys_wait child status k = do
  p ← k.current
  kassert (ltb child max_task_count)
  wait_for p child status k

-- The system calls by number, with their arguments.
pub do_syscall : ℕ → ℕ → ℕ → Option Errno → Option Errno → Kernel → Option (Answer × Kernel)
do_syscall sysno arg0 arg1 cloned threaded k =
    if leb 5 sysno
    then some (error enosys, k)
    else if sysno == 0
    then sys_sleep arg0 k
    else if sysno == 1
    then sys_fork cloned threaded k
    else if sysno == 2
    then sys_getpid k
    else if sysno == 3
    then sys_exit arg0 k
    else sys_wait arg0 arg1 k

-- What the task `p` does where `sched_switch` returned to it.
pub continue_at : Resume → ℕ → Kernel → Option (Answer × Kernel)
continue_at in_user p k = some (value 0, k)
continue_at in_sleep p k = some (value 0, set_task p (record (k.tasks p) { resume = in_user }) k)
continue_at in_tick p k = some (value 0, set_task p (record (k.tasks p) { resume = in_user }) k)
continue_at in_exit p k = none
continue_at (in_wait child status) p k = do
  kassert ((k.tasks child).state == task_zombie)
  finish_wait p child status (set_task p (record (k.tasks p) { resume = in_user }) k)

pub go_on : Kernel → Option (Answer × Kernel)
go_on k = do p ← k.current; continue_at (k.tasks p).resume p k
