-- ===== src/Sched/Setup.antt =====
-- `setup_init_task` of sched/sched.c makes the state in which the scheduler enters its loop.
use heaven_os.Prelude.{
  ℕ, suc, ◌+◌, ◌≡◌, ◌==◌, inl, inr, false, refl, sym, ap, ◌∙◌, subst, if◌then◌else◌, List, ◌∷◌,
  arith, Option, none, some, [], Bool-cases, Option-cases, not, ℕ_discrete, some_injective,
}
use heaven_os.FrameAlloc.{bind-eq-some, kassert-eq-some}
use heaven_os.Vmem.{Area, vmem_user, vmem_write, vmem_intersects}
use heaven_os.Vmem.Tables.{Machine, Status, okay, enomem}
use heaven_os.Vmem.Space.{Space, vmem_init, vmem_alloc_pages, take_object, frame_alloc_from}
use heaven_os.Sched.{
  Kernel, Task, Errno, in_user, sched_allocate_task, find_free, set_task, task_runnable,
  max_task_count, task_not_allocated,
}
use heaven_os.Sched.Init.{
  Image, done, setup_vmem, setup_stack, setup_tables, finish_setup, setup_init_task,
}

-- The stack in user space, that `setup_init_task` gives to the initial task.
abbrev pub init_areas : List Area
init_areas = record { start = 0x70000000; size = 4; flags = vmem_user + vmem_write } ∷ []

-- The state in which `sched_start` enters its loop: task 1 is the initial one.
abbrev pub init_task : ℕ → Task
init_task p = record {
  pid = if p == 1 then 1 else 0;
  ppid = 0;
  wait_pid = 0;
  state = if p == 1 then task_runnable else task_not_allocated;
  preempt_deadline = 0;
  sleep_until = 0;
  exitcode = 0;
  areas = if p == 1 then init_areas else [];
  resume = in_user;
}

-- An entry of the array before anything has run.
abbrev pub zero_task : Task
zero_task = record {
  pid = 0;
  ppid = 0;
  wait_pid = 0;
  state = 0;
  preempt_deadline = 0;
  sleep_until = 0;
  exitcode = 0;
  areas = [];
  resume = in_user;
}

alloc-areas :
    (vm vm' : Space) (m m' : Machine)
    → vm.areas ≡ []
    → vmem_alloc_pages 0x70000000 4 3 vm m ≡ some (okay, (vm', m'))
    → vm'.areas ≡ init_areas
unfolding vmem_alloc_pages
alloc-areas vm vm' m m' empty e =
    let rest = (kassert-eq-some (not (vmem_intersects vm.areas 0x70000000 4)) e).1 in
    elim (Option-cases (take_object m)) [
      | inl gone ↦ let failed = rw gone at rest in cc
      | inr (m1, taken) ↦
          let made = rw (taken, empty) at rest in
          let same : vm' ≡ record { pml4 = vm.pml4; areas = init_areas } = cc in
          ap (λ (v : Space). v.areas) same
    ]

init-areas :
    (vm vm' : Space) (m m' : Machine) → vmem_init vm m ≡ some (okay, (vm', m')) → vm'.areas ≡ []
init-areas vm vm' m m' e = elim (Bool-cases ((frame_alloc_from m).0 == 0)) [
  | inl null ↦ let failed = rw null at e in cc
  | inr frame ↦ elim (Option-cases (take_object (frame_alloc_from m).1)) [
    | inl gone ↦ let failed = rw (frame, gone) at e in cc
    | inr (m1, taken) ↦
        let made = rw (frame, taken) at e in
        let same : vm' ≡ record { pml4 = (frame_alloc_from m).0; areas = [] } = cc in
        ap (λ (v : Space). v.areas) same
  ]
]

stack-areas :
    (vm vm' : Space) (made : Status × Machine) (m' : Machine)
    → vm.areas ≡ []
    → setup_stack vm made ≡ some (okay, (vm', m'))
    → vm'.areas ≡ init_areas
stack-areas vm vm' (okay, m) m' empty e = alloc-areas vm vm' m m' empty e
stack-areas vm vm' (enomem, m) m' empty e = cc

tables-areas :
    (fuel : ℕ) (image : Image) (vm vm' : Space) (m m' : Machine) (made : Status × (Space × Machine))
    → vmem_init vm m ≡ some made
    → setup_tables fuel image made ≡ some (okay, (vm', m'))
    → vm'.areas ≡ init_areas
tables-areas fuel image vm vm' m m' (okay, (vm1, m1)) init e =
    let (mapped, ran, rest) = bind-eq-some (setup_vmem fuel image vm1.pml4 m1) e in
    stack-areas vm1 vm' mapped m' (init-areas vm vm1 m m1 init) rest
tables-areas fuel image vm vm' m m' (enomem, made) init e = cc

-- What `setup_init_task` returns without an error was set up.
finish-eq :
    (thread : Option Errno) (p : ℕ) (k : Kernel) (made : Status × (Space × Machine)) (vm' : Space)
    (k' : Kernel) (m' : Machine)
    → finish_setup thread p k made ≡ done none vm' k' m'
    → (made ≡ (okay, (vm', m')))
      × (k' ≡ set_task p (record (k.tasks p) { areas = vm'.areas; state = task_runnable }) k)
finish-eq thread p k (okay, (vm, m)) vm' k' m' e = (cc, cc)
finish-eq thread p k (enomem, (vm, m)) vm' k' m' e = cc

first-free : (left : ℕ) (k : Kernel) → (k.tasks 1).state ≡ 0 → find_free (suc left) 1 k ≡ some 1
unfolding find_free
first-free left k free = rw free refl

allocate-first :
    (k : Kernel)
    → (k.tasks 1).state ≡ 0
    → sched_allocate_task k ≡ some (some 1, set_task 1 (record (k.tasks 1) { pid = 1 }) k)
unfolding sched_allocate_task
allocate-first k free =
    let found : find_free (max_task_count + 1) 1 k ≡ some 1 = first-free max_task_count k free in
    rw found refl

-- The state in which `sched_start` enters its loop.
abbrev pub IsStarted : Kernel → Type 0
IsStarted k = (k.current ≡ none) × ((p : ℕ) → k.tasks p ≡ init_task p)

-- From an array of zeros and no current task, when `setup_init_task` returns without an error, then no
-- task is current, the initial task, with its stack, is runnable, and every other entry is free.
pub setup_init_task-IsStarted :
    (fuel : ℕ) (image : Image) (thread : Option Errno) (vm vm' : Space) (k k' : Kernel)
    (m m' : Machine)
    → k.current ≡ none
    → ((p : ℕ) → k.tasks p ≡ zero_task)
    → setup_init_task fuel image thread vm k m ≡ some (done none vm' k' m')
    → IsStarted k'
unfolding setup_init_task
setup_init_task-IsStarted fuel image thread vm vm' k k' m m' idle zeros e =
    let k1 : Kernel = set_task 1 (record (k.tasks 1) { pid = 1 }) k in
    let ran = rw (allocate-first k (ap (λ (t : Task). t.state) (zeros 1))) at e in
    let (inited, init, ran') = bind-eq-some (vmem_init vm m) ran in
    let (made, tables, finished) = bind-eq-some (setup_tables fuel image inited) ran' in
    let (whole, result) = finish-eq thread 1 k1 made vm' k' m' (some_injective finished) in
    let areas =
      tables-areas fuel image vm vm' m m' inited init
        (tables ∙ ap (λ (x : Status × (Space × Machine)). some x) whole) in
    subst IsStarted (sym result) (
      idle,
      λ p. elim (ℕ_discrete 1 p) [
        | yes same ↦ rw (← same, zeros 1, areas) refl
        | no other ↦
            let there : (1 == p) ≡ false = ground (arith, other) in
            let back : (p == 1) ≡ false = ground (arith, other) in rw (there, back) (zeros p)
      ],
    )
