-- ===== src/Sched/Exit.antt =====
-- `sys_exit` of kernel/syscall.c, which runs with interrupts enabled, and a tick of the timer in it.
use heaven_os.Prelude.{
  ℕ, ◌+◌, ◌%◌, ◌^◌, ◌≤◌, ◌≡◌, ◌≢◌, ◌==◌, refl, ap, ◌∙◌, Option, arith, true, false, inl, inr,
  Bool-cases, some, none,
}
use heaven_os.FrameAlloc.{◌>>=◌}
use heaven_os.Sched.{
  Kernel, in_exit, switched, task_runnable, task_zombie, task_waiting, sched_switch,
  sched_switch_to, set_task, sched_wake, sched_visit, notify_parent, mark_zombie, sys_exit,
  sched_timer_tick,
}
use heaven_os.Sched.Timer.{counted, preempted, sched_timer_tick-deadline}

wake-stopped :
    (i p : ℕ) (k : Kernel)
    → 2 ≤ (k.tasks p).state
    → (k.tasks p).state ≤ 3
    → (((sched_wake i k).tasks p).state ≡ (k.tasks p).state)
      × ((sched_wake i k).current ≡ k.current)
unfolding sched_wake
wake-stopped i p k lo hi = ground arith

-- No turn of the scheduler's loop switches to a task that waits or is a zombie.
visit-current :
    (i p : ℕ) (k : Kernel)
    → k.current ≡ none
    → 2 ≤ (k.tasks p).state
    → (k.tasks p).state ≤ 3
    → (sched_visit i k).current ≢ some p
unfolding sched_visit sched_switch_to
visit-current i p k idle lo hi e =
    let (kept, nobody) = wake-stopped i p k lo hi in
    elim (Bool-cases (((sched_wake i k).tasks i).state == task_runnable)) [
      | inl runs ↦
          let at = rw runs at e in
          let same : i ≡ p = cc in
          let r : ((sched_wake i k).tasks i).state ≡ 1 = ground (arith, runs) in
          let r' : ((sched_wake i k).tasks p).state ≡ 1 = rw (← same) r in
          absurd (omega (arith, r', kept, lo))
      | inr stays ↦ let at : (sched_wake i k).current ≡ some p = rw stays at e in absurd cc
    ]

exit_switch :
    (p : ℕ) (w : Kernel)
    → w.current ≡ some p
    → sched_switch in_exit w
      ≡ some (record (set_task p (record (w.tasks p) { resume = in_exit }) w) { current = none })
unfolding sched_switch
exit_switch p w here = rw here refl

exit_ends :
    (code p : ℕ) (k : Kernel)
    → k.current ≡ some p
    → sys_exit code k ≡ (
        sched_switch in_exit (notify_parent p (mark_zombie code p k)) >>= λ k'. some (switched, k'))
unfolding sys_exit
exit_ends code p k here =
    ap
      (λ (c : Option ℕ). c >>= λ r.
        sched_switch in_exit (notify_parent r (mark_zombie code r k)) >>= λ k'. some (switched, k'))
      here

-- The parent that waits is made runnable.
wakes :
    (p q : ℕ) (w : Kernel)
    → (w.tasks p).ppid ≡ q
    → (w.tasks q).state ≡ task_waiting
    → (w.tasks q).wait_pid ≡ (w.tasks p).pid
    → notify_parent p w ≡ set_task q (record (w.tasks q) { state = task_runnable }) w
unfolding notify_parent
wakes p q w parent waits for_it =
    let state : ((w.tasks q).state == task_waiting) ≡ true = ground (arith, waits) in
    let child : ((w.tasks q).wait_pid == (w.tasks p).pid) ≡ true = ground (arith, for_it) in
    rw (parent, state, child) refl

-- When the parent of the current task waits for it, `sys_exit` that is not interrupted wakes the parent;
-- but where a tick of the timer that is not behind the deadline of the task arrives after the first
-- lines of `sys_exit`, the task is switched out as a zombie, the parent still waits, and no turn of
-- the scheduler's loop switches to either of them.
pub sys_exit-sched_timer_tick :
    (code p q : ℕ) (k : Kernel)
    → k.current ≡ some p
    → (k.tasks p).ppid ≡ q
    → q ≢ p
    → (k.tasks q).state ≡ task_waiting
    → (k.tasks q).wait_pid ≡ (k.tasks p).pid
    → (k.sched_timer + 1) % 2 ^ 64 ≤ (k.tasks p).preempt_deadline
    → ((k' : Kernel) × (sys_exit code k ≡ some (switched, k'))
        × ((k'.tasks q).state ≡ task_runnable))
      × ((k' : Kernel) × (sched_timer_tick (mark_zombie code p k) ≡ some k')
          × (k'.current ≡ none)
          × ((k'.tasks p).state ≡ task_zombie)
          × ((k'.tasks q).state ≡ task_waiting)
          × ((i : ℕ)
              → ((sched_visit i k').current ≢ some p) × ((sched_visit i k').current ≢ some q)))
sys_exit-sched_timer_tick code p q k here parent other waits for_it early =
    let apart : (p == q) ≡ false = ground (arith, other) in
    let own : (p == p) ≡ true = ground arith in
    let same : (q == q) ≡ true = ground arith in
    let marked = mark_zombie code p k in
    let woken = set_task q (record (marked.tasks q) { state = task_runnable }) marked in
    let cut = preempted p (counted marked) in
    let dead : (cut.tasks p).state ≡ task_zombie = rw own refl in
    let left : (cut.tasks q).state ≡ task_waiting = rw apart waits in
    (
      (
        record (set_task p (record (woken.tasks p) { resume = in_exit }) woken) { current = none },
        exit_ends code p k here
            ∙ rw (wakes p q marked (rw own parent) (rw apart waits) (rw (apart, own) for_it))
                (rw (exit_switch p woken here) refl),
        rw (same, apart) refl,
      ),
      (
        cut,
        (sched_timer_tick-deadline p marked here).0 (rw own early),
        refl,
        dead,
        left,
        λ i. (
          visit-current i p cut refl (omega (arith, dead)) (omega (arith, dead)),
          visit-current i q cut refl (omega (arith, left)) (omega (arith, left)),
        ),
      ),
    )
