-- ===== src/Sched/Timer.antt =====
-- When `sched_timer_tick` of sched/sched.c takes the processor from a task.
use heaven_os.Prelude.{
  ℕ, zero, suc, ◌+◌, ◌%◌, ◌^◌, ◌≤◌, ◌<◌, ◌≡◌, ◌==◌, refl, arith, true, false, leb, update, Option,
  none, some,
}
use heaven_os.FrameAlloc.{◌>>=◌}
use heaven_os.Sched.{
  Kernel, in_tick, preempt_ticks, sched_switch, sched_switch_to, preempt, sched_timer_tick,
}

-- The kernel after the timer was counted up.
abbrev pub counted : Kernel → Kernel
counted k = record k { sched_timer = (k.sched_timer + 1) % 2 ^ 64 }

-- The kernel after the current task was switched out.
abbrev pub preempted : ℕ → Kernel → Kernel
preempted p k = record k {
  current = none;
  tasks = update k.tasks p (record (k.tasks p) { resume = in_tick });
}

-- A tick of the timer, by the deadline of the current task.
pub sched_timer_tick-deadline :
    (p : ℕ) (k : Kernel)
    → k.current ≡ some p
    → ((counted k).sched_timer ≤ (k.tasks p).preempt_deadline
        → sched_timer_tick k ≡ some (preempted p (counted k)))
      × ((k.tasks p).preempt_deadline < (counted k).sched_timer
          → sched_timer_tick k ≡ some (counted k))
unfolding sched_timer_tick preempt sched_switch
sched_timer_tick-deadline p k here = (
  λ le.
      let b : leb ((k.sched_timer + 1) % 2 ^ 64) (k.tasks p).preempt_deadline ≡ true =
        ground arith in
      rw (here, b) refl,
  λ lt.
      let b : leb ((k.sched_timer + 1) % 2 ^ 64) (k.tasks p).preempt_deadline ≡ false =
        ground arith in
      rw (here, b) refl,
)

-- `n` ticks of the timer.
abbrev pub ticks : ℕ → Kernel → Option Kernel
ticks zero k = some k
ticks (suc n) k = sched_timer_tick k >>= ticks n

-- Where the timer does not wrap before the deadline, a task that the scheduler switches to is switched
-- out by the first tick of the timer, in whatever state it is, and not when its deadline has passed.
pub sched_timer_tick-sched_switch_to :
    (p : ℕ) (k : Kernel)
    → k.sched_timer + preempt_ticks < 2 ^ 64
    → (k' : Kernel) × (sched_timer_tick (sched_switch_to p k) ≡ some k')
      × (k'.current ≡ none)
      × (k'.sched_timer ≡ k.sched_timer + 1)
      × ((k'.tasks p).state ≡ (k.tasks p).state)
      × (k'.sched_timer < (k'.tasks p).preempt_deadline)
unfolding sched_switch_to
sched_timer_tick-sched_switch_to p k fits =
    let entered = sched_switch_to p k in
    let same : (p == p) ≡ true = ground arith in
    (
      preempted p (counted entered),
      (sched_timer_tick-deadline p entered refl).0 (rw same (omega arith)),
      refl,
      omega arith,
      rw same refl,
      rw same (omega arith),
    )
