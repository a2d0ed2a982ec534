-- ===== src/Sched/Rounds.antt =====
-- sched/sched.c: a pass of the scheduler's loop over the array of tasks, and which tasks get the
-- processor in it. What a task does until it switches back to the scheduler is an argument.
use heaven_os.Prelude.{
  ℕ, zero, suc, ◌+◌, ◌≤◌, ◌<◌, ◌≡◌, ◌≢◌, ◌⊎◌, inl, inr, Bool, true, false, ◌==◌, if◌then◌else◌,
  refl, arith, some, List, [], ◌∷◌, get_elem?, ℕ_discrete, Bool-cases,
}
use heaven_os.Sched.{
  Kernel, task_runnable, task_sleeping, max_task_count, sched_wake, sched_switch_to, sched_clean,
}

-- The body of the loop at a task, and whether it switched to it. No interrupt arrives in the body itself;
-- `run` is all that happens from the switch to the task to the switch back.
abbrev pub sched_turn : (Kernel → Kernel) → ℕ → Kernel → Bool × Kernel
sched_turn run i k =
    let k' = sched_wake i k in
    if (k'.tasks i).state == task_runnable
    then (true, sched_clean i (run (sched_switch_to i k')))
    else (false, k')

-- `n` rounds of the loop from task `i` on: the tasks that it switched to, in order; `found` is that
-- there is one.
pub sched_pass : (Kernel → Kernel) → ℕ → ℕ → Kernel → List ℕ × Kernel
sched_pass run zero i k = ([], k)
sched_pass run (suc n) i k =
    let (switched, k') = sched_turn run i k in
    let (others, k'') = sched_pass run n (i + 1) k' in
    (if switched then i ∷ others else others, k'')

-- A task that can go on: it is runnable, or sleeps no longer than until now.
abbrev pub IsReady : ℕ → Kernel → Type 0
IsReady p k =
    ((k.tasks p).state ≡ task_runnable)
    ⊎ (((k.tasks p).state ≡ task_sleeping) × ((k.tasks p).sleep_until ≤ k.sched_timer))

-- While other tasks run, a task that can go on stays so.
abbrev pub KeepsReady : ℕ → (Kernel → Kernel) → Type 0
KeepsReady p run =
    (q : ℕ) (k : Kernel) → q ≢ p → k.current ≡ some q → IsReady p k → IsReady p (run k)

wake-IsReady : (q p : ℕ) (k : Kernel) → q ≢ p → IsReady p k → IsReady p (sched_wake q k)
unfolding sched_wake
wake-IsReady q p k other ready = ground arith

switch-IsReady : (q p : ℕ) (k : Kernel) → q ≢ p → IsReady p k → IsReady p (sched_switch_to q k)
unfolding sched_switch_to
switch-IsReady q p k other ready = ground arith

clean-IsReady : (q p : ℕ) (k : Kernel) → q ≢ p → IsReady p k → IsReady p (sched_clean q k)
unfolding sched_clean
clean-IsReady q p k other ready = ground arith

wake-runnable :
    (p : ℕ) (k : Kernel) → IsReady p k → ((sched_wake p k).tasks p).state ≡ task_runnable
unfolding sched_wake
wake-runnable p k ready = ground arith

switched-current : (q : ℕ) (k : Kernel) → (sched_switch_to q k).current ≡ some q
unfolding sched_switch_to
switched-current q k = refl

turn-IsReady :
    (run : Kernel → Kernel) (q p : ℕ) (k : Kernel)
    → KeepsReady p run
    → q ≢ p
    → IsReady p k
    → IsReady p (sched_turn run q k).1
turn-IsReady run q p k keeps other ready =
    let woken = wake-IsReady q p k other ready in
    elim (Bool-cases (((sched_wake q k).tasks q).state == task_runnable)) [
      | inl e ↦ rw e (
          clean-IsReady q p (run (sched_switch_to q (sched_wake q k))) other (
            keeps q (sched_switch_to q (sched_wake q k)) other (switched-current q (sched_wake q k))
              (switch-IsReady q p (sched_wake q k) other woken)))
      | inr e ↦ rw e woken
    ]

-- The tasks that come earlier in the array are switched to first. `Good` is what makes the task one
-- that is switched to: the turns of the other tasks keep it.
sched_pass-get_elem? :
    (run : Kernel → Kernel) (Good : Kernel → Type 0) (n i p : ℕ) (k : Kernel)
    → ((l : Kernel) → Good l → ((sched_wake p l).tasks p).state ≡ task_runnable)
    → ((q : ℕ) (l : Kernel) → q ≢ p → Good l → Good (sched_turn run q l).1)
    → i ≤ p
    → p < i + n
    → Good k
    → (j : ℕ) × (get_elem? (sched_pass run n i k).0 j ≡ some p)
unfolding sched_pass
sched_pass-get_elem? run Good zero i p k wakes keeps lo hi good = absurd (omega (arith, lo, hi))
sched_pass-get_elem? run Good (suc n) i p k wakes keeps lo hi good = elim (ℕ_discrete i p) [
  | yes same ↦
      let runs : (((sched_wake i k).tasks i).state == task_runnable) ≡ true =
        rw same (ground (arith, wakes k good)) in
      rw runs (0, rw same refl)
  | no other ↦
      let (j, there) =
        sched_pass-get_elem? run Good n (i + 1) p (sched_turn run i k).1 wakes keeps
          (omega (arith, lo, other)) (omega (arith, hi)) (keeps i k other good) in
      later (sched_turn run i k).0 i (sched_pass run n (i + 1) (sched_turn run i k).1).0 j p there
]
  where
    later :
        (b : Bool) (i : ℕ) (others : List ℕ) (j p : ℕ)
        → get_elem? others j ≡ some p
        → (j' : ℕ) × (get_elem? (if b then i ∷ others else others) j' ≡ some p)
    later true i others j p there = (suc j, there)
    later false i others j p there = (j, there)

-- If what happens while other tasks run leaves a task that can go on as one that can, then the pass of
-- the scheduler over the whole array, with no interrupt in its own code, switches to every task of the
-- array that is runnable, or whose time to sleep is over, when the pass begins.
pub sched_pass-IsReady :
    (run : Kernel → Kernel) (p : ℕ) (k : Kernel)
    → p < max_task_count
    → KeepsReady p run
    → IsReady p k
    → (j : ℕ) × (get_elem? (sched_pass run max_task_count 0 k).0 j ≡ some p)
sched_pass-IsReady run p k inside keeps ready =
    sched_pass-get_elem? run (IsReady p) max_task_count 0 p k (wake-runnable p)
      (λ q l other. turn-IsReady run q p l keeps other) (omega arith) (omega (arith, inside)) ready
