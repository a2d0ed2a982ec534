-- ===== src/User.antt =====
-- sched/user.c, the program of the initial task: its calls of the system, and what it does with their
-- answers. The address of its variable `status` is an argument.
use heaven_os.Prelude.{
  ℕ, ◌+◌, ◌-◌, ◌%◌, ◌^◌, ◌≤◌, ◌<◌, ◌≡◌, ◌==◌, true, false, leb, if◌then◌else◌, refl, arith, List,
  [], ◌∷◌,
}

-- A program asks the system with a number of a call and its arguments, and goes on with the answer.
pub data Program : Type 0 where
  done : Program
  ask : ℕ → List ℕ → (ℕ → Program) → Program

abbrev pub sys_sleep_no : ℕ
sys_sleep_no = 0

abbrev pub sys_fork_no : ℕ
sys_fork_no = 1

abbrev pub sys_getpid_no : ℕ
sys_getpid_no = 2

abbrev pub sys_exit_no : ℕ
sys_exit_no = 3

abbrev pub sys_wait_no : ℕ
sys_wait_no = 4

abbrev pub getpid : (ℕ → Program) → Program
getpid after = ask sys_getpid_no [] after

abbrev pub sleep : ℕ → (ℕ → Program) → Program
sleep arg after = ask sys_sleep_no (arg ∷ []) after

abbrev pub fork : (ℕ → Program) → Program
fork after = ask sys_fork_no [] after

abbrev pub exit : ℕ → (ℕ → Program) → Program
exit arg after = ask sys_exit_no (arg ∷ []) after

abbrev pub wait : ℕ → ℕ → (ℕ → Program) → Program
wait pid status after = ask sys_wait_no (pid ∷ status ∷ []) after

-- `child_pid` is an `int`, the low 32 bits of the answer, and negative from 2 ^ 31 on. The result of
-- `main` is passed on as the `uint64_t` that `exit` takes.
pub main : ℕ → (ℕ → Program) → Program
main status return = fork (λ res.
    let child_pid = res % 2 ^ 32 in
    if leb (2 ^ 31) child_pid
    then return (2 ^ 64 - 1)
    else if child_pid == 0
    then sleep 4000 (λ r. return 0)
    else sleep 2000 (λ r. wait child_pid status (λ s. return 0)))

pub user_program : ℕ → Program
user_program status = main status (λ res. exit res (λ r. done))

-- The calls that a program makes, from the `i`-th on, when the system gives these answers.
pub calls : (ℕ → ℕ) → ℕ → Program → List (ℕ × List ℕ)
calls answer i done = []
calls answer i (ask sysno args after) = (sysno, args) ∷ calls answer (i + 1) (after (answer i))

-- The demonstration makes no other calls than these, whatever the system answers, and its last one
-- is `exit`: without a child it exits with -1, the child sleeps, and the parent sleeps and waits for
-- the child with the number that `fork` gave.
user_program-calls :
    (answer : ℕ → ℕ) (status : ℕ)
    → (2 ^ 31 ≤ answer 0 % 2 ^ 32
        → calls answer 0 (user_program status)
          ≡ (sys_fork_no, []) ∷ (sys_exit_no, (2 ^ 64 - 1) ∷ []) ∷ [])
      × (answer 0 % 2 ^ 32 ≡ 0
          → calls answer 0 (user_program status)
            ≡ (sys_fork_no, []) ∷ (sys_sleep_no, 4000 ∷ []) ∷ (sys_exit_no, 0 ∷ []) ∷ [])
      × (0 < answer 0 % 2 ^ 32
          → answer 0 % 2 ^ 32 < 2 ^ 31
          → calls answer 0 (user_program status)
            ≡ (sys_fork_no, [])
              ∷ (sys_sleep_no, 2000 ∷ [])
              ∷ (sys_wait_no, answer 0 % 2 ^ 32 ∷ status ∷ [])
              ∷ (sys_exit_no, 0 ∷ [])
              ∷ [])
unfolding calls user_program main
user_program-calls answer status = (
  λ failed. let b : leb (2 ^ 31) (answer 0 % 2 ^ 32) ≡ true = ground arith in rw b refl,
  λ child. rw child refl,
  λ positive small.
      let b : leb (2 ^ 31) (answer 0 % 2 ^ 32) ≡ false = ground arith in
      let c : (answer 0 % 2 ^ 32 == 0) ≡ false = ground arith in rw (b, c) refl,
)
