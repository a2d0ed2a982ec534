-- ===== src/Irq.antt =====
-- arch/x86/irq.c: the dispatch of interrupts and exceptions, over the registers of arch/x86/arch.h. A
-- handler either returns to what was interrupted, or panics and leaves a last picture of the console.
pub mod Names
pub mod Dispatch
mod Tests
use heaven_os.Prelude.{
  ℕ, ◌%◌, ◌^◌, Bool, true, false, leb, ◌==◌, ◌||◌, if◌then◌else◌, Option, none, some, List, [], ◌∷◌,
  length, get_elem?,
}
use heaven_os.FrameAlloc.{◌>>=◌}
use heaven_os.Vmem.Tables.{Machine}
use heaven_os.Vmem.Space.{Space}
use heaven_os.Vmem.Life.{vmem_handle_pf}
use heaven_os.Fb.{Fb}
use heaven_os.Console.{Cons}
use heaven_os.Printk.{printk}
use heaven_os.Panic.{panic}
use heaven_os.Apic.{Apic, Bus, apic_eoi, irq_timer, irq_spurious}
use heaven_os.Sched.{Kernel, sched_timer_tick}

abbrev pub irq_pf : ℕ
irq_pf = 14

-- The registers without the padding.
pub record ArchRegs : Type 0 where
  pub r15 : ℕ
  pub r14 : ℕ
  pub r13 : ℕ
  pub r12 : ℕ
  pub r11 : ℕ
  pub r10 : ℕ
  pub r9 : ℕ
  pub r8 : ℕ
  pub rbp : ℕ
  pub rdi : ℕ
  pub rsi : ℕ
  pub rdx : ℕ
  pub rcx : ℕ
  pub rbx : ℕ
  pub rax : ℕ
  pub irq_num : ℕ
  pub errcode : ℕ
  pub rip : ℕ
  pub cs : ℕ
  pub rflags : ℕ
  pub rsp : ℕ
  pub ss : ℕ

-- "Divide error" and so on, by the number of the exception.
abbrev pub exc_names : List (List ℕ)
exc_names =
    (68 ∷ 105 ∷ 118 ∷ 105 ∷ 100 ∷ 101 ∷ 32 ∷ 101 ∷ 114 ∷ 114 ∷ 111 ∷ 114 ∷ [])
    ∷ (68 ∷ 101 ∷ 98 ∷ 117 ∷ 103 ∷ [])
    ∷ (78 ∷ 111 ∷ 110 ∷ 45 ∷ 77 ∷ 97 ∷ 115 ∷ 107 ∷ 97 ∷ 98 ∷ 108 ∷ 101 ∷ 32 ∷ 73 ∷ 110 ∷ 116 ∷ 101
        ∷ 114 ∷ 114 ∷ 117 ∷ 112 ∷ 116 ∷ [])
    ∷ (66 ∷ 114 ∷ 101 ∷ 97 ∷ 107 ∷ 112 ∷ 111 ∷ 105 ∷ 110 ∷ 116 ∷ [])
    ∷ (79 ∷ 118 ∷ 101 ∷ 114 ∷ 102 ∷ 108 ∷ 111 ∷ 119 ∷ [])
    ∷ (66 ∷ 79 ∷ 85 ∷ 78 ∷ 68 ∷ 32 ∷ 82 ∷ 97 ∷ 110 ∷ 103 ∷ 101 ∷ 32 ∷ 69 ∷ 120 ∷ 99 ∷ 101 ∷ 101
        ∷ 100 ∷ 101 ∷ 100 ∷ [])
    ∷ (73 ∷ 110 ∷ 118 ∷ 97 ∷ 108 ∷ 105 ∷ 100 ∷ 32 ∷ 79 ∷ 112 ∷ 99 ∷ 111 ∷ 100 ∷ 101 ∷ [])
    ∷ (68 ∷ 101 ∷ 118 ∷ 105 ∷ 99 ∷ 101 ∷ 32 ∷ 78 ∷ 111 ∷ 116 ∷ 32 ∷ 65 ∷ 118 ∷ 97 ∷ 105 ∷ 108 ∷ 97
        ∷ 98 ∷ 108 ∷ 101 ∷ [])
    ∷ (68 ∷ 111 ∷ 117 ∷ 98 ∷ 108 ∷ 101 ∷ 32 ∷ 70 ∷ 97 ∷ 117 ∷ 108 ∷ 116 ∷ [])
    ∷ (85 ∷ 110 ∷ 107 ∷ 110 ∷ 111 ∷ 119 ∷ 110 ∷ 32 ∷ 101 ∷ 120 ∷ 99 ∷ 101 ∷ 112 ∷ 116 ∷ 105 ∷ 111
        ∷ 110 ∷ [])
    ∷ (73 ∷ 110 ∷ 118 ∷ 97 ∷ 108 ∷ 105 ∷ 100 ∷ 32 ∷ 84 ∷ 83 ∷ 83 ∷ [])
    ∷ (83 ∷ 101 ∷ 103 ∷ 109 ∷ 101 ∷ 110 ∷ 116 ∷ 32 ∷ 78 ∷ 111 ∷ 116 ∷ 32 ∷ 80 ∷ 114 ∷ 101 ∷ 115
        ∷ 101 ∷ 110 ∷ 116 ∷ [])
    ∷ (83 ∷ 116 ∷ 97 ∷ 99 ∷ 107 ∷ 32 ∷ 70 ∷ 97 ∷ 117 ∷ 108 ∷ 116 ∷ [])
    ∷ (71 ∷ 101 ∷ 110 ∷ 101 ∷ 114 ∷ 97 ∷ 108 ∷ 32 ∷ 80 ∷ 114 ∷ 111 ∷ 116 ∷ 101 ∷ 99 ∷ 116 ∷ 105
        ∷ 111 ∷ 110 ∷ [])
    ∷ (80 ∷ 97 ∷ 103 ∷ 101 ∷ 32 ∷ 70 ∷ 97 ∷ 117 ∷ 108 ∷ 116 ∷ [])
    ∷ (85 ∷ 110 ∷ 107 ∷ 110 ∷ 111 ∷ 119 ∷ 110 ∷ 32 ∷ 101 ∷ 120 ∷ 99 ∷ 101 ∷ 112 ∷ 116 ∷ 105 ∷ 111
        ∷ 110 ∷ [])
    ∷ (120 ∷ 56 ∷ 55 ∷ 32 ∷ 70 ∷ 80 ∷ 85 ∷ 32 ∷ 70 ∷ 108 ∷ 111 ∷ 97 ∷ 116 ∷ 105 ∷ 110 ∷ 103 ∷ 45
        ∷ 80 ∷ 111 ∷ 105 ∷ 110 ∷ 116 ∷ 32 ∷ 69 ∷ 114 ∷ 114 ∷ 111 ∷ 114 ∷ [])
    ∷ (65 ∷ 108 ∷ 105 ∷ 103 ∷ 110 ∷ 109 ∷ 101 ∷ 110 ∷ 116 ∷ 32 ∷ 67 ∷ 104 ∷ 101 ∷ 99 ∷ 107 ∷ [])
    ∷ (77 ∷ 97 ∷ 99 ∷ 104 ∷ 105 ∷ 110 ∷ 101 ∷ 32 ∷ 67 ∷ 104 ∷ 101 ∷ 99 ∷ 107 ∷ [])
    ∷ (83 ∷ 73 ∷ 77 ∷ 68 ∷ 32 ∷ 70 ∷ 108 ∷ 111 ∷ 97 ∷ 116 ∷ 105 ∷ 110 ∷ 103 ∷ 45 ∷ 80 ∷ 111 ∷ 105
        ∷ 110 ∷ 116 ∷ 32 ∷ 69 ∷ 120 ∷ 99 ∷ 101 ∷ 112 ∷ 116 ∷ 105 ∷ 111 ∷ 110 ∷ [])
    ∷ (86 ∷ 105 ∷ 114 ∷ 116 ∷ 117 ∷ 97 ∷ 108 ∷ 105 ∷ 122 ∷ 97 ∷ 116 ∷ 105 ∷ 111 ∷ 110 ∷ 32 ∷ 69
        ∷ 120 ∷ 99 ∷ 101 ∷ 112 ∷ 116 ∷ 105 ∷ 111 ∷ 110 ∷ [])
    ∷ (67 ∷ 111 ∷ 110 ∷ 116 ∷ 114 ∷ 111 ∷ 108 ∷ 32 ∷ 80 ∷ 114 ∷ 111 ∷ 116 ∷ 101 ∷ 99 ∷ 116 ∷ 105
        ∷ 111 ∷ 110 ∷ 32 ∷ 69 ∷ 120 ∷ 99 ∷ 101 ∷ 112 ∷ 116 ∷ 105 ∷ 111 ∷ 110 ∷ [])
    ∷ []

-- The argument is an `int`: from 2^31 on it is negative. A read outside `exc_names` is `none`.
abbrev pub get_irq_name : ℕ → Option (List ℕ)
get_irq_name irq_num =
    if leb (2 ^ 31) irq_num || leb irq_num (length exc_names)
    then get_elem? exc_names irq_num
    else if irq_num == irq_timer
    then some (84 ∷ 105 ∷ 109 ∷ 101 ∷ 114 ∷ [])
    else if irq_num == irq_spurious
    then some (83 ∷ 112 ∷ 117 ∷ 114 ∷ 105 ∷ 111 ∷ 117 ∷ 115 ∷ [])
    else some (85 ∷ 110 ∷ 107 ∷ 110 ∷ 111 ∷ 119 ∷ 110 ∷ 32 ∷ 73 ∷ 82 ∷ 81 ∷ [])

-- Where the linker puts a string constant, and the other constants of printing: the fuel of strings,
-- the framebuffer and the buffer of `vprintk_color`.
pub record Output : Type 0 where
  pub place : List ℕ → ℕ
  pub fuel : ℕ
  pub fb : Fb
  pub buf : ℕ

abbrev print : Output → List ℕ → List ℕ → Cons → Option Cons
print out fmt args s = printk out.fuel out.fb out.buf fmt args s

-- "Unhandled IRQ %d [%s]\n", "Error code: %d\n" and "Fault address: %p\n"
abbrev irq_format : List ℕ
irq_format =
    85 ∷ 110 ∷ 104 ∷ 97 ∷ 110 ∷ 100 ∷ 108 ∷ 101 ∷ 100 ∷ 32 ∷ 73 ∷ 82 ∷ 81 ∷ 32 ∷ 37 ∷ 100 ∷ 32 ∷ 91
    ∷ 37 ∷ 115 ∷ 93 ∷ 10 ∷ []

abbrev errcode_format : List ℕ
errcode_format =
    69 ∷ 114 ∷ 114 ∷ 111 ∷ 114 ∷ 32 ∷ 99 ∷ 111 ∷ 100 ∷ 101 ∷ 58 ∷ 32 ∷ 37 ∷ 100 ∷ 10 ∷ []

abbrev fault_format : List ℕ
fault_format =
    70 ∷ 97 ∷ 117 ∷ 108 ∷ 116 ∷ 32 ∷ 97 ∷ 100 ∷ 100 ∷ 114 ∷ 101 ∷ 115 ∷ 115 ∷ 58 ∷ 32 ∷ 37 ∷ 112
    ∷ 10 ∷ []

-- "RAX: 0x%x RBX: 0x%x\n" and so on, two registers to a line.
abbrev regs_format : List ℕ
regs_format =
    82 ∷ 65 ∷ 88 ∷ 58 ∷ 32 ∷ 48 ∷ 120 ∷ 37 ∷ 120 ∷ 32 ∷ 82 ∷ 66 ∷ 88 ∷ 58 ∷ 32 ∷ 48 ∷ 120 ∷ 37 ∷ 120
    ∷ 10 ∷ 82 ∷ 67 ∷ 88 ∷ 58 ∷ 32 ∷ 48 ∷ 120 ∷ 37 ∷ 120 ∷ 32 ∷ 82 ∷ 68 ∷ 88 ∷ 58 ∷ 32 ∷ 48 ∷ 120
    ∷ 37 ∷ 120 ∷ 10 ∷ 82 ∷ 83 ∷ 73 ∷ 58 ∷ 32 ∷ 48 ∷ 120 ∷ 37 ∷ 120 ∷ 32 ∷ 82 ∷ 68 ∷ 73 ∷ 58 ∷ 32
    ∷ 48 ∷ 120 ∷ 37 ∷ 120 ∷ 10 ∷ 82 ∷ 56 ∷ 58 ∷ 32 ∷ 48 ∷ 120 ∷ 37 ∷ 120 ∷ 32 ∷ 82 ∷ 57 ∷ 58 ∷ 32
    ∷ 48 ∷ 120 ∷ 37 ∷ 120 ∷ 10 ∷ 82 ∷ 49 ∷ 48 ∷ 58 ∷ 32 ∷ 48 ∷ 120 ∷ 37 ∷ 120 ∷ 32 ∷ 82 ∷ 49 ∷ 49
    ∷ 58 ∷ 32 ∷ 48 ∷ 120 ∷ 37 ∷ 120 ∷ 10 ∷ 82 ∷ 49 ∷ 50 ∷ 58 ∷ 32 ∷ 48 ∷ 120 ∷ 37 ∷ 120 ∷ 32 ∷ 82
    ∷ 49 ∷ 51 ∷ 58 ∷ 32 ∷ 48 ∷ 120 ∷ 37 ∷ 120 ∷ 10 ∷ 82 ∷ 49 ∷ 52 ∷ 58 ∷ 32 ∷ 48 ∷ 120 ∷ 37 ∷ 120
    ∷ 32 ∷ 82 ∷ 49 ∷ 53 ∷ 58 ∷ 32 ∷ 48 ∷ 120 ∷ 37 ∷ 120 ∷ 10 ∷ 82 ∷ 73 ∷ 80 ∷ 58 ∷ 32 ∷ 48 ∷ 120
    ∷ 37 ∷ 120 ∷ 32 ∷ 67 ∷ 83 ∷ 58 ∷ 32 ∷ 48 ∷ 120 ∷ 37 ∷ 120 ∷ 10 ∷ []

-- `dump`, where `cr2` is what `x86_read_cr2` returns
abbrev pub dump : Output → ℕ → ArchRegs → Cons → Option Cons
dump out cr2 ctx s = do
  name ← get_irq_name (ctx.irq_num % 2 ^ 32)
  s ← print out irq_format (ctx.irq_num ∷ out.place name ∷ []) s
  s ← print out errcode_format (ctx.errcode ∷ []) s
  s ← if ctx.irq_num == irq_pf then print out fault_format (cr2 ∷ []) s else some s
  print out regs_format
      (ctx.rax ∷ ctx.rbx ∷ ctx.rcx ∷ ctx.rdx ∷ ctx.rsi ∷ ctx.rdi ∷ ctx.r8 ∷ ctx.r9 ∷ ctx.r10
        ∷ ctx.r11 ∷ ctx.r12 ∷ ctx.r13 ∷ ctx.r14 ∷ ctx.r15 ∷ ctx.rip ∷ ctx.cs ∷ [])
      s

-- What the handler reads and writes: the tasks, the current address space and its tables, the
-- devices, and the console.
pub record System : Type 0 where
  pub kernel : Kernel
  pub vm : Space
  pub machine : Machine
  pub apic : Apic
  pub bus : Bus
  pub cons : Cons

-- A handler returns to what was interrupted, is switched away by `sched_switch` with the system as it is
-- then, and goes on when the scheduler switches to the task again, or panics.
pub data Outcome : Type 0 where
  returned : System → Outcome
  switched_away : System → Outcome
  panicked : Cons → Outcome

-- `sched_timer_tick` of a task that it takes the processor from.
abbrev tick_outcome : Option ℕ → Option ℕ → System → Outcome
tick_outcome (some p) none sys = switched_away sys
tick_outcome before after sys = returned sys

abbrev pub timer_handler : System → Option Outcome
timer_handler sys = do
  let sys = record sys { bus = apic_eoi sys.apic sys.bus }
  k ← sched_timer_tick sys.kernel
  some (tick_outcome sys.kernel.current k.current (record sys { kernel = k }))

abbrev pub spurious_handler : System → Option Outcome
spurious_handler sys = some (returned (record sys { bus = apic_eoi sys.apic sys.bus }))

-- "Unhandled IRQ"
abbrev pub panic_unhandled : Output → Cons → Option Cons
panic_unhandled out s =
    panic out.fuel out.fb out.buf
      (out.place (
        97 ∷ 114 ∷ 99 ∷ 104 ∷ 47 ∷ 120 ∷ 56 ∷ 54 ∷ 47 ∷ 105 ∷ 114 ∷ 113 ∷ 46 ∷ 99 ∷ 58 ∷ 53 ∷ 57
        ∷ []))
      (85 ∷ 110 ∷ 104 ∷ 97 ∷ 110 ∷ 100 ∷ 108 ∷ 101 ∷ 100 ∷ 32 ∷ 73 ∷ 82 ∷ 81 ∷ []) [] s

pub unhandled : Output → ℕ → ArchRegs → System → Option Outcome
unhandled out cr2 ctx sys = do
  s ← dump out cr2 ctx sys.cons
  s ← panic_unhandled out s
  some (panicked s)

-- The switch of `irq_handler`
abbrev pub irq_switch : Output → ℕ → ArchRegs → System → Option Outcome
irq_switch out cr2 ctx sys =
    if ctx.irq_num == irq_timer
    then timer_handler sys
    else if ctx.irq_num == irq_spurious
    then spurious_handler sys
    else unhandled out cr2 ctx sys

-- What follows the call of `vmem_handle_pf`.
abbrev pub after_fault : Output → ℕ → ArchRegs → System → Bool × Machine → Option Outcome
after_fault out cr2 ctx sys (true, m) = some (returned (record sys { machine = m }))
after_fault out cr2 ctx sys (false, m) = irq_switch out cr2 ctx (record sys { machine = m })

pub irq_handler : Output → ℕ → ArchRegs → System → Option Outcome
irq_handler out cr2 ctx sys =
    if ctx.irq_num == irq_pf
    then (vmem_handle_pf cr2 sys.vm sys.machine >>= after_fault out cr2 ctx sys)
    else irq_switch out cr2 ctx sys
