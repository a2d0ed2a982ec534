-- ===== src/Irq/Tests.antt =====
-- The theorems on arch/x86/irq.c at a timer interrupt, and at a page fault on the tables of Vmem.Sample.
use heaven_os.Prelude.{ℕ, ◌^◌, ◌≡◌, ◌⊎◌, ◌↔◌, ◌≤◌, bit_or, false, refl, arith, none, some, []}
use heaven_os.Vmem.{vmem_is_mapped, vmem_convert_flags, vmem_alloc}
use heaven_os.Vmem.Tables.{Machine, virt_to_phys}
use heaven_os.Vmem.Walk.{walk}
use heaven_os.Vmem.Sample.{
  frames_from, top_table, first_frame, machine, level, tree, fresh, code, space,
}
use heaven_os.Fb.{Fb}
use heaven_os.Sched.Setup.{init_task}
use heaven_os.Irq.{ArchRegs, System, Output, returned, get_irq_name, irq_handler}
use heaven_os.Irq.Names.{get_irq_name-outside}
use heaven_os.Irq.Dispatch.{irq_handler-walk}

abbrev regs : ℕ → ArchRegs
regs vector = record {
  r15 = 0;
  r14 = 0;
  r13 = 0;
  r12 = 0;
  r11 = 0;
  r10 = 0;
  r9 = 0;
  r8 = 0;
  rbp = 0;
  rdi = 0;
  rsi = 0;
  rdx = 0;
  rcx = 0;
  rbx = 0;
  rax = 0;
  irq_num = vector;
  errcode = 0;
  rip = 0;
  cs = 0;
  rflags = 0;
  rsp = 0;
  ss = 0;
}

abbrev no_screen : Fb
no_screen = record { initialized = false; addr = 0; width = 0; height = 0; pitch = 0; buf_size = 0 }

abbrev out : Output
out = record { place = λ s. 1; fuel = 1; fb = no_screen; buf = 1 }

abbrev sys : System
sys = record {
  kernel = record { sched_timer = 5; current = none; tasks = init_task; ints = λ p a. 0 };
  vm = space;
  machine = machine;
  apic = record { lapic_ptr = 4096; ioapic_ptr = 0 };
  bus = [];
  cons = record { initialized = false; width = 0; height = 0; row = 0; col = 0; mem = λ a. 0 };
}

get_irq_name-outside_example : (get_irq_name 22 ≡ none) ↔ ((◌≡◌ {A = ℕ} 22 22) ⊎ (2 ^ 31 ≤ 22))
get_irq_name-outside_example = get_irq_name-outside 22 (omega arith)

irq_handler-walk_example :
    (m : Machine) × (irq_handler out 0x401234 (regs 14) sys
      ≡ some (returned (record sys { machine = m })))
    × (walk 3 m.word top_table 0x401234
        ≡ some (
            bit_or
              (bit_or (virt_to_phys first_frame) 1)
              (vmem_convert_flags (bit_or 1 vmem_alloc))))
unfolding vmem_is_mapped
irq_handler-walk_example =
    irq_handler-walk out 0x401234 first_frame (frames_from 0xffff888000003000 3) code (regs 14) sys
      level (λ t. 0) refl tree refl fresh (omega arith) (omega arith) refl refl
