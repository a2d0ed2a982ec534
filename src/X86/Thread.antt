-- ===== src/X86/Thread.antt =====
-- The threads of arch/x86/x86.c over the bytes of memory. The frame of `frame_alloc` is an argument, 0
-- for none, and so are the addresses of the code that a thread starts at.
use heaven_os.Prelude.{ℕ, ◌+◌, ◌-◌, ◌*◌, ◌==◌, if◌then◌else◌, Option, none, some}
use mathlib.Core.Option.{map}
use heaven_os.Memory.{Bytes, page_size, memset, memcpy}
use heaven_os.Memory.Words.{store16, store64}
use heaven_os.Sched.{Errno, enomem}
use heaven_os.X86.{
  Processor, gdt_segment_selector, user_data_seg, user_code_seg, rpl_ring3, rflags_if,
}

pub record ArchThread : Type 0 where
  pub kstack_top : ℕ
  pub rsp : ℕ

-- `sizeof(arch_regs_t)` and the offsets of its fields
abbrev pub arch_regs_size : ℕ
arch_regs_size = 176

abbrev pub off_rax : ℕ
off_rax = 112

abbrev pub off_rip : ℕ
off_rip = 136

abbrev pub off_cs : ℕ
off_cs = 144

abbrev pub off_rflags : ℕ
off_rflags = 152

abbrev pub off_rsp : ℕ
off_rsp = 160

abbrev pub off_ss : ℕ
off_ss = 168

-- `sizeof(on_stack_context_t)` and the offset of `ret_addr`
abbrev pub context_size : ℕ
context_size = 56

abbrev pub off_ret_addr : ℕ
off_ret_addr = 48

-- A thread and its registers, or an error and what became of the thread.
pub data Outcome : Type 0 where
  failed : Errno → ArchThread → Outcome
  made : ArchThread → ℕ → Bytes → Outcome

-- A page as a stack, and what is done with its top; `rest` is the code behind `if (err < 0)`.
abbrev pub allocate_kstack : ℕ → ArchThread → Bytes → (ArchThread → Bytes → Outcome) → Outcome
allocate_kstack frame th m rest =
    if frame == 0
    then failed enomem (record th { kstack_top = frame })
    else rest (record th { kstack_top = frame + page_size }) (memset frame 0 page_size m)

-- The address of `arch_regs_t` on a stack.
abbrev pub regs_at : ArchThread → ℕ
regs_at th = th.kstack_top - arch_regs_size

abbrev pub init_regs : ℕ → ℕ → Bytes → Bytes
init_regs regs user_program m =
    let m1 = store64 m (regs + off_rsp) (0x70000000 + 4 * page_size) in
    let m2 = store16 m1 (regs + off_ss) (gdt_segment_selector user_data_seg rpl_ring3) in
    let m3 = store64 m2 (regs + off_rip) user_program in
    let m4 = store16 m3 (regs + off_cs) (gdt_segment_selector user_code_seg rpl_ring3) in
    store64 m4 (regs + off_rflags) rflags_if

-- A context below the registers, that returns to `pop_and_iret`.
abbrev pub push_context : ℕ → ℕ → Bytes → Bytes
push_context regs pop_and_iret m = store64 m (regs - context_size + off_ret_addr) pop_and_iret

unfoldable pub arch_thread_new : ℕ → ℕ → ℕ → ArchThread → Bytes → Outcome
arch_thread_new frame user_program pop_and_iret th m = allocate_kstack frame th m λ th' m'.
    made (record th' { rsp = regs_at th' - context_size }) (regs_at th')
      (push_context (regs_at th') pop_and_iret (init_regs (regs_at th') user_program m'))

-- The thread of a task is copied to another.
unfoldable pub clone_thread : ℕ → ℕ → ArchThread → ArchThread → Bytes → Outcome
clone_thread frame pop_and_iret src dst m = allocate_kstack frame dst m λ dst' m'.
    made (record dst' { rsp = regs_at dst' - context_size }) (regs_at dst')
      (push_context (regs_at dst') pop_and_iret
        (memcpy (regs_at dst') (regs_at src) arch_regs_size m'))

-- `current` is the thread of the current task; `none` is a panic.
abbrev pub arch_thread_clone_current :
    ℕ → ℕ → Option ArchThread → ArchThread → Bytes → Option Outcome
arch_thread_clone_current frame pop_and_iret none dst m = none
arch_thread_clone_current frame pop_and_iret (some src) dst m =
    some (clone_thread frame pop_and_iret src dst m)

-- The frame that is freed.
abbrev pub arch_thread_destroy : ArchThread → ℕ
arch_thread_destroy th = th.kstack_top - page_size

-- `arch_thread_switch` up to the switch of contexts
abbrev pub arch_thread_switch : ArchThread → Processor → Processor
arch_thread_switch thread cpu = record cpu { rsp0 = thread.kstack_top }

-- What `sys_fork` does with the registers of the child: its `rax` is 0.
abbrev pub clear_result : Outcome → Outcome
clear_result (failed e th) = failed e th
clear_result (made th child_regs m) = made th child_regs (store64 m (child_regs + off_rax) 0)

unfoldable pub fork_thread : ℕ → ℕ → Option ArchThread → ArchThread → Bytes → Option Outcome
fork_thread frame pop_and_iret current dst m =
    map clear_result (arch_thread_clone_current frame pop_and_iret current dst m)
