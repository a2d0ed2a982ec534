-- ===== src/X86/Tests.antt =====
-- The theorems on arch/x86/x86.c at concrete addresses, and the selectors of system calls.
use heaven_os.Prelude.{ℕ, ◌+◌, ◌*◌, ◌/◌, ◌%◌, ◌^◌, ◌≡◌, bit_or, some, refl, arith, inl}
use heaven_os.Memory.{Bytes}
use heaven_os.X86.{
  Gdt, Processor, gdt_descriptor, gdt_segment_selector, user_code_seg, user_data_seg, rpl_ring3,
  ia32_star, ia32_efer, x86_rdmsr, syscall_init, arch_init,
}
use heaven_os.X86.Decode.{base_of, limit_of, access_of, flags_of, gdt_descriptor-fields}
use heaven_os.X86.Thread.{ArchThread, made, fork_thread, arch_thread_new}
use heaven_os.X86.Clone.{IsChild, fork_thread-IsChild}
use heaven_os.X86.Start.{IsStart, arch_thread_new-IsStart}

abbrev no_gdt : Gdt
no_gdt i = record { dw0 = 0; dw1 = 0 }

abbrev cold : Processor
cold = record { gdt = no_gdt; gdt_size = 0; gdt_base = 0; tr = 0; msr = λ r. 0; rsp0 = 0 }

abbrev warm : Processor
warm = (arch_init 0x5000 0x6000 0x7000 0x8000 (cold, λ a. 0)).0

-- SYSRET takes the segments of user mode from the high word of IA32_STAR.
sysret_cs : warm.msr ia32_star / 2 ^ 48 + 16 ≡ gdt_segment_selector user_code_seg rpl_ring3
unfolding syscall_init
sysret_cs = refl

sysret_ss : warm.msr ia32_star / 2 ^ 48 + 8 ≡ gdt_segment_selector user_data_seg rpl_ring3
unfolding syscall_init
sysret_ss = refl

efer_sce : x86_rdmsr ia32_efer warm % 2 ≡ 1
unfolding syscall_init
efer_sce = refl

gdt_descriptor-fields_example :
    (base_of (gdt_descriptor 0 0xfffff (10 * 2 ^ 20 + 26 * 2 ^ 8)) ≡ 0)
    × (limit_of (gdt_descriptor 0 0xfffff (10 * 2 ^ 20 + 26 * 2 ^ 8)) ≡ 0xfffff)
    × (access_of (gdt_descriptor 0 0xfffff (10 * 2 ^ 20 + 26 * 2 ^ 8)) ≡ bit_or 26 128)
    × (flags_of (gdt_descriptor 0 0xfffff (10 * 2 ^ 20 + 26 * 2 ^ 8)) ≡ 10)
gdt_descriptor-fields_example =
    gdt_descriptor-fields 0 0xfffff 10 26 (omega arith) (omega arith) (omega arith)

abbrev zeros : Bytes
zeros a = 0

abbrev parent : ArchThread
parent = record { kstack_top = 8192; rsp = 8000 }

abbrev child : ArchThread
child = record { kstack_top = 0; rsp = 0 }

fork_thread-IsChild_example :
    (th : ArchThread) × (regs : ℕ) × (m' : Bytes) × (fork_thread 16384 4096
        (some parent)
        child
        zeros
      ≡ some (made th regs m'))
    × IsChild 16384 4096 parent zeros th regs m'
fork_thread-IsChild_example =
    fork_thread-IsChild 16384 4096 parent child zeros (omega arith) (omega arith) (omega arith)
      (inl (omega arith))

arch_thread_new-IsStart_example :
    (th : ArchThread) × (regs : ℕ) × (m' : Bytes) × (arch_thread_new 16384 5000 4096 child zeros
      ≡ made th regs m')
    × IsStart 16384 5000 4096 zeros th regs m'
arch_thread_new-IsStart_example =
    arch_thread_new-IsStart 16384 5000 4096 child zeros (omega arith) (omega arith) (omega arith)
