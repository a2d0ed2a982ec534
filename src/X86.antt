-- ===== src/X86.antt =====
-- arch/x86/x86.c with gdt.h and msr.h of the same directory: the segment descriptors and the registers
-- of system calls. The descriptors are a function of their index, and the model-specific registers
-- one of their number. `irq_init` and the context switch are assembly, and the stacks of threads are
-- X86.Thread.
pub mod Decode
pub mod Thread
pub mod Clone
pub mod Start
mod Tests
use heaven_os.Prelude.{ℕ, ◌+◌, ◌-◌, ◌*◌, ◌/◌, ◌%◌, ◌^◌, bit_and, bit_or, update}
use heaven_os.Vmem.Tables.{phys_to_virt, entry}

abbrev pub gdt_present : ℕ
gdt_present = 2 ^ 15

abbrev pub gdt_system : ℕ
gdt_system = 2 ^ 12

abbrev pub gdt_granularity : ℕ
gdt_granularity = 2 ^ 23

abbrev pub gdt_long : ℕ
gdt_long = 2 ^ 21

abbrev pub gdt_read : ℕ
gdt_read = 2 ^ 9

abbrev pub gdt_dpl_ring3 : ℕ
gdt_dpl_ring3 = 3 * 2 ^ 13

abbrev pub gdt_code_seg : ℕ
gdt_code_seg = 2 ^ 11

abbrev pub kernel_code_seg : ℕ
kernel_code_seg = 1

abbrev pub user_data_seg : ℕ
user_data_seg = 3

abbrev pub user_code_seg : ℕ
user_code_seg = 4

abbrev pub tss_seg : ℕ
tss_seg = 5

abbrev pub rpl_ring3 : ℕ
rpl_ring3 = 3

abbrev pub rpl_ring0 : ℕ
rpl_ring0 = 0

abbrev pub gdt_segment_selector : ℕ → ℕ → ℕ
gdt_segment_selector idx rpl = bit_or (idx * 2 ^ 3) rpl

pub record Descriptor : Type 0 where
  pub dw0 : ℕ
  pub dw1 : ℕ

abbrev pub Gdt : Type 0
Gdt = ℕ → Descriptor

-- `GDT_DESCRIPTOR` without the index
pub gdt_descriptor : ℕ → ℕ → ℕ → Descriptor
gdt_descriptor base limit flags = record {
  dw0 = bit_or (bit_and base 0xffff * 2 ^ 16) (bit_and limit 0xffff) % 2 ^ 32;
  dw1 =
      bit_or
        (bit_or (bit_or (bit_or (bit_and (base / 2 ^ 16) 0xff) flags) gdt_present)
          (bit_and (limit / 2 ^ 16) 0xf * 2 ^ 16))
        (bit_and (base / 2 ^ 24) 0xff * 2 ^ 24)
      % 2 ^ 32;
}

abbrev pub gdt_descriptor_64 : ℕ → Descriptor
gdt_descriptor_64 flags = gdt_descriptor 0 0xfffff flags

abbrev pub tss_descriptor_64 : ℕ → ℕ → ℕ → ℕ → Gdt → Gdt
tss_descriptor_64 idx base limit flags gdt =
    update (update gdt idx (gdt_descriptor base limit flags)) (idx + 1)
      (record { dw0 = bit_and (base / 2 ^ 32) 0xffffffff; dw1 = 0 })

abbrev pub max_gdt_descriptors : ℕ
max_gdt_descriptors = 16

-- `sizeof(x86_tss_t)`
abbrev pub tss_size : ℕ
tss_size = 104

-- The flags of the descriptor of the TSS.
abbrev pub tss_flags : ℕ
tss_flags = bit_or (bit_or (bit_or gdt_granularity (2 ^ 20)) (0b1001 * 2 ^ 8)) gdt_present

-- `gdt_init` up to the load of the table, for a TSS at an address
abbrev pub gdt_init : ℕ → Gdt → Gdt
gdt_init tss gdt =
    let gdt1 = update gdt 1 (
      gdt_descriptor_64 (
        bit_or (bit_or (bit_or (bit_or gdt_granularity gdt_long) gdt_system) gdt_code_seg)
          gdt_read)) in
    let gdt2 =
      update gdt1 2 (gdt_descriptor_64 (bit_or (bit_or gdt_granularity gdt_system) gdt_read)) in
    let gdt3 = update gdt2 3 (
      gdt_descriptor_64
        (bit_or (bit_or (bit_or gdt_granularity gdt_system) gdt_dpl_ring3) gdt_read)) in
    let gdt4 = update gdt3 4 (
      gdt_descriptor_64 (
        bit_or
          (bit_or (bit_or (bit_or (bit_or gdt_granularity gdt_long) gdt_system) gdt_dpl_ring3)
            gdt_code_seg)
          gdt_read)) in
    tss_descriptor_64 tss_seg tss tss_size tss_flags gdt4

-- What the processor was told: the table with its size and address, the selector of the TSS, the
-- model-specific registers, and the field `rsp0` of the TSS.
pub record Processor : Type 0 where
  pub gdt : Gdt
  pub gdt_size : ℕ
  pub gdt_base : ℕ
  pub tr : ℕ
  pub msr : ℕ → ℕ
  pub rsp0 : ℕ

abbrev pub load_gdt : ℕ → ℕ → Processor → Processor
load_gdt gdt_address tss cpu = record cpu {
  gdt = gdt_init tss cpu.gdt;
  gdt_size = max_gdt_descriptors * 8;
  gdt_base = gdt_address;
}

abbrev pub load_tss : Processor → Processor
load_tss cpu = record cpu { tr = gdt_segment_selector tss_seg rpl_ring0 }

-- The two halves of the number in EDX and EAX.
abbrev pub x86_wrmsr : ℕ → ℕ → Processor → Processor
x86_wrmsr msr x cpu =
    let hi = x / 2 ^ 32 % 2 ^ 32 in
    let lo = bit_and x 0xffffffff in record cpu { msr = update cpu.msr msr (hi * 2 ^ 32 + lo) }

abbrev pub x86_rdmsr : ℕ → Processor → ℕ
x86_rdmsr msr cpu = bit_or (cpu.msr msr / 2 ^ 32 * 2 ^ 32) (cpu.msr msr % 2 ^ 32)

abbrev pub ia32_efer : ℕ
ia32_efer = 0xc0000080

abbrev pub ia32_efer_sce : ℕ
ia32_efer_sce = 1

abbrev pub ia32_star : ℕ
ia32_star = 0xc0000081

abbrev pub ia32_lstar : ℕ
ia32_lstar = 0xc0000082

abbrev pub ia32_fmask : ℕ
ia32_fmask = 0xc0000084

abbrev pub rflags_if : ℕ
rflags_if = 2 ^ 9

abbrev pub star : ℕ
star =
    bit_or (gdt_segment_selector kernel_code_seg rpl_ring0 * 2 ^ 32)
      (gdt_segment_selector (user_data_seg - 1) rpl_ring3 * 2 ^ 48)

pub syscall_init : ℕ → Processor → Processor
syscall_init syscall_entry cpu =
    let cpu1 = x86_wrmsr ia32_efer (bit_or (x86_rdmsr ia32_efer cpu) ia32_efer_sce) cpu in
    let cpu2 = x86_wrmsr ia32_lstar syscall_entry cpu1 in
    let cpu3 = x86_wrmsr ia32_fmask rflags_if cpu2 in x86_wrmsr ia32_star star cpu3

-- On the words of memory; `early_pml4` is a physical address.
abbrev pub unmap_early : ℕ → (ℕ → ℕ) → ℕ → ℕ
unmap_early early_pml4 w =
    let pml4_virt = phys_to_virt early_pml4 in
    let pdpd_virt = phys_to_virt (bit_and (w (entry pml4_virt 0)) (2 ^ 64 - 2 ^ 12)) in
    update w (entry pdpd_virt 0) 0

-- `arch_init` without `irq_init`: the processor and the words of memory. The addresses are those of
-- the table, the TSS, the entry of system calls and the early page table.
abbrev pub arch_init : ℕ → ℕ → ℕ → ℕ → Processor × (ℕ → ℕ) → Processor × (ℕ → ℕ)
arch_init gdt_address tss syscall_entry early_pml4 (cpu, w) =
    (syscall_init syscall_entry (load_tss (load_gdt gdt_address tss cpu)), unmap_early early_pml4 w)
