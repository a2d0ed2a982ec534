-- ===== src/Sched/Init.antt =====
-- sched/sched.c: the initial task. The addresses are those of the linker, and `thread` is the error of
-- `arch_thread_new`, if any.
use heaven_os.Prelude.{
  ℕ, zero, suc, ◌+◌, ◌*◌, ◌/◌, ◌%◌, ◌^◌, ltb, if◌then◌else◌, Option, none, some,
}
use heaven_os.FrameAlloc.{◌>>=◌}
use heaven_os.Vmem.{vmem_user, vmem_write}
use heaven_os.Vmem.Tables.{
  Machine, Status, okay, enomem, direct_map, vmem_map_page, vmem_map_page_2mb, vmem_map_page_1gb,
}
use heaven_os.Vmem.Space.{Space, if_okay, vmem_init, vmem_alloc_pages}
use heaven_os.Boot.{gb, mb, kernel_sections_start, kernel_direct_phys_mapping_size}
use heaven_os.Sched.{Kernel, Errno, task_runnable, set_task, sched_allocate_task}

-- The calls that map, one after the other up to the first error.
abbrev pub and_then :
    Option (Status × Machine) → (Machine → Option (Status × Machine)) → Option (Status × Machine)
and_then call rest = do (status, m) ← call; if_okay status (rest m) (some (status, m))

-- `n` rounds of the loop over physical memory.
unfoldable pub map_memory : ℕ → ℕ → ℕ → ℕ → Machine → Option (Status × Machine)
map_memory zero pml4 virt_addr phys_addr m = some (okay, m)
map_memory (suc n) pml4 virt_addr phys_addr m =
    and_then (vmem_map_page_1gb pml4 virt_addr phys_addr vmem_write m)
      λ m'. map_memory n pml4 (virt_addr + gb) (phys_addr + gb) m'

-- The loop over the sections of the kernel on fuel; `none` is fuel that has run out, or a panic.
unfoldable pub map_kernel : ℕ → ℕ → ℕ → ℕ → ℕ → Machine → Option (Status × Machine)
map_kernel zero pml4 phys_end virt_addr phys_addr m = none
map_kernel (suc fuel) pml4 phys_end virt_addr phys_addr m =
    let rest = λ (m' : Machine).
      map_kernel fuel pml4 phys_end ((virt_addr + 2 * mb) % 2 ^ 64) ((phys_addr + 2 * mb) % 2 ^ 64)
        m' in
    if ltb phys_addr phys_end
    then and_then (vmem_map_page_2mb pml4 virt_addr phys_addr vmem_write m) rest
    else some (okay, m)

-- `_phys_start_hh`, `_phys_end_kernel_sections` and `_phys_start_user`
pub record Image : Type 0 where
  pub phys_start_hh : ℕ
  pub phys_end_kernel_sections : ℕ
  pub phys_start_user : ℕ

abbrev pub setup_vmem : ℕ → Image → ℕ → Machine → Option (Status × Machine)
setup_vmem fuel image pml4 m =
    and_then (map_memory (kernel_direct_phys_mapping_size / gb) pml4 direct_map 0 m) λ m1.
      and_then
        (map_kernel fuel pml4 image.phys_end_kernel_sections kernel_sections_start
          image.phys_start_hh m1)
        λ m2. vmem_map_page pml4 0x10000 image.phys_start_user vmem_user m2

-- What `setup_init_task` returns: 0 or an error, the address space of the new task, the tasks and the
-- machine.
pub data Setup : Type 0 where
  done : Option Errno → Space → Kernel → Machine → Setup

-- The user stack, if the address space could be set up.
abbrev pub setup_stack : Space → Status × Machine → Option (Status × (Space × Machine))
setup_stack vm (okay, m) = vmem_alloc_pages 0x70000000 4 (vmem_user + vmem_write) vm m
setup_stack vm (enomem, m) = some (enomem, (vm, m))

abbrev pub setup_tables :
    ℕ → Image → Status × (Space × Machine) → Option (Status × (Space × Machine))
setup_tables fuel image (okay, (vm, m)) = setup_vmem fuel image vm.pml4 m >>= setup_stack vm
setup_tables fuel image (enomem, made) = some (enomem, made)

-- The end of `setup_init_task`: the task is runnable, whatever `arch_thread_new` returns.
abbrev pub finish_setup : Option Errno → ℕ → Kernel → Status × (Space × Machine) → Setup
finish_setup thread p k (okay, (vm, m)) =
    done thread vm (set_task p (record (k.tasks p) { areas = vm.areas; state = task_runnable }) k) m
finish_setup thread p k (enomem, (vm, m)) =
    done (some Errno.enomem) vm (set_task p (record (k.tasks p) { areas = vm.areas }) k) m

-- `vm` is the address space of the entry that is taken, before it is set up.
unfoldable pub setup_init_task : ℕ → Image → Option Errno → Space → Kernel → Machine → Option Setup
setup_init_task fuel image thread vm k m = do
  (new_task, k1) ← sched_allocate_task k
  elim new_task [
    | none ↦ some (done (some Errno.enomem) vm k1 m)
    | some p ↦ do
      inited ← vmem_init vm m
      made ← setup_tables fuel image inited
      some (finish_setup thread p k1 made)
  ]
