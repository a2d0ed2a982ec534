-- ===== src/Irq/Dispatch.antt =====
-- What `irq_handler` of arch/x86/irq.c does at a page fault in an area.
use heaven_os.Prelude.{
  ℕ, ◌≤◌, ◌<◌, ◌≡◌, bit_or, ◌==◌, true, refl, arith, none, some, List, ◌∷◌, length,
}
use heaven_os.Vmem.{Area, vmem_is_mapped, vmem_convert_flags, vmem_alloc}
use heaven_os.Vmem.Tables.{Machine, virt_to_phys, direct_map}
use heaven_os.Vmem.Walk.{walk, IsTree, IsFresh}
use heaven_os.Vmem.Fault.{vmem_handle_pf-walk}
use heaven_os.Irq.{ArchRegs, System, Output, returned, irq_pf, irq_handler}

-- At a page fault, where the current address space is a tree of tables, the address in CR2 lies in an
-- area that is not mapped, and there are four frames that are no tables, the first not the frame at
-- physical address 0, `irq_handler` returns: the walk of the address then finds the entry of the
-- first frame with the flags of the area, and neither the tasks, the devices nor the console changed.
pub irq_handler-walk :
    (out : Output) (cr2 f : ℕ) (rest : List ℕ) (area : Area) (ctx : ArchRegs) (sys : System)
    (level prefix : ℕ → ℕ)
    → ctx.irq_num ≡ irq_pf
    → IsTree sys.machine.word level prefix sys.vm.pml4
    → sys.machine.frames ≡ f ∷ rest
    → IsFresh level (f ∷ rest)
    → 3 ≤ length rest
    → direct_map < f
    → vmem_is_mapped sys.vm.areas cr2 ≡ some area
    → walk 3 sys.machine.word sys.vm.pml4 cr2 ≡ none
    → (m : Machine) × (irq_handler out cr2 ctx sys ≡ some (returned (record sys { machine = m })))
      × (walk 3 m.word sys.vm.pml4 cr2
          ≡ some (
              bit_or
                (bit_or (virt_to_phys f) 1)
                (vmem_convert_flags (bit_or area.flags vmem_alloc))))
unfolding irq_handler
irq_handler-walk out cr2 f rest area ctx sys level prefix fault tree frames fresh enough above found
      unmapped =
    let (m, handled, there) =
      vmem_handle_pf-walk cr2 f rest area sys.vm sys.machine level prefix tree frames fresh enough
        above found unmapped in
    let pf : (ctx.irq_num == irq_pf) ≡ true = ground (arith, fault) in
    (m, rw (pf, handled) refl, there)
