-- ===== src/Start.antt =====
-- kernel/kernel.c: the memory map on the console, and the order in which the parts of the kernel are
-- started. The bytes of memory are those of the console, and the words of Vmem are kept apart.
mod Tests
pub mod Regions
use heaven_os.Prelude.{
  ℕ, zero, suc, ◌+◌, ◌%◌, ◌^◌, Bool, not, ltb, ◌==◌, if◌then◌else◌, Option, none, some, List, [],
  ◌∷◌, map,
}
use heaven_os.Memory.{Bytes, page_size, round_up}
use heaven_os.Memory.Words.{load32, load64}
use heaven_os.FrameAlloc.{Zone, ◌>>=◌}
use heaven_os.FrameAlloc.Init.{MemmapEntry, phys_to_virt, frame_alloc_init}
use heaven_os.Fb.{Fb, FbInfo, fb_init}
use heaven_os.Console.{Cons, cons_init}
use heaven_os.Printk.{printk}
use heaven_os.Multiboot.{
  Multiboot, memmap_entry, mb_parse_boot_info, mb_memmap_iter_init, mb_memmap_iter_next,
  memmap_loop, mb_memory_region,
}
use heaven_os.Acpi.{Acpi, acpi_init}
use heaven_os.Apic.{Apic, Bus, Device, apic_init, apic_setup_timer}

-- "[RAM]       ", "[ACPI]      ", "[HIBER]     ", "[DEFECTIVE] " and "[RESERVED]  "
abbrev pub memmap_type : ℕ → List ℕ
memmap_type type =
    if type == 1
    then (91 ∷ 82 ∷ 65 ∷ 77 ∷ 93 ∷ 32 ∷ 32 ∷ 32 ∷ 32 ∷ 32 ∷ 32 ∷ 32 ∷ [])
    else if type == 3
    then (91 ∷ 65 ∷ 67 ∷ 80 ∷ 73 ∷ 93 ∷ 32 ∷ 32 ∷ 32 ∷ 32 ∷ 32 ∷ 32 ∷ [])
    else if type == 4
    then (91 ∷ 72 ∷ 73 ∷ 66 ∷ 69 ∷ 82 ∷ 93 ∷ 32 ∷ 32 ∷ 32 ∷ 32 ∷ 32 ∷ [])
    else if type == 5
    then (91 ∷ 68 ∷ 69 ∷ 70 ∷ 69 ∷ 67 ∷ 84 ∷ 73 ∷ 86 ∷ 69 ∷ 93 ∷ 32 ∷ [])
    else (91 ∷ 82 ∷ 69 ∷ 83 ∷ 69 ∷ 82 ∷ 86 ∷ 69 ∷ 68 ∷ 93 ∷ 32 ∷ 32 ∷ [])

-- "mem region: " and "%p - %p len=0x%x\n"
abbrev pub region_format : List ℕ
region_format = 109 ∷ 101 ∷ 109 ∷ 32 ∷ 114 ∷ 101 ∷ 103 ∷ 105 ∷ 111 ∷ 110 ∷ 58 ∷ 32 ∷ []

abbrev pub range_format : List ℕ
range_format =
    37 ∷ 112 ∷ 32 ∷ 45 ∷ 32 ∷ 37 ∷ 112 ∷ 32 ∷ 108 ∷ 101 ∷ 110 ∷ 61 ∷ 48 ∷ 120 ∷ 37 ∷ 120 ∷ 10 ∷ []

-- "Multiboot memory map:\n"
abbrev pub memmap_format : List ℕ
memmap_format =
    77 ∷ 117 ∷ 108 ∷ 116 ∷ 105 ∷ 98 ∷ 111 ∷ 111 ∷ 116 ∷ 32 ∷ 109 ∷ 101 ∷ 109 ∷ 111 ∷ 114 ∷ 121 ∷ 32
    ∷ 109 ∷ 97 ∷ 112 ∷ 58 ∷ 10 ∷ []

-- The lines for an entry.
abbrev pub dump_entry : Fb → ℕ → MemmapEntry → Cons → Option Cons
dump_entry fb buf entry s = do
  s ← printk 0 fb buf region_format [] s
  s ← printk 0 fb buf (memmap_type entry.type) [] s
  printk 0 fb buf range_format
      (entry.base_addr ∷ (entry.base_addr + entry.length) % 2 ^ 64 ∷ entry.length ∷ []) s

-- The loop of `dump_memmap` on fuel.
abbrev pub dump_loop : ℕ → Fb → ℕ → ℕ → Multiboot → Cons → Option Cons
dump_loop zero fb buf it mb s = none
dump_loop (suc fuel) fb buf it mb s =
    let (entry, it') = mb_memmap_iter_next it s.mem mb in
    let rest = λ (s' : Cons). dump_loop fuel fb buf it' mb s' in
    if entry == 0 then some s else (dump_entry fb buf (memmap_entry s.mem entry) s >>= rest)

abbrev pub dump_memmap : ℕ → Fb → ℕ → Multiboot → Cons → Option Cons
dump_memmap fuel fb buf mb s = do
  it ← mb_memmap_iter_init mb
  s ← printk 0 fb buf memmap_format [] s
  dump_loop fuel fb buf it mb s

-- The regions that `frame_alloc_init` leaves out end here; `phys_end` is the address of
-- `_phys_end_kernel_sections`.
abbrev pub reserved_end : ℕ → Bytes → Multiboot → ℕ
reserved_end phys_end m mb =
    let end1 = phys_to_virt phys_end in
    let end2 = (mb_memory_region m mb).end in
    round_up (if ltb end1 end2 then end2 else end1) page_size

-- `frame_alloc_init` with its loop over the memory map, up to its message.
pub start_frame_alloc : ℕ → ℕ → Bytes → Multiboot → List Zone → Option (List Zone × ℕ)
start_frame_alloc fuel phys_end m mb zones = do
  it ← mb_memmap_iter_init mb
  entries ← memmap_loop fuel it m mb
  frame_alloc_init (reserved_end phys_end m mb) (map (memmap_entry m) entries) zones 0

-- The tag of the framebuffer, 0 for none.
abbrev pub fb_tag : ℕ → Bytes → Option FbInfo
fb_tag tag m =
    if tag == 0
    then none
    else some (record {
      addr = load64 m (tag + 8);
      pitch = load32 m (tag + 16);
      width = load32 m (tag + 20);
      heigth = load32 m (tag + 24);
      depth = m (tag + 28);
      type = m (tag + 29);
    })

-- The constants of a run: fuel for each loop, the addresses of the linker, the devices.
pub record Setting : Type 0 where
  pub tags_fuel : ℕ
  pub memmap_fuel : ℕ
  pub madt_fuel : ℕ
  pub gate_fuel : ℕ
  pub text_fuel : ℕ
  pub qemu_pit_hack : Bool
  pub device : Device
  pub early_data : ℕ
  pub buf : ℕ
  pub version : ℕ
  pub signature : ℕ
  pub phys_end : ℕ

-- What has been started.
pub record Started : Type 0 where
  pub multiboot : Multiboot
  pub fb : Fb
  pub cons : Cons
  pub acpi : Acpi
  pub apic : Apic
  pub bus : Bus
  pub zones : List Zone
  pub frames : ℕ

-- "HeavenOS version %s\n" and "Frame allocator initialized with %d frames\n"
abbrev version_format : List ℕ
version_format =
    72 ∷ 101 ∷ 97 ∷ 118 ∷ 101 ∷ 110 ∷ 79 ∷ 83 ∷ 32 ∷ 118 ∷ 101 ∷ 114 ∷ 115 ∷ 105 ∷ 111 ∷ 110 ∷ 32
    ∷ 37 ∷ 115 ∷ 10 ∷ []

abbrev frames_format : List ℕ
frames_format =
    70 ∷ 114 ∷ 97 ∷ 109 ∷ 101 ∷ 32 ∷ 97 ∷ 108 ∷ 108 ∷ 111 ∷ 99 ∷ 97 ∷ 116 ∷ 111 ∷ 114 ∷ 32 ∷ 105
    ∷ 110 ∷ 105 ∷ 116 ∷ 105 ∷ 97 ∷ 108 ∷ 105 ∷ 122 ∷ 101 ∷ 100 ∷ 32 ∷ 119 ∷ 105 ∷ 116 ∷ 104 ∷ 32
    ∷ 37 ∷ 100 ∷ 32 ∷ 102 ∷ 114 ∷ 97 ∷ 109 ∷ 101 ∷ 115 ∷ 10 ∷ []

-- `kmain` behind `arch_init` and up to `sched_start`.
abbrev pub kmain : Setting → Multiboot → Cons → Acpi → Apic → Bus → List Zone → Option Started
kmain c mb s acpi apic bus zones = do
  mb ← mb_parse_boot_info c.tags_fuel c.early_data s.mem mb
  fb ← fb_init (fb_tag mb.mb_fb_info s.mem)
  s ← cons_init fb s
  s ← printk c.text_fuel fb c.buf version_format (c.version ∷ []) s
  acpi ← acpi_init mb.mb_acpi_rsdp_v1 mb.mb_acpi_rsdp_v2 s.mem acpi
  (apic, bus) ← apic_init c.madt_fuel c.signature acpi s.mem apic bus
  bus ← apic_setup_timer c.gate_fuel c.qemu_pit_hack c.device apic bus
  s ← dump_memmap c.memmap_fuel fb c.buf mb s
  (zones, frames) ← start_frame_alloc c.memmap_fuel c.phys_end s.mem mb zones
  s ← printk c.text_fuel fb c.buf frames_format (frames ∷ []) s
  some (record {
    multiboot = mb;
    fb = fb;
    cons = s;
    acpi = acpi;
    apic = apic;
    bus = bus;
    zones = zones;
    frames = frames;
  })
