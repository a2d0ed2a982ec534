-- ===== src/Apic.antt =====
-- drivers/apic.c, and the port instructions of arch/x86/x86.h. What the code does to the devices is a
-- list of actions, the last one first; what a device answers to a read is a function of that list.
-- The ports and registers are those of the hardware. `none` is a panic, or a loop whose fuel has run
-- out.
pub mod Madt
pub mod Timer
mod Tests
use heaven_os.Prelude.{
  ℕ, zero, suc, ◌+◌, ◌-◌, ◌*◌, ◌/◌, ◌%◌, ◌^◌, bit_and, bit_or, Bool, not, leb, ◌==◌, if◌then◌else◌,
  Option, none, some, List, ◌∷◌,
}
use heaven_os.Memory.{Bytes, u8}
use heaven_os.Memory.Words.{load32}
use heaven_os.FrameAlloc.{kassert, ◌>>=◌, ◌>>◌}
use heaven_os.FrameAlloc.Init.{phys_to_virt}
use heaven_os.Acpi.{Acpi, acpi_lookup, table_length, header_size}
use heaven_os.Sched.{sched_timer_period}

-- A port is written or read, or a word of 32 bits at an address.
pub data Action : Type 0 where
  outb : ℕ → ℕ → Action
  inb : ℕ → Action
  write : ℕ → ℕ → Action
  read : ℕ → Action

abbrev pub Bus : Type 0
Bus = List Action

abbrev pub Device : Type 0
Device = Bus → ℕ

abbrev pub x86_outb : ℕ → ℕ → Bus → Bus
x86_outb port value bus = outb port (u8 value) ∷ bus

abbrev pub x86_inb : Device → ℕ → Bus → ℕ × Bus
x86_inb device port bus = (u8 (device (inb port ∷ bus)), inb port ∷ bus)

-- In milliseconds.
abbrev pub apic_timer_period : ℕ
apic_timer_period = sched_timer_period

abbrev pub callibrate_period : ℕ
callibrate_period = 10

abbrev pub type_ioapic : ℕ
type_ioapic = 1

abbrev pub apic_taskprior : ℕ
apic_taskprior = 0x80

abbrev pub apic_eoi_reg : ℕ
apic_eoi_reg = 0xb0

abbrev pub apic_spurious : ℕ
apic_spurious = 0xf0

abbrev pub apic_lvt_tmr : ℕ
apic_lvt_tmr = 0x320

abbrev pub apic_lvt_perf : ℕ
apic_lvt_perf = 0x340

abbrev pub apic_lvt_lint0 : ℕ
apic_lvt_lint0 = 0x350

abbrev pub apic_lvt_lint1 : ℕ
apic_lvt_lint1 = 0x360

abbrev pub apic_tmrinitcnt : ℕ
apic_tmrinitcnt = 0x380

abbrev pub apic_tmrcurrcnt : ℕ
apic_tmrcurrcnt = 0x390

abbrev pub apic_tmrdiv : ℕ
apic_tmrdiv = 0x3e0

abbrev pub apic_disable : ℕ
apic_disable = 0x10000

abbrev pub apic_sw_enable : ℕ
apic_sw_enable = 0x100

abbrev pub tmr_periodic : ℕ
tmr_periodic = 0x20000

abbrev pub tmr_div_x1 : ℕ
tmr_div_x1 = 0xb

abbrev pub irq_timer : ℕ
irq_timer = 32

abbrev pub irq_spurious : ℕ
irq_spurious = 39

-- CMD_BINARY, CMD_MODE1, CMD_RW_BOTH and CMD_COUNTER2
abbrev pub pit_command : ℕ
pit_command = bit_or (bit_or (bit_or 0 0x02) 0x30) 0x80

abbrev pub pit_counter2 : ℕ
pit_counter2 = 0x42

abbrev pub pit_cmd : ℕ
pit_cmd = 0x43

abbrev pub pit_gate : ℕ
pit_gate = 0x61

abbrev pub cmd_ch2_in : ℕ
cmd_ch2_in = 0x01

abbrev pub cmd_ch2_out : ℕ
cmd_ch2_out = 0x20

abbrev pub pit_frequency : ℕ
pit_frequency = 1193182

-- The global pointers.
pub record Apic : Type 0 where
  pub lapic_ptr : ℕ
  pub ioapic_ptr : ℕ

-- The address of `lapic_ptr[idx / 4]`.
abbrev pub lapic_register : Apic → ℕ → ℕ
lapic_register apic idx = apic.lapic_ptr + 4 * (idx / 4)

abbrev pub lapic_write : Apic → ℕ → ℕ → Bus → Bus
lapic_write apic idx value bus = write (lapic_register apic idx) (value % 2 ^ 32) ∷ bus

abbrev pub lapic_read : Device → Apic → ℕ → Bus → ℕ × Bus
lapic_read device apic idx bus =
    let bus' = read (lapic_register apic idx) ∷ bus in (device bus' % 2 ^ 32, bus')

-- The offset of `first_entry` in a `madt_header_t`.
abbrev pub first_entry : ℕ
first_entry = header_size + 8

-- The fields of a `madt_entry_t`; the address of an I/O APIC stands behind two bytes of its data.
abbrev pub entry_type : Bytes → ℕ → ℕ
entry_type m entry = m entry

abbrev pub entry_length : Bytes → ℕ → ℕ
entry_length m entry = m (entry + 1)

abbrev pub ioapic_address : Bytes → ℕ → ℕ
ioapic_address m entry = load32 m (entry + 2 + 2)

-- The loop over the entries of the MADT up to its end, on fuel.
pub madt_loop : ℕ → ℕ → ℕ → Bytes → ℕ → Option ℕ
madt_loop zero stop entry m ioapic = none
madt_loop (suc fuel) stop entry m ioapic =
    let rest =
      madt_loop fuel stop (entry + entry_length m entry) m
        (if entry_type m entry == type_ioapic then ioapic_address m entry else ioapic) in
    if leb stop entry then some ioapic else rest

-- The writes at the end of `apic_init`.
abbrev pub apic_enable : Apic → Bus → Bus
apic_enable apic bus =
    let bus1 = x86_outb (0xa0 + 1) 0xff (x86_outb (0x20 + 1) 0xff bus) in
    let bus2 = lapic_write apic apic_spurious (bit_or irq_spurious apic_sw_enable) bus1 in
    let bus3 = lapic_write apic apic_lvt_perf apic_disable bus2 in
    let bus4 = lapic_write apic apic_lvt_lint0 apic_disable bus3 in
    let bus5 = lapic_write apic apic_lvt_lint1 apic_disable bus4 in
    lapic_write apic apic_taskprior 0 (lapic_write apic apic_eoi_reg 0 bus5)

-- `signature` is the address of the string "APIC".
pub apic_init : ℕ → ℕ → Acpi → Bytes → Apic → Bus → Option (Apic × Bus)
apic_init fuel signature acpi m apic bus = do
  header ← acpi_lookup acpi signature m
  kassert (not (header == 0))
  ioapic ← madt_loop fuel (header + table_length header m) (header + first_entry) m apic.ioapic_ptr
  kassert (not (ioapic == 0))
  let lapic = phys_to_virt (load32 m (header + header_size))
  kassert (not (lapic == 0))
  let apic' : Apic = record { lapic_ptr = lapic; ioapic_ptr = ioapic }
  some (apic', apic_enable apic' bus)

-- The wait for the output of channel 2, on fuel; with QEMU_PIT_HACK the other way round.
pub wait_gate : ℕ → Bool → Device → Bus → Option Bus
wait_gate zero qemu_pit_hack device bus = none
wait_gate (suc fuel) qemu_pit_hack device bus =
    let (gate, bus') = x86_inb device pit_gate bus in
    let out = not (bit_and gate cmd_ch2_out == 0) in
    let rest = wait_gate fuel qemu_pit_hack device bus' in
    if (if qemu_pit_hack then not out else out) then some bus' else rest

-- `apic_setup_timer` up to the wait.
abbrev pub start_callibration : Device → Apic → Bus → Bus
start_callibration device apic bus =
    let bus1 =
      lapic_write apic apic_tmrdiv tmr_div_x1 (lapic_write apic apic_lvt_tmr irq_timer bus) in
    let pit_divisor : ℕ = pit_frequency * callibrate_period / 1000 in
    let bus2 =
      x86_outb pit_counter2 (pit_divisor / 2 ^ 8)
        (x86_outb pit_counter2 pit_divisor (x86_outb pit_cmd pit_command bus1)) in
    let (low, bus3) = x86_inb device pit_gate bus2 in
    let bus4 = x86_outb pit_gate (bit_and low (255 - cmd_ch2_in)) bus3 in
    let (high, bus5) = x86_inb device pit_gate bus4 in
    lapic_write apic apic_tmrinitcnt (2 ^ 32 - 1) (x86_outb pit_gate (bit_or high cmd_ch2_in) bus5)

-- `apic_setup_timer` behind the wait.
abbrev pub finish_callibration : Device → Apic → Bus → Bus
finish_callibration device apic bus =
    let (count, bus1) =
      lapic_read device apic apic_tmrcurrcnt (lapic_write apic apic_lvt_tmr apic_disable bus) in
    let cpu_bus_freq = (2 ^ 32 - 1 - count) * 1000 / callibrate_period in
    let bus2 = lapic_write apic apic_tmrinitcnt (cpu_bus_freq * apic_timer_period / 1000) bus1 in
    lapic_write apic apic_lvt_tmr (bit_or irq_timer tmr_periodic)
      (lapic_write apic apic_tmrdiv tmr_div_x1 bus2)

pub apic_setup_timer : ℕ → Bool → Device → Apic → Bus → Option Bus
apic_setup_timer fuel qemu_pit_hack device apic bus = do
  kassert (not (apic.lapic_ptr == 0))
  bus' ← wait_gate fuel qemu_pit_hack device (start_callibration device apic bus)
  some (finish_callibration device apic bus')

unfoldable pub apic_eoi : Apic → Bus → Bus
apic_eoi apic bus = lapic_write apic apic_eoi_reg 0 bus
