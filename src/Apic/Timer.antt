-- ===== src/Apic/Timer.antt =====
-- `apic_setup_timer` of drivers/apic.c sets the period of the timer to the time it measures.
use heaven_os.Prelude.{
  ℕ, zero, suc, ◌+◌, ◌-◌, ◌*◌, ◌/◌, ◌%◌, ◌^◌, ◌<◌, ◌≡◌, ◌≢◌, ◌==◌, not, Bool, true, false, refl,
  arith, some, ◌∷◌, if◌then◌else◌, bit_and,
}
use heaven_os.Apic.{
  Apic, write, read, inb, Bus, Device, x86_inb, pit_gate, cmd_ch2_out, wait_gate, lapic_register,
  apic_lvt_tmr, apic_tmrdiv, apic_tmrinitcnt, apic_tmrcurrcnt, apic_disable, start_callibration,
  apic_setup_timer,
}

-- The actions behind `n` reads of the gate.
abbrev pub polled : ℕ → Bus → Bus
polled zero bus = bus
polled (suc n) bus = polled n (inb pit_gate ∷ bus)

-- The next read of the gate shows that the time is over.
abbrev pub is_over : Bool → Device → Bus → Bool
is_over qemu_pit_hack device bus =
    let (gate, bus') = x86_inb device pit_gate bus in
    if qemu_pit_hack then bit_and gate cmd_ch2_out == 0 else not (bit_and gate cmd_ch2_out == 0)

-- The time is over at the read behind `n` others, and not before.
pub data OverAt (qemu_pit_hack : Bool) (device : Device) : ℕ → Bus → Type 0 where
  now : (bus : Bus) → is_over qemu_pit_hack device bus ≡ true → OverAt qemu_pit_hack device 0 bus
  later :
      (n : ℕ) (bus : Bus)
      → is_over qemu_pit_hack device bus ≡ false
      → OverAt qemu_pit_hack device n (inb pit_gate ∷ bus)
      → OverAt qemu_pit_hack device (suc n) bus

wait_gate-polled :
    (n fuel : ℕ) (qemu_pit_hack : Bool) (device : Device) (bus : Bus)
    → OverAt qemu_pit_hack device n bus
    → n < fuel
    → wait_gate fuel qemu_pit_hack device bus ≡ some (polled (suc n) bus)
unfolding wait_gate
wait_gate-polled n zero hack device bus h enough = absurd (omega (arith, enough))
wait_gate-polled zero (suc fuel) true device bus (now b over) enough = rw over refl
wait_gate-polled zero (suc fuel) false device bus (now b over) enough = rw over refl
wait_gate-polled (suc n) (suc fuel) true device bus (later k b not_yet h) enough =
    let rest = wait_gate-polled n fuel true device (inb pit_gate ∷ bus) h (omega (arith, enough)) in
    rw (not_yet, rest) refl
wait_gate-polled (suc n) (suc fuel) false device bus (later k b not_yet h) enough =
    let rest =
      wait_gate-polled n fuel false device (inb pit_gate ∷ bus) h (omega (arith, enough)) in
    rw (not_yet, rest) refl

-- What is left on the counter of the timer when it is stopped behind some actions.
abbrev pub left_over : Device → Apic → Bus → ℕ
left_over device apic bus =
    device (
      read (lapic_register apic apic_tmrcurrcnt)
      ∷ write (lapic_register apic apic_lvt_tmr) apic_disable
      ∷ bus)
    % 2 ^ 32

-- With a local APIC, when the gate of the PIT shows the end of the time behind `n` other reads, on
-- fuel that exceeds `n`, `apic_setup_timer` ends: its last actions are to stop the timer, to read its
-- counter, which ran down from 2^32 - 1, to make the ticks that it counted its initial count, to
-- divide by one, and to start it as a periodic timer with the vector of the timer interrupt.
pub apic_setup_timer-ticks :
    (n fuel : ℕ) (qemu_pit_hack : Bool) (device : Device) (apic : Apic) (bus : Bus)
    → apic.lapic_ptr ≢ 0
    → OverAt qemu_pit_hack device n (start_callibration device apic bus)
    → n < fuel
    → apic_setup_timer fuel qemu_pit_hack device apic bus ≡ (
        let waited = polled (suc n) (start_callibration device apic bus) in
        some (
          write (lapic_register apic apic_lvt_tmr) (0x20000 + 32)
          ∷ write (lapic_register apic apic_tmrdiv) 0xb
          ∷ write (lapic_register apic apic_tmrinitcnt) (2 ^ 32 - 1 - left_over device apic waited)
          ∷ read (lapic_register apic apic_tmrcurrcnt)
          ∷ write (lapic_register apic apic_lvt_tmr) apic_disable
          ∷ waited))
unfolding apic_setup_timer
apic_setup_timer-ticks n fuel hack device apic bus there over enough =
    let there' : (apic.lapic_ptr == 0) ≡ false = ground (arith, there) in
    let waited = polled (suc n) (start_callibration device apic bus) in
    let count = left_over device apic waited in
    let ticks : (2 ^ 32 - 1 - count) * 1000 / 10 * 10 / 1000 % 2 ^ 32 ≡ 2 ^ 32 - 1 - count =
      omega arith in
    let done =
      wait_gate-polled n fuel hack device (start_callibration device apic bus) over enough in
    rw (there', done, ticks) refl
