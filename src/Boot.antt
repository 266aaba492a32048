-- ===== src/Boot.antt =====
-- What the start sets up: main of kernel/main.c up to arch_init, pit_init of arch/i386/drivers/pit.c,
-- cmos_init of arch/i386/drivers/cmos.c, and the interrupts of arch_init of arch/i386/kernel/arch.c.
pub mod Wired
use Prim.Native.Nat.{bit_and}
use turnix.Base.{
  ℕ, zero, suc, ◌+◌, ◌-◌, ◌*◌, ◌/◌, ◌%◌, ◌^◌, Bool, Option, none, some, List, [], ◌∷◌, ◌++◌, codes,
  ◌==◌, if◌then◌else◌,
}
use turnix.Kernel.{Timeval, Run, ok, panic, ◌>>=◌}
use turnix.Calendar.{Tm, mktime}
use turnix.Clock.{Clocks, Timezone, settimeofday}
use turnix.Cmos.{Device, cmos_read_tm}
use turnix.Commands.{say}
use turnix.Stdio.{number}
use turnix.Pic.{Ports, outb, pic_enable}
use turnix.Idt.{Id386, interrupt_register, interrupt_init}

-- `struct multiboot_info`
pub record MultibootInfo : Type 0 where
  pub flags : ℕ
  pub mem_lower : ℕ
  pub mem_upper : ℕ

-- What main prints of the memory, and the structure that it leaves; without the flag it ends in abort, whose
-- message is left out.
unfoldable pub show_ram : MultibootInfo → ℕ → Run (List ℕ × MultibootInfo)
show_ram info kernel_end =
    let lower = info.mem_lower * 1024 % 2 ^ 32 in
    let upper = (info.mem_upper * 1024 % 2 ^ 32 + 1024 * 1024) % 2 ^ 32 in
    if bit_and info.flags 1 == 0 then panic else do
      a ← say (codes "  lower: %08x - %08x\n") (number 0 ∷ number lower ∷ [])
      b ← say (codes "  upper: %08x - %08x\n") (number (1024 * 1024) ∷ number upper ∷ [])
      c ← say (codes "  heap:  %08x - %08x\n") (number kernel_end ∷ number upper ∷ [])
      ok (codes "RAM:\n" ++ (a ++ (b ++ c)), record info { mem_lower = lower; mem_upper = upper })

-- The time of the CMOS clock is printed and set. The structure on the stack starts with any values.
unfoldable pub cmos_init : ℕ → Device → Tm → Clocks → Timezone → Run (List ℕ × Clocks × Timezone)
cmos_init f dev tm c zone = do
  (now, readings) ← cmos_read_tm f dev tm 0
  out ← say (codes "Date: %04d-%02d-%02dT%02d:%02d:%02dZ\n") (
      number (now.tm_year + 1900)
      ∷ number (now.tm_mon + 1)
      ∷ number now.tm_mday
      ∷ number now.tm_hour
      ∷ number now.tm_min
      ∷ number now.tm_sec
      ∷ [])
  let (set, same_zone) =
      settimeofday (some (record { tv_sec = mktime now; tv_usec = 0 })) none c zone
  ok (out, set, same_zone)

abbrev pub pit_hz : ℕ
pit_hz = 1193180

-- `CONFIG_HZ` of Config.mk
abbrev pub config_hz : ℕ
config_hz = 100

abbrev pub pit_irq : ℕ
pit_irq = 32

abbrev pub keyboard_irq : ℕ
keyboard_irq = 33

abbrev pub pit_port_ctrl : ℕ
pit_port_ctrl = 0x43

abbrev pub pit_port_chan : ℕ
pit_port_chan = 0x40

-- The channel 0 with both bytes and a square wave
abbrev pub pit_mode : ℕ
pit_mode = 0 * 2 ^ 6 + 3 * 2 ^ 4 + 3 * 2

abbrev pub divisor : ℕ
divisor = pit_hz / config_hz

abbrev pub set_rate : Ports → Ports
set_rate io =
    outb (divisor / 2 ^ 8) pit_port_chan
      (outb divisor pit_port_chan (outb pit_mode pit_port_ctrl io))

module _ {ℓ} {H : Type ℓ} (irq_max : ℕ) (interrupt_default_handler : H) where
  -- interrupt_register and pic_enable, as a driver calls them
  abbrev pub attach : ℕ → H → (ℕ → H) → Ports → (ℕ → H) × Ports
  attach irq handler table io = (
    (interrupt_register irq_max interrupt_default_handler irq (some handler) table).1,
    pic_enable irq io,
  )

  unfoldable pub pit_init : H → (ℕ → H) → Ports → (ℕ → H) × Ports
  pit_init pic_handler table io = attach pit_irq pic_handler table (set_rate io)

  -- The interrupts after arch_init: interrupt_init, pit_init and keyboard_init
  unfoldable pub arch_interrupts : List (Option ℕ) → H → H → Ports → (ℕ → H) × Ports
  arch_interrupts isr pic_handler keyboard_handler io =
      let (none_set, gates, quiet) = interrupt_init irq_max interrupt_default_handler isr io in
      let (timed, ticking) = pit_init pic_handler none_set quiet in
      attach keyboard_irq keyboard_handler timed ticking
