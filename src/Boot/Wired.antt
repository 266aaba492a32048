-- ===== src/Boot/Wired.antt =====
-- Which interrupts come through after the start, and what they call.
use turnix.Base.{ℕ, ◌≡◌, ◌≤◌, arith, false, not, ◌==◌, if◌then◌else◌, Option, List}
use turnix.Pic.{Ports, pic_init, pic_enable}
use turnix.Pic.Masks.{is_masked, IsLine, is_masked-enable, init-Shows}
use turnix.Idt.{interrupt_register}
use turnix.Boot.{arch_interrupts, pit_init, set_rate}

set_rate-masked : (j : ℕ) (io : Ports) → is_masked j (set_rate io) ≡ is_masked j io
set_rate-masked j io = ground arith

enables-masked :
    (j : ℕ) (io : Ports)
    → IsLine j
    → is_masked j (pic_enable 33 (pic_enable 32 (set_rate (pic_init io))))
      ≡ (if j == 32 then false else if j == 33 then false else not (j == 34))
enables-masked j io line =
    let q = set_rate (pic_init io) in
    let last = is_masked-enable 33 j (pic_enable 32 q) (omega arith, omega arith) line in
    let first = is_masked-enable 32 j q (omega arith, omega arith) line in
    ground (arith, last, first, set_rate-masked j (pic_init io), init-Shows io j line)

module _ {H : Type 0} (irq_max : ℕ) (default pit keyboard : H) (isr : List (Option ℕ))
    (io : Ports) where
  -- The timer, the keyboard and the cascade come through.
  arch_interrupts-masked :
      (j : ℕ)
      → IsLine j
      → is_masked j (arch_interrupts irq_max default isr pit keyboard io).1
        ≡ (if j == 32 then false else if j == 33 then false else not (j == 34))
  unfolding arch_interrupts pit_init
  arch_interrupts-masked j line = enables-masked j io line

  -- The timer and the keyboard have their handlers.
  arch_interrupts-handler :
      33 ≤ irq_max
      → (j : ℕ)
      → (arch_interrupts irq_max default isr pit keyboard io).0 j
        ≡ (if j == 32 then pit else if j == 33 then keyboard else default)
  unfolding arch_interrupts pit_init interrupt_register
  arch_interrupts-handler room j = ground (arith, room)
