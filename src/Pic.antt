-- ===== src/Pic.antt =====
-- arch/i386/drivers/pic.c on the ports of the two 8259A. A port gives back the byte that was last
-- written to it, as the data port of an initialized controller does with its mask.
pub mod Masks
use Prim.Native.Nat.{bit_and, bit_or}
use turnix.Base.{ℕ, ◌+◌, ◌-◌, ◌%◌, ◌^◌, List, [], ◌∷◌, ◌++◌, ◌==◌, ltb, leb, if◌then◌else◌, update}

-- The last byte of each port, and all that has been written, in order.
pub record Ports : Type 0 where
  pub port : ℕ → ℕ
  pub sent : List (ℕ × ℕ)

-- The ports of the master and the slave
abbrev pub cmd_master : ℕ
cmd_master = 0x20

abbrev pub cmd_slave : ℕ
cmd_slave = 0xa0

abbrev pub data_master : ℕ
data_master = 0x21

abbrev pub data_slave : ℕ
data_slave = 0xa1

abbrev pub iv_offset_master : ℕ
iv_offset_master = 32

abbrev pub iv_offset_slave : ℕ
iv_offset_slave = 40

abbrev pub cascade_irq : ℕ
cascade_irq = 2

abbrev pub irq_num : ℕ
irq_num = 8

abbrev pub eoi : ℕ
eoi = 0x20

abbrev pub outb : ℕ → ℕ → Ports → Ports
outb value port io = record {
  port = update io.port port (value % 2 ^ 8);
  sent = io.sent ++ (port, value % 2 ^ 8) ∷ [];
}

unfoldable pub pic_ack : ℕ → Ports → Ports
pic_ack irq io =
    if ltb irq (iv_offset_slave + 8)
    then outb eoi cmd_master (if leb iv_offset_slave irq then outb eoi cmd_slave io else io)
    else io

-- `~(1 << k)` as an `unsigned char`
abbrev pub mask_off : ℕ → ℕ
mask_off k = 2 ^ 8 - 1 - 2 ^ k % 2 ^ 8

unfoldable pub pic_init : Ports → Ports
pic_init io =
    let a = outb 0x11 cmd_slave (outb 0x11 cmd_master io) in
    let b = outb iv_offset_slave data_slave (outb iv_offset_master data_master a) in
    let c = outb cascade_irq data_slave (outb (2 ^ cascade_irq) data_master b) in
    let d = outb 0x01 data_slave (outb 0x01 data_master c) in
    outb 0xff data_slave (outb (mask_off cascade_irq) data_master d)

-- `irq -= PIC_IV_OFFSET_MASTER` on an `unsigned int`
abbrev pub line_of : ℕ → ℕ
line_of irq = (irq + 2 ^ 32 - iv_offset_master) % 2 ^ 32

-- A shift by 32 or more is undefined, so the interrupts are below 72.
unfoldable pub pic_disable : ℕ → Ports → Ports
pic_disable irq io =
    let line = line_of irq in
    let slave = line - irq_num in
    if line == cascade_irq
    then io
    else if ltb line irq_num
    then outb (bit_or (io.port data_master) (2 ^ line)) data_master io
    else outb (bit_or (io.port data_slave) (2 ^ slave)) data_slave io

unfoldable pub pic_enable : ℕ → Ports → Ports
pic_enable irq io =
    let line = line_of irq in
    let slave = line - irq_num in
    if line == cascade_irq
    then io
    else if ltb line irq_num
    then outb (bit_and (io.port data_master) (mask_off line)) data_master io
    else outb (bit_and (io.port data_slave) (mask_off slave)) data_slave io
