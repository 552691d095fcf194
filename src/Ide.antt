-- ===== src/Ide.antt =====
-- drivers/ide.c: the registers of the disk controller.
pub mod Registers
pub mod Polling
pub mod Errors
pub mod Transfer
use Prim.Native.String.{String}
use tinu_os.Prelude.{
  ℕ, zero, suc, ◌+◌, ◌-◌, ◌*◌, bit_and, bit_or, not, ◌&&◌, Option, none, some, List, ◌∷◌, ltb, ◌==◌,
  if◌then◌else◌, u16,
}
use tinu_os.Ports.{Trace, Device, outb, inb}

-- `struct IDEChannelRegisters`.
pub record Channel : Type 0 where
  pub base : ℕ
  pub ctrl : ℕ
  pub bmide : ℕ
  pub nien : ℕ

-- What is printed: a text, or the line that names the channel, the position and the model of a drive.
pub data Message : Type 0 where
  text : String → Message
  place : (drive : ℕ) → Message

-- `channels`, with what the ports have seen and what was printed, newest first.
pub record Ide : Type 0 where
  pub channels : ℕ → Channel
  pub trace : Trace
  pub log : List Message

abbrev pub print : Message → Ide → Ide
print m s = record s { log = m ∷ s.log }

abbrev pub ata_reg_error : ℕ
ata_reg_error = 0x01

abbrev pub ata_reg_status : ℕ
ata_reg_status = 0x07

abbrev pub ata_reg_control : ℕ
ata_reg_control = 0x0C

abbrev pub ata_reg_altstatus : ℕ
ata_reg_altstatus = 0x0C

-- The port that the chain of `if`s comes to for a register, if any.
unfoldable pub port : Channel → ℕ → Option ℕ
port c reg =
    if ltb reg 0x08
    then some (u16 (c.base + reg))
    else if ltb reg 0x0C
    then some (u16 (c.base + reg - 0x06))
    else if ltb reg 0x0E
    then some (u16 (c.ctrl + reg - 0x0A))
    else if ltb reg 0x16
    then some (u16 (c.bmide + reg - 0x0E))
    else none

-- The second to fifth `if` of `ide_write`.
unfoldable pub write_port : Option ℕ → ℕ → Trace → Trace
write_port none value t = t
write_port (some p) value t = outb value p t

-- `if (reg > 0x07 && reg < 0x0C) ide_write(channel, ATA_REG_CONTROL, …);`. That call takes neither of the two
-- such `if`s itself, since its register is 0x0C.
unfoldable pub control : Channel → ℕ → ℕ → Trace → Trace
control c reg value t =
    if ltb 0x07 reg && ltb reg 0x0C then write_port (port c ata_reg_control) value t else t

unfoldable pub ide_write : ℕ → ℕ → ℕ → Ide → Ide
unfolding control write_port
ide_write channel reg value s =
    let c = s.channels channel in
    let t = control c reg (bit_or 0x80 c.nien) s.trace in
    let t = write_port (port c reg) value t in record s { trace = control c reg c.nien t }

-- `result` is not set when no port belongs to the register.
unfoldable pub read_port : Device → Option ℕ → Trace → Option ℕ × Trace
read_port device none t = (none, t)
read_port device (some p) t = (let (v, t') = inb device p t in (some v, t'))

unfoldable pub ide_read : Device → ℕ → ℕ → Ide → Option ℕ × Ide
unfolding control read_port
ide_read device channel reg s =
    let c = s.channels channel in
    let t = control c reg (bit_or 0x80 c.nien) s.trace in
    let (v, t') = read_port device (port c reg) t in
    (v, record s { trace = control c reg c.nien t' })

-- The byte that is read, or 0.
abbrev pub byte : Option ℕ → ℕ
byte none = 0
byte (some v) = v

unfoldable pub status : Device → ℕ → Ide → ℕ × Ide
status device channel s = (let (v, s') = ide_read device channel ata_reg_status s in (byte v, s'))

-- `while (ide_read(channel, ATA_REG_STATUS) & ATA_SR_BSY);`: none if the drive is busy for so many rounds.
unfoldable pub wait_ready : Device → ℕ → ℕ → Ide → Option Ide
wait_ready device zero channel s = none
wait_ready device (suc fuel) channel s =
    let (v, s') = status device channel s in
    let rest = wait_ready device fuel channel s' in if bit_and v 0x80 == 0 then some s' else rest

-- The error that a status byte stands for.
unfoldable pub check_state : ℕ → ℕ
check_state state =
    if not (bit_and state 0x01 == 0)
    then 2
    else if not (bit_and state 0x20 == 0)
    then 1
    else if bit_and state 0x08 == 0
    then 3
    else 0

unfoldable pub delay : Device → ℕ → Ide → Ide
delay device channel s =
    let s = (ide_read device channel ata_reg_altstatus s).1 in
    let s = (ide_read device channel ata_reg_altstatus s).1 in
    let s = (ide_read device channel ata_reg_altstatus s).1 in
    (ide_read device channel ata_reg_altstatus s).1

unfoldable pub ide_polling : Device → ℕ → ℕ → ℕ → Ide → Option (ℕ × Ide)
unfolding wait_ready delay
ide_polling device fuel channel advanced_check s =
    elim (wait_ready device fuel channel (delay device channel s)) [
      | none ↦ none
      | some s' ↦
          if advanced_check == 0
          then some (0, s')
          else (let (v, s'') = status device channel s' in some (check_state v, s''))
    ]

-- The `if`s on the error register: each that holds replaces the code.
unfoldable pub error_code : ℕ → ℕ
error_code st =
    let err : ℕ = 2 in
    let err = if bit_and st 0x01 == 0 then err else 7 in
    let err = if bit_and st 0x02 == 0 then err else 3 in
    let err = if bit_and st 0x04 == 0 then err else 20 in
    let err = if bit_and st 0x08 == 0 then err else 3 in
    let err = if bit_and st 0x10 == 0 then err else 21 in
    let err = if bit_and st 0x20 == 0 then err else 3 in
    let err = if bit_and st 0x40 == 0 then err else 22 in if bit_and st 0x80 == 0 then err else 13

-- What the same `if`s print.
unfoldable pub say : ℕ → ℕ → String → List Message → List Message
say st mask message log = if bit_and st mask == 0 then log else text message ∷ log

unfoldable pub error_messages : ℕ → List Message → List Message
unfolding say
error_messages st log =
    let log = say st 0x01 "- No Address Mark Found\n" log in
    let log = say st 0x02 "- No Media or Media Error\n" log in
    let log = say st 0x04 "- Command Aborted\n" log in
    let log = say st 0x08 "- No Media or Media Error\n" log in
    let log = say st 0x10 "- ID Mark Not Found\n" log in
    let log = say st 0x20 "- No Media or Media Error\n" log in
    let log = say st 0x40 "- Uncorrectable Data Error\n" log in say st 0x80 "- Bad Sectors\n" log

-- The branches on `err`.
unfoldable pub explain : Device → ℕ → ℕ → Ide → ℕ × Ide
unfolding error_code error_messages
explain device channel err s =
    if err == 1
    then (19, print (text "- Device Fault\n") s)
    else if err == 2
    then (let (v, s') = ide_read device channel ata_reg_error s in
        (error_code (byte v), record s' { log = error_messages (byte v) s'.log }))
    else if err == 3
    then (23, print (text "- Reads Nothing\n") s)
    else if err == 4
    then (8, print (text "- Write Protected\n") s)
    else (err, s)

-- `ide_devices[drive].channel` is a parameter.
unfoldable pub ide_print_error : Device → (ℕ → ℕ) → ℕ → ℕ → Ide → ℕ × Ide
unfolding explain
ide_print_error device channel_of drive err s =
    let (err', s') = explain device (channel_of drive) err (print (text " IDE:") s) in
    if err == 0 then (err, s) else (err', print (place drive) s')

-- `(BAR &= 0xFFFFFFFC) + standard*(!BAR)`, in a field of 16 bits.
unfoldable pub port_base : ℕ → ℕ → ℕ
port_base bar standard =
    let bar = bit_and bar 0xFFFF_FFFC in u16 (bar + standard * (if bar == 0 then 1 else 0))

unfoldable pub ide_initialize : ℕ → ℕ → ℕ → ℕ → ℕ → Ide → Ide
unfolding port_base
ide_initialize bar0 bar1 bar2 bar3 bar4 s =
    let primary : Channel = record (s.channels 0) {
      base = port_base bar0 0x1F0;
      ctrl = port_base bar1 0x3F4;
      bmide = u16 (bit_and bar4 0xFFFF_FFFC);
    } in
    let secondary : Channel = record (s.channels 1) {
      base = port_base bar2 0x170;
      ctrl = port_base bar3 0x374;
      bmide = u16 (bit_and bar4 0xFFFF_FFFC + 8);
    } in
    let channels : ℕ → Channel =
      λ i. if i == 0 then primary else if i == 1 then secondary else s.channels i in
    ide_write 1 ata_reg_control 2 (ide_write 0 ata_reg_control 2 (record s { channels = channels }))
