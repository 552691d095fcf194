-- ===== src/Ide/Registers.antt =====
-- The register map of drivers/ide.c.
use tinu_os.Prelude.{ℕ, ◌+◌, ◌-◌, ◌≤◌, ◌<◌, bit_or, ◌≡◌, some, ◌∷◌, arith, u16}
use tinu_os.Ports.{Device, outb, output}
use tinu_os.Ide.{
  Ide, port, write_port, read_port, control, ide_write, ide_read, ata_reg_control, port_base,
  ide_initialize,
}

-- A write to a register from 8 to 11 is a write to the register six below it, between two writes to
-- the control register: the first with its highest bit set, the second without.
pub ide_write_high :
    (channel reg value : ℕ) (s : Ide)
    → 0x08 ≤ reg
    → reg < 0x0C
    → let c = s.channels channel in
      ide_write channel reg value s
      ≡ ide_write channel ata_reg_control c.nien (
          ide_write channel
            (reg - 6)
            value
            (ide_write channel ata_reg_control (bit_or 0x80 c.nien) s))
unfolding ide_write control write_port port
ide_write_high channel reg value s lo hi = ground arith

-- So it is when such a register is read.
pub ide_read_high :
    (device : Device) (channel reg : ℕ) (s : Ide)
    → 0x08 ≤ reg
    → reg < 0x0C
    → let c = s.channels channel in
      let (v, s') =
        ide_read device channel
          (reg - 6)
          (ide_write channel ata_reg_control (bit_or 0x80 c.nien) s) in
      ide_read device channel reg s ≡ (v, ide_write channel ata_reg_control c.nien s')
unfolding ide_read ide_write control read_port write_port port
ide_read_high device channel reg s lo hi = ground arith

-- `ide_initialize` writes 2 to the control port of the first channel and then of the second. The
-- control ports, and the ports of the command registers afterwards, are those of the base address
-- registers or, where these are 0, the standard ones.
pub ide_initialize_lem :
    (bar0 bar1 bar2 bar3 bar4 : ℕ) (s : Ide)
    → let s' = ide_initialize bar0 bar1 bar2 bar3 bar4 s in
      (s'.trace
        ≡ output 2 (u16 (port_base bar3 0x374 + 2))
          ∷ output 2 (u16 (port_base bar1 0x3F4 + 2))
          ∷ s.trace)
      × (port (s'.channels 0) 0x07 ≡ some (u16 (port_base bar0 0x1F0 + 7)))
      × (port (s'.channels 1) 0x07 ≡ some (u16 (port_base bar2 0x170 + 7)))
unfolding ide_initialize ide_write control write_port port outb
ide_initialize_lem bar0 bar1 bar2 bar3 bar4 s = ground arith
