-- ===== src/Tests.antt =====
-- Concrete inputs at which the theorems of the library apply.
mod Floats
mod Heaps
mod Pages
mod Locks
mod Screen
mod Tables
mod Devices
mod Strings
mod Paging
mod Kprintf
mod Bios
mod Serial
mod Start
mod Transfer
mod Allocations
mod Formats
mod RealStart
mod Sharing
