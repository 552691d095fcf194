-- ===== src/Tests/Transfer.antt =====
-- Runs of a block transfer and of the first page directory.
use tinu_os.Prelude.{ℕ, ◌+◌, ◌*◌, ◌≤◌, ◌<◌, bit_or, ◌≡◌, refl, ◌⊎◌, [], length, get_or}
use tinu_os.Memory.{Memory, load32}
use tinu_os.Ports.{Device}
use tinu_os.Ide.{Ide, port, control}
use tinu_os.Ide.Transfer.{ide_read_buffer, words, ide_read_buffer-words}

-- A disk that counts the port accesses.
abbrev counting : Device
counting t p = length t

abbrev one_channel : Ide
one_channel = record {
  channels = λ _. record { base = 0x1F0; ctrl = 0x3F6; bmide = 0; nien = 0 };
  trace = [];
  log = [];
}

abbrev no_bytes : Memory
no_bytes _ = 0

ide_read_buffer-words_example :
    let m' = (ide_read_buffer counting 0 0x08 0x5000 128 no_bytes one_channel).0 in
    let c = one_channel.channels 0 in
    let t = control c 0x08 (bit_or 0x80 c.nien) [] in
    ((i : ℕ) → i < 128 → load32 m' (0x5000 + i * 4) ≡ get_or (words counting 0x1F2 128 t) i 0)
    × ((x : ℕ) → (x < 0x5000) ⊎ (0x5000 + 128 * 4 ≤ x) → m' x ≡ no_bytes x)
unfolding port
ide_read_buffer-words_example =
    ide_read_buffer-words counting 0 0x08 0x5000 128 0x1F2 no_bytes one_channel refl
