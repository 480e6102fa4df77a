-- ===== src/Ata.antt =====
-- ata.c: the port accesses of a sector's transfer, in order, and the bytes that it moves. The disk
-- answers a read with 256 words, which are an argument.
pub mod Transfer
mod Tests
use burst_kernel_virtual_mac.Base.{
  ℕ, zero, suc, ◌+◌, ◌*◌, ◌/◌, ◌%◌, ◌^◌, Option, none, some, List, [], ◌∷◌, ◌++◌, set, get_or,
}

pub data PortOp : Type 0 where
  outb : ℕ → ℕ → PortOp
  outw : ℕ → ℕ → PortOp
  inw : ℕ → PortOp
  wait_bsy : PortOp
  wait_drq : PortOp

-- The ports and commands of ata.c.
abbrev pub ata_data_port : ℕ
ata_data_port = 0x1F0

abbrev pub ata_sector_count_port : ℕ
ata_sector_count_port = 0x1F2

abbrev pub ata_lba_low_port : ℕ
ata_lba_low_port = 0x1F3

abbrev pub ata_lba_mid_port : ℕ
ata_lba_mid_port = 0x1F4

abbrev pub ata_lba_high_port : ℕ
ata_lba_high_port = 0x1F5

abbrev pub ata_drive_port : ℕ
ata_drive_port = 0x1F6

abbrev pub ata_command_port : ℕ
ata_command_port = 0x1F7

abbrev pub ata_cmd_read_pio : ℕ
ata_cmd_read_pio = 0x20

abbrev pub ata_cmd_write_pio : ℕ
ata_cmd_write_pio = 0x30

-- What both transfers begin with; `0xE0 | x` is a sum, for `x` has four bits.
unfoldable pub select_sector : ℕ → ℕ → List PortOp
select_sector lba command =
    wait_bsy
    ∷ outb ata_drive_port (0xE0 + lba / 2 ^ 24 % 2 ^ 4)
    ∷ outb ata_sector_count_port 1
    ∷ outb ata_lba_low_port (lba % 2 ^ 8)
    ∷ outb ata_lba_mid_port (lba / 2 ^ 8 % 2 ^ 8)
    ∷ outb ata_lba_high_port (lba / 2 ^ 16 % 2 ^ 8)
    ∷ outb ata_command_port command
    ∷ wait_bsy
    ∷ wait_drq
    ∷ []

-- The loop of the read, `i` on, with the words that the port still gives.
unfoldable pub read_words : List ℕ → ℕ → List ℕ → List ℕ
read_words [] i buffer = buffer
read_words (word ∷ words) i buffer =
    read_words words (i + 1)
      (set (set buffer (i * 2) (word % 2 ^ 8)) (i * 2 + 1) (word / 2 ^ 8 % 2 ^ 8))

abbrev pub read_ops : List ℕ → List PortOp
read_ops [] = []
read_ops (word ∷ words) = inw ata_data_port ∷ read_ops words

-- The accesses, and the buffer after them.
unfoldable pub ata_read_sector : ℕ → List ℕ → List ℕ → List PortOp × List ℕ
ata_read_sector lba words buffer =
    (select_sector lba ata_cmd_read_pio ++ read_ops words, read_words words 0 buffer)

-- The words that the loop of the write sends, `i` on, `n` of them; the bytes of a word are disjoint,
-- so that `|` is a sum.
unfoldable pub write_words : ℕ → ℕ → List ℕ → List ℕ
write_words zero i buffer = []
write_words (suc n) i buffer =
    (get_or buffer (i * 2) 0 + get_or buffer (i * 2 + 1) 0 * 2 ^ 8) ∷ write_words n (i + 1) buffer

abbrev pub write_ops : List ℕ → List PortOp
write_ops [] = []
write_ops (word ∷ words) = outw ata_data_port word ∷ write_ops words

unfoldable pub ata_write_sector : ℕ → List ℕ → List PortOp
ata_write_sector lba buffer =
    select_sector lba ata_cmd_write_pio
    ++ (write_ops (write_words 256 0 buffer) ++ outb ata_command_port 0xEA ∷ wait_bsy ∷ [])
