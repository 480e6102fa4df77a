-- ===== src/Ata/Tests.antt =====
-- Runs of the disk transfers.
use burst_kernel_virtual_mac.Base.{ℕ, zero, suc, ◌^◌, ◌<◌, ◌≡◌, refl, arith, get_or, replicate}
use burst_kernel_virtual_mac.Ata.{ata_read_sector, ata_write_sector}
use burst_kernel_virtual_mac.Ata.Transfer.{IsSector, sent_words, read-write_sector}

replicate-byte : (n i : ℕ) → get_or (replicate n 0xA5) i 0 < 2 ^ 8
replicate-byte zero i = omega arith
replicate-byte (suc n) zero = omega arith
replicate-byte (suc n) (suc i) = replicate-byte n i

pattern-IsSector : IsSector (replicate 512 0xA5)
pattern-IsSector = (refl, replicate-byte 512)

read-write_sector_example :
    (ata_read_sector 7 (sent_words (ata_write_sector 7 (replicate 512 0xA5))) (replicate 512 0)).1
    ≡ replicate 512 0xA5
read-write_sector_example =
    read-write_sector 7 7 (replicate 512 0xA5) (replicate 512 0) pattern-IsSector refl
