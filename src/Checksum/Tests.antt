-- ===== src/Checksum/Tests.antt =====
-- Runs of the checksums.
use burst_kernel_virtual_mac.Base.{◌/◌, ◌%◌, ◌<◌, ◌≡◌, ◌↔◌, some, arith}
use burst_kernel_virtual_mac.Samples.{of_list, outward, outward-IsBytes}
use burst_kernel_virtual_mac.Checksum.{ip_checksum}
use burst_kernel_virtual_mac.Checksum.Words.{word_sum}
use burst_kernel_virtual_mac.Checksum.Full.{ip_checksum-zero_iff}

ip_checksum-zero_iff_example : (ip_checksum (of_list outward) 14 20 ≡ some 0) ↔ (
    (word_sum (of_list outward).at 14 (20 / 2) % 0xFFFF ≡ 0)
    × (0 < word_sum (of_list outward).at 14 (20 / 2)))
ip_checksum-zero_iff_example =
    ip_checksum-zero_iff (of_list outward) 14 20 outward-IsBytes (omega arith) (omega arith)
