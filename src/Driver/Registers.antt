-- ===== src/Driver/Registers.antt =====
-- The numbers of registers, and the flags in them, that e1000.c writes.
use burst_kernel_virtual_mac.Base.{ℕ, ◌*◌, ◌^◌}

abbrev pub pci_cfg_addr : ℕ
pci_cfg_addr = 0xCF8

abbrev pub pci_cfg_data : ℕ
pci_cfg_data = 0xCFC

abbrev pub e1000_ims : ℕ
e1000_ims = 0x000D0

abbrev pub e1000_rctl : ℕ
e1000_rctl = 0x00100

abbrev pub e1000_tctl : ℕ
e1000_tctl = 0x00400

abbrev pub e1000_rdbal : ℕ
e1000_rdbal = 0x02800

abbrev pub e1000_rdbah : ℕ
e1000_rdbah = 0x02804

abbrev pub e1000_rdlen : ℕ
e1000_rdlen = 0x02808

abbrev pub e1000_rdh : ℕ
e1000_rdh = 0x02810

abbrev pub e1000_rdt : ℕ
e1000_rdt = 0x02818

abbrev pub e1000_tdbal : ℕ
e1000_tdbal = 0x03800

abbrev pub e1000_tdbah : ℕ
e1000_tdbah = 0x03804

abbrev pub e1000_tdlen : ℕ
e1000_tdlen = 0x03808

abbrev pub e1000_tdh : ℕ
e1000_tdh = 0x03810

abbrev pub e1000_tdt : ℕ
e1000_tdt = 0x03818

abbrev pub rctl_en : ℕ
rctl_en = 2 ^ 1

abbrev pub rctl_sbp : ℕ
rctl_sbp = 2 ^ 2

abbrev pub rctl_upe : ℕ
rctl_upe = 2 ^ 3

abbrev pub rctl_mpe : ℕ
rctl_mpe = 2 ^ 4

abbrev pub rctl_lbm_none : ℕ
rctl_lbm_none = 0 * 2 ^ 6

abbrev pub rctl_bam : ℕ
rctl_bam = 2 ^ 15

abbrev pub rctl_secrc : ℕ
rctl_secrc = 2 ^ 26

abbrev pub rctl_bsize_2048 : ℕ
rctl_bsize_2048 = 0 * 2 ^ 16

abbrev pub tctl_en : ℕ
tctl_en = 2 ^ 1

abbrev pub tctl_psp : ℕ
tctl_psp = 2 ^ 3
