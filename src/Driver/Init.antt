-- ===== src/Driver/Init.antt =====
-- The start of e1000.c: the scan of the PCI slots, and the rings of each device that was found. What the
-- hardware answers is an argument: a function of the address of a configuration register, and one of a
-- device and its register. A register is read as if no write changed it. Pointers are numbers, those into
-- the heap `base` and an offset.
pub mod Scan
pub mod Rings
use burst_kernel_virtual_mac.Base.{
  ℕ, zero, suc, ◌+◌, ◌-◌, ◌*◌, ◌/◌, ◌%◌, ◌^◌, Bool, true, false, ◌&&◌, Option, none, some, List, [],
  ◌∷◌, ◌++◌, ltb, ◌==◌, length, if◌then◌else◌, ◌>>=◌,
}
use burst_kernel_virtual_mac.Heap.{kmalloc}
use burst_kernel_virtual_mac.Driver.Registers.{
  pci_cfg_addr, pci_cfg_data, e1000_ims, e1000_rctl, e1000_tctl, e1000_rdbal, e1000_rdbah,
  e1000_rdlen, e1000_rdh, e1000_rdt, e1000_tdbal, e1000_tdbah, e1000_tdlen, e1000_tdh, e1000_tdt,
  rctl_en, rctl_sbp, rctl_upe, rctl_mpe, rctl_lbm_none, rctl_bam, rctl_secrc, rctl_bsize_2048,
  tctl_en, tctl_psp,
}
use burst_kernel_virtual_mac.Driver.{e1000_rx_ring_size, e1000_tx_ring_size, RxDesc, TxDesc, Device}

-- `outl`, and `inl`.
pub data PciOp : Type 0 where
  outl : ℕ → ℕ → PciOp
  inl_port : ℕ → PciOp

abbrev pub intel_vid : ℕ
intel_vid = 0x8086

abbrev pub e1000_did : ℕ
e1000_did = 0x100E

abbrev pub max_e1000_devices : ℕ
max_e1000_devices = 4

-- The address of a configuration register, for a device below 32 and a function below 8: then no two of
-- the shifted fields overlap.
unfoldable pub pci_address : ℕ → ℕ → ℕ → ℕ → ℕ
pci_address bus dev func offset =
    2 ^ 31 + bus * 2 ^ 16 + dev * 2 ^ 11 + func * 2 ^ 8 + offset % 256 / 4 * 4

abbrev pub pci_read_ops : ℕ → List PciOp
pci_read_ops address = outl pci_cfg_addr address ∷ inl_port pci_cfg_data ∷ []

abbrev pub pci_write_ops : ℕ → ℕ → List PciOp
pci_write_ops address val = outl pci_cfg_addr address ∷ outl pci_cfg_data val ∷ []

-- `cmd | (1 << 2) | (1 << 1)`
unfoldable pub enable : ℕ → ℕ
enable cmd = cmd / 8 * 8 + 6 + cmd % 2

-- The device in the slot `dev` of the bus `bus`.
unfoldable pub is_e1000 : (ℕ → ℕ) → ℕ → ℕ → Bool
is_e1000 pci bus dev =
    let vendor_device = pci (pci_address bus dev 0 0) in
    vendor_device % 2 ^ 16 == intel_vid && vendor_device / 2 ^ 16 == e1000_did

-- `bar0 & 0xFFFFFFF0`
unfoldable pub mmio_base : (ℕ → ℕ) → ℕ → ℕ → ℕ
mmio_base pci bus dev = pci (pci_address bus dev 0 16) / 16 * 16

-- The `mmio` fields that are set, one for each of the `num_e1000_devices`, and the port accesses.
pub record Devices : Type 0 where
  pub mmio : List ℕ
  pub ops : List PciOp

-- The body of the two loops.
unfoldable pub probe : (ℕ → ℕ) → ℕ → ℕ → Devices → Devices
probe pci bus dev ds =
    let asked = ds.ops ++ pci_read_ops (pci_address bus dev 0 0) in
    let command = pci_address bus dev 0 4 in
    if is_e1000 pci bus dev
    then record {
      mmio =
          if ltb (length ds.mmio) max_e1000_devices
          then ds.mmio ++ mmio_base pci bus dev ∷ []
          else ds.mmio;
      ops =
          asked
          ++ pci_read_ops command
          ++ pci_write_ops command (enable (pci command))
          ++ pci_read_ops (pci_address bus dev 0 16);
    }
    else record { mmio = ds.mmio; ops = asked }

-- `left` turns of the inner loop, the next one for `dev`.
unfoldable pub scan_bus : (ℕ → ℕ) → ℕ → ℕ → ℕ → Devices → Devices
scan_bus pci bus zero dev ds = ds
scan_bus pci bus (suc left) dev ds = scan_bus pci bus left (dev + 1) (probe pci bus dev ds)

-- `left` turns of the outer loop, the next one for `bus`.
unfoldable pub scan_buses : (ℕ → ℕ) → ℕ → ℕ → Devices → Devices
scan_buses pci zero bus ds = ds
scan_buses pci (suc left) bus ds = scan_buses pci left (bus + 1) (scan_bus pci bus 32 0 ds)

unfoldable pub find_all_e1000 : (ℕ → ℕ) → Devices
find_all_e1000 pci = scan_buses pci 256 0 (record { mmio = []; ops = [] })

-- A pointer that `kmalloc` answers.
abbrev pub pointer : ℕ → Option ℕ → ℕ
pointer base none = 0
pointer base (some offset) = base + offset

-- The receive descriptors from number `i` on, each with a buffer of its own; `stale` is what stands in
-- the length fields, which are not set.
unfoldable pub rx_descs : ℕ → (ℕ → ℕ) → ℕ → ℕ → ℕ → List RxDesc × ℕ
rx_descs base stale zero i offset = ([], offset)
rx_descs base stale (suc left) i offset =
    let block = kmalloc 2048 offset in
    let rest = rx_descs base stale left (i + 1) block.1 in
    (record { addr = pointer base block.0; len = stale i; status = 0 } ∷ rest.0, rest.1)

unfoldable pub tx_descs : (ℕ → ℕ) → ℕ → ℕ → List TxDesc
tx_descs stale zero i = []
tx_descs stale (suc left) i =
    record { addr = 0; len = stale i; cmd = 0; status = 1 } ∷ tx_descs stale left (i + 1)

-- A device that is set up: its rings, its address, and the registers that were written, in order.
pub record Setup : Type 0 where
  pub device : Device
  pub mac : List ℕ
  pub writes : List (ℕ × ℕ)

-- The writes to the registers of the receiver.
abbrev pub rx_writes : ℕ → List (ℕ × ℕ)
rx_writes ring =
    (e1000_rdbal, ring % 2 ^ 32)
    ∷ (e1000_rdbah, ring / 2 ^ 32)
    ∷ (e1000_rdlen, e1000_rx_ring_size * 16)
    ∷ (e1000_rdh, 0)
    ∷ (e1000_rdt, e1000_rx_ring_size - 1)
    ∷ (
      e1000_rctl,
      rctl_en + rctl_sbp + rctl_upe + rctl_mpe + rctl_lbm_none + rctl_bam + rctl_secrc
          + rctl_bsize_2048,
    )
    ∷ []

-- Those of the transmitter, with two collision fields in TCTL, and the interrupts that are enabled.
abbrev pub tx_writes : ℕ → List (ℕ × ℕ)
tx_writes ring =
    (e1000_tdbal, ring % 2 ^ 32)
    ∷ (e1000_tdbah, ring / 2 ^ 32)
    ∷ (e1000_tdlen, e1000_tx_ring_size * 16)
    ∷ (e1000_tdh, 0)
    ∷ (e1000_tdt, 0)
    ∷ (e1000_tctl, tctl_en + tctl_psp + 15 * 2 ^ 4 + 0x40 * 2 ^ 12)
    ∷ (e1000_ims, 0x1F6DC)
    ∷ []

-- The six bytes of RAL and RAH.
unfoldable pub read_mac : ℕ → ℕ → List ℕ
read_mac ral rah =
    ral % 256
    ∷ ral / 2 ^ 8 % 256
    ∷ ral / 2 ^ 16 % 256
    ∷ ral / 2 ^ 24 % 256
    ∷ rah % 256
    ∷ rah / 2 ^ 8 % 256
    ∷ []

-- One turn of the loop of `e1000_init`, from `heap_offset` on, with `heap_offset` after it. A ring that is
-- not granted is written through a null pointer: `none`.
unfoldable pub init_device : ℕ → (ℕ → ℕ) → (ℕ → ℕ) → ℕ → Option (Setup × ℕ)
init_device base stale regs offset = do
  let rx_block = kmalloc 512 offset
  rx_ring ← rx_block.0
  let rx = rx_descs base stale 32 0 rx_block.1
  let tx_block = kmalloc 512 rx.1
  tx_ring ← tx_block.0
  some (
    record {
      device = record {
        rx_ring = rx.0;
        tx_ring = tx_descs (λ i. stale (32 + i)) 32 0;
        rx_cur = 0;
        tx_cur = 0;
        rdt = 31;
        tdt = 0;
      };
      mac = read_mac (regs 0x5400) (regs 0x5404);
      writes = rx_writes (base + rx_ring) ++ tx_writes (base + tx_ring);
    },
    tx_block.1,
  )

-- The loop over the devices; `regs idx` are the registers of device `idx`, and `stale idx` is what stands
-- in the length fields of its descriptors.
unfoldable pub init_devices : ℕ → (ℕ → ℕ → ℕ) → (ℕ → ℕ → ℕ) → ℕ → ℕ → ℕ → Option (List Setup × ℕ)
init_devices base stale regs zero idx offset = some ([], offset)
init_devices base stale regs (suc left) idx offset = do
  (setup, next) ← init_device base (stale idx) (regs idx) offset
  (setups, end_offset) ← init_devices base stale regs left (idx + 1) next
  some (setup ∷ setups, end_offset)

unfoldable pub e1000_init : (ℕ → ℕ) → ℕ → (ℕ → ℕ → ℕ) → (ℕ → ℕ → ℕ) → ℕ → Option (List Setup × ℕ)
e1000_init pci base stale regs offset =
    init_devices base stale regs (length (find_all_e1000 pci).mmio) 0 offset
