-- ===== src/Driver/Init/Rings.antt =====
-- The rings that `e1000_init` of e1000.c sets up, and where their buffers lie.
use burst_kernel_virtual_mac.Base.{
  ℕ, zero, suc, ◌+◌, ◌*◌, ◌≤◌, ◌<◌, ◌≡◌, ◌∙◌, refl, ap, sym, some, List, [], ◌∷◌, ◌++◌, arith,
  length, get_elem?, subst,
}
use Prim.Native.Nat.{min}
use burst_kernel_virtual_mac.Heap.{heap_size, align16, kmalloc}
use burst_kernel_virtual_mac.Driver.{RxDesc}
use burst_kernel_virtual_mac.Driver.Receive.{ready, IsRing}
use burst_kernel_virtual_mac.Driver.Send.{IsTxRing}
use burst_kernel_virtual_mac.Driver.Init.Scan.{cards, length-find_all_e1000}
use burst_kernel_virtual_mac.Driver.Init.{
  Setup, rx_descs, tx_descs, rx_writes, tx_writes, read_mac, init_device, init_devices,
  find_all_e1000, e1000_init,
}

granted_2048 :
    (offset : ℕ) → offset + 2048 ≤ heap_size → kmalloc 2048 offset ≡ (some offset, offset + 2048)
unfolding kmalloc align16
granted_2048 offset h = ground arith

granted_512 :
    (offset : ℕ) → offset + 512 ≤ heap_size → kmalloc 512 offset ≡ (some offset, offset + 512)
unfolding kmalloc align16
granted_512 offset h = ground arith

-- Descriptors that wait for frames, with buffers one behind the other.
pub record Buffers (addr count : ℕ) (ds : List RxDesc) : Type 0 where
  pub size : length ds ≡ count
  pub empty : ready ds ≡ 0
  pub apart :
      (k : ℕ) → k < count → (d : RxDesc) × (get_elem? ds k ≡ some d) × (d.addr ≡ addr + 2048 * k)

rx_descs-Buffers :
    (base : ℕ) (stale : ℕ → ℕ) (left i offset : ℕ)
    → offset + 2048 * left ≤ heap_size
    → Buffers (base + offset) left (rx_descs base stale left i offset).0
      × ((rx_descs base stale left i offset).1 ≡ offset + 2048 * left)
unfolding rx_descs
rx_descs-Buffers base stale zero i offset h =
    (record { size = refl; empty = refl; apart = λ k lt. absurd (omega arith) }, omega arith)
rx_descs-Buffers base stale (suc left) i offset h =
    let (b, e) = rx_descs-Buffers base stale left (i + 1) (offset + 2048) (omega arith) in
    rw (granted_2048 offset (omega arith))
      (record { size = ap suc b.size; empty = b.empty; apart = go b }, omega (arith, e))
  where
    go :
        Buffers (base + (offset + 2048)) left (rx_descs base stale left (i + 1) (offset + 2048)).0
        → (k : ℕ) → k < suc left
        → (d : RxDesc) × (get_elem?
              (record { addr = base + offset; len = stale i; status = 0 }
                ∷ (rx_descs base stale left (i + 1) (offset + 2048)).0)
              k
            ≡ some d)
          × (d.addr ≡ base + offset + 2048 * k)
    go b zero lt = (record { addr = base + offset; len = stale i; status = 0 }, refl, omega arith)
    go b (suc k) lt = let (d, at_k, e) = b.apart k (omega arith) in (d, at_k, omega (arith, e))

-- All descriptors are done, so that no frame waits in the ring.
length-tx_descs : (stale : ℕ → ℕ) (left i : ℕ) → length (tx_descs stale left i) ≡ left
unfolding tx_descs
length-tx_descs stale zero i = refl
length-tx_descs stale (suc left) i = ap suc (length-tx_descs stale left (i + 1))

-- How much of the heap a device takes: two rings, and 32 buffers.
abbrev pub device_size : ℕ
device_size = 512 + 32 * 2048 + 512

-- A device whose memory starts at `start`: the receive ring, its buffers, the transmit ring.
pub record IsSetup (start : ℕ) (s : Setup) : Type 0 where
  pub rx : IsRing s.device
  pub tx : IsTxRing s.device
  pub buffers : Buffers (start + 512) 32 s.device.rx_ring
  pub tails : (s.device.rdt ≡ 31) × (s.device.tdt ≡ 0)
  pub mac_size : length s.mac ≡ 6
  pub registers : s.writes ≡ rx_writes start ++ tx_writes (start + 512 + 32 * 2048)

abbrev device_at : ℕ → (ℕ → ℕ) → (ℕ → ℕ) → ℕ → Setup
device_at base stale regs offset = record {
  device = record {
    rx_ring = (rx_descs base stale 32 0 (offset + 512)).0;
    tx_ring = tx_descs (λ i. stale (32 + i)) 32 0;
    rx_cur = 0;
    tx_cur = 0;
    rdt = 31;
    tdt = 0;
  };
  mac = read_mac (regs 0x5400) (regs 0x5404);
  writes = rx_writes (base + offset) ++ tx_writes (base + (offset + 512 + 2048 * 32));
}

init_device-IsSetup :
    (base : ℕ) (stale regs : ℕ → ℕ) (offset : ℕ)
    → offset + device_size ≤ heap_size
    → (init_device base stale regs offset
        ≡ some (device_at base stale regs offset, offset + 512 + 2048 * 32 + 512))
      × IsSetup (base + offset) (device_at base stale regs offset)
unfolding init_device read_mac
init_device-IsSetup base stale regs offset h =
    let (b, e) = rx_descs-Buffers base stale 32 0 (offset + 512) (omega arith) in
    (
      rw (granted_512 offset (omega arith), e, granted_512 (offset + 512 + 2048 * 32) (omega arith))
          refl,
      record {
        rx = (b.size, omega arith);
        tx = (length-tx_descs (λ i. stale (32 + i)) 32 0, omega arith);
        buffers =
            subst (λ a. Buffers a 32 (rx_descs base stale 32 0 (offset + 512)).0) (omega arith) b;
        tails = (refl, refl);
        mac_size = refl;
        registers = ap (λ a. rx_writes (base + offset) ++ tx_writes a) (omega arith);
      },
    )

-- The devices, each behind the one before.
abbrev pub AllSetup : ℕ → List Setup → Type 0
AllSetup start [] = Unit
AllSetup start (s ∷ ss) = IsSetup start s × AllSetup (start + device_size) ss

init_devices-AllSetup :
    (base : ℕ) (stale regs : ℕ → ℕ → ℕ) (left idx offset : ℕ)
    → offset + device_size * left ≤ heap_size
    → (setups : List Setup) × (init_devices base stale regs left idx offset
        ≡ some (setups, offset + device_size * left))
      × (length setups ≡ left)
      × AllSetup (base + offset) setups
unfolding init_devices
init_devices-AllSetup base stale regs zero idx offset h =
    ([], ap (λ o. some ([], o)) (omega arith), refl, tt)
init_devices-AllSetup base stale regs (suc left) idx offset h =
    let (e, v) = init_device-IsSetup base (stale idx) (regs idx) offset (omega arith) in
    let first = device_at base (stale idx) (regs idx) offset in
    let next = offset + 512 + 2048 * 32 + 512 in
    let (setups, f, n, all) =
      init_devices-AllSetup base stale regs left (idx + 1) next (omega arith) in
    (
      first ∷ setups,
      rw (e, f) (ap (λ o. some (first ∷ setups, o)) (omega arith)),
      ap suc n,
      (v, subst (λ a. AllSetup a setups) (omega arith) all),
    )

-- If the heap has room for four devices, `e1000_init` sets up as many devices as there are
-- cards in the slots, but four at most, each in 66560 bytes behind those of the one before:
-- rings of 32 descriptors, none of them ready, with receive buffers of 2048 bytes one behind
-- the other, the tails at 31 and 0, a MAC address of 6 bytes, and the registers with the
-- addresses of the two rings.
pub e1000_init-AllSetup :
    (pci : ℕ → ℕ) (base : ℕ) (stale regs : ℕ → ℕ → ℕ) (offset : ℕ)
    → offset + 4 * device_size ≤ heap_size
    → (setups : List Setup) × (e1000_init pci base stale regs offset
        ≡ some (setups, offset + device_size * length setups))
      × (length setups ≡ min 4 (length (cards pci 256 0)))
      × AllSetup (base + offset) setups
unfolding e1000_init
e1000_init-AllSetup pci base stale regs offset h =
    let found = length-find_all_e1000 pci in
    let n = length (find_all_e1000 pci).mmio in
    let (setups, e, size, all) =
      init_devices-AllSetup base stale regs n 0 offset (omega (arith, found)) in
    (setups, e ∙ ap (λ k. some (setups, offset + device_size * k)) (sym size), size ∙ found, all)
