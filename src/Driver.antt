-- ===== src/Driver.antt =====
-- e1000.c: the two descriptor rings of a device. What the card writes is an argument: the ring as the
-- driver finds it, and whether a poll of a sent descriptor sees it done. The callback is not part of
-- the driver; the frames that it gets are listed in order.
pub mod Receive
pub mod Send
pub mod Registers
pub mod Init
pub mod Interrupt
mod Tests
use burst_kernel_virtual_mac.Base.{
  ℕ, zero, suc, ◌+◌, ◌-◌, ◌/◌, ◌%◌, ◌^◌, Bool, true, false, Option, none, some, List, [], ◌∷◌, ◌++◌,
  ltb, ◌==◌, set, get_elem?, map, if◌then◌else◌, ◌>>=◌, not,
}

abbrev pub e1000_rx_ring_size : ℕ
e1000_rx_ring_size = 32

abbrev pub e1000_tx_ring_size : ℕ
e1000_tx_ring_size = 32

-- `struct e1000_rx_desc`, less the fields that the driver does not touch.
pub record RxDesc : Type 0 where
  pub addr : ℕ
  pub len : ℕ
  pub status : ℕ

pub record TxDesc : Type 0 where
  pub addr : ℕ
  pub len : ℕ
  pub cmd : ℕ
  pub status : ℕ

-- `struct e1000_device`; of the registers, the two tails that the driver moves.
pub record Device : Type 0 where
  pub rx_ring : List RxDesc
  pub tx_ring : List TxDesc
  pub rx_cur : ℕ
  pub tx_cur : ℕ
  pub rdt : ℕ
  pub tdt : ℕ

-- `status & 0x01`
abbrev pub is_ready : RxDesc → Bool
is_ready d = d.status % 2 == 1

-- `while (!(status & 0x01) && timeout > 0) timeout--;`: the polls that are left. `done n` tells what
-- the poll sees when `n` are left.
unfoldable pub wait_done : (ℕ → Bool) → ℕ → ℕ
wait_done done zero = zero
wait_done done (suc timeout) =
    let rest = wait_done done timeout in if done (suc timeout) then suc timeout else rest

-- `e1000_send_packet` for a device that there is, up to the wait.
unfoldable pub send_on_ring : ℕ → ℕ → Device → Option Device
send_on_ring data_addr len dev = do
  d ← get_elem? dev.tx_ring dev.tx_cur
  let filled : TxDesc = record { addr = data_addr; len = len; cmd = 8 + 2 + 1; status = 0 }
  let next : ℕ = (dev.tx_cur + 1) % e1000_tx_ring_size
  some (record {
    rx_ring = dev.rx_ring;
    tx_ring = set dev.tx_ring dev.tx_cur filled;
    rx_cur = dev.rx_cur;
    tx_cur = next;
    rdt = dev.rdt;
    tdt = next;
  })

-- The devices after the call, and the polls that were left of the wait.
unfoldable pub e1000_send_packet : (ℕ → Bool) → ℕ → ℕ → ℕ → List Device → Option (List Device × ℕ)
e1000_send_packet done dev_idx data_addr len devs = elim (get_elem? devs dev_idx) [
  | none ↦ some (devs, 0)
  | some dev ↦ do
    dev' ← send_on_ring data_addr len dev
    some (set devs dev_idx dev', wait_done done 1000000)
]

-- One turn of the receive loop: the frame, and the device with the descriptor given back.
unfoldable pub take_frame : RxDesc → Device → Device
take_frame d dev = record {
  rx_ring = set dev.rx_ring dev.rx_cur (record { addr = d.addr; len = d.len; status = 0 });
  tx_ring = dev.tx_ring;
  rx_cur = (dev.rx_cur + 1) % e1000_rx_ring_size;
  tx_cur = dev.tx_cur;
  rdt = dev.rx_cur;
  tdt = dev.tdt;
}

-- `while (dev->rx_ring[dev->rx_cur].status & 0x01)`, on fuel: the frames for the callback, each an
-- address and a length. The outer option is an access outside the ring, or no fuel.
unfoldable pub receive_loop : ℕ → Device → Option (List (ℕ × ℕ) × Device)
receive_loop zero dev = none
receive_loop (suc fuel) dev = elim (get_elem? dev.rx_ring dev.rx_cur) [
  | none ↦ none
  | some d ↦
      let rest = receive_loop fuel (take_frame d dev) in
      if is_ready d
      then (do (frames, dev') ← rest; some ((d.addr, d.len) ∷ frames, dev'))
      else some ([], dev)
]

-- `e1000_poll`: the devices in order, each with its index.
unfoldable pub e1000_poll : ℕ → List Device → Option (List (ℕ × (ℕ × ℕ)) × List Device)
e1000_poll idx [] = some ([], [])
e1000_poll idx (dev ∷ devs) = do
  (frames, dev') ← receive_loop 33 dev
  (later, devs') ← e1000_poll (idx + 1) devs
  some (map (λ f. (idx, f)) frames ++ later, dev' ∷ devs')
