-- ===== src/Driver/Tests.antt =====
-- Runs of the driver.
use burst_kernel_virtual_mac.Base.{
  ℕ, ◌+◌, ◌≤◌, ◌≡◌, ◌⊎◌, refl, subst, Bool, true, none, some, List, [], ◌∷◌, ◌++◌, arith, length,
  get_elem?, set, replicate, ltb, ◌*◌, ◌==◌, if◌then◌else◌,
}
use mathlib.Core.Option.{some-injective}
use Prim.Native.Nat.{min}
use burst_kernel_virtual_mac.Driver.Init.{Setup, e1000_init}
use burst_kernel_virtual_mac.Driver.Init.Scan.{cards}
use burst_kernel_virtual_mac.Driver.Init.Rings.{AllSetup, device_size, e1000_init-AllSetup}
use burst_kernel_virtual_mac.Driver.{RxDesc, TxDesc, Device, receive_loop, e1000_send_packet}
use burst_kernel_virtual_mac.Driver.Receive.{Received, receive_loop-Received}
use burst_kernel_virtual_mac.Driver.Interrupt.{
  SameFrames, Raced, reads, outb, e1000_handle_interrupt, interrupted_turn,
  e1000_handle_interrupt-SameFrames, interrupted_turn-Raced,
}
use burst_kernel_virtual_mac.Driver.Send.{IsTxRing, Sent, e1000_send_packet_lem}

abbrev waiting : RxDesc
waiting = record { addr = 4096; len = 0; status = 0 }

abbrev filled : RxDesc
filled = record { addr = 8192; len = 60; status = 3 }

abbrev done_tx : TxDesc
done_tx = record { addr = 0; len = 0; cmd = 0; status = 1 }

-- Two frames are ready, the second behind the end of the ring.
abbrev card : Device
card = record {
  rx_ring = filled ∷ set (replicate 31 waiting) 30 filled;
  tx_ring = replicate 32 done_tx;
  rx_cur = 31;
  tx_cur = 31;
  rdt = 30;
  tdt = 31;
}

receive_loop-Received_example : Received card (receive_loop 5 card)
receive_loop-Received_example = receive_loop-Received 5 card (refl, omega arith) (omega arith)

abbrev soon : ℕ → Bool
soon left = ltb left 999990

only_card : (dev : Device) → get_elem? (card ∷ []) 0 ≡ some dev → IsTxRing dev
only_card dev e = subst IsTxRing (some-injective _ _ e) (refl, omega arith)

e1000_send_packet_lem_example :
    ((get_elem? (card ∷ []) 0 ≡ none)
      × (e1000_send_packet soon 0 16384 60 (card ∷ []) ≡ some (card ∷ [], 0)))
    ⊎ ((dev : Device) × (dev' : Device) × (left : ℕ) × (get_elem? (card ∷ []) 0 ≡ some dev)
        × (e1000_send_packet soon 0 16384 60 (card ∷ []) ≡ some (set (card ∷ []) 0 dev', left))
        × Sent 16384 60 dev dev'
        × (left ≤ 1000000)
        × ((left ≡ 0) ⊎ (soon left ≡ true)))
e1000_send_packet_lem_example = e1000_send_packet_lem soon 0 16384 60 (card ∷ []) only_card

-- A card in slot 3 of bus 0, and none elsewhere.
abbrev one_slot : ℕ → ℕ
one_slot address = if address == 2147489792 then 269385862 else 0

e1000_init-AllSetup_example :
    (setups : List Setup) × (e1000_init one_slot 1048576 (λ idx i. 0) (λ idx reg. reg) 0
      ≡ some (setups, 0 + device_size * length setups))
    × (length setups ≡ min 4 (length (cards one_slot 256 0)))
    × AllSetup (1048576 + 0) setups
e1000_init-AllSetup_example =
    e1000_init-AllSetup one_slot 1048576 (λ idx i. 0) (λ idx reg. reg) 0 (omega arith)

e1000_handle_interrupt-SameFrames_example :
    SameFrames 0
      (card ∷ [])
      (reads 0 1 ++ outb 0xA0 0x20 ∷ outb 0x20 0x20 ∷ [])
      (e1000_handle_interrupt (card ∷ []))
e1000_handle_interrupt-SameFrames_example =
    e1000_handle_interrupt-SameFrames (card ∷ []) ((refl, omega arith), tt)

interrupted_turn-Raced_example : Raced card (interrupted_turn card)
interrupted_turn-Raced_example = interrupted_turn-Raced card filled (refl, omega arith) refl refl
