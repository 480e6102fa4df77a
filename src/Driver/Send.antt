-- ===== src/Driver/Send.antt =====
-- `e1000_send_packet` of e1000.c: the descriptor that is filled, the tail that moves, and the
-- wait.
use burst_kernel_virtual_mac.Base.{
  ℕ, zero, suc, ◌+◌, ◌%◌, ◌≤◌, ◌<◌, ◌≡◌, ◌≢◌, ◌∙◌, ◌⊎◌, refl, Bool, true, false, none, some, List,
  arith, length, get_elem?, set, length-set, get_elem?-set_self, get_elem?-set_ne, get_elem?_of_lt,
  inl, inr, Bool-cases, Option-cases, ℕ_discrete,
}
use burst_kernel_virtual_mac.Driver.{TxDesc, Device, wait_done, send_on_ring, e1000_send_packet}

abbrev pub IsTxRing : Device → Type 0
IsTxRing dev = (length dev.tx_ring ≡ 32) × (dev.tx_cur < 32)

-- A device after a frame was handed to the card.
pub record Sent (data_addr len : ℕ) (dev dev' : Device) : Type 0 where
  pub ring : IsTxRing dev'
  pub filled :
      get_elem? dev'.tx_ring dev.tx_cur
      ≡ some (record { addr = data_addr; len = len; cmd = 11; status = 0 })
  pub others : (i : ℕ) → dev.tx_cur ≢ i → get_elem? dev'.tx_ring i ≡ get_elem? dev.tx_ring i
  pub next : dev'.tx_cur ≡ (dev.tx_cur + 1) % 32
  pub tail : dev'.tdt ≡ dev'.tx_cur
  pub receiver : (dev'.rx_ring ≡ dev.rx_ring) × (dev'.rx_cur ≡ dev.rx_cur) × (dev'.rdt ≡ dev.rdt)

-- On a ring, one descriptor is filled, and the tail moves behind it.
pub send_on_ring-Sent :
    (data_addr len : ℕ) (dev : Device)
    → IsTxRing dev
    → (dev' : Device) × (send_on_ring data_addr len dev ≡ some dev') × Sent data_addr len dev dev'
unfolding send_on_ring
send_on_ring-Sent data_addr len dev v =
    let filled : TxDesc = record { addr = data_addr; len = len; cmd = 11; status = 0 } in
    let (d, here) = get_elem?_of_lt dev.tx_ring dev.tx_cur (omega (arith, v.0, v.1)) in
    (
      record {
        rx_ring = dev.rx_ring;
        tx_ring = set dev.tx_ring dev.tx_cur filled;
        rx_cur = dev.rx_cur;
        tx_cur = (dev.tx_cur + 1) % 32;
        rdt = dev.rdt;
        tdt = (dev.tx_cur + 1) % 32;
      },
      rw here refl,
      record {
        ring = (length-set dev.tx_ring dev.tx_cur filled ∙ v.0, omega arith);
        filled = get_elem?-set_self dev.tx_ring dev.tx_cur filled (omega (arith, v.0, v.1));
        others = λ i ne. get_elem?-set_ne dev.tx_ring filled ne;
        next = refl;
        tail = refl;
        receiver = (refl, refl, refl);
      },
    )

-- The wait ends: at the first poll that sees the descriptor done, or with no poll left.
pub wait_done_lem :
    (done : ℕ → Bool) (timeout : ℕ)
    → (wait_done done timeout ≤ timeout)
      × ((wait_done done timeout ≡ 0) ⊎ (done (wait_done done timeout) ≡ true))
      × ((k : ℕ) → wait_done done timeout < k → k ≤ timeout → done k ≡ false)
unfolding wait_done
wait_done_lem done zero = (omega arith, inl refl, λ k lt le. absurd (omega arith))
wait_done_lem done (suc timeout) =
    let (le, end, before) = wait_done_lem done timeout in
    elim (Bool-cases (done (suc timeout))) [
      | inl t ↦ rw t (omega arith, inr t, λ k lt le. absurd (omega arith))
      | inr f ↦ rw f (
        omega arith,
        end,
        λ k lt le'. elim (ℕ_discrete k (suc timeout)) [
          | yes e ↦ rw e f
          | no ne ↦ before k lt (omega arith)
        ],
      )
    ]

-- Sending on a device that is not there changes nothing. On one that is, with a ring of 32
-- descriptors, it fills the current descriptor with the frame, moves the tail to the next one
-- of the ring, and leaves the other descriptors and devices; the wait ends at a poll that sees
-- the descriptor done or with no poll left.
pub e1000_send_packet_lem :
    (done : ℕ → Bool) (dev_idx data_addr len : ℕ) (devs : List Device)
    → ((dev : Device) → get_elem? devs dev_idx ≡ some dev → IsTxRing dev)
    → ((get_elem? devs dev_idx ≡ none)
        × (e1000_send_packet done dev_idx data_addr len devs ≡ some (devs, 0)))
      ⊎ ((dev : Device) × (dev' : Device) × (left : ℕ) × (get_elem? devs dev_idx ≡ some dev)
          × (e1000_send_packet done dev_idx data_addr len devs ≡ some (set devs dev_idx dev', left))
          × Sent data_addr len dev dev'
          × (left ≤ 1000000)
          × ((left ≡ 0) ⊎ (done left ≡ true)))
unfolding e1000_send_packet
e1000_send_packet_lem done dev_idx data_addr len devs rings =
    elim (Option-cases (get_elem? devs dev_idx)) [
      | inl gone ↦ inl (gone, rw (gone, e1000_send_packet) refl)
      | inr (dev, here) ↦
          let (dev', e, sent) = send_on_ring-Sent data_addr len dev (rings dev here) in
          let (le, end, before) = wait_done_lem done 1000000 in
          inr (
            dev,
            dev',
            wait_done done 1000000,
            here,
            rw (here, e, e1000_send_packet) refl,
            sent,
            le,
            end,
          )
    ]
