-- ===== src/System/Devices.antt =====
-- What sending does to the devices: the receive rings stay, whatever is sent on whichever device.
use burst_kernel_virtual_mac.Base.{
  ℕ, ◌<◌, ◌≡◌, ◌≢◌, ◌∙◌, refl, ap, sym, subst, Bool, some, List, [], ◌∷◌, arith, length, get_elem?,
  set, length-set, get_elem?-set, get_elem?-set_self, get_elem?-set_ne, get_elem?_lt, inl, inr,
  ◌==◌, Bool-cases,
}
use mathlib.Core.Option.{some-injective}
use burst_kernel_virtual_mac.Packet.{Buffer}
use burst_kernel_virtual_mac.Fastpath.{Action, print, to_stack, transmit}
use burst_kernel_virtual_mac.Driver.{Device, e1000_send_packet}
use burst_kernel_virtual_mac.Driver.Receive.{IsRing}
use burst_kernel_virtual_mac.Driver.Send.{IsTxRing, e1000_send_packet_lem}
use burst_kernel_virtual_mac.System.{ethernetif_linkoutput, send_replies, perform}

abbrev pub Rings : List Device → Type 0
Rings devs = (i : ℕ) (dev : Device) → get_elem? devs i ≡ some dev → IsRing dev × IsTxRing dev

-- Device `i` is there in both, with the same receive ring.
abbrev pub SameRx : List Device → List Device → ℕ → Type 0
SameRx devs devs' i =
    (dev : Device)
    → get_elem? devs i ≡ some dev
    → (dev' : Device) × (get_elem? devs' i ≡ some dev')
      × (dev'.rx_ring ≡ dev.rx_ring)
      × (dev'.rx_cur ≡ dev.rx_cur)

pub SameRx-refl : (devs : List Device) (i : ℕ) → SameRx devs devs i
SameRx-refl devs i dev h = (dev, h, refl, refl)

pub SameRx-trans : (a b c : List Device) (i : ℕ) → SameRx a b i → SameRx b c i → SameRx a c i
SameRx-trans a b c i p q dev h =
    let (dev', h', r, k) = p dev h in
    let (dev'', h'', r', k') = q dev' h' in (dev'', h'', r' ∙ r, k' ∙ k)

-- After something was sent.
pub record Sending (devs devs' : List Device) : Type 0 where
  pub rings : Rings devs'
  pub size : length devs' ≡ length devs
  pub same : (i : ℕ) → SameRx devs devs' i

pub still_there : (devs : List Device) → Rings devs → Sending devs devs
still_there devs v = record { rings = v; size = refl; same = SameRx-refl devs }

pub Sending-trans : (a b c : List Device) → Sending a b → Sending b c → Sending a c
Sending-trans a b c p q = record {
  rings = q.rings;
  size = q.size ∙ p.size;
  same = λ i. SameRx-trans a b c i (p.same i) (q.same i);
}

pub Rings-set :
    (devs : List Device) (i : ℕ) (dev : Device)
    → Rings devs
    → IsRing dev × IsTxRing dev
    → Rings (set devs i dev)
Rings-set devs i dev v w j x h = elim (get_elem?-set devs i j dev x h) [
  | inl p ↦ subst (λ y. IsRing y × IsTxRing y) (sym p.1) w
  | inr p ↦ v j x p.1
]

pub SameRx-set :
    (devs : List Device) (i : ℕ) (dev dev' : Device)
    → get_elem? devs i ≡ some dev
    → dev'.rx_ring ≡ dev.rx_ring
    → dev'.rx_cur ≡ dev.rx_cur
    → (j : ℕ) → SameRx devs (set devs i dev') j
SameRx-set devs i dev dev' here ring cur j x h = elim (Bool-cases (i == j)) [
  | inl eq ↦
      let same : i ≡ j = ground arith in
      let e : dev ≡ x = some-injective _ _ (sym here ∙ ap (get_elem? devs) same ∙ h) in
      (
        dev',
        subst (λ n. get_elem? (set devs i dev') n ≡ some dev') same
            (get_elem?-set_self devs i dev' (get_elem?_lt devs i here)),
        ring ∙ ap (λ d. d.rx_ring) e,
        cur ∙ ap (λ d. d.rx_cur) e,
      )
  | inr ne ↦
      let differ : i ≢ j = ground arith in (x, get_elem?-set_ne devs dev' differ ∙ h, refl, refl)
]

module _ (done : ℕ → Bool) where
  send-Sending :
      (dev_idx addr len : ℕ) (devs : List Device)
      → Rings devs
      → (devs' : List Device) × (left : ℕ) × (e1000_send_packet done dev_idx addr len devs
          ≡ some (devs', left))
        × Sending devs devs'
  send-Sending dev_idx addr len devs v =
      elim (e1000_send_packet_lem done dev_idx addr len devs (λ dev h. (v dev_idx dev h).1)) [
        | inl (gone, e) ↦ (devs, 0, e, still_there devs v)
        | inr (dev, dev', left, here, e, sent, le, end) ↦
            let rx : IsRing dev' = (
              ap length sent.receiver.0 ∙ (v dev_idx dev here).0.0,
              subst (λ n. n < 32) (sym sent.receiver.1) (v dev_idx dev here).0.1,
            ) in
            (
              set devs dev_idx dev',
              left,
              e,
              record {
                rings = Rings-set devs dev_idx dev' v (rx, sent.ring);
                size = length-set devs dev_idx dev';
                same = SameRx-set devs dev_idx dev dev' here sent.receiver.0 sent.receiver.1;
              },
            )
      ]

  module _ (replies : Buffer → ℕ → List (ℕ × ℕ)) where
    pub send_replies-Sending :
        (packets : List (ℕ × ℕ)) (devs : List Device)
        → Rings devs
        → (devs' : List Device) × (send_replies done replies packets devs ≡ some devs')
          × Sending devs devs'
    unfolding send_replies ethernetif_linkoutput
    send_replies-Sending [] devs v = (devs, refl, still_there devs v)
    send_replies-Sending ((buffer, copied) ∷ packets) devs v =
        let (devs1, left, e, p) = send-Sending 0 buffer copied devs v in
        let (devs2, f, q) = send_replies-Sending packets devs1 p.rings in
        (devs2, rw (e, f) refl, Sending-trans devs devs1 devs2 p q)

    pub perform-Sending :
        (addr : ℕ) (calls : List Action) (devs : List Device)
        → Rings devs
        → (devs' : List Device) × (perform done replies addr calls devs ≡ some devs')
          × Sending devs devs'
    unfolding perform
    perform-Sending addr [] devs v = (devs, refl, still_there devs v)
    perform-Sending addr (print line ∷ calls) devs v = perform-Sending addr calls devs v
    perform-Sending addr (to_stack pkt len ∷ calls) devs v =
        let (devs1, e, p) = send_replies-Sending (replies pkt len) devs v in
        let (devs2, f, q) = perform-Sending addr calls devs1 p.rings in
        (devs2, rw (e, f) refl, Sending-trans devs devs1 devs2 p q)
    perform-Sending addr (transmit dev_idx pkt len ∷ calls) devs v =
        let (devs1, left, e, p) = send-Sending dev_idx addr len devs v in
        let (devs2, f, q) = perform-Sending addr calls devs1 p.rings in
        (devs2, rw (e, f) refl, Sending-trans devs devs1 devs2 p q)
