-- ===== src/System/Poll.antt =====
-- `e1000_poll` with the callback of kernel.c: what a frame, a device and a poll make of the system.
use burst_kernel_virtual_mac.Base.{
  ℕ, zero, suc, ◌+◌, ◌≤◌, ◌<◌, ◌≡◌, ◌≢◌, ◌∙◌, refl, ap, subst, Bool, true, false, Option, some,
  List, arith, ◌==◌, length, get_elem?, set, length-set, get_elem?-set_self, get_elem?-set_ne,
  get_elem?_lt, get_elem?_of_lt, inl, inr, Bool-cases,
}
use burst_kernel_virtual_mac.Packet.{Buffer}
use burst_kernel_virtual_mac.Nat.Table.{Extends-refl}
use burst_kernel_virtual_mac.Driver.{RxDesc, Device, is_ready, take_frame}
use burst_kernel_virtual_mac.Driver.Receive.{ready, ready-le, ready-set, taken-IsRing}
use burst_kernel_virtual_mac.System.{System, give_back, turn, poll_device, poll_devices, poll}
use burst_kernel_virtual_mac.System.Devices.{SameRx, SameRx-refl, SameRx-trans, Rings-set}
use burst_kernel_virtual_mac.System.Frame.{IsSystem, Keeps, Keeps-refl, Keeps-trans, rx_cb-Keeps}

-- The device stands at a descriptor that is not ready.
pub record Drained (devs : List Device) (idx : ℕ) : Type 0 where
  pub dev : Device
  pub there : get_elem? devs idx ≡ some dev
  pub d : RxDesc
  pub next : get_elem? dev.rx_ring dev.rx_cur ≡ some d
  pub empty : is_ready d ≡ false

pub Drained-SameRx : (a b : List Device) (i : ℕ) → Drained a i → SameRx a b i → Drained b i
Drained-SameRx a b i p q =
    let (dev', there, ring, cur) = q p.dev p.there in
    record {
      dev = dev';
      there = there;
      d = p.d;
      next = ap (get_elem? dev'.rx_ring) cur ∙ ap (λ r. get_elem? r p.dev.rx_cur) ring ∙ p.next;
      empty = p.empty;
    }

-- A descriptor that was ready is given back, and one less is ready.
pub record Given (idx : ℕ) (dev : Device) (s : System) (o : Option System) : Type 0 where
  pub after : System
  pub returns : o ≡ some after
  pub keeps : Keeps s after
  pub now : Device
  pub there : get_elem? after.devs idx ≡ some now
  pub less : suc (ready now.rx_ring) ≡ ready dev.rx_ring
  pub others : (j : ℕ) → idx ≢ j → SameRx s.devs after.devs j

-- The descriptor that the device stands at is given back, ready or not.
pub given-Keeps :
    (idx : ℕ) (s : System) (dev : Device) (d : RxDesc)
    → IsSystem s
    → get_elem? s.devs idx ≡ some dev
    → Keeps s (record s { devs = set s.devs idx (take_frame d dev) })
unfolding take_frame
given-Keeps idx s dev d v here = record {
  valid = record {
    rings =
        Rings-set s.devs idx (take_frame d dev) v.rings
          (taken-IsRing d dev (v.rings idx dev here).0, (v.rings idx dev here).1);
    sessions = v.sessions;
    nat = v.nat;
    macs = λ i lt. v.macs i (subst (λ n. i < n) (length-set s.devs idx (take_frame d dev)) lt);
    hops = v.hops;
    buffers = v.buffers;
  };
  size = length-set s.devs idx (take_frame d dev);
  sessions = Extends-refl s.router.nat;
  routes = refl;
  macs = refl;
}

pub give_back-Keeps :
    (idx : ℕ) (s : System)
    → IsSystem s
    → idx < length s.devs
    → (s' : System) × (give_back idx s ≡ some s') × Keeps s s'
unfolding give_back
give_back-Keeps idx s v lt =
    let (dev, here) = get_elem?_of_lt s.devs idx lt in
    let ring = (v.rings idx dev here).0 in
    let (d, next) = get_elem?_of_lt dev.rx_ring dev.rx_cur (omega (arith, ring.0, ring.1)) in
    (_, rw (here, next) refl, given-Keeps idx s dev d v here)

pub give_back-Given :
    (idx : ℕ) (s : System) (dev : Device) (d : RxDesc)
    → IsSystem s
    → get_elem? s.devs idx ≡ some dev
    → get_elem? dev.rx_ring dev.rx_cur ≡ some d
    → is_ready d ≡ true
    → Given idx dev s (give_back idx s)
unfolding give_back take_frame
give_back-Given idx s dev d v here next t = record {
  after = record s { devs = set s.devs idx (take_frame d dev) };
  returns = rw (here, next) refl;
  keeps = given-Keeps idx s dev d v here;
  now = take_frame d dev;
  there = get_elem?-set_self s.devs idx (take_frame d dev) (get_elem?_lt s.devs idx here);
  less =
      ready-set dev.rx_ring dev.rx_cur d (record { addr = d.addr; len = d.len; status = 0 }) next t
        refl;
  others = λ j ne x h. (x, get_elem?-set_ne s.devs (take_frame d dev) ne ∙ h, refl, refl);
}

module _ (done : ℕ → Bool) (replies : Buffer → ℕ → List (ℕ × ℕ)) where
  -- One turn of the receive loop.
  turn-Given :
      (idx : ℕ) (s : System) (dev : Device) (d : RxDesc)
      → IsSystem s
      → get_elem? s.devs idx ≡ some dev
      → get_elem? dev.rx_ring dev.rx_cur ≡ some d
      → is_ready d ≡ true
      → Given idx dev s (turn done replies idx d s)
  unfolding turn
  turn-Given idx s dev d v here next t =
      let (s1, e, k, same) =
        rx_cb-Keeps done replies idx d.addr d.len s v (get_elem?_lt s.devs idx here) in
      let (dev1, there, ring, cur) = same idx dev here in
      let next1 : get_elem? dev1.rx_ring dev1.rx_cur ≡ some d =
        ap (get_elem? dev1.rx_ring) cur ∙ ap (λ r. get_elem? r dev.rx_cur) ring ∙ next in
      let g = give_back-Given idx s1 dev1 d k.valid there next1 t in
      record {
        after = g.after;
        returns = rw (e, g.returns) refl;
        keeps = Keeps-trans s s1 g.after k g.keeps;
        now = g.now;
        there = g.there;
        less = g.less ∙ ap ready ring;
        others = λ j ne. SameRx-trans s.devs s1.devs g.after.devs j (same j) (g.others j ne);
      }

  pub record Polled (idx : ℕ) (s : System) (o : Option System) : Type 0 where
    pub after : System
    pub returns : o ≡ some after
    pub keeps : Keeps s after
    pub drained : Drained after.devs idx
    pub others : (j : ℕ) → idx ≢ j → SameRx s.devs after.devs j

  poll_device-Polled :
      (fuel idx : ℕ) (s : System) (dev : Device)
      → IsSystem s
      → get_elem? s.devs idx ≡ some dev
      → ready dev.rx_ring < fuel
      → Polled idx s (poll_device done replies fuel idx s)
  unfolding poll_device
  poll_device-Polled zero idx s dev v here lt = absurd (omega arith)
  poll_device-Polled (suc fuel) idx s dev v here lt =
      let ring = (v.rings idx dev here).0 in
      let (d, next) = get_elem?_of_lt dev.rx_ring dev.rx_cur (omega (arith, ring.0, ring.1)) in
      elim (Bool-cases (is_ready d)) [
        | inr f ↦ record {
          after = s;
          returns = rw (here, next, f) refl;
          keeps = Keeps-refl s v;
          drained = record { dev = dev; there = here; d = d; next = next; empty = f };
          others = λ j ne. SameRx-refl s.devs j;
        }
        | inl t ↦
            let g = turn-Given idx s dev d v here next t in
            let rest =
              poll_device-Polled fuel idx g.after g.now g.keeps.valid g.there
                (omega (arith, g.less)) in
            record {
              after = rest.after;
              returns = rw (here, next, t, g.returns, rest.returns) refl;
              keeps = Keeps-trans s g.after rest.after g.keeps rest.keeps;
              drained = rest.drained;
              others = λ j ne.
                  SameRx-trans s.devs g.after.devs rest.after.devs j (g.others j ne)
                    (rest.others j ne);
            }
      ]

  -- The devices from `idx` on, one after the other.
  pub record PolledAll (idx : ℕ) (s : System) (o : Option System) : Type 0 where
    pub after : System
    pub returns : o ≡ some after
    pub keeps : Keeps s after
    pub drained : (j : ℕ) → idx ≤ j → j < length s.devs → Drained after.devs j
    pub others : (j : ℕ) → j < idx → SameRx s.devs after.devs j

  poll_devices-PolledAll :
      (left idx : ℕ) (s : System)
      → IsSystem s
      → idx + left ≡ length s.devs
      → PolledAll idx s (poll_devices done replies left idx s)
  unfolding poll_devices
  poll_devices-PolledAll zero idx s v e = record {
    after = s;
    returns = refl;
    keeps = Keeps-refl s v;
    drained = λ j le lt. absurd (omega arith);
    others = λ j lt. SameRx-refl s.devs j;
  }
  poll_devices-PolledAll (suc left) idx s v e =
      let (dev, here) = get_elem?_of_lt s.devs idx (omega arith) in
      let p =
        poll_device-Polled 33 idx s dev v here
          (omega (arith, ready-le dev.rx_ring, (v.rings idx dev here).0.0)) in
      let q =
        poll_devices-PolledAll left (idx + 1) p.after p.keeps.valid (omega (arith, p.keeps.size)) in
      record {
        after = q.after;
        returns = rw (p.returns, q.returns) refl;
        keeps = Keeps-trans s p.after q.after p.keeps q.keeps;
        drained = λ j le lt. elim (Bool-cases (idx == j)) [
          | inl same ↦
              let eq : idx ≡ j = ground arith in
              subst (Drained q.after.devs) eq (
                Drained-SameRx p.after.devs q.after.devs idx p.drained (q.others idx (omega arith)))
          | inr ne ↦ q.drained j (ground (arith, le)) (omega (arith, p.keeps.size))
        ];
        others = λ j lt.
            SameRx-trans s.devs p.after.devs q.after.devs j (p.others j (omega arith))
              (q.others j (omega arith));
      }

  pub poll-PolledAll : (s : System) → IsSystem s → PolledAll 0 s (poll done replies s)
  unfolding poll
  poll-PolledAll s v = poll_devices-PolledAll (length s.devs) 0 s v (omega arith)
