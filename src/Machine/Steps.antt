-- ===== src/Machine/Steps.antt =====
-- The steps of the whole machine: turns of the receive loop with interrupts in them, polls, and the rest.
use burst_kernel_virtual_mac.Base.{
  ℕ, ◌≡◌, [], ◌∷◌, ◌<◌, Option-cases, refl, subst, Bool, none, some, List, length, get_elem?_lt,
  arith, inl, inr,
}
use mathlib.Core.Option.{some-injective}
use burst_kernel_virtual_mac.Packet.{Buffer}
use burst_kernel_virtual_mac.Nat.Table.{Extends-refl}
use burst_kernel_virtual_mac.Telnet.Client.{is_one_of, open_now}
use burst_kernel_virtual_mac.System.Frame.{rx_cb-Keeps}
use burst_kernel_virtual_mac.System.Devices.{send_replies-Sending}
use burst_kernel_virtual_mac.Driver.{RxDesc}
use burst_kernel_virtual_mac.System.Poll.{poll-PolledAll, give_back-Keeps}
use burst_kernel_virtual_mac.Base.{Bool-cases}
use burst_kernel_virtual_mac.Telnet.Client.{is_one_of, open_now}
use burst_kernel_virtual_mac.Machine.{
  Machine, system_of, with_system, Event, card, key, packets, connection, segment, poll_cards,
  send_packets, happen, happen_all, take_turn, Step, written, turned, happened, Reach, here, next,
}
use burst_kernel_virtual_mac.Machine.Valid.{
  IsMachine, Later, Later-trans, with_system-Later, press_key-Later, connect-Later, receive-Later,
  here-Later,
}

module _ (done : ℕ → Bool) (replies : Buffer → ℕ → List (ℕ × ℕ)) where
  poll_cards-Later : (m n : Machine) → IsMachine m → poll_cards done replies m ≡ some n → Later m n
  unfolding poll_cards
  poll_cards-Later m n v h =
      let p = poll-PolledAll done replies (system_of m) v.system in
      subst (Later m) (some-injective _ _ (rw (p.returns) at h))
        (with_system-Later m p.after v p.keeps)

  send_packets-Later :
      (m n : Machine) (sent : List (ℕ × ℕ))
      → IsMachine m
      → send_packets done replies sent m ≡ some n
      → Later m n
  unfolding send_packets
  send_packets-Later m n sent v h =
      let (devs', e, p) = send_replies-Sending done replies sent m.devs v.system.rings in
      subst (Later m) (some-injective _ _ (rw e at h)) (record {
        valid = record {
          system = record {
            rings = p.rings;
            sessions = v.system.sessions;
            nat = v.system.nat;
            macs = λ i lt. v.system.macs i (subst (λ k. i < k) p.size lt);
            hops = v.system.hops;
            buffers = v.system.buffers;
          };
          served = v.served;
        };
        sessions = Extends-refl m.telnet.console.router.nat;
        size = p.size;
        macs = refl;
      })

  pub happen-Later :
      (e : Event) (m n : Machine) → IsMachine m → happen done replies e m ≡ some n → Later m n
  unfolding happen
  happen-Later card m n v h = poll_cards-Later m n v h
  happen-Later (key scancode) m n v h = press_key-Later m n scancode v h
  happen-Later (packets sent) m n v h = send_packets-Later m n sent v h
  happen-Later (connection newpcb) m n v h =
      elim (Bool-cases (is_one_of newpcb (open_now m.telnet))) [
        | inl old ↦ (let nothing : none ≡ some n = rw old at h in cc)
        | inr fresh ↦
            subst (Later m) (some-injective _ _ (rw fresh at h)) (connect-Later m newpcb v fresh)
      ]
  happen-Later (segment tpcb p) m n v h = elim (Bool-cases (is_one_of tpcb (open_now m.telnet))) [
    | inl mine ↦ receive-Later m n tpcb p v mine (rw mine at h)
    | inr other ↦ (let nothing : none ≡ some n = rw other at h in cc)
  ]

  happen_all-Later :
      (es : List Event) (m n : Machine)
      → IsMachine m
      → happen_all done replies es m ≡ some n
      → Later m n
  unfolding happen_all
  happen_all-Later [] m n v h = subst (Later m) (some-injective _ _ h) (here-Later m v)
  happen_all-Later (e ∷ es) m n v h = elim (Option-cases (happen done replies e m)) [
    | inl stop ↦ (let nothing : none ≡ some n = rw stop at h in cc)
    | inr (m1, f) ↦
        let l = happen-Later e m m1 v f in
        Later-trans m m1 n l (happen_all-Later es m1 n l.valid (rw f at h))
  ]

  take_turn-Later :
      (m n : Machine) (idx : ℕ) (d : RxDesc) (between : List Event)
      → IsMachine m
      → idx < length m.devs
      → take_turn done replies idx d between m ≡ some n
      → Later m n
  unfolding take_turn
  take_turn-Later m n idx d between v lt h =
      let (s, e, k, same) = rx_cb-Keeps done replies idx d.addr d.len (system_of m) v.system lt in
      let m1 : Machine = with_system s m in
      let l1 : Later m m1 = with_system-Later m s v k in
      elim (Option-cases (happen_all done replies between m1)) [
        | inl stop ↦ (let nothing : none ≡ some n = rw (e, stop) at h in cc)
        | inr (m2, f) ↦
            let l2 = Later-trans m m1 m2 l1 (happen_all-Later between m1 m2 l1.valid f) in
            let (s', g, k') =
              give_back-Keeps idx (system_of m2) l2.valid.system (omega (arith, l2.size)) in
            subst (Later m) (some-injective _ _ (rw (e, f, g) at h))
              (Later-trans m m2 (with_system s' m2) l2 (with_system-Later m2 s' l2.valid k'))
      ]

  Step-Later : {m n : Machine} → Step done replies m n → IsMachine m → Later m n
  Step-Later (written m devs memory size rings buffers) v = record {
    valid = record {
      system = record {
        rings = rings;
        sessions = v.system.sessions;
        nat = v.system.nat;
        macs = λ i lt. v.system.macs i (subst (λ k. i < k) size lt);
        hops = v.system.hops;
        buffers = buffers;
      };
      served = v.served;
    };
    sessions = Extends-refl m.telnet.console.router.nat;
    size = size;
    macs = refl;
  }
  Step-Later (turned m n idx dev d between there front ready h) v =
      take_turn-Later m n idx d between v (get_elem?_lt m.devs idx there) h
  Step-Later (happened m n e h) v = happen-Later e m n v h

  pub Reach-Later : {m n : Machine} → IsMachine m → Reach done replies m n → Later m n
  Reach-Later {m} v here = here-Later m v
  Reach-Later {m} {n = o} v (next {t = n} r st) =
      let l = Reach-Later v r in Later-trans m n o l (Step-Later st l.valid)
