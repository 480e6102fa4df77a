-- ===== src/Machine/Served.antt =====
-- A poll of the main loop with events in it: it returns, or one of the events does not.
use burst_kernel_virtual_mac.Base.{
  ℕ, zero, suc, ◌+◌, ◌≤◌, ◌<◌, ◌≡◌, ◌≢◌, ◌∙◌, ◌⊎◌, refl, ap, subst, Bool, true, Option, some, List,
  [], ◌∷◌, arith, ◌==◌, length, get_elem?, get_elem?_lt, get_elem?_of_lt, Bool-cases, inl, inr,
}
use burst_kernel_virtual_mac.Packet.{Buffer}
use burst_kernel_virtual_mac.Driver.{RxDesc, Device, is_ready}
use burst_kernel_virtual_mac.Driver.Receive.{ready, ready-le}
use burst_kernel_virtual_mac.System.Devices.{SameRx, SameRx-refl, SameRx-trans}
use burst_kernel_virtual_mac.System.Frame.{rx_cb-Keeps}
use burst_kernel_virtual_mac.System.Poll.{Drained, Drained-SameRx, give_back-Given}
use burst_kernel_virtual_mac.Machine.{Machine, system_of, with_system, Event, take_turn}
use burst_kernel_virtual_mac.Machine.Valid.{
  IsMachine, Later, Later-trans, with_system-Later, here-Later,
}
use burst_kernel_virtual_mac.Machine.Poll.{
  next_events, later_events, AllCalm, AllTurnsCalm, Halted, Halted-Later, Halted-none,
  happen_all-Calmed, serve_device, serve_devices, serve,
}

next-AllCalm : (turns : List (List Event)) → AllTurnsCalm turns → AllCalm (next_events turns)
next-AllCalm [] calm = tt
next-AllCalm (es ∷ turns) calm = calm.0

later-AllCalm : (turns : List (List Event)) → AllTurnsCalm turns → AllTurnsCalm (later_events turns)
later-AllCalm [] calm = tt
later-AllCalm (es ∷ turns) calm = calm.1

module _ (done : ℕ → Bool) (replies : Buffer → ℕ → List (ℕ × ℕ)) where
  -- A turn, which leaves one descriptor less that is ready.
  pub record Turned (idx : ℕ) (dev : Device) (m : Machine) (o : Option Machine) : Type 0 where
    pub after : Machine
    pub returns : o ≡ some after
    pub later : Later m after
    pub now : Device
    pub there : get_elem? after.devs idx ≡ some now
    pub less : suc (ready now.rx_ring) ≡ ready dev.rx_ring
    pub others : (j : ℕ) → idx ≢ j → SameRx m.devs after.devs j

  take_turn-Turned :
      (idx : ℕ) (m : Machine) (dev : Device) (d : RxDesc) (between : List Event)
      → IsMachine m
      → AllCalm between
      → get_elem? m.devs idx ≡ some dev
      → get_elem? dev.rx_ring dev.rx_cur ≡ some d
      → is_ready d ≡ true
      → Turned idx dev m (take_turn done replies idx d between m)
        ⊎ Halted m (take_turn done replies idx d between m)
  unfolding take_turn
  take_turn-Turned idx m dev d between v calm here front t =
      let (s, e, k, same) =
        rx_cb-Keeps done replies idx d.addr d.len (system_of m) v.system
          (get_elem?_lt m.devs idx here) in
      let m1 : Machine = with_system s m in
      let l1 : Later m m1 = with_system-Later m s v k in
      elim (happen_all-Calmed done replies between m1 calm l1.valid) [
        | inr h ↦ inr (Halted-none m _ _ (Halted-Later m m1 _ l1 h) (rw (e, h.stops) refl))
        | inl c ↦
            let m2 = c.after in
            let through : (j : ℕ) → SameRx m.devs m2.devs j =
              λ j. SameRx-trans m.devs s.devs m2.devs j (same j) (c.same j) in
            let (dev2, there, ring, cur) = through idx dev here in
            let front2 : get_elem? dev2.rx_ring dev2.rx_cur ≡ some d =
              ap (get_elem? dev2.rx_ring) cur ∙ ap (λ r. get_elem? r dev.rx_cur) ring ∙ front in
            let g = give_back-Given idx (system_of m2) dev2 d c.later.valid.system there front2 t in
            let l2 = Later-trans m m1 m2 l1 c.later in
            inl (record {
              after = with_system g.after m2;
              returns = rw (e, c.returns, g.returns) refl;
              later =
                  Later-trans m m2 (with_system g.after m2) l2
                    (with_system-Later m2 g.after c.later.valid g.keeps);
              now = g.now;
              there = g.there;
              less = g.less ∙ ap ready ring;
              others =
                  λ j ne. SameRx-trans m.devs m2.devs g.after.devs j (through j) (g.others j ne);
            })
      ]

  -- The loop of a device has come to its end.
  record Emptied (idx : ℕ) (m : Machine) (o : Option (List (List Event) × Machine)) : Type 0 where
    left : List (List Event)
    after : Machine
    returns : o ≡ some (left, after)
    calm : AllTurnsCalm left
    later : Later m after
    drained : Drained after.devs idx
    others : (j : ℕ) → idx ≢ j → SameRx m.devs after.devs j

  serve_device-Emptied :
      (fuel idx : ℕ) (turns : List (List Event)) (m : Machine) (dev : Device)
      → IsMachine m
      → AllTurnsCalm turns
      → get_elem? m.devs idx ≡ some dev
      → ready dev.rx_ring < fuel
      → Emptied idx m (serve_device done replies fuel idx turns m)
        ⊎ Halted m (serve_device done replies fuel idx turns m)
  unfolding serve_device
  serve_device-Emptied zero idx turns m dev v calm here lt = absurd (omega arith)
  serve_device-Emptied (suc fuel) idx turns m dev v calm here lt =
      let ring = (v.system.rings idx dev here).0 in
      let (d, front) = get_elem?_of_lt dev.rx_ring dev.rx_cur (omega (arith, ring.0, ring.1)) in
      elim (Bool-cases (is_ready d)) [
        | inr f ↦ inl (record {
          left = turns;
          after = m;
          returns = rw (here, front, f) refl;
          calm = calm;
          later = here-Later m v;
          drained = record { dev = dev; there = here; d = d; next = front; empty = f };
          others = λ j ne. SameRx-refl m.devs j;
        })
        | inl t ↦
            elim (take_turn-Turned idx m dev d (next_events turns) v (next-AllCalm turns calm) here
              front t) [
                | inr h ↦ inr (Halted-none m _ _ h (rw (here, front, t, h.stops) refl))
                | inl g ↦
                    elim (serve_device-Emptied fuel idx (later_events turns) g.after g.now
                      g.later.valid (later-AllCalm turns calm) g.there (omega (arith, g.less))) [
                        | inr h ↦ inr (
                            Halted-none m _ _ (Halted-Later m g.after _ g.later h)
                              (rw (here, front, t, g.returns, h.stops) refl))
                        | inl p ↦ inl (record {
                          left = p.left;
                          after = p.after;
                          returns = rw (here, front, t, g.returns, p.returns) refl;
                          calm = p.calm;
                          later = Later-trans m g.after p.after g.later p.later;
                          drained = p.drained;
                          others = λ j ne.
                              SameRx-trans m.devs g.after.devs p.after.devs j (g.others j ne)
                                (p.others j ne);
                        })
                      ]
              ]
      ]

  -- The devices from `idx` on are served.
  pub record ServedAll (idx : ℕ) (m : Machine) (o : Option Machine) : Type 0 where
    pub after : Machine
    pub returns : o ≡ some after
    pub later : Later m after
    pub drained : (j : ℕ) → idx ≤ j → j < length m.devs → Drained after.devs j
    pub others : (j : ℕ) → j < idx → SameRx m.devs after.devs j

  serve_devices-ServedAll :
      (left idx : ℕ) (turns : List (List Event)) (m : Machine)
      → IsMachine m
      → AllTurnsCalm turns
      → idx + left ≡ length m.devs
      → ServedAll idx m (serve_devices done replies left idx turns m)
        ⊎ Halted m (serve_devices done replies left idx turns m)
  unfolding serve_devices
  serve_devices-ServedAll zero idx turns m v calm e = inl (record {
    after = m;
    returns = refl;
    later = here-Later m v;
    drained = λ j le lt. absurd (omega arith);
    others = λ j lt. SameRx-refl m.devs j;
  })
  serve_devices-ServedAll (suc left) idx turns m v calm e =
      let (dev, here) = get_elem?_of_lt m.devs idx (omega arith) in
      let room : ready dev.rx_ring < 33 =
        omega (arith, ready-le dev.rx_ring, (v.system.rings idx dev here).0.0) in
      elim (serve_device-Emptied 33 idx turns m dev v calm here room) [
        | inr h ↦ inr (Halted-none m _ _ h (rw (h.stops) refl))
        | inl p ↦
            elim (serve_devices-ServedAll left (idx + 1) p.left p.after p.later.valid p.calm
              (omega (arith, p.later.size))) [
                | inr h ↦ inr (
                    Halted-none m _ _ (Halted-Later m p.after _ p.later h)
                      (rw (p.returns, h.stops) refl))
                | inl q ↦ inl (record {
                  after = q.after;
                  returns = rw (p.returns, q.returns) refl;
                  later = Later-trans m p.after q.after p.later q.later;
                  drained = λ j le lt. elim (Bool-cases (idx == j)) [
                    | inl same ↦
                        let eq : idx ≡ j = ground arith in
                        subst (Drained q.after.devs) eq (
                          Drained-SameRx p.after.devs q.after.devs idx p.drained
                            (q.others idx (omega arith)))
                    | inr ne ↦ q.drained j (ground (arith, le)) (omega (arith, p.later.size))
                  ];
                  others = λ j lt.
                      SameRx-trans m.devs p.after.devs q.after.devs j (p.others j (omega arith))
                        (q.others j (omega arith));
                })
              ]
      ]

  -- A poll of a well-formed machine, in which no card interrupts, returns and leaves every device at a
  -- descriptor that is not ready, or one of the events does not return.
  pub serve-ServedAll :
      (turns : List (List Event)) (m : Machine)
      → IsMachine m
      → AllTurnsCalm turns
      → ServedAll 0 m (serve done replies turns m) ⊎ Halted m (serve done replies turns m)
  unfolding serve
  serve-ServedAll turns m v calm =
      serve_devices-ServedAll (length m.devs) 0 turns m v calm (omega arith)
