-- ===== src/Machine/Poll.antt =====
-- `e1000_poll` in the main loop of kernel.c with what comes in the middle of its turns: the callback hands
-- a frame to lwIP, which calls the telnet server back and sends, and keys are pressed.
use burst_kernel_virtual_mac.Base.{
  ℕ, zero, suc, ◌+◌, ◌≡◌, ◌⊎◌, refl, Bool, true, false, if◌then◌else◌, none, Option, some, List, [],
  ◌∷◌, ◌>>=◌, length, get_elem?, Bool-cases, inl, inr,
}
use burst_kernel_virtual_mac.Packet.{Buffer}
use burst_kernel_virtual_mac.Driver.{is_ready}
use burst_kernel_virtual_mac.Console.{keyboard_handler}
use burst_kernel_virtual_mac.Cli.Execute.{cli_execute}
use burst_kernel_virtual_mac.Cli.Execute.Returns.{Stops}
use burst_kernel_virtual_mac.Cli.Keys.{closed_line, keyboard_handler-Kept}
use burst_kernel_virtual_mac.Telnet.{Telnet, Pbuf, tcp_recved, called, telnet_recv}
use burst_kernel_virtual_mac.Telnet.Receive.{Exits, telnet_recv-Follows}
use burst_kernel_virtual_mac.Telnet.Client.{is_one_of, open_now}
use burst_kernel_virtual_mac.System.Devices.{
  SameRx, SameRx-refl, SameRx-trans, send_replies-Sending,
}
use burst_kernel_virtual_mac.Machine.{
  Machine, Event, card, key, packets, connection, segment, press_key, connect, receive, with_telnet,
  send_packets, happen, happen_all, take_turn,
}
use burst_kernel_virtual_mac.Machine.Valid.{IsMachine, Later, Later-trans, here-Later}
use burst_kernel_virtual_mac.Machine.Steps.{happen-Later}

-- The events of the next turn, and those of the turns behind it.
abbrev pub next_events : List (List Event) → List Event
next_events [] = []
next_events (es ∷ turns) = es

abbrev pub later_events : List (List Event) → List (List Event)
later_events [] = []
later_events (es ∷ turns) = turns

-- No card interrupts.
abbrev pub AllCalm : List Event → Type 0
AllCalm [] = Unit
AllCalm (card ∷ es) = false ≡ true
AllCalm (key scancode ∷ es) = AllCalm es
AllCalm (packets sent ∷ es) = AllCalm es
AllCalm (connection newpcb ∷ es) = AllCalm es
AllCalm (segment tpcb p ∷ es) = AllCalm es

abbrev pub AllTurnsCalm : List (List Event) → Type 0
AllTurnsCalm [] = Unit
AllTurnsCalm (es ∷ turns) = AllCalm es × AllTurnsCalm turns

-- Why an event does not return: a line is `exit`, or lwIP calls about a connection that is not open, or
-- about a new one that is.
pub data Refused (m : Machine) : Event → Type 0 where
  typed_exit :
      (scancode : ℕ)
      → Stops
          (closed_line m.telnet.console).buf
          (keyboard_handler cli_execute scancode m.telnet.console)
      → Refused m (key scancode)
  sent_exit :
      (tpcb : ℕ) (p : Pbuf)
      → Exits p.payload (called (tcp_recved tpcb p.tot_len ∷ []) m.telnet)
      → Refused m (segment tpcb (some p))
  not_open :
      (tpcb : ℕ) (p : Option Pbuf)
      → is_one_of tpcb (open_now m.telnet) ≡ false
      → Refused m (segment tpcb p)
  not_new :
      (newpcb : ℕ) → is_one_of newpcb (open_now m.telnet) ≡ true → Refused m (connection newpcb)

-- There is no result, because of an event at a later machine.
pub record Halted {ℓ} {A : Type ℓ} (m : Machine) (o : Option A) : Type ℓ where
  pub there : Machine
  pub event : Event
  pub later : Later m there
  pub refused : Refused there event
  pub stops : o ≡ none

pub Halted-Later : {A : Type 0} (m n : Machine) (o : Option A) → Later m n → Halted n o → Halted m o
Halted-Later m n o l h = record {
  there = h.there;
  event = h.event;
  later = Later-trans m n h.there l h.later;
  refused = h.refused;
  stops = h.stops;
}

pub Halted-none :
    {A B : Type 0} (m : Machine) (o : Option A) (q : Option B) → Halted m o → q ≡ none → Halted m q
Halted-none m o q h stops = record {
  there = h.there;
  event = h.event;
  later = h.later;
  refused = h.refused;
  stops = stops;
}

module _ (done : ℕ → Bool) (replies : Buffer → ℕ → List (ℕ × ℕ)) where
  -- The receive loop of a device, on fuel, with the events of each turn: those that are left, and the
  -- machine.
  unfoldable pub serve_device :
      ℕ → ℕ → List (List Event) → Machine → Option (List (List Event) × Machine)
  serve_device zero idx turns m = none
  serve_device (suc fuel) idx turns m = do
    dev ← get_elem? m.devs idx
    d ← get_elem? dev.rx_ring dev.rx_cur
    let handled : Option (List (List Event) × Machine) = do
      n ← take_turn done replies idx d (next_events turns) m
      serve_device fuel idx (later_events turns) n
    if is_ready d then handled else some (turns, m)

  -- `left` devices, from number `idx` on.
  unfoldable pub serve_devices : ℕ → ℕ → List (List Event) → Machine → Option Machine
  serve_devices zero idx turns m = some m
  serve_devices (suc left) idx turns m = do
    (turns', n) ← serve_device 33 idx turns m
    serve_devices left (idx + 1) turns' n

  unfoldable pub serve : List (List Event) → Machine → Option Machine
  serve turns m = serve_devices (length m.devs) 0 turns m

  -- An event that is no interrupt of a card leaves the receive rings alone.
  pub record Calmed (m : Machine) (o : Option Machine) : Type 0 where
    pub after : Machine
    pub returns : o ≡ some after
    pub later : Later m after
    pub same : (j : ℕ) → SameRx m.devs after.devs j

  happen-Calmed :
      (e : Event) (m : Machine)
      → AllCalm (e ∷ [])
      → IsMachine m
      → Calmed m (happen done replies e m) ⊎ Halted m (happen done replies e m)
  unfolding happen press_key connect receive send_packets telnet_recv
  happen-Calmed card m calm v = absurd (cc)
  happen-Calmed (key scancode) m calm v =
      elim (keyboard_handler-Kept scancode m.telnet.console v.served.valid.console) [
        | inl (c, e, w, net) ↦ inl (record {
          after = record m { telnet = record (m.telnet) { console = c } };
          returns = rw e refl;
          later = happen-Later done replies (key scancode) m _ v (rw e refl);
          same = SameRx-refl m.devs;
        })
        | inr stop ↦ inr (record {
          there = m;
          event = key scancode;
          later = here-Later m v;
          refused = typed_exit scancode stop;
          stops = rw (stop.1) refl;
        })
      ]
  happen-Calmed (packets sent) m calm v =
      let (devs', e, p) = send_replies-Sending done replies sent m.devs v.system.rings in
      inl (record {
        after = record m { devs = devs' };
        returns = rw e refl;
        later = happen-Later done replies (packets sent) m _ v (rw e refl);
        same = p.same;
      })
  happen-Calmed (connection newpcb) m calm v =
      elim (Bool-cases (is_one_of newpcb (open_now m.telnet))) [
        | inl old ↦ inr (record {
          there = m;
          event = connection newpcb;
          later = here-Later m v;
          refused = not_new newpcb old;
          stops = rw old refl;
        })
        | inr fresh ↦ inl (record {
          after = connect newpcb m;
          returns = rw fresh refl;
          later = happen-Later done replies (connection newpcb) m _ v (rw fresh refl);
          same = SameRx-refl m.devs;
        })
      ]
  happen-Calmed (segment tpcb p) m calm v = elim (Bool-cases (is_one_of tpcb (open_now m.telnet))) [
    | inr closed ↦ inr (record {
      there = m;
      event = segment tpcb p;
      later = here-Later m v;
      refused = not_open tpcb p closed;
      stops = rw closed refl;
    })
    | inl mine ↦ received p mine
  ]
    where
      ended :
          (p : Option Pbuf) (t : Telnet)
          → is_one_of tpcb (open_now m.telnet) ≡ true
          → telnet_recv tpcb p m.telnet ≡ some t
          → Calmed m (happen done replies (segment tpcb p) m)
      ended p t mine e = record {
        after = with_telnet t m;
        returns = rw (mine, e) refl;
        later = happen-Later done replies (segment tpcb p) m _ v (rw (mine, e) refl);
        same = SameRx-refl m.devs;
      }

      received :
          (p : Option Pbuf)
          → is_one_of tpcb (open_now m.telnet) ≡ true
          → Calmed m (happen done replies (segment tpcb p) m)
            ⊎ Halted m (happen done replies (segment tpcb p) m)
      received none mine = inl (ended none _ mine refl)
      received (some q) mine = elim (telnet_recv-Follows tpcb q m.telnet v.served.valid) [
        | inl (t, e, f) ↦ inl (ended (some q) t mine e)
        | inr (x, stop) ↦ inr (record {
          there = m;
          event = segment tpcb (some q);
          later = here-Later m v;
          refused = sent_exit tpcb q x;
          stops = rw (mine, stop) refl;
        })
      ]

  first_calm : (e : Event) (es : List Event) → AllCalm (e ∷ es) → AllCalm (e ∷ []) × AllCalm es
  first_calm card es calm = absurd cc
  first_calm (key scancode) es calm = (tt, calm)
  first_calm (packets sent) es calm = (tt, calm)
  first_calm (connection newpcb) es calm = (tt, calm)
  first_calm (segment tpcb p) es calm = (tt, calm)

  pub happen_all-Calmed :
      (es : List Event) (m : Machine)
      → AllCalm es
      → IsMachine m
      → Calmed m (happen_all done replies es m) ⊎ Halted m (happen_all done replies es m)
  unfolding happen_all
  happen_all-Calmed [] m calm v =
      inl (record { after = m; returns = refl; later = here-Later m v; same = SameRx-refl m.devs })
  happen_all-Calmed (e ∷ es) m calm v =
      let (first, rest) = first_calm e es calm in
      elim (happen-Calmed e m first v) [
        | inr h ↦ inr (Halted-none m _ _ h (rw (h.stops) refl))
        | inl c ↦ elim (happen_all-Calmed es c.after rest c.later.valid) [
          | inr h ↦ inr (
              Halted-none m _ _ (Halted-Later m c.after _ c.later h) (rw (c.returns, h.stops) refl))
          | inl d ↦ inl (record {
            after = d.after;
            returns = rw (c.returns, d.returns) refl;
            later = Later-trans m c.after d.after c.later d.later;
            same = λ j. SameRx-trans m.devs c.after.devs d.after.devs j (c.same j) (d.same j);
          })
        ]
      ]
