-- ===== src/Fastpath/Paths.antt =====
-- The paths of a frame through the callback of kernel.c, each from where the one before ends.
use burst_kernel_virtual_mac.Base.{
  ℕ, ◌+◌, ◌*◌, ◌^◌, ◌≤◌, ◌≡◌, inl, inr, refl, sym, ap, ◌∙◌, Option, some, List, [], ◌∷◌, ◌++◌,
  arith, ◌==◌, leb, ltb, length, get_elem?, Bool-cases, Option-cases,
}
use burst_kernel_virtual_mac.Packet.{Buffer, load8_lem, load32_lem, word32}
use burst_kernel_virtual_mac.Checksum.Words.{IsBytes}
use burst_kernel_virtual_mac.Nat.{Outcome}
use burst_kernel_virtual_mac.Nat.Table.{IsWf, Extends, Extends-refl, Extends-trans}
use burst_kernel_virtual_mac.Nat.Outbound.{reach, nat_outbound_lem}
use burst_kernel_virtual_mac.Nat.Inbound.{nat_inbound_lem}
use burst_kernel_virtual_mac.Nat.Steps.{
  Evolves, OutboundResult-Evolves, OutboundResult-IsBytes, InboundResult-Evolves,
  InboundResult-IsBytes,
}
use burst_kernel_virtual_mac.Route.{RouteEntry, route_lookup}
use burst_kernel_virtual_mac.Fastpath.{
  Action, print, to_stack, transmit, inbound_translated, outbound_translated, forwarded, Router,
  Handled, send_on, forward, route_packet, leave, arrive_translated, arrive_wan, handle_ip,
  nk_fastpath_rx_callback, my_ip,
}
use burst_kernel_virtual_mac.Fastpath.Forward.{rewrite_header_lem}

-- How often the frame is handed over, to lwIP or to a device.
abbrev pub hand_overs : List Action → ℕ
hand_overs [] = 0
hand_overs (print l ∷ xs) = hand_overs xs
hand_overs (to_stack pkt len ∷ xs) = 1 + hand_overs xs
hand_overs (transmit dev pkt len ∷ xs) = 1 + hand_overs xs

-- All that is transmitted goes out on device `dev`.
abbrev pub OnDevice : ℕ → List Action → Type 0
OnDevice dev [] = Unit
OnDevice dev (print l ∷ xs) = OnDevice dev xs
OnDevice dev (to_stack pkt len ∷ xs) = OnDevice dev xs
OnDevice dev (transmit d pkt len ∷ xs) = (d ≡ dev) × OnDevice dev xs

hand_overs-append : (xs ys : List Action) → hand_overs (xs ++ ys) ≡ hand_overs xs + hand_overs ys
hand_overs-append [] ys = omega arith
hand_overs-append (print l ∷ xs) ys = hand_overs-append xs ys
hand_overs-append (to_stack pkt len ∷ xs) ys = omega (arith, hand_overs-append xs ys)
hand_overs-append (transmit d pkt len ∷ xs) ys = omega (arith, hand_overs-append xs ys)

OnDevice-append :
    (dev : ℕ) (xs ys : List Action) → OnDevice dev xs → OnDevice dev ys → OnDevice dev (xs ++ ys)
OnDevice-append dev [] ys h k = k
OnDevice-append dev (print l ∷ xs) ys h k = OnDevice-append dev xs ys h k
OnDevice-append dev (to_stack pkt len ∷ xs) ys h k = OnDevice-append dev xs ys h k
OnDevice-append dev (transmit d pkt len ∷ xs) ys h k = (h.0, OnDevice-append dev xs ys h.1 k)

-- A router with `k` sessions, whose MAC addresses have 6 bytes, those of its routes too.
pub record IsReady (k dev : ℕ) (r : Router) : Type 0 where
  pub nat : IsWf k r.nat
  pub mac : List ℕ
  pub mac_at : get_elem? r.macs dev ≡ some mac
  pub mac_size : length mac ≡ 6
  pub hops :
      (ip : ℕ) (e : RouteEntry) → route_lookup ip r.routes ≡ some e → length e.next_hop_mac ≡ 6

-- Where a frame that came in on `dev` at the router `r` stands, with `n` hand-overs at most.
pub record Stands (n dev : ℕ) (r : Router) (h : Handled) : Type 0 where
  pub count : ℕ
  pub nat : IsWf count h.router.nat
  pub kept : Extends r.nat h.router.nat
  pub routes : h.router.routes ≡ r.routes
  pub macs : h.router.macs ≡ r.macs
  pub bytes : IsBytes h.packet.at
  pub room : reach ≤ h.packet.size
  pub once : hand_overs h.actions ≤ n
  pub own : OnDevice dev h.actions

abbrev Ends : ℕ → Router → Option Handled → Type 0
Ends dev r o = (h : Handled) × (o ≡ some h) × Stands 1 dev r h

Stands-weaken : {dev : ℕ} {r : Router} {h : Handled} → Stands 0 dev r h → Stands 1 dev r h
Stands-weaken s = record {
  count = s.count;
  nat = s.nat;
  kept = s.kept;
  routes = s.routes;
  macs = s.macs;
  bytes = s.bytes;
  room = s.room;
  once = omega (arith, s.once);
  own = s.own;
}

module _ {k dev : ℕ} {r : Router} (ready : IsReady k dev r) (len : ℕ) where
  send_on-Ends :
      (route : RouteEntry) (ttl : ℕ) (h : Handled)
      → Stands 0 dev r h
      → length route.next_hop_mac ≡ 6
      → Ends dev r (send_on dev route len ttl h)
  unfolding send_on
  send_on-Ends route ttl h s six =
      let (out, run, f) =
        rewrite_header_lem ttl route.next_hop_mac ready.mac h.packet s.bytes s.room six
          ready.mac_size in
      let calls = print forwarded ∷ transmit dev out len ∷ [] in
      (
        record h { packet = out; actions = h.actions ++ calls },
        rw (s.macs, ready.mac_at, run),
        record {
          count = s.count;
          nat = s.nat;
          kept = s.kept;
          routes = s.routes;
          macs = s.macs;
          bytes = f.bytes;
          room = omega (arith, f.size, s.room);
          once = omega (arith, hand_overs-append h.actions calls, s.once);
          own = OnDevice-append dev h.actions calls s.own (refl, tt);
        },
      )

  forward-Ends :
      (route : RouteEntry) (h : Handled)
      → Stands 0 dev r h
      → length route.next_hop_mac ≡ 6
      → Ends dev r (forward dev route len h)
  unfolding forward
  forward-Ends route h s six =
      rw (load8_lem h.packet 22 (omega (arith, s.room)))
        (elim (Bool-cases (leb (h.packet.at 22) 1)) [
          | inl dead ↦ rw dead (h, refl, Stands-weaken s)
          | inr alive ↦ rw alive (send_on-Ends route (h.packet.at 22) h s six)
        ])

  route_packet-Ends :
      (dest_ip : ℕ) (h : Handled) → Stands 0 dev r h → Ends dev r (route_packet dev dest_ip len h)
  unfolding route_packet
  route_packet-Ends dest_ip h s = elim (Option-cases (route_lookup dest_ip h.router.routes)) [
    | inl e ↦
        let calls = to_stack h.packet len ∷ [] in
        (
          record h { actions = h.actions ++ calls },
          rw (e, route_packet),
          record {
            count = s.count;
            nat = s.nat;
            kept = s.kept;
            routes = s.routes;
            macs = s.macs;
            bytes = s.bytes;
            room = s.room;
            once = omega (arith, hand_overs-append h.actions calls, s.once);
            own = OnDevice-append dev h.actions calls s.own tt;
          },
        )
    | inr route ↦
        let found = sym (ap (route_lookup dest_ip) s.routes) ∙ route.1 in
        rw (route.1, route_packet) (forward-Ends route.0 h s (ready.hops dest_ip route.0 found))
  ]

  -- The frame after a NAT operation that has done `Evolves` to the table, with one more line printed.
  translated_stands :
      (h : Handled) (o : Outcome) (lines : List Action)
      → (s : Stands 0 dev r h) → Evolves s.count h.router.nat o.nat
      → IsBytes o.packet.at × (o.packet.size ≡ h.packet.size)
      → hand_overs lines ≡ 0
      → OnDevice dev lines
      → Stands 0 dev r (record {
        router = record (h.router) { nat = o.nat };
        packet = o.packet;
        actions = h.actions ++ lines;
      })
  translated_stands h o lines s evolves packet quiet own = record {
    count = evolves.count;
    nat = evolves.wf;
    kept = Extends-trans r.nat h.router.nat o.nat s.kept evolves.kept;
    routes = s.routes;
    macs = s.macs;
    bytes = packet.0;
    room = omega (arith, packet.1, s.room);
    once = omega (arith, hand_overs-append h.actions lines, s.once);
    own = OnDevice-append dev h.actions lines s.own own;
  }

  leave-Ends : (dest_ip : ℕ) (h : Handled) → Stands 0 dev r h → Ends dev r (leave dev dest_ip len h)
  unfolding leave
  leave-Ends dest_ip h s = elim (Bool-cases (dev == 1)) [
    | inl lan ↦
        let out = nat_outbound_lem s.nat h.packet len s.room in
        let evolves = OutboundResult-Evolves s.nat out.result in
        let packet = OutboundResult-IsBytes out.result s.bytes in
        rw (lan, out.returns)
          (elim (Bool-cases (out.outcome.translated)) [
            | inl t ↦ rw t (
                route_packet-Ends dest_ip _ (
                  translated_stands h out.outcome (print outbound_translated ∷ []) s evolves packet
                    refl tt))
            | inr f ↦ rw f (
                route_packet-Ends dest_ip _
                  (translated_stands h out.outcome [] s evolves packet refl tt))
          ])
    | inr other ↦ rw other (route_packet-Ends dest_ip h s)
  ]

  to_stack_stands :
      (h : Handled)
      → Stands 0 dev r h
      → Stands 1 dev r (record h { actions = to_stack h.packet len ∷ [] })
  to_stack_stands h s = record {
    count = s.count;
    nat = s.nat;
    kept = s.kept;
    routes = s.routes;
    macs = s.macs;
    bytes = s.bytes;
    room = s.room;
    once = omega arith;
    own = tt;
  }

  module _ (pkt : Buffer) (bytes : IsBytes pkt.at) (room : reach ≤ pkt.size) where
    quiet_stands : Stands 0 dev r (record { router = r; packet = pkt; actions = [] })
    quiet_stands = record {
      count = k;
      nat = ready.nat;
      kept = Extends-refl r.nat;
      routes = refl;
      macs = refl;
      bytes = bytes;
      room = room;
      once = omega arith;
      own = tt;
    }

    stack_stands :
        Stands 1 dev r (record { router = r; packet = pkt; actions = to_stack pkt len ∷ [] })
    stack_stands = to_stack_stands _ quiet_stands

    arrive_wan-Ends : Ends dev r (arrive_wan dev len r pkt)
    unfolding arrive_wan arrive_translated quiet_stands
    arrive_wan-Ends =
        let result = nat_inbound_lem ready.nat pkt len room in
        let o = result.outcome in
        let evolves = InboundResult-Evolves ready.nat result.result in
        let packet = InboundResult-IsBytes result.result bytes in
        let at = translated_stands _ o [] quiet_stands evolves packet refl tt in
        rw (result.returns) (elim (Bool-cases (o.translated)) [
          | inl t ↦
              rw (t, load32_lem o.packet 30 (omega (arith, packet.1, room)))
                (leave-Ends (word32 o.packet.at 30) _ (
                  translated_stands _ o (print inbound_translated ∷ []) quiet_stands evolves packet
                    refl tt))
          | inr f ↦ rw f (_, refl, to_stack_stands _ at)
        ])

    handle_ip-Ends : Ends dev r (handle_ip dev len r pkt)
    unfolding handle_ip
    handle_ip-Ends =
        let dest_ip = word32 pkt.at 30 in
        rw (load32_lem pkt 30 (omega arith)) (elim (Bool-cases (dest_ip == my_ip)) [
          | inl mine ↦ elim (Bool-cases (dev == 0)) [
            | inl wan ↦ rw (mine, wan) arrive_wan-Ends
            | inr lan ↦ rw (mine, lan) (_, refl, stack_stands)
          ]
          | inr transit ↦ elim (Bool-cases (dev == 0)) [
            | inl wan ↦ rw (transit, wan) (leave-Ends dest_ip _ quiet_stands)
            | inr lan ↦ rw (transit, lan) (leave-Ends dest_ip _ quiet_stands)
          ]
        ])

    -- On a well-formed NAT, where the receiving device has a MAC address of 6 bytes and so has
    -- the next hop of every route that a look-up finds, the callback returns on every frame of
    -- bytes in a buffer of at least 92 bytes. The NAT is then well-formed and has the sessions
    -- of before, the routes and MAC addresses are as before, the frame was handed over at most
    -- once, and what was transmitted went out on the device that the frame came in on.
    pub callback-Stands :
        (h : Handled) × (nk_fastpath_rx_callback dev pkt len r ≡ some h) × Stands 1 dev r h
    unfolding nk_fastpath_rx_callback
    callback-Stands = elim (Bool-cases (ltb len 34)) [
      | inl short ↦ rw short (_, refl, Stands-weaken quiet_stands)
      | inr long ↦
          rw (long, load8_lem pkt 12 (omega arith), load8_lem pkt 13 (omega arith))
            (elim (Bool-cases (pkt.at 12 * 2 ^ 8 + pkt.at 13 == 0x0800)) [
              | inl ipv4 ↦ rw ipv4 handle_ip-Ends
              | inr other ↦ rw other (_, refl, stack_stands)
            ])
    ]
