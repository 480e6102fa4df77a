-- ===== src/Fastpath/Transit.antt =====
-- What becomes of an IPv4 packet for another host that did not come from the LAN device.
use burst_kernel_virtual_mac.Base.{
  ℕ, ◌+◌, ◌*◌, ◌^◌, ◌≤◌, ◌<◌, ◌≡◌, ◌≢◌, ◌∙◌, inl, inr, Bool-cases, true, false, some, List, [], ◌∷◌,
  arith, ◌==◌, ltb, leb, length, get_elem?,
}
use burst_kernel_virtual_mac.Packet.{Buffer, load8_lem, load32_lem}
use burst_kernel_virtual_mac.Checksum.Words.{IsBytes}
use burst_kernel_virtual_mac.Nat.Outbound.{reach}
use burst_kernel_virtual_mac.Nat.Inbound.{dst_ip_of}
use burst_kernel_virtual_mac.Route.{RouteEntry, route_lookup}
use burst_kernel_virtual_mac.Fastpath.{
  print, transmit, forwarded, Router, Handled, send_on, forward, route_packet, leave, handle_ip,
  nk_fastpath_rx_callback, my_ip,
}
use burst_kernel_virtual_mac.Fastpath.Forward.{IsForwarded, rewrite_header_lem}

-- An IPv4 packet for a host that `route` leads to, which came in on a device other than the LAN's.
pub record IsTransit (dev len : ℕ) (r : Router) (pkt : Buffer) (route : RouteEntry) : Type 0 where
  pub room : reach ≤ pkt.size
  pub long : 34 ≤ len
  pub ipv4 : pkt.at 12 * 2 ^ 8 + pkt.at 13 ≡ 0x0800
  pub device : dev ≢ 1
  pub elsewhere : dst_ip_of pkt ≢ my_ip
  pub routed : route_lookup (dst_ip_of pkt) r.routes ≡ some route

module _ {dev len : ℕ} {r : Router} {pkt : Buffer} {route : RouteEntry}
    (t : IsTransit dev len r pkt route) where
  abbrev untouched : Handled
  untouched = record { router = r; packet = pkt; actions = [] }

  to_forward : nk_fastpath_rx_callback dev pkt len r ≡ forward dev route len untouched
  unfolding nk_fastpath_rx_callback handle_ip leave route_packet
  to_forward =
      let long : ltb len 34 ≡ false = ground (arith, t.long) in
      let ipv4 : (pkt.at 12 * 2 ^ 8 + pkt.at 13 == 0x0800) ≡ true = ground (arith, t.ipv4) in
      let lan : (dev == 1) ≡ false = ground (arith, t.device) in
      let mine : (dst_ip_of pkt == my_ip) ≡ false = ground (arith, t.elsewhere) in
      let loads = load32_lem pkt 30 (omega (arith, t.room)) in
      rw
        (
          long,
          load8_lem pkt 12 (omega (arith, t.room)),
          load8_lem pkt 13 (omega (arith, t.room)),
          ipv4,
          loads,
        )
        (elim (Bool-cases (dev == 0)) [
          | inl wan ↦ rw (wan, mine, lan, t.routed, route_packet)
          | inr other ↦ rw (other, mine, lan, t.routed, route_packet)
        ])

  -- An IPv4 packet of at least 34 bytes, in a buffer of bytes of at least 92, for another host
  -- that a route leads to, received on a device other than device 1 whose MAC address has 6
  -- bytes as the next hop has, and with a TTL above 1, is transmitted on that device: with the
  -- TTL one less, the two MAC addresses, a header checksum that passes where the header has at
  -- least 20 bytes, and else its bytes. The router does not change.
  pub transit-forwarded :
      (mac : List ℕ)
      → get_elem? r.macs dev ≡ some mac
      → length mac ≡ 6
      → length route.next_hop_mac ≡ 6
      → IsBytes pkt.at
      → 1 < pkt.at 22
      → (out : Buffer) × (nk_fastpath_rx_callback dev pkt len r
          ≡ some (record {
            router = r;
            packet = out;
            actions = print forwarded ∷ transmit dev out len ∷ [];
          }))
        × IsForwarded (pkt.at 22) route.next_hop_mac mac pkt out
  unfolding forward send_on
  transit-forwarded mac mac_at six six' bytes alive =
      let (out, run, f) =
        rewrite_header_lem (pkt.at 22) route.next_hop_mac mac pkt bytes t.room six' six in
      let live : leb (pkt.at 22) 1 ≡ false = ground arith in
      (out, to_forward ∙ rw (load8_lem pkt 22 (omega (arith, t.room)), live, mac_at, run), f)

  -- An IPv4 packet of at least 34 bytes, in a buffer of at least 92 bytes, for another host
  -- that a route leads to, received on a device other than device 1, is dropped if its TTL is 1
  -- or 0: no call is made, and neither the router nor the packet changes.
  pub transit-dropped :
      pkt.at 22 ≤ 1
      → nk_fastpath_rx_callback dev pkt len r
        ≡ some (record { router = r; packet = pkt; actions = [] })
  unfolding forward
  transit-dropped dead =
      let drop : leb (pkt.at 22) 1 ≡ true = ground arith in
      to_forward ∙ rw (load8_lem pkt 22 (omega (arith, t.room)), drop)
