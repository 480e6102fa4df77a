-- ===== src/Fastpath.antt =====
-- `nk_fastpath_rx_callback` of kernel.c: what becomes of a received frame. The calls that it makes of
-- other parts (the serial line, lwIP, the network driver) are actions, in order, each with the bytes
-- of the buffer at the time of the call.
pub mod Forward
pub mod Paths
pub mod Transit
mod Tests
use burst_kernel_virtual_mac.Base.{
  ℕ, zero, suc, ◌+◌, ◌-◌, ◌*◌, ◌^◌, Bool, ◌&&◌, Option, none, some, List, [], ◌∷◌, ◌++◌, ltb, leb,
  ◌==◌, get_elem?, if◌then◌else◌, ◌>>=◌,
}
use burst_kernel_virtual_mac.Packet.{Buffer, load8, load32, store8, store16}
use burst_kernel_virtual_mac.Checksum.{ip_checksum}
use burst_kernel_virtual_mac.Nat.{Nat, Outcome, header_length, wan_ip, nat_inbound, nat_outbound}
use burst_kernel_virtual_mac.Route.{RouteEntry, Routes, route_lookup}

-- The lines that the callback prints on the serial port.
pub data Line : Type 0 where
  inbound_translated outbound_translated forwarded : Line

pub data Action : Type 0 where
  print : Line → Action
  -- `ethernetif_input(&main_netif, data, len)`
  to_stack : Buffer → ℕ → Action
  -- `e1000_send_packet(dev_idx, pkt, len)`
  transmit : ℕ → Buffer → ℕ → Action

-- The state that the callback reads or changes: the NAT, the routes, and each device's MAC address.
pub record Router : Type 0 where
  pub nat : Nat
  pub routes : Routes
  pub macs : List (List ℕ)

-- After the callback: the router, the receive buffer and the calls made.
pub record Handled : Type 0 where
  pub router : Router
  pub packet : Buffer
  pub actions : List Action

-- 10.0.2.15
abbrev pub my_ip : ℕ
my_ip = wan_ip

-- `for (i = 0; i < 6; i++) { pkt[i] = next_hop_mac[i]; pkt[i+6] = mac[i]; }`, `left` rounds from `i`.
unfoldable pub copy_macs : ℕ → ℕ → List ℕ → List ℕ → Buffer → Option Buffer
copy_macs zero i next_hop mac pkt = some pkt
copy_macs (suc left) i next_hop mac pkt = do
  d ← get_elem? next_hop i
  pkt₁ ← store8 pkt i d
  s ← get_elem? mac i
  pkt₂ ← store8 pkt₁ (i + 6) s
  copy_macs left (i + 1) next_hop mac pkt₂

-- Steps 1 to 3 on a packet whose TTL is above 1: TTL, checksum, MAC addresses.
unfoldable pub rewrite_header : ℕ → List ℕ → List ℕ → Buffer → Option Buffer
rewrite_header ttl next_hop mac pkt = do
  pkt₁ ← store8 pkt 22 (ttl - 1)
  pkt₂ ← store8 pkt₁ 24 0
  pkt₃ ← store8 pkt₂ 25 0
  version ← load8 pkt₃ 14
  new_csum ← ip_checksum pkt₃ 14 (header_length version)
  pkt₄ ← store16 pkt₃ 24 new_csum
  copy_macs 6 0 next_hop mac pkt₄

-- The rewritten packet is handed to the driver, on the device that it came in on.
unfoldable pub send_on : ℕ → RouteEntry → ℕ → ℕ → Handled → Option Handled
send_on dev_idx route len ttl h = do
  mac ← get_elem? h.router.macs dev_idx
  pkt ← rewrite_header ttl route.next_hop_mac mac h.packet
  some (record h {
    packet = pkt;
    actions = h.actions ++ print forwarded ∷ transmit dev_idx pkt len ∷ [];
  })

-- "Routing Candidate!": a packet that a route fits, dropped when its TTL runs out.
unfoldable pub forward : ℕ → RouteEntry → ℕ → Handled → Option Handled
forward dev_idx route len h = do
  ttl ← load8 h.packet 22
  if leb ttl 1 then some h else send_on dev_idx route len ttl h

-- Down from the look-up: a route, or lwIP.
unfoldable pub route_packet : ℕ → ℕ → ℕ → Handled → Option Handled
route_packet dev_idx dest_ip len h = elim (route_lookup dest_ip h.router.routes) [
  | some route ↦ forward dev_idx route len h
  | none ↦ some (record h { actions = h.actions ++ to_stack h.packet len ∷ [] })
]

-- Down from the outbound check of the LAN side.
unfoldable pub leave : ℕ → ℕ → ℕ → Handled → Option Handled
leave dev_idx dest_ip len h =
    if dev_idx == 1
    then (do
      o ← nat_outbound h.router.nat h.packet len
      let told = if o.translated then print outbound_translated ∷ [] else []
      let router = record (h.router) { nat = o.nat }
      let h' : Handled = record { router = router; packet = o.packet; actions = h.actions ++ told }
      route_packet dev_idx dest_ip len h')
    else route_packet dev_idx dest_ip len h

-- The inbound check of the WAN side, for a packet to this host.
unfoldable pub arrive_translated : ℕ → ℕ → Handled → Option Handled
arrive_translated dev_idx len h = do dest_ip ← load32 h.packet 30; leave dev_idx dest_ip len h

unfoldable pub arrive_wan : ℕ → ℕ → Router → Buffer → Option Handled
arrive_wan dev_idx len r pkt = do
  o ← nat_inbound r.nat pkt len
  let router = record r { nat = o.nat }
  let told : Handled = record {
    router = router;
    packet = o.packet;
    actions = print inbound_translated ∷ [];
  }
  let stack : Handled = record {
    router = router;
    packet = o.packet;
    actions = to_stack o.packet len ∷ [];
  }
  if o.translated then arrive_translated dev_idx len told else some stack

unfoldable pub handle_ip : ℕ → ℕ → Router → Buffer → Option Handled
handle_ip dev_idx len r pkt = do
  dest_ip ← load32 pkt 30
  let stack : Handled = record { router = r; packet = pkt; actions = to_stack pkt len ∷ [] }
  let quiet : Handled = record { router = r; packet = pkt; actions = [] }
  if dev_idx == 0 && dest_ip == my_ip
      then arrive_wan dev_idx len r pkt
      else if dest_ip == my_ip
      then some stack
      else leave dev_idx dest_ip len quiet

unfoldable pub nk_fastpath_rx_callback : ℕ → Buffer → ℕ → Router → Option Handled
nk_fastpath_rx_callback dev_idx pkt len r =
    if ltb len 34 then some (record { router = r; packet = pkt; actions = [] }) else do
      hi ← load8 pkt 12
      lo ← load8 pkt 13
      if hi * 2 ^ 8 + lo == 0x0800
          then handle_ip dev_idx len r pkt
          else some (record { router = r; packet = pkt; actions = to_stack pkt len ∷ [] })
