-- ===== src/System/Boot.antt =====
-- `kmain` of kernel.c: `nat_init` and `e1000_init`, and the route that it adds.
use burst_kernel_virtual_mac.Base.{ℕ, Option, some, List, [], ◌∷◌, map, replicate, ◌>>=◌}
use burst_kernel_virtual_mac.Base.Int.{pos}
use burst_kernel_virtual_mac.Packet.{Buffer}
use burst_kernel_virtual_mac.Nat.{nat_init}
use burst_kernel_virtual_mac.Route.{RouteEntry, Routes, max_routes, add_route}
use burst_kernel_virtual_mac.Driver.Init.{Setup, e1000_init}
use burst_kernel_virtual_mac.System.{System}

-- Static memory: all zero.
abbrev pub no_route : RouteEntry
no_route = record { dest_ip = 0; netmask = 0; next_hop_mac = replicate 6 0 }

abbrev pub no_routes : Routes
no_routes = record { table = replicate max_routes no_route; num_routes = pos 0 }

abbrev pub target_net : ℕ
target_net = 0x0001A8C0

abbrev pub route_mask : ℕ
route_mask = 0x00FFFFFF

abbrev pub next_hop_mac : List ℕ
next_hop_mac = 0x52 ∷ 0x54 ∷ 0x00 ∷ 0x99 ∷ 0x99 ∷ 0x99 ∷ []

abbrev pub of_setups : List Setup → Routes → (ℕ → Buffer) → System
of_setups setups routes memory = record {
  devs = map (λ s. s.device) setups;
  router = record { nat = nat_init; routes = routes; macs = map (λ s. s.mac) setups };
  memory = memory;
  actions = [];
}

-- `nat_init` and `e1000_init`. `memory` is what the buffers hold; the other arguments are those of
-- `e1000_init`.
unfoldable pub start_cards :
    (ℕ → ℕ) → ℕ → (ℕ → ℕ → ℕ) → (ℕ → ℕ → ℕ) → ℕ → (ℕ → Buffer) → Option System
start_cards pci base stale regs offset memory = do
  (setups, end_offset) ← e1000_init pci base stale regs offset
  some (of_setups setups no_routes memory)

unfoldable pub first_route : System → Option System
first_route s = do
  routes ← add_route target_net route_mask next_hop_mac s.router.routes
  some (record s { router = record (s.router) { routes = routes } })
