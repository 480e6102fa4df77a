-- ===== src/Route/Tests.antt =====
-- Runs of the routing table.
use burst_kernel_virtual_mac.Base.{◌+◌, ◌≡◌, refl, none, some, ◌∷◌, arith, replicate, if◌then◌else◌}
use burst_kernel_virtual_mac.Base.Int.{pos}
use burst_kernel_virtual_mac.Route.{RouteEntry, Routes, on_route, add_route, route_lookup}
use burst_kernel_virtual_mac.Route.Laws.{IsValid, new_route, route_lookup-add_route}

abbrev empty_route : RouteEntry
empty_route = record { dest_ip = 0; netmask = 0; next_hop_mac = replicate 6 0 }

abbrev lan : RouteEntry
lan = record { dest_ip = 0x0001A8C0; netmask = 0x00FFFFFF; next_hop_mac = replicate 6 1 }

abbrev one_route : Routes
one_route = record { table = lan ∷ replicate 15 empty_route; num_routes = pos 1 }

one_route-IsValid : IsValid 1 one_route
one_route-IsValid = record { size = refl; count = refl; room = omega arith }

add_default_example :
    (r' : Routes) × (add_route 0 0 (replicate 6 2) one_route ≡ some r')
    × IsValid (1 + 1) r'
    × (route_lookup 0x08080808 r' ≡ elim (route_lookup 0x08080808 one_route) [
      | none ↦
          if on_route 0x08080808 (new_route 0 0 (replicate 6 2))
          then some (new_route 0 0 (replicate 6 2))
          else none
      | some e ↦ some e
    ])
add_default_example =
    route_lookup-add_route 0 0 (replicate 6 2) 0x08080808 one_route-IsValid (omega arith)
      (omega arith)
