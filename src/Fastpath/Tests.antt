-- ===== src/Fastpath/Tests.antt =====
-- Runs of the fast path.
use burst_kernel_virtual_mac.Base.{
  ℕ, ◌≡◌, refl, ap, Option-cases, inl, inr, get_elem?, get_elem?-replicate, none, some, [], ◌∷◌,
  arith, length, replicate, set, find_index,
}
use burst_kernel_virtual_mac.Base.Int.{pos}
use burst_kernel_virtual_mac.Samples.{of_list, outward, outward-IsBytes}
use burst_kernel_virtual_mac.Packet.{Buffer}
use burst_kernel_virtual_mac.Nat.{nat_init}
use burst_kernel_virtual_mac.Nat.Table.{nat_init-IsWf}
use burst_kernel_virtual_mac.Route.{RouteEntry, route_lookup, route_index, on_route}
use burst_kernel_virtual_mac.Fastpath.{
  Router, Handled, print, forwarded, transmit, nk_fastpath_rx_callback,
}
use burst_kernel_virtual_mac.Fastpath.Forward.{IsForwarded}
use burst_kernel_virtual_mac.Fastpath.Paths.{IsReady, Stands, callback-Stands}
use burst_kernel_virtual_mac.Fastpath.Transit.{IsTransit, transit-forwarded, transit-dropped}

abbrev default_route : RouteEntry
default_route = record { dest_ip = 0; netmask = 0; next_hop_mac = replicate 6 2 }

abbrev router : Router
router = record {
  nat = nat_init;
  routes = record { table = replicate 16 default_route; num_routes = pos 1 };
  macs = replicate 6 7 ∷ replicate 6 9 ∷ [];
}

hops :
    (ip : ℕ) (e : RouteEntry) → route_lookup ip router.routes ≡ some e → length e.next_hop_mac ≡ 6
unfolding route_lookup
hops ip e h = elim (Option-cases (route_index ip router.routes)) [
  | inl missed ↦ (let nothing : none ≡ some e = rw (missed, route_lookup) at h in cc)
  | inr (i, found) ↦
      let at_i : get_elem? (replicate 16 default_route) i ≡ some e =
        rw (found, route_lookup) at h in
      ap (λ x. length x.next_hop_mac) (get_elem?-replicate 16 default_route i at_i)
]

router-IsReady : IsReady 0 1 router
router-IsReady = record {
  nat = nat_init-IsWf;
  mac = replicate 6 9;
  mac_at = refl;
  mac_size = refl;
  hops = hops;
}

callback-Stands_example :
    (h : Handled) × (nk_fastpath_rx_callback 1 (of_list outward) 54 router ≡ some h)
    × Stands 1 1 router h
callback-Stands_example =
    callback-Stands router-IsReady 54 (of_list outward) outward-IsBytes (omega arith)

transit : IsTransit 0 54 router (of_list outward) default_route
unfolding route_lookup route_index find_index on_route
transit = record {
  room = omega arith;
  long = omega arith;
  ipv4 = refl;
  device = ground arith;
  elsewhere = ground arith;
  routed = refl;
}

transit-forwarded_example :
    (out : Buffer) × (nk_fastpath_rx_callback 0 (of_list outward) 54 router
      ≡ some (record {
        router = router;
        packet = out;
        actions = print forwarded ∷ transmit 0 out 54 ∷ [];
      }))
    × IsForwarded 64 (replicate 6 2) (replicate 6 7) (of_list outward) out
transit-forwarded_example =
    transit-forwarded transit (replicate 6 7) refl refl refl outward-IsBytes (omega arith)

abbrev dying : Buffer
dying = of_list (set outward 22 1)

dying-IsTransit : IsTransit 0 54 router dying default_route
unfolding route_lookup route_index find_index on_route
dying-IsTransit = record {
  room = omega arith;
  long = omega arith;
  ipv4 = refl;
  device = ground arith;
  elsewhere = ground arith;
  routed = refl;
}

transit-dropped_example :
    nk_fastpath_rx_callback 0 dying 54 router
    ≡ some (record { router = router; packet = dying; actions = [] })
transit-dropped_example = transit-dropped dying-IsTransit (omega arith)
