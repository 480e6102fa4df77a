-- ===== src/Route.antt =====
-- The routing table of kernel.c: `add_route` and `route_lookup`. `num_routes` is an `int`, and cli.c
-- can set it to any 32-bit pattern, so it is an integer here.
pub mod Laws
mod Tests
use burst_kernel_virtual_mac.Base.{
  ℕ, Bool, Option, none, some, List, ◌==◌, ltb, bit_and, length, set, take, find_index, get_elem?,
  if◌then◌else◌,
}
use burst_kernel_virtual_mac.Base.Int.{ℤ, pos, negsuc, pos_part, ltb_ℤ}
use Prim.Native.Nat.{◌+◌}

-- `struct route_entry`; the MAC address is an array of 6 bytes.
pub record RouteEntry : Type 0 where
  pub dest_ip : ℕ
  pub netmask : ℕ
  pub next_hop_mac : List ℕ

abbrev pub max_routes : ℕ
max_routes = 16

-- `routing_table`, an array of 16 entries, and `num_routes`.
pub record Routes : Type 0 where
  pub table : List RouteEntry
  pub num_routes : ℤ

-- A negative `num_routes` passes the test, and the write at that index is out of bounds; so is a read of
-- a `mac` that is shorter than 6 bytes.
unfoldable pub add_route : ℕ → ℕ → List ℕ → Routes → Option Routes
add_route dest_ip netmask mac r =
    if ltb_ℤ r.num_routes (pos max_routes)
    then (elim (r.num_routes) [
      | pos n ↦
          if ltb (length mac) 6
          then none
          else some (record {
            table =
                set r.table n
                  (record { dest_ip = dest_ip; netmask = netmask; next_hop_mac = take 6 mac });
            num_routes = pos (n + 1);
          })
      | negsuc n ↦ none
    ])
    else some r

-- The test of the search: both addresses under the entry's mask.
unfoldable pub on_route : ℕ → RouteEntry → Bool
on_route ip e = bit_and ip e.netmask == bit_and e.dest_ip e.netmask

-- The loop runs to `num_routes`, which is at most 16 here: see `IsValid` in Route/Laws.antt.
unfoldable pub route_index : ℕ → Routes → Option ℕ
route_index ip r = find_index (on_route ip) (take (pos_part r.num_routes) r.table)

-- The entry that the returned pointer refers to.
unfoldable pub route_lookup : ℕ → Routes → Option RouteEntry
route_lookup ip r = elim (route_index ip r) [ none ↦ none | some i ↦ get_elem? r.table i ]
