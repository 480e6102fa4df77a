-- ===== src/System/Sample.antt =====
-- A system with one card and one frame that waits.
use burst_kernel_virtual_mac.Base.{
  ℕ, zero, suc, ◌≡◌, ◌<◌, refl, some, List, [], ◌∷◌, arith, length, get_elem?, replicate, subst,
}
use mathlib.Core.Option.{some-injective}
use burst_kernel_virtual_mac.Samples.{of_list, outward, outward-IsBytes}
use burst_kernel_virtual_mac.Nat.Table.{nat_init-IsWf}
use burst_kernel_virtual_mac.Driver.{Device}
use burst_kernel_virtual_mac.Driver.Receive.{IsRing}
use burst_kernel_virtual_mac.Driver.Send.{IsTxRing}
use burst_kernel_virtual_mac.Route.Laws.{route_lookup-AllMacs, replicate-AllMacs}
use burst_kernel_virtual_mac.Nat.{nat_init}
use burst_kernel_virtual_mac.System.{System}
use burst_kernel_virtual_mac.System.Boot.{no_route, no_routes}
use burst_kernel_virtual_mac.System.Devices.{Rings}
use burst_kernel_virtual_mac.System.Frame.{IsSystem}

abbrev pub card : Device
card = record {
  rx_ring =
      record { addr = 4096; len = 54; status = 1 }
      ∷ replicate 31 (record { addr = 8192; len = 0; status = 0 });
  tx_ring = replicate 32 (record { addr = 0; len = 0; cmd = 0; status = 1 });
  rx_cur = 0;
  tx_cur = 0;
  rdt = 31;
  tdt = 0;
}

abbrev pub one_card : System
one_card = record {
  devs = card ∷ [];
  router = record { nat = nat_init; routes = no_routes; macs = replicate 6 7 ∷ [] };
  memory = λ a. of_list outward;
  actions = [];
}

pub card-Rings : Rings (card ∷ [])
card-Rings zero dev h =
    subst (λ d. IsRing d × IsTxRing d) (some-injective _ _ h)
      ((refl, omega arith), (refl, omega arith))
card-Rings (suc i) dev h = cc

card-macs :
    (i : ℕ)
    → i < 1
    → (mac : List ℕ) × (get_elem? (replicate 6 7 ∷ []) i ≡ some mac) × (length mac ≡ 6)
card-macs zero lt = (replicate 6 7, refl, refl)
card-macs (suc i) lt = absurd (omega arith)

pub one_card-IsSystem : IsSystem one_card
one_card-IsSystem = record {
  rings = card-Rings;
  sessions = 0;
  nat = nat_init-IsWf;
  macs = card-macs;
  hops = λ ip e. route_lookup-AllMacs no_routes ip e (replicate-AllMacs no_route 16 refl);
  buffers = λ a. (outward-IsBytes, omega arith);
}
