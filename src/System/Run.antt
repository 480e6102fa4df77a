-- ===== src/System/Run.antt =====
-- The main loop of kernel.c between the writes of the cards, from its start on.
use burst_kernel_virtual_mac.Base.{
  ℕ, zero, suc, ◌+◌, ◌≤◌, ◌<◌, ◌≡◌, ◌∙◌, refl, ap, sym, subst, Bool, some, List, [], ◌∷◌, arith,
  length, get_elem?, map, set,
}
use mathlib.Core.Option.{some-injective}
use burst_kernel_virtual_mac.Base.Int.{pos}
use burst_kernel_virtual_mac.Packet.{Buffer}
use burst_kernel_virtual_mac.Checksum.Words.{IsBytes}
use burst_kernel_virtual_mac.Nat.Table.{Extends, Extends-refl, Extends-trans, nat_init-IsWf}
use burst_kernel_virtual_mac.Nat.Outbound.{reach}
use burst_kernel_virtual_mac.Route.Laws.{AllMacs, replicate-AllMacs, route_lookup-AllMacs}
use burst_kernel_virtual_mac.Route.{Routes, add_route}
use burst_kernel_virtual_mac.Driver.{Device}
use burst_kernel_virtual_mac.Driver.Receive.{IsRing}
use burst_kernel_virtual_mac.Driver.Send.{IsTxRing}
use burst_kernel_virtual_mac.Driver.Init.{Setup}
use burst_kernel_virtual_mac.Driver.Init.Rings.{AllSetup, device_size}
use burst_kernel_virtual_mac.System.{System, poll}
use burst_kernel_virtual_mac.System.Boot.{
  no_route, no_routes, target_net, route_mask, next_hop_mac, of_setups,
}
use burst_kernel_virtual_mac.System.Devices.{Rings}
use burst_kernel_virtual_mac.System.Poll.{PolledAll, poll-PolledAll}
use burst_kernel_virtual_mac.System.Frame.{IsSystem}

-- Buffers of bytes in which a frame has room.
abbrev pub AllBuffers : (ℕ → Buffer) → Type 0
AllBuffers memory = (a : ℕ) → IsBytes (memory a).at × (reach ≤ (memory a).size)

-- The cards write descriptors and buffers; the driver polls, and the poll returns.
pub data Step (done : ℕ → Bool) (replies : Buffer → ℕ → List (ℕ × ℕ))
    : System → System → Type 0 where
  cards :
      (s : System) (devs : List Device) (memory : ℕ → Buffer)
      → length devs ≡ length s.devs
      → Rings devs
      → AllBuffers memory
      → Step done replies s (record s { devs = devs; memory = memory })
  polled : (s s' : System) → poll done replies s ≡ some s' → Step done replies s s'

pub data Reach (done : ℕ → Bool) (replies : Buffer → ℕ → List (ℕ × ℕ)) (s : System)
    : System → Type 0 where
  here : Reach done replies s s
  next : {t u : System} → Reach done replies s t → Step done replies t u → Reach done replies s u

-- A later state of the system.
pub record Later (s t : System) : Type 0 where
  pub valid : IsSystem t
  pub sessions : Extends s.router.nat t.router.nat
  pub routes : t.router.routes ≡ s.router.routes

module _ {done : ℕ → Bool} {replies : Buffer → ℕ → List (ℕ × ℕ)} where
  Step-Later : {s t u : System} → Step done replies t u → Later s t → Later s u
  Step-Later {s} (cards t devs memory size rings buffers) l = record {
    valid = record {
      rings = rings;
      sessions = l.valid.sessions;
      nat = l.valid.nat;
      macs = λ i lt. l.valid.macs i (subst (λ n. i < n) size lt);
      hops = l.valid.hops;
      buffers = buffers;
    };
    sessions = l.sessions;
    routes = l.routes;
  }
  Step-Later {s} (polled t u e) l =
      let p = poll-PolledAll done replies t l.valid in
      let same : p.after ≡ u = some-injective _ _ (sym p.returns ∙ e) in
      record {
        valid = subst IsSystem same p.keeps.valid;
        sessions =
            subst (λ x. Extends s.router.nat x.router.nat) same
              (Extends-trans s.router.nat t.router.nat p.after.router.nat l.sessions
                p.keeps.sessions);
        routes = ap (λ x. x.router.routes) (sym same) ∙ p.keeps.routes ∙ l.routes;
      }

  Reach-Later : {s t : System} → IsSystem s → Reach done replies s t → Later s t
  Reach-Later {s} v here = record { valid = v; sessions = Extends-refl s.router.nat; routes = refl }
  Reach-Later v (next r st) = Step-Later st (Reach-Later v r)

setups-Rings :
    (start : ℕ) (setups : List Setup) → AllSetup start setups → Rings (map (λ s. s.device) setups)
setups-Rings start [] all i dev h = cc
setups-Rings start (s ∷ ss) all zero dev h =
    subst (λ d. IsRing d × IsTxRing d) (some-injective _ _ h) (all.0.rx, all.0.tx)
setups-Rings start (s ∷ ss) all (suc i) dev h = setups-Rings (start + device_size) ss all.1 i dev h

setups-macs :
    (start : ℕ) (setups : List Setup)
    → AllSetup start setups
    → (i : ℕ) → i < length (map (λ s. s.device) setups)
    → (mac : List ℕ) × (get_elem? (map (λ s. s.mac) setups) i ≡ some mac) × (length mac ≡ 6)
setups-macs start [] all i lt = absurd (omega arith)
setups-macs start (s ∷ ss) all zero lt = (s.mac, refl, all.0.mac_size)
setups-macs start (s ∷ ss) all (suc i) lt =
    setups-macs (start + device_size) ss all.1 i (omega arith)

abbrev pub started : Routes
started = record {
  table =
      set no_routes.table 0
        (record { dest_ip = target_net; netmask = route_mask; next_hop_mac = next_hop_mac });
  num_routes = pos 1;
}

pub started_lem : add_route target_net route_mask next_hop_mac no_routes ≡ some started
unfolding add_route
started_lem = refl

pub started-AllMacs : AllMacs started.table
started-AllMacs = (refl, replicate-AllMacs no_route 15 refl)

pub setups-IsSystem :
    (start : ℕ) (setups : List Setup) (memory : ℕ → Buffer)
    → AllSetup start setups
    → AllBuffers memory
    → IsSystem (of_setups setups started memory)
setups-IsSystem start setups memory all buffers = record {
  rings = setups-Rings start setups all;
  sessions = 0;
  nat = nat_init-IsWf;
  macs = setups-macs start setups all;
  hops = λ ip e. route_lookup-AllMacs started ip e started-AllMacs;
  buffers = buffers;
}

-- From a well-formed system (rings of 32 descriptors, a well-formed NAT, a MAC address of 6
-- bytes for every device and for the next hop of every route that a look-up finds, buffers of
-- at least 92 bytes), let the cards write rings of that form and such buffers, and the driver
-- poll, in any order. The state is then well-formed, has the sessions of before and the same
-- routes; and the next poll returns, with every frame handled by the callback of kernel.c and
-- sent through the rings, leaves every device at a descriptor that is not ready, and keeps all
-- this. lwIP may answer each frame with any packets.
pub run-returns :
    (done : ℕ → Bool) (replies : Buffer → ℕ → List (ℕ × ℕ)) (s t : System)
    → IsSystem s
    → Reach done replies s t
    → Later s t × PolledAll done replies 0 t (poll done replies t)
run-returns done replies s t v r =
    let l = Reach-Later v r in (l, poll-PolledAll done replies t l.valid)
