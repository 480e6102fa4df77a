-- ===== src/System/Frame.antt =====
-- One frame in the callback of kernel.c, as `e1000_poll` hands it over.
use burst_kernel_virtual_mac.Base.{
  ℕ, ◌≤◌, ◌<◌, ◌≡◌, ◌∙◌, refl, ap, sym, subst, Bool, some, List, ◌++◌, ◌==◌, if◌then◌else◌, length,
  get_elem?, inl, inr, Bool-cases,
}
use burst_kernel_virtual_mac.Packet.{Buffer}
use burst_kernel_virtual_mac.Checksum.Words.{IsBytes}
use burst_kernel_virtual_mac.Nat.Table.{IsWf, Extends, Extends-refl, Extends-trans}
use burst_kernel_virtual_mac.Nat.Outbound.{reach}
use burst_kernel_virtual_mac.Route.{RouteEntry, route_lookup}
use burst_kernel_virtual_mac.Fastpath.{Handled}
use burst_kernel_virtual_mac.Fastpath.Paths.{IsReady, Stands, callback-Stands}
use burst_kernel_virtual_mac.Driver.{Device}
use burst_kernel_virtual_mac.System.{System, rx_cb}
use burst_kernel_virtual_mac.System.Devices.{Rings, SameRx, Sending, perform-Sending}

-- A router whose devices have MAC addresses, and receive buffers that hold a frame.
pub record IsSystem (s : System) : Type 0 where
  pub rings : Rings s.devs
  pub sessions : ℕ
  pub nat : IsWf sessions s.router.nat
  pub macs :
      (i : ℕ)
      → i < length s.devs
      → (mac : List ℕ) × (get_elem? s.router.macs i ≡ some mac) × (length mac ≡ 6)
  pub hops :
      (ip : ℕ) (e : RouteEntry)
      → route_lookup ip s.router.routes ≡ some e
      → length e.next_hop_mac ≡ 6
  pub buffers : (a : ℕ) → IsBytes (s.memory a).at × (reach ≤ (s.memory a).size)

-- What every part of a poll keeps.
pub record Keeps (s s' : System) : Type 0 where
  pub valid : IsSystem s'
  pub size : length s'.devs ≡ length s.devs
  pub sessions : Extends s.router.nat s'.router.nat
  pub routes : s'.router.routes ≡ s.router.routes
  pub macs : s'.router.macs ≡ s.router.macs

pub Keeps-refl : (s : System) → IsSystem s → Keeps s s
Keeps-refl s v = record {
  valid = v;
  size = refl;
  sessions = Extends-refl s.router.nat;
  routes = refl;
  macs = refl;
}

pub Keeps-trans : (a b c : System) → Keeps a b → Keeps b c → Keeps a c
Keeps-trans a b c p q = record {
  valid = q.valid;
  size = q.size ∙ p.size;
  sessions = Extends-trans a.router.nat b.router.nat c.router.nat p.sessions q.sessions;
  routes = q.routes ∙ p.routes;
  macs = q.macs ∙ p.macs;
}

router-IsReady :
    (s : System) (i : ℕ) (v : IsSystem s) → i < length s.devs → IsReady v.sessions i s.router
router-IsReady s i v lt =
    let (mac, at_i, six) = v.macs i lt in
    record { nat = v.nat; mac = mac; mac_at = at_i; mac_size = six; hops = v.hops }

-- The system after the callback.
after_frame : (s : System) (addr : ℕ) (h : Handled) (devs' : List Device) → System
after_frame s addr h devs' = record {
  devs = devs';
  router = h.router;
  memory = λ a. if a == addr then h.packet else s.memory a;
  actions = s.actions ++ h.actions;
}

after_frame-Keeps :
    (s : System) (i addr : ℕ) (h : Handled) (devs' : List Device)
    → IsSystem s
    → Stands 1 i s.router h
    → Sending s.devs devs'
    → Keeps s (after_frame s addr h devs')
unfolding after_frame
after_frame-Keeps s i addr h devs' v st p = record {
  valid = record {
    rings = p.rings;
    sessions = st.count;
    nat = st.nat;
    macs = λ j lt.
        let (mac, at_j, six) = v.macs j (subst (λ n. j < n) p.size lt) in
        (mac, ap (λ m. get_elem? m j) st.macs ∙ at_j, six);
    hops = λ ip e found. v.hops ip e (ap (route_lookup ip) (sym st.routes) ∙ found);
    buffers = buffers;
  };
  size = p.size;
  sessions = st.kept;
  routes = st.routes;
  macs = st.macs;
}
  where
    buffers :
        (a : ℕ)
        → IsBytes (if a == addr then h.packet else s.memory a).at
          × (reach ≤ (if a == addr then h.packet else s.memory a).size)
    buffers a = elim (Bool-cases (a == addr)) [
      | inl same ↦ rw same (st.bytes, st.room)
      | inr other ↦ rw other (v.buffers a)
    ]

module _ (done : ℕ → Bool) (replies : Buffer → ℕ → List (ℕ × ℕ)) where
  -- The callback returns, and leaves the receive rings alone.
  pub rx_cb-Keeps :
      (idx addr len : ℕ) (s : System)
      → IsSystem s
      → idx < length s.devs
      → (s' : System) × (rx_cb done replies idx addr len s ≡ some s')
        × Keeps s s'
        × ((j : ℕ) → SameRx s.devs s'.devs j)
  unfolding rx_cb after_frame
  rx_cb-Keeps idx addr len s v lt =
      let (bytes, room) = v.buffers addr in
      let (h, e, st) = callback-Stands (router-IsReady s idx v lt) len (s.memory addr) bytes room in
      let (devs', f, p) = perform-Sending done replies addr h.actions s.devs v.rings in
      (
        after_frame s addr h devs',
        rw (e, f) refl,
        after_frame-Keeps s idx addr h devs' v st p,
        p.same,
      )
