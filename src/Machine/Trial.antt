-- ===== src/Machine/Trial.antt =====
-- The frame that `kmain` of kernel.c makes up and hands to the callback before the main loop.
use burst_kernel_virtual_mac.Base.{
  ℕ, zero, suc, ◌+◌, ◌%◌, ◌^◌, ◌-◌, ◌<◌, ◌≡◌, refl, subst, Bool, Option, some, List, [], ◌∷◌, ◌++◌,
  ◌>>=◌, length, get_or, replicate, map, find_index,
}
use burst_kernel_virtual_mac.Packet.{Buffer, load8, load16, load32, store8, store16}
use burst_kernel_virtual_mac.Checksum.{ip_checksum, add_words, fold_carries}
use burst_kernel_virtual_mac.Nat.{Nat, nat_init}
use burst_kernel_virtual_mac.Nat.Table.{Extends-refl}
use burst_kernel_virtual_mac.Cli.Config.Layout.{Six, six_bytes, length-Six}
use burst_kernel_virtual_mac.Driver.{Device}
use burst_kernel_virtual_mac.Driver.Init.{Setup}
use burst_kernel_virtual_mac.Driver.Init.Rings.{AllSetup, device_size}
use burst_kernel_virtual_mac.System.Boot.{of_setups}
use burst_kernel_virtual_mac.Route.{route_lookup, route_index, on_route}
use burst_kernel_virtual_mac.Fastpath.{
  Router, print, transmit, forwarded, Handled, nk_fastpath_rx_callback, handle_ip, leave,
  route_packet, forward, send_on, rewrite_header, copy_macs,
}
use burst_kernel_virtual_mac.System.{System, perform}
use burst_kernel_virtual_mac.System.Devices.{perform-Sending}
use burst_kernel_virtual_mac.System.Frame.{IsSystem, Keeps}
use burst_kernel_virtual_mac.System.Run.{started}

-- The headers and four bytes; the rest of the array has no value given and is 0.
abbrev pub dummy_bytes : List ℕ
dummy_bytes =
    0x52 ∷ 0x54 ∷ 0x00 ∷ 0x12 ∷ 0x34 ∷ 0x56 ∷ 0x52 ∷ 0x54 ∷ 0x00 ∷ 0xAA ∷ 0xBB ∷ 0xCC ∷ 0x08 ∷ 0x00
    ∷ 0x45 ∷ 0x00 ∷ 0x00 ∷ 0x2E ∷ 0x00 ∷ 0x00 ∷ 0x00 ∷ 0x00 ∷ 0x40 ∷ 0x01 ∷ 0x00 ∷ 0x00 ∷ 0x0A
    ∷ 0x00 ∷ 0x02 ∷ 0x02 ∷ 0xC0 ∷ 0xA8 ∷ 0x01 ∷ 0x0A ∷ 0x00 ∷ 0x01 ∷ 0x02 ∷ 0x03 ∷ []

abbrev pub dummy_pkt : Buffer
dummy_pkt = record { size = 64; at = λ i. get_or dummy_bytes i 0 }

-- The MAC addresses of `e1000_devs`, an array of four: zeros where there is no card.
abbrev pub all_macs : List (List ℕ) → List (List ℕ)
all_macs macs = macs ++ replicate (4 - length macs) (replicate 6 0)

-- `stack` is the address of the frame; the callback reads the first device of the array.
unfoldable pub trial : (ℕ → Bool) → (Buffer → ℕ → List (ℕ × ℕ)) → ℕ → System → Option System
trial done replies stack s = do
  h ← nk_fastpath_rx_callback 0 dummy_pkt 64 (record (s.router) { macs = all_macs s.router.macs })
  devs ← perform done replies stack h.actions s.devs
  some (record {
    devs = devs;
    router = record (h.router) { macs = s.router.macs };
    memory = s.memory;
    actions = s.actions ++ h.actions;
  })

-- `n` bytes of a buffer, from byte `i` on.
abbrev pub bytes_from : Buffer → ℕ → ℕ → List ℕ
bytes_from b i zero = []
bytes_from b i (suc n) = b.at i ∷ bytes_from b (i + 1) n

-- The frame as it leaves: from the MAC address of the device to the next hop, with TTL 63 and the
-- checksum of its header.
abbrev pub rewritten_bytes : List ℕ → List ℕ
rewritten_bytes mac =
    0x52
    ∷ 0x54
    ∷ 0x00
    ∷ 0x99
    ∷ 0x99
    ∷ 0x99
    ∷ (map (λ b. b % 2 ^ 8) mac
        ++ 0x08
          ∷ 0x00
          ∷ 0x45
          ∷ 0x00
          ∷ 0x00
          ∷ 0x2E
          ∷ 0x00
          ∷ 0x00
          ∷ 0x00
          ∷ 0x00
          ∷ 0x3F
          ∷ 0x01
          ∷ 0xAE
          ∷ 0x1B
          ∷ 0x0A
          ∷ 0x00
          ∷ 0x02
          ∷ 0x02
          ∷ 0xC0
          ∷ 0xA8
          ∷ 0x01
          ∷ 0x0A
          ∷ 0x00
          ∷ 0x01
          ∷ 0x02
          ∷ 0x03
          ∷ replicate 26 0)

-- The MAC address of the first device of the array.
abbrev pub first_mac : List (List ℕ) → List ℕ
first_mac [] = replicate 6 0
first_mac (m ∷ macs) = m

-- What the callback makes of it: the rewritten frame goes out on the first device.
abbrev Forwarded : Router → List ℕ → Option Handled → Type 0
Forwarded r mac o =
    (pkt : Buffer) × (o
      ≡ some
          (record { router = r; packet = pkt; actions = print forwarded ∷ transmit 0 pkt 64 ∷ [] }))
    × (bytes_from pkt 0 64 ≡ rewritten_bytes mac)

dummy-Forwarded :
    (nat : Nat) (m : List ℕ) (macs : List (List ℕ))
    → Six m
    → (let r : Router = record { nat = nat; routes = started; macs = m ∷ macs } in
        Forwarded r m (nk_fastpath_rx_callback 0 dummy_pkt 64 r))
unfolding nk_fastpath_rx_callback handle_ip leave route_packet forward send_on rewrite_header
    copy_macs route_lookup route_index find_index on_route load8 load16 load32 store8 store16
    ip_checksum add_words fold_carries
dummy-Forwarded nat m macs (six_bytes a b c d e f) = (_, refl, refl)

-- The MAC addresses of the devices.
abbrev AllSix : List (List ℕ) → Type 0
AllSix [] = Unit
AllSix (m ∷ ms) = (length m ≡ 6) × AllSix ms

all_macs-Forwarded :
    (nat : Nat) (macs : List (List ℕ))
    → AllSix macs
    → (let r : Router = record { nat = nat; routes = started; macs = all_macs macs } in
        Forwarded r (first_mac macs) (nk_fastpath_rx_callback 0 dummy_pkt 64 r))
all_macs-Forwarded nat [] six =
    dummy-Forwarded nat (replicate 6 0) (replicate 3 (replicate 6 0))
      (length-Six (replicate 6 0) refl)
all_macs-Forwarded nat (m ∷ macs) six = dummy-Forwarded nat m _ (length-Six m six.0)

setups-AllSix :
    (start : ℕ) (setups : List Setup) → AllSetup start setups → AllSix (map (λ s. s.mac) setups)
setups-AllSix start [] all = tt
setups-AllSix start (s ∷ ss) all = ((all.0).mac_size, setups-AllSix (start + device_size) ss all.1)

-- The system after the frame, which has left only on the first device.
pub record Tried (s : System) (o : Option System) : Type 0 where
  pub after : System
  pub returns : o ≡ some after
  pub keeps : Keeps s after
  pub pkt : Buffer
  pub frame : bytes_from pkt 0 64 ≡ rewritten_bytes (first_mac s.router.macs)
  pub sent : after.actions ≡ print forwarded ∷ transmit 0 pkt 64 ∷ []

pub trial-Tried :
    (done : ℕ → Bool) (replies : Buffer → ℕ → List (ℕ × ℕ)) (stack start : ℕ) (setups : List Setup)
    (memory : ℕ → Buffer) (devs : List Device)
    → AllSetup start setups
    → IsSystem (record (of_setups setups started memory) { devs = devs })
    → (let s : System = record (of_setups setups started memory) { devs = devs } in
        Tried s (trial done replies stack s))
unfolding trial
trial-Tried done replies stack start setups memory devs all v =
    let macs = map (λ s. s.mac) setups in
    let (pkt, e, frame) = all_macs-Forwarded nat_init macs (setups-AllSix start setups all) in
    let calls = print forwarded ∷ transmit 0 pkt 64 ∷ [] in
    let (devs', f, p) = perform-Sending done replies stack calls devs v.rings in
    record {
      after = record {
        devs = devs';
        router = record { nat = nat_init; routes = started; macs = macs };
        memory = memory;
        actions = calls;
      };
      returns = rw (e, f) refl;
      keeps = record {
        valid = record {
          rings = p.rings;
          sessions = v.sessions;
          nat = v.nat;
          macs = λ j lt. v.macs j (subst (λ n. j < n) p.size lt);
          hops = v.hops;
          buffers = v.buffers;
        };
        size = p.size;
        sessions = Extends-refl nat_init;
        routes = refl;
        macs = refl;
      };
      pkt = pkt;
      frame = frame;
      sent = refl;
    }
