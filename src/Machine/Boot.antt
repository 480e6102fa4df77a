-- ===== src/Machine/Boot.antt =====
-- `kmain` of kernel.c from `vfs_init` to the main loop: the machine that the loop starts with.
use burst_kernel_virtual_mac.Base.{
  ℕ, codes, zero, suc, ◌+◌, ◌*◌, ◌≤◌, ◌≡◌, refl, sym, subst, Bool, false, Option, none, some, List,
  [], ◌∷◌, ◌++◌, ◌>>=◌, arith, map, ◌<◌, length, length-map, ◌∙◌, length-replicate, replicate, ap,
}
use mathlib.Core.Bool.{false≢true}
use burst_kernel_virtual_mac.Packet.{Buffer}
use burst_kernel_virtual_mac.Heap.{heap_size}
use burst_kernel_virtual_mac.Vfs.{VfsFile, vfs_init}
use burst_kernel_virtual_mac.Route.Laws.{AllMacs}
use burst_kernel_virtual_mac.Console.{Disk, Line, Output, puts}
use burst_kernel_virtual_mac.Console.Complete.{IsLine}
use burst_kernel_virtual_mac.Interrupts.{keyboard_init}
use burst_kernel_virtual_mac.Telnet.Client.{connections}
use burst_kernel_virtual_mac.Driver.{Device}
use burst_kernel_virtual_mac.Driver.Init.Rings.{device_size, e1000_init-AllSetup}
use burst_kernel_virtual_mac.System.{System, send_replies}
use burst_kernel_virtual_mac.System.Devices.{
  Rings, Sending, still_there, Sending-trans, send_replies-Sending,
}
use burst_kernel_virtual_mac.System.Boot.{start_cards, first_route}
use burst_kernel_virtual_mac.System.Run.{
  AllBuffers, started_lem, started-AllMacs, setups-IsSystem, started,
}
use Prim.Native.Nat.{min}
use burst_kernel_virtual_mac.Driver.Init.Scan.{cards}
use burst_kernel_virtual_mac.Fastpath.{print, forwarded, transmit}
use burst_kernel_virtual_mac.Machine.{Machine}
use burst_kernel_virtual_mac.Machine.Files.{AllSized, vfs_init-Kept}
use burst_kernel_virtual_mac.Machine.Trial.{
  trial, trial-Tried, bytes_from, rewritten_bytes, first_mac,
}
use burst_kernel_virtual_mac.Machine.Valid.{IsMachine}

-- Static memory: all zero.
abbrev pub no_file : VfsFile
no_file = record { name = replicate 32 0; contents = replicate 4096 0; size = 0; is_used = false }

abbrev pub no_line : Line
no_line = record { buf = replicate 256 0; idx = 0 }

-- The lines before the cards are looked for, the prompt of the keyboard among them.
abbrev pub first_lines : (ℕ → ℕ) → List Output
first_lines inb =
    puts (codes "BurstKernel Network OS Unikernel Booted!\n")
    ∷ puts (codes "Architecture: x86_64 (64-bit Long Mode)\n\n")
    ∷ ((keyboard_init inb).0 ++ puts (codes "lwIP Initialized.\n") ∷ [])

-- The line of `e1000_init`.
abbrev pub cards_line : List Device → Output
cards_line [] = puts (codes "No E1000 NICs Found!\n")
cards_line (dev ∷ devs) = puts (codes "E1000 NICs Initialized.\n")

-- The lines behind it.
abbrev pub last_lines : List Output
last_lines =
    puts (codes "Network Interface 'en0' is UP. IP: 10.0.2.15\n")
    ∷ puts (codes "Sending ARP Request to Gateway 10.0.2.2...\n")
    ∷ puts (codes "Setting up Routing Table...\n")
    ∷ puts (codes "Simulating incoming packet to 192.168.1.10...\n")
    ∷ []

-- The calls of lwIP between the cards and the routes, with addresses byte by byte. `netif_add` is given
-- `ethernetif_init`.
pub data LwipCall : Type 0 where
  netif_add : List ℕ → List ℕ → List ℕ → LwipCall
  netif_set_default netif_set_up : LwipCall
  etharp_request : List ℕ → LwipCall

abbrev pub gateway : List ℕ
gateway = 10 ∷ 0 ∷ 2 ∷ 2 ∷ []

abbrev pub lwip_calls : List LwipCall
lwip_calls =
    netif_add (10 ∷ 0 ∷ 2 ∷ 15 ∷ []) (255 ∷ 255 ∷ 255 ∷ 0 ∷ []) gateway
    ∷ netif_set_default
    ∷ netif_set_up
    ∷ etharp_request gateway
    ∷ []

-- The state in which the parts start, around the files and the system; `disk` is the disk, and
-- `padding` what is in the padding of the routing table.
abbrev pub machine_of : List VfsFile → List Output → Disk → (ℕ → ℕ) → System → Machine
machine_of files lines disk padding s = record {
  devs = s.devs;
  memory = s.memory;
  actions = s.actions;
  telnet = record {
    active_client_pcb = none;
    line = no_line;
    console = record {
      files = files;
      current_file = none;
      in_editor_mode = false;
      line = no_line;
      screen = lines ++ cards_line s.devs ∷ last_lines;
      router = s.router;
      disk = disk;
      padding = padding;
    };
    calls = [];
  };
}

module _ (done : ℕ → Bool) (replies : Buffer → ℕ → List (ℕ × ℕ)) where
  -- What lwIP sends in each of the calls goes out on the first device.
  unfoldable pub call_lwip :
      (LwipCall → List (ℕ × ℕ)) → List LwipCall → List Device → Option (List Device)
  call_lwip packets [] devs = some devs
  call_lwip packets (c ∷ cs) devs = do
    devs' ← send_replies done replies (packets c) devs
    call_lwip packets cs devs'

  call_lwip-Sending :
      (packets : LwipCall → List (ℕ × ℕ)) (cs : List LwipCall) (devs : List Device)
      → Rings devs
      → (devs' : List Device) × (call_lwip packets cs devs ≡ some devs') × Sending devs devs'
  unfolding call_lwip
  call_lwip-Sending packets [] devs v = (devs, refl, still_there devs v)
  call_lwip-Sending packets (c ∷ cs) devs v =
      let (devs₁, e, p) = send_replies-Sending done replies (packets c) devs v in
      let (devs₂, f, q) = call_lwip-Sending packets cs devs₁ p.rings in
      (devs₂, rw (e, f) refl, Sending-trans devs devs₁ devs₂ p q)

  -- From `vfs_init` on, with what comes before it on the screen. `packets` is what lwIP sends in its
  -- calls: for each packet the address of the copy and the number of bytes. `stack` is the
  -- address of the made-up frame; the arguments behind it are those of `start_cards`; `inb` is what
  -- `keyboard_init` reads. Nothing interrupts the lines behind `sti`.
  unfoldable pub boot_machine :
      (LwipCall → List (ℕ × ℕ))
      → ℕ
      → (ℕ → ℕ)
      → ℕ
      → (ℕ → ℕ → ℕ)
      → (ℕ → ℕ → ℕ)
      → ℕ
      → (ℕ → Buffer)
      → (ℕ → ℕ)
      → Disk
      → (ℕ → ℕ)
      → Option Machine
  boot_machine packets stack pci base stale regs offset memory inb disk padding = do
    files ← vfs_init (replicate 10 no_file)
    s ← start_cards pci base stale regs offset memory
    devs ← call_lwip packets lwip_calls s.devs
    routed ← first_route (record s { devs = devs })
    s' ← trial done replies stack routed
    some (machine_of files (first_lines inb) disk padding s')

replicate-AllSized :
    (f : VfsFile) (n : ℕ) → length f.name ≡ 32 → length f.contents ≡ 4096 → AllSized (replicate n f)
replicate-AllSized f zero h k = tt
replicate-AllSized f (suc n) h k = (h, k, replicate-AllSized f n h k)

no_line-IsLine : IsLine no_line
no_line-IsLine = record { fits = length-replicate {A = ℕ} 256 0; room = omega arith }

-- The main loop is reached, with this machine.
pub record Booted (pci : ℕ → ℕ) (o : Option Machine) : Type 0 where
  pub machine : Machine
  pub returns : o ≡ some machine
  pub valid : IsMachine machine
  pub devices : length machine.devs ≡ min 4 (length (cards pci 256 0))
  pub routes : machine.telnet.console.router.routes ≡ started
  pub pkt : Buffer
  pub frame : bytes_from pkt 0 64 ≡ rewritten_bytes (first_mac machine.telnet.console.router.macs)
  pub sent : machine.actions ≡ print forwarded ∷ transmit 0 pkt 64 ∷ []

-- If the heap has room for four devices from the offset on, and the receive buffers hold at
-- least 92 bytes, `kmain` reaches the main loop with a well-formed machine, whatever cards
-- there are and whatever their registers hold: with as many devices as there are cards, but
-- four at most, with the one route, and after the callback has called `e1000_send_packet` for
-- device 0, which sends nothing where there is no card, with the 64 bytes of the frame that
-- `kmain` makes up: rewritten to go from the MAC address of that device, as bytes (zeros where
-- there is no card), to the next hop, with TTL 63 and the checksum of its header. lwIP may send
-- any packets when the interface comes up and asks for the gateway, and in answer to frames; no
-- interrupt comes between `sti` and the main loop.
pub boot_machine-Booted :
    (done : ℕ → Bool) (replies : Buffer → ℕ → List (ℕ × ℕ)) (packets : LwipCall → List (ℕ × ℕ))
    (stack : ℕ) (pci : ℕ → ℕ) (base : ℕ) (stale regs : ℕ → ℕ → ℕ) (offset : ℕ) (memory : ℕ → Buffer)
    (inb : ℕ → ℕ) (disk : Disk) (padding : ℕ → ℕ)
    → offset + 4 * device_size ≤ heap_size
    → AllBuffers memory
    → Booted pci
        (boot_machine done replies packets stack pci base stale regs offset memory inb disk padding)
unfolding boot_machine start_cards first_route connections
boot_machine-Booted done replies packets stack pci base stale regs offset memory inb disk padding
      room buffers =
    let (files, e, named, stored) = vfs_init-Kept (replicate 10 no_file) (
      replicate-AllSized no_file 10 (length-replicate {A = ℕ} 32 0)
        (length-replicate {A = ℕ} 4096 0)) in
    let (setups, f, size, all) = e1000_init-AllSetup pci base stale regs offset room in
    let v = setups-IsSystem (base + offset) setups memory all buffers in
    let (devs, g, p) =
      call_lwip-Sending done replies packets lwip_calls (map (λ s. s.device) setups) v.rings in
    let t = trial-Tried done replies stack (base + offset) setups memory devs all (record {
      rings = p.rings;
      sessions = v.sessions;
      nat = v.nat;
      macs = λ i lt. v.macs i (subst (λ n. i < n) p.size lt);
      hops = v.hops;
      buffers = v.buffers;
    }) in
    record {
      machine = machine_of files (first_lines inb) disk padding t.after;
      returns = rw (e, f, g, started_lem, t.returns) refl;
      valid = record {
        system = t.keeps.valid;
        served = record {
          valid = record {
            line = no_line-IsLine;
            console = record {
              line = no_line-IsLine;
              named = named;
              stored = stored;
              editing = λ on. absurd (false≢true on);
              hops = subst (λ r. AllMacs r.table) (sym t.keeps.routes) started-AllMacs;
            };
          };
          only = refl;
        };
      };
      devices = t.keeps.size ∙ p.size ∙ length-map {B = Device} setups (λ s. s.device) ∙ size;
      routes = t.keeps.routes;
      pkt = t.pkt;
      frame = t.frame ∙ ap (λ m. rewritten_bytes (first_mac m)) (sym t.keeps.macs);
      sent = t.sent;
    }
