-- ===== src/Machine.antt =====
-- The whole of the router: the network cards of e1000.c, the callback of kernel.c, the keyboard of
-- keyboard.c and the telnet server of telnetd.c, which share the NAT of nat.c and the routes of
-- routing.c. Between two frames anything may happen: cards write, a key is pressed, lwIP calls the
-- server back.
pub mod Files
pub mod Trial
pub mod Boot
pub mod Valid
pub mod Steps
pub mod Poll
pub mod Served
pub mod Run
mod Tests
use burst_kernel_virtual_mac.Base.{
  ℕ, Bool, true, false, if◌then◌else◌, none, Option, some, List, [], ◌∷◌, ◌≡◌, length, get_elem?,
  ◌>>=◌,
}
use burst_kernel_virtual_mac.Packet.{Buffer}
use burst_kernel_virtual_mac.Driver.{RxDesc, Device, is_ready}
use burst_kernel_virtual_mac.Console.{Console, keyboard_handler}
use burst_kernel_virtual_mac.Fastpath.{Action}
use burst_kernel_virtual_mac.Cli.Execute.{cli_execute}
use burst_kernel_virtual_mac.Telnet.{Telnet, Pbuf, telnet_accept, telnet_recv}
use burst_kernel_virtual_mac.Telnet.Client.{is_one_of, open_now}
use burst_kernel_virtual_mac.System.{System, send_replies, rx_cb, give_back, poll}
use burst_kernel_virtual_mac.System.Devices.{Rings}
use burst_kernel_virtual_mac.System.Run.{AllBuffers}

-- The router is the one that the commands of the console read and change.
pub record Machine : Type 0 where
  pub devs : List Device
  pub memory : ℕ → Buffer
  pub actions : List Action
  pub telnet : Telnet

abbrev pub system_of : Machine → System
system_of m = record {
  devs = m.devs;
  router = m.telnet.console.router;
  memory = m.memory;
  actions = m.actions;
}

abbrev pub with_system : System → Machine → Machine
with_system s m = record {
  devs = s.devs;
  memory = s.memory;
  actions = s.actions;
  telnet = record (m.telnet) { console = record (m.telnet.console) { router = s.router } };
}

abbrev pub with_telnet : Telnet → Machine → Machine
with_telnet t m = record m { telnet = t }

-- The interrupt of the keyboard.
unfoldable pub press_key : ℕ → Machine → Option Machine
press_key scancode m = do
  c ← keyboard_handler cli_execute scancode m.telnet.console
  some (with_telnet (record (m.telnet) { console = c }) m)

-- The calls of lwIP.
unfoldable pub connect : ℕ → Machine → Machine
connect newpcb m = with_telnet (telnet_accept newpcb m.telnet) m

unfoldable pub receive : ℕ → Option Pbuf → Machine → Option Machine
receive tpcb p m = do t ← telnet_recv tpcb p m.telnet; some (with_telnet t m)

-- What may come at any time between two lines of the receive loop, or in the middle of a turn: a
-- card or the main loop finds something, a key, and what lwIP does with a frame or a timer: packets
-- that it sends, a new connection, data or the end of a connection.
pub data Event : Type 0 where
  card : Event
  key : ℕ → Event
  packets : List (ℕ × ℕ) → Event
  connection : ℕ → Event
  segment : ℕ → Option Pbuf → Event

module _ (done : ℕ → Bool) (replies : Buffer → ℕ → List (ℕ × ℕ)) where
  -- What `e1000_handle_interrupt` does between its reads and its writes of ports, or a call of `e1000_poll`
  -- in which lwIP only sends: Machine/Poll.antt has a poll with other events in it.
  unfoldable pub poll_cards : Machine → Option Machine
  poll_cards m = do s ← poll done replies (system_of m); some (with_system s m)

  -- lwIP sends packets: in answer to calls, or when `sys_check_timeouts` finds a timer run out.
  unfoldable pub send_packets : List (ℕ × ℕ) → Machine → Option Machine
  send_packets sent m = do
    devs ← send_replies done replies sent m.devs
    some (record m { devs = devs })

  -- lwIP calls back about a connection that is open, and a new connection is none that is: there is no
  -- result for any other call.
  unfoldable pub happen : Event → Machine → Option Machine
  happen card m = poll_cards m
  happen (key scancode) m = press_key scancode m
  happen (packets sent) m = send_packets sent m
  happen (connection newpcb) m =
      if is_one_of newpcb (open_now m.telnet) then none else some (connect newpcb m)
  happen (segment tpcb p) m = if is_one_of tpcb (open_now m.telnet) then receive tpcb p m else none

  unfoldable pub happen_all : List Event → Machine → Option Machine
  happen_all [] m = some m
  happen_all (e ∷ es) m = do n ← happen e m; happen_all es n

  -- One turn of the receive loop, for the device `idx`, which stands at `d`. The events come between the
  -- callback, which hands a frame to lwIP last, and the lines that give the descriptor back: these read
  -- `rx_cur` again.
  unfoldable pub take_turn : ℕ → RxDesc → List Event → Machine → Option Machine
  take_turn idx d between m = do
    s ← rx_cb done replies idx d.addr d.len (system_of m)
    n ← happen_all between (with_system s m)
    s' ← give_back idx (system_of n)
    some (with_system s' n)

  -- What happens between two states. The cards write descriptors and buffers; the receive loop takes a
  -- frame from a device whose next descriptor is ready; or an event comes.
  pub data Step : Machine → Machine → Type 0 where
    written :
        (m : Machine) (devs : List Device) (memory : ℕ → Buffer)
        → length devs ≡ length m.devs
        → Rings devs
        → AllBuffers memory
        → Step m (record m { devs = devs; memory = memory })
    turned :
        (m n : Machine) (idx : ℕ) (dev : Device) (d : RxDesc) (between : List Event)
        → get_elem? m.devs idx ≡ some dev
        → get_elem? dev.rx_ring dev.rx_cur ≡ some d
        → is_ready d ≡ true
        → take_turn idx d between m ≡ some n
        → Step m n
    happened : (m n : Machine) (e : Event) → happen e m ≡ some n → Step m n

  pub data Reach (m : Machine) : Machine → Type 0 where
    here : Reach m m
    next : {t u : Machine} → Reach m t → Step t u → Reach m u
