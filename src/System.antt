-- ===== src/System.antt =====
-- The main loop of kernel.c: `e1000_poll` of e1000.c with `nk_fastpath_rx_callback` of kernel.c as its
-- callback, down to the transmit rings. lwIP is outside the model: what it sends in answer to a frame is an
-- argument, a list of buffers that `ethernetif_linkoutput` of port/ethernetif.c passes on. Its
-- calls of the telnet server are in Machine.antt.
pub mod Devices
pub mod Frame
pub mod Poll
pub mod Boot
pub mod Run
pub mod Sample
use burst_kernel_virtual_mac.Base.{
  ℕ, zero, suc, ◌+◌, Bool, true, false, Option, none, some, List, [], ◌∷◌, ◌++◌, ◌==◌, length,
  get_elem?, set, if◌then◌else◌, ◌>>=◌,
}
use burst_kernel_virtual_mac.Packet.{Buffer}
use burst_kernel_virtual_mac.Fastpath.{
  Action, print, to_stack, transmit, Router, nk_fastpath_rx_callback,
}
use burst_kernel_virtual_mac.Driver.{RxDesc, Device, is_ready, take_frame, e1000_send_packet}

-- The devices, the router, the receive buffers by their addresses, and what the callback did, oldest first.
pub record System : Type 0 where
  pub devs : List Device
  pub router : Router
  pub memory : ℕ → Buffer
  pub actions : List Action

-- The descriptor is given back, on the device as the callback left it.
unfoldable pub give_back : ℕ → System → Option System
give_back idx s = do
  dev ← get_elem? s.devs idx
  d ← get_elem? dev.rx_ring dev.rx_cur
  some (record s { devs = set s.devs idx (take_frame d dev) })

-- `done` is what the polls of a sent descriptor see; `replies` what lwIP sends in answer to a frame: for
-- each packet the address of the copy and the number of bytes copied.
module _ (done : ℕ → Bool) (replies : Buffer → ℕ → List (ℕ × ℕ)) where
  -- The copy is on the stack of the function, whose address it passes on.
  unfoldable pub ethernetif_linkoutput : ℕ → ℕ → List Device → Option (List Device)
  ethernetif_linkoutput buffer copied devs = do
    (devs', left) ← e1000_send_packet done 0 buffer copied devs
    some devs'

  unfoldable pub send_replies : List (ℕ × ℕ) → List Device → Option (List Device)
  send_replies [] devs = some devs
  send_replies ((buffer, copied) ∷ packets) devs = do
    devs' ← ethernetif_linkoutput buffer copied devs
    send_replies packets devs'

  -- The calls of the callback, for the frame at `addr`: it sends the receive buffer itself.
  unfoldable pub perform : ℕ → List Action → List Device → Option (List Device)
  perform addr [] devs = some devs
  perform addr (print line ∷ calls) devs = perform addr calls devs
  perform addr (to_stack pkt len ∷ calls) devs = do
    devs' ← send_replies (replies pkt len) devs
    perform addr calls devs'
  perform addr (transmit dev_idx pkt len ∷ calls) devs = do
    (devs', left) ← e1000_send_packet done dev_idx addr len devs
    perform addr calls devs'

  -- `rx_cb(idx, (const uint8_t *)addr, length)`
  unfoldable pub rx_cb : ℕ → ℕ → ℕ → System → Option System
  rx_cb idx addr len s = do
    h ← nk_fastpath_rx_callback idx (s.memory addr) len s.router
    devs' ← perform addr h.actions s.devs
    some (record {
      devs = devs';
      router = h.router;
      memory = λ a. if a == addr then h.packet else s.memory a;
      actions = s.actions ++ h.actions;
    })

  -- One turn of the receive loop.
  unfoldable pub turn : ℕ → RxDesc → System → Option System
  turn idx d s = do s' ← rx_cb idx d.addr d.len s; give_back idx s'

  -- The receive loop of a device, on fuel.
  unfoldable pub poll_device : ℕ → ℕ → System → Option System
  poll_device zero idx s = none
  poll_device (suc fuel) idx s = do
    dev ← get_elem? s.devs idx
    d ← get_elem? dev.rx_ring dev.rx_cur
    let handled : Option System = do s' ← turn idx d s; poll_device fuel idx s'
    if is_ready d then handled else some s

  -- `left` devices, from number `idx` on.
  unfoldable pub poll_devices : ℕ → ℕ → System → Option System
  poll_devices zero idx s = some s
  poll_devices (suc left) idx s = do s' ← poll_device 33 idx s; poll_devices left (idx + 1) s'

  -- `e1000_poll` with the callback set.
  unfoldable pub poll : System → Option System
  poll s = poll_devices (length s.devs) 0 s
