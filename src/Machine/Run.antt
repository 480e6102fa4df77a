-- ===== src/Machine/Run.antt =====
-- The whole machine over the frames, the keys and the connections, in any order.
use burst_kernel_virtual_mac.Base.{ℕ, ◌≡◌, ◌⊎◌, [], ◌∷◌, Bool, none, some, List}
use burst_kernel_virtual_mac.Packet.{Buffer}
use burst_kernel_virtual_mac.Console.{keyboard_handler}
use burst_kernel_virtual_mac.Cli.Execute.{cli_execute}
use burst_kernel_virtual_mac.Cli.Keys.{Kept}
use burst_kernel_virtual_mac.Telnet.{Pbuf, tcp_recved, called, telnet_recv}
use burst_kernel_virtual_mac.Telnet.Receive.{Followed, Exits}
use burst_kernel_virtual_mac.System.{poll}
use burst_kernel_virtual_mac.System.Poll.{PolledAll}
use burst_kernel_virtual_mac.Machine.{Machine, system_of, Event}
use burst_kernel_virtual_mac.Machine.Poll.{Halted, serve}
use burst_kernel_virtual_mac.Machine.Served.{ServedAll}

-- What can come next, and what it makes of the machine.
pub record Serves (done : ℕ → Bool) (replies : Buffer → ℕ → List (ℕ × ℕ))
    (turns : List (List Event)) (m : Machine) : Type 0 where
  pub polls : PolledAll done replies 0 (system_of m) (poll done replies (system_of m))
  pub serves :
      ServedAll done replies 0 m (serve done replies turns m)
      ⊎ Halted m (serve done replies turns m)
  pub keys :
      (scancode : ℕ)
      → Kept m.telnet.console (keyboard_handler cli_execute scancode m.telnet.console)
  pub packets :
      (tpcb : ℕ) (p : Pbuf)
      → Followed m.telnet (telnet_recv tpcb (some p) m.telnet)
        ⊎ (Exits p.payload (called (tcp_recved tpcb p.tot_len ∷ []) m.telnet)
            × (telnet_recv tpcb (some p) m.telnet ≡ none))
