-- ===== src/Telnet/Tests.antt =====
-- A connection, and a line.
use burst_kernel_virtual_mac.Base.{
  codes, ◌≡◌, ◌⊎◌, refl, false, none, some, List, [], ◌∷◌, arith, replicate,
}
use mathlib.Core.Bool.{false≢true}
use burst_kernel_virtual_mac.Base.Int.{pos}
use burst_kernel_virtual_mac.Nat.{nat_init}
use burst_kernel_virtual_mac.Console.{Output, puts, set_color}
use burst_kernel_virtual_mac.Telnet.{
  Telnet, Pbuf, tcp_recved, called, relay, telnet_recv, telnet_accept,
}
use burst_kernel_virtual_mac.Telnet.Relay.{Relayed, relay-Relayed}
use burst_kernel_virtual_mac.Telnet.Receive.{Followed, Exits, telnet_recv-Follows}
use burst_kernel_virtual_mac.Telnet.Valid.{IsTelnet}
use burst_kernel_virtual_mac.Telnet.Client.{
  IsServed, here, next, accepted, connections, is_one_of, open_now, Reach-IsServed,
}

abbrev waiting : Telnet
waiting = record {
  active_client_pcb = none;
  line = record { buf = replicate 256 0; idx = 0 };
  console = record {
    files = [];
    current_file = none;
    in_editor_mode = false;
    line = record { buf = replicate 256 0; idx = 0 };
    screen = [];
    router = record {
      nat = nat_init;
      routes = record { table = []; num_routes = pos 0 };
      macs = [];
    };
    disk = record { answer = λ lba. []; accesses = [] };
    padding = λ k. 0;
  };
  calls = [];
}

waiting-IsTelnet : IsTelnet waiting
waiting-IsTelnet = record {
  line = record { fits = refl; room = omega arith };
  console = record {
    line = record { fits = refl; room = omega arith };
    named = tt;
    stored = tt;
    editing = λ on. absurd (false≢true on);
    hops = tt;
  };
}

waiting-IsServed : IsServed waiting
unfolding connections
waiting-IsServed = record { valid = waiting-IsTelnet; only = refl }

waiting_fresh : is_one_of 7 (open_now waiting) ≡ false
unfolding connections
waiting_fresh = refl

Reach-IsServed_example : IsServed (telnet_accept 7 waiting)
Reach-IsServed_example =
    Reach-IsServed waiting-IsServed (next here (accepted waiting 7 waiting_fresh))

abbrev a_line : Pbuf
a_line = record { payload = codes "he\r"; tot_len = 3 }

telnet_recv-Follows_example :
    Followed waiting (telnet_recv 7 (some a_line) waiting)
    ⊎ (Exits (codes "he\r") (called (tcp_recved 7 3 ∷ []) waiting)
        × (telnet_recv 7 (some a_line) waiting ≡ none))
telnet_recv-Follows_example = telnet_recv-Follows 7 a_line waiting waiting-IsTelnet

abbrev two_calls : List Output
two_calls = set_color 10 0 ∷ puts (codes "ok") ∷ []

relay-Relayed_example : Relayed two_calls waiting (relay two_calls waiting)
relay-Relayed_example = relay-Relayed two_calls waiting
