-- ===== src/Cli/Tests.antt =====
-- Runs of the commands.
use burst_kernel_virtual_mac.Base.{
  ℕ, ◌≡◌, ◌⊎◌, refl, false, Option, some, List, [], ◌∷◌, arith, replicate,
}
use mathlib.Core.Bool.{false≢true}
use burst_kernel_virtual_mac.Base.Int.{pos}
use burst_kernel_virtual_mac.Nat.{nat_init}
use burst_kernel_virtual_mac.Route.{RouteEntry, Routes}
use burst_kernel_virtual_mac.Route.Laws.{replicate-AllMacs}
use burst_kernel_virtual_mac.Ata.{ata_write_sector}
use burst_kernel_virtual_mac.Ata.Transfer.{sent_words}
use burst_kernel_virtual_mac.Console.{Console}
use burst_kernel_virtual_mac.Console.Invariant.{IsConsole}
use burst_kernel_virtual_mac.Cli.Config.{config_sector, load_config}
use burst_kernel_virtual_mac.Cli.Config.RoundTrip.{IsLoaded, load_config-IsLoaded}
use burst_kernel_virtual_mac.Cli.Keys.{Exits, handle_keys, handle_keys-IsConsole}

abbrev lan_route : RouteEntry
lan_route = record { dest_ip = 0x0001A8C0; netmask = 0x00FFFFFF; next_hop_mac = replicate 6 7 }

abbrev one_route : Routes
one_route = record { table = replicate 16 lan_route; num_routes = pos 1 }

abbrev idle : Console
idle = record {
  files = [];
  current_file = Option.none;
  in_editor_mode = false;
  line = record { buf = replicate 256 0; idx = 0 };
  screen = [];
  router = record { nat = nat_init; routes = one_route; macs = [] };
  disk = record {
    answer = λ lba. sent_words (ata_write_sector 1 (config_sector (λ k. 0) one_route));
    accesses = [];
  };
  padding = λ k. 0;
}

idle-IsConsole : IsConsole idle
idle-IsConsole = record {
  line = record { fits = refl; room = omega arith };
  named = tt;
  stored = tt;
  editing = λ on. absurd (false≢true on);
  hops = replicate-AllMacs lan_route 16 refl;
}

-- `h`, `e`, BACKSPACE, ENTER.
abbrev some_keys : List ℕ
some_keys = 35 ∷ 18 ∷ 14 ∷ 28 ∷ []

handle_keys-IsConsole_example :
    ((c' : Console) × (handle_keys some_keys idle ≡ some c') × IsConsole c') ⊎ Exits some_keys idle
handle_keys-IsConsole_example = handle_keys-IsConsole some_keys idle idle-IsConsole

load_config-IsLoaded_example : IsLoaded (load_config idle).router.routes
load_config-IsLoaded_example = load_config-IsLoaded idle
