-- ===== src/Cli/Sessions.antt =====
-- `nat show` of cli.c, and the scan of the NAT table that `ntop` begins with.
pub mod Listing
pub mod Hosts
use burst_kernel_virtual_mac.Base.{
  ℕ, codes, zero, suc, ◌+◌, Bool, true, false, List, [], ◌∷◌, ◌++◌, ltb, ◌==◌, length,
  if◌then◌else◌,
}
use burst_kernel_virtual_mac.Nat.{NatEntry, max_nat_entries, proto_tcp, swap_bytes}
use burst_kernel_virtual_mac.Console.{
  Output, puts, set_color, vga_black, vga_dark_gray, vga_light_cyan, vga_light_green,
  vga_light_magenta, vga_white, vga_yellow,
}
use burst_kernel_virtual_mac.Cli.Print.{print_ip, print_count, print_index, print_port, print_age}

-- The lines above the mappings.
abbrev pub nat_header : List Output
nat_header =
    set_color vga_yellow vga_black
    ∷ puts (codes "=== NAT Mapping Table ===\n")
    ∷ set_color vga_light_cyan vga_black
    ∷ puts (codes " #   Proto  Internal IP       Int.Port  Ext.Port  Age\n")
    ∷ set_color vga_dark_gray vga_black
    ∷ puts (codes "---  -----  ----------------  --------  --------  ----\n")
    ∷ []

-- The line of a mapping, with its number.
unfoldable pub nat_row : ℕ → NatEntry → List Output
nat_row count e =
    (set_color vga_white vga_black ∷ print_index count)
    ++ ((set_color vga_light_magenta vga_black
          ∷ puts (if e.protocol == proto_tcp then codes "  TCP   " else codes "  UDP   ")
          ∷ [])
        ++ ((set_color vga_light_green vga_black ∷ print_ip e.internal_ip)
            ++ ((puts (codes "        ")
                  ∷ set_color vga_light_cyan vga_black
                  ∷ print_port (swap_bytes e.internal_port))
                ++ ((puts (codes "      ")
                      ∷ set_color vga_yellow vga_black
                      ∷ print_port (swap_bytes e.external_port))
                    ++ ((puts (codes "      ")
                          ∷ set_color vga_dark_gray vga_black
                          ∷ print_age e.last_active)
                        ++ (puts (codes "\n") ∷ []))))))

-- The loop over the table, with the entries that are left and the mappings so far; and the number of
-- mappings after it.
unfoldable pub nat_rows : List NatEntry → ℕ → List Output × ℕ
nat_rows [] count = ([], count)
nat_rows (e ∷ es) count =
    let rest = nat_rows es (count + 1) in
    let skipped = nat_rows es count in
    if e.in_use then (nat_row (count + 1) e ++ rest.0, rest.1) else skipped

-- The lines below the mappings.
unfoldable pub nat_footer : ℕ → List Output
nat_footer count =
    if count == 0
    then set_color vga_dark_gray vga_black ∷ puts (codes "  (No active NAT sessions)\n") ∷ []
    else (set_color vga_dark_gray vga_black
        ∷ puts (codes "---\n")
        ∷ set_color vga_white vga_black
        ∷ puts (codes "Total active mappings: ")
        ∷ set_color vga_yellow vga_black
        ∷ print_count count)
      ++ puts (codes "\n") ∷ []

unfoldable pub nat_show : List NatEntry → List Output
nat_show table = nat_header ++ ((nat_rows table 0).0 ++ nat_footer (nat_rows table 0).1)

-- A host that `ntop` found: `active_hosts`, `host_ports` and `host_protos` at one index.
pub record Host : Type 0 where
  pub ip : ℕ
  pub port : ℕ
  pub protocol : ℕ

-- The hosts, and the counts.
pub record Topology : Type 0 where
  pub hosts : List Host
  pub total_sessions : ℕ
  pub tcp_sessions : ℕ
  pub udp_sessions : ℕ

abbrev pub max_hosts : ℕ
max_hosts = 16

-- `found`, the search among the hosts so far.
unfoldable pub is_listed : ℕ → List Host → Bool
is_listed ip [] = false
is_listed ip (h ∷ hosts) = if h.ip == ip then true else is_listed ip hosts

abbrev pub host_of : NatEntry → Host
host_of e = record { ip = e.internal_ip; port = e.internal_port; protocol = e.protocol }

-- `if (!found && host_count < 16)`, behind the others.
unfoldable pub add_host : NatEntry → List Host → List Host
add_host e hosts =
    if is_listed e.internal_ip hosts
    then hosts
    else if ltb (length hosts) max_hosts
    then hosts ++ host_of e ∷ []
    else hosts

unfoldable pub count_entry : NatEntry → Topology → Topology
count_entry e t =
    if e.in_use
    then record {
      hosts = add_host e t.hosts;
      total_sessions = t.total_sessions + 1;
      tcp_sessions = if e.protocol == proto_tcp then t.tcp_sessions + 1 else t.tcp_sessions;
      udp_sessions = if e.protocol == proto_tcp then t.udp_sessions else t.udp_sessions + 1;
    }
    else t

unfoldable pub scan_table : List NatEntry → Topology → Topology
scan_table [] t = t
scan_table (e ∷ es) t = scan_table es (count_entry e t)

abbrev pub nothing_found : Topology
nothing_found = record { hosts = []; total_sessions = 0; tcp_sessions = 0; udp_sessions = 0 }

unfoldable pub topology : List NatEntry → Topology
topology table = scan_table table nothing_found
