-- ===== src/Cli/Screens.antt =====
-- The commands of cli.c that only print: `help`, `info`, `ifconfig`, `route print`, `ntop`.
use burst_kernel_virtual_mac.Base.{
  ℕ, codes, ◌+◌, List, [], ◌∷◌, ◌++◌, ltb, ◌==◌, length, take, if◌then◌else◌,
}
use burst_kernel_virtual_mac.Base.Int.{pos_part}
use burst_kernel_virtual_mac.Route.{RouteEntry, Routes}
use burst_kernel_virtual_mac.Nat.{NatEntry}
use burst_kernel_virtual_mac.Console.{
  Output, puts, set_color, vga_black, vga_dark_gray, vga_light_blue, vga_light_cyan,
  vga_light_green, vga_light_magenta, vga_light_red, vga_white, vga_yellow,
}
use burst_kernel_virtual_mac.Cli.Print.{digit, print_ip, print_mac, print_count, print_pair}
use burst_kernel_virtual_mac.Cli.Sessions.{Host, Topology, topology}

-- `cli_set_color(fg, VGA_BLACK);` and one `cli_puts` behind it.
abbrev pub coloured : ℕ → List ℕ → List Output
coloured fg text = set_color fg vga_black ∷ puts text ∷ []

-- The two halves of a line of `help`.
abbrev pub help_line : List ℕ → List ℕ → List Output
help_line command text = coloured vga_light_cyan command ++ coloured vga_white text

unfoldable pub help : List Output
help =
    coloured vga_yellow (codes "Available commands:\n")
    ++ (help_line (codes "  help        ") (codes "- Show this message\n")
        ++ (help_line (codes "  ifconfig    ") (codes "- List all E1000 NICs\n")
            ++ (help_line (codes "  route print ") (codes "- Show Fast-Path routing table\n")
                ++ (help_line (codes "  info        ") (codes "- Show system info\n")
                    ++ (help_line (codes "  ntop        ") (codes "- Network topology map\n")
                        ++ (help_line (codes "  nat show    ") (codes "- Show NAT mapping table\n")
                            ++ (help_line (codes "  ls          ") (codes "- List files in VFS\n")
                                ++ (help_line (codes "  cat <file>  ")
                                      (codes "- Print file contents\n")
                                    ++ (help_line (codes "  edit <file> ")
                                          (codes "- Open text editor\n")
                                        ++ (help_line (codes "  save / load ")
                                              (codes "- Save/load config to disk\n")
                                            ++ (help_line (codes "  clear       ")
                                                  (codes "- Clear screen\n")
                                                ++ help_line (codes "  exit        ")
                                                    (codes "- Halt system\n"))))))))))))

unfoldable pub info : List Output
info =
    coloured vga_light_magenta (codes "NKernel (Network Kernel) - Unikernel Router\n")
    ++ coloured vga_light_blue (codes "Architecture: x86_64\n")

-- The lines of the devices from `i` on.
unfoldable pub device_lines : ℕ → List (List ℕ) → List Output
device_lines i [] = []
device_lines i (mac ∷ macs) =
    (coloured vga_light_green (codes "en") ++ digit i ∷ [])
    ++ ((coloured vga_white (codes ": MAC=") ++ set_color vga_yellow vga_black ∷ print_mac mac)
        ++ (coloured vga_dark_gray (codes " (E1000)\n") ++ device_lines (i + 1) macs))

unfoldable pub ifconfig : List (List ℕ) → List Output
ifconfig macs =
    (if length macs == 0 then coloured vga_light_red (codes "No NICs found.\n") else [])
    ++ device_lines 0 macs

unfoldable pub route_lines : List RouteEntry → List Output
route_lines [] = []
route_lines (e ∷ es) =
    (set_color vga_light_green vga_black ∷ print_ip e.dest_ip)
    ++ ((puts (codes "\t") ∷ set_color vga_light_cyan vga_black ∷ print_ip e.netmask)
        ++ ((puts (codes "\t") ∷ set_color vga_light_magenta vga_black ∷ print_mac e.next_hop_mac)
            ++ (puts (codes "\n") ∷ route_lines es)))

abbrev pub route_header : List Output
route_header =
    set_color vga_yellow vga_black
    ∷ puts (codes "Destination     Netmask         Next-Hop MAC\n")
    ∷ puts (codes "--------------------------------------------------\n")
    ∷ []

-- The loop runs to `num_routes`, not at all where that is negative.
unfoldable pub route_print : Routes → List Output
route_print r = route_header ++ route_lines (take (pos_part r.num_routes) r.table)

-- `ntop` down to the box of the router.
unfoldable pub ntop_wan : List Output
ntop_wan =
    coloured vga_yellow (codes "=== NKernel Network Topology ===\n\n")
    ++ (coloured vga_light_cyan (codes "          .--------.          \n")
        ++ (puts (codes "         (  INTERNET )        \n")
              ∷ puts (codes "          '--------'          \n")
              ∷ coloured vga_dark_gray (codes "               |              \n")
            ++ (puts (codes "               | WAN          \n")
                  ∷ coloured vga_white (codes "         [")
                ++ (coloured vga_light_green (codes "10.0.2.15")
                    ++ (coloured vga_white (codes "]          \n")
                        ++ coloured vga_dark_gray (codes "               |              \n"))))))

unfoldable pub ntop_router : List Output
ntop_router =
    coloured vga_light_magenta (codes "    +=====================+   \n")
    ++ (puts (codes "    ||  ") ∷ coloured vga_white (codes "NKernel Router")
        ++ (coloured vga_light_magenta (codes "   ||   \n")
            ++ (puts (codes "    || ") ∷ coloured vga_dark_gray (codes " NAT | Firewall ")
                ++ (coloured vga_light_magenta (codes " ||   \n")
                    ++ puts (codes "    +=====================+   \n") ∷ []))))

-- "NAT stats inside router"
unfoldable pub ntop_counts : Topology → List Output
ntop_counts t =
    (coloured vga_dark_gray (codes "     Sessions: ")
      ++ set_color vga_yellow vga_black ∷ print_count t.total_sessions)
    ++ ((coloured vga_dark_gray (codes " (TCP:")
          ++ set_color vga_light_cyan vga_black ∷ print_pair t.tcp_sessions)
        ++ ((coloured vga_dark_gray (codes " UDP:")
              ++ set_color vga_light_green vga_black ∷ print_pair t.udp_sessions)
            ++ coloured vga_dark_gray (codes ")\n")))

unfoldable pub ntop_lan : List Output
ntop_lan =
    coloured vga_dark_gray (codes "               |              \n")
    ++ (coloured vga_white (codes "         [")
        ++ (coloured vga_light_green (codes "192.168.1.1")
            ++ (coloured vga_white (codes "]        \n")
                ++ (coloured vga_dark_gray (codes "               | LAN          \n")
                    ++ (coloured vga_light_blue (codes "        +-----------+         \n")
                        ++ puts (codes "        |  Switch   |         \n")
                          ∷ puts (codes "        +--+--+--+--+         \n")
                          ∷ [])))))

-- "Draw branch lines", a line for each host at hand.
unfoldable pub branch_lines : List Host → List Output
branch_lines [] = []
branch_lines (h ∷ hosts) = puts (codes "  |  ") ∷ branch_lines hosts

-- "Draw host boxes"
unfoldable pub host_boxes : List Host → List Output
host_boxes [] = []
host_boxes (h ∷ hosts) =
    (coloured vga_light_green (codes "     [") ++ print_ip h.ip)
    ++ (puts (codes "]\n") ∷ host_boxes hosts)

-- At most four hosts are drawn.
unfoldable pub ntop_hosts : List Host → List Output
ntop_hosts hosts =
    if length hosts == 0
    then coloured vga_dark_gray (codes "           |                  \n")
      ++ puts (codes "      [No active hosts]       \n") ∷ []
    else (coloured vga_dark_gray (codes "        ") ++ branch_lines (take 4 hosts))
      ++ ((puts (codes "\n") ∷ host_boxes (take 4 hosts))
          ++ (if ltb 4 (length hosts)
              then coloured vga_dark_gray (codes "     ... and more\n")
              else []))

unfoldable pub interface_lines : ℕ → List (List ℕ) → List Output
interface_lines i [] = []
interface_lines i (mac ∷ macs) =
    (coloured vga_white (codes "  en") ++ digit i ∷ puts (codes ": ") ∷ [])
    ++ ((set_color vga_yellow vga_black ∷ print_mac mac)
        ++ (coloured vga_dark_gray (codes " (E1000)\n") ++ interface_lines (i + 1) macs))

unfoldable pub ntop : List NatEntry → List (List ℕ) → List Output
ntop table macs =
    ntop_wan
    ++ (ntop_router
        ++ (ntop_counts (topology table)
            ++ (ntop_lan
                ++ (ntop_hosts (topology table).hosts
                    ++ (coloured vga_dark_gray (codes "\n--- Interfaces ---\n")
                        ++ interface_lines 0 macs)))))
