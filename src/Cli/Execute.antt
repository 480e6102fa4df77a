-- ===== src/Cli/Execute.antt =====
-- `cli_execute` of cli.c: the command that a line names, and what it does. `none` stands for an access
-- outside an array, and for `exit`, which stops the machine.
pub mod Words
pub mod Returns
use burst_kernel_virtual_mac.Base.{
  ℕ, codes, zero, suc, ◌+◌, ◌-◌, Bool, true, false, ◌&&◌, not, Option, none, some, List, [], ◌∷◌,
  ◌++◌, ltb, ◌==◌, length, take, drop, get_elem?, if◌then◌else◌, ◌>>=◌,
}
use mathlib.Core.Option
use burst_kernel_virtual_mac.Libc.{strlen, strcmp}
use burst_kernel_virtual_mac.Vfs.{VfsFile, vfs_open, vfs_list, is_zero}
use burst_kernel_virtual_mac.Console.{
  Console, Output, puts, set_color, clear_screen, show, starts_with, editor_start, vga_black,
  vga_light_cyan, vga_light_green, vga_light_red, vga_white, vga_yellow,
}
use burst_kernel_virtual_mac.Cli.Config.{
  sector_one, access_sector_one, save_config, load_config, saved_routes,
}
use burst_kernel_virtual_mac.Cli.Sessions.{nat_show}
use burst_kernel_virtual_mac.Cli.Screens.{
  coloured, help, info, ifconfig, route_print, route_header, route_lines, ntop,
}

-- The branches of `cli_execute` behind the empty line.
pub data Command : Type 0 where
  help_command info_command ifconfig_command route_command save_command load_command : Command
  ls_command exit_command clear_command ntop_command nat_command cat_command edit_command : Command

-- The tests in their order: each is `strncmp` with all of the word.
abbrev pub command_words : List (List ℕ × Command)
command_words =
    (codes "help", help_command)
    ∷ (codes "info", info_command)
    ∷ (codes "ifconfig", ifconfig_command)
    ∷ (codes "route print", route_command)
    ∷ (codes "save", save_command)
    ∷ (codes "load", load_command)
    ∷ (codes "ls", ls_command)
    ∷ (codes "exit", exit_command)
    ∷ (codes "clear", clear_command)
    ∷ (codes "ntop", ntop_command)
    ∷ (codes "nat show", nat_command)
    ∷ (codes "cat ", cat_command)
    ∷ (codes "edit ", edit_command)
    ∷ []

unfoldable pub find_command : List (List ℕ × Command) → List ℕ → Option (Option Command)
find_command [] cmd = some none
find_command ((word, command) ∷ words) cmd =
    let rest = find_command words cmd in
    (do is_word ← starts_with cmd word (length word); if is_word then some (some command) else rest)

-- `cli_set_color(VGA_WHITE, VGA_BLACK);`, the last line.
abbrev pub reset_color : Output
reset_color = set_color vga_white vga_black

-- `cli_puts` of an array, up to its NUL.
unfoldable pub puts_array : List ℕ → Option Output
puts_array s = do n ← strlen s; some (puts (take n s))

-- The lines of `vfs_list`, for the names that it prints.
unfoldable pub list_lines : List (List ℕ) → List Output
list_lines [] = []
list_lines (name ∷ names) = coloured vga_light_cyan name ++ (puts (codes "  ") ∷ list_lines names)

unfoldable pub ls : List VfsFile → List Output
ls files =
    (list_lines (vfs_list files)
      ++ (if length (vfs_list files) == 0
          then coloured vga_light_red (codes "No files found.\n")
          else puts (codes "\n") ∷ []))
    ++ set_color vga_white vga_black ∷ []

-- `cat` of a file: its data, and a line end if the last of its bytes is none.
unfoldable pub cat_file : VfsFile → Option (List Output)
cat_file f = do
  text ← puts_array f.contents
  last ← if ltb 0 f.size then get_elem? f.contents (f.size - 1) else some 10
  some (set_color vga_white vga_black ∷ text ∷ (if last == 10 then [] else puts (codes "\n") ∷ []))

unfoldable pub no_such_file : List ℕ → Option (List Output)
no_such_file arg = do
  name ← puts_array arg
  some (
      coloured vga_light_red (codes "cat: ")
      ++ name ∷ puts (codes ": No such file or directory\n") ∷ [])

unfoldable pub cat_named : List ℕ → Console → Option Console
cat_named arg c = do
  found ← vfs_open c.files arg
  out ← elim found [ none ↦ no_such_file arg | some i ↦ do f ← get_elem? c.files i; cat_file f ]
  some (show out c)

-- `cli_execute("route print")` within it resets the colour too.
unfoldable pub cat_running : Console → Console
cat_running c =
    show
      (coloured vga_white (codes "Current Routing Table (in RAM):\n")
        ++ (route_print (c.router).routes ++ reset_color ∷ []))
      c

unfoldable pub cat_startup : Console → Console
cat_startup c =
    show
      (coloured vga_white (codes "Saved Routing Table (in ATA Disk):\n")
        ++ (route_header ++ route_lines (saved_routes (sector_one c.disk))))
      (record c { disk = access_sector_one c.disk })

abbrev pub is_text : List ℕ → List ℕ → Option Bool
is_text s t = do r ← strcmp s (t ++ 0 ∷ []); some (is_zero r)

-- `cat`, with what stands behind the word.
unfoldable pub cat : List ℕ → Console → Option Console
cat arg c = do
  is_running ← is_text arg (codes "running-config")
  is_startup ← if is_running then some false else is_text arg (codes "startup-config")
  if is_running
      then some (cat_running c)
      else if is_startup
      then some (cat_startup c)
      else cat_named arg c

unfoldable pub run_command : Command → List ℕ → Console → Option Console
run_command help_command cmd c = some (show help c)
run_command info_command cmd c = some (show info c)
run_command ifconfig_command cmd c = some (show (ifconfig (c.router).macs) c)
run_command route_command cmd c = some (show (route_print (c.router).routes) c)
run_command save_command cmd c = some (
    show (coloured vga_light_green (codes "Configuration saved to disk (ATA PIO Sector 1).\n"))
      (save_config c))
run_command load_command cmd c =
    some
      (show (coloured vga_light_green (codes "Configuration loaded from disk.\n")) (load_config c))
run_command ls_command cmd c = some (show (ls c.files) c)
run_command exit_command cmd c = none
run_command clear_command cmd c = some (show (clear_screen ∷ []) c)
run_command ntop_command cmd c = some (show (ntop ((c.router).nat).table (c.router).macs) c)
run_command nat_command cmd c = some (show (nat_show ((c.router).nat).table) c)
run_command cat_command cmd c = cat (drop 4 cmd) c
run_command edit_command cmd c = editor_start (drop 5 cmd) c

unfoldable pub unknown_command : List ℕ → Console → Option Console
unknown_command cmd c = do
  line ← puts_array cmd
  some
      (show (coloured vga_light_red (codes "Unknown command: ") ++ line ∷ puts (codes "\n") ∷ []) c)

-- A line that is not empty.
unfoldable pub execute_line : List ℕ → Console → Option Console
execute_line cmd c = do
  command ← find_command command_words cmd
  c' ← elim command [ none ↦ unknown_command cmd c | some k ↦ run_command k cmd c ]
  some (show (reset_color ∷ []) c')

unfoldable pub cli_execute : List ℕ → Console → Option Console
cli_execute cmd c = do
  is_empty ← is_text cmd []
  let executed = execute_line cmd c
  if is_empty then some c else executed
