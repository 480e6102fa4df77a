-- ===== src/Telnet.antt =====
-- telnetd.c: the telnet server. lwIP is outside the model: what it hands over (a connection, a buffer, the
-- end of a connection) is an argument, and the calls that go to it are listed, oldest first. A `pcb` is a
-- number.
pub mod Relay
pub mod Client
pub mod Net
pub mod Listen
pub mod Valid
pub mod Receive
mod Tests
use burst_kernel_virtual_mac.Base.{
  ℕ, codes, zero, suc, ◌+◌, ◌-◌, ◌/◌, ◌%◌, Bool, true, false, ◌||◌, Option, none, some, List, [],
  ◌∷◌, ◌++◌, ltb, ◌==◌, get_elem?, set, store, take, if◌then◌else◌, ◌>>=◌,
}
use burst_kernel_virtual_mac.Console.{
  Console, Line, Output, puts, set_color, clear_screen, show, editor_handle_key, cli_autocomplete,
  vga_black, vga_light_green, vga_light_cyan, vga_light_magenta, vga_white,
}
use burst_kernel_virtual_mac.Cli.Execute.{cli_execute}

-- The calls of lwIP, and the lines on the serial port.
pub data Call : Type 0 where
  tcp_write : ℕ → List ℕ → Call
  tcp_output tcp_close tcp_recv : ℕ → Call
  tcp_recved : ℕ → ℕ → Call
  pbuf_free : Call
  puts_serial : List ℕ → Call

-- `active_client_pcb`, `telnet_buf` with `telnet_idx`, and what the commands work on.
pub record Telnet : Type 0 where
  pub active_client_pcb : Option ℕ
  pub line : Line
  pub console : Console
  pub calls : List Call

-- `struct pbuf`, the first of its chain: its bytes, and the length of the chain.
pub record Pbuf : Type 0 where
  pub payload : List ℕ
  pub tot_len : ℕ

-- The bytes before a NUL; a literal is written without its own.
unfoldable pub c_string : List ℕ → List ℕ
c_string [] = []
c_string (c ∷ s) = if c == 0 then [] else c ∷ c_string s

abbrev pub sends : Option ℕ → List ℕ → List Call
sends none bytes = []
sends (some pcb) bytes = tcp_write pcb bytes ∷ tcp_output pcb ∷ []

abbrev pub called : List Call → Telnet → Telnet
called new t = record t { calls = t.calls ++ new }

abbrev pub on_screen : Output → Telnet → Telnet
on_screen o t = record t { console = show (o ∷ []) t.console }

unfoldable pub telnet_puts : List ℕ → Telnet → Telnet
telnet_puts s t = on_screen (puts s) (called (sends t.active_client_pcb (c_string s)) t)

-- The colours of ANSI for those of VGA, in their order.
abbrev pub ansi_colors : List ℕ
ansi_colors = 30 ∷ 34 ∷ 32 ∷ 36 ∷ 31 ∷ 35 ∷ 33 ∷ 37 ∷ 90 ∷ 94 ∷ 92 ∷ 96 ∷ 91 ∷ 95 ∷ 93 ∷ 97 ∷ []

unfoldable pub ansi_of : ℕ → ℕ
ansi_of fg = elim (get_elem? ansi_colors fg) [ none ↦ 37 | some ansi ↦ ansi ]

-- ESC, `[`, the two digits, `m`.
unfoldable pub escape_code : ℕ → List ℕ
escape_code fg = 27 ∷ b'[' ∷ (b'0' + ansi_of fg / 10) ∷ (b'0' + ansi_of fg % 10) ∷ b'm' ∷ []

unfoldable pub telnet_set_color : ℕ → ℕ → Telnet → Telnet
telnet_set_color fg bg t =
    called (sends t.active_client_pcb (escape_code fg)) (on_screen (set_color fg bg) t)

-- The calls of `cli_puts` and `cli_set_color` while they are hooked. `clear_screen` has no hook.
unfoldable pub relay : List Output → Telnet → Telnet
relay [] t = t
relay (puts s ∷ os) t = relay os (telnet_puts s t)
relay (set_color fg bg ∷ os) t = relay os (telnet_set_color fg bg t)
relay (clear_screen ∷ os) t = relay os (on_screen clear_screen t)

abbrev pub telnet_prompt : List Output
telnet_prompt =
    set_color vga_light_green vga_black
    ∷ puts (codes "\r\n>  ")
    ∷ set_color vga_light_cyan vga_black
    ∷ puts (codes "nkernel ")
    ∷ set_color vga_light_magenta vga_black
    ∷ puts (codes "X ")
    ∷ set_color vga_white vga_black
    ∷ []

abbrev pub with_buffer : Line → Telnet → Telnet
with_buffer l t = record t { line = l }

-- `cli_execute(telnet_buf)` between the hooks: the calls that it makes go to the client too.
unfoldable pub execute_hooked : List ℕ → Telnet → Option Telnet
execute_hooked cmd t = do
  c' ← cli_execute cmd (record t.console { screen = [] })
  some (relay c'.screen (record t { console = record c' { screen = t.console.screen } }))

-- The end of a line: it is executed unless it is empty, then it is empty.
unfoldable pub end_of_line : Telnet → Option Telnet
end_of_line t =
    let l = t.line in
    let executed : Option Telnet = (do
      buf ← store l.buf l.idx 0
      let closed : Line = record { buf = buf; idx = l.idx }
      execute_hooked buf (telnet_puts (codes "\r\n") (with_buffer closed t))) in
    do
      t' ← if ltb 0 l.idx then executed else some t
      let t'' : Telnet = with_buffer (record { buf = t'.line.buf; idx = 0 }) t'
      some (if t''.console.in_editor_mode then t'' else relay telnet_prompt t'')

-- A byte for the line.
unfoldable pub line_char : ℕ → Telnet → Option Telnet
line_char c t =
    let l = t.line in
    if c == 13 || c == 10
    then end_of_line t
    else if c == 8 || c == 127
    then some (
        if ltb 0 l.idx
        then telnet_puts (8 ∷ b' ' ∷ 8 ∷ [])
            (with_buffer (record { buf = l.buf; idx = l.idx - 1 }) t)
        else t)
    else if c == 9
    then (do
      completed ← cli_autocomplete t.console.files 256 l
      some (relay completed.1 (with_buffer completed.0 t)))
    else if ltb l.idx 255
    then (do
      buf ← store l.buf l.idx c
      some (telnet_puts (c ∷ []) (with_buffer (record { buf = buf; idx = l.idx + 1 }) t)))
    else some t

-- One turn of the loop over the bytes. The editor's key is not hooked.
unfoldable pub telnet_char : ℕ → Telnet → Option Telnet
telnet_char c t =
    if t.console.in_editor_mode
    then (do c' ← editor_handle_key cli_execute c t.console; some (record t { console = c' }))
    else line_char c t

unfoldable pub telnet_chars : List ℕ → Telnet → Option Telnet
telnet_chars [] t = some t
telnet_chars (c ∷ cs) t = do t' ← telnet_char c t; telnet_chars cs t'

-- `p == NULL` is the end of the connection. Of a chain, the first buffer is read.
unfoldable pub telnet_recv : ℕ → Option Pbuf → Telnet → Option Telnet
telnet_recv tpcb none t = some (
    called (tcp_close tpcb ∷ puts_serial (codes "Telnet client disconnected.\n") ∷ [])
      (record t { active_client_pcb = none }))
telnet_recv tpcb (some p) t = do
  t' ← telnet_chars p.payload (called (tcp_recved tpcb p.tot_len ∷ []) t)
  some (called (pbuf_free ∷ []) t')

unfoldable pub telnet_accept : ℕ → Telnet → Telnet
telnet_accept newpcb t =
    let logged = called (puts_serial (codes "Telnet client connected!\n") ∷ []) t in
    elim t.active_client_pcb [
      | some _ ↦ called (tcp_close newpcb ∷ []) logged
      | none ↦
          relay
            (set_color vga_light_magenta vga_black
              ∷ puts (codes "Welcome to NKernel Router!\r\n")
              ∷ telnet_prompt)
            (called (tcp_recv newpcb ∷ []) (record logged { active_client_pcb = some newpcb }))
    ]
