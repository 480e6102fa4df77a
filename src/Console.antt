-- ===== src/Console.antt =====
-- edit.c, the shell line of keyboard.c, and `cli_autocomplete` of cli.c: what a key does. The screen
-- is the list of the calls that write to it, oldest first. The functions that run a command take
-- `cli_execute` as an argument, for it calls `editor_start`; Cli/Execute.antt has it.
pub mod Document
pub mod Complete
pub mod Invariant
mod Tests
use burst_kernel_virtual_mac.Base.{
  ℕ, codes, zero, suc, ◌+◌, ◌-◌, Bool, true, false, ◌||◌, not, Option, none, some, List, [], ◌∷◌,
  ◌++◌, ltb, ◌==◌, set, store, get_elem?, length, take, drop, replicate, if◌then◌else◌, ◌>>=◌,
}
use mathlib.Core.Option
use burst_kernel_virtual_mac.Libc.{strlen, strncmp}
use burst_kernel_virtual_mac.Vfs.{VfsFile, vfs_create, is_zero}
use burst_kernel_virtual_mac.Fastpath.{Router}
use burst_kernel_virtual_mac.Ata.{PortOp}

-- The colours of cli.h that are used here.
abbrev pub vga_black : ℕ
vga_black = 0

abbrev pub vga_dark_gray : ℕ
vga_dark_gray = 8

abbrev pub vga_light_blue : ℕ
vga_light_blue = 9

abbrev pub vga_light_green : ℕ
vga_light_green = 10

abbrev pub vga_light_cyan : ℕ
vga_light_cyan = 11

abbrev pub vga_light_red : ℕ
vga_light_red = 12

abbrev pub vga_light_magenta : ℕ
vga_light_magenta = 13

abbrev pub vga_yellow : ℕ
vga_yellow = 14

abbrev pub vga_white : ℕ
vga_white = 15

-- One call that writes to the screen.
pub data Output : Type 0 where
  puts : List ℕ → Output
  set_color : ℕ → ℕ → Output
  clear_screen : Output

-- `kbd_tr`: the character of a scancode, 0 for none.
abbrev pub kbd_tr : List ℕ
kbd_tr =
    0 ∷ 27 ∷ codes "1234567890*-"
    ++ 8 ∷ 9 ∷ codes "qwertyuiopgu"
    ++ 10 ∷ 0 ∷ codes "asdfghjklsi,"
    ++ 0 ∷ codes "<zxcvbnmoc."
    ++ 0 ∷ b'*' ∷ 0 ∷ b' ' ∷ replicate 16 0
    ++ b'-' ∷ replicate 3 0
    ++ b'+' ∷ replicate 49 0

-- `shell_buf` and `shell_idx`.
pub record Line : Type 0 where
  pub buf : List ℕ
  pub idx : ℕ

abbrev pub shell_buf_size : ℕ
shell_buf_size = 256

-- The disk that ata.c talks to: what it answers to a read of a sector, and the accesses made so far.
pub record Disk : Type 0 where
  pub answer : ℕ → List ℕ
  pub accesses : List PortOp

-- What the keys and the commands work on. `padding` is what stands in the bytes of the routing table
-- that belong to no field: C leaves them open.
pub record Console : Type 0 where
  pub files : List VfsFile
  pub current_file : Option ℕ
  pub in_editor_mode : Bool
  pub line : Line
  pub screen : List Output
  pub router : Router
  pub disk : Disk
  pub padding : ℕ → ℕ

abbrev pub show : List Output → Console → Console
show os c = record c { screen = c.screen ++ os }

abbrev pub with_line : Line → Console → Console
with_line l c = record c { line = l }

abbrev pub with_file : ℕ → VfsFile → Console → Console
with_file i f c = record c { files = set c.files i f }

abbrev pub with_mode : Bool → Console → Console
with_mode b c = record c { in_editor_mode = b }

abbrev pub with_data : List ℕ → ℕ → VfsFile → VfsFile
with_data contents size f = record {
  name = f.name;
  contents = contents;
  size = size;
  is_used = f.is_used;
}

-- `current_file->size--; current_file->data[current_file->size] = 0;`
unfoldable pub remove_char : VfsFile → Option VfsFile
remove_char f = do
  contents ← store f.contents (f.size - 1) 0
  some (with_data contents (f.size - 1) f)

-- `current_file->data[current_file->size++] = c; current_file->data[current_file->size] = 0;`
unfoldable pub add_char : ℕ → VfsFile → Option VfsFile
add_char key f = do
  contents ← store f.contents f.size key
  terminated ← store contents (f.size + 1) 0
  some (with_data terminated (f.size + 1) f)

-- The first `size` bytes, one call each.
abbrev pub each_char : List ℕ → List Output
each_char [] = []
each_char (c ∷ s) = puts (c ∷ []) ∷ each_char s

unfoldable pub editor_redraw : VfsFile → List Output
editor_redraw f =
    clear_screen
    ∷ set_color vga_black vga_light_cyan
    ∷ puts (codes " NKernel Editor v1.0 | File: ")
    ∷ puts f.name
    ∷ puts (codes " | Press ESC to save and exit.\n")
    ∷ set_color vga_white vga_black
    ∷ each_char (take f.size f.contents)

abbrev pub cannot_open : List Output
cannot_open =
    set_color vga_light_red vga_black ∷ puts (codes "Error: Cannot create or open file.\n") ∷ []

-- `current_file` is the file that `vfs_create` answers, or NULL.
unfoldable pub editor_start : List ℕ → Console → Option Console
editor_start filename c = do
  (o, files') ← vfs_create c.files filename
  let c' : Console = record c { files = files'; current_file = o }
  elim o [
    | none ↦ some (show cannot_open c')
    | some i ↦ do f ← get_elem? files' i; some (show (editor_redraw f) (with_mode true c'))
  ]

abbrev pub prompt : List Output
prompt =
    set_color vga_light_cyan vga_black
    ∷ puts (codes "nkernel main ")
    ∷ set_color vga_yellow vga_black
    ∷ puts (codes "> ")
    ∷ set_color vga_white vga_black
    ∷ []

module _ (cli_execute : List ℕ → Console → Option Console) where
  -- The line is terminated and, unless it is empty, executed; then it is empty, and the prompt shows.
  unfoldable pub shell_execute : Console → Option Console
  shell_execute c =
      let l = c.line in
      do
        buf ← store l.buf l.idx 0
        let shown : Console =
            show (puts (codes "\n") ∷ []) (with_line (record { buf = buf; idx = l.idx }) c)
        c' ← if ltb 0 l.idx then cli_execute buf shown else some shown
        some (show prompt (with_line (record { buf = c'.line.buf; idx = 0 }) c'))

  unfoldable pub editor_handle_key : ℕ → Console → Option Console
  editor_handle_key key c =
      if key == 27
      then shell_execute (
          show
            (clear_screen ∷ set_color vga_light_green vga_black ∷ puts (codes "File saved.\n") ∷ [])
            (with_mode false c))
      else (do
        i ← c.current_file
        f ← get_elem? c.files i
        (if key == 8 || key == 127
            then (if ltb 0 f.size
                then (do f' ← remove_char f; some (show (editor_redraw f') (with_file i f' c)))
                else some c)
            else (if ltb f.size 4095
                then (do f' ← add_char key f; some (show (puts (key ∷ []) ∷ []) (with_file i f' c)))
                else some c)))

-- `for (j = ...; j < len && *idx < max_size - 1; j++) buf[(*idx)++] = s[j];`, with the rest of `s`.
unfoldable pub append_rest : List ℕ → ℕ → Line → Option (Line × List Output)
append_rest [] max_size l = some (l, [])
append_rest (a ∷ s) max_size l =
    let added : Option (Line × List Output) = (do
      buf ← store l.buf l.idx a
      (l', echo) ← append_rest s max_size (record { buf = buf; idx = l.idx + 1 })
      some (l', puts (a ∷ []) ∷ echo)) in
    if ltb l.idx (max_size - 1) then added else some (l, [])

abbrev pub commands : List (List ℕ)
commands =
    codes "help"
    ∷ codes "ifconfig"
    ∷ codes "route print"
    ∷ codes "info"
    ∷ codes "save"
    ∷ codes "load"
    ∷ codes "ls"
    ∷ codes "exit"
    ∷ codes "clear"
    ∷ codes "ntop"
    ∷ codes "nat show"
    ∷ codes "cat "
    ∷ codes "edit "
    ∷ []

-- The first of the texts that begins with the first `n` bytes of the string at hand.
unfoldable pub first_match : List (List ℕ) → List ℕ → ℕ → Option (Option (List ℕ))
first_match [] s n = some none
first_match (t ∷ ts) s n =
    let rest = first_match ts s n in
    (do r ← strncmp s (t ++ 0 ∷ []) n; if is_zero r then some (some t) else rest)

-- The name of the first used file that begins with the first `n` bytes of the argument.
unfoldable pub first_file : List VfsFile → List ℕ → ℕ → Option (Option (List ℕ))
first_file [] arg n = some none
first_file (f ∷ fs) arg n =
    let rest = first_file fs arg n in
    if f.is_used
    then (do
      r ← strncmp f.name arg n
      (if is_zero r
          then (do name_len ← strlen f.name; some (some (take name_len f.name)))
          else rest))
    else rest

abbrev pub starts_with : List ℕ → List ℕ → ℕ → Option Bool
starts_with buf t n = do r ← strncmp buf (t ++ 0 ∷ []) n; some (is_zero r)

-- The second half of `cli_autocomplete`: an argument of `cat` or `edit` is completed to a file's name.
unfoldable pub complete_file : List VfsFile → ℕ → Line → Option (Line × List Output)
complete_file files max_size l = do
  is_cat ← starts_with l.buf (codes "cat ") 4
  is_edit ← if is_cat then some false else starts_with l.buf (codes "edit ") 5
  let prefix_len : ℕ = if is_cat then 4 else 5
  let arg_len : ℕ = l.idx - prefix_len
  name ← if is_cat || is_edit then first_file files (drop prefix_len l.buf) arg_len else some none
  elim name [ none ↦ some (l, []) | some t ↦ append_rest (drop arg_len t) max_size l ]

unfoldable pub cli_autocomplete : List VfsFile → ℕ → Line → Option (Line × List Output)
cli_autocomplete files max_size l = if l.idx == 0 then some (l, []) else (do
  buf ← store l.buf l.idx 0
  let closed : Line = record { buf = buf; idx = l.idx }
  command ← first_match commands closed.buf l.idx
  elim command [
    | none ↦ complete_file files max_size closed
    | some t ↦ append_rest (drop l.idx t) max_size closed
  ])

module _ (cli_execute : List ℕ → Console → Option Console) where
  -- A character for the shell line.
  unfoldable pub shell_key : ℕ → Console → Option Console
  shell_key key c =
      let l = c.line in
      if key == 10
      then shell_execute cli_execute c
      else if key == 8
      then (if ltb 0 l.idx
          then some (
              show (puts (8 ∷ b' ' ∷ 8 ∷ []) ∷ [])
                (with_line (record { buf = l.buf; idx = l.idx - 1 }) c))
          else some c)
      else if key == 9
      then (do
        completed ← cli_autocomplete c.files shell_buf_size l
        some (show completed.1 (with_line completed.0 c)))
      else if ltb l.idx (shell_buf_size - 1)
      then (do
        buf ← store l.buf l.idx key
        some (show (puts (key ∷ []) ∷ []) (with_line (record { buf = buf; idx = l.idx + 1 }) c)))
      else some c

  -- `keyboard_handler`, with the scancode that port 0x60 gives.
  unfoldable pub keyboard_handler : ℕ → Console → Option Console
  keyboard_handler scancode c =
      if ltb scancode 128
      then (do
        key ← get_elem? kbd_tr scancode
        (if key == 0
            then some c
            else if c.in_editor_mode
            then editor_handle_key cli_execute key c
            else shell_key key c))
      else some c
