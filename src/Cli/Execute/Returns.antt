-- ===== src/Cli/Execute/Returns.antt =====
-- `cli_execute` of cli.c on a terminated line: what a command leaves.
use burst_kernel_virtual_mac.Base.{
  ℕ, codes, zero, suc, ◌-◌, ◌≡◌, ◌∙◌, ◌⊎◌, refl, ap, subst, Bool, true, false, Option, none, some,
  List, [], ◌∷◌, ◌++◌, arith, ◌==◌, length, length-append, get_elem?, get_elem?_of_lt, take, drop,
  ltb, if◌then◌else◌, inl, inr, Bool-cases, ◌>>=◌,
}
use mathlib.Core.Option
use mathlib.Core.Option.{some-injective}
use burst_kernel_virtual_mac.Base.Int.{pos}
use burst_kernel_virtual_mac.Libc.{strlen}
use burst_kernel_virtual_mac.Libc.Strings.{text, strlen-text, strcmp-zero_iff}
use burst_kernel_virtual_mac.Vfs.{VfsFile, vfs_open, is_zero}
use burst_kernel_virtual_mac.Vfs.Open.{is_zero-eq, Found, vfs_open-Found}
use burst_kernel_virtual_mac.Console.{
  Console, Output, show, puts, set_color, vga_black, vga_light_red, vga_white, starts_with,
}
use burst_kernel_virtual_mac.Console.Complete.{strncmp-returns_left, text-append}
use burst_kernel_virtual_mac.Console.Invariant.{
  IsConsole, IsConsole-same, SameNet, IsStored, AllStored-get, editor_start-IsConsole,
}
use burst_kernel_virtual_mac.Cli.Screens.{coloured}
use burst_kernel_virtual_mac.Route.Laws.{AllMacs}
use burst_kernel_virtual_mac.Cli.Config.RoundTrip.{load_config-IsLoaded}
use burst_kernel_virtual_mac.Cli.Config.{load_config, save_config}
use burst_kernel_virtual_mac.Cli.Execute.{
  Command, help_command, info_command, ifconfig_command, route_command, save_command, load_command,
  ls_command, exit_command, clear_command, ntop_command, nat_command, cat_command, edit_command,
  command_words, find_command, puts_array, cat_file, no_such_file, cat_named, cat_running,
  cat_startup, is_text, cat, run_command, unknown_command, execute_line, cli_execute, reset_color,
}
use burst_kernel_virtual_mac.Cli.Execute.Words.{
  find_command-returns, IsWordOf, command_words-AllWords, find_command-word, NonZero, text-drop,
}

-- What a command leaves: a console, and the shell line.
pub record Ran (c : Console) (o : Option Console) : Type 0 where
  pub after : Console
  pub returns : o ≡ some after
  pub console : IsConsole after
  pub line : after.line ≡ c.line
  pub net : SameNet c after

-- A command that leaves the files and the editor alone.
ran :
    (c c' : Console)
    → IsConsole c
    → c'.line ≡ c.line
    → c'.files ≡ c.files
    → c'.current_file ≡ c.current_file
    → c'.in_editor_mode ≡ c.in_editor_mode
    → AllMacs c'.router.routes.table
    → SameNet c c'
    → Ran c (some c')
ran c c' v line files current mode hops net = record {
  after = c';
  returns = refl;
  console = IsConsole-same c c' v line files current mode hops;
  line = line;
  net = net;
}

shown : (c : Console) (os : List Output) → IsConsole c → Ran c (some (show os c))
shown c os v = ran c (show os c) v refl refl refl refl v.hops (refl, refl)

-- A NUL in an array ends a text.
pub text_at : (s : List ℕ) (i : ℕ) → get_elem? s i ≡ some 0 → (a : List ℕ) × (text s ≡ some a)
unfolding text
text_at [] i h = cc
text_at (c ∷ s) zero h = ([], ground arith)
text_at (c ∷ s) (suc i) h = elim (Bool-cases (c == 0)) [
  | inl z ↦ ([], rw z refl)
  | inr n ↦ let (a, e) = text_at s i h in (c ∷ a, rw (n, e) refl)
]

puts_array-returns : (s a : List ℕ) → text s ≡ some a → (o : Output) × (puts_array s ≡ some o)
unfolding puts_array
puts_array-returns s a h =
    let n : strlen s ≡ some (length a) = strlen-text s ∙ ap (Option.map length) h in
    (puts (take (length a) s), rw n refl)

cat_file-returns :
    (f : VfsFile) → IsStored f → f.is_used ≡ true → (out : List Output) × (cat_file f ≡ some out)
unfolding cat_file
cat_file-returns f v used =
    let (a, h) = text_at f.contents f.size (v.terminated used) in
    let (o, e) = puts_array-returns f.contents a h in
    elim (Bool-cases (ltb 0 f.size)) [
      | inl full ↦
          let (last, l) = get_elem?_of_lt f.contents (f.size - 1) (omega (arith, v.fits, v.room)) in
          (
            set_color vga_white vga_black ∷ o ∷ (if last == 10 then [] else puts (codes "\n") ∷ []),
            rw (e, full, l) refl,
          )
      | inr empty ↦ (set_color vga_white vga_black ∷ o ∷ [], rw (e, empty) refl)
    ]

cat_named-Ran :
    (arg b : List ℕ) (c : Console) → IsConsole c → text arg ≡ some b → Ran c (cat_named arg c)
unfolding cat_named no_such_file
cat_named-Ran arg b c v h =
    let (o, e, found) = vfs_open-Found c.files arg b v.named h in go o e found
  where
    go :
        (o : Option ℕ) → vfs_open c.files arg ≡ some o → Found b c.files o → Ran c (cat_named arg c)
    go none e found =
        let (name, n) = puts_array-returns arg b h in
        rw (e, n, cat_named, no_such_file)
          (shown c
            (coloured vga_light_red (codes "cat: ")
              ++ name ∷ puts (codes ": No such file or directory\n") ∷ [])
            v)
    go (some i) e ((f, at_i, has), earlier) =
        let (out, p) = cat_file-returns f (AllStored-get c.files i f v.stored at_i) has.used in
        rw (e, at_i, p, cat_named) (shown c out v)

is_text-returns : (s a t : List ℕ) → text s ≡ some a → (b : Bool) × (is_text s t ≡ some b)
is_text-returns s a t h =
    let (b, k) = text-append t in
    let (r, e, iff) = strcmp-zero_iff s (t ++ 0 ∷ []) a b h k in (is_zero r, rw e refl)

cat-Ran : (arg b : List ℕ) (c : Console) → IsConsole c → text arg ≡ some b → Ran c (cat arg c)
unfolding cat cat_running cat_startup
cat-Ran arg b c v h =
    let (running, e) = is_text-returns arg b (codes "running-config") h in
    let (startup, f) = is_text-returns arg b (codes "startup-config") h in go running e startup f
  where
    go :
        (running : Bool)
        → is_text arg (codes "running-config") ≡ some running
        → (startup : Bool) → is_text arg (codes "startup-config") ≡ some startup
        → Ran c (cat arg c)
    go true e startup f =
        rw (e, cat) (ran c (cat_running c) v refl refl refl refl v.hops (refl, refl))
    go false e true f =
        rw (e, f, cat) (ran c (cat_startup c) v refl refl refl refl v.hops (refl, refl))
    go false e false f = rw (e, f, cat) (cat_named-Ran arg b c v h)

-- What stands behind the word of a command.
argument-text :
    (cmd word a : List ℕ)
    → NonZero word
    → text cmd ≡ some a
    → starts_with cmd word (length word) ≡ some true
    → (b : List ℕ) × (text (drop (length word) cmd) ≡ some b)
argument-text cmd word a nz h e =
    let (r, f) =
      strncmp-returns_left cmd (word ++ 0 ∷ []) a (length word) h
        (omega (arith, length-append word (0 ∷ []))) in
    let zero_r : r ≡ pos 0 = is_zero-eq r (some-injective _ _ (rw f at e)) in
    text-drop cmd word a nz h (f ∙ ap some zero_r)

run_command-Ran :
    (k : Command) (cmd word a : List ℕ) (c : Console)
    → IsConsole c
    → c.in_editor_mode ≡ false
    → text cmd ≡ some a
    → IsWordOf k word
    → starts_with cmd word (length word) ≡ some true
    → Ran c (run_command k cmd c) ⊎ (k ≡ exit_command)
unfolding run_command load_config save_config
run_command-Ran help_command cmd word a c v off h w e = inl (shown c _ v)
run_command-Ran info_command cmd word a c v off h w e = inl (shown c _ v)
run_command-Ran ifconfig_command cmd word a c v off h w e = inl (shown c _ v)
run_command-Ran route_command cmd word a c v off h w e = inl (shown c _ v)
run_command-Ran save_command cmd word a c v off h w e =
    inl (ran c _ v refl refl refl refl v.hops (refl, refl))
run_command-Ran load_command cmd word a c v off h w e =
    inl (ran c _ v refl refl refl refl (load_config-IsLoaded c).macs (refl, refl))
run_command-Ran ls_command cmd word a c v off h w e = inl (shown c _ v)
run_command-Ran exit_command cmd word a c v off h w e = inr refl
run_command-Ran clear_command cmd word a c v off h w e = inl (shown c _ v)
run_command-Ran ntop_command cmd word a c v off h w e = inl (shown c _ v)
run_command-Ran nat_command cmd word a c v off h w e = inl (shown c _ v)
run_command-Ran cat_command cmd word a c v off h w e =
    let (b, t) =
      argument-text cmd (codes "cat ") a (cc, (cc, (cc, (cc, tt)))) h
        (subst (λ x. starts_with cmd x (length x) ≡ some true) w e) in
    inl (cat-Ran (drop 4 cmd) b c v t)
run_command-Ran edit_command cmd word a c v off h w e =
    let (b, t) =
      argument-text cmd (codes "edit ") a (cc, (cc, (cc, (cc, (cc, tt))))) h
        (subst (λ x. starts_with cmd x (length x) ≡ some true) w e) in
    let (c', r, v', l, net) = editor_start-IsConsole (drop 5 cmd) b c v off t in
    inl (record { after = c'; returns = r; console = v'; line = l; net = net })

shown_after :
    (c : Console) (o : Option Console) (os : List Output)
    → Ran c o
    → Ran c (do c' ← o; some (show os c'))
shown_after c o os r = record {
  after = show os r.after;
  returns = rw (r.returns) refl;
  console = IsConsole-same r.after (show os r.after) r.console refl refl refl refl r.console.hops;
  line = r.line;
  net = r.net;
}

unknown_command-Ran :
    (cmd a : List ℕ) (c : Console) → IsConsole c → text cmd ≡ some a → Ran c (unknown_command cmd c)
unfolding unknown_command
unknown_command-Ran cmd a c v h =
    let (line, e) = puts_array-returns cmd a h in
    rw e (
      shown c (coloured vga_light_red (codes "Unknown command: ") ++ line ∷ puts (codes "\n") ∷ [])
        v)

-- The line runs `exit`, which stops the machine.
abbrev pub IsExit : List ℕ → Type 0
IsExit cmd = find_command command_words cmd ≡ some (some exit_command)

-- It is `exit`, and the call does not return.
abbrev pub Stops : List ℕ → Option Console → Type 0
Stops cmd o = IsExit cmd × (o ≡ none)

execute_line-Ran :
    (cmd a : List ℕ) (c : Console)
    → IsConsole c
    → c.in_editor_mode ≡ false
    → text cmd ≡ some a
    → Ran c (execute_line cmd c) ⊎ Stops cmd (execute_line cmd c)
unfolding execute_line run_command
execute_line-Ran cmd a c v off h = let (o, e) = find_command-returns command_words cmd a h in go o e
  where
    go :
        (o : Option Command)
        → find_command command_words cmd ≡ some o
        → Ran c (execute_line cmd c) ⊎ Stops cmd (execute_line cmd c)
    go none e = inl (
        rw (e, execute_line) (shown_after c _ (reset_color ∷ []) (unknown_command-Ran cmd a c v h)))
    go (some k) e =
        let (word, w, s) = find_command-word command_words cmd k command_words-AllWords e in
        elim (run_command-Ran k cmd word a c v off h w s) [
          | inl r ↦ inl (rw (e, execute_line) (shown_after c _ (reset_color ∷ []) r))
          | inr x ↦
              let exits : IsExit cmd = e ∙ ap (λ j. some (some j)) x in
              inr (exits, rw (exits, execute_line) refl)
        ]

pub cli_execute-Ran :
    (cmd a : List ℕ) (c : Console)
    → IsConsole c
    → c.in_editor_mode ≡ false
    → text cmd ≡ some a
    → Ran c (cli_execute cmd c) ⊎ Stops cmd (cli_execute cmd c)
unfolding cli_execute
cli_execute-Ran cmd a c v off h = let (empty, e) = is_text-returns cmd a [] h in go empty e
  where
    go :
        (empty : Bool)
        → is_text cmd [] ≡ some empty
        → Ran c (cli_execute cmd c) ⊎ Stops cmd (cli_execute cmd c)
    go true e = inl (rw (e, cli_execute) (ran c c v refl refl refl refl v.hops (refl, refl)))
    go false e = elim (execute_line-Ran cmd a c v off h) [
      | inl r ↦ inl (rw (e, cli_execute) r)
      | inr (x, stop) ↦ inr (x, rw (e, stop, cli_execute) refl)
    ]
