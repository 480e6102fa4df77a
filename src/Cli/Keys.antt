-- ===== src/Cli/Keys.antt =====
-- The keyboard handler of keyboard.c together with `cli_execute` of cli.c: one key, and a row of keys.
use burst_kernel_virtual_mac.Base.{
  ℕ, codes, ◌+◌, ◌-◌, ◌≡◌, ◌∙◌, ◌⊎◌, refl, ap, subst, Bool, true, false, Option, none, some, List,
  [], ◌∷◌, ◌++◌, arith, ◌==◌, ltb, set, store, store_lem, length-set, get_elem?-set_self,
  get_elem?_of_lt, if◌then◌else◌, inl, inr, Bool-cases, ◌>>=◌,
}
use mathlib.Core.Bool.{false≢true}
use burst_kernel_virtual_mac.Libc.Strings.{text}
use burst_kernel_virtual_mac.Console.{
  Console, Line, Output, puts, clear_screen, set_color, vga_black, vga_light_green, kbd_tr, show,
  with_line, with_mode, prompt, shell_buf_size, shell_execute, shell_key, editor_handle_key,
  keyboard_handler,
}
use burst_kernel_virtual_mac.Console.Complete.{IsLine, cli_autocomplete-Completed}
use burst_kernel_virtual_mac.Console.Invariant.{IsConsole, SameNet, editor_handle_key-IsConsole}
use burst_kernel_virtual_mac.Cli.Execute.{cli_execute}
use burst_kernel_virtual_mac.Cli.Execute.Returns.{IsExit, Stops, text_at, cli_execute-Ran}

-- The line as ENTER hands it over.
abbrev pub closed_line : Console → Line
closed_line c = record { buf = set c.line.buf c.line.idx 0; idx = c.line.idx }

-- The handler returns, and the console is well-formed; or the line that it runs is `exit`.
abbrev pub Kept : Console → Option Console → Type 0
Kept c o =
    ((c' : Console) × (o ≡ some c') × IsConsole c' × SameNet c c') ⊎ Stops (closed_line c).buf o

closed-IsLine : (c : Console) → IsLine c.line → IsLine (closed_line c)
closed-IsLine c v = record { fits = length-set c.line.buf c.line.idx 0 ∙ v.fits; room = v.room }

with_line-IsConsole :
    (c : Console) (l : Line) (os : List Output)
    → IsConsole c
    → IsLine l
    → IsConsole (show os (with_line l c))
with_line-IsConsole c l os v w = record {
  line = w;
  named = v.named;
  stored = v.stored;
  editing = v.editing;
  hops = v.hops;
}

shell_execute-Kept :
    (c : Console) → IsConsole c → c.in_editor_mode ≡ false → Kept c (shell_execute cli_execute c)
unfolding shell_execute
shell_execute-Kept c v off = elim (Bool-cases (ltb 0 c.line.idx)) [
  | inr empty ↦ inl (finished c1, rw (closes, empty) refl, finished-IsConsole c1 v1, (refl, refl))
  | inl full ↦ elim (cli_execute-Ran (closed_line c).buf (closed_text).0 c1 v1 off closed_text.1) [
    | inl r ↦ inl (
      finished r.after,
      rw (closes, full, r.returns) refl,
      finished-IsConsole r.after r.console,
      r.net,
    )
    | inr (x, stop) ↦ inr (x, rw (closes, full, stop) refl)
  ]
]
  where
    closes : store c.line.buf c.line.idx 0 ≡ some (closed_line c).buf
    closes = store_lem c.line.buf c.line.idx 0 (omega (arith, v.line.fits, v.line.room))

    c1 : Console
    c1 = show (puts (codes "\n") ∷ []) (with_line (closed_line c) c)

    v1 : IsConsole c1
    v1 = with_line-IsConsole c (closed_line c) (puts (codes "\n") ∷ []) v (closed-IsLine c v.line)

    closed_text : (a : List ℕ) × (text (closed_line c).buf ≡ some a)
    closed_text =
        text_at (closed_line c).buf c.line.idx
          (get_elem?-set_self c.line.buf c.line.idx 0 (omega (arith, v.line.fits, v.line.room)))

    finished : Console → Console
    finished c' = show prompt (with_line (record { buf = c'.line.buf; idx = 0 }) c')

    finished-IsConsole : (c' : Console) → IsConsole c' → IsConsole (finished c')
    finished-IsConsole c' w =
        with_line-IsConsole c' (record { buf = c'.line.buf; idx = 0 }) prompt w
          (record { fits = w.line.fits; room = omega arith })

kept : (c c' : Console) (o : Option Console) → o ≡ some c' → IsConsole c' → SameNet c c' → Kept c o
kept c c' o e v n = inl (c', e, v, n)

shell_key-Kept :
    (key : ℕ) (c : Console)
    → IsConsole c
    → c.in_editor_mode ≡ false
    → Kept c (shell_key cli_execute key c)
unfolding shell_key
shell_key-Kept key c v off = elim (Bool-cases (key == 10)) [
  | inl enter ↦ rw enter (shell_execute-Kept c v off)
  | inr no_enter ↦ elim (Bool-cases (key == 8)) [
    | inl back ↦ elim (Bool-cases (ltb 0 c.line.idx)) [
      | inl some_left ↦
          rw (no_enter, back, some_left)
            (kept c _ _ refl
              (with_line-IsConsole c (record { buf = c.line.buf; idx = c.line.idx - 1 }) _ v
                (record { fits = v.line.fits; room = omega (arith, v.line.room) }))
              (refl, refl))
      | inr at_start ↦ rw (no_enter, back, at_start) (kept c c _ refl v (refl, refl))
    ]
    | inr no_back ↦ elim (Bool-cases (key == 9)) [
      | inl tab ↦
          let d = cli_autocomplete-Completed c.files c.line v.named v.line in
          rw (no_enter, no_back, tab, d.returns)
            (kept c _ _ refl (with_line-IsConsole c (d.result).0 (d.result).1 v d.appended.line)
              (refl, refl))
      | inr no_tab ↦ elim (Bool-cases (ltb c.line.idx (shell_buf_size - 1))) [
        | inl more ↦
            rw
              (
                no_enter,
                no_back,
                no_tab,
                more,
                store_lem c.line.buf c.line.idx key (ground (arith, v.line.fits)),
              )
              (kept c _ _ refl
                (with_line-IsConsole c
                  (record { buf = set c.line.buf c.line.idx key; idx = c.line.idx + 1 }) _ v
                  (record {
                    fits = length-set c.line.buf c.line.idx key ∙ v.line.fits;
                    room = ground arith;
                  }))
                (refl, refl))
        | inr at_end ↦ rw (no_enter, no_back, no_tab, at_end) (kept c c _ refl v (refl, refl))
      ]
    ]
  ]
]

-- ESC: the file is closed, and the line of the shell is run.
pub escape-Kept : (c : Console) → IsConsole c → Kept c (editor_handle_key cli_execute 27 c)
unfolding editor_handle_key
escape-Kept c v =
    shell_execute-Kept
      (show (clear_screen ∷ set_color vga_light_green vga_black ∷ puts (codes "File saved.\n") ∷ [])
        (with_mode false c))
      (record {
        line = v.line;
        named = v.named;
        stored = v.stored;
        editing = λ on. absurd (false≢true on);
        hops = v.hops;
      })
      refl

pub editor_key-Kept :
    (key : ℕ) (c : Console)
    → IsConsole c
    → c.in_editor_mode ≡ true
    → Kept c (editor_handle_key cli_execute key c)
editor_key-Kept key c v on = elim (Bool-cases (key == 27)) [
  | inl esc ↦
      let e : 27 ≡ key = ground arith in
      subst (λ k. Kept c (editor_handle_key cli_execute k c)) e (escape-Kept c v)
  | inr other ↦ inl (editor_handle_key-IsConsole cli_execute key c (ground arith) v on)
]

by_mode-Kept :
    (key : ℕ) (c : Console)
    → IsConsole c
    → (mode : Bool) → c.in_editor_mode ≡ mode
    → Kept c (if mode then editor_handle_key cli_execute key c else shell_key cli_execute key c)
by_mode-Kept key c v true on = editor_key-Kept key c v on
by_mode-Kept key c v false off = shell_key-Kept key c v off

pub keyboard_handler-Kept :
    (scancode : ℕ) (c : Console) → IsConsole c → Kept c (keyboard_handler cli_execute scancode c)
unfolding keyboard_handler
keyboard_handler-Kept scancode c v = elim (Bool-cases (ltb scancode 128)) [
  | inr up ↦ rw up (kept c c _ refl v (refl, refl))
  | inl down ↦
      let (key, e) = get_elem?_of_lt kbd_tr scancode (ground arith) in
      elim (Bool-cases (key == 0)) [
        | inl none_there ↦ rw (down, e, none_there) (kept c c _ refl v (refl, refl))
        | inr char ↦ rw (down, e, char) (by_mode-Kept key c v (c.in_editor_mode) refl)
      ]
]

-- The scancodes of a row of interrupts.
unfoldable pub handle_keys : List ℕ → Console → Option Console
handle_keys [] c = some c
handle_keys (k ∷ ks) c = do c' ← keyboard_handler cli_execute k c; handle_keys ks c'

-- One of the keys is ENTER (or ESC) behind a line that runs `exit`.
pub record Exits (ks : List ℕ) (c : Console) : Type 0 where
  pub before : List ℕ
  pub after : List ℕ
  pub whole : ks ≡ before ++ after
  pub there : Console
  pub reached : handle_keys before c ≡ some there
  pub exit_line : IsExit (closed_line there).buf
  pub stops : handle_keys ks c ≡ none

-- From a well-formed console (a shell line in its buffer, terminated names, files in their
-- arrays, and an editor whose file is in use), any row of scancodes is handled without an
-- access out of bounds and leaves a well-formed console; or, after some of them, the shell line
-- runs `exit`, and only then is there no result.
pub handle_keys-IsConsole :
    (ks : List ℕ) (c : Console)
    → IsConsole c
    → ((c' : Console) × (handle_keys ks c ≡ some c') × IsConsole c') ⊎ Exits ks c
unfolding handle_keys
handle_keys-IsConsole [] c v = inl (c, refl, v)
handle_keys-IsConsole (k ∷ ks) c v = elim (keyboard_handler-Kept k c v) [
  | inr (x, stop) ↦ inr (record {
    before = [];
    after = k ∷ ks;
    whole = refl;
    there = c;
    reached = refl;
    exit_line = x;
    stops = rw stop refl;
  })
  | inl (c1, e, v1, net) ↦ elim (handle_keys-IsConsole ks c1 v1) [
    | inl (c', f, v') ↦ inl (c', rw (e, f) refl, v')
    | inr x ↦ inr (record {
      before = k ∷ x.before;
      after = x.after;
      whole = ap (λ t. k ∷ t) x.whole;
      there = x.there;
      reached = rw (e, x.reached) refl;
      exit_line = x.exit_line;
      stops = rw (e, x.stops) refl;
    })
  ]
]
