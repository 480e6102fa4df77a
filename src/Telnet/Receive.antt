-- ===== src/Telnet/Receive.antt =====
-- `telnet_recv` of telnetd.c, byte by byte.
use burst_kernel_virtual_mac.Base.{
  ℕ, codes, ◌+◌, ◌-◌, ◌≡◌, ◌∙◌, ◌⊎◌, refl, ap, Bool, true, false, ◌||◌, Option, none, some, List,
  [], ◌∷◌, ◌++◌, arith, ◌==◌, ltb, set, store_lem, length-set, get_elem?-set_self, if◌then◌else◌,
  inl, inr, Bool-cases, ◌>>=◌,
}
use burst_kernel_virtual_mac.Libc.Strings.{text}
use burst_kernel_virtual_mac.Console.{Console, Line, puts, editor_handle_key}
use burst_kernel_virtual_mac.Console.Complete.{IsLine, cli_autocomplete-Completed}
use burst_kernel_virtual_mac.Console.Invariant.{IsConsole-same}
use burst_kernel_virtual_mac.Cli.Execute.{cli_execute}
use burst_kernel_virtual_mac.Cli.Execute.Returns.{IsExit, text_at, cli_execute-Ran}
use burst_kernel_virtual_mac.Cli.Keys.{closed_line, editor_key-Kept}
use burst_kernel_virtual_mac.Telnet.{
  Telnet, Pbuf, tcp_recved, pbuf_free, called, with_buffer, telnet_puts, telnet_prompt, relay,
  execute_hooked, end_of_line, line_char, telnet_char, telnet_chars, telnet_recv,
}
use burst_kernel_virtual_mac.Telnet.Relay.{telnet_puts-Relayed, relay-Relayed}
use burst_kernel_virtual_mac.Telnet.Valid.{
  IsTelnet, Follows, Follows-trans, still, Relayed-Follows, called-Follows,
}

-- The line that is run is `exit`: the one of the connection, or (ESC in the editor) the one of the keyboard.
abbrev pub ExitLine : Telnet → Type 0
ExitLine t = IsExit (set t.line.buf t.line.idx 0) ⊎ IsExit (closed_line t.console).buf

-- The line is `exit`, and the handler does not return.
abbrev pub Stopped : Telnet → Option Telnet → Type 0
Stopped t o = ExitLine t × (o ≡ none)

abbrev pub Followed : Telnet → Option Telnet → Type 0
Followed t o = (t' : Telnet) × (o ≡ some t') × Follows t t'

with_buffer-Follows : (t : Telnet) (l : Line) → IsTelnet t → IsLine l → Follows t (with_buffer l t)
with_buffer-Follows t l v w =
    still t (with_buffer l t) (record { line = w; console = v.console }) refl refl (refl, refl)

put_back :
    (s : List ℕ) (l : Line) (t : Telnet)
    → IsTelnet t
    → IsLine l
    → Follows t (telnet_puts s (with_buffer l t))
put_back s l t v w =
    let first = with_buffer-Follows t l v w in
    Follows-trans t (with_buffer l t) (telnet_puts s (with_buffer l t)) first (
      Relayed-Follows (puts s ∷ []) (with_buffer l t) (telnet_puts s (with_buffer l t)) first.valid
        (telnet_puts-Relayed s (with_buffer l t)))

execute_hooked-Follows :
    (cmd a : List ℕ) (t : Telnet)
    → IsTelnet t
    → t.console.in_editor_mode ≡ false
    → text cmd ≡ some a
    → Followed t (execute_hooked cmd t) ⊎ (IsExit cmd × (execute_hooked cmd t ≡ none))
unfolding execute_hooked
execute_hooked-Follows cmd a t v off h =
    let c : Console = record t.console { screen = [] } in
    elim (cli_execute-Ran cmd a c
      (IsConsole-same t.console c v.console refl refl refl refl v.console.hops) off h) [
        | inr (x, stop) ↦ inr (x, rw stop refl)
        | inl r ↦
            let t1 : Telnet = record t { console = record r.after { screen = t.console.screen } } in
            let v1 : IsTelnet t1 = record {
              line = v.line;
              console =
                  IsConsole-same r.after t1.console r.console refl refl refl refl r.console.hops;
            } in
            inl (
              relay r.after.screen t1,
              rw (r.returns) refl,
              Follows-trans t t1 (relay r.after.screen t1) (still t t1 v1 refl refl r.net) (
                  Relayed-Follows r.after.screen t1 (relay r.after.screen t1) v1
                    (relay-Relayed r.after.screen t1)),
            )
      ]

followed : (t t' : Telnet) → Follows t t' → Followed t (some t') ⊎ Stopped t (some t')
followed t t' f = inl (t', refl, f)

-- The prompt, unless the editor was opened.
prompted-Follows :
    (mode : Bool) (t : Telnet) → IsTelnet t → Follows t (if mode then t else relay telnet_prompt t)
prompted-Follows true t v = still t t v refl refl (refl, refl)
prompted-Follows false t v =
    Relayed-Follows telnet_prompt t (relay telnet_prompt t) v (relay-Relayed telnet_prompt t)

-- The line that was run is empty again.
emptied-Follows :
    (t t' : Telnet)
    → Follows t t'
    → (let t'' : Telnet = with_buffer (record { buf = t'.line.buf; idx = 0 }) t' in
        Follows t (if t''.console.in_editor_mode then t'' else relay telnet_prompt t''))
emptied-Follows t t' f =
    let empty : Line = record { buf = t'.line.buf; idx = 0 } in
    let e =
      with_buffer-Follows t' empty f.valid
        (record { fits = f.valid.line.fits; room = omega arith }) in
    Follows-trans t t' _ f (
      Follows-trans t' (with_buffer empty t') _ e
        (prompted-Follows (t'.console.in_editor_mode) (with_buffer empty t') e.valid))

end_of_line-Follows :
    (t : Telnet)
    → IsTelnet t
    → t.console.in_editor_mode ≡ false
    → Followed t (end_of_line t) ⊎ Stopped t (end_of_line t)
unfolding end_of_line
end_of_line-Follows t v off =
    let closed : Line = record { buf = set t.line.buf t.line.idx 0; idx = t.line.idx } in
    let (a, h) =
      text_at closed.buf t.line.idx
        (get_elem?-set_self t.line.buf t.line.idx 0 (omega (arith, v.line.fits, v.line.room))) in
    let t1 : Telnet = telnet_puts (codes "\r\n") (with_buffer closed t) in
    let f1 : Follows t t1 =
      put_back (codes "\r\n") closed t v
        (record { fits = length-set t.line.buf t.line.idx 0 ∙ v.line.fits; room = v.line.room }) in
    let same : t1.console.in_editor_mode ≡ false =
      ap (λ c. c.in_editor_mode) (telnet_puts-Relayed (codes "\r\n") (with_buffer closed t)).console
      ∙ off in
    let closes = store_lem t.line.buf t.line.idx 0 (omega (arith, v.line.fits, v.line.room)) in
    elim (Bool-cases (ltb 0 t.line.idx)) [
      | inr empty ↦
          rw empty (followed t _ (emptied-Follows t t (still t t v refl refl (refl, refl))))
      | inl full ↦ elim (execute_hooked-Follows closed.buf a t1 f1.valid same h) [
        | inr (x, stop) ↦ inr (inl x, rw (full, closes, stop) refl)
        | inl (t2, e, f2) ↦
            rw (full, closes, e) (followed t _ (emptied-Follows t t2 (Follows-trans t t1 t2 f1 f2)))
      ]
    ]

line_char-Follows :
    (c : ℕ) (t : Telnet)
    → IsTelnet t
    → t.console.in_editor_mode ≡ false
    → Followed t (line_char c t) ⊎ Stopped t (line_char c t)
unfolding line_char
line_char-Follows c t v off = elim (Bool-cases (c == 13 || c == 10)) [
  | inl enter ↦ rw enter (end_of_line-Follows t v off)
  | inr no_enter ↦ elim (Bool-cases (c == 8 || c == 127)) [
    | inl back ↦ elim (Bool-cases (ltb 0 t.line.idx)) [
      | inl some_left ↦
          rw (no_enter, back, some_left)
            (followed t _ (
              put_back _ (record { buf = t.line.buf; idx = t.line.idx - 1 }) t v
                (record { fits = v.line.fits; room = omega (arith, v.line.room) })))
      | inr at_start ↦
          rw (no_enter, back, at_start) (followed t t (still t t v refl refl (refl, refl)))
    ]
    | inr no_back ↦ elim (Bool-cases (c == 9)) [
      | inl tab ↦
          let d = cli_autocomplete-Completed t.console.files t.line v.console.named v.line in
          let f = with_buffer-Follows t (d.result).0 v d.appended.line in
          rw (no_enter, no_back, tab, d.returns)
            (followed t _ (
              Follows-trans t (with_buffer (d.result).0 t) _ f (
                Relayed-Follows (d.result).1 (with_buffer (d.result).0 t) _ f.valid
                  (relay-Relayed (d.result).1 (with_buffer (d.result).0 t)))))
      | inr no_tab ↦ elim (Bool-cases (ltb t.line.idx 255)) [
        | inl more ↦
            rw
              (
                no_enter,
                no_back,
                no_tab,
                more,
                store_lem t.line.buf t.line.idx c (ground (arith, v.line.fits)),
              )
              (followed t _ (
                put_back (c ∷ [])
                  (record { buf = set t.line.buf t.line.idx c; idx = t.line.idx + 1 }) t v
                  (record {
                    fits = length-set t.line.buf t.line.idx c ∙ v.line.fits;
                    room = ground arith;
                  })))
        | inr at_end ↦
            rw (no_enter, no_back, no_tab, at_end)
              (followed t t (still t t v refl refl (refl, refl)))
      ]
    ]
  ]
]

abbrev by_mode : Bool → ℕ → Telnet → Option Telnet
by_mode mode c t =
    if mode
    then (do c' ← editor_handle_key cli_execute c t.console; some (record t { console = c' }))
    else line_char c t

-- The key of the editor is handled as one of the keyboard.
editor_char-Follows :
    (c : ℕ) (t : Telnet)
    → IsTelnet t
    → t.console.in_editor_mode ≡ true
    → Followed t (by_mode true c t) ⊎ Stopped t (by_mode true c t)
editor_char-Follows c t v on = elim (editor_key-Kept c t.console v.console on) [
  | inr (x, stop) ↦ inr (inr x, rw stop refl)
  | inl (c', e, w, net) ↦
      let t' : Telnet = record t { console = c' } in
      rw e (followed t t' (still t t' (record { line = v.line; console = w }) refl refl net))
]

by_mode-Follows :
    (c : ℕ) (t : Telnet)
    → IsTelnet t
    → (mode : Bool) → t.console.in_editor_mode ≡ mode
    → Followed t (by_mode mode c t) ⊎ Stopped t (by_mode mode c t)
by_mode-Follows c t v true on = editor_char-Follows c t v on
by_mode-Follows c t v false off = line_char-Follows c t v off

telnet_char-Follows :
    (c : ℕ) (t : Telnet) → IsTelnet t → Followed t (telnet_char c t) ⊎ Stopped t (telnet_char c t)
unfolding telnet_char
telnet_char-Follows c t v = by_mode-Follows c t v (t.console.in_editor_mode) refl

-- One of the bytes ends a line that runs `exit`.
pub record Exits (cs : List ℕ) (t : Telnet) : Type 0 where
  pub before : List ℕ
  pub after : List ℕ
  pub whole : cs ≡ before ++ after
  pub there : Telnet
  pub reached : telnet_chars before t ≡ some there
  pub exit_line : ExitLine there
  pub stops : telnet_chars cs t ≡ none

telnet_chars-Follows :
    (cs : List ℕ) (t : Telnet) → IsTelnet t → Followed t (telnet_chars cs t) ⊎ Exits cs t
unfolding telnet_chars
telnet_chars-Follows [] t v = inl (t, refl, still t t v refl refl (refl, refl))
telnet_chars-Follows (c ∷ cs) t v = elim (telnet_char-Follows c t v) [
  | inr (x, stop) ↦ inr (record {
    before = [];
    after = c ∷ cs;
    whole = refl;
    there = t;
    reached = refl;
    exit_line = x;
    stops = rw stop refl;
  })
  | inl (t1, e, f) ↦ elim (telnet_chars-Follows cs t1 f.valid) [
    | inl (t', e', f') ↦ inl (t', rw (e, e') refl, Follows-trans t t1 t' f f')
    | inr x ↦ inr (record {
      before = c ∷ x.before;
      after = x.after;
      whole = ap (λ s. c ∷ s) x.whole;
      there = x.there;
      reached = rw (e, x.reached) refl;
      exit_line = x.exit_line;
      stops = rw (e, x.stops) refl;
    })
  ]
]

-- From a line in its buffer of 256 and a well-formed console, `telnet_recv` returns on every
-- buffer of bytes, with the line and the console well-formed again and the same client; it
-- writes to that client only, and opens or closes no connection. Or, after some of the bytes, a
-- line runs `exit`, and only then is there no result.
pub telnet_recv-Follows :
    (tpcb : ℕ) (p : Pbuf) (t : Telnet)
    → IsTelnet t
    → Followed t (telnet_recv tpcb (some p) t)
      ⊎ (Exits p.payload (called (tcp_recved tpcb p.tot_len ∷ []) t)
          × (telnet_recv tpcb (some p) t ≡ none))
unfolding telnet_recv
telnet_recv-Follows tpcb p t v =
    let acked = called-Follows (tcp_recved tpcb p.tot_len) t v tt refl in
    elim (telnet_chars-Follows p.payload (called (tcp_recved tpcb p.tot_len ∷ []) t) acked.valid) [
      | inr x ↦ inr (x, rw (x.stops) refl)
      | inl (t', e, f) ↦ inl (
        called (pbuf_free ∷ []) t',
        rw e refl,
        Follows-trans t t' (called (pbuf_free ∷ []) t')
            (Follows-trans t (called (tcp_recved tpcb p.tot_len ∷ []) t) t' acked f)
            (called-Follows pbuf_free t' f.valid tt refl),
      )
    ]
