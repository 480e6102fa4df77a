-- ===== src/Telnet/Client.antt =====
-- The connections of telnetd.c: which of them are open, over a row of events of lwIP.
use burst_kernel_virtual_mac.Base.{
  ℕ, codes, ◌≡◌, ◌∙◌, refl, ap, sym, subst, Bool, true, false, ◌||◌, Option, none, some, List, [],
  ◌∷◌, ◌++◌, ◌==◌, if◌then◌else◌, inl, inr, Bool-cases,
}
use mathlib.Core.Option.{some-injective}
use burst_kernel_virtual_mac.Console.{Output, puts, set_color, vga_black, vga_light_magenta}
use burst_kernel_virtual_mac.Telnet.{
  Telnet, Call, Pbuf, tcp_write, tcp_output, tcp_close, tcp_recv, tcp_recved, pbuf_free,
  puts_serial, called, relay, telnet_prompt, telnet_recv, telnet_accept,
}
use burst_kernel_virtual_mac.Telnet.Relay.{relay-Relayed, handshakes}
use burst_kernel_virtual_mac.Telnet.Receive.{telnet_recv-Follows}
use burst_kernel_virtual_mac.Telnet.Valid.{IsTelnet, Follows, Relayed-Follows}

unfoldable pub without : ℕ → List ℕ → List ℕ
without p [] = []
without p (q ∷ qs) = let rest = without p qs in if p == q then rest else q ∷ rest

-- The connections that are open after the calls, of those that were open before.
unfoldable pub connections : List ℕ → List Call → List ℕ
connections ps [] = ps
connections ps (tcp_recv p ∷ cs) = connections (p ∷ ps) cs
connections ps (tcp_close p ∷ cs) = connections (without p ps) cs
connections ps (tcp_write pcb bytes ∷ cs) = connections ps cs
connections ps (tcp_output pcb ∷ cs) = connections ps cs
connections ps (tcp_recved pcb n ∷ cs) = connections ps cs
connections ps (pbuf_free ∷ cs) = connections ps cs
connections ps (puts_serial s ∷ cs) = connections ps cs

abbrev pub is_one_of : ℕ → List ℕ → Bool
is_one_of p [] = false
is_one_of p (q ∷ qs) = p == q || is_one_of p qs

abbrev pub open_now : Telnet → List ℕ
open_now t = connections [] t.calls

-- What lwIP does: it calls back with the data and the end of a connection that is open, and a new connection
-- is none that is open. The handler returns.
pub data Step : Telnet → Telnet → Type 0 where
  accepted :
      (t : Telnet) (newpcb : ℕ)
      → is_one_of newpcb (open_now t) ≡ false
      → Step t (telnet_accept newpcb t)
  received :
      (t t' : Telnet) (tpcb : ℕ) (p : Option Pbuf)
      → is_one_of tpcb (open_now t) ≡ true
      → telnet_recv tpcb p t ≡ some t'
      → Step t t'

pub data Reach (s : Telnet) : Telnet → Type 0 where
  here : Reach s s
  next : {t u : Telnet} → Reach s t → Step t u → Reach s u

abbrev client_list : Option ℕ → List ℕ
client_list none = []
client_list (some p) = p ∷ []

-- The connection of the client is open, and no other.
pub record IsServed (t : Telnet) : Type 0 where
  pub valid : IsTelnet t
  pub only : open_now t ≡ client_list t.active_client_pcb

connections-append :
    (ps : List ℕ) (cs ds : List Call)
    → connections ps (cs ++ ds) ≡ connections (connections ps cs) ds
unfolding connections
connections-append ps [] ds = refl
connections-append ps (tcp_recv p ∷ cs) ds = connections-append (p ∷ ps) cs ds
connections-append ps (tcp_close p ∷ cs) ds = connections-append (without p ps) cs ds
connections-append ps (tcp_write pcb bytes ∷ cs) ds = connections-append ps cs ds
connections-append ps (tcp_output pcb ∷ cs) ds = connections-append ps cs ds
connections-append ps (tcp_recved pcb n ∷ cs) ds = connections-append ps cs ds
connections-append ps (pbuf_free ∷ cs) ds = connections-append ps cs ds
connections-append ps (puts_serial s ∷ cs) ds = connections-append ps cs ds

connections-quiet : (ps : List ℕ) (cs : List Call) → handshakes cs ≡ [] → connections ps cs ≡ ps
unfolding connections
connections-quiet ps [] h = refl
connections-quiet ps (tcp_recv p ∷ cs) h = cc
connections-quiet ps (tcp_close p ∷ cs) h = cc
connections-quiet ps (tcp_write pcb bytes ∷ cs) h = connections-quiet ps cs h
connections-quiet ps (tcp_output pcb ∷ cs) h = connections-quiet ps cs h
connections-quiet ps (tcp_recved pcb n ∷ cs) h = connections-quiet ps cs h
connections-quiet ps (pbuf_free ∷ cs) h = connections-quiet ps cs h
connections-quiet ps (puts_serial s ∷ cs) h = connections-quiet ps cs h

-- A step with the same client opens and closes nothing.
Follows-IsServed : (t t' : Telnet) → IsServed t → Follows t t' → IsServed t'
Follows-IsServed t t' s f = record {
  valid = f.valid;
  only =
      ap (connections []) f.calls
      ∙ connections-append [] t.calls f.new
      ∙ connections-quiet (open_now t) f.new f.quiet
      ∙ s.only
      ∙ ap client_list (sym f.client);
}

abbrev pub start : ℕ → Telnet → Telnet
start newpcb t =
    called (tcp_recv newpcb ∷ [])
      (record (called (puts_serial (codes "Telnet client connected!\n") ∷ []) t) {
        active_client_pcb = some newpcb;
      })

start-IsServed :
    (newpcb : ℕ) (t : Telnet) → IsServed t → t.active_client_pcb ≡ none → IsServed (start newpcb t)
unfolding connections
start-IsServed newpcb t s e = record {
  valid = record { line = s.valid.line; console = s.valid.console };
  only =
      connections-append [] (t.calls ++ puts_serial (codes "Telnet client connected!\n") ∷ [])
        (tcp_recv newpcb ∷ [])
      ∙ ap (λ ps. newpcb ∷ ps)
          (connections-append [] t.calls (puts_serial (codes "Telnet client connected!\n") ∷ [])
            ∙ s.only
            ∙ ap client_list e);
}

abbrev pub refused : ℕ → Telnet → Telnet
refused newpcb t =
    called (tcp_close newpcb ∷ [])
      (called (puts_serial (codes "Telnet client connected!\n") ∷ []) t)

without-other : (p : ℕ) (ps : List ℕ) → is_one_of p ps ≡ false → without p ps ≡ ps
unfolding without
without-other p [] h = refl
without-other p (q ∷ qs) h = elim (Bool-cases (p == q)) [
  | inl same ↦ (let fault : true ≡ false = rw same at h in cc)
  | inr differ ↦ rw differ (ap (λ x. q ∷ x) (without-other p qs (rw differ at h)))
]

refused-IsServed :
    (newpcb : ℕ) (t : Telnet)
    → IsServed t
    → is_one_of newpcb (open_now t) ≡ false
    → IsServed (refused newpcb t)
unfolding connections
refused-IsServed newpcb t s fresh = record {
  valid = record { line = s.valid.line; console = s.valid.console };
  only =
      connections-append [] (t.calls ++ puts_serial (codes "Telnet client connected!\n") ∷ [])
        (tcp_close newpcb ∷ [])
      ∙ ap (without newpcb)
          (connections-append [] t.calls (puts_serial (codes "Telnet client connected!\n") ∷ []))
      ∙ without-other newpcb (open_now t) fresh
      ∙ s.only;
}

abbrev pub welcome : List Output
welcome =
    set_color vga_light_magenta vga_black
    ∷ puts (codes "Welcome to NKernel Router!\r\n")
    ∷ telnet_prompt

telnet_accept-IsServed :
    (newpcb : ℕ) (t : Telnet)
    → IsServed t
    → is_one_of newpcb (open_now t) ≡ false
    → IsServed (telnet_accept newpcb t)
unfolding telnet_accept
telnet_accept-IsServed newpcb t s fresh = go t.active_client_pcb refl
  where
    go :
        (client : Option ℕ)
        → t.active_client_pcb ≡ client
        → IsServed
            (elim client [ some _ ↦ refused newpcb t | none ↦ relay welcome (start newpcb t) ])
    go (some p) busy = refused-IsServed newpcb t s fresh
    go none idle =
        let ready = start-IsServed newpcb t s idle in
        Follows-IsServed (start newpcb t) (relay welcome (start newpcb t)) ready (
          Relayed-Follows welcome (start newpcb t) (relay welcome (start newpcb t)) ready.valid
            (relay-Relayed welcome (start newpcb t)))

-- The client that is open is the one that the event is about.
only_client :
    (client : Option ℕ) (p : ℕ)
    → is_one_of p (client_list client) ≡ true
    → without p (client_list client) ≡ []
unfolding without
only_client none p h = refl
only_client (some q) p h = elim (Bool-cases (p == q)) [
  | inl same ↦ rw same refl
  | inr differ ↦ (let fault : false ≡ true = rw differ at h in cc)
]

closed-IsServed :
    (tpcb : ℕ) (t t' : Telnet)
    → IsServed t
    → is_one_of tpcb (open_now t) ≡ true
    → telnet_recv tpcb none t ≡ some t'
    → IsServed t'
unfolding telnet_recv connections
closed-IsServed tpcb t t' s mine e = subst IsServed (some-injective _ _ e) (record {
  valid = record { line = s.valid.line; console = s.valid.console };
  only =
      connections-append [] t.calls
        (tcp_close tpcb ∷ puts_serial (codes "Telnet client disconnected.\n") ∷ [])
      ∙ ap (without tpcb) s.only
      ∙ only_client t.active_client_pcb tpcb (subst (λ ps. is_one_of tpcb ps ≡ true) s.only mine);
})

pub Step-IsServed : {t u : Telnet} → Step t u → IsServed t → IsServed u
Step-IsServed (accepted t newpcb fresh) s = telnet_accept-IsServed newpcb t s fresh
Step-IsServed (received t t' tpcb none mine e) s = closed-IsServed tpcb t t' s mine e
Step-IsServed (received t t' tpcb (some p) mine e) s = elim (telnet_recv-Follows tpcb p t s.valid) [
  | inl (u, f, r) ↦ Follows-IsServed t t' s (subst (Follows t) (some-injective _ _ (sym f ∙ e)) r)
  | inr (x, stop) ↦ (let fault : none ≡ some t' = sym stop ∙ e in cc)
]

-- From a state in which the connection of the client is open and no other, any row of new
-- connections, data and ends of open connections for which the handlers return leads to such a
-- state again: there is never more than one open connection, and it is that of
-- `active_client_pcb`.
pub Reach-IsServed : {t u : Telnet} → IsServed t → Reach t u → IsServed u
Reach-IsServed s here = s
Reach-IsServed s (next r st) = Step-IsServed st (Reach-IsServed s r)
