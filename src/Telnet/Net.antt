-- ===== src/Telnet/Net.antt =====
-- The events of the server of telnetd.c and the router: a command may change the routes, and nothing else
-- of the router.
use burst_kernel_virtual_mac.Base.{ℕ, ◌≡◌, ◌∙◌, refl, ap, sym, subst, Option, none, some, inl, inr}
use mathlib.Core.Option.{some-injective}
use burst_kernel_virtual_mac.Console.Invariant.{SameNet}
use burst_kernel_virtual_mac.Telnet.{Telnet, telnet_recv, telnet_accept, relay}
use burst_kernel_virtual_mac.Telnet.Relay.{relay-Relayed}
use burst_kernel_virtual_mac.Telnet.Receive.{telnet_recv-Follows}
use burst_kernel_virtual_mac.Telnet.Valid.{IsTelnet}
use burst_kernel_virtual_mac.Telnet.Client.{Step, accepted, received, start, welcome, refused}

telnet_accept-SameNet :
    (newpcb : ℕ) (t : Telnet) → SameNet t.console (telnet_accept newpcb t).console
unfolding telnet_accept
telnet_accept-SameNet newpcb t = go t.active_client_pcb
  where
    go :
        (client : Option ℕ)
        → (let u : Telnet = elim client [
          | some _ ↦ refused newpcb t
          | none ↦ relay welcome (start newpcb t)
        ] in
            SameNet t.console u.console)
    go (some p) = (refl, refl)
    go none =
        let r = relay-Relayed welcome (start newpcb t) in
        (ap (λ c. c.router.nat) r.console, ap (λ c. c.router.macs) r.console)

pub Step-SameNet : {t u : Telnet} → Step t u → IsTelnet t → SameNet t.console u.console
unfolding telnet_recv
Step-SameNet (accepted t newpcb fresh) v = telnet_accept-SameNet newpcb t
Step-SameNet (received t t' tpcb none mine e) v =
    subst (λ u. SameNet t.console u.console) (some-injective _ _ e) (refl, refl)
Step-SameNet (received t t' tpcb (some p) mine e) v = elim (telnet_recv-Follows tpcb p t v) [
  | inl (u, f, r) ↦ subst (λ x. SameNet t.console x.console) (some-injective _ _ (sym f ∙ e)) r.net
  | inr (x, stop) ↦ (let fault : none ≡ some t' = sym stop ∙ e in cc)
]
