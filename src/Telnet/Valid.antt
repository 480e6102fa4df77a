-- ===== src/Telnet/Valid.antt =====
-- The state of the server of telnetd.c between two bytes, and what calls and output make of it.
use burst_kernel_virtual_mac.Base.{
  ◌≡◌, ◌∙◌, refl, ap, sym, subst, List, [], ◌∷◌, ◌++◌, append_assoc, append_nil,
}
use burst_kernel_virtual_mac.Console.{Output, show}
use burst_kernel_virtual_mac.Console.Complete.{IsLine}
use burst_kernel_virtual_mac.Console.Invariant.{IsConsole, IsConsole-same, SameNet, SameNet-trans}
use burst_kernel_virtual_mac.Telnet.{Telnet, Call, called}
use burst_kernel_virtual_mac.Telnet.Relay.{
  Relayed, ToClient, ToClient-append, handshakes, handshakes-append,
}

pub record IsTelnet (t : Telnet) : Type 0 where
  pub line : IsLine t.line
  pub console : IsConsole t.console

-- A state behind `t` with the same client, and well-formed.
pub record Follows (t t' : Telnet) : Type 0 where
  pub valid : IsTelnet t'
  pub client : t'.active_client_pcb ≡ t.active_client_pcb
  pub new : List Call
  pub calls : t'.calls ≡ t.calls ++ new
  pub own : ToClient t.active_client_pcb new
  pub quiet : handshakes new ≡ []
  pub net : SameNet t.console t'.console

pub Follows-trans : (t t1 t2 : Telnet) → Follows t t1 → Follows t1 t2 → Follows t t2
Follows-trans t t1 t2 r s = record {
  valid = s.valid;
  client = s.client ∙ r.client;
  new = r.new ++ s.new;
  calls = s.calls ∙ ap (λ c. c ++ s.new) r.calls ∙ append_assoc t.calls r.new s.new;
  own =
      ToClient-append t.active_client_pcb r.new s.new r.own
        (subst (λ c. ToClient c s.new) r.client s.own);
  quiet = handshakes-append r.new s.new ∙ ap (λ x. x ++ handshakes s.new) r.quiet ∙ s.quiet;
  net = SameNet-trans t.console t1.console t2.console r.net s.net;
}

-- No calls, and other parts.
pub still :
    (t t' : Telnet)
    → IsTelnet t'
    → t'.active_client_pcb ≡ t.active_client_pcb
    → t'.calls ≡ t.calls
    → SameNet t.console t'.console
    → Follows t t'
still t t' v client calls net = record {
  valid = v;
  client = client;
  new = [];
  calls = calls ∙ sym (append_nil t.calls);
  own = tt;
  quiet = refl;
  net = net;
}

pub Relayed-Follows :
    (os : List Output) (t t' : Telnet) → IsTelnet t → Relayed os t t' → Follows t t'
Relayed-Follows os t t' v r = record {
  valid = record {
    line = subst IsLine (sym r.line) v.line;
    console =
        subst IsConsole (sym r.console) (
          IsConsole-same t.console (show os t.console) v.console refl refl refl refl
            v.console.hops);
  };
  client = r.client;
  new = r.new;
  calls = r.calls;
  own = r.own;
  quiet = r.quiet;
  net = (ap (λ c. c.router.nat) r.console, ap (λ c. c.router.macs) r.console);
}

-- A call that is no write and no handshake.
pub called-Follows :
    (c : Call) (t : Telnet)
    → IsTelnet t
    → ToClient t.active_client_pcb (c ∷ [])
    → handshakes (c ∷ []) ≡ []
    → Follows t (called (c ∷ []) t)
called-Follows c t v own quiet = record {
  valid = record { line = v.line; console = v.console };
  client = refl;
  new = c ∷ [];
  calls = refl;
  own = own;
  quiet = quiet;
  net = (refl, refl);
}
