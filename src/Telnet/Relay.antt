-- ===== src/Telnet/Relay.antt =====
-- The hooks of telnetd.c: what a relayed call adds to the screen and to the connection.
use burst_kernel_virtual_mac.Base.{
  ℕ, ◌≡◌, ◌∙◌, refl, ap, sym, subst, Option, none, some, List, [], ◌∷◌, ◌++◌, append_assoc,
  append_nil,
}
use burst_kernel_virtual_mac.Console.{Output, puts, set_color, clear_screen, show}
use burst_kernel_virtual_mac.Telnet.{
  Telnet, Call, tcp_write, tcp_output, tcp_close, tcp_recv, tcp_recved, pbuf_free, puts_serial,
  sends, c_string, escape_code, telnet_puts, telnet_set_color, relay,
}

-- What goes to the client for a call.
unfoldable pub stream : Output → List ℕ
stream (puts s) = c_string s
stream (set_color fg bg) = escape_code fg
stream clear_screen = []

-- What the client is sent, in order.
unfoldable pub sent : List Call → List ℕ
sent [] = []
sent (tcp_write pcb bytes ∷ cs) = bytes ++ sent cs
sent (tcp_output pcb ∷ cs) = sent cs
sent (tcp_close pcb ∷ cs) = sent cs
sent (tcp_recv pcb ∷ cs) = sent cs
sent (tcp_recved pcb n ∷ cs) = sent cs
sent (pbuf_free ∷ cs) = sent cs
sent (puts_serial s ∷ cs) = sent cs

-- All that is written goes to this client.
abbrev pub ToClient : Option ℕ → List Call → Type 0
ToClient client [] = Unit
ToClient client (tcp_write pcb bytes ∷ cs) = (client ≡ some pcb) × ToClient client cs
ToClient client (tcp_output pcb ∷ cs) = (client ≡ some pcb) × ToClient client cs
ToClient client (tcp_close pcb ∷ cs) = ToClient client cs
ToClient client (tcp_recv pcb ∷ cs) = ToClient client cs
ToClient client (tcp_recved pcb n ∷ cs) = ToClient client cs
ToClient client (pbuf_free ∷ cs) = ToClient client cs
ToClient client (puts_serial s ∷ cs) = ToClient client cs

-- The connections that are accepted or closed.
abbrev pub handshakes : List Call → List Call
handshakes [] = []
handshakes (tcp_write pcb bytes ∷ cs) = handshakes cs
handshakes (tcp_output pcb ∷ cs) = handshakes cs
handshakes (tcp_close pcb ∷ cs) = tcp_close pcb ∷ handshakes cs
handshakes (tcp_recv pcb ∷ cs) = tcp_recv pcb ∷ handshakes cs
handshakes (tcp_recved pcb n ∷ cs) = handshakes cs
handshakes (pbuf_free ∷ cs) = handshakes cs
handshakes (puts_serial s ∷ cs) = handshakes cs

abbrev pub streams : List Output → List ℕ
streams [] = []
streams (o ∷ os) = stream o ++ streams os

-- A client gets the bytes, no client gets none.
abbrev pub received : Option ℕ → List ℕ → List ℕ
received none bytes = []
received (some pcb) bytes = bytes

-- The state after the calls `os` were relayed.
pub record Relayed (os : List Output) (t t' : Telnet) : Type 0 where
  pub client : t'.active_client_pcb ≡ t.active_client_pcb
  pub line : t'.line ≡ t.line
  pub console : t'.console ≡ show os t.console
  pub new : List Call
  pub calls : t'.calls ≡ t.calls ++ new
  pub own : ToClient t.active_client_pcb new
  pub quiet : handshakes new ≡ []
  pub stream : sent new ≡ received t.active_client_pcb (streams os)

received_nothing : (client : Option ℕ) → [] ≡ received client []
received_nothing none = refl
received_nothing (some pcb) = refl

pub no_output_lem : (t : Telnet) → Relayed [] t t
unfolding sent
no_output_lem t = record {
  client = refl;
  line = refl;
  console = ap (λ s. record t.console { screen = s }) (sym (append_nil t.console.screen));
  new = [];
  calls = sym (append_nil t.calls);
  own = tt;
  quiet = refl;
  stream = received_nothing t.active_client_pcb;
}

sends-ToClient : (client : Option ℕ) (bytes : List ℕ) → ToClient client (sends client bytes)
sends-ToClient none bytes = tt
sends-ToClient (some pcb) bytes = (refl, (refl, tt))

sends-quiet : (client : Option ℕ) (bytes : List ℕ) → handshakes (sends client bytes) ≡ []
sends-quiet none bytes = refl
sends-quiet (some pcb) bytes = refl

sent-sends :
    (client : Option ℕ) (bytes : List ℕ) → sent (sends client bytes) ≡ received client bytes
unfolding sent
sent-sends none bytes = refl
sent-sends (some pcb) bytes = append_nil bytes

sent-append : (cs ds : List Call) → sent (cs ++ ds) ≡ sent cs ++ sent ds
unfolding sent
sent-append [] ds = refl
sent-append (tcp_write pcb bytes ∷ cs) ds =
    ap (λ s. bytes ++ s) (sent-append cs ds) ∙ sym (append_assoc bytes (sent cs) (sent ds))
sent-append (tcp_output pcb ∷ cs) ds = sent-append cs ds
sent-append (tcp_close pcb ∷ cs) ds = sent-append cs ds
sent-append (tcp_recv pcb ∷ cs) ds = sent-append cs ds
sent-append (tcp_recved pcb n ∷ cs) ds = sent-append cs ds
sent-append (pbuf_free ∷ cs) ds = sent-append cs ds
sent-append (puts_serial s ∷ cs) ds = sent-append cs ds

pub ToClient-append :
    (client : Option ℕ) (cs ds : List Call)
    → ToClient client cs
    → ToClient client ds
    → ToClient client (cs ++ ds)
ToClient-append client [] ds h k = k
ToClient-append client (tcp_write pcb bytes ∷ cs) ds h k = (h.0, ToClient-append client cs ds h.1 k)
ToClient-append client (tcp_output pcb ∷ cs) ds h k = (h.0, ToClient-append client cs ds h.1 k)
ToClient-append client (tcp_close pcb ∷ cs) ds h k = ToClient-append client cs ds h k
ToClient-append client (tcp_recv pcb ∷ cs) ds h k = ToClient-append client cs ds h k
ToClient-append client (tcp_recved pcb n ∷ cs) ds h k = ToClient-append client cs ds h k
ToClient-append client (pbuf_free ∷ cs) ds h k = ToClient-append client cs ds h k
ToClient-append client (puts_serial s ∷ cs) ds h k = ToClient-append client cs ds h k

pub handshakes-append : (cs ds : List Call) → handshakes (cs ++ ds) ≡ handshakes cs ++ handshakes ds
handshakes-append [] ds = refl
handshakes-append (tcp_write pcb bytes ∷ cs) ds = handshakes-append cs ds
handshakes-append (tcp_output pcb ∷ cs) ds = handshakes-append cs ds
handshakes-append (tcp_close pcb ∷ cs) ds = ap (λ s. tcp_close pcb ∷ s) (handshakes-append cs ds)
handshakes-append (tcp_recv pcb ∷ cs) ds = ap (λ s. tcp_recv pcb ∷ s) (handshakes-append cs ds)
handshakes-append (tcp_recved pcb n ∷ cs) ds = handshakes-append cs ds
handshakes-append (pbuf_free ∷ cs) ds = handshakes-append cs ds
handshakes-append (puts_serial s ∷ cs) ds = handshakes-append cs ds

streams-append : (os ps : List Output) → streams (os ++ ps) ≡ streams os ++ streams ps
streams-append [] ps = refl
streams-append (o ∷ os) ps =
    ap (λ s. stream o ++ s) (streams-append os ps)
    ∙ sym (append_assoc (stream o) (streams os) (streams ps))

received-append :
    (client : Option ℕ) (s t : List ℕ)
    → received client s ++ received client t ≡ received client (s ++ t)
received-append none s t = refl
received-append (some pcb) s t = refl

Relayed-trans :
    (os ps : List Output) (t t1 t2 : Telnet)
    → Relayed os t t1
    → Relayed ps t1 t2
    → Relayed (os ++ ps) t t2
Relayed-trans os ps t t1 t2 r s = record {
  client = s.client ∙ r.client;
  line = s.line ∙ r.line;
  console =
      s.console
      ∙ ap (show ps) r.console
      ∙ ap (λ o. record t.console { screen = o }) (append_assoc t.console.screen os ps);
  new = r.new ++ s.new;
  calls = s.calls ∙ ap (λ c. c ++ s.new) r.calls ∙ append_assoc t.calls r.new s.new;
  own =
      ToClient-append t.active_client_pcb r.new s.new r.own
        (subst (λ c. ToClient c s.new) r.client s.own);
  quiet = handshakes-append r.new s.new ∙ ap (λ x. x ++ handshakes s.new) r.quiet ∙ s.quiet;
  stream =
      sent-append r.new s.new
      ∙ ap (λ x. x ++ sent s.new) r.stream
      ∙ ap (λ x. received t.active_client_pcb (streams os) ++ x)
          (s.stream ∙ ap (λ c. received c (streams ps)) r.client)
      ∙ received-append t.active_client_pcb (streams os) (streams ps)
      ∙ ap (received t.active_client_pcb) (sym (streams-append os ps));
}

one_output_lem :
    (o : Output) (t t' : Telnet)
    → t'.active_client_pcb ≡ t.active_client_pcb
    → t'.line ≡ t.line
    → t'.console ≡ show (o ∷ []) t.console
    → t'.calls ≡ t.calls ++ sends t.active_client_pcb (stream o)
    → Relayed (o ∷ []) t t'
one_output_lem o t t' client line console calls = record {
  client = client;
  line = line;
  console = console;
  new = sends t.active_client_pcb (stream o);
  calls = calls;
  own = sends-ToClient t.active_client_pcb (stream o);
  quiet = sends-quiet t.active_client_pcb (stream o);
  stream =
      sent-sends t.active_client_pcb (stream o)
      ∙ ap (received t.active_client_pcb) (sym (append_nil (stream o)));
}

pub telnet_puts-Relayed : (s : List ℕ) (t : Telnet) → Relayed (puts s ∷ []) t (telnet_puts s t)
unfolding telnet_puts stream
telnet_puts-Relayed s t = one_output_lem (puts s) t (telnet_puts s t) refl refl refl refl

telnet_set_color-Relayed :
    (fg bg : ℕ) (t : Telnet) → Relayed (set_color fg bg ∷ []) t (telnet_set_color fg bg t)
unfolding telnet_set_color stream
telnet_set_color-Relayed fg bg t =
    one_output_lem (set_color fg bg) t (telnet_set_color fg bg t) refl refl refl refl

clear_screen-Relayed :
    (t : Telnet)
    → Relayed (clear_screen ∷ []) t (record t { console = show (clear_screen ∷ []) t.console })
unfolding stream sent
clear_screen-Relayed t = record {
  client = refl;
  line = refl;
  console = refl;
  new = [];
  calls = sym (append_nil t.calls);
  own = tt;
  quiet = refl;
  stream = received_nothing t.active_client_pcb;
}

-- While the output is hooked, the screen gets the same calls as without the hooks; the client,
-- if there is one, gets for them in order the bytes of each text and the escape code of each
-- colour, and nothing else; and nothing else changes.
pub relay-Relayed : (os : List Output) (t : Telnet) → Relayed os t (relay os t)
unfolding relay
relay-Relayed [] t = no_output_lem t
relay-Relayed (puts s ∷ os) t =
    Relayed-trans (puts s ∷ []) os t (telnet_puts s t) _ (telnet_puts-Relayed s t)
      (relay-Relayed os _)
relay-Relayed (set_color fg bg ∷ os) t =
    Relayed-trans (set_color fg bg ∷ []) os t (telnet_set_color fg bg t) _
      (telnet_set_color-Relayed fg bg t) (relay-Relayed os _)
relay-Relayed (clear_screen ∷ os) t =
    Relayed-trans (clear_screen ∷ []) os t
      (record t { console = show (clear_screen ∷ []) t.console }) _ (clear_screen-Relayed t)
      (relay-Relayed os _)
