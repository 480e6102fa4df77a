-- ===== src/Machine/Valid.antt =====
-- The invariant of the whole machine, and what a frame, a key and an event of the telnet server make of it.
use burst_kernel_virtual_mac.Base.{
  ℕ, ◌≡◌, ◌∙◌, Option-cases, true, refl, ap, sym, subst, none, Option, some, length, get_elem?, inl,
  inr,
}
use mathlib.Core.Option.{some-injective}
use burst_kernel_virtual_mac.Nat.Table.{IsWf, Extends, Extends-refl, Extends-trans}
use burst_kernel_virtual_mac.Route.Laws.{AllMacs, route_lookup-AllMacs}
use burst_kernel_virtual_mac.Console.{Console}
use burst_kernel_virtual_mac.Console.Invariant.{IsConsole, SameNet}
use burst_kernel_virtual_mac.Cli.Keys.{keyboard_handler-Kept}
use burst_kernel_virtual_mac.Telnet.{Telnet, Pbuf, telnet_recv}
use burst_kernel_virtual_mac.Telnet.Client.{IsServed, Step-IsServed, is_one_of, open_now}
use burst_kernel_virtual_mac.Telnet.Client
use burst_kernel_virtual_mac.Telnet.Net.{Step-SameNet}
use burst_kernel_virtual_mac.System.{System}
use burst_kernel_virtual_mac.System.Frame.{IsSystem, Keeps}
use burst_kernel_virtual_mac.Base.{false}
use burst_kernel_virtual_mac.Telnet.{telnet_accept}
use burst_kernel_virtual_mac.Machine.{
  connect, Machine, system_of, with_system, with_telnet, press_key, receive,
}

pub record IsMachine (m : Machine) : Type 0 where
  pub system : IsSystem (system_of m)
  pub served : IsServed m.telnet

-- A later state of the machine `m`.
pub record Later (m n : Machine) : Type 0 where
  pub valid : IsMachine n
  pub sessions : Extends m.telnet.console.router.nat n.telnet.console.router.nat
  pub size : length n.devs ≡ length m.devs
  pub macs : n.telnet.console.router.macs ≡ m.telnet.console.router.macs

pub Later-trans : (m n o : Machine) → Later m n → Later n o → Later m o
Later-trans m n o p q = record {
  valid = q.valid;
  sessions =
      Extends-trans m.telnet.console.router.nat n.telnet.console.router.nat
        o.telnet.console.router.nat p.sessions q.sessions;
  size = q.size ∙ p.size;
  macs = q.macs ∙ p.macs;
}

-- The frames leave the console alone, but for the router, whose routes are those of before.
pub with_system-Later :
    (m : Machine) (s : System) → IsMachine m → Keeps (system_of m) s → Later m (with_system s m)
with_system-Later m s v k = record {
  valid = record {
    system = k.valid;
    served = record {
      valid = record {
        line = v.served.valid.line;
        console = record {
          line = v.served.valid.console.line;
          named = v.served.valid.console.named;
          stored = v.served.valid.console.stored;
          editing = v.served.valid.console.editing;
          hops = subst (λ r. AllMacs r.table) (sym k.routes) v.served.valid.console.hops;
        };
      };
      only = v.served.only;
    };
  };
  sessions = k.sessions;
  size = k.size;
  macs = k.macs;
}

-- The keys and the server may change the routes.
pub with_telnet-Later :
    (m : Machine) (t : Telnet)
    → IsMachine m
    → IsServed t
    → SameNet m.telnet.console t.console
    → Later m (with_telnet t m)
with_telnet-Later m t v served (nat, macs) = record {
  valid = record {
    system = record {
      rings = v.system.rings;
      sessions = v.system.sessions;
      nat = subst (IsWf v.system.sessions) (sym nat) v.system.nat;
      macs = λ i lt.
          let (mac, at_i, six) = v.system.macs i lt in
          (mac, ap (λ l. get_elem? l i) macs ∙ at_i, six);
      hops = λ ip e. route_lookup-AllMacs t.console.router.routes ip e served.valid.console.hops;
      buffers = v.system.buffers;
    };
    served = served;
  };
  sessions =
      subst (Extends m.telnet.console.router.nat) (sym nat)
        (Extends-refl m.telnet.console.router.nat);
  size = refl;
  macs = macs;
}

-- A key leaves the connections alone.
with_console-IsServed :
    (t : Telnet) (c : Console) → IsServed t → IsConsole c → IsServed (record t { console = c })
with_console-IsServed t c s v = record {
  valid = record { line = s.valid.line; console = v };
  only = s.only;
}

pub press_key-Later :
    (m n : Machine) (scancode : ℕ) → IsMachine m → press_key scancode m ≡ some n → Later m n
unfolding press_key
press_key-Later m n scancode v h =
    elim (keyboard_handler-Kept scancode m.telnet.console v.served.valid.console) [
      | inl (c, e, w, net) ↦ subst (Later m) (some-injective _ _ (rw e at h)) (
          with_telnet-Later m (record (m.telnet) { console = c }) v
            (with_console-IsServed m.telnet c v.served w) net)
      | inr (x, stop) ↦ (let nothing : none ≡ some n = rw stop at h in cc)
    ]

-- An event of the server.
served-Later :
    (m : Machine) (t : Telnet) → IsMachine m → Client.Step m.telnet t → Later m (with_telnet t m)
served-Later m t v st =
    with_telnet-Later m t v (Step-IsServed st v.served) (Step-SameNet st v.served.valid)

pub connect-Later :
    (m : Machine) (newpcb : ℕ)
    → IsMachine m
    → is_one_of newpcb (open_now m.telnet) ≡ false
    → Later m (connect newpcb m)
unfolding connect
connect-Later m newpcb v fresh =
    served-Later m (telnet_accept newpcb m.telnet) v (Client.accepted m.telnet newpcb fresh)

pub receive-Later :
    (m n : Machine) (tpcb : ℕ) (p : Option Pbuf)
    → IsMachine m
    → is_one_of tpcb (open_now m.telnet) ≡ true
    → receive tpcb p m ≡ some n
    → Later m n
unfolding receive
receive-Later m n tpcb p v mine h = elim (Option-cases (telnet_recv tpcb p m.telnet)) [
  | inl stop ↦ (let nothing : none ≡ some n = rw stop at h in cc)
  | inr (t, e) ↦
      subst (Later m) (some-injective _ _ (rw e at h))
        (served-Later m t v (Client.received m.telnet t tpcb p mine e))
]

pub here-Later : (m : Machine) → IsMachine m → Later m m
here-Later m v = record {
  valid = v;
  sessions = Extends-refl m.telnet.console.router.nat;
  size = refl;
  macs = refl;
}
