-- ===== src/Nat/Steps.antt =====
-- Sequences of packets through the NAT, from both sides.
use burst_kernel_virtual_mac.Base.{ℕ, ◌+◌, ◌≤◌, ◌≡◌, refl, sym, ◌∙◌, subst, some, Option, arith}
use mathlib.Core.Option.{some-injective}
use burst_kernel_virtual_mac.Packet.{Buffer}
use burst_kernel_virtual_mac.Checksum.Words.{IsBytes}
use burst_kernel_virtual_mac.Nat.{Nat, Outcome, wan_ip, nat_outbound, nat_inbound, l4_checksum_at}
use burst_kernel_virtual_mac.Nat.Integrity.{rewritten-IsBytes}
use burst_kernel_virtual_mac.Nat.Table.{IsWf, Extends, Extends-refl, Extends-trans}
use burst_kernel_virtual_mac.Nat.Outbound.{
  reach, protocol_of, ihl_of, src_ip_of, src_port_of, Returns, OutboundResult,
  skipped as out_skipped, refused, sent, nat_outbound_lem,
}
use burst_kernel_virtual_mac.Nat.Inbound.{
  dst_ip_of, dst_port_of, InboundResult, skipped as in_skipped, unmatched, received,
  nat_inbound_lem,
}

-- A packet from one side or the other, in a receive buffer, taken through the NAT.
pub data Step (s : Nat) : Nat → Type 0 where
  outbound :
      (pkt : Buffer) (len : ℕ) (o : Outcome)
      → reach ≤ pkt.size
      → nat_outbound s pkt len ≡ some o
      → Step s o.nat
  inbound :
      (pkt : Buffer) (len : ℕ) (o : Outcome)
      → reach ≤ pkt.size
      → nat_inbound s pkt len ≡ some o
      → Step s o.nat

pub data Steps (s : Nat) : Nat → Type 0 where
  done : Steps s s
  more : {t u : Nat} → Steps s t → Step t u → Steps s u

-- What the operations do to a table with `k` sessions, seen from outside.
pub record Evolves (k : ℕ) (s t : Nat) : Type 0 where
  pub count : ℕ
  pub grows : k ≤ count
  pub wf : IsWf count t
  pub kept : Extends s t

pub result_of_returns :
    (call : Option Outcome) (P : Outcome → Type 0) (o : Outcome)
    → Returns call P
    → call ≡ some o
    → P o
result_of_returns call P o r h = subst P (some-injective _ _ (sym r.returns ∙ h)) r.result

pub OutboundResult-Evolves :
    {k len : ℕ} {s : Nat} {pkt : Buffer} {o : Outcome}
    → IsWf k s
    → OutboundResult k s pkt len o
    → Evolves k s o.nat
OutboundResult-Evolves {k} {s = s} w (out_skipped _) = record {
  count = k;
  grows = omega arith;
  wf = w;
  kept = Extends-refl s;
}
OutboundResult-Evolves {k} {s = s} w (refused _ _ _) = record {
  count = k;
  grows = omega arith;
  wf = w;
  kept = Extends-refl s;
}
OutboundResult-Evolves w (sent _ count i t e grows w' kept _ _ _) = record {
  count = count;
  grows = grows;
  wf = w';
  kept = kept;
}

pub InboundResult-Evolves :
    {k len : ℕ} {s : Nat} {pkt : Buffer} {o : Outcome}
    → IsWf k s
    → InboundResult k s pkt len o
    → Evolves k s o.nat
InboundResult-Evolves {k} {s = s} w (in_skipped _) = record {
  count = k;
  grows = omega arith;
  wf = w;
  kept = Extends-refl s;
}
InboundResult-Evolves {k} {s = s} w (unmatched _ _ _) = record {
  count = k;
  grows = omega arith;
  wf = w;
  kept = Extends-refl s;
}
InboundResult-Evolves {k} w (received _ _ i t e w' kept _ _ _) = record {
  count = k;
  grows = omega arith;
  wf = w';
  kept = kept;
}

-- Every packet keeps the table well-formed, and every session in it.
pub Step-Evolves : {k : ℕ} {s t : Nat} → IsWf k s → Step s t → Evolves k s t
Step-Evolves {k} {s} w (outbound pkt len o fits h) =
    OutboundResult-Evolves w
      (result_of_returns _ (OutboundResult k s pkt len) o (nat_outbound_lem w pkt len fits) h)
Step-Evolves {k} {s} w (inbound pkt len o fits h) =
    InboundResult-Evolves w
      (result_of_returns _ (InboundResult k s pkt len) o (nat_inbound_lem w pkt len fits) h)

-- Any sequence of packets from both sides, each in a buffer of at least 92 bytes, takes a well-
-- formed table to a well-formed table with at least as many sessions, in which every session of
-- before still has its place, addresses, ports and protocol.
pub Steps-Evolves : {k : ℕ} {s t : Nat} → IsWf k s → Steps s t → Evolves k s t
Steps-Evolves {k} {s} w done = record {
  count = k;
  grows = omega arith;
  wf = w;
  kept = Extends-refl s;
}
Steps-Evolves {s = s} w (more {t = t} {u = u} r st) =
    let first = Steps-Evolves w r in
    let next = Step-Evolves first.wf st in
    record {
      count = next.count;
      grows = omega (arith, first.grows, next.grows);
      wf = next.wf;
      kept = Extends-trans s t u first.kept next.kept;
    }

-- The packet stays a packet of bytes, in its buffer.
pub OutboundResult-IsBytes :
    {k len : ℕ} {s : Nat} {pkt : Buffer} {o : Outcome}
    → OutboundResult k s pkt len o
    → IsBytes pkt.at
    → IsBytes o.packet.at × (o.packet.size ≡ pkt.size)
OutboundResult-IsBytes (out_skipped _) bytes = (bytes, refl)
OutboundResult-IsBytes (refused _ _ _) bytes = (bytes, refl)
OutboundResult-IsBytes {pkt = pkt} (sent _ count i t e grows w' kept _ _ _) bytes = (
  rewritten-IsBytes (src_ip_of pkt) wan_ip (src_port_of pkt) e.external_port
      (l4_checksum_at (protocol_of pkt) (ihl_of pkt)) 26 (14 + ihl_of pkt) pkt.at bytes,
  refl,
)

pub InboundResult-IsBytes :
    {k len : ℕ} {s : Nat} {pkt : Buffer} {o : Outcome}
    → InboundResult k s pkt len o
    → IsBytes pkt.at
    → IsBytes o.packet.at × (o.packet.size ≡ pkt.size)
InboundResult-IsBytes (in_skipped _) bytes = (bytes, refl)
InboundResult-IsBytes (unmatched _ _ _) bytes = (bytes, refl)
InboundResult-IsBytes {pkt = pkt} (received _ _ i t e w' kept _ _ _) bytes = (
  rewritten-IsBytes (dst_ip_of pkt) e.internal_ip (dst_port_of pkt) e.internal_port
      (l4_checksum_at (protocol_of pkt) (ihl_of pkt)) 30 (14 + ihl_of pkt + 2) pkt.at bytes,
  refl,
)
