-- ===== src/Nat/Inbound.antt =====
-- The outcomes of `nat_inbound` in nat.c, for a receive buffer of at least 92 bytes.
use burst_kernel_virtual_mac.Base.{
  ℕ, ◌+◌, ◌≤◌, ◌<◌, ◌≡◌, ◌≢◌, ◌⊎◌, sym, ◌∙◌, true, false, some, ltb, ◌==◌, arith, get_elem?, inl,
  inr, Option-cases, Bool-cases, find_index, find_index-FirstMatch, find_index-none,
}
use mathlib.Core.Bool.{false≢true}
use burst_kernel_virtual_mac.Packet.{Buffer, word16, word32, load8_lem, load16_lem, load32_lem}
use burst_kernel_virtual_mac.Nat.{
  NatEntry, Nat, Outcome, wan_ip, l4_checksum_at, is_mapping, inbound_address,
  is_translated_protocol, receive_session, inbound_session, nat_inbound,
}
use burst_kernel_virtual_mac.Nat.Rewrite.{rewritten, translate_lem}
use burst_kernel_virtual_mac.Nat.Table.{IsWf, Extends, SameSession}
use burst_kernel_virtual_mac.Nat.Session.{touch-Touched}
use burst_kernel_virtual_mac.Nat.Outbound.{
  reach, protocol_of, ihl_of, IsOther, IsCandidate, Returns,
}

-- The destination of a packet.
abbrev pub dst_ip_of : Buffer → ℕ
dst_ip_of pkt = word32 pkt.at 30

abbrev pub dst_port_of : Buffer → ℕ
dst_port_of pkt = word16 pkt.at (14 + ihl_of pkt + 2)

-- An entry in use that maps the external port.
pub record IsMapped (ext protocol : ℕ) (e : NatEntry) : Type 0 where
  pub live : e.in_use ≡ true
  pub external : e.external_port ≡ ext
  pub proto : e.protocol ≡ protocol

pub is_mapping-IsMapped :
    (ext protocol : ℕ) (e : NatEntry) → is_mapping ext protocol e ≡ true → IsMapped ext protocol e
unfolding is_mapping
is_mapping-IsMapped ext protocol e h = ground arith

pub IsMapped-is_mapping :
    (ext protocol : ℕ) (e : NatEntry) → IsMapped ext protocol e → is_mapping ext protocol e ≡ true
unfolding is_mapping
IsMapped-is_mapping ext protocol e h = ground arith

IsMapped-same :
    {ext protocol : ℕ} {e f : NatEntry}
    → IsMapped ext protocol e
    → SameSession e f
    → IsMapped ext protocol f
IsMapped-same h same = ground arith

-- The packet with the session's inner end for its destination.
abbrev pub with_destination : ℕ → ℕ → Buffer → Buffer
with_destination ip port pkt = record pkt {
  at =
      rewritten (dst_ip_of pkt) ip (dst_port_of pkt) port
        (l4_checksum_at (protocol_of pkt) (ihl_of pkt)) 30 (14 + ihl_of pkt + 2) pkt.at;
}

-- What `nat_inbound` does to a table with `k` sessions.
pub data InboundResult (k : ℕ) (s : Nat) (pkt : Buffer) (len : ℕ) : Outcome → Type 0 where
  skipped :
      (len < 34) ⊎ (IsOther pkt ⊎ (dst_ip_of pkt ≢ wan_ip))
      → InboundResult k s pkt len (record { translated = false; nat = s; packet = pkt })
  unmatched :
      IsCandidate len pkt
      → dst_ip_of pkt ≡ wan_ip
      → ((i : ℕ) (e : NatEntry)
          → get_elem? s.table i ≡ some e
          → ¬ IsMapped (dst_port_of pkt) (protocol_of pkt) e)
      → InboundResult k s pkt len (record { translated = false; nat = s; packet = pkt })
  received :
      IsCandidate len pkt
      → dst_ip_of pkt ≡ wan_ip
      → (i : ℕ) (t : Nat) (e : NatEntry) → IsWf k t
      → Extends s t
      → get_elem? t.table i ≡ some e
      → IsMapped (dst_port_of pkt) (protocol_of pkt) e
      → e.last_active ≡ s.ticks
      → InboundResult k s pkt len (record {
        translated = true;
        nat = t;
        packet = with_destination e.internal_ip e.internal_port pkt;
      })

module _ {k : ℕ} {s : Nat} (w : IsWf k s) (pkt : Buffer) (len : ℕ) (fits : reach ≤ pkt.size) where
  receive_session_lem :
      IsCandidate len pkt
      → dst_ip_of pkt ≡ wan_ip
      → Returns
          (receive_session (protocol_of pkt) (ihl_of pkt) (dst_ip_of pkt) (dst_port_of pkt) s pkt)
          (InboundResult k s pkt len)
  unfolding receive_session
  receive_session_lem ok here =
      let protocol = protocol_of pkt in
      let ihl = ihl_of pkt in
      let ip = dst_ip_of pkt in
      let port = dst_port_of pkt in
      elim (Option-cases (find_index (is_mapping port protocol) s.table)) [
        | inl e ↦ record {
          outcome = record { translated = false; nat = s; packet = pkt };
          returns = rw (e, receive_session);
          result = unmatched ok here λ i f h mapped. false≢true (
              sym (find_index-none _ s.table e i f h) ∙ IsMapped-is_mapping port protocol f mapped);
        }
        | inr r ↦
            let m = find_index-FirstMatch _ s.table r.0 r.1 in
            let mapped = is_mapping-IsMapped port protocol m.elem m.matches in
            let touched = touch-Touched r.0 m.elem w m.at_index mapped.live in
            let new_ip = touched.entry.internal_ip in
            let new_port = touched.entry.internal_port in
            let rewrite =
              translate_lem ip new_ip port new_port protocol ihl 30 (14 + ihl + 2) pkt fits
                (omega arith) (omega arith) (omega arith) in
            record {
              outcome = record {
                translated = true;
                nat = touched.nat;
                packet = with_destination new_ip new_port pkt;
              };
              returns = rw (r.1, touched.returns, rewrite, receive_session);
              result =
                  received ok here r.0 touched.nat touched.entry touched.wf touched.kept touched.at
                    (IsMapped-same mapped touched.same) touched.now;
            }
      ]

  inbound_address_lem :
      IsCandidate len pkt
      → Returns (inbound_address (protocol_of pkt) s pkt) (InboundResult k s pkt len)
  unfolding inbound_address inbound_session
  inbound_address_lem ok = elim (Bool-cases (dst_ip_of pkt == wan_ip)) [
    | inl here ↦
        rw
          (
            load32_lem pkt 30 (omega arith),
            here,
            load8_lem pkt 14 (omega arith),
            load16_lem pkt (14 + ihl_of pkt + 2) (omega arith),
          )
          (receive_session_lem ok (ground arith))
    | inr away ↦ record {
      outcome = record { translated = false; nat = s; packet = pkt };
      returns = rw (load32_lem pkt 30 (omega arith), away);
      result = skipped (inr (inr (ground arith)));
    }
  ]

  -- On a well-formed table and a buffer of at least 92 bytes `nat_inbound` returns, and does
  -- one of three things: a packet that is shorter than 34 bytes, not TCP or UDP, or not for the
  -- WAN address is skipped; one whose port and protocol no session has is unmatched; any other
  -- one is received, by the session that has them, and rewritten. Skipped and unmatched packets
  -- change nothing.
  pub nat_inbound_lem : Returns (nat_inbound s pkt len) (InboundResult k s pkt len)
  unfolding nat_inbound
  nat_inbound_lem = elim (Bool-cases (ltb len 34)) [
    | inl short ↦ record {
      outcome = record { translated = false; nat = s; packet = pkt };
      returns = rw short;
      result = skipped (inl (ground arith));
    }
    | inr long ↦ elim (Bool-cases (is_translated_protocol (protocol_of pkt))) [
      | inl tcp_or_udp ↦
          rw (long, load8_lem pkt 23 (omega arith), tcp_or_udp) (inbound_address_lem (ground arith))
      | inr other ↦ record {
        outcome = record { translated = false; nat = s; packet = pkt };
        returns = rw (long, load8_lem pkt 23 (omega arith), other);
        result = skipped (inr (inl (ground arith)));
      }
    ]
  ]
