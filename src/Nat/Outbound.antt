-- ===== src/Nat/Outbound.antt =====
-- The outcomes of `nat_outbound` in nat.c, for a receive buffer of at least 92 bytes.
use burst_kernel_virtual_mac.Base.{
  ℕ, ◌+◌, ◌≤◌, ◌<◌, ◌≡◌, ◌≢◌, ◌⊎◌, ◌∙◌, true, false, some, Option, ltb, arith, get_elem?, inl, inr,
  Option-cases, Bool-cases,
}
use burst_kernel_virtual_mac.Packet.{Buffer, word16, word32, load8_lem, load16_lem, load32_lem}
use burst_kernel_virtual_mac.Nat.{
  NatEntry, Nat, Outcome, max_nat_entries, wan_ip, header_length, l4_checksum_at,
  is_translated_protocol, send_session, outbound_session, nat_outbound, find_session, proto_tcp,
  proto_udp,
}
use burst_kernel_virtual_mac.Nat.Rewrite.{rewritten, translate_lem}
use burst_kernel_virtual_mac.Nat.Table.{IsWf, Extends, Extends-trans, SameSession}
use burst_kernel_virtual_mac.Nat.Session.{
  IsFor, IsUnknown, find_session-full, find_session-Ready, touch-Touched,
}

-- The bytes of a buffer that a translation may reach.
abbrev pub reach : ℕ
reach = 92

-- The IPv4 protocol number, the header length and the source of a packet.
abbrev pub protocol_of : Buffer → ℕ
protocol_of pkt = pkt.at 23

abbrev pub ihl_of : Buffer → ℕ
ihl_of pkt = header_length (pkt.at 14)

abbrev pub src_ip_of : Buffer → ℕ
src_ip_of pkt = word32 pkt.at 26

abbrev pub src_port_of : Buffer → ℕ
src_port_of pkt = word16 pkt.at (14 + ihl_of pkt)

-- Neither TCP nor UDP.
abbrev pub IsOther : Buffer → Type 0
IsOther pkt = (protocol_of pkt ≢ proto_tcp) × (protocol_of pkt ≢ proto_udp)

-- What both directions ask of a packet: room for the headers, and TCP or UDP.
abbrev pub IsCandidate : ℕ → Buffer → Type 0
IsCandidate len pkt = (34 ≤ len) × ((protocol_of pkt ≡ proto_tcp) ⊎ (protocol_of pkt ≡ proto_udp))

-- The packet with `port` for its source port and the WAN address for its source.
abbrev pub with_source : ℕ → Buffer → Buffer
with_source port pkt = record pkt {
  at =
      rewritten (src_ip_of pkt) wan_ip (src_port_of pkt) port
        (l4_checksum_at (protocol_of pkt) (ihl_of pkt)) 26 (14 + ihl_of pkt) pkt.at;
}

-- What `nat_outbound` does to a table with `k` sessions.
pub data OutboundResult (k : ℕ) (s : Nat) (pkt : Buffer) (len : ℕ) : Outcome → Type 0 where
  skipped :
      (len < 34) ⊎ IsOther pkt
      → OutboundResult k s pkt len (record { translated = false; nat = s; packet = pkt })
  refused :
      IsCandidate len pkt
      → k ≡ max_nat_entries
      → IsUnknown (src_ip_of pkt) (src_port_of pkt) (protocol_of pkt) s
      → OutboundResult k s pkt len (record { translated = false; nat = s; packet = pkt })
  sent :
      IsCandidate len pkt
      → (count i : ℕ) (t : Nat) (e : NatEntry) → k ≤ count
      → IsWf count t
      → Extends s t
      → get_elem? t.table i ≡ some e
      → IsFor (src_ip_of pkt) (src_port_of pkt) (protocol_of pkt) e
      → e.last_active ≡ s.ticks
      → OutboundResult k s pkt len
          (record { translated = true; nat = t; packet = with_source e.external_port pkt })

IsFor-same :
    {ip port protocol : ℕ} {e f : NatEntry}
    → IsFor ip port protocol e
    → SameSession e f
    → IsFor ip port protocol f
IsFor-same for same = ground arith

-- The call returns, and this is the result.
pub record Returns {ℓ} (call : Option Outcome) (P : Outcome → Type ℓ) : Type ℓ where
  pub outcome : Outcome
  pub returns : call ≡ some outcome
  pub result : P outcome

module _ {k : ℕ} {s : Nat} (w : IsWf k s) (pkt : Buffer) (len : ℕ) (fits : reach ≤ pkt.size) where
  send_session_lem :
      IsCandidate len pkt
      → Returns
          (send_session (protocol_of pkt) (ihl_of pkt) (src_ip_of pkt) (src_port_of pkt) s pkt)
          (OutboundResult k s pkt len)
  unfolding send_session
  send_session_lem ok =
      let protocol = protocol_of pkt in
      let ihl = ihl_of pkt in
      let ip = src_ip_of pkt in
      let port = src_port_of pkt in
      elim (Option-cases (find_session ip port protocol s)) [
        | inl e ↦ record {
          outcome = record { translated = false; nat = s; packet = pkt };
          returns = rw (e, send_session);
          result = (let f = find_session-full ip port protocol w e in refused ok f.0 f.1);
        }
        | inr r ↦
            let ready = find_session-Ready ip port protocol r.0.0 r.0.1 w r.1 in
            let touched = touch-Touched r.0.0 ready.entry ready.wf ready.at ready.for.live in
            let rewrite =
              translate_lem ip wan_ip port touched.entry.external_port protocol ihl 26 (14 + ihl)
                pkt fits (omega arith) (omega arith) (omega arith) in
            record {
              outcome = record {
                translated = true;
                nat = touched.nat;
                packet = with_source touched.entry.external_port pkt;
              };
              returns = rw (r.1, touched.returns, rewrite, send_session);
              result =
                  sent ok ready.count r.0.0 touched.nat touched.entry ready.grows touched.wf
                    (Extends-trans s r.0.1 touched.nat ready.kept touched.kept) touched.at
                    (IsFor-same ready.for touched.same) (touched.now ∙ ready.clock);
            }
      ]

  outbound_session_lem :
      IsCandidate len pkt
      → Returns (outbound_session (protocol_of pkt) s pkt) (OutboundResult k s pkt len)
  unfolding outbound_session
  outbound_session_lem ok =
      rw
        (
          load32_lem pkt 26 (omega arith),
          load8_lem pkt 14 (omega arith),
          load16_lem pkt (14 + ihl_of pkt) (omega arith),
        )
        (send_session_lem ok)

  -- On a well-formed table and a buffer of at least 92 bytes `nat_outbound` returns, and does
  -- one of three things: a packet that is shorter than 34 bytes or not TCP or UDP is skipped;
  -- one whose session is not in a full table is refused; any other one is sent, with a session
  -- for it in a well-formed table that has the sessions of before, and rewritten. Skipped and
  -- refused packets change nothing.
  pub nat_outbound_lem : Returns (nat_outbound s pkt len) (OutboundResult k s pkt len)
  unfolding nat_outbound
  nat_outbound_lem = elim (Bool-cases (ltb len 34)) [
    | inl short ↦ record {
      outcome = record { translated = false; nat = s; packet = pkt };
      returns = rw short;
      result = skipped (inl (ground arith));
    }
    | inr long ↦ elim (Bool-cases (is_translated_protocol (protocol_of pkt))) [
      | inl tcp_or_udp ↦
          rw (long, load8_lem pkt 23 (omega arith), tcp_or_udp)
            (outbound_session_lem (ground arith))
      | inr other ↦ record {
        outcome = record { translated = false; nat = s; packet = pkt };
        returns = rw (long, load8_lem pkt 23 (omega arith), other);
        result = skipped (inr (ground arith));
      }
    ]
  ]
