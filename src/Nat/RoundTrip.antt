-- ===== src/Nat/RoundTrip.antt =====
-- The way of a flow through nat.c and back: a packet out, any traffic, and a reply.
use burst_kernel_virtual_mac.Base.{
  ℕ, ◌+◌, ◌*◌, ◌%◌, ◌^◌, ◌≤◌, ◌<◌, ◌≡◌, refl, sym, ap, ◌∙◌, true, some, arith, get_elem?, inl,
}
use burst_kernel_virtual_mac.Packet.{Buffer, word16}
use burst_kernel_virtual_mac.Checksum.Words.{IsBytes}
use burst_kernel_virtual_mac.Nat.{
  NatEntry, Nat, Outcome, wan_ip, nat_outbound, nat_inbound, l4_checksum_at,
}
use burst_kernel_virtual_mac.Nat.Rewrite.{rewritten-ip, rewritten-port, rewritten_frame}
use burst_kernel_virtual_mac.Nat.Table.{IsWf, IsWf-live-lt, swap_bytes_injective}
use burst_kernel_virtual_mac.Nat.Session.{IsFor}
use burst_kernel_virtual_mac.Nat.Outbound.{
  reach, protocol_of, ihl_of, src_ip_of, src_port_of, with_source, IsCandidate, OutboundResult,
  skipped as out_skipped, refused, sent, nat_outbound_lem,
}
use burst_kernel_virtual_mac.Nat.Inbound.{
  dst_ip_of, dst_port_of, with_destination, IsMapped, InboundResult, skipped as in_skipped,
  unmatched, received, nat_inbound_lem,
}
use burst_kernel_virtual_mac.Nat.Steps.{
  Steps, Steps-Evolves, OutboundResult-Evolves, result_of_returns,
}

-- The new source of a packet that was sent, and the new destination of one that was received.
with_source-src :
    (port : ℕ) (pkt : Buffer)
    → 20 ≤ ihl_of pkt
    → port < 2 ^ 16
    → (src_ip_of (with_source port pkt) ≡ wan_ip) × (src_port_of (with_source port pkt) ≡ port)
with_source-src port pkt hi hp =
    let at = l4_checksum_at (protocol_of pkt) (ihl_of pkt) in
    let far : 34 ≤ at = ground arith in
    let port_at = 14 + ihl_of pkt in
    let ip = src_ip_of pkt in
    let old = src_port_of pkt in
    let version : (with_source port pkt).at 14 ≡ pkt.at 14 =
      rewritten_frame ip wan_ip old port at 26 port_at pkt.at 14 (inl (omega arith))
        (inl (omega arith)) (inl (omega arith)) (inl (omega arith)) in
    (
      rewritten-ip ip wan_ip old port at 26 port_at pkt.at (omega arith) far (omega arith)
          (omega arith),
      ap (λ b. word16 (with_source port pkt).at (14 + b % 2 ^ 4 * 4)) version
          ∙ rewritten-port ip wan_ip old port at 26 port_at pkt.at hp,
    )

with_destination-dst :
    (ip port : ℕ) (pkt : Buffer)
    → 20 ≤ ihl_of pkt
    → ip < 2 ^ 32
    → port < 2 ^ 16
    → (dst_ip_of (with_destination ip port pkt) ≡ ip)
      × (dst_port_of (with_destination ip port pkt) ≡ port)
with_destination-dst ip port pkt hi hip hp =
    let at = l4_checksum_at (protocol_of pkt) (ihl_of pkt) in
    let far : 34 ≤ at = ground arith in
    let port_at = 14 + ihl_of pkt + 2 in
    let old_ip = dst_ip_of pkt in
    let old = dst_port_of pkt in
    let version : (with_destination ip port pkt).at 14 ≡ pkt.at 14 =
      rewritten_frame old_ip ip old port at 30 port_at pkt.at 14 (inl (omega arith))
        (inl (omega arith)) (inl (omega arith)) (inl (omega arith)) in
    (
      rewritten-ip old_ip ip old port at 30 port_at pkt.at (omega arith) far (omega arith) hip,
      ap (λ b. word16 (with_destination ip port pkt).at (14 + b % 2 ^ 4 * 4 + 2)) version
          ∙ rewritten-port old_ip ip old port at 30 port_at pkt.at hp,
    )

-- Two entries in use with one external port are one entry.
external_unique :
    {k : ℕ} {s : Nat}
    → IsWf k s
    → (i j : ℕ) (e f : NatEntry) → get_elem? s.table i ≡ some e
    → get_elem? s.table j ≡ some f
    → e.in_use ≡ true
    → f.in_use ≡ true
    → e.external_port ≡ f.external_port
    → i ≡ j
external_unique {k} w i j e f hi hj le lf same =
    let below_i = IsWf-live-lt w i e hi le in
    let below_j = IsWf-live-lt w j f hj lf in
    let ports =
      swap_bytes_injective (50000 + i) (50000 + j) (omega (arith, w.few)) (omega (arith, w.few))
        (sym (w.used i e hi below_i).1 ∙ same ∙ (w.used j f hj below_j).1) in
    omega arith

-- What a packet that was sent leaves: an entry for its old source, whose port is its new one.
pub record IsSent (pkt : Buffer) (o : Outcome) : Type 0 where
  pub index : ℕ
  pub entry : NatEntry
  pub at : get_elem? o.nat.table index ≡ some entry
  pub for : IsFor (src_ip_of pkt) (src_port_of pkt) (protocol_of pkt) entry
  pub source : src_ip_of o.packet ≡ wan_ip
  pub source_port : src_port_of o.packet ≡ entry.external_port

OutboundResult-IsSent :
    {k len : ℕ} {s : Nat} {pkt : Buffer} {o : Outcome}
    → 20 ≤ ihl_of pkt
    → OutboundResult k s pkt len o
    → o.translated ≡ true
    → IsSent pkt o
OutboundResult-IsSent hi (out_skipped _) t = cc
OutboundResult-IsSent hi (refused _ _ _) t = cc
OutboundResult-IsSent {pkt = pkt} hi (sent ok count i u e grows w kept at for now) t =
    let below = IsWf-live-lt w i e at for.live in
    let port = (w.used i e at below).1 in
    let fields = with_source-src e.external_port pkt hi (omega arith) in
    record { index = i; entry = e; at = at; for = for; source = fields.0; source_port = fields.1 }

-- A packet that comes back to the address and port that `first` left with.
pub record IsReply (first : Outcome) (protocol : ℕ) (reply : Buffer) (len : ℕ) : Type 0 where
  pub candidate : IsCandidate len reply
  pub proto : protocol_of reply ≡ protocol
  pub ip : dst_ip_of reply ≡ src_ip_of first.packet
  pub port : dst_port_of reply ≡ src_port_of first.packet
  pub header : 20 ≤ ihl_of reply
  pub room : reach ≤ reply.size

InboundResult-delivered :
    {k len : ℕ} {t : Nat} {reply : Buffer} {o : Outcome} {f : NatEntry} (j : ℕ)
    → InboundResult k t reply len o
    → IsCandidate len reply
    → dst_ip_of reply ≡ wan_ip
    → 20 ≤ ihl_of reply
    → get_elem? t.table j ≡ some f
    → IsMapped (dst_port_of reply) (protocol_of reply) f
    → f.internal_ip < 2 ^ 32
    → f.internal_port < 2 ^ 16
    → (o.translated ≡ true)
      × (dst_ip_of o.packet ≡ f.internal_ip)
      × (dst_port_of o.packet ≡ f.internal_port)
InboundResult-delivered j (in_skipped why) ok here hi at mapped hip hp = absurd (ground (arith, ok))
InboundResult-delivered {f = f} j (unmatched _ _ none_maps) ok here hi at mapped hip hp =
    absurd (none_maps j f at mapped)
InboundResult-delivered {reply = reply} {f = f} j (received _ _ i u e w kept at' m now) ok here hi
      at mapped hip hp =
    let (g, at_g, same) = kept j f at mapped.live in
    let index : i ≡ j =
      external_unique w i j e g at' at_g m.live (same.live ∙ mapped.live)
        (m.external ∙ sym (same.external ∙ mapped.external)) in
    let entry : e ≡ g = cc in
    let ip : e.internal_ip ≡ f.internal_ip = cc (same.ip) in
    let port : e.internal_port ≡ f.internal_port = cc (same.port) in
    let fields =
      with_destination-dst e.internal_ip e.internal_port reply hi (rw ip hip) (rw port hp) in
    (refl, fields.0 ∙ ip, fields.1 ∙ port)

module _ {k : ℕ} {s : Nat} (w : IsWf k s) (pkt : Buffer) (len : ℕ) (fits : reach ≤ pkt.size)
    (bytes : IsBytes pkt.at) (header : 20 ≤ ihl_of pkt) where
  -- On a well-formed table, let a packet of bytes with an IPv4 header of at least 20 bytes, in
  -- a buffer of at least 92 bytes, be translated by `nat_outbound`, and any packets pass
  -- through the NAT after it. A TCP or UDP packet of the same protocol, of at least 34 bytes
  -- and with a header of at least 20 bytes, in a buffer of at least 92 bytes, that is addressed
  -- to the address and port that the first one left with is then translated by `nat_inbound`,
  -- to the address and port that the first one came from.
  pub reply_returns :
      (first : Outcome)
      → nat_outbound s pkt len ≡ some first
      → first.translated ≡ true
      → (t : Nat) → Steps first.nat t
      → (reply : Buffer) (n : ℕ) → IsReply first (protocol_of pkt) reply n
      → (o : Outcome) × (nat_inbound t reply n ≡ some o)
        × (o.translated ≡ true)
        × (dst_ip_of o.packet ≡ src_ip_of pkt)
        × (dst_port_of o.packet ≡ src_port_of pkt)
  reply_returns first h success t later reply n back =
      let out =
        result_of_returns _ (OutboundResult k s pkt len) first (nat_outbound_lem w pkt len fits)
          h in
      let out_sent = OutboundResult-IsSent header out success in
      let first_wf = (OutboundResult-Evolves w out).wf in
      let evolves = Steps-Evolves first_wf later in
      let (f, at, same) =
        evolves.kept out_sent.index out_sent.entry out_sent.at out_sent.for.live in
      let answer = nat_inbound_lem evolves.wf reply n back.room in
      let mapped : IsMapped (dst_port_of reply) (protocol_of reply) f = record {
        live = same.live ∙ out_sent.for.live;
        external = same.external ∙ sym out_sent.source_port ∙ sym back.port;
        proto = same.proto ∙ out_sent.for.proto ∙ sym back.proto;
      } in
      let ip : f.internal_ip ≡ src_ip_of pkt = same.ip ∙ out_sent.for.ip in
      let port : f.internal_port ≡ src_port_of pkt = same.port ∙ out_sent.for.port in
      let ip_fits : src_ip_of pkt < 2 ^ 32 =
        omega (arith, bytes 26, bytes (26 + 1), bytes (26 + 2), bytes (26 + 2 + 1)) in
      let port_fits : src_port_of pkt < 2 ^ 16 =
        omega (arith, bytes (14 + ihl_of pkt), bytes (14 + ihl_of pkt + 1)) in
      let delivered =
        InboundResult-delivered out_sent.index answer.result back.candidate
          (back.ip ∙ out_sent.source) back.header at mapped (rw ip ip_fits) (rw port port_fits) in
      (answer.outcome, answer.returns, delivered.0, delivered.1 ∙ ip, delivered.2 ∙ port)
