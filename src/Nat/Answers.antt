-- ===== src/Nat/Answers.antt =====
-- `nat_outbound` and `nat_inbound` of nat.c against the list of flows, packet by packet.
use burst_kernel_virtual_mac.Base.{
  ℕ, ◌+◌, ◌≤◌, ◌≡◌, ◌∙◌, refl, ap, true, false, Option, some, List, arith, ltb, inl, inr,
  Bool-cases,
}
use burst_kernel_virtual_mac.Packet.{Buffer, load8_lem, load16_lem, load32_lem}
use burst_kernel_virtual_mac.Nat.{
  Nat, Outcome, wan_ip, find_session, send_session, outbound_session, nat_outbound,
  is_translated_protocol,
}
use burst_kernel_virtual_mac.Nat.Rewrite.{translate_lem}
use burst_kernel_virtual_mac.Nat.Session.{touch-Touched}
use burst_kernel_virtual_mac.Nat.Outbound.{
  reach, protocol_of, ihl_of, src_ip_of, src_port_of, with_source,
}
use burst_kernel_virtual_mac.Nat.Spec.{
  Flow, flow_of, outer_port, lease, Event, outward, is_candidate, answer, translate_one,
}
use burst_kernel_virtual_mac.Nat.Refine.{
  Shows, Shows-Extends, Leased, leased, no_room, lease-Leased,
}

-- What the code makes of a packet, and what the list of flows does.
pub record Agrees (e : Event) (fs : List Flow) (s : Nat) : Type 0 where
  pub outcome : Outcome
  pub returns : translate_one e s ≡ some outcome
  pub same : (outcome.translated, outcome.packet) ≡ (answer e fs).0
  pub shows : Shows (answer e fs).1 outcome.nat

pub candidate_parts :
    (len : ℕ) (pkt : Buffer)
    → is_candidate len pkt ≡ true
    → (ltb len 34 ≡ false) × (is_translated_protocol (protocol_of pkt) ≡ true)
candidate_parts len pkt h = (ground arith, ground arith)

module _ (fs : List Flow) (s : Nat) (v : Shows fs s) (pkt : Buffer) (len : ℕ)
    (fits : reach ≤ pkt.size) where
  -- Behind the guards.
  outbound_guarded :
      is_candidate len pkt ≡ true
      → nat_outbound s pkt len
        ≡ send_session (protocol_of pkt) (ihl_of pkt) (src_ip_of pkt) (src_port_of pkt) s pkt
  unfolding nat_outbound outbound_session
  outbound_guarded h =
      let (long, tcp_or_udp) = candidate_parts len pkt h in
      rw
        (
          long,
          load8_lem pkt 23 (omega arith),
          tcp_or_udp,
          load32_lem pkt 26 (omega arith),
          load8_lem pkt 14 (omega arith),
          load16_lem pkt (14 + ihl_of pkt) (omega arith),
        )
        refl

  Leased-Agrees :
      (l : Option (ℕ × List Flow)) (r : Option (ℕ × Nat))
      → is_candidate len pkt ≡ true
      → lease (flow_of pkt) fs ≡ l
      → find_session (src_ip_of pkt) (src_port_of pkt) (protocol_of pkt) s ≡ r
      → Leased (flow_of pkt) fs s l r
      → Agrees (outward pkt len) fs s
  unfolding translate_one answer send_session
  Leased-Agrees l r ok el er no_room = record {
    outcome = record { translated = false; nat = s; packet = pkt };
    returns = outbound_guarded ok ∙ rw (er, send_session) refl;
    same = rw (ok, el, answer) refl;
    shows = rw (ok, el, answer) v;
  }
  Leased-Agrees l r ok el er (leased n fs' t e shows kept clock at_n for lt) =
      let touched = touch-Touched n e shows.wf at_n for.live in
      let port = touched.entry.external_port in
      let external : port ≡ outer_port n = touched.same.external ∙ (shows.wf.used n e at_n lt).1 in
      let rewrite =
        translate_lem (src_ip_of pkt) wan_ip (src_port_of pkt) port (protocol_of pkt) (ihl_of pkt)
          26 (14 + ihl_of pkt) pkt fits (omega arith) (omega arith) (omega arith) in
      record {
        outcome = record { translated = true; nat = touched.nat; packet = with_source port pkt };
        returns = outbound_guarded ok ∙ rw (er, touched.returns, rewrite, send_session) refl;
        same = rw (ok, el, answer) (ap (λ p. (true, with_source p pkt)) external);
        shows = rw (ok, el, answer) (Shows-Extends fs' t touched.nat shows touched.wf touched.kept);
      }

  skipped_outbound :
      is_candidate len pkt ≡ false
      → nat_outbound s pkt len ≡ some (record { translated = false; nat = s; packet = pkt })
  unfolding nat_outbound
  skipped_outbound off = elim (Bool-cases (ltb len 34)) [
    | inl short ↦ rw short refl
    | inr long ↦
        let other : is_translated_protocol (protocol_of pkt) ≡ false = ground arith in
        rw (long, load8_lem pkt 23 (omega arith), other) refl
  ]

  pub outward-Agrees : Agrees (outward pkt len) fs s
  unfolding translate_one answer
  outward-Agrees = elim (Bool-cases (is_candidate len pkt)) [
    | inl ok ↦ Leased-Agrees _ _ ok refl refl (lease-Leased (flow_of pkt) fs s v)
    | inr off ↦ record {
      outcome = record { translated = false; nat = s; packet = pkt };
      returns = skipped_outbound off;
      same = rw (off, answer) refl;
      shows = rw (off, answer) v;
    }
  ]
