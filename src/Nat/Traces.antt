-- ===== src/Nat/Traces.antt =====
-- `nat_inbound` of nat.c against the list of flows, and rows of packets from both sides.
use burst_kernel_virtual_mac.Base.{
  ℕ, ap₂, ◌+◌, ◌^◌, ◌≤◌, ◌<◌, ◌≡◌, ◌∙◌, refl, ap, true, false, ◌&&◌, Option, some, List, [], ◌∷◌,
  arith, ltb, ◌==◌, find_index, inl, inr, Bool-cases,
}
use burst_kernel_virtual_mac.Packet.{Buffer, load8_lem, load16_lem, load32_lem}
use burst_kernel_virtual_mac.Checksum.Words.{IsBytes}
use burst_kernel_virtual_mac.Nat.{
  Nat, wan_ip, is_mapping, receive_session, inbound_session, inbound_address, nat_inbound,
  is_translated_protocol,
}
use burst_kernel_virtual_mac.Nat.Rewrite.{translate_lem}
use burst_kernel_virtual_mac.Nat.Session.{touch-Touched}
use burst_kernel_virtual_mac.Nat.Outbound.{reach, protocol_of, ihl_of}
use burst_kernel_virtual_mac.Nat.Inbound.{dst_ip_of, dst_port_of, with_destination}
use burst_kernel_virtual_mac.Nat.Spec.{
  Flow, owner, Event, outward, inward, packet_of, is_candidate, answer, answers, translate_one,
  translate_all,
}
use burst_kernel_virtual_mac.Nat.Refine.{Shows, Shows-Extends}
use burst_kernel_virtual_mac.Nat.Answers.{Agrees, candidate_parts, outward-Agrees}
use burst_kernel_virtual_mac.Nat.Owner.{Owned, owned, nobody, owner-Owned}

module _ (fs : List Flow) (s : Nat) (v : Shows fs s) (pkt : Buffer) (len : ℕ)
    (fits : reach ≤ pkt.size) where
  -- Behind the guards.
  inbound_guarded :
      is_candidate len pkt ≡ true
      → (dst_ip_of pkt == wan_ip) ≡ true
      → nat_inbound s pkt len
        ≡ receive_session (protocol_of pkt) (ihl_of pkt) (dst_ip_of pkt) (dst_port_of pkt) s pkt
  unfolding nat_inbound inbound_address inbound_session
  inbound_guarded h here =
      let (long, tcp_or_udp) = candidate_parts len pkt h in
      rw
        (
          long,
          load8_lem pkt 23 (omega arith),
          tcp_or_udp,
          load32_lem pkt 30 (omega arith),
          here,
          load8_lem pkt 14 (omega arith),
          load16_lem pkt (14 + ihl_of pkt + 2) (omega arith),
        )
        refl

  Owned-Agrees :
      (l : Option Flow) (r : Option ℕ)
      → (is_candidate len pkt && dst_ip_of pkt == wan_ip) ≡ true
      → owner (dst_port_of pkt) (protocol_of pkt) fs ≡ l
      → find_index (is_mapping (dst_port_of pkt) (protocol_of pkt)) s.table ≡ r
      → Owned (dst_port_of pkt) (protocol_of pkt) s l r
      → Agrees (inward pkt len) fs s
  unfolding translate_one answer receive_session
  Owned-Agrees l r ok el er nobody = record {
    outcome = record { translated = false; nat = s; packet = pkt };
    returns = inbound_guarded (ground arith) (ground arith) ∙ rw (er, receive_session) refl;
    same = rw (ok, el, answer) refl;
    shows = rw (ok, el, answer) v;
  }
  Owned-Agrees l r ok el er (owned n f e at_n live for) =
      let touched = touch-Touched n e v.wf at_n live in
      let ip = touched.entry.internal_ip in
      let port = touched.entry.internal_port in
      let rewrite =
        translate_lem (dst_ip_of pkt) ip (dst_port_of pkt) port (protocol_of pkt) (ihl_of pkt) 30
          (14 + ihl_of pkt + 2) pkt fits (omega arith) (omega arith) (omega arith) in
      record {
        outcome = record {
          translated = true;
          nat = touched.nat;
          packet = with_destination ip port pkt;
        };
        returns =
            inbound_guarded (ground arith) (ground arith)
            ∙ rw (er, touched.returns, rewrite, receive_session) refl;
        same =
            rw (ok, el, answer)
              (ap₂ (λ i p. (true, with_destination i p pkt)) (touched.same.ip ∙ for.ip)
                (touched.same.port ∙ for.port));
        shows = rw (ok, el, answer) (Shows-Extends fs s touched.nat v touched.wf touched.kept);
      }

  skipped_inbound :
      (is_candidate len pkt && dst_ip_of pkt == wan_ip) ≡ false
      → nat_inbound s pkt len ≡ some (record { translated = false; nat = s; packet = pkt })
  unfolding nat_inbound inbound_address
  skipped_inbound off = elim (Bool-cases (ltb len 34)) [
    | inl short ↦ rw short refl
    | inr long ↦ elim (Bool-cases (is_translated_protocol (protocol_of pkt))) [
      | inr other ↦ rw (long, load8_lem pkt 23 (omega arith), other) refl
      | inl tcp_or_udp ↦
          let away : (dst_ip_of pkt == wan_ip) ≡ false = ground arith in
          rw
            (
              long,
              load8_lem pkt 23 (omega arith),
              tcp_or_udp,
              load32_lem pkt 30 (omega arith),
              away,
            )
            refl
    ]
  ]

  inward-Agrees : dst_port_of pkt < 2 ^ 16 → Agrees (inward pkt len) fs s
  unfolding translate_one answer
  inward-Agrees port = elim (Bool-cases (is_candidate len pkt && dst_ip_of pkt == wan_ip)) [
    | inl ok ↦
        Owned-Agrees _ _ ok refl refl (owner-Owned (dst_port_of pkt) (protocol_of pkt) fs s v port)
    | inr off ↦ record {
      outcome = record { translated = false; nat = s; packet = pkt };
      returns = skipped_inbound off;
      same = rw (off, answer) refl;
      shows = rw (off, answer) v;
    }
  ]

-- Frames of bytes in buffers that a translation may reach into.
abbrev pub AllFrames : List Event → Type 0
AllFrames [] = Unit
AllFrames (e ∷ es) = IsBytes (packet_of e).at × (reach ≤ (packet_of e).size) × AllFrames es

one-Agrees :
    (e : Event) (fs : List Flow) (s : Nat)
    → Shows fs s
    → IsBytes (packet_of e).at
    → reach ≤ (packet_of e).size
    → Agrees e fs s
one-Agrees (outward pkt len) fs s v bytes fits = outward-Agrees fs s v pkt len fits
one-Agrees (inward pkt len) fs s v bytes fits =
    inward-Agrees fs s v pkt len fits
      (omega (arith, bytes (14 + ihl_of pkt + 2), bytes (14 + ihl_of pkt + 2 + 1)))

-- On a table that shows a list of flows, the code translates any row of frames from both sides,
-- each of bytes in a buffer of at least 92, exactly as the list prescribes: an outward packet
-- of TCP or UDP goes out under the n-th port from 50000 on, where n is the place of its flow in
-- the list, a new flow being put at the end while there are fewer than 2048; an inward one to
-- the WAN address goes to the flow whose number its port stands for, if that flow has its
-- protocol; all others are left alone.
pub translate_all-answers :
    (es : List Event) (fs : List Flow) (s : Nat)
    → Shows fs s
    → AllFrames es
    → translate_all es s ≡ some (answers es fs)
unfolding translate_all answers
translate_all-answers [] fs s v all = refl
translate_all-answers (e ∷ es) fs s v (bytes, fits, all) =
    let a = one-Agrees e fs s v bytes fits in
    let rest = translate_all-answers es (answer e fs).1 a.outcome.nat a.shows all in
    rw (a.returns, rest) (ap (λ x. some (x ∷ answers es (answer e fs).1)) a.same)
